-- ===== src/Permissions.antt =====
-- control_node/services/permissions.py: the one place where something is authorised. The log line
-- of a denial is not modelled.
pub mod Reading
pub mod Nearest
pub mod Above
pub mod Authority
pub mod Reached
pub mod Granting
pub mod Owning
use dfsha_telematica.Prelude.{
  ℕ, zero, suc, String, Bool, true, false, Option, none, some, List, [], ◌∷◌, map, length, leb,
  ◌==◌, string_eq, if◌then◌else◌,
}
use dfsha_telematica.Errors.{not_found, not_authorized, runtime_error}
use dfsha_telematica.Entities.{Directory}
use dfsha_telematica.Rows.{AclRow}
use dfsha_telematica.Acl.{Permission, rank, Grant, resolve}
use dfsha_telematica.Session.{Exec, gets, pure, raise, ◌>>=◌}
use dfsha_telematica.Database.{Database}
use dfsha_telematica.Repositories.DirectoryRows.{by_id}
use dfsha_telematica.Repositories.AclRows.{entries_for, groups_of, grouped}

pub record Access : Type 0 where
  pub directory : Directory
  pub owner_id : String
  pub grant : Option Grant

abbrev pub at_least : Option Grant → Permission → Bool
at_least none minimum = false
at_least (some g) minimum = leb (rank minimum) (rank g.permission)

unfoldable pub allows : Access → Permission → Bool
allows a minimum = at_least a.grant minimum

abbrev pub via_row :
    List Directory
    → (Directory → Option (List Directory))
    → Option Directory
    → Option (List Directory)
via_row collected next none = some collected
via_row collected next (some parent) = next parent

-- The test of the loop, and the row of the parent.
abbrev pub via_parent :
    List Directory
    → List Directory
    → (Directory → Option (List Directory))
    → Option String
    → Option (List Directory)
via_parent rows collected next none = some collected
via_parent rows collected next (some up) = elim (up == "") [
  | true ↦ some collected
  | false ↦ via_row collected next (by_id up rows)
]

-- The loop of `ancestor_chain`, from a directory up; `below` is what it has collected, the lowest
-- last. Without fuel it has not ended.
abbrev pub chain_up : List Directory → ℕ → Directory → List Directory → Option (List Directory)
chain_up rows zero current below = none
chain_up rows (suc fuel) current below =
    via_parent rows (current ∷ below) (λ parent. chain_up rows fuel parent (current ∷ below))
      current.parent_id

abbrev pub found_chain : Option (List Directory) → Exec Database (List Directory)
found_chain none = raise runtime_error
found_chain (some chain) = pure chain

-- In a table without cycles a chain is no longer than the table.
unfoldable pub ancestor_chain : Directory → Exec Database (List Directory)
ancestor_chain directory = do
  chain ← gets (λ db. chain_up db.directories (suc (length db.directories)) directory [])
  found_chain chain

abbrev pub owner_of : Directory → String
owner_of d = d.owner_id

-- The groups are read only if there is a grant at all on the chain.
abbrev pub groups_if_any : List AclRow → String → Exec Database (List String)
groups_if_any [] user_id = pure []
groups_if_any (r ∷ rs) user_id = groups_of user_id

abbrev pub access_of : String → Directory → List String → List AclRow → List String → Access
access_of user_id directory ids rows groups = record {
  directory = directory;
  owner_id = directory.owner_id;
  grant = resolve user_id (owner_of directory) ids (grouped rows) groups;
}

unfoldable pub effective_permission : String → Directory → Exec Database Access
effective_permission user_id directory = do
  chain ← ancestor_chain directory
  rows ← entries_for (map (λ (d : Directory). d.id) chain)
  groups ← groups_if_any rows user_id
  pure (access_of user_id directory (map (λ (d : Directory). d.id) chain) rows groups)

abbrev pub refused : Option Grant → Exec Database Access
refused none = raise not_found
refused (some g) = raise not_authorized

unfoldable pub require : String → Directory → Permission → Exec Database Access
unfolding allows
require user_id directory minimum = do
  access ← effective_permission user_id directory
  if allows access minimum then pure access else refused access.grant
