-- ===== src/Shared.antt =====
-- control_node/services/shared.py: the virtual directory of what others share, which is a view. The
-- directory that a path starts in is found here, the only place that knows the virtual prefix.
pub mod Reading
use dfsha_telematica.Prelude.{
  ℕ, String, Bool, true, false, not, ◌&&◌, ◌||◌, Option, none, some, List, [], ◌∷◌, ltb, find_first,
  keep, sorted, ◌==◌, string_eq, list_eq, nat_eq, if◌then◌else◌,
}
use dfsha_telematica.Errors.{not_found, virtual_root, virtual_user}
use dfsha_telematica.FilePath.{Text, FilePath, codes}
use dfsha_telematica.Entities.{User, Directory}
use dfsha_telematica.Acl.{Permission, PrincipalType, user, group}
use dfsha_telematica.Rows.{AclRow}
use dfsha_telematica.Session.{Exec, gets, pure, raise, ◌>>=◌}
use dfsha_telematica.Database.{Database}
use dfsha_telematica.Repositories.DirectoryRows.{get, is_live}
use dfsha_telematica.Repositories.AclRows.{groups_of, shared_with, get_user, get_by_username}
use dfsha_telematica.Resolver.{resolve_root}

abbrev pub shared_root : Text
shared_root = codes "compartido-conmigo"

pub record Scope : Type 0 where
  pub start : Directory
  pub owner_id : String
  pub rest : FilePath
  pub shared : Bool
  pub owner_username : Text
  pub share_name : Text

abbrev pub starts_shared : List Text → Bool
starts_shared [] = false
starts_shared (s ∷ ss) = s == shared_root

unfoldable pub is_shared_path : FilePath → Bool
is_shared_path path = starts_shared path.segments

pub record SharedEntry : Type 0 where
  pub directory : Directory
  pub owner_id : String
  pub owner_username : Text
  pub share_name : Text
  pub permission : Permission
  pub via_group : String

-- Texts by code point, a prefix first.
abbrev pub text_leb : Text → Text → Bool
text_leb [] t = true
text_leb (c ∷ s) [] = false
text_leb (c ∷ s) (d ∷ t) = ltb c d || (c == d && text_leb s t)

-- The pair (owner_username, share_name).
abbrev pub listed_before : SharedEntry → SharedEntry → Bool
listed_before a b =
    if a.owner_username == b.owner_username
    then text_leb a.share_name b.share_name
    else text_leb a.owner_username b.owner_username

abbrev pub or_text : Text → Text → Text
or_text [] t = t
or_text (c ∷ s) t = c ∷ s

abbrev pub group_name : PrincipalType → String → String
group_name user principal_id = ""
group_name group principal_id = principal_id

abbrev pub entry_from : AclRow → Directory → User → SharedEntry
entry_from row directory owner = record {
  directory = directory;
  owner_id = directory.owner_id;
  owner_username = owner.username;
  share_name = or_text directory.name owner.username;
  permission = row.permission;
  via_group = group_name row.principal_type row.principal_id;
}

-- What the loop does for one grant: the relics, and what is the user's own, are passed over.
abbrev pub owned_entry : AclRow → Directory → Option User → List SharedEntry
owned_entry row directory none = []
owned_entry row directory (some owner) = entry_from row directory owner ∷ []

abbrev pub entry_for_row : String → AclRow → Option Directory → Exec Database (List SharedEntry)
entry_for_row user_id row none = pure []
entry_for_row user_id row (some directory) =
    if not (is_live directory.deleted_at) || directory.owner_id == user_id
    then pure []
    else (do owner ← get_user directory.owner_id; pure (owned_entry row directory owner))

abbrev pub joined : List SharedEntry → List SharedEntry → List SharedEntry
joined [] ys = ys
joined (x ∷ xs) ys = x ∷ joined xs ys

abbrev pub collect : String → List AclRow → Exec Database (List SharedEntry)
collect user_id [] = pure []
collect user_id (row ∷ rows) = do
  directory ← get row.directory_id
  here ← entry_for_row user_id row directory
  rest ← collect user_id rows
  pure (joined here rest)

unfoldable pub shared_entries : String → Exec Database (List SharedEntry)
shared_entries user_id = do
  groups ← groups_of user_id
  rows ← shared_with user_id groups
  entries ← collect user_id rows
  pure (sorted listed_before entries)

abbrev pub own_scope : String → FilePath → Exec Database Scope
own_scope user_id path = do
  root ← resolve_root user_id
  pure (record {
    start = root;
    owner_id = user_id;
    rest = path;
    shared = false;
    owner_username = [];
    share_name = [];
  })

abbrev pub scope_in : String → Text → Text → List Text → Option SharedEntry → Exec Database Scope
scope_in owner_id username share_name rest none = raise not_found
scope_in owner_id username share_name rest (some e) = pure (record {
  start = e.directory;
  owner_id = owner_id;
  rest = record { segments = rest };
  shared = true;
  owner_username = username;
  share_name = share_name;
})

abbrev pub scope_of_owner : String → Text → List Text → Option User → Exec Database Scope
scope_of_owner user_id username rest none = raise not_found
scope_of_owner user_id username [] (some owner) = do
  entries ← shared_entries user_id
  raise virtual_user
scope_of_owner user_id username (n ∷ rest) (some owner) = do
  entries ← shared_entries user_id
  scope_in owner.id username n rest (
      find_first (λ (e : SharedEntry). e.share_name == n)
        (keep (λ (e : SharedEntry). e.owner_id == owner.id) entries))

-- The segments after the virtual prefix.
abbrev pub shared_scope : String → List Text → Exec Database Scope
shared_scope user_id [] = raise virtual_root
shared_scope user_id (username ∷ rest) = do
  owner ← get_by_username username
  scope_of_owner user_id username rest owner

abbrev pub scope_from : String → FilePath → List Text → Exec Database Scope
scope_from user_id path [] = own_scope user_id path
scope_from user_id path (s ∷ rest) =
    if s == shared_root then shared_scope user_id rest else own_scope user_id path

-- `is_shared_path` looks at the first segment.
unfoldable pub resolve_scope : String → FilePath → Exec Database Scope
resolve_scope user_id path = scope_from user_id path path.segments
