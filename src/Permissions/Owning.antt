-- ===== src/Permissions/Owning.antt =====
-- control_node/services/permissions.py: the owner of a directory passes.
use dfsha_telematica.Prelude.{
  ℕ, String, ◌≡◌, refl, true, List, [], arith, length, All-In, In, leb, ==_iff, string_eq,
}
use dfsha_telematica.Errors.{ok}
use dfsha_telematica.Entities.{Directory}
use dfsha_telematica.Acl.{Permission, rank, AclEntry, admin, resolve}
use dfsha_telematica.Session.{Session}
use dfsha_telematica.Database.{Database}
use dfsha_telematica.Repositories.DirectoryRows.Depth.{IsTree, IsDeep}
use dfsha_telematica.Repositories.AclRows.{rows_for, grouped}
use dfsha_telematica.Permissions.{
  Access, access_of, at_least, allows, ancestor_chain, effective_permission, require,
}
use dfsha_telematica.Permissions.Above.{groups_if_any-ok}
use dfsha_telematica.Permissions.Granting.{ids_of}
use dfsha_telematica.Permissions.Reached.{chain_up-some}

owner_may :
    (user_id owner : String) (minimum : Permission) (ids groups : List String)
    (entries : String → List AclEntry)
    → user_id ≡ owner
    → at_least (resolve user_id owner ids entries groups) minimum ≡ true
unfolding resolve
owner_may user_id owner minimum ids groups entries own =
    let same = (==_iff user_id owner).1 own in rw same (most minimum)
  where
    most : (p : Permission) → leb (rank p) (rank admin) ≡ true
    most p = ground arith

module _ (depth : String → ℕ) (user_id : String) (d : Directory) (minimum : Permission)
    (s : Session Database) where
  -- On a table that is a tree `require` lets the owner of a directory pass, whatever is asked.
  pub require-own :
      IsTree depth s.working.directories
      → In d s.working.directories
      → user_id ≡ d.owner_id
      → (a : Access) × (require user_id d minimum s ≡ (ok a, s))
  unfolding require effective_permission ancestor_chain allows
  require-own tree held own =
      let rows = s.working.directories in
      let deep = All-In (IsDeep depth (length rows)) d rows tree held in
      let (chain, e) =
        chain_up-some rows depth tree (length rows) d []
          (λ up p. let lower = deep.1 up p in omega (arith, lower, deep.0)) in
      let held_rows = rows_for (ids_of chain) s.working.acl_entries in
      let (groups, g) = groups_if_any-ok held_rows user_id s in
      let good =
        owner_may user_id d.owner_id minimum (ids_of chain) groups (grouped held_rows) own in
      (access_of user_id d (ids_of chain) held_rows groups, rw (e, g, good) refl)
