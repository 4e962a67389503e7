-- ===== src/Shared/Reading.antt =====
-- control_node/services/resolver.py and shared.py only read.
use dfsha_telematica.Prelude.{
  String, refl, not, ◌||◌, Option, none, some, List, [], ◌∷◌, ◌==◌, string_eq, list_eq, nat_eq,
}
use dfsha_telematica.Entities.{User, Directory}
use dfsha_telematica.FilePath.{Text, FilePath}
use dfsha_telematica.Rows.{AclRow}
use dfsha_telematica.Repositories.DirectoryRows.{is_live}
use dfsha_telematica.Resolver.{found_or_fail, resolve_root, find_directory}
use dfsha_telematica.Shared.{
  SharedEntry, entry_for_row, collect, shared_entries, own_scope, scope_in, scope_of_owner,
  shared_scope, scope_from, resolve_scope, shared_root,
}
use dfsha_telematica.Session.Reading.{Reads, Reads-if, Reads-then}

found_or_fail-Reads : (o : Option Directory) → Reads (found_or_fail o)
found_or_fail-Reads none s = refl
found_or_fail-Reads (some d) s = refl

pub resolve_root-Reads : (user_id : String) → Reads (resolve_root user_id)
unfolding resolve_root
resolve_root-Reads user_id s = found_or_fail-Reads _ s

pub find_directory-Reads :
    (user_id : String) (path : FilePath) → Reads (find_directory user_id path)
unfolding find_directory
find_directory-Reads user_id path s =
    Reads-then (resolve_root user_id) s _ (resolve_root-Reads user_id) (λ root s'. refl)

pub entry_for_row-Reads :
    (user_id : String) (row : AclRow) (o : Option Directory) → Reads (entry_for_row user_id row o)
entry_for_row-Reads user_id row none = λ s. refl
entry_for_row-Reads user_id row (some d) =
    Reads-if (not (is_live d.deleted_at) || d.owner_id == user_id) _ _ (λ s. refl) (λ s. refl)

pub collect-Reads : (user_id : String) (rows : List AclRow) → Reads (collect user_id rows)
collect-Reads user_id [] s = refl
collect-Reads user_id (row ∷ rows) s =
    Reads-then (entry_for_row user_id row _) s _ (entry_for_row-Reads user_id row _) (λ here s'.
      Reads-then (collect user_id rows) s' _ (collect-Reads user_id rows) (λ rest s''. refl))

pub shared_entries-Reads : (user_id : String) → Reads (shared_entries user_id)
unfolding shared_entries
shared_entries-Reads user_id s =
    Reads-then (collect user_id _) s _ (collect-Reads user_id _) (λ entries s'. refl)

own_scope-Reads : (user_id : String) (path : FilePath) → Reads (own_scope user_id path)
own_scope-Reads user_id path s =
    Reads-then (resolve_root user_id) s _ (resolve_root-Reads user_id) (λ root s'. refl)

scope_in-Reads :
    (owner_id : String) (username name : Text) (rest : List Text) (o : Option SharedEntry)
    → Reads (scope_in owner_id username name rest o)
scope_in-Reads owner_id username name rest none s = refl
scope_in-Reads owner_id username name rest (some e) s = refl

scope_of_owner-Reads :
    (user_id : String) (username : Text) (rest : List Text) (o : Option User)
    → Reads (scope_of_owner user_id username rest o)
scope_of_owner-Reads user_id username rest none s = refl
scope_of_owner-Reads user_id username [] (some owner) s =
    Reads-then (shared_entries user_id) s _ (shared_entries-Reads user_id) (λ entries s'. refl)
scope_of_owner-Reads user_id username (n ∷ rest) (some owner) s =
    Reads-then (shared_entries user_id) s _ (shared_entries-Reads user_id)
      (λ entries. scope_in-Reads owner.id username n rest _)

shared_scope-Reads : (user_id : String) (rest : List Text) → Reads (shared_scope user_id rest)
shared_scope-Reads user_id [] s = refl
shared_scope-Reads user_id (username ∷ rest) s = scope_of_owner-Reads user_id username rest _ s

scope_from-Reads :
    (user_id : String) (path : FilePath) (ss : List Text) → Reads (scope_from user_id path ss)
scope_from-Reads user_id path [] = own_scope-Reads user_id path
scope_from-Reads user_id path (s ∷ rest) =
    Reads-if (s == shared_root) _ _ (shared_scope-Reads user_id rest) (own_scope-Reads user_id path)

pub resolve_scope-Reads : (user_id : String) (path : FilePath) → Reads (resolve_scope user_id path)
unfolding resolve_scope
resolve_scope-Reads user_id path = scope_from-Reads user_id path path.segments
