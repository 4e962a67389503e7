-- ===== src/Reaching.antt =====
-- control_node/services/access.py: a path is resolved and authorised in one step.
pub mod Reading
use dfsha_telematica.Prelude.{
  String, Bool, true, false, not, Option, none, some, List, [], ◌∷◌, if◌then◌else◌,
}
use dfsha_telematica.Errors.{not_found}
use dfsha_telematica.FilePath.{Text, FilePath, parent, name}
use dfsha_telematica.Entities.{Directory, File}
use dfsha_telematica.Acl.{Permission}
use dfsha_telematica.Session.{Exec, gets, pure, raise, lift, ◌>>=◌}
use dfsha_telematica.Database.{Database}
use dfsha_telematica.Repositories.DirectoryRows.{get_child}
use dfsha_telematica.Repositories.FileRows.{get_live_by_name}
use dfsha_telematica.Resolver.{descend}
use dfsha_telematica.Permissions.{Access, require}
use dfsha_telematica.Shared.{Scope, resolve_scope}

pub record ResolvedAccess : Type 0 where
  pub path : FilePath
  pub scope : Scope
  pub access : Access
  pub directory : Option Directory
  pub file : Option File

abbrev pub is_some {ℓ} : {A : Type ℓ} → Option A → Bool
is_some none = false
is_some (some a) = true

-- The same loop as that of `find_directory`, from any directory.
unfoldable pub walk : Directory → FilePath → Exec Database (Option Directory)
walk start rest = gets (λ db. descend db.directories rest.segments start)

abbrev pub directory_in :
    String → FilePath → Permission → Scope → Option Directory → Exec Database ResolvedAccess
directory_in user_id path minimum scope none = raise not_found
directory_in user_id path minimum scope (some directory) = do
  access ← require user_id directory minimum
  pure (record {
    path = path;
    scope = scope;
    access = access;
    directory = some directory;
    file = none;
  })

unfoldable pub directory_for : String → FilePath → Permission → Exec Database ResolvedAccess
directory_for user_id path minimum = do
  scope ← resolve_scope user_id path
  found ← walk scope.start scope.rest
  directory_in user_id path minimum scope found

abbrev pub entry_at_start : String → FilePath → Permission → Scope → Exec Database ResolvedAccess
entry_at_start user_id path minimum scope = do
  access ← require user_id scope.start minimum
  pure (record {
    path = path;
    scope = scope;
    access = access;
    directory = some scope.start;
    file = none;
  })

-- A directory of that name, else a file, else nothing.
abbrev pub entry_named :
    FilePath → Scope → Access → Directory → Text → Option Directory → Exec Database ResolvedAccess
entry_named path scope access up n (some d) =
    pure (record { path = path; scope = scope; access = access; directory = some d; file = none })
entry_named path scope access up n none = do
  f ← get_live_by_name up.id n
  pure (record { path = path; scope = scope; access = access; directory = none; file = f })

abbrev pub entry_under :
    String → FilePath → Permission → Scope → Option Directory → Exec Database ResolvedAccess
entry_under user_id path minimum scope none = raise not_found
entry_under user_id path minimum scope (some up) = do
  access ← require user_id up minimum
  n ← lift (name scope.rest)
  d ← get_child up.id n
  entry_named path scope access up n d

abbrev pub entry_below : String → FilePath → Permission → Scope → Exec Database ResolvedAccess
entry_below user_id path minimum scope = do
  up ← walk scope.start (parent scope.rest)
  entry_under user_id path minimum scope up

abbrev pub entry_in_scope :
    String → FilePath → Permission → Scope → List Text → Exec Database ResolvedAccess
entry_in_scope user_id path minimum scope [] = entry_at_start user_id path minimum scope
entry_in_scope user_id path minimum scope (n ∷ ns) = entry_below user_id path minimum scope

unfoldable pub entry_for : String → FilePath → Permission → Exec Database ResolvedAccess
entry_for user_id path minimum = do
  scope ← resolve_scope user_id path
  entry_in_scope user_id path minimum scope scope.rest.segments
