-- ===== src/Commands/Namespace/Entries.antt =====
-- control_node/services/access.py: what a path leads to, and the right that was asked for it.
use dfsha_telematica.Prelude.{String, ◌≡◌, refl, ap, Option, none, some, List, [], ◌∷◌}
use dfsha_telematica.Errors.{ok, not_found}
use dfsha_telematica.FilePath.{Text, FilePath, parent, name}
use dfsha_telematica.Entities.{Directory}
use dfsha_telematica.Acl.{Permission}
use dfsha_telematica.Session.{Session, lift}
use dfsha_telematica.Session.Reading.{Answers, answers_then, pure_answers, raise_answers}
use dfsha_telematica.Database.{Database}
use dfsha_telematica.Repositories.DirectoryRows.{child_of}
use dfsha_telematica.Repositories.FileRows.{live_by_name}
use dfsha_telematica.Resolver.{descend}
use dfsha_telematica.Permissions.{Access, require}
use dfsha_telematica.Permissions.Reading.{require-Reads}
use dfsha_telematica.Permissions.Authority.{Authorised, require-Authorised}
use dfsha_telematica.Shared.{Scope, resolve_scope}
use dfsha_telematica.Shared.Reading.{resolve_scope-Reads}
use dfsha_telematica.Reaching.{
  ResolvedAccess, walk, directory_in, directory_for, entry_named, entry_under, entry_in_scope,
  entry_for,
}
use dfsha_telematica.Commands.Namespace.Starting.{
  IsLive, FoundLive, resolve_scope-IsLive, descended-IsLive,
}

module _ (user_id : String) (path : FilePath) (minimum : Permission) (s : Session Database) where
  -- A live directory on which the user has the right.
  pub record Open (d : Directory) : Type 0 where
    pub row : IsLive s.working.directories d
    pub authorised : Authorised user_id d minimum s.working

  -- What `entry_for` answers: the directory that the path starts in; a directory that stands in one on
  -- which the user has the right; or no directory, and the file of that name, if there is one, in a
  -- directory on which the user has the right.
  pub data Reached (a : ResolvedAccess) : Type 0 where
    at_start : (d : Directory) → Open d → a.directory ≡ some d → a.file ≡ none → Reached a
    at_directory :
        (up d : Directory) (n : Text)
        → Open up
        → child_of up.id n s.working.directories ≡ some d
        → a.directory ≡ some d
        → a.file ≡ none
        → Reached a
    at_file :
        (up : Directory) (n : Text)
        → Open up
        → child_of up.id n s.working.directories ≡ none
        → a.directory ≡ none
        → a.file ≡ live_by_name up.id n s.working.files
        → Reached a

  opened :
      (d : Directory) (access : Access)
      → IsLive s.working.directories d
      → require user_id d minimum s ≡ (ok access, s)
      → Open d
  opened d access l e = record {
    row = l;
    authorised = require-Authorised user_id d minimum s access (ap (λ r. r.0) e);
  }

  abbrev pub OpenDirectory : ResolvedAccess → Type 0
  OpenDirectory a = (d : Directory) × (a.directory ≡ some d) × Open d

  directory_in-Open :
      (scope : Scope) (o : Option Directory)
      → FoundLive s o
      → Answers (directory_in user_id path minimum scope o) s OpenDirectory
  directory_in-Open scope none l = raise_answers not_found s OpenDirectory
  directory_in-Open scope (some d) l =
      answers_then (require user_id d minimum) _ s OpenDirectory (require-Reads user_id d minimum)
        (λ access e. pure_answers _ s OpenDirectory (d, refl, opened d access (l d refl) e))

  -- `directory_for` only answers a live directory on which the user has the right.
  pub directory_for-Open : Answers (directory_for user_id path minimum) s OpenDirectory
  unfolding directory_for walk
  directory_for-Open =
      answers_then (resolve_scope user_id path) _ s OpenDirectory (resolve_scope-Reads user_id path)
        (λ scope e.
          directory_in-Open scope (descend s.working.directories scope.rest.segments scope.start) (
            descended-IsLive s scope.rest.segments scope.start
              (resolve_scope-IsLive user_id path s scope (ap (λ r. r.0) e)) _ refl))

  entry_named-Reached :
      (scope : Scope) (access : Access) (up : Directory) (n : Text) (o : Option Directory)
      → Open up
      → child_of up.id n s.working.directories ≡ o
      → Answers (entry_named path scope access up n o) s Reached
  entry_named-Reached scope access up n (some d) u e =
      pure_answers _ s Reached (at_directory up d n u e refl refl)
  entry_named-Reached scope access up n none u e =
      pure_answers _ s Reached (at_file up n u e refl refl)

  entry_under-Reached :
      (scope : Scope) (o : Option Directory)
      → FoundLive s o
      → Answers (entry_under user_id path minimum scope o) s Reached
  entry_under-Reached scope none l = raise_answers not_found s Reached
  entry_under-Reached scope (some up) l =
      answers_then (require user_id up minimum) _ s Reached (require-Reads user_id up minimum)
        (λ access e.
          answers_then (lift (name scope.rest)) _ s Reached (λ t. refl)
            (λ n e'. entry_named-Reached scope access up n _ (opened up access (l up refl) e) refl))

  entry_in_scope-Reached :
      (scope : Scope) (ss : List Text)
      → IsLive s.working.directories scope.start
      → Answers (entry_in_scope user_id path minimum scope ss) s Reached
  unfolding walk
  entry_in_scope-Reached scope [] l =
      answers_then (require user_id scope.start minimum) _ s Reached
        (require-Reads user_id scope.start minimum)
        (λ access e.
          pure_answers _ s Reached (at_start scope.start (opened scope.start access l e) refl refl))
  entry_in_scope-Reached scope (n ∷ ns) l =
      entry_under-Reached scope
        (descend s.working.directories (parent scope.rest).segments scope.start)
        (descended-IsLive s (parent scope.rest).segments scope.start l _ refl)

  -- `entry_for` only answers what stands at the start of the path, or in a live directory, and the user
  -- has the right on that directory.
  pub entry_for-Reached : Answers (entry_for user_id path minimum) s Reached
  unfolding entry_for
  entry_for-Reached =
      answers_then (resolve_scope user_id path) _ s Reached (resolve_scope-Reads user_id path)
        (λ scope e.
          entry_in_scope-Reached scope scope.rest.segments
            (resolve_scope-IsLive user_id path s scope (ap (λ r. r.0) e)))
