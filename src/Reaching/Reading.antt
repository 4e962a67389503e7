-- ===== src/Reaching/Reading.antt =====
-- control_node/services/access.py only reads.
use dfsha_telematica.Prelude.{String, refl, Option, none, some, List, [], ◌∷◌}
use dfsha_telematica.Entities.{Directory}
use dfsha_telematica.FilePath.{Text, FilePath}
use dfsha_telematica.Acl.{Permission}
use dfsha_telematica.Permissions.{Access, require}
use dfsha_telematica.Permissions.Reading.{require-Reads}
use dfsha_telematica.Shared.{Scope, resolve_scope}
use dfsha_telematica.Shared.Reading.{resolve_scope-Reads}
use dfsha_telematica.Reaching.{
  walk, directory_in, directory_for, entry_named, entry_under, entry_in_scope, entry_for,
}
use dfsha_telematica.FilePath.{name, parent}
use dfsha_telematica.Session.{lift}
use dfsha_telematica.Session.Reading.{Reads, Reads-then}

pub walk-Reads : (start : Directory) (rest : FilePath) → Reads (walk start rest)
unfolding walk
walk-Reads start rest s = refl

module _ (user_id : String) (path : FilePath) (minimum : Permission) where
  directory_in-Reads :
      (scope : Scope) (o : Option Directory) → Reads (directory_in user_id path minimum scope o)
  directory_in-Reads scope none s = refl
  directory_in-Reads scope (some d) s =
      Reads-then (require user_id d minimum) s _ (require-Reads user_id d minimum)
        (λ access s'. refl)

  pub directory_for-Reads : Reads (directory_for user_id path minimum)
  unfolding directory_for
  directory_for-Reads s =
      Reads-then (resolve_scope user_id path) s _ (resolve_scope-Reads user_id path) (λ scope s'.
        Reads-then (walk scope.start scope.rest) s' _ (walk-Reads scope.start scope.rest)
          (directory_in-Reads scope))

  pub entry_named-Reads :
      (scope : Scope) (access : Access) (up : Directory) (n : Text) (o : Option Directory)
      → Reads (entry_named path scope access up n o)
  entry_named-Reads scope access up n none s = refl
  entry_named-Reads scope access up n (some d) s = refl

  entry_under-Reads :
      (scope : Scope) (o : Option Directory) → Reads (entry_under user_id path minimum scope o)
  entry_under-Reads scope none s = refl
  entry_under-Reads scope (some up) s =
      Reads-then (require user_id up minimum) s _ (require-Reads user_id up minimum) (λ access s'.
        Reads-then (lift (name scope.rest)) s' _ (λ t. refl)
          (λ n s''. entry_named-Reads scope access up n _ s''))

  entry_in_scope-Reads :
      (scope : Scope) (ss : List Text) → Reads (entry_in_scope user_id path minimum scope ss)
  entry_in_scope-Reads scope [] s =
      Reads-then (require user_id scope.start minimum) s _
        (require-Reads user_id scope.start minimum) (λ access s'. refl)
  entry_in_scope-Reads scope (n ∷ ns) s =
      Reads-then (walk scope.start (parent scope.rest)) s _ (walk-Reads scope.start _)
        (entry_under-Reads scope)

  pub entry_for-Reads : Reads (entry_for user_id path minimum)
  unfolding entry_for
  entry_for-Reads s =
      Reads-then (resolve_scope user_id path) s _ (resolve_scope-Reads user_id path)
        (λ scope. entry_in_scope-Reads scope scope.rest.segments)
