-- ===== src/Resolver.antt =====
-- control_node/services/resolver.py: from paths to rows, always from the root of the user who asks.
pub mod Located
use dfsha_telematica.Prelude.{
  String, Bool, true, false, ◌||◌, Option, none, some, List, [], ◌∷◌, if◌then◌else◌,
}
use dfsha_telematica.Errors.{not_found}
use dfsha_telematica.FilePath.{Text, FilePath, is_root, parent, name}
use dfsha_telematica.Entities.{Directory, File}
use dfsha_telematica.Session.{Exec, gets, pure, raise, lift, ◌>>=◌}
use dfsha_telematica.Database.{Database}
use dfsha_telematica.Repositories.DirectoryRows.{get_root, get_child, child_of}
use dfsha_telematica.Repositories.FileRows.{get_live_by_name}

abbrev pub found_or_fail : Option Directory → Exec Database Directory
found_or_fail none = raise not_found
found_or_fail (some d) = pure d

unfoldable pub resolve_root : String → Exec Database Directory
resolve_root owner_id = do root ← get_root owner_id; found_or_fail root

-- The loop of `find_directory`.
abbrev pub descend : List Directory → List Text → Directory → Option Directory
descend rows [] current = some current
descend rows (n ∷ ns) current = elim (child_of current.id n rows) [
  | none ↦ none
  | some next ↦ descend rows ns next
]

unfoldable pub find_directory : String → FilePath → Exec Database (Option Directory)
find_directory owner_id path = do
  root ← resolve_root owner_id
  gets (λ db. descend db.directories path.segments root)

unfoldable pub resolve_directory : String → FilePath → Exec Database Directory
resolve_directory owner_id path = do found ← find_directory owner_id path; found_or_fail found

pub record Resolved : Type 0 where
  pub path : FilePath
  pub directory : Option Directory
  pub file : Option File

abbrev pub file_there : FilePath → Directory → Text → Option Directory → Exec Database Resolved
file_there path up n (some d) = pure (record { path = path; directory = some d; file = none })
file_there path up n none = do
  f ← get_live_by_name up.id n
  pure (record { path = path; directory = none; file = f })

abbrev pub entry_in : FilePath → Option Directory → Exec Database Resolved
entry_in path none = pure (record { path = path; directory = none; file = none })
entry_in path (some up) = do n ← lift (name path); d ← get_child up.id n; file_there path up n d

abbrev pub root_entry : String → FilePath → Exec Database Resolved
root_entry owner_id path = do
  root ← resolve_root owner_id
  pure (record { path = path; directory = some root; file = none })

abbrev pub entry_below : String → FilePath → Exec Database Resolved
entry_below owner_id path = do up ← find_directory owner_id (parent path); entry_in path up

unfoldable pub resolve_entry : String → FilePath → Exec Database Resolved
resolve_entry owner_id path =
    if is_root path then root_entry owner_id path else entry_below owner_id path
