-- ===== src/Repositories/DirectoryRows.antt =====
-- SqlDirectoryRepository of control_node/repositories/sql.py, and `absolute_path` of
-- control_node/services/resolver.py.
pub mod Depth
pub mod Descendants
use mathlib.Core.Option
use dfsha_telematica.Prelude.{
  ℕ, zero, suc, String, Bool, Option, none, some, List, [], ◌∷◌, ◌++◌, length, find_first, ◌==◌,
  string_eq, true, false, ◌+◌, map, keep, any_of, count_where, update_where, ◌&&◌, list_eq, nat_eq,
}
use dfsha_telematica.Errors.{runtime_error}
use dfsha_telematica.FilePath.{Text, FilePath}
use dfsha_telematica.Entities.{Directory, File, committed, file_state_eq}
use dfsha_telematica.Session.{Exec, gets, modify, pure, raise, ◌>>=◌}
use dfsha_telematica.Database.{Database}

abbrev pub has_id : String → Directory → Bool
has_id directory_id d = d.id == directory_id

abbrev pub by_id : String → List Directory → Option Directory
by_id directory_id rows = find_first (has_id directory_id) rows

abbrev pub get : String → Exec Database (Option Directory)
get directory_id = gets (λ db. by_id directory_id db.directories)

abbrev pub is_live : Option ℕ → Bool
is_live none = true
is_live (some t) = false

abbrev pub is_top : Option String → Bool
is_top none = true
is_top (some up) = false

abbrev pub hangs_from : Option String → String → Bool
hangs_from none parent_id = false
hangs_from (some up) parent_id = up == parent_id

abbrev pub is_root_of : String → Directory → Bool
is_root_of owner_id d = d.owner_id == owner_id && is_top d.parent_id && is_live d.deleted_at

abbrev pub get_root : String → Exec Database (Option Directory)
get_root owner_id = gets (λ db. find_first (is_root_of owner_id) db.directories)

abbrev pub is_child_of : String → Text → Directory → Bool
is_child_of parent_id name d =
    hangs_from d.parent_id parent_id && d.name == name && is_live d.deleted_at

abbrev pub child_of : String → Text → List Directory → Option Directory
child_of parent_id name rows = find_first (is_child_of parent_id name) rows

abbrev pub get_child : String → Text → Exec Database (Option Directory)
get_child parent_id name = gets (λ db. child_of parent_id name db.directories)

abbrev pub add : Directory → Exec Database (Unit {0})
add directory = modify (λ db. record db { directories = db.directories ++ directory ∷ [] })

abbrev pub is_live_child : String → Directory → Bool
is_live_child parent_id d = hangs_from d.parent_id parent_id && is_live d.deleted_at

abbrev pub is_committed_in : String → File → Bool
is_committed_in directory_id f = f.directory_id == directory_id && f.state == committed

abbrev pub children_of : String → Database → ℕ
children_of directory_id db =
    count_where (is_live_child directory_id) db.directories
    + count_where (is_committed_in directory_id) db.files

abbrev pub count_children : String → Exec Database ℕ
count_children directory_id = gets (children_of directory_id)

abbrev pub moved_to : String → Text → Directory → Directory
moved_to new_parent_id new_name d = record d { parent_id = some new_parent_id; name = new_name }

abbrev pub move : String → String → Text → Exec Database (Unit {0})
move directory_id new_parent_id new_name = modify (λ db. record db {
  directories = update_where (has_id directory_id) (moved_to new_parent_id new_name) db.directories;
})

abbrev pub one_of : List String → String → Bool
one_of ids x = any_of (λ i. i == x) ids

abbrev pub removed_at : ℕ → Directory → Directory
removed_at now d = record d { deleted_at = some now }

-- Nothing is written for an empty list, and nothing would be.
abbrev pub mark_many_deleted : List String → ℕ → Exec Database (Unit {0})
mark_many_deleted ids now = modify (λ db. record db {
  directories = update_where (λ (d : Directory). one_of ids d.id) (removed_at now) db.directories;
})

abbrev pub hangs_in : Option String → List String → Bool
hangs_in none ids = false
hangs_in (some up) ids = one_of ids up

-- `WHERE parent_id IN (...)`, live.
abbrev pub next_level : List String → List Directory → List Directory
next_level ids rows =
    keep (λ (d : Directory). hangs_in d.parent_id ids && is_live d.deleted_at) rows

-- The loop of `list_descendants`, one round for each level; without fuel it has not ended.
abbrev pub levels : List Directory → ℕ → List String → Option (List Directory)
levels rows zero ids = none
levels rows (suc fuel) ids = elim (next_level ids rows) [
  | [] ↦ some []
  | d ∷ ds ↦
      Option.map (λ deeper. (d ∷ ds) ++ deeper)
        (levels rows fuel (map (λ (e : Directory). e.id) (d ∷ ds)))
]

abbrev pub found_rows : Option (List Directory) → Exec Database (List Directory)
found_rows none = raise runtime_error
found_rows (some rows) = pure rows

-- In a table without cycles there are no more levels than rows.
abbrev pub list_descendants : String → Exec Database (List Directory)
list_descendants directory_id = do
  found ← gets (λ db. levels db.directories (suc (length db.directories)) (directory_id ∷ []))
  found_rows found

-- The loop of `absolute_path`, from a directory up; it collects the names from the top down, and
-- without fuel it has not ended.
abbrev pub climb : List Directory → ℕ → Option Directory → List Text → Option (List Text)
climb rows zero d below = none
climb rows (suc fuel) none below = some below
climb rows (suc fuel) (some d) below = elim d.parent_id [
  | none ↦ some below
  | some up ↦ climb rows fuel (by_id up rows) (d.name ∷ below)
]

abbrev pub found_path : Option (List Text) → Exec Database FilePath
found_path none = raise runtime_error
found_path (some segments) = pure (record { segments = segments })

-- A path in a table without cycles is shorter than the table.
unfoldable pub absolute_path : String → Exec Database FilePath
absolute_path directory_id = do
  found ← gets (λ db.
      climb db.directories (suc (length db.directories)) (by_id directory_id db.directories) [])
  found_path found
