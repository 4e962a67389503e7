-- ===== src/Repositories/FileRows.antt =====
-- SqlFileRepository of control_node/repositories/sql.py: the table of files, whose primary key is the
-- file's id.
use dfsha_telematica.Prelude.{
  map, any_of, not, ℕ, String, Bool, ◌&&◌, Option, none, some, List, [], ◌∷◌, ◌++◌, leb, keep,
  find_first, update_where, sorted, ◌==◌, nat_eq, list_eq, string_eq,
}
use dfsha_telematica.FilePath.{Text}
use dfsha_telematica.Entities.{File, FileState, writing, committed, deleted, file_state_eq}
use dfsha_telematica.Session.{Exec, gets, modify}
use dfsha_telematica.Database.{Database}

abbrev pub has_id : String → File → Bool
has_id file_id f = f.id == file_id

abbrev pub add : File → Exec Database (Unit {0})
add file = modify (λ db. record db { files = db.files ++ file ∷ [] })

abbrev pub get : String → Exec Database (Option File)
get file_id = gets (λ db. find_first (has_id file_id) db.files)

abbrev pub is_named_in : String → Text → FileState → File → Bool
is_named_in directory_id name wanted f =
    f.directory_id == directory_id && f.name == name && f.state == wanted

-- `ORDER BY created_at DESC LIMIT 1`
abbrev pub newer : File → File → Bool
newer f g = leb g.created_at f.created_at

abbrev pub first_of : List File → Option File
first_of [] = none
first_of (f ∷ fs) = some f

abbrev pub or_writing : Option File → String → Text → List File → Option File
or_writing (some f) directory_id name rows = some f
or_writing none directory_id name rows =
    first_of (sorted newer (keep (is_named_in directory_id name writing) rows))

abbrev pub live_by_name : String → Text → List File → Option File
live_by_name directory_id name rows =
    or_writing (find_first (is_named_in directory_id name committed) rows) directory_id name rows

abbrev pub get_live_by_name : String → Text → Exec Database (Option File)
get_live_by_name directory_id name = gets (λ db. live_by_name directory_id name db.files)

abbrev pub update_file : String → (File → File) → Exec Database (Unit {0})
update_file file_id f =
    modify (λ db. record db { files = update_where (has_id file_id) f db.files })

abbrev pub with_key : String → String → File → File
with_key wrapped_key key_algo f = record f { wrapped_key = wrapped_key; key_algo = key_algo }

abbrev pub set_wrapped_key : String → String → String → Exec Database (Unit {0})
set_wrapped_key file_id wrapped_key key_algo = update_file file_id (with_key wrapped_key key_algo)

abbrev pub set_size : String → ℕ → Exec Database (Unit {0})
set_size file_id size = update_file file_id (λ f. record f { size = size })

abbrev pub as_committed : ℕ → File → File
as_committed now f = record f { state = committed; committed_at = some now; expires_at = none }

abbrev pub mark_committed : String → ℕ → Exec Database (Unit {0})
mark_committed file_id now = update_file file_id (as_committed now)

abbrev pub as_deleted : ℕ → File → File
as_deleted now f = record f { state = deleted; deleted_at = some now; expires_at = none }

abbrev pub mark_deleted : String → ℕ → Exec Database (Unit {0})
mark_deleted file_id now = update_file file_id (as_deleted now)

abbrev pub one_of : List String → String → Bool
one_of ids x = any_of (λ i. i == x) ids

-- Nothing is written for an empty list, and nothing would be.
abbrev pub mark_many_deleted : List String → ℕ → Exec Database (Unit {0})
mark_many_deleted ids now = modify (λ db. record db {
  files = update_where (λ (f : File). one_of ids f.id) (as_deleted now) db.files;
})

abbrev pub moved_to : String → Text → File → File
moved_to directory_id name f = record f { directory_id = directory_id; name = name }

abbrev pub move : String → String → Text → Exec Database (Unit {0})
move file_id directory_id name = update_file file_id (moved_to directory_id name)

abbrev pub ids_in : List String → List File → List String
ids_in directory_ids rows =
    map (λ (f : File). f.id)
      (keep (λ (f : File). one_of directory_ids f.directory_id && not (f.state == deleted)) rows)

abbrev pub list_ids_in_directories : List String → Exec Database (List String)
list_ids_in_directories directory_ids = gets (λ db. ids_in directory_ids db.files)
