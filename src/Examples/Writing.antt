-- ===== src/Examples/Writing.antt =====
-- "ana" writes a new version of the file "/docs/a".
use dfsha_telematica.Prelude.{
  false, true, ◌<◌, subst, if◌then◌else◌, ℕ, String, ◌≡◌, ◌≤◌, refl, some, none, List, [], ◌∷◌,
  arith, All, Option, ◌==◌, ==_iff, string_eq,
}
use dfsha_telematica.Errors.{ok, err, invalid_state}
use dfsha_telematica.FilePath.{FilePath, codes, validate_name, is_control, child, to_text}
use dfsha_telematica.Entities.{Directory, File, FileState, writing, committed, stored, is_expired}
use dfsha_telematica.Rules.{ensure_can_commit}
use dfsha_telematica.Session.{Session}
use dfsha_telematica.Database.{Database}
use dfsha_telematica.Repositories.FileRows.{live_by_name}
use dfsha_telematica.Repositories.BlockRows.{of_file, copies}
use dfsha_telematica.Repositories.DirectoryRows.{absolute_path}
use dfsha_telematica.Repositories.DirectoryRows.Depth.{IsTree}
use dfsha_telematica.Commands.Writing.{CommittedFile, commit_file, abort_file}
use dfsha_telematica.Commands.Writing.OneVisible.{OneVisible}
use dfsha_telematica.Commands.Writing.Outcome.{Owned}
use dfsha_telematica.Commands.Writing.Published.{
  commit_file-OneVisible, commit_file-Visible, commit_file-quorum,
}
use dfsha_telematica.Commands.Writing.Row.{Visible}
use dfsha_telematica.Commands.Writing.Aborting.{commit_file-abort_file}
use dfsha_telematica.Commands.Writing.Answered.{Tells, commit_file-ok}
use dfsha_telematica.Resolver.{find_directory, resolve_root}
use dfsha_telematica.Resolver.Located.{Keyed, find_directory-absolute_path}
use dfsha_telematica.Examples.{empty_db}

abbrev pub top : Directory
top = record {
  id = "top";
  parent_id = none;
  name = [];
  owner_id = "ana";
  created_at = 0;
  deleted_at = none;
}

abbrev pub docs : Directory
docs = record {
  id = "docs";
  parent_id = some "top";
  name = codes "docs";
  owner_id = "ana";
  created_at = 0;
  deleted_at = none;
}

abbrev pub version : String → FileState → Option ℕ → Option ℕ → File
version id state committed_at expires_at = record {
  id = id;
  directory_id = "docs";
  name = codes "a";
  owner_id = "ana";
  size = 3;
  block_size = 4;
  state = state;
  created_at = 0;
  committed_at = committed_at;
  expires_at = expires_at;
  deleted_at = none;
  wrapped_key = "";
  key_algo = "";
}

abbrev pub old_version : File
old_version = version "f1" committed (some 1) none

abbrev new_version : File
new_version = version "f2" writing none (some 100)

abbrev db : Database
db = record empty_db {
  directories = top ∷ docs ∷ [];
  files = old_version ∷ new_version ∷ [];
  blocks =
      record { block_id = "b"; file_id = some "f2"; index = 0; size = 3; checksum_sha256 = none }
      ∷ [];
  replicas = record { block_id = "b"; data_node_id = "n1"; state = stored; created_at = 2 } ∷ [];
}

abbrev told : CommittedFile
told = record { path = codes "/docs/a"; size = 3; block_count = 1 }

committed_now : (commit_file "ana" "f2" 1 "key" "aes" 5 db).0 ≡ ok told
unfolding commit_file ensure_can_commit absolute_path child validate_name is_control to_text
    is_expired
committed_now = refl

one_visible : OneVisible db.files
one_visible = (
  (record { ids = λ h. cc ((==_iff {A = String} "f1" "f2").1 h); places = λ d n c w. cc (w) }, tt),
  (tt, tt),
)

commit_file-OneVisible_example : OneVisible (commit_file "ana" "f2" 1 "key" "aes" 5 db).1.files
commit_file-OneVisible_example = commit_file-OneVisible "ana" "f2" 1 "key" "aes" 5 db one_visible

abbrev after : List File
after = (commit_file "ana" "f2" 1 "key" "aes" 5 db).1.files

commit_file-Visible_example :
    (f : File) × Owned "ana" "f2" db f
    × (g : File) × Visible after 5 f g
    × (live_by_name f.directory_id f.name after ≡ some g)
commit_file-Visible_example =
    commit_file-Visible "ana" "f2" 1 "key" "aes" 5 db told one_visible committed_now

commit_file-quorum_example :
    ((f : File) × Owned "ana" "f2" db f × (f.state ≡ writing) × (is_expired f 5 ≡ false))
    × All (λ b. of_file "f2" b ≡ true → 1 ≤ copies b.block_id db.replicas) db.blocks
commit_file-quorum_example = commit_file-quorum "ana" "f2" 1 "key" "aes" 5 db told committed_now

abbrev depth : String → ℕ
depth id = if id == "top" then 0 else 1

tree : IsTree depth db.directories
tree = (
  (omega arith, λ up h. absurd (cc)),
  (
    (
      omega arith,
      λ up h. let same : "top" ≡ up = cc in subst (λ x. depth x < depth "docs") same (omega arith),
    ),
    tt,
  ),
)

commit_file-ok_example :
    (c : CommittedFile) × ((commit_file "ana" "f2" 1 "key" "aes" 5 db).0 ≡ ok c)
    × Tells new_version db c
commit_file-ok_example =
    commit_file-ok depth "ana" "f2" 1 "key" "aes" 5 db new_version (codes "a") tree
      (unfold validate_name is_control in refl) (refl, refl)
      (unfold ensure_can_commit is_expired in refl)

commit_file-abort_file_example :
    abort_file "ana" "f2" 9 (commit_file "ana" "f2" 1 "key" "aes" 5 db).1
    ≡ (err invalid_state, (commit_file "ana" "f2" 1 "key" "aes" 5 db).1)
commit_file-abort_file_example =
    commit_file-abort_file "ana" "f2" 5 9 db 1 "key" "aes" told committed_now

keyed : Keyed db.directories
keyed = (((λ h. cc ((==_iff {A = String} "top" "docs").1 h)), tt), (tt, tt))

abbrev pub docs_path : FilePath
docs_path = record { segments = codes "docs" ∷ [] }

abbrev opened : Session Database
opened = record { durable = db; working = db }

find_directory-absolute_path_example : absolute_path "docs" opened ≡ (ok docs_path, opened)
find_directory-absolute_path_example =
    find_directory-absolute_path depth "ana" docs_path docs opened keyed tree
      (unfold find_directory resolve_root in refl)
