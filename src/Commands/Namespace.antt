-- ===== src/Commands/Namespace.antt =====
-- control_node/commands/namespace.py: mkdir, rmdir, rm and mv. The clock is read once in each.
pub mod WellFormed
pub mod Erasing
pub mod Relinking
pub mod Starting
pub mod Making
pub mod Mkdir
pub mod Entries
pub mod Removing
pub mod Rmdir
pub mod Moving
pub mod Histories
pub mod Answering
use dfsha_telematica.Prelude.{
  ℕ, ◌+◌, String, Bool, false, not, ◌&&◌, Option, none, some, List, [], ◌∷◌, map, string_eq,
  if◌then◌else◌,
}
use dfsha_telematica.Errors.{
  Error, Result, ok, err, raise_if, invalid_path, not_found, already_exists, runtime_error,
}
use dfsha_telematica.FilePath.{Text, FilePath, parse, is_root}
use dfsha_telematica.Entities.{Directory, File, holds_name}
use dfsha_telematica.Acl.{write}
use dfsha_telematica.Rules.{
  is_nil, ensure_directory_is_empty, ensure_name_is_free, ensure_visible, MoveKind, missing,
  directory, file, MoveDecision, decide_move, ensure_move_is_legal,
}
use dfsha_telematica.Session.{Exec, pure, raise, lift, with_uow, commit, ◌>>=◌, ◌>>◌}
use dfsha_telematica.Database.{Database}
use dfsha_telematica.Repositories.DirectoryRows
use dfsha_telematica.Repositories.FileRows
use dfsha_telematica.Permissions.{require}
use dfsha_telematica.Shared.{resolve_scope}
use dfsha_telematica.Reaching.{ResolvedAccess, is_some, directory_for, entry_for}
use dfsha_telematica.Resolver.{find_directory}

-- `Path.parse(raw)` stands before the unit of work.
abbrev pub with_path {ℓ} :
    {A : Type ℓ}
    → Result FilePath
    → (FilePath → Database → Result A × Database)
    → Database
    → Result A × Database
with_path (ok path) f db = f path db
with_path (err e) f db = (err e, db)

abbrev pub refuse {ℓ} : {A : Type ℓ} → Error → Database → Result A × Database
refuse e db = (err e, db)

abbrev pub new_directory : String → String → Text → String → ℕ → Directory
new_directory id parent_id name owner_id now = record {
  id = id;
  parent_id = some parent_id;
  name = name;
  owner_id = owner_id;
  created_at = now;
  deleted_at = none;
}

-- The loop of `mkdir`, over the segments; `new_id index` is the id that is drawn for a segment.
abbrev pub make_path :
    String → Bool → ℕ → (ℕ → String) → ℕ → List Text → Directory → Exec Database (Unit {0})
make_path owner_id parents now new_id index [] current = pure tt
make_path owner_id parents now new_id index (n ∷ ns) current =
    DirectoryRows.get_child current.id n >>= λ next. elim next [
      | some d ↦ do
        lift (raise_if (is_nil ns && not parents) already_exists)
        make_path owner_id parents now new_id (index + 1) ns d
      | none ↦ do
        lift (raise_if (not (is_nil ns) && not parents) not_found)
        existing ← FileRows.get_live_by_name current.id n
        lift (ensure_name_is_free existing now)
        DirectoryRows.add (new_directory (new_id index) current.id n owner_id now)
        make_path owner_id parents now new_id (index + 1) ns
            (new_directory (new_id index) current.id n owner_id now)
    ]

abbrev pub mkdir_in : String → Bool → ℕ → (ℕ → String) → FilePath → Exec Database (Unit {0})
mkdir_in owner_id parents now new_id path = do
  scope ← resolve_scope owner_id path
  access ← require owner_id scope.start write
  make_path owner_id parents now new_id 0 path.segments scope.start
  commit

abbrev pub mkdir_at :
    String → Bool → ℕ → (ℕ → String) → FilePath → Database → Result (Unit {0}) × Database
mkdir_at owner_id parents now new_id path =
    if is_root path
    then refuse already_exists
    else with_uow (mkdir_in owner_id parents now new_id path)

unfoldable pub mkdir :
    String → Text → Bool → ℕ → (ℕ → String) → Database → Result (Unit {0}) × Database
mkdir owner_id raw_path parents now new_id =
    with_path (parse raw_path none) (mkdir_at owner_id parents now new_id)

-- `.directory` of what `directory_for` answers.
abbrev pub the_directory : Option Directory → Exec Database Directory
the_directory none = raise runtime_error
the_directory (some d) = pure d

-- The directory and all below it, with the files in them.
abbrev pub remove_tree : Directory → Bool → ℕ → Exec Database (Unit {0})
remove_tree d recursive now = do
  count ← DirectoryRows.count_children d.id
  lift (ensure_directory_is_empty count recursive)
  deeper ← DirectoryRows.list_descendants d.id
  files ← FileRows.list_ids_in_directories (map (λ (e : Directory). e.id) (d ∷ deeper))
  FileRows.mark_many_deleted files now
  DirectoryRows.mark_many_deleted (map (λ (e : Directory). e.id) (d ∷ deeper)) now
  commit

abbrev pub rmdir_in : String → Bool → ℕ → FilePath → Exec Database (Unit {0})
rmdir_in owner_id recursive now path = do
  found ← directory_for owner_id path write
  d ← the_directory found.directory
  remove_tree d recursive now

abbrev pub rmdir_at : String → Bool → ℕ → FilePath → Database → Result (Unit {0}) × Database
rmdir_at owner_id recursive now path =
    if is_root path then refuse invalid_path else with_uow (rmdir_in owner_id recursive now path)

unfoldable pub rmdir : String → Text → Bool → ℕ → Database → Result (Unit {0}) × Database
rmdir owner_id raw_path recursive now =
    with_path (parse raw_path none) (rmdir_at owner_id recursive now)

abbrev pub rm_in : String → ℕ → FilePath → Exec Database (Unit {0})
rm_in owner_id now path = do
  found ← entry_for owner_id path write
  lift (raise_if (is_some found.directory) invalid_path)
  f ← lift (ensure_visible found.file)
  FileRows.mark_deleted f.id now
  commit

unfoldable pub rm : String → Text → ℕ → Database → Result (Unit {0}) × Database
rm owner_id raw_path now =
    with_path (parse raw_path none) (λ path. with_uow (rm_in owner_id now path))

abbrev pub visible_if_file : Option File → Exec Database (Unit {0})
visible_if_file none = pure tt
visible_if_file (some f) = do v ← lift (ensure_visible (some f)); pure tt

abbrev pub holds : Option File → ℕ → Bool
holds none now = false
holds (some f) now = holds_name f now

abbrev pub kind_of : ResolvedAccess → ℕ → MoveKind
kind_of target now =
    if is_some target.directory then directory else if holds target.file now then file else missing

abbrev pub parent_or_fail : Option Directory → Exec Database Directory
parent_or_fail none = raise not_found
parent_or_fail (some d) = pure d

-- The write of `mv`; the last case is that of a source that does not exist, which was refused.
abbrev pub relink : Option Directory → Option File → String → Text → Exec Database (Unit {0})
relink (some d) f parent_id n = DirectoryRows.move d.id parent_id n
relink none (some f) parent_id n = FileRows.move f.id parent_id n
relink none none parent_id n = raise runtime_error

-- From the decision on.
abbrev pub place : String → ResolvedAccess → MoveDecision → ℕ → Exec Database (Unit {0})
place owner_id source decision now = do
  found ← find_directory owner_id decision.parent
  up ← parent_or_fail found
  taken ← DirectoryRows.get_child up.id decision.name
  lift (raise_if (is_some taken) already_exists)
  existing ← FileRows.get_live_by_name up.id decision.name
  lift (ensure_name_is_free existing now)
  relink source.directory source.file up.id decision.name
  commit

abbrev pub mv_in : String → FilePath → FilePath → ℕ → Exec Database (Unit {0})
mv_in owner_id src dst now = do
  source ← entry_for owner_id src write
  lift (raise_if (not (is_some source.directory) && not (is_some source.file)) not_found)
  visible_if_file source.file
  target ← entry_for owner_id dst write
  decision ← lift (decide_move src dst (kind_of target now))
  lift (ensure_move_is_legal src decision (is_some source.directory))
  place owner_id source decision now

unfoldable pub mv : String → Text → Text → ℕ → Database → Result (Unit {0}) × Database
mv owner_id raw_src raw_dst now =
    with_path (parse raw_src none)
      (λ src. with_path (parse raw_dst none) (λ dst. with_uow (mv_in owner_id src dst now)))
