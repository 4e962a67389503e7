-- ===== src/Commands/Appending/Writable.antt =====
-- control_node/commands/files.py: what both commands of an append check of the file.
use dfsha_telematica.Prelude.{
  ℕ, String, ◌≡◌, refl, ap, not, Option, none, some, arith, In, find_first, find_first-In, ◌==◌,
  ==_iff, string_eq,
}
use dfsha_telematica.Errors.{ok, not_found}
use dfsha_telematica.Entities.{Directory, File, committed, file_state_eq}
use dfsha_telematica.Acl.{write}
use dfsha_telematica.FileLock.{LockFencing}
use dfsha_telematica.Session.{Session}
use dfsha_telematica.Session.Reading.{
  Reads, Reads-if, Reads-then, Answers, answers_then, answers_if, pure_answers, raise_answers,
}
use dfsha_telematica.Database.{Database}
use dfsha_telematica.Repositories.FileRows
use dfsha_telematica.Repositories.DirectoryRows
use dfsha_telematica.Permissions.{require}
use dfsha_telematica.Permissions.Reading.{require-Reads}
use dfsha_telematica.Permissions.Authority.{Authorised, require-Authorised}
use dfsha_telematica.Commands.Locking.{require_lock}
use dfsha_telematica.Commands.Locking.Reading.{require_lock-Reads}
use dfsha_telematica.Commands.Namespace.{parent_or_fail}
use dfsha_telematica.Commands.Namespace.Mkdir.{on}
use dfsha_telematica.Commands.Namespace.Moving.{parent_or_fail-Reads, parent_or_fail-some}
use dfsha_telematica.Commands.Appending.{committed_file, writable_file}

committed_file-Reads : (o : Option File) → Reads (committed_file o)
committed_file-Reads none s = refl
committed_file-Reads (some f) s =
    Reads-if (not (f.state == committed)) _ _ (λ t. refl) (λ t. refl) s

module _ (owner_id file_id : String) (fencing : Option LockFencing) (now : ℕ) where
  pub writable_file-Reads : Reads (writable_file owner_id file_id fencing now)
  unfolding writable_file
  writable_file-Reads s =
      Reads-then (committed_file (find_first (FileRows.has_id file_id) s.working.files)) s _
        (committed_file-Reads _)
        (λ f t.
          Reads-then (parent_or_fail (DirectoryRows.by_id f.directory_id t.working.directories)) t _
            (parent_or_fail-Reads _)
            (λ d t'.
              Reads-then (require owner_id d write) t' _ (require-Reads owner_id d write)
                (λ access t''.
                  Reads-then (require_lock file_id fencing now) t'' _
                    (require_lock-Reads file_id fencing now) (λ u t3. refl))))

  -- The file is visible, the user has WRITE on its directory, and the check of its lock passes.
  pub record Writable (db : Database) (f : File) : Type 0 where
    pub held : In f db.files
    pub named : f.id ≡ file_id
    pub visible : f.state ≡ committed
    pub directory : Directory
    pub stands : DirectoryRows.by_id f.directory_id db.directories ≡ some directory
    pub authorised : Authorised owner_id directory write db
    pub locked : require_lock file_id fencing now (on db) ≡ (ok tt, on db)

  committed_file-some :
      (o : Option File) (s : Session Database)
      → Answers (committed_file o) s (λ f. (o ≡ some f) × (f.state ≡ committed))
  committed_file-some none s =
      raise_answers not_found s (λ f. (none ≡ some f) × (f.state ≡ committed))
  committed_file-some (some f) s =
      answers_if (not (f.state == committed)) _ _ s (λ g. (some f ≡ some g) × (g.state ≡ committed))
        (λ t. raise_answers not_found s (λ g. (some f ≡ some g) × (g.state ≡ committed)))
        (λ t.
          pure_answers f s (λ g. (some f ≡ some g) × (g.state ≡ committed))
            (refl, (==_iff f.state committed).0 (ground (arith, t))))

  pub writable_file-Writable :
      (db : Database) → Answers (writable_file owner_id file_id fencing now) (on db) (Writable db)
  unfolding writable_file
  writable_file-Writable db =
      answers_then (committed_file (find_first (FileRows.has_id file_id) db.files)) _ (on db)
        (Writable db) (committed_file-Reads _)
        (λ f e.
          let (found, visible) =
            committed_file-some (find_first (FileRows.has_id file_id) db.files) (on db) f
              (ap (λ r. r.0) e) in
          let (t, held) = find_first-In (FileRows.has_id file_id) db.files f found in
          answers_then (parent_or_fail (DirectoryRows.by_id f.directory_id db.directories)) _
            (on db) (Writable db) (parent_or_fail-Reads _)
            (λ d e'.
              answers_then (require owner_id d write) _ (on db) (Writable db)
                (require-Reads owner_id d write)
                (λ access e''.
                  answers_then (require_lock file_id fencing now) _ (on db) (Writable db)
                    (require_lock-Reads file_id fencing now)
                    (λ u e3. pure_answers f (on db) (Writable db) (record {
                      held = held;
                      named = (==_iff f.id file_id).0 t;
                      visible = visible;
                      directory = d;
                      stands = parent_or_fail-some _ d (on db) (ap (λ r. r.0) e');
                      authorised =
                          require-Authorised owner_id d write (on db) access (ap (λ r. r.0) e'');
                      locked = e3;
                    })))))
