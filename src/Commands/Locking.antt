-- ===== src/Commands/Locking.antt =====
-- control_node/commands/filelock.py: taking, releasing and requiring file locks. These run inside
-- the unit of work of the operation that calls them.
pub mod Reading
pub mod Exclusion
pub mod Admission
pub mod Requiring
pub mod Timeline
pub mod Reissue
use dfsha_telematica.Prelude.{
  ℕ, ◌+◌, String, Bool, not, ◌||◌, Option, none, some, List, [], ◌∷◌, find_first, ◌==◌, nat_eq,
  string_eq, if◌then◌else◌,
}
use dfsha_telematica.Errors.{file_locked, stale_lock, not_found}
use dfsha_telematica.Entities.{File}
use dfsha_telematica.FileLock.{
  LockMode, shared, exclusive, lock_mode_eq, LockFencing, FileLock, LockTimings, LockDecision,
  grant, renew_existing, conflict, live, can_acquire,
}
use dfsha_telematica.Session.{Exec, pure, raise, ◌>>=◌, ◌>>◌}
use dfsha_telematica.Database.{Database}
use dfsha_telematica.Repositories.FileLockRows

abbrev pub admit : LockDecision → Exec Database (Unit {0})
admit grant = pure tt
admit renew_existing = pure tt
admit (conflict c) = raise file_locked

-- The lock of a grant or a renewal. Its epoch is above every epoch in the table for the file.
abbrev pub granted_lock : String → String → LockMode → LockTimings → ℕ → ℕ → FileLock
granted_lock file_id holder_id mode timings now epoch = record {
  file_id = file_id;
  holder_id = holder_id;
  mode = mode;
  epoch = epoch + 1;
  acquired_at = now;
  expires_at = now + timings.ttl;
}

unfoldable pub acquire_lock : String → String → LockMode → LockTimings → ℕ → Exec Database FileLock
acquire_lock file_id holder_id mode timings now = do
  existing ← FileLockRows.lock_rows file_id
  admit (can_acquire existing holder_id mode now)
  epoch ← FileLockRows.max_epoch file_id
  FileLockRows.upsert (granted_lock file_id holder_id mode timings now epoch)
  pure (granted_lock file_id holder_id mode timings now epoch)

unfoldable pub release_lock : String → String → Exec Database Bool
release_lock file_id holder_id = FileLockRows.release file_id holder_id

abbrev pub check_unlocked : List FileLock → Exec Database (Unit {0})
check_unlocked [] = pure tt
check_unlocked (l ∷ ls) = raise file_locked

abbrev pub check_mine : LockFencing → Option FileLock → Exec Database (Unit {0})
check_mine f none = raise stale_lock
check_mine f (some mine) =
    if not (mine.epoch == f.epoch)
    then raise stale_lock
    else if not (mine.mode == exclusive)
    then raise file_locked
    else pure tt

abbrev pub check_fencing : Option LockFencing → List FileLock → Exec Database (Unit {0})
check_fencing none alive = check_unlocked alive
check_fencing (some f) alive =
    check_mine f (find_first (λ (l : FileLock). l.holder_id == f.holder_id) alive)

unfoldable pub require_lock : String → Option LockFencing → ℕ → Exec Database (Unit {0})
unfolding live
require_lock file_id f now = do
  rows ← FileLockRows.lock_rows file_id
  check_fencing f (live rows now)

unfoldable pub locks_of : String → ℕ → Exec Database (List FileLock)
unfolding live
locks_of file_id now = do rows ← FileLockRows.peek file_id; pure (live rows now)
