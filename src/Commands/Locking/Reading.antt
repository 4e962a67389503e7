-- ===== src/Commands/Locking/Reading.antt =====
-- control_node/commands/filelock.py: the check of a lock only reads.
use dfsha_telematica.Prelude.{
  ℕ, String, refl, not, nat_eq, Option, none, some, List, [], ◌∷◌, ◌==◌, string_eq,
}
use dfsha_telematica.FileLock.{LockFencing, FileLock, exclusive, lock_mode_eq}
use dfsha_telematica.Session.Reading.{Reads, Reads-if}
use dfsha_telematica.Commands.Locking.{check_unlocked, check_mine, check_fencing, require_lock}

check_unlocked-Reads : (alive : List FileLock) → Reads (check_unlocked alive)
check_unlocked-Reads [] s = refl
check_unlocked-Reads (l ∷ ls) s = refl

check_mine-Reads : (f : LockFencing) (o : Option FileLock) → Reads (check_mine f o)
check_mine-Reads f none = λ s. refl
check_mine-Reads f (some mine) =
    Reads-if (not (mine.epoch == f.epoch)) _ _ (λ s. refl)
      (Reads-if (not (mine.mode == exclusive)) _ _ (λ s. refl) (λ s. refl))

check_fencing-Reads :
    (f : Option LockFencing) (alive : List FileLock) → Reads (check_fencing f alive)
check_fencing-Reads none alive = check_unlocked-Reads alive
check_fencing-Reads (some f) alive = check_mine-Reads f _

pub require_lock-Reads :
    (file_id : String) (f : Option LockFencing) (now : ℕ) → Reads (require_lock file_id f now)
unfolding require_lock
require_lock-Reads file_id f now s = check_fencing-Reads f _ s
