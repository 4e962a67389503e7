-- ===== src/Examples/Locking.antt =====
-- Clients that lock one file.
use dfsha_telematica.Prelude.{
  ℕ, String, ◌+◌, ◌≡◌, refl, some, List, [], ◌∷◌, ==_iff, string_eq, arith,
}
use dfsha_telematica.Errors.{ok, err, stale_lock}
use dfsha_telematica.FileLock.{
  FileLock, LockFencing, LockTimings, LockMode, exclusive, can_acquire, is_expired, live, fencing,
}
use dfsha_telematica.Session.{Session}
use dfsha_telematica.Database.{Database}
use dfsha_telematica.Commands.Locking.{acquire_lock, release_lock, require_lock}
use dfsha_telematica.Commands.Locking.Exclusion.{IsExclusive}
use dfsha_telematica.Commands.Locking.Timeline.{Timeline, frozen_client_refused}
use dfsha_telematica.Commands.Locking.Reissue.{released_fencing_passes}
use dfsha_telematica.Examples.{empty_db}

abbrev ttl : LockTimings
ttl = record { ttl = 10 }

abbrev opened : Session Database
opened = record { durable = empty_db; working = empty_db }

abbrev lock_of : String → LockMode → ℕ → ℕ → FileLock
lock_of holder_id mode epoch now = record {
  file_id = "f";
  holder_id = holder_id;
  mode = mode;
  epoch = epoch;
  acquired_at = now;
  expires_at = now + 10;
}

-- "ana" wrote from 0 and was frozen; the row is still there.
abbrev left_by_ana : Session Database
left_by_ana = record {
  durable = empty_db;
  working = record empty_db { file_locks = lock_of "ana" exclusive 1 0 ∷ [] };
}

abbrev rows_of_ana : List FileLock
rows_of_ana = lock_of "ana" exclusive 1 0 ∷ []

abbrev ana : LockFencing
ana = record { holder_id = "ana"; epoch = 1 }

alone : IsExclusive 0 rows_of_ana
alone = (tt, tt)

bob_takes_it :
    (acquire_lock "f" "bob" exclusive ttl 20 left_by_ana).0 ≡ ok (lock_of "bob" exclusive 2 20)
unfolding acquire_lock can_acquire live is_expired
bob_takes_it = refl

frozen_client_refused_example :
    (require_lock "f" (some ana) 25 (acquire_lock "f" "bob" exclusive ttl 20 left_by_ana).1).0
    ≡ err stale_lock
frozen_client_refused_example =
    frozen_client_refused "f" "bob" ttl 0 20 25 left_by_ana (lock_of "bob" exclusive 2 20) ana alone
      (omega arith) bob_takes_it (omega arith) (omega arith)
      (λ h. absurd (cc ((==_iff {A = String} "ana" "bob").1 h)))

ana_passes : (require_lock "f" (some ana) 5 left_by_ana).0 ≡ ok tt
unfolding require_lock live is_expired
ana_passes = refl

ana_locks : (acquire_lock "f" "ana" exclusive ttl 0 opened).0 ≡ ok (lock_of "ana" exclusive 1 0)
unfolding acquire_lock can_acquire live is_expired
ana_locks = refl

released_fencing_passes_example :
    (require_lock "f"
      (some (fencing (lock_of "ana" exclusive 1 0)))
      7
      (acquire_lock "f" "ana" exclusive ttl 5
        (release_lock "f" "ana" (acquire_lock "f" "ana" exclusive ttl 0 opened).1).1).1).0
    ≡ ok tt
released_fencing_passes_example =
    released_fencing_passes "f" "ana" ttl 0 5 7 opened (lock_of "ana" exclusive 1 0) tt ana_locks
      (omega arith)
