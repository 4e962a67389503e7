-- ===== src/Commands/Locking/Requiring.antt =====
-- control_node/commands/filelock.py: who passes `require_lock`, and who is refused.
use dfsha_telematica.Prelude.{
  ℕ, String, ◌≡◌, refl, sym, ap, ◌∙◌, Bool, false, Option, none, some, List, arith, All, All-imp,
  keep-All, find_first, find_first-some, ◌==◌, ==_iff, nat_eq, string_eq, inl, inr,
}
use dfsha_telematica.Errors.{ok}
use dfsha_telematica.FileLock.{exclusive, lock_mode_eq, LockFencing, FileLock, is_expired}
use dfsha_telematica.Session.{Session}
use dfsha_telematica.Database.{Database}
use dfsha_telematica.Repositories.FileLockRows.{rows_of}
use dfsha_telematica.Commands.Locking.{require_lock, check_mine}
use dfsha_telematica.Commands.Locking.Exclusion.{IsExclusive, Among, IsExclusive-Among}
use dfsha_telematica.Commands.Locking.Admission.{alive, lives, of_file}

abbrev holds : String → FileLock → Bool
holds holder_id l = l.holder_id == holder_id

check_mine-ok :
    (f : LockFencing) (o : Option FileLock) (s : Session Database)
    → (check_mine f o s).0 ≡ ok tt
    → (mine : FileLock) × (o ≡ some mine) × (mine.epoch ≡ f.epoch) × (mine.mode ≡ exclusive)
check_mine-ok f none s h = absurd (cc)
check_mine-ok f (some mine) s h = (mine, refl, ground arith, ground arith)

module _ (file_id : String) (now : ℕ) (s : Session Database) where
  abbrev live_rows : List FileLock
  live_rows = alive file_id now s.working.file_locks

  passed :
      (f : LockFencing)
      → (require_lock file_id (some f) now s).0 ≡ ok tt
      → (mine : FileLock) × (find_first (holds f.holder_id) live_rows ≡ some mine)
        × (mine.epoch ≡ f.epoch)
        × (mine.mode ≡ exclusive)
  unfolding require_lock
  passed f h = check_mine-ok f (find_first (holds f.holder_id) live_rows) s h

  -- A fact of each live lock of the file.
  live-All :
      (P : FileLock → Type 0)
      → All (λ m. m.file_id ≡ file_id → is_expired m now ≡ false → P m) s.working.file_locks
      → All P live_rows
  live-All P h =
      All-imp _ P live_rows
        (λ m living. living.1.1 ((==_iff m.file_id file_id).0 living.1.0) (ground arith))
        (keep-All _ (lives now) (rows_of file_id s.working.file_locks)
          (keep-All _ (of_file file_id) s.working.file_locks h))

  -- Every live row of the file is the client's own.
  alone_rows :
      (f : LockFencing)
      → IsExclusive now s.working.file_locks
      → (require_lock file_id (some f) now s).0 ≡ ok tt
      → All
          (λ m. m.file_id ≡ file_id → is_expired m now ≡ false → m.holder_id ≡ f.holder_id)
          s.working.file_locks
  alone_rows f h pass =
      let (mine, found, _, writes) = passed f pass in
      let (own, rest) = find_first-some _ (holds f.holder_id) live_rows mine found (
        keep-All _ (lives now) (rows_of file_id s.working.file_locks) (
          keep-All (Among now s.working.file_locks) (of_file file_id) s.working.file_locks
            (IsExclusive-Among now s.working.file_locks h))) in
      let (lasts, rest') = rest in
      let (file, among) = rest' in
      All-imp _ _ s.working.file_locks
        (λ m a f' living. elim a [
          | inl e ↦ ap (λ (k : FileLock). k.holder_id) e ∙ (==_iff mine.holder_id f.holder_id).0 own
          | inr apart ↦
              let modes =
                apart.modes ((==_iff mine.file_id file_id).0 file ∙ sym f') (ground arith) living in
              absurd (cc (modes.0, writes))
        ])
        among

  -- Whoever passes `require_lock` with a fencing is the only client with a live lock on the file.
  pub require_lock-alone :
      (f : LockFencing)
      → IsExclusive now s.working.file_locks
      → (require_lock file_id (some f) now s).0 ≡ ok tt
      → All (λ m. m.holder_id ≡ f.holder_id) (alive file_id now s.working.file_locks)
  require_lock-alone f h pass = live-All (λ m. m.holder_id ≡ f.holder_id) (alone_rows f h pass)

  -- No two fencings pass at the same time: there is one writer.
  pub require_lock_one_writer :
      (f g : LockFencing)
      → IsExclusive now s.working.file_locks
      → (require_lock file_id (some f) now s).0 ≡ ok tt
      → (require_lock file_id (some g) now s).0 ≡ ok tt
      → f ≡ g
  require_lock_one_writer f g h pass pass' =
      let (mine, found, epoch, _) = passed f pass in
      let (other, found', epoch', _) = passed g pass' in
      let (own, alone) =
        find_first-some _ (holds g.holder_id) live_rows other found'
          (live-All (λ m. m.holder_id ≡ f.holder_id) (alone_rows f h pass)) in
      let same : g.holder_id ≡ f.holder_id =
        sym ((==_iff other.holder_id g.holder_id).0 own) ∙ alone in
      let one : some mine ≡ some other =
        sym found ∙ ap (λ k. find_first (holds k) live_rows) (sym same) ∙ found' in
      ground (arith, one)
