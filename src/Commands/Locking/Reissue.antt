-- ===== src/Commands/Locking/Reissue.antt =====
-- control_node/commands/filelock.py: the epochs of one file's locks, over acquisitions and releases.
use dfsha_telematica.Prelude.{
  ℕ, ◌+◌, ◌≤◌, ◌<◌, String, ◌≡◌, refl, false, not, some, List, [], ◌∷◌, ◌++◌, arith, All, All-imp,
  keep, keep-none, sym, ◌≢◌, ◌∙◌, any_of-absent, ap, ◌==◌, ==_iff, ==_refl, string_eq, nat_eq, inl,
  inr,
}
use dfsha_telematica.Errors.{ok}
use dfsha_telematica.FileLock.{
  LockMode, FileLock, LockTimings, lock_mode_eq, fencing, exclusive, grant, can_acquire,
}
use dfsha_telematica.Session.{Session}
use dfsha_telematica.Database.{Database}
use dfsha_telematica.Repositories.FileLockRows.{rows_of, is_row, greatest_epoch, upserted}
use dfsha_telematica.Commands.Locking.{acquire_lock, release_lock, require_lock, granted_lock}
use dfsha_telematica.Commands.Locking.Timeline.{outlives}
use dfsha_telematica.Commands.Locking.Admission.{
  Decision-cases, decision, new_lock, of_file, acquire_lock-admitted, acquire_lock-refused,
}

at_most_greatest : (ls : List FileLock) → All (λ m. m.epoch ≤ greatest_epoch ls) ls
at_most_greatest [] = tt
at_most_greatest (l ∷ ls) = (
  ground arith,
  All-imp (λ m. m.epoch ≤ greatest_epoch ls) (λ m. m.epoch ≤ greatest_epoch (l ∷ ls)) ls
      (λ m le. ground arith) (at_most_greatest ls),
)

-- A lock that is given has an epoch above every epoch in the table for the file.
pub acquire_lock-newest :
    (file_id holder_id : String) (mode : LockMode) (t : LockTimings) (now : ℕ)
    (s : Session Database) (l : FileLock)
    → (acquire_lock file_id holder_id mode t now s).0 ≡ ok l
    → All (λ m. m.epoch < l.epoch) (rows_of file_id s.working.file_locks)
acquire_lock-newest file_id holder_id mode t now s l h =
    elim (Decision-cases (decision file_id holder_id mode t now s)) [
      | inl d ↦
          let given : ok (new_lock file_id holder_id mode t now s) ≡ ok l =
            rw (acquire_lock-admitted file_id holder_id mode t now s d).0 at h in
          let same : new_lock file_id holder_id mode t now s ≡ l = cc in
          rw (← same) (
            All-imp _ _ (rows_of file_id s.working.file_locks) (λ m le. ground arith)
              (at_most_greatest (rows_of file_id s.working.file_locks)))
      | inr (c, e) ↦ absurd (cc (acquire_lock-refused file_id holder_id mode t now s c e).0)
    ]

-- A table without rows of the lock's file: storing the lock adds it, and taking it out restores
-- the table.
module _ (l : FileLock) where
  abbrev Elsewhere : List FileLock → Type 0
  Elsewhere rows = All (λ m. (m.file_id == l.file_id) ≡ false) rows

  stored_first : (rows : List FileLock) → Elsewhere rows → upserted l rows ≡ rows ++ l ∷ []
  stored_first rows h =
      let absent =
        any_of-absent (is_row l.file_id l.holder_id) rows (All-imp _ _ rows (λ m e. rw e refl) h) in
      rw absent refl

  taken_out :
      (rows : List FileLock)
      → Elsewhere rows
      → keep (λ m. not (is_row l.file_id l.holder_id m)) (rows ++ l ∷ []) ≡ rows
  taken_out [] h = rw (==_refl l.file_id, ==_refl l.holder_id) refl
  taken_out (m ∷ rows) h = rw h.0 (ap (λ ms. m ∷ ms) (taken_out rows h.1))

  alone : (rows : List FileLock) → Elsewhere rows → rows_of l.file_id (rows ++ l ∷ []) ≡ l ∷ []
  alone [] h = rw (==_refl l.file_id) refl
  alone (m ∷ rows) h = rw h.0 (alone rows h.1)

module _ (file_id holder_id : String) (t : LockTimings) where
  abbrev first_lock : ℕ → FileLock
  first_lock now = granted_lock file_id holder_id exclusive t now 0

  unclaimed : (now : ℕ) → can_acquire [] holder_id exclusive now ≡ grant
  unfolding can_acquire
  unclaimed now = refl

  -- The first lock of a file has epoch 1, and is the file's only row.
  acquire_lock-first :
      (now : ℕ) (s : Session Database)
      → Elsewhere (first_lock now) s.working.file_locks
      → ((acquire_lock file_id holder_id exclusive t now s).0 ≡ ok (first_lock now))
        × ((acquire_lock file_id holder_id exclusive t now s).1.working.file_locks
            ≡ s.working.file_locks ++ first_lock now ∷ [])
  acquire_lock-first now s h =
      let empty : rows_of file_id s.working.file_locks ≡ [] =
        keep-none (of_file file_id) s.working.file_locks h in
      let admitted : decision file_id holder_id exclusive t now s ≡ grant =
        ap (λ ls. can_acquire ls holder_id exclusive now) empty ∙ unclaimed now in
      let (given, stored) =
        acquire_lock-admitted file_id holder_id exclusive t now s (inl admitted) in
      let new : new_lock file_id holder_id exclusive t now s ≡ first_lock now =
        ap (λ ls. granted_lock file_id holder_id exclusive t now (greatest_epoch ls)) empty in
      (
        given ∙ ap ok new,
        stored
            ∙ ap (λ l. upserted l s.working.file_locks) new
            ∙ stored_first (first_lock now) s.working.file_locks h,
      )

  passes :
      (now later : ℕ) (s : Session Database) (rows : List FileLock)
      → s.working.file_locks ≡ rows ++ first_lock now ∷ []
      → Elsewhere (first_lock now) rows
      → later < now + t.ttl
      → (require_lock file_id (some (record { holder_id = holder_id; epoch = 1 })) later s).0
        ≡ ok tt
  unfolding require_lock
  passes now later s rows e h short =
      rw
        (
          e,
          alone (first_lock now) rows h,
          outlives (first_lock now) (now + t.ttl) later refl short,
          ==_refl holder_id,
        )
        refl

  -- A client takes a file's only lock, releases it, and takes it again. The fencing of the first
  -- lock, which ended with the release, passes `require_lock` for as long as the second one lasts.
  pub released_fencing_passes :
      (now now' later : ℕ) (s : Session Database) (l : FileLock)
      → All (λ m. m.file_id ≢ file_id) s.working.file_locks
      → (acquire_lock file_id holder_id exclusive t now s).0 ≡ ok l
      → later < now' + t.ttl
      → (require_lock file_id
          (some (fencing l))
          later
          (acquire_lock file_id holder_id exclusive t now'
            (release_lock file_id holder_id
              (acquire_lock file_id holder_id exclusive t now s).1).1).1).0
        ≡ ok tt
  unfolding release_lock fencing
  released_fencing_passes now now' later s l h got short =
      let rows = s.working.file_locks in
      let apart : Elsewhere (first_lock now) rows =
        All-imp _ _ rows (λ m ne. ground (arith, ne, ==_iff m.file_id file_id)) h in
      let (given, stored) = acquire_lock-first now s apart in
      let same : ok l ≡ ok (first_lock now) = sym got ∙ given in
      let same' : l ≡ first_lock now = cc in
      let back =
        release_lock file_id holder_id (acquire_lock file_id holder_id exclusive t now s).1 in
      let empty : back.1.working.file_locks ≡ rows =
        rw stored (taken_out (first_lock now) rows apart) in
      let again = acquire_lock-first now' back.1 (rw empty apart) in
      rw same' (
        passes now' later (acquire_lock file_id holder_id exclusive t now' back.1).1 rows
          (again.1 ∙ ap (λ ls. ls ++ first_lock now' ∷ []) empty) apart short)
