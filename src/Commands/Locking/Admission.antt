-- ===== src/Commands/Locking/Admission.antt =====
-- control_node/commands/filelock.py: what `acquire_lock` admits, and that it keeps exclusion.
use dfsha_telematica.Prelude.{
  ℕ, ◌≤◌, String, ◌≡◌, ◌≢◌, refl, sym, ap, ◌∙◌, Bool, false, not, some, List, [], ◌∷◌, arith, All,
  All-imp, All-keep, keep, keep-All, find_first, find_first-none, find_first-some, ◌==◌, ==_iff,
  nat_eq, string_eq, ◌⊎◌, inl, inr, Option-cases,
}
use dfsha_telematica.Errors.{ok, err, file_locked}
use dfsha_telematica.FileLock.{
  LockMode, shared, exclusive, lock_mode_eq, FileLock, LockTimings, LockDecision, LockConflict,
  grant, renew_existing, conflict, is_expired, against_others, can_acquire,
}
use dfsha_telematica.Session.{Session}
use dfsha_telematica.Database.{Database}
use dfsha_telematica.Repositories.FileLockRows.{rows_of, upserted, greatest_epoch}
use dfsha_telematica.Commands.Locking.{acquire_lock, granted_lock}
use dfsha_telematica.Commands.Locking.Exclusion.{
  IsExclusive, IsExclusive-later, Beside, Among, IsExclusive-Among, is_row_iff,
  upserted-IsExclusive,
}

-- What a live lock `m` of another client on the file must be for a lock in `mode` to be given.
abbrev pub Compatible : String → String → LockMode → ℕ → FileLock → Type 0
Compatible file_id holder_id mode now m =
    m.file_id ≡ file_id
    → m.holder_id ≢ holder_id
    → is_expired m now ≡ false
    → (mode ≡ shared) × (m.mode ≡ shared)

against_others-grant :
    (mode : LockMode) (now : ℕ) (others : List FileLock)
    → against_others mode now others ≡ grant
    → All (λ m. (mode ≡ shared) × (m.mode ≡ shared)) others
against_others-grant mode now [] h = tt
against_others-grant exclusive now (l ∷ ls) h = absurd (cc)
against_others-grant shared now (l ∷ ls) h =
    elim (Option-cases (find_first (λ (o : FileLock). o.mode == exclusive) (l ∷ ls))) [
      | inl e ↦
          All-imp _ _ (l ∷ ls) (λ m ne. (refl, ground arith))
            (find_first-none (λ (o : FileLock). o.mode == exclusive) (l ∷ ls) e)
      | inr (x, e) ↦ absurd (ground arith)
    ]

against_others-ne-renew :
    (mode : LockMode) (now : ℕ) (others : List FileLock)
    → against_others mode now others ≢ renew_existing
against_others-ne-renew mode now [] h = cc
against_others-ne-renew exclusive now (l ∷ ls) h = cc
against_others-ne-renew shared now (l ∷ ls) h =
    elim (Option-cases (find_first (λ (o : FileLock). o.mode == exclusive) (l ∷ ls))) [
      | inl e ↦ ground arith
      | inr (x, e) ↦ ground arith
    ]

abbrev pub IsAdmitted : LockDecision → Type 0
IsAdmitted d = (d ≡ grant) ⊎ (d ≡ renew_existing)

abbrev pub of_file : String → FileLock → Bool
of_file file_id m = m.file_id == file_id

abbrev pub lives : ℕ → FileLock → Bool
lives now m = not (is_expired m now)

-- The live locks of a file.
abbrev pub alive : String → ℕ → List FileLock → List FileLock
alive file_id now rows = keep (lives now) (keep (of_file file_id) rows)

module _ (file_id holder_id : String) (mode : LockMode) (now : ℕ) (rows : List FileLock) where
  -- No live lock of the client's own: what is admitted against the others.
  fresh-Compatible :
      IsAdmitted (
        against_others mode now
          (keep (λ (m : FileLock). not (m.holder_id == holder_id)) (alive file_id now rows)))
      → All (Compatible file_id holder_id mode now) rows
  fresh-Compatible d =
      let others =
        keep (λ (m : FileLock). not (m.holder_id == holder_id)) (alive file_id now rows) in
      let granted : against_others mode now others ≡ grant = elim d [
        | inl g ↦ g
        | inr r ↦ absurd (against_others-ne-renew mode now others r)
      ] in
      All-imp _ (Compatible file_id holder_id mode now) rows
        (λ m f file other living.
          f ((==_iff m.file_id file_id).1 file) (ground arith)
            (ground (arith, ==_iff m.holder_id holder_id)))
        (All-keep _ (of_file file_id) rows (
          All-keep _ (lives now) (keep (of_file file_id) rows) (
            All-keep _ (λ (m : FileLock). not (m.holder_id == holder_id)) (alive file_id now rows)
              (against_others-grant mode now others granted))))

  -- The client has a live lock: it can only be renewed as it is.
  renewed-Compatible :
      (mine : FileLock)
      → find_first (λ (m : FileLock). m.holder_id == holder_id) (alive file_id now rows) ≡ some mine
      → mine.mode ≡ mode
      → IsExclusive now rows
      → All (Compatible file_id holder_id mode now) rows
  renewed-Compatible mine found same h =
      let (own, rest) =
        find_first-some _ (λ (m : FileLock). m.holder_id == holder_id) (alive file_id now rows) mine
          found
          (keep-All _ (lives now) (keep (of_file file_id) rows)
            (keep-All (Among now rows) (of_file file_id) rows (IsExclusive-Among now rows h))) in
      let (lasts, rest') = rest in
      let (file, among) = rest' in
      All-imp _ (Compatible file_id holder_id mode now) rows
        (λ m a f other living. elim a [
          | inl e ↦ absurd (
              other
                (ap (λ (k : FileLock). k.holder_id) e ∙ (==_iff mine.holder_id holder_id).0 own))
          | inr apart ↦
              let (p, q) =
                apart.modes ((==_iff mine.file_id file_id).0 file ∙ sym f) (ground arith) living in
              (sym same ∙ p, q)
        ])
        among

  admitted-Compatible :
      IsAdmitted (can_acquire (rows_of file_id rows) holder_id mode now)
      → IsExclusive now rows
      → All (Compatible file_id holder_id mode now) rows
  unfolding can_acquire
  admitted-Compatible d h =
      elim (Option-cases
        (find_first (λ (m : FileLock). m.holder_id == holder_id) (alive file_id now rows))) [
          | inl none_mine ↦ fresh-Compatible (rw (none_mine, can_acquire) at d)
          | inr (mine, found) ↦
              let d' = rw (found, can_acquire) at d in
              renewed-Compatible mine found (ground arith) h
        ]

pub Decision-cases : (d : LockDecision) → IsAdmitted d ⊎ ((c : LockConflict) × (d ≡ conflict c))
Decision-cases grant = inl (inl refl)
Decision-cases renew_existing = inl (inr refl)
Decision-cases (conflict c) = inr (c, refl)

module _ (file_id holder_id : String) (mode : LockMode) (t : LockTimings) (now : ℕ)
    (s : Session Database) where
  abbrev pub new_lock : FileLock
  new_lock =
      granted_lock file_id holder_id mode t now
        (greatest_epoch (rows_of file_id s.working.file_locks))

  abbrev pub decision : LockDecision
  decision = can_acquire (rows_of file_id s.working.file_locks) holder_id mode now

  -- What `acquire_lock` answers and leaves, when the decision admits it and when it does not.
  pub acquire_lock-admitted :
      IsAdmitted decision
      → ((acquire_lock file_id holder_id mode t now s).0 ≡ ok new_lock)
        × ((acquire_lock file_id holder_id mode t now s).1.working.file_locks
            ≡ upserted new_lock s.working.file_locks)
  unfolding acquire_lock
  acquire_lock-admitted (inl e) = rw e (refl, refl)
  acquire_lock-admitted (inr e) = rw e (refl, refl)

  pub acquire_lock-refused :
      (c : LockConflict)
      → decision ≡ conflict c
      → ((acquire_lock file_id holder_id mode t now s).0 ≡ err file_locked)
        × ((acquire_lock file_id holder_id mode t now s).1 ≡ s)
  unfolding acquire_lock
  acquire_lock-refused c e = rw e (refl, refl)

  Beside-new : (m : FileLock) → Compatible file_id holder_id mode now m → Beside now new_lock m
  Beside-new m c key = record {
    holders = λ f h. ground (arith, is_row_iff file_id holder_id m);
    modes =
        λ f living living'. c (sym f) (λ h. ground (arith, is_row_iff file_id holder_id m)) living';
  }

  -- Whatever `acquire_lock` answers, afterwards no exclusive lock of a file is live beside a live
  -- lock of another client, if that held at some time before.
  pub acquire_lock-IsExclusive :
      (past : ℕ)
      → past ≤ now
      → IsExclusive past s.working.file_locks
      → IsExclusive now (acquire_lock file_id holder_id mode t now s).1.working.file_locks
  acquire_lock-IsExclusive past le h =
      let rows = s.working.file_locks in
      let h' = IsExclusive-later rows le h in
      elim (Decision-cases decision) [
        | inl d ↦ rw (acquire_lock-admitted d).1 (
            upserted-IsExclusive now new_lock rows
              (All-imp _ (Beside now new_lock) rows Beside-new
                (admitted-Compatible file_id holder_id mode now rows d h'))
              h')
        | inr (c, e) ↦ rw (acquire_lock-refused c e).1 h'
      ]
