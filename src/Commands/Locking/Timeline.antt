-- ===== src/Commands/Locking/Timeline.antt =====
-- control_node/commands/filelock.py: histories of the lock table, and the client that was frozen.
use dfsha_telematica.Prelude.{
  ℕ, ◌+◌, ◌≤◌, ◌<◌, String, ◌≡◌, ◌≢◌, refl, sym, ap, ◌∙◌, true, false, none, some, List, [], ◌∷◌,
  ◌++◌, arith, All, All-imp, keep-All, find_first, find_first-absent, any_of, update_where, ◌==◌,
  ==_iff, string_eq, ◌⊎◌, inl, inr, Bool-cases,
}
use dfsha_telematica.Errors.{ok, err, stale_lock}
use dfsha_telematica.FileLock.{LockMode, exclusive, LockFencing, FileLock, LockTimings, is_expired}
use dfsha_telematica.Session.{Session}
use dfsha_telematica.Database.{Database}
use dfsha_telematica.Repositories.FileLockRows.{rows_of, is_row, upserted}
use dfsha_telematica.Commands.Locking.{acquire_lock, release_lock, require_lock}
use dfsha_telematica.Commands.Locking.Exclusion.{
  Apart, IsExclusive, IsExclusive-later, Among, IsExclusive-Among,
}
use dfsha_telematica.Commands.Locking.Admission.{
  alive, lives, of_file, new_lock, decision, Decision-cases, acquire_lock-admitted,
  acquire_lock-refused, acquire_lock-IsExclusive,
}

-- A history of the locks under one clock that does not run backwards: acquisitions, whatever they
-- answer, releases, and transactions that leave the locks alone.
pub data Timeline : ℕ → List FileLock → Type 0 where
  start : (now : ℕ) → Timeline now []
  acquiring :
      {past : ℕ} {rows : List FileLock} (file_id holder_id : String) (mode : LockMode)
      (t : LockTimings) (now : ℕ) (s : Session Database) (rows' : List FileLock)
      → Timeline past rows
      → past ≤ now
      → s.working.file_locks ≡ rows
      → rows' ≡ (acquire_lock file_id holder_id mode t now s).1.working.file_locks
      → Timeline now rows'
  releasing :
      {past : ℕ} {rows : List FileLock} (file_id holder_id : String) (now : ℕ)
      (s : Session Database) (rows' : List FileLock)
      → Timeline past rows
      → past ≤ now
      → s.working.file_locks ≡ rows
      → rows' ≡ (release_lock file_id holder_id s).1.working.file_locks
      → Timeline now rows'
  waiting :
      {past : ℕ} {rows : List FileLock} (now : ℕ)
      → Timeline past rows
      → past ≤ now
      → Timeline now rows

-- The new row is among the rows after an upsert.
upserted-has :
    (P : FileLock → Type 0) (l : FileLock) (rows : List FileLock) → All P (upserted l rows) → P l
upserted-has P l rows h = elim (Bool-cases (any_of (is_row l.file_id l.holder_id) rows)) [
  | inl e ↦ replaced rows e (rw e at h)
  | inr e ↦ appended rows (rw e at h)
]
  where
    replaced :
        (ms : List FileLock)
        → any_of (is_row l.file_id l.holder_id) ms ≡ true
        → All P (update_where (is_row l.file_id l.holder_id) (λ m. l) ms)
        → P l
    replaced [] e a = absurd (cc)
    replaced (m ∷ ms) e a = elim (Bool-cases (is_row l.file_id l.holder_id m)) [
      | inl k ↦ let a' = rw k at a in a'.0
      | inr k ↦ replaced ms (ground arith) a.1
    ]

    appended : (ms : List FileLock) → All P (ms ++ l ∷ []) → P l
    appended [] a = a.0
    appended (m ∷ ms) a = appended ms a.1

-- A fencing whose client has no live lock on the file is refused as stale.
without_lock_refused :
    (file_id : String) (f : LockFencing) (now : ℕ) (s : Session Database)
    → All
        (λ m. m.file_id ≡ file_id → is_expired m now ≡ false → m.holder_id ≢ f.holder_id)
        s.working.file_locks
    → (require_lock file_id (some f) now s).0 ≡ err stale_lock
unfolding require_lock
without_lock_refused file_id f now s h =
    let absent : find_first (λ (m : FileLock). m.holder_id == f.holder_id)
          (alive file_id now s.working.file_locks)
        ≡ none =
      find_first-absent _ (alive file_id now s.working.file_locks) (
        All-imp _ _ (alive file_id now s.working.file_locks)
          (λ m x. other_holder m (x.1.1 ((==_iff m.file_id file_id).0 x.1.0) (ground (arith, x.0))))
          (keep-All _ (lives now) (rows_of file_id s.working.file_locks)
            (keep-All _ (of_file file_id) s.working.file_locks h))) in
    rw absent
  where
    other_holder : (m : FileLock) → m.holder_id ≢ f.holder_id → (m.holder_id == f.holder_id) ≡ false
    other_holder m ne = ground (arith, ne, ==_iff m.holder_id f.holder_id)

pub outlives :
    (l : FileLock) (expiry later : ℕ)
    → l.expires_at ≡ expiry
    → later < expiry
    → is_expired l later ≡ false
unfolding is_expired
outlives l expiry later e short = ground (arith, short, e)

-- The client that was frozen while its lease ran out. Once another client has taken the file
-- exclusively, a write that carries any fencing of the first client is refused for as long as
-- the other's lease lasts.
pub frozen_client_refused :
    (file_id other : String) (t : LockTimings) (past now later : ℕ) (s : Session Database)
    (l : FileLock) (f : LockFencing)
    → IsExclusive past s.working.file_locks
    → past ≤ now
    → (acquire_lock file_id other exclusive t now s).0 ≡ ok l
    → now ≤ later
    → later < now + t.ttl
    → f.holder_id ≢ other
    → (require_lock file_id (some f) later (acquire_lock file_id other exclusive t now s).1).0
      ≡ err stale_lock
frozen_client_refused file_id other t past now later s l f h le taken le' short apart =
    elim (Decision-cases (decision file_id other exclusive t now s)) [
      | inl d ↦
          let nl = new_lock file_id other exclusive t now s in
          let after = (acquire_lock-admitted file_id other exclusive t now s d).1 in
          let s' = (acquire_lock file_id other exclusive t now s).1 in
          let rows' = upserted nl s.working.file_locks in
          let kept =
            IsExclusive-later s'.working.file_locks le'
              (acquire_lock-IsExclusive file_id other exclusive t now s past le h) in
          let safe : IsExclusive later rows' = rw after at kept in
          let lasts : is_expired nl later ≡ false = outlives nl (now + t.ttl) later refl short in
          let among =
            upserted-has (Among later rows') nl s.working.file_locks
              (IsExclusive-Among later rows' safe) in
          without_lock_refused file_id f later s' (
            rw after (
              All-imp _ _ rows'
                (λ m a file living same. beside nl m a refl refl refl lasts file living same)
                among))
      | inr (c, e) ↦ absurd (cc (acquire_lock-refused file_id other exclusive t now s c e).0)
    ]
  where
    beside :
        (nl m : FileLock)
        → (m ≡ nl) ⊎ Apart later nl m
        → nl.holder_id ≡ other
        → nl.mode ≡ exclusive
        → nl.file_id ≡ file_id
        → is_expired nl later ≡ false
        → m.file_id ≡ file_id
        → is_expired m later ≡ false
        → m.holder_id ≡ f.holder_id
        → ⊥
    beside nl m (inl e) h x file lasts file' living same =
        apart (sym same ∙ ap (λ (k : FileLock). k.holder_id) e ∙ h)
    beside nl m (inr a) h x file lasts file' living same =
        let both = a.modes (file ∙ sym file') lasts living in cc (both.0, x)
