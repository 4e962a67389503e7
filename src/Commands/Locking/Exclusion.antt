-- ===== src/Commands/Locking/Exclusion.antt =====
-- control_node/commands/filelock.py: an exclusive lock excludes every other live lock.
use dfsha_telematica.Prelude.{
  ℕ, ◌≤◌, String, ◌≡◌, ◌≢◌, refl, sym, ap, ◌∙◌, ◌↔◌, true, false, List, [], ◌∷◌, ◌++◌, arith, All,
  All-imp, All-append, All-apply, any_of, any_of-none, update_where, ==_iff, nat_eq, string_eq, ◌⊎◌,
  inl, inr, Bool-cases,
}
use dfsha_telematica.FileLock.{shared, lock_mode_eq, FileLock, is_expired}
use dfsha_telematica.Repositories.FileLockRows.{is_row, upserted}

-- Two rows for one file belong to different clients, and are both shared while both are live.
pub record Apart (now : ℕ) (l m : FileLock) : Type 0 where
  pub holders : l.file_id ≡ m.file_id → l.holder_id ≢ m.holder_id
  pub modes :
      l.file_id ≡ m.file_id
      → is_expired l now ≡ false
      → is_expired m now ≡ false
      → (l.mode ≡ shared) × (m.mode ≡ shared)

abbrev pub IsExclusive : ℕ → List FileLock → Type 0
IsExclusive now [] = Unit
IsExclusive now (l ∷ ls) = All (Apart now l) ls × IsExclusive now ls

pub Apart-symm : {now : ℕ} {l m : FileLock} → Apart now l m → Apart now m l
Apart-symm a = record {
  holders = λ f h. a.holders (sym f) (sym h);
  modes = λ f x y. let (p, q) = a.modes (sym f) y x in (q, p);
}

Apart-later : {now later : ℕ} {l m : FileLock} → now ≤ later → Apart now l m → Apart later l m
unfolding is_expired
Apart-later {now} {later} {l} {m} le a = record {
  holders = a.holders;
  modes = λ f x y. a.modes f (ground arith) (ground arith);
}

-- Locks only expire: exclusion at one time is exclusion later.
pub IsExclusive-later :
    {now later : ℕ} (ls : List FileLock) → now ≤ later → IsExclusive now ls → IsExclusive later ls
IsExclusive-later [] le h = tt
IsExclusive-later {now} {later} (l ∷ ls) le h = (
  All-imp (Apart now l) (Apart later l) ls (λ m. Apart-later le) h.0,
  IsExclusive-later ls le h.1,
)

-- A row beside the one that the new lock `l` may replace.
abbrev pub Beside : ℕ → FileLock → FileLock → Type 0
Beside now l m = is_row l.file_id l.holder_id m ≡ false → Apart now l m

pub is_row_iff :
    (file_id holder_id : String) (m : FileLock)
    → (is_row file_id holder_id m ≡ true) ↔ ((m.file_id ≡ file_id) × (m.holder_id ≡ holder_id))
is_row_iff file_id holder_id m =
    ground (arith, ==_iff m.file_id file_id, ==_iff m.holder_id holder_id)

Apart-key :
    {now : ℕ} (l r m : FileLock)
    → is_row l.file_id l.holder_id r ≡ true
    → Apart now r m
    → is_row l.file_id l.holder_id m ≡ false
Apart-key l r m key a = elim (Bool-cases (is_row l.file_id l.holder_id m)) [
  | inl e ↦
      let (f, h) = (is_row_iff l.file_id l.holder_id m).0 e in
      let (f', h') = (is_row_iff l.file_id l.holder_id r).0 key in
      absurd (a.holders (f' ∙ sym f) (h' ∙ sym h))
  | inr e ↦ e
]

module _ (now : ℕ) (l : FileLock) where
  abbrev updated : List FileLock → List FileLock
  updated rows = update_where (is_row l.file_id l.holder_id) (λ m. l) rows

  -- A fact of the new lock and of each row that stays holds of the updated rows.
  updated-All :
      (P : FileLock → Type 0) (rows : List FileLock) → P l → All P rows → All P (updated rows)
  updated-All P [] new h = tt
  updated-All P (m ∷ rows) new h = elim (Bool-cases (is_row l.file_id l.holder_id m)) [
    | inl e ↦ rw e (new, updated-All P rows new h.1)
    | inr e ↦ rw e (h.0, updated-All P rows new h.1)
  ]

  -- With no row under its key, the update changes nothing.
  updated-none :
      (rows : List FileLock)
      → All (λ m. is_row l.file_id l.holder_id m ≡ false) rows
      → updated rows ≡ rows
  updated-none [] h = refl
  updated-none (m ∷ rows) h = rw h.0 (ap (λ ms. m ∷ ms) (updated-none rows h.1))

  updated-IsExclusive :
      (rows : List FileLock)
      → All (Beside now l) rows
      → IsExclusive now rows
      → IsExclusive now (updated rows)
  updated-IsExclusive [] new h = tt
  updated-IsExclusive (m ∷ rows) new h = elim (Bool-cases (is_row l.file_id l.holder_id m)) [
    | inl e ↦
        let keyless =
          All-imp (Apart now m) (λ k. is_row l.file_id l.holder_id k ≡ false) rows
            (λ k a. Apart-key l m k e a) h.0 in
        rw (e, updated-none rows keyless) (All-apply _ (Apart now l) rows new.1 keyless, h.1)
    | inr e ↦ rw e (
      updated-All (Apart now m) rows (Apart-symm (new.0 e)) h.0,
      updated-IsExclusive rows new.1 h.1,
    )
  ]

  pub upserted-IsExclusive :
      (rows : List FileLock)
      → All (Beside now l) rows
      → IsExclusive now rows
      → IsExclusive now (upserted l rows)
  upserted-IsExclusive rows new h = elim (Bool-cases (any_of (is_row l.file_id l.holder_id) rows)) [
    | inl e ↦ rw e (updated-IsExclusive rows new h)
    | inr e ↦ rw e (snoc rows (All-apply _ (Apart now l) rows new (any_of-none _ rows e)) h)
  ]
    where
      snoc :
          (ls : List FileLock)
          → All (Apart now l) ls
          → IsExclusive now ls
          → IsExclusive now (ls ++ l ∷ [])
      snoc [] a h = (tt, tt)
      snoc (m ∷ ls) a h =
          (All-append (Apart now m) ls (l ∷ []) h.0 (Apart-symm a.0, tt), snoc ls a.1 h.1)

-- Each row and the others.
abbrev pub Among : ℕ → List FileLock → FileLock → Type 0
Among now rows l = All (λ m. (m ≡ l) ⊎ Apart now l m) rows

pub IsExclusive-Among :
    (now : ℕ) (rows : List FileLock) → IsExclusive now rows → All (Among now rows) rows
IsExclusive-Among now [] h = tt
IsExclusive-Among now (l ∷ ls) h = (
  (inl refl, All-imp (Apart now l) _ ls (λ m. inr) h.0),
  All-apply (Among now ls) (Among now (l ∷ ls)) ls
      (All-imp (Apart now l) _ ls (λ m a rest. (inr (Apart-symm a), rest)) h.0)
      (IsExclusive-Among now ls h.1),
)
