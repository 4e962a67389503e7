-- ===== src/Repositories/TaskRows/OneActive.antt =====
-- SqlRereplicationRepository of control_node/repositories/sql.py: the partial unique index of the queue,
-- at most one live task of a block, through the statements.
use dfsha_telematica.Prelude.{
  ℕ, String, ◌≡◌, ◌≢◌, refl, sym, ◌∙◌, Bool, true, false, List, [], ◌∷◌, ◌++◌, arith, All,
  any_of-none, Pairwise, update-Pairwise, snoc-Pairwise, update_where, ◌==◌, ==_iff, string_eq, inl,
  inr, Bool-cases, if◌then◌else◌,
}
use dfsha_telematica.Rows.{Task, in_flight, task_state_eq}
use dfsha_telematica.Repositories.TaskRows

-- Two tasks have two ids, and are not both live and of one block.
pub record Rivals (t u : Task) : Type 0 where
  pub ids : t.id ≢ u.id
  pub alone : t.block_id ≡ u.block_id → TaskRows.is_active t ≡ true → TaskRows.is_active u ≡ false

abbrev pub OneActive : List Task → Type 0
OneActive = Pairwise Rivals

-- A change of a task that does not bring it back to life.
pub record Lowers (t u : Task) : Type 0 where
  pub id : u.id ≡ t.id
  pub block_id : u.block_id ≡ t.block_id
  pub active : TaskRows.is_active u ≡ true → TaskRows.is_active t ≡ true

pub Lowers-self : (t : Task) → Lowers t t
Lowers-self t = record { id = refl; block_id = refl; active = λ h. h }

not_active : (t u : Task) → Lowers t u → TaskRows.is_active t ≡ false → TaskRows.is_active u ≡ false
not_active t u l h = elim (Bool-cases (TaskRows.is_active u)) [
  | inl e ↦ let back = l.active e in absurd (cc)
  | inr e ↦ e
]

Rivals-Lowers : (t u t' u' : Task) → Lowers t t' → Lowers u u' → Rivals t u → Rivals t' u'
Rivals-Lowers t u t' u' l m r = record {
  ids = λ e. r.ids (sym l.id ∙ e ∙ m.id);
  alone = λ e a. not_active u u' m (r.alone (sym l.block_id ∙ e ∙ m.block_id) (l.active a));
}

-- An UPDATE whose rows are not brought back to life.
pub update-OneActive :
    (p : Task → Bool) (f : Task → Task) (rows : List Task)
    → All (λ t. p t ≡ true → Lowers t (f t)) rows
    → OneActive rows
    → OneActive (update_where p f rows)
update-OneActive p f rows lowers h =
    update-Pairwise (λ t. p t ≡ true → Lowers t (f t)) Rivals p f
      (λ t u l m r. Rivals-Lowers t u _ _ (step t l) (step u m) r) rows lowers h
  where
    step : (t : Task) → (p t ≡ true → Lowers t (f t)) → Lowers t (if p t then f t else t)
    step t l = elim (Bool-cases (p t)) [ inl e ↦ rw e (l e) | inr e ↦ rw e (Lowers-self t) ]

beside :
    (t : Task) (rows : List Task)
    → All (λ (u : Task). u.id ≢ t.id) rows
    → All (λ u. TaskRows.active_for t.block_id u ≡ false) rows
    → All (λ u. Rivals u t) rows
beside t [] fresh h = tt
beside t (u ∷ us) fresh h = (
  record {
    ids = fresh.0;
    alone = λ e a.
        let yes_ : TaskRows.active_for t.block_id u ≡ true =
          ground (arith, ==_iff u.block_id t.block_id, e, a) in
        absurd (cc);
  },
  beside t us fresh.1 h.1,
)

-- The INSERT after the test of `has_active_task`, of a task with a new id.
pub added-OneActive :
    (t : Task) (rows : List Task)
    → All (λ (u : Task). u.id ≢ t.id) rows
    → TaskRows.has_active t.block_id rows ≡ false
    → OneActive rows
    → OneActive (rows ++ t ∷ [])
added-OneActive t rows fresh h w =
    snoc-Pairwise Rivals rows t w
      (beside t rows fresh (any_of-none (TaskRows.active_for t.block_id) rows h))

-- The two ways in which a live task ends.
pub confirmed-Lowers : (t : Task) → Lowers t (TaskRows.confirmed t)
confirmed-Lowers t = record { id = refl; block_id = refl; active = λ h. absurd (cc) }

pub closed-Lowers : (t : Task) → Lowers t (TaskRows.closed t)
closed-Lowers t = record { id = refl; block_id = refl; active = λ h. absurd (cc) }

pub expired-Lowers :
    (now max_attempts : ℕ) (t : Task)
    → TaskRows.is_stale now t ≡ true
    → Lowers t (TaskRows.expired max_attempts t)
expired-Lowers now max_attempts t h =
    let flying : (t.state == in_flight) ≡ true = ground (arith, h) in
    let was : TaskRows.is_active t ≡ true = ground (arith, flying) in
    elim (Bool-cases (TaskRows.is_spent max_attempts t)) [
      | inl e ↦ rw e (record { id = refl; block_id = refl; active = λ _. was })
      | inr e ↦ rw e (record { id = refl; block_id = refl; active = λ _. was })
    ]

pub sent_off-Lowers :
    (source target : String) (now expires_at : ℕ) (t : Task)
    → TaskRows.is_active t ≡ true
    → Lowers t (TaskRows.sent_off source target now expires_at t)
sent_off-Lowers source target now expires_at t h = record {
  id = refl;
  block_id = refl;
  active = λ _. h;
}

pub sent-Lowers : (now : ℕ) (t : Task) → Lowers t (TaskRows.sent now t)
sent-Lowers now t = record { id = refl; block_id = refl; active = λ h. h }
