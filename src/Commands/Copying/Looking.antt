-- ===== src/Commands/Copying/Looking.antt =====
-- control_node/commands/rereplication.py: the loop of dispatch over the pending tasks.
use dfsha_telematica.Prelude.{
  ◌⊎◌, ℕ, String, ◌≡◌, ◌≢◌, refl, sym, ◌∙◌, subst, Bool, true, Option, none, some, List, [], ◌∷◌,
  arith, All, All-imp, trivial, keep, keep-All, sorted-All, Pairwise, sorted-Pairwise, update_where,
  ◌==◌, ==_iff, nat_eq, string_eq, inl, inr, Bool-cases,
}
use dfsha_telematica.Errors.{Result, ok, err}
use dfsha_telematica.Rows.{Task, pending, task_state_eq, task_kind_eq}
use dfsha_telematica.Membership.{MembershipThresholds}
use dfsha_telematica.Rereplication.{ReplicationGap, missing}
use dfsha_telematica.Session.{Session, pure, continue}
use dfsha_telematica.Database.{Database}
use dfsha_telematica.Repositories.TaskRows
use dfsha_telematica.Repositories.ShortBlocks.{ShortBlock}
use dfsha_telematica.Repositories.TaskRows.OneActive.{
  Rivals, OneActive, Lowers, update-OneActive, closed-Lowers,
}
use dfsha_telematica.Commands.Copying.{RereplicationPolicy, to_gap}
use dfsha_telematica.Commands.Copying.Dispatch.{Queue, queued_if, look_at, look_at_all, block_of}

-- The task of that id is live.
abbrev pub LiveTask : String → List Task → Type 0
LiveTask x rows = All (λ (t : Task). t.id ≡ x → TaskRows.is_active t ≡ true) rows

abbrev pub Distinct : List Task → Type 0
Distinct = Pairwise (λ (t u : Task). t.id ≢ u.id)

-- An UPDATE of the row of one id does not touch another.
pub LiveTask-other :
    (x y : String) (f : Task → Task) (rows : List Task)
    → ((t : Task) → (f t).id ≡ t.id)
    → x ≢ y
    → LiveTask x rows
    → LiveTask x (update_where (TaskRows.has_id y) f rows)
LiveTask-other x y f [] same ne h = tt
LiveTask-other x y f (t ∷ ts) same ne h = (
  elim (Bool-cases (TaskRows.has_id y t)) [
    | inl e ↦ rw e (λ e'. absurd (ne (sym e' ∙ same t ∙ (==_iff t.id y).0 e)))
    | inr e ↦ rw e h.0
  ],
  LiveTask-other x y f ts same ne h.1,
)

live_rows :
    (rows : List Task)
    → OneActive rows
    → All (λ t. TaskRows.is_active t ≡ true → LiveTask t.id rows) rows
live_rows [] h = tt
live_rows (t ∷ ts) h = (λ a. ((λ _. a), others t ts h.0), later t ts h.0 (live_rows ts h.1))
  where
    others : (t : Task) (ts : List Task) → All (Rivals t) ts → LiveTask t.id ts
    others t [] r = tt
    others t (u ∷ us) r = ((λ e. absurd (r.0.ids (sym e))), others t us r.1)

    later :
        (t : Task) (us : List Task)
        → All (Rivals t) us
        → All (λ u. TaskRows.is_active u ≡ true → LiveTask u.id ts) us
        → All (λ u. TaskRows.is_active u ≡ true → LiveTask u.id (t ∷ ts)) us
    later t [] r k = tt
    later t (u ∷ us) r k = ((λ a. ((λ e. absurd (r.0.ids e)), k.0 a)), later t us r.1 k.1)

keep-Pairwise :
    (R : Task → Task → Type 0) (p : Task → Bool) (xs : List Task)
    → Pairwise R xs
    → Pairwise R (keep p xs)
keep-Pairwise R p [] h = tt
keep-Pairwise R p (x ∷ xs) h = elim (Bool-cases (p x)) [
  | inl e ↦ rw e (
    All-imp (λ y. (p y ≡ true) × R x y) (R x) (keep p xs) (λ y k. k.1) (keep-All (R x) p xs h.0),
    keep-Pairwise R p xs h.1,
  )
  | inr e ↦ rw e (keep-Pairwise R p xs h.1)
]

Distinct-rows : (rows : List Task) → OneActive rows → Distinct rows
Distinct-rows [] h = tt
Distinct-rows (t ∷ ts) h =
    (All-imp (Rivals t) (λ u. t.id ≢ u.id) ts (λ u r. r.ids) h.0, Distinct-rows ts h.1)

-- The pending copies have different ids and are live.
pub pending-Distinct : (rows : List Task) → OneActive rows → Distinct (TaskRows.pending_copies rows)
pending-Distinct rows h =
    sorted-Pairwise (λ (t u : Task). t.id ≢ u.id) TaskRows.scheduled_before (λ t u ne e. ne (sym e))
      (keep TaskRows.is_pending_copy rows)
      (keep-Pairwise (λ (t u : Task). t.id ≢ u.id) TaskRows.is_pending_copy rows
        (Distinct-rows rows h))

pub pending-Live :
    (rows : List Task)
    → OneActive rows
    → All (λ (t : Task). LiveTask t.id rows) (TaskRows.pending_copies rows)
pending-Live rows h =
    sorted-All TaskRows.scheduled_before (λ (t : Task). LiveTask t.id rows)
      (keep TaskRows.is_pending_copy rows)
      (All-imp
        (λ t.
          (TaskRows.is_pending_copy t ≡ true) × (TaskRows.is_active t ≡ true → LiveTask t.id rows))
        (λ t. LiveTask t.id rows) (keep TaskRows.is_pending_copy rows)
        (λ t k.
          let waits : (t.state == pending) ≡ true = ground (arith, k.0) in
          k.1 (ground (arith, waits)))
        (keep-All (λ t. TaskRows.is_active t ≡ true → LiveTask t.id rows) TaskRows.is_pending_copy
          rows (live_rows rows h)))

-- After the loop: nothing is committed, tasks that it was not given stay live, and so do those that it
-- queues.
pub record Looked (ts : List Task) (s : Session Database) (out : Result Queue × Session Database)
    : Type 0 where
  pub durable : out.1.durable ≡ s.durable
  pub nodes : out.1.working.data_nodes ≡ s.working.data_nodes
  pub alone : OneActive out.1.working.tasks
  pub others :
      (x : String)
      → All (λ (t : Task). x ≢ t.id) ts
      → LiveTask x s.working.tasks
      → LiveTask x out.1.working.tasks
  pub sendable : (q : Queue) → out.0 ≡ ok q → All (λ p. LiveTask p.1 out.1.working.tasks) q.1

module _ (policy : RereplicationPolicy) (thresholds : MembershipThresholds) (now : ℕ)
    (blocks : List ShortBlock) where
  abbrev closing : Task → Session Database → Session Database
  closing t s = record s {
    working = TaskRows.update_tasks (TaskRows.has_id t.id) TaskRows.closed s.working;
  }

  look_at-cases :
      (t : Task) (o : Option ShortBlock) (s : Session Database)
      → (look_at policy thresholds now t o s ≡ (ok none, closing t s))
        ⊎ ((gap : ReplicationGap) × (look_at policy thresholds now t o s ≡ (ok (some gap), s)))
  look_at-cases t none s = inl refl
  look_at-cases t (some b) s =
      elim (Bool-cases (missing (to_gap b now thresholds policy.replication_factor) == 0)) [
        | inl e ↦ inl (rw e refl)
        | inr e ↦ inr (to_gap b now thresholds policy.replication_factor, rw e refl)
      ]

  with_closed :
      (t : Task) (ts : List Task) (s : Session Database) (out : Result Queue × Session Database)
      → Looked ts (closing t s) out
      → Looked (t ∷ ts) s (continue out.0 (λ rest. pure (queued_if none t rest)) out.1)
  with_closed t ts s (err e, s') k = record {
    durable = k.durable;
    nodes = k.nodes;
    alone = k.alone;
    others = λ x ne live.
        k.others x ne.1
          (LiveTask-other x t.id TaskRows.closed s.working.tasks (λ u. refl) ne.0 live);
    sendable = λ q h. absurd (cc);
  }
  with_closed t ts s (ok rest, s') k = record {
    durable = k.durable;
    nodes = k.nodes;
    alone = k.alone;
    others = λ x ne live.
        k.others x ne.1
          (LiveTask-other x t.id TaskRows.closed s.working.tasks (λ u. refl) ne.0 live);
    sendable = λ q h. k.sendable q h;
  }

  with_gap :
      (gap : ReplicationGap) (t : Task) (ts : List Task) (s : Session Database)
      (out : Result Queue × Session Database)
      → All (λ (u : Task). t.id ≢ u.id) ts
      → LiveTask t.id s.working.tasks
      → Looked ts s out
      → Looked (t ∷ ts) s (continue out.0 (λ rest. pure (queued_if (some gap) t rest)) out.1)
  with_gap gap t ts s (err e, s') ne live k = record {
    durable = k.durable;
    nodes = k.nodes;
    alone = k.alone;
    others = λ x ne' live'. k.others x ne'.1 live';
    sendable = λ q h. absurd (cc);
  }
  with_gap gap t ts s (ok rest, s') ne live k = record {
    durable = k.durable;
    nodes = k.nodes;
    alone = k.alone;
    others = λ x ne' live'. k.others x ne'.1 live';
    sendable = λ q h.
        let same : queued_if (some gap) t rest ≡ q = cc in
        subst (λ (z : Queue). All (λ p. LiveTask p.1 s'.working.tasks) z.1) same
          (k.others t.id ne live, k.sendable rest refl);
  }

  pub look_at_all-Looked :
      (ts : List Task) (s : Session Database)
      → OneActive s.working.tasks
      → Distinct ts
      → All (λ (t : Task). LiveTask t.id s.working.tasks) ts
      → Looked ts s (look_at_all policy thresholds now blocks ts s)
  look_at_all-Looked [] s h d live = record {
    durable = refl;
    nodes = refl;
    alone = h;
    others = λ x ne l. l;
    sendable = λ q e.
        let same : ([], []) ≡ q = cc in
        subst (λ (z : Queue). All (λ p. LiveTask p.1 s.working.tasks) z.1) same tt;
  }
  look_at_all-Looked (t ∷ ts) s h d live = elim (look_at-cases t (block_of t.block_id blocks) s) [
    | inl e ↦
        let alone =
          update-OneActive (TaskRows.has_id t.id) TaskRows.closed s.working.tasks
            (lowered s.working.tasks) h in
        rw e (
          with_closed t ts s _
            (look_at_all-Looked ts (closing t s) alone d.1 (still_live s t ts d.0 live.1)))
    | inr (gap, e) ↦ rw e (with_gap gap t ts s _ d.0 live.0 (look_at_all-Looked ts s h d.1 live.1))
  ]
    where
      lowered :
          (rows : List Task)
          → All (λ u. TaskRows.has_id t.id u ≡ true → Lowers u (TaskRows.closed u)) rows
      lowered rows = All-imp (λ u. Unit {0}) _ rows (λ u k e. closed-Lowers u) (trivial rows)

      still_live :
          (s : Session Database) (t : Task) (us : List Task)
          → All (λ (u : Task). t.id ≢ u.id) us
          → All (λ (u : Task). LiveTask u.id s.working.tasks) us
          → All (λ (u : Task). LiveTask u.id (closing t s).working.tasks) us
      still_live s t [] ne k = tt
      still_live s t (u ∷ us) ne k = (
        LiveTask-other u.id t.id TaskRows.closed s.working.tasks (λ v. refl) (λ e. ne.0 (sym e))
            k.0,
        still_live s t us ne.1 k.1,
      )
