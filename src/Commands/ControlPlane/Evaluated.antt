-- ===== src/Commands/ControlPlane/Evaluated.antt =====
-- control_node/commands/control_plane.py: what `evaluate_membership` answers and leaves.
use dfsha_telematica.Prelude.{
  ℕ, ◌≡◌, ◌≢◌, refl, sym, ap, ◌∙◌, not, ◌||◌, Option, none, some, List, [], ◌∷◌, All, All-imp,
  sorted, sorted-All, Pairwise, sorted-Pairwise, In-sorted, ◌==◌, string_eq, nat_eq, ◌⊎◌, inl, inr,
  Bool-cases, Option-cases,
}
use dfsha_telematica.Errors.{Error, ok, err, Result-cases}
use dfsha_telematica.Entities.{DataNode}
use dfsha_telematica.Membership.{MembershipThresholds, StateChange, evaluate}
use dfsha_telematica.Leadership.{Fencing, Lease, is_expired}
use dfsha_telematica.Session.{Session, with_uow, pure, ◌>>◌}
use dfsha_telematica.Database.{Database}
use dfsha_telematica.Repositories.DataNodeRows.{older}
use dfsha_telematica.Commands.Leading.{check_lease, require_leadership}
use dfsha_telematica.Commands.ControlPlane.{lead, commit_if, evaluate_membership}
use dfsha_telematica.Commands.ControlPlane.Settled.{
  Settled, Visited, settle_dbs, changes_of, settle_all_lem, visit-All, none-evaluate,
}

-- `require_leadership` only reads.
check_lease_reads :
    (f : Fencing) (now : ℕ) (o : Option Lease) (s : Session Database)
    → (check_lease f now o s).1 ≡ s
unfolding is_expired
check_lease_reads f now none s = refl
check_lease_reads f now (some lease) s = elim (Option-cases lease.leader_id) [
  | inl e ↦ rw e refl
  | inr (leader, e) ↦
      elim (Bool-cases
        (not (leader == f.leader_id) || not (lease.epoch == f.epoch) || is_expired lease now)) [
          | inl stale ↦ rw (e, stale) refl
          | inr fresh ↦ rw (e, fresh) refl
        ]
]

check_lease_lem :
    (f : Fencing) (now : ℕ) (o : Option Lease) (s : Session Database)
    → ((l : Lease) × (check_lease f now o s ≡ (ok l, s)))
      ⊎ ((e : Error) × (check_lease f now o s ≡ (err e, s)))
check_lease_lem f now o s =
    let same = check_lease_reads f now o s in
    elim (Result-cases (check_lease f now o s).0) [
      | inl (l, e) ↦ inl (l, λ i. (e i, same i))
      | inr (x, e) ↦ inr (x, λ i. (e i, same i))
    ]

lead_lem :
    (f : Option Fencing) (now : ℕ) (s : Session Database)
    → (lead f now s ≡ (ok tt, s)) ⊎ ((e : Error) × (lead f now s ≡ (err e, s)))
unfolding require_leadership
lead_lem none now s = inl refl
lead_lem (some f) now s = elim (check_lease_lem f now s.working.lease s) [
  | inl (l, e) ↦ inl (rw e refl)
  | inr (x, e) ↦ inr (x, rw e refl)
]

-- The end of the block: without changes nothing is committed, and nothing was written.
finish :
    (cs : List StateChange) (db after : Database)
    → (cs ≡ [] → after ≡ db)
    → with_uow (λ s. (commit_if cs >> pure cs) (record s { working = after })) db ≡ (ok cs, after)
finish [] db after h = λ i. (ok [], sym (h refl) i)
finish (c ∷ cs) db after h = refl

module _ (thresholds : MembershipThresholds) (now : ℕ) where
  no_changes :
      (ns : List DataNode) (db : Database)
      → changes_of thresholds now ns ≡ []
      → settle_dbs thresholds now ns db ≡ db
  no_changes [] db h = refl
  no_changes (n ∷ ns) db h = elim (Option-cases (evaluate n now thresholds)) [
    | inl e ↦ rw e (no_changes ns db (rw e at h))
    | inr (c, e) ↦ absurd (let h' = rw e at h in cc)
  ]

  abbrev nodes_of : Database → List DataNode
  nodes_of db = sorted older db.data_nodes

  abbrev Run : Option Fencing → Database → Type 0
  Run f db =
      (evaluate_membership thresholds now f db ≡ (
        ok (changes_of thresholds now (nodes_of db)),
        settle_dbs thresholds now (nodes_of db) db,
      ))
      ⊎ ((e : Error) × (evaluate_membership thresholds now f db ≡ (err e, db)))

  unfenced :
      (db : Database)
      → evaluate_membership thresholds now none db
        ≡ (ok (changes_of thresholds now (nodes_of db)), settle_dbs thresholds now (nodes_of db) db)
  unfolding evaluate_membership
  unfenced db =
      rw (settle_all_lem thresholds now (nodes_of db) (record { durable = db; working = db })) (
        finish (changes_of thresholds now (nodes_of db)) db
          (settle_dbs thresholds now (nodes_of db) db) (no_changes (nodes_of db) db))

  evaluate_membership_lem : (f : Option Fencing) (db : Database) → Run f db
  unfolding evaluate_membership
  evaluate_membership_lem f db =
      let s : Session Database = record { durable = db; working = db } in
      elim (lead_lem f now s) [
        | inr (x, e) ↦ inr (x, rw e refl)
        | inl e ↦ inl (
            rw (e, settle_all_lem thresholds now (nodes_of db) s)
              (finish (changes_of thresholds now (nodes_of db)) db
                (settle_dbs thresholds now (nodes_of db) db) (no_changes (nodes_of db) db)))
      ]

  -- On a table of nodes with distinct ids, an evaluation that is not refused leaves every node in
  -- the state that its last heartbeat gives at that time.
  pub evaluate_membership-Settled :
      (f : Option Fencing) (db : Database) (cs : List StateChange)
      → Pairwise (λ (n m : DataNode). n.id ≢ m.id) db.data_nodes
      → (evaluate_membership thresholds now f db).0 ≡ ok cs
      → All (Settled thresholds now) (evaluate_membership thresholds now f db).1.data_nodes
  evaluate_membership-Settled f db cs distinct answered = elim (evaluate_membership_lem f db) [
    | inr (x, e) ↦ absurd (cc (answered, ap (λ r. r.0) e))
    | inl e ↦
        let apart =
          sorted-Pairwise (λ (n m : DataNode). n.id ≢ m.id) older (λ n m d x. d (sym x))
            db.data_nodes distinct in
        let visited =
          visit-All thresholds now (nodes_of db) db apart
            (All-imp _ _ db.data_nodes (λ m. inl) (In-sorted older db.data_nodes)) in
        rw e (
          All-imp (Visited thresholds now []) (Settled thresholds now)
            (settle_dbs thresholds now (nodes_of db) db).data_nodes settled visited)
  ]
    where
      settled : (m : DataNode) → Visited thresholds now [] m → Settled thresholds now m
      settled m (inl i) = absurd i
      settled m (inr (s, _)) = s

  All-Settled :
      (ns : List DataNode) → All (Settled thresholds now) ns → changes_of thresholds now ns ≡ []
  All-Settled [] h = refl
  All-Settled (n ∷ ns) h = rw (none-evaluate thresholds now n h.0) (All-Settled ns h.1)

  -- A second evaluation at the same time finds nothing to change.
  pub evaluate_membership_again :
      (f : Option Fencing) (db : Database) (cs : List StateChange)
      → Pairwise (λ (n m : DataNode). n.id ≢ m.id) db.data_nodes
      → (evaluate_membership thresholds now f db).0 ≡ ok cs
      → evaluate_membership thresholds now none (evaluate_membership thresholds now f db).1
        ≡ (ok [], (evaluate_membership thresholds now f db).1)
  evaluate_membership_again f db cs distinct answered =
      let after = (evaluate_membership thresholds now f db).1 in
      let settled =
        sorted-All older (Settled thresholds now) after.data_nodes
          (evaluate_membership-Settled f db cs distinct answered) in
      let quiet = All-Settled (nodes_of after) settled in
      unfenced after ∙ (λ i. (ok (quiet i), no_changes (nodes_of after) after quiet i))

  -- A leader whose fencing is refused writes nothing: the answer is the refusal, and the tables
  -- are as before.
  pub evaluate_membership_refused :
      (f : Fencing) (db : Database) (e : Error)
      → (require_leadership f now (record { durable = db; working = db })).0 ≡ err e
      → evaluate_membership thresholds now (some f) db ≡ (err e, db)
  unfolding evaluate_membership require_leadership
  evaluate_membership_refused f db e refused =
      let s : Session Database = record { durable = db; working = db } in
      let same = check_lease_reads f now db.lease s in
      let whole : check_lease f now db.lease s ≡ (err e, s) = λ i. (refused i, same i) in
      rw whole refl
