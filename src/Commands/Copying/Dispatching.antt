-- ===== src/Commands/Copying/Dispatching.antt =====
-- control_node/commands/rereplication.py: the dispatch sends copies from holders to other live nodes, and
-- keeps one live task of a block.
use dfsha_telematica.Prelude.{
  sorted-In, ℕ, ◌≡◌, refl, sym, ap, ◌∙◌, subst, Bool, true, false, ◌||◌, some, List, [], ◌∷◌, ltb,
  All, All-imp, trivial, In, map-In, keep-In, ◌==◌, ==_iff, string_eq, inl, inr,
}
use dfsha_telematica.Errors.{Error, Result, ok, err}
use dfsha_telematica.Entities.{DataNode, alive, node_state_eq}
use dfsha_telematica.Rows.{Task, task_state_eq}
use dfsha_telematica.Leadership.{Fencing, Lease}
use dfsha_telematica.Membership.{MembershipThresholds, state_for}
use dfsha_telematica.Rereplication.{Assignment, Candidate, names}
use dfsha_telematica.Rereplication.Assigned.{Legal, assign_targets-Legal}
use dfsha_telematica.Session.{Session, Exec, pure, commit, when, gets, continue, ◌>>=◌, ◌>>◌}
use dfsha_telematica.Session.Reading.{Reads-step}
use dfsha_telematica.Database.{Database}
use dfsha_telematica.Repositories.TaskRows
use dfsha_telematica.Repositories.ShortBlocks
use dfsha_telematica.Repositories.TaskRows.{ExpiredTasks}
use dfsha_telematica.Repositories.ShortBlocks.{ShortBlock}
use dfsha_telematica.Repositories.TaskRows.OneActive.{OneActive, update-OneActive, expired-Lowers}
use dfsha_telematica.Repositories.DataNodeRows
use dfsha_telematica.Commands.Leading.{require_leadership}
use dfsha_telematica.Commands.Leading.Reading.{require_leadership-Reads}
use dfsha_telematica.Commands.Copying.{RereplicationPolicy}
use dfsha_telematica.Commands.Copying.Dispatch.{
  Queue, drop_abandoned, look_at_all, candidates, send_all, assigned, send_pending, dispatch_now,
  dispatch_all, dispatch,
}
use dfsha_telematica.Commands.Copying.Looking.{
  Distinct, LiveTask, Looked, look_at_all-Looked, pending-Distinct, pending-Live,
}
use dfsha_telematica.Commands.Copying.Sending.{
  Written, drop_abandoned-Written, Sendable, Sent, send_all-Sent,
}

module _ (policy : RereplicationPolicy) (thresholds : MembershipThresholds) (now : ℕ) where
  -- What a dispatch answers: copies from a node that holds the block, to one that does not and that is
  -- alive by its last heartbeat.
  pub record Safe (nodes : List DataNode) (a : Assignment) : Type 0 where
    pub from_holder : names a.gap.holders a.source_node_id ≡ true
    pub to_other : names a.gap.holders a.target_node_id ≡ false
    pub target : DataNode
    pub known : In target nodes
    pub named : target.id ≡ a.target_node_id
    pub alive_target :
        state_for target.last_heartbeat_at now thresholds (some target.registered_at) ≡ alive

  candidate_node :
      (nodes : List DataNode) (c : Candidate)
      → In c (candidates thresholds now (DataNodeRows.by_registration nodes))
      → (n : DataNode) × In n nodes
        × (n.id ≡ c.0)
        × (state_for n.last_heartbeat_at now thresholds (some n.registered_at) ≡ alive)
  candidate_node nodes c i =
      let (n, e, j) = map-In (λ (n : DataNode). (n.id, n.fault_domain)) _ c i in
      let (t, k) =
        keep-In
          (λ (n : DataNode).
            state_for n.last_heartbeat_at now thresholds (some n.registered_at) == alive)
          (DataNodeRows.by_registration nodes) n j in
      (
        n,
        sorted-In DataNodeRows.older nodes n k,
        ap (λ z. z.0) (sym e),
        (==_iff (state_for n.last_heartbeat_at now thresholds (some n.registered_at)) alive).0 t,
      )

  Legal-Safe :
      (nodes : List DataNode) (a : Assignment)
      → Legal (candidates thresholds now (DataNodeRows.by_registration nodes)) policy.max_per_node a
      → Safe nodes a
  Legal-Safe nodes a l =
      let (domain, i) = l.to_candidate in
      let (n, held, named, live) = candidate_node nodes (a.target_node_id, domain) i in
      record {
        from_holder = l.from_holder;
        to_other = l.to_other;
        target = n;
        known = held;
        named = named;
        alive_target = live;
      }

  record Dispatched (s : Session Database) (out : Result (List Assignment) × Session Database)
      : Type 0 where
    alone : OneActive s.durable.tasks → OneActive out.1.durable.tasks
    safe : (as_ : List Assignment) → out.0 ≡ ok as_ → All (Safe s.working.data_nodes) as_

  assigned-Safe :
      (q : Queue) (db : Database) → All (Safe db.data_nodes) (assigned policy thresholds now q db)
  assigned-Safe q db =
      All-imp _ (Safe db.data_nodes) (assigned policy thresholds now q db)
        (Legal-Safe db.data_nodes)
        (assign_targets-Legal
          (candidates thresholds now (DataNodeRows.by_registration db.data_nodes))
          policy.max_per_node q.0 (TaskRows.targets_in_flight db.tasks) (some policy.max_per_pass)
          1)

  failed : (e : Error) (s t : Session Database) → t.durable ≡ s.durable → Dispatched s (err e, t)
  failed e s t d = record {
    alone = subst (λ (w : Database). OneActive w.tasks) (sym d);
    safe = λ as_ h. absurd (cc);
  }

  send_assigned :
      (q : Queue) (s t : Session Database)
      → t.durable ≡ s.durable
      → t.working.data_nodes ≡ s.working.data_nodes
      → Sendable policy now q.1 t
      → Dispatched s (
          (do
            send_all policy now q.1 (assigned policy thresholds now q t.working)
            commit
            pure (assigned policy thresholds now q t.working))
            t)
  send_assigned q s t d n k =
      go (send_all policy now q.1 (assigned policy thresholds now q t.working) t)
        (send_all-Sent policy now q.1 (assigned policy thresholds now q t.working) t k)
    where
      go :
          (r : Result (Unit {0}) × Session Database)
          → Sent policy now q.1 t r.1
          → Dispatched s (
              continue r.0
                (λ u. commit >>= λ u'. pure (assigned policy thresholds now q t.working))
                r.1)
      go (err x, t') m = failed x s t' (m.durable ∙ d)
      go (ok u, t') m = record {
        alone = λ h. m.sendable.alone;
        safe = λ as_ h.
            let same : assigned policy thresholds now q t.working ≡ as_ = cc in
            subst (All (Safe s.working.data_nodes)) same (
              subst (λ z. All (Safe z) (assigned policy thresholds now q t.working)) n
                (assigned-Safe q t.working));
      }

  send_pending-Dispatched :
      (expired : ExpiredTasks) (s : Session Database)
      → OneActive s.working.tasks
      → Dispatched s
          (send_pending policy thresholds now expired (TaskRows.pending_copies s.working.tasks) s)
  send_pending-Dispatched expired s h =
      by_tasks (TaskRows.pending_copies s.working.tasks) (pending-Distinct s.working.tasks h)
        (pending-Live s.working.tasks h)
    where
      none_sent : (b : Bool) → Dispatched s ((when b commit >>= λ u. pure []) s)
      none_sent true = record {
        alone = λ _. h;
        safe = λ as_ e. let same : [] ≡ as_ = cc in subst (All (Safe s.working.data_nodes)) same tt;
      }
      none_sent false = record {
        alone = λ k. k;
        safe = λ as_ e. let same : [] ≡ as_ = cc in subst (All (Safe s.working.data_nodes)) same tt;
      }

      after_look :
          (ts : List Task) (r : Result Queue × Session Database)
          → Looked ts s r
          → Dispatched s (
              continue r.0
                (λ q. gets (assigned policy thresholds now q) >>= λ as_.
                  send_all policy now q.1 as_ >>= λ u. commit >>= λ u'. pure as_)
                r.1)
      after_look ts (err x, t) l = failed x s t l.durable
      after_look ts (ok q, t) l =
          send_assigned q s t l.durable l.nodes
            (record { alone = l.alone; live = l.sendable q refl })

      by_tasks :
          (ts : List Task)
          → Distinct ts
          → All (λ (t : Task). LiveTask t.id s.working.tasks) ts
          → Dispatched s (send_pending policy thresholds now expired ts s)
      by_tasks [] d l = none_sent (ltb 0 expired.requeued || ltb 0 expired.gave_up)
      by_tasks (t ∷ ts) d l =
          let blocks = ShortBlocks.short_blocks policy.replication_factor s.working in
          after_look (t ∷ ts) (look_at_all policy thresholds now blocks (t ∷ ts) s)
            (look_at_all-Looked policy thresholds now blocks (t ∷ ts) s h d l)

  abbrev expired_now : Session Database → Session Database
  expired_now s = record s {
    working =
        TaskRows.update_tasks (TaskRows.is_stale now) (TaskRows.expired policy.max_attempts)
          s.working;
  }

  abbrev after_drop : ExpiredTasks → Exec Database (List Assignment)
  after_drop expired =
      TaskRows.list_pending >>= λ tasks. send_pending policy thresholds now expired tasks

  dispatched :
      (s : Session Database) (lease : Lease)
      → OneActive s.working.tasks
      → Dispatched s (dispatch_now policy thresholds now lease s)
  dispatched s lease h =
      let expired : ExpiredTasks = TaskRows.expiry now policy.max_attempts s.working.tasks in
      let alone =
        update-OneActive (TaskRows.is_stale now) (TaskRows.expired policy.max_attempts)
          s.working.tasks
          (All-imp (λ t. Unit {0}) _ s.working.tasks
            (λ t u e. expired-Lowers now policy.max_attempts t e) (trivial s.working.tasks))
          h in
      go expired (drop_abandoned expired.abandoned_targets (expired_now s))
        (drop_abandoned-Written expired.abandoned_targets (expired_now s)) alone
    where
      go :
          (expired : ExpiredTasks) (r : Result (Unit {0}) × Session Database)
          → Written (expired_now s) r.1
          → OneActive (expired_now s).working.tasks
          → Dispatched s (continue r.0 (λ u. after_drop expired) r.1)
      go expired (err x, t) w alone = failed x s t w.durable
      go expired (ok u, t) w alone =
          let k = send_pending-Dispatched expired t (subst OneActive (sym w.tasks) alone) in
          record {
            alone = λ o. k.alone (subst (λ (z : Database). OneActive z.tasks) (sym w.durable) o);
            safe = λ as_ e. subst (λ z. All (Safe z) as_) w.nodes (k.safe as_ e);
          }

  dispatch-Dispatched :
      (fencing : Fencing) (db : Database)
      → OneActive db.tasks
      → Dispatched
          (record { durable = db; working = db })
          (dispatch_all fencing policy thresholds now (record { durable = db; working = db }))
  dispatch-Dispatched fencing db h =
      let s : Session Database = record { durable = db; working = db } in
      elim (Reads-step (require_leadership fencing now) (dispatch_now policy thresholds now)
        (require_leadership-Reads fencing now) s) [
          | inl (e, _, out) ↦ subst (Dispatched s) (sym out) (failed e s s refl)
          | inr (lease, _, out) ↦ subst (Dispatched s) (sym out) (dispatched s lease h)
        ]

module _ (policy : RereplicationPolicy) (thresholds : MembershipThresholds) (now : ℕ)
    (fencing : Fencing) (db : Database) where
  -- The dispatch keeps at most one live task of a block.
  pub dispatch-OneActive :
      OneActive db.tasks → OneActive (dispatch fencing policy thresholds now db).1.tasks
  unfolding dispatch
  dispatch-OneActive h = (dispatch-Dispatched policy thresholds now fencing db h).alone h
