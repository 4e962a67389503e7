-- ===== src/Commands/Copying/Sending.antt =====
-- control_node/commands/rereplication.py: dispatch, and the closing of a task.
use dfsha_telematica.Prelude.{
  ℕ, ◌+◌, String, ◌≡◌, refl, sym, ap, ◌∙◌, subst, true, Option, none, some, List, [], ◌∷◌, All,
  All-In, All-imp, In, any_of, update_where, ◌==◌, ==_iff, string_eq, inl, inr, Bool-cases,
  Option-cases,
}
use dfsha_telematica.Errors.{Result, ok, err}
use dfsha_telematica.Entities.{node_state_eq}
use dfsha_telematica.Rows.{Task, task_state_eq}
use dfsha_telematica.Rereplication.{Assignment}
use dfsha_telematica.Session.{Session, continue}
use dfsha_telematica.Database.{Database}
use dfsha_telematica.Repositories.TaskRows
use dfsha_telematica.Repositories.TaskRows.{ExpiredTasks}
use dfsha_telematica.Repositories.TaskRows.OneActive.{
  OneActive, Lowers, update-OneActive, sent_off-Lowers,
}
use dfsha_telematica.Repositories.ReplicaRows
use dfsha_telematica.Commands.Copying.{RereplicationPolicy}
use dfsha_telematica.Commands.Copying.Dispatch.{drop_abandoned, task_for, or_this, send, send_all}
use dfsha_telematica.Commands.Copying.Looking.{LiveTask}

-- The tables that code writes without a commit.
pub record Written (s : Session Database) (out : Session Database) : Type 0 where
  pub durable : out.durable ≡ s.durable
  pub nodes : out.working.data_nodes ≡ s.working.data_nodes
  pub tasks : out.working.tasks ≡ s.working.tasks

pub drop_abandoned-Written :
    (pairs : List (String × String)) (s : Session Database) → Written s (drop_abandoned pairs s).1
drop_abandoned-Written [] s = record { durable = refl; nodes = refl; tasks = refl }
drop_abandoned-Written ((b, n) ∷ rest) s =
    let k = drop_abandoned-Written rest (ReplicaRows.drop_replica b n s).1 in
    record { durable = k.durable; nodes = k.nodes; tasks = k.tasks }

task_for-In :
    (x : String) (task_of : List (String × String)) (t : String)
    → task_for x task_of ≡ some t
    → (b : String) × In (b, t) task_of
task_for-In x [] t h = absurd (cc)
task_for-In x ((b, u) ∷ rest) t h = elim (Option-cases (task_for x rest)) [
  | inr (v, e) ↦
      let got : some v ≡ some t = rw (or_this, e) at h in
      let (c, i) = task_for-In x rest t (e ∙ got) in (c, inr i)
  | inl e ↦ elim (Bool-cases (b == x)) [
    | inl k ↦
        let got : some u ≡ some t = rw (or_this, e, k) at h in
        let same : u ≡ t = cc in (b, inl (ap (λ z. (b, z)) (sym same)))
    | inr k ↦ absurd (let bad = rw (or_this, e, k) at h in cc)
  ]
]

module _ (policy : RereplicationPolicy) (now : ℕ) (task_of : List (String × String)) where
  -- What the loop of the dispatch keeps.
  pub record Sendable (s : Session Database) : Type 0 where
    pub alone : OneActive s.working.tasks
    pub live : All (λ p. LiveTask p.1 s.working.tasks) task_of

  sent_live :
      (x y source target : String) (expires_at : ℕ) (rows : List Task)
      → LiveTask x rows
      → LiveTask x
          (update_where (TaskRows.has_id y) (TaskRows.sent_off source target now expires_at) rows)
  sent_live x y source target expires_at [] h = tt
  sent_live x y source target expires_at (t ∷ ts) h = (
    elim (Bool-cases (TaskRows.has_id y t)) [ inl e ↦ rw e (λ _. refl) | inr e ↦ rw e h.0 ],
    sent_live x y source target expires_at ts h.1,
  )

  lowered :
      (x source target : String) (expires_at : ℕ) (rows : List Task)
      → LiveTask x rows
      → All
          (λ t.
            TaskRows.has_id x t ≡ true
            → Lowers t (TaskRows.sent_off source target now expires_at t))
          rows
  lowered x source target expires_at rows h =
      All-imp (λ (t : Task). t.id ≡ x → TaskRows.is_active t ≡ true) _ rows
        (λ t k e. sent_off-Lowers source target now expires_at t (k ((==_iff t.id x).0 e))) h

  pub record Sent (s out : Session Database) : Type 0 where
    pub durable : out.durable ≡ s.durable
    pub sendable : Sendable out

  send-Sent :
      (a : Assignment) (o : Option String) (s : Session Database)
      → task_for a.block_id task_of ≡ o
      → Sendable s
      → Sent s (send policy now a o s).1
  send-Sent a none s e h = record { durable = refl; sendable = h }
  send-Sent a (some x) s e h =
      let (b, i) = task_for-In a.block_id task_of x e in
      let live = All-In (λ p. LiveTask p.1 s.working.tasks) (b, x) task_of h.live i in
      elim (Bool-cases
        (any_of (ReplicaRows.of_key a.block_id a.target_node_id) s.working.replicas)) [
          | inl k ↦ rw k (sent x live _ refl refl)
          | inr k ↦ rw k (sent x live _ refl refl)
        ]
    where
      sent :
          (x : String)
          → LiveTask x s.working.tasks
          → (out : Session Database) → out.durable ≡ s.durable
          → out.working.tasks
            ≡ update_where
                (TaskRows.has_id x)
                (TaskRows.sent_off a.source_node_id a.target_node_id now (now + policy.task_ttl))
                s.working.tasks
          → Sent s out
      sent x live out d e =
          let rows = s.working.tasks in
          record {
            durable = d;
            sendable = record {
              alone = subst OneActive (sym e) (
                  update-OneActive (TaskRows.has_id x) _ rows
                    (lowered x a.source_node_id a.target_node_id (now + policy.task_ttl) rows live)
                    h.alone);
              live =
                  subst (λ z. All (λ p. LiveTask p.1 z) task_of) (sym e)
                    (All-imp (λ p. LiveTask p.1 rows) _ task_of
                      (λ p.
                        sent_live p.1 x a.source_node_id a.target_node_id (now + policy.task_ttl)
                          rows)
                      h.live);
            };
          }

  pub send_all-Sent :
      (as_ : List Assignment) (s : Session Database)
      → Sendable s
      → Sent s (send_all policy now task_of as_ s).1
  send_all-Sent [] s h = record { durable = refl; sendable = h }
  send_all-Sent (a ∷ as_) s h =
      go (send policy now a (task_for a.block_id task_of) s) (send-Sent a _ s refl h)
        (λ t. send_all-Sent as_ t)
    where
      go :
          (r : Result (Unit {0}) × Session Database)
          → Sent s r.1
          → ((t : Session Database) → Sendable t → Sent t (send_all policy now task_of as_ t).1)
          → Sent s (continue r.0 (λ _. send_all policy now task_of as_) r.1).1
      go (ok u, t) k rest =
          let m = rest t k.sendable in
          record { durable = m.durable ∙ k.durable; sendable = m.sendable }
      go (err x, t) k rest = k
