-- ===== src/Commands/ControlPlane/Settled.antt =====
-- control_node/commands/control_plane.py: the rows of the nodes after `evaluate_membership`.
use dfsha_telematica.Prelude.{
  ℕ, ◌≡◌, ◌≢◌, refl, sym, ap, ◌∙◌, false, Option, none, some, List, [], ◌∷◌, All, All-imp,
  update_where, Pairwise, In, All-In, All-update_where, ◌==◌, ==_iff, string_eq, ◌⊎◌, inl, inr,
  Bool-cases, Option-cases, if◌then◌else◌,
}
use dfsha_telematica.Errors.{ok}
use dfsha_telematica.Entities.{stored, missing, node_state_eq, replica_state_eq, DataNode}
use dfsha_telematica.Membership.{
  MembershipThresholds, StateChange, state_for, evaluate, lost_replicas,
}
use dfsha_telematica.Session.{Session}
use dfsha_telematica.Database.{Database}
use dfsha_telematica.Repositories.DataNodeRows.{has_id, in_state}
use dfsha_telematica.Repositories.ReplicaRows.{marked}
use dfsha_telematica.Commands.ControlPlane.{settle_if, settle_all, with_change}

some-injective : {a b : StateChange} → some a ≡ some b → a ≡ b
some-injective h = cc

module _ (thresholds : MembershipThresholds) (now : ℕ) where
  -- What the code's loop does to the tables, and the transitions that it collects.
  abbrev pub settle_db : Option StateChange → Database → Database
  settle_db none db = db
  settle_db (some c) db = record db {
    data_nodes = update_where (has_id c.data_node_id) (in_state c.current) db.data_nodes;
    replicas =
        if lost_replicas c
        then marked c.data_node_id missing (some (stored ∷ [])) db.replicas
        else db.replicas;
  }

  abbrev pub settle_dbs : List DataNode → Database → Database
  settle_dbs [] db = db
  settle_dbs (n ∷ ns) db = settle_dbs ns (settle_db (evaluate n now thresholds) db)

  abbrev pub changes_of : List DataNode → List StateChange
  changes_of [] = []
  changes_of (n ∷ ns) = let rest = changes_of ns in with_change (evaluate n now thresholds) rest

  settle_if_lem :
      (o : Option StateChange) (s : Session Database)
      → settle_if o s ≡ (ok tt, record s { working = settle_db o s.working })
  settle_if_lem none s = refl
  settle_if_lem (some c) s = elim (Bool-cases (lost_replicas c)) [
    | inl e ↦ rw e refl
    | inr e ↦ rw e refl
  ]

  pub settle_all_lem :
      (ns : List DataNode) (s : Session Database)
      → settle_all thresholds now ns s
        ≡ (ok (changes_of ns), record s { working = settle_dbs ns s.working })
  settle_all_lem [] s = refl
  settle_all_lem (n ∷ ns) s =
      rw
        (
          settle_if_lem (evaluate n now thresholds) s,
          settle_all_lem ns
              (record s { working = settle_db (evaluate n now thresholds) s.working }),
        )
        refl

  -- The column agrees with the state that the last heartbeat gives.
  abbrev pub Settled : DataNode → Type 0
  Settled n = n.state ≡ state_for n.last_heartbeat_at now thresholds (some n.registered_at)

  abbrev pub Visited : List DataNode → DataNode → Type 0
  Visited ns m = In m ns ⊎ (Settled m × All (λ (n : DataNode). n.id ≢ m.id) ns)

  pub evaluate-none : (n : DataNode) → evaluate n now thresholds ≡ none → Settled n
  unfolding evaluate
  evaluate-none n h =
      elim (Bool-cases
        (state_for n.last_heartbeat_at now thresholds (some n.registered_at) == n.state)) [
          | inl e ↦ sym ((==_iff _ n.state).0 e)
          | inr e ↦ absurd (let h' = rw e at h in cc)
        ]

  pub none-evaluate : (n : DataNode) → Settled n → evaluate n now thresholds ≡ none
  unfolding evaluate
  none-evaluate n h = rw ((==_iff _ n.state).1 (sym h)) refl

  evaluate-some :
      (n : DataNode) (c : StateChange)
      → evaluate n now thresholds ≡ some c
      → (c.data_node_id ≡ n.id)
        × (c.current ≡ state_for n.last_heartbeat_at now thresholds (some n.registered_at))
        × (c.previous ≡ n.state)
  unfolding evaluate
  evaluate-some n c h =
      elim (Bool-cases
        (state_for n.last_heartbeat_at now thresholds (some n.registered_at) == n.state)) [
          | inl e ↦ absurd (let h' = rw e at h in cc)
          | inr e ↦ let h' = rw e at h in rw (← some-injective h') (refl, refl, refl)
        ]

  -- One step of the loop.
  visit :
      (n : DataNode) (ns : List DataNode) (db : Database)
      → All (λ (m : DataNode). n.id ≢ m.id) ns
      → All (Visited (n ∷ ns)) db.data_nodes
      → All (Visited ns) (settle_db (evaluate n now thresholds) db).data_nodes
  visit n ns db apart h = elim (Option-cases (evaluate n now thresholds)) [
    | inl e ↦ rw e (All-imp _ (Visited ns) db.data_nodes (unchanged e) h)
    | inr (c, e) ↦
        let (key, current, _) = evaluate-some n c e in
        rw e (
          All-update_where _ (Visited ns) (has_id c.data_node_id) (in_state c.current) db.data_nodes
            (λ m v hit. hit_case c m key current v ((==_iff m.id c.data_node_id).0 hit))
            (λ m v miss. miss_case c m key v miss) h)
  ]
    where
      unchanged :
          evaluate n now thresholds ≡ none → (m : DataNode) → Visited (n ∷ ns) m → Visited ns m
      unchanged e m (inl (inl same)) =
          rw same (inr (evaluate-none n e, All-imp _ _ ns (λ k d x. d (sym x)) apart))
      unchanged e m (inl (inr later)) = inl later
      unchanged e m (inr (settled, others)) = inr (settled, others.1)

      hit_case :
          (c : StateChange) (m : DataNode)
          → c.data_node_id ≡ n.id
          → c.current ≡ state_for n.last_heartbeat_at now thresholds (some n.registered_at)
          → Visited (n ∷ ns) m
          → m.id ≡ c.data_node_id
          → Visited ns (in_state c.current m)
      hit_case c m key current (inl (inl same)) at_key = inr (
        current
            ∙ ap
                (λ (k : DataNode).
                  state_for k.last_heartbeat_at now thresholds (some k.registered_at))
                (sym same),
        All-imp _ _ ns (λ k d x. d (sym (x ∙ ap (λ (j : DataNode). j.id) same))) apart,
      )
      hit_case c m key current (inl (inr later)) at_key =
          absurd (All-In (λ (k : DataNode). n.id ≢ k.id) m ns apart later (sym (at_key ∙ key)))
      hit_case c m key current (inr (settled, others)) at_key =
          absurd (others.0 (sym (at_key ∙ key)))

      miss_case :
          (c : StateChange) (m : DataNode)
          → c.data_node_id ≡ n.id
          → Visited (n ∷ ns) m
          → has_id c.data_node_id m ≡ false
          → Visited ns m
      miss_case c m key (inl (inl same)) miss =
          absurd
            (cc (miss, (==_iff m.id c.data_node_id).1 (ap (λ (k : DataNode). k.id) same ∙ sym key)))
      miss_case c m key (inl (inr later)) miss = inl later
      miss_case c m key (inr (settled, others)) miss = inr (settled, others.1)

  pub visit-All :
      (ns : List DataNode) (db : Database)
      → Pairwise (λ (n m : DataNode). n.id ≢ m.id) ns
      → All (Visited ns) db.data_nodes
      → All (Visited []) (settle_dbs ns db).data_nodes
  visit-All [] db apart h = h
  visit-All (n ∷ ns) db apart h =
      visit-All ns (settle_db (evaluate n now thresholds) db) apart.1 (visit n ns db apart.0 h)
