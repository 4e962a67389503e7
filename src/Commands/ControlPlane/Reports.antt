-- ===== src/Commands/ControlPlane/Reports.antt =====
-- control_node/commands/control_plane.py: the replicas after a block report.
use dfsha_telematica.Prelude.{
  String, ◌≡◌, refl, sym, ap, ◌∙◌, Bool, true, false, not, ◌&&◌, ◌||◌, some, List, [], ◌∷◌, map,
  arith, All, All-imp, find_first, Pairwise, update_twice, ◌==◌, ==_iff, ==_refl, string_eq,
  if◌then◌else◌, inl, inr, Bool-cases,
}
use dfsha_telematica.Errors.{ok}
use dfsha_telematica.Entities.{
  ReplicaState, stored, missing, replica_state_eq, DataNode, BlockReplica,
}
use dfsha_telematica.Divergence.{DivergenceReport, is_in, compare}
use dfsha_telematica.Divergence.Sets.{compare_lem}
use dfsha_telematica.Session.{Session}
use dfsha_telematica.Database.{Database}
use dfsha_telematica.Repositories.DataNodeRows.{has_id}
use dfsha_telematica.Repositories.ReplicaRows.{
  in_states, on_node, ids_on_node, reported_on, put_state, states_set,
}
use dfsha_telematica.Commands.ControlPlane.{
  expected_states, store_confirmed, mark_missing, apply_block_report,
}

-- The primary key: no two replicas of one block on one node.
abbrev pub Apart : BlockReplica → BlockReplica → Type 0
Apart r q = r.block_id ≡ q.block_id → r.data_node_id ≡ q.data_node_id → ⊥

-- What a report of a node is to make of a replica. One that is still being written is left alone.
abbrev pub after_report : String → Bool → List String → BlockReplica → BlockReplica
after_report data_node_id is_full reported r =
    if on_node data_node_id expected_states r
    then (if is_in reported r.block_id
        then put_state stored r
        else if is_full
        then put_state missing r
        else r)
    else r

module _ (data_node_id : String) where
  expects-cons :
      (q : BlockReplica) (rows : List BlockReplica) (x : String)
      → is_in (ids_on_node data_node_id expected_states (q ∷ rows)) x ≡ (
          (on_node data_node_id expected_states q && q.block_id == x)
          || is_in (ids_on_node data_node_id expected_states rows) x)
  expects-cons q rows x = elim (Bool-cases (on_node data_node_id expected_states q)) [
    | inl e ↦ rw e refl
    | inr e ↦ rw e refl
  ]

  abbrev Expected : List BlockReplica → BlockReplica → Type 0
  Expected rows r =
      (is_in (ids_on_node data_node_id expected_states rows) r.block_id
        && r.data_node_id == data_node_id)
      ≡ on_node data_node_id expected_states r

  -- Another row's block is not this one's on the same node.
  crossed :
      (q r : BlockReplica)
      → Apart q r
      → ((on_node data_node_id expected_states q && q.block_id == r.block_id)
          && r.data_node_id == data_node_id)
        ≡ false
  crossed q r apart = elim (Bool-cases (q.block_id == r.block_id)) [
    | inr e ↦ rw e (ground arith)
    | inl e ↦ elim (Bool-cases (q.data_node_id == data_node_id)) [
      | inr f ↦ rw f refl
      | inl f ↦ elim (Bool-cases (r.data_node_id == data_node_id)) [
        | inr g ↦ rw g (ground arith)
        | inl g ↦ absurd (
            apart ((==_iff q.block_id r.block_id).0 e) (
              (==_iff q.data_node_id data_node_id).0 f
              ∙ sym ((==_iff r.data_node_id data_node_id).0 g)))
      ]
    ]
  ]

  abbrev is_expected : List BlockReplica → BlockReplica → Bool
  is_expected rows r = is_in (ids_on_node data_node_id expected_states rows) r.block_id

  abbrev at_node : BlockReplica → Bool
  at_node r = r.data_node_id == data_node_id

  beside : (a e n t : Bool) → (a && n) ≡ false → (e && n) ≡ t → ((a || e) && n) ≡ t
  beside a e n t h k = ground arith

  foreign :
      (rows : List BlockReplica) (r : BlockReplica)
      → All (Apart r) rows
      → (is_expected rows r && at_node r) ≡ false
  foreign [] r h = refl
  foreign (q ∷ rows) r h = rw (expects-cons q rows r.block_id) (
      beside (on_node data_node_id expected_states q && q.block_id == r.block_id)
        (is_expected rows r) (at_node r) false (crossed q r (λ b n. h.0 (sym b) (sym n)))
        (foreign rows r h.1))

  own : (n s e : Bool) → (e && n) ≡ false → ((((n && s) && true) || e) && n) ≡ (n && s)
  own n s e h = ground arith

  -- Under the primary key a replica's block is expected on the node if and only if that replica is.
  expects_lem : (rows : List BlockReplica) → Pairwise Apart rows → All (Expected rows) rows
  expects_lem [] h = tt
  expects_lem (q ∷ rows) h = (
    rw (expects-cons q rows q.block_id, ==_refl q.block_id)
        (own (at_node q) (in_states expected_states q) (is_expected rows q) (foreign rows q h.0)),
    later rows h.0 (expects_lem rows h.1),
  )
    where
      later :
          (ms : List BlockReplica)
          → All (Apart q) ms
          → All (Expected rows) ms
          → All (Expected (q ∷ rows)) ms
      later [] apart h = tt
      later (r ∷ ms) apart h = (
        rw (expects-cons q rows r.block_id) (
            beside (on_node data_node_id expected_states q && q.block_id == r.block_id)
              (is_expected rows r) (at_node r) _ (crossed q r apart.0) h.0),
        later ms apart.1 h.1,
      )

  -- What the two updates make of a row, by what is known of its block.
  point :
      (e rep n full : Bool) (r : BlockReplica)
      → (if (full && e && not rep) && n
          then put_state missing (if (e && rep) && n then put_state stored r else r)
          else if (e && rep) && n
          then put_state stored r
          else r)
        ≡ (if e && n
            then (if rep then put_state stored r else if full then put_state missing r else r)
            else r)
  point true true n true r = ground arith
  point true true n false r = ground arith
  point true false n true r = ground arith
  point true false n false r = ground arith
  point false rep n true r = refl
  point false rep n false r = refl

  module _ (is_full : Bool) (reported : List String) (rows : List BlockReplica) where
    abbrev report : DivergenceReport
    report = compare (ids_on_node data_node_id expected_states rows) reported is_full

    abbrev stored_row : BlockReplica → BlockReplica
    stored_row r =
        if reported_on report.confirmed_block_ids data_node_id r then put_state stored r else r

    each :
        (r : BlockReplica)
        → Expected rows r
        → (if reported_on report.missing_block_ids data_node_id r
            then put_state missing (stored_row r)
            else stored_row r)
          ≡ after_report data_node_id is_full reported r
    each r h =
        let (confirmed, _, missed) =
          compare_lem r.block_id (ids_on_node data_node_id expected_states rows) reported is_full in
        rw (confirmed, missed, ← h)
          (point (is_expected rows r) (is_in reported r.block_id) (at_node r) is_full r)

    reports_lem :
        Pairwise Apart rows
        → states_set report.missing_block_ids data_node_id missing
            (states_set report.confirmed_block_ids data_node_id stored rows)
          ≡ map (after_report data_node_id is_full reported) rows
    reports_lem distinct =
        update_twice _ _ (put_state missing) (put_state stored)
          (after_report data_node_id is_full reported) rows (λ r. refl)
          (All-imp _ _ rows each (expects_lem rows distinct))

  untouched :
      (new : ReplicaState) (rows : List BlockReplica) → states_set [] data_node_id new rows ≡ rows
  untouched new [] = refl
  untouched new (r ∷ rows) = ap (λ rs. r ∷ rs) (untouched new rows)

  abbrev with_replicas : Session Database → List BlockReplica → Session Database
  with_replicas s rows = record s { working = record s.working { replicas = rows } }

  store_confirmed_lem :
      (ids : List String) (s : Session Database)
      → store_confirmed data_node_id ids s
        ≡ (ok tt, with_replicas s (states_set ids data_node_id stored s.working.replicas))
  store_confirmed_lem [] s =
      λ i. (ok tt, with_replicas s (sym (untouched stored s.working.replicas) i))
  store_confirmed_lem (x ∷ xs) s = refl

  mark_missing_lem :
      (ids : List String) (s : Session Database)
      → mark_missing data_node_id ids s
        ≡ (ok tt, with_replicas s (states_set ids data_node_id missing s.working.replicas))
  mark_missing_lem [] s =
      λ i. (ok tt, with_replicas s (sym (untouched missing s.working.replicas) i))
  mark_missing_lem (x ∷ xs) s = refl

  -- A block report of a known node, on a table in which no two replicas are of one block on one
  -- node, changes exactly the states of that node's replicas which are stored or missing: to
  -- stored if the block is reported, and, if the report is full, to missing if it is not. Nothing
  -- else of the tables changes.
  pub apply_block_report_lem :
      (is_full : Bool) (reported : List String) (db : Database) (n : DataNode)
      → find_first (has_id data_node_id) db.data_nodes ≡ some n
      → Pairwise Apart db.replicas
      → apply_block_report data_node_id is_full reported db ≡ (
        ok (compare (ids_on_node data_node_id expected_states db.replicas) reported is_full),
        record db { replicas = map (after_report data_node_id is_full reported) db.replicas },
      )
  unfolding apply_block_report
  apply_block_report_lem is_full reported db n found distinct =
      rw
        (
          found,
          store_confirmed_lem (report is_full reported db.replicas).confirmed_block_ids
              (record { durable = db; working = db }),
          mark_missing_lem (report is_full reported db.replicas).missing_block_ids (
              with_replicas (record { durable = db; working = db })
                (states_set (report is_full reported db.replicas).confirmed_block_ids data_node_id
                  stored db.replicas)),
        )
        (λ i. (
          ok (report is_full reported db.replicas),
          record db { replicas = reports_lem is_full reported db.replicas distinct i },
        ))
