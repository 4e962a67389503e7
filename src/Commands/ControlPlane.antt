-- ===== src/Commands/ControlPlane.antt =====
-- control_node/commands/control_plane.py: heartbeat, block report and the evaluation
-- of the membership, each in a unit of work of its own. Log lines are not modelled.
pub mod Settled
pub mod Evaluated
pub mod Reports
use dfsha_telematica.Prelude.{
  ℕ, ◌+◌, String, Bool, true, false, not, ◌&&◌, ◌||◌, Option, none, some, List, [], ◌∷◌, ltb, ◌==◌,
  string_eq, if◌then◌else◌,
}
use dfsha_telematica.Errors.{Result, not_found}
use dfsha_telematica.Entities.{
  ReplicaState, stored, missing, alive, node_state_eq, NodeStats, DataNode,
}
use dfsha_telematica.Membership.{
  MembershipThresholds, StateChange, RejoinKind, wiped_disk, lost_replicas, silence_since, evaluate,
  classify_rejoin,
}
use dfsha_telematica.Divergence.{DivergenceReport, is_empty, compare}
use dfsha_telematica.Leadership.{Fencing}
use dfsha_telematica.Session.{Exec, pure, raise, with_uow, commit, when, ◌>>=◌, ◌>>◌}
use dfsha_telematica.Database.{Database}
use dfsha_telematica.Repositories.DataNodeRows
use dfsha_telematica.Repositories.ReplicaRows
use dfsha_telematica.Repositories.DataNodeRows.{Registration}
use dfsha_telematica.Commands.Leading.{require_leadership}

-- Why a full report is asked for.
pub data Reason : Type 0 where
  no_reason other_boot unknown_blocks_reported : Reason
  sequence_gap : ℕ → ℕ → Reason

pub record HeartbeatResult : Type 0 where
  pub request_full_report : Bool
  pub reason : Reason
  pub state_change : Option StateChange
  pub unknown_blocks : List String

-- `_ESPERADAS`
abbrev pub expected_states : List ReplicaState
expected_states = stored ∷ missing ∷ []

abbrev pub known : Option DataNode → Exec Database DataNode
known none = raise not_found
known (some n) = pure n

abbrev pub recover : String → DataNode → ℕ → Exec Database (Option StateChange)
recover data_node_id node now =
    if not (node.state == alive)
    then (do
      DataNodeRows.set_state data_node_id alive
      pure (
          some (record {
            data_node_id = node.id;
            fault_domain = node.fault_domain;
            previous = node.state;
            current = alive;
            silence = silence_since node.last_heartbeat_at now;
          })))
    else pure none

abbrev pub store_confirmed : String → List String → Exec Database (Unit {0})
store_confirmed data_node_id ids =
    when (not (is_empty ids)) (do ReplicaRows.set_replicas_state ids data_node_id stored; pure tt)

abbrev pub mark_missing : String → List String → Exec Database (Unit {0})
mark_missing data_node_id ids =
    when (not (is_empty ids)) (do ReplicaRows.set_replicas_state ids data_node_id missing; pure tt)

-- The blocks that a heartbeat adds: it answers those that the metadata does not know.
abbrev pub apply_added : String → List String → Exec Database (List String)
apply_added data_node_id added = if is_empty added then pure [] else (do
  expected ← ReplicaRows.list_block_ids_on_node data_node_id expected_states
  store_confirmed data_node_id (compare expected added false).confirmed_block_ids
  pure (compare expected added false).unknown_block_ids)

abbrev pub gap : ℕ → ℕ → Bool
gap previous sequence = ltb (previous + 1) sequence && ltb 0 previous

abbrev pub reason_for : List String → ℕ → ℕ → Reason
reason_for unknown previous sequence =
    if not (is_empty unknown)
    then unknown_blocks_reported
    else if gap previous sequence
    then sequence_gap previous sequence
    else no_reason

abbrev pub is_other_boot : DataNode → String → Bool
is_other_boot n boot_id = not (n.boot_id == "") && not (boot_id == "") && not (n.boot_id == boot_id)

abbrev pub beat :
    String
    → DataNode
    → ℕ
    → NodeStats
    → List String
    → List String
    → ℕ
    → Exec Database HeartbeatResult
beat data_node_id node sequence stats added removed now = do
  DataNodeRows.record_heartbeat data_node_id sequence stats now
  change ← recover data_node_id node now
  unknown ← apply_added data_node_id added
  mark_missing data_node_id removed
  commit
  pure (record {
    request_full_report = not (is_empty unknown) || gap node.last_sequence sequence;
    reason = reason_for unknown node.last_sequence sequence;
    state_change = change;
    unknown_blocks = unknown;
  })

abbrev pub beat_unless_other :
    String
    → DataNode
    → String
    → ℕ
    → NodeStats
    → List String
    → List String
    → ℕ
    → Exec Database HeartbeatResult
beat_unless_other data_node_id node boot_id sequence stats added removed now =
    if is_other_boot node boot_id
    then pure (record {
      request_full_report = true;
      reason = other_boot;
      state_change = none;
      unknown_blocks = [];
    })
    else beat data_node_id node sequence stats added removed now

unfoldable pub record_heartbeat :
    String
    → String
    → ℕ
    → NodeStats
    → List String
    → List String
    → ℕ
    → Database
    → Result HeartbeatResult × Database
record_heartbeat data_node_id boot_id sequence stats added removed now = with_uow (do
  found ← DataNodeRows.get data_node_id
  node ← known found
  beat_unless_other data_node_id node boot_id sequence stats added removed now)

unfoldable pub apply_block_report :
    String → Bool → List String → Database → Result DivergenceReport × Database
apply_block_report data_node_id is_full reported = with_uow (do
  found ← DataNodeRows.get data_node_id
  known found
  expected ← ReplicaRows.list_block_ids_on_node data_node_id expected_states
  store_confirmed data_node_id (compare expected reported is_full).confirmed_block_ids
  mark_missing data_node_id (compare expected reported is_full).missing_block_ids
  commit
  pure (compare expected reported is_full))

abbrev pub lead : Option Fencing → ℕ → Exec Database (Unit {0})
lead none now = pure tt
lead (some f) now = do require_leadership f now; pure tt

-- One node of the loop: what a transition writes.
abbrev pub settle : StateChange → Exec Database (Unit {0})
settle change = do
  DataNodeRows.set_state change.data_node_id change.current
  when (lost_replicas change)
      (do ReplicaRows.mark_node_replicas change.data_node_id missing (some (stored ∷ [])); pure tt)

abbrev pub settle_if : Option StateChange → Exec Database (Unit {0})
settle_if none = pure tt
settle_if (some change) = settle change

abbrev pub with_change : Option StateChange → List StateChange → List StateChange
with_change none changes = changes
with_change (some change) changes = change ∷ changes

abbrev pub settle_all : MembershipThresholds → ℕ → List DataNode → Exec Database (List StateChange)
settle_all thresholds now [] = pure []
settle_all thresholds now (n ∷ ns) = do
  settle_if (evaluate n now thresholds)
  rest ← settle_all thresholds now ns
  pure (with_change (evaluate n now thresholds) rest)

abbrev pub commit_if : List StateChange → Exec Database (Unit {0})
commit_if [] = pure tt
commit_if (c ∷ cs) = commit

unfoldable pub evaluate_membership :
    MembershipThresholds → ℕ → Option Fencing → Database → Result (List StateChange) × Database
evaluate_membership thresholds now fencing = with_uow (do
  lead fencing now
  nodes ← DataNodeRows.list_all
  changes ← settle_all thresholds now nodes
  commit_if changes
  pure changes)
