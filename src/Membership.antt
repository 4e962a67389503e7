-- ===== src/Membership.antt =====
-- control_node/domain/membership.py: the state of a DataNode from its last heartbeat, and what a
-- registration means. The silence of a transition, which is for the log, is in microseconds.
pub mod Silence
use dfsha_telematica.Prelude.{
  ℕ, ◌+◌, ◌-◌, ◌*◌, String, Bool, not, ◌&&◌, Option, none, some, leb, ◌==◌, string_eq,
  if◌then◌else◌,
}
use dfsha_telematica.Prelude.Int.{ℤ, pos, negsuc}
use dfsha_telematica.Errors.{Result, ok, err, value_error}
use dfsha_telematica.Entities.{DataNodeState, alive, suspect, dead, node_state_eq, DataNode}

pub record MembershipThresholds : Type 0 where
  pub suspect_after : ℕ
  pub dead_after : ℕ

unfoldable pub thresholds_from_millis : ℕ → ℕ → Result MembershipThresholds
thresholds_from_millis suspect_after_ms dead_after_ms =
    if leb dead_after_ms suspect_after_ms
    then err value_error
    else ok (record { suspect_after = suspect_after_ms * 1000; dead_after = dead_after_ms * 1000 })

-- `a or b` on optional times.
abbrev pub or_else : Option ℕ → Option ℕ → Option ℕ
or_else (some t) other = some t
or_else none other = other

-- `now - reference >= d` on times: the silence may be negative.
abbrev pub state_since : Option ℕ → ℕ → MembershipThresholds → DataNodeState
state_since none now thresholds = dead
state_since (some reference) now thresholds =
    if leb (reference + thresholds.dead_after) now
    then dead
    else if leb (reference + thresholds.suspect_after) now
    then suspect
    else alive

unfoldable pub state_for : Option ℕ → ℕ → MembershipThresholds → Option ℕ → DataNodeState
state_for last_heartbeat_at now thresholds registered_at =
    state_since (or_else last_heartbeat_at registered_at) now thresholds

pub record StateChange : Type 0 where
  pub data_node_id : String
  pub fault_domain : String
  pub previous : DataNodeState
  pub current : DataNodeState
  pub silence : ℤ

unfoldable pub lost_replicas : StateChange → Bool
lost_replicas c = c.current == dead && not (c.previous == dead)

unfoldable pub recovered : StateChange → Bool
recovered c = c.current == alive && not (c.previous == alive)

abbrev pub elapsed : ℕ → ℕ → ℤ
elapsed reference now =
    if leb reference now then pos (now - reference) else negsuc (reference - now - 1)

abbrev pub silence_since : Option ℕ → ℕ → ℤ
silence_since none now = pos 0
silence_since (some reference) now = elapsed reference now

unfoldable pub evaluate : DataNode → ℕ → MembershipThresholds → Option StateChange
unfolding state_for
evaluate node now thresholds =
    let current = state_for node.last_heartbeat_at now thresholds (some node.registered_at) in
    if current == node.state
    then none
    else some (record {
      data_node_id = node.id;
      fault_domain = node.fault_domain;
      previous = node.state;
      current = current;
      silence = silence_since (or_else node.last_heartbeat_at (some node.registered_at)) now;
    })

pub data RejoinKind : Type 0 where
  new_node same_boot wiped_disk : RejoinKind

unfoldable pub classify_rejoin : Option DataNode → String → RejoinKind
classify_rejoin none boot_id = new_node
classify_rejoin (some existing) boot_id =
    if not (existing.boot_id == "") && existing.boot_id == boot_id then same_boot else wiped_disk
