-- ===== src/Commands/Copying/Dispatch.antt =====
-- `dispatch` of control_node/commands/rereplication.py. Log lines and the text of `last_error` are not
-- modelled.
use dfsha_telematica.Prelude.{
  ℕ, ◌+◌, String, Bool, ◌||◌, Option, none, some, List, [], ◌∷◌, map, ltb, keep, find_first, ◌==◌,
  nat_eq, string_eq, if◌then◌else◌,
}
use dfsha_telematica.Errors.{Result, runtime_error}
use dfsha_telematica.Entities.{
  ReplicaState, stored, replica_state_eq, DataNodeState, alive, dead, node_state_eq, Block,
  DataNode, peer_base_url,
}
use dfsha_telematica.Entities
use dfsha_telematica.Rows.{Task, task_kind_eq}
use dfsha_telematica.Membership.{MembershipThresholds, state_for}
use dfsha_telematica.Leadership.{Fencing, Lease}
use dfsha_telematica.Rereplication.{ReplicationGap, Assignment, Candidate, missing, assign_targets}
use dfsha_telematica.Session.{Exec, gets, pure, raise, with_uow, commit, when, ◌>>=◌, ◌>>◌}
use dfsha_telematica.Database.{Database}
use dfsha_telematica.Repositories.TaskRows
use dfsha_telematica.Repositories.ShortBlocks
use dfsha_telematica.Repositories.TaskRows.{ExpiredTasks}
use dfsha_telematica.Repositories.ShortBlocks.{ReplicaInfo, ShortBlock}
use dfsha_telematica.Repositories.DataNodeRows
use dfsha_telematica.Repositories.ReplicaRows
use dfsha_telematica.Commands.Leading.{require_leadership}
use dfsha_telematica.Commands.Copying.{RereplicationPolicy, to_gap}

abbrev pub drop_abandoned : List (String × String) → Exec Database (Unit {0})
drop_abandoned [] = pure tt
drop_abandoned ((block_id, node_id) ∷ rest) = do
  dropped ← ReplicaRows.drop_replica block_id node_id
  drop_abandoned rest

-- The gaps that are still there, and the task of each block.
abbrev pub Queue : Type 0
Queue = List ReplicationGap × List (String × String)

abbrev pub queued : ReplicationGap → Task → Queue → Queue
queued gap t (gaps, task_of) = (gap ∷ gaps, (gap.block_id, t.id) ∷ task_of)

-- One pending task: it is closed if its block is no longer short.
abbrev pub look_at :
    RereplicationPolicy
    → MembershipThresholds
    → ℕ
    → Task
    → Option ShortBlock
    → Exec Database (Option ReplicationGap)
look_at policy thresholds now t none = do TaskRows.close t.id; pure none
look_at policy thresholds now t (some b) =
    if missing (to_gap b now thresholds policy.replication_factor) == 0
    then (do TaskRows.close t.id; pure none)
    else pure (some (to_gap b now thresholds policy.replication_factor))

abbrev pub queued_if : Option ReplicationGap → Task → Queue → Queue
queued_if none t q = q
queued_if (some gap) t q = queued gap t q

abbrev pub block_of : String → List ShortBlock → Option ShortBlock
block_of block_id blocks = find_first (λ (b : ShortBlock). b.block_id == block_id) blocks

abbrev pub look_at_all :
    RereplicationPolicy
    → MembershipThresholds
    → ℕ
    → List ShortBlock
    → List Task
    → Exec Database Queue
look_at_all policy thresholds now blocks [] = pure ([], [])
look_at_all policy thresholds now blocks (t ∷ ts) = do
  gap ← look_at policy thresholds now t (block_of t.block_id blocks)
  rest ← look_at_all policy thresholds now blocks ts
  pure (queued_if gap t rest)

-- The nodes that are alive by their last heartbeat, with their fault domains.
abbrev pub candidates : MembershipThresholds → ℕ → List DataNode → List Candidate
candidates thresholds now nodes =
    map (λ (n : DataNode). (n.id, n.fault_domain))
      (keep
        (λ (n : DataNode).
          state_for n.last_heartbeat_at now thresholds (some n.registered_at) == alive)
        nodes)

abbrev pub or_this : Option String → Bool → String → Option String
or_this (some later) is_key task_id = some later
or_this none is_key task_id = if is_key then some task_id else none

-- `tarea_de[block_id]`: the last that was written.
abbrev pub task_for : String → List (String × String) → Option String
task_for block_id [] = none
task_for block_id ((b, t) ∷ rest) = or_this (task_for block_id rest) (b == block_id) t

abbrev pub send : RereplicationPolicy → ℕ → Assignment → Option String → Exec Database (Unit {0})
send policy now a none = raise runtime_error
send policy now a (some task_id) = do
  added ← ReplicaRows.add_replica a.block_id a.target_node_id Entities.ReplicaState.pending now
  TaskRows.dispatch task_id a.source_node_id a.target_node_id now (now + policy.task_ttl)

abbrev pub send_all :
    RereplicationPolicy → ℕ → List (String × String) → List Assignment → Exec Database (Unit {0})
send_all policy now task_of [] = pure tt
send_all policy now task_of (a ∷ as_) = do
  send policy now a (task_for a.block_id task_of)
  send_all policy now task_of as_

abbrev pub assigned :
    RereplicationPolicy → MembershipThresholds → ℕ → Queue → Database → List Assignment
assigned policy thresholds now q db =
    assign_targets q.0 (candidates thresholds now (DataNodeRows.by_registration db.data_nodes))
      (TaskRows.targets_in_flight db.tasks) policy.max_per_node (some policy.max_per_pass) 1

-- From the pending tasks on.
abbrev pub send_pending :
    RereplicationPolicy
    → MembershipThresholds
    → ℕ
    → ExpiredTasks
    → List Task
    → Exec Database (List Assignment)
send_pending policy thresholds now expired [] = do
  when (ltb 0 expired.requeued || ltb 0 expired.gave_up) commit
  pure []
send_pending policy thresholds now expired (t ∷ ts) = do
  blocks ← ShortBlocks.blocks_missing_replicas policy.replication_factor
  q ← look_at_all policy thresholds now blocks (t ∷ ts)
  assignments ← gets (assigned policy thresholds now q)
  send_all policy now q.1 assignments
  commit
  pure assignments

-- From the check of the leadership on.
abbrev pub dispatch_now :
    RereplicationPolicy → MembershipThresholds → ℕ → Lease → Exec Database (List Assignment)
dispatch_now policy thresholds now lease = do
  expired ← TaskRows.expire_stale now policy.max_attempts
  drop_abandoned expired.abandoned_targets
  tasks ← TaskRows.list_pending
  send_pending policy thresholds now expired tasks

abbrev pub dispatch_all :
    Fencing → RereplicationPolicy → MembershipThresholds → ℕ → Exec Database (List Assignment)
dispatch_all fencing policy thresholds now = do
  lease ← require_leadership fencing now
  dispatch_now policy thresholds now lease

unfoldable pub dispatch :
    Fencing
    → RereplicationPolicy
    → MembershipThresholds
    → ℕ
    → Database
    → Result (List Assignment) × Database
dispatch fencing policy thresholds now = with_uow (dispatch_all fencing policy thresholds now)
