-- ===== src/Commands/Copying.antt =====
-- control_node/commands/rereplication.py: copies that restore lost replicas are detected and
-- put in the queue. Log lines are not modelled.
pub mod Dispatch
pub mod Handing
pub mod Scanning
pub mod Looking
pub mod Sending
pub mod Dispatching
use dfsha_telematica.Prelude.{
  ℕ, ◌+◌, String, Bool, true, false, not, ◌&&◌, ◌||◌, Option, none, some, List, [], ◌∷◌, ◌++◌, map,
  ltb, length, keep, find_first, ◌==◌, nat_eq, string_eq, if◌then◌else◌,
}
use dfsha_telematica.Errors.{Result, runtime_error}
use dfsha_telematica.Entities.{
  ReplicaState, stored, replica_state_eq, DataNodeState, alive, dead, node_state_eq, Block,
  DataNode, peer_base_url,
}
use dfsha_telematica.Entities
use dfsha_telematica.Rows.{Task, TaskKind, replicate, delete, task_kind_eq}
use dfsha_telematica.Membership.{MembershipThresholds, state_for}
use dfsha_telematica.Leadership.{Fencing, Lease}
use dfsha_telematica.Rereplication.{ReplicationGap, Assignment, Candidate, missing, assign_targets}
use dfsha_telematica.Session.{Exec, gets, pure, raise, with_uow, commit, when, ◌>>=◌, ◌>>◌}
use dfsha_telematica.Database.{Database}
use dfsha_telematica.Repositories.TaskRows
use dfsha_telematica.Repositories.ShortBlocks
use dfsha_telematica.Repositories.TaskRows.{ExpiredTasks}
use dfsha_telematica.Repositories.ShortBlocks.{ReplicaInfo, ShortBlock}
use dfsha_telematica.Repositories.DataNodeRows
use dfsha_telematica.Repositories.ReplicaRows
use dfsha_telematica.Commands.Leading.{require_leadership}

pub record RereplicationPolicy : Type 0 where
  pub replication_factor : ℕ
  pub grace : ℕ
  pub max_per_node : ℕ
  pub max_per_pass : ℕ
  pub task_ttl : ℕ
  pub max_attempts : ℕ

-- `_replica_utilizable`
unfoldable pub is_usable : ReplicaInfo → ℕ → MembershipThresholds → Bool
is_usable r now thresholds =
    if not (r.state == stored)
    then false
    else not (state_for r.last_heartbeat_at now thresholds none == dead)

abbrev pub silent_for : Option ℕ → ℕ → ℕ → Bool
silent_for none now wait = false
silent_for (some t) now wait = not (ltb now (t + wait))

-- Whether an absent replica has been so for longer than the grace.
abbrev pub is_absent_long : ReplicaInfo → ℕ → MembershipThresholds → ℕ → Bool
is_absent_long r now thresholds grace =
    if r.state == Entities.ReplicaState.pending
    then not (ltb now (r.created_at + grace))
    else silent_for r.last_heartbeat_at now (thresholds.dead_after + grace)

-- `_hueco_asentado`, over the replicas of the block.
unfoldable pub is_settled : List ReplicaInfo → ℕ → MembershipThresholds → ℕ → Bool
is_settled [] now thresholds grace = true
is_settled (r ∷ rs) now thresholds grace =
    let rest = is_settled rs now thresholds grace in
    if is_usable r now thresholds
    then rest
    else if is_absent_long r now thresholds grace
    then rest
    else false

abbrev pub usable : ShortBlock → ℕ → MembershipThresholds → List ReplicaInfo
usable b now thresholds = keep (λ r. is_usable r now thresholds) b.replicas

-- `_a_hueco`
unfoldable pub to_gap : ShortBlock → ℕ → MembershipThresholds → ℕ → ReplicationGap
to_gap b now thresholds target = record {
  block_id = b.block_id;
  size = b.size;
  checksum_sha256 = b.checksum_sha256;
  current_replicas = length (usable b now thresholds);
  target_replicas = target;
  holders = map (λ (r : ReplicaInfo). r.data_node_id) (usable b now thresholds);
  holder_domains = map (λ (r : ReplicaInfo). r.fault_domain) (usable b now thresholds);
}

abbrev pub one_more : Option String → ℕ → ℕ
one_more none n = n
one_more (some task_id) n = n + 1

-- The loop of the scan; `new_id` gives the id of the task of a block. It answers how many it enqueued.
abbrev pub enqueue_gaps :
    RereplicationPolicy
    → MembershipThresholds
    → ℕ
    → (String → String)
    → List ShortBlock
    → Exec Database ℕ
enqueue_gaps policy thresholds now new_id [] = pure 0
enqueue_gaps policy thresholds now new_id (b ∷ bs) =
    if not (is_settled b.replicas now thresholds policy.grace)
    then enqueue_gaps policy thresholds now new_id bs
    else if missing (to_gap b now thresholds policy.replication_factor) == 0
    then enqueue_gaps policy thresholds now new_id bs
    else (do
      task_id ←
          TaskRows.enqueue (new_id b.block_id) b.block_id
            (to_gap b now thresholds policy.replication_factor).current_replicas now
      n ← enqueue_gaps policy thresholds now new_id bs
      pure (one_more task_id n))

-- From the short blocks on.
abbrev pub scan_blocks :
    RereplicationPolicy
    → MembershipThresholds
    → ℕ
    → (String → String)
    → List ShortBlock
    → Exec Database ℕ
scan_blocks policy thresholds now new_id blocks = do
  n ← enqueue_gaps policy thresholds now new_id blocks
  when (ltb 0 n) commit
  pure n

abbrev pub scan :
    Fencing → RereplicationPolicy → MembershipThresholds → ℕ → (String → String) → Exec Database ℕ
scan fencing policy thresholds now new_id = do
  lease ← require_leadership fencing now
  blocks ← ShortBlocks.blocks_missing_replicas policy.replication_factor
  scan_blocks policy thresholds now new_id blocks

unfoldable pub scan_and_enqueue :
    Fencing
    → RereplicationPolicy
    → MembershipThresholds
    → ℕ
    → (String → String)
    → Database
    → Result ℕ × Database
scan_and_enqueue fencing policy thresholds now new_id =
    with_uow (scan fencing policy thresholds now new_id)
