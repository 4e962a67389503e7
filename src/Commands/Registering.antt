-- ===== src/Commands/Registering.antt =====
-- control_node/commands/control_plane.py: the registration of a node, in a unit of work of its own.
pub mod Rejoining
use dfsha_telematica.Prelude.{
  ℕ, ◌+◌, String, Bool, true, false, not, ◌&&◌, ◌||◌, Option, none, some, List, [], ◌∷◌, ltb, ◌==◌,
  string_eq, if◌then◌else◌,
}
use dfsha_telematica.Errors.{Result, not_found}
use dfsha_telematica.Entities.{
  ReplicaState, stored, missing, alive, node_state_eq, NodeStats, DataNode,
}
use dfsha_telematica.Membership.{
  MembershipThresholds, StateChange, RejoinKind, wiped_disk, lost_replicas, silence_since, evaluate,
  classify_rejoin,
}
use dfsha_telematica.Divergence.{DivergenceReport, is_empty, compare}
use dfsha_telematica.Leadership.{Fencing}
use dfsha_telematica.Session.{Exec, pure, raise, with_uow, commit, when, ◌>>=◌, ◌>>◌}
use dfsha_telematica.Database.{Database}
use dfsha_telematica.Repositories.DataNodeRows
use dfsha_telematica.Repositories.ReplicaRows
use dfsha_telematica.Repositories.DataNodeRows.{Registration}
use dfsha_telematica.Commands.Leading.{require_leadership}

pub record RegistrationResult : Type 0 where
  pub node : DataNode
  pub rejoin_kind : RejoinKind
  pub replicas_lost : ℕ

abbrev pub find_existing : String → Exec Database (Option DataNode)
find_existing data_node_id =
    if not (data_node_id == "") then DataNodeRows.get data_node_id else pure none

abbrev pub or_by_url : Option DataNode → String → Exec Database (Option DataNode)
or_by_url (some n) advertise_url = pure (some n)
or_by_url none advertise_url = DataNodeRows.get_by_advertise_url advertise_url

-- `(existing.id if existing else data_node_id) or None`
abbrev pub id_to_use : Option DataNode → String → Option String
id_to_use (some n) data_node_id = if n.id == "" then none else some n.id
id_to_use none data_node_id = if data_node_id == "" then none else some data_node_id

abbrev pub lose_replicas : RejoinKind → Option DataNode → DataNode → Exec Database ℕ
lose_replicas wiped_disk (some existing) node =
    ReplicaRows.mark_node_replicas node.id missing (some (stored ∷ []))
lose_replicas _ _ node = pure 0

unfoldable pub register_node :
    Registration → String → String → ℕ → Database → Result RegistrationResult × Database
register_node r data_node_id fresh now = with_uow (do
  by_id ← find_existing data_node_id
  existing ← or_by_url by_id r.advertise_url
  node ← DataNodeRows.register r (id_to_use existing data_node_id) fresh now
  lost ← lose_replicas (classify_rejoin existing r.boot_id) existing node
  commit
  pure (record {
    node = node;
    rejoin_kind = classify_rejoin existing r.boot_id;
    replicas_lost = lost;
  }))
