-- ===== src/Examples/Cluster.antt =====
-- A node that falls silent, reports, registers again, and whose blocks are copied; and a grant.
use mathlib.Core.List.{reverse}
use dfsha_telematica.Prelude.{
  ◌+◌, ◌≤◌, String, ◌≡◌, ◌≢◌, refl, true, none, some, List, [], ◌∷◌, map, arith, All, count_where,
  ==_iff, nat_eq, string_eq, ◌⊎◌, sym, ◌∙◌,
}
use dfsha_telematica.Prelude.Int.{pos}
use dfsha_telematica.Errors.{ok}
use dfsha_telematica.Entities.{DataNode, BlockReplica, alive, dead, stored}
use dfsha_telematica.Membership.{
  MembershipThresholds, StateChange, evaluate, state_for, lost_replicas, classify_rejoin, same_boot,
}
use dfsha_telematica.Divergence.{compare}
use dfsha_telematica.Rereplication.{ReplicationGap, Candidate, flying, assign_targets}
use dfsha_telematica.Rereplication.Assigned.{is_to, assign_targets_within_caps}
use dfsha_telematica.Acl.{AclEntry, Grant, group, read, resolve}
use dfsha_telematica.Acl.Strongest.{Silent}
use dfsha_telematica.Acl.Resolve.{Decides, resolve_lem}
use dfsha_telematica.Leadership.{Fencing}
use dfsha_telematica.Database.{Database}
use dfsha_telematica.Repositories.DataNodeRows.{Registration, readmitted}
use dfsha_telematica.Repositories.ReplicaRows.{ids_on_node}
use dfsha_telematica.Commands.Registering.{RegistrationResult, register_node}
use dfsha_telematica.Commands.ControlPlane.{
  expected_states, apply_block_report, evaluate_membership,
}
use dfsha_telematica.Commands.ControlPlane.Settled.{Settled}
use dfsha_telematica.Commands.ControlPlane.Evaluated.{evaluate_membership-Settled}
use dfsha_telematica.Commands.ControlPlane.Reports.{after_report, apply_block_report_lem}
use dfsha_telematica.Commands.Registering.Rejoining.{readmitted_declared_dead}
use dfsha_telematica.Examples.{empty_db}

abbrev pub thresholds : MembershipThresholds
thresholds = record { suspect_after = 10; dead_after = 30 }

abbrev pub node : DataNode
node = record {
  id = "n1";
  advertise_url = "http://n1";
  capacity_bytes = 100;
  used_bytes = 0;
  state = alive;
  registered_at = 0;
  fault_domain = "z1";
  boot_id = "boot";
  peer_url = "";
  last_heartbeat_at = some 5;
  last_sequence = 1;
  stats = record {
    used_bytes = 0;
    capacity_bytes = 100;
    disk_free_bytes = 100;
    block_count = 2;
    writes_in_flight = 0;
    reads_in_flight = 0;
    bytes_written_60s = 0;
  };
}

abbrev replica : String → BlockReplica
replica block_id = record {
  block_id = block_id;
  data_node_id = "n1";
  state = stored;
  created_at = 0;
}

abbrev cluster : Database
cluster = record empty_db { data_nodes = node ∷ []; replicas = replica "b1" ∷ replica "b2" ∷ [] }

abbrev fell_silent : StateChange
fell_silent = record {
  data_node_id = "n1";
  fault_domain = "z1";
  previous = alive;
  current = dead;
  silence = pos 45;
}

evaluated : (evaluate_membership thresholds 50 none cluster).0 ≡ ok (fell_silent ∷ [])
unfolding evaluate_membership evaluate state_for lost_replicas
evaluated = refl

evaluate_membership-Settled_example :
    All (Settled thresholds 50) (evaluate_membership thresholds 50 none cluster).1.data_nodes
evaluate_membership-Settled_example =
    evaluate_membership-Settled thresholds 50 none cluster (fell_silent ∷ []) (tt, tt) evaluated

abbrev stranger : Fencing
stranger = record { leader_id = "x"; epoch = 1 }

abbrev only_b1 : List String
only_b1 = "b1" ∷ []

two_blocks-Apart :
    (r q : BlockReplica) → r.block_id ≡ "b1" → q.block_id ≡ "b2" → r.block_id ≢ q.block_id
two_blocks-Apart r q h k e = absurd (cc ((==_iff {A = String} "b1" "b2").1 (sym h ∙ e ∙ k)))

apply_block_report_lem_example : apply_block_report "n1" true only_b1 cluster ≡ (
  ok (compare (ids_on_node "n1" expected_states cluster.replicas) only_b1 true),
  record cluster { replicas = map (after_report "n1" true only_b1) cluster.replicas },
)
apply_block_report_lem_example =
    apply_block_report_lem "n1" true only_b1 cluster node refl
      (((λ b n. two_blocks-Apart (replica "b1") (replica "b2") refl refl b), tt), (tt, tt))

abbrev again : Registration
again = record {
  advertise_url = "http://n1";
  fault_domain = "z1";
  boot_id = "boot";
  capacity_bytes = 100;
  peer_url = "";
}

abbrev welcome : RegistrationResult
welcome = record { node = readmitted again node; rejoin_kind = same_boot; replicas_lost = 0 }

readmitted_declared_dead_example :
    (c : StateChange) × (evaluate welcome.node 50 thresholds ≡ some c) × (lost_replicas c ≡ true)
readmitted_declared_dead_example =
    readmitted_declared_dead again "new" 50 cluster node thresholds 5 welcome refl (λ h. cc) refl
      (omega arith) (unfold register_node classify_rejoin in refl)

abbrev gap : ReplicationGap
gap = record {
  block_id = "b1";
  size = 2;
  checksum_sha256 = none;
  current_replicas = 1;
  target_replicas = 3;
  holders = "n1" ∷ [];
  holder_domains = "z1" ∷ [];
}

abbrev gaps : List ReplicationGap
gaps = gap ∷ []

abbrev candidates : List Candidate
candidates = ("n1", "z1") ∷ ("n2", "z1") ∷ ("n3", "z2") ∷ []

assign_targets_within_caps_example :
    (count_where (is_to "n3") (assign_targets gaps candidates [] 2 none 2) ≡ 0)
    ⊎ (flying [] "n3" + count_where (is_to "n3") (assign_targets gaps candidates [] 2 none 2) ≤ 2)
assign_targets_within_caps_example = assign_targets_within_caps candidates 2 gaps [] none 2 "n3"

abbrev entries : String → List AclEntry
entries d =
    record { directory_id = d; principal_type = group; principal_id = "g"; permission = read } ∷ []

abbrev groups : List String
groups = "g" ∷ []

abbrev chain : List String
chain = "root" ∷ "docs" ∷ []

resolve_lem_example :
    ((resolve "bob" "ana" chain entries groups ≡ none)
      × All (λ d. Silent "bob" groups (entries d)) (reverse chain))
    ⊎ ((g : Grant) × (resolve "bob" "ana" chain entries groups ≡ some g)
        × Decides "bob" groups entries (reverse chain) g)
resolve_lem_example =
    resolve_lem "bob" groups entries "ana" chain
      (λ h. absurd (cc ((==_iff {A = String} "bob" "ana").1 h)))
