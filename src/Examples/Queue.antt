-- ===== src/Examples/Queue.antt =====
-- A block with one copy is copied to a second node, and an order to delete expires.
use dfsha_telematica.Prelude.{ℕ, String, Option, none, some, [], ◌∷◌, ==_iff, string_eq}
use dfsha_telematica.Entities.{DataNode, stored}
use dfsha_telematica.Rows.{Task, TaskKind, TaskState, replicate, delete, pending, in_flight}
use dfsha_telematica.Leadership.{Fencing}
use dfsha_telematica.Rereplication.{Assignment}
use dfsha_telematica.Database.{Database}
use dfsha_telematica.Repositories.TaskRows
use dfsha_telematica.Repositories.TaskRows.OneActive.{OneActive}
use dfsha_telematica.Commands.Copying.{RereplicationPolicy, scan_and_enqueue}
use dfsha_telematica.Commands.Copying.Dispatch.{dispatch}
use dfsha_telematica.Commands.Copying.Scanning.{scan_and_enqueue-OneActive}
use dfsha_telematica.Commands.Copying.Dispatching.{dispatch-OneActive}
use dfsha_telematica.Examples.{empty_db}
use dfsha_telematica.Examples.Cluster.{node, thresholds}
use dfsha_telematica.Examples.Writing.{old_version}

abbrev other_node : DataNode
other_node = record node { id = "n2"; advertise_url = "http://n2" }

abbrev policy : RereplicationPolicy
policy = record {
  replication_factor = 2;
  grace = 0;
  max_per_node = 1;
  max_per_pass = 5;
  task_ttl = 60;
  max_attempts = 3;
}

abbrev leader : Fencing
leader = record { leader_id = "cn1"; epoch = 1 }

abbrev task : String → String → TaskKind → TaskState → Option ℕ → Task
task id block_id kind state expires_at = record {
  id = id;
  block_id = block_id;
  kind = kind;
  state = state;
  source_node_id = none;
  target_node_id = none;
  replicas_at_schedule = 1;
  created_at = 0;
  dispatched_at = none;
  sent_at = none;
  expires_at = expires_at;
  attempts = 1;
}

abbrev short_db : Database
short_db = record empty_db {
  lease = some record {
    leader_id = some "cn1";
    epoch = 1;
    acquired_at = some 0;
    renewed_at = some 0;
    expires_at = some 100;
  };
  data_nodes = node ∷ other_node ∷ [];
  files = old_version ∷ [];
  blocks =
      record { block_id = "b1"; file_id = some "f1"; index = 0; size = 3; checksum_sha256 = none }
      ∷ record { block_id = "b9"; file_id = none; index = 0; size = 3; checksum_sha256 = none }
      ∷ [];
  replicas =
      record { block_id = "b1"; data_node_id = "n1"; state = stored; created_at = 0 }
      ∷ record { block_id = "b9"; data_node_id = "n1"; state = stored; created_at = 0 }
      ∷ record { block_id = "b9"; data_node_id = "n2"; state = stored; created_at = 0 }
      ∷ [];
}

scan_and_enqueue-OneActive_example :
    OneActive (scan_and_enqueue leader policy thresholds 8 (λ b. b) short_db).1.tasks
scan_and_enqueue-OneActive_example =
    scan_and_enqueue-OneActive policy thresholds 8 (λ b. b) (λ a b h. h) leader short_db tt tt

abbrev copying : Task
copying = task "t1" "b1" replicate pending none

abbrev deleting : Task
deleting = task "t2" "b9" delete in_flight (some 7)

abbrev queue_db : Database
queue_db = record short_db { tasks = copying ∷ deleting ∷ [] }

one_active : OneActive queue_db.tasks
one_active = (
  (
    record {
      ids = λ h. cc ((==_iff {A = String} "t1" "t2").1 h);
      alone = λ h a. absurd (cc ((==_iff {A = String} "b1" "b9").1 h));
    },
    tt,
  ),
  (tt, tt),
)

dispatch-OneActive_example : OneActive (dispatch leader policy thresholds 8 queue_db).1.tasks
dispatch-OneActive_example = dispatch-OneActive policy thresholds 8 leader queue_db one_active

abbrev the_copy : Assignment
the_copy = record {
  block_id = "b1";
  source_node_id = "n1";
  target_node_id = "n2";
  gap = record {
    block_id = "b1";
    size = 3;
    checksum_sha256 = none;
    current_replicas = 1;
    target_replicas = 2;
    holders = "n1" ∷ [];
    holder_domains = "z1" ∷ [];
  };
}
