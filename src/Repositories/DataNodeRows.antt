-- ===== src/Repositories/DataNodeRows.antt =====
-- SqlDataNodeRepository of control_node/repositories/sql.py: the table of data nodes, whose primary
-- key is the node's id. The identifier that `new_id` gives is an argument of `register`.
use dfsha_telematica.Prelude.{
  ℕ, ◌+◌, ◌-◌, String, Bool, Option, none, some, List, [], ◌∷◌, ◌++◌, leb, keep, find_first,
  update_where, sorted, ◌==◌, string_eq, if◌then◌else◌,
}
use dfsha_telematica.Prelude.Int.{ℤ, pos, negsuc}
use dfsha_telematica.Entities.{DataNodeState, alive, node_state_eq, NodeStats, DataNode}
use dfsha_telematica.Session.{Exec, gets, modify, state}
use dfsha_telematica.Database.{Database}

abbrev pub has_id : String → DataNode → Bool
has_id data_node_id n = n.id == data_node_id

abbrev pub has_url : String → DataNode → Bool
has_url advertise_url n = n.advertise_url == advertise_url

-- `session.get(DataNodeRow, data_node_id)`
abbrev pub get : String → Exec Database (Option DataNode)
get data_node_id = gets (λ db. find_first (has_id data_node_id) db.data_nodes)

abbrev pub get_by_advertise_url : String → Exec Database (Option DataNode)
get_by_advertise_url advertise_url = gets (λ db. find_first (has_url advertise_url) db.data_nodes)

abbrev pub older : DataNode → DataNode → Bool
older a b = leb a.registered_at b.registered_at

abbrev pub by_registration : List DataNode → List DataNode
by_registration rows = sorted older rows

abbrev pub list_all : Exec Database (List DataNode)
list_all = gets (λ db. by_registration db.data_nodes)

abbrev pub list_alive : Exec Database (List DataNode)
list_alive = gets (λ db. sorted older (keep (λ (n : DataNode). n.state == alive) db.data_nodes))

-- What a registration sends.
pub record Registration : Type 0 where
  pub advertise_url : String
  pub fault_domain : String
  pub boot_id : String
  pub capacity_bytes : ℕ
  pub peer_url : String

abbrev pub new_row : Registration → String → ℕ → DataNode
new_row r id now = record {
  id = id;
  advertise_url = r.advertise_url;
  capacity_bytes = r.capacity_bytes;
  used_bytes = 0;
  state = alive;
  registered_at = now;
  fault_domain = r.fault_domain;
  boot_id = r.boot_id;
  peer_url = r.peer_url;
  last_heartbeat_at = none;
  last_sequence = 0;
  stats = record {
    used_bytes = 0;
    capacity_bytes = r.capacity_bytes;
    disk_free_bytes = 0;
    block_count = 0;
    writes_in_flight = 0;
    reads_in_flight = 0;
    bytes_written_60s = 0;
  };
}

-- A known node keeps its id, its registration time and its last heartbeat.
abbrev pub readmitted : Registration → DataNode → DataNode
readmitted r row = record row {
  advertise_url = r.advertise_url;
  peer_url = r.peer_url;
  fault_domain = r.fault_domain;
  boot_id = r.boot_id;
  capacity_bytes = r.capacity_bytes;
  state = alive;
}

abbrev pub by_id : Option String → List DataNode → Option DataNode
by_id none rows = none
by_id (some id) rows = if id == "" then none else find_first (has_id id) rows

abbrev pub or_by_url : Option DataNode → String → List DataNode → Option DataNode
or_by_url (some row) advertise_url rows = some row
or_by_url none advertise_url rows = find_first (has_url advertise_url) rows

abbrev pub id_or : Option String → String → String
id_or none fresh = fresh
id_or (some id) fresh = if id == "" then fresh else id

abbrev pub write_row :
    Registration → Option String → String → ℕ → Option DataNode → Database → DataNode × Database
write_row r data_node_id fresh now none db =
    let row = new_row r (id_or data_node_id fresh) now in
    (row, record db { data_nodes = db.data_nodes ++ row ∷ [] })
write_row r data_node_id fresh now (some row) db = (
  readmitted r row,
  record db { data_nodes = update_where (has_id row.id) (λ n. readmitted r row) db.data_nodes },
)

abbrev pub register : Registration → Option String → String → ℕ → Exec Database DataNode
register r data_node_id fresh now = state λ db.
    write_row r data_node_id fresh now
      (or_by_url (by_id data_node_id db.data_nodes) r.advertise_url db.data_nodes) db

abbrev pub beaten : ℕ → NodeStats → ℕ → DataNode → DataNode
beaten sequence stats now n = record n {
  last_heartbeat_at = some now;
  last_sequence = sequence;
  stats = stats;
}

abbrev pub record_heartbeat : String → ℕ → NodeStats → ℕ → Exec Database (Unit {0})
record_heartbeat data_node_id sequence stats now = modify λ db. record db {
  data_nodes = update_where (has_id data_node_id) (beaten sequence stats now) db.data_nodes;
}

abbrev pub in_state : DataNodeState → DataNode → DataNode
in_state new n = record n { state = new }

abbrev pub set_state : String → DataNodeState → Exec Database (Unit {0})
set_state data_node_id new =
    modify λ db. record db {
      data_nodes = update_where (has_id data_node_id) (in_state new) db.data_nodes;
    }

-- `CASE WHEN used + delta < 0 THEN 0 ELSE used + delta`
abbrev pub adjusted : ℕ → ℤ → ℕ
adjusted used (pos n) = used + n
adjusted used (negsuc n) = used - (n + 1)

abbrev pub add_used_bytes : String → ℤ → Exec Database (Unit {0})
add_used_bytes data_node_id delta = modify λ db. record db {
  data_nodes =
      update_where (has_id data_node_id)
        (λ (n : DataNode). record n { used_bytes = adjusted n.used_bytes delta }) db.data_nodes;
}
