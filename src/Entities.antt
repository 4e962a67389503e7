-- ===== src/Entities.antt =====
-- control_node/domain/entities.py: the entities that the use cases and repositories pass around.
-- A `datetime` is a number of microseconds since the epoch and a `timedelta` a number of
-- microseconds; an identifier is a text. A nullable column is an `Option`.
use dfsha_telematica.Prelude.{
  ℕ, ◌-◌, String, ◌≡◌, ◌↔◌, Bool, true, false, not, Option, none, some, arith, leb, Eq, ◌==◌,
  string_eq, if◌then◌else◌,
}
use dfsha_telematica.FilePath.{Text}

pub data FileState : Type 0 where
  writing committed deleted : FileState

pub data ReplicaState : Type 0 where
  pending stored missing : ReplicaState

pub data DataNodeState : Type 0 where
  alive suspect dead : DataNodeState

-- `is` between members of an enumeration.
abbrev pub file_state_beq : FileState → FileState → Bool
file_state_beq writing writing = true
file_state_beq committed committed = true
file_state_beq deleted deleted = true
file_state_beq _ _ = false

pub file_state_beq_iff : (a b : FileState) → (file_state_beq a b ≡ true) ↔ (a ≡ b)
file_state_beq_iff a b = ground arith

instance abbrev pub file_state_eq : Eq FileState
file_state_eq = record { test = file_state_beq; test_iff = file_state_beq_iff }

abbrev pub replica_state_beq : ReplicaState → ReplicaState → Bool
replica_state_beq pending pending = true
replica_state_beq stored stored = true
replica_state_beq missing missing = true
replica_state_beq _ _ = false

pub replica_state_beq_iff : (a b : ReplicaState) → (replica_state_beq a b ≡ true) ↔ (a ≡ b)
replica_state_beq_iff a b = ground arith

instance abbrev pub replica_state_eq : Eq ReplicaState
replica_state_eq = record { test = replica_state_beq; test_iff = replica_state_beq_iff }

abbrev pub node_state_beq : DataNodeState → DataNodeState → Bool
node_state_beq alive alive = true
node_state_beq suspect suspect = true
node_state_beq dead dead = true
node_state_beq _ _ = false

pub node_state_beq_iff : (a b : DataNodeState) → (node_state_beq a b ≡ true) ↔ (a ≡ b)
node_state_beq_iff a b = ground arith

instance abbrev pub node_state_eq : Eq DataNodeState
node_state_eq = record { test = node_state_beq; test_iff = node_state_beq_iff }

pub record User : Type 0 where
  pub id : String
  pub username : Text
  pub password_hash : String
  pub created_at : ℕ
  pub kdf_salt : String

pub record Directory : Type 0 where
  pub id : String
  pub parent_id : Option String
  pub name : Text
  pub owner_id : String
  pub created_at : ℕ
  pub deleted_at : Option ℕ

pub record File : Type 0 where
  pub id : String
  pub directory_id : String
  pub name : Text
  pub owner_id : String
  pub size : ℕ
  pub block_size : ℕ
  pub state : FileState
  pub created_at : ℕ
  pub committed_at : Option ℕ
  pub expires_at : Option ℕ
  pub deleted_at : Option ℕ
  pub wrapped_key : String
  pub key_algo : String

abbrev pub reached : Option ℕ → ℕ → Bool
reached none now = false
reached (some t) now = leb t now

-- Only a file in WRITING can expire.
unfoldable pub is_expired : File → ℕ → Bool
is_expired f now = if not (f.state == writing) then false else reached f.expires_at now

unfoldable pub is_visible : File → Bool
is_visible f = f.state == committed

unfoldable pub holds_name : File → ℕ → Bool
unfolding is_expired
holds_name f now =
    if f.state == deleted
    then false
    else if f.state == committed
    then true
    else not (is_expired f now)

unfoldable pub is_encrypted : File → Bool
is_encrypted f = not (f.wrapped_key == "")

pub record Block : Type 0 where
  pub block_id : String
  pub file_id : Option String
  pub index : ℕ
  pub size : ℕ
  pub checksum_sha256 : Option String

pub record BlockReplica : Type 0 where
  pub block_id : String
  pub data_node_id : String
  pub state : ReplicaState
  pub created_at : ℕ

pub record NodeStats : Type 0 where
  pub used_bytes : ℕ
  pub capacity_bytes : ℕ
  pub disk_free_bytes : ℕ
  pub block_count : ℕ
  pub writes_in_flight : ℕ
  pub reads_in_flight : ℕ
  pub bytes_written_60s : ℕ

pub record DataNode : Type 0 where
  pub id : String
  pub advertise_url : String
  pub capacity_bytes : ℕ
  pub used_bytes : ℕ
  pub state : DataNodeState
  pub registered_at : ℕ
  pub fault_domain : String
  pub boot_id : String
  pub peer_url : String
  pub last_heartbeat_at : Option ℕ
  pub last_sequence : ℕ
  pub stats : NodeStats

unfoldable pub peer_base_url : DataNode → String
peer_base_url n = if n.peer_url == "" then n.advertise_url else n.peer_url

-- `max(0, capacity - used)`: subtraction on ℕ stops at 0.
unfoldable pub free_bytes : DataNode → ℕ
free_bytes n = n.capacity_bytes - n.used_bytes

unfoldable pub has_room_for : DataNode → ℕ → Bool
unfolding free_bytes
has_room_for n size = leb size (free_bytes n)
