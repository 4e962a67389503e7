-- ===== src/Repositories/ShortBlocks.antt =====
-- `blocks_missing_replicas` of SqlRereplicationRepository in control_node/repositories/sql.py: the blocks
-- that are short of copies.
use dfsha_telematica.Prelude.{
  ℕ, String, Bool, false, ◌&&◌, Option, none, some, List, map, ltb, keep, any_of, find_first,
  sorted, str_leb, ◌==◌, nat_eq, string_eq,
}
use dfsha_telematica.Entities.{
  File, committed, file_state_eq, Block, BlockReplica, ReplicaState, DataNode,
}
use dfsha_telematica.Rows.{task_kind_eq, task_state_eq}
use dfsha_telematica.Session.{Exec, gets}
use dfsha_telematica.Database.{Database}
use dfsha_telematica.Repositories.BlockRows.{copies}

-- A replica of a block, with what the table of nodes says of its node.
pub record ReplicaInfo : Type 0 where
  pub data_node_id : String
  pub state : ReplicaState
  pub created_at : ℕ
  pub fault_domain : String
  pub last_heartbeat_at : Option ℕ
  pub advertise_url : String

pub record ShortBlock : Type 0 where
  pub block_id : String
  pub size : ℕ
  pub checksum_sha256 : Option String
  pub replicas : List ReplicaInfo

abbrev pub info_of : BlockReplica → Option DataNode → ReplicaInfo
info_of r none = record {
  data_node_id = r.data_node_id;
  state = r.state;
  created_at = r.created_at;
  fault_domain = "";
  last_heartbeat_at = none;
  advertise_url = "";
}
info_of r (some n) = record {
  data_node_id = r.data_node_id;
  state = r.state;
  created_at = r.created_at;
  fault_domain = n.fault_domain;
  last_heartbeat_at = n.last_heartbeat_at;
  advertise_url = n.advertise_url;
}

abbrev pub joined_node : List DataNode → BlockReplica → ReplicaInfo
joined_node nodes r = info_of r (find_first (λ (n : DataNode). n.id == r.data_node_id) nodes)

abbrev pub infos : Database → String → List ReplicaInfo
infos db block_id =
    map (joined_node db.data_nodes)
      (keep (λ (r : BlockReplica). r.block_id == block_id) db.replicas)

abbrev pub is_of_committed : List File → Option String → Bool
is_of_committed files none = false
is_of_committed files (some file_id) =
    any_of (λ (f : File). f.id == file_id && f.state == committed) files

abbrev pub is_short : ℕ → Database → Block → Bool
is_short replication_factor db b =
    is_of_committed db.files b.file_id && ltb (copies b.block_id db.replicas) replication_factor

abbrev pub short_block : Database → Block → ShortBlock
short_block db b = record {
  block_id = b.block_id;
  size = b.size;
  checksum_sha256 = b.checksum_sha256;
  replicas = infos db b.block_id;
}

abbrev pub block_before : Block → Block → Bool
block_before a b = str_leb a.block_id b.block_id

abbrev pub short_blocks : ℕ → Database → List ShortBlock
short_blocks replication_factor db =
    map (short_block db) (sorted block_before (keep (is_short replication_factor db) db.blocks))

abbrev pub blocks_missing_replicas : ℕ → Exec Database (List ShortBlock)
blocks_missing_replicas replication_factor = gets (short_blocks replication_factor)
