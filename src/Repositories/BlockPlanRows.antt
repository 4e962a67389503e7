-- ===== src/Repositories/BlockPlanRows.antt =====
-- SqlBlockRepository of control_node/repositories/sql.py: the statements that plan, attach and delete
-- blocks, and the queries of the collector.
use dfsha_telematica.Prelude.{
  ℕ, ◌+◌, String, Bool, true, false, not, ◌&&◌, ◌||◌, Option, none, some, List, [], ◌∷◌, ◌++◌, map,
  leb, ltb, keep, any_of, count_where, find_first, update_where, sorted, str_leb, ◌==◌, string_eq,
  if◌then◌else◌,
}
use dfsha_telematica.Entities.{
  File, writing, deleted, file_state_eq, Block, BlockReplica, stored, replica_state_eq, reached,
}
use dfsha_telematica.Rows.{Task}
use dfsha_telematica.Session.{Exec, gets, modify, state}
use dfsha_telematica.Database.{Database}
use dfsha_telematica.Repositories.BlockRows.{copies, in_order}
use dfsha_telematica.Repositories.ReplicaRows.{of_key, put_state}

abbrev pub one_of : List String → String → Bool
one_of ids x = any_of (λ i. i == x) ids

abbrev pub has_id : String → Block → Bool
has_id block_id b = b.block_id == block_id

abbrev pub planned : List Block → List BlockReplica → Database → Database
planned blocks replicas db = record db {
  blocks = db.blocks ++ blocks;
  replicas = db.replicas ++ replicas;
}

abbrev pub add_plan : List Block → List BlockReplica → Exec Database (Unit {0})
add_plan blocks replicas = modify (planned blocks replicas)

abbrev pub put_file : Option String → Block → Block
put_file file_id b = record b { file_id = file_id }

abbrev pub detached : String → List Block → List Block
detached block_id rows = update_where (has_id block_id) (put_file none) rows

abbrev pub detach : String → Exec Database (Unit {0})
detach block_id = modify (λ db. record db { blocks = detached block_id db.blocks })

-- Nothing is written for an empty list, and nothing would be.
abbrev pub attached : List String → String → List Block → List Block
attached block_ids file_id rows =
    update_where (λ (b : Block). one_of block_ids b.block_id) (put_file (some file_id)) rows

abbrev pub attach : List String → String → Exec Database (Unit {0})
attach block_ids file_id =
    modify (λ db. record db { blocks = attached block_ids file_id db.blocks })

abbrev pub get : String → Exec Database (Option Block)
get block_id = gets (λ db. find_first (has_id block_id) db.blocks)

abbrev pub replicas_of : String → List BlockReplica → List BlockReplica
replicas_of block_id rows = keep (λ (r : BlockReplica). r.block_id == block_id) rows

-- The list that `list_replicas` gives under the key of one block.
abbrev pub list_replicas : String → Exec Database (List BlockReplica)
list_replicas block_id = gets (λ db. replicas_of block_id db.replicas)

abbrev pub with_checksum : String → Block → Block
with_checksum checksum_sha256 b = record b { checksum_sha256 = some checksum_sha256 }

abbrev pub stored_in : String → String → String → Database → Database
stored_in block_id data_node_id checksum_sha256 db = record db {
  replicas = update_where (of_key block_id data_node_id) (put_state stored) db.replicas;
  blocks = update_where (has_id block_id) (with_checksum checksum_sha256) db.blocks;
}

-- Without a row of the plan, the UPDATE of the replicas touches nothing.
abbrev pub mark_stored : String → String → String → Exec Database Bool
mark_stored block_id data_node_id checksum_sha256 = state λ db.
    if any_of (has_id block_id) db.blocks && any_of (of_key block_id data_node_id) db.replicas
    then (true, stored_in block_id data_node_id checksum_sha256 db)
    else (false, db)

abbrev pub below_in : List String → ℕ → List BlockReplica → Block → Bool
below_in block_ids quorum replicas b =
    one_of block_ids b.block_id && ltb (copies b.block_id replicas) quorum

-- Of the blocks that exist, those of the list with fewer copies; in order of their index.
abbrev pub ids_below_quorum : List String → ℕ → Exec Database (List String)
ids_below_quorum block_ids quorum = gets (λ db.
    map (λ (b : Block). b.block_id)
      (sorted in_order (keep (below_in block_ids quorum db.replicas) db.blocks)))

abbrev pub is_garbage_file : ℕ → Option File → Bool
is_garbage_file now none = false
is_garbage_file now (some f) =
    f.state == deleted || (f.state == writing && reached f.expires_at now)

abbrev pub is_orphan : ℕ → List File → Block → Bool
is_orphan now files b = elim b.file_id [
  | none ↦ true
  | some file_id ↦ is_garbage_file now (find_first (λ (f : File). f.id == file_id) files)
]

abbrev pub file_before : Option String → Option String → Bool
file_before none other = true
file_before (some a) none = false
file_before (some a) (some b) = str_leb a b

-- `ORDER BY file_id, index`, the rows without a file first.
abbrev pub orphan_before : Block → Block → Bool
orphan_before a b =
    if file_before a.file_id b.file_id
    then (if file_before b.file_id a.file_id then leb a.index b.index else true)
    else false

abbrev pub orphans : ℕ → Database → List Block
orphans now db = sorted orphan_before (keep (is_orphan now db.files) db.blocks)

abbrev pub list_orphans : ℕ → Exec Database (List (Block × List BlockReplica))
list_orphans now =
    gets (λ db. map (λ (b : Block). (b, replicas_of b.block_id db.replicas)) (orphans now db))

-- The rows of tasks of a deleted block go with it (`ON DELETE CASCADE`).
abbrev pub without_blocks : List String → Database → Database
without_blocks block_ids db = record db {
  replicas = keep (λ (r : BlockReplica). not (one_of block_ids r.block_id)) db.replicas;
  blocks = keep (λ (b : Block). not (one_of block_ids b.block_id)) db.blocks;
  tasks = keep (λ (t : Task). not (one_of block_ids t.block_id)) db.tasks;
}

abbrev pub delete_blocks : List String → Exec Database ℕ
delete_blocks block_ids = state λ db. (
  count_where (λ (b : Block). one_of block_ids b.block_id) db.blocks,
  without_blocks block_ids db,
)

abbrev pub sum_sizes : List Block → ℕ
sum_sizes [] = 0
sum_sizes (b ∷ bs) = b.size + sum_sizes bs

abbrev pub total_size : String → List Block → ℕ
total_size block_id rows = sum_sizes (keep (has_id block_id) rows)
