-- ===== src/Repositories/BlockRows.antt =====
-- SqlBlockRepository of control_node/repositories/sql.py: the table of blocks, and the counts of
-- their stored replicas.
use dfsha_telematica.Prelude.{
  ℕ, String, Bool, false, ◌&&◌, Option, none, some, List, map, leb, ltb, keep, count_where, sorted,
  ◌==◌, string_eq,
}
use dfsha_telematica.Entities.{Block, BlockReplica, stored, replica_state_eq}
use dfsha_telematica.Session.{Exec, gets}
use dfsha_telematica.Database.{Database}

abbrev pub belongs_to : Option String → String → Bool
belongs_to none file_id = false
belongs_to (some id) file_id = id == file_id

abbrev pub of_file : String → Block → Bool
of_file file_id b = belongs_to b.file_id file_id

abbrev pub in_order : Block → Block → Bool
in_order a b = leb a.index b.index

abbrev pub blocks_of : String → List Block → List Block
blocks_of file_id rows = sorted in_order (keep (of_file file_id) rows)

abbrev pub list_for_file : String → Exec Database (List Block)
list_for_file file_id = gets (λ db. blocks_of file_id db.blocks)

abbrev pub is_stored_copy : String → BlockReplica → Bool
is_stored_copy block_id r = r.block_id == block_id && r.state == stored

-- `coalesce(copies, 0)` of the outer join.
abbrev pub copies : String → List BlockReplica → ℕ
copies block_id replicas = count_where (is_stored_copy block_id) replicas

abbrev pub below_quorum : ℕ → List BlockReplica → Block → Bool
below_quorum quorum replicas b = ltb (copies b.block_id replicas) quorum

abbrev pub ids_below : String → ℕ → Database → List String
ids_below file_id quorum db =
    map (λ (b : Block). b.block_id)
      (keep (below_quorum quorum db.replicas) (blocks_of file_id db.blocks))

abbrev pub blocks_below_quorum : String → ℕ → Exec Database (List String)
blocks_below_quorum file_id quorum = gets (ids_below file_id quorum)
