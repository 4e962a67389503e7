-- ===== src/Commands/Collecting.antt =====
-- control_node/commands/internal.py: what the data nodes and the collector tell. Log lines are not
-- modelled.
pub mod Orders
use dfsha_telematica.Prelude.{
  ℕ, zero, suc, ◌+◌, String, Bool, true, false, not, ◌&&◌, Option, none, some, List, [], ◌∷◌, map,
  ◌==◌, string_eq, if◌then◌else◌,
}
use dfsha_telematica.Prelude.Int.{ℤ, pos, negsuc}
use dfsha_telematica.Errors.{Result, ok, not_found}
use dfsha_telematica.Entities.{Block, BlockReplica, DataNode}
use dfsha_telematica.Session.{Exec, gets, pure, raise, lift, with_uow, commit, ◌>>=◌, ◌>>◌}
use dfsha_telematica.Database.{Database}
use dfsha_telematica.Repositories.DataNodeRows
use dfsha_telematica.Repositories.TaskRows
use dfsha_telematica.Repositories.BlockPlanRows
use dfsha_telematica.Commands.Copying.Handing.{complete_for_block}

abbrev pub known_node : Option DataNode → Exec Database (Unit {0})
known_node none = raise not_found
known_node (some n) = pure tt

abbrev pub known_copy : Bool → Exec Database (Unit {0})
known_copy true = pure tt
known_copy false = raise not_found

unfoldable pub mark_block_stored :
    String → String → ℕ → String → Database → Result (Unit {0}) × Database
mark_block_stored block_id data_node_id size checksum_sha256 = with_uow (do
  node ← DataNodeRows.get data_node_id
  known_node node
  marked ← BlockPlanRows.mark_stored block_id data_node_id checksum_sha256
  known_copy marked
  DataNodeRows.add_used_bytes data_node_id (pos size)
  closed ← complete_for_block block_id data_node_id
  commit)

-- The dict of the bytes that each node gives back; a key stands once, in the order of insertion.
abbrev pub give_back : String → ℕ → List (String × ℕ) → List (String × ℕ)
give_back node_id size [] = (node_id, size) ∷ []
give_back node_id size ((k, n) ∷ rest) =
    let later = give_back node_id size rest in
    if k == node_id then (k, n + size) ∷ rest else (k, n) ∷ later

abbrev pub freed_by : ℕ → List BlockReplica → List (String × ℕ) → List (String × ℕ)
freed_by size [] freed = freed
freed_by size (r ∷ rs) freed = freed_by size rs (give_back r.data_node_id size freed)

abbrev pub listed : String → List String → Bool
listed x ids = BlockPlanRows.one_of ids x

-- The keys of `list_replicas`: each block that has a replica, once, in the order of the rows.
abbrev pub keys_of : List String → List String → List BlockReplica → List String
keys_of block_ids seen [] = []
keys_of block_ids seen (r ∷ rs) =
    let rest = keys_of block_ids seen rs in
    let rest' = keys_of block_ids (r.block_id ∷ seen) rs in
    if listed r.block_id block_ids && not (listed r.block_id seen) then r.block_id ∷ rest' else rest

abbrev pub freed : Database → List String → List (String × ℕ) → List (String × ℕ)
freed db [] sums = sums
freed db (block_id ∷ ids) sums = freed db ids (
    freed_by (BlockPlanRows.total_size block_id db.blocks)
      (BlockPlanRows.replicas_of block_id db.replicas) sums)

abbrev pub minus : ℕ → ℤ
minus zero = pos 0
minus (suc n) = negsuc n

abbrev pub settle_nodes : List (String × ℕ) → Exec Database (Unit {0})
settle_nodes [] = pure tt
settle_nodes ((node_id, n) ∷ rest) = do
  DataNodeRows.add_used_bytes node_id (minus n)
  settle_nodes rest

abbrev pub confirm : List String → Exec Database ℕ
confirm block_ids = do
  sums ← gets (λ db. freed db (keys_of block_ids [] db.replicas) [])
  settle_nodes sums
  n ← BlockPlanRows.delete_blocks block_ids
  commit
  pure n

unfoldable pub confirm_gc : List String → Database → Result ℕ × Database
confirm_gc [] db = (ok 0, db)
confirm_gc (id ∷ ids) db = with_uow (confirm (id ∷ ids)) db

pub record GcDispatch : Type 0 where
  pub blocks : ℕ
  pub orders : ℕ
  pub skipped : ℕ

abbrev pub one_if : Option String → ℕ → ℕ
one_if none n = n
one_if (some task_id) n = n + 1

-- The inner loop; `new_id` gives the id of the task of a block on a node. It answers how many orders
-- it enqueued.
abbrev pub order_deletions :
    ℕ → ℕ → (String → String → String) → String → List BlockReplica → Exec Database ℕ
order_deletions now expires_at new_id block_id [] = pure 0
order_deletions now expires_at new_id block_id (r ∷ rs) = do
  task_id ←
      TaskRows.enqueue_delete (new_id block_id r.data_node_id) block_id r.data_node_id now
        expires_at
  n ← order_deletions now expires_at new_id block_id rs
  pure (one_if task_id n)

-- `not encolado_alguno and replicas`
abbrev pub skip_count : ℕ → List BlockReplica → ℕ
skip_count zero (r ∷ rs) = 1
skip_count _ _ = 0

abbrev pub counted : ℕ → List BlockReplica → GcDispatch → GcDispatch
counted n replicas g = record {
  blocks = g.blocks + 1;
  orders = g.orders + n;
  skipped = g.skipped + skip_count n replicas;
}

abbrev pub order_all :
    ℕ → ℕ → (String → String → String) → List (Block × List BlockReplica) → Exec Database GcDispatch
order_all now expires_at new_id [] = pure (record { blocks = 0; orders = 0; skipped = 0 })
order_all now expires_at new_id ((b, replicas) ∷ rest) = do
  n ← order_deletions now expires_at new_id b.block_id replicas
  g ← order_all now expires_at new_id rest
  pure (counted n replicas g)

abbrev pub order_found :
    ℕ → ℕ → (String → String → String) → List (Block × List BlockReplica) → Exec Database GcDispatch
order_found now expires_at new_id found = do
  g ← order_all now expires_at new_id found
  commit
  pure g

abbrev pub order_orphans : ℕ → ℕ → (String → String → String) → Exec Database GcDispatch
order_orphans now ttl new_id = do
  found ← BlockPlanRows.list_orphans now
  order_found now (now + ttl) new_id found

unfoldable pub dispatch_gc_deletions :
    ℕ → ℕ → (String → String → String) → Database → Result GcDispatch × Database
dispatch_gc_deletions now ttl new_id = with_uow (order_orphans now ttl new_id)
