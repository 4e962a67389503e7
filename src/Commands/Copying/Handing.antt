-- ===== src/Commands/Copying/Handing.antt =====
-- `complete_for_block` and `pending_orders` of control_node/commands/rereplication.py. Log lines, and the
-- text of the reason of a deletion, are not modelled.
use dfsha_telematica.Prelude.{
  ℕ, String, Bool, Option, none, some, List, [], ◌∷◌, ◌++◌, map, ltb, find_first, ◌==◌, nat_eq,
  string_eq, if◌then◌else◌,
}
use dfsha_telematica.Entities.{replica_state_eq, node_state_eq, Block, DataNode, peer_base_url}
use dfsha_telematica.Rows.{Task, delete, task_kind_eq}
use dfsha_telematica.Session.{Exec, gets, pure, ◌>>=◌, ◌>>◌}
use dfsha_telematica.Database.{Database}
use dfsha_telematica.Repositories.TaskRows
use dfsha_telematica.Repositories.TaskRows.{ExpiredTasks}

pub record ReplicationOrder : Type 0 where
  pub task_id : String
  pub block_id : String
  pub source_base_url : String
  pub source_node_id : String
  pub size : ℕ
  pub checksum_sha256 : String
  pub block_token : String

pub record DeleteOrder : Type 0 where
  pub task_id : String
  pub block_id : String

pub record PendingOrders : Type 0 where
  pub replicate : List ReplicationOrder
  pub delete : List DeleteOrder

-- Called inside the open unit of work of the caller.
unfoldable pub complete_for_block : String → String → Exec Database Bool
complete_for_block block_id data_node_id = do
  n ← TaskRows.complete block_id data_node_id
  pure (ltb 0 n)

abbrev pub or_empty : Option String → String
or_empty none = ""
or_empty (some s) = s

-- `signer.issue(block_id, "read", ...)`, if there is a signer.
abbrev pub issued : Option (String → String) → String → String
issued none block_id = ""
issued (some issue) block_id = issue block_id

abbrev pub copy_order :
    Option (String → String) → Task → Option DataNode → Option Block → List ReplicationOrder
copy_order signer t (some source) (some b) =
    record {
      task_id = t.id;
      block_id = t.block_id;
      source_base_url = peer_base_url source;
      source_node_id = source.id;
      size = b.size;
      checksum_sha256 = or_empty b.checksum_sha256;
      block_token = issued signer t.block_id;
    }
    ∷ []
copy_order signer t _ _ = []

abbrev pub delete_order : Task → DeleteOrder
delete_order t = record { task_id = t.id; block_id = t.block_id }

abbrev pub with_orders : List ReplicationOrder → List DeleteOrder → PendingOrders → PendingOrders
with_orders copies deletions p = record {
  replicate = copies ++ p.replicate;
  delete = deletions ++ p.delete;
}

abbrev pub order_of :
    Option (String → String) → List DataNode → List Block → Task → PendingOrders → PendingOrders
order_of signer nodes blocks t p =
    if t.kind == delete
    then with_orders [] (delete_order t ∷ []) p
    else with_orders
        (copy_order signer t
          (find_first (λ (n : DataNode). n.id == or_empty t.source_node_id) nodes)
          (find_first (λ (b : Block). b.block_id == t.block_id) blocks))
        [] p

abbrev pub orders_of :
    Option (String → String) → List DataNode → List Block → List Task → PendingOrders
orders_of signer nodes blocks [] = record { replicate = []; delete = [] }
orders_of signer nodes blocks (t ∷ ts) =
    order_of signer nodes blocks t (orders_of signer nodes blocks ts)

abbrev pub hand_over : Option (String → String) → ℕ → List Task → Exec Database PendingOrders
hand_over signer now [] = pure (record { replicate = []; delete = [] })
hand_over signer now (t ∷ ts) = do
  orders ← gets (λ db. orders_of signer db.data_nodes db.blocks (t ∷ ts))
  TaskRows.mark_sent (map (λ (u : Task). u.id) (t ∷ ts)) now
  pure orders

-- The orders for a node, marked as sent; the caller commits.
unfoldable pub pending_orders :
    String → ℕ → ℕ → Option (String → String) → Exec Database PendingOrders
pending_orders data_node_id resend_after now signer = do
  tasks ← TaskRows.orders_for data_node_id now resend_after
  hand_over signer now tasks
