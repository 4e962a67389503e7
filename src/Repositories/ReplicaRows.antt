-- ===== src/Repositories/ReplicaRows.antt =====
-- SqlBlockRepository of control_node/repositories/sql.py: the table of block replicas, whose primary
-- key is the block and the node.
use dfsha_telematica.Prelude.{
  ℕ, String, Bool, true, false, not, ◌&&◌, Option, none, some, List, [], ◌∷◌, ◌++◌, map, keep,
  any_of, update_where, count_where, ◌==◌, string_eq, if◌then◌else◌,
}
use dfsha_telematica.Entities.{ReplicaState, pending, replica_state_eq, BlockReplica}
use dfsha_telematica.Divergence.{is_in, is_empty}
use dfsha_telematica.Session.{Exec, gets, state}
use dfsha_telematica.Database.{Database}

abbrev pub of_key : String → String → BlockReplica → Bool
of_key block_id data_node_id r = r.block_id == block_id && r.data_node_id == data_node_id

abbrev pub in_states : List ReplicaState → BlockReplica → Bool
in_states states r = any_of (λ s. r.state == s) states

abbrev pub put_state : ReplicaState → BlockReplica → BlockReplica
put_state new r = record r { state = new }

abbrev pub add_replica : String → String → ReplicaState → ℕ → Exec Database Bool
add_replica block_id data_node_id new now = state λ db.
    if any_of (of_key block_id data_node_id) db.replicas then (false, db) else (
      true,
      record db {
        replicas =
            db.replicas
            ++ record {
              block_id = block_id;
              data_node_id = data_node_id;
              state = new;
              created_at = now;
            }
              ∷ [];
      },
    )

abbrev pub drop_replica : String → String → Exec Database Bool
drop_replica block_id data_node_id = state λ db.
    let planned = λ (r : BlockReplica). of_key block_id data_node_id r && r.state == pending in
    (any_of planned db.replicas, record db { replicas = keep (λ r. not (planned r)) db.replicas })

abbrev pub on_node : String → List ReplicaState → BlockReplica → Bool
on_node data_node_id states r = r.data_node_id == data_node_id && in_states states r

abbrev pub ids_on_node : String → List ReplicaState → List BlockReplica → List String
ids_on_node data_node_id states rows =
    map (λ (r : BlockReplica). r.block_id) (keep (on_node data_node_id states) rows)

abbrev pub list_block_ids_on_node : String → List ReplicaState → Exec Database (List String)
list_block_ids_on_node data_node_id states =
    gets (λ db. ids_on_node data_node_id states db.replicas)

abbrev pub reported_on : List String → String → BlockReplica → Bool
reported_on block_ids data_node_id r = is_in block_ids r.block_id && r.data_node_id == data_node_id

abbrev pub states_set : List String → String → ReplicaState → List BlockReplica → List BlockReplica
states_set block_ids data_node_id new rows =
    update_where (reported_on block_ids data_node_id) (put_state new) rows

abbrev pub set_replicas_state : List String → String → ReplicaState → Exec Database ℕ
set_replicas_state block_ids data_node_id new = state λ db.
    if is_empty block_ids then (0, db) else (
      count_where (reported_on block_ids data_node_id) db.replicas,
      record db { replicas = states_set block_ids data_node_id new db.replicas },
    )

-- The condition of `mark_node_replicas`: without `only_from`, every replica of the node.
abbrev pub to_mark : String → Option (List ReplicaState) → BlockReplica → Bool
to_mark data_node_id none r = r.data_node_id == data_node_id
to_mark data_node_id (some only_from) r = on_node data_node_id only_from r

abbrev pub marked :
    String → ReplicaState → Option (List ReplicaState) → List BlockReplica → List BlockReplica
marked data_node_id new only_from rows =
    update_where (to_mark data_node_id only_from) (put_state new) rows

abbrev pub mark_node_replicas : String → ReplicaState → Option (List ReplicaState) → Exec Database ℕ
mark_node_replicas data_node_id new only_from = state λ db. (
  count_where (to_mark data_node_id only_from) db.replicas,
  record db { replicas = marked data_node_id new only_from db.replicas },
)
