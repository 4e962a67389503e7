-- ===== src/Repositories/TaskRows.antt =====
-- SqlRereplicationRepository of control_node/repositories/sql.py: the queue of orders to the data nodes.
-- The id of a new task is an argument.
pub mod OneActive
use dfsha_telematica.Prelude.{
  ℕ, ◌+◌, String, Bool, true, false, not, ◌&&◌, ◌||◌, Option, none, some, List, [], ◌∷◌, ◌++◌, map,
  leb, ltb, keep, any_of, count_where, find_first, update_where, sorted, str_leb, ◌==◌, nat_eq,
  string_eq, if◌then◌else◌,
}
use dfsha_telematica.Entities.{
  File, committed, file_state_eq, Block, BlockReplica, ReplicaState, DataNode,
}
use dfsha_telematica.Rows.{
  Task, TaskKind, TaskState, replicate, delete, pending, in_flight, done, failed, task_kind_eq,
  task_state_eq,
}
use dfsha_telematica.Rereplication.{take_off}
use dfsha_telematica.Session.{Exec, gets, modify, state}
use dfsha_telematica.Database.{Database}
use dfsha_telematica.Repositories.BlockRows.{copies}

abbrev pub is_alive_state : TaskState → Bool
is_alive_state s = s == pending || s == in_flight

-- The states of the partial unique index.
abbrev pub is_active : Task → Bool
is_active t = is_alive_state t.state

abbrev pub active_for : String → Task → Bool
active_for block_id t = t.block_id == block_id && is_active t

abbrev pub has_active : String → List Task → Bool
has_active block_id tasks = any_of (active_for block_id) tasks

abbrev pub has_active_task : String → Exec Database Bool
has_active_task block_id = gets (λ db. has_active block_id db.tasks)

abbrev pub add_unless_active : Task → Exec Database (Option String)
add_unless_active t = state λ db.
    if has_active t.block_id db.tasks
    then (none, db)
    else (some t.id, record db { tasks = db.tasks ++ t ∷ [] })

abbrev pub deletion : String → String → String → ℕ → ℕ → Task
deletion task_id block_id target_node_id now expires_at = record {
  id = task_id;
  block_id = block_id;
  kind = delete;
  state = in_flight;
  source_node_id = none;
  target_node_id = some target_node_id;
  replicas_at_schedule = 0;
  created_at = now;
  dispatched_at = some now;
  sent_at = none;
  expires_at = some expires_at;
  attempts = 1;
}

abbrev pub enqueue_delete : String → String → String → ℕ → ℕ → Exec Database (Option String)
enqueue_delete task_id block_id target_node_id now expires_at =
    add_unless_active (deletion task_id block_id target_node_id now expires_at)

abbrev pub copy_task : String → String → ℕ → ℕ → Task
copy_task task_id block_id replicas_now now = record {
  id = task_id;
  block_id = block_id;
  kind = replicate;
  state = pending;
  source_node_id = none;
  target_node_id = none;
  replicas_at_schedule = replicas_now;
  created_at = now;
  dispatched_at = none;
  sent_at = none;
  expires_at = none;
  attempts = 0;
}

abbrev pub enqueue : String → String → ℕ → ℕ → Exec Database (Option String)
enqueue task_id block_id replicas_now now =
    add_unless_active (copy_task task_id block_id replicas_now now)

abbrev pub is_pending_copy : Task → Bool
is_pending_copy t = t.state == pending && t.kind == replicate

abbrev pub scheduled_before : Task → Task → Bool
scheduled_before t u =
    ltb t.replicas_at_schedule u.replicas_at_schedule
    || (t.replicas_at_schedule == u.replicas_at_schedule && str_leb t.block_id u.block_id)

abbrev pub pending_copies : List Task → List Task
pending_copies tasks = sorted scheduled_before (keep is_pending_copy tasks)

abbrev pub list_pending : Exec Database (List Task)
list_pending = gets (λ db. pending_copies db.tasks)

abbrev pub count_target : TaskState → Option String → List (String × ℕ) → List (String × ℕ)
count_target in_flight (some node_id) counts = take_off node_id counts
count_target _ _ counts = counts

abbrev pub targets_in_flight : List Task → List (String × ℕ)
targets_in_flight [] = []
targets_in_flight (t ∷ ts) = count_target t.state t.target_node_id (targets_in_flight ts)

abbrev pub in_flight_by_target : Exec Database (List (String × ℕ))
in_flight_by_target = gets (λ db. targets_in_flight db.tasks)

abbrev pub has_id : String → Task → Bool
has_id task_id t = t.id == task_id

abbrev pub update_tasks : (Task → Bool) → (Task → Task) → Database → Database
update_tasks p f db = record db { tasks = update_where p f db.tasks }

abbrev pub sent_off : String → String → ℕ → ℕ → Task → Task
sent_off source_node_id target_node_id now expires_at t = record t {
  state = in_flight;
  source_node_id = some source_node_id;
  target_node_id = some target_node_id;
  dispatched_at = some now;
  expires_at = some expires_at;
  attempts = t.attempts + 1;
}

abbrev pub dispatch : String → String → String → ℕ → ℕ → Exec Database (Unit {0})
dispatch task_id source_node_id target_node_id now expires_at =
    modify (update_tasks (has_id task_id) (sent_off source_node_id target_node_id now expires_at))

-- What the loop of the dispatch writes on a task that has nothing left to copy.
abbrev pub closed : Task → Task
closed t = record t { state = done }

abbrev pub close : String → Exec Database (Unit {0})
close task_id = modify (update_tasks (has_id task_id) closed)

-- `sent_at IS NULL OR sent_at < now - resend_after`
abbrev pub is_to_send : Option ℕ → ℕ → ℕ → Bool
is_to_send none now resend_after = true
is_to_send (some t) now resend_after = ltb (t + resend_after) now

abbrev pub names_node : Option String → String → Bool
names_node none node_id = false
names_node (some n) node_id = n == node_id

abbrev pub is_order_for : String → ℕ → ℕ → Task → Bool
is_order_for target_node_id now resend_after t =
    names_node t.target_node_id target_node_id
    && t.state == in_flight
    && is_to_send t.sent_at now resend_after

abbrev pub orders_for : String → ℕ → ℕ → Exec Database (List Task)
orders_for target_node_id now resend_after =
    gets (λ db. keep (is_order_for target_node_id now resend_after) db.tasks)

abbrev pub one_of : List String → String → Bool
one_of ids x = any_of (λ i. i == x) ids

abbrev pub sent : ℕ → Task → Task
sent now t = record t { sent_at = some now }

abbrev pub mark_sent : List String → ℕ → Exec Database (Unit {0})
mark_sent task_ids now = modify (update_tasks (λ (t : Task). one_of task_ids t.id) (sent now))

abbrev pub is_confirmed : String → String → Task → Bool
is_confirmed block_id target_node_id t =
    t.block_id == block_id && names_node t.target_node_id target_node_id && t.state == in_flight

abbrev pub confirmed : Task → Task
confirmed t = record t { state = done; expires_at = none }

abbrev pub complete : String → String → Exec Database ℕ
complete block_id target_node_id = state λ db. (
  count_where (is_confirmed block_id target_node_id) db.tasks,
  update_tasks (is_confirmed block_id target_node_id) confirmed db,
)

pub record ExpiredTasks : Type 0 where
  pub requeued : ℕ
  pub gave_up : ℕ
  pub abandoned_targets : List (String × String)

abbrev pub is_past : Option ℕ → ℕ → Bool
is_past none now = false
is_past (some t) now = ltb t now

abbrev pub is_stale : ℕ → Task → Bool
is_stale now t = t.state == in_flight && is_past t.expires_at now

abbrev pub is_spent : ℕ → Task → Bool
is_spent max_attempts t = leb max_attempts t.attempts

abbrev pub expired : ℕ → Task → Task
expired max_attempts t = if is_spent max_attempts t then record t { state = failed } else record t {
  state = pending;
  target_node_id = none;
  source_node_id = none;
  sent_at = none;
  expires_at = none;
}

-- `if tarea.target_node_id:`
abbrev pub target_pair : Task → Option String → List (String × String)
target_pair t none = []
target_pair t (some node_id) = if node_id == "" then [] else (t.block_id, node_id) ∷ []

abbrev pub abandoned : ℕ → List Task → List (String × String)
abandoned now [] = []
abandoned now (t ∷ ts) =
    let rest = abandoned now ts in
    if is_stale now t then target_pair t t.target_node_id ++ rest else rest

abbrev pub expiry : ℕ → ℕ → List Task → ExpiredTasks
expiry now max_attempts tasks = record {
  requeued = count_where (λ t. is_stale now t && not (is_spent max_attempts t)) tasks;
  gave_up = count_where (λ t. is_stale now t && is_spent max_attempts t) tasks;
  abandoned_targets = abandoned now tasks;
}

abbrev pub expire_stale : ℕ → ℕ → Exec Database ExpiredTasks
expire_stale now max_attempts =
    state λ db.
      (expiry now max_attempts db.tasks, update_tasks (is_stale now) (expired max_attempts) db)
