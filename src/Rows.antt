-- ===== src/Rows.antt =====
-- control_node/repositories/models.py: the rows that have no entity of their own in
-- control_node/domain/entities.py. The columns `last_error` and `created_at` of groups, which
-- nothing reads, are left out.
use dfsha_telematica.Prelude.{ℕ, String, ◌≡◌, ◌↔◌, Bool, true, false, Option, arith, Eq}
use dfsha_telematica.FilePath.{Text}
use dfsha_telematica.Acl.{PrincipalType, Permission}

pub record Group : Type 0 where
  pub id : String
  pub name : Text
  pub owner_id : String

-- The unique key is the directory and the principal.
pub record AclRow : Type 0 where
  pub directory_id : String
  pub principal_type : PrincipalType
  pub principal_id : String
  pub permission : Permission
  pub granted_by : String
  pub granted_at : ℕ

pub data TaskKind : Type 0 where
  replicate delete : TaskKind

pub data TaskState : Type 0 where
  pending in_flight done failed : TaskState

abbrev pub task_kind_beq : TaskKind → TaskKind → Bool
task_kind_beq replicate replicate = true
task_kind_beq delete delete = true
task_kind_beq _ _ = false

pub task_kind_beq_iff : (a b : TaskKind) → (task_kind_beq a b ≡ true) ↔ (a ≡ b)
task_kind_beq_iff a b = ground arith

instance abbrev pub task_kind_eq : Eq TaskKind
task_kind_eq = record { test = task_kind_beq; test_iff = task_kind_beq_iff }

abbrev pub task_state_beq : TaskState → TaskState → Bool
task_state_beq pending pending = true
task_state_beq in_flight in_flight = true
task_state_beq done done = true
task_state_beq failed failed = true
task_state_beq _ _ = false

pub task_state_beq_iff : (a b : TaskState) → (task_state_beq a b ≡ true) ↔ (a ≡ b)
task_state_beq_iff a b = ground arith

instance abbrev pub task_state_eq : Eq TaskState
task_state_eq = record { test = task_state_beq; test_iff = task_state_beq_iff }

pub record Task : Type 0 where
  pub id : String
  pub block_id : String
  pub kind : TaskKind
  pub state : TaskState
  pub source_node_id : Option String
  pub target_node_id : Option String
  pub replicas_at_schedule : ℕ
  pub created_at : ℕ
  pub dispatched_at : Option ℕ
  pub sent_at : Option ℕ
  pub expires_at : Option ℕ
  pub attempts : ℕ
