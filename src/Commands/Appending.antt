-- ===== src/Commands/Appending.antt =====
-- control_node/commands/files.py: append_to_file and commit_append. The clock is read once in each; the
-- sizes are naturals, as the schemas of common/dto.py demand. Log lines are not modelled.
pub mod Writable
pub mod Committed
use dfsha_telematica.Prelude.{
  ℕ, ◌+◌, ◌-◌, String, Bool, true, false, not, ◌&&◌, Option, none, some, List, [], ◌∷◌, ◌++◌, map,
  length, keep, ltb, find_first, any_of, ◌==◌, nat_eq, string_eq, if◌then◌else◌,
}
use dfsha_telematica.Prelude.Int.{pos}
use dfsha_telematica.Errors.{
  Result, ok, err, raise_if, not_found, invalid_state, blocks_not_stored, runtime_error,
}
use dfsha_telematica.FilePath.{Text}
use dfsha_telematica.Entities.{
  Directory, File, committed, file_state_eq, Block, BlockReplica, stored, replica_state_eq,
  DataNode,
}
use dfsha_telematica.Acl.{write}
use dfsha_telematica.FileLock.{LockFencing}
use dfsha_telematica.Partition.{plan_blocks}
use dfsha_telematica.Rules.{is_nil}
use dfsha_telematica.Session.{Exec, gets, pure, raise, lift, with_uow, commit, when, ◌>>=◌, ◌>>◌}
use dfsha_telematica.Database.{Database}
use dfsha_telematica.Repositories.FileRows
use dfsha_telematica.Repositories.DirectoryRows
use dfsha_telematica.Repositories.BlockRows
use dfsha_telematica.Repositories.BlockPlanRows
use dfsha_telematica.Permissions.{require}
use dfsha_telematica.Commands.Locking.{require_lock}
use dfsha_telematica.Commands.Namespace.{refuse, parent_or_fail}
use dfsha_telematica.Commands.Writing.{CommittedFile}
use dfsha_telematica.Commands.Creating.{BlockPlacementPolicy, PlannedBlock, Planned, plan_each}

pub record ReadBlock : Type 0 where
  pub block_id : String
  pub index : ℕ
  pub size : ℕ
  pub checksum_sha256 : String
  pub replicas : List (String × String)

pub record AppendPlan : Type 0 where
  pub file_id : String
  pub block_size : ℕ
  pub tail : Option ReadBlock
  pub tail_plain_size : ℕ
  pub replaces : String
  pub blocks : List PlannedBlock
  pub expires_at : ℕ

abbrev pub committed_file : Option File → Exec Database File
committed_file none = raise not_found
committed_file (some f) = if not (f.state == committed) then raise not_found else pure f

-- What both commands check: a visible file, WRITE on its directory, and the lock of the file.
unfoldable pub writable_file : String → String → Option LockFencing → ℕ → Exec Database File
writable_file owner_id file_id fencing now = do
  found ← FileRows.get file_id
  f ← committed_file found
  directory ← DirectoryRows.get f.directory_id
  d ← parent_or_fail directory
  access ← require owner_id d write
  require_lock file_id fencing now
  pure f

abbrev pub last_block : List Block → Option Block
last_block [] = none
last_block (b ∷ []) = some b
last_block (b ∷ c ∷ bs) = last_block (c ∷ bs)

-- The last block, if it is not full. Its clear size is what is stored less the overhead, which is less
-- than zero only for a block that no file of that overhead has.
abbrev pub tail_of : ℕ → ℕ → Option Block → Option Block
tail_of block_size overhead none = none
tail_of block_size overhead (some b) = if ltb b.size (block_size + overhead) then some b else none

abbrev pub tail_size : ℕ → Option Block → ℕ
tail_size overhead none = 0
tail_size overhead (some b) = b.size - overhead

abbrev pub first_index : List Block → Option Block → ℕ
first_index blocks none = length blocks
first_index blocks (some b) = b.index

abbrev pub tail_id : Option Block → String
tail_id none = ""
tail_id (some b) = b.block_id

abbrev pub or_empty : Option String → String
or_empty none = ""
or_empty (some s) = s

abbrev pub url_of : List DataNode → BlockReplica → List (String × String)
url_of nodes r = elim (find_first (λ (n : DataNode). n.id == r.data_node_id) nodes) [
  | none ↦ []
  | some n ↦ (r.data_node_id, n.advertise_url) ∷ []
]

abbrev pub urls_of : List DataNode → List BlockReplica → List (String × String)
urls_of nodes [] = []
urls_of nodes (r ∷ rs) = url_of nodes r ++ urls_of nodes rs

abbrev pub stored_copies : String → List BlockReplica → List BlockReplica
stored_copies block_id rows =
    keep (λ (r : BlockReplica). r.state == stored) (BlockPlanRows.replicas_of block_id rows)

abbrev pub read_block : List DataNode → List BlockReplica → Block → ReadBlock
read_block nodes copies b = record {
  block_id = b.block_id;
  index = b.index;
  size = b.size;
  checksum_sha256 = or_empty b.checksum_sha256;
  replicas = urls_of nodes copies;
}

abbrev pub read_copies : Block → List BlockReplica → Exec Database (Option ReadBlock)
read_copies b [] = raise not_found
read_copies b (r ∷ rs) = gets (λ db. some (read_block db.data_nodes (r ∷ rs) b))

abbrev pub read_tail : Option Block → Exec Database (Option ReadBlock)
read_tail none = pure none
read_tail (some b) = do
  copies ← gets (λ db. stored_copies b.block_id db.replicas)
  read_copies b copies

pub record Addition : Type 0 where
  pub file_id : String
  pub added_size : ℕ
  pub ttl : ℕ
  pub replication_factor : ℕ
  pub cipher_overhead : ℕ
  pub now : ℕ

abbrev pub plan_append :
    BlockPlacementPolicy
    → Addition
    → (ℕ → String)
    → File
    → List Block
    → Option Block
    → Exec Database AppendPlan
plan_append placement a new_id f blocks tail = do
  specs ←
      lift (plan_blocks (pos (tail_size a.cipher_overhead tail + a.added_size)) (pos f.block_size))
  plan ← lift (
      plan_each placement a.replication_factor a.cipher_overhead a.now new_id none
        (first_index blocks tail) 0 specs)
  BlockPlanRows.add_plan plan.blocks plan.replicas
  commit
  reading ← read_tail tail
  pure (record {
    file_id = a.file_id;
    block_size = f.block_size;
    tail = reading;
    tail_plain_size = tail_size a.cipher_overhead tail;
    replaces = tail_id tail;
    blocks = plan.planned;
    expires_at = a.now + a.ttl;
  })

abbrev pub append_in :
    BlockPlacementPolicy
    → String
    → Addition
    → Option LockFencing
    → (ℕ → String)
    → Exec Database AppendPlan
append_in placement owner_id a fencing new_id = do
  f ← writable_file owner_id a.file_id fencing a.now
  blocks ← BlockRows.list_for_file a.file_id
  plan_append placement a new_id f blocks
      (tail_of f.block_size a.cipher_overhead (last_block blocks))

unfoldable pub append_to_file :
    BlockPlacementPolicy
    → String
    → Addition
    → Option LockFencing
    → (ℕ → String)
    → Database
    → Result AppendPlan × Database
append_to_file placement owner_id a fencing new_id =
    if a.added_size == 0
    then refuse invalid_state
    else with_uow (append_in placement owner_id a fencing new_id)

abbrev pub same_place : Block → Block → Bool
same_place b c = elim b.file_id [
  | none ↦ false
  | some f ↦ BlockRows.belongs_to c.file_id f && b.index == c.index
]

-- `uq_blocks_file_index`: two blocks of one file have two indices.
abbrev pub places_differ : List Block → Bool
places_differ [] = true
places_differ (b ∷ bs) = let rest = places_differ bs in not (any_of (same_place b) bs) && rest

-- The constraint of the table is checked by the statement, which fails with the session.
abbrev pub attach : List String → String → Exec Database (Unit {0})
attach block_ids file_id = do
  BlockPlanRows.attach block_ids file_id
  differ ← gets (λ db. places_differ db.blocks)
  if differ then pure tt else raise runtime_error

abbrev pub write_append : String → List String → ℕ → String → Exec Database (Unit {0})
write_append file_id block_ids new_size replaces = do
  when (not (replaces == "")) (BlockPlanRows.detach replaces)
  attach block_ids file_id
  FileRows.set_size file_id new_size
  commit

abbrev pub appended : String → List String → ℕ → String → File → Exec Database CommittedFile
appended file_id block_ids new_size replaces f = do
  write_append file_id block_ids new_size replaces
  blocks ← BlockRows.list_for_file file_id
  pure (record { path = f.name; size = new_size; block_count = length blocks })

abbrev pub append_commit :
    String
    → String
    → List String
    → ℕ
    → String
    → ℕ
    → Option LockFencing
    → ℕ
    → Exec Database CommittedFile
append_commit owner_id file_id block_ids new_size replaces write_quorum fencing now = do
  f ← writable_file owner_id file_id fencing now
  below ← BlockPlanRows.ids_below_quorum block_ids write_quorum
  lift (raise_if (not (is_nil below)) blocks_not_stored)
  appended file_id block_ids new_size replaces f

unfoldable pub commit_append :
    String
    → String
    → List String
    → ℕ
    → String
    → ℕ
    → Option LockFencing
    → ℕ
    → Database
    → Result CommittedFile × Database
commit_append owner_id file_id block_ids new_size replaces write_quorum fencing now =
    with_uow (append_commit owner_id file_id block_ids new_size replaces write_quorum fencing now)
