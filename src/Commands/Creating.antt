-- ===== src/Commands/Creating.antt =====
-- control_node/commands/files.py: create_file. The clock is read once; `new_id` gives the id of the file
-- under 0 and that of the block of the n-th place under n + 1. The sizes are naturals, as the schemas of
-- common/dto.py demand.
pub mod Created
pub mod Kept
use dfsha_telematica.Prelude.{
  ℕ, ◌+◌, String, Bool, true, false, Option, none, some, List, [], ◌∷◌, ◌++◌, map, ◌==◌, nat_eq,
  if◌then◌else◌,
}
use dfsha_telematica.Prelude.Int.{pos}
use dfsha_telematica.Errors
use dfsha_telematica.Errors.{Result, ok, err, raise_if, invalid_path}
use dfsha_telematica.FilePath.{Text, FilePath, parse, is_root, parent, name}
use dfsha_telematica.Entities
use dfsha_telematica.Entities.{
  Directory, File, writing, file_state_eq, Block, BlockReplica, DataNode, peer_base_url,
}
use dfsha_telematica.Acl.{write}
use dfsha_telematica.Partition.{BlockSpec, plan_blocks}
use dfsha_telematica.Rules.{ensure_no_live_reservation}
use dfsha_telematica.Session.{Exec, pure, lift, with_uow, commit, when, ◌>>=◌, ◌>>◌}
use dfsha_telematica.Database.{Database}
use dfsha_telematica.Repositories.FileRows
use dfsha_telematica.Repositories.DirectoryRows
use dfsha_telematica.Repositories.BlockPlanRows
use dfsha_telematica.Reaching.{directory_for, is_some}
use dfsha_telematica.Commands.Namespace.{with_path, refuse, the_directory}

-- control_node/services/placement.py is an interface here: the nodes for the n-th block of a request,
-- of that size and so many copies. What it answers may depend on anything that the request does not
-- write.
pub record BlockPlacementPolicy : Type 0 where
  pub select : ℕ → ℕ → ℕ → Result (List DataNode)

pub record PlannedBlock : Type 0 where
  pub block_id : String
  pub index : ℕ
  pub size : ℕ
  pub replicas : List (String × String)
  pub pipeline : List String

pub record CreatedFile : Type 0 where
  pub file_id : String
  pub block_size : ℕ
  pub expires_at : ℕ
  pub blocks : List PlannedBlock

-- The three lists that the loop over the blocks builds.
pub record Planned : Type 0 where
  pub blocks : List Block
  pub replicas : List BlockReplica
  pub planned : List PlannedBlock

abbrev pub replica_on : String → ℕ → DataNode → BlockReplica
replica_on block_id now n = record {
  block_id = block_id;
  data_node_id = n.id;
  state = Entities.ReplicaState.pending;
  created_at = now;
}

-- `nodes[1:]`
abbrev pub all_but_first {ℓ} : {A : Type ℓ} → List A → List A
all_but_first [] = []
all_but_first (x ∷ xs) = xs

abbrev pub planned_block : String → ℕ → ℕ → List DataNode → PlannedBlock
planned_block block_id index size nodes = record {
  block_id = block_id;
  index = index;
  size = size;
  replicas = map (λ (n : DataNode). (n.id, n.advertise_url)) nodes;
  pipeline = map peer_base_url (all_but_first nodes);
}

abbrev pub new_block : Option String → String → ℕ → ℕ → Block
new_block file_id block_id index size = record {
  block_id = block_id;
  file_id = file_id;
  index = index;
  size = size;
  checksum_sha256 = none;
}

abbrev pub with_block : Option String → String → ℕ → ℕ → ℕ → List DataNode → Planned → Planned
with_block file_id block_id index size now nodes p = record {
  blocks = new_block file_id block_id index size ∷ p.blocks;
  replicas = map (replica_on block_id now) nodes ++ p.replicas;
  planned = planned_block block_id index size nodes ∷ p.planned;
}

-- The loop over the blocks: of a new file, and of what is appended to one, whose blocks belong to no
-- file yet and are counted from `first` on. `call` counts the calls of the policy.
unfoldable pub plan_each :
    BlockPlacementPolicy
    → ℕ
    → ℕ
    → ℕ
    → (ℕ → String)
    → Option String
    → ℕ
    → ℕ
    → List BlockSpec
    → Result Planned
plan_each placement replication_factor overhead now new_id file_id first call [] =
    ok (record { blocks = []; replicas = []; planned = [] })
plan_each placement replication_factor overhead now new_id file_id first call (b ∷ bs) =
    Errors.and_then
      (λ nodes.
        Errors.and_then
          (λ rest. ok (
            with_block file_id (new_id (call + 1)) (first + b.index) (b.size + overhead) now nodes
              rest))
          (plan_each placement replication_factor overhead now new_id file_id first (call + 1) bs))
      (placement.select call (b.size + overhead) replication_factor)

abbrev pub reservation : String → String → Text → String → ℕ → ℕ → ℕ → ℕ → File
reservation file_id directory_id n owner_id size block_size now ttl = record {
  id = file_id;
  directory_id = directory_id;
  name = n;
  owner_id = owner_id;
  size = size;
  block_size = block_size;
  state = writing;
  created_at = now;
  committed_at = none;
  expires_at = some (now + ttl);
  deleted_at = none;
  wrapped_key = "";
  key_algo = "";
}

-- A reservation that has expired is closed.
abbrev pub close_expired : Option File → ℕ → Exec Database (Unit {0})
close_expired none now = pure tt
close_expired (some f) now = when (f.state == writing) (FileRows.mark_deleted f.id now)

-- `block_size or default_block_size`
abbrev pub effective_size : Option ℕ → ℕ → ℕ
effective_size none default_block_size = default_block_size
effective_size (some n) default_block_size = if n == 0 then default_block_size else n

pub record Creation : Type 0 where
  pub owner_id : String
  pub size : ℕ
  pub block_size : ℕ
  pub ttl : ℕ
  pub replication_factor : ℕ
  pub cipher_overhead : ℕ
  pub now : ℕ

abbrev pub reserve :
    BlockPlacementPolicy → Creation → (ℕ → String) → Directory → Text → Exec Database CreatedFile
reserve placement c new_id up n = do
  FileRows.add (reservation (new_id 0) up.id n c.owner_id c.size c.block_size c.now c.ttl)
  specs ← lift (plan_blocks (pos c.size) (pos c.block_size))
  plan ← lift (
      plan_each placement c.replication_factor c.cipher_overhead c.now new_id (some (new_id 0)) 0 0
        specs)
  BlockPlanRows.add_plan plan.blocks plan.replicas
  commit
  pure (record {
    file_id = new_id 0;
    block_size = c.block_size;
    expires_at = c.now + c.ttl;
    blocks = plan.planned;
  })

abbrev pub create_under :
    BlockPlacementPolicy → Creation → (ℕ → String) → Directory → Text → Exec Database CreatedFile
create_under placement c new_id up n = do
  existing ← FileRows.get_live_by_name up.id n
  lift (ensure_no_live_reservation existing c.now)
  close_expired existing c.now
  taken ← DirectoryRows.get_child up.id n
  lift (raise_if (is_some taken) invalid_path)
  reserve placement c new_id up n

abbrev pub create_in :
    BlockPlacementPolicy → Creation → (ℕ → String) → FilePath → Exec Database CreatedFile
create_in placement c new_id path = do
  found ← directory_for c.owner_id (parent path) write
  up ← the_directory found.directory
  n ← lift (name path)
  create_under placement c new_id up n

abbrev pub creation_of : String → ℕ → ℕ → ℕ → Option ℕ → ℕ → ℕ → ℕ → Creation
creation_of owner_id size default_block_size ttl block_size replication_factor cipher_overhead now =
    record {
      owner_id = owner_id;
      size = size;
      block_size = effective_size block_size default_block_size;
      ttl = ttl;
      replication_factor = replication_factor;
      cipher_overhead = cipher_overhead;
      now = now;
    }

abbrev pub create_at :
    BlockPlacementPolicy
    → Creation
    → (ℕ → String)
    → FilePath
    → Database
    → Result CreatedFile × Database
create_at placement c new_id path =
    if is_root path then refuse invalid_path else with_uow (create_in placement c new_id path)

unfoldable pub create_file :
    BlockPlacementPolicy
    → String
    → Text
    → ℕ
    → ℕ
    → ℕ
    → Option ℕ
    → ℕ
    → ℕ
    → ℕ
    → (ℕ → String)
    → Database
    → Result CreatedFile × Database
create_file placement owner_id raw_path size default_block_size ttl block_size replication_factor
      cipher_overhead now new_id =
    with_path (parse raw_path none) (
      create_at placement
        (creation_of owner_id size default_block_size ttl block_size replication_factor
          cipher_overhead now)
        new_id)
