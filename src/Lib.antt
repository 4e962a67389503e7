-- ===== src/Lib.antt =====
-- DFSha, a distributed file system: the core of its ControlNode.
--
-- The ControlNode keeps the metadata of the system in a relational database: the directories and
-- files of the users, the blocks of each file and their replicas, the DataNodes that store them, the
-- permissions, the lease of the leader among several ControlNodes, and the locks on files. Its domain
-- modules (src/dfsha/control_node/domain) are pure functions with the clock as an argument. Its
-- commands (control_node/commands) read rows through the repositories (control_node/repositories),
-- ask the domain, write, and commit, inside of one unit of work each.
--
-- The parts and where they are modelled:
--   FilePath       control_node/domain/path.py: `Path.parse`, `child`, `is_ancestor_of` and the rest
--   Entities       control_node/domain/entities.py: the records and enumerations
--   Rules          control_node/domain/rules.py: the rules of the namespace and of reservations
--   Partition      control_node/domain/partition.py: `plan_blocks`, `block_count_for`, `plan_range`
--   Leadership     control_node/domain/leadership.py: the lease and `decide`
--   FileLock       control_node/domain/filelock.py: the locks and `can_acquire`
--   Acl            control_node/domain/acl.py: `resolve`
--   Membership     control_node/domain/membership.py: `state_for`, `evaluate`, `classify_rejoin`
--   Divergence     control_node/domain/divergence.py: `compare`
--   Rereplication  control_node/domain/rereplication.py: `prioritise`, `assign_targets`
--   Session        the unit of work of control_node/repositories/sql.py
--   Database       the tables, as lists of rows; Rows has the rows that have no entity of their own
--   Repositories   the queries and statements of control_node/repositories/sql.py on those tables
--   Resolver       control_node/services/resolver.py: from paths to rows
--   Permissions    control_node/services/permissions.py: the check that authorises each command
--   Shared         control_node/services/shared.py: where the walk of a path starts
--   Reaching       control_node/services/access.py: from paths to rows that the user may reach
--   Commands       control_node/commands: Leading for leadership.py, Locking for filelock.py,
--                  Registering and ControlPlane for control_plane.py, Writing (commit and abort),
--                  Creating and Appending for files.py, Namespace for namespace.py, Sharing for acl.py,
--                  Copying for rereplication.py, Collecting for internal.py
--   Examples       concrete runs at which the theorems apply
--
-- Each command of the namespace and each command on files asks Shared for the directory at which the
-- walk of its path starts, Permissions for the right on it, and writes through Repositories. Copying
-- puts gaps of the blocks in the queue, and sends them off by Rereplication; Collecting puts orders
-- to delete in the same queue.
--
-- How the code corresponds to the model. A definition has the name of the function that it models, in
-- the same module. A table is a list of rows in the order of insertion; a primary or unique key of the
-- schema is a hypothesis of the theorems that need it. A `with uow:` block is `with_uow`: it runs on
-- the working copy of the tables, only `commit` makes that durable, and an exception ends it. The
-- locks that the database holds on the rows that a transaction reads for update make such
-- transactions run one after the other; so a history (Commands/Leading/Epochs, Commands/Locking/
-- Timeline) is a sequence of whole transactions, in any order. The clock is an argument of every
-- operation, in microseconds as a natural number; a difference of times is compared by a sum, so it
-- cannot go below zero. Exceptions are the constructors of `Error`; their messages are left out, as
-- are log lines. An identifier that the code draws at random is an argument.
--
-- Loops. `while` and `for` loops are structural recursion on the list that they walk. The loop of
-- `plan_blocks` runs on fuel, as much as the size of the file: each round takes at least one byte
-- (Partition/Plan). The `break` of the inner loop of
-- `assign_targets` ends its recursion. The loop of `absolute_path` in control_node/services/resolver.py
-- runs on fuel, one more than the number of directories, which is enough where no directory is its own
-- ancestor (Repositories/DirectoryRows/Depth). The walk up to the root of `ancestor_chain` in
-- control_node/services/permissions.py and the levels of `list_descendants` run on the same fuel
-- (Permissions/Reached, Repositories/DirectoryRows/Descendants).
--
-- Parameters. The policy that places blocks (control_node/services/placement.py) is the record
-- `BlockPlacementPolicy` of Commands/Creating: what it answers to each call. The signature of the
-- block tokens is an argument of the operations that hand them out.
--
-- What is not modelled: transport (HTTP, gRPC, TLS), cryptography, background threads, the DataNode's
-- disk, the client, the choice of the placement policy, and the listings.
pub mod Prelude
pub mod Errors
pub mod FilePath
pub mod Entities
pub mod Rules
pub mod Partition
pub mod Leadership
pub mod FileLock
pub mod Session
pub mod Acl
pub mod Membership
pub mod Divergence
pub mod Rereplication
pub mod Rows
pub mod Database
pub mod Repositories
pub mod Permissions
pub mod Resolver
pub mod Shared
pub mod Reaching
pub mod Commands
pub mod Examples
