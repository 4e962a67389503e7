-- ===== src/Repositories.antt =====
-- control_node/repositories/sql.py: the repositories over the tables of `Database`.
pub mod LeadershipRows
pub mod FileLockRows
pub mod ReplicaRows
pub mod DataNodeRows
pub mod FileRows
pub mod BlockRows
pub mod DirectoryRows
pub mod AclRows
pub mod TaskRows
pub mod ShortBlocks
pub mod BlockPlanRows
