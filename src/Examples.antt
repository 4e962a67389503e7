-- ===== src/Examples.antt =====
-- Concrete runs at which the theorems apply, and the data that they share.
pub mod Leading
pub mod Locking
pub mod Planning
pub mod Cluster
pub mod Writing
pub mod Tree
pub mod Sharing
pub mod Uploading
pub mod Queue
pub mod Namespace
use dfsha_telematica.Prelude.{none, []}
use dfsha_telematica.Database.{Database}

abbrev pub empty_db : Database
empty_db = record {
  lease = none;
  file_locks = [];
  data_nodes = [];
  directories = [];
  files = [];
  blocks = [];
  replicas = [];
  acl_entries = [];
  group_members = [];
  groups = [];
  tasks = [];
  users = [];
}
