-- ===== src/Database.antt =====
-- The tables of control_node/repositories/models.py that the modelled commands read and write. A
-- query without ORDER BY gives the rows in the order in which they were inserted.
use dfsha_telematica.Prelude.{String, Option, List}
use dfsha_telematica.Entities.{User, Directory, File, Block, BlockReplica, DataNode}
use dfsha_telematica.Rows.{Group, AclRow, Task}
use dfsha_telematica.Leadership.{Lease}
use dfsha_telematica.FileLock.{FileLock}

pub record Database : Type 0 where
  -- the one row of the leadership table
  pub lease : Option Lease
  pub users : List User
  pub file_locks : List FileLock
  pub data_nodes : List DataNode
  pub directories : List Directory
  pub files : List File
  pub blocks : List Block
  pub replicas : List BlockReplica
  pub acl_entries : List AclRow
  -- group, user
  pub group_members : List (String × String)
  pub groups : List Group
  pub tasks : List Task
