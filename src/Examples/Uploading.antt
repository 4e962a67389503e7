-- ===== src/Examples/Uploading.antt =====
-- "ana" makes a file of two blocks, and appends to one.
use dfsha_telematica.Prelude.{
  ℕ, nat_eq, ◌==◌, String, none, some, [], ◌∷◌, refl, ◌≡◌, inl, In, string_eq, if◌then◌else◌,
}
use dfsha_telematica.Errors.{ok}
use dfsha_telematica.FilePath.{codes}
use dfsha_telematica.Entities.{Block, stored}
use dfsha_telematica.Database.{Database}
use dfsha_telematica.Permissions.{require, allows, effective_permission, ancestor_chain}
use dfsha_telematica.Acl.{applies, grant_of, best_of, nearest, resolve}
use dfsha_telematica.Commands.Locking.{require_lock}
use dfsha_telematica.Commands.Writing.{CommittedFile}
use dfsha_telematica.Commands.Creating.{BlockPlacementPolicy}
use dfsha_telematica.Commands.Appending.{commit_append, writable_file}
use dfsha_telematica.Commands.Appending.Committed.{commit_append-Detached}
use dfsha_telematica.Examples.Cluster.{node}
use dfsha_telematica.Examples.Writing.{old_version}
use dfsha_telematica.Examples.Tree.{shared_db}

abbrev on_node : BlockPlacementPolicy
on_node = record { select = λ call size n. ok (node ∷ []) }

abbrev drawn : ℕ → String
drawn i = if i == 0 then "f9" else if i == 1 then "b1" else "b2"

-- The block "c1" belongs to another file, and "b2" is stored and belongs to none.
abbrev two_files : Database
two_files = record shared_db {
  files = old_version ∷ record old_version { id = "f7"; name = codes "z" } ∷ [];
  blocks =
      record { block_id = "c1"; file_id = some "f7"; index = 0; size = 3; checksum_sha256 = none }
      ∷ record { block_id = "b2"; file_id = none; index = 1; size = 3; checksum_sha256 = none }
      ∷ [];
  replicas = record { block_id = "b2"; data_node_id = "n1"; state = stored; created_at = 0 } ∷ [];
}

abbrev told : CommittedFile
told = record { path = codes "a"; size = 6; block_count = 1 }

appended : (commit_append "ana" "f1" ("b2" ∷ []) 6 "c1" 1 none 5 two_files).0 ≡ ok told
unfolding commit_append writable_file require allows effective_permission ancestor_chain applies
    grant_of best_of nearest resolve require_lock
appended = refl

abbrev freed : Block
freed = record { block_id = "c1"; file_id = none; index = 0; size = 3; checksum_sha256 = none }

now_freed : In freed (commit_append "ana" "f1" ("b2" ∷ []) 6 "c1" 1 none 5 two_files).1.blocks
unfolding commit_append writable_file require allows effective_permission ancestor_chain applies
    grant_of best_of nearest resolve require_lock
now_freed = inl refl

commit_append-Detached_example : freed.file_id ≡ none
commit_append-Detached_example =
    commit_append-Detached "ana" "f1" ("b2" ∷ []) 6 "c1" 1 none 5 two_files told appended refl refl
      freed now_freed refl
