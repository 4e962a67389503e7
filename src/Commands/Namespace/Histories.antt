-- ===== src/Commands/Namespace/Histories.antt =====
-- control_node/commands/namespace.py and files.py: histories of the commands of the namespace.
use dfsha_telematica.Prelude.{ℕ, String, All, ◌≡◌, ◌≢◌, Bool, Option, none, [], ◌∷◌, In, ◌⊎◌}
use dfsha_telematica.FilePath.{Text}
use dfsha_telematica.Entities.{Directory, File}
use dfsha_telematica.Database.{Database}
use dfsha_telematica.Repositories.DirectoryRows.Descendants.{Under}
use dfsha_telematica.Repositories.FileRows
use dfsha_telematica.Commands.Namespace.{mkdir, rmdir, rm, mv}
use dfsha_telematica.Commands.Creating.{BlockPlacementPolicy, create_file}
use dfsha_telematica.Commands.Namespace.WellFormed.{WellFormed}
use dfsha_telematica.Commands.Namespace.Making.{Fresh}
use dfsha_telematica.Commands.Namespace.Rmdir.{TreeRemoved}

-- One command of some user. The ids that it draws are in no row of the tables, and differ.
pub data Step (db : Database) : Database → Type 0 where
  by_mkdir :
      (owner_id : String) (raw_path : Text) (parents : Bool) (now : ℕ) (new_id : ℕ → String)
      → ((i j : ℕ) → new_id i ≡ new_id j → i ≡ j)
      → Fresh new_id 0 db.directories
      → Step db (mkdir owner_id raw_path parents now new_id db).1
  by_rmdir :
      (owner_id : String) (raw_path : Text) (recursive : Bool) (now : ℕ)
      → Step db (rmdir owner_id raw_path recursive now db).1
  by_rm : (owner_id : String) (raw_path : Text) (now : ℕ) → Step db (rm owner_id raw_path now db).1
  by_mv :
      (owner_id : String) (raw_src raw_dst : Text) (now : ℕ)
      → Step db (mv owner_id raw_src raw_dst now db).1
  by_create :
      (placement : BlockPlacementPolicy) (owner_id : String) (raw_path : Text)
      (size default_block_size ttl : ℕ) (block_size : Option ℕ)
      (replication_factor cipher_overhead now : ℕ) (new_id : ℕ → String)
      → All (λ (g : File). g.id ≢ new_id 0) db.files
      → Step db
          (create_file placement owner_id raw_path size default_block_size ttl block_size
            replication_factor cipher_overhead now new_id db).1

pub data History : Database → Database → Type 0 where
  start : (db : Database) → History db db
  next :
      {first before after : Database}
      → History first before
      → Step before after
      → History first after

module _ (owner_id : String) (raw_path : Text) (recursive : Bool) (now : ℕ) (db : Database) where
  -- What is no longer live in `after`: the directory, and what was live below it.
  abbrev pub Gone :
      (after : Database) → TreeRemoved owner_id raw_path recursive now db after → Type 0
  Gone after q =
      (x : Directory)
      → Under db.directories (q.directory.id ∷ []) x ⊎ (x.id ≡ q.directory.id)
      → In x after.directories
      → x.deleted_at ≢ none
