-- ===== src/Examples/Namespace.antt =====
-- The commands of "ana" and of "bob", who may write to the directory "/docs" of "ana".
use dfsha_telematica.Prelude.{true, false, some, List, [], ◌∷◌, refl, arith, ◌≡◌, inl, inr, In, ◌↔◌}
use dfsha_telematica.Errors.{ok, IsOk}
use dfsha_telematica.FilePath.{
  codes, parse, append_chunks, split, is_noise, validate_name, is_control, is_root,
}
use dfsha_telematica.Entities.{Directory}
use dfsha_telematica.Acl.{nearest, resolve, best_of, grant_of, applies, read, write, user_source}
use dfsha_telematica.Database.{Database}
use dfsha_telematica.Session.{Session}
use dfsha_telematica.Session.Whole.{Whole}
use dfsha_telematica.Permissions.{ancestor_chain, effective_permission, allows, Access, require}
use dfsha_telematica.Shared.{is_shared_path}
use dfsha_telematica.Resolver.{find_directory, resolve_root}
use dfsha_telematica.Permissions.Authority.{Authorised, require-Authorised}
use dfsha_telematica.Permissions.Granting.{require-granted}
use dfsha_telematica.Repositories.DirectoryRows.{list_descendants}
use dfsha_telematica.Repositories.DirectoryRows.Descendants.{Under, list_descendants-Under}
use dfsha_telematica.Commands.Namespace.{rmdir, mv}
use dfsha_telematica.Commands.Namespace.WellFormed.{WellFormed}
use dfsha_telematica.Commands.Namespace.Answering.{rmdir-ok}
use dfsha_telematica.Examples.Writing.{docs_path, docs}
use dfsha_telematica.Examples.Tree.{shared_row, shared_db, shared_depth, shared-IsTree}

abbrev opened : Session Database
opened = record { durable = shared_db; working = shared_db }

abbrev access_of_bob : Access
access_of_bob = record {
  directory = docs;
  owner_id = "ana";
  grant =
      some record {
        permission = write;
        source = user_source;
        directory_id = "docs";
        principal_id = "";
      };
}

require-Authorised_example : Authorised "bob" docs write shared_db
require-Authorised_example = require-Authorised "bob" docs write opened access_of_bob (
    unfold require allows effective_permission ancestor_chain applies grant_of best_of nearest
      resolve in
    refl)

require-granted_example : IsOk (require "bob" docs read opened).0
require-granted_example =
    require-granted shared_depth "bob" docs read opened shared-IsTree (inr (inl refl)) shared_row
      (inl refl) (refl, refl, refl, omega arith)

abbrev moved : Database
moved = (mv "ana" (codes "/docs/a") (codes "/b") 5 shared_db).1

abbrev emptied : Database
emptied = (rmdir "ana" (codes "/docs") false 6 moved).1

list_descendants-Under_example :
    (out : List Directory) × (list_descendants "top" opened ≡ (ok out, opened))
    × ((x : Directory) → In x out ↔ Under shared_db.directories ("top" ∷ []) x)
list_descendants-Under_example = list_descendants-Under shared_depth "top" opened shared-IsTree

rmdir-ok_example : (rmdir "ana" (codes "/docs") true 5 shared_db).0 ≡ ok tt
rmdir-ok_example =
    rmdir-ok shared_depth "ana" docs_path docs shared_db (codes "/docs") 5
      (unfold parse append_chunks split is_noise validate_name is_control in refl)
      (unfold is_root in refl) (unfold is_shared_path in refl) shared-IsTree
      (unfold find_directory resolve_root in refl) refl
