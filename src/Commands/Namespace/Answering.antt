-- ===== src/Commands/Namespace/Answering.antt =====
-- control_node/commands/namespace.py: where rmdir does what it is asked for.
use dfsha_telematica.Prelude.{
  ℕ, String, ◌≡◌, refl, ap, subst, true, false, none, some, List, [], ◌∷◌, In, find_first,
  find_first-In, ltb, length, suc, inl, inr, Bool-cases, Option-cases,
}
use dfsha_telematica.Errors.{ok}
use dfsha_telematica.FilePath.{Text, FilePath, parse, is_root}
use dfsha_telematica.Entities.{Directory}
use dfsha_telematica.Acl.{write}
use dfsha_telematica.Rules.{ensure_directory_is_empty}
use dfsha_telematica.Database.{Database}
use dfsha_telematica.Repositories.DirectoryRows.{
  is_root_of, is_child_of, child_of, levels, children_of,
}
use dfsha_telematica.Repositories.DirectoryRows.Depth.{IsTree}
use dfsha_telematica.Repositories.DirectoryRows.Descendants.{list_descendants-Under}
use dfsha_telematica.Resolver.{descend, find_directory, resolve_root}
use dfsha_telematica.Permissions.Owning.{require-own}
use dfsha_telematica.Shared.{starts_shared, scope_from, own_scope, is_shared_path, resolve_scope}
use dfsha_telematica.Reaching.{walk, directory_for, ResolvedAccess}
use dfsha_telematica.Commands.Namespace.{remove_tree, rmdir}
use dfsha_telematica.Commands.Namespace.Mkdir.{on}

descend-In :
    (rows : List Directory) (names : List Text) (d e : Directory)
    → In d rows
    → descend rows names d ≡ some e
    → In e rows
descend-In rows [] d e i h = let same : d ≡ e = cc in subst (λ x. In x rows) same i
descend-In rows (n ∷ names) d e i h = elim (Option-cases (child_of d.id n rows)) [
  | inl none_there ↦ let bad = rw (descend, none_there) at h in absurd (cc)
  | inr (c, there) ↦
      descend-In rows names c e (find_first-In (is_child_of d.id n) rows c there).1
        (rw (descend, there) at h)
]

scope_from-own :
    (user_id : String) (path : FilePath) (segments : List Text)
    → starts_shared segments ≡ false
    → scope_from user_id path segments ≡ own_scope user_id path
scope_from-own user_id path [] h = refl
scope_from-own user_id path (s ∷ ss) h = rw h refl

module _ (depth : String → ℕ) (owner_id : String) (path : FilePath) (d : Directory)
    (db : Database) where
  own_directory :
      is_shared_path path ≡ false
      → IsTree depth db.directories
      → find_directory owner_id path (on db) ≡ (ok (some d), on db)
      → owner_id ≡ d.owner_id
      → (a : ResolvedAccess) × (directory_for owner_id path write (on db) ≡ (ok a, on db))
        × (a.directory ≡ some d)
  unfolding directory_for walk resolve_scope resolve_root find_directory is_shared_path
  own_directory plain tree found own =
      elim (Option-cases (find_first (is_root_of owner_id) db.directories)) [
        | inl e ↦ let bad = rw e at found in absurd (cc)
        | inr (root, e) ↦
            let led : ok (descend db.directories path.segments root) ≡ ok (some d) =
              ap (λ r. r.0) (rw e at found) in
            let leads : descend db.directories path.segments root ≡ some d = cc in
            let held =
              descend-In db.directories path.segments root d
                (find_first-In (is_root_of owner_id) db.directories root e).1 leads in
            let (access, passes) = require-own depth owner_id d write (on db) tree held own in
            let straight = scope_from-own owner_id path path.segments plain in
            (
              record {
                path = path;
                scope = record {
                  start = root;
                  owner_id = owner_id;
                  rest = path;
                  shared = false;
                  owner_username = [];
                  share_name = [];
                };
                access = access;
                directory = some d;
                file = none;
              },
              rw (straight, e, leads, passes) refl,
              refl,
            )
      ]

  removable : (n : ℕ) → ensure_directory_is_empty n true ≡ ok tt
  unfolding ensure_directory_is_empty
  removable n = elim (Bool-cases (ltb 0 n)) [ inl e ↦ rw e refl | inr e ↦ rw e refl ]

  removes : (now : ℕ) → IsTree depth db.directories → (remove_tree d true now (on db)).0 ≡ ok tt
  removes now tree =
      let (out, e, _) = list_descendants-Under depth d.id (on db) tree in
      elim (Option-cases (levels db.directories (suc (length db.directories)) (d.id ∷ []))) [
        | inl no_levels ↦ let bad = rw no_levels at e in absurd (cc)
        | inr (deeper, found) ↦ rw (removable (children_of d.id db), found) refl
      ]

  -- On a table that is a tree, a recursive rmdir of an own directory by its own path, which is not the
  -- root, answers without an error: its loops end within their fuel, and no test refuses it.
  pub rmdir-ok :
      (raw_path : Text) (now : ℕ)
      → parse raw_path none ≡ ok path
      → is_root path ≡ false
      → is_shared_path path ≡ false
      → IsTree depth db.directories
      → find_directory owner_id path (on db) ≡ (ok (some d), on db)
      → owner_id ≡ d.owner_id
      → (rmdir owner_id raw_path true now db).0 ≡ ok tt
  unfolding rmdir
  rmdir-ok raw_path now parsed below plain tree found own =
      let (a, reached, is) = own_directory plain tree found own in
      let done_ = removes now tree in rw (parsed, below, reached, is) done_
