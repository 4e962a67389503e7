-- ===== src/Commands/Namespace/Rmdir.antt =====
-- control_node/commands/namespace.py: rmdir.
use dfsha_telematica.Prelude.{
  ℕ, zero, suc, String, ◌≡◌, ◌≢◌, refl, sym, ap, ◌∙◌, subst, Bool, true, false, not, ◌&&◌, Option,
  none, some, List, [], ◌∷◌, arith, ltb, length, In, update-In, In-keep, ◌==◌, ==_iff, string_eq,
  ◌⊎◌, inl, inr, Bool-cases, Option-cases, if◌then◌else◌,
}
use dfsha_telematica.Errors.{ok, runtime_error}
use dfsha_telematica.FilePath.{Text, FilePath, parse}
use dfsha_telematica.Entities.{Directory, File, deleted, file_state_eq}
use dfsha_telematica.Acl.{write}
use dfsha_telematica.Rules.{ensure_directory_is_empty}
use dfsha_telematica.Session.{lift}
use dfsha_telematica.Session.Reading.{Reads}
use dfsha_telematica.Session.Whole.{Whole, Ends, ends_then, ends_failed}
use dfsha_telematica.Database.{Database}
use dfsha_telematica.Repositories.DirectoryRows.{levels, children_of, found_rows, one_of}
use dfsha_telematica.Repositories.DirectoryRows.Descendants.{
  Under, ids_of, one_of-In, In-one_of, levels-closed, levels-complete, In-map,
}
use dfsha_telematica.Repositories.FileRows.{ids_in, as_deleted}
use dfsha_telematica.Commands.Namespace.{remove_tree}
use dfsha_telematica.Commands.Namespace.Mkdir.{on}
use dfsha_telematica.Commands.Namespace.WellFormed.{WellFormed}
use dfsha_telematica.Commands.Namespace.Erasing.{
  files_erased, directories_erased, files_erased-WellFormed, directories_erased-WellFormed,
}
use dfsha_telematica.Commands.Namespace.Entries.{Open}

-- The rows of `ds` and the files in them are marked as deleted.
abbrev pub tree_erased : List Directory → ℕ → Database → Database
tree_erased ds now db =
    directories_erased (λ (e : Directory). one_of (ids_of ds) e.id) now
      (files_erased (λ (f : File). one_of (ids_in (ids_of ds) db.files) f.id) now db)

-- The directory and what is live below it.
pub record Subtree (d : Directory) (db : Database) (ds : List Directory) : Type 0 where
  pub deeper : List Directory
  pub rows : ds ≡ d ∷ deeper
  pub found : levels db.directories (suc (length db.directories)) (d.id ∷ []) ≡ some deeper

-- After a successful rmdir: the directory, on which the user may write, all live directories below it
-- and the files in them are marked as deleted; without `recursive` it was empty.
pub record TreeRemoved (owner_id : String) (raw_path : Text) (recursive : Bool) (now : ℕ)
    (db after : Database) : Type 0 where
  pub path : FilePath
  pub parsed : parse raw_path none ≡ ok path
  pub directory : Directory
  pub open_ : Open owner_id path write (on db) directory
  pub removed : List Directory
  pub subtree : Subtree directory db removed
  pub empty : recursive ≡ false → children_of directory.id db ≡ 0
  pub tables : after ≡ tree_erased removed now db

module _ (d : Directory) (db : Database) (ds : List Directory) (t : Subtree d db ds) where
  ids_closed :
      (x : Directory) (up : String)
      → In x db.directories
      → x.deleted_at ≡ none
      → x.parent_id ≡ some up
      → one_of (ids_of ds) up ≡ true
      → one_of (ids_of ds) x.id ≡ true
  ids_closed x up i l p h =
      let same : ids_of ds ≡ d.id ∷ ids_of t.deeper = ap ids_of t.rows in
      let j = one_of-In (ids_of ds) up h in
      let k : In up (d.id ∷ ids_of t.deeper) = subst (λ y. In up y) same j in
      let found =
        levels-closed db.directories (suc (length db.directories)) (d.id ∷ []) t.deeper t.found x up
          i l p (place up k) in
      subst (λ y. one_of y x.id ≡ true) (sym same)
        (In-one_of (d.id ∷ ids_of t.deeper) x.id
          (inr (In-map (λ (y : Directory). y.id) t.deeper x found)))
    where
      place :
          (up : String)
          → In up (d.id ∷ ids_of t.deeper)
          → In up (d.id ∷ []) ⊎ In up (ids_of t.deeper)
      place up (inl e) = inl (inl e)
      place up (inr i) = inr i

  -- What is below the directory is among the rows that are removed.
  pub Under-removed :
      (x : Directory) → Under db.directories (d.id ∷ []) x → one_of (ids_of ds) x.id ≡ true
  Under-removed x u =
      let i =
        levels-complete db.directories (suc (length db.directories)) (d.id ∷ []) t.deeper t.found x
          u in
      subst (λ y. one_of (ids_of y) x.id ≡ true) (sym t.rows)
        (In-one_of (d.id ∷ ids_of t.deeper) x.id
          (inr (In-map (λ (y : Directory). y.id) t.deeper x i)))

  file_erased :
      (now : ℕ) (f : File)
      → In f db.files
      → (if one_of (ids_in (ids_of ds) db.files) f.id then as_deleted now f else f).state ≢ deleted
      → one_of (ids_of ds) f.directory_id ≡ false
  file_erased now f i s = elim (Bool-cases (one_of (ids_of ds) f.directory_id)) [
    | inr e ↦ e
    | inl e ↦ elim (Bool-cases (one_of (ids_in (ids_of ds) db.files) f.id)) [
      | inl e' ↦ absurd (s (rw e' refl))
      | inr e' ↦
          let live : (f.state == deleted) ≡ false = elim (Bool-cases (f.state == deleted)) [
            | inr x ↦ x
            | inl x ↦ absurd (s (rw e' ((==_iff f.state deleted).0 x)))
          ] in
          let kept =
            In-keep (λ (g : File). one_of (ids_of ds) g.directory_id && not (g.state == deleted))
              db.files f (rw (e, live) refl) i in
          let bad =
            In-one_of (ids_in (ids_of ds) db.files) f.id (In-map (λ (g : File). g.id) _ f kept) in
          absurd (cc)
    ]
  ]

  pub tree_erased-WellFormed : (now : ℕ) → WellFormed db → WellFormed (tree_erased ds now db)
  tree_erased-WellFormed now w =
      let chosen = λ (f : File). one_of (ids_in (ids_of ds) db.files) f.id in
      directories_erased-WellFormed (λ (e : Directory). one_of (ids_of ds) e.id) now
        (files_erased chosen now db) (files_erased-WellFormed chosen now db w)
        (λ x e i j l p h. ids_closed e x.id j l p h)
        (λ f x i j s p.
          let (g, e, k) = update-In chosen (as_deleted now) db.files f i in
          let outside = file_erased now g k (λ z. s (ap (λ (y : File). y.state) e ∙ z)) in
          let at : f.directory_id ≡ g.directory_id =
            ap (λ (y : File). y.directory_id) e ∙ same_place chosen g in
          subst (λ y. one_of (ids_of ds) y ≡ false) (sym at ∙ p) outside)
    where
      same_place :
          (p : File → Bool) (g : File)
          → (if p g then as_deleted now g else g).directory_id ≡ g.directory_id
      same_place p g = elim (Bool-cases (p g)) [ inl e ↦ rw e refl | inr e ↦ rw e refl ]

module _ (owner_id : String) (raw_path : Text) (recursive : Bool) (now : ℕ) (db : Database) where
  abbrev Q : Database → Type 0
  Q = TreeRemoved owner_id raw_path recursive now db

  empty_or_recursive :
      (n : ℕ) → ensure_directory_is_empty n recursive ≡ ok tt → recursive ≡ false → n ≡ 0
  unfolding ensure_directory_is_empty
  empty_or_recursive zero h e = refl
  empty_or_recursive (suc n) h e = elim (Bool-cases (ltb 0 (suc n))) [
    | inl t ↦ absurd (let bad = rw (t, e) at h in cc)
    | inr t ↦ absurd (ground (arith, t))
  ]

  found_rows-Reads : (o : Option (List Directory)) → Reads (found_rows o)
  found_rows-Reads none s = refl
  found_rows-Reads (some xs) s = refl

  removed :
      (path : FilePath) (d : Directory)
      → parse raw_path none ≡ ok path
      → Open owner_id path write (on db) d
      → Ends (remove_tree d recursive now (on db)) (on db) Q
  removed path d parsed o =
      ends_then Q (lift (ensure_directory_is_empty (children_of d.id db) recursive)) _ (on db)
        (λ t. refl)
        (λ u e.
          elim (Option-cases (levels db.directories (suc (length db.directories)) (d.id ∷ []))) [
            | inl none_found ↦ rw none_found (ends_failed Q runtime_error (on db))
            | inr (deeper, found) ↦ rw found (
                inr (
                  refl,
                  record {
                    path = path;
                    parsed = parsed;
                    directory = d;
                    open_ = o;
                    removed = d ∷ deeper;
                    subtree = record { deeper = deeper; rows = refl; found = found };
                    empty = empty_or_recursive (children_of d.id db) (ap (λ r. r.0) e);
                    tables = refl;
                  },
                ))
          ])
