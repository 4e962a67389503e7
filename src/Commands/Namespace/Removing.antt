-- ===== src/Commands/Namespace/Removing.antt =====
-- control_node/commands/namespace.py: rm and rmdir.
use dfsha_telematica.Prelude.{
  ℕ, String, ◌≡◌, refl, sym, ap, ◌∙◌, Bool, true, false, Option, none, some, ◌==◌, ==_iff,
  string_eq, inl, inr, Bool-cases,
}
use dfsha_telematica.Errors.{ok, raise_if, Result-cases, invalid_path}
use dfsha_telematica.FilePath.{Text, FilePath, parse}
use dfsha_telematica.Entities.{Directory, File, committed, file_state_eq, is_visible}
use dfsha_telematica.Acl.{write}
use dfsha_telematica.Rules.{ensure_visible}
use dfsha_telematica.Session.{lift}
use dfsha_telematica.Session.Whole.{Whole, Ends, ends_then}
use dfsha_telematica.Database.{Database}
use dfsha_telematica.Repositories.FileRows
use dfsha_telematica.Repositories.FileRows.{live_by_name, ids_in, as_deleted}
use dfsha_telematica.Reaching.{ResolvedAccess, is_some, entry_for}
use dfsha_telematica.Reaching.Reading.{entry_for-Reads}
use dfsha_telematica.Commands.Namespace.{rm_in, rm}
use dfsha_telematica.Commands.Namespace.Mkdir.{on}
use dfsha_telematica.Commands.Namespace.Erasing.{files_erased}
use dfsha_telematica.Commands.Namespace.Entries.{
  Open, Reached, at_start, at_directory, at_file, entry_for-Reached,
}

-- After a successful rm: a visible file, in a directory on which the user may write, is marked as deleted.
pub record FileRemoved (owner_id : String) (raw_path : Text) (now : ℕ) (db after : Database)
    : Type 0 where
  pub path : FilePath
  pub parsed : parse raw_path none ≡ ok path
  pub up : Directory
  pub name : Text
  pub open_up : Open owner_id path write (on db) up
  pub file : File
  pub found : live_by_name up.id name db.files ≡ some file
  pub visible : file.state ≡ committed
  pub tables : after ≡ files_erased (FileRows.has_id file.id) now db

ensure_visible-some :
    (o : Option File) (f : File) → ensure_visible o ≡ ok f → (o ≡ some f) × (f.state ≡ committed)
unfolding ensure_visible is_visible
ensure_visible-some none f h = absurd (cc)
ensure_visible-some (some g) f h = elim (Bool-cases (g.state == committed)) [
  | inr e ↦ absurd (let bad = rw e at h in cc)
  | inl e ↦
      let got : ok g ≡ ok f = rw e at h in
      let same : g ≡ f = cc in
      (ap some same, ap (λ (x : File). x.state) (sym same) ∙ (==_iff g.state committed).0 e)
]

module _ (owner_id : String) (raw_path : Text) (now : ℕ) (db : Database) where
  rm-Reached :
      (path : FilePath)
      → parse raw_path none ≡ ok path
      → (a : ResolvedAccess) → Reached owner_id path write (on db) a
      → is_some a.directory ≡ false
      → (f : File) → ensure_visible a.file ≡ ok f
      → FileRemoved owner_id raw_path now db (files_erased (FileRows.has_id f.id) now db)
  rm-Reached path parsed a (at_start d u e e') no_directory f v =
      absurd (let bad = rw e at no_directory in cc)
  rm-Reached path parsed a (at_directory up d n u c e e') no_directory f v =
      absurd (let bad = rw e at no_directory in cc)
  rm-Reached path parsed a (at_file up n u c e e') no_directory f v =
      let (is, visible) = ensure_visible-some a.file f v in
      record {
        path = path;
        parsed = parsed;
        up = up;
        name = n;
        open_up = u;
        file = f;
        found = sym e' ∙ is;
        visible = visible;
        tables = refl;
      }

  rm_in-Ends :
      (path : FilePath)
      → parse raw_path none ≡ ok path
      → Ends (rm_in owner_id now path (on db)) (on db) (FileRemoved owner_id raw_path now db)
  rm_in-Ends path parsed =
      ends_then Q (entry_for owner_id path write) _ (on db) (entry_for-Reads owner_id path write)
        (λ a e.
          ends_then Q (lift (raise_if (is_some a.directory) invalid_path)) _ (on db) (λ t. refl)
            (λ u e'.
              ends_then Q (lift (ensure_visible a.file)) _ (on db) (λ t. refl)
                (λ f e''. inr (
                  refl,
                  rm-Reached path parsed a
                      (entry_for-Reached owner_id path write (on db) a (ap (λ r. r.0) e))
                      (no_error (is_some a.directory) (ap (λ r. r.0) e')) f (ap (λ r. r.0) e''),
                ))))
    where
      Q : Database → Type 0
      Q = FileRemoved owner_id raw_path now db

      no_error : (b : Bool) {u : Unit {0}} → raise_if b invalid_path ≡ ok u → b ≡ false
      no_error true h = absurd (cc)
      no_error false h = refl

  -- rm fails and leaves the tables as they were; or it marks a visible file, in a directory on which the
  -- user may write, as deleted, and nothing else.
  pub rm-FileRemoved : Whole (rm owner_id raw_path now db) db (FileRemoved owner_id raw_path now db)
  unfolding rm
  rm-FileRemoved = elim (Result-cases (parse raw_path none)) [
    | inr (e, is) ↦ rw is (inl (e, refl, refl))
    | inl (path, is) ↦ rw is (rm_in-Ends path is)
  ]
