-- ===== src/Commands/Namespace/WellFormed.antt =====
-- control_node/repositories/models.py: the tables of directories and files as a namespace, and what
-- the statements of the repositories keep of it.
use dfsha_telematica.Prelude.{
  String, ℕ, ◌≡◌, ◌≢◌, refl, sym, ap, ◌∙◌, true, false, Option, none, some, List, [], ◌∷◌, ◌++◌,
  arith, All, All-In, In, In-self, Pairwise, snoc-Pairwise, In-append-left, snoc-In, find_first,
  find_first-none, ==_iff, nat_eq, list_eq, string_eq, inl, inr,
}
use dfsha_telematica.FilePath.{Text}
use dfsha_telematica.Entities.{Directory, File, committed, deleted, file_state_eq}
use dfsha_telematica.Database.{Database}
use dfsha_telematica.Repositories.DirectoryRows.{child_of, is_child_of, is_live}
use dfsha_telematica.Repositories.FileRows.{is_named_in}
use dfsha_telematica.Commands.Writing.OneVisible.{OneVisible}

-- Two rows have two ids, and are not both live under one name of one directory.
pub record Spots (d e : Directory) : Type 0 where
  pub ids : d.id ≢ e.id
  pub places :
      (up : String)
      → d.parent_id ≡ some up
      → e.parent_id ≡ some up
      → d.name ≡ e.name
      → d.deleted_at ≡ none
      → e.deleted_at ≢ none

-- There is a live directory of that id.
pub record HasLive (id : String) (rows : List Directory) : Type 0 where
  pub row : Directory
  pub held : In row rows
  pub named : row.id ≡ id
  pub live : row.deleted_at ≡ none

-- A visible file and a live directory do not have one name in one directory.
abbrev pub NoClash : File → Directory → Type 0
NoClash f d =
    d.parent_id ≡ some f.directory_id → d.name ≡ f.name → d.deleted_at ≡ none → f.state ≢ committed

pub record WellFormed (db : Database) : Type 0 where
  pub spots : Pairwise Spots db.directories
  pub visible : OneVisible db.files
  pub clear : (f : File) (d : Directory) → In f db.files → In d db.directories → NoClash f d
  -- what is live stands in a live directory
  pub hung :
      (d : Directory) (up : String)
      → In d db.directories
      → d.deleted_at ≡ none
      → d.parent_id ≡ some up
      → HasLive up db.directories
  pub filed : (f : File) → In f db.files → f.state ≢ deleted → HasLive f.directory_id db.directories

-- The place is free for a directory and for a file.
pub record Free (up : String) (n : Text) (db : Database) : Type 0 where
  pub there : HasLive up db.directories
  pub no_directory : child_of up n db.directories ≡ none
  pub no_file : find_first (is_named_in up n committed) db.files ≡ none

live-is : (o : Option ℕ) → o ≡ none → is_live o ≡ true
live-is o e = rw e refl

child-is :
    (up : String) (n : Text) (e : Directory)
    → is_child_of up n e ≡ false
    → e.parent_id ≡ some up
    → e.name ≡ n
    → e.deleted_at ≢ none
child-is up n e f p q l =
    let yes_ : is_child_of up n e ≡ true =
      ground (arith, p, ==_iff up up, ==_iff e.name n, q, live-is e.deleted_at l) in
    cc

pub Free-directory :
    (up : String) (n : Text) (db : Database)
    → Free up n db
    → (e : Directory) → In e db.directories
    → e.parent_id ≡ some up
    → e.name ≡ n
    → e.deleted_at ≢ none
Free-directory up n db free e i = child-is up n e (
    All-In _ e db.directories (find_first-none (is_child_of up n) db.directories free.no_directory)
      i)

pub Free-file :
    (up : String) (n : Text) (db : Database)
    → Free up n db
    → (f : File) → In f db.files
    → f.directory_id ≡ up
    → f.name ≡ n
    → f.state ≢ committed
Free-file up n db free f i p q s =
    let no_ =
      All-In _ f db.files (find_first-none (is_named_in up n committed) db.files free.no_file) i in
    let yes_ : is_named_in up n committed f ≡ true =
      ground
        (arith, ==_iff f.directory_id up, p, ==_iff f.name n, q, ==_iff f.state committed, s) in
    cc

abbrev pub with_directory : Directory → Database → Database
with_directory d db = record db { directories = db.directories ++ d ∷ [] }

module _ (d : Directory) (up : String) (db : Database) (w : WellFormed db)
    (free : Free up d.name db) where
  HasLive-added : (id : String) → HasLive id db.directories → HasLive id (db.directories ++ d ∷ [])
  HasLive-added id h = record {
    row = h.row;
    held = In-append-left h.row db.directories (d ∷ []) h.held;
    named = h.named;
    live = h.live;
  }

  -- An INSERT of a directory at a free place.
  pub added-WellFormed :
      All (λ (e : Directory). e.id ≢ d.id) db.directories
      → d.parent_id ≡ some up
      → WellFormed (with_directory d db)
  added-WellFormed fresh at = record {
    spots =
        snoc-Pairwise Spots db.directories d w.spots
          (beside db.directories (In-self db.directories) fresh);
    visible = w.visible;
    clear = λ f e i j. elim (snoc-In e db.directories d j) [
      | inl old ↦ w.clear f e i old
      | inr new ↦ (λ p q l s.
          Free-file up d.name db free f i
            (let same : some up ≡ some f.directory_id =
                sym at ∙ ap (λ (x : Directory). x.parent_id) (sym new) ∙ p in
              cc)
            (sym q ∙ ap (λ (x : Directory). x.name) new) s)
    ];
    hung = λ e u i l p. HasLive-added u (elim (snoc-In e db.directories d i) [
      | inl old ↦ w.hung e u old l p
      | inr new ↦
          let same : some up ≡ some u =
            sym at ∙ ap (λ (x : Directory). x.parent_id) (sym new) ∙ p in
          let same' : up ≡ u = cc in rw (← same') free.there
    ]);
    filed = λ f i s. HasLive-added f.directory_id (w.filed f i s);
  }
    where
      beside :
          (rows : List Directory)
          → All (λ e. In e db.directories) rows
          → All (λ (e : Directory). e.id ≢ d.id) rows
          → All (λ e. Spots e d) rows
      beside [] h k = tt
      beside (e ∷ rows) h k = (
        record {
          ids = k.0;
          places = λ u p q n l m.
              Free-directory up d.name db free e h.0
                (let same : some u ≡ some up = sym q ∙ at in p ∙ same) n l;
        },
        beside rows h.1 k.1,
      )
