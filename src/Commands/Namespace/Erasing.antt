-- ===== src/Commands/Namespace/Erasing.antt =====
-- control_node/commands/namespace.py: a well-formed namespace through the statements that delete.
use dfsha_telematica.Prelude.{
  List, String, ℕ, ◌≡◌, ◌≢◌, refl, sym, ap, ◌∙◌, Bool, true, false, none, some, trivial, In,
  update-Pairwise, update-In, In-update, update_where, inl, inr, Bool-cases, if◌then◌else◌,
}
use dfsha_telematica.Entities.{Directory, File, committed, deleted}
use dfsha_telematica.Database.{Database}
use dfsha_telematica.Repositories.DirectoryRows.{removed_at}
use dfsha_telematica.Repositories.FileRows.{as_deleted}
use dfsha_telematica.Commands.Writing.OneVisible.{Demoted-deleted, update-OneVisible}
use dfsha_telematica.Commands.Namespace.WellFormed.{Spots, HasLive, WellFormed}

abbrev pub files_erased : (File → Bool) → ℕ → Database → Database
files_erased p now db = record db { files = update_where p (as_deleted now) db.files }

abbrev pub directories_erased : (Directory → Bool) → ℕ → Database → Database
directories_erased p now db = record db {
  directories = update_where p (removed_at now) db.directories;
}

-- A row that is live after the UPDATE was not touched by it.
erased_file :
    (p : File → Bool) (now : ℕ) (f : File)
    → (if p f then as_deleted now f else f).state ≢ deleted
    → p f ≡ false
erased_file p now f h = elim (Bool-cases (p f)) [ inl e ↦ absurd (h (rw e refl)) | inr e ↦ e ]

pub erased_directory :
    (p : Directory → Bool) (now : ℕ) (d : Directory)
    → (if p d then removed_at now d else d).deleted_at ≡ none
    → p d ≡ false
erased_directory p now d h = elim (Bool-cases (p d)) [
  | inl e ↦ let bad = rw e at h in absurd (cc)
  | inr e ↦ e
]

pub files_erased-WellFormed :
    (p : File → Bool) (now : ℕ) (db : Database) → WellFormed db → WellFormed (files_erased p now db)
files_erased-WellFormed p now db w = record {
  spots = w.spots;
  visible = update-OneVisible p (as_deleted now) (Demoted-deleted now) db.files w.visible;
  clear = λ f d i j a b l s.
      let (g, e, k) = update-In p (as_deleted now) db.files f i in
      let kept = erased_file p now g (λ x.
        let both : deleted ≡ committed = sym x ∙ ap (λ (y : File). y.state) (sym e) ∙ s in cc) in
      let same : f ≡ g = rw kept at e in
      w.clear g d k j (a ∙ ap (λ (y : File). some y.directory_id) same)
        (b ∙ ap (λ (y : File). y.name) same) l (ap (λ (y : File). y.state) (sym same) ∙ s);
  hung = w.hung;
  filed = λ f i s.
      let (g, e, k) = update-In p (as_deleted now) db.files f i in
      let kept = erased_file p now g (λ x. s (ap (λ (y : File). y.state) e ∙ x)) in
      let same : f ≡ g = rw kept at e in
      rw same (w.filed g k (λ x. s (ap (λ (y : File). y.state) same ∙ x)));
}

module _ (p : Directory → Bool) (now : ℕ) where
  HasLive-kept :
      (id : String) (rows : List Directory)
      → HasLive id rows
      → ((d : Directory) → In d rows → d.id ≡ id → p d ≡ false)
      → HasLive id (update_where p (removed_at now) rows)
  HasLive-kept id rows h keeps =
      let kept = keeps h.row h.held h.named in
      let there = In-update {A = Directory} p (removed_at now) rows h.row h.held in
      record { row = h.row; held = rw kept at there; named = h.named; live = h.live }

  erased-Spots :
      (d e : Directory)
      → Unit {0}
      → Unit {0}
      → Spots d e
      → Spots (if p d then removed_at now d else d) (if p e then removed_at now e else e)
  erased-Spots d e _ _ s = elim (Bool-cases (p d)) [
    | inl t ↦ elim (Bool-cases (p e)) [
      | inl u ↦ rw (t, u) (record { ids = s.ids; places = λ up a b n l. absurd (cc) })
      | inr u ↦ rw (t, u) (record { ids = s.ids; places = λ up a b n l. absurd (cc) })
    ]
    | inr t ↦ elim (Bool-cases (p e)) [
      | inl u ↦ rw (t, u) (record { ids = s.ids; places = λ up a b n l m. cc })
      | inr u ↦ rw (t, u) s
    ]
  ]

  module _ (db : Database) (w : WellFormed db) where
    -- An UPDATE that deletes a set of directories, closed downwards and empty of files.
    pub directories_erased-WellFormed :
        ((d e : Directory)
          → In d db.directories
          → In e db.directories
          → e.deleted_at ≡ none
          → e.parent_id ≡ some d.id
          → p d ≡ true
          → p e ≡ true)
        → ((f : File) (d : Directory)
            → In f db.files
            → In d db.directories
            → f.state ≢ deleted
            → f.directory_id ≡ d.id
            → p d ≡ false)
        → WellFormed (directories_erased p now db)
    directories_erased-WellFormed closed empty = record {
      spots =
          update-Pairwise (λ x. Unit {0}) Spots p (removed_at now) erased-Spots db.directories
            (trivial db.directories) w.spots;
      visible = w.visible;
      clear = λ f d i j a b l.
          let (e, is, k) = update-In p (removed_at now) db.directories d j in
          let kept = erased_directory p now e (ap (λ (y : Directory). y.deleted_at) (sym is) ∙ l) in
          let same : d ≡ e = rw kept at is in
          w.clear f e i k (ap (λ (y : Directory). y.parent_id) (sym same) ∙ a)
            (ap (λ (y : Directory). y.name) (sym same) ∙ b)
            (ap (λ (y : Directory). y.deleted_at) (sym same) ∙ l);
      hung = λ d up i l a.
          let (e, is, k) = update-In p (removed_at now) db.directories d i in
          let kept = erased_directory p now e (ap (λ (y : Directory). y.deleted_at) (sym is) ∙ l) in
          let same : d ≡ e = rw kept at is in
          let live : e.deleted_at ≡ none = ap (λ (y : Directory). y.deleted_at) (sym same) ∙ l in
          let at : e.parent_id ≡ some up = ap (λ (y : Directory). y.parent_id) (sym same) ∙ a in
          HasLive-kept up db.directories (w.hung e up k live at) (λ x held named.
            elim (Bool-cases (p x)) [
              | inl t ↦ absurd (let bad = closed x e held k live (at ∙ ap some (sym named)) t in cc)
              | inr t ↦ t
            ]);
      filed = λ f i s.
          HasLive-kept f.directory_id db.directories (w.filed f i s)
            (λ x held named. empty f x i held s (sym named));
    }
