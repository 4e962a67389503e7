-- ===== src/Commands/Namespace/Relinking.antt =====
-- control_node/commands/namespace.py: a well-formed namespace through the statements that move.
use dfsha_telematica.Prelude.{
  String, ◌≡◌, ◌≢◌, sym, ap, ◌∙◌, subst, some, In-self, In, update-Pairwise, update-In, In-update,
  update_where, inl, inr, Bool-cases, if◌then◌else◌, ==_iff, string_eq,
}
use dfsha_telematica.FilePath.{Text}
use dfsha_telematica.Entities.{Directory, File, committed}
use dfsha_telematica.Database.{Database}
use dfsha_telematica.Repositories.DirectoryRows
use dfsha_telematica.Repositories.FileRows
use dfsha_telematica.Commands.Writing.OneVisible.{Apart}
use dfsha_telematica.Commands.Namespace.WellFormed.{
  Spots, HasLive, WellFormed, Free, Free-directory, Free-file,
}

abbrev pub directory_moved : String → String → Text → Database → Database
directory_moved id up n db = record db {
  directories = update_where (DirectoryRows.has_id id) (DirectoryRows.moved_to up n) db.directories;
}

abbrev pub file_moved : String → String → Text → Database → Database
file_moved id up n db = record db {
  files = update_where (FileRows.has_id id) (FileRows.moved_to up n) db.files;
}

module _ (id up : String) (n : Text) (db : Database) (w : WellFormed db) (free : Free up n db) where
  HasLive-moved :
      (x : String)
      → HasLive x db.directories
      → HasLive x
          (update_where (DirectoryRows.has_id id) (DirectoryRows.moved_to up n) db.directories)
  HasLive-moved x h =
      let there =
        In-update {A = Directory} (DirectoryRows.has_id id) (DirectoryRows.moved_to up n)
          db.directories h.row h.held in
      elim (Bool-cases (DirectoryRows.has_id id h.row)) [
        | inl e ↦ record {
          row = DirectoryRows.moved_to up n h.row;
          held = rw e at there;
          named = h.named;
          live = h.live;
        }
        | inr e ↦ record { row = h.row; held = rw e at there; named = h.named; live = h.live }
      ]

  moved-Spots :
      (d e : Directory)
      → In d db.directories
      → In e db.directories
      → Spots d e
      → Spots
          (if DirectoryRows.has_id id d then DirectoryRows.moved_to up n d else d)
          (if DirectoryRows.has_id id e then DirectoryRows.moved_to up n e else e)
  moved-Spots d e i j s = elim (Bool-cases (DirectoryRows.has_id id d)) [
    | inl t ↦ elim (Bool-cases (DirectoryRows.has_id id e)) [
      | inl u ↦ absurd (s.ids ((==_iff d.id id).0 t ∙ sym ((==_iff e.id id).0 u)))
      | inr u ↦
          rw (t, u)
            (record {
              ids = s.ids;
              places = λ v a b q l.
                  Free-directory up n db free e j (let same : some v ≡ some up = sym a in b ∙ same)
                    (sym q);
            })
    ]
    | inr t ↦ elim (Bool-cases (DirectoryRows.has_id id e)) [
      | inl u ↦
          rw (t, u)
            (record {
              ids = s.ids;
              places = λ v a b q l m.
                  Free-directory up n db free d i (let same : some v ≡ some up = sym b in a ∙ same)
                    q l;
            })
      | inr u ↦ rw (t, u) s
    ]
  ]

  pub directory_moved-WellFormed : WellFormed (directory_moved id up n db)
  directory_moved-WellFormed = record {
    spots =
        update-Pairwise (λ d. In d db.directories) Spots (DirectoryRows.has_id id)
          (DirectoryRows.moved_to up n) moved-Spots db.directories (In-self db.directories) w.spots;
    visible = w.visible;
    clear = λ f d i j a b l.
        let (e, is, k) =
          update-In (DirectoryRows.has_id id) (DirectoryRows.moved_to up n) db.directories d j in
        elim (Bool-cases (DirectoryRows.has_id id e)) [
          | inl t ↦
              let same : d ≡ DirectoryRows.moved_to up n e = rw t at is in
              let at : some up ≡ some f.directory_id =
                ap (λ (y : Directory). y.parent_id) (sym same) ∙ a in
              let at' : f.directory_id ≡ up = cc in
              Free-file up n db free f i at' (sym b ∙ ap (λ (y : Directory). y.name) same)
          | inr t ↦
              let same : d ≡ e = rw t at is in
              w.clear f e i k (ap (λ (y : Directory). y.parent_id) (sym same) ∙ a)
                (ap (λ (y : Directory). y.name) (sym same) ∙ b)
                (ap (λ (y : Directory). y.deleted_at) (sym same) ∙ l)
        ];
    hung = λ d v i l a.
        let (e, is, k) =
          update-In (DirectoryRows.has_id id) (DirectoryRows.moved_to up n) db.directories d i in
        HasLive-moved v (elim (Bool-cases (DirectoryRows.has_id id e)) [
          | inl t ↦
              let same : d ≡ DirectoryRows.moved_to up n e = rw t at is in
              let at : some up ≡ some v = ap (λ (y : Directory). y.parent_id) (sym same) ∙ a in
              let at' : up ≡ v = cc in subst (λ y. HasLive y db.directories) at' free.there
          | inr t ↦
              let same : d ≡ e = rw t at is in
              w.hung e v k (ap (λ (y : Directory). y.deleted_at) (sym same) ∙ l)
                (ap (λ (y : Directory). y.parent_id) (sym same) ∙ a)
        ]);
    filed = λ f i s. HasLive-moved f.directory_id (w.filed f i s);
  }

  moved-Apart :
      (f g : File)
      → In f db.files
      → In g db.files
      → Apart f g
      → Apart
          (if FileRows.has_id id f then FileRows.moved_to up n f else f)
          (if FileRows.has_id id g then FileRows.moved_to up n g else g)
  moved-Apart f g i j s = elim (Bool-cases (FileRows.has_id id f)) [
    | inl t ↦ elim (Bool-cases (FileRows.has_id id g)) [
      | inl u ↦ absurd (s.ids ((==_iff f.id id).0 t ∙ sym ((==_iff g.id id).0 u)))
      | inr u ↦
          rw (t, u)
            (record { ids = s.ids; places = λ a b l. Free-file up n db free g j (sym a) (sym b) })
    ]
    | inr t ↦ elim (Bool-cases (FileRows.has_id id g)) [
      | inl u ↦
          rw (t, u) (record { ids = s.ids; places = λ a b l m. Free-file up n db free f i a b l })
      | inr u ↦ rw (t, u) s
    ]
  ]

  pub file_moved-WellFormed : WellFormed (file_moved id up n db)
  file_moved-WellFormed = record {
    spots = w.spots;
    visible =
        update-Pairwise (λ f. In f db.files) Apart (FileRows.has_id id) (FileRows.moved_to up n)
          moved-Apart db.files (In-self db.files) w.visible;
    clear = λ f d i j a b l.
        let (g, is, k) = update-In (FileRows.has_id id) (FileRows.moved_to up n) db.files f i in
        elim (Bool-cases (FileRows.has_id id g)) [
          | inl t ↦
              let same : f ≡ FileRows.moved_to up n g = rw t at is in
              absurd (
                Free-directory up n db free d j (a ∙ ap (λ (y : File). some y.directory_id) same)
                  (b ∙ ap (λ (y : File). y.name) same) l)
          | inr t ↦
              let same : f ≡ g = rw t at is in
              subst (λ (y : File). y.state ≢ committed) (sym same)
                (w.clear g d k j (a ∙ ap (λ (y : File). some y.directory_id) same)
                  (b ∙ ap (λ (y : File). y.name) same) l)
        ];
    hung = w.hung;
    filed = λ f i s.
        let (g, is, k) = update-In (FileRows.has_id id) (FileRows.moved_to up n) db.files f i in
        elim (Bool-cases (FileRows.has_id id g)) [
          | inl t ↦
              let same : f ≡ FileRows.moved_to up n g = rw t at is in
              subst (λ (y : File). HasLive y.directory_id db.directories) (sym same) free.there
          | inr t ↦
              let same : f ≡ g = rw t at is in
              subst (λ (y : File). HasLive y.directory_id db.directories) (sym same)
                (w.filed g k (λ x. s (ap (λ (y : File). y.state) same ∙ x)))
        ];
  }
