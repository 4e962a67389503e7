-- ===== src/Commands/Creating/Kept.antt =====
-- control_node/commands/files.py: what create_file does to the namespace.
use dfsha_telematica.Prelude.{
  All-update_where, ℕ, String, ◌≡◌, ◌≢◌, refl, sym, ap, ◌∙◌, subst, Option, none, some, List, [],
  ◌∷◌, ◌++◌, All, snoc-In, snoc-Pairwise, ◌==◌, inl, inr, Bool-cases,
}
use dfsha_telematica.Errors.{ok, Result-cases, invalid_path}
use dfsha_telematica.FilePath.{Text, FilePath, parse, is_root}
use dfsha_telematica.Entities.{File, writing, committed, file_state_eq}
use dfsha_telematica.Session.Whole.{Answer}
use dfsha_telematica.Database.{Database}
use dfsha_telematica.Repositories.FileRows
use dfsha_telematica.Repositories.FileRows.{live_by_name, as_deleted}
use dfsha_telematica.Commands.Writing.OneVisible.{Apart}
use dfsha_telematica.Commands.Namespace.WellFormed.{WellFormed, HasLive}
use dfsha_telematica.Commands.Namespace.Erasing.{files_erased-WellFormed}
use dfsha_telematica.Commands.Namespace.Starting.{IsLive-HasLive}
use dfsha_telematica.Commands.Creating.{
  BlockPlacementPolicy, CreatedFile, Creation, creation_of, create_file, reservation,
}
use dfsha_telematica.Commands.Creating.Created.{
  Reserved, closed_files, with_files, create_in-Closes,
}

-- An INSERT of a file that is not visible, with a new id, in a live directory.
added-WellFormed :
    (f : File) (db : Database)
    → WellFormed db
    → f.state ≢ committed
    → HasLive f.directory_id db.directories
    → All (λ (g : File). g.id ≢ f.id) db.files
    → WellFormed (with_files (db.files ++ f ∷ []) db)
added-WellFormed f db w hidden there fresh = record {
  spots = w.spots;
  visible = snoc-Pairwise Apart db.files f w.visible (beside db.files fresh);
  clear = λ g d i j a b l. elim (snoc-In g db.files f i) [
    | inl old ↦ w.clear g d old j a b l
    | inr new ↦ (λ s. hidden (ap (λ (x : File). x.state) (sym new) ∙ s))
  ];
  hung = w.hung;
  filed = λ g i s. elim (snoc-In g db.files f i) [
    | inl old ↦ w.filed g old s
    | inr new ↦ subst (λ (x : File). HasLive x.directory_id db.directories) (sym new) there
  ];
}
  where
    beside : (rows : List File) → All (λ (g : File). g.id ≢ f.id) rows → All (λ g. Apart g f) rows
    beside [] k = tt
    beside (g ∷ gs) k = (record { ids = k.0; places = λ a b l. hidden }, beside gs k.1)

closed-WellFormed :
    (o : Option File) (now : ℕ) (db : Database)
    → WellFormed db
    → WellFormed (with_files (closed_files o now db.files) db)
closed-WellFormed none now db w = w
closed-WellFormed (some f) now db w = elim (Bool-cases (f.state == writing)) [
  | inl t ↦ rw t (files_erased-WellFormed (FileRows.has_id f.id) now db w)
  | inr t ↦ rw t w
]

closed-fresh :
    (id : String) (o : Option File) (now : ℕ) (rows : List File)
    → All (λ (g : File). g.id ≢ id) rows
    → All (λ (g : File). g.id ≢ id) (closed_files o now rows)
closed-fresh id none now rows h = h
closed-fresh id (some f) now rows h = elim (Bool-cases (f.state == writing)) [
  | inl t ↦ rw t (
      All-update_where _ _ (FileRows.has_id f.id) (as_deleted now) rows (λ g k e. k) (λ g k e. k) h)
  | inr t ↦ rw t h
]

module _ (placement : BlockPlacementPolicy) (new_id : ℕ → String) (db : Database) where
  reserved-WellFormed :
      (c : Creation) (path : FilePath) (answer : CreatedFile) (after : Database)
      → WellFormed db
      → All (λ (g : File). g.id ≢ new_id 0) db.files
      → Reserved placement c new_id path db answer after
      → WellFormed after
  reserved-WellFormed c path answer after w fresh q =
      let old = live_by_name q.up.id q.name_ db.files in
      let rows = closed_files old c.now db.files in
      let k =
        added-WellFormed
          (reservation (new_id 0) q.up.id q.name_ c.owner_id c.size c.block_size c.now c.ttl)
          (with_files rows db) (closed-WellFormed old c.now db w) (λ e. cc)
          (IsLive-HasLive db.directories q.up q.open_.row)
          (closed-fresh (new_id 0) old c.now db.files fresh) in
      subst WellFormed (sym q.tables) (record {
        spots = k.spots;
        visible = k.visible;
        clear = k.clear;
        hung = k.hung;
        filed = k.filed;
      })

  module _ (owner_id : String) (raw_path : Text) (size default_block_size ttl : ℕ)
      (block_size : Option ℕ) (replication_factor cipher_overhead now : ℕ) where
    -- What a successful creation with these arguments has done.
    pub record Creates (answer : CreatedFile) (after : Database) : Type 0 where
      pub path : FilePath
      pub parsed : parse raw_path none ≡ ok path
      pub reserved :
          Reserved placement
            (creation_of owner_id size default_block_size ttl block_size replication_factor
              cipher_overhead now)
            new_id
            path
            db
            answer
            after

    pub create_file-Creates :
        Answer
          (create_file placement owner_id raw_path size default_block_size ttl block_size
            replication_factor cipher_overhead now new_id db)
          db
          Creates
    unfolding create_file
    create_file-Creates =
        let c =
          creation_of owner_id size default_block_size ttl block_size replication_factor
            cipher_overhead now in
        elim (Result-cases (parse raw_path none)) [
          | inr (e, is) ↦ rw is (inl (e, refl, refl))
          | inl (path, is) ↦ elim (Bool-cases (is_root path)) [
            | inl t ↦ rw (is, t) (inl (invalid_path, refl, refl))
            | inr t ↦ elim (create_in-Closes placement c new_id path db) [
              | inl (e, bad, same) ↦ rw (is, t) (inl (e, bad, same))
              | inr (a, good, q) ↦
                  rw (is, t) (inr (a, good, record { path = path; parsed = is; reserved = q }))
            ]
          ]
        ]

    -- create_file keeps a namespace well-formed, if the id of the file is new.
    pub create_file-WellFormed :
        All (λ (g : File). g.id ≢ new_id 0) db.files
        → WellFormed db
        → WellFormed
            (create_file placement owner_id raw_path size default_block_size ttl block_size
              replication_factor cipher_overhead now new_id db).1
    create_file-WellFormed fresh w = elim create_file-Creates [
      | inl (e, _, same) ↦ subst WellFormed (sym same) w
      | inr (a, _, q) ↦
          reserved-WellFormed
            (creation_of owner_id size default_block_size ttl block_size replication_factor
              cipher_overhead now)
            q.path a _ w fresh q.reserved
    ]
