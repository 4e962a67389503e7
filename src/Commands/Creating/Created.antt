-- ===== src/Commands/Creating/Created.antt =====
-- control_node/commands/files.py: create_file.
use dfsha_telematica.Prelude.{
  ℕ, ◌+◌, String, ◌≡◌, refl, sym, ap, ◌∙◌, Option, none, some, List, [], ◌∷◌, ◌++◌, map,
  update_where, ◌==◌, inl, inr, Bool-cases, Option-cases, if◌then◌else◌,
}
use dfsha_telematica.Prelude.Int.{pos}
use dfsha_telematica.Errors.{ok, Result-cases, raise_if, invalid_path}
use dfsha_telematica.FilePath.{Text, FilePath, parent, name}
use dfsha_telematica.Entities.{Directory, File, writing, file_state_eq, Block}
use dfsha_telematica.Acl.{write}
use dfsha_telematica.Partition.{BlockSpec, plan_blocks}
use dfsha_telematica.Rules.{ensure_no_live_reservation}
use dfsha_telematica.Session.{Exec, lift, ◌>>=◌, ◌>>◌}
use dfsha_telematica.Session.Whole.{Closes, closes_then}
use dfsha_telematica.Database.{Database}
use dfsha_telematica.Repositories.FileRows
use dfsha_telematica.Repositories.FileRows.{live_by_name, as_deleted}
use dfsha_telematica.Repositories.DirectoryRows
use dfsha_telematica.Repositories.DirectoryRows.{child_of}
use dfsha_telematica.Repositories.BlockPlanRows.{planned}
use dfsha_telematica.Reaching.{directory_for, is_some}
use dfsha_telematica.Reaching.Reading.{directory_for-Reads}
use dfsha_telematica.Commands.Namespace.Mkdir.{on}
use dfsha_telematica.Commands.Namespace.Entries.{Open, directory_for-Open}
use dfsha_telematica.Commands.Creating.{
  BlockPlacementPolicy, CreatedFile, Planned, plan_each, with_block, reservation, close_expired,
  Creation, reserve, create_under, create_in,
}

-- The files after an expired reservation is closed.
abbrev pub closed_files : Option File → ℕ → List File → List File
closed_files none now rows = rows
closed_files (some f) now rows =
    if f.state == writing then update_where (FileRows.has_id f.id) (as_deleted now) rows else rows

abbrev pub with_files : List File → Database → Database
with_files files db = record db { files = files }

-- The index, the size and the file of each block; and what the specs of a plan ask for.
abbrev pub laid_out : List Block → List (ℕ × ℕ × Option String)
laid_out blocks =
    map {B = ℕ × ℕ × Option String} (λ (b : Block). (b.index, b.size, b.file_id)) blocks

abbrev pub asked_for : ℕ → ℕ → Option String → List BlockSpec → List (ℕ × ℕ × Option String)
asked_for first overhead file_id specs =
    map {B = ℕ × ℕ × Option String}
      (λ (s : BlockSpec). (first + s.index, s.size + overhead, file_id)) specs

-- The plan lists the blocks of the specs, in order: the index counted from `first`, the size with what
-- the cipher adds, all of one file.
pub plan_each-blocks :
    (placement : BlockPlacementPolicy) (replication_factor overhead now : ℕ) (new_id : ℕ → String)
    (file_id : Option String) (first call : ℕ) (specs : List BlockSpec) (p : Planned)
    → plan_each placement replication_factor overhead now new_id file_id first call specs ≡ ok p
    → laid_out p.blocks ≡ asked_for first overhead file_id specs
unfolding plan_each
plan_each-blocks placement r o now new_id file_id first call [] p h =
    let same : record { blocks = []; replicas = []; planned = [] } ≡ p = cc in
    ap (λ (x : Planned). laid_out x.blocks) (sym same)
plan_each-blocks placement r o now new_id file_id first call (s ∷ ss) p h =
    elim (Result-cases (placement.select call (s.size + o) r)) [
      | inr (e, is) ↦ absurd (let bad = rw is at h in cc)
      | inl (nodes, is) ↦
          elim (Result-cases (plan_each placement r o now new_id file_id first (call + 1) ss)) [
            | inr (e, is') ↦ absurd (let bad = rw (is, plan_each, is') at h in cc)
            | inl (rest, is') ↦
                let got : ok (
                      with_block file_id (new_id (call + 1)) (first + s.index) (s.size + o) now
                        nodes rest)
                    ≡ ok p =
                  rw (is, is') at h in
                let same : with_block file_id (new_id (call + 1)) (first + s.index) (s.size + o) now
                      nodes rest
                    ≡ p =
                  cc in
                ap (λ (x : Planned). laid_out x.blocks) (sym same)
                ∙ ap (λ l. (first + s.index, s.size + o, file_id) ∷ l)
                    (plan_each-blocks placement r o now new_id file_id first (call + 1) ss rest is')
          ]
    ]

module _ (placement : BlockPlacementPolicy) (c : Creation) (new_id : ℕ → String) (path : FilePath)
    (db : Database) where
  -- After a successful creation: an invisible file in a live directory, on which the user may write, and
  -- the blocks of its plan. A reservation of that name has expired and is closed.
  pub record Reserved (answer : CreatedFile) (after : Database) : Type 0 where
    pub up : Directory
    pub name_ : Text
    pub open_ : Open c.owner_id (parent path) write (on db) up
    pub expired : ensure_no_live_reservation (live_by_name up.id name_ db.files) c.now ≡ ok tt
    pub no_directory : child_of up.id name_ db.directories ≡ none
    pub specs : List BlockSpec
    pub split : plan_blocks (pos c.size) (pos c.block_size) ≡ ok specs
    pub plan : Planned
    pub placed :
        plan_each placement c.replication_factor c.cipher_overhead c.now new_id
          (some (new_id 0))
          0
          0
          specs
        ≡ ok plan
    pub blocks : laid_out plan.blocks ≡ asked_for 0 c.cipher_overhead (some (new_id 0)) specs
    pub tables :
        after
        ≡ planned plan.blocks plan.replicas (
            with_files
              (closed_files (live_by_name up.id name_ db.files) c.now db.files
                ++ reservation (new_id 0) up.id name_ c.owner_id c.size c.block_size c.now c.ttl
                  ∷ [])
              db)
    pub answered : (answer.file_id ≡ new_id 0) × (answer.blocks ≡ plan.planned)

  abbrev from_check : Directory → Text → Exec Database CreatedFile
  from_check up n = do
    taken ← DirectoryRows.get_child up.id n
    lift (raise_if (is_some taken) invalid_path)
    reserve placement c new_id up n

  module _ (up : Directory) (n : Text) (o : Open c.owner_id (parent path) write (on db) up)
      (expired : ensure_no_live_reservation (live_by_name up.id n db.files) c.now ≡ ok tt) where
    reserve-Closes :
        (files : List File)
        → child_of up.id n db.directories ≡ none
        → closed_files (live_by_name up.id n db.files) c.now db.files ≡ files
        → Closes
            (reserve placement c new_id up n
              (record { durable = db; working = with_files files db }))
            (on db)
            Reserved
    reserve-Closes files free is =
        elim (Result-cases (plan_blocks (pos c.size) (pos c.block_size))) [
          | inr (e, f) ↦ rw f (inl (e, refl, refl))
          | inl (specs, f) ↦
              elim (Result-cases (
                plan_each placement c.replication_factor c.cipher_overhead c.now new_id
                  (some (new_id 0)) 0 0 specs)) [
                    | inr (e, g) ↦ rw (f, g) (inl (e, refl, refl))
                    | inl (plan, g) ↦
                        rw (f, g)
                          (inr (
                            _,
                            refl,
                            record {
                              up = up;
                              name_ = n;
                              open_ = o;
                              expired = expired;
                              no_directory = free;
                              specs = specs;
                              split = f;
                              plan = plan;
                              placed = g;
                              blocks =
                                  plan_each-blocks placement c.replication_factor c.cipher_overhead
                                    c.now new_id (some (new_id 0)) 0 0 specs plan g;
                              tables =
                                  ap
                                    (λ (l : List File). planned plan.blocks plan.replicas (
                                      with_files
                                        (l
                                          ++ reservation (new_id 0) up.id n c.owner_id c.size
                                              c.block_size c.now c.ttl
                                            ∷ [])
                                        db))
                                    (sym is);
                              answered = (refl, refl);
                            },
                          ))
                  ]
        ]

    checked-Closes :
        (files : List File)
        → closed_files (live_by_name up.id n db.files) c.now db.files ≡ files
        → Closes
            (from_check up n (record { durable = db; working = with_files files db }))
            (on db)
            Reserved
    checked-Closes files is = elim (Option-cases (child_of up.id n db.directories)) [
      | inl free ↦ rw free (reserve-Closes files free is)
      | inr (d, taken) ↦ rw taken (inl (invalid_path, refl, refl))
    ]

    closed-Closes :
        (e : Option File)
        → live_by_name up.id n db.files ≡ e
        → Closes ((close_expired e c.now >> from_check up n) (on db)) (on db) Reserved
    closed-Closes none is = checked-Closes db.files (ap (λ x. closed_files x c.now db.files) is)
    closed-Closes (some f) is = elim (Bool-cases (f.state == writing)) [
      | inl t ↦ rw t (checked-Closes _ (ap (λ x. closed_files x c.now db.files) is ∙ rw t refl))
      | inr t ↦
          rw t (checked-Closes db.files (ap (λ x. closed_files x c.now db.files) is ∙ rw t refl))
    ]

  pub create_in-Closes : Closes (create_in placement c new_id path (on db)) (on db) Reserved
  create_in-Closes =
      closes_then Reserved (directory_for c.owner_id (parent path) write) _ (on db)
        (directory_for-Reads c.owner_id (parent path) write)
        (λ a e.
          let (up, is, o) =
            directory_for-Open c.owner_id (parent path) write (on db) a (ap (λ r. r.0) e) in
          rw is (
            closes_then Reserved (lift (name path)) (create_under placement c new_id up) (on db)
              (λ t. refl)
              (λ n e'.
                closes_then Reserved
                  (lift (ensure_no_live_reservation (live_by_name up.id n db.files) c.now))
                  (λ u. close_expired (live_by_name up.id n db.files) c.now >> from_check up n)
                  (on db) (λ t. refl) (λ u e''. closed-Closes up n o (ap (λ r. r.0) e'') _ refl))))
