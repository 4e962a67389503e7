-- ===== src/Commands/Writing/Outcome.antt =====
-- control_node/commands/files.py: what `commit_file` and `abort_file` leave in the tables.
use dfsha_telematica.Prelude.{
  trivial, subst, ℕ, suc, String, ◌≡◌, refl, sym, ap, ◌∙◌, true, not, ◌&&◌, Option, none, some,
  List, [], find_first, find_first-some, ◌==◌, ==_iff, nat_eq, string_eq, ◌⊎◌, inl, inr, Bool-cases,
  Option-cases, length,
}
use dfsha_telematica.Errors.{Error, Result, ok, err, not_found, Result-cases}
use dfsha_telematica.FilePath.{FilePath, child, to_text}
use dfsha_telematica.Entities.{File, committed, file_state_eq}
use dfsha_telematica.Rules.{ensure_can_commit}
use dfsha_telematica.Session.{Session, lift, pure, raise, with_uow, ◌>>◌, ◌>>=◌}
use dfsha_telematica.Database.{Database}
use dfsha_telematica.Repositories.BlockRows
use dfsha_telematica.Repositories.FileRows.{has_id, live_by_name}
use dfsha_telematica.Repositories.BlockRows.{ids_below}
use dfsha_telematica.Repositories.DirectoryRows.{absolute_path, climb, by_id}
use dfsha_telematica.Commands.Writing.{
  CommittedFile, own_reservation, retire, answer, publish, commit_file,
}
use dfsha_telematica.Commands.Writing.OneVisible.{retired, published}

retire_lem :
    (o : Option File) (file : File) (now : ℕ) (s : Session Database)
    → retire o file now s ≡ (
      ok tt,
      record s { working = record s.working { files = retired o file now s.working.files } },
    )
retire_lem none file now s = refl
retire_lem (some p) file now s = elim (Bool-cases (not (p.id == file.id) && p.state == committed)) [
  | inl e ↦ rw e refl
  | inr e ↦ rw e refl
]

pub publish_lem :
    (file : File) (wrapped_key key_algo : String) (now : ℕ) (db : Database)
    → publish file.id file wrapped_key key_algo now (record { durable = db; working = db }) ≡ (
      ok tt,
      record {
        durable = record db { files = published file wrapped_key key_algo now db.files };
        working = record db { files = published file wrapped_key key_algo now db.files };
      },
    )
publish_lem file wrapped_key key_algo now db = elim (Bool-cases (wrapped_key == "")) [
  | inl e ↦
      rw
        (
          retire_lem (live_by_name file.directory_id file.name db.files) file now
              (record { durable = db; working = db }),
          e,
        )
        refl
  | inr e ↦
      rw
        (
          retire_lem (live_by_name file.directory_id file.name db.files) file now
              (record { durable = db; working = db }),
          e,
        )
        refl
]

module _ (file_id : String) (file : File) (s : Session Database) where
  abbrev listed : FilePath → Result CommittedFile × Session Database
  listed directory =
      (lift (child directory file.name) >>= λ path. BlockRows.list_for_file file_id >>= λ blocks.
      pure (record { path = to_text path; size = file.size; block_count = length blocks }))
        s

  listed-durable : (directory : FilePath) → (listed directory).1.durable ≡ s.durable
  listed-durable directory = elim (Result-cases (child directory file.name)) [
    | inl (p, e) ↦ rw e refl
    | inr (x, e) ↦ rw e refl
  ]

  -- The answer is read, after the commit: nothing of it is written.
  answer-durable : (answer file_id file s).1.durable ≡ s.durable
  unfolding absolute_path
  answer-durable =
      let rows = s.working.directories in
      elim (Option-cases (climb rows (suc (length rows)) (by_id file.directory_id rows) [])) [
        | inl e ↦ rw e refl
        | inr (segments, e) ↦ rw e (listed-durable (record { segments = segments }))
      ]

-- The reservation that a command works on: the file of that id, if the caller owns it.
abbrev pub Owned : String → String → Database → File → Type 0
Owned owner_id file_id db f =
    (find_first (has_id file_id) db.files ≡ some f) × (f.owner_id ≡ owner_id)

abbrev pub NoneOwned : String → String → Database → Type 0
NoneOwned owner_id file_id db = (f : File) → ¬ Owned owner_id file_id db f

pub found_id :
    (file_id : String) (rows : List File) (f : File)
    → find_first (has_id file_id) rows ≡ some f
    → f.id ≡ file_id
found_id file_id rows f e =
    (==_iff f.id file_id).0
      (find_first-some (λ x. Unit {0}) (has_id file_id) rows f e (trivial rows)).0

-- A reservation is there and its owner asks, or not.
pub owned-cases :
    (owner_id file_id : String) (db : Database)
    → ((own_reservation (find_first (has_id file_id) db.files) owner_id ≡ raise not_found)
        × NoneOwned owner_id file_id db)
      ⊎ ((f : File) × (find_first (has_id file_id) db.files ≡ some f)
          × ((f.owner_id == owner_id) ≡ true)
          × (f.id ≡ file_id))
owned-cases owner_id file_id db = elim (Option-cases (find_first (has_id file_id) db.files)) [
  | inl e ↦ inl (rw e refl, λ f o. absurd (cc (o.0, e)))
  | inr (f, e) ↦ elim (Bool-cases (f.owner_id == owner_id)) [
    | inl same ↦ inr (f, e, same, found_id file_id db.files f e)
    | inr other ↦ inl (
      rw (e, other) refl,
      λ g o.
          let found : some f ≡ some g = sym e ∙ o.0 in
          let twin : f ≡ g = cc in
          let passes = (==_iff f.owner_id owner_id).1 (ap (λ (h : File). h.owner_id) twin ∙ o.1) in
          cc,
    )
  ]
]

abbrev pub settled : File → String → String → ℕ → Database → Database
settled f wrapped_key key_algo now db = record db {
  files = published f wrapped_key key_algo now db.files;
}

module _ (owner_id : String) (write_quorum : ℕ) (wrapped_key key_algo : String) (now : ℕ)
    (db : Database) (f : File) where
  publish-durable :
      (with_uow (do publish f.id f wrapped_key key_algo now; answer f.id f) db).1
      ≡ settled f wrapped_key key_algo now db
  publish-durable =
      let done = settled f wrapped_key key_algo now db in
      rw (with_uow, publish_lem f wrapped_key key_algo now db)
        (answer-durable f.id f (record { durable = done; working = done }))

  pub commit_file-run :
      find_first (has_id f.id) db.files ≡ some f
      → (f.owner_id == owner_id) ≡ true
      → ensure_can_commit f (ids_below f.id write_quorum db) now ≡ ok tt
      → commit_file owner_id f.id write_quorum wrapped_key key_algo now db
        ≡ with_uow (do publish f.id f wrapped_key key_algo now; answer f.id f) db
  unfolding commit_file
  commit_file-run e same c = rw (e, same, c) refl

pub commit_file_lem :
    (owner_id file_id : String) (write_quorum : ℕ) (wrapped_key key_algo : String) (now : ℕ)
    (db : Database)
    → ((e : Error) × (commit_file owner_id file_id write_quorum wrapped_key key_algo now db
          ≡ (err e, db))
        × (((e ≡ not_found) × NoneOwned owner_id file_id db)
            ⊎ ((f : File) × Owned owner_id file_id db f
                × (ensure_can_commit f (ids_below file_id write_quorum db) now ≡ err e))))
      ⊎ ((f : File) × Owned owner_id file_id db f
          × (ensure_can_commit f (ids_below file_id write_quorum db) now ≡ ok tt)
          × ((commit_file owner_id file_id write_quorum wrapped_key key_algo now db).1
              ≡ record db { files = published f wrapped_key key_algo now db.files }))
unfolding commit_file
commit_file_lem owner_id file_id write_quorum wrapped_key key_algo now db =
    elim (owned-cases owner_id file_id db) [
      | inl (e, no_one) ↦ inl (not_found, rw e refl, inl (refl, no_one))
      | inr (f, e, same, id) ↦
          elim (Result-cases (ensure_can_commit f (ids_below file_id write_quorum db) now)) [
            | inl (u, c) ↦ inr (
              f,
              (e, (==_iff f.owner_id owner_id).0 same),
              c,
              subst
                  (λ x.
                    find_first (has_id x) db.files ≡ some f
                    → ensure_can_commit f (ids_below x write_quorum db) now ≡ ok tt
                    → (commit_file owner_id x write_quorum wrapped_key key_algo now db).1
                      ≡ settled f wrapped_key key_algo now db)
                  id
                  (λ e' c'.
                    ap (λ r. r.1)
                      (commit_file-run owner_id write_quorum wrapped_key key_algo now db f e' same
                        c')
                    ∙ publish-durable owner_id write_quorum wrapped_key key_algo now db f)
                  e c,
            )
            | inr (x, c) ↦
                inl (x, rw (e, same, c) refl, inr (f, (e, (==_iff f.owner_id owner_id).0 same), c))
          ]
    ]
