-- ===== src/Commands/Writing/Answered.antt =====
-- control_node/commands/files.py: a commit that is admitted answers.
use dfsha_telematica.Prelude.{
  ℕ, String, ◌≡◌, refl, ap, ◌∙◌, subst, length, find_first, ==_iff, string_eq, some, [], ◌∷◌, ◌++◌,
}
use dfsha_telematica.Errors.{ok}
use dfsha_telematica.FilePath.{Text, FilePath, child, validate_name, to_text}
use dfsha_telematica.Entities.{File}
use dfsha_telematica.Rules.{ensure_can_commit}
use dfsha_telematica.Session.{Session, with_uow, ◌>>◌}
use dfsha_telematica.Database.{Database}
use dfsha_telematica.Repositories.FileRows.{has_id}
use dfsha_telematica.Repositories.BlockRows.{ids_below, blocks_of}
use dfsha_telematica.Repositories.DirectoryRows.Depth.{IsTree, absolute_path-ok}
use dfsha_telematica.Commands.Writing.{CommittedFile, commit_file, answer, publish}
use dfsha_telematica.Commands.Writing.Outcome.{
  Owned, settled, publish_lem, commit_file-run, found_id,
}

child-ok :
    (p : FilePath) (n m : Text) → validate_name n ≡ ok m → (q : FilePath) × (child p n ≡ ok q)
unfolding child
child-ok p n m h = (record { segments = p.segments ++ m ∷ [] }, rw h refl)

-- What the answer tells of the file, but for its path.
abbrev pub Tells : File → Database → CommittedFile → Type 0
Tells f db c = (c.size ≡ f.size) × (c.block_count ≡ length (blocks_of f.id db.blocks))

module _ (depth : String → ℕ) (f : File) (m : Text) (s : Session Database) where
  answer-ok :
      IsTree depth s.working.directories
      → validate_name f.name ≡ ok m
      → (c : CommittedFile) × ((answer f.id f s).0 ≡ ok c) × Tells f s.working c
  answer-ok tree valid =
      let (p, e) = absolute_path-ok depth s tree f.directory_id in
      let (q, e') = child-ok p f.name m valid in
      (
        record {
          path = to_text q;
          size = f.size;
          block_count = length (blocks_of f.id s.working.blocks);
        },
        rw (e, e') refl,
        (refl, refl),
      )

module _ (depth : String → ℕ) (owner_id file_id : String) (write_quorum : ℕ)
    (wrapped_key key_algo : String) (now : ℕ) (db : Database) (f : File) (m : Text) where
  publish-answers :
      IsTree depth db.directories
      → validate_name f.name ≡ ok m
      → (c : CommittedFile) × ((with_uow
            (do publish f.id f wrapped_key key_algo now; answer f.id f)
            db).0
          ≡ ok c)
        × Tells f db c
  publish-answers tree valid =
      let done = settled f wrapped_key key_algo now db in
      let (c, e, tells) =
        answer-ok depth f m (record { durable = done; working = done }) tree valid in
      (c, rw (with_uow, publish_lem f wrapped_key key_algo now db) e, tells)

  -- A commit that the rules admit answers, and tells the size and the number of blocks: the caller owns
  -- the reservation, `ensure_can_commit` admits it, its name is valid and no directory is its own
  -- ancestor.
  pub commit_file-ok :
      IsTree depth db.directories
      → validate_name f.name ≡ ok m
      → Owned owner_id file_id db f
      → ensure_can_commit f (ids_below file_id write_quorum db) now ≡ ok tt
      → (c : CommittedFile) × ((commit_file owner_id file_id write_quorum wrapped_key key_algo now
            db).0
          ≡ ok c)
        × Tells f db c
  commit_file-ok tree valid (found, owns) can =
      subst
        (λ x.
          find_first (has_id x) db.files ≡ some f
          → ensure_can_commit f (ids_below x write_quorum db) now ≡ ok tt
          → (c : CommittedFile) × ((commit_file owner_id x write_quorum wrapped_key key_algo now
                db).0
              ≡ ok c)
            × Tells f db c)
        (found_id file_id db.files f found)
        (λ e can'.
          let (c, done, tells) = publish-answers tree valid in
          (
            c,
            ap (λ r. r.0)
                  (commit_file-run owner_id write_quorum wrapped_key key_algo now db f e
                    ((==_iff f.owner_id owner_id).1 owns) can')
                ∙ done,
            tells,
          ))
        found can
