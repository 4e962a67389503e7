-- ===== src/Commands/Appending/Committed.antt =====
-- control_node/commands/files.py: commit_append.
use dfsha_telematica.Prelude.{
  ℕ, String, ◌≡◌, refl, sym, ap, ◌∙◌, subst, Bool, true, false, not, Option, none, some, List, [],
  ◌∷◌, In, update-In, update_where, ◌==◌, ==_iff, string_eq, inl, inr, Bool-cases, if◌then◌else◌,
}
use dfsha_telematica.Errors.{ok, raise_if, blocks_not_stored, runtime_error}
use dfsha_telematica.Entities.{File, file_state_eq, Block}
use dfsha_telematica.FileLock.{LockFencing}
use dfsha_telematica.Rules.{is_nil}
use dfsha_telematica.Session.{lift, ◌>>◌}
use dfsha_telematica.Session.Whole.{Answer, Closes, closes_then}
use dfsha_telematica.Database.{Database}
use dfsha_telematica.Repositories.FileRows
use dfsha_telematica.Repositories.BlockPlanRows
use dfsha_telematica.Commands.Namespace.Mkdir.{on}
use dfsha_telematica.Commands.Writing.{CommittedFile}
use dfsha_telematica.Commands.Appending.{writable_file, places_differ, appended, commit_append}
use dfsha_telematica.Commands.Appending.Writable.{
  writable_file-Reads, Writable, writable_file-Writable,
}

-- The blocks after the detachment of a block, if one is named.
abbrev pub without_tail : String → List Block → List Block
without_tail replaces rows =
    if not (replaces == "") then BlockPlanRows.detached replaces rows else rows

module _ (owner_id file_id : String) (block_ids : List String) (new_size : ℕ) (replaces : String)
    (write_quorum : ℕ) (fencing : Option LockFencing) (now : ℕ) (db : Database) where
  -- After a successful commit of an append: the block that is named no longer belongs to a file, the new
  -- ones belong to this file, its size is the one that was sent, and nothing else is written. No test asks
  -- to what file the blocks belonged.
  pub record Appended (answer : CommittedFile) (after : Database) : Type 0 where
    pub file : File
    pub writable : Writable owner_id file_id fencing now db file
    pub quorum : (BlockPlanRows.ids_below_quorum block_ids write_quorum (on db)).0 ≡ ok []
    pub apart :
        places_differ (BlockPlanRows.attached block_ids file_id (without_tail replaces db.blocks))
        ≡ true
    pub tables : after ≡ record db {
      blocks = BlockPlanRows.attached block_ids file_id (without_tail replaces db.blocks);
      files = update_where (FileRows.has_id file_id) (λ f. record f { size = new_size }) db.files;
    }
    pub size : answer.size ≡ new_size

  nothing_below :
      (ids : List String) {u : Unit {0}}
      → raise_if (not (is_nil ids)) blocks_not_stored ≡ ok u
      → ids ≡ []
  nothing_below [] h = refl
  nothing_below (x ∷ xs) h = absurd (cc)

  appended-Closes :
      (f : File)
      → Writable owner_id file_id fencing now db f
      → (BlockPlanRows.ids_below_quorum block_ids write_quorum (on db)).0 ≡ ok []
      → Closes (appended file_id block_ids new_size replaces f (on db)) (on db) Appended
  appended-Closes f w q = elim (Bool-cases (replaces == "")) [
    | inl e ↦
        rw e
          (elim (Bool-cases (places_differ (BlockPlanRows.attached block_ids file_id db.blocks))) [
            | inl p ↦ rw p (
                inr (
                  _,
                  refl,
                  record {
                    file = f;
                    writable = w;
                    quorum = q;
                    apart = rw e p;
                    tables = rw e refl;
                    size = refl;
                  },
                ))
            | inr p ↦ rw p (inl (runtime_error, refl, refl))
          ])
    | inr e ↦
        rw e
          (elim (Bool-cases (
            places_differ (
              BlockPlanRows.attached block_ids file_id
                (BlockPlanRows.detached replaces db.blocks)))) [
                  | inl p ↦ rw p (
                      inr (
                        _,
                        refl,
                        record {
                          file = f;
                          writable = w;
                          quorum = q;
                          apart = rw e p;
                          tables = rw e refl;
                          size = refl;
                        },
                      ))
                  | inr p ↦ rw p (inl (runtime_error, refl, refl))
                ])
  ]

  pub commit_append-Appended :
      Answer
        (commit_append owner_id file_id block_ids new_size replaces write_quorum fencing now db)
        db
        Appended
  unfolding commit_append
  commit_append-Appended =
      closes_then Appended (writable_file owner_id file_id fencing now) _ (on db)
        (writable_file-Reads owner_id file_id fencing now)
        (λ f e.
          let w = writable_file-Writable owner_id file_id fencing now db f (ap (λ r. r.0) e) in
          closes_then Appended (BlockPlanRows.ids_below_quorum block_ids write_quorum)
            (λ below.
              lift (raise_if (not (is_nil below)) blocks_not_stored)
              >> appended file_id block_ids new_size replaces f)
            (on db) (λ t. refl)
            (λ below e'.
              closes_then Appended (lift (raise_if (not (is_nil below)) blocks_not_stored))
                (λ u. appended file_id block_ids new_size replaces f) (on db) (λ t. refl)
                (λ u e''.
                  appended-Closes f w
                    (ap (λ r. r.0) e' ∙ ap ok (nothing_below below (ap (λ r. r.0) e''))))))

  -- After a successful commit of an append the block that is named as replaced belongs to no file, to
  -- whatever file it belonged before, unless it is also among the new ones.
  pub commit_append-Detached :
      (answer : CommittedFile)
      → (commit_append owner_id file_id block_ids new_size replaces write_quorum fencing now db).0
        ≡ ok answer
      → (replaces == "") ≡ false
      → BlockPlanRows.one_of block_ids replaces ≡ false
      → (b : Block)
      → In b
          (commit_append owner_id file_id block_ids new_size replaces write_quorum fencing now
            db).1.blocks
      → b.block_id ≡ replaces
      → b.file_id ≡ none
  commit_append-Detached answer h named other b i is = elim commit_append-Appended [
    | inl (e, bad, _) ↦ absurd (let no_ = sym bad ∙ h in cc)
    | inr (a, _, q) ↦
        let j = subst (λ (w : Database). In b w.blocks) q.tables i in
        let detached_ : without_tail replaces db.blocks
            ≡ BlockPlanRows.detached replaces db.blocks =
          rw named refl in
        let (c, e, k) =
          update-In (λ (x : Block). BlockPlanRows.one_of block_ids x.block_id)
            (BlockPlanRows.put_file (some file_id)) (without_tail replaces db.blocks) b j in
        let (d, e', l) =
          update-In (BlockPlanRows.has_id replaces) (BlockPlanRows.put_file none) db.blocks c
            (subst (In c) detached_ k) in
        go b c d e e' is
  ]
    where
      same_id :
          (p : Block → Bool) (f : Option String) (x : Block)
          → (if p x then BlockPlanRows.put_file f x else x).block_id ≡ x.block_id
      same_id p f x = elim (Bool-cases (p x)) [ inl e ↦ rw e refl | inr e ↦ rw e refl ]

      go :
          (b c d : Block)
          → b ≡ (
              if BlockPlanRows.one_of block_ids c.block_id
              then BlockPlanRows.put_file (some file_id) c
              else c)
          → c ≡ (if BlockPlanRows.has_id replaces d then BlockPlanRows.put_file none d else d)
          → b.block_id ≡ replaces
          → b.file_id ≡ none
      go b c d e e' is =
          let ids : c.block_id ≡ replaces =
            sym
              (same_id (λ (x : Block). BlockPlanRows.one_of block_ids x.block_id) (some file_id) c)
            ∙ ap (λ (x : Block). x.block_id) (sym e)
            ∙ is in
          let id : d.block_id ≡ replaces =
            sym (same_id (BlockPlanRows.has_id replaces) none d)
            ∙ ap (λ (x : Block). x.block_id) (sym e')
            ∙ ids in
          let past : BlockPlanRows.one_of block_ids c.block_id ≡ false =
            ap (BlockPlanRows.one_of block_ids) ids ∙ other in
          let hit : BlockPlanRows.has_id replaces d ≡ true = (==_iff d.block_id replaces).1 id in
          let e1 : b ≡ c = rw past at e in
          let e2 : c ≡ BlockPlanRows.put_file none d = rw hit at e' in
          ap (λ (x : Block). x.file_id) (e1 ∙ e2)
