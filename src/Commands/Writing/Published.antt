-- ===== src/Commands/Writing/Published.antt =====
-- control_node/commands/files.py: a file that `commit_file` publishes is the visible file of its
-- name, and each of its blocks has the copies of the quorum.
use dfsha_telematica.Prelude.{
  ℕ, ◌≤◌, String, ◌≡◌, refl, sym, ap, ◌∙◌, subst, Bool, true, false, some, List, [], ◌∷◌, arith,
  All, All-imp, All-keep, All-sorted, ltb, keep, map, find_first, find_first-some, nat_eq, list_eq,
  string_eq, inl, inr, Bool-cases,
}
use dfsha_telematica.Errors.{ok}
use dfsha_telematica.Entities.{File, Block, writing, committed, file_state_eq, is_expired}
use dfsha_telematica.Rules.{ensure_can_commit}
use dfsha_telematica.Rules.Reservations.{ensure_can_commit_lem}
use dfsha_telematica.Database.{Database}
use dfsha_telematica.Repositories.FileRows.{has_id, is_named_in, live_by_name}
use dfsha_telematica.Repositories.BlockRows.{
  ids_below, below_quorum, blocks_of, of_file, in_order, copies,
}
use dfsha_telematica.Commands.Writing.{CommittedFile, commit_file}
use dfsha_telematica.Commands.Writing.OneVisible.{Apart, OneVisible, published}
use dfsha_telematica.Commands.Writing.Clearing.{
  published-OneVisible, is_named_in_iff, is_named_in-single,
}
use dfsha_telematica.Commands.Writing.Outcome.{Owned, commit_file_lem, found_id}
use dfsha_telematica.Commands.Writing.Row.{Visible, published-Visible}

-- In a table with one visible file of a name, the file that is found by its id and passes the test
-- of its name is the file that is found by its name.
found-here :
    (q : File → Bool)
    → ((x y : File) → Apart x y → q x ≡ true → q y ≡ true → ⊥)
    → (file_id : String) (g : File) → (rows : List File) → OneVisible rows
    → find_first (has_id file_id) rows ≡ some g
    → q g ≡ true
    → find_first q rows ≡ some g
found-here q single file_id g [] h e hit = cc
found-here q single file_id g (x ∷ rows) h e hit = elim (Bool-cases (has_id file_id x)) [
  | inl e' ↦
      let got : some x ≡ some g = rw e' at e in
      let twin : x ≡ g = cc in let passes : q x ≡ true = ap q twin ∙ hit in rw passes got
  | inr e' ↦
      let rest : find_first (has_id file_id) rows ≡ some g = rw e' at e in
      let apart = (find_first-some (Apart x) (has_id file_id) rows g rest h.0).1 in
      elim (Bool-cases (q x)) [
        | inl both ↦ absurd (single x g apart both hit)
        | inr miss ↦ rw miss (found-here q single file_id g rows h.1 rest hit)
      ]
]

map-eq_nil : (f : Block → String) (xs : List Block) → map f xs ≡ [] → xs ≡ []
map-eq_nil f [] h = refl
map-eq_nil f (x ∷ xs) h = absurd (cc)

keep-eq_nil : (p : Block → Bool) (xs : List Block) → keep p xs ≡ [] → All (λ x. p x ≡ false) xs
keep-eq_nil p [] h = tt
keep-eq_nil p (x ∷ xs) h = elim (Bool-cases (p x)) [
  | inl e ↦ let bad = rw e at h in absurd (cc)
  | inr e ↦ (e, keep-eq_nil p xs (rw e at h))
]

ensure_can_commit-ok :
    (f : File) (below : List String) (now : ℕ)
    → ensure_can_commit f below now ≡ ok tt
    → (f.state ≡ writing) × (is_expired f now ≡ false) × (below ≡ [])
ensure_can_commit-ok f below now can = elim (ensure_can_commit_lem f below now) [
  | inl (_, a, b, c) ↦ (a, b, c)
  | inr (inl (e, _)) ↦ absurd (cc)
  | inr (inr (inl (e, _, _))) ↦ absurd (cc)
  | inr (inr (inr (e, _, _, _))) ↦ absurd (cc)
]

-- No id is reported: each block of the file has the copies.
ids_below-eq_nil :
    (file_id : String) (quorum : ℕ) (db : Database)
    → ids_below file_id quorum db ≡ []
    → All (λ b. of_file file_id b ≡ true → quorum ≤ copies b.block_id db.replicas) db.blocks
ids_below-eq_nil file_id quorum db h =
    let listed =
      keep-eq_nil (below_quorum quorum db.replicas) (blocks_of file_id db.blocks)
        (map-eq_nil (λ (b : Block). b.block_id) _ h) in
    All-imp _ _ db.blocks (λ b f own. ltb→le' (copies b.block_id db.replicas) quorum (f own))
      (All-keep (λ b. below_quorum quorum db.replicas b ≡ false) (of_file file_id) db.blocks
        (All-sorted in_order _ (keep (of_file file_id) db.blocks) listed))
  where
    ltb→le' : (a b : ℕ) → ltb a b ≡ false → b ≤ a
    ltb→le' a b e = ground arith

module _ (owner_id file_id : String) (write_quorum : ℕ) (wrapped_key key_algo : String) (now : ℕ)
    (db : Database) where
  abbrev after : List File
  after = (commit_file owner_id file_id write_quorum wrapped_key key_algo now db).1.files

  -- At most one committed file of a name in a directory, and one row of an id: if that holds of the
  -- tables then it holds after `commit_file`, whatever it answers.
  pub commit_file-OneVisible : OneVisible db.files → OneVisible after
  commit_file-OneVisible h =
      elim (commit_file_lem owner_id file_id write_quorum wrapped_key key_algo now db) [
        | inl (e, out, why) ↦ subst OneVisible (sym (ap (λ r. r.1.files) out)) h
        | inr (f, (found, owns), can, out) ↦
            subst OneVisible (sym (ap (λ (d : Database). d.files) out)) (
              published-OneVisible f wrapped_key key_algo now db.files h (
                subst (λ x. find_first (has_id x) db.files ≡ some f)
                  (sym (found_id file_id db.files f found)) found))
      ]

  -- A commit that answers a result made the file visible: the table then has the row of the reservation
  -- with its name, owner and size, COMMITTED at that time and without an expiry; and, if the table had
  -- at most one visible file of a name, whoever looks the name up finds that row.
  pub commit_file-Visible :
      (c : CommittedFile)
      → OneVisible db.files
      → (commit_file owner_id file_id write_quorum wrapped_key key_algo now db).0 ≡ ok c
      → (f : File) × Owned owner_id file_id db f
        × (g : File) × Visible after now f g
        × (live_by_name f.directory_id f.name after ≡ some g)
  commit_file-Visible c h done =
      elim (commit_file_lem owner_id file_id write_quorum wrapped_key key_algo now db) [
        | inl (e, out, why) ↦ let bad = ap (λ r. r.0) out in absurd (cc)
        | inr (f, (found, owns), can, out) ↦
            let found' =
              subst (λ x. find_first (has_id x) db.files ≡ some f)
                (sym (found_id file_id db.files f found)) found in
            let (g, (there, same, state, at, ends)) =
              published-Visible f wrapped_key key_algo now db.files found' in
            let one = published-OneVisible f wrapped_key key_algo now db.files h found' in
            let q = is_named_in f.directory_id f.name committed in
            let named =
              found-here q (is_named_in-single f.directory_id f.name) f.id g
                (published f wrapped_key key_algo now db.files) one there
                ((is_named_in_iff f.directory_id f.name g).1
                  (same.directory_id, same.name, state)) in
            let live : live_by_name f.directory_id f.name
                  (published f wrapped_key key_algo now db.files)
                ≡ some g =
              rw named refl in
            let result =
              subst
                (λ rows. Visible rows now f g × (live_by_name f.directory_id f.name rows ≡ some g))
                (sym (ap (λ (d : Database). d.files) out)) ((there, same, state, at, ends), live) in
            (f, (found, owns), g, result.0, result.1)
      ]

  -- A commit that answers a result was admitted: the reservation was the caller's, WRITING and not
  -- expired, and each block of the file had at least as many stored copies as the quorum asks.
  pub commit_file-quorum :
      (c : CommittedFile)
      → (commit_file owner_id file_id write_quorum wrapped_key key_algo now db).0 ≡ ok c
      → ((f : File) × Owned owner_id file_id db f
          × (f.state ≡ writing)
          × (is_expired f now ≡ false))
        × All
            (λ b. of_file file_id b ≡ true → write_quorum ≤ copies b.block_id db.replicas)
            db.blocks
  commit_file-quorum c done =
      elim (commit_file_lem owner_id file_id write_quorum wrapped_key key_algo now db) [
        | inl (e, out, why) ↦ let bad = ap (λ r. r.0) out in absurd (cc)
        | inr (f, (found, owns), can, out) ↦
            let (state, live, below) =
              ensure_can_commit-ok f (ids_below file_id write_quorum db) now can in
            ((f, (found, owns), state, live), ids_below-eq_nil file_id write_quorum db below)
      ]
