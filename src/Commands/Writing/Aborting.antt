-- ===== src/Commands/Writing/Aborting.antt =====
-- control_node/commands/files.py: what `abort_file` leaves in the tables.
use dfsha_telematica.Prelude.{
  ℕ, String, ◌≡◌, refl, sym, ap, ◌∙◌, subst, some, find_first, update_where, ==_iff, string_eq, ◌⊎◌,
  inl, inr, Bool-cases, if◌then◌else◌,
}
use dfsha_telematica.Errors.{ok, err, not_found, invalid_state}
use dfsha_telematica.Entities.{File, FileState, writing, committed, deleted, file_state_eq}
use dfsha_telematica.Rules.{ensure_can_abort}
use dfsha_telematica.Database.{Database}
use dfsha_telematica.Repositories.FileRows.{has_id, as_deleted}
use dfsha_telematica.Commands.Writing.{CommittedFile, commit_file, abort_file}
use dfsha_telematica.Commands.Writing.OneVisible.{published}
use dfsha_telematica.Commands.Writing.Row.{found-update, published-Visible}
use dfsha_telematica.Commands.Writing.Outcome.{
  Owned, NoneOwned, owned-cases, found_id, commit_file_lem, settled,
}

abbrev pub dropped : String → ℕ → Database → Database
dropped file_id now db = record db {
  files = update_where (has_id file_id) (as_deleted now) db.files;
}

state-cases : (s : FileState) → (s ≡ writing) ⊎ (s ≡ committed) ⊎ (s ≡ deleted)
state-cases writing = inl refl
state-cases committed = inr (inl refl)
state-cases deleted = inr (inr refl)

module _ (owner_id file_id : String) (now : ℕ) (db : Database) where
  -- What an abort does, in all cases: it finds no reservation of the caller's and changes nothing; or
  -- the file is COMMITTED, the abort is refused and changes nothing; or the file is WRITING and its
  -- row alone becomes DELETED; or it is DELETED already, and the abort succeeds and changes nothing.
  pub abort_file_lem :
      ((abort_file owner_id file_id now db ≡ (err not_found, db)) × NoneOwned owner_id file_id db)
      ⊎ ((f : File) × Owned owner_id file_id db f
          × (((f.state ≡ committed)
                × (abort_file owner_id file_id now db ≡ (err invalid_state, db)))
              ⊎ ((f.state ≡ writing)
                  × (abort_file owner_id file_id now db ≡ (ok tt, dropped file_id now db)))
              ⊎ ((f.state ≡ deleted) × (abort_file owner_id file_id now db ≡ (ok tt, db)))))
  unfolding abort_file ensure_can_abort
  abort_file_lem = elim (owned-cases owner_id file_id db) [
    | inl (e, no_one) ↦ inl (rw e refl, no_one)
    | inr (f, e, same, id) ↦ inr (
      f,
      (e, (==_iff f.owner_id owner_id).0 same),
      elim (state-cases f.state) [
        | inl w ↦ inr (inl (w, rw (e, same, w) refl))
        | inr (inl c) ↦ inl (c, rw (e, same, c) refl)
        | inr (inr d) ↦ inr (inr (d, rw (e, same, d) refl))
      ],
    )
  ]

module _ (owner_id file_id : String) (later : ℕ) (db : Database) where
  abort_deleted :
      (f : File)
      → Owned owner_id file_id db f
      → f.state ≡ deleted
      → abort_file owner_id file_id later db ≡ (ok tt, db)
  unfolding abort_file ensure_can_abort
  abort_deleted f (e, owns) d = rw (e, (==_iff f.owner_id owner_id).1 owns, d) refl

  abort_committed :
      (f : File)
      → Owned owner_id file_id db f
      → f.state ≡ committed
      → abort_file owner_id file_id later db ≡ (err invalid_state, db)
  unfolding abort_file ensure_can_abort
  abort_committed f (e, owns) c = rw (e, (==_iff f.owner_id owner_id).1 owns, c) refl

module _ (owner_id file_id : String) (now later : ℕ) (db : Database) where
  dropped-Owned :
      (f : File)
      → Owned owner_id file_id db f
      → Owned owner_id file_id (dropped file_id now db) (as_deleted now f)
  dropped-Owned f (e, owns) =
      let hit = (==_iff f.id file_id).1 (found_id file_id db.files f e) in
      let there =
        found-update (has_id file_id) (has_id file_id) (as_deleted now) has_id-kept f db.files e in
      (rw hit at there, owns)
    where
      has_id-kept :
          (x : File)
          → has_id file_id (if has_id file_id x then as_deleted now x else x) ≡ has_id file_id x
      has_id-kept x = elim (Bool-cases (has_id file_id x)) [ inl e ↦ rw e e | inr e ↦ rw e e ]

  -- An abort is idempotent: after one that succeeds, another one at any time succeeds too and changes
  -- nothing.
  pub abort_file-idempotent :
      (abort_file owner_id file_id now db).0 ≡ ok tt
      → abort_file owner_id file_id later (abort_file owner_id file_id now db).1
        ≡ (ok tt, (abort_file owner_id file_id now db).1)
  abort_file-idempotent done = elim (abort_file_lem owner_id file_id now db) [
    | inl (out, _) ↦ let bad = ap (λ r. r.0) out in absurd (cc)
    | inr (f, _, inl (_, out)) ↦ let bad = ap (λ r. r.0) out in absurd (cc)
    | inr (f, owned, inr (inl (_, out))) ↦
        subst (λ d. abort_file owner_id file_id later d ≡ (ok tt, d)) (sym (ap (λ r. r.1) out))
          (abort_deleted owner_id file_id later (dropped file_id now db) (as_deleted now f)
            (dropped-Owned f owned) refl)
    | inr (f, owned, inr (inr (d, out))) ↦
        subst (λ d. abort_file owner_id file_id later d ≡ (ok tt, d)) (sym (ap (λ r. r.1) out))
          (abort_deleted owner_id file_id later db f owned d)
  ]

  -- A file that a commit made visible is not aborted: an abort at any time afterwards is refused with
  -- `invalid_state` and changes nothing.
  pub commit_file-abort_file :
      (write_quorum : ℕ) (wrapped_key key_algo : String) (c : CommittedFile)
      → (commit_file owner_id file_id write_quorum wrapped_key key_algo now db).0 ≡ ok c
      → abort_file owner_id file_id later
          (commit_file owner_id file_id write_quorum wrapped_key key_algo now db).1
        ≡ (
          err invalid_state,
          (commit_file owner_id file_id write_quorum wrapped_key key_algo now db).1,
        )
  commit_file-abort_file write_quorum wrapped_key key_algo c done =
      elim (commit_file_lem owner_id file_id write_quorum wrapped_key key_algo now db) [
        | inl (e, out, why) ↦ let bad = ap (λ r. r.0) out in absurd (cc)
        | inr (f, (found, owns), can, out) ↦
            let id = found_id file_id db.files f found in
            let (g, (there, same, state, _, _)) =
              published-Visible f wrapped_key key_algo now db.files
                (subst (λ x. find_first (has_id x) db.files ≡ some f) (sym id) found) in
            subst (λ d. abort_file owner_id file_id later d ≡ (err invalid_state, d)) (sym out)
              (abort_committed owner_id file_id later (settled f wrapped_key key_algo now db) g
                (
                  subst
                      (λ x.
                        find_first (has_id x) (published f wrapped_key key_algo now db.files)
                        ≡ some g)
                      id there,
                  same.owner_id ∙ owns,
                )
                state)
      ]
