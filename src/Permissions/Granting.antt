-- ===== src/Permissions/Granting.antt =====
-- control_node/services/permissions.py: whom a grant lets pass.
use mathlib.Core.List.{reverse, reverse-append}
use dfsha_telematica.Prelude.{
  ℕ, suc, ◌≤◌, String, ◌≡◌, refl, ap, ◌∙◌, true, Option, none, some, List, [], ◌∷◌, ◌++◌, map,
  arith, length, All-In, In, In-keep, keep, le→leb, leb, ◌==◌, ==_iff, string_eq, inl, inr,
  Bool-cases, Option-cases,
}
use dfsha_telematica.Errors.{IsOk}
use dfsha_telematica.Entities.{Directory}
use dfsha_telematica.Acl.{
  Permission, rank, AclEntry, Grant, user, admin, mem, applies, best_of, nearest, resolve,
}
use dfsha_telematica.Rows.{AclRow}
use dfsha_telematica.Session.{Session}
use dfsha_telematica.Database.{Database}
use dfsha_telematica.Repositories.DirectoryRows.Depth.{IsTree, IsDeep}
use dfsha_telematica.Repositories.DirectoryRows.Descendants.{In-map}
use dfsha_telematica.Repositories.AclRows.{entry_of, rows_for, grouped}
use dfsha_telematica.Permissions.{at_least, chain_up, ancestor_chain, effective_permission, require}
use dfsha_telematica.Permissions.Above.{groups_if_any-ok}
use dfsha_telematica.Permissions.Reached.{rank_of, best_of-reaches, chain_up-last, chain_up-some}

abbrev pub ids_of : List Directory → List String
ids_of chain = map (λ (x : Directory). x.id) chain

last_id :
    (above : List Directory) (d : Directory)
    → (rest : List String) × (reverse (ids_of (above ++ d ∷ [])) ≡ d.id ∷ rest)
last_id above d = (
  reverse (ids_of above),
  ap reverse (ids-append above) ∙ reverse-append (ids_of above) (d.id ∷ []),
)
  where
    ids-append : (xs : List Directory) → ids_of (xs ++ d ∷ []) ≡ ids_of xs ++ d.id ∷ []
    ids-append [] = refl
    ids-append (x ∷ xs) = ap (λ l. x.id ∷ l) (ids-append xs)

mem_last : (above : List Directory) (d : Directory) → mem d.id (ids_of (above ++ d ∷ [])) ≡ true
mem_last [] d = ground (arith, ==_iff d.id d.id)
mem_last (x ∷ xs) d = ground (arith, mem_last xs d)

module _ (user_id : String) (groups : List String) (minimum : Permission) where
  nearest-reaches :
      (entries : String → List AclEntry) (d : String) (ds : List String)
      → rank minimum ≤ rank_of (best_of user_id groups d none (entries d))
      → rank minimum ≤ rank_of (nearest user_id groups entries (d ∷ ds))
  unfolding nearest
  nearest-reaches entries d ds h = elim (Option-cases (best_of user_id groups d none (entries d))) [
    | inl e ↦ absurd (nothing minimum (rw e at h))
    | inr (g, e) ↦ let h' : rank minimum ≤ rank g.permission = rw e at h in rw (nearest, e) h'
  ]
    where
      nothing : (p : Permission) → rank p ≤ 0 → ⊥
      nothing p h = ground arith

  enough : (o : Option Grant) → rank minimum ≤ rank_of o → at_least o minimum ≡ true
  enough none h = absurd (nothing minimum h)
    where
      nothing : (p : Permission) → rank p ≤ 0 → ⊥
      nothing p h = ground arith
  enough (some g) h = le→leb (rank minimum) (rank g.permission) h

  resolved :
      (owner : String) (ids rest : List String) (entries : String → List AclEntry) (d : String)
      → reverse ids ≡ d ∷ rest
      → rank minimum ≤ rank_of (best_of user_id groups d none (entries d))
      → at_least (resolve user_id owner ids entries groups) minimum ≡ true
  unfolding resolve
  resolved owner ids rest entries d e h = elim (Bool-cases (user_id == owner)) [
    | inl own ↦ rw own (most minimum)
    | inr other ↦
        rw (other, e)
          (enough (nearest user_id groups entries (d ∷ rest)) (nearest-reaches entries d rest h))
  ]
    where
      most : (p : Permission) → leb (rank p) (rank admin) ≡ true
      most p = ground arith

module _ (depth : String → ℕ) (user_id : String) (d : Directory) (minimum : Permission)
    (s : Session Database) where
  abbrev IsGranted : AclRow → Type 0
  IsGranted row =
      (row.directory_id ≡ d.id)
      × (row.principal_type ≡ user)
      × (row.principal_id ≡ user_id)
      × (rank minimum ≤ rank row.permission)

  entry_reaches :
      (ids : List String) (groups : List String) (row : AclRow)
      → In row s.working.acl_entries
      → IsGranted row
      → mem d.id ids ≡ true
      → rank minimum
        ≤ rank_of
            (best_of user_id groups d.id none (grouped (rows_for ids s.working.acl_entries) d.id))
  unfolding applies
  entry_reaches ids groups row i (at, kind, who, le) m =
      let kept =
        In-keep (λ (r : AclRow). mem r.directory_id ids) s.working.acl_entries row
          (ap (λ x. mem x ids) at ∙ m) i in
      let there =
        In-keep (λ (r : AclRow). r.directory_id == d.id) (rows_for ids s.working.acl_entries) row
          ((==_iff row.directory_id d.id).1 at) kept in
      let entry =
        In-map entry_of
          (keep (λ (r : AclRow). r.directory_id == d.id) (rows_for ids s.working.acl_entries)) row
          there in
      let applying : applies user_id groups (entry_of row) ≡ true =
        rw kind ((==_iff row.principal_id user_id).1 who) in
      let more =
        best_of-reaches user_id groups d.id none (grouped (rows_for ids s.working.acl_entries) d.id)
          (entry_of row) entry applying in
      omega (arith, more, le)

  -- A grant to a user, on a directory of a table that is a tree, lets that user pass with every right up
  -- to the one granted, whatever is granted above.
  pub require-granted :
      IsTree depth s.working.directories
      → In d s.working.directories
      → (row : AclRow) → In row s.working.acl_entries
      → IsGranted row
      → IsOk (require user_id d minimum s).0
  unfolding require effective_permission ancestor_chain
  require-granted tree held row i granted =
      let rows = s.working.directories in
      let deep = All-In (IsDeep depth (length rows)) d rows tree held in
      let (chain, e) =
        chain_up-some rows depth tree (length rows) d []
          (λ up p. let lower = deep.1 up p in omega (arith, lower, deep.0)) in
      let (above, is) = chain_up-last rows (suc (length rows)) d [] chain e in
      passes above (e ∙ ap some is)
    where
      passes :
          (above : List Directory)
          → chain_up s.working.directories (suc (length s.working.directories)) d []
            ≡ some (above ++ d ∷ [])
          → IsOk (require user_id d minimum s).0
      passes above e =
          let ids = ids_of (above ++ d ∷ []) in
          let held_rows = rows_for ids s.working.acl_entries in
          let (groups, g) = groups_if_any-ok held_rows user_id s in
          let (rest, last) = last_id above d in
          let reach = entry_reaches ids groups row i granted (mem_last above d) in
          let good =
            resolved user_id groups minimum d.owner_id ids rest (grouped held_rows) d.id last
              reach in
          rw (e, g, good) tt
