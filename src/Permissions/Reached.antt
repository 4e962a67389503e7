-- ===== src/Permissions/Reached.antt =====
-- control_node/services/permissions.py: a grant on a directory reaches whom it is for.
use dfsha_telematica.Prelude.{
  ℕ, zero, suc, ◌≤◌, ◌<◌, String, ◌≡◌, refl, sym, ap, ◌∙◌, true, false, ◌&&◌, Option, none, some,
  List, [], ◌∷◌, ◌++◌, arith, length, All-In, In, In-append-right, In-any_of, In-update, any_of,
  find_first-In, ==_iff, string_eq, inl, inr, Bool-cases, if◌then◌else◌,
}
use dfsha_telematica.Entities.{Directory}
use dfsha_telematica.Acl.{
  rank, AclEntry, Grant, user, group, applies, grant_of, grant_as, improves, best_of,
}
use dfsha_telematica.Rows.{AclRow}
use dfsha_telematica.Repositories.DirectoryRows.{has_id}
use dfsha_telematica.Repositories.DirectoryRows.Depth.{IsTree, IsDeep}
use dfsha_telematica.Repositories.AclRows.{is_grant, granted}
use dfsha_telematica.Permissions.{chain_up}
use dfsha_telematica.Permissions.Above.{via_parent-cases}

-- The row is in the table once it has been granted.
pub granted-In : (row : AclRow) (rows : List AclRow) → In row (granted row rows)
granted-In row rows =
    elim (Bool-cases
      (any_of (is_grant row.directory_id row.principal_type row.principal_id) rows)) [
        | inl e ↦
            let (x, t, i) =
              In-any_of (is_grant row.directory_id row.principal_type row.principal_id) rows e in
            let there =
              In-update {A = AclRow} (is_grant row.directory_id row.principal_type row.principal_id)
                (λ r. row) rows x i in
            let there' : In row _ = rw t at there in rw e there'
        | inr e ↦ rw e (In-append-right row rows (row ∷ []) (inl refl))
      ]

abbrev pub rank_of : Option Grant → ℕ
rank_of none = 0
rank_of (some g) = rank g.permission

module _ (user_id : String) (groups : List String) (d : String) where
  rank-grant_of : (e : AclEntry) → rank (grant_of e d).permission ≡ rank e.permission
  unfolding grant_of
  rank-grant_of e =
      elim (e.principal_type) as (λ t. rank (grant_as t e d).permission ≡ rank e.permission) [
        | user ↦ refl
        | group ↦ refl
      ]

  not_improved :
      (best : Option Grant) (e : AclEntry)
      → improves best e ≡ false
      → rank e.permission ≤ rank_of best
  not_improved none e h = absurd (cc)
  not_improved (some g) e h = ground arith

  improved :
      (best : Option Grant) (e : AclEntry)
      → improves best e ≡ true
      → rank_of best ≤ rank (grant_of e d).permission
  improved none e h = omega arith
  improved (some g) e h = let same = rank-grant_of e in ground (arith, same)

  -- The fold only gets stronger, and at least as strong as each entry that applies.
  best_of-grows :
      (best : Option Grant) (es : List AclEntry)
      → rank_of best ≤ rank_of (best_of user_id groups d best es)
  unfolding best_of
  best_of-grows best [] = omega arith
  best_of-grows best (e ∷ es) = elim (Bool-cases (applies user_id groups e && improves best e)) [
    | inr past ↦ rw past (best_of-grows best es)
    | inl takes ↦
        let up = improved best e (ground (arith, takes)) in
        let more = best_of-grows (some (grant_of e d)) es in rw takes (omega (arith, up, more))
  ]

  pub best_of-reaches :
      (best : Option Grant) (es : List AclEntry) (e : AclEntry)
      → In e es
      → applies user_id groups e ≡ true
      → rank e.permission ≤ rank_of (best_of user_id groups d best es)
  unfolding best_of
  best_of-reaches best [] e i a = absurd i
  best_of-reaches best (x ∷ xs) e (inr i) a =
      best_of-reaches
        (if applies user_id groups x && improves best x then some (grant_of x d) else best) xs e i a
  best_of-reaches best (x ∷ xs) e (inl same) a =
      let here : applies user_id groups x ≡ true = ap (applies user_id groups) (sym same) ∙ a in
      let ranks = ap (λ (y : AclEntry). rank y.permission) same in
      elim (Bool-cases (improves best x)) [
        | inl t ↦
            let more = best_of-grows (some (grant_of x d)) xs in
            let is = rank-grant_of x in rw (here, t) (omega (arith, more, is, ranks))
        | inr t ↦
            let low = not_improved best x t in
            let more = best_of-grows best xs in rw (here, t) (omega (arith, low, more, ranks))
      ]

module _ (rows : List Directory) where
  -- The chain of a directory ends with the directory.
  pub chain_up-last :
      (fuel : ℕ) (current : Directory) (below chain : List Directory)
      → chain_up rows fuel current below ≡ some chain
      → (above : List Directory) × (chain ≡ above ++ current ∷ below)
  chain_up-last zero current below chain h = absurd (cc)
  chain_up-last (suc fuel) current below chain h =
      elim (via_parent-cases rows (current ∷ below)
        (λ parent. chain_up rows fuel parent (current ∷ below)) current.parent_id) [
          | inl e ↦
              let ended : some (current ∷ below) ≡ some chain = sym e ∙ h in
              ([], (let same : chain ≡ current ∷ below = cc in same))
          | inr (p, q, e, n, c) ↦
              let (above, is) = chain_up-last fuel q (current ∷ below) chain (sym c ∙ h) in
              (above ++ q ∷ [], is ∙ sym (append-assoc above q (current ∷ below)))
        ]
    where
      append-assoc :
          (xs : List Directory) (y : Directory) (zs : List Directory)
          → (xs ++ y ∷ []) ++ zs ≡ xs ++ y ∷ zs
      append-assoc [] y zs = refl
      append-assoc (x ∷ xs) y zs = ap (λ l. x ∷ l) (append-assoc xs y zs)

  -- In a tree there is enough fuel.
  pub chain_up-some :
      (depth : String → ℕ)
      → IsTree depth rows
      → (fuel : ℕ) (current : Directory) (below : List Directory)
      → ((up : String) → current.parent_id ≡ some up → depth up < fuel)
      → (chain : List Directory) × (chain_up rows (suc fuel) current below ≡ some chain)
  chain_up-some depth tree zero current below less =
      elim (via_parent-cases rows (current ∷ below) (λ parent. none) current.parent_id) [
        | inl e ↦ (_, e)
        | inr (p, q, e, n, c) ↦ let bad = less p e in absurd (omega (arith, bad))
      ]
  chain_up-some depth tree (suc fuel) current below less =
      elim (via_parent-cases rows (current ∷ below)
        (λ parent. chain_up rows (suc fuel) parent (current ∷ below)) current.parent_id) [
          | inl e ↦ (_, e)
          | inr (p, q, e, n, c) ↦
              let (t, held) = find_first-In (has_id p) rows q n in
              let deep = All-In (IsDeep depth (length rows)) q rows tree held in
              let named = ap depth ((==_iff q.id p).0 t) in
              let bound = less p e in
              let (chain, is) =
                chain_up-some depth tree fuel q (current ∷ below)
                  (λ up e'. let lower = deep.1 up e' in omega (arith, lower, named, bound)) in
              (chain, c ∙ is)
        ]
