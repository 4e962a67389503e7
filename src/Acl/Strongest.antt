-- ===== src/Acl/Strongest.antt =====
-- control_node/domain/acl.py: which entry of one directory decides.
use mathlib.Core.List.{Mem, mem-cons_self, mem-cons_of_mem}
use dfsha_telematica.Prelude.{
  ℕ, ◌≤◌, String, ◌≡◌, refl, ◌∙◌, ap, true, false, ◌&&◌, Option, none, some, List, [], ◌∷◌, arith,
  All, All-imp, keep, keep-All, ltb, string_eq, ◌⊎◌, inl, inr, Bool-cases, if◌then◌else◌,
}
use dfsha_telematica.Acl.{
  Permission, user, group, grant_as, rank, AclEntry, Grant, applies, grant_of, improves, best_of,
}

-- The rank of what is granted so far, and 0 for nothing.
abbrev pub rank_of : Option Grant → ℕ
rank_of none = 0
rank_of (some g) = rank g.permission

pub rank-positive : (p : Permission) → rank p ≤ 0 → ⊥
rank-positive p h = ground arith

module _ (user_id : String) (user_groups : List String) where
  -- No entry of the list is for this user.
  abbrev pub Silent : List AclEntry → Type 0
  Silent es = All (λ e. applies user_id user_groups e ≡ false) es

  -- A grant is that of an entry of the directory which applies, and no entry that applies gives more.
  pub record Strongest (directory_id : String) (es : List AclEntry) (g : Grant) : Type 0 where
    pub entry : AclEntry
    pub held : Mem entry es
    pub applying : applies user_id user_groups entry ≡ true
    pub granted : grant_of entry directory_id ≡ g
    pub greatest :
        All (λ e. rank e.permission ≤ rank g.permission) (keep (applies user_id user_groups) es)

  -- The same, while the loop runs: a grant is that of an entry of the directory which applies, and no entry that applies gives more.
  pub record Top (directory_id : String) (es : List AclEntry) (g : Grant) : Type 0 where
    entry : AclEntry
    held : Mem entry es
    applying : applies user_id user_groups entry ≡ true
    granted : grant_of entry directory_id ≡ g
    greatest :
        All (λ e. applies user_id user_groups e ≡ true → rank e.permission ≤ rank g.permission) es

  pub Top-Strongest :
      {directory_id : String} {es : List AclEntry} {g : Grant}
      → Top directory_id es g
      → Strongest directory_id es g
  Top-Strongest {directory_id} {es} {g} top = record {
    entry = top.entry;
    held = top.held;
    applying = top.applying;
    granted = top.granted;
    greatest =
        All-imp _ _ (keep (applies user_id user_groups) es) (λ e x. x.1 x.0)
          (keep-All _ (applies user_id user_groups) es top.greatest);
  }

  Top-further :
      (directory_id : String) (e : AclEntry) (es : List AclEntry) (g : Grant)
      → (applies user_id user_groups e ≡ true → rank e.permission ≤ rank g.permission)
      → Top directory_id es g
      → Top directory_id (e ∷ es) g
  Top-further directory_id e es g le st = record {
    entry = st.entry;
    held = mem-cons_of_mem e st.held;
    applying = st.applying;
    granted = st.granted;
    greatest = (le, st.greatest);
  }

  improves_lem :
      (best : Option Grant) (e : AclEntry)
      → ((improves best e ≡ true) × (rank_of best ≤ rank e.permission))
        ⊎ ((improves best e ≡ false) × (rank e.permission ≤ rank_of best))
  improves_lem none e = inl (refl, ground arith)
  improves_lem (some g) e = elim (Bool-cases (ltb (rank g.permission) (rank e.permission))) [
    | inl h ↦ inl (h, ground arith)
    | inr h ↦ inr (h, ground arith)
  ]

  grant_of-permission : (e : AclEntry) (d : String) → (grant_of e d).permission ≡ e.permission
  unfolding grant_of
  grant_of-permission e d =
      elim (e.principal_type) as (λ t. (grant_as t e d).permission ≡ e.permission) [
        | user ↦ refl
        | group ↦ refl
      ]

  abbrev pub Best : String → Option Grant → List AclEntry → Option Grant → Type 0
  Best directory_id best es result =
      ((result ≡ best)
        × All (λ e. applies user_id user_groups e ≡ true → rank e.permission ≤ rank_of best) es)
      ⊎ ((g : Grant) × (result ≡ some g)
          × Top directory_id es g
          × (rank_of best ≤ rank g.permission))

  -- What the inner loop does from the grant that it has.
  pub best_of_lem :
      (directory_id : String) (best : Option Grant) (es : List AclEntry)
      → Best directory_id best es (best_of user_id user_groups directory_id best es)
  unfolding best_of
  best_of_lem directory_id best [] = inl (refl, tt)
  best_of_lem directory_id best (e ∷ es) = elim (Bool-cases (applies user_id user_groups e)) [
    | inr silent ↦
        past (step (rw silent refl)) (λ h. absurd (cc)) (best_of_lem directory_id best es)
    | inl applying ↦ elim (improves_lem best e) [
      | inr (low, le) ↦
          past (step (rw (applying, low) refl)) (λ h. le) (best_of_lem directory_id best es)
      | inl (high, le) ↦
          taken (step (rw (applying, high) refl)) applying le
            (best_of_lem directory_id (some (grant_of e directory_id)) es)
    ]
  ]
    where
      step :
          {now : Option Grant}
          → (if applies user_id user_groups e && improves best e
              then some (grant_of e directory_id)
              else best)
            ≡ now
          → best_of user_id user_groups directory_id best (e ∷ es)
            ≡ best_of user_id user_groups directory_id now es
      step h = ap (λ b. best_of user_id user_groups directory_id b es) h

      past :
          {result result' : Option Grant}
          → result' ≡ result
          → (applies user_id user_groups e ≡ true → rank e.permission ≤ rank_of best)
          → Best directory_id best es result
          → Best directory_id best (e ∷ es) result'
      past eq le (inl (same, all)) = inl (eq ∙ same, (le, all))
      past eq le (inr (g, got, st, up)) =
          inr (g, eq ∙ got, Top-further directory_id e es g (λ h. ground (arith, le h)) st, up)

      taken :
          {result result' : Option Grant}
          → result' ≡ result
          → applies user_id user_groups e ≡ true
          → rank_of best ≤ rank e.permission
          → Best directory_id (some (grant_of e directory_id)) es result
          → Best directory_id best (e ∷ es) result'
      taken eq applying le (inl (same, all)) = inr (
        grant_of e directory_id,
        eq ∙ same,
        record {
          entry = e;
          held = mem-cons_self;
          applying = applying;
          granted = refl;
          greatest = ((λ h. rw (grant_of-permission e directory_id) (ground arith)), all);
        },
        rw (grant_of-permission e directory_id) le,
      )
      taken eq applying le (inr (g, got, st, up)) =
          let up' = rw (grant_of-permission e directory_id) at up in
          inr (g, eq ∙ got, Top-further directory_id e es g (λ h. up') st, ground arith)
