-- ===== src/Acl/Resolve.antt =====
-- control_node/domain/acl.py: which directory decides.
use mathlib.Core.List.{reverse}
use dfsha_telematica.Prelude.{
  ◌≤◌, String, ◌≡◌, ◌≢◌, refl, ◌∙◌, ap, true, false, none, some, List, [], ◌∷◌, ◌++◌, arith, All,
  All-imp, ◌==◌, ==_iff, string_eq, ◌⊎◌, inl, inr, Bool-cases,
}
use dfsha_telematica.Acl.{rank, AclEntry, Grant, applies, best_of, nearest, resolve}
use dfsha_telematica.Acl.Strongest.{rank-positive, Silent, Strongest, Top-Strongest, best_of_lem}

module _ (user_id : String) (user_groups : List String) where
  -- The directory that decides, with only silent ones before it.
  pub record Decides (entries : String → List AclEntry) (ds : List String) (g : Grant)
      : Type 0 where
    pub closer : List String
    pub deciding : String
    pub farther : List String
    pub split : ds ≡ closer ++ deciding ∷ farther
    pub silent : All (λ d. Silent user_id user_groups (entries d)) closer
    pub strongest : Strongest user_id user_groups deciding (entries deciding) g

  module _ (entries : String → List AclEntry) where
    nearest_here :
        (d : String) (ds : List String) (g : Grant)
        → best_of user_id user_groups d none (entries d) ≡ some g
        → nearest user_id user_groups entries (d ∷ ds) ≡ some g
    unfolding nearest
    nearest_here d ds g h = rw (nearest, h) refl

    nearest_above :
        (d : String) (ds : List String)
        → best_of user_id user_groups d none (entries d) ≡ none
        → nearest user_id user_groups entries (d ∷ ds) ≡ nearest user_id user_groups entries ds
    unfolding nearest
    nearest_above d ds h = rw (nearest, h) refl

    nearest_lem :
        (ds : List String)
        → ((nearest user_id user_groups entries ds ≡ none)
            × All (λ d. Silent user_id user_groups (entries d)) ds)
          ⊎ ((g : Grant) × (nearest user_id user_groups entries ds ≡ some g) × Decides entries ds g)
    unfolding nearest
    nearest_lem [] = inl (refl, tt)
    nearest_lem (d ∷ ds) = elim (best_of_lem user_id user_groups d none (entries d)) [
      | inr (g, got, st, _) ↦ inr (
        g,
        nearest_here d ds g got,
        record {
          closer = [];
          deciding = d;
          farther = ds;
          split = refl;
          silent = tt;
          strongest = Top-Strongest user_id user_groups st;
        },
      )
      | inl (got, low) ↦
          let quiet : Silent user_id user_groups (entries d) =
            All-imp _ _ (entries d) unranked low in
          elim (nearest_lem ds) [
            | inl (nothing, silent) ↦ inl (nearest_above d ds got ∙ nothing, (quiet, silent))
            | inr (g, found, dec) ↦ inr (
              g,
              nearest_above d ds got ∙ found,
              record {
                closer = d ∷ dec.closer;
                deciding = dec.deciding;
                farther = dec.farther;
                split = ap (λ xs. d ∷ xs) dec.split;
                silent = (quiet, dec.silent);
                strongest = dec.strongest;
              },
            )
          ]
    ]
      where
        unranked :
            (e : AclEntry)
            → (applies user_id user_groups e ≡ true → rank e.permission ≤ 0)
            → applies user_id user_groups e ≡ false
        unranked e h = elim (Bool-cases (applies user_id user_groups e)) [
          | inl t ↦ absurd (rank-positive e.permission (h t))
          | inr f ↦ f
        ]

    -- For a user who does not own the tree, `resolve` answers None if no entry of the chain
    -- applies; otherwise it answers the strongest entry that applies of one directory, and no
    -- entry of a directory below that one applies.
    pub resolve_lem :
        (owner_id : String) (chain : List String)
        → user_id ≢ owner_id
        → ((resolve user_id owner_id chain entries user_groups ≡ none)
            × All (λ d. Silent user_id user_groups (entries d)) (reverse chain))
          ⊎ ((g : Grant) × (resolve user_id owner_id chain entries user_groups ≡ some g)
              × Decides entries (reverse chain) g)
    unfolding resolve
    resolve_lem owner_id chain other =
        let no : (user_id == owner_id) ≡ false = ground (arith, other, ==_iff user_id owner_id) in
        rw no (nearest_lem (reverse chain))
