-- ===== src/Divergence/Sets.antt =====
-- control_node/domain/divergence.py: the three parts of a comparison, as sets.
use dfsha_telematica.Prelude.{
  String, ◌≡◌, refl, ◌∙◌, subst, Bool, true, false, not, ◌&&◌, ◌||◌, List, [], ◌∷◌, arith, keep,
  insert, sorted, str_leb, ◌==◌, ==_iff, string_eq, Bool-cases, inl, inr,
}
use dfsha_telematica.Divergence.{is_in, set_of, compare}

module _ (x : String) where
  is_in-insert :
      (le : String → String → Bool) (y : String) (ys : List String)
      → is_in (insert le y ys) x ≡ (y == x || is_in ys x)
  is_in-insert le y [] = refl
  is_in-insert le y (z ∷ zs) = elim (Bool-cases (le y z)) [
    | inl e ↦ rw e refl
    | inr e ↦ rw (e, is_in-insert le y zs) (ground arith)
  ]

  is_in-sorted :
      (le : String → String → Bool) (ys : List String) → is_in (sorted le ys) x ≡ is_in ys x
  is_in-sorted le [] = refl
  is_in-sorted le (y ∷ ys) = rw (is_in-insert le y (sorted le ys), is_in-sorted le ys) refl

  is_in-keep : (p : String → Bool) (ys : List String) → is_in (keep p ys) x ≡ (is_in ys x && p x)
  is_in-keep p [] = refl
  is_in-keep p (y ∷ ys) = elim (Bool-cases (p y)) [
    | inl e ↦
        rw (e, is_in-keep p ys)
          (elim (Bool-cases (y == x)) [
            | inl same ↦
                let px = subst (λ z. p z ≡ true) ((==_iff y x).0 same) e in rw (same, px) refl
            | inr other ↦ rw other refl
          ])
    | inr e ↦
        rw (e, is_in-keep p ys)
          (elim (Bool-cases (y == x)) [
            | inl same ↦
                let px = subst (λ z. p z ≡ false) ((==_iff y x).0 same) e in
                rw (same, px) (ground arith)
            | inr other ↦ rw other refl
          ])
  ]

  is_in-set_of : (ys : List String) → is_in (set_of ys) x ≡ is_in ys x
  is_in-set_of [] = refl
  is_in-set_of (y ∷ ys) = elim (Bool-cases (is_in (set_of ys) y)) [
    | inl e ↦ rw e (elim (Bool-cases (y == x)) [
      | inl same ↦ rw same (subst (λ z. is_in (set_of ys) z ≡ true) ((==_iff y x).0 same) e)
      | inr other ↦ rw other (is_in-set_of ys)
    ])
    | inr e ↦ rw (e, is_in-set_of ys) refl
  ]

  -- Of a comparison, an identifier is confirmed if it is expected and reported, unknown if it is
  -- reported and not expected, and missing if the report is full and it is expected and not
  -- reported.
  pub compare_lem :
      (expected reported : List String) (is_full : Bool)
      → (is_in (compare expected reported is_full).confirmed_block_ids x
          ≡ (is_in expected x && is_in reported x))
        × (is_in (compare expected reported is_full).unknown_block_ids x
            ≡ (not (is_in expected x) && is_in reported x))
        × (is_in (compare expected reported is_full).missing_block_ids x
            ≡ (is_full && is_in expected x && not (is_in reported x)))
  unfolding compare
  compare_lem expected reported is_full = (
    is_in-sorted str_leb _ ∙ is_in-keep _ (set_of reported) ∙ swap,
    is_in-sorted str_leb _ ∙ is_in-keep _ (set_of reported) ∙ swap_not,
    missing_lem is_full,
  )
    where
      swap :
          (is_in (set_of reported) x && is_in (set_of expected) x)
          ≡ (is_in expected x && is_in reported x)
      swap = rw (is_in-set_of expected, is_in-set_of reported) (ground arith)

      swap_not :
          (is_in (set_of reported) x && not (is_in (set_of expected) x))
          ≡ (not (is_in expected x) && is_in reported x)
      swap_not = rw (is_in-set_of expected, is_in-set_of reported) (ground arith)

      missing_lem :
          (full : Bool)
          → is_in (compare expected reported full).missing_block_ids x
            ≡ (full && is_in expected x && not (is_in reported x))
      missing_lem false = refl
      missing_lem true =
          is_in-sorted str_leb _
          ∙ is_in-keep _ (set_of expected)
          ∙ rw (is_in-set_of expected, is_in-set_of reported) refl
