-- ===== src/Prelude/Members.antt =====
-- An element of a list, by its place: where the rows of a query or of a statement come from.
use mathlib.Core.Path.{◌≡◌, refl, sym, ap, ◌∙◌}
use mathlib.Core.Logic.{◌⊎◌, inl, inr}
use mathlib.Core.Bool.{Bool, true}
use mathlib.Core.Option.{some}
use mathlib.Core.List.{List, [], ◌∷◌, ◌++◌, map}
use native.Mathlib.Omega.{arith}
use dfsha_telematica.Prelude.Tests.{if◌then◌else◌, Bool-cases}
use dfsha_telematica.Prelude.Lists.{
  All, All-imp, keep, any_of, find_first, find_first-some, update_where,
}
use dfsha_telematica.Prelude.Sorting.{sorted, sorted-All, All-sorted}

module _ {A : Type 0} where
  -- An element of a list, by its place.
  abbrev pub In : A → List A → Type 0
  In x [] = ⊥
  In x (y ∷ ys) = (x ≡ y) ⊎ In x ys

  pub All-In : (P : A → Type 0) (x : A) (xs : List A) → All P xs → In x xs → P x
  All-In P x [] h i = absurd i
  All-In P x (y ∷ ys) h (inl e) = rw e h.0
  All-In P x (y ∷ ys) h (inr i) = All-In P x ys h.1 i

  pub In-self : (xs : List A) → All (λ x. In x xs) xs
  In-self [] = tt
  In-self (x ∷ xs) = (inl refl, All-imp (λ y. In y xs) _ xs (λ y. inr) (In-self xs))

  pub In-sorted : (le : A → A → Bool) (xs : List A) → All (λ x. In x (sorted le xs)) xs
  In-sorted le xs = All-sorted le (λ x. In x (sorted le xs)) xs (In-self (sorted le xs))

  -- Where an element of a filtered or mapped list comes from.
  pub keep-In : (p : A → Bool) (xs : List A) (x : A) → In x (keep p xs) → (p x ≡ true) × In x xs
  keep-In p [] x i = absurd i
  keep-In p (y ∷ ys) x i = elim (Bool-cases (p y)) [
    | inr e ↦ let (t, j) = keep-In p ys x (rw e at i) in (t, inr j)
    | inl e ↦ first e (keep-In p ys x) (rw e at i)
  ]
    where
      first :
          p y ≡ true
          → (In x (keep p ys) → (p x ≡ true) × In x ys)
          → In x (y ∷ keep p ys)
          → (p x ≡ true) × In x (y ∷ ys)
      first e rest (inl same) = (ap p same ∙ e, inl same)
      first e rest (inr j) = let (t, k) = rest j in (t, inr k)

  pub In-append-left : (x : A) (xs ys : List A) → In x xs → In x (xs ++ ys)
  In-append-left x [] ys i = absurd i
  In-append-left x (z ∷ xs) ys (inl e) = inl e
  In-append-left x (z ∷ xs) ys (inr i) = inr (In-append-left x xs ys i)

  pub In-append-right : (x : A) (xs ys : List A) → In x ys → In x (xs ++ ys)
  In-append-right x [] ys i = i
  In-append-right x (z ∷ xs) ys i = inr (In-append-right x xs ys i)

  pub append-In : (x : A) (xs ys : List A) → In x (xs ++ ys) → In x xs ⊎ In x ys
  append-In x [] ys i = inr i
  append-In x (z ∷ xs) ys (inl e) = inl (inl e)
  append-In x (z ∷ xs) ys (inr i) = elim (append-In x xs ys i) [
    | inl j ↦ inl (inr j)
    | inr j ↦ inr j
  ]

  pub snoc-In : (x : A) (xs : List A) (y : A) → In x (xs ++ y ∷ []) → In x xs ⊎ (x ≡ y)
  snoc-In x xs y i = elim (append-In x xs (y ∷ []) i) [
    | inl old ↦ inl old
    | inr (inl new) ↦ inr new
    | inr (inr none_left) ↦ absurd none_left
  ]

  -- The rows of an UPDATE, and what becomes of a row.
  pub update-In :
      (p : A → Bool) (u : A → A) (xs : List A) (x : A)
      → In x (update_where p u xs)
      → (y : A) × (x ≡ (if p y then u y else y)) × In y xs
  update-In p u [] x i = absurd i
  update-In p u (z ∷ xs) x (inl e) = (z, e, inl refl)
  update-In p u (z ∷ xs) x (inr i) = let (y, e, j) = update-In p u xs x i in (y, e, inr j)

  pub In-update :
      (p : A → Bool) (u : A → A) (xs : List A) (y : A)
      → In y xs
      → In (if p y then u y else y) (update_where p u xs)
  In-update p u [] y i = absurd i
  In-update p u (z ∷ xs) y (inl e) = inl (ap (λ w. if p w then u w else w) e)
  In-update p u (z ∷ xs) y (inr i) = inr (In-update p u xs y i)

  pub find_first-In :
      (p : A → Bool) (xs : List A) (y : A) → find_first p xs ≡ some y → (p y ≡ true) × In y xs
  find_first-In p xs y e = find_first-some (λ x. In x xs) p xs y e (In-self xs)

  pub In-keep : (p : A → Bool) (xs : List A) (x : A) → p x ≡ true → In x xs → In x (keep p xs)
  In-keep p [] x t i = absurd i
  In-keep p (y ∷ ys) x t (inl e) = rw (ap p (sym e) ∙ t) (inl e)
  In-keep p (y ∷ ys) x t (inr i) = elim (Bool-cases (p y)) [
    | inl e ↦ rw e (inr (In-keep p ys x t i))
    | inr e ↦ rw e (In-keep p ys x t i)
  ]

  -- The test of `id IN (...)`.
  pub any_of-In : (p : A → Bool) (xs : List A) (x : A) → p x ≡ true → In x xs → any_of p xs ≡ true
  any_of-In p [] x t i = absurd i
  any_of-In p (y ∷ ys) x t (inl e) = rw (ap p (sym e) ∙ t) refl
  any_of-In p (y ∷ ys) x t (inr i) = ground (arith, any_of-In p ys x t i)

  pub In-any_of :
      (p : A → Bool) (xs : List A) → any_of p xs ≡ true → (x : A) × (p x ≡ true) × In x xs
  In-any_of p [] h = absurd (cc)
  In-any_of p (y ∷ ys) h = elim (Bool-cases (p y)) [
    | inl e ↦ (y, e, inl refl)
    | inr e ↦ let (x, t, i) = In-any_of p ys (ground (arith, e, h)) in (x, t, inr i)
  ]

pub map-In :
    {A B : Type 0} (f : A → B) (xs : List A) (y : B)
    → In y (map f xs)
    → (x : A) × (y ≡ f x) × In x xs
map-In f [] y i = absurd i
map-In f (x ∷ xs) y (inl e) = (x, e, inl refl)
map-In f (x ∷ xs) y (inr i) = let (z, e, j) = map-In f xs y i in (z, e, inr j)

pub sorted-In :
    {A : Type 0} (le : A → A → Bool) (xs : List A) (x : A) → In x (sorted le xs) → In x xs
sorted-In le xs x i =
    All-In (λ y. In y xs) x (sorted le xs) (sorted-All le (λ y. In y xs) xs (In-self xs)) i
