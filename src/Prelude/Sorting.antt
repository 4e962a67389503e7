-- ===== src/Prelude/Sorting.antt =====
-- Python's `sorted`: a stable sort by a total order.
use mathlib.Core.Path.{◌≡◌}
use mathlib.Core.Logic.{inl, inr}
use mathlib.Core.Bool.{Bool, true, false}
use mathlib.Core.List.{List, [], ◌∷◌}
use dfsha_telematica.Prelude.Tests.{if◌then◌else◌, Bool-cases}
use dfsha_telematica.Prelude.Lists.{All, All-imp}

module _ {ℓ} {A : Type ℓ} (le : A → A → Bool) where
  abbrev pub insert : A → List A → List A
  insert x [] = x ∷ []
  insert x (y ∷ ys) = let rest = insert x ys in if le x y then x ∷ y ∷ ys else y ∷ rest

  abbrev pub sorted : List A → List A
  sorted [] = []
  sorted (x ∷ xs) = insert x (sorted xs)

  abbrev pub IsSorted : List A → Type 0
  IsSorted [] = Unit
  IsSorted (x ∷ xs) = All (λ y. le x y ≡ true) xs × IsSorted xs

  pub insert-All : (P : A → Type 0) (x : A) (ys : List A) → P x → All P ys → All P (insert x ys)
  insert-All P x [] h hs = (h, tt)
  insert-All P x (y ∷ ys) h hs = elim (Bool-cases (le x y)) [
    | inl e ↦ rw e (h, hs)
    | inr e ↦ rw e (hs.0, insert-All P x ys h hs.1)
  ]

  -- What holds of the elements holds of the sorted ones.
  pub sorted-All : (P : A → Type 0) (xs : List A) → All P xs → All P (sorted xs)
  sorted-All P [] h = tt
  sorted-All P (x ∷ xs) h = insert-All P x (sorted xs) h.0 (sorted-All P xs h.1)

  All-insert : (P : A → Type 0) (x : A) (ys : List A) → All P (insert x ys) → P x × All P ys
  All-insert P x [] h = h
  All-insert P x (y ∷ ys) h = elim (Bool-cases (le x y)) [
    | inl e ↦ rw e at h
    | inr e ↦ let h' = rw e at h in let (p, rest) = All-insert P x ys h'.1 in (p, (h'.0, rest))
  ]

  -- What holds of the sorted elements holds of the elements.
  pub All-sorted : (P : A → Type 0) (xs : List A) → All P (sorted xs) → All P xs
  All-sorted P [] h = tt
  All-sorted P (x ∷ xs) h =
      let (p, rest) = All-insert P x (sorted xs) h in (p, All-sorted P xs rest)

  module _ (total : (x y : A) → le x y ≡ false → le y x ≡ true)
      (trans : (x y z : A) → le x y ≡ true → le y z ≡ true → le x z ≡ true) where
    insert-IsSorted : (x : A) (ys : List A) → IsSorted ys → IsSorted (insert x ys)
    insert-IsSorted x [] h = (tt, tt)
    insert-IsSorted x (y ∷ ys) h = elim (Bool-cases (le x y)) [
      | inl e ↦ rw e ((e, All-imp _ _ ys (λ z. trans x y z e) h.0), h)
      | inr e ↦ rw e (insert-All _ x ys (total x y e) h.0, insert-IsSorted x ys h.1)
    ]

    pub sorted-IsSorted : (xs : List A) → IsSorted (sorted xs)
    sorted-IsSorted [] = tt
    sorted-IsSorted (x ∷ xs) = insert-IsSorted x (sorted xs) (sorted-IsSorted xs)
