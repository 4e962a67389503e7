-- ===== src/Prelude/Relations.antt =====
-- A symmetric relation between any two elements of a list, and an element of a list.
use mathlib.Core.Path.{◌≡◌, refl, sym, subst}
use mathlib.Core.Logic.{inl, inr}
use mathlib.Core.Bool.{Bool, true, false}
use mathlib.Core.List.{List, [], ◌∷◌, ◌++◌, map, reverse, reverse-append}
use dfsha_telematica.Prelude.Tests.{if◌then◌else◌, Bool-cases}
use dfsha_telematica.Prelude.Lists.{All, All-append, update_where}
use dfsha_telematica.Prelude.Sorting.{insert, insert-All, sorted, sorted-All}

module _ {ℓ} {A : Type ℓ} where
  abbrev pub Pairwise : (A → A → Type 0) → List A → Type 0
  Pairwise R [] = Unit
  Pairwise R (x ∷ xs) = All (R x) xs × Pairwise R xs

  insert-Pairwise :
      (R : A → A → Type 0) (le : A → A → Bool)
      → ((x y : A) → R x y → R y x)
      → (x : A) (ys : List A) → All (R x) ys
      → Pairwise R ys
      → Pairwise R (insert le x ys)
  insert-Pairwise R le symm x [] h hs = (tt, tt)
  insert-Pairwise R le symm x (y ∷ ys) h hs = elim (Bool-cases (le x y)) [
    | inl e ↦ rw e (h, hs)
    | inr e ↦
        rw e (insert-All le (R y) x ys (symm x y h.0) hs.0, insert-Pairwise R le symm x ys h.1 hs.1)
  ]

  -- Sorting keeps a symmetric relation between all elements.
  pub sorted-Pairwise :
      (R : A → A → Type 0) (le : A → A → Bool)
      → ((x y : A) → R x y → R y x)
      → (xs : List A) → Pairwise R xs
      → Pairwise R (sorted le xs)
  sorted-Pairwise R le symm [] h = tt
  sorted-Pairwise R le symm (x ∷ xs) h =
      insert-Pairwise R le symm x (sorted le xs) (sorted-All le (R x) xs h.0)
        (sorted-Pairwise R le symm xs h.1)

module _ {A : Type 0} where
  -- A fact of each row, in the two cases of an UPDATE.
  pub All-update_where :
      (P Q : A → Type 0) (p : A → Bool) (f : A → A) (xs : List A)
      → ((x : A) → P x → p x ≡ true → Q (f x))
      → ((x : A) → P x → p x ≡ false → Q x)
      → All P xs
      → All Q (update_where p f xs)
  All-update_where P Q p f [] hit miss h = tt
  All-update_where P Q p f (x ∷ xs) hit miss h = elim (Bool-cases (p x)) [
    | inl e ↦ rw e (hit x h.0 e, All-update_where P Q p f xs hit miss h.1)
    | inr e ↦ rw e (miss x h.0 e, All-update_where P Q p f xs hit miss h.1)
  ]

  -- Two UPDATEs, the second of which tests what the first does not change.
  pub update_twice :
      (p q : A → Bool) (f g h : A → A) (xs : List A)
      → ((x : A) → p (g x) ≡ p x)
      → All (λ x. (if p x then f (if q x then g x else x) else if q x then g x else x) ≡ h x) xs
      → update_where p f (update_where q g xs) ≡ map h xs
  update_twice p q f g h [] kept each = refl
  update_twice p q f g h (x ∷ xs) kept each = elim (Bool-cases (q x)) [
    | inl e ↦
        let here = rw e at each.0 in
        rw (e, kept x) (λ i. here i ∷ update_twice p q f g h xs kept each.1 i)
    | inr e ↦
        let here = rw e at each.0 in rw e (λ i. here i ∷ update_twice p q f g h xs kept each.1 i)
  ]

  pub All-reverse : (P : A → Type 0) (xs : List A) → All P xs → All P (reverse xs)
  All-reverse P [] h = tt
  All-reverse P (x ∷ xs) h =
      subst (All P) (sym (reverse-append (x ∷ []) xs))
        (All-append P (reverse xs) (x ∷ []) (All-reverse P xs h.1) (h.0, tt))

module _ {A : Type 0} (P : A → Type 0) (R : A → A → Type 0) (p : A → Bool) (u : A → A) where
  abbrev step : A → A
  step x = if p x then u x else x

  abbrev Kept : Type 0
  Kept = (x y : A) → P x → P y → R x y → R (step x) (step y)

  update-row :
      Kept
      → (x : A) → P x
      → (ys : List A) → All P ys
      → All (R x) ys
      → All (R (step x)) (update_where p u ys)
  update-row kept x px [] ps rs = tt
  update-row kept x px (y ∷ ys) ps rs = (kept x y px ps.0 rs.0, update-row kept x px ys ps.1 rs.1)

  -- A relation of any two rows through an UPDATE.
  pub update-Pairwise :
      Kept → (xs : List A) → All P xs → Pairwise R xs → Pairwise R (update_where p u xs)
  update-Pairwise kept [] ps rs = tt
  update-Pairwise kept (x ∷ xs) ps rs =
      (update-row kept x ps.0 xs ps.1 rs.0, update-Pairwise kept xs ps.1 rs.1)

module _ {A : Type 0} where
  -- A relation of any two rows through an INSERT.
  pub snoc-Pairwise :
      (R : A → A → Type 0) (xs : List A) (y : A)
      → Pairwise R xs
      → All (λ x. R x y) xs
      → Pairwise R (xs ++ y ∷ [])
  snoc-Pairwise R [] y h rs = (tt, tt)
  snoc-Pairwise R (x ∷ xs) y h rs =
      (All-append (R x) xs (y ∷ []) h.0 (rs.0, tt), snoc-Pairwise R xs y h.1 rs.1)
