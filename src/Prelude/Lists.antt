-- ===== src/Prelude/Lists.antt =====
-- Lists measured by native numbers, and lists that are walked by a test.
use Prim.Native.Nat.{ℕ, zero, suc, ◌+◌, ◌-◌}
use mathlib.Core.Path.{◌≡◌, refl}
use mathlib.Core.Logic.{inl, inr}
use mathlib.Core.Bool.{Bool, true, false, ◌||◌}
use mathlib.Core.Option.{Option, none, some}
use mathlib.Core.List.{List, [], ◌∷◌, ◌++◌}
use native.Mathlib.Omega.{arith}
use dfsha_telematica.Prelude.Tests.{if◌then◌else◌, Bool-cases}

module _ {ℓ} {A : Type ℓ} where
  abbrev pub length : List A → ℕ
  length [] = 0
  length (x ∷ xs) = suc (length xs)

  abbrev pub take : ℕ → List A → List A
  take zero xs = []
  take (suc n) [] = []
  take (suc n) (x ∷ xs) = x ∷ take n xs

  abbrev pub drop : ℕ → List A → List A
  drop zero xs = xs
  drop (suc n) [] = []
  drop (suc n) (x ∷ xs) = drop n xs

  -- The elements that pass a test, in order: a comprehension with an `if`.
  abbrev pub keep : (A → Bool) → List A → List A
  keep p [] = []
  keep p (x ∷ xs) = if p x then x ∷ keep p xs else keep p xs

  -- The first element that passes: `next((x for x in xs if p(x)), None)`.
  abbrev pub find_first : (A → Bool) → List A → Option A
  find_first p [] = none
  find_first p (x ∷ xs) = if p x then some x else find_first p xs

  abbrev pub any_of : (A → Bool) → List A → Bool
  any_of p [] = false
  any_of p (x ∷ xs) = p x || any_of p xs

  -- `UPDATE ... WHERE p`: the rows that pass are changed, the others stay, all in place.
  abbrev pub update_where : (A → Bool) → (A → A) → List A → List A
  update_where p f [] = []
  update_where p f (x ∷ xs) = (if p x then f x else x) ∷ update_where p f xs

  -- `SELECT count(*) ... WHERE p`
  abbrev pub count_where : (A → Bool) → List A → ℕ
  count_where p [] = 0
  count_where p (x ∷ xs) = if p x then suc (count_where p xs) else count_where p xs

  -- A predicate on each element, as a tuple that the tactics read and build.
  abbrev pub All {κ} : (A → Type κ) → List A → Type κ
  All P [] = Unit
  All P (x ∷ xs) = P x × All P xs

  pub length-append : (xs ys : List A) → length (xs ++ ys) ≡ length xs + length ys
  length-append [] ys = omega arith
  length-append (x ∷ xs) ys = omega (arith, length-append xs ys)

  -- Nothing is asked of the elements.
  pub trivial : (xs : List A) → All (λ x. Unit {0}) xs
  trivial [] = tt
  trivial (x ∷ xs) = (tt, trivial xs)

  pub All-append {κ} : (P : A → Type κ) (xs ys : List A) → All P xs → All P ys → All P (xs ++ ys)
  All-append P [] ys hx hy = hy
  All-append P (x ∷ xs) ys hx hy = (hx.0, All-append P xs ys hx.1 hy)

  pub All-imp {κ μ} :
      (P : A → Type κ) (Q : A → Type μ) (xs : List A) → ((x : A) → P x → Q x) → All P xs → All Q xs
  All-imp P Q [] f h = tt
  All-imp P Q (x ∷ xs) f h = (f x h.0, All-imp P Q xs f h.1)

  pub take-append : (xs ys : List A) → take (length xs) (xs ++ ys) ≡ xs
  take-append [] ys = refl
  take-append (x ∷ xs) ys = λ i. x ∷ take-append xs ys i

  pub drop-append : (xs ys : List A) → drop (length xs) (xs ++ ys) ≡ ys
  drop-append [] ys = refl
  drop-append (x ∷ xs) ys = drop-append xs ys

  pub take-append-drop : (n : ℕ) (xs : List A) → take n xs ++ drop n xs ≡ xs
  take-append-drop zero xs = refl
  take-append-drop (suc n) [] = refl
  take-append-drop (suc n) (x ∷ xs) = λ i. x ∷ take-append-drop n xs i

  pub length-drop : (n : ℕ) (xs : List A) → length (drop n xs) ≡ length xs - n
  length-drop zero xs = omega arith
  length-drop (suc n) [] = omega arith
  length-drop (suc n) (x ∷ xs) = omega (arith, length-drop n xs)

  -- What holds of the kept elements holds of those that pass.
  pub All-keep {κ} :
      (P : A → Type κ) (p : A → Bool) (xs : List A)
      → All P (keep p xs)
      → All (λ x. p x ≡ true → P x) xs
  All-keep P p [] h = tt
  All-keep P p (x ∷ xs) h = elim (Bool-cases (p x)) [
    | inl e ↦ let h' = rw e at h in ((λ _. h'.0), All-keep P p xs h'.1)
    | inr e ↦ ((λ e'. absurd (cc)), All-keep P p xs (rw e at h))
  ]

  pub keep-All {κ} :
      (P : A → Type κ) (p : A → Bool) (xs : List A)
      → All P xs
      → All (λ x. (p x ≡ true) × P x) (keep p xs)
  keep-All P p [] h = tt
  keep-All P p (x ∷ xs) h = elim (Bool-cases (p x)) [
    | inl e ↦ rw e ((e, h.0), keep-All P p xs h.1)
    | inr e ↦ rw e (keep-All P p xs h.1)
  ]

  pub All-apply {κ μ} :
      (P : A → Type κ) (Q : A → Type μ) (xs : List A)
      → All (λ x. P x → Q x) xs
      → All P xs
      → All Q xs
  All-apply P Q [] f h = tt
  All-apply P Q (x ∷ xs) f h = (f.0 h.0, All-apply P Q xs f.1 h.1)

  pub find_first-none :
      (p : A → Bool) (xs : List A) → find_first p xs ≡ none → All (λ x. p x ≡ false) xs
  find_first-none p [] h = tt
  find_first-none p (x ∷ xs) h = elim (Bool-cases (p x)) [
    | inl e ↦ absurd (cc)
    | inr e ↦ (e, find_first-none p xs (rw e at h))
  ]

  -- A fact of every element holds of the one that is found, and so does the test.
  pub find_first-some {κ} :
      (P : A → Type κ) (p : A → Bool) (xs : List A) (y : A)
      → find_first p xs ≡ some y
      → All P xs
      → (p y ≡ true) × P y
  find_first-some P p [] y h all = absurd (cc)
  find_first-some P p (x ∷ xs) y h all = elim (Bool-cases (p x)) [
    | inl e ↦
        let got : some x ≡ some y = rw e at h in let same : x ≡ y = cc in rw (← same) (e, all.0)
    | inr e ↦ find_first-some P p xs y (rw e at h) all.1
  ]

  pub any_of-none : (p : A → Bool) (xs : List A) → any_of p xs ≡ false → All (λ x. p x ≡ false) xs
  any_of-none p [] h = tt
  any_of-none p (x ∷ xs) h = (ground arith, any_of-none p xs (ground arith))

  pub keep-none : (p : A → Bool) (xs : List A) → All (λ x. p x ≡ false) xs → keep p xs ≡ []
  keep-none p [] h = refl
  keep-none p (x ∷ xs) h = rw h.0 (keep-none p xs h.1)

  pub keep-nil : (p : A → Bool) (xs : List A) → keep p xs ≡ [] → All (λ x. p x ≡ false) xs
  keep-nil p [] h = tt
  keep-nil p (x ∷ xs) h = elim (Bool-cases (p x)) [
    | inl e ↦ absurd (ground arith)
    | inr e ↦ (e, keep-nil p xs (rw e at h))
  ]

  pub find_first-absent :
      (p : A → Bool) (xs : List A) → All (λ x. p x ≡ false) xs → find_first p xs ≡ none
  find_first-absent p [] h = refl
  find_first-absent p (x ∷ xs) h = rw h.0 (find_first-absent p xs h.1)

  pub any_of-absent : (p : A → Bool) (xs : List A) → All (λ x. p x ≡ false) xs → any_of p xs ≡ false
  any_of-absent p [] h = refl
  any_of-absent p (x ∷ xs) h = rw h.0 (any_of-absent p xs h.1)
