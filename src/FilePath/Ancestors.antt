-- ===== src/FilePath/Ancestors.antt =====
-- control_node/domain/path.py: the tree order of paths, `child`, `parent` and `name`.
use mathlib.Core.Path.{ap₂}
use dfsha_telematica.Prelude.{
  suc, ◌≡◌, ◌≢◌, ◌↔◌, refl, ap, ◌∙◌, true, List, [], ◌∷◌, ◌++◌, arith, length, length-append, take,
  take-append, ==_iff, nat_eq, list_eq,
}
use dfsha_telematica.Errors.{ok}
use dfsha_telematica.FilePath.{
  Text, FilePath, validate_name, name, parent, child, is_ancestor_of, last_or_error, but_last,
}

-- `other` hangs below `p`: it has all of its segments, and at least one more.
pub record Below (p other : FilePath) : Type 0 where
  pub first : Text
  pub rest : List Text
  pub extends : other.segments ≡ p.segments ++ first ∷ rest

longer :
    (xs ys : List Text)
    → length xs ≢ length ys
    → take (length xs) ys ≡ xs
    → (w : Text) × (ws : List Text) × (ys ≡ xs ++ w ∷ ws)
longer [] [] ne h = absurd (ne refl)
longer [] (y ∷ ys) ne h = (y, ys, refl)
longer (x ∷ xs) [] ne h = cc
longer (x ∷ xs) (y ∷ ys) ne h =
    let (w, ws, e) = longer xs ys (λ same. ne (ap suc same)) (cc) in
    let first : y ≡ x = cc in (w, ws, ap₂ (λ a l. a ∷ l) first e)

ancestor-Below : (p q : FilePath) → is_ancestor_of p q ≡ true → Below p q
unfolding is_ancestor_of
ancestor-Below p q h =
    let (w, ws, e) =
      longer p.segments q.segments (ground arith)
        (ground (arith, ==_iff (take (length p.segments) q.segments) p.segments)) in
    record { first = w; rest = ws; extends = e }

Below-ancestor : (p q : FilePath) → Below p q → is_ancestor_of p q ≡ true
unfolding is_ancestor_of
Below-ancestor p q b = rw b.extends (
    ground (
      arith,
      length-append p.segments (b.first ∷ b.rest),
      take-append p.segments (b.first ∷ b.rest),
      ==_iff (take (length p.segments) (p.segments ++ b.first ∷ b.rest)) p.segments,
    ))

-- `is_ancestor_of` answers yes exactly if the other path extends this one by a segment or more.
pub is_ancestor_of_iff : (p q : FilePath) → (is_ancestor_of p q ≡ true) ↔ Below p q
is_ancestor_of_iff p q = (ancestor-Below p q, Below-ancestor p q)

pub child-eq_ok :
    (p : FilePath) (n : Text) {q : FilePath} → child p n ≡ ok q → q.segments ≡ p.segments ++ n ∷ []
unfolding child validate_name
child-eq_ok p n h = ground arith

last-snoc : (xs : List Text) (n : Text) → last_or_error (xs ++ n ∷ []) ≡ ok n
last-snoc [] n = refl
last-snoc (x ∷ []) n = refl
last-snoc (x ∷ y ∷ xs) n = last-snoc (y ∷ xs) n

but_last-snoc : (xs : List Text) (n : Text) → but_last (xs ++ n ∷ []) ≡ xs
but_last-snoc [] n = refl
but_last-snoc (x ∷ []) n = refl
but_last-snoc (x ∷ y ∷ xs) n = ap (λ l. x ∷ l) (but_last-snoc (y ∷ xs) n)

-- A child that is made hangs below its path, has it as its parent, and bears the given name.
pub child_lem :
    (p : FilePath) (n : Text) (q : FilePath)
    → child p n ≡ ok q
    → (is_ancestor_of p q ≡ true) × (parent q ≡ p) × (name q ≡ ok n)
unfolding parent name
child_lem p n q h =
    let e = child-eq_ok p n h in
    (
      Below-ancestor p q (record { first = n; rest = []; extends = e }),
      (λ i. record { segments = (ap but_last e ∙ but_last-snoc p.segments n) i }),
      rw e (last-snoc p.segments n),
    )
