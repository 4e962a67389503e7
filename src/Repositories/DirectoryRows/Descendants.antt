-- ===== src/Repositories/DirectoryRows/Descendants.antt =====
-- SqlDirectoryRepository.list_descendants of control_node/repositories/sql.py: the rows that it finds.
use dfsha_telematica.Prelude.{
  List-cases, ℕ, zero, suc, ◌+◌, ◌≤◌, ◌<◌, String, ◌≡◌, refl, sym, ap, ◌∙◌, subst, true, ◌&&◌,
  Option, none, some, List, [], ◌∷◌, ◌++◌, map, arith, length, All-In, In, keep-In, In-keep,
  In-append-left, In-append-right, append-In, map-In, any_of-In, In-any_of, ◌==◌, ==_iff, string_eq,
  ◌⊎◌, ◌↔◌, inl, inr, Option-cases,
}
use dfsha_telematica.Errors.{ok}
use dfsha_telematica.Entities.{Directory}
use dfsha_telematica.Session.{Session}
use dfsha_telematica.Database.{Database}
use dfsha_telematica.Repositories.DirectoryRows.{
  next_level, levels, hangs_in, one_of, is_live, list_descendants,
}
use dfsha_telematica.Repositories.DirectoryRows.Depth.{IsTree, IsDeep}

abbrev pub ids_of : List Directory → List String
ids_of rows = map (λ (e : Directory). e.id) rows

pub one_of-In : (ids : List String) (x : String) → one_of ids x ≡ true → In x ids
one_of-In ids x h =
    let (i, e, held) = In-any_of (λ i. i == x) ids h in
    subst (λ y. In y ids) ((==_iff i x).0 e) held

pub In-one_of : (ids : List String) (x : String) → In x ids → one_of ids x ≡ true
In-one_of ids x i = any_of-In (λ i. i == x) ids x ((==_iff x x).1 refl) i

pub In-map : {A B : Type 0} (f : A → B) (xs : List A) (x : A) → In x xs → In (f x) (map f xs)
In-map f [] x i = absurd i
In-map f (y ∷ ys) x (inl e) = inl (ap f e)
In-map f (y ∷ ys) x (inr i) = inr (In-map f ys x i)

-- A live row below one of `ids`.
pub data Under (rows : List Directory) (ids : List String) : Directory → Type 0 where
  directly :
      {x : Directory} (up : String)
      → In x rows
      → x.deleted_at ≡ none
      → x.parent_id ≡ some up
      → In up ids
      → Under rows ids x
  deeper :
      {x y : Directory}
      → In x rows
      → x.deleted_at ≡ none
      → x.parent_id ≡ some y.id
      → Under rows ids y
      → Under rows ids x

next_level-In :
    (ids : List String) (rows : List Directory) (x : Directory) (up : String)
    → In x rows
    → x.deleted_at ≡ none
    → x.parent_id ≡ some up
    → In up ids
    → In x (next_level ids rows)
next_level-In ids rows x up i l p j =
    In-keep (λ (d : Directory). hangs_in d.parent_id ids && is_live d.deleted_at) rows x
      (let t = In-one_of ids up j in rw (p, l) (ground (arith, t))) i

In-next_level :
    (ids : List String) (rows : List Directory) (x : Directory)
    → In x (next_level ids rows)
    → (up : String) × In x rows × (x.deleted_at ≡ none) × (x.parent_id ≡ some up) × In up ids
In-next_level ids rows x i =
    let (t, held) =
      keep-In (λ (d : Directory). hangs_in d.parent_id ids && is_live d.deleted_at) rows x i in
    let live : is_live x.deleted_at ≡ true = ground (arith, t) in
    let hangs : hangs_in x.parent_id ids ≡ true = ground (arith, t) in
    elim (Option-cases x.parent_id) [
      | inl e ↦ absurd (let bad = rw e at hangs in cc)
      | inr (up, e) ↦ (up, held, live-none x.deleted_at live, e, one_of-In ids up (rw e at hangs))
    ]
  where
    live-none : (o : Option ℕ) → is_live o ≡ true → o ≡ none
    live-none none h = refl
    live-none (some t) h = absurd (cc)

module _ (rows : List Directory) where
  levels-cases :
      (fuel : ℕ) (ids : List String) (out : List Directory)
      → levels rows (suc fuel) ids ≡ some out
      → ((next_level ids rows ≡ []) × (out ≡ []))
        ⊎ ((rest : List Directory) × (levels rows fuel (ids_of (next_level ids rows)) ≡ some rest)
            × (out ≡ next_level ids rows ++ rest))
  levels-cases fuel ids out h = go (next_level ids rows) refl
    where
      go :
          (level : List Directory)
          → next_level ids rows ≡ level
          → ((next_level ids rows ≡ []) × (out ≡ []))
            ⊎ ((rest : List Directory) × (levels rows fuel (ids_of (next_level ids rows))
                  ≡ some rest)
                × (out ≡ next_level ids rows ++ rest))
      go [] e = inl (e, (let got : some [] ≡ some out = rw (levels, e) at h in cc))
      go (d ∷ ds) e = elim (Option-cases (levels rows fuel (ids_of (d ∷ ds)))) [
        | inl n ↦ absurd (let bad = rw (levels, e, n) at h in cc)
        | inr (rest, n) ↦
            let got : some ((d ∷ ds) ++ rest) ≡ some out = rw (levels, e, n) at h in
            let same : (d ∷ ds) ++ rest ≡ out = cc in rw e (inr (rest, n, sym same))
      ]

  -- What is found is closed downwards.
  pub levels-closed :
      (fuel : ℕ) (ids : List String) (out : List Directory)
      → levels rows fuel ids ≡ some out
      → (x : Directory) (up : String) → In x rows
      → x.deleted_at ≡ none
      → x.parent_id ≡ some up
      → In up ids ⊎ In up (ids_of out)
      → In x out
  levels-closed zero ids out h x up i l p j = absurd (cc)
  levels-closed (suc fuel) ids out h x up i l p j = elim (levels-cases fuel ids out h) [
    | inl (e, n) ↦ elim j [
      | inl k ↦ (let bad = next_level-In ids rows x up i l p k in absurd (rw e at bad))
      | inr k ↦ absurd (rw n at k)
    ]
    | inr (rest, e, is) ↦ rw is (elim j [
      | inl k ↦ In-append-left x (next_level ids rows) rest (next_level-In ids rows x up i l p k)
      | inr k ↦
          let (y, same, m) = map-In (λ (d : Directory). d.id) out up k in
          In-append-right x (next_level ids rows) rest (
            levels-closed fuel (ids_of (next_level ids rows)) rest e x up i l p
              (elim (append-In y (next_level ids rows) rest (rw is at m)) [
                | inl here ↦ inl (
                    subst (λ z. In z (ids_of (next_level ids rows))) (sym same)
                      (In-map (λ (d : Directory). d.id) (next_level ids rows) y here))
                | inr there ↦ inr (
                    subst (λ z. In z (ids_of rest)) (sym same)
                      (In-map (λ (d : Directory). d.id) rest y there))
              ]))
    ])
  ]

  -- What is found is below.
  levels-Under :
      (fuel : ℕ) (root ids : List String) (out : List Directory)
      → levels rows fuel ids ≡ some out
      → ((x : Directory) → In x (next_level ids rows) → Under rows root x)
      → (x : Directory) → In x out
      → Under rows root x
  levels-Under zero root ids out h below x i = absurd (cc)
  levels-Under (suc fuel) root ids out h below x i = elim (levels-cases fuel ids out h) [
    | inl (e, n) ↦ absurd (rw n at i)
    | inr (rest, e, is) ↦ elim (append-In x (next_level ids rows) rest (rw is at i)) [
      | inl here ↦ below x here
      | inr there ↦
          levels-Under fuel root (ids_of (next_level ids rows)) rest e
            (λ y j.
              let (up, held, live, p, k) = In-next_level (ids_of (next_level ids rows)) rows y j in
              let (z, same, m) = map-In (λ (d : Directory). d.id) (next_level ids rows) up k in
              deeper held live (p ∙ ap some same) (below z m))
            x there
    ]
  ]

  pub levels-complete :
      (fuel : ℕ) (ids : List String) (out : List Directory)
      → levels rows fuel ids ≡ some out
      → (x : Directory) → Under rows ids x
      → In x out
  levels-complete fuel ids out h x (directly up i l p j) =
      levels-closed fuel ids out h x up i l p (inl j)
  levels-complete fuel ids out h x (deeper {y = y} i l p u) =
      levels-closed fuel ids out h x y.id i l p
        (inr (In-map (λ (d : Directory). d.id) out y (levels-complete fuel ids out h y u)))

  module _ (depth : String → ℕ) (tree : IsTree depth rows) where
    lower :
        (k : ℕ) (ids : List String) (d : Directory) (ds : List Directory)
        → ((x : Directory) → In x (next_level ids rows) → k < depth x.id)
        → next_level ids rows ≡ d ∷ ds
        → (x : Directory) → In x (next_level (ids_of (d ∷ ds)) rows)
        → suc k < depth x.id
    lower k ids d ds low e x i =
        let (up, held, live, p, j) = In-next_level (ids_of (d ∷ ds)) rows x i in
        let (y, same, m) = map-In (λ (z : Directory). z.id) (d ∷ ds) up j in
        let less = (All-In (IsDeep depth (length rows)) x rows tree held).1 up p in
        let above = low y (rw e m) in
        let depths = ap depth same in omega (arith, less, above, depths)

    -- One round for each level of the tree is enough.
    levels-some :
        (fuel k : ℕ) (ids : List String)
        → length rows ≤ fuel + k
        → ((x : Directory) → In x (next_level ids rows) → k < depth x.id)
        → (out : List Directory) × (levels rows (suc fuel) ids ≡ some out)
    levels-some zero k ids enough low = elim (List-cases (next_level ids rows)) [
      | inl e ↦ ([], rw (levels, e) refl)
      | inr (d, ds, e) ↦
          let here : In d (next_level ids rows) = rw e (inl refl) in
          let (up, held, live, p, j) = In-next_level ids rows d here in
          let deep = (All-In (IsDeep depth (length rows)) d rows tree held).0 in
          let less = low d here in absurd (omega (arith, deep, less, enough))
    ]
    levels-some (suc fuel) k ids enough low = elim (List-cases (next_level ids rows)) [
      | inl e ↦ ([], rw (levels, e) refl)
      | inr (d, ds, e) ↦
          let (rest, is) =
            levels-some fuel (suc k) (ids_of (d ∷ ds)) (omega (arith, enough))
              (lower k ids d ds low e) in
          ((d ∷ ds) ++ rest, rw (levels, e, is) refl)
    ]

module _ (depth : String → ℕ) (directory_id : String) (s : Session Database) where
  -- In a tree, `list_descendants` finds exactly the live directories below the one it is asked for, and
  -- the tables stay as they are.
  pub list_descendants-Under :
      IsTree depth s.working.directories
      → (out : List Directory) × (list_descendants directory_id s ≡ (ok out, s))
        × ((x : Directory) → In x out ↔ Under s.working.directories (directory_id ∷ []) x)
  list_descendants-Under tree =
      let rows = s.working.directories in
      let (out, e) =
        levels-some rows depth tree (length rows) 0 (directory_id ∷ []) (omega arith) (λ x i.
          let (up, held, live, p, j) = In-next_level (directory_id ∷ []) rows x i in
          let less = (All-In (IsDeep depth (length rows)) x rows tree held).1 up p in
          omega (arith, less)) in
      (
        out,
        rw e refl,
        λ x. (
          λ i.
              levels-Under rows (suc (length rows)) (directory_id ∷ []) (directory_id ∷ []) out e
                (λ y j.
                  let (up, held, live, p, k) = In-next_level (directory_id ∷ []) rows y j in
                  directly up held live p k)
                x i,
          λ u. levels-complete rows (suc (length rows)) (directory_id ∷ []) out e x u,
        ),
      )
