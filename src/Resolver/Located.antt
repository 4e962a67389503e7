-- ===== src/Resolver/Located.antt =====
-- control_node/services/resolver.py: the directory that a path leads to has that absolute path.
use dfsha_telematica.Prelude.{
  ℕ, zero, suc, ◌<◌, String, ◌≡◌, ◌≢◌, refl, sym, ap, ◌∙◌, subst, none, some, List, [], ◌∷◌, ◌++◌,
  arith, length, All, Pairwise, find_first, find_first-some, ==_iff, string_eq, list_eq, nat_eq,
  inl, inr, Bool-cases, Option-cases,
}
use dfsha_telematica.Errors.{ok}
use dfsha_telematica.FilePath.{Text, FilePath}
use dfsha_telematica.Entities.{Directory}
use dfsha_telematica.Session.{Session}
use dfsha_telematica.Database.{Database}
use dfsha_telematica.Repositories.DirectoryRows.{
  absolute_path, climb, by_id, has_id, child_of, is_child_of, is_root_of,
}
use dfsha_telematica.Repositories.DirectoryRows.Depth.{IsTree, IsDeep}
use dfsha_telematica.Resolver.{descend, find_directory, resolve_root}

-- The primary key of the table.
abbrev pub Keyed : List Directory → Type 0
Keyed = Pairwise (λ a b. a.id ≢ b.id)

Keyed-by_id : (rows : List Directory) → Keyed rows → All (λ d. by_id d.id rows ≡ some d) rows
Keyed-by_id [] h = tt
Keyed-by_id (d ∷ rows) h =
    (rw ((==_iff d.id d.id).1 refl) refl, others rows h.0 (Keyed-by_id rows h.1))
  where
    others :
        (xs : List Directory)
        → All (λ x. d.id ≢ x.id) xs
        → All (λ x. by_id x.id rows ≡ some x) xs
        → All (λ x. by_id x.id (d ∷ rows) ≡ some x) xs
    others [] a b = tt
    others (x ∷ xs) a b = (
      elim (Bool-cases (has_id x.id d)) [
        | inl e ↦ absurd (a.0 ((==_iff d.id x.id).0 e))
        | inr e ↦ rw e b.0
      ],
      others xs a.1 b.1,
    )

snoc-append : (xs : List Text) (y : Text) (zs : List Text) → (xs ++ y ∷ []) ++ zs ≡ xs ++ y ∷ zs
snoc-append [] y zs = refl
snoc-append (x ∷ xs) y zs = ap (λ l. x ∷ l) (snoc-append xs y zs)

append-nil : (xs : List Text) → xs ++ [] ≡ xs
append-nil [] = refl
append-nil (x ∷ xs) = ap (λ l. x ∷ l) (append-nil xs)

module _ (depth : String → ℕ) (rows : List Directory) (keyed : Keyed rows)
    (tree : IsTree depth rows) where
  -- The climb from `d` collects `segments`.
  record Reaches (d : Directory) (segments : List Text) : Type 0 where
    stored : by_id d.id rows ≡ some d
    deep : IsDeep depth (length rows) d
    climbs :
        (fuel : ℕ) (below : List Text)
        → depth d.id < fuel
        → climb rows fuel (some d) below ≡ some (segments ++ below)

  root-Reaches :
      (owner_id : String) (d : Directory)
      → find_first (is_root_of owner_id) rows ≡ some d
      → Reaches d []
  root-Reaches owner_id d e =
      let (hit, stored) =
        find_first-some (λ x. by_id x.id rows ≡ some x) (is_root_of owner_id) rows d e
          (Keyed-by_id rows keyed) in
      let deep =
        (find_first-some (IsDeep depth (length rows)) (is_root_of owner_id) rows d e tree).1 in
      record {
        stored = stored;
        deep = deep;
        climbs = elim (Option-cases d.parent_id) [
          | inl top ↦ up top
          | inr (p, some_up) ↦ absurd (ground (arith, some_up, hit))
        ];
      }
    where
      up :
          d.parent_id ≡ none
          → (fuel : ℕ) (below : List Text) → depth d.id < fuel
          → climb rows fuel (some d) below ≡ some below
      up top zero below lt = absurd (omega (arith, lt))
      up top (suc fuel) below lt = rw top refl

  child-Reaches :
      (d c : Directory) (segments : List Text) (n : Text)
      → Reaches d segments
      → child_of d.id n rows ≡ some c
      → Reaches c (segments ++ n ∷ [])
  child-Reaches d c segments n r e =
      let (hit, stored) =
        find_first-some (λ x. by_id x.id rows ≡ some x) (is_child_of d.id n) rows c e
          (Keyed-by_id rows keyed) in
      let deep =
        (find_first-some (IsDeep depth (length rows)) (is_child_of d.id n) rows c e tree).1 in
      record {
        stored = stored;
        deep = deep;
        climbs = elim (Option-cases c.parent_id) [
          | inl top ↦ absurd (ground (arith, top, hit))
          | inr (p, some_up) ↦
              let same : p ≡ d.id = ground (arith, hit, some_up, ==_iff p d.id) in
              let named : c.name ≡ n = ground (arith, hit, ==_iff c.name n) in
              up (some_up ∙ ap some same) named (deep.1 d.id (some_up ∙ ap some same))
        ];
      }
    where
      up :
          c.parent_id ≡ some d.id
          → c.name ≡ n
          → depth d.id < depth c.id
          → (fuel : ℕ) (below : List Text) → depth c.id < fuel
          → climb rows fuel (some c) below ≡ some ((segments ++ n ∷ []) ++ below)
      up hangs named less zero below lt = absurd (omega (arith, lt))
      up hangs named less (suc fuel) below lt =
          rw (hangs, r.stored, named)
            (r.climbs fuel (n ∷ below) (omega (arith, less, lt))
              ∙ sym (ap some (snoc-append segments n below)))

  descend-Reaches :
      (names : List Text) (d e : Directory) (segments : List Text)
      → Reaches d segments
      → descend rows names d ≡ some e
      → Reaches e (segments ++ names)
  descend-Reaches [] d e segments r h =
      let same : d ≡ e = cc in
      subst (Reaches e) (sym (append-nil segments)) (subst (λ x. Reaches x segments) same r)
  descend-Reaches (n ∷ names) d e segments r h = elim (Option-cases (child_of d.id n rows)) [
    | inl none_there ↦ let bad = rw (descend, none_there) at h in absurd (cc)
    | inr (c, there) ↦ subst (Reaches e) (snoc-append segments n names) (
        descend-Reaches names c e (segments ++ n ∷ []) (child-Reaches d c segments n r there)
          (rw (descend, there) at h))
  ]

module _ (depth : String → ℕ) (owner_id : String) (path : FilePath) (d : Directory)
    (s : Session Database) where
  -- The directory that a path leads to has that path: where ids are unique and no directory is its own
  -- ancestor, `absolute_path` of what `find_directory` found is the path that was asked for.
  pub find_directory-absolute_path :
      Keyed s.working.directories
      → IsTree depth s.working.directories
      → (find_directory owner_id path s).0 ≡ ok (some d)
      → absolute_path d.id s ≡ (ok path, s)
  unfolding find_directory resolve_root absolute_path
  find_directory-absolute_path keyed tree found =
      let rows = s.working.directories in
      elim (Option-cases (find_first (is_root_of owner_id) rows)) [
        | inl e ↦ let bad = rw e at found in absurd (cc)
        | inr (root, e) ↦
            let led : ok (descend rows path.segments root) ≡ ok (some d) = rw e at found in
            let led' : descend rows path.segments root ≡ some d = cc in
            let r =
              descend-Reaches depth rows keyed tree path.segments root d []
                (root-Reaches depth rows keyed tree owner_id root e) led' in
            let lt = r.deep.0 in
            let climbed =
              r.climbs (suc (length rows)) [] (omega (arith, lt))
              ∙ ap some (append-nil path.segments) in
            rw (r.stored, climbed) refl
      ]
