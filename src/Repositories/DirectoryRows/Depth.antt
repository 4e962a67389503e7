-- ===== src/Repositories/DirectoryRows/Depth.antt =====
-- `absolute_path` of control_node/services/resolver.py: on a table without cycles its loop ends.
use dfsha_telematica.Prelude.{
  ℕ, zero, suc, ◌<◌, String, ◌≡◌, refl, ap, some, List, [], ◌∷◌, arith, length, All,
  find_first-some, ==_iff, inl, inr, Option-cases, string_eq,
}
use dfsha_telematica.Errors.{ok}
use dfsha_telematica.FilePath.{Text, FilePath}
use dfsha_telematica.Entities.{Directory}
use dfsha_telematica.Session.{Session}
use dfsha_telematica.Database.{Database}
use dfsha_telematica.Repositories.DirectoryRows.{absolute_path, climb, by_id, has_id}

-- A depth that grows from each directory to those in it, and is less than the number of rows: there
-- is one where no directory is its own ancestor.
abbrev pub IsDeep : (String → ℕ) → ℕ → Directory → Type 0
IsDeep depth bound d =
    (depth d.id < bound) × ((up : String) → d.parent_id ≡ some up → depth up < depth d.id)

abbrev pub IsTree : (String → ℕ) → List Directory → Type 0
IsTree depth rows = All (IsDeep depth (length rows)) rows

module _ (depth : String → ℕ) (rows : List Directory) (tree : IsTree depth rows) where
  -- More fuel than the depth of the directory is enough.
  climb-some :
      (fuel : ℕ) (directory_id : String) (below : List Text)
      → depth directory_id < fuel
      → (segments : List Text) × (climb rows fuel (by_id directory_id rows) below ≡ some segments)
  climb-some zero directory_id below lt = absurd (omega (arith, lt))
  climb-some (suc fuel) directory_id below lt = elim (Option-cases (by_id directory_id rows)) [
    | inl e ↦ (below, rw e refl)
    | inr (d, e) ↦
        let (hit, deep) =
          find_first-some (IsDeep depth (length rows)) (has_id directory_id) rows d e tree in
        let id = (==_iff d.id directory_id).0 hit in
        elim (Option-cases d.parent_id) [
          | inl root ↦ (below, rw (e, root) refl)
          | inr (up, e') ↦
              let less = deep.1 up e' in
              let depths = ap depth id in
              let (segments, rest) =
                climb-some fuel up (d.name ∷ below) (omega (arith, less, depths, lt)) in
              (segments, rw (e, e') rest)
        ]
  ]

  climb-enough :
      (directory_id : String)
      → (segments : List Text) × (climb rows (suc (length rows)) (by_id directory_id rows) []
          ≡ some segments)
  climb-enough directory_id = elim (Option-cases (by_id directory_id rows)) [
    | inl e ↦ ([], rw e refl)
    | inr (d, e) ↦
        let (hit, deep) =
          find_first-some (IsDeep depth (length rows)) (has_id directory_id) rows d e tree in
        let depths = ap depth ((==_iff d.id directory_id).0 hit) in
        climb-some (suc (length rows)) directory_id [] (omega (arith, deep.0, depths))
  ]

module _ (depth : String → ℕ) (s : Session Database) where
  -- In a tree, the path of every directory is found, and the tables stay as they are.
  pub absolute_path-ok :
      IsTree depth s.working.directories
      → (directory_id : String) → (p : FilePath) × (absolute_path directory_id s ≡ (ok p, s))
  unfolding absolute_path
  absolute_path-ok tree directory_id =
      let (segments, e) = climb-enough depth s.working.directories tree directory_id in
      (record { segments = segments }, rw e refl)
