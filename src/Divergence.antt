-- ===== src/Divergence.antt =====
-- control_node/domain/divergence.py: what the metadata expects on a node against what it reports.
pub mod Sets
use dfsha_telematica.Prelude.{
  String, Bool, not, ◌||◌, List, [], ◌∷◌, keep, any_of, str_leb, sorted, ◌==◌, string_eq,
  if◌then◌else◌,
}

pub record DivergenceReport : Type 0 where
  pub unknown_block_ids : List String
  pub missing_block_ids : List String
  pub confirmed_block_ids : List String

abbrev pub is_in : List String → String → Bool
is_in xs x = any_of (λ y. y == x) xs

-- `set(xs)`: each element once.
abbrev pub set_of : List String → List String
set_of [] = []
set_of (x ∷ xs) = let rest = set_of xs in if is_in rest x then rest else x ∷ rest

abbrev pub sorted_set : List String → List String
sorted_set xs = sorted str_leb xs

abbrev pub is_empty : List String → Bool
is_empty [] = Bool.true
is_empty (x ∷ xs) = Bool.false

unfoldable pub has_divergence : DivergenceReport → Bool
has_divergence r = not (is_empty r.unknown_block_ids) || not (is_empty r.missing_block_ids)

unfoldable pub compare : List String → List String → Bool → DivergenceReport
compare expected reported is_full =
    let wanted = set_of expected in
    let present = set_of reported in
    record {
      unknown_block_ids = sorted_set (keep (λ x. not (is_in wanted x)) present);
      confirmed_block_ids = sorted_set (keep (λ x. is_in wanted x) present);
      missing_block_ids =
          if is_full then sorted_set (keep (λ x. not (is_in present x)) wanted) else [];
    }
