-- ===== src/Examples/Planning.antt =====
-- Paths, rules, blocks, grants and copies at concrete inputs.
use dfsha_telematica.Prelude.{
  ℕ, String, ◌≡◌, refl, false, none, some, List, [], ◌∷◌, arith, take, drop, nat_eq, string_eq,
  list_eq,
}
use dfsha_telematica.Prelude.Int.{pos}
use dfsha_telematica.Errors.{ok}
use dfsha_telematica.FilePath.{
  Text, FilePath, codes, split, parse, to_text, parent, name, child, is_ancestor_of, validate_name,
  is_control, is_noise, append_chunks, is_root,
}
use dfsha_telematica.FilePath.Normal.{IsNormal, parse-to_text}
use dfsha_telematica.Entities.{File, writing, committed}
use dfsha_telematica.Rules.{missing, decide_move, ensure_move_is_legal, target}
use dfsha_telematica.Rules.Moves.{planned}
use dfsha_telematica.Partition.{BlockSpec, BlockSlice, plan_blocks, plan_range}
use dfsha_telematica.Partition.Plan.{Tiles, plan_blocks-Tiles}
use dfsha_telematica.Partition.Range.{stored_sizes, read_slices, joined, read-plan_range}

abbrev path : String → List Text → FilePath
path w ws = record { segments = codes w ∷ ws }

abbrev docs : FilePath
docs = path "docs" []

abbrev docs_a : FilePath
docs_a = path "docs" (codes "a" ∷ [])

parsed : parse (codes "a") (some docs) ≡ ok docs_a
unfolding parse split validate_name is_control is_noise append_chunks
parsed = refl

docs-IsNormal : IsNormal docs
docs-IsNormal = (
  record {
    filled = λ h. cc;
    not_dot = λ h. cc;
    not_dot_dot = λ h. cc;
    short = omega arith;
    printable = unfold is_control in refl;
    flat = (λ h. omega arith, (λ h. omega arith, (λ h. omega arith, (λ h. omega arith, tt))));
  },
  tt,
)

parse-to_text_example : parse (to_text docs) none ≡ ok docs
parse-to_text_example = parse-to_text docs none docs-IsNormal

abbrev other : FilePath
other = path "x" []

moved : planned docs_a other missing false ≡ ok other
unfolding decide_move ensure_move_is_legal target is_root name parent child validate_name is_control
    is_ancestor_of
moved = refl

-- A reservation made at 0 that expires at 10, and a file that was committed.
abbrev reserved : File
reserved = record {
  id = "r";
  directory_id = "d";
  name = codes "a";
  owner_id = "ana";
  size = 5;
  block_size = 2;
  state = writing;
  created_at = 0;
  committed_at = none;
  expires_at = some 10;
  deleted_at = none;
  wrapped_key = "";
  key_algo = "";
}

abbrev stored_file : File
stored_file = record reserved { state = committed }

abbrev three_blocks : List BlockSpec
three_blocks =
    record { index = 0; size = 2; offset = 0 }
    ∷ record { index = 1; size = 2; offset = 2 }
    ∷ record { index = 2; size = 1; offset = 4 }
    ∷ []

plan_blocks-Tiles_example :
    (specs : List BlockSpec) × (plan_blocks (pos 5) (pos 2) ≡ ok specs) × Tiles 5 2 0 0 specs
plan_blocks-Tiles_example = plan_blocks-Tiles 5 2 (omega arith)

abbrev clear : List (List ℕ)
clear = (1 ∷ 2 ∷ []) ∷ (3 ∷ 4 ∷ []) ∷ (5 ∷ []) ∷ []

read-plan_range_example :
    (slices : List BlockSlice) × (plan_range (stored_sizes 16 clear) (pos 1) (pos 3) 16 ≡ ok slices)
    × (read_slices clear slices ≡ take 3 (drop 1 (joined clear)))
read-plan_range_example = read-plan_range clear 1 3 16
