-- ===== src/Partition/Count.antt =====
-- control_node/domain/partition.py: how many blocks a plan has.
use native.Mathlib.Nat.{div-eq_of_lt-le}
use dfsha_telematica.Prelude.{
  ℕ, zero, suc, ◌+◌, ◌-◌, ◌*◌, ◌/◌, ◌≤◌, ◌<◌, ◌≡◌, refl, ap, List, [], ◌∷◌, arith, length,
}
use dfsha_telematica.Prelude.Int.{ℤ, pos, negsuc}
use dfsha_telematica.Errors.{ok, ◌>>=◌}
use dfsha_telematica.Partition.{BlockSpec, block_count_for, plan_from, plan_blocks}
use dfsha_telematica.Partition.Plan.{Tiles, plan_from-Tiles}

Tiles-bounds :
    (size b offset index : ℕ) (x : BlockSpec) (xs : List BlockSpec)
    → Tiles size b offset index (x ∷ xs)
    → (offset + length xs * b < size) × (size ≤ offset + (length xs + 1) * b)
Tiles-bounds size b offset index x [] t = grind arith
Tiles-bounds size b offset index x (y ∷ xs) t =
    let (low, high) = Tiles-bounds size b (offset + x.size) (index + 1) y xs t.5 in
    let full : x.size ≡ b = t.4 (λ e. cc) in (grind arith, grind arith)

count-eq :
    (size b : ℕ) (xs : List BlockSpec)
    → Tiles size (suc b) 0 0 xs
    → (size + suc b - 1) / suc b ≡ length xs
count-eq size b [] t = div-eq_of_lt-le (suc b) (omega arith) (omega arith)
count-eq size b (x ∷ xs) t =
    let (low, high) = Tiles-bounds size (suc b) 0 0 x xs t in
    div-eq_of_lt-le (suc b) (omega arith) (omega arith)

-- `block_count_for` counts the blocks that `plan_blocks` plans, and fails where that fails.
pub block_count_for_lem :
    (size b : ℤ) → block_count_for size b ≡ (do specs ← plan_blocks size b; ok (length specs))
unfolding block_count_for plan_blocks
block_count_for_lem (negsuc n) b = refl
block_count_for_lem (pos s) (negsuc n) = refl
block_count_for_lem (pos s) (pos zero) = refl
block_count_for_lem (pos s) (pos (suc b)) = ap ok (
    count-eq s b (plan_from s s (suc b) 0 0)
      (plan_from-Tiles s s (suc b) 0 0 (omega arith) (omega arith) (omega arith)))
