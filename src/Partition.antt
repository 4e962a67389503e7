-- ===== src/Partition.antt =====
-- control_node/domain/partition.py: the split of a file into blocks, and of a range into slices.
pub mod Plan
pub mod Count
pub mod Range
use dfsha_telematica.Prelude.{
  ℕ, zero, suc, ◌+◌, ◌-◌, ◌/◌, min, Bool, true, false, ◌&&◌, List, [], ◌∷◌, map, ltb, leb, any_of,
  if◌then◌else◌,
}
use dfsha_telematica.Prelude.Int.{ℤ, pos, negsuc}
use dfsha_telematica.Errors.{
  Result, ok, err, ◌>>=◌, ◌>>◌, raise_if, invalid_block_size, value_error,
}

pub record BlockSpec : Type 0 where
  pub index : ℕ
  pub size : ℕ
  pub offset : ℕ

unfoldable pub end_of : BlockSpec → ℕ
end_of b = b.offset + b.size

-- `_validate`: on success, the two numbers as naturals, the second not zero.
abbrev pub validate : ℤ → ℤ → Result (ℕ × ℕ)
validate (negsuc _) block_size = err invalid_block_size
validate (pos size) (negsuc _) = err invalid_block_size
validate (pos size) (pos zero) = err invalid_block_size
validate (pos size) (pos (suc b)) = ok (size, suc b)

unfoldable pub block_count_for : ℤ → ℤ → Result ℕ
block_count_for size block_size = do (s, b) ← validate size block_size; ok ((s + b - 1) / b)

-- The `while offset < size` loop. Each round takes at least one byte, so `size` rounds suffice
-- (Partition/Plan).
unfoldable pub plan_from : ℕ → ℕ → ℕ → ℕ → ℕ → List BlockSpec
plan_from zero size block_size offset index = []
plan_from (suc fuel) size block_size offset index =
    let current = min block_size (size - offset) in
    let rest = plan_from fuel size block_size (offset + current) (index + 1) in
    if ltb offset size then record { index = index; size = current; offset = offset } ∷ rest else []

unfoldable pub plan_blocks : ℤ → ℤ → Result (List BlockSpec)
unfolding plan_from
plan_blocks size block_size = do (s, b) ← validate size block_size; ok (plan_from s s b 0 0)

pub record BlockSlice : Type 0 where
  pub index : ℕ
  pub skip : ℕ
  pub take : ℕ

-- One round of the `for` loop of `plan_range`, for a block of `size` bytes that begins at `begin`.
-- `more` is what the later rounds append.
unfoldable pub round : ℕ → ℕ → ℕ → ℕ → ℕ → List BlockSlice → List BlockSlice
round offset fin begin index size more =
    let stop = begin + size in
    let skip = offset - begin in
    let amount = min stop fin - (begin + skip) in
    if ltb offset stop && ltb begin fin
    then (if ltb 0 amount
        then record { index = index; skip = skip; take = amount } ∷ more
        else more)
    else more

-- The loop over the clear sizes, with its `break` once a block ends at or behind `fin`.
unfoldable pub slices_from : ℕ → ℕ → ℕ → ℕ → List ℕ → List BlockSlice
unfolding round
slices_from offset fin begin index [] = []
slices_from offset fin begin index (size ∷ sizes) =
    let more = slices_from offset fin (begin + size) (index + 1) sizes in
    round offset fin begin index size (if leb fin (begin + size) then [] else more)

unfoldable pub plan_range : List ℕ → ℤ → ℤ → ℕ → Result (List BlockSlice)
unfolding slices_from
plan_range sizes (negsuc _) length overhead = err value_error
plan_range sizes (pos offset) (negsuc _) overhead = err value_error
plan_range sizes (pos offset) (pos length) overhead = do
  raise_if (any_of (λ s. ltb s overhead) sizes) value_error
  if ltb 0 length
      then ok (slices_from offset (offset + length) 0 0 (map (λ s. s - overhead) sizes))
      else ok []
