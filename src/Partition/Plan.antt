-- ===== src/Partition/Plan.antt =====
-- control_node/domain/partition.py: the blocks of a plan tile the file.
use dfsha_telematica.Prelude.{
  ℕ, zero, suc, ◌+◌, ◌-◌, ◌≤◌, ◌<◌, min, ◌≡◌, ◌≢◌, refl, ap, ◌∙◌, List, [], ◌∷◌, arith, ltb, ltb→lt,
  inl, inr, Bool-cases,
}
use dfsha_telematica.Prelude.Int.{pos}
use dfsha_telematica.Errors.{ok}
use dfsha_telematica.Partition.{BlockSpec, plan_from, plan_blocks}

-- From byte `offset` and block `index` on, the blocks lie one behind the other without a gap or an
-- overlap up to byte `size`; none is empty, none is larger than `block_size`, and only the last
-- may be smaller.
abbrev pub Tiles : ℕ → ℕ → ℕ → ℕ → List BlockSpec → Type 0
Tiles size block_size offset index [] = offset ≡ size
Tiles size block_size offset index (b ∷ bs) =
    (b.index ≡ index)
    × (b.offset ≡ offset)
    × (0 < b.size)
    × (b.size ≤ block_size)
    × (bs ≢ [] → b.size ≡ block_size)
    × Tiles size block_size (offset + b.size) (index + 1) bs

plan_from-end : (fuel size b index : ℕ) → plan_from fuel size b size index ≡ []
unfolding plan_from
plan_from-end zero size b index = refl
plan_from-end (suc fuel) size b index = ground arith

plan_from-full :
    (fuel size b offset index : ℕ)
    → offset ≤ size
    → plan_from fuel size b (offset + min b (size - offset)) index ≢ []
    → min b (size - offset) ≡ b
plan_from-full fuel size b offset index k ne = elim (Bool-cases (ltb (size - offset) b)) [
  | inl short ↦
      let last : offset + min b (size - offset) ≡ size = ground arith in
      absurd (ne (rw last (plan_from-end fuel size b index)))
  | inr long ↦ ground arith
]

pub plan_from-Tiles :
    (fuel size b offset index : ℕ)
    → 0 < b
    → offset ≤ size
    → size ≤ fuel + offset
    → Tiles size b offset index (plan_from fuel size b offset index)
unfolding plan_from
plan_from-Tiles zero size b offset index h k l = omega arith
plan_from-Tiles (suc fuel) size b offset index h k l = elim (Bool-cases (ltb offset size)) [
  | inl more ↦
      let within = ltb→lt offset size more in
      rw more (
        refl,
        refl,
        omega arith,
        omega arith,
        plan_from-full fuel size b offset (index + 1) k,
        plan_from-Tiles fuel size b (offset + min b (size - offset)) (index + 1) h (omega arith)
            (omega arith),
      )
  | inr stop ↦ rw stop (ground arith)
]

-- The blocks that a plan has tile the file: its sizes add up to the file's, in order, full ones
-- first. Only a negative size or a block size that is not positive has no plan.
pub plan_blocks-Tiles :
    (size b : ℕ)
    → 0 < b
    → (specs : List BlockSpec) × (plan_blocks (pos size) (pos b) ≡ ok specs)
      × Tiles size b 0 0 specs
unfolding plan_blocks
plan_blocks-Tiles size zero h = absurd (omega arith)
plan_blocks-Tiles size (suc b) h = (
  plan_from size size (suc b) 0 0,
  refl,
  plan_from-Tiles size size (suc b) 0 0 h (omega arith) (omega arith),
)

Tiles-le :
    (size b offset index : ℕ) (xs : List BlockSpec) → Tiles size b offset index xs → offset ≤ size
Tiles-le size b offset index [] t = omega arith
Tiles-le size b offset index (x ∷ xs) t =
    omega (arith, Tiles-le size b (offset + x.size) (index + 1) xs t.5)

-- Of two first blocks neither is larger.
first-le :
    (size b offset index : ℕ) (x y : BlockSpec) (xs ys : List BlockSpec)
    → Tiles size b offset index (x ∷ xs)
    → Tiles size b offset index (y ∷ ys)
    → x.size ≤ y.size
first-le size b offset index x y xs [] t u =
    omega (arith, Tiles-le size b (offset + x.size) (index + 1) xs t.5)
first-le size b offset index x y xs (z ∷ ys) t u =
    let full : y.size ≡ b = u.4 (λ e. cc) in omega arith

-- There is one tiling: whoever splits a file by these rules gets the blocks that the plan has.
pub Tiles-unique :
    (size b offset index : ℕ) (xs ys : List BlockSpec)
    → Tiles size b offset index xs
    → Tiles size b offset index ys
    → xs ≡ ys
Tiles-unique size b offset index [] [] t u = refl
Tiles-unique size b offset index [] (y ∷ ys) t u =
    absurd (omega (arith, Tiles-le size b (offset + y.size) (index + 1) ys u.5))
Tiles-unique size b offset index (x ∷ xs) [] t u =
    absurd (omega (arith, Tiles-le size b (offset + x.size) (index + 1) xs t.5))
Tiles-unique size b offset index (x ∷ xs) (y ∷ ys) t u =
    let le = first-le size b offset index x y xs ys t u in
    let ge = first-le size b offset index y x ys xs u t in
    let same : x.size ≡ y.size = omega arith in
    let rest = Tiles-unique size b (offset + x.size) (index + 1) xs ys t.5 (rw (← same) at u.5) in
    cc

-- The plan is the only list of blocks that tile the file.
pub plan_blocks_unique :
    (size b : ℕ) (specs : List BlockSpec)
    → 0 < b
    → Tiles size b 0 0 specs
    → plan_blocks (pos size) (pos b) ≡ ok specs
plan_blocks_unique size b specs h tiles =
    let (planned, made, also) = plan_blocks-Tiles size b h in
    made ∙ ap ok (Tiles-unique size b 0 0 planned specs also tiles)
