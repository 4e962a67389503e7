-- ===== src/Partition/Range.antt =====
-- control_node/domain/partition.py: the slices of `plan_range` are the bytes of the range.
use mathlib.Core.Path.{ap₂}
use mathlib.Core.List.{append_assoc}
use native.Mathlib.Nat.{zero-sub, sub-zero, suc-sub-suc, suc-min-suc, min-zero, zero-min}
use Prim.Native.Nat.add
use dfsha_telematica.Prelude.{
  lt→ltb, ℕ, zero, suc, ◌+◌, ◌-◌, min, ◌≡◌, refl, sym, ap, ◌∙◌, true, false, ◌&&◌, List, [], ◌∷◌,
  ◌++◌, map, arith, ltb, leb, length, take, drop, length-append, any_of, if◌then◌else◌, inl, inr,
  Bool-cases,
}
use dfsha_telematica.Prelude.Int.{pos}
use dfsha_telematica.Errors.{ok}
use dfsha_telematica.Partition.{BlockSlice, round, slices_from, plan_range}

-- What the client does with a slice: it fetches the whole block, skips and takes.
module _ {ℓ} {A : Type ℓ} where
  abbrev pub block_at : List (List A) → ℕ → List A
  block_at [] i = []
  block_at (b ∷ bs) zero = b
  block_at (b ∷ bs) (suc i) = block_at bs i

  abbrev pub cut : List A → BlockSlice → List A
  cut block s = take s.take (drop s.skip block)

  abbrev pub read_slices : List (List A) → List BlockSlice → List A
  read_slices blocks [] = []
  read_slices blocks (s ∷ ss) = cut (block_at blocks s.index) s ++ read_slices blocks ss

  abbrev pub joined : List (List A) → List A
  joined [] = []
  joined (b ∷ bs) = b ++ joined bs

  drop-nil : (n : ℕ) → drop {A = A} n [] ≡ []
  drop-nil zero = refl
  drop-nil (suc n) = refl

  take-nil : (n : ℕ) → take {A = A} n [] ≡ []
  take-nil zero = refl
  take-nil (suc n) = refl

  drop-take-append :
      (a b : ℕ) (xs ys : List A)
      → drop a (take b (xs ++ ys))
        ≡ drop a (take b xs) ++ drop (a - length xs) (take (b - length xs) ys)
  drop-take-append a zero [] ys = simp (drop-nil, zero-sub, sub-zero)
  drop-take-append a (suc b) [] ys = simp (drop-nil, sub-zero)
  drop-take-append a zero (x ∷ xs) ys = simp (drop-nil, zero-sub)
  drop-take-append zero (suc b) (x ∷ xs) ys =
      simp (zero-sub, suc-sub-suc) (ap (λ l. x ∷ l) (drop-take-append zero b xs ys ∙ simp zero-sub))
  drop-take-append (suc a) (suc b) (x ∷ xs) ys = simp suc-sub-suc (drop-take-append a b xs ys)

  drop-take-eq_cut :
      (a b : ℕ) (xs : List A) → drop a (take b xs) ≡ take (min (length xs) b - a) (drop a xs)
  drop-take-eq_cut a b [] = simp (take-nil, drop-nil, zero-min)
  drop-take-eq_cut a zero (x ∷ xs) = simp (min-zero, zero-sub, drop-nil)
  drop-take-eq_cut zero (suc b) (x ∷ xs) =
      simp (suc-min-suc, sub-zero) (ap (λ l. x ∷ l) (drop-take-eq_cut zero b xs ∙ simp sub-zero))
  drop-take-eq_cut (suc a) (suc b) (x ∷ xs) =
      simp (suc-min-suc, suc-sub-suc) (drop-take-eq_cut a b xs)

  block_at-append :
      (pre : List (List A)) (x : List A) (r : List (List A))
      → block_at (pre ++ x ∷ r) (length pre) ≡ x
  block_at-append [] x r = refl
  block_at-append (p ∷ pre) x r = block_at-append pre x r

  drop-take-past :
      (stop offset fin : ℕ) (ys : List A)
      → leb fin stop ≡ true
      → drop (offset - stop) (take (fin - stop) ys) ≡ []
  drop-take-past stop offset fin ys h =
      let none_left : fin - stop ≡ 0 = ground arith in rw none_left (drop-nil (offset - stop))

  module _ (begin offset fin : ℕ) (x : List A) where
    abbrev amount : ℕ
    amount = min (begin + length x) fin - (begin + (offset - begin))

    window-cut :
        drop (offset - begin) (take (fin - begin) x) ≡ take amount (drop (offset - begin) x)
    window-cut =
        let same : min (length x) (fin - begin) - (offset - begin) ≡ amount = omega arith in
        drop-take-eq_cut (offset - begin) (fin - begin) x
        ∙ ap (λ n. take n (drop (offset - begin) x)) same

    window-nil : amount ≡ 0 → drop (offset - begin) (take (fin - begin) x) ≡ []
    window-nil none_left = window-cut ∙ ap (λ n. take n (drop (offset - begin) x)) none_left

  -- One round of the loop: what it adds for block `x`, before what the later rounds add.
  read-round :
      (all : List (List A)) (offset fin begin index : ℕ) (x : List A) (more : List BlockSlice)
      → block_at all index ≡ x
      → read_slices all (round offset fin begin index (length x) more)
        ≡ drop (offset - begin) (take (fin - begin) x) ++ read_slices all more
  unfolding round
  read-round all offset fin begin index x more at =
      elim (Bool-cases (ltb offset (begin + length x) && ltb begin fin)) [
        | inl overlap ↦
            elim (Bool-cases (ltb 0 (min (begin + length x) fin - (begin + (offset - begin))))) [
              | inl some_bytes ↦
                  rw (overlap, some_bytes, at)
                    (ap (λ l. l ++ read_slices all more) (sym (window-cut begin offset fin x)))
              | inr no_bytes ↦ rw (overlap, no_bytes, window-nil begin offset fin x (ground arith))
            ]
        | inr apart ↦ rw (apart, window-nil begin offset fin x (ground arith))
      ]

  -- The loop reads the range out of the blocks that are left.
  read-slices_from :
      (pre rest : List (List A)) (offset fin begin : ℕ)
      → read_slices (pre ++ rest) (slices_from offset fin begin (length pre) (map length rest))
        ≡ drop (offset - begin) (take (fin - begin) (joined rest))
  unfolding slices_from
  read-slices_from pre [] offset fin begin = simp (take-nil, drop-nil)
  read-slices_from pre (x ∷ rest) offset fin begin =
      let stop = begin + length x in
      let next = slices_from offset fin stop (length pre + 1) (map length rest) in
      let more = if leb fin stop then [] else next in
      let ih =
        rw (append_assoc pre (x ∷ []) rest, length-append pre (x ∷ [])) at
          (read-slices_from (pre ++ x ∷ []) rest offset fin stop) in
      let later : read_slices (pre ++ x ∷ rest) more
          ≡ drop (offset - stop) (take (fin - stop) (joined rest)) =
        elim (Bool-cases (leb fin stop)) [
          | inl past ↦ rw past (sym (drop-take-past stop offset fin (joined rest) past))
          | inr on ↦ rw on ih
        ] in
      read-round (pre ++ x ∷ rest) offset fin begin (length pre) x more (block_at-append pre x rest)
      ∙ ap (λ l. drop (offset - begin) (take (fin - begin) x) ++ l) later
      ∙ ap₂ (λ a b. drop (offset - begin) (take (fin - begin) x) ++ drop a (take b (joined rest)))
          (omega arith) (omega arith)
      ∙ sym (drop-take-append (offset - begin) (fin - begin) x (joined rest))

module _ {ℓ} {A : Type ℓ} where
  -- The stored sizes of blocks: each has `overhead` bytes on top of its clear ones.
  abbrev pub stored_sizes : ℕ → List (List A) → List ℕ
  stored_sizes overhead [] = []
  stored_sizes overhead (b ∷ bs) = (length b + overhead) ∷ stored_sizes overhead bs

  stored_sizes-fit :
      (overhead : ℕ) (bs : List (List A))
      → any_of (λ s. ltb s overhead) (stored_sizes overhead bs) ≡ false
  stored_sizes-fit overhead [] = refl
  stored_sizes-fit overhead (b ∷ bs) = ground (arith, stored_sizes-fit overhead bs)

  stored_sizes-clear :
      (overhead : ℕ) (bs : List (List A))
      → map (λ s. s - overhead) (stored_sizes overhead bs) ≡ map length bs
  stored_sizes-clear overhead [] = refl
  stored_sizes-clear overhead (b ∷ bs) =
      ap₂ (λ n ns. n ∷ ns) (omega arith) (stored_sizes-clear overhead bs)

  drop-take-add : (a n : ℕ) (xs : List A) → drop a (take (a + n) xs) ≡ take n (drop a xs)
  drop-take-add zero n xs = simp add.zero
  drop-take-add (suc a) n [] = simp (take-nil, drop-nil)
  drop-take-add (suc a) n (x ∷ xs) = simp add.suc (drop-take-add a n xs)

  -- For every file, every range and every overhead of the cipher `plan_range` gives slices, and
  -- cutting them out of the clear blocks gives exactly the bytes of the range that the file has.
  pub read-plan_range :
      (blocks : List (List A)) (offset n overhead : ℕ)
      → (slices : List BlockSlice) × (plan_range
            (stored_sizes overhead blocks)
            (pos offset)
            (pos n)
            overhead
          ≡ ok slices)
        × (read_slices blocks slices ≡ take n (drop offset (joined blocks)))
  unfolding plan_range
  read-plan_range blocks offset zero overhead = ([], rw (stored_sizes-fit overhead blocks), refl)
  read-plan_range blocks offset (suc m) overhead = (
    slices_from offset (offset + suc m) 0 0 (map length blocks),
    rw (
      stored_sizes-fit overhead blocks,
      stored_sizes-clear overhead blocks,
      lt→ltb 0 (suc m) (omega arith),
    ),
    read-slices_from [] blocks offset (offset + suc m) 0
        ∙ simp sub-zero (drop-take-add offset (suc m) (joined blocks)),
  )
