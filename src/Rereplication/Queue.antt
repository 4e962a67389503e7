-- ===== src/Rereplication/Queue.antt =====
-- control_node/domain/rereplication.py: the order of the queue, and what one pass schedules at most.
use dfsha_telematica.Prelude.{
  ℕ, zero, suc, ◌+◌, ◌-◌, ◌≤◌, String, ◌≡◌, ◌≢◌, true, false, Option, some, List, [], ◌∷◌, ◌++◌,
  map, arith, All, All-append, min, length, length-append, leb, str_leb_total, str_leb_trans,
  IsSorted, sorted-IsSorted, Pairwise, ==_iff, ◌==◌, nat_eq, string_eq, Bool-cases, Option-cases,
  inl, inr,
}
use dfsha_telematica.Rereplication.{
  ReplicationGap, Assignment, Candidate, Progress, missing, names, urgent, of_block, prioritise,
  choose_target, assigned, fill, fill_from, assign_each, assign_targets,
}
use dfsha_telematica.Rereplication.Assigned.{assign_each-keeps}

urgent_total : (g h : ReplicationGap) → urgent g h ≡ false → urgent h g ≡ true
urgent_total g h e = ground (arith, e, str_leb_total g.block_id h.block_id)

urgent_trans : (g h k : ReplicationGap) → urgent g h ≡ true → urgent h k ≡ true → urgent g k ≡ true
urgent_trans g h k e f = ground (arith, e, f, str_leb_trans g.block_id h.block_id k.block_id)

-- The queue is in the order of the copies that are left, fewest first, and among equals in that of
-- the block's identifier.
pub prioritise-IsSorted : (gaps : List ReplicationGap) → IsSorted urgent (prioritise gaps)
unfolding prioritise
prioritise-IsSorted gaps = sorted-IsSorted urgent urgent_total urgent_trans gaps

Pairwise-snoc :
    (R : Assignment → Assignment → Type 0) (xs : List Assignment) (y : Assignment)
    → Pairwise R xs
    → All (λ x. R x y) xs
    → Pairwise R (xs ++ y ∷ [])
Pairwise-snoc R [] y h k = (tt, tt)
Pairwise-snoc R (x ∷ xs) y h k =
    (All-append (R x) xs (y ∷ []) h.0 (k.0, tt), Pairwise-snoc R xs y h.1 k.1)

-- Two assignments of one block are to different nodes.
abbrev pub Distinct : Assignment → Assignment → Type 0
Distinct a b = a.block_id ≡ b.block_id → a.target_node_id ≢ b.target_node_id

unassigned-Distinct :
    (block_id target : String) (done : List Assignment)
    → names (map (λ (a : Assignment). a.target_node_id) (of_block block_id done)) target ≡ false
    → All (λ a. a.block_id ≡ block_id → a.target_node_id ≢ target) done
unassigned-Distinct block_id target [] h = tt
unassigned-Distinct block_id target (a ∷ done) h = elim (Bool-cases (a.block_id == block_id)) [
  | inl e ↦
      let h' = rw e at h in
      (
        (λ _ t. ground (arith, h', ==_iff a.target_node_id target)),
        unassigned-Distinct block_id target done (ground (arith, h')),
      )
  | inr e ↦ (
    (λ b _. ground (arith, e, ==_iff a.block_id block_id)),
    unassigned-Distinct block_id target done (rw e at h),
  )
]

module _ (candidates : List Candidate) (max_per_target : ℕ) where
  -- No block is assigned twice to one node.
  pub assign_targets-Distinct :
      (gaps : List ReplicationGap) (in_flight : List (String × ℕ)) (max_total : Option ℕ)
      (max_per_block : ℕ)
      → Pairwise Distinct
          (assign_targets gaps candidates in_flight max_per_target max_total max_per_block)
  unfolding assign_targets
  assign_targets-Distinct gaps in_flight max_total max_per_block =
      assign_each-keeps candidates max_per_target (λ p. Pairwise Distinct p.0)
        (λ gap source target p holds c h.
          Pairwise-snoc Distinct p.0 _ h (unassigned-Distinct gap.block_id target p.0 c.unassigned))
        max_total max_per_block (prioritise gaps) ([], in_flight) tt

  abbrev copy : ReplicationGap → String → String → Assignment
  copy gap source target = record {
    block_id = gap.block_id;
    source_node_id = source;
    target_node_id = target;
    gap = gap;
  }

  length-fill :
      (gap : ReplicationGap) (source : String) (n : ℕ) (p : Progress)
      → length (fill candidates max_per_target gap source n p).0 ≤ length p.0 + n
  length-fill gap source zero p = ground arith
  length-fill gap source (suc n) (done, in_flight) =
      elim (Option-cases (choose_target gap done candidates in_flight max_per_target)) [
        | inl e ↦ rw (fill, e) (ground arith)
        | inr (target, e) ↦
            rw (fill, e)
              (omega (
                arith,
                length-append done (copy gap source target ∷ []),
                length-fill gap source n (assigned gap source (some target) (done, in_flight)),
              ))
      ]

  length-fill_from :
      (max_per_block : ℕ) (gap : ReplicationGap) (sources : List String) (p : Progress)
      → length (fill_from candidates max_per_target max_per_block gap sources p).0
        ≤ length p.0 + max_per_block
  length-fill_from max_per_block gap [] p = ground arith
  length-fill_from max_per_block gap (source ∷ rest) p =
      omega (arith, length-fill gap source (min (missing gap) max_per_block) p)

  length-assign_each :
      (max_total max_per_block : ℕ) (gaps : List ReplicationGap) (p : Progress)
      → length p.0 ≤ max_total + (max_per_block - 1)
      → length (assign_each candidates max_per_target (some max_total) max_per_block gaps p).0
        ≤ max_total + (max_per_block - 1)
  length-assign_each max_total max_per_block [] p h = h
  length-assign_each max_total max_per_block (gap ∷ gaps) p h =
      elim (Bool-cases (leb max_total (length p.0))) [
        | inl e ↦ rw e h
        | inr e ↦ rw e (
            length-assign_each max_total max_per_block gaps
              (fill_from candidates max_per_target max_per_block gap gap.holders p)
              (ground (arith, e, length-fill_from max_per_block gap gap.holders p)))
      ]

  -- One pass assigns at most `max_total` copies, when a block gets at most one; with more to a
  -- block it is at most that many more, less one.
  pub assign_targets_total :
      (gaps : List ReplicationGap) (in_flight : List (String × ℕ)) (max_total max_per_block : ℕ)
      → length
          (assign_targets gaps candidates in_flight max_per_target (some max_total) max_per_block)
        ≤ max_total + (max_per_block - 1)
  unfolding assign_targets
  assign_targets_total gaps in_flight max_total max_per_block =
      length-assign_each max_total max_per_block (prioritise gaps) ([], in_flight) (ground arith)
