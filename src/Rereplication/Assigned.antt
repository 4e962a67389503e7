-- ===== src/Rereplication/Assigned.antt =====
-- control_node/domain/rereplication.py: what holds of every assignment, and the caps.
use dfsha_telematica.Prelude.{
  ℕ, zero, suc, ◌+◌, ◌≤◌, ◌<◌, String, ◌≡◌, refl, subst, Bool, true, false, Option, some, List, [],
  ◌∷◌, ◌++◌, arith, All, All-append, min, count_where, ==_refl, ==_iff, ◌==◌, string_eq,
  if◌then◌else◌, Bool-cases, Option-cases, ◌⊎◌, inl, inr, In,
}
use dfsha_telematica.Rereplication.{
  ReplicationGap, Assignment, Candidate, Progress, missing, names, flying, take_off, choose_target,
  assigned, fill, fill_from, is_full, assign_each, prioritise, assign_targets,
}
use dfsha_telematica.Rereplication.Choice.{Chosen, choose_target-Chosen}

abbrev pub is_to : String → Assignment → Bool
is_to node a = a.target_node_id == node

module _ (candidates : List Candidate) (max_per_target : ℕ) where
  -- An invariant of the loops: what every single assignment keeps.
  abbrev pub Kept : (Progress → Type 0) → Type 0
  Kept Inv =
      (gap : ReplicationGap) (source target : String) (p : Progress)
      → names gap.holders source ≡ true
      → Chosen candidates max_per_target gap p.0 p.1 target
      → Inv p
      → Inv (assigned gap source (some target) p)

  module _ (Inv : Progress → Type 0) (step : Kept Inv) where
    fill-keeps :
        (gap : ReplicationGap) (source : String) (n : ℕ) (p : Progress)
        → names gap.holders source ≡ true
        → Inv p
        → Inv (fill candidates max_per_target gap source n p)
    fill-keeps gap source zero p holds h = h
    fill-keeps gap source (suc n) (done, in_flight) holds h =
        elim (Option-cases (choose_target gap done candidates in_flight max_per_target)) [
          | inl e ↦ rw (fill, e) h
          | inr (target, e) ↦
              rw (fill, e)
                (fill-keeps gap source n (assigned gap source (some target) (done, in_flight)) holds
                  (step gap source target (done, in_flight) holds
                    (choose_target-Chosen candidates max_per_target gap done in_flight target e) h))
        ]

    fill_from-keeps :
        (max_per_block : ℕ) (gap : ReplicationGap) (sources : List String) (p : Progress)
        → gap.holders ≡ sources
        → Inv p
        → Inv (fill_from candidates max_per_target max_per_block gap sources p)
    fill_from-keeps max_per_block gap [] p e h = h
    fill_from-keeps max_per_block gap (source ∷ rest) p e h =
        fill-keeps gap source (min (missing gap) max_per_block) p (rw (e, ==_refl source) refl) h

    pub assign_each-keeps :
        (max_total : Option ℕ) (max_per_block : ℕ) (gaps : List ReplicationGap) (p : Progress)
        → Inv p
        → Inv (assign_each candidates max_per_target max_total max_per_block gaps p)
    assign_each-keeps max_total max_per_block [] p h = h
    assign_each-keeps max_total max_per_block (gap ∷ gaps) p h =
        elim (Bool-cases (is_full max_total p.0)) [
          | inl e ↦ rw e h
          | inr e ↦ rw e (
              assign_each-keeps max_total max_per_block gaps
                (fill_from candidates max_per_target max_per_block gap gap.holders p)
                (fill_from-keeps max_per_block gap gap.holders p refl h))
        ]

  -- A copy from a node that holds the block to a candidate that does not.
  pub record Legal (a : Assignment) : Type 0 where
    pub from_holder : names a.gap.holders a.source_node_id ≡ true
    pub to_other : names a.gap.holders a.target_node_id ≡ false
    pub to_candidate : (domain : String) × In (a.target_node_id, domain) candidates
    pub of_gap : a.block_id ≡ a.gap.block_id

  -- Every assignment copies a block from a node that holds it to a candidate that does not.
  pub assign_targets-Legal :
      (gaps : List ReplicationGap) (in_flight : List (String × ℕ)) (max_total : Option ℕ)
      (max_per_block : ℕ)
      → All Legal (assign_targets gaps candidates in_flight max_per_target max_total max_per_block)
  unfolding assign_targets
  assign_targets-Legal gaps in_flight max_total max_per_block =
      assign_each-keeps (λ p. All Legal p.0)
        (λ gap source target p holds c h. All-append Legal p.0 _ h (
          record {
            from_holder = holds;
            to_other = c.new;
            to_candidate = c.candidate;
            of_gap = refl;
          },
          tt,
        ))
        max_total max_per_block (prioritise gaps) ([], in_flight) tt

  count_where-append :
      (p : Assignment → Bool) (xs ys : List Assignment)
      → count_where p (xs ++ ys) ≡ count_where p xs + count_where p ys
  count_where-append p [] ys = ground arith
  count_where-append p (x ∷ xs) ys = elim (Bool-cases (p x)) [
    | inl e ↦ rw e (ground (arith, count_where-append p xs ys))
    | inr e ↦ rw e (count_where-append p xs ys)
  ]

  flying-take_off :
      (node target : String) (in_flight : List (String × ℕ))
      → flying (take_off target in_flight) node
        ≡ flying in_flight node + (if target == node then 1 else 0)
  flying-take_off node target [] = ground arith
  flying-take_off node target ((k, n) ∷ rest) = elim (Bool-cases (k == target)) [
    | inl e ↦ rw e (ground (arith, e, ==_iff k target, ==_iff k node, ==_iff target node))
    | inr e ↦ rw e (
        ground (
          arith,
          e,
          ==_iff k target,
          ==_iff k node,
          ==_iff target node,
          flying-take_off node target rest,
        ))
  ]

  -- The copies in flight to a node: those at the beginning and those assigned since.
  abbrev Within : List (String × ℕ) → String → Progress → Type 0
  Within in_flight node p =
      (flying p.1 node ≡ flying in_flight node + count_where (is_to node) p.0)
      × ((count_where (is_to node) p.0 ≡ 0) ⊎ (flying p.1 node ≤ max_per_target))

  Within-kept : (in_flight : List (String × ℕ)) (node : String) → Kept (Within in_flight node)
  Within-kept in_flight node gap source target (done, now_flying) holds c h =
      rw (flying-take_off node target now_flying, count_where-append (is_to node) done)
        (elim (Bool-cases (target == node)) [
          | inr e ↦ rw e (ground (arith, h))
          | inl e ↦
              let room : flying now_flying node < max_per_target =
                subst (λ n. flying now_flying n < max_per_target) ((==_iff target node).0 e)
                  c.room in
              rw e (ground (arith, h, room))
        ])

  -- A node that is assigned copies has, with those in flight before, at most `max_per_target`.
  pub assign_targets_within_caps :
      (gaps : List ReplicationGap) (in_flight : List (String × ℕ)) (max_total : Option ℕ)
      (max_per_block : ℕ) (node : String)
      → (count_where
            (is_to node)
            (assign_targets gaps candidates in_flight max_per_target max_total max_per_block)
          ≡ 0)
        ⊎ (flying in_flight node
              + count_where
                  (is_to node)
                  (assign_targets gaps candidates in_flight max_per_target max_total max_per_block)
            ≤ max_per_target)
  unfolding assign_targets
  assign_targets_within_caps gaps in_flight max_total max_per_block node =
      let (total, bound) =
        assign_each-keeps (Within in_flight node) (Within-kept in_flight node) max_total
          max_per_block (prioritise gaps) ([], in_flight) (ground arith, inl refl) in
      ground (arith, total, bound)
