-- ===== src/Rereplication/Choice.antt =====
-- control_node/domain/rereplication.py: what holds of a chosen target, and of all that is assigned.
use dfsha_telematica.Prelude.{
  ℕ, ◌<◌, String, ◌≡◌, Bool, true, false, some, List, [], ◌∷◌, map, arith, All, All-imp, keep,
  keep-All, string_eq, Bool-cases, inl, inr, In, In-self,
}
use dfsha_telematica.Rereplication.{
  ReplicationGap, Assignment, Candidate, names, flying, of_block, less_busy, least, least_of,
  or_any, is_available, choose_target,
}

module _ (P : String → Type 0) where
  least-All :
      (le : String → String → Bool) (x : String) (ys : List String)
      → P x
      → All P ys
      → P (least le x ys)
  least-All le x [] h hs = h
  least-All le x (y ∷ ys) h hs = elim (Bool-cases (le x y)) [
    | inl e ↦ rw e (least-All le x ys h hs.1)
    | inr e ↦ rw e (least-All le y ys hs.0 hs.1)
  ]

  least_of-All :
      (le : String → String → Bool) (xs : List String) (t : String)
      → least_of le xs ≡ some t
      → All P xs
      → P t
  least_of-All le [] t h hs = absurd (cc)
  least_of-All le (x ∷ xs) t h hs =
      let same : least le x xs ≡ t = cc in rw (← same) (least-All le x xs hs.0 hs.1)

  or_any-All : (xs ys : List String) → All P xs → All P ys → All P (or_any xs ys)
  or_any-All [] ys hx hy = hy
  or_any-All (x ∷ xs) ys hx hy = hx

  All-first :
      (cs : List Candidate)
      → All (λ (c : Candidate). P c.0) cs
      → All P (map (λ (c : Candidate). c.0) cs)
  All-first [] h = tt
  All-first (c ∷ cs) h = (h.0, All-first cs h.1)

module _ (candidates : List Candidate) (max_per_target : ℕ) where
  -- A chosen target is a candidate which does not hold the block, to which no copy of the block is
  -- assigned, and which has room for one more copy in flight.
  pub record Chosen (gap : ReplicationGap) (done : List Assignment) (in_flight : List (String × ℕ))
      (target : String) : Type 0 where
    pub candidate : (domain : String) × In (target, domain) candidates
    pub new : names gap.holders target ≡ false
    pub unassigned :
        names (map (λ (a : Assignment). a.target_node_id) (of_block gap.block_id done)) target
        ≡ false
    pub room : flying in_flight target < max_per_target

  chosen :
      (gap : ReplicationGap) (done : List Assignment) (in_flight : List (String × ℕ))
      (c : Candidate)
      → (is_available gap done in_flight max_per_target c ≡ true) × In c candidates
      → Chosen gap done in_flight c.0
  chosen gap done in_flight (node_id, domain) (ok, here) = record {
    candidate = (domain, here);
    new = ground arith;
    unassigned = ground arith;
    room = ground arith;
  }

  pub choose_target-Chosen :
      (gap : ReplicationGap) (done : List Assignment) (in_flight : List (String × ℕ))
      (target : String)
      → choose_target gap done candidates in_flight max_per_target ≡ some target
      → Chosen gap done in_flight target
  unfolding choose_target
  choose_target-Chosen gap done in_flight target h =
      let P = Chosen gap done in_flight in
      let available = keep (is_available gap done in_flight max_per_target) candidates in
      let free : All (λ (c : Candidate). P c.0) available =
        All-imp _ _ available (λ c. chosen gap done in_flight c)
          (keep-All _ (is_available gap done in_flight max_per_target) candidates
            (In-self candidates)) in
      least_of-All P (less_busy in_flight) _ target h (
        or_any-All P _ _ (All-first P _ (All-imp _ _ _ (λ c x. x.1) (keep-All _ _ available free)))
          (All-first P available free))
