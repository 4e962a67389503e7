-- ===== src/Rereplication.antt =====
-- control_node/domain/rereplication.py: which block is copied, to which node. A dict is an
-- association list in the order of insertion, in which a key stands once.
pub mod Choice
pub mod Assigned
pub mod Queue
use dfsha_telematica.Prelude.{
  ℕ, zero, suc, ◌+◌, ◌-◌, String, Bool, true, false, not, ◌&&◌, ◌||◌, Option, none, some, List, [],
  ◌∷◌, ◌++◌, map, leb, ltb, length, min, keep, find_first, any_of, sorted, str_leb, ◌==◌, nat_eq,
  string_eq, if◌then◌else◌,
}

pub record ReplicationGap : Type 0 where
  pub block_id : String
  pub size : ℕ
  pub checksum_sha256 : Option String
  pub current_replicas : ℕ
  pub target_replicas : ℕ
  pub holders : List String
  pub holder_domains : List String

-- `max(0, target - current)`: subtraction on ℕ stops at 0.
unfoldable pub missing : ReplicationGap → ℕ
missing g = g.target_replicas - g.current_replicas

unfoldable pub critical : ReplicationGap → Bool
critical g = g.current_replicas == 1

pub record Assignment : Type 0 where
  pub block_id : String
  pub source_node_id : String
  pub target_node_id : String
  pub gap : ReplicationGap

-- The order of the pairs `(current_replicas, block_id)`.
abbrev pub urgent : ReplicationGap → ReplicationGap → Bool
urgent g h =
    ltb g.current_replicas h.current_replicas
    || (g.current_replicas == h.current_replicas && str_leb g.block_id h.block_id)

unfoldable pub prioritise : List ReplicationGap → List ReplicationGap
prioritise gaps = sorted urgent gaps

-- `node_id`, `fault_domain`
abbrev pub Candidate : Type 0
Candidate = String × String

abbrev pub names : List String → String → Bool
names xs x = any_of (λ y. y == x) xs

-- `in_flight.get(node_id, 0)`
abbrev pub flying : List (String × ℕ) → String → ℕ
flying [] node_id = 0
flying ((k, n) ∷ rest) node_id =
    let later = flying rest node_id in if k == node_id then n else later

-- `in_flight[node_id] = in_flight.get(node_id, 0) + 1`
abbrev pub take_off : String → List (String × ℕ) → List (String × ℕ)
take_off node_id [] = (node_id, 1) ∷ []
take_off node_id ((k, n) ∷ rest) =
    let later = take_off node_id rest in if k == node_id then (k, n + 1) ∷ rest else (k, n) ∷ later

abbrev pub of_block : String → List Assignment → List Assignment
of_block block_id done = keep (λ (a : Assignment). a.block_id == block_id) done

abbrev pub domain_of : List Candidate → String → Option String
domain_of [] node_id = none
domain_of ((k, d) ∷ rest) node_id =
    let later = domain_of rest node_id in if k == node_id then some d else later

abbrev pub add_domain : Option String → List String → List String
add_domain none ds = ds
add_domain (some d) ds = d ∷ ds

abbrev pub domains_taken : List Candidate → List Assignment → List String
domains_taken candidates [] = []
domains_taken candidates (a ∷ as_) =
    let rest = domains_taken candidates as_ in
    add_domain (domain_of candidates a.target_node_id) rest

-- `min(xs, key=...)`: the first of the least.
abbrev pub least : (String → String → Bool) → String → List String → String
least le x [] = x
least le x (y ∷ ys) =
    let keep_x = least le x ys in let keep_y = least le y ys in if le x y then keep_x else keep_y

abbrev pub least_of : (String → String → Bool) → List String → Option String
least_of le [] = none
least_of le (x ∷ xs) = some (least le x xs)

-- The order of the pairs `(in_flight.get(n, 0), n)`.
abbrev pub less_busy : List (String × ℕ) → String → String → Bool
less_busy in_flight m n =
    ltb (flying in_flight m) (flying in_flight n)
    || (flying in_flight m == flying in_flight n && str_leb m n)

abbrev pub or_any : List String → List String → List String
or_any [] others = others
or_any (x ∷ xs) others = x ∷ xs

abbrev pub is_available :
    ReplicationGap → List Assignment → List (String × ℕ) → ℕ → Candidate → Bool
is_available gap done in_flight max_per_target (node_id, domain) =
    not (
      names gap.holders node_id
      || names (map (λ (a : Assignment). a.target_node_id) (of_block gap.block_id done)) node_id)
    && ltb (flying in_flight node_id) max_per_target

unfoldable pub choose_target :
    ReplicationGap → List Assignment → List Candidate → List (String × ℕ) → ℕ → Option String
choose_target gap done candidates in_flight max_per_target =
    let available = keep (is_available gap done in_flight max_per_target) candidates in
    let covered = gap.holder_domains ++ domains_taken candidates (of_block gap.block_id done) in
    let preferred = keep (λ (c : Candidate). not (names covered c.1)) available in
    least_of (less_busy in_flight)
      (or_any (map (λ (c : Candidate). c.0) preferred) (map (λ (c : Candidate). c.0) available))

-- The state of the loops: the assignments so far, in order, and the copies in flight.
abbrev pub Progress : Type 0
Progress = List Assignment × List (String × ℕ)

abbrev pub assigned : ReplicationGap → String → Option String → Progress → Progress
assigned gap source none p = p
assigned gap source (some target) (done, in_flight) = (
  done
      ++ record {
        block_id = gap.block_id;
        source_node_id = source;
        target_node_id = target;
        gap = gap;
      }
        ∷ [],
  take_off target in_flight,
)

-- The inner loop, at most `n` times. After a `break` the state no longer changes, so a round that
-- finds no target leaves it as it is.
abbrev pub fill : List Candidate → ℕ → ReplicationGap → String → ℕ → Progress → Progress
fill candidates max_per_target gap source zero p = p
fill candidates max_per_target gap source (suc n) (done, in_flight) =
    elim (choose_target gap done candidates in_flight max_per_target) [
      | none ↦ (done, in_flight)
      | some target ↦
          fill candidates max_per_target gap source n
            (assigned gap source (some target) (done, in_flight))
    ]

abbrev pub fill_from : List Candidate → ℕ → ℕ → ReplicationGap → List String → Progress → Progress
fill_from candidates max_per_target max_per_block gap [] p = p
fill_from candidates max_per_target max_per_block gap (source ∷ rest) p =
    fill candidates max_per_target gap source (min (missing gap) max_per_block) p

-- `max_total is not None and len(done) >= max_total`
abbrev pub is_full : Option ℕ → List Assignment → Bool
is_full none done = false
is_full (some max_total) done = leb max_total (length done)

abbrev pub assign_each :
    List Candidate → ℕ → Option ℕ → ℕ → List ReplicationGap → Progress → Progress
assign_each candidates max_per_target max_total max_per_block [] p = p
assign_each candidates max_per_target max_total max_per_block (gap ∷ gaps) p =
    let next = fill_from candidates max_per_target max_per_block gap gap.holders p in
    let rest = assign_each candidates max_per_target max_total max_per_block gaps next in
    if is_full max_total p.0 then p else rest

unfoldable pub assign_targets :
    List ReplicationGap → List Candidate → List (String × ℕ) → ℕ → Option ℕ → ℕ → List Assignment
unfolding prioritise
assign_targets gaps candidates in_flight max_per_target max_total max_per_block =
    (assign_each candidates max_per_target max_total max_per_block (prioritise gaps)
      ([], in_flight)).0
