-- ===== src/Rules/Reservations.antt =====
-- control_node/domain/rules.py: what the rules on reservations and commits admit.
use dfsha_telematica.Prelude.{
  ℕ, String, ◌≡◌, ◌≢◌, ◌⊎◌, refl, true, false, Option, none, some, List, [], arith,
}
use dfsha_telematica.Errors.{
  ok, err, already_exists, reservation_expired, blocks_not_stored, invalid_state,
}
use dfsha_telematica.Entities.{File, writing, is_expired, is_visible, holds_name}
use dfsha_telematica.Rules.{
  ensure_name_is_free, ensure_no_live_reservation, ensure_can_commit, ensure_visible,
}

-- What a commit answers: it is admitted for a reservation that is still WRITING, has not expired,
-- and has no block below the quorum. Otherwise the error says which of the three is missing, in
-- this order.
pub ensure_can_commit_lem :
    (f : File) (below : List String) (now : ℕ)
    → ((ensure_can_commit f below now ≡ ok tt)
        × (f.state ≡ writing)
        × (is_expired f now ≡ false)
        × (below ≡ []))
      ⊎ ((ensure_can_commit f below now ≡ err invalid_state) × (f.state ≢ writing))
      ⊎ ((ensure_can_commit f below now ≡ err reservation_expired)
          × (f.state ≡ writing)
          × (is_expired f now ≡ true))
      ⊎ ((ensure_can_commit f below now ≡ err blocks_not_stored)
          × (f.state ≡ writing)
          × (is_expired f now ≡ false)
          × (below ≢ []))
unfolding ensure_can_commit
ensure_can_commit_lem f below now = ground arith

-- Where `create` goes ahead over a name that is taken, what it will replace is a file that the
-- readers see.
pub create_over_taken :
    (existing : Option File) (now : ℕ)
    → ensure_no_live_reservation existing now ≡ ok tt
    → ensure_name_is_free existing now ≡ err already_exists
    → (f : File) × (existing ≡ some f) × (ensure_visible existing ≡ ok f)
unfolding ensure_no_live_reservation ensure_name_is_free holds_name ensure_visible is_visible
create_over_taken none now h k = cc
create_over_taken (some f) now h k = (f, refl, ground arith)
