-- ===== src/Membership/Silence.antt =====
-- control_node/domain/membership.py: how the state of a silent node changes with time.
use dfsha_telematica.Prelude.{ℕ, ◌+◌, ◌≤◌, ◌≡◌, ◌≢◌, Option, none, some, arith}
use dfsha_telematica.Entities.{alive, dead}
use dfsha_telematica.Membership.{MembershipThresholds, or_else, state_since, state_for}

-- A node that is alive when it is looked at is not dead when it is looked at again within less
-- than the difference of the thresholds: its transition to DEAD is seen through SUSPECT.
pub not_dead_from_alive :
    (t : MembershipThresholds) (last_heartbeat_at registered_at : Option ℕ) (now later : ℕ)
    → state_for last_heartbeat_at now t registered_at ≡ alive
    → later + t.suspect_after ≤ now + t.dead_after
    → state_for last_heartbeat_at later t registered_at ≢ dead
unfolding state_for
not_dead_from_alive t last_heartbeat_at registered_at now later living short =
    go (or_else last_heartbeat_at registered_at) living
  where
    go : (o : Option ℕ) → state_since o now t ≡ alive → state_since o later t ≢ dead
    go none h = absurd (cc)
    go (some r) h = ground arith
