-- ===== src/Commands/Leading/Reading.antt =====
-- control_node/commands/leadership.py: the check of the leadership only reads.
use dfsha_telematica.Prelude.{
  ℕ, String, ◌≡◌, refl, Option, none, some, not, ◌||◌, ◌==◌, nat_eq, string_eq,
}
use dfsha_telematica.Leadership.{Fencing, Lease, is_expired}
use dfsha_telematica.Session.Reading.{Reads, Reads-if}
use dfsha_telematica.Commands.Leading.{check_lease, require_leadership}

check_lease-Reads : (f : Fencing) (now : ℕ) (o : Option Lease) → Reads (check_lease f now o)
unfolding is_expired
check_lease-Reads f now none = λ s. refl
check_lease-Reads f now (some lease) = by_leader lease.leader_id refl
  where
    by_leader : (o : Option String) → lease.leader_id ≡ o → Reads (check_lease f now (some lease))
    by_leader none e s = rw e refl
    by_leader (some leader) e s = rw e (
        Reads-if
          (not (leader == f.leader_id) || not (lease.epoch == f.epoch) || is_expired lease now) _ _
          (λ t. refl) (λ t. refl) s)

pub require_leadership-Reads : (f : Fencing) (now : ℕ) → Reads (require_leadership f now)
unfolding require_leadership
require_leadership-Reads f now s = check_lease-Reads f now _ s
