-- ===== src/Commands/Leading.antt =====
-- control_node/commands/leadership.py.
pub mod Attempts
pub mod Epochs
pub mod Newest
pub mod Reading
use dfsha_telematica.Prelude.{
  ℕ, ◌+◌, String, Bool, true, false, not, ◌||◌, Option, none, some, ◌==◌, nat_eq, string_eq,
  if◌then◌else◌,
}
use dfsha_telematica.Errors.{Error, Result, ok, err, not_leader, stale_epoch}
use dfsha_telematica.Leadership.{
  Fencing, Lease, LeaseTimings, LeaseAction, is_expired, is_named, decide,
}
use dfsha_telematica.Session.{Exec, pure, raise, commit, with_uow, ◌>>=◌, ◌>>◌}
use dfsha_telematica.Database.{Database}
use dfsha_telematica.Repositories.LeadershipRows
use dfsha_telematica.Repositories.LeadershipRows.{free_lease}

abbrev pub or_seed : Option Lease → Exec Database Lease
or_seed none = LeadershipRows.seed
or_seed (some l) = pure l

abbrev pub take_action :
    LeaseAction → Lease → String → LeaseTimings → ℕ → Exec Database (Option Lease)
take_action LeaseAction.renew lease instance_id timings now = do
  renewed ← LeadershipRows.renew instance_id lease.epoch now (now + timings.ttl)
  commit
  pure (some renewed)
take_action LeaseAction.acquire lease instance_id timings now = do
  taken ← LeadershipRows.acquire instance_id (lease.epoch + 1) now (now + timings.ttl)
  commit
  pure (some taken)
take_action LeaseAction.stand_by lease instance_id timings now = pure none

unfoldable pub acquire_or_renew :
    String → LeaseTimings → ℕ → Database → Result (Option Lease) × Database
acquire_or_renew instance_id timings now = with_uow do
  row ← LeadershipRows.lock
  lease ← or_seed row
  take_action (decide lease instance_id now) lease instance_id timings now

abbrev pub check_lease : Fencing → ℕ → Option Lease → Exec Database Lease
check_lease f now none = raise not_leader
check_lease f now (some lease) = elim lease.leader_id [
  | none ↦ raise not_leader
  | some leader ↦
      if not (leader == f.leader_id) || not (lease.epoch == f.epoch) || is_expired lease now
      then raise stale_epoch
      else pure lease
]

-- Called inside the open unit of work of the operation that needs leadership.
unfoldable pub require_leadership : Fencing → ℕ → Exec Database Lease
require_leadership f now = do row ← LeadershipRows.lock; check_lease f now row

unfoldable pub release_leadership : Fencing → Database → Result (Unit {0}) × Database
release_leadership f = with_uow do LeadershipRows.release f.leader_id f.epoch; commit

abbrev pub or_free : Option Lease → Lease
or_free none = free_lease
or_free (some l) = l

unfoldable pub read_lease : Database → Result Lease × Database
read_lease = with_uow do row ← LeadershipRows.peek; pure (or_free row)
