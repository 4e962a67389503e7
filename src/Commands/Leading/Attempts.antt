-- ===== src/Commands/Leading/Attempts.antt =====
-- control_node/commands/leadership.py: what one call of `acquire_or_renew` does to the lease.
use dfsha_telematica.Prelude.{
  ℕ, ◌+◌, String, ◌≡◌, refl, sym, ap, subst, true, false, Option, none, some, arith, ==_iff,
  ==_refl, nat_eq, string_eq,
}
use dfsha_telematica.Errors.{Result, ok}
use dfsha_telematica.Leadership.{Lease, is_named, LeaseTimings, LeaseAction, is_expired, decide}
use dfsha_telematica.Database.{Database}
use dfsha_telematica.Repositories.LeadershipRows.{free_lease}
use dfsha_telematica.Commands.Leading.{acquire_or_renew, or_seed, take_action}
use dfsha_telematica.Session.{with_uow, ◌>>=◌}

-- What the three actions leave in the row, and what they grant.
abbrev pub granted : LeaseAction → Lease → String → LeaseTimings → ℕ → Option Lease
granted LeaseAction.renew l id t now =
    some (record l { renewed_at = some now; expires_at = some (now + t.ttl) })
granted LeaseAction.acquire l id t now = some (record {
  leader_id = some id;
  epoch = l.epoch + 1;
  acquired_at = some now;
  renewed_at = some now;
  expires_at = some (now + t.ttl);
})
granted LeaseAction.stand_by l id t now = none

abbrev pub kept : Option Lease → Lease → Lease
kept none l = l
kept (some g) l = g

pub is_named-eq : (o : Option String) (id : String) → is_named o id ≡ true → o ≡ some id
is_named-eq none id h = cc
is_named-eq (some l) id h = ap some ((==_iff l id).0 h)

pub decide-renew :
    (l : Lease) (id : String) (now : ℕ)
    → decide l id now ≡ LeaseAction.renew
    → (is_named l.leader_id id ≡ true) × (is_expired l now ≡ false)
unfolding decide
decide-renew l id now h = ground arith

module _ (id : String) (t : LeaseTimings) (now : ℕ) (db : Database) where
  action_lem :
      (a : LeaseAction) (l : Lease)
      → db.lease ≡ some l
      → (a ≡ LeaseAction.renew → is_named l.leader_id id ≡ true)
      → let (r, s) = take_action a l id t now (record { durable = db; working = db }) in
        (r ≡ ok (granted a l id t now)) × (s.durable.lease ≡ some (kept (granted a l id t now) l))
  action_lem LeaseAction.renew l row own = rw (row, own refl, ==_refl l.epoch) (refl, refl)
  action_lem LeaseAction.acquire l row own = rw row (refl, refl)
  action_lem LeaseAction.stand_by l row own = (refl, row)

  -- The rest of the unit of work once the row is read.
  abbrev from_row : Option Lease → Result (Option Lease) × Database
  from_row row =
      with_uow (do lease ← or_seed row; take_action (decide lease id now) lease id t now) db

  -- What the call answers, and the row that it leaves behind.
  abbrev pub Leaves : Option Lease → Option Lease → Result (Option Lease) × Database → Type 0
  Leaves grant after (r, db') = (r ≡ ok grant) × (db'.lease ≡ after)

  -- From a row that is there, the attempt grants and stores what its action says.
  pub attempt_some :
      (l : Lease)
      → db.lease ≡ some l
      → Leaves
          (granted (decide l id now) l id t now)
          (some (kept (granted (decide l id now) l id t now) l))
          (acquire_or_renew id t now db)
  unfolding acquire_or_renew
  attempt_some l row =
      let g = granted (decide l id now) l id t now in
      subst (λ o. Leaves g (some (kept g l)) (from_row o)) (sym row)
        (action_lem (decide l id now) l row (λ e. (decide-renew l id now e).0))

  -- A missing row is seeded, and then taken.
  pub attempt_none :
      db.lease ≡ none
      → Leaves
          (granted LeaseAction.acquire free_lease id t now)
          (granted LeaseAction.acquire free_lease id t now)
          (acquire_or_renew id t now db)
  unfolding acquire_or_renew decide is_expired
  attempt_none row =
      let g = granted LeaseAction.acquire free_lease id t now in
      subst (λ o. Leaves g g (from_row o)) (sym row) (refl, refl)
