-- ===== src/Leadership.antt =====
-- control_node/domain/leadership.py: the leadership lease with its epoch.
use dfsha_telematica.Prelude.{
  ℕ, ◌-◌, ◌*◌, String, Bool, true, false, not, ◌&&◌, Option, none, some, leb, ◌==◌, string_eq,
  if◌then◌else◌,
}
use dfsha_telematica.Errors.{Result, ok, err, value_error}

-- What an operation that needs leadership has to carry.
pub record Fencing : Type 0 where
  pub leader_id : String
  pub epoch : ℕ

pub record Lease : Type 0 where
  pub leader_id : Option String
  pub epoch : ℕ
  pub acquired_at : Option ℕ
  pub renewed_at : Option ℕ
  pub expires_at : Option ℕ

-- With no expiry there is no lease: the first row is free.
unfoldable pub is_expired : Lease → ℕ → Bool
is_expired l now = elim l.expires_at [ none ↦ true | some t ↦ leb t now ]

-- `lease.leader_id == instance_id`, where the left side may be None.
abbrev pub is_named : Option String → String → Bool
is_named none id = false
is_named (some l) id = l == id

unfoldable pub held_by : Lease → String → ℕ → Bool
unfolding is_expired
held_by l instance_id now = is_named l.leader_id instance_id && not (is_expired l now)

unfoldable pub remaining_time : Lease → ℕ → ℕ
remaining_time l now = elim l.expires_at [ none ↦ 0 | some t ↦ t - now ]

unfoldable pub fencing : Lease → Option Fencing
fencing l = elim l.leader_id [
  | none ↦ none
  | some id ↦ some (record { leader_id = id; epoch = l.epoch })
]

pub record LeaseTimings : Type 0 where
  pub ttl : ℕ
  pub renew_every : ℕ

-- Milliseconds, as the times count microseconds.
unfoldable pub timings_from_millis : ℕ → ℕ → Result LeaseTimings
timings_from_millis ttl_ms renew_ms =
    if leb ttl_ms renew_ms
    then err value_error
    else ok (record { ttl = ttl_ms * 1000; renew_every = renew_ms * 1000 })

pub data LeaseAction : Type 0 where
  renew acquire stand_by : LeaseAction

unfoldable pub decide : Lease → String → ℕ → LeaseAction
unfolding held_by
decide l instance_id now =
    if held_by l instance_id now then renew else if is_expired l now then acquire else stand_by
