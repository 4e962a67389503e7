-- ===== src/Repositories/LeadershipRows.antt =====
-- SqlLeadershipRepository of control_node/repositories/sql.py.
use dfsha_telematica.Prelude.{
  ℕ, String, Bool, ◌&&◌, Option, none, some, ◌==◌, nat_eq, if◌then◌else◌,
}
use dfsha_telematica.Errors.{runtime_error}
use dfsha_telematica.Leadership.{Lease, is_named}
use dfsha_telematica.Session.{Exec, pure, raise, gets, modify, ◌>>=◌, ◌>>◌}
use dfsha_telematica.Database.{Database}

abbrev pub lock : Exec Database (Option Lease)
lock = gets (λ db. db.lease)

abbrev pub peek : Exec Database (Option Lease)
peek = gets (λ db. db.lease)

abbrev pub free_lease : Lease
free_lease = record {
  leader_id = none;
  epoch = 0;
  acquired_at = none;
  renewed_at = none;
  expires_at = none;
}

abbrev pub seed : Exec Database Lease
seed = do modify (λ db. record db { lease = some free_lease }); pure free_lease

-- An UPDATE of the row, if there is one.
abbrev pub update_row : (Lease → Lease) → Option Lease → Option Lease
update_row f none = none
update_row f (some l) = some (f l)

abbrev pub acquire : String → ℕ → ℕ → ℕ → Exec Database Lease
acquire leader_id epoch now expires_at =
    let taken : Lease = record {
      leader_id = some leader_id;
      epoch = epoch;
      acquired_at = some now;
      renewed_at = some now;
      expires_at = some expires_at;
    } in
    do modify (λ db. record db { lease = update_row (λ l. taken) db.lease }); pure taken

-- The WHERE clause of `renew` and `release`.
abbrev pub is_held_as : Lease → String → ℕ → Bool
is_held_as l leader_id epoch = is_named l.leader_id leader_id && l.epoch == epoch

abbrev pub renew_row : String → ℕ → ℕ → ℕ → Option Lease → Exec Database Lease
renew_row leader_id epoch now expires_at none = raise runtime_error
renew_row leader_id epoch now expires_at (some l) =
    let renewed : Lease = record l { renewed_at = some now; expires_at = some expires_at } in
    if is_held_as l leader_id epoch
    then (do modify (λ db. record db { lease = some renewed }); pure renewed)
    else raise runtime_error

abbrev pub renew : String → ℕ → ℕ → ℕ → Exec Database Lease
renew leader_id epoch now expires_at = do row ← lock; renew_row leader_id epoch now expires_at row

abbrev pub released : String → ℕ → Lease → Lease
released leader_id epoch l =
    if is_held_as l leader_id epoch then record l { leader_id = none; expires_at = none } else l

abbrev pub release : String → ℕ → Exec Database (Unit {0})
release leader_id epoch =
    modify (λ db. record db { lease = update_row (released leader_id epoch) db.lease })
