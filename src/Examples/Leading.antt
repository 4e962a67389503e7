-- ===== src/Examples/Leading.antt =====
-- Two instances that lead one after the other.
use dfsha_telematica.Prelude.{◌<◌, ◌≡◌, refl, ◌⊎◌, inl, some, [], ◌∷◌, All}
use dfsha_telematica.Errors.{ok}
use dfsha_telematica.Leadership.{Fencing, Lease, LeaseTimings, is_expired, decide, fencing}
use dfsha_telematica.Session.{Session}
use dfsha_telematica.Database.{Database}
use dfsha_telematica.Commands.Leading.{acquire_or_renew, require_leadership}
use dfsha_telematica.Commands.Leading.Epochs.{Step, History, Consistent, History-Consistent}
use dfsha_telematica.Commands.Leading.Newest.{require_leadership-newest}
use dfsha_telematica.Examples.{empty_db}

abbrev timings : LeaseTimings
timings = record { ttl = 10; renew_every = 3 }

abbrev first : Fencing
first = record { leader_id = "a"; epoch = 1 }

abbrev second : Fencing
second = record { leader_id = "b"; epoch = 2 }

-- "b" takes over at 20, ten after the lease of "a" ran out.
abbrev led_by_a : Database
led_by_a = (acquire_or_renew "a" timings 0 empty_db).1

abbrev lease_of_b : Lease
lease_of_b = record {
  leader_id = some "b";
  epoch = 2;
  acquired_at = some 20;
  renewed_at = some 20;
  expires_at = some 30;
}

abbrev led_by_b : Database
led_by_b = (acquire_or_renew "b" timings 20 led_by_a).1

two_leaders : History (second ∷ first ∷ []) led_by_b
unfolding acquire_or_renew decide fencing
two_leaders =
    History.next (some second) led_by_b
      (History.next (some first) led_by_a (History.start empty_db (inl refl))
        (Step.attempt "a" timings 0 refl refl))
      (Step.attempt "b" timings 20 refl refl)

History-Consistent_example : Consistent (second ∷ first ∷ [])
History-Consistent_example = History-Consistent (second ∷ first ∷ []) led_by_b two_leaders

abbrev session_of_b : Session Database
session_of_b = record { durable = led_by_b; working = led_by_b }

b_leads : (require_leadership second 25 session_of_b).0 ≡ ok lease_of_b
unfolding require_leadership acquire_or_renew decide is_expired
b_leads = refl

require_leadership-newest_example :
    All (λ g. (g.epoch < second.epoch) ⊎ (g ≡ second)) (second ∷ first ∷ [])
require_leadership-newest_example =
    require_leadership-newest (second ∷ first ∷ []) led_by_b second 25 session_of_b lease_of_b
      two_leaders refl b_leads
