-- ===== src/Commands/Leading/Newest.antt =====
-- control_node/commands/leadership.py: who passes `require_leadership`.
use dfsha_telematica.Prelude.{
  ℕ, ◌<◌, ◌≡◌, sym, ap, ◌∙◌, false, Option, none, some, List, arith, All, All-imp, ==_iff, nat_eq,
  string_eq, ◌⊎◌, inl, inr, Option-cases,
}
use dfsha_telematica.Errors.{ok}
use dfsha_telematica.Leadership.{Fencing, Lease, is_expired}
use dfsha_telematica.Session.{Session}
use dfsha_telematica.Database.{Database}
use dfsha_telematica.Commands.Leading.{check_lease, require_leadership}
use dfsha_telematica.Commands.Leading.Epochs.{History, Covered, History-Inv}

check_lease-ok :
    (f : Fencing) (now : ℕ) (row : Option Lease) (s : Session Database) (l : Lease)
    → (check_lease f now row s).0 ≡ ok l
    → (row ≡ some l)
      × (l.leader_id ≡ some f.leader_id)
      × (l.epoch ≡ f.epoch)
      × (is_expired l now ≡ false)
check_lease-ok f now none s l h = cc
check_lease-ok f now (some m) s l h = elim (Option-cases m.leader_id) [
  | inl free ↦ ground arith
  | inr (x, leads) ↦ ground (arith, ==_iff x f.leader_id)
]

check_passed :
    (f : Fencing) (now : ℕ) (s : Session Database) (l : Lease)
    → (require_leadership f now s).0 ≡ ok l
    → (s.working.lease ≡ some l)
      × (l.leader_id ≡ some f.leader_id)
      × (l.epoch ≡ f.epoch)
      × (is_expired l now ≡ false)
unfolding require_leadership
check_passed f now s l h = check_lease-ok f now s.working.lease s l h

newest_of :
    (f g : Fencing) (l : Lease)
    → l.leader_id ≡ some f.leader_id
    → l.epoch ≡ f.epoch
    → Covered (some l) g
    → (g.epoch < f.epoch) ⊎ (g ≡ f)
newest_of f g l leads same c = ground arith

-- Whoever passes `require_leadership` holds the newest fencing: every other one that was handed
-- out has a smaller epoch. So a leader that was frozen while another one took over is refused.
pub require_leadership-newest :
    (fs : List Fencing) (db : Database) (f : Fencing) (now : ℕ) (s : Session Database) (l : Lease)
    → History fs db
    → s.working ≡ db
    → (require_leadership f now s).0 ≡ ok l
    → All (λ g. (g.epoch < f.epoch) ⊎ (g ≡ f)) fs
require_leadership-newest fs db f now s l h here passed =
    let (row, leads, same, _) = check_passed f now s l passed in
    let found : db.lease ≡ some l = ap (λ (d : Database). d.lease) (sym here) ∙ row in
    All-imp (Covered (some l)) _ fs (λ g. newest_of f g l leads same)
      (rw found at (History-Inv h).covered)
