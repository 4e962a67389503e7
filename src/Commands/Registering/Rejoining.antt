-- ===== src/Commands/Registering/Rejoining.antt =====
-- control_node/commands/control_plane.py: a known node registers again.
use dfsha_telematica.Prelude.{
  ℕ, ◌+◌, ◌≤◌, String, ◌≡◌, ◌≢◌, refl, sym, ap, true, false, not, ◌&&◌, some, arith, leb,
  find_first, ◌==◌, ==_iff, string_eq, inl, inr, Bool-cases,
}
use dfsha_telematica.Errors.{ok}
use dfsha_telematica.Entities.{dead, DataNode}
use dfsha_telematica.Membership.{
  MembershipThresholds, StateChange, evaluate, state_for, lost_replicas, classify_rejoin,
}
use dfsha_telematica.Database.{Database}
use dfsha_telematica.Repositories.DataNodeRows.{Registration, has_id, readmitted}
use dfsha_telematica.Commands.Registering.{RegistrationResult, register_node}

module _ (r : Registration) (fresh : String) (now : ℕ) (db : Database) (n : DataNode) where
  ok-injective : {a b : RegistrationResult} → ok a ≡ ok b → a ≡ b
  ok-injective h = cc

  readmitted_lem :
      (res : RegistrationResult)
      → find_first (has_id n.id) db.data_nodes ≡ some n
      → n.id ≢ ""
      → (register_node r n.id fresh now db).0 ≡ ok res
      → res.node ≡ readmitted r n
  unfolding register_node classify_rejoin
  readmitted_lem res found named answered =
      let filled : (n.id == "") ≡ false = ground (arith, named, ==_iff n.id "") in
      elim (Bool-cases (not (n.boot_id == "") && n.boot_id == r.boot_id)) [
        | inl e ↦ sym (
            ap (λ (x : RegistrationResult). x.node)
              (ok-injective (rw (filled, found, filled, found, filled, e) at answered)))
        | inr e ↦ sym (
            ap (λ (x : RegistrationResult). x.node)
              (ok-injective (rw (filled, found, filled, found, filled, e) at answered)))
      ]

  -- A node that registers again after a silence as long as the threshold of DEAD keeps its last
  -- heartbeat. So an evaluation at the very time of its registration declares it dead, and its
  -- replicas lost.
  pub readmitted_declared_dead :
      (t : MembershipThresholds) (beat : ℕ) (res : RegistrationResult)
      → find_first (has_id n.id) db.data_nodes ≡ some n
      → n.id ≢ ""
      → n.last_heartbeat_at ≡ some beat
      → beat + t.dead_after ≤ now
      → (register_node r n.id fresh now db).0 ≡ ok res
      → (c : StateChange) × (evaluate res.node now t ≡ some c) × (lost_replicas c ≡ true)
  unfolding evaluate state_for lost_replicas
  readmitted_declared_dead t beat res found named last silent answered =
      let same = readmitted_lem res found named answered in
      let silence : leb (beat + t.dead_after) now ≡ true = ground arith in
      let gone : state_for n.last_heartbeat_at now t (some n.registered_at) ≡ dead =
        rw (last, silence) refl in
      rw (same, gone) (_, refl, refl)
