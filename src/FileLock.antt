-- ===== src/FileLock.antt =====
-- control_node/domain/filelock.py: file locks by lease, shared and exclusive.
use dfsha_telematica.Prelude.{
  ℕ, ◌-◌, ◌*◌, String, ◌≡◌, ◌↔◌, Bool, true, false, not, ◌&&◌, none, some, List, [], ◌∷◌, arith,
  leb, keep, find_first, Eq, ◌==◌, string_eq, if◌then◌else◌,
}
use dfsha_telematica.Errors.{Result, ok, err, value_error}

pub data LockMode : Type 0 where
  shared exclusive : LockMode

abbrev pub lock_mode_beq : LockMode → LockMode → Bool
lock_mode_beq shared shared = true
lock_mode_beq exclusive exclusive = true
lock_mode_beq _ _ = false

pub lock_mode_beq_iff : (a b : LockMode) → (lock_mode_beq a b ≡ true) ↔ (a ≡ b)
lock_mode_beq_iff a b = ground arith

instance abbrev pub lock_mode_eq : Eq LockMode
lock_mode_eq = record { test = lock_mode_beq; test_iff = lock_mode_beq_iff }

-- What a write to a locked file has to carry.
pub record LockFencing : Type 0 where
  pub holder_id : String
  pub epoch : ℕ

pub record FileLock : Type 0 where
  pub file_id : String
  pub holder_id : String
  pub mode : LockMode
  pub epoch : ℕ
  pub acquired_at : ℕ
  pub expires_at : ℕ

unfoldable pub is_expired : FileLock → ℕ → Bool
is_expired l now = leb l.expires_at now

unfoldable pub held_by : FileLock → String → ℕ → Bool
unfolding is_expired
held_by l holder_id now = l.holder_id == holder_id && not (is_expired l now)

-- `max(0.0, expires_at - now)`: subtraction on ℕ stops at 0.
unfoldable pub remaining_time : FileLock → ℕ → ℕ
remaining_time l now = l.expires_at - now

unfoldable pub fencing : FileLock → LockFencing
fencing l = record { holder_id = l.holder_id; epoch = l.epoch }

pub record LockTimings : Type 0 where
  pub ttl : ℕ

unfoldable pub timings_from_millis : ℕ → Result LockTimings
timings_from_millis ttl_ms =
    if leb ttl_ms 0 then err value_error else ok (record { ttl = ttl_ms * 1000 })

-- Who stands in the way.
pub record LockConflict : Type 0 where
  pub holder_id : String
  pub mode : LockMode
  pub remaining : ℕ

pub data LockDecision : Type 0 where
  grant renew_existing : LockDecision
  conflict : LockConflict → LockDecision

unfoldable pub live : List FileLock → ℕ → List FileLock
unfolding is_expired
live existing now = keep (λ l. not (is_expired l now)) existing

abbrev pub refused_by : FileLock → ℕ → LockDecision
refused_by l now =
    conflict (record { holder_id = l.holder_id; mode = l.mode; remaining = l.expires_at - now })

-- The last part of `can_acquire`, over the live locks of others: for an exclusive lock any of
-- them is in the way, for a shared one the first exclusive.
abbrev pub against_others : LockMode → ℕ → List FileLock → LockDecision
against_others mode now [] = grant
against_others exclusive now (l ∷ ls) = refused_by l now
against_others shared now (l ∷ ls) =
    elim (find_first (λ (o : FileLock). o.mode == exclusive) (l ∷ ls)) [
      | none ↦ grant
      | some e ↦ refused_by e now
    ]

unfoldable pub can_acquire : List FileLock → String → LockMode → ℕ → LockDecision
unfolding live
can_acquire existing holder_id mode now =
    let alive = live existing now in
    let others = keep (λ (l : FileLock). not (l.holder_id == holder_id)) alive in
    elim (find_first (λ (l : FileLock). l.holder_id == holder_id) alive) [
      | some mine ↦ if mine.mode == mode then renew_existing else refused_by mine now
      | none ↦ against_others mode now others
    ]
