-- ===== src/Session/Steady.antt =====
-- Code that keeps an invariant of the tables: of those that others see, and of its own.
use dfsha_telematica.Prelude.{sym, subst, Bool, true, false, if◌then◌else◌}
use dfsha_telematica.Errors.{Result, ok, err}
use dfsha_telematica.Session.{Session, Exec, state, modify, commit, when, continue, ◌>>=◌, with_uow}
use dfsha_telematica.Session.Reading.{Reads}

pub record Holds {ℓ} {S : Type ℓ} (I : S → Type 0) (s : Session S) : Type ℓ where
  pub durable : I s.durable
  pub working : I s.working

abbrev pub Steady {ℓ} : {S A : Type ℓ} → (S → Type 0) → Exec S A → Type ℓ
Steady {S = S} I m = (s : Session S) → Holds I s → Holds I (m s).1

module _ {ℓ} {S : Type ℓ} (I : S → Type 0) where
  module _ {A B : Type ℓ} where
    continue-Steady :
        (f : A → Exec S B)
        → ((a : A) → Steady I (f a))
        → (r : Result A) (s : Session S) → Holds I s
        → Holds I (continue r f s).1
    continue-Steady f sf (ok a) s h = sf a s h
    continue-Steady f sf (err e) s h = h

    pub Steady-then :
        (m : Exec S A) (f : A → Exec S B)
        → Steady I m
        → ((a : A) → Steady I (f a))
        → Steady I (m >>= f)
    Steady-then m f sm sf s h = continue-Steady f sf (m s).0 (m s).1 (sm s h)

  module _ {A : Type ℓ} where
    pub Reads-Steady : (m : Exec S A) → Reads m → Steady I m
    Reads-Steady m r s h = subst (Holds I) (sym (r s)) h

    pub state-Steady : (f : S → A × S) → ((w : S) → I w → I (f w).1) → Steady I (state f)
    state-Steady f k s h = record { durable = h.durable; working = k s.working h.working }

    pub Steady-if :
        (b : Bool) (m n : Exec S A) → Steady I m → Steady I n → Steady I (if b then m else n)
    Steady-if true m n sm sn = sm
    Steady-if false m n sm sn = sn

    -- The unit of work keeps what its code keeps.
    pub with_uow-keeps : (m : Exec S A) → Steady I m → (db : S) → I db → I (with_uow m db).1
    with_uow-keeps m sm db h =
        (sm (record { durable = db; working = db }) (record { durable = h; working = h })).durable

  pub modify-Steady : (f : S → S) → ((w : S) → I w → I (f w)) → Steady I (modify f)
  modify-Steady f k s h = record { durable = h.durable; working = k s.working h.working }

  pub commit-Steady : Steady I commit
  commit-Steady s h = record { durable = h.working; working = h.working }

  pub when-Steady : (b : Bool) (m : Exec S (Unit {ℓ})) → Steady I m → Steady I (when b m)
  when-Steady true m sm = sm
  when-Steady false m sm = λ s h. h
