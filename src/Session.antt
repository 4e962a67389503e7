-- ===== src/Session.antt =====
-- SqlUnitOfWork of control_node/repositories/sql.py: one session, one transaction. What is written
-- is lost at the end of the `with` block unless `commit` was called, and an exception ends the
-- block. The row locks of the database (`SELECT ... FOR UPDATE`) make transactions on the same rows
-- run one after the other, so a history of the database is a sequence of such blocks.
pub mod Reading
pub mod Whole
pub mod Steady
use dfsha_telematica.Prelude.{Bool, if◌then◌else◌}
use dfsha_telematica.Errors.{Error, Result, ok, err}

pub record Session {ℓ} (S : Type ℓ) : Type ℓ where
  -- what other transactions see
  pub durable : S
  -- what this one sees
  pub working : S

abbrev pub Exec {ℓ} : Type ℓ → Type ℓ → Type ℓ
Exec S A = Session S → Result A × Session S

module _ {ℓ} {S A : Type ℓ} where
  abbrev pub pure : A → Exec S A
  pure a s = (ok a, s)

  abbrev pub raise : Error → Exec S A
  raise e s = (err e, s)

  abbrev pub lift : Result A → Exec S A
  lift r s = (r, s)

  abbrev pub gets : (S → A) → Exec S A
  gets f s = (ok (f s.working), s)

  -- A query or statement on the tables that this transaction sees.
  abbrev pub state : (S → A × S) → Exec S A
  state f s = let (a, w) = f s.working in (ok a, record s { working = w })

  -- The `with uow:` block: at its end what was not committed is rolled back.
  abbrev pub with_uow : Exec S A → S → Result A × S
  with_uow body db = let (r, s) = body (record { durable = db; working = db }) in (r, s.durable)

module _ {ℓ} {S A B : Type ℓ} where
  abbrev pub continue : Result A → (A → Exec S B) → Exec S B
  continue (ok a) f s = f a s
  continue (err e) f s = (err e, s)

  infixl 5 ◌>>=◌ ◌>>◌
  abbrev pub ◌>>=◌ : Exec S A → (A → Exec S B) → Exec S B
  ◌>>=◌ m f s = let (r, s') = m s in continue r f s'

  abbrev pub ◌>>◌ : Exec S A → Exec S B → Exec S B
  m >> n = m >>= λ _. n

module _ {ℓ} {S : Type ℓ} where
  abbrev pub modify : (S → S) → Exec S (Unit {ℓ})
  modify f s = (ok tt, record s { working = f s.working })

  abbrev pub commit : Exec S (Unit {ℓ})
  commit s = (ok tt, record s { durable = s.working })

  abbrev pub when : Bool → Exec S (Unit {ℓ}) → Exec S (Unit {ℓ})
  when b m = if b then m else pure tt
