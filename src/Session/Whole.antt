-- ===== src/Session/Whole.antt =====
-- A unit of work is all or nothing: it fails and leaves the tables, or it is done.
use dfsha_telematica.Prelude.{◌≡◌, refl, sym, ap, subst, ◌⊎◌, inl, inr}
use dfsha_telematica.Errors.{Error, Result, ok, err}
use dfsha_telematica.Session.{Session, Exec, raise, ◌>>=◌}
use dfsha_telematica.Session.Reading.{Reads, Reads-step}

abbrev pub Done {ℓ} : {S : Type ℓ} → (S → Type 0) → Result (Unit {ℓ}) → S → S → Type ℓ
Done Q r before after = ((e : Error) × (r ≡ err e) × (after ≡ before)) ⊎ ((r ≡ ok tt) × Q after)

abbrev pub Whole {ℓ} : {S : Type ℓ} → (Result (Unit {ℓ}) × S) → S → (S → Type 0) → Type ℓ
Whole out db Q = Done Q out.0 db out.1

abbrev pub Ends {ℓ} :
    {S : Type ℓ} → (Result (Unit {ℓ}) × Session S) → Session S → (S → Type 0) → Type ℓ
Ends out s Q = Done Q out.0 s.durable out.1.durable

module _ {ℓ} {S : Type ℓ} (Q : S → Type 0) where
  pub Done-imp :
      (P : S → Type 0) (r : Result (Unit {ℓ})) (before after : S)
      → (P after → Q after)
      → Done P r before after
      → Done Q r before after
  Done-imp P r before after f (inl h) = inl h
  Done-imp P r before after f (inr h) = inr (h.0, f h.1)

  pub ends_failed : (e : Error) (s : Session S) → Ends (raise e s) s Q
  ends_failed e s = inl (e, refl, refl)

  -- What is done after a part that only reads.
  pub ends_then :
      {A : Type ℓ} (m : Exec S A) (f : A → Exec S (Unit {ℓ})) (s : Session S)
      → Reads m
      → ((a : A) → m s ≡ (ok a, s) → Ends (f a s) s Q)
      → Ends ((m >>= f) s) s Q
  ends_then m f s rm each = elim (Reads-step m f rm s) [
    | inl (e, _, out) ↦ inl (e, ap (λ r. r.0) out, ap (λ r. r.1.durable) out)
    | inr (a, got, out) ↦ subst (λ r. Ends r s Q) (sym out) (each a got)
  ]

-- The same of code that answers a value.
abbrev pub Yields {ℓ} : {S A : Type ℓ} → (A → S → Type 0) → Result A → S → S → Type ℓ
Yields {A = A} Q r before after =
    ((e : Error) × (r ≡ err e) × (after ≡ before)) ⊎ ((a : A) × (r ≡ ok a) × Q a after)

abbrev pub Answer {ℓ} : {S A : Type ℓ} → (Result A × S) → S → (A → S → Type 0) → Type ℓ
Answer out db Q = Yields Q out.0 db out.1

abbrev pub Closes {ℓ} :
    {S A : Type ℓ} → (Result A × Session S) → Session S → (A → S → Type 0) → Type ℓ
Closes out s Q = Yields Q out.0 s.durable out.1.durable

pub closes_then {ℓ} :
    {S A B : Type ℓ} (Q : B → S → Type 0) (m : Exec S A) (f : A → Exec S B) (s : Session S)
    → Reads m
    → ((a : A) → m s ≡ (ok a, s) → Closes (f a s) s Q)
    → Closes ((m >>= f) s) s Q
closes_then Q m f s rm each = elim (Reads-step m f rm s) [
  | inl (e, _, out) ↦ inl (e, ap (λ r. r.0) out, ap (λ r. r.1.durable) out)
  | inr (a, got, out) ↦ subst (λ r. Closes r s Q) (sym out) (each a got)
]
