-- ===== src/Session/Reading.antt =====
-- Code of a unit of work that only reads: it leaves the tables as they are, so that what follows it
-- runs on the same ones.
use dfsha_telematica.Prelude.{
  subst, sym, ◌≡◌, refl, ap, ◌∙◌, Bool, true, false, if◌then◌else◌, ◌⊎◌, inl, inr,
}
use dfsha_telematica.Errors.{Error, Result, ok, err}
use dfsha_telematica.Session.{pure, raise, Session, Exec, continue, ◌>>=◌}

abbrev pub Reads {ℓ} : {S A : Type ℓ} → Exec S A → Type ℓ
Reads {S = S} m = (s : Session S) → (m s).1 ≡ s

module _ {ℓ} {S A : Type ℓ} where
  pub Reads-if : (b : Bool) (m n : Exec S A) → Reads m → Reads n → Reads (if b then m else n)
  Reads-if true m n rm rn = rm
  Reads-if false m n rm rn = rn

module _ {ℓ} {S A B : Type ℓ} where
  continue-Reads :
      (f : A → Exec S B)
      → ((a : A) → Reads (f a))
      → (r : Result A) (s : Session S) → (continue r f s).1 ≡ s
  continue-Reads f rf (ok a) s = rf a s
  continue-Reads f rf (err e) s = refl

  -- What a part that only reads hands on to the rest.
  pub Reads-then :
      (m : Exec S A) (s : Session S) (f : A → Exec S B)
      → Reads m
      → ((a : A) → Reads (f a))
      → (continue (m s).0 f (m s).1).1 ≡ s
  Reads-then m s f rm rf = continue-Reads f rf (m s).0 (m s).1 ∙ rm s

  -- What stands before `f` fails, and so does the whole; or it answers `a`, and `f a` goes on from
  -- where it started.
  abbrev pub Goes : Exec S A → (A → Exec S B) → Session S → Type ℓ
  Goes m f s =
      ((e : Error) × (m s ≡ (err e, s)) × ((m >>= f) s ≡ (err e, s)))
      ⊎ ((a : A) × (m s ≡ (ok a, s)) × ((m >>= f) s ≡ f a s))

  split :
      (f : A → Exec S B) (p : Result A × Session S) (s : Session S)
      → p.1 ≡ s
      → ((e : Error) × (p ≡ (err e, s)) × (continue p.0 f p.1 ≡ (err e, s)))
        ⊎ ((a : A) × (p ≡ (ok a, s)) × (continue p.0 f p.1 ≡ f a s))
  split f (ok a, t) s h = inr (a, ap (λ u. (ok a, u)) h, ap (λ u. f a u) h)
  split f (err e, t) s h = inl (e, ap (λ u. (err e, u)) h, ap (λ u. (err e, u)) h)

  pub Reads-step : (m : Exec S A) (f : A → Exec S B) → Reads m → (s : Session S) → Goes m f s
  Reads-step m f rm s = split f (m s) s (rm s)

-- What code answers, when it does.
abbrev pub Answers {ℓ} : {S A : Type ℓ} → Exec S A → Session S → (A → Type 0) → Type ℓ
Answers {A = A} m s P = (a : A) → (m s).0 ≡ ok a → P a

pub answers_then {ℓ} :
    {S A B : Type ℓ} (m : Exec S A) (f : A → Exec S B) (s : Session S) (P : B → Type 0)
    → Reads m
    → ((a : A) → m s ≡ (ok a, s) → Answers (f a) s P)
    → Answers (m >>= f) s P
answers_then m f s P rm each b h = elim (Reads-step m f rm s) [
  | inl (e, _, out) ↦ let bad = ap (λ r. r.0) (sym out) ∙ h in absurd (cc)
  | inr (a, got, out) ↦ each a got b (ap (λ r. r.0) (sym out) ∙ h)
]

pub pure_answers {ℓ} :
    {S A : Type ℓ} (a : A) (s : Session S) (P : A → Type 0) → P a → Answers (pure a) s P
pure_answers {A = A} a s P p b h = let same : a ≡ b = cc in subst P same p

pub raise_answers {ℓ} :
    {S A : Type ℓ} (e : Error) (s : Session S) (P : A → Type 0) → Answers (raise e) s P
raise_answers e s P b h = absurd (cc)

pub answers_if {ℓ} :
    {S A : Type ℓ} (b : Bool) (m n : Exec S A) (s : Session S) (P : A → Type 0)
    → (b ≡ true → Answers m s P)
    → (b ≡ false → Answers n s P)
    → Answers (if b then m else n) s P
answers_if true m n s P hm hn = hm refl
answers_if false m n s P hm hn = hn refl
