-- ===== src/Errors.antt =====
-- common/errors.py: the error classes of DFSha, as one data type, and code that may raise.
-- An error's message and details are for a reader and are not modelled; the class is what the
-- callers and the API branch on.
use dfsha_telematica.Prelude.{◌≡◌, refl, Bool, true, false, ◌⊎◌, inl, inr}

pub data Error : Type 0 where
  invalid_path not_found already_exists directory_not_empty : Error
  not_a_directory is_a_directory authentication_failed not_authorized : Error
  reservation_expired blocks_not_stored invalid_state : Error
  block_already_exists block_not_found checksum_mismatch no_datanode_available : Error
  not_leader stale_epoch file_locked stale_lock tls_ca_not_found storage_error : Error
  invalid_block_size : Error
  -- Python's own ValueError and RuntimeError
  value_error runtime_error : Error
  -- `_VirtualRoot` and `_VirtualUser` of control_node/services/shared.py
  virtual_root virtual_user : Error

pub data Result {ℓ} (A : Type ℓ) : Type ℓ where
  ok : A → Result A
  err : Error → Result A

abbrev pub IsOk {ℓ} : {A : Type ℓ} → Result A → Type 0
IsOk (ok a) = Unit
IsOk (err e) = ⊥

abbrev pub and_then {ℓ κ} : {A : Type ℓ} {B : Type κ} → (A → Result B) → Result A → Result B
and_then next (ok value) = next value
and_then next (err e) = err e

infixl 5 ◌>>=◌ ◌>>◌
abbrev pub ◌>>=◌ {ℓ κ} : {A : Type ℓ} {B : Type κ} → Result A → (A → Result B) → Result B
m >>= next = and_then next m

abbrev pub ◌>>◌ {κ} : {B : Type κ} → Result (Unit {0}) → Result B → Result B
first >> second = first >>= λ _. second

-- `if b: raise e`
abbrev pub raise_if : Bool → Error → Result (Unit {0})
raise_if true e = err e
raise_if false e = ok tt

pub bind-eq_ok {ℓ κ} :
    {A : Type ℓ} {B : Type κ} (first : Result A) (next : A → Result B) {out : B}
    → (do value ← first; next value) ≡ ok out
    → (value : A) × (first ≡ ok value) × (next value ≡ ok out)
bind-eq_ok (err e) next done = cc
bind-eq_ok (ok value) next done = (value, refl, done)

pub Result-cases {ℓ} :
    {A : Type ℓ} (r : Result A) → ((a : A) × (r ≡ ok a)) ⊎ ((e : Error) × (r ≡ err e))
Result-cases (ok a) = inl (a, refl)
Result-cases (err e) = inr (e, refl)
