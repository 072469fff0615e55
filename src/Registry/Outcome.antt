-- ===== src/Registry/Outcome.antt =====
-- The errors of the package registry. An error that wraps a sentinel (`%w`) is that sentinel;
-- `failure` is an error with no sentinel.
use d7024e_lab.Prelude.{Bool, false, inl, inr, refl, true, ◌≡◌, ◌≢◌, ◌⊎◌}

pub data Error : Type 0 where
  invalid_version : Error
  invalid_domain : Error
  empty_domain : Error
  domain_not_found : Error
  no_owner_key_record : Error
  invalid_owner_key : Error
  key_not_found : Error
  invalid_package_name : Error
  invalid_record_tag : Error
  invalid_blob_hash : Error
  invalid_record_hash : Error
  missing_signature : Error
  domain_mismatch : Error
  signature_verification_failed : Error
  invalid_encoding : Error
  unauthorized : Error
  version_rollback : Error
  history_fork : Error
  missing_version_record : Error
  corrupt_record : Error
  invalid_history_chain : Error
  no_dns_resolver : Error
  invalid_latest_pointer : Error
  key_mismatch : Error
  value_too_large : Error
  failure : Error

pub data Result {ℓ} (A : Type ℓ) : Type ℓ where
  ok : A → Result A
  err : Error → Result A

infixl 5 ◌>>=◌
abbrev pub ◌>>=◌ {ℓ κ} : {A : Type ℓ} {B : Type κ} → Result A → (A → Result B) → Result B
err failed >>= next_step = err failed
ok done >>= next_step = next_step done

infixl 5 ◌>>◌
abbrev pub ◌>>◌ {κ} : {B : Type κ} → Result (Unit {0}) → Result B → Result B
check >> rest = check >>= λ _. rest

-- `if !test { return e }`
abbrev pub require : Bool → Error → Result (Unit {0})
require true e = ok tt
require false e = err e

-- An error wrapped by another sentinel.
abbrev pub or_else {ℓ} : {A : Type ℓ} → Result A → Error → Result A
or_else (ok a) e = ok a
or_else (err _) e = err e

pub Result-cases {ℓ} :
    {A : Type ℓ} (r : Result A) → ((e : Error) × (r ≡ err e)) ⊎ ((a : A) × (r ≡ ok a))
Result-cases (ok a) = inr (a, refl)
Result-cases (err e) = inl (e, refl)

-- What a success says of the parts of a computation.
pub bind-ok {ℓ κ} :
    {A : Type ℓ} {B : Type κ} (m : Result A) {f : A → Result B} {b : B}
    → (m >>= f) ≡ ok b
    → (a : A) × (m ≡ ok a) × (f a ≡ ok b)
bind-ok (ok a) h = (a, refl, h)
bind-ok (err e) h = cc

pub then-ok {ℓ} :
    {B : Type ℓ} {t : Bool} (e : Error) {k : Result B} {b : B}
    → (require t e >> k) ≡ ok b
    → (t ≡ true) × (k ≡ ok b)
then-ok {t = true} e h = (refl, h)
then-ok {t = false} e h = cc

pub or_else-ok {ℓ} : {A : Type ℓ} {m : Result A} (e : Error) {a : A} → or_else m e ≡ ok a → m ≡ ok a
or_else-ok {m = ok a} e h = h
or_else-ok {m = err f} e h = cc

pub ok-injective {ℓ} : {A : Type ℓ} {a b : A} → ok a ≡ ok b → a ≡ b
ok-injective h = cc

pub require-ok : {t : Bool} (e : Error) → require t e ≡ ok tt → t ≡ true
require-ok {t = true} e h = refl
require-ok {t = false} e h = cc

pub err-ne-ok {ℓ} : {A : Type ℓ} (e : Error) (a : A) → err e ≢ ok a
err-ne-ok e a h = cc
