-- ===== src/Backend/Error.antt =====
-- The errors of blconf/blconf-errors.h that the daemon reports, and functions that can fail:
-- a `gboolean` with a `GError **` is a `Result`.

use blconf.Base.{◌≡◌, refl, ◌⊎◌, inl, inr}

-- Which of the messages of `blconf_property_is_valid` is set.
pub data Reason : Type 0 where
  no_slash is_root bad_char double_slash end_slash needs_recursive : Reason

pub data Error : Type 0 where
  unknown channel_not_found property_not_found read_failure write_failure : Error
  permission_denied internal_error no_backend invalid_channel : Error
  invalid_property : Reason → Error

pub data Result {ℓ} (A : Type ℓ) : Type ℓ where
  ok : A → Result A
  err : Error → Result A

pub Result-cases {ℓ} :
    {A : Type ℓ} (r : Result A) → ((a : A) × (r ≡ ok a)) ⊎ ((e : Error) × (r ≡ err e))
Result-cases (ok a) = inl (a, refl)
Result-cases (err e) = inr (e, refl)

-- `if(!check) return FALSE;`, and then the rest of the function
infixl 5 ◌>>◌
abbrev pub ◌>>◌ {κ} : {B : Type κ} (check : Result (Unit {0})) (rest : Result B) → Result B
err why >> rest = err why
ok u >> rest = rest
