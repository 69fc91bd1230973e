-- ===== src/Backend/Dispatch.antt =====
-- blconfd/blconf-backend.c: the interface of a backend, and the functions that check the names before
-- they call it. A backend keeps a state of type `S`. Strings that come over D-Bus are never NULL.
use blconf.Base.{Bool, true, false, not, ◌&&◌, List, [], ◌∷◌, Text, slash, ◌==◌, if◌then◌else◌}
use blconf.Backend.Error.{Result, ok, err, internal_error, invalid_property, needs_recursive, ◌>>◌}
use blconf.Backend.Names.{property_is_valid, channel_is_valid}
use blconf.Tree.Visit.{Table}

-- struct BlconfBackendInterface; `get_all` adds to the table that it is given
pub record Interface {ℓ} (S V : Type ℓ) : Type ℓ where
  pub set : S → Text → Text → V → Result (Unit {0}) × S
  pub get : S → Text → Text → Result V × S
  pub get_all : S → Text → Text → Table V → Result (Table V) × S
  pub exists : S → Text → Text → Result Bool × S
  pub reset : S → Text → Text → Bool → Result (Unit {0}) × S
  pub list_channels : S → Result (List Text) × S
  pub is_property_locked : S → Text → Text → Result Bool × S

-- `*s`, in blconf_backend_return_val_if_fail
abbrev pub not_empty : Text → Result (Unit {0})
not_empty [] = err internal_error
not_empty (c ∷ s) = ok tt

-- `!*property || (property[0] == '/' && !property[1])`
unfoldable pub is_root_name : Text → Bool
is_root_name [] = true
is_root_name (c ∷ []) = c == slash
is_root_name (c ∷ d ∷ s) = false

-- the two checks that most of the functions make
unfoldable pub names_are_valid : Text → Text → Result (Unit {0})
unfolding property_is_valid channel_is_valid
names_are_valid channel property = channel_is_valid channel >> property_is_valid property

unfoldable pub checked_names : Text → Text → Result (Unit {0})
unfolding names_are_valid
checked_names channel property =
    not_empty channel >> not_empty property >> names_are_valid channel property

base_is_valid : Text → Result (Unit {0})
unfolding is_root_name
base_is_valid base = if is_root_name base then ok tt else property_is_valid base

reset_is_valid : Text → Bool → Result (Unit {0})
unfolding base_is_valid
reset_is_valid property recursive =
    if not recursive && is_root_name property
    then err (invalid_property needs_recursive)
    else base_is_valid property

module _ {ℓ} {S : Type ℓ} where
  -- an early `return FALSE`, which leaves the backend as it is
  abbrev pub after {κ} : {A : Type κ} → Result (Unit {0}) → (S → Result A × S) → S → Result A × S
  after (err e) call st = (err e, st)
  after (ok u) call st = call st

module _ {ℓ} {S V : Type ℓ} (i : Interface S V) where
  -- blconf_backend_set
  unfoldable pub set : S → Text → Text → V → Result (Unit {0}) × S
  unfolding checked_names
  set st channel property v =
      after (checked_names channel property) (λ s. i.set s channel property v) st

  -- blconf_backend_get
  unfoldable pub get : S → Text → Text → Result V × S
  unfolding checked_names
  get st channel property =
      after (checked_names channel property) (λ s. i.get s channel property) st

  -- blconf_backend_get_all
  unfoldable pub get_all : S → Text → Text → Table V → Result (Table V) × S
  unfolding base_is_valid
  get_all st channel base table =
      after (not_empty channel >> channel_is_valid channel >> base_is_valid base)
        (λ s. i.get_all s channel base table) st

  -- blconf_backend_exists
  unfoldable pub exists : S → Text → Text → Result Bool × S
  unfolding checked_names
  exists st channel property =
      after (checked_names channel property) (λ s. i.exists s channel property) st

  -- blconf_backend_reset
  unfoldable pub reset : S → Text → Text → Bool → Result (Unit {0}) × S
  unfolding reset_is_valid
  reset st channel property recursive =
      after
        (not_empty channel
          >> not_empty property
          >> channel_is_valid channel
          >> reset_is_valid property recursive)
        (λ s. i.reset s channel property recursive) st

  -- blconf_backend_list_channels
  unfoldable pub list_channels : S → Result (List Text) × S
  list_channels st = i.list_channels st

  -- blconf_backend_is_property_locked
  unfoldable pub is_property_locked : S → Text → Text → Result Bool × S
  unfolding names_are_valid
  is_property_locked st channel property =
      after (names_are_valid channel property) (λ s. i.is_property_locked s channel property) st
