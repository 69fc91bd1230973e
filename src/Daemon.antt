-- ===== src/Daemon.antt =====
-- blconfd/blconf-daemon.c: the handlers of the D-Bus methods, over the daemon's list of backends. The
-- list has at least one: blconf_daemon_load_config fails otherwise.
pub mod Answers
pub mod Single
pub mod Start
pub mod Ending
use blconf.Base.{Bool, true, false, not, ◌&&◌, ◌||◌, List, [], ◌∷◌, ◌++◌, Text, if◌then◌else◌}
use blconf.Backend.Error.{Result, ok, err, Error, permission_denied, internal_error}
use blconf.Backend.Dispatch.{Interface}
use blconf.Backend.Dispatch
use blconf.Tree.Visit.{Table}

-- A BlconfBackend: its class and its data.
pub record Backend {ℓ} (S V : Type ℓ) : Type ℓ where
  pub iface : Interface S V
  pub data_of : S

module _ {ℓ} {A : Type ℓ} where
  abbrev pub is_ok : Result A → Bool
  is_ok (ok a) = true
  is_ok (err e) = false

  abbrev pub is_nil : List A → Bool
  is_nil [] = true
  is_nil (x ∷ xs) = false

  abbrev pub or_nil : Result (List A) → List A
  or_nil (ok xs) = xs
  or_nil (err e) = []

  abbrev pub or_table : Table A → Result (Table A) → Table A
  or_table t (ok t') = t'
  or_table t (err e) = t

abbrev pub is_true : Result Bool → Bool
is_true (ok true) = true
is_true (ok false) = false
is_true (err e) = false

module _ {ℓ} {S V : Type ℓ} where
  abbrev pub with_data : Backend S V → S → Backend S V
  with_data b s = record b { data_of = s }

  -- A loop that stops at the first TRUE. The error of a call that is not the last is cleared; a call
  -- that succeeds, whatever it answers, is remembered in `succeed`.
  pub any_from :
      (Backend S V → Result Bool × S)
      → Bool
      → Backend S V
      → List (Backend S V)
      → Result Bool × List (Backend S V)
  any_from call succeed b [] =
      let (r, s) = call b in
      (elim r [ ok x ↦ ok x | err e ↦ if succeed then ok false else err e ], with_data b s ∷ [])
  any_from call succeed b (b' ∷ bs) =
      let (r, s) = call b in
      let more = any_from call (succeed || is_ok r) b' bs in
      if is_true r then (ok true, with_data b s ∷ (b' ∷ bs)) else (more.0, with_data b s ∷ more.1)

  -- blconf_get_property
  unfoldable pub get_property :
      Backend S V → List (Backend S V) → Text → Text → Result V × List (Backend S V)
  get_property b [] channel property =
      let (r, s) = Dispatch.get b.iface b.data_of channel property in (r, with_data b s ∷ [])
  get_property b (b' ∷ bs) channel property =
      let (r, s) = Dispatch.get b.iface b.data_of channel property in
      let more = get_property b' bs channel property in
      if is_ok r then (r, with_data b s ∷ (b' ∷ bs)) else (more.0, with_data b s ∷ more.1)

  -- the loop of blconf_get_all_properties
  pub get_all_from :
      Bool
      → Table V
      → Backend S V
      → List (Backend S V)
      → Text
      → Text
      → Result (Table V) × List (Backend S V)
  get_all_from succeed table b [] channel base =
      let (r, s) = Dispatch.get_all b.iface b.data_of channel base table in
      (elim r [ ok t ↦ ok t | err e ↦ if succeed then ok table else err e ], with_data b s ∷ [])
  get_all_from succeed table b (b' ∷ bs) channel base =
      let (r, s) = Dispatch.get_all b.iface b.data_of channel base table in
      let more = get_all_from (succeed || is_ok r) (or_table table r) b' bs channel base in
      (more.0, with_data b s ∷ more.1)

  -- blconf_get_all_properties
  unfoldable pub get_all_properties :
      Backend S V → List (Backend S V) → Text → Text → Result (Table V) × List (Backend S V)
  unfolding get_all_from
  get_all_properties b bs channel base = get_all_from false [] b bs channel base

  -- blconf_property_exists
  unfoldable pub property_exists :
      Backend S V → List (Backend S V) → Text → Text → Result Bool × List (Backend S V)
  unfolding any_from
  property_exists b bs channel property =
      any_from (λ x. Dispatch.exists x.iface x.data_of channel property) false b bs

  -- blconf_is_property_locked
  unfoldable pub is_property_locked :
      Backend S V → List (Backend S V) → Text → Text → Result Bool × List (Backend S V)
  unfolding any_from
  is_property_locked b bs channel property =
      any_from (λ x. Dispatch.is_property_locked x.iface x.data_of channel property) false b bs

  -- the loop of blconf_reset_property
  pub reset_from :
      Bool
      → Backend S V
      → List (Backend S V)
      → Text
      → Text
      → Bool
      → Result (Unit {0}) × List (Backend S V)
  reset_from succeed b [] channel property recursive =
      let (r, s) = Dispatch.reset b.iface b.data_of channel property recursive in
      (elim r [ ok u ↦ ok tt | err e ↦ if succeed then ok tt else err e ], with_data b s ∷ [])
  reset_from succeed b (b' ∷ bs) channel property recursive =
      let (r, s) = Dispatch.reset b.iface b.data_of channel property recursive in
      let more = reset_from (succeed || is_ok r) b' bs channel property recursive in
      (more.0, with_data b s ∷ more.1)

  -- blconf_reset_property
  unfoldable pub reset_property :
      Backend S V → List (Backend S V) → Text → Text → Bool → Result (Unit {0}) × List (Backend S V)
  unfolding reset_from
  reset_property b bs channel property recursive = reset_from false b bs channel property recursive

  -- the loop of blconf_list_channels
  pub list_from :
      List Text → Backend S V → List (Backend S V) → Result (List Text) × List (Backend S V)
  list_from found b [] =
      let (r, s) = Dispatch.list_channels b.iface b.data_of in
      (
        elim r [
          | ok names ↦ ok (found ++ names)
          | err e ↦ if is_nil found then err e else ok found
        ],
        with_data b s ∷ [],
      )
  list_from found b (b' ∷ bs) =
      let (r, s) = Dispatch.list_channels b.iface b.data_of in
      let more = list_from (found ++ or_nil r) b' bs in (more.0, with_data b s ∷ more.1)

  -- blconf_list_channels
  unfoldable pub list_channels :
      Backend S V → List (Backend S V) → Result (List Text) × List (Backend S V)
  unfolding list_from
  list_channels b bs = list_from [] b bs

  -- one round of the loop at the beginning of blconf_set_property
  pub check_lock : Text → Text → Backend S V → Result (Unit {0}) × S
  check_lock channel property b =
      let (r, s) = Dispatch.is_property_locked b.iface b.data_of channel property in
      (elim r [ ok locked ↦ if locked then err permission_denied else ok tt | err e ↦ err e ], s)

  -- the whole loop
  pub check_locks : Text → Text → List (Backend S V) → Result (Unit {0}) × List (Backend S V)
  unfolding check_lock
  check_locks channel property [] = (ok tt, [])
  check_locks channel property (b ∷ bs) =
      let (r, s) = check_lock channel property b in
      let more = check_locks channel property bs in
      if is_ok r then (more.0, with_data b s ∷ more.1) else (r, with_data b s ∷ bs)

  pub set_first : List (Backend S V) → Text → Text → V → Result (Unit {0}) × List (Backend S V)
  set_first [] channel property v = (err internal_error, [])
  set_first (b ∷ bs) channel property v =
      let (r, s) = Dispatch.set b.iface b.data_of channel property v in (r, with_data b s ∷ bs)

  -- blconf_set_property. The locks are only checked where there is more than one backend, and only the
  -- first backend is written to. (`check_locks` keeps the number of backends, so the first is there.)
  unfoldable pub set_property :
      Backend S V → List (Backend S V) → Text → Text → V → Result (Unit {0}) × List (Backend S V)
  unfolding check_locks set_first
  set_property b bs channel property v =
      let (r, checked) = check_locks channel property (b ∷ bs) in
      if is_nil bs
      then set_first (b ∷ bs) channel property v
      else if is_ok r
      then set_first checked channel property v
      else (r, checked)
