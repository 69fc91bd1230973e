-- ===== src/Client/Channel.antt =====
-- blconf/blconf-channel.c: a channel of a client, which is a cache and a prefix of names. The answers of the
-- daemon are arguments: `got` is the one to GetProperty, where that is called.
pub mod Typed
pub mod Property
pub mod ReadBack
pub mod Signals
pub mod Converted
pub mod Arrays
pub mod Structs
pub mod Varargs
pub mod Layout
pub mod Fields
use blconf.Base.{
  ℕ, ◌-◌, Bool, true, false, not, ◌&&◌, ◌||◌, Option, none, some, List, [], ◌∷◌, ◌++◌, Text, slash,
  length, take, str_eq, ◌==◌, if◌then◌else◌, is_some,
}
use blconf.Tree.Visit.{Table, table_lookup, table_insert}
use blconf.Values.{Value}
use blconf.Client.Cache.{Remote, answer, remote_error, no_answer, Cache, cache_new}
use blconf.Client.Cache.Calls
use blconf.Client.Cache.Calls.{prefetch, lookup}

-- struct _BlconfChannel; `signals` is what "property-changed" was emitted with, the last first
pub record Channel (F : Type 0) : Type 0 where
  pub channel_name : Text
  pub property_base : Option Text
  pub cache : Cache (Value F)
  pub signals : List (Text × Option (Value F))

-- what is behind a prefix, where g_str_has_prefix holds
unfoldable pub behind : Text → Text → Option Text
behind [] s = some s
behind (c ∷ p) [] = none
behind (c ∷ p) (d ∷ s) = let rest = behind p s in if c == d then rest else none

abbrev pub or_slash : Text → Text
or_slash [] = slash ∷ []
or_slash (c ∷ s) = c ∷ s

-- REAL_PROP
abbrev pub prefixed : Option Text → Text → Text
prefixed none property = property
prefixed (some base) property = base ++ property

-- the name under which a signal is passed on, if it is
unfoldable pub passed_on : Option Text → Text → Option Text
unfolding behind
passed_on none property = some property
passed_on (some base) property = elim (behind base property) [
  | none ↦ none
  | some rest ↦ some (or_slash rest)
]

abbrev pub is_locked : Remote Bool → Bool
is_locked (answer b) = b
is_locked (remote_error e) = false
is_locked no_answer = false

-- `property_base && property_base[0] && property_base[1]`
abbrev pub is_longer : Text → Bool
is_longer [] = false
is_longer (c ∷ []) = false
is_longer (c ∷ d ∷ s) = true

abbrev pub or_root : Option Text → Text
or_root none = slash ∷ []
or_root (some base) = base

abbrev pub is_root : Option Text → Bool
is_root none = true
is_root (some name) = str_eq name (slash ∷ [])

abbrev pub or_empty : Option Text → Text
or_empty none = []
or_empty (some name) = name

module _ {F : Type 0} where
  unfoldable pub real_prop : Channel F → Text → Text
  real_prop ch property = prefixed ch.property_base property

  -- blconf_channel_property_changed
  unfoldable pub property_changed : Channel F → Text → Text → Option (Value F) → Channel F
  unfolding passed_on
  property_changed ch channel_name property value =
      if not (str_eq channel_name ch.channel_name)
      then ch
      else elim (passed_on ch.property_base property) [
        | none ↦ ch
        | some name ↦ record ch { signals = (name, value) ∷ ch.signals }
      ]

  unfoldable pub heard : Channel F → List (Text × Option (Value F)) → Channel F
  unfolding property_changed
  heard ch [] = ch
  heard ch ((property, value) ∷ earlier) =
      property_changed (heard ch earlier) ch.cache.channel_name property value

  -- The cache after a call of it, the handler having been run for each signal that the call emitted.
  unfoldable pub with_cache : Channel F → Cache (Value F) → Channel F
  unfolding heard
  with_cache ch cache =
      let ch' = heard ch (take (length cache.emitted - length ch.cache.emitted) cache.emitted) in
      record ch' { cache = cache }

  abbrev pub value_of : Remote (Value F) → Option (Value F)
  value_of (answer v) = some v
  value_of (remote_error e) = none
  value_of no_answer = none

  -- blconf_channel_set_internal
  unfoldable pub set_internal :
      (Value F → Value F → Bool) → Channel F → Text → Value F → Remote (Value F) → Bool × Channel F
  unfolding real_prop with_cache
  set_internal equal ch property value got =
      let (ret, cache) = Calls.set equal ch.cache (real_prop ch property) value got in
      (ret, with_cache ch cache)

  -- blconf_channel_get_internal with a value that has no type yet, as each caller has it
  unfoldable pub get_internal : Channel F → Text → Remote (Value F) → Option (Value F) × Channel F
  unfolding real_prop with_cache
  get_internal ch property got =
      let (item, cache) = lookup ch.cache (real_prop ch property) got in
      (value_of item, with_cache ch cache)

  -- blconf_channel_has_property
  unfoldable pub has_property : Channel F → Text → Remote (Value F) → Bool × Channel F
  unfolding get_internal
  has_property ch property got = let (v, ch') = get_internal ch property got in (is_some v, ch')

  -- blconf_channel_is_property_locked, given the daemon's IsPropertyLocked; the name that is asked for is
  -- the one without the base
  unfoldable pub is_property_locked : Channel F → Text → (Text → Text → Remote Bool) → Bool
  is_property_locked ch property asked = is_locked (asked ch.channel_name property)

  -- blconf_channel_reset_property; `done` is whether the daemon's ResetProperty succeeds
  unfoldable pub reset_property : Channel F → Text → Bool → Bool → Channel F
  unfolding real_prop with_cache
  reset_property ch property_base recursive done =
      if is_longer property_base || recursive
      then with_cache ch (Calls.reset ch.cache (real_prop ch property_base) recursive done).1
      else ch

  -- blconf_channel_get_properties, given the daemon's GetAllProperties
  unfoldable pub get_properties :
      Channel F → Option Text → (Text → Text → Option (Table (Value F))) → Option (Table (Value F))
  unfolding real_prop
  get_properties ch property_base asked =
      if is_root property_base
      then asked ch.channel_name (or_root ch.property_base)
      else asked ch.channel_name (real_prop ch (or_empty property_base))

  -- a channel with a new cache; `props` is the daemon's answer to the prefetch
  unfoldable pub fresh_channel : Text → Option Text → Remote (Table (Value F)) → Channel F
  unfolding cache_new
  fresh_channel channel_name property_base props = record {
    channel_name = channel_name;
    property_base = property_base;
    cache = (prefetch (cache_new channel_name) props).1;
    signals = [];
  }

  -- blconf_channel_constructor, over the table of singletons
  unfoldable pub constructor :
      Table (Channel F)
      → Text
      → Option Text
      → Bool
      → Remote (Table (Value F))
      → Channel F × Table (Channel F)
  unfolding fresh_channel
  constructor singletons channel_name property_base false props =
      (fresh_channel channel_name property_base props, singletons)
  constructor singletons channel_name property_base true props =
      elim (table_lookup channel_name singletons) [
        | some ch ↦ (ch, singletons)
        | none ↦
            let ch = fresh_channel channel_name property_base props in
            (ch, table_insert channel_name ch singletons)
      ]
