-- ===== src/Client/Cache.antt =====
-- blconf/blconf-cache.c: what a client keeps of one channel, and the SetProperty calls that it has not had an
-- answer for. Each function here is one step: the cache's mutex is held over it, but for the handlers of
-- the daemon's two signals, which take no lock, and the emission of a signal at the end.
pub mod Calls
pub mod Tables
pub mod Linked
pub mod Steps
pub mod View
pub mod Writes
pub mod Eviction
pub mod Stale
pub mod Sending
use blconf.Base.{
  ℕ, suc, ◌+◌, Bool, true, false, not, ◌&&◌, ◌||◌, Option, none, some, List, [], ◌∷◌, ◌++◌, Text,
  slash, str_eq, ◌==◌, if◌then◌else◌,
}
use blconf.Backend.Error.{Result, ok, err, Error, property_not_found, channel_not_found}
use blconf.Tree.Visit.{Table, table_lookup, table_insert}
use blconf.Perchannel.Channels.{to_lower}

-- What a call of the daemon gives: an answer, an error that the daemon names, or no connection.
pub data Remote {ℓ} (A : Type ℓ) : Type ℓ where
  answer : A → Remote A
  remote_error : Error → Remote A
  no_answer : Remote A

-- BlconfCacheOldItem, without `property`, which is the key under which it stands in `old_properties`
pub record OldItem {ℓ} (V : Type ℓ) : Type ℓ where
  pub call : Option ℕ
  pub item : Option V

-- struct _BlconfCache. A BlconfCacheItem is its value. An old item is made and inserted into
-- `old_properties` at once and removed just before it is freed or lost, so the pointers to it in
-- `pending_calls` are given as the property's name. A call is a number, fresh for each
-- dbus_g_proxy_begin_call; `sent` is what the calls carried, and `emitted` the arguments of the
-- "property-changed" signals, both with the last first.
pub record Cache {ℓ} (V : Type ℓ) : Type ℓ where
  pub channel_name : Text
  pub properties : Table V
  pub pending_calls : List (ℕ × Text)
  pub old_properties : Table (OldItem V)
  pub next_call : ℕ
  pub sent : List (ℕ × Text × V)
  pub emitted : List (Text × Option V)

-- g_hash_table_lookup and g_hash_table_steal on `pending_calls`
unfoldable pub call_lookup : ℕ → List (ℕ × Text) → Option Text
call_lookup c [] = none
call_lookup c ((d, p) ∷ calls) = if d == c then some p else call_lookup c calls

unfoldable pub call_steal : ℕ → List (ℕ × Text) → List (ℕ × Text)
call_steal c [] = []
call_steal c ((d, p) ∷ calls) =
    let rest = call_steal c calls in if d == c then rest else (d, p) ∷ rest

module _ {ℓ} {V : Type ℓ} where
  -- g_tree_remove and g_hash_table_remove; the keys are all different
  unfoldable pub drop : Text → Table V → Table V
  drop k [] = []
  drop k ((j, v) ∷ t) = let rest = drop k t in if str_eq j k then rest else (j, v) ∷ rest

-- `!g_ascii_strncasecmp(base, name, strlen(base))`
unfoldable pub has_prefix_nocase : Text → Text → Bool
has_prefix_nocase [] name = true
has_prefix_nocase (c ∷ base) [] = false
has_prefix_nocase (c ∷ base) (d ∷ name) = (to_lower c == to_lower d) && has_prefix_nocase base name

-- `g_strcmp0(dbus_error_name, "org.blade.Blconf.Error.PropertyNotFound")`, and the same of ChannelNotFound
abbrev pub does_not_exist : Error → Bool
does_not_exist Error.property_not_found = true
does_not_exist Error.channel_not_found = true
does_not_exist e = false

module _ {ℓ} {V : Type ℓ} where
  -- blconf_cache_new
  unfoldable pub cache_new : Text → Cache V
  cache_new name = record {
    channel_name = name;
    properties = [];
    pending_calls = [];
    old_properties = [];
    next_call = 0;
    sent = [];
    emitted = [];
  }

  abbrev pub emit : Text → Option V → Cache V → Cache V
  emit property value cache = record cache { emitted = (property, value) ∷ cache.emitted }

  abbrev pub put : Text → V → Cache V → Cache V
  put property value cache = record cache {
    properties = table_insert property value cache.properties;
  }

  -- blconf_cache_item_update with a value: the item after it
  abbrev pub item_update : (V → V → Bool) → V → V → V
  item_update equal item value = if equal item value then item else value

  -- blconf_cache_property_changed
  changed_item : (V → V → Bool) → Cache V → Text → V → Option V → Cache V
  changed_item equal cache property value none =
      emit property (some value) (put property value cache)
  changed_item equal cache property value (some item) =
      if equal item value then cache else emit property (some value) (put property value cache)

  changed_unless : (V → V → Bool) → Cache V → Text → V → Option (OldItem V) → Cache V
  unfolding changed_item
  changed_unless equal cache property value (some old) = cache
  changed_unless equal cache property value none =
      changed_item equal cache property value (table_lookup property cache.properties)

  unfoldable pub property_changed : (V → V → Bool) → Cache V → Text → Text → V → Cache V
  unfolding changed_unless
  property_changed equal cache channel_name property value =
      if not (str_eq channel_name cache.channel_name)
      then cache
      else changed_unless equal cache property value (table_lookup property cache.old_properties)

  -- blconf_cache_property_removed
  unfoldable pub property_removed : Cache V → Text → Text → Cache V
  unfolding drop
  property_removed cache channel_name property =
      if not (str_eq channel_name cache.channel_name)
      then cache
      else emit property none (record cache { properties = drop property cache.properties })

  -- the reply's old item, out of both tables
  abbrev pub settled : Cache V → ℕ → Text → Cache V
  settled cache call property = record cache {
    old_properties = drop property cache.old_properties;
    pending_calls = call_steal call cache.pending_calls;
  }

  -- a call that failed: back to the old value, and a signal
  pub restored : (V → V → Bool) → Cache V → Text → V → Option V → Cache V
  restored equal cache property item (some old) =
      let now = item_update equal item old in emit property (some now) (put property now cache)
  restored equal cache property item none =
      emit property none (record cache { properties = drop property cache.properties })

  pub replied_item : (V → V → Bool) → Cache V → Text → Bool → OldItem V → Option V → Cache V
  unfolding restored
  replied_item equal cache property succeeded old none = cache
  replied_item equal cache property succeeded old (some item) =
      if succeeded then cache else restored equal cache property item old.item

  pub replied : (V → V → Bool) → Cache V → ℕ → Bool → Text → Option (OldItem V) → Cache V
  unfolding replied_item drop call_steal
  replied equal cache call succeeded property none = cache
  replied equal cache call succeeded property (some old) =
      replied_item equal (settled cache call property) property succeeded old
        (table_lookup property cache.properties)

  pub reply_of : (V → V → Bool) → Cache V → ℕ → Bool → Option Text → Cache V
  unfolding replied
  reply_of equal cache call succeeded none = cache
  reply_of equal cache call succeeded (some property) =
      replied equal cache call succeeded property (table_lookup property cache.old_properties)

  -- blconf_cache_set_property_reply_handler; `succeeded` is what dbus_g_proxy_end_call returns
  unfoldable pub set_property_reply_handler : (V → V → Bool) → Cache V → ℕ → Bool → Cache V
  unfolding reply_of
  set_property_reply_handler equal cache call succeeded =
      reply_of equal cache call succeeded (call_lookup call cache.pending_calls)
