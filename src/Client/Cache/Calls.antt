-- ===== src/Client/Cache/Calls.antt =====
-- The functions of blconf/blconf-cache.c that ask the daemon: the prefetch, the lookup, the write and the
-- reset.
use blconf.Base.{
  ℕ, suc, Bool, true, false, Option, none, some, [], ◌∷◌, ◌++◌, Text, slash, if◌then◌else◌,
}
use blconf.Tree.Visit.{Table, table_lookup, table_insert}
use blconf.Client.Cache.{
  Remote, answer, remote_error, no_answer, OldItem, Cache, call_steal, drop, has_prefix_nocase,
  does_not_exist, emit, put,
}

module _ {ℓ} {V : Type ℓ} where
  unfoldable pub insert_all : Table V → Table V → Table V
  insert_all [] t = t
  insert_all ((k, v) ∷ more) t = insert_all more (table_insert k v t)

  unfoldable pub prefetched : Cache V → Remote (Table V) → Bool × Cache V
  unfolding insert_all
  prefetched cache (answer props) =
      (true, record cache { properties = insert_all props cache.properties })
  prefetched cache (remote_error e) = (false, cache)
  prefetched cache no_answer = (false, cache)

  -- blconf_cache_prefetch, given the answer to GetAllProperties
  unfoldable pub prefetch : Cache V → Remote (Table V) → Bool × Cache V
  unfolding prefetched
  prefetch cache got = elim cache.properties [
    | [] ↦ prefetched cache got
    | x ∷ more ↦ (false, cache)
  ]

  -- what becomes of the item that is there, or is fetched
  unfoldable pub fetched : Cache V → Text → Remote V → Remote V × Cache V
  fetched cache property (answer v) = (answer v, put property v cache)
  fetched cache property (remote_error e) = (remote_error e, cache)
  fetched cache property no_answer = (no_answer, cache)

  unfoldable pub lookup_item : Cache V → Text → Remote V → Option V → Remote V × Cache V
  unfolding fetched
  lookup_item cache property got (some v) = (answer v, cache)
  lookup_item cache property got none = fetched cache property got

  -- blconf_cache_lookup, and blconf_cache_lookup_locked with a GValue that has no type yet; `got` is the
  -- answer to GetProperty, where that is called
  unfoldable pub lookup : Cache V → Text → Remote V → Remote V × Cache V
  unfolding lookup_item
  lookup cache property got =
      lookup_item cache property got (table_lookup property cache.properties)

  -- dbus_g_proxy_begin_call, and the call in the pending ones under `old`
  unfoldable pub begin_call : Cache V → Text → V → Option V → Cache V
  begin_call cache property value item = record cache {
    old_properties =
        table_insert property (record { call = some cache.next_call; item = item })
          cache.old_properties;
    pending_calls = (cache.next_call, property) ∷ cache.pending_calls;
    next_call = suc cache.next_call;
    sent = (cache.next_call, property, value) ∷ cache.sent;
  }

  abbrev pub cancel : Option ℕ → Cache V → Cache V
  cancel none cache = cache
  cancel (some call) cache = record cache { pending_calls = call_steal call cache.pending_calls }

  -- the old item of a call that is cancelled stays, and its value with it
  unfoldable pub begun : Cache V → Text → V → Option V → Option (OldItem V) → Cache V
  unfolding begin_call call_steal
  begun cache property value item none = begin_call cache property value item
  begun cache property value item (some old) =
      begin_call (cancel old.call cache) property value old.item

  unfoldable pub set_item : (V → V → Bool) → Cache V → Text → V → Option V → Bool × Cache V
  unfolding begun
  set_item equal cache property value none = (
    true,
    emit property (some value) (
        put property value
          (begun cache property value none (table_lookup property cache.old_properties))),
  )
  set_item equal cache property value (some item) = if equal item value then (true, cache) else (
    true,
    emit property (some value) (
        put property value
          (begun cache property value (some item) (table_lookup property cache.old_properties))),
  )

  unfoldable pub set_looked : (V → V → Bool) → Cache V → Text → V → Remote V → Bool × Cache V
  unfolding set_item
  set_looked equal cache property value (answer item) =
      set_item equal cache property value (some item)
  set_looked equal cache property value (remote_error e) =
      if does_not_exist e then set_item equal cache property value none else (false, cache)
  set_looked equal cache property value no_answer = (false, cache)

  -- blconf_cache_set. The item is looked up first, which may ask the daemon.
  unfoldable pub set : (V → V → Bool) → Cache V → Text → V → Remote V → Bool × Cache V
  unfolding lookup set_looked
  set equal cache property value got =
      let (item, cache') = lookup cache property got in set_looked equal cache' property value item

  unfoldable pub evict_below : Text → Table V → Table V
  unfolding has_prefix_nocase
  evict_below base [] = []
  evict_below base ((k, v) ∷ t) =
      let rest = evict_below base t in if has_prefix_nocase base k then rest else (k, v) ∷ rest

  unfoldable pub evicted : Text → Bool → Table V → Table V
  unfolding evict_below drop
  evicted base recursive t =
      if recursive then evict_below (base ++ slash ∷ []) (drop base t) else drop base t

  -- blconf_cache_reset; `done` is whether the daemon's ResetProperty succeeds
  unfoldable pub reset : Cache V → Text → Bool → Bool → Bool × Cache V
  unfolding evicted
  reset cache base recursive done =
      if done
      then (true, record cache { properties = evicted base recursive cache.properties })
      else (false, cache)
