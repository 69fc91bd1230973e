-- ===== src/Perchannel.antt =====
-- The operations of blconfd/blconf-backend-perchannel-xml.c that the interface of a backend names.
-- Each takes the state and returns its result and the state after it, on errors too.
pub mod Channels
pub mod Reset
pub mod Access
pub mod Laws
pub mod Agree
pub mod Case
pub mod Class
pub mod Notify
pub mod Timed
pub mod Pending
use blconf.Base.{
  ℕ, ◌-◌, Bool, true, false, not, ◌&&◌, ◌||◌, Option, none, some, List, [], ◌∷◌, ◌++◌, Text, slash,
  length, take, str_eq, strsplit, before_last_slash, is_some, if◌then◌else◌, codes,
}
use blconf.Backend.Error.{
  Result, ok, err, Error, permission_denied, property_not_found, write_failure,
}
use blconf.Tree.{
  Property, Forest, leaf, node, Node, strlcpy, lookup_node, modify_at, tree_add, tree_reset,
  clean_up, replace_at, tail, or_empty, is_leaf, unset_value,
}
use blconf.Tree.Visit.{
  Table, table_lookup, table_insert, table_remove, effective, to_hash_table, node_to_hash_table,
  reset_values, collect, build_propname,
}
use Channels.{
  Channel, State, Disk, Handle, store, open_channel, open_or_create, notify, notify_all,
  schedule_save,
}

-- `!(property[0] && property[1])`: the whole channel
unfoldable pub is_whole : Text → Bool
is_whole [] = true
is_whole (c ∷ []) = true
is_whole (c ∷ d ∷ s) = false

module _ {ℓ} {V : Type ℓ} where
  -- the fields of a property that the code compares with the new value
  unfoldable pub same_value : (V → V → Bool) → Option V → V → Bool
  same_value equal none v = false
  same_value equal (some w) v = equal w v

  unfoldable pub with_tree : Handle V → Forest V → Handle V
  with_tree h tree = record h { channel = record h.channel { properties = tree } }

  unfoldable pub changed : Handle V → Text → Text → Forest V → State V → Result (Unit {0}) × State V
  unfolding schedule_save notify with_tree
  changed h name property tree st =
      (ok tt, schedule_save (with_tree h tree) (notify name property st))

  kept_tree : Forest V → Option (Forest V) → Forest V
  kept_tree tree none = tree
  kept_tree tree (some tree') = tree'

  unfoldable pub set_found :
      (V → V → Bool)
      → Handle V
      → Text
      → Text
      → V
      → Option (Node V)
      → State V
      → Result (Unit {0}) × State V
  unfolding same_value effective kept_tree
  set_found equal h name property v none st =
      changed h name property
        (kept_tree h.channel.properties (tree_add h.channel.properties property (some v) false)) st
  set_found equal h name property v (some n) st =
      if n.prop.locked
      then (err permission_denied, st)
      else if same_value equal (effective n.prop) v
      then (ok tt, st)
      else changed h name property
          (modify_at (λ p. record p { value = some v }) (strsplit (tail property))
            h.channel.properties)
          st

  -- blconf_backend_perchannel_xml_set
  unfoldable pub set :
      (V → V → Bool) → Disk V → State V → Text → Text → V → Result (Unit {0}) × State V
  unfolding open_or_create set_found changed
  set equal disk st name property v =
      let (h, st') = open_or_create disk st name in
      set_found equal h name property v (lookup_node h.channel.properties property) st'

  unfoldable pub value_found : Option (Node V) → Result V
  unfolding effective
  value_found none = err property_not_found
  value_found (some n) = elim (effective n.prop) [ none ↦ err property_not_found | some v ↦ ok v ]

  -- what `get` does with a channel that was found or loaded
  unfoldable pub get_in : Text → Result (Handle V) → Result V
  unfolding value_found
  get_in property (err e) = err e
  get_in property (ok h) = value_found (lookup_node h.channel.properties property)

  -- blconf_backend_perchannel_xml_get
  unfoldable pub get : Disk V → State V → Text → Text → Result V × State V
  unfolding open_channel get_in
  get disk st name property = let (h, st') = open_channel disk st name in (get_in property h, st')

  get_all_in : Text → Table V → Result (Handle V) → Result (Table V)
  unfolding is_whole
  get_all_in base table (err e) = err e
  get_all_in base table (ok h) =
      if is_whole base
      then ok (to_hash_table h.channel.properties table []).0
      else elim (lookup_node h.channel.properties base) [
        | none ↦ err property_not_found
        | some n ↦ ok (node_to_hash_table n table (or_empty (before_last_slash (strlcpy base)))).0
      ]

  -- blconf_backend_perchannel_xml_get_all, which adds to a table
  unfoldable pub get_all : Disk V → State V → Text → Text → Table V → Result (Table V) × State V
  unfolding open_channel get_all_in
  get_all disk st name base table =
      let (h, st') = open_channel disk st name in (get_all_in base table h, st')

  pub exists_in : Text → Result (Handle V) → Bool
  exists_in property (err e) = false
  exists_in property (ok h) = elim (lookup_node h.channel.properties property) [
    | none ↦ false
    | some n ↦ is_some n.prop.value || is_some n.prop.system_value
  ]

  -- blconf_backend_perchannel_xml_exists
  unfoldable pub exists : Disk V → State V → Text → Text → Result Bool × State V
  unfolding open_channel exists_in
  exists disk st name property =
      let (h, st') = open_channel disk st name in (ok (exists_in property h), st')

  pub locked_in : Text → Result (Handle V) → Result Bool
  locked_in property (err e) = err e
  locked_in property (ok h) =
      if h.channel.locked then ok true else elim (lookup_node h.channel.properties property) [
        | none ↦ ok false
        | some n ↦ ok n.prop.locked
      ]

  -- blconf_backend_perchannel_xml_is_property_locked
  unfoldable pub is_property_locked : Disk V → State V → Text → Text → Result Bool × State V
  unfolding open_channel locked_in
  is_property_locked disk st name property =
      let (h, st') = open_channel disk st name in (locked_in property h, st')
