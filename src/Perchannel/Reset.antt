-- ===== src/Perchannel/Reset.antt =====
-- blconf_backend_perchannel_xml_reset, do_reset_channel and blconf_backend_perchannel_xml_list_channels
-- of blconfd/blconf-backend-perchannel-xml.c.
use blconf.Base.{
  ◌-◌, Bool, false, not, ◌&&◌, ◌||◌, Option, none, some, List, [], ◌∷◌, Text, length, take, str_eq,
  strsplit, if◌then◌else◌, codes,
}
use blconf.Backend.Error.{Result, ok, err, property_not_found, write_failure}
use blconf.Tree.{Forest, leaf, node, Node, lookup_node, tree_reset, clean_up, replace_at, tail}
use blconf.Tree.Visit.{table_remove, reset_values}
use blconf.Perchannel.Channels.{
  State, Disk, Handle, store, open_channel, notify, notify_all, schedule_save,
}
use blconf.Perchannel.{is_whole}

-- the names of the parents of the node that a path leads to, nearest first
parents : List Text → List Text → List Text
parents up [] = up
parents up (part ∷ []) = up
parents up (part ∷ q ∷ rest) = parents (part ∷ up) (q ∷ rest)

module _ {ℓ} {V : Type ℓ} where
  unfoldable pub set_tree : Handle V → Forest V → Handle V
  set_tree h tree = record h { channel = record h.channel { properties = tree } }

  only_node : Forest V → Option (Node V)
  only_node leaf = none
  only_node (node p c s) = some (record { prop = p; children = c })

  -- the two traversals of the recursive reset of one node: what is left of it, and the names that
  -- are notified; `up` are the names of its parents
  unfoldable pub reset_node : List Text → Node V → Option (Node V) × List Text
  unfolding only_node
  reset_node up n =
      let (top, names) = reset_values up (node n.prop n.children leaf) in
      (only_node (clean_up top), names)

  unfoldable pub reset_below : Text → Forest V → Node V → Forest V × List Text
  unfolding reset_node parents
  reset_below property tree n =
      let path = strsplit (tail property) in
      let up = parents [] path in
      (replace_at (λ m. (reset_node up m).0) path tree, (reset_node up n).1)

  -- do_reset_channel. The entry is removed under the name that the call has; the values were unset
  -- in the channel itself, under whichever key it stands.
  unfoldable pub reset_channel : Disk V → Handle V → Text → State V → Result (Unit {0}) × State V
  unfolding set_tree
  reset_channel disk h name st =
      let (tree, names) = reset_values [] h.channel.properties in
      let unset = store (set_tree h tree) (notify_all name names st) in
      let removed = record unset { channels = table_remove name unset.channels } in
      if disk.unlink_fails name then (err write_failure, removed) else (ok tt, removed)

  unfoldable pub reset_one :
      Handle V → Text → Text → Option (Forest V) → State V → Result (Unit {0}) × State V
  unfolding set_tree
  reset_one h name property none st = (err property_not_found, st)
  reset_one h name property (some tree) st =
      (ok tt, schedule_save (set_tree h tree) (notify name property st))

  unfoldable pub reset_found :
      Handle V → Text → Text → Option (Node V) → State V → Result (Unit {0}) × State V
  unfolding set_tree reset_below
  reset_found h name property none st = (err property_not_found, st)
  reset_found h name property (some n) st =
      let (tree, names) = reset_below property h.channel.properties n in
      (ok tt, schedule_save (set_tree h tree) (notify_all name names st))

  unfoldable pub reset_in :
      Disk V → Text → Text → Bool → Result (Handle V) → State V → Result (Unit {0}) × State V
  unfolding reset_one reset_found is_whole
  reset_in disk name property recursive (err e) st = (err e, st)
  reset_in disk name property recursive (ok h) st =
      if not recursive
      then reset_one h name property (tree_reset h.channel.properties property) st
      else if is_whole property
      then reset_channel disk h name st
      else reset_found h name property (lookup_node h.channel.properties property) st

  -- blconf_backend_perchannel_xml_reset
  unfoldable pub reset : Disk V → State V → Text → Text → Bool → Result (Unit {0}) × State V
  unfolding open_channel reset_in
  reset disk st name property recursive =
      let (h, st') = open_channel disk st name in reset_in disk name property recursive h st'

-- g_str_has_suffix(name, ".xml"), and `g_strndup(name, strlen(name) - 4)`
unfoldable pub has_xml_suffix : Text → Bool
has_xml_suffix [] = false
has_xml_suffix (c ∷ s) = str_eq (c ∷ s) (codes ".xml") || has_xml_suffix s

unfoldable pub contains : Text → List Text → Bool
contains name [] = false
contains name (x ∷ xs) = str_eq x name || contains name xs

-- the loop over the names of one directory
list_names : List Text → List Text → List Text
unfolding has_xml_suffix contains
list_names [] channels = channels
list_names (name ∷ rest) channels =
    let channel = take (length name - 4) name in
    list_names rest (
      if has_xml_suffix name && not (contains channel channels)
      then channel ∷ channels
      else channels)

-- blconf_backend_perchannel_xml_list_channels; `none` is a directory that cannot be opened
unfoldable pub list_channels : List (Option (List Text)) → List Text → List Text
unfolding list_names
list_channels [] channels = channels
list_channels (none ∷ dirs) channels = list_channels dirs channels
list_channels (some names ∷ dirs) channels = list_channels dirs (list_names names channels)
