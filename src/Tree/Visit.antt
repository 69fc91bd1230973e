-- ===== src/Tree/Visit.antt =====
-- The traversals of blconfd/blconf-backend-perchannel-xml.c: blconf_proptree_node_to_hash_table,
-- nodes_do_prop_reset and blconf_proptree_build_propname.
use blconf.Base.{
  Bool, true, false, Option, none, some, List, [], ◌∷◌, ◌++◌, Text, slash, str_eq,
  before_last_slash, is_some, if◌then◌else◌, ◌==◌,
}
use blconf.Tree.{Property, Forest, leaf, node, Node, strlcat, is_leaf, unset_value}

-- A GHashTable with text keys. `g_hash_table_insert` replaces the value of a key that is there.
abbrev pub Table {ℓ} : Type ℓ → Type ℓ
Table V = List (Text × V)

module _ {ℓ} {V : Type ℓ} where
  unfoldable pub table_lookup : Text → Table V → Option V
  table_lookup k [] = none
  table_lookup k ((j, v) ∷ t) = if str_eq j k then some v else table_lookup k t

  unfoldable pub table_insert : Text → V → Table V → Table V
  table_insert k v [] = (k, v) ∷ []
  table_insert k v ((j, w) ∷ t) = if str_eq j k then (j, v) ∷ t else (j, w) ∷ table_insert k v t

  unfoldable pub table_remove : Text → Table V → Table V
  table_remove k [] = []
  table_remove k ((j, v) ∷ t) = if str_eq j k then t else (j, v) ∷ table_remove k t

  -- the value that a reader of the property sees
  unfoldable pub effective : Property V → Option V
  effective p = elim p.value [ some v ↦ some v | none ↦ p.system_value ]

  put_effective : Table V → Text → Option V → Table V
  put_effective table name none = table
  put_effective table name (some v) = table_insert name v table

-- `strrchr(cur_path, '/')`, and the cut there if there is one
abbrev cut : Text → Text
cut path = elim (before_last_slash path) [ none ↦ path | some t ↦ t ]

is_slash_name : Text → Bool
is_slash_name [] = false
is_slash_name (c ∷ s) = c == slash

-- `if(prop->name[0] != '/') { g_strlcat ...; g_strlcat ... }`
enter : Text → Text → Text
unfolding is_slash_name
enter cur_path name =
    if is_slash_name name then cur_path else strlcat (strlcat cur_path (slash ∷ [])) name

module _ {ℓ} {V : Type ℓ} where
  -- blconf_proptree_node_to_hash_table on a node and on its siblings: the table and the buffer
  -- `cur_path` go in and come out
  unfoldable pub to_hash_table : Forest V → Table V → Text → Table V × Text
  unfolding put_effective effective enter
  to_hash_table leaf table cur_path = (table, cur_path)
  to_hash_table (node p c s) table cur_path =
      let own = put_effective table (cur_path ++ (slash ∷ p.name)) (effective p) in
      let below = to_hash_table c own (enter cur_path p.name) in
      let state : Table V × Text = if is_leaf c then (own, cur_path) else (below.0, cut below.1) in
      to_hash_table s state.0 state.1

  -- on one node
  unfoldable pub node_to_hash_table : Node V → Table V → Text → Table V × Text
  node_to_hash_table n table cur_path = to_hash_table (node n.prop n.children leaf) table cur_path

-- `!prop->name[1]`, the test for the root "/". (The byte behind an empty name is not part of it;
-- no name that passed blconf_property_is_valid has an empty component.)
abbrev pub is_short : Text → Bool
is_short [] = true
is_short (c ∷ []) = true
is_short (c ∷ d ∷ s) = false

-- the components that the loop collects, from the node upwards
unfoldable pub collect : List Text → List Text → List Text
collect [] components = components
collect (name ∷ up) components =
    let rest = collect up (name ∷ components) in if is_short name then components else rest

unfoldable pub concat_components : Text → List Text → Text
concat_components buf [] = buf
concat_components buf (name ∷ rest) =
    concat_components (strlcat (strlcat buf (slash ∷ [])) name) rest

-- blconf_proptree_build_propname, of the names from the node up to the root's child
unfoldable pub build_propname : List Text → Text
unfolding collect concat_components
build_propname up = concat_components [] (collect up [])

module _ {ℓ} {V : Type ℓ} where
  -- g_node_traverse(..., nodes_do_prop_reset, ...) in post-order on a node and its siblings, whose
  -- parents' names are `up`: the tree, and the names that are handed to prop_changed_func
  unfoldable pub reset_values : List Text → Forest V → Forest V × List Text
  reset_values up leaf = (leaf, [])
  reset_values up (node p c s) =
      let below = reset_values (p.name ∷ up) c in
      let beside = reset_values up s in
      let own = if is_some p.value then build_propname (p.name ∷ up) ∷ [] else [] in
      (node (unset_value p) below.0 beside.0, below.1 ++ (own ++ beside.1))
