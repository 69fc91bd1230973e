-- ===== src/Tree.antt =====
-- The property tree of blconfd/blconf-backend-perchannel-xml.c (BlconfProperty, GNode and the
-- blconf_proptree_* functions). A `GNode` is its data, its first child and its next sibling, so a
-- `Forest` is a node's list of children in that form. A pointer into the tree is the path of names
-- that leads to the node, since the code only gets one from a lookup. A change through it gives a
-- new tree. Values are of any type `V`; a `GValue` that is not set is `none`.
pub mod Visit
pub mod Paths
pub mod Names
pub mod Add
pub mod Tables
pub mod Keys
pub mod Propname
pub mod Resets
use blconf.Base.{
  ℕ, zero, suc, ◌-◌, Bool, true, false, not, ◌&&◌, ◌||◌, Option, none, some, List, [], ◌∷◌, ◌++◌,
  Text, slash, take, length, str_eq, strsplit, before_last_slash, after_last_slash, is_some,
  if◌then◌else◌, ◌==◌,
}

-- struct BlconfProperty
pub record Property {ℓ} (V : Type ℓ) : Type ℓ where
  pub name : Text
  pub value : Option V
  pub system_value : Option V
  pub locked : Bool

-- The node's data, its children, and the siblings behind it.
pub data Forest {ℓ} (V : Type ℓ) : Type ℓ where
  leaf : Forest V
  node : Property V → Forest V → Forest V → Forest V

pub record Node {ℓ} (V : Type ℓ) : Type ℓ where
  pub prop : Property V
  pub children : Forest V

-- MAX_PROP_PATH
abbrev pub max_prop_path : ℕ
max_prop_path = 4096

-- `g_strlcpy(buf, s, MAX_PROP_PATH)`, and what `g_strlcat(buf, s, MAX_PROP_PATH)` leaves in `buf`.
unfoldable pub strlcpy : Text → Text
strlcpy s = take (max_prop_path - 1) s

unfoldable pub strlcat : Text → Text → Text
unfolding strlcpy
strlcat buf s = strlcpy (buf ++ s)

-- `strstr(name, "//")`
unfoldable pub has_double_slash : Text → Bool
has_double_slash [] = false
has_double_slash (c ∷ []) = false
has_double_slash (c ∷ d ∷ s) = (c == slash && d == slash) || has_double_slash (d ∷ s)

-- PROP_NAME_IS_VALID
unfoldable pub prop_name_is_valid : Text → Bool
unfolding has_double_slash
prop_name_is_valid [] = false
prop_name_is_valid (c ∷ []) = false
prop_name_is_valid (c ∷ d ∷ s) = c == slash && not (has_double_slash (c ∷ d ∷ s))

-- `name + 1`
abbrev pub tail : Text → Text
tail [] = []
tail (c ∷ s) = s

abbrev pub or_empty : Option Text → Text
or_empty none = []
or_empty (some t) = t

module _ {ℓ} {V : Type ℓ} where
  abbrev pub is_leaf : Forest V → Bool
  is_leaf leaf = true
  is_leaf (node p c s) = false

  -- the inner loop of blconf_proptree_lookup_node: the first child with the name
  unfoldable pub find_child : Text → Forest V → Option (Node V)
  find_child part leaf = none
  find_child part (node p c s) =
      if str_eq p.name part then some (record { prop = p; children = c }) else find_child part s

  -- its outer loop: the last part decides
  unfoldable pub lookup_parts : List Text → Forest V → Option (Node V)
  lookup_parts [] f = none
  lookup_parts (part ∷ rest) f = elim (find_child part f) [
    | none ↦ none
    | some n ↦ elim rest [ [] ↦ some n | q ∷ qs ↦ lookup_parts rest n.children ]
  ]

  -- blconf_proptree_lookup_node; the tree is the children of the root node
  unfoldable pub lookup_node : Forest V → Text → Option (Node V)
  lookup_node tree name =
      if prop_name_is_valid name then lookup_parts (strsplit (tail name)) tree else none

  -- `prop = blconf_proptree_lookup(...)`, and a write to one of its fields
  unfoldable pub modify_at : (Property V → Property V) → List Text → Forest V → Forest V
  modify_at g [] f = f
  modify_at g (part ∷ rest) leaf = leaf
  modify_at g (part ∷ rest) (node p c s) =
      if str_eq p.name part
      then elim rest [ [] ↦ node (g p) c s | q ∷ qs ↦ node p (modify_at g rest c) s ]
      else node p c (modify_at g (part ∷ rest) s)

  -- g_node_append_data
  unfoldable pub append : Forest V → Property V → Forest V
  append leaf new = node new leaf leaf
  append (node p c s) new = node p c (append s new)

  -- g_node_append_data under the node that the path leads to; the empty path leads to the root
  unfoldable pub append_at : List Text → Property V → Forest V → Forest V
  unfolding append
  append_at [] new f = append f new
  append_at (part ∷ rest) new leaf = leaf
  append_at (part ∷ rest) new (node p c s) =
      if str_eq p.name part
      then node p (append_at rest new c) s
      else node p c (append_at (part ∷ rest) new s)

  abbrev pub new_property : Text → Option V → Bool → Property V
  new_property name value locked = record {
    name = name;
    value = value;
    system_value = none;
    locked = locked;
  }

  append_under : List Text → Property V → Option (Forest V) → Option (Forest V)
  append_under path new none = none
  append_under path new (some f) = some (append_at path new f)

  -- blconf_proptree_add_property, whose argument `system_value` the code never reads. `none` is
  -- the NULL for a name that is not valid. The recursive call is on a shorter name: the fuel is
  -- the name's length. Where the parent is made, the pointer that the call returns is its path.
  unfoldable pub add_property : ℕ → Forest V → Text → Option V → Bool → Option (Forest V)
  unfolding prop_name_is_valid append_under
  add_property zero tree name value locked = none
  add_property (suc fuel) tree name value locked =
      let new = new_property (after_last_slash name) value locked in
      let parent = or_empty (before_last_slash (strlcpy name)) in
      let made = add_property fuel tree parent none false in
      if not (prop_name_is_valid name)
      then none
      else if str_eq parent []
      then some (append tree new)
      else append_under (strsplit (tail parent)) new
          (if is_some (lookup_node tree parent) then some tree else made)

  unfoldable pub tree_add : Forest V → Text → Option V → Bool → Option (Forest V)
  tree_add tree name value locked = add_property (length name) tree name value locked

  -- the test by which a parent without a purpose is unlinked
  is_prunable : Property V → Forest V → Bool
  is_prunable p c =
      not (is_some p.value)
      && (not (is_some p.system_value) && (is_leaf c && not (str_eq p.name (slash ∷ []))))

  -- g_node_unlink and blconf_proptree_destroy of the node, then the loop over its parents. A parent
  -- that keeps a child is not prunable, so the loop ends there.
  unfoldable pub remove_at : List Text → Forest V → Forest V
  unfolding is_prunable
  remove_at [] f = f
  remove_at (part ∷ rest) leaf = leaf
  remove_at (part ∷ rest) (node p c s) =
      let below = remove_at rest c in
      let beside = remove_at (part ∷ rest) s in
      if str_eq p.name part
      then elim rest [ [] ↦ s | q ∷ qs ↦ if is_prunable p below then s else node p below s ]
      else node p c beside

  -- g_value_unset(&prop->value)
  abbrev pub unset_value : Property V → Property V
  unset_value p = record p { value = none }

  -- blconf_proptree_reset; `none` is FALSE, and the tree is as it was
  unfoldable pub tree_reset : Forest V → Text → Option (Forest V)
  tree_reset tree name =
      let path = strsplit (tail name) in
      elim (lookup_node tree name) [
        | none ↦ none
        | some n ↦
            if not (is_some n.prop.value)
            then none
            else if not (is_leaf n.children) || is_some n.prop.system_value
            then some (modify_at unset_value path tree)
            else some (remove_at path tree)
      ]

  -- nodes_clean_up in post-order, over a node's children
  unfoldable pub clean_up : Forest V → Forest V
  clean_up leaf = leaf
  clean_up (node p c s) =
      let c' = clean_up c in
      let s' = clean_up s in
      if is_leaf c' && (not (is_some p.value) && (not (is_some p.system_value) && not p.locked))
      then s'
      else node p c' s'

  -- a change to the node that the path leads to: `none` unlinks it
  unfoldable pub replace_at : (Node V → Option (Node V)) → List Text → Forest V → Forest V
  replace_at g [] f = f
  replace_at g (part ∷ rest) leaf = leaf
  replace_at g (part ∷ rest) (node p c s) =
      if str_eq p.name part
      then elim rest [
        | [] ↦ elim (g (record { prop = p; children = c })) [
          | none ↦ s
          | some n ↦ node n.prop n.children s
        ]
        | q ∷ qs ↦ node p (replace_at g rest c) s
      ]
      else node p c (replace_at g (part ∷ rest) s)
