-- ===== src/Xml/Element.antt =====
-- The state of the parser of blconfd/blconf-backend-perchannel-xml.c, and its handlers for <channel> and
-- <property>.
use blconf.Base.{
  Bool, true, false, not, ◌&&◌, ◌||◌, Option, none, some, List, [], ◌∷◌, Text, slash, if◌then◌else◌,
  strsplit,
}
use blconf.Tree.{
  Property, Forest, leaf, Node, strlcpy, strlcat, lookup_node, modify_at, tree_add, tree_reset,
  tail, unset_value,
}
use blconf.Perchannel.Channels.{Channel}
use blconf.Xml.Types.{GType, gtype_from_string, ValueOps, Users}
use blconf.Xml.Attributes.{
  Attributes, ChannelAttrs, PropertyAttrs, channel_attrs, property_attrs, no_channel_attrs,
  no_property_attrs, is_given, text_of, lock_state, version_fits,
}

-- XmlParserElem
pub data Elem : Type 0 where
  none_open in_channel in_property in_value : Elem

-- XmlParserState. `list_value` points into the property named `list_property`; both are set, and unset,
-- together.
pub record Parser {ℓ} (V : Type ℓ) : Type ℓ where
  pub channel : Channel V
  pub is_system_file : Bool
  pub cur_elem : Elem
  pub cur_path : Text
  pub list_property : Option Text

-- How a handler ends: it returns, it sets an error, which ends the parse, or it uses a NULL pointer.
pub data Outcome {ℓ} (A : Type ℓ) : Type ℓ where
  fine : A → Outcome A
  failed : A → Outcome A
  crashed : Outcome A

abbrev pub path_of : Text → List Text
path_of name = strsplit (tail name)

abbrev pub is_invalid : GType → Bool
is_invalid GType.invalid = true
is_invalid _ = false

abbrev pub is_empty : GType → Bool
is_empty GType.empty = true
is_empty _ = false

abbrev pub is_array : GType → Bool
is_array GType.array = true
is_array _ = false

module _ {ℓ} {V : Type ℓ} where
  abbrev pub with_tree : Parser V → Forest V → Parser V
  with_tree st tree = record st { channel = record st.channel { properties = tree } }

  -- the policy for locked channels in blconf_xml_handle_channel, once the attributes are read
  unfoldable pub lock_channel : Parser V → Bool → Outcome (Parser V)
  lock_channel st locked_state =
      if st.channel.locked && not locked_state
      then failed st
      else fine (record st {
        channel =
            (if not st.channel.locked && locked_state
              then record st.channel { properties = leaf; locked = true }
              else st.channel);
        cur_elem = in_channel;
      })

  unfoldable pub channel_read : Users → Parser V → Option ChannelAttrs → Outcome (Parser V)
  unfolding lock_channel
  channel_read users st none = failed st
  channel_read users st (some a) =
      if not (is_given a.name) || not (is_given a.version)
      then failed st
      else if not (version_fits (text_of a.version))
      then failed st
      else if not (is_given a.locked || is_given a.unlocked)
      then fine (record st { cur_elem = in_channel })
      else if not st.is_system_file
      then failed st
      else lock_channel st (lock_state users a.locked a.unlocked)

  -- blconf_xml_handle_channel
  unfoldable pub handle_channel : Users → Parser V → Attributes → Outcome (Parser V)
  unfolding channel_read
  handle_channel users st attrs = channel_read users st (channel_attrs attrs no_channel_attrs)

  abbrev pub unset_both : Property V → Property V
  unset_both p = record p { value = none; system_value = none }

  abbrev pub set_locked : Bool → Property V → Property V
  set_locked l p = record p { locked = l }

  -- `value_to_set`, initialised and then set
  abbrev pub put_value : Bool → V → Property V → Property V
  put_value is_system_file v p =
      if is_system_file then record p { system_value = some v } else record p { value = some v }

  -- The property that the element is about, emptied or made; `none` is the NULL node of a name that
  -- blconf_proptree_add_property refuses, whose data is then read.
  unfoldable pub clear_property : Parser V → Text → Option (Node V) → Option (Forest V)
  clear_property st fullpath none = tree_add st.channel.properties fullpath none st.channel.locked
  clear_property st fullpath (some n) = some (
      modify_at (if st.channel.locked || st.is_system_file then unset_both else unset_value)
        (path_of fullpath) st.channel.properties)

  unfoldable pub kept : Forest V → Option (Forest V) → Forest V
  kept tree none = tree
  kept tree (some tree') = tree'

  unfoldable pub opened : Parser V → Text → Forest V → Parser V
  opened st fullpath tree = record (with_tree st tree) {
    cur_path = strlcpy fullpath;
    cur_elem = in_property;
  }

  -- after `_blconf_gvalue_from_string`: where it fails, the value keeps what g_value_init gave it
  unfoldable pub parsed :
      ValueOps V → Parser V → Text → GType → Forest V → Option V → Outcome (Parser V)
  unfolding opened
  parsed ops st fullpath t tree none = failed (
      with_tree st
        (modify_at (put_value st.is_system_file (ops.initial t)) (path_of fullpath) tree))
  parsed ops st fullpath t tree (some v) =
      fine
        (record (opened st fullpath
          (modify_at (put_value st.is_system_file v) (path_of fullpath) tree)) {
            list_property = (if is_array t then some fullpath else st.list_property);
          })

  -- the type and the value of the element, at the end of blconf_xml_handle_property
  unfoldable pub read_value :
      ValueOps V → Parser V → Text → Text → Option Text → Forest V → Outcome (Parser V)
  unfolding opened parsed gtype_from_string
  read_value ops st fullpath type value tree =
      let t = gtype_from_string type in
      if is_invalid t
      then failed (with_tree st tree)
      else if is_empty t
      then fine (opened st fullpath tree)
      else parsed ops st fullpath t tree (ops.from_string t value)

  -- the attributes `locked` and `unlocked`
  unfoldable pub read_lock :
      ValueOps V → Users → Parser V → Text → PropertyAttrs → Forest V → Outcome (Parser V)
  unfolding read_value kept
  read_lock ops users st fullpath a tree =
      if not (is_given a.locked || is_given a.unlocked)
      then read_value ops st fullpath (text_of a.type) a.value tree
      else if not st.is_system_file
      then failed (with_tree st (kept tree (tree_reset tree fullpath)))
      else read_value ops st fullpath (text_of a.type) a.value (
          modify_at
            (set_locked (if st.channel.locked then true else lock_state users a.locked a.unlocked))
            (path_of fullpath) tree)

  unfoldable pub locks_out : Parser V → Option (Node V) → Bool
  locks_out st none = false
  locks_out st (some n) = not st.channel.locked && (n.prop.locked && not st.is_system_file)

  unfoldable pub cleared :
      ValueOps V → Users → Parser V → Text → PropertyAttrs → Option (Forest V) → Outcome (Parser V)
  unfolding read_lock
  cleared ops users st fullpath a none = crashed
  cleared ops users st fullpath a (some tree) = read_lock ops users st fullpath a tree

  unfoldable pub property_at :
      ValueOps V → Users → Parser V → Text → PropertyAttrs → Option (Node V) → Outcome (Parser V)
  unfolding locks_out cleared clear_property
  property_at ops users st fullpath a o =
      if locks_out st o
      then fine (record st { cur_elem = in_property; cur_path = strlcpy fullpath })
      else cleared ops users st fullpath a (clear_property st fullpath o)

  -- `g_assert_not_reached` is met where a file that is no system file is read into a locked channel
  unfoldable pub property_read :
      ValueOps V → Users → Parser V → Option PropertyAttrs → Outcome (Parser V)
  unfolding property_at
  property_read ops users st none = failed st
  property_read ops users st (some a) =
      let fullpath = strlcat (strlcat (strlcpy st.cur_path) (slash ∷ [])) (text_of a.name) in
      if not (is_given a.name) || not (is_given a.type)
      then failed st
      else if st.channel.locked && not st.is_system_file
      then crashed
      else property_at ops users st fullpath a (lookup_node st.channel.properties fullpath)

  -- blconf_xml_handle_property
  unfoldable pub handle_property : ValueOps V → Users → Parser V → Attributes → Outcome (Parser V)
  unfolding property_read
  handle_property ops users st attrs =
      property_read ops users st (property_attrs attrs no_property_attrs)
