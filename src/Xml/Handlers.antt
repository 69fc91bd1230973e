-- ===== src/Xml/Handlers.antt =====
-- The handler of blconfd/blconf-backend-perchannel-xml.c for <value>, and what GMarkup calls at the start
-- and the end of an element.
use blconf.Base.{
  Bool, not, ◌&&◌, ◌||◌, Option, none, some, [], ◌∷◌, Text, str_eq, codes, is_some, if◌then◌else◌,
  before_last_slash,
}
use blconf.Tree.{Property, modify_at}
use blconf.Xml.Types.{GType, gtype_from_string, ValueOps, Users}
use blconf.Xml.Attributes.{Attributes, ValueAttrs, value_attrs, no_value_attrs, text_of}
use blconf.Xml.Element.{Elem}
use blconf.Xml.Element.{
  none_open, in_channel, in_property, in_value, Parser, Outcome, fine, failed, crashed, path_of,
  is_invalid, is_empty, is_array, with_tree, handle_channel, handle_property,
}

module _ {ℓ} {V : Type ℓ} where
  -- `arr = g_value_get_boxed(state->list_value); g_ptr_array_add(arr, val)`
  unfoldable pub add_member : ValueOps V → Bool → V → Property V → Property V
  add_member ops is_system_file v p =
      if is_system_file
      then record p { system_value = added p.system_value }
      else record p { value = added p.value }
    where
      added : Option V → Option V
      added none = none
      added (some arr) = some (ops.array_add arr v)

  unfoldable pub value_parsed : ValueOps V → Parser V → Option V → Outcome (Parser V)
  unfolding add_member
  value_parsed ops st none = failed st
  value_parsed ops st (some v) =
      fine
        (record (with_tree st (
          modify_at (add_member ops st.is_system_file v) (path_of (text_of st.list_property))
            st.channel.properties)) { cur_elem = in_value })

  unfoldable pub value_typed : ValueOps V → Parser V → GType → Option Text → Outcome (Parser V)
  unfolding value_parsed
  value_typed ops st t value =
      if is_array t || (is_invalid t || is_empty t)
      then failed st
      else value_parsed ops st (ops.from_string t value)

  unfoldable pub value_read : ValueOps V → Parser V → Option ValueAttrs → Outcome (Parser V)
  unfolding value_typed gtype_from_string
  value_read ops st none = failed st
  value_read ops st (some a) = elim a.type [
    | none ↦ crashed
    | some type ↦ value_typed ops st (gtype_from_string type) a.value
  ]

  -- blconf_xml_handle_value; a missing `type` is a NULL that strcmp reads
  unfoldable pub handle_value : ValueOps V → Parser V → Attributes → Outcome (Parser V)
  unfolding value_read
  handle_value ops st attrs = value_read ops st (value_attrs attrs no_value_attrs)

  -- the switch over `state->cur_elem`
  unfoldable pub start_at :
      ValueOps V → Users → Parser V → Text → Attributes → Elem → Outcome (Parser V)
  unfolding handle_channel handle_property handle_value
  start_at ops users st element attrs none_open =
      if not (str_eq element (codes "channel")) then failed st else handle_channel users st attrs
  start_at ops users st element attrs in_channel =
      if str_eq element (codes "property") then handle_property ops users st attrs else failed st
  start_at ops users st element attrs in_property =
      if str_eq element (codes "property")
      then handle_property ops users st attrs
      else if is_some st.list_property && str_eq element (codes "value")
      then handle_value ops st attrs
      else failed st
  start_at ops users st element attrs in_value = failed st

  -- blconf_backend_perchannel_xml_start_elem
  unfoldable pub start_elem : ValueOps V → Users → Parser V → Text → Attributes → Outcome (Parser V)
  unfolding start_at
  start_elem ops users st element attrs = start_at ops users st element attrs st.cur_elem

  unfoldable pub leave_property : Parser V → Option Text → Parser V
  leave_property st none = record st { list_property = none; cur_elem = in_channel }
  leave_property st (some []) = record st {
    list_property = none;
    cur_path = [];
    cur_elem = in_channel;
  }
  leave_property st (some (c ∷ s)) = record st {
    list_property = none;
    cur_path = c ∷ s;
    cur_elem = in_property;
  }

  unfoldable pub end_at : Parser V → Elem → Parser V
  unfolding leave_property
  end_at st none_open = st
  end_at st in_channel = record st { cur_elem = none_open; cur_path = [] }
  end_at st in_property = leave_property st (before_last_slash st.cur_path)
  end_at st in_value = record st { cur_elem = in_property }

  -- blconf_backend_perchannel_xml_end_elem
  unfoldable pub end_elem : Parser V → Parser V
  unfolding end_at
  end_elem st = end_at st st.cur_elem
