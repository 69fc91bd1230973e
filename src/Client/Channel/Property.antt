-- ===== src/Client/Channel/Property.antt =====
-- blconf_channel_get_property and blconf_channel_set_property of blconf/blconf-channel.c, with the arrays that
-- they convert.
use blconf.Base.{Bool, true, false, not, ◌&&◌, ◌||◌, Option, none, some, Text, if◌then◌else◌}
use blconf.Xml.Types.{GType, invalid}
use blconf.Values.{
  Value, string_value, uint_value, uint16_value, int_value, int16_value, array_value, Members, nil,
  cons, type_of, get_uint16,
}
use blconf.Values.Shorts.{Conversions, same_type, is_short, get_int16, g_value_transform}
use blconf.Client.Cache.{Remote}
use blconf.Client.Channel.{Channel, set_internal, get_internal}

module _ {F : Type 0} where
  -- a value as it is sent: dbus-glib has no int16 and no uint16
  unfoldable pub widened : Value F → Value F
  unfolding get_uint16 get_int16
  widened (uint16_value n) = uint_value (get_uint16 {F = F} (uint16_value n))
  widened (int16_value i) = int_value (get_int16 {F = F} (int16_value i))
  widened v = v

  -- the two loops of blconf_fixup_16bit_ints: whether there is a short number, and the new array
  unfoldable pub has_short : Members F → Bool
  has_short nil = false
  has_short (cons v m) = is_short (type_of v) || has_short m

  unfoldable pub widened_members : Members F → Members F
  unfolding widened
  widened_members nil = nil
  widened_members (cons v m) = cons (widened v) (widened_members m)

  -- blconf_fixup_16bit_ints; `none` is NULL
  unfoldable pub fixup_16bit_ints : Members F → Option (Members F)
  unfolding has_short widened_members
  fixup_16bit_ints arr = if has_short arr then some (widened_members arr) else none

  abbrev pub or_old : Members F → Option (Members F) → Members F
  or_old arr none = arr
  or_old arr (some arr_new) = arr_new

  -- `val` of blconf_channel_set_property
  unfoldable pub sent_value : Value F → Value F
  unfolding fixup_16bit_ints widened
  sent_value (array_value arr) = array_value (or_old arr (fixup_16bit_ints arr))
  sent_value (uint16_value n) = widened (uint16_value n)
  sent_value v = widened v

  abbrev pub valid_string : (Text → Bool) → Value F → Bool
  valid_string utf8_validate (string_value (some s)) = utf8_validate s
  valid_string utf8_validate v = true

  -- blconf_channel_set_property
  unfoldable pub set_property :
      (Value F → Value F → Bool)
      → (Text → Bool)
      → Channel F
      → Text
      → Value F
      → Remote (Value F)
      → Bool × Channel F
  unfolding sent_value
  set_property equal utf8_validate ch property value got =
      if valid_string utf8_validate value
      then set_internal equal ch property (sent_value value) got
      else (false, ch)

module _ {F : Type 0} (conv : Conversions F) where
  abbrev pub cons_both : Option (Value F) → Option (Members F) → Option (Members F)
  cons_both none m = none
  cons_both (some v) none = none
  cons_both (some v) (some m) = some (cons v m)

  abbrev pub transform_member : GType → Value F → Option (Value F)
  transform_member t v = if same_type (type_of v) t then some v else g_value_transform conv v t

  -- the loop of blconf_transform_array, which stops at a member that cannot be transformed
  unfoldable pub transform_members : GType → Members F → Option (Members F)
  transform_members t nil = some nil
  transform_members t (cons v m) = cons_both (transform_member t v) (transform_members t m)

  -- blconf_transform_array; `none` is NULL
  unfoldable pub transform_array : Members F → GType → Option (Members F)
  unfolding transform_members
  transform_array nil t = none
  transform_array (cons v m) t =
      if same_type t invalid then none else transform_members t (cons v m)

  abbrev pub array_of : Option (Members F) → Option (Value F)
  array_of none = none
  array_of (some arr) = some (array_value arr)

  -- each item of an array is converted
  abbrev pub converted : GType → Value F → Option (Value F)
  converted t (array_value arr) = array_of (transform_array arr t)
  converted t v = g_value_transform conv v t

  -- a value in the type that the caller asks for
  abbrev pub in_type : GType → Value F → Option (Value F)
  in_type t v =
      if not (same_type t invalid) && not (same_type t (type_of v)) then converted t v else some v

  abbrev pub found_in_type : GType → Option (Value F) → Option (Value F)
  found_in_type t none = none
  found_in_type t (some v) = in_type t v

  -- blconf_channel_get_property, given the type of `value`, which is `invalid` where it has none yet; it
  -- gives what is in `value` where the answer is TRUE
  unfoldable pub get_property :
      Channel F → Text → GType → Remote (Value F) → Option (Value F) × Channel F
  unfolding transform_array
  get_property ch property t got =
      let (v, ch') = get_internal ch property got in (found_in_type t v, ch')
