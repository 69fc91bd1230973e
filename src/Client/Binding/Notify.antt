-- ===== src/Client/Binding/Notify.antt =====
-- The two handlers of a binding of blconf/blconf-binding.c, which pass a value on. Each blocks the binding's other
-- handler over its call, so what it sets is not passed back by the same binding.
use blconf.Base.{ℕ, Bool, Option, none, some, [], ◌∷◌, Text}
use Prim.Native.Nat.{◌^◌, ◌%◌}
use blconf.Xml.Types.{GType}
use blconf.Values.{Value, uint16_value, double_value, array_value, cons}
use blconf.Values.Shorts.{Conversions, g_value_transform}
use blconf.Client.Cache.{Remote}
use blconf.Client.Channel.{Channel}
use blconf.Client.Channel.Arrays.{set_array, get_uint_of}
use blconf.Client.Channel.Property.{set_property}
use blconf.Client.Binding.{BoundType, of_type, gdk_color, gdk_rgba}

-- FakeGdkColor, without the pixel, which is 0, and FakeGdkRGBA
pub record GdkColor : Type 0 where
  pub red : ℕ
  pub green : ℕ
  pub blue : ℕ

pub record GdkRgba (F : Type 0) : Type 0 where
  pub red_part : F
  pub green_part : F
  pub blue_part : F
  pub alpha_part : F

-- What a property of an object holds; a color may be NULL.
pub data ObjectValue (F : Type 0) : Type 0 where
  plain : Value F → ObjectValue F
  color_value : Option GdkColor → ObjectValue F
  rgba_value : Option (GdkRgba F) → ObjectValue F

module _ {F : Type 0} (equal : Value F → Value F → Bool) where
  -- blconf_g_property_object_notify_gdkcolor
  unfoldable pub object_notify_gdkcolor :
      Channel F → Text → Option GdkColor → Remote (Value F) → Channel F
  object_notify_gdkcolor ch property none got = ch
  object_notify_gdkcolor ch property (some color) got =
      (set_array equal ch property
        (uint16_value color.red
          ∷ (uint16_value color.green ∷ (uint16_value color.blue ∷ (uint16_value 65535 ∷ []))))
        got).1

  -- blconf_g_property_object_notify_gdkrgba
  unfoldable pub object_notify_gdkrgba :
      Channel F → Text → Option (GdkRgba F) → Remote (Value F) → Channel F
  object_notify_gdkrgba ch property none got = ch
  object_notify_gdkrgba ch property (some color) got =
      (set_array equal ch property
        (double_value color.red_part
          ∷ (double_value color.green_part
              ∷ (double_value color.blue_part ∷ (double_value color.alpha_part ∷ []))))
        got).1

module _ {F : Type 0} (conv : Conversions F) where
  abbrev pub transformed : Value F → BoundType → Option (Value F)
  transformed v (of_type t) = g_value_transform conv v t
  transformed v gdk_color = none
  transformed v gdk_rgba = none

  -- blconf_g_property_object_notify, given the type of the channel's property and what the object's holds
  unfoldable pub object_notify :
      (Value F → Value F → Bool)
      → (Text → Bool)
      → Channel F
      → Text
      → BoundType
      → ObjectValue F
      → Remote (Value F)
      → Channel F
  unfolding object_notify_gdkcolor object_notify_gdkrgba
  object_notify equal utf8_validate ch property t (color_value c) got =
      object_notify_gdkcolor equal ch property c got
  object_notify equal utf8_validate ch property t (rgba_value c) got =
      object_notify_gdkrgba equal ch property c got
  object_notify equal utf8_validate ch property t (plain v) got = elim (transformed v t) [
    | none ↦ ch
    | some w ↦ (set_property equal utf8_validate ch property w got).1
  ]

  -- blconf_g_property_channel_notify_gdkcolor: what the object's property is set to; a missing value is one
  -- that has no type
  unfoldable pub channel_notify_gdkcolor : Option (Value F) → Option GdkColor
  channel_notify_gdkcolor (some (array_value (cons r (cons g (cons b m))))) = some (record {
    red = get_uint_of r % 2 ^ 16;
    green = get_uint_of g % 2 ^ 16;
    blue = get_uint_of b % 2 ^ 16;
  })
  channel_notify_gdkcolor v = none

  -- g_value_get_double: 0, and a message, where the value has another type
  abbrev pub get_double_of : Value F → F
  get_double_of (double_value x) = x
  get_double_of v = conv.zero_float

  -- blconf_g_property_channel_notify_gdkrgba
  unfoldable pub channel_notify_gdkrgba : Option (Value F) → Option (GdkRgba F)
  channel_notify_gdkrgba (some (array_value (cons r (cons g (cons b (cons a m)))))) = some (record {
    red_part = get_double_of r;
    green_part = get_double_of g;
    blue_part = get_double_of b;
    alpha_part = get_double_of a;
  })
  channel_notify_gdkrgba v = none

  abbrev pub as_color : Option GdkColor → Option (ObjectValue F)
  as_color none = none
  as_color (some c) = some (color_value (some c))

  abbrev pub as_rgba : Option (GdkRgba F) → Option (ObjectValue F)
  as_rgba none = none
  as_rgba (some c) = some (rgba_value (some c))

  abbrev pub as_plain : Option (Value F) → Option (ObjectValue F)
  as_plain none = none
  as_plain (some v) = some (plain v)

  -- the value or, where there is none, the default of the object's property; a boxed type has none
  abbrev pub value_or_default : GType → Option (Value F) → Option (Value F) → Option (Value F)
  value_or_default u default none = default
  value_or_default u default (some v) = g_value_transform conv v u

  -- blconf_g_property_channel_notify, given the types of the channel's property and of the object's: what
  -- the object's property is set to, if it is
  unfoldable pub channel_notify :
      BoundType → GType → Option (Value F) → Option (Value F) → Option (ObjectValue F)
  unfolding channel_notify_gdkcolor channel_notify_gdkrgba
  channel_notify gdk_color u default value = as_color (channel_notify_gdkcolor value)
  channel_notify gdk_rgba u default value = as_rgba (channel_notify_gdkrgba value)
  channel_notify (of_type t) u default value = as_plain (value_or_default u default value)
