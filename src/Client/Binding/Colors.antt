-- ===== src/Client/Binding/Colors.antt =====
-- The colors that a binding of blconf/blconf-binding.c passes to a channel and from it.
use Prim.Native.Nat.{◌^◌}
use native.Mathlib.Nat.{mod-eq_of_lt}
use blconf.Base.{◌≡◌, refl, ap, ◌∙◌, ◌<◌, true, some, Text}
use blconf.Xml.Types.{invalid}
use blconf.Values.{Floats, Value, uint_value, array_value, Members, nil, cons}
use blconf.Values.Equal.{is_equal}
use blconf.Values.Shorts.{Conversions}
use blconf.Client.Cache.{Remote}
use blconf.Client.Channel.{Channel, set_internal}
use blconf.Client.Channel.Arrays.{set_array, set_arrayv, members_of, member_of}
use blconf.Client.Channel.Property.{get_property, found_in_type, fixup_16bit_ints, has_short}
use blconf.Client.Channel.ReadBack.{get_internal-set_internal, array_value-IsExact}
use blconf.Client.Binding.Notify.{GdkColor, object_notify_gdkcolor, channel_notify_gdkcolor}

-- A color of 16 bits for each part.
abbrev pub IsColor : GdkColor → Type 0
IsColor c = (c.red < 2 ^ 16) × (c.green < 2 ^ 16) × (c.blue < 2 ^ 16)

-- the array that a color is sent as
abbrev pub sent_color : {F : Type 0} → GdkColor → Members F
sent_color c =
    cons (uint_value c.red)
      (cons (uint_value c.green) (cons (uint_value c.blue) (cons (uint_value 65535) nil)))

module _ {F : Type 0} (floats : Floats F) (conv : Conversions F) where
  color-parts :
      (c : GdkColor)
      → IsColor c
      → channel_notify_gdkcolor conv (some (array_value (sent_color c))) ≡ some c
  unfolding channel_notify_gdkcolor
  color-parts c h = rw (mod-eq_of_lt h.0, mod-eq_of_lt h.1, mod-eq_of_lt h.2) refl

  -- A GdkColor of 16 bits a part that the handler of an object passed to a channel, which accepted it, is the one
  -- that the handler of the channel, or a new binding, passes on to an object.
  pub channel_notify-object_notify_gdkcolor :
      (ch : Channel F) (p : Text) (c : GdkColor) (got again : Remote (Value F))
      → IsColor c
      → (set_internal (is_equal floats) ch p (array_value (sent_color c)) got).0 ≡ true
      → channel_notify_gdkcolor conv
          (get_property conv
            (object_notify_gdkcolor (is_equal floats) ch p (some c) got)
            p
            invalid
            again).0
        ≡ some c
  unfolding object_notify_gdkcolor set_array set_arrayv members_of member_of fixup_16bit_ints
      has_short get_property
  channel_notify-object_notify_gdkcolor ch p c got again h good =
      ap (λ v. channel_notify_gdkcolor conv (found_in_type conv invalid v))
        (get_internal-set_internal (is_equal floats) ch p (array_value (sent_color c)) got again
          (array_value-IsExact floats (sent_color c)) good)
      ∙ color-parts c h
