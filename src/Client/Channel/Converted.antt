-- ===== src/Client/Channel/Converted.antt =====
-- blconf_channel_get_property after blconf_channel_set_property, for the two short types.
use blconf.Base.{ℕ, ◌≡◌, refl, ap, ◌∙◌, Bool, true, Text, ℤ}
use blconf.Xml.Types.{GType, uint16, int16}
use blconf.Values.{
  Floats, Value, uint_value, int_value, uint16_value, int16_value, type_of, get_uint16,
}
use blconf.Values.Equal.{is_equal}
use blconf.Values.Shorts.{Conversions, is_short, get_int16, initial}
use blconf.Values.Shorts.Laws.{transform-registered}
use blconf.Client.Cache.{Remote}
use blconf.Client.Channel.{Channel}
use blconf.Client.Channel.Property.{
  set_property, get_property, found_in_type, in_type, sent_value, widened,
}
use blconf.Client.Channel.ReadBack.{
  get_internal-set_internal, uint_value-IsExact, int_value-IsExact,
}

module _ {F : Type 0} (floats : Floats F) (conv : Conversions F) (utf8_validate : Text → Bool) where
  in_type-uint :
      (n : ℕ) (t : GType) → is_short t ≡ true → in_type conv t (uint_value n) ≡ initial conv t
  in_type-uint n uint16 s = transform-registered conv (uint_value n) uint16 refl
  in_type-uint n int16 s = transform-registered conv (uint_value n) int16 refl
  in_type-uint n t s = absurd (cc s)

  in_type-int :
      (n : ℤ) (t : GType) → is_short t ≡ true → in_type conv t (int_value n) ≡ initial conv t
  in_type-int n uint16 s = transform-registered conv (int_value n) uint16 refl
  in_type-int n int16 s = transform-registered conv (int_value n) int16 refl
  in_type-int n t s = absurd (cc s)

  -- A write of an int16 or a uint16 that succeeds, and a read of the property into a value of either type that answers
  -- TRUE, give 0 and not the number: what the daemon keeps is an int or a uint, and the function
  -- that should turn it back is registered for the other direction.
  pub get_property-set_property_short :
      (ch : Channel F) (p : Text) (v : Value F) (t : GType) (got again : Remote (Value F))
      → is_short (type_of v) ≡ true
      → is_short t ≡ true
      → (set_property (is_equal floats) utf8_validate ch p v got).0 ≡ true
      → (get_property conv (set_property (is_equal floats) utf8_validate ch p v got).1 p t again).0
        ≡ initial conv t
  unfolding set_property get_property sent_value widened get_uint16 get_int16
  get_property-set_property_short ch p (uint16_value n) t got again s k good =
      ap (found_in_type conv t) (
        get_internal-set_internal (is_equal floats) ch p (uint_value n) got again
          (uint_value-IsExact floats n) good)
      ∙ in_type-uint n t k
  get_property-set_property_short ch p (int16_value i) t got again s k good =
      ap (found_in_type conv t) (
        get_internal-set_internal (is_equal floats) ch p (int_value i) got again
          (int_value-IsExact floats i) good)
      ∙ in_type-int i t k
  get_property-set_property_short ch p v t got again s k good = absurd (cc s)
