-- ===== src/Client/Channel/Arrays.antt =====
-- The arrays and the lists of strings of blconf/blconf-channel.c. An argument of the variable ones is its type
-- and what its pointer points at, so a value; the G_TYPE_INVALID that ends them is not in the list. An
-- argument of type G_TYPE_STRV, which no property has, is left out.
use blconf.Base.{
  ℕ, Bool, true, false, ◌&&◌, ◌||◌, Option, none, some, List, [], ◌∷◌, Text, if◌then◌else◌, ℤ, pos,
}
use Prim.Native.Nat.{◌^◌, ◌%◌}
use blconf.Xml.Types.{GType, invalid, empty, uint, int, uint16, int16, array}
use blconf.Values.{
  Value, string_value, uint_value, uint16_value, int_value, int16_value, array_value, Members, nil,
  cons, type_of,
}
use blconf.Values.Shorts.{from_bits, to_bits, same_type}
use blconf.Client.Cache.{Remote}
use blconf.Client.Channel.{Channel, set_internal, get_internal}
use blconf.Client.Channel.Property.{fixup_16bit_ints, or_old}

-- the test of types of blconf_channel_get_array_valist
abbrev pub fits_type : GType → GType → Bool
fits_type have t =
    same_type have t
    || ((same_type have uint && same_type t uint16) || (same_type have int && same_type t int16))

module _ {F : Type 0} where
  -- a GPtrArray that is not empty, out of the value of a property
  abbrev pub array_in : Option (Value F) → Option (Members F)
  array_in (some (array_value (cons v m))) = some (cons v m)
  array_in (some (array_value nil)) = none
  array_in v = none

  -- blconf_channel_get_arrayv
  unfoldable pub get_arrayv : Channel F → Text → Remote (Value F) → Option (Members F) × Channel F
  get_arrayv ch property got = let (v, ch') = get_internal ch property got in (array_in v, ch')

  -- g_value_get_uint and g_value_get_int: 0, and a message, where the value has another type
  abbrev pub get_uint_of : Value F → ℕ
  get_uint_of (uint_value n) = n
  get_uint_of v = 0

  abbrev pub get_int_of : Value F → ℤ
  get_int_of (int_value i) = i
  get_int_of v = pos 0

  -- the switch of blconf_channel_get_array_valist: what is stored through the pointer; `none` is the
  -- warning about the type
  unfoldable pub stored_as : GType → Value F → Option (Value F)
  stored_as uint16 v = some (uint16_value (get_uint_of v % 2 ^ 16))
  stored_as int16 v = some (int16_value (from_bits (2 ^ 15) (to_bits (2 ^ 16) (get_int_of v))))
  stored_as array v = none
  stored_as empty v = none
  stored_as invalid v = none
  stored_as t v = some v

  abbrev pub member_as : GType → Value F → Option (Value F)
  member_as t v = if fits_type (type_of v) t then stored_as t v else none

  abbrev pub store_then : Option (Value F) → Bool × List (Value F) → Bool × List (Value F)
  store_then none rest = (false, [])
  store_then (some w) rest = (rest.0, w ∷ rest.1)

  -- the loop of blconf_channel_get_array_valist: the answer, and what was stored before it
  unfoldable pub store_members : List GType → Members F → Bool × List (Value F)
  unfolding stored_as
  store_members [] nil = (true, [])
  store_members [] (cons v m) = (false, [])
  store_members (t ∷ types) nil = (false, [])
  store_members (t ∷ types) (cons v m) = store_then (member_as t v) (store_members types m)

  abbrev pub stored_from : List GType → Option (Members F) → Bool × List (Value F)
  stored_from types none = (false, [])
  stored_from types (some arr) = store_members types arr

  -- blconf_channel_get_array_valist
  unfoldable pub get_array :
      Channel F → Text → List GType → Remote (Value F) → (Bool × List (Value F)) × Channel F
  unfolding get_arrayv store_members
  get_array ch property types got =
      let (arr, ch') = get_arrayv ch property got in (stored_from types arr, ch')

  -- the switch of blconf_channel_set_array_valist: the new member
  unfoldable pub member_of : Value F → Option (Value F)
  member_of (uint16_value n) = some (uint_value n)
  member_of (int16_value i) = some (int_value i)
  member_of (array_value m) = none
  member_of v = some v

  abbrev pub add_then : Option (Value F) → Option (Members F) → Option (Members F)
  add_then none m = none
  add_then (some v) none = none
  add_then (some v) (some m) = some (cons v m)

  -- the loop of blconf_channel_set_array_valist; `none` is its `goto out`
  unfoldable pub members_of : List (Value F) → Option (Members F)
  unfolding member_of
  members_of [] = some nil
  members_of (v ∷ vs) = add_then (member_of v) (members_of vs)

  abbrev pub strings_of : List Text → Members F
  strings_of [] = nil
  strings_of (s ∷ values) = cons (string_value (some s)) (strings_of values)

  abbrev pub string_then : Value F → Option (List (Option Text)) → Option (List (Option Text))
  string_then (string_value s) none = none
  string_then (string_value s) (some values) = some (s ∷ values)
  string_then v values = none

  -- the loop of blconf_channel_get_string_list
  unfoldable pub all_strings : Members F → Option (List (Option Text))
  all_strings nil = some []
  all_strings (cons v m) = string_then v (all_strings m)

  abbrev pub strings_from : Option (Members F) → Option (List (Option Text))
  strings_from none = none
  strings_from (some arr) = all_strings arr

  -- blconf_channel_get_string_list: the cells of `values` before the NULL at its end
  unfoldable pub get_string_list :
      Channel F → Text → Remote (Value F) → Option (List (Option Text)) × Channel F
  unfolding get_arrayv all_strings
  get_string_list ch property got =
      let (arr, ch') = get_arrayv ch property got in (strings_from arr, ch')

  module _ (equal : Value F → Value F → Bool) where
    -- blconf_channel_set_arrayv
    unfoldable pub set_arrayv : Channel F → Text → Members F → Remote (Value F) → Bool × Channel F
    set_arrayv ch property values got =
        set_internal equal ch property (array_value (or_old values (fixup_16bit_ints values))) got

    abbrev pub set_array_of :
        Channel F → Text → Option (Members F) → Remote (Value F) → Bool × Channel F
    set_array_of ch property none got = (false, ch)
    set_array_of ch property (some arr) got = set_arrayv ch property arr got

    -- blconf_channel_set_array_valist
    unfoldable pub set_array :
        Channel F → Text → List (Value F) → Remote (Value F) → Bool × Channel F
    unfolding members_of set_arrayv
    set_array ch property [] got = (false, ch)
    set_array ch property (v ∷ vs) got = set_array_of ch property (members_of (v ∷ vs)) got

    -- blconf_channel_set_string_list
    unfoldable pub set_string_list :
        Channel F → Text → List Text → Remote (Value F) → Bool × Channel F
    unfolding set_arrayv
    set_string_list ch property [] got = (false, ch)
    set_string_list ch property (s ∷ values) got =
        set_arrayv ch property (strings_of (s ∷ values)) got
