-- ===== src/Values/Shorts.antt =====
-- The types int16 and uint16 of common/blconf-types.c: their accessors, and the functions that it registers
-- with GLib to transform values from them and to them.
pub mod Laws
use blconf.Base.{
  ℕ, ◌+◌, ◌-◌, Bool, true, false, not, ◌&&◌, ◌||◌, Option, none, some, [], ◌∷◌, Text, ltb, ◌==◌,
  if◌then◌else◌, codes, ℤ, pos, negsuc,
}
use Prim.Native.Nat.{◌^◌, ◌%◌}
use blconf.Xml.Types.{
  GType, invalid, empty, string, uchar, char, uint, int, uint64, int64, float, double, boolean,
  uint16, int16, array,
}
use blconf.Values.{
  Value, string_value, uchar_value, uint_value, uint64_value, uint16_value, char_value, int_value,
  int64_value, int16_value, float_value, double_value, boolean_value, array_value, type_of,
  get_uint16,
}
use blconf.Values.Print.{decimal, signed_decimal}

-- The number that a pattern of w bits stands for, where half is 2 ^ (w - 1), and the pattern of a number.
abbrev pub from_bits : ℕ → ℕ → ℤ
from_bits half n = if ltb n half then pos n else negsuc (half + half - 1 - n)

abbrev pub to_bits : ℕ → ℤ → ℕ
to_bits modulus (pos n) = n % modulus
to_bits modulus (negsuc n) = modulus - 1 - n % modulus

-- `==` on GTypes
abbrev pub index : GType → ℕ
index invalid = 0
index empty = 1
index string = 2
index uchar = 3
index char = 4
index uint = 5
index int = 6
index uint64 = 7
index int64 = 8
index float = 9
index double = 10
index boolean = 11
index uint16 = 12
index int16 = 13
index array = 14

abbrev pub same_type : GType → GType → Bool
same_type s t = index s == index t

abbrev pub is_short : GType → Bool
is_short t = same_type t uint16 || same_type t int16

-- `types` of register_transforms; the other types of the list are none that a property has
abbrev pub is_listed : GType → Bool
is_listed uint16 = false
is_listed int16 = false
is_listed array = false
is_listed empty = false
is_listed invalid = false
is_listed t = true

-- What GLib and the C library do of it: atoi, the conversions of floating numbers, 0.0, and
-- g_value_transform between the types that GLib has functions for.
pub record Conversions (F : Type 0) : Type 0 where
  pub atoi : Option Text → ℤ
  pub to_guint64 : F → ℕ
  pub of_guint16 : ℕ → F
  pub zero_float : F
  pub transform : Value F → GType → Option (Value F)

module _ {F : Type 0} where
  -- blconf_g_value_get_int16
  unfoldable pub get_int16 : Value F → ℤ
  get_int16 (int16_value i) = i
  get_int16 (uint16_value n) = pos 0
  get_int16 v = pos 0

  -- blconf_g_value_set_uint16 and blconf_g_value_set_int16: a message where the value has another type
  unfoldable pub set_uint16 : Value F → ℕ → Value F
  set_uint16 (uint16_value m) n = uint16_value n
  set_uint16 (int16_value i) n = int16_value i
  set_uint16 v n = v

  unfoldable pub set_int16 : Value F → ℤ → Value F
  set_int16 (int16_value j) i = int16_value i
  set_int16 (uint16_value n) i = uint16_value n
  set_int16 v i = v

module _ {F : Type 0} (conv : Conversions F) where
  -- `dest` of gvalue_from_short, a guint64; `none` is its return
  unfoldable pub source_number : Value F → Option ℕ
  source_number (string_value s) = some (to_bits (2 ^ 64) (conv.atoi s))
  source_number (boolean_value b) = some (if b then 1 else 0)
  source_number (char_value i) = some (to_bits (2 ^ 64) i)
  source_number (uchar_value n) = some n
  source_number (int_value i) = some (to_bits (2 ^ 64) i)
  source_number (uint_value n) = some n
  source_number (int64_value i) = some (to_bits (2 ^ 64) i)
  source_number (uint64_value n) = some n
  source_number (float_value x) = some (conv.to_guint64 x)
  source_number (double_value x) = some (conv.to_guint64 x)
  source_number (uint16_value n) = none
  source_number (int16_value i) = none
  source_number (array_value m) = none

  -- gvalue_from_short, given the destination and giving it after the call
  unfoldable pub gvalue_from_short : Value F → Value F → Value F
  unfolding source_number set_uint16 set_int16
  gvalue_from_short src dest = elim (source_number src) [
    | none ↦ dest
    | some n ↦
        if same_type (type_of dest) uint16
        then set_uint16 dest (n % 2 ^ 16)
        else if same_type (type_of dest) int16
        then set_int16 dest (from_bits (2 ^ 15) (n % 2 ^ 16))
        else dest
  ]

  -- `src` of short_from_gvalue, a guint16, and `is_signed`; `none` is its return
  unfoldable pub source_short : Value F → Option (Bool × ℕ)
  unfolding get_uint16 get_int16
  source_short (uint16_value n) = some (false, get_uint16 {F = F} (uint16_value n))
  source_short (int16_value i) = some (true, to_bits (2 ^ 16) (get_int16 {F = F} (int16_value i)))
  source_short v = none

  -- the setters of short_from_gvalue, each with the width of its argument
  unfoldable pub store_short : Bool → ℕ → Value F → Value F
  unfolding decimal signed_decimal
  store_short is_signed n (string_value s) =
      string_value (some (if is_signed then signed_decimal (from_bits (2 ^ 15) n) else decimal n))
  store_short is_signed n (boolean_value b) = boolean_value (not (n == 0))
  store_short is_signed n (char_value i) = char_value (from_bits (2 ^ 7) (n % 2 ^ 8))
  store_short is_signed n (uchar_value m) = uchar_value (n % 2 ^ 8)
  store_short is_signed n (int_value i) = int_value (pos n)
  store_short is_signed n (uint_value m) = uint_value n
  store_short is_signed n (int64_value i) = int64_value (pos n)
  store_short is_signed n (uint64_value m) = uint64_value n
  store_short is_signed n (float_value x) = float_value (conv.of_guint16 n)
  store_short is_signed n (double_value x) = double_value (conv.of_guint16 n)
  store_short is_signed n (uint16_value m) = uint16_value m
  store_short is_signed n (int16_value i) = int16_value i
  store_short is_signed n (array_value m) = array_value m

  -- short_from_gvalue
  unfoldable pub short_from_gvalue : Value F → Value F → Value F
  unfolding source_short store_short
  short_from_gvalue src dest = elim (source_short src) [
    | none ↦ dest
    | some (is_signed, n) ↦ store_short is_signed n dest
  ]

  -- `g_value_init`; for the two types ushort_value_init
  unfoldable pub initial : GType → Option (Value F)
  initial string = some (string_value none)
  initial uchar = some (uchar_value 0)
  initial char = some (char_value (pos 0))
  initial uint = some (uint_value 0)
  initial int = some (int_value (pos 0))
  initial uint64 = some (uint64_value 0)
  initial int64 = some (int64_value (pos 0))
  initial float = some (float_value conv.zero_float)
  initial double = some (double_value conv.zero_float)
  initial boolean = some (boolean_value false)
  initial uint16 = some (uint16_value 0)
  initial int16 = some (int16_value (pos 0))
  initial array = none
  initial empty = none
  initial invalid = none

  -- register_transforms for int16 and uint16: the function that GLib finds for two types
  unfoldable pub registered : GType → GType → Option (Value F → Value F → Value F)
  unfolding gvalue_from_short short_from_gvalue
  registered s t =
      if is_short s && is_listed t
      then some gvalue_from_short
      else if is_listed s && is_short t
      then some short_from_gvalue
      else none

  abbrev pub applied : Value F → (Value F → Value F → Value F) → Option (Value F) → Option (Value F)
  applied src f none = none
  applied src f (some dest) = some (f src dest)

  -- `g_value_transform` to a value of that type: a copy, a registered function on the initial value of
  -- the type, or what GLib has; `none` is FALSE
  unfoldable pub g_value_transform : Value F → GType → Option (Value F)
  unfolding registered initial
  g_value_transform src t =
      if same_type (type_of src) t then some src else elim (registered (type_of src) t) [
        | some f ↦ applied src f (initial t)
        | none ↦ if is_short (type_of src) || is_short t then none else conv.transform src t
      ]
