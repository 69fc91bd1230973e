-- ===== src/Values.antt =====
-- The values of properties: the GValues that common/blconf-gvaluefuncs.c handles, and the accessors of
-- common/blconf-types.c.
pub mod Numbers
pub mod Print
pub mod Convert
pub mod Equal
pub mod ReadBack
pub mod RoundTrip
pub mod Shorts
use blconf.Base.{ℕ, Bool, true, false, Option, none, some, Text, ℤ, pos, negsuc}
use blconf.Xml.Types.{
  GType, invalid, empty, string, uchar, char, uint, int, uint64, int64, float, double, boolean,
  uint16, int16, array,
}

-- What the code asks of floating numbers: `g_ascii_strtod` (the number, whether errno is ERANGE, and the
-- text behind it), its tests, the conversion to gfloat and back, `==`, and "%f".
pub record Floats (F : Type 0) : Type 0 where
  pub strtod : Text → F × Bool × Text
  pub is_zero : F → Bool
  pub below_minfloat : F → Bool
  pub above_maxfloat : F → Bool
  pub narrow : F → F
  pub same : F → F → Bool
  pub print : F → Text

-- A GValue. The string may be NULL; an array is a GPtrArray of GValues.
mutual
  pub data Value (F : Type 0) : Type 0 where
    string_value : Option Text → Value F
    uchar_value uint_value uint64_value uint16_value : ℕ → Value F
    char_value int_value int64_value int16_value : ℤ → Value F
    float_value double_value : F → Value F
    boolean_value : Bool → Value F
    array_value : Members F → Value F

  pub data Members (F : Type 0) : Type 0 where
    nil : Members F
    cons : Value F → Members F → Members F

module _ {F : Type 0} where
  -- G_VALUE_TYPE
  abbrev pub type_of : Value F → GType
  type_of (string_value s) = string
  type_of (uchar_value n) = uchar
  type_of (char_value i) = char
  type_of (uint_value n) = uint
  type_of (int_value i) = int
  type_of (uint64_value n) = uint64
  type_of (int64_value i) = int64
  type_of (float_value x) = float
  type_of (double_value x) = double
  type_of (boolean_value b) = boolean
  type_of (uint16_value n) = uint16
  type_of (int16_value i) = int16
  type_of (array_value m) = array

  -- blconf_g_value_get_uint16: 0, and a message, where the value has another type
  unfoldable pub get_uint16 : Value F → ℕ
  get_uint16 (uint16_value n) = n
  get_uint16 (int16_value i) = 0
  get_uint16 v = 0

  -- g_value_get_uchar, in the same way
  unfoldable pub get_uchar : Value F → ℕ
  get_uchar (uchar_value n) = n
  get_uchar (char_value i) = 0
  get_uchar v = 0
