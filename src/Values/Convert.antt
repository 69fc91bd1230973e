-- ===== src/Values/Convert.antt =====
-- _blconf_gvalue_from_string and _blconf_string_from_gvalue of common/blconf-gvaluefuncs.c.
use blconf.Base.{
  ℕ, Bool, true, false, not, ◌&&◌, ◌||◌, Option, none, some, [], ◌∷◌, Text, codes, str_eq,
  if◌then◌else◌, ℤ, pos, negsuc, eq_int, in_range, ◌==◌,
}
use Prim.Native.Nat.{◌^◌, ◌-◌}
use blconf.Xml.Types.{
  GType, invalid, empty, string, uchar, char, uint, int, uint64, int64, float, double, boolean,
  uint16, int16, array,
}
use blconf.Values.{
  Floats, Value, string_value, uchar_value, uint_value, uint64_value, uint16_value, char_value,
  int_value, int64_value, int16_value, float_value, double_value, boolean_value, array_value, nil,
}
use blconf.Values.Numbers.{Scanned, strtol, strtoul, to_int64}
use blconf.Values.Print.{decimal, signed_decimal}

-- `*str == 0 || *endptr != 0`
abbrev pub is_nil : Text → Bool
is_nil [] = true
is_nil (c ∷ s) = false

abbrev pub unconverted : Text → Text → Bool
unconverted str end = is_nil str || not (is_nil end)

-- REAL_HANDLE_INT with the limits -low and high, once `intval` is there
unfoldable pub handle_int : ℕ → ℕ → Text → Scanned ℤ → Option ℤ
handle_int low high str got =
    if eq_int got.number (pos 0) && got.erange
    then none
    else if unconverted str got.end
    then none
    else if not (in_range low high got.number)
    then none
    else some got.number

-- a gint64 as an unsigned number of at least as many bits as its value has
abbrev pub to_nat : ℤ → ℕ
to_nat (pos n) = n
to_nat (negsuc n) = 2 ^ 64 - 1 - n

abbrev pub map_option : {A B : Type 0} → (A → B) → Option A → Option B
map_option f none = none
map_option f (some a) = some (f a)

-- strtoul, its result stored in `gint64 intval`
abbrev pub as_intval : Scanned ℕ → Scanned ℤ
as_intval got = record { number = to_int64 got.number; erange = got.erange; end = got.end }

module _ {F : Type 0} (floats : Floats F) where
  -- HANDLE_INT and HANDLE_UINT
  unfoldable pub handle_signed : (ℤ → Value F) → ℕ → ℕ → Text → Option (Value F)
  unfolding handle_int strtol
  handle_signed make low high str = map_option make (handle_int low high str (strtol str))

  unfoldable pub handle_unsigned : (ℕ → Value F) → ℕ → Text → Option (Value F)
  unfolding handle_int strtoul
  handle_unsigned make high str =
      map_option (λ i. make (to_nat i)) (handle_int 0 high str (as_intval (strtoul str)))

  unfoldable pub handle_uint64 : Text → Scanned ℕ → Option (Value F)
  handle_uint64 str got =
      if (got.number == 0) && got.erange
      then none
      else if unconverted str got.end
      then none
      else some (uint64_value got.number)

  unfoldable pub handle_int64 : Text → Scanned ℤ → Option (Value F)
  handle_int64 str got =
      if eq_int got.number (pos 0) && got.erange
      then none
      else if unconverted str got.end
      then none
      else some (int64_value got.number)

  unfoldable pub handle_float : Text → F × Bool × Text → Option (Value F)
  handle_float str (x, erange, end) =
      if floats.is_zero x && erange
      then none
      else if unconverted str end
      then none
      else if floats.below_minfloat x || floats.above_maxfloat x
      then none
      else some (float_value (floats.narrow x))

  unfoldable pub handle_double : Text → F × Bool × Text → Option (Value F)
  handle_double str (x, erange, end) =
      if floats.is_zero x && erange
      then none
      else if unconverted str end
      then none
      else some (double_value x)

  unfoldable pub handle_boolean : Text → Option (Value F)
  handle_boolean str =
      if str_eq str (codes "true")
      then some (boolean_value true)
      else if str_eq str (codes "false")
      then some (boolean_value false)
      else none

  -- _blconf_gvalue_from_string on a text; uint16 is read with strtol, not strtoul
  unfoldable pub from_string : GType → Text → Option (Value F)
  unfolding handle_signed handle_unsigned handle_uint64 handle_int64 handle_float handle_double
      handle_boolean strtol strtoul
  from_string string str = some (string_value (some str))
  from_string uchar str = handle_unsigned uchar_value 255 str
  from_string char str = handle_signed char_value 128 127 str
  from_string uint str = handle_unsigned uint_value (2 ^ 32 - 1) str
  from_string int str = handle_signed int_value (2 ^ 31) (2 ^ 31 - 1) str
  from_string uint64 str = handle_uint64 str (strtoul str)
  from_string int64 str = handle_int64 str (strtol str)
  from_string float str = handle_float str (floats.strtod str)
  from_string double str = handle_double str (floats.strtod str)
  from_string boolean str = handle_boolean str
  from_string uint16 str = handle_signed (λ i. uint16_value (to_nat i)) 0 (2 ^ 16 - 1) str
  from_string int16 str = handle_signed int16_value (2 ^ 15) (2 ^ 15 - 1) str
  from_string array str = some (array_value nil)
  from_string empty str = none
  from_string invalid str = none

  -- _blconf_string_from_gvalue; `none` is NULL
  unfoldable pub to_string : Value F → Option Text
  unfolding decimal signed_decimal
  to_string (string_value s) = s
  to_string (uchar_value n) = some (decimal n)
  to_string (char_value i) = some (signed_decimal i)
  to_string (uint_value n) = some (decimal n)
  to_string (int_value i) = some (signed_decimal i)
  to_string (uint64_value n) = some (decimal n)
  to_string (int64_value i) = some (signed_decimal i)
  to_string (float_value x) = some (floats.print x)
  to_string (double_value x) = some (floats.print x)
  to_string (boolean_value b) = some (if b then codes "true" else codes "false")
  to_string (uint16_value n) = some (decimal n)
  to_string (int16_value i) = some (signed_decimal i)
  to_string (array_value m) = none
