-- ===== src/Writer/Format.antt =====
-- blconf_format_xml_tag of blconfd/blconf-backend-perchannel-xml.c.
use blconf.Base.{
  Bool, true, false, Option, none, some, [], ◌++◌, Text, codes, String, if◌then◌else◌,
}
use blconf.Values.{
  Floats, Value, string_value, uchar_value, uint_value, uint64_value, uint16_value, char_value,
  int_value, int64_value, int16_value, float_value, double_value, boolean_value, array_value,
  Members, nil, cons, get_uchar,
}
use blconf.Values.Print.{decimal, signed_decimal}

-- What "%s" prints of the result of `g_markup_escape_text` on a text, or on NULL.
pub record Markup : Type 0 where
  pub escape : Option Text → Text

abbrev attributes : String → Text → Text
attributes type value = codes " type=\"" ++ codes type ++ codes "\" value=\"" ++ value ++ codes "\""

module _ {F : Type 0} (floats : Floats F) (markup : Markup) where
  -- the cases of the fundamental types; `none` is the default case
  unfoldable pub format_fundamental : Value F → Option Text
  unfolding decimal signed_decimal get_uchar
  format_fundamental (string_value s) = some (attributes "string" (markup.escape s))
  format_fundamental (uchar_value n) = some (attributes "uchar" (decimal n))
  format_fundamental (char_value i) =
      let value : Value F = char_value i in some (attributes "char" (decimal (get_uchar value)))
  format_fundamental (uint_value n) = some (attributes "uint" (decimal n))
  format_fundamental (int_value i) = some (attributes "int" (signed_decimal i))
  format_fundamental (uint64_value n) = some (attributes "uint64" (decimal n))
  format_fundamental (int64_value i) = some (attributes "int64" (signed_decimal i))
  format_fundamental (float_value x) = some (attributes "float" (floats.print x))
  format_fundamental (double_value x) = some (attributes "double" (floats.print x))
  format_fundamental (boolean_value b) =
      some (attributes "bool" (if b then codes "true" else codes "false"))
  format_fundamental (uint16_value n) = none
  format_fundamental (int16_value i) = none
  format_fundamental (array_value m) = none

  -- the loop over an array; the recursive calls have `is_array_value` set, and the default case is FALSE
  unfoldable pub format_members : Text → Members F → Option Text
  unfolding format_fundamental
  format_members spaces nil = some []
  format_members spaces (cons value rest) =
      let others = format_members spaces rest in
      elim (format_fundamental value) [
        | none ↦ none
        | some tag ↦ elim others [
          | none ↦ none
          | some lines ↦ some (spaces ++ codes "  <value" ++ tag ++ codes "/>\n" ++ lines)
        ]
      ]

  -- blconf_format_xml_tag on the value of a property: the text, whether it is an array, and the value
  -- after the call; `none` is FALSE. A value of any other type is unset, and its tag is a branch's.
  unfoldable pub format_xml_tag : Text → Option (Value F) → Option (Text × Bool × Option (Value F))
  unfolding format_fundamental format_members
  format_xml_tag spaces none = some (codes " type=\"empty\"", false, none)
  format_xml_tag spaces (some (array_value m)) = elim (format_members spaces m) [
    | none ↦ none
    | some lines ↦ some (codes " type=\"array\">\n" ++ lines, true, some (array_value m))
  ]
  format_xml_tag spaces (some value) = elim (format_fundamental value) [
    | none ↦ some (codes " type=\"empty\"", false, none)
    | some tag ↦ some (tag, false, some value)
  ]
