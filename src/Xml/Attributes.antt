-- ===== src/Xml/Attributes.antt =====
-- The loops over the attributes of an element in blconf_xml_handle_channel, blconf_xml_handle_property
-- and blconf_xml_handle_value of blconfd/blconf-backend-perchannel-xml.c.
use blconf.Base.{
  Bool, true, false, not, Option, none, some, List, [], ◌∷◌, Text, str_eq, codes, if◌then◌else◌,
  ◌==◌,
}
use blconf.Xml.Types.{Users, user_is_in_list}

abbrev pub Attributes : Type 0
Attributes = List (Text × Text)

pub record ChannelAttrs : Type 0 where
  pub name : Option Text
  pub version : Option Text
  pub locked : Option Text
  pub unlocked : Option Text

-- `none` is an unknown attribute.
put_channel : Text → Text → ChannelAttrs → Option ChannelAttrs
put_channel n v a =
    if str_eq n (codes "name")
    then some (record a { name = some v })
    else if str_eq n (codes "version")
    then some (record a { version = some v })
    else if str_eq n (codes "locked")
    then some (record a { locked = some v })
    else if str_eq n (codes "unlocked")
    then some (record a { unlocked = some v })
    else none

unfoldable pub channel_attrs : Attributes → ChannelAttrs → Option ChannelAttrs
unfolding put_channel
channel_attrs [] a = some a
channel_attrs ((n, v) ∷ rest) a = elim (put_channel n v a) [
  | none ↦ none
  | some a' ↦ channel_attrs rest a'
]

pub record PropertyAttrs : Type 0 where
  pub name : Option Text
  pub type : Option Text
  pub value : Option Text
  pub locked : Option Text
  pub unlocked : Option Text

put_property : Text → Text → PropertyAttrs → Option PropertyAttrs
put_property n v a =
    if str_eq n (codes "name")
    then some (record a { name = some v })
    else if str_eq n (codes "type")
    then some (record a { type = some v })
    else if str_eq n (codes "value")
    then some (record a { value = some v })
    else if str_eq n (codes "locked")
    then some (record a { locked = some v })
    else if str_eq n (codes "unlocked")
    then some (record a { unlocked = some v })
    else none

unfoldable pub property_attrs : Attributes → PropertyAttrs → Option PropertyAttrs
unfolding put_property
property_attrs [] a = some a
property_attrs ((n, v) ∷ rest) a = elim (put_property n v a) [
  | none ↦ none
  | some a' ↦ property_attrs rest a'
]

pub record ValueAttrs : Type 0 where
  pub type : Option Text
  pub value : Option Text

put_value : Text → Text → ValueAttrs → Option ValueAttrs
put_value n v a =
    if str_eq n (codes "type")
    then some (record a { type = some v })
    else if str_eq n (codes "value")
    then some (record a { value = some v })
    else none

unfoldable pub value_attrs : Attributes → ValueAttrs → Option ValueAttrs
unfolding put_value
value_attrs [] a = some a
value_attrs ((n, v) ∷ rest) a = elim (put_value n v a) [
  | none ↦ none
  | some a' ↦ value_attrs rest a'
]

abbrev pub no_channel_attrs : ChannelAttrs
no_channel_attrs = record { name = none; version = none; locked = none; unlocked = none }

abbrev pub no_property_attrs : PropertyAttrs
no_property_attrs = record {
  name = none;
  type = none;
  value = none;
  locked = none;
  unlocked = none;
}

abbrev pub no_value_attrs : ValueAttrs
no_value_attrs = record { type = none; value = none }

-- `s && *s`
abbrev pub is_given : Option Text → Bool
is_given none = false
is_given (some []) = false
is_given (some (c ∷ s)) = true

abbrev pub text_of : Option Text → Text
text_of none = []
text_of (some s) = s

-- The lock that the attributes `locked` and `unlocked` ask for: `unlocked` comes first.
unfoldable pub lock_state : Users → Option Text → Option Text → Bool
lock_state u locked unlocked =
    if is_given unlocked
    then not (user_is_in_list u (text_of unlocked))
    else if is_given locked
    then user_is_in_list u (text_of locked)
    else false

-- the version up to the first '.'
major_of : Text → Text
major_of [] = []
major_of (c ∷ s) = let rest = major_of s in if c == b'.' then [] else c ∷ rest

-- FILE_VERSION_MAJOR
unfoldable pub version_fits : Text → Bool
unfolding major_of
version_fits version = str_eq (major_of version) (codes "1")
