-- ===== src/Xml/Types.antt =====
-- The types that a property may have (common/blconf-gvaluefuncs.c), what the parser needs of values, and
-- the lists of users of blconfd/blconf-locking-utils.c.
use blconf.Base.{
  ℕ, Bool, true, false, Option, none, some, List, [], ◌∷◌, Text, str_eq, codes, ◌==◌, cons_head,
  if◌then◌else◌,
}

-- The GTypes that `_blconf_gtype_from_string` returns.
pub data GType : Type 0 where
  invalid empty string uchar char uint int uint64 int64 float double boolean uint16 int16 array :
      GType

-- _blconf_gtype_from_string
unfoldable pub gtype_from_string : Text → GType
gtype_from_string type =
    if str_eq type (codes "empty")
    then empty
    else if str_eq type (codes "string")
    then string
    else if str_eq type (codes "int")
    then int
    else if str_eq type (codes "double")
    then double
    else if str_eq type (codes "bool")
    then boolean
    else if str_eq type (codes "array")
    then array
    else if str_eq type (codes "uint")
    then uint
    else if str_eq type (codes "uchar")
    then uchar
    else if str_eq type (codes "char")
    then char
    else if str_eq type (codes "uint16")
    then uint16
    else if str_eq type (codes "int16")
    then int16
    else if str_eq type (codes "uint64")
    then uint64
    else if str_eq type (codes "int64")
    then int64
    else if str_eq type (codes "float")
    then float
    else invalid

-- _blconf_string_from_gtype; `none` is NULL
unfoldable pub string_from_gtype : GType → Option Text
string_from_gtype string = some (codes "string")
string_from_gtype uchar = some (codes "uchar")
string_from_gtype char = some (codes "char")
string_from_gtype uint = some (codes "uint")
string_from_gtype int = some (codes "int")
string_from_gtype uint64 = some (codes "uint64")
string_from_gtype int64 = some (codes "int64")
string_from_gtype float = some (codes "float")
string_from_gtype double = some (codes "double")
string_from_gtype boolean = some (codes "bool")
string_from_gtype uint16 = some (codes "uint16")
string_from_gtype int16 = some (codes "int16")
string_from_gtype array = some (codes "array")
string_from_gtype empty = none
string_from_gtype invalid = none

-- What the parser does with values: `g_value_init` gives a type's initial value,
-- `_blconf_gvalue_from_string` reads one (a missing attribute is NULL), and `g_ptr_array_add` adds a
-- member to an array.
pub record ValueOps {ℓ} (V : Type ℓ) : Type ℓ where
  pub initial : GType → V
  pub from_string : GType → Option Text → Option V
  pub array_add : V → V → V

-- `g_strsplit(s, sep, -1)`, with one empty piece for the empty text, which the loop below skips
split_on : ℕ → Text → List Text
split_on sep [] = [] ∷ []
split_on sep (c ∷ s) = let rest = split_on sep s in if c == sep then [] ∷ rest else cons_head c rest

contains : Text → List Text → Bool
contains user [] = false
contains user (x ∷ xs) = if str_eq x user then true else contains user xs

-- Who runs the daemon, and the members of each group of /etc/group.
pub record Users : Type 0 where
  pub user_name : Text
  pub members : Text → Option (List Text)

-- blconf_user_is_in_group
unfoldable pub user_is_in_group : Users → Text → Bool
unfolding contains
user_is_in_group u group = elim (u.members group) [
  | none ↦ false
  | some names ↦ contains u.user_name names
]

token_matches : Users → Text → Bool
unfolding user_is_in_group
token_matches u [] = false
token_matches u (c ∷ t) = if c == b'@' then user_is_in_group u t else str_eq u.user_name (c ∷ t)

any_token : Users → List Text → Bool
unfolding token_matches
any_token u [] = false
any_token u (t ∷ ts) = if token_matches u t then true else any_token u ts

-- blconf_user_is_in_list
unfoldable pub user_is_in_list : Users → Text → Bool
unfolding split_on any_token
user_is_in_list u list = any_token u (split_on b';' list)
