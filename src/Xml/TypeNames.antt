-- ===== src/Xml/TypeNames.antt =====
-- The names of types in channel files: `_blconf_string_from_gtype` and `_blconf_gtype_from_string` of
-- common/blconf-gvaluefuncs.c.
use blconf.Base.{◌≡◌, refl, Option, some, none, Text, subst}
use blconf.Xml.Types.{
  GType, invalid, empty, string, uchar, char, uint, int, uint64, int64, float, double, boolean,
  uint16, int16, array, gtype_from_string, string_from_gtype,
}

-- what `some s` holds
abbrev NamedAs : GType → Option Text → Type 0
NamedAs t none = Unit
NamedAs t (some s) = gtype_from_string s ≡ t

written : (t : GType) → NamedAs t (string_from_gtype t)
unfolding string_from_gtype gtype_from_string
written invalid = tt
written empty = tt
written string = refl
written uchar = refl
written char = refl
written uint = refl
written int = refl
written uint64 = refl
written int64 = refl
written float = refl
written double = refl
written boolean = refl
written uint16 = refl
written int16 = refl
written array = refl

-- The name that is written for a type is read back as that type, for every type that has a name.
pub gtype_from_string-string_from_gtype :
    (t : GType) (s : Text) → string_from_gtype t ≡ some s → gtype_from_string s ≡ t
gtype_from_string-string_from_gtype t s h = subst (NamedAs t) h (written t)
