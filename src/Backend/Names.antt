-- ===== src/Backend/Names.antt =====
-- blconfd/blconf-backend.c: which property and channel names are accepted.
pub mod Spec
use blconf.Base.{
  ℕ, ◌≡◌, Bool, true, false, not, ◌&&◌, ◌||◌, List, [], ◌∷◌, Text, slash, leb, ◌==◌, if◌then◌else◌,
}
use blconf.Backend.Error.{
  Result, ok, err, Error, invalid_property, invalid_channel, no_slash, is_root, bad_char,
  double_slash, end_slash,
}

-- The characters that both kinds of name may hold. A `gchar` of 128 or more is negative in C, and
-- a byte of 128 or more here: neither is in the ranges.
pub is_common : ℕ → Bool
is_common c =
    (leb b'A' c && leb c b'Z')
    || ((leb b'a' c && leb c b'z')
        || ((leb b'0' c && leb c b'9')
            || (c == b'_'
                || (c == b'-'
                    || (c == b'{'
                        || (c == b'}'
                            || (c == b'|'
                                || (c == b','
                                    || (c == b'['
                                        || (c == b']' || (c == b'.' || c == b':')))))))))))

pub is_property_char : ℕ → Bool
unfolding is_common
is_property_char c = is_common c || (c == slash || (c == b'<' || c == b'>'))

-- The loop over the rest of the name, `prev` being `*(p-1)`.
pub check_property : ℕ → Text → Result (Unit {0})
unfolding is_property_char
check_property prev [] = if prev == slash then err (invalid_property end_slash) else ok tt
check_property prev (c ∷ s) =
    let rest = check_property c s in
    if not (is_property_char c)
    then err (invalid_property bad_char)
    else if c == slash && prev == slash
    then err (invalid_property double_slash)
    else rest

check_after_slash : Text → Result (Unit {0})
unfolding check_property
check_after_slash [] = err (invalid_property is_root)
check_after_slash (c ∷ s) = check_property slash (c ∷ s)

unfoldable pub property_is_valid : Text → Result (Unit {0})
unfolding check_after_slash
property_is_valid [] = err (invalid_property no_slash)
property_is_valid (c ∷ s) =
    if c == slash then check_after_slash s else err (invalid_property no_slash)

check_channel : Text → Result (Unit {0})
unfolding is_common
check_channel [] = ok tt
check_channel (c ∷ s) =
    let rest = check_channel s in if is_common c then rest else err invalid_channel

unfoldable pub channel_is_valid : Text → Result (Unit {0})
unfolding check_channel
channel_is_valid [] = err invalid_channel
channel_is_valid (c ∷ s) = check_channel (c ∷ s)
