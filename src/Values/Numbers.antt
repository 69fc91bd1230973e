-- ===== src/Values/Numbers.antt =====
-- strtol, strtoul and their kin with base 0, as _blconf_gvalue_from_string of common/blconf-gvaluefuncs.c
-- calls them: space, a sign, a prefix that gives the base, and digits.
use blconf.Base.{
  ℕ, ◌+◌, ◌-◌, ◌*◌, Bool, true, false, ◌&&◌, ◌||◌, Option, none, some, [], ◌∷◌, Text, ltb, leb,
  ◌==◌, is_some, if◌then◌else◌, ℤ, pos, negsuc, neg,
}
use Prim.Native.Nat.{◌^◌, ◌%◌}

-- isspace
abbrev pub is_space : ℕ → Bool
is_space c = (c == 32) || (leb 9 c && leb c 13)

unfoldable pub skip_space : Text → Text
skip_space [] = []
skip_space (c ∷ s) = let rest = skip_space s in if is_space c then rest else c ∷ s

-- the value of a character as a digit, whatever the base
abbrev pub digit_of : ℕ → Option ℕ
digit_of c =
    if leb b'0' c && leb c b'9'
    then some (c - b'0')
    else if leb b'a' c && leb c b'z'
    then some (c - b'a' + 10)
    else if leb b'A' c && leb c b'Z'
    then some (c - b'A' + 10)
    else none

abbrev pub below : ℕ → Option ℕ → Option ℕ
below base none = none
below base (some d) = if ltb d base then some d else none

-- the digits from here on, `n` being the value of those before; the text behind them
unfoldable pub scan : ℕ → ℕ → Text → ℕ × Text
scan base n [] = (n, [])
scan base n (c ∷ s) = elim (below base (digit_of c)) [
  | none ↦ (n, c ∷ s)
  | some d ↦ scan base (n * base + d) s
]

-- The base, and the text from the first digit on. A "0x" that no digit follows is the number 0.
unfoldable pub hexadecimal : Text → Text → ℕ × Text
hexadecimal zero_on [] = (8, zero_on)
hexadecimal zero_on (d ∷ s) = if is_some (below 16 (digit_of d)) then (16, d ∷ s) else (8, zero_on)

unfoldable pub after_zero : Text → Text → ℕ × Text
unfolding hexadecimal
after_zero zero_on [] = (8, zero_on)
after_zero zero_on (x ∷ s) =
    if (x == b'x') || (x == b'X') then hexadecimal zero_on s else (8, zero_on)

unfoldable pub base_of : Text → ℕ × Text
unfolding after_zero
base_of [] = (10, [])
base_of (c ∷ s) = if c == b'0' then after_zero (c ∷ s) s else (10, c ∷ s)

unfoldable pub starts_with_digit : ℕ → Text → Bool
starts_with_digit base [] = false
starts_with_digit base (c ∷ s) = is_some (below base (digit_of c))

-- whether there is a '-', the number without the sign, and the text behind; `none` where there is no digit,
-- and then the end is the whole text
unfoldable pub magnitude : Bool → Text → Option (Bool × ℕ × Text)
unfolding base_of starts_with_digit scan
magnitude minus s =
    let (base, digits) = base_of s in
    if starts_with_digit base digits
    then (let (n, end) = scan base 0 digits in some (minus, n, end))
    else none

unfoldable pub signed : Text → Option (Bool × ℕ × Text)
unfolding magnitude
signed [] = none
signed (c ∷ s) =
    if c == b'-'
    then magnitude true s
    else if c == b'+'
    then magnitude false s
    else magnitude false (c ∷ s)

-- A number in `gint64 intval`, whether errno is ERANGE, and the text behind.
pub record Scanned (N : Type 0) : Type 0 where
  pub number : N
  pub erange : Bool
  pub end : Text

-- the limits of the type long, which is of 64 bits
unfoldable pub clamp_long : Bool → ℕ → ℤ × Bool
clamp_long true n = if ltb (2 ^ 63) n then (negsuc (2 ^ 63 - 1), true) else (neg n, false)
clamp_long false n = if ltb (2 ^ 63 - 1) n then (pos (2 ^ 63 - 1), true) else (pos n, false)

-- strtol and g_ascii_strtoll
unfoldable pub strtol : Text → Scanned ℤ
unfolding clamp_long skip_space signed
strtol str = elim (signed (skip_space str)) [
  | none ↦ record { number = pos 0; erange = false; end = str }
  | some found ↦
      let (number, erange) = clamp_long found.0 found.1 in
      record { number = number; erange = erange; end = found.2 }
]

-- a '-' before an unsigned number negates it modulo 2^64
unfoldable pub clamp_ulong : Bool → ℕ → ℕ × Bool
clamp_ulong minus n =
    if ltb (2 ^ 64 - 1) n
    then (2 ^ 64 - 1, true)
    else ((if minus then (2 ^ 64 - n) % 2 ^ 64 else n), false)

-- strtoul and g_ascii_strtoull
unfoldable pub strtoul : Text → Scanned ℕ
unfolding clamp_ulong skip_space signed
strtoul str = elim (signed (skip_space str)) [
  | none ↦ record { number = 0; erange = false; end = str }
  | some found ↦
      let (number, erange) = clamp_ulong found.0 found.1 in
      record { number = number; erange = erange; end = found.2 }
]

-- an unsigned long in the gint64 `intval`
abbrev pub to_int64 : ℕ → ℤ
to_int64 n = if leb n (2 ^ 63 - 1) then pos n else negsuc (2 ^ 64 - 1 - n)
