-- ===== src/Values/RoundTrip.antt =====
-- _blconf_gvalue_from_string after _blconf_string_from_gvalue, of common/blconf-gvaluefuncs.c.
use blconf.Base.{
  ℕ, suc, ◌-◌, ◌≤◌, ◌<◌, ◌≡◌, ◌≢◌, refl, true, false, Option, none, some, [], ◌∷◌, Text, arith, leb,
  ltb, ℤ, pos, negsuc,
}
use Prim.Native.Nat.{◌^◌}
use blconf.Values.{
  Floats, Value, string_value, uchar_value, uint_value, uint64_value, uint16_value, char_value,
  int_value, int64_value, int16_value, float_value, double_value, boolean_value, array_value,
  type_of,
}
use blconf.Values.Numbers.{strtol, strtoul}
use blconf.Values.Print.{decimal, signed_decimal}
use blconf.Values.Convert.{
  unconverted, handle_int, handle_signed, handle_unsigned, handle_uint64, handle_int64, to_nat,
  from_string, to_string, handle_boolean,
}
use blconf.Values.ReadBack.{strtol-decimal, strtol-minus, strtoul-decimal, decimal-ne-nil}

-- The numbers that a C type of that width holds.
abbrev pub FitsIn : ℕ → ℤ → Type 0
FitsIn half (pos n) = n < half
FitsIn half (negsuc n) = n < half

whole : (s : Text) → s ≢ [] → unconverted s [] ≡ false
whole [] ne = absurd (ne refl)
whole (c ∷ s) ne = refl

handle_int-pos :
    (low high n : ℕ) (s : Text)
    → n ≤ high
    → s ≢ []
    → handle_int low high s (record { number = pos n; erange = false; end = [] }) ≡ some (pos n)
unfolding handle_int
handle_int-pos low high n s h ne =
    let in_order : leb n high ≡ true = ground (arith, h) in ground (arith, whole s ne, in_order)

handle_int-negsuc :
    (low high n : ℕ) (s : Text)
    → n < low
    → s ≢ []
    → handle_int low high s (record { number = negsuc n; erange = false; end = [] })
      ≡ some (negsuc n)
unfolding handle_int
handle_int-negsuc low high n s h ne =
    let in_order : ltb n low ≡ true = ground (arith, h) in ground (arith, whole s ne, in_order)

module _ {F : Type 0} (floats : Floats F) where
  signed-pos :
      (make : ℤ → Value F) (low high n : ℕ)
      → n ≤ high
      → high < 2 ^ 63
      → handle_signed floats make low high (decimal n) ≡ some (make (pos n))
  unfolding handle_signed
  signed-pos make low high n h small =
      rw
        (
          handle_signed,
          strtol-decimal n (omega arith),
          handle_int-pos low high n (decimal n) h (decimal-ne-nil n),
        )
        refl

  signed-negsuc :
      (make : ℤ → Value F) (low high n : ℕ)
      → n < low
      → low ≤ 2 ^ 63
      → handle_signed floats make low high (b'-' ∷ decimal (suc n)) ≡ some (make (negsuc n))
  unfolding handle_signed
  signed-negsuc make low high n h small =
      rw
        (
          handle_signed,
          strtol-minus n (omega arith),
          handle_int-negsuc low high n (b'-' ∷ decimal (suc n)) h (λ e. cc),
        )
        refl

  signed-decimal :
      (make : ℤ → Value F) (high : ℕ) (i : ℤ)
      → FitsIn (suc high) i
      → high < 2 ^ 63
      → handle_signed floats make (suc high) high (signed_decimal i) ≡ some (make i)
  unfolding signed_decimal
  signed-decimal make high (pos n) h small = signed-pos make (suc high) high n (omega arith) small
  signed-decimal make high (negsuc n) h small = signed-negsuc make (suc high) high n h (omega arith)

  unsigned-decimal :
      (make : ℕ → Value F) (high n : ℕ)
      → n ≤ high
      → high < 2 ^ 63
      → handle_unsigned floats make high (decimal n) ≡ some (make n)
  unfolding handle_unsigned
  unsigned-decimal make high n h small =
      let fits : leb n (2 ^ 63 - 1) ≡ true = ground (arith, h, small) in
      rw
        (
          handle_unsigned,
          strtoul-decimal n (omega arith),
          fits,
          handle_int-pos 0 high n (decimal n) h (decimal-ne-nil n),
        )
        refl

  uint64-decimal :
      (n : ℕ)
      → n < 2 ^ 64
      → handle_uint64 floats (decimal n) (strtoul (decimal n)) ≡ some (uint64_value n)
  unfolding handle_uint64
  uint64-decimal n h =
      rw (strtoul-decimal n h) (ground (arith, whole (decimal n) (decimal-ne-nil n)))

  int64-decimal :
      (i : ℤ)
      → FitsIn (2 ^ 63) i
      → handle_int64 floats (signed_decimal i) (strtol (signed_decimal i)) ≡ some (int64_value i)
  unfolding handle_int64 signed_decimal
  int64-decimal (pos n) h =
      rw (strtol-decimal n h) (ground (arith, whole (decimal n) (decimal-ne-nil n)))
  int64-decimal (negsuc n) h = rw (strtol-minus n h) (ground arith)

  -- The values that a text is read back from: numbers in the range of their type, texts and Booleans.
  abbrev pub IsReadable : Value F → Type 0
  IsReadable (string_value none) = ⊥
  IsReadable (string_value (some s)) = Unit
  IsReadable (uchar_value n) = n < 256
  IsReadable (uint_value n) = n < 2 ^ 32
  IsReadable (uint64_value n) = n < 2 ^ 64
  IsReadable (uint16_value n) = n < 2 ^ 16
  IsReadable (char_value i) = FitsIn 128 i
  IsReadable (int_value i) = FitsIn (2 ^ 31) i
  IsReadable (int64_value i) = FitsIn (2 ^ 63) i
  IsReadable (int16_value i) = FitsIn (2 ^ 15) i
  IsReadable (float_value x) = ⊥
  IsReadable (double_value x) = ⊥
  IsReadable (boolean_value b) = Unit
  IsReadable (array_value m) = ⊥

  -- Reading the text `s` as a value of the type of `v` gives `v`.
  abbrev Reads : Value F → Option Text → Type 0
  Reads v none = ⊥
  Reads v (some s) = from_string floats (type_of v) s ≡ some v

  read_back : (v : Value F) → IsReadable v → Reads v (to_string floats v)
  unfolding from_string to_string
  read_back (string_value none) h = absurd h
  read_back (string_value (some s)) h = refl
  read_back (uchar_value n) h =
      unsigned-decimal (λ m. uchar_value m) 255 n (omega arith) (omega arith)
  read_back (uint_value n) h =
      unsigned-decimal (λ m. uint_value m) (2 ^ 32 - 1) n (omega arith) (omega arith)
  read_back (uint64_value n) h = uint64-decimal n h
  read_back (uint16_value n) h =
      signed-pos (λ i. uint16_value (to_nat i)) 0 (2 ^ 16 - 1) n (omega arith) (omega arith)
  read_back (char_value i) h = signed-decimal (λ m. char_value m) 127 i h (omega arith)
  read_back (int_value i) h = signed-decimal (λ m. int_value m) (2 ^ 31 - 1) i h (omega arith)
  read_back (int64_value i) h = int64-decimal i h
  read_back (int16_value i) h = signed-decimal (λ m. int16_value m) (2 ^ 15 - 1) i h (omega arith)
  read_back (float_value x) h = absurd h
  read_back (double_value x) h = absurd h
  read_back (boolean_value true) h = unfold handle_boolean in refl
  read_back (boolean_value false) h = unfold handle_boolean in refl
  read_back (array_value m) h = absurd h

  printed :
      (v : Value F) (s : Option Text)
      → to_string floats v ≡ s
      → Reads v s
      → (t : Text) × (to_string floats v ≡ some t) × (from_string floats (type_of v) t ≡ some v)
  printed v none e h = absurd h
  printed v (some s) e h = (s, e, h)

  -- A value in the range of its type, other than a float, a double, an array and a NULL string,
  -- is printed as a text, and reading this text as a value of its type gives the value again.
  pub from_string-to_string :
      (v : Value F)
      → IsReadable v
      → (s : Text) × (to_string floats v ≡ some s) × (from_string floats (type_of v) s ≡ some v)
  from_string-to_string v h = printed v (to_string floats v) refl (read_back v h)
