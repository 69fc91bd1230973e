-- ===== src/Values/Shorts/Laws.antt =====
-- The transformations of common/blconf-types.c.
use blconf.Base.{
  ℕ, ◌≡◌, refl, ap, Bool, true, false, Bool-cases, inl, inr, Option, none, some, ◌<◌, ◌==◌, ◌&&◌,
  ◌||◌, arith, ℤ, pos, negsuc,
}
use Prim.Native.Nat.{◌^◌, ◌%◌, ◌-◌}
use blconf.Xml.Types.{GType, uint, int, uint64, int64, uint16, int16}
use blconf.Values.{
  Value, uint_value, uint64_value, uint16_value, int_value, int64_value, int16_value, type_of,
  get_uint16,
}
use blconf.Values.Shorts.{
  Conversions, from_bits, to_bits, index, same_type, is_short, is_listed, get_int16, set_uint16,
  set_int16, source_number, gvalue_from_short, source_short, store_short, short_from_gvalue,
  initial, registered, applied, g_value_transform,
}

-- The pairs of types that a function is registered for.
abbrev pub is_registered : GType → GType → Bool
is_registered s t = (is_short s && is_listed t) || (is_listed s && is_short t)

listed-index : (t : GType) → is_listed t ≡ true → (index t == 12 ≡ false) × (index t == 13 ≡ false)
listed-index uint16 l = cc l
listed-index int16 l = cc l
listed-index t l = (refl, refl)

registered-different : (s t : GType) → is_registered s t ≡ true → same_type s t ≡ false
registered-different s t r = ground (arith, r, listed-index s, listed-index t)

abbrev pub IsInt16 : ℤ → Type 0
IsInt16 (pos n) = n < 2 ^ 15
IsInt16 (negsuc n) = n < 2 ^ 15

pub from-to : (i : ℤ) → IsInt16 i → from_bits (2 ^ 15) (to_bits (2 ^ 16) i % 2 ^ 16) ≡ i
from-to (pos n) h = ground (arith, h)
from-to (negsuc n) h = ground (arith, h)

module _ {F : Type 0} (conv : Conversions F) where
  -- at the first switch of each function
  listed-source_short : (v : Value F) → is_listed (type_of v) ≡ true → source_short conv v ≡ none
  unfolding source_short
  listed-source_short (uint16_value n) l = cc l
  listed-source_short (int16_value i) l = cc l
  listed-source_short v l = refl

  short-source_number : (v : Value F) → is_short (type_of v) ≡ true → source_number conv v ≡ none
  unfolding source_number
  short-source_number (uint16_value n) s = refl
  short-source_number (int16_value i) s = refl
  short-source_number v s = absurd (cc s)

  from-kept :
      (v dest : Value F) → is_short (type_of v) ≡ true → gvalue_from_short conv v dest ≡ dest
  unfolding gvalue_from_short
  from-kept v dest s = rw (gvalue_from_short, short-source_number v s) refl

  to-kept : (v dest : Value F) → is_listed (type_of v) ≡ true → short_from_gvalue conv v dest ≡ dest
  unfolding short_from_gvalue
  to-kept v dest l = rw (short_from_gvalue, listed-source_short v l) refl

  applied-kept :
      (v : Value F) (f : Value F → Value F → Value F) (o : Option (Value F))
      → ((dest : Value F) → f v dest ≡ dest)
      → applied conv v f o ≡ o
  applied-kept v f none h = refl
  applied-kept v f (some dest) h = ap (λ x. some x) (h dest)

  registered-from :
      (s t : GType)
      → is_short s && is_listed t ≡ true
      → registered conv s t ≡ some (gvalue_from_short conv)
  unfolding registered
  registered-from s t h = rw h refl

  registered-to :
      (s t : GType)
      → is_short s && is_listed t ≡ false
      → is_listed s && is_short t ≡ true
      → registered conv s t ≡ some (short_from_gvalue conv)
  unfolding registered
  registered-to s t h k = rw (h, k) refl

  -- The two functions are registered the wrong way round, so each returns at its first switch: a value that is
  -- transformed from int16 or uint16 to another type, or to one of them, becomes the initial
  -- value of the type, and TRUE is the answer.
  pub transform-registered :
      (v : Value F) (t : GType)
      → is_registered (type_of v) t ≡ true
      → g_value_transform conv v t ≡ initial conv t
  unfolding g_value_transform
  transform-registered v t r =
      let off = registered-different (type_of v) t r in
      elim (Bool-cases (is_short (type_of v) && is_listed t)) [
        | inl h ↦
            let short : is_short (type_of v) ≡ true = ground (arith, h) in
            rw (off, registered-from (type_of v) t h)
              (applied-kept v (gvalue_from_short conv) (initial conv t)
                (λ dest. from-kept v dest short))
        | inr h ↦
            let k : is_listed (type_of v) && is_short t ≡ true = ground (arith, h, r) in
            let listed : is_listed (type_of v) ≡ true = ground (arith, k) in
            rw (off, registered-to (type_of v) t h k)
              (applied-kept v (short_from_gvalue conv) (initial conv t)
                (λ dest. to-kept v dest listed))
      ]

  -- The numbers that the two types hold.
  abbrev pub IsShortNumber : Value F → Type 0
  IsShortNumber (uint16_value n) = n < 2 ^ 16
  IsShortNumber (int16_value i) = IsInt16 i
  IsShortNumber v = ⊥

  abbrev pub is_wide : GType → Bool
  is_wide t = same_type t int || same_type t uint || same_type t int64 || same_type t uint64

  stored-wide :
      (is_signed : Bool) (n : ℕ) (w : Value F)
      → is_wide (type_of w) ≡ true
      → n < 2 ^ 16
      → source_number conv (store_short conv is_signed n w) ≡ some n
  unfolding source_number store_short
  stored-wide is_signed n (int_value i) h l = ap (λ x. some x) (omega arith)
  stored-wide is_signed n (uint_value m) h l = refl
  stored-wide is_signed n (int64_value i) h l = ap (λ x. some x) (omega arith)
  stored-wide is_signed n (uint64_value m) h l = refl
  stored-wide is_signed n w h l = absurd (cc h)

  -- Called the right way round, they lose nothing on these types: a number of 16 bits that short_from_gvalue stores in an int, a
  -- uint or a 64-bit value is what gvalue_from_short gives back in a new value of its type.
  pub gvalue_from_short-short_from_gvalue :
      (v w : Value F)
      → IsShortNumber v
      → is_wide (type_of w) ≡ true
      → applied conv
          (short_from_gvalue conv v w)
          (gvalue_from_short conv)
          (initial conv (type_of v))
        ≡ some v
  unfolding gvalue_from_short short_from_gvalue source_short get_uint16 get_int16 set_uint16
      set_int16 initial
  gvalue_from_short-short_from_gvalue (uint16_value n) w h wide =
      rw (gvalue_from_short, stored-wide false n w wide h)
        (ap (λ x. some (uint16_value x)) (omega arith))
  gvalue_from_short-short_from_gvalue (int16_value (pos n)) w h wide =
      rw (gvalue_from_short, stored-wide true (n % 2 ^ 16) w wide (omega arith))
        (ap (λ x. some (int16_value x)) (from-to (pos n) h))
  gvalue_from_short-short_from_gvalue (int16_value (negsuc n)) w h wide =
      rw (gvalue_from_short, stored-wide true (2 ^ 16 - 1 - n % 2 ^ 16) w wide (omega arith))
        (ap (λ x. some (int16_value x)) (from-to (negsuc n) h))
  gvalue_from_short-short_from_gvalue v w h wide = absurd h
