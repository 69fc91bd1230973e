-- ===== src/Client/Channel/Varargs.antt =====
-- What the array getter of blconf/blconf-channel.c stores after the array setter.
use blconf.Base.{
  ◌≡◌, refl, ap, ◌∙◌, ◌<◌, true, false, Option, none, some, List, [], ◌∷◌, map, Text, ℤ, pos,
  negsuc, All, arith,
}
use Prim.Native.Nat.{◌^◌}
use blconf.Xml.Types.{GType}
use blconf.Values.{
  Floats, Value, uint_value, uint16_value, int_value, int16_value, array_value, Members, nil, cons,
  type_of,
}
use blconf.Values.Equal.{is_equal}
use blconf.Values.Shorts.{from_bits, to_bits, is_short}
use blconf.Values.Shorts.Laws.{IsInt16}
use blconf.Client.Cache.{Remote}
use blconf.Client.Channel.{Channel}
use blconf.Client.Channel.Property.{fixup_16bit_ints, or_old, has_short}
use blconf.Client.Channel.ReadBack.{get_internal-set_internal, array_value-IsExact}
use blconf.Client.Channel.Arrays.{
  array_in, get_arrayv, stored_as, member_as, store_members, stored_from, get_array, member_of,
  members_of, set_arrayv, set_array, set_array_of,
}

-- What a C variable of the type may hold.
abbrev pub IsArgument : {F : Type 0} → Value F → Type 0
IsArgument (uint16_value n) = n < 2 ^ 16
IsArgument (int16_value i) = IsInt16 i
IsArgument (array_value m) = ⊥
IsArgument v = Unit

-- the member that is made of an argument, and what is stored of it
Made : {F : Type 0} → Value F → Value F → Type 0
Made v w =
    (member_of v ≡ some w) × (member_as (type_of v) w ≡ some v) × (is_short (type_of w) ≡ false)

pub from-to_signed : (i : ℤ) → IsInt16 i → from_bits (2 ^ 15) (to_bits (2 ^ 16) i) ≡ i
from-to_signed (pos n) h = ground (arith, h)
from-to_signed (negsuc n) h = ground (arith, h)

module _ {F : Type 0} where
  argument-Made : (v : Value F) → IsArgument v → (w : Value F) × Made v w
  unfolding Made member_of stored_as
  argument-Made (uint16_value n) h =
      (uint_value n, (refl, ap (λ x. some (uint16_value x)) (omega arith), refl))
  argument-Made (int16_value i) h =
      (int_value i, (refl, ap (λ x. some (int16_value x)) (from-to_signed i h), refl))
  argument-Made (array_value m) h = absurd h
  argument-Made v h = (v, (refl, refl, refl))

  -- the same of a list, and of its array
  MadeOf : List (Value F) → Members F → Type 0
  MadeOf vs m =
      (members_of vs ≡ some m)
      × (store_members (map type_of vs) m ≡ (true, vs))
      × (has_short m ≡ false)

  arguments-MadeOf : (vs : List (Value F)) → All IsArgument vs → (m : Members F) × MadeOf vs m
  unfolding Made MadeOf members_of store_members has_short
  arguments-MadeOf [] h = (nil, (refl, refl, refl))
  arguments-MadeOf (v ∷ vs) h =
      let (w, made) = argument-Made v h.0 in
      let (m, rest) = arguments-MadeOf vs h.1 in
      (cons w m, (rw (made.0, rest.0) refl, rw (made.1, rest.1) refl, rw (made.2, rest.2) refl))

  stored-nonempty :
      (t : GType) (types : List GType) (m : Members F) (vs : List (Value F))
      → store_members (t ∷ types) m ≡ (true, vs)
      → stored_from (t ∷ types) (array_in (some (array_value m))) ≡ (true, vs)
  unfolding store_members
  stored-nonempty t types nil vs e = absurd (cc e)
  stored-nonempty t types (cons w m) vs e = e

module _ {F : Type 0} (floats : Floats F) where
  -- an array that was written, as it is read
  pub get_arrayv-set_arrayv :
      (ch : Channel F) (p : Text) (m : Members F) (got again : Remote (Value F))
      → (set_arrayv (is_equal floats) ch p m got).0 ≡ true
      → (get_arrayv (set_arrayv (is_equal floats) ch p m got).1 p again).0
        ≡ array_in (some (array_value (or_old m (fixup_16bit_ints m))))
  unfolding set_arrayv get_arrayv
  get_arrayv-set_arrayv ch p m got again good =
      let sent = or_old m (fixup_16bit_ints m) in
      ap array_in (
        get_internal-set_internal (is_equal floats) ch p (array_value sent) got again
          (array_value-IsExact floats sent) good)

  -- the same without short numbers in it
  read-wide :
      (ch : Channel F) (p : Text) (o : Option (Members F)) (m : Members F)
      (got again : Remote (Value F))
      → o ≡ some m
      → has_short m ≡ false
      → (set_array_of (is_equal floats) ch p o got).0 ≡ true
      → (get_arrayv (set_array_of (is_equal floats) ch p o got).1 p again).0
        ≡ array_in (some (array_value m))
  unfolding fixup_16bit_ints
  read-wide ch p none m got again e wide good = absurd (cc e)
  read-wide ch p (some m') m got again e wide good =
      let same : m' ≡ m = cc e in
      let sent : or_old m' (fixup_16bit_ints m') ≡ m = rw (same, wide) refl in
      get_arrayv-set_arrayv ch p m' got again good ∙ ap (λ x. array_in (some (array_value x))) sent

  -- Arguments that a setter wrote as an array, and that a C variable of their type may hold, are stored through the
  -- pointers of a getter that names the same types, int16 and uint16 included, and it answers TRUE.
  pub get_array-set_array :
      (ch : Channel F) (p : Text) (v : Value F) (vs : List (Value F)) (got again : Remote (Value F))
      → All IsArgument (v ∷ vs)
      → (set_array (is_equal floats) ch p (v ∷ vs) got).0 ≡ true
      → (get_array
          (set_array (is_equal floats) ch p (v ∷ vs) got).1
          p
          (map type_of (v ∷ vs))
          again).0
        ≡ (true, v ∷ vs)
  unfolding set_array get_array MadeOf
  get_array-set_array ch p v vs got again h good =
      let (m, made) = arguments-MadeOf (v ∷ vs) h in
      ap (stored_from (map type_of (v ∷ vs)))
        (read-wide ch p (members_of (v ∷ vs)) m got again made.0 made.2 good)
      ∙ stored-nonempty (type_of v) (map type_of vs) m (v ∷ vs) made.1
