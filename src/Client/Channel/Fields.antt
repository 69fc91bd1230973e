-- ===== src/Client/Channel/Fields.antt =====
-- What the struct getter of blconf/blconf-channel.c stores after the struct setter.
use blconf.Base.{
  ℕ, suc, ◌≡◌, refl, ap, subst, ◌∙◌, true, false, inl, inr, Bool-cases, Option, none, some, List,
  [], ◌∷◌, length, Text, arith, ==_refl, All,
}
use blconf.Xml.Types.{GType}
use blconf.Values.{
  Floats, Value, uint16_value, int16_value, array_value, Members, nil, cons, type_of, get_uint16,
}
use blconf.Values.Equal.{is_equal}
use blconf.Values.Shorts.{is_short, get_int16}
use blconf.Client.Cache.{Remote}
use blconf.Client.Channel.{Channel}
use blconf.Client.Channel.Property.{fixup_16bit_ints, or_old, has_short, widened, widened_members}
use blconf.Client.Channel.Arrays.{array_in, get_arrayv, stored_as}
use blconf.Client.Channel.Varargs.{IsArgument, from-to_signed, get_arrayv-set_arrayv}
use blconf.Client.Channel.Structs.{
  Abi, align_val, past, layout, is_member_type, count, member_value, store_struct, struct_from,
  read_struct, get_structv, set_struct_of, set_structv,
}

layout-All :
    (abi : Abi) (end : ℕ) (types : List GType)
    → All (λ t. is_member_type t ≡ true) types
    → All (λ (cell : ℕ × GType). is_member_type cell.1 ≡ true) (layout abi end types)
unfolding layout
layout-All abi end [] h = tt
layout-All abi end (t ∷ types) h =
    (h.0, layout-All abi (past abi (align_val end (abi.align_of t)) t) types h.1)

module _ {F : Type 0} where
  -- The memory of a struct: at each offset a value of each type that a member may have.
  pub record IsMemory (value_struct : ℕ → GType → Value F) : Type 0 where
    pub typed :
        (offset : ℕ) (t : GType) → is_member_type t ≡ true → type_of (value_struct offset t) ≡ t
    pub fits :
        (offset : ℕ) (t : GType) → is_member_type t ≡ true → IsArgument (value_struct offset t)

  -- The values of the members, each with its offset.
  abbrev pub contents : (ℕ → GType → Value F) → List (ℕ × GType) → List (ℕ × Value F)
  contents value_struct [] = []
  contents value_struct ((offset, t) ∷ cells) =
      (offset, value_struct offset t) ∷ contents value_struct cells

  wide-kept : (v : Value F) → is_short (type_of v) ≡ false → widened v ≡ v
  unfolding widened
  wide-kept (uint16_value n) e = absurd (cc e)
  wide-kept (int16_value i) e = absurd (cc e)
  wide-kept v e = refl

  wide_members-kept : (m : Members F) → has_short m ≡ false → widened_members m ≡ m
  unfolding has_short widened_members
  wide_members-kept nil e = refl
  wide_members-kept (cons v m) e =
      let now : is_short (type_of v) ≡ false = ground (arith, e) in
      let later : has_short m ≡ false = ground (arith, e, now) in
      rw (wide-kept v now, wide_members-kept m later) refl

  -- what is sent of an array is the wide one
  sent-wide : (m : Members F) → or_old m (fixup_16bit_ints m) ≡ widened_members m
  unfolding fixup_16bit_ints
  sent-wide m = elim (Bool-cases (has_short m)) [
    | inl e ↦ rw e refl
    | inr e ↦ rw (e, wide_members-kept m e) refl
  ]

  member_value-widened :
      (v : Value F) → IsArgument v → member_value (type_of v) (widened v) ≡ some v
  unfolding member_value stored_as widened get_uint16 get_int16
  member_value-widened (uint16_value n) h = ap (λ x. some (uint16_value x)) (omega arith)
  member_value-widened (int16_value i) h = ap (λ x. some (int16_value x)) (from-to_signed i h)
  member_value-widened (array_value m) h = absurd h
  member_value-widened v h = refl

  -- the array of a struct, and what is stored of it
  StoredOf : (ℕ → GType → Value F) → List (ℕ × GType) → Members F → Type 0
  StoredOf value_struct cells m =
      (read_struct value_struct cells ≡ some m)
      × (count (widened_members m) ≡ length cells)
      × (store_struct cells (widened_members m) ≡ (true, contents value_struct cells))

  fields-StoredOf :
      (value_struct : ℕ → GType → Value F) (cells : List (ℕ × GType))
      → IsMemory value_struct
      → All (λ cell. is_member_type cell.1 ≡ true) cells
      → (m : Members F) × StoredOf value_struct cells m
  unfolding StoredOf read_struct store_struct widened_members
  fields-StoredOf value_struct [] memory types = (nil, (refl, refl, refl))
  fields-StoredOf value_struct ((offset, t) ∷ cells) memory types =
      let v = value_struct offset t in
      let (m, rest) = fields-StoredOf value_struct cells memory types.1 in
      let stored : member_value t (widened v) ≡ some v =
        subst (λ s. member_value s (widened v) ≡ some v) (memory.typed offset t types.0)
          (member_value-widened v (memory.fits offset t types.0)) in
      (cons v m, (rw (rest.0, types.0) refl, ap suc rest.1, rw (stored, rest.2) refl))

  struct-nonempty :
      (cell : ℕ × GType) (cells : List (ℕ × GType)) (m : Members F) (l : List (ℕ × Value F))
      → count m ≡ length (cell ∷ cells)
      → store_struct (cell ∷ cells) m ≡ (true, l)
      → struct_from (cell ∷ cells) (array_in (some (array_value m))) ≡ (true, l)
  struct-nonempty cell cells nil l c e = absurd (omega (arith, c))
  struct-nonempty cell cells (cons v m) l c e = rw (c, ==_refl (length (cell ∷ cells))) e

module _ {F : Type 0} (floats : Floats F) (abi : Abi) where
  read-struct :
      (ch : Channel F) (p : Text) (o : Option (Members F)) (m : Members F)
      (got again : Remote (Value F))
      → o ≡ some m
      → (set_struct_of abi (is_equal floats) ch p o got).0 ≡ true
      → (get_arrayv (set_struct_of abi (is_equal floats) ch p o got).1 p again).0
        ≡ array_in (some (array_value (widened_members m)))
  read-struct ch p none m got again e good = absurd (cc e)
  read-struct ch p (some m') m got again e good =
      let same : m' ≡ m = cc e in
      get_arrayv-set_arrayv floats ch p m' got again good
      ∙ ap (λ x. array_in (some (array_value x))) (sent-wide m' ∙ ap widened_members same)

  -- A struct of members of the types that the code handles, once a write of it has succeeded, is stored again
  -- member by member by a read with the same types: the same values at the same offsets, short numbers
  -- included, and TRUE is the answer.
  pub get_structv-set_structv :
      (ch : Channel F) (p : Text) (value_struct : ℕ → GType → Value F) (t : GType)
      (types : List GType) (got again : Remote (Value F))
      → IsMemory value_struct
      → All (λ t. is_member_type t ≡ true) (t ∷ types)
      → (set_structv abi (is_equal floats) ch p value_struct (t ∷ types) got).0 ≡ true
      → (get_structv abi
          (set_structv abi (is_equal floats) ch p value_struct (t ∷ types) got).1
          p
          (t ∷ types)
          again).0
        ≡ (true, contents value_struct (layout abi 0 (t ∷ types)))
  unfolding set_structv get_structv StoredOf layout
  get_structv-set_structv ch p value_struct t types got again memory h good =
      let offset = align_val 0 (abi.align_of t) in
      let cells = layout abi 0 (t ∷ types) in
      let (m, made) = fields-StoredOf value_struct cells memory (layout-All abi 0 (t ∷ types) h) in
      ap (struct_from cells)
        (read-struct ch p (read_struct value_struct cells) m got again made.0 good)
      ∙ struct-nonempty (offset, t) (layout abi (past abi offset t) types) (widened_members m)
          (contents value_struct cells) made.1 made.2
