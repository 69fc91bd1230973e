-- ===== src/Client/Channel/Structs.antt =====
-- The structs of blconf/blconf-channel.c: the members of a C struct, at the offsets that the code works out.
use blconf.Base.{
  ℕ, suc, ◌+◌, ◌*◌, ◌-◌, Bool, true, false, ◌&&◌, Option, none, some, List, [], ◌∷◌, Text,
  if◌then◌else◌, length, ◌==◌,
}
use Prim.Native.Nat.{◌^◌, ◌%◌, ◌/◌}
use blconf.Xml.Types.{GType, invalid, empty, uint, int, uint16, int16, array}
use blconf.Values.{Value, Members, nil, cons, type_of}
use blconf.Values.Shorts.{same_type}
use blconf.Tree.Visit.{Table, table_lookup}
use blconf.Client.Cache.{Remote}
use blconf.Client.Channel.{Channel}
use blconf.Client.Channel.Arrays.{get_arrayv, stored_as, set_arrayv}

-- `sizeof` and ALIGNOF_ of the C type of a member; an alignment is a power of two.
pub record Abi : Type 0 where
  pub size_of : GType → ℕ
  pub align_of : GType → ℕ

-- ALIGN_VAL: the mask of an alignment clears the remainder
unfoldable pub align_val : ℕ → ℕ → ℕ
align_val val align = (val + (align - 1)) % 2 ^ 64 / align * align

-- BlconfNamedStruct
pub record NamedStruct : Type 0 where
  pub member_types : List GType

-- the type that a member's value has in the array: a short one is stored as a wide one
abbrev pub value_type : GType → GType
value_type uint16 = uint
value_type int16 = int
value_type t = t

-- the cases of the two switches
abbrev pub is_member_type : GType → Bool
is_member_type array = false
is_member_type empty = false
is_member_type invalid = false
is_member_type t = true

module _ (abi : Abi) where
  -- `cur_offset` after a member, given the one at which it stands
  abbrev pub past : ℕ → GType → ℕ
  past offset t = (offset + abi.size_of t) % 2 ^ 64

  -- `cur_offset` at each member
  unfoldable pub layout : ℕ → List GType → List (ℕ × GType)
  unfolding align_val
  layout cur_offset [] = []
  layout cur_offset (t ∷ types) =
      let offset = align_val cur_offset (abi.align_of t) in
      (offset, t) ∷ layout (past offset t) types

module _ {F : Type 0} where
  abbrev pub count : Members F → ℕ
  count nil = 0
  count (cons v m) = suc (count m)

  -- SET_STRUCT_VAL in the case of the member's type: what is stored; `none` is its `goto out`
  unfoldable pub member_value : GType → Value F → Option (Value F)
  unfolding stored_as
  member_value t v =
      if is_member_type t && same_type (type_of v) (value_type t) then stored_as t v else none

  abbrev pub store_at : ℕ → Option (Value F) → Bool × List (ℕ × Value F) → Bool × List (ℕ × Value F)
  store_at offset none rest = (false, [])
  store_at offset (some w) rest = (rest.0, (offset, w) ∷ rest.1)

  -- the loop of blconf_channel_get_structv: the answer, and the values stored before it, each with its
  -- offset; the two lists are of one length
  unfoldable pub store_struct : List (ℕ × GType) → Members F → Bool × List (ℕ × Value F)
  unfolding member_value
  store_struct [] m = (true, [])
  store_struct (c ∷ cells) nil = (true, [])
  store_struct ((offset, t) ∷ cells) (cons v m) =
      store_at offset (member_value t v) (store_struct cells m)

  abbrev pub struct_from : List (ℕ × GType) → Option (Members F) → Bool × List (ℕ × Value F)
  struct_from cells none = (false, [])
  struct_from cells (some arr) =
      if count arr == length cells then store_struct cells arr else (false, [])

  -- the loop of blconf_channel_set_structv, given what the struct holds at an offset; `none` is its `goto out`
  unfoldable pub read_struct : (ℕ → GType → Value F) → List (ℕ × GType) → Option (Members F)
  read_struct value_struct [] = some nil
  read_struct value_struct ((offset, t) ∷ cells) = elim (read_struct value_struct cells) [
    | none ↦ none
    | some m ↦ if is_member_type t then some (cons (value_struct offset t) m) else none
  ]

module _ {F : Type 0} (abi : Abi) where
  -- blconf_channel_get_structv and, with the types as arguments, blconf_channel_get_struct_valist
  unfoldable pub get_structv :
      Channel F → Text → List GType → Remote (Value F) → (Bool × List (ℕ × Value F)) × Channel F
  unfolding layout store_struct
  get_structv ch property [] got = ((false, []), ch)
  get_structv ch property (t ∷ types) got =
      let (arr, ch') = get_arrayv ch property got in
      (struct_from (layout abi 0 (t ∷ types)) arr, ch')

  -- blconf_channel_get_named_struct
  unfoldable pub get_named_struct :
      Table NamedStruct
      → Channel F
      → Text
      → Text
      → Remote (Value F)
      → (Bool × List (ℕ × Value F)) × Channel F
  unfolding get_structv
  get_named_struct structs ch property struct_name got = elim (table_lookup struct_name structs) [
    | none ↦ ((false, []), ch)
    | some ns ↦ get_structv ch property ns.member_types got
  ]

  module _ (equal : Value F → Value F → Bool) where
    abbrev pub set_struct_of :
        Channel F → Text → Option (Members F) → Remote (Value F) → Bool × Channel F
    set_struct_of ch property none got = (false, ch)
    set_struct_of ch property (some arr) got = set_arrayv equal ch property arr got

    -- blconf_channel_set_structv and, with the types as arguments, blconf_channel_set_struct_valist
    unfoldable pub set_structv :
        Channel F → Text → (ℕ → GType → Value F) → List GType → Remote (Value F) → Bool × Channel F
    unfolding layout read_struct
    set_structv ch property value_struct [] got = (false, ch)
    set_structv ch property value_struct (t ∷ types) got =
        set_struct_of ch property (read_struct value_struct (layout abi 0 (t ∷ types))) got

    -- blconf_channel_set_named_struct
    unfoldable pub set_named_struct :
        Table NamedStruct
        → Channel F
        → Text
        → Text
        → (ℕ → GType → Value F)
        → Remote (Value F)
        → Bool × Channel F
    unfolding set_structv
    set_named_struct structs ch property struct_name value_struct got =
        elim (table_lookup struct_name structs) [
          | none ↦ (false, ch)
          | some ns ↦ set_structv ch property value_struct ns.member_types got
        ]
