-- ===== src/Client/Channel/Layout.antt =====
-- The offsets of blconf/blconf-channel.c as the layout of a C struct.
use blconf.Base.{ℕ, ◌≡◌, subst, ◌+◌, ◌*◌, ◌-◌, ◌≤◌, ◌<◌, List, [], ◌∷◌, length, arith}
use Prim.Native.Nat.{◌^◌, ◌%◌, ◌/◌}
use native.Mathlib.Nat.{mod-eq_of_lt, div-mul-le_self, lt-div-mul-add, mul-mod_left}
use blconf.Xml.Types.{GType}
use blconf.Client.Channel.Structs.{Abi, align_val, past, layout}

-- Sizes and alignments are small, and no alignment is 0.
pub record IsSmall (abi : Abi) : Type 0 where
  pub sized : (t : GType) → abi.size_of t ≤ 16
  pub positive : (t : GType) → 0 < abi.align_of t
  pub aligned : (t : GType) → abi.align_of t ≤ 16

-- The members of a C struct behind `end`: each stands at the first offset of its alignment that is not inside
-- the ones before it, and the whole is not longer than a gsize counts.
pub IsStruct : Abi → ℕ → List (ℕ × GType) → Type 0
IsStruct abi end [] = end < 2 ^ 64
IsStruct abi end ((offset, t) ∷ cells) =
    (end ≤ offset)
    × (offset < end + abi.align_of t)
    × (offset % abi.align_of t ≡ 0)
    × IsStruct abi (offset + abi.size_of t) cells

align_val-bounds :
    (val align : ℕ)
    → 0 < align
    → val + align < 2 ^ 64
    → (val ≤ align_val val align)
      × (align_val val align < val + align)
      × (align_val val align % align ≡ 0)
unfolding align_val
align_val-bounds val align p h =
    let small : (val + (align - 1)) % 2 ^ 64 ≡ val + (align - 1) =
      mod-eq_of_lt (omega (arith, p, h)) in
    let q = (val + (align - 1)) / align in
    let below = div-mul-le_self (val + (align - 1)) align in
    let above = lt-div-mul-add {a = val + (align - 1)} {b = align} p in
    rw small (omega (arith, p, above), omega (arith, p, below), mul-mod_left q align)

layout-IsStruct_from :
    (abi : Abi) (end : ℕ) (types : List GType)
    → IsSmall abi
    → end + 32 * length types < 2 ^ 64
    → IsStruct abi end (layout abi end types)
unfolding layout IsStruct
layout-IsStruct_from abi end [] small h = omega (arith, h)
layout-IsStruct_from abi end (t ∷ types) small h =
    let offset = align_val end (abi.align_of t) in
    let (low, high, aligned) =
      align_val-bounds end (abi.align_of t) (small.positive t)
        (omega (arith, small.aligned t, h)) in
    let fits : past abi offset t ≡ offset + abi.size_of t =
      mod-eq_of_lt (omega (arith, high, small.aligned t, small.sized t, h)) in
    (
      low,
      high,
      aligned,
      subst (λ e. IsStruct abi e (layout abi (past abi offset t) types)) fits
          (layout-IsStruct_from abi (past abi offset t) types small
            (rw fits (omega (arith, high, small.aligned t, small.sized t, h)))),
    )

-- The offsets of the members of a struct are those of a C struct, and none wraps around, if a guint counts the
-- members and no size and no alignment is more than 16 bytes.
pub layout-IsStruct :
    (abi : Abi) (types : List GType)
    → IsSmall abi
    → length types < 2 ^ 32
    → IsStruct abi 0 (layout abi 0 types)
layout-IsStruct abi types small h = layout-IsStruct_from abi 0 types small (omega (arith, h))
