-- ===== src/Examples/Channels.antt =====
-- The theorems of blconf/blconf-channel.c and of common/blconf-types.c at a channel with a base.
use blconf.Base.{
  ℕ, ◌≡◌, refl, Bool, true, none, some, List, [], ◌∷◌, Text, codes, slash, pos, negsuc, ◌<◌, ◌≤◌,
  arith,
}
use blconf.Backend.Error.{Error}
use blconf.Xml.Types.{
  GType, invalid, empty, string, uchar, char, uint, int, uint64, int64, float, double, boolean,
  uint16, int16, array,
}
use blconf.Values.{
  Value, string_value, uchar_value, uint_value, uint64_value, uint16_value, char_value, int_value,
  int64_value, int16_value, float_value, double_value, boolean_value, array_value, nil, type_of,
}
use blconf.Values.Equal.{is_equal}
use blconf.Values.Shorts.{Conversions, short_from_gvalue, gvalue_from_short, initial, applied}
use blconf.Values.Shorts.Laws.{gvalue_from_short-short_from_gvalue}
use blconf.Tree.Visit.{table_lookup}
use blconf.Client.Cache.{Remote, remote_error, cache_new}
use blconf.Client.Cache.Calls
use blconf.Client.Cache.Calls.{lookup}
use blconf.Client.Channel.{Channel, set_internal, get_internal}
use blconf.Client.Channel.Property.{set_property, get_property}
use blconf.Client.Channel.Arrays.{set_array, set_arrayv, get_array}
use blconf.Client.Channel.Structs.{is_member_type, Abi, layout, set_structv, get_structv}
use blconf.Client.Channel.ReadBack.{get_internal-set_internal, uint_value-IsExact}
use blconf.Client.Channel.Signals.{set_internal-signals}
use blconf.Client.Channel.Converted.{get_property-set_property_short}
use blconf.Client.Channel.Varargs.{IsArgument, get_array-set_array}
use blconf.Client.Channel.Layout.{IsSmall, IsStruct, layout-IsStruct}
use blconf.Client.Channel.Fields.{IsMemory, contents, get_structv-set_structv}
use blconf.Examples.Writing.{floats}
use blconf.Examples.{panel}

-- A float is a number, and GLib has no transformation of its own.
abbrev pub conv : Conversions ℕ
conv = record {
  atoi = λ s. pos 0;
  to_guint64 = λ x. x;
  of_guint16 = λ n. n;
  zero_float = 0;
  transform = λ v t. none;
}

abbrev pub desk : Channel ℕ
desk = record {
  channel_name = panel;
  property_base = some (codes "/panels");
  cache = cache_new panel;
  signals = [];
}

abbrev pub width : Text
width = codes "/width"

abbrev pub missing : Remote (Value ℕ)
missing = remote_error Error.property_not_found

abbrev pub equal : Value ℕ → Value ℕ → Bool
equal = is_equal floats

abbrev written : Bool × Channel ℕ
written = set_internal equal desk width (uint_value 7) missing

written-good : written.0 ≡ true
unfolding set_internal Calls.set table_lookup cache_new
written-good = refl

get_internal-set_internal_example : (get_internal written.1 width missing).0 ≡ some (uint_value 7)
get_internal-set_internal_example =
    get_internal-set_internal equal desk width (uint_value 7) missing missing
      (uint_value-IsExact floats 7) written-good

set_internal-signals_example : written.1.signals ≡ (width, some (uint_value 7)) ∷ []
unfolding cache_new lookup table_lookup
set_internal-signals_example =
    set_internal-signals equal desk slash (codes "width") (uint_value 7) missing refl written-good

abbrev short_written : Bool × Channel ℕ
short_written = set_property equal (λ s. true) desk width (uint16_value 7) missing

short_written-good : short_written.0 ≡ true
unfolding set_property set_internal Calls.set table_lookup cache_new
short_written-good = refl

get_property-set_property_short_example :
    (get_property conv short_written.1 width uint16 missing).0 ≡ initial conv uint16
get_property-set_property_short_example =
    get_property-set_property_short floats conv (λ s. true) desk width (uint16_value 7) uint16
      missing missing refl refl short_written-good

abbrev numbers : List (Value ℕ)
numbers = int16_value (negsuc 4) ∷ uint16_value 9 ∷ []

abbrev array_written : Bool × Channel ℕ
array_written = set_array equal desk width numbers missing

array_written-good : array_written.0 ≡ true
unfolding set_array set_internal Calls.set table_lookup cache_new
array_written-good = refl

get_array-set_array_example :
    (get_array array_written.1 width (int16 ∷ uint16 ∷ []) missing).0 ≡ (true, numbers)
get_array-set_array_example =
    get_array-set_array floats desk width (int16_value (negsuc 4)) (uint16_value 9 ∷ []) missing
      missing (omega arith, (omega arith, tt)) array_written-good

abbrev bytes : GType → ℕ
bytes uchar = 1
bytes char = 1
bytes uint16 = 2
bytes int16 = 2
bytes uint = 4
bytes int = 4
bytes float = 4
bytes boolean = 4
bytes t = 8

-- the sizes of a 64-bit machine, each the alignment too
abbrev lp64 : Abi
lp64 = record { size_of = bytes; align_of = bytes }

bytes-bounds : (t : GType) → (0 < bytes t) × (bytes t ≤ 16)
bytes-bounds uchar = (omega arith, omega arith)
bytes-bounds t = (omega arith, omega arith)

lp64-IsSmall : IsSmall lp64
lp64-IsSmall = record {
  sized = λ t. (bytes-bounds t).1;
  positive = λ t. (bytes-bounds t).0;
  aligned = λ t. (bytes-bounds t).1;
}

abbrev fields : List GType
fields = int16 ∷ uint ∷ []

layout-IsStruct_example : IsStruct lp64 0 (layout lp64 0 (uchar ∷ uint64 ∷ uint16 ∷ []))
layout-IsStruct_example =
    layout-IsStruct lp64 (uchar ∷ uint64 ∷ uint16 ∷ []) lp64-IsSmall (omega arith)

-- a struct whose memory holds the offset everywhere
abbrev memory : ℕ → GType → Value ℕ
memory offset string = string_value none
memory offset uchar = uchar_value 1
memory offset char = char_value (pos 1)
memory offset uint = uint_value offset
memory offset int = int_value (pos offset)
memory offset uint64 = uint64_value offset
memory offset int64 = int64_value (pos offset)
memory offset float = float_value offset
memory offset double = double_value offset
memory offset boolean = boolean_value true
memory offset uint16 = uint16_value 2
memory offset int16 = int16_value (negsuc 2)
memory offset t = array_value nil

memory-typed : (offset : ℕ) (t : GType) → is_member_type t ≡ true → type_of (memory offset t) ≡ t
memory-typed offset array e = absurd (cc e)
memory-typed offset empty e = absurd (cc e)
memory-typed offset invalid e = absurd (cc e)
memory-typed offset t e = refl

memory-fits : (offset : ℕ) (t : GType) → is_member_type t ≡ true → IsArgument (memory offset t)
memory-fits offset array e = absurd (cc e)
memory-fits offset empty e = absurd (cc e)
memory-fits offset invalid e = absurd (cc e)
memory-fits offset uint16 e = omega arith
memory-fits offset int16 e = omega arith
memory-fits offset t e = tt

memory-IsMemory : IsMemory memory
memory-IsMemory = record { typed = memory-typed; fits = memory-fits }

abbrev struct_written : Bool × Channel ℕ
struct_written = set_structv lp64 equal desk width memory fields missing

struct_written-good : struct_written.0 ≡ true
unfolding set_structv set_arrayv set_internal Calls.set table_lookup cache_new
struct_written-good = refl

get_structv-set_structv_example :
    (get_structv lp64 struct_written.1 width fields missing).0
    ≡ (true, contents memory (layout lp64 0 fields))
get_structv-set_structv_example =
    get_structv-set_structv floats lp64 desk width memory int16 (uint ∷ []) missing missing
      memory-IsMemory (refl, (refl, tt)) struct_written-good

gvalue_from_short-short_from_gvalue_example :
    applied conv
      (short_from_gvalue conv (int16_value (negsuc 4)) (int_value (pos 0)))
      (gvalue_from_short conv)
      (initial conv (type_of {F = ℕ} (int16_value (negsuc 4))))
    ≡ some (int16_value (negsuc 4))
gvalue_from_short-short_from_gvalue_example =
    gvalue_from_short-short_from_gvalue conv (int16_value (negsuc 4)) (int_value (pos 0))
      (omega arith) refl
