-- ===== src/Client/Channel/Typed.antt =====
-- The getters and setters of one type in blconf/blconf-channel.c.
use blconf.Base.{ℕ, Bool, true, false, Option, none, some, Text, if◌then◌else◌, ℤ}
use Prim.Native.Nat.{◌^◌}
use blconf.Values.{
  Value, string_value, uint_value, uint64_value, int_value, double_value, boolean_value,
}
use blconf.Values.Shorts.{from_bits, to_bits}
use blconf.Client.Cache.{Remote}
use blconf.Client.Channel.{Channel, get_internal, set_internal}

module _ {F : Type 0} where
  -- `if(G_VALUE_TYPE(&val) == ...) value = ...`
  abbrev pub string_in : Option Text → Option (Value F) → Option Text
  string_in default_value (some (string_value (some s))) = some s
  string_in default_value v = default_value

  abbrev pub int_in : ℤ → Option (Value F) → ℤ
  int_in default_value (some (int_value i)) = i
  int_in default_value v = default_value

  abbrev pub uint_in : ℤ → Option (Value F) → ℤ
  uint_in default_value (some (uint_value n)) = from_bits (2 ^ 31) n
  uint_in default_value v = default_value

  abbrev pub uint64_in : ℤ → Option (Value F) → ℤ
  uint64_in default_value (some (uint64_value n)) = from_bits (2 ^ 63) n
  uint64_in default_value v = default_value

  abbrev pub double_in : F → Option (Value F) → F
  double_in default_value (some (double_value x)) = x
  double_in default_value v = default_value

  abbrev pub boolean_in : Bool → Option (Value F) → Bool
  boolean_in default_value (some (boolean_value b)) = b
  boolean_in default_value v = default_value

  -- blconf_channel_get_string
  unfoldable pub get_string :
      Channel F → Text → Option Text → Remote (Value F) → Option Text × Channel F
  get_string ch property default_value got =
      let (v, ch') = get_internal ch property got in (string_in default_value v, ch')

  -- blconf_channel_get_int
  unfoldable pub get_int : Channel F → Text → ℤ → Remote (Value F) → ℤ × Channel F
  get_int ch property default_value got =
      let (v, ch') = get_internal ch property got in (int_in default_value v, ch')

  -- blconf_channel_get_uint: the guint32 goes through a gint
  unfoldable pub get_uint : Channel F → Text → ℕ → Remote (Value F) → ℕ × Channel F
  get_uint ch property default_value got =
      let (v, ch') = get_internal ch property got in
      (to_bits (2 ^ 32) (uint_in (from_bits (2 ^ 31) default_value) v), ch')

  -- blconf_channel_get_uint64: the guint64 goes through a gint64
  unfoldable pub get_uint64 : Channel F → Text → ℕ → Remote (Value F) → ℕ × Channel F
  get_uint64 ch property default_value got =
      let (v, ch') = get_internal ch property got in
      (to_bits (2 ^ 64) (uint64_in (from_bits (2 ^ 63) default_value) v), ch')

  -- blconf_channel_get_double
  unfoldable pub get_double : Channel F → Text → F → Remote (Value F) → F × Channel F
  get_double ch property default_value got =
      let (v, ch') = get_internal ch property got in (double_in default_value v, ch')

  -- blconf_channel_get_bool
  unfoldable pub get_bool : Channel F → Text → Bool → Remote (Value F) → Bool × Channel F
  get_bool ch property default_value got =
      let (v, ch') = get_internal ch property got in (boolean_in default_value v, ch')

  module _ (equal : Value F → Value F → Bool) where
    -- blconf_channel_set_string, given g_utf8_validate
    abbrev pub is_text : (Text → Bool) → Option Text → Bool
    is_text utf8_validate none = true
    is_text utf8_validate (some s) = utf8_validate s

    unfoldable pub set_string :
        (Text → Bool) → Channel F → Text → Option Text → Remote (Value F) → Bool × Channel F
    set_string utf8_validate ch property value got =
        if is_text utf8_validate value
        then set_internal equal ch property (string_value value) got
        else (false, ch)

    -- blconf_channel_set_int
    unfoldable pub set_int : Channel F → Text → ℤ → Remote (Value F) → Bool × Channel F
    set_int ch property value got = set_internal equal ch property (int_value value) got

    -- blconf_channel_set_uint
    unfoldable pub set_uint : Channel F → Text → ℕ → Remote (Value F) → Bool × Channel F
    set_uint ch property value got = set_internal equal ch property (uint_value value) got

    -- blconf_channel_set_uint64
    unfoldable pub set_uint64 : Channel F → Text → ℕ → Remote (Value F) → Bool × Channel F
    set_uint64 ch property value got = set_internal equal ch property (uint64_value value) got

    -- blconf_channel_set_double
    unfoldable pub set_double : Channel F → Text → F → Remote (Value F) → Bool × Channel F
    set_double ch property value got = set_internal equal ch property (double_value value) got

    -- blconf_channel_set_bool
    unfoldable pub set_bool : Channel F → Text → Bool → Remote (Value F) → Bool × Channel F
    set_bool ch property value got = set_internal equal ch property (boolean_value value) got
