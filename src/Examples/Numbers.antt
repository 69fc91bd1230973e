-- ===== src/Examples/Numbers.antt =====
-- The theorems of common/blconf-gvaluefuncs.c at concrete values.
use blconf.Base.{
  ℕ, strsplit, ◌≡◌, refl, false, none, some, [], ◌∷◌, Text, codes, pos, negsuc, arith,
}
use blconf.Backend.Error.{ok}
use blconf.Tree.{
  leaf, node, Property, lookup_node, lookup_parts, find_child, prop_name_is_valid, has_double_slash,
}
use blconf.Tree.Visit.{table_lookup, effective}
use blconf.Perchannel.Channels.{Channel, State, open_channel}
use blconf.Perchannel.{set}
use blconf.Values.{Value, int16_value, int_value, type_of}
use blconf.Values.Convert.{from_string, to_string}
use blconf.Values.Equal.{is_equal, set_int16_zero}
use blconf.Values.RoundTrip.{from_string-to_string}
use blconf.Examples.Writing.{floats, files_found}
use blconf.Examples.{size, panel}

from_string-to_string_example :
    (s : Text) × (to_string floats (int_value (negsuc 41)) ≡ some s)
    × (from_string floats (type_of {F = ℕ} (int_value (negsuc 41))) s
        ≡ some (int_value (negsuc 41)))
from_string-to_string_example = from_string-to_string floats (int_value (negsuc 41)) (omega arith)

abbrev zero_prop : Property (Value ℕ)
zero_prop = record {
  name = size;
  value = some (int16_value (pos 0));
  system_value = none;
  locked = false;
}

abbrev zero_channel : Channel (Value ℕ)
zero_channel = record { properties = node zero_prop leaf leaf; locked = false; dirty = false }

abbrev zero_state : State (Value ℕ)
zero_state = record {
  channels = (panel, zero_channel) ∷ [];
  save_pending = false;
  listening = false;
  notified = [];
}

set_int16_zero_example :
    set (is_equal floats) files_found zero_state panel (codes "/size") (int16_value (pos 7))
    ≡ (ok tt, zero_state)
unfolding open_channel table_lookup lookup_node lookup_parts find_child prop_name_is_valid
    has_double_slash effective strsplit
set_int16_zero_example =
    set_int16_zero floats files_found zero_state panel (codes "/size") (pos 7)
      (record { key = panel; channel = zero_channel })
      (record { prop = zero_prop; children = leaf }) refl refl refl refl
