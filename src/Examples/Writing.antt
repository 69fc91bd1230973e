-- ===== src/Examples/Writing.antt =====
-- The theorems of the writer of channel files at a channel with an int16 value.
use blconf.Base.{
  ℕ, ◌&&◌, ◌≡◌, ◌≢◌, refl, true, false, Option, none, some, [], ◌∷◌, Text, codes, str_eq,
  str_eq_iff, pos, strsplit, if◌then◌else◌, length,
}
use blconf.Backend.Error.{err, property_not_found, write_failure}
use blconf.Tree.{
  Property, leaf, node, lookup_node, lookup_parts, find_child, prop_name_is_valid, has_double_slash,
}
use blconf.Tree.Visit.{table_lookup}
use blconf.Perchannel.Channels.{Channel, Disk}
use blconf.Perchannel.{get}
use blconf.Values.{Floats, Value, int16_value, uint_value, array_value, nil, cons}
use blconf.Writer.Format.{Markup, format_xml_tag, format_fundamental, format_members}
use blconf.Writer.{seq, step, fitting, start_tag, has_end, put_start, put_end, write_nodes}
use blconf.Writer.Flush.{
  temporary, file_name, close_after, write_channel, save_channel, Flushing, flush_channel,
}
use blconf.Writer.Document.{glue, tag_text, printed, document}
use blconf.Writer.Clean.{IsSaved}
use blconf.Writer.Replacing.{flush_channel-content, flush_channel-unprintable}
use blconf.Writer.Reading.{get-flush_channel}
use blconf.Examples.Stdio.{Memory, memory, memory_laws, puts, moves}
use blconf.Examples.{size, mode, panel}

-- A float is the length of its text.
abbrev pub floats : Floats ℕ
floats = record {
  strtod = λ s. (length s, false, []);
  is_zero = λ x. false;
  below_minfloat = λ x. false;
  above_maxfloat = λ x. false;
  narrow = λ x. x;
  same = λ x y. true;
  print = λ x. [];
}

abbrev pub escaped : Option Text → Text
escaped none = []
escaped (some s) = s

abbrev pub markup : Markup
markup = record { escape = escaped }

abbrev mode_prop : Property (Value ℕ)
mode_prop = record {
  name = mode;
  value = some (int16_value (pos 7));
  system_value = none;
  locked = false;
}

abbrev pub size_prop : Property (Value ℕ)
size_prop = record { name = size; value = some (uint_value 3); system_value = none; locked = false }

abbrev pair : Channel (Value ℕ)
pair = record {
  properties = node mode_prop leaf (node size_prop leaf leaf);
  locked = false;
  dirty = true;
}

-- an array with an int16 in it
abbrev array : Channel (Value ℕ)
array = record {
  properties =
      node (record size_prop { value = some (array_value (cons (int16_value (pos 7)) nil)) }) leaf
        leaf;
  locked = false;
  dirty = true;
}

abbrev pub disk : Memory
disk = record { entries = λ q. some (codes "before"); path = []; put = []; room = 10 }

abbrev now : Channel (Value ℕ) → Flushing ℕ Memory
now ch = record {
  state = record {
    channels = (panel, ch) ∷ [];
    save_pending = false;
    listening = false;
    notified = [];
  };
  error = none;
  disk = disk;
}

abbrev pub home : Text
home = codes "/c"

abbrev pub files_found : Disk (Value ℕ)
files_found = record { load = λ name. err property_not_found; unlink_fails = λ name. false }

not_temporary : file_name home panel ≢ temporary (file_name home panel)
unfolding file_name
not_temporary e = cc ((str_eq_iff (file_name home panel) (temporary (file_name home panel))).1 e)

flush_channel-content_example :
    (flush_channel floats markup memory home panel (now pair)).1.disk.entries (file_name home panel)
    ≡ (if (flush_channel floats markup memory home panel (now pair)).0
          && str_eq (file_name home panel) (file_name home panel)
        then document floats markup panel pair.properties
        else some (codes "before"))
unfolding table_lookup memory_laws
flush_channel-content_example =
    flush_channel-content memory memory_laws floats markup home panel (file_name home panel) pair
      (now pair) refl not_temporary

-- an int16 in an array has no tag, so the channel has no document
no_document : document floats markup panel array.properties ≡ none
unfolding document printed glue start_tag format_xml_tag format_fundamental format_members tag_text
no_document = refl

flush_channel-unprintable_example :
    let after = flush_channel floats markup memory home panel (now array) in
    (after.0 ≡ false)
    × (after.1.error ≡ some write_failure)
    × (after.1.disk.entries (file_name home panel) ≡ some (codes "before"))
    × (IsSaved panel after.1.state.channels)
unfolding table_lookup memory_laws
flush_channel-unprintable_example =
    flush_channel-unprintable memory memory_laws floats markup home panel array (now array) refl
      no_document refl

flushed : (flush_channel floats markup memory home panel (now pair)).0 ≡ true
unfolding memory flush_channel save_channel write_channel close_after seq step write_nodes start_tag
    format_xml_tag format_fundamental put_start put_end has_end fitting table_lookup puts moves
flushed = refl

get-flush_channel_example :
    (get files_found
      (flush_channel floats markup memory home panel (now pair)).1.state
      panel
      (codes "/mode")).0
    ≡ err property_not_found
unfolding table_lookup lookup_node lookup_parts find_child prop_name_is_valid has_double_slash
    strsplit
get-flush_channel_example =
    get-flush_channel floats markup memory home panel (codes "/mode") files_found pair
      (record { prop = mode_prop; children = leaf }) (now pair) refl refl flushed
