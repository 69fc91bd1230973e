-- ===== src/Examples/Timers.antt =====
-- The theorems of the timer of blconfd/blconf-backend-perchannel-xml.c at a backend that has one property set.
use blconf.Base.{
  ℕ, before_last_slash, after_last_slash, ◌≡◌, refl, Bool, true, false, none, some, codes, strsplit,
  All, [], ◌∷◌,
}
use blconf.Tree.{
  tree_add, add_property, strlcpy, append, leaf, node, lookup_node, lookup_parts, find_child,
  prop_name_is_valid,
}
use blconf.Tree.Visit.{table_lookup, table_insert}
use blconf.Perchannel.Channels.{Channel, State, Disk, init, strdown}
use blconf.Backend.Error.{err, channel_not_found}
use blconf.Xml.Types.{ValueOps, Users}
use blconf.Xml.Load.{load_channel}
use blconf.Xml.Unsaved.{IsRead}
use blconf.Tree.Keys.{IsKeyed}
use blconf.Values.Convert.{from_string}
use blconf.Perchannel.{set}
use blconf.Values.{Value, uint_value}
use blconf.Values.Equal.{is_equal}
use blconf.Writer.Clean.{IsSaved}
use blconf.Writer.{seq, step, fitting, start_tag, has_end, put_start, put_end, write_nodes}
use blconf.Writer.Format.{format_xml_tag, format_fundamental}
use blconf.Writer.Flush.{
  file_name, flush, flush_get_dirty, flush_each, flush_channel, set_error, save_channel,
  write_channel, close_after,
}
use blconf.Writer.Document.{document}
use blconf.Writer.Timer.{finalize, sets, Reach, here, next, Reach-Timed, Reach-pending}
use blconf.Writer.Ended.{finalize-document}
use blconf.Examples.Stdio.{Memory, memory, memory_laws, puts, moves}
use blconf.Daemon.Ending.{
  Kept, perchannel_kept, flush_state, handle_dbus_disconnect, handle_dbus_disconnect-document,
}
use blconf.Examples.Writing.{floats, markup, size_prop, disk, home}
use blconf.Examples.{panel}

-- The values of the files, and nobody in a group.
abbrev ops : ValueOps (Value ℕ)
ops = record {
  initial = λ t. uint_value 0;
  from_string = λ t s. elim s [ none ↦ none | some text ↦ from_string floats t text ];
  array_add = λ a v. a;
}

abbrev nobody : Users
nobody = record { user_name = codes "user"; members = λ _. none }

-- no channel has a file
abbrev no_files : Disk (Value ℕ)
no_files = record { load = λ name. err channel_not_found; unlink_fails = λ name. false }

read : IsRead ops nobody no_files
unfolding load_channel
read name = (record { filenames = []; user_file = none; contents = λ _. none }, refl)

abbrev state : State (Value ℕ)
state = (set (is_equal floats) no_files init panel (codes "/size") (uint_value 3)).1

state-Reach : Reach memory floats markup home ops nobody (is_equal floats) state
state-Reach = next here (sets no_files init panel (codes "/size") (uint_value 3) read)

abbrev one : Channel (Value ℕ)
one = record { properties = node size_prop leaf leaf; locked = false; dirty = true }

state_one : table_lookup panel state.channels ≡ some one
unfolding set table_lookup lookup_node prop_name_is_valid lookup_parts strsplit find_child
    table_insert strdown tree_add add_property before_last_slash strlcpy append after_last_slash
state_one = refl

Reach-pending_example : state.save_pending ≡ true
Reach-pending_example =
    Reach-pending memory floats markup home ops nobody (is_equal floats) state panel one state-Reach
      state_one refl

-- a disk on which all pieces of the file find room
abbrev roomy : Memory
roomy = record disk { room = 100 }

no_error :
    (pending : Bool)
    → (flush floats markup memory home (record {
      state = record state { save_pending = pending };
      error = none;
      disk = roomy;
    })).1.error
      ≡ none
unfolding set table_lookup lookup_node prop_name_is_valid lookup_parts strsplit find_child
    table_insert strdown tree_add add_property before_last_slash strlcpy append after_last_slash
    flush flush_get_dirty flush_each flush_channel set_error memory save_channel write_channel
    close_after seq step write_nodes start_tag format_xml_tag format_fundamental put_start put_end
    has_end fitting puts moves
no_error pending = refl

finalize-document_example :
    ((finalize memory floats markup home state roomy).1.entries (file_name home panel)
      ≡ document floats markup panel one.properties)
    × IsSaved panel (finalize memory floats markup home state roomy).0.channels
unfolding memory_laws
finalize-document_example =
    finalize-document memory memory_laws floats markup home ops nobody (is_equal floats) state roomy
      panel one state-Reach state_one refl (no_error false)

state-IsKeyed : IsKeyed state.channels
state-IsKeyed =
    (Reach-Timed memory floats markup home ops nobody (is_equal floats) state state-Reach).keyed

no_dbus_error : (flush_state memory floats markup home state roomy).error ≡ none
no_dbus_error = no_error state.save_pending

handle_dbus_disconnect-document_example :
    let after =
      handle_dbus_disconnect true (perchannel_kept memory floats markup home state ∷ []) roomy in
    (after.1.entries (file_name home panel) ≡ document floats markup panel one.properties)
    × All (λ (b : Kept (State (Value ℕ)) Memory). IsSaved panel b.kept.channels) after.0
unfolding memory_laws
handle_dbus_disconnect-document_example =
    handle_dbus_disconnect-document memory floats markup home memory_laws state roomy panel one
      state-IsKeyed state_one refl no_dbus_error
