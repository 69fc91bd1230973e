-- ===== src/Xml/Load.antt =====
-- blconf_backend_perchannel_xml_merge_file and blconf_backend_perchannel_xml_load_channel of
-- blconfd/blconf-backend-perchannel-xml.c.
use blconf.Base.{
  Bool, true, false, not, ◌&&◌, is_some, Option, none, some, List, [], ◌∷◌, Text, str_eq,
  if◌then◌else◌,
}
use mathlib.Core.List.{reverse}
use blconf.Backend.Error.{Result, ok, err, channel_not_found}
use blconf.Perchannel.Channels.{Channel, empty_channel}
use blconf.Xml.Types.{ValueOps, Users}
use blconf.Xml.Attributes.{Attributes}
use blconf.Xml.Element.{Parser, Outcome, fine, failed, crashed, none_open}
use blconf.Xml.Handlers.{start_elem, end_elem}

-- What GMarkup calls the parser with, in the order of the file. It only ends an element that it has
-- started, and stops at text that is not well formed.
pub data Event : Type 0 where
  start : Text → Attributes → Event
  finish : Event
  malformed : Event

-- The names of the files that hold the channel, the user's own file, and what each file holds.
pub record Files : Type 0 where
  pub filenames : List Text
  pub user_file : Option Text
  pub contents : Text → Option (List Event)

-- `!g_strcmp0(user_file, name)`
abbrev is_name : Option Text → Text → Bool
is_name none name = false
is_name (some user_file) name = str_eq user_file name

abbrev is_nil : List Text → Bool
is_nil [] = true
is_nil (x ∷ xs) = false

module _ {ℓ} {V : Type ℓ} (ops : ValueOps V) (users : Users) where
  -- g_markup_parse_context_parse: the first error ends it
  unfoldable pub parse : Parser V → List Event → Outcome (Parser V)
  parse st [] = fine st
  parse st (start element attrs ∷ rest) = elim (start_elem ops users st element attrs) [
    | fine st' ↦ parse st' rest
    | failed st' ↦ failed st'
    | crashed ↦ crashed
  ]
  parse st (finish ∷ rest) = parse (end_elem st) rest
  parse st (malformed ∷ rest) = failed st

  unfoldable pub channel_of : Outcome (Parser V) → Outcome (Channel V)
  channel_of (fine st) = fine st.channel
  channel_of (failed st) = failed st.channel
  channel_of crashed = crashed

  abbrev pub begin : Bool → Channel V → Parser V
  begin is_system_file channel = record {
    channel = channel;
    is_system_file = is_system_file;
    cur_elem = none_open;
    cur_path = [];
    list_property = none;
  }

  -- blconf_backend_perchannel_xml_merge_file; a file that cannot be read gives no events. On an error
  -- the channel keeps what was read before it.
  unfoldable pub merge_file : Option (List Event) → Bool → Channel V → Outcome (Channel V)
  unfolding channel_of parse
  merge_file none is_system_file channel = failed channel
  merge_file (some events) is_system_file channel =
      channel_of (parse (begin is_system_file channel) events)

  -- the loop over the system files, which are given from the last to the first
  unfoldable pub merge_system : Files → List Text → Channel V → Outcome (Channel V)
  unfolding merge_file
  merge_system files [] channel = fine channel
  merge_system files (name ∷ rest) channel =
      if is_name files.user_file name
      then merge_system files rest channel
      else elim (merge_file (files.contents name) true channel) [
        | fine ch ↦ merge_system files rest ch
        | failed ch ↦ merge_system files rest ch
        | crashed ↦ crashed
      ]

  unfoldable pub merge_user : Files → Outcome (Channel V) → Outcome (Channel V)
  unfolding merge_file
  merge_user files crashed = crashed
  merge_user files (failed ch) = failed ch
  merge_user files (fine ch) = elim files.user_file [
    | none ↦ fine ch
    | some name ↦ if ch.locked then fine ch else elim (merge_file (files.contents name) false ch) [
      | fine ch' ↦ fine ch'
      | failed ch' ↦ fine ch'
      | crashed ↦ crashed
    ]
  ]

  -- blconf_backend_perchannel_xml_load_channel, up to the insertion into the table
  unfoldable pub load_channel : Files → Outcome (Result (Channel V))
  unfolding merge_user merge_system
  load_channel files =
      if is_nil files.filenames && not (is_some files.user_file)
      then fine (err channel_not_found)
      else elim (merge_user files (merge_system files (reverse files.filenames) empty_channel)) [
        | fine ch ↦ fine (ok ch)
        | failed ch ↦ fine (ok ch)
        | crashed ↦ crashed
      ]
