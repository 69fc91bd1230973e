-- ===== src/Examples/Files.antt =====
-- The theorems of the reader of channel files at concrete files.
use blconf.Base.{
  ℕ, ◌+◌, ◌≡◌, ◌⊎◌, refl, true, false, Option, none, some, List, [], ◌∷◌, Text, codes, length,
  strsplit, before_last_slash, after_last_slash,
}
use blconf.Tree.{
  leaf, node, lookup_node, lookup_parts, find_child, prop_name_is_valid, strlcat, modify_at,
  tree_add, add_property, append, append_at,
}
use blconf.Perchannel.Channels.{Channel}
use blconf.Xml.Types.{GType, ValueOps, Users}
use blconf.Xml.Attributes.{Attributes, channel_attrs, property_attrs, version_fits}
use blconf.Xml.Element.{fine}
use blconf.Xml.Load.{Event, start, finish, malformed, merge_user}
use blconf.Xml.Load
use blconf.Xml.Locks.{lock_at}
use blconf.Tree.Paths.{seen, view}
use blconf.Xml.Handlers.{start_elem, end_elem}
use blconf.Xml.Merge.{merge_user-lock_at}
use blconf.Examples.{size, mode, gtk, panel, channel, property}

-- a value is the length of its text
abbrev read_length : GType → Option Text → Option ℕ
read_length t none = none
read_length t (some s) = some (length s)

abbrev lengths : ValueOps ℕ
lengths = record { initial = λ _. 0; from_string = read_length; array_add = λ a b. a + b }

abbrev nobody : Users
nobody = record { user_name = codes "user"; members = λ _. none }

abbrev element : Text → Text → Attributes
element name value =
    (codes "name", name) ∷ (codes "type", codes "string") ∷ (codes "value", value) ∷ []

-- A user's file that sets "/gtk/mode", which is locked, and "/gtk/size", and is cut off there.
abbrev user_events : List Event
user_events =
    start (codes "channel") ((codes "name", panel) ∷ (codes "version", codes "1.0") ∷ [])
    ∷ start (codes "property") ((codes "name", gtk) ∷ (codes "type", codes "empty") ∷ [])
    ∷ start (codes "property") (element mode (codes "other"))
    ∷ finish
    ∷ start (codes "property") (element size (codes "abc"))
    ∷ malformed
    ∷ []

abbrev files : Load.Files
files = record { filenames = []; user_file = some panel; contents = λ _. some user_events }

abbrev merged : Channel ℕ
merged = record {
  properties =
      node (property gtk none false)
        (node (property mode (some 7) true) leaf (node (property size (some 3) false) leaf leaf))
        leaf;
  locked = false;
  dirty = false;
}

files_read : merge_user lengths nobody files (fine (channel false)) ≡ fine merged
unfolding merge_user start_elem channel_attrs version_fits property_attrs lookup_node
    prop_name_is_valid strlcat lookup_parts strsplit find_child modify_at end_elem before_last_slash
    tree_add add_property append_at append after_last_slash
files_read = refl

-- "/gtk/mode"
abbrev mode_path : List Text
mode_path = gtk ∷ mode ∷ []

merge_user-lock_at_example :
    (merged.locked ≡ false)
    × (lock_at mode_path merged.properties ≡ lock_at mode_path (channel false).properties)
    × ((seen (view mode_path merged.properties)).1
        ≡ (seen (view mode_path (channel false).properties)).1)
    × ((lock_at mode_path (channel false).properties ≡ false)
        ⊎ ((seen (view mode_path merged.properties)).0
            ≡ (seen (view mode_path (channel false).properties)).0))
merge_user-lock_at_example =
    merge_user-lock_at lengths nobody files (channel false) merged mode_path files_read
