-- ===== src/Examples.antt =====
-- The properties' theorems at small concrete inputs, and runs of the operations of blconfd.
pub mod Queries
pub mod Stdio
pub mod Writing
pub mod Bindings
pub mod Caches
pub mod Channels
pub mod Numbers
pub mod Timers
pub mod Daemons
pub mod Files
pub mod Names
use blconf.Base.{
  ℕ, ◌≡◌, refl, ◌≢◌, ◌↔◌, ◌⊎◌, inl, inr, Bool, true, false, Option, none, some, List, [], ◌∷◌, Text,
  codes, slash, arith, ◌==◌, ◌<◌, length, All, NoSlash, str_eq, str_eq_iff, if◌then◌else◌, join,
  is_some, strsplit,
}
use blconf.Backend.Error.{Result, ok, err, permission_denied, channel_not_found, property_not_found}
use blconf.Backend.Names.{is_common, property_is_valid, channel_is_valid}
use blconf.Backend.Names.Spec.{IsComponent, property_is_valid_iff, channel_is_valid_iff}
use blconf.Backend.Dispatch.{Interface}
use blconf.Backend.Dispatch
use blconf.Tree.{
  Property, Forest, leaf, node, lookup_node, lookup_parts, find_child, prop_name_is_valid,
  new_property, tree_add, max_prop_path,
}
use blconf.Tree.Names.{IsPart, rjoin, rpath}
use blconf.Tree.Visit.{Table, table_lookup}
use blconf.Tree.Add.{Added, tree_add-Added}
use blconf.Perchannel.Channels.{
  Channel, State, Disk, Handle, strdown, init, open_channel, open_or_create,
}
use blconf.Perchannel.{set, get, exists, is_property_locked}
use blconf.Perchannel.Access.{IsPath, get-set_self}
use blconf.Perchannel.Agree.{exists-get, set-denied_iff, set-locked_channel}
use blconf.Perchannel.Notify.{Told, Quiet, Unchanged, set-Told}
use blconf.Xml.Types.{uint16, string_from_gtype, gtype_from_string}
use blconf.Xml.TypeNames.{gtype_from_string-string_from_gtype}
use blconf.Daemon.Single.{perchannel, get_property-set_property}
use blconf.Perchannel.Case.{KeysLower, set-KeysLower, get-set_upper}
use blconf.Daemon.{
  Backend, get_property, get_all_properties, property_exists, set_property, is_true,
}
use blconf.Daemon.Answers.{
  FirstHas, Any, get_property-ok, property_exists-true, set_property-unlocked, get-get_all-differ,
}

abbrev pub size : Text
size = codes "size"

abbrev pub mode : Text
mode = codes "mode"

abbrev pub gtk : Text
gtk = codes "gtk"

-- "/gtk/size" and "/gtk/mode"
abbrev pub gtk_size : Text
gtk_size = rjoin (size ∷ gtk ∷ [])

abbrev pub gtk_mode : Text
gtk_mode = rjoin (mode ∷ gtk ∷ [])

abbrev pub panel : Text
panel = codes "panel"

abbrev capital : Text
capital = codes "Panel"

abbrev pub property : Text → Option ℕ → Bool → Property ℕ
property name value locked = record {
  name = name;
  value = value;
  system_value = none;
  locked = locked;
}

-- "/gtk/mode" is 7 and locked
abbrev pub tree : Forest ℕ
tree = node (property gtk none false) (node (property mode (some 7) true) leaf leaf) leaf

abbrev pub channel : Bool → Channel ℕ
channel locked = record { properties = tree; locked = locked; dirty = false }

-- every channel has that tree
abbrev pub disk : Bool → Disk ℕ
disk locked = record { load = λ _. ok (channel locked); unlink_fails = λ _. false }

abbrev pub no_files : Disk ℕ
no_files = record { load = λ _. err channel_not_found; unlink_fails = λ _. false }

differ : (s t : Text) → str_eq s t ≡ false → s ≢ t
differ s t h e = cc (h, (str_eq_iff s t).1 e)

pub size-IsPath : IsPath size (gtk ∷ [])
size-IsPath = record {
  parts = (((λ e. cc), ground arith), (((λ e. cc), ground arith), tt));
  short = omega arith;
}

init-KeysLower : KeysLower {V = ℕ} init
init-KeysLower = record { lower = λ k up. unfold table_lookup in refl }

property_is_valid_iff_example :
    (property_is_valid gtk_size ≡ ok tt)
    ↔ ((ps : List Text) × (ps ≢ []) × All IsComponent ps × (gtk_size ≡ join ps))
property_is_valid_iff_example = property_is_valid_iff gtk_size

tree_add-Added_example :
    (f' : Forest ℕ) × (tree_add tree gtk_size (some 3) false ≡ some f')
    × Added (rpath (size ∷ gtk ∷ [])) (new_property size (some 3) false) tree f'
unfolding lookup_node prop_name_is_valid lookup_parts strsplit find_child
tree_add-Added_example =
    tree_add-Added size (gtk ∷ []) (some 3) false tree size-IsPath.parts size-IsPath.short refl

abbrev pub after_set : State ℕ
after_set = (set ◌==◌ (disk false) init panel gtk_size 3).1

get-set_self_example :
    (w : ℕ) × ((get (disk false) after_set panel gtk_size).0 ≡ ok w) × ((w ≡ 3) ⊎ ((w == 3) ≡ true))
unfolding set lookup_node prop_name_is_valid lookup_parts strsplit find_child table_lookup strdown
get-set_self_example =
    get-set_self ◌==◌ (disk false) init panel size (gtk ∷ []) 3 refl size-IsPath refl

exists-get_example :
    ((b : Bool) × ((exists (disk false) init panel gtk_mode).0 ≡ ok b))
    × (((exists (disk false) init panel gtk_mode).0 ≡ ok true)
        ↔ ((w : ℕ) × ((get (disk false) init panel gtk_mode).0 ≡ ok w)))
exists-get_example = exists-get (disk false) init panel gtk_mode

set-denied_iff_example :
    ((set ◌==◌ (disk false) init panel gtk_mode 3).0 ≡ err permission_denied)
    ↔ ((is_property_locked (disk false) init panel gtk_mode).0 ≡ ok true)
unfolding table_lookup strdown open_channel
set-denied_iff_example =
    set-denied_iff ◌==◌ (disk false) init panel gtk_mode 3
      (record { key = panel; channel = channel false }) refl refl

set-locked_channel_example :
    ((is_property_locked (disk true) init panel gtk_size).0 ≡ ok true)
    × ((set ◌==◌ (disk true) init panel gtk_size 3).0 ≡ ok tt)
unfolding table_lookup strdown open_channel lookup_node prop_name_is_valid lookup_parts strsplit
    find_child
set-locked_channel_example =
    set-locked_channel ◌==◌ (disk true) init panel gtk_size 3
      (record { key = panel; channel = channel true }) refl refl refl

get-set_upper_example :
    (get no_files (set ◌==◌ no_files init capital gtk_size 3).1 capital gtk_size).0
    ≡ (get no_files init capital gtk_size).0
get-set_upper_example =
    get-set_upper ◌==◌ no_files init capital gtk_size 3 gtk_size init-KeysLower
      (differ (strdown capital) capital (unfold strdown in refl))

abbrev listened : State ℕ
listened = record { channels = []; save_pending = false; listening = true; notified = [] }

set-Told_example :
    Told panel gtk_size listened (set ◌==◌ (disk false) listened panel gtk_size 3)
    ⊎ (Quiet listened (set ◌==◌ (disk false) listened panel gtk_size 3).1
        × Unchanged ◌==◌
            (open_or_create (disk false) listened panel).0
            (open_or_create (disk false) listened panel).1
            gtk_size
            3
            (set ◌==◌ (disk false) listened panel gtk_size 3))
set-Told_example = set-Told ◌==◌ (disk false) listened panel gtk_size 3 refl
