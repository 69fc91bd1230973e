-- ===== src/Examples/Daemons.antt =====
-- The theorems of blconfd/blconf-daemon.c at concrete daemons.
use blconf.Base.{ℕ, ◌≡◌, refl, ◌⊎◌, true, false, none, some, [], ◌∷◌, codes, ◌==◌, All, strsplit}
use blconf.Backend.Error.{ok}
use blconf.Backend.Names.{channel_is_valid}
use blconf.Backend.Dispatch.{Interface}
use blconf.Backend.Dispatch
use blconf.Tree.{leaf, node, lookup_node, lookup_parts, find_child, prop_name_is_valid}
use blconf.Tree.Visit.{Table, table_lookup}
use blconf.Perchannel.Channels.{State, Disk, strdown, init}
use blconf.Perchannel.{set, get, get_all}
use blconf.Daemon.Single.{perchannel, get_property-set_property}
use blconf.Daemon.{Backend, get_property, get_all_properties, set_property}
use blconf.Daemon.Start.{Class, perchannel_class}
use blconf.Daemon.Answers.{set_property-unlocked, get-get_all-differ}
use blconf.Examples.{size, mode, gtk, gtk_size, gtk_mode, panel, disk, after_set, size-IsPath}
use blconf.Perchannel.Class.{interface}
use blconf.Tree.Tables.{lookup-insert}
use blconf.Tree.Visit.{table_insert, to_hash_table}
use blconf.Tree.{strlcat}

-- a daemon with the per-channel backend alone
abbrev the_backend : Disk ℕ → State ℕ → Backend (State ℕ) ℕ
the_backend d st = perchannel ◌==◌ d [] st

get_property-set_property_example :
    (w : ℕ) × ((get_property (the_backend (disk false) after_set) [] panel gtk_size).0 ≡ ok w)
    × ((w ≡ 3) ⊎ ((w == 3) ≡ true))
unfolding set_property Dispatch.set set interface lookup_node prop_name_is_valid lookup_parts
    strsplit find_child table_lookup
get_property-set_property_example =
    get_property-set_property ◌==◌ (disk false) [] init panel size (gtk ∷ []) 3
      (the_backend (disk false) after_set) (unfold strdown in refl) size-IsPath refl

-- the per-channel backend, whose directory is there, and a name that no class has
abbrev types : Table (Class (State ℕ) ℕ)
types =
    (codes "blconf-perchannel-xml", perchannel_class ◌==◌ (disk false) [] (λ _. true) (some gtk))
    ∷ []

abbrev heard : State ℕ
heard = record { channels = []; save_pending = false; listening = true; notified = [] }

abbrev told : State ℕ
told = (set ◌==◌ (disk false) heard panel gtk_size 3).1

set_property-unlocked_example :
    All
      (λ (x : Backend (State ℕ) ℕ).
        (Dispatch.is_property_locked x.iface x.data_of panel gtk_size).0 ≡ ok false)
      (the_backend (disk false) init ∷ the_backend (disk false) init ∷ [])
unfolding set_property Dispatch.is_property_locked interface table_lookup lookup_node
    prop_name_is_valid lookup_parts strsplit find_child Dispatch.set table_insert strdown
set_property-unlocked_example =
    set_property-unlocked (the_backend (disk false) init) (the_backend (disk false) init) [] panel
      gtk_size 3 refl

-- "/gtk/mode" is 9
abbrev other_disk : Disk ℕ
other_disk = record {
  load = λ _. ok (record {
    properties =
        node (record { name = gtk; value = none; system_value = none; locked = false })
          (node (record { name = mode; value = some 9; system_value = none; locked = false }) leaf
            leaf)
          leaf;
    locked = false;
    dirty = false;
  });
  unlink_fails = λ _. false;
}

other_table :
    (t : Table ℕ)
    → (t' : Table ℕ) × ((Dispatch.get_all (interface ◌==◌ other_disk []) init panel (codes "/") t).0
        ≡ ok t')
      × (table_lookup gtk_mode t' ≡ some 9)
unfolding Dispatch.get_all interface get_all to_hash_table table_lookup channel_is_valid strlcat
other_table t = (table_insert gtk_mode 9 t, refl, rw (lookup-insert gtk_mode gtk_mode 9 t) refl)

get-get_all-differ_example :
    ((get_property
        (the_backend (disk false) init)
        (the_backend other_disk init ∷ [])
        panel
        gtk_mode).0
      ≡ ok 7)
    × ((t : Table ℕ) × ((get_all_properties
            (the_backend (disk false) init)
            (the_backend other_disk init ∷ [])
            panel
            (codes "/")).0
          ≡ ok t)
        × (table_lookup gtk_mode t ≡ some 9))
unfolding Dispatch.get interface get lookup_node prop_name_is_valid lookup_parts strsplit find_child
    table_lookup
get-get_all-differ_example =
    get-get_all-differ (the_backend (disk false) init) (the_backend other_disk init) panel gtk_mode
      (codes "/") 7 9 refl other_table
