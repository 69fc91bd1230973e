-- ===== src/Examples/Bindings.antt =====
-- The theorems of blconf/blconf-binding.c at a state with two bindings.
use blconf.Base.{◌==◌, [], ◌∷◌, ℕ, ◌≡◌, refl, true, false, none, some, codes, arith}
use blconf.Xml.Types.{invalid, int, boolean}
use blconf.Values.{array_value}
use blconf.Tree.Visit.{table_lookup}
use blconf.Client.Cache.{cache_new}
use blconf.Client.Cache.Calls
use blconf.Client.Channel.{set_internal}
use blconf.Client.Channel.Property.{get_property}
use blconf.Client.Binding.{
  unbind, Binding, Bindings, of_type, property_init, at_channel, handler, signal_handler_disconnect,
}
use blconf.Client.Binding.Reach.{Reach, none_bound, start, bound, Reach-signal_handler_disconnect}
use blconf.Client.Binding.Search.{Reach-unbind}
use blconf.Client.Binding.Ends.{IsBare}
use blconf.Client.Library.{Library, library_shutdown, library_shutdown-IsBare}
use blconf.Client.Binding.Notify.{GdkColor, object_notify_gdkcolor, channel_notify_gdkcolor}
use blconf.Client.Binding.Colors.{sent_color, channel_notify-object_notify_gdkcolor}
use blconf.Examples.Writing.{floats}
use blconf.Examples.Channels.{conv, desk, width, missing, equal}

-- two bindings of an object to the channel 7; the handlers of the first are 2 and 3
abbrev one : Bindings
one = (property_init 7 width (of_type int) 8 (codes "width") (of_type int) none_bound).1

abbrev two : Bindings
two =
    (property_init 7 (codes "/shown") (of_type boolean) 8 (codes "visible") (of_type boolean) one).1

two-Reach : Reach two
two-Reach =
    bound 7 (codes "/shown") (of_type boolean) 8 (codes "visible") (of_type boolean)
      (bound 7 width (of_type int) 8 (codes "width") (of_type int) start)

Reach-signal_handler_disconnect_example :
    (s : Bindings) × ((signal_handler_disconnect at_channel 3 two ≡ some s)
      × (handler at_channel 3 s ≡ none))
Reach-signal_handler_disconnect_example = Reach-signal_handler_disconnect two at_channel 3 two-Reach

abbrev red : GdkColor
red = record { red = 65535; green = 0; blue = 256 }

red-good : (set_internal equal desk width (array_value (sent_color red)) missing).0 ≡ true
unfolding set_internal Calls.set table_lookup cache_new
red-good = refl

channel_notify-object_notify_gdkcolor_example :
    channel_notify_gdkcolor conv
      (get_property conv
        (object_notify_gdkcolor equal desk width (some red) missing)
        width
        invalid
        missing).0
    ≡ some red
channel_notify-object_notify_gdkcolor_example =
    channel_notify-object_notify_gdkcolor floats conv desk width red missing missing
      (omega arith, omega arith, omega arith) red-good

-- both bindings are there when the library ends, and the channel ends first
abbrev library : Library ℕ
library = record {
  refcnt = 1;
  connected = true;
  named_structs = [];
  singletons = [];
  bindings = two;
}

library_shutdown-IsBare_example :
    (lib : Library ℕ) × ((library_shutdown (3 ∷ []) library ≡ some lib)
      × (lib.refcnt ≡ 0)
      × (lib.connected ≡ false)
      × IsBare lib.bindings)
library_shutdown-IsBare_example = library_shutdown-IsBare (3 ∷ []) library refl two-Reach

Reach-unbind_example :
    (s : Bindings) × ((unbind 3 two ≡ some s)
      × ((a : ℕ) (b : Binding) → s.at a ≡ some b → (b.channel_handler == 3) ≡ false))
Reach-unbind_example = Reach-unbind two 3 two-Reach
