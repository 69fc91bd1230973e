-- ===== src/Perchannel/Class.antt =====
-- blconf_backend_perchannel_xml_backend_init of blconfd/blconf-backend-perchannel-xml.c: the operations
-- as a backend.
use blconf.Base.{Bool, Option, List, [], Text}
use blconf.Backend.Error.{ok}
use blconf.Backend.Dispatch.{Interface}
use blconf.Perchannel.Channels.{State, Disk}
use blconf.Perchannel.{set, get, get_all, exists, is_property_locked}
use blconf.Perchannel.Reset.{reset, list_channels}

module _ {ℓ} {V : Type ℓ} where
  -- `dirs` are the directories of the channel files, with the names in each.
  unfoldable pub interface :
      (V → V → Bool) → Disk V → List (Option (List Text)) → Interface (State V) V
  unfolding set get get_all exists reset list_channels is_property_locked
  interface equal disk dirs = record {
    set = set equal disk;
    get = get disk;
    get_all = get_all disk;
    exists = exists disk;
    reset = reset disk;
    list_channels = λ st. (ok (list_channels dirs []), st);
    is_property_locked = is_property_locked disk;
  }
