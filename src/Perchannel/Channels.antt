-- ===== src/Perchannel/Channels.antt =====
-- The state of blconfd/blconf-backend-perchannel-xml.c (BlconfBackendPerchannelXml, BlconfChannel)
-- and the functions by which the operations find, make and mark a channel.
pub mod Opening
use blconf.Base.{
  ℕ, ◌+◌, Bool, true, false, ◌&&◌, Option, none, some, List, [], ◌∷◌, ◌++◌, map, Text, leb,
  if◌then◌else◌,
}
use blconf.Backend.Error.{Result, ok, err, Error}
use blconf.Tree.{Forest, leaf}
use blconf.Tree.Visit.{Table, table_lookup, table_insert}

-- struct BlconfChannel; `properties` is the list of children of the root node "/", whose own
-- value the code never sets
pub record Channel {ℓ} (V : Type ℓ) : Type ℓ where
  pub properties : Forest V
  pub locked : Bool
  pub dirty : Bool

-- struct BlconfBackendPerchannelXml. `save_pending` is `save_id != 0`, `listening` is
-- `prop_changed_func != NULL`, and `notified` is what that function was called with, in order.
pub record State {ℓ} (V : Type ℓ) : Type ℓ where
  pub channels : Table (Channel V)
  pub save_pending : Bool
  pub listening : Bool
  pub notified : List (Text × Text)

-- What the operations read from the file system: the channel that the files of a name give, and
-- whether `unlink` fails on its file. `blconf.Xml.Load` has the first from the files' elements.
pub record Disk {ℓ} (V : Type ℓ) : Type ℓ where
  pub load : Text → Result (Channel V)
  pub unlink_fails : Text → Bool

-- A pointer to a channel of the table: the key under which it stands, and what it points to.
pub record Handle {ℓ} (V : Type ℓ) : Type ℓ where
  pub key : Text
  pub channel : Channel V

-- g_ascii_tolower, g_ascii_strdown
abbrev pub to_lower : ℕ → ℕ
to_lower c = if leb b'A' c && leb c b'Z' then c + 32 else c

unfoldable pub strdown : Text → Text
strdown s = map to_lower s

module _ {ℓ} {V : Type ℓ} where
  abbrev pub init : State V
  init = record { channels = []; save_pending = false; listening = false; notified = [] }

  abbrev pub empty_channel : Channel V
  empty_channel = record { properties = leaf; locked = false; dirty = false }

  -- a write through the pointer
  unfoldable pub store : Handle V → State V → State V
  store h st = record st { channels = table_insert h.key h.channel st.channels }

  insert_loaded : Text → State V → Result (Channel V) → Result (Handle V) × State V
  insert_loaded name st (err e) = (err e, st)
  insert_loaded name st (ok ch) = (
    ok (record { key = strdown name; channel = ch }),
    record st { channels = table_insert (strdown name) ch st.channels },
  )

  -- the end of blconf_backend_perchannel_xml_load_channel
  unfoldable pub load_channel : Disk V → State V → Text → Result (Handle V) × State V
  unfolding insert_loaded
  load_channel disk st name = insert_loaded name st (disk.load name)

  create_missing : State V → Text → Option (Channel V) → Handle V × State V
  create_missing st name (some ch) = (record { key = name; channel = ch }, st)
  create_missing st name none = (
    record { key = strdown name; channel = empty_channel },
    record st { channels = table_insert (strdown name) empty_channel st.channels },
  )

  -- blconf_backend_perchannel_xml_create_channel
  unfoldable pub create_channel : State V → Text → Handle V × State V
  unfolding create_missing
  create_channel st name = create_missing st name (table_lookup name st.channels)

  load_missing : Disk V → State V → Text → Option (Channel V) → Result (Handle V) × State V
  unfolding load_channel
  load_missing disk st name (some ch) = (ok (record { key = name; channel = ch }), st)
  load_missing disk st name none = load_channel disk st name

  -- the beginning of every operation: `g_hash_table_lookup`, and `load_channel` if there is none
  unfoldable pub open_channel : Disk V → State V → Text → Result (Handle V) × State V
  unfolding load_missing
  open_channel disk st name = load_missing disk st name (table_lookup name st.channels)

  unfoldable pub or_create : Text → Result (Handle V) × State V → Handle V × State V
  unfolding create_channel
  or_create name (ok h, st) = (h, st)
  or_create name (err e, st) = create_channel st name

  -- the beginning of `set`, which makes a channel that cannot be loaded
  unfoldable pub open_or_create : Disk V → State V → Text → Handle V × State V
  unfolding open_channel or_create
  open_or_create disk st name = or_create name (open_channel disk st name)

  -- `if(xbpx->prop_changed_func) xbpx->prop_changed_func(...)`
  unfoldable pub notify : Text → Text → State V → State V
  notify name property st =
      if st.listening then record st { notified = st.notified ++ (name, property) ∷ [] } else st

  unfoldable pub notify_all : Text → List Text → State V → State V
  unfolding notify
  notify_all name [] st = st
  notify_all name (property ∷ rest) st = notify_all name rest (notify name property st)

  -- blconf_backend_perchannel_xml_schedule_save; a timeout that is pending is started again
  unfoldable pub schedule_save : Handle V → State V → State V
  unfolding store
  schedule_save h st =
      store (record h { channel = record h.channel { dirty = true } })
        (record st { save_pending = true })
