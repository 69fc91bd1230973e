-- ===== src/Daemon/Ending.antt =====
-- The functions of blconfd/blconf-daemon.c that flush the backends, with those of blconfd/blconf-backend.c that
-- they call. The backends write to one file system.
use blconf.Base.{◌≡◌, Bool, true, false, Option, none, some, List, [], ◌∷◌, Text, All}
use blconf.Tree.Visit.{table_lookup}
use blconf.Tree.Keys.{IsKeyed}
use blconf.Perchannel.Channels.{Channel, State}
use blconf.Values.{Floats, Value}
use blconf.Writer.Format.{Markup}
use blconf.Writer.{Files}
use blconf.Writer.Flush.{Flushing, file_name}
use blconf.Writer.Laws.{FilesLaws}
use blconf.Writer.Document.{document}
use blconf.Writer.Flushed.{flush-document}
use blconf.Writer.Flush
use blconf.Writer.Clean.{IsSaved, flush-IsSaved}
use blconf.Writer.Timer.{finalize}

-- What a flush or the end of a backend leaves.
pub record After {ℓ} (D W : Type ℓ) : Type ℓ where
  pub done : Bool
  pub kept_data : D
  pub world : W

-- The rest of struct BlconfBackendInterface, and the end of the object. The listener is told apart from NULL
-- only; a backend may have no function for it.
pub record Upkeep {ℓ} (D W : Type ℓ) : Type ℓ where
  pub flush : D → W → After D W
  pub register_property_changed_func : Option (Bool → D → D)
  pub finalize : D → W → W

module _ {ℓ} {D W : Type ℓ} (iface : Upkeep D W) where
  -- blconf_backend_flush
  unfoldable pub backend_flush : D → W → After D W
  backend_flush backend world = iface.flush backend world

  -- blconf_backend_register_property_changed_func
  unfoldable pub register_property_changed_func : Bool → D → D
  register_property_changed_func listening backend = elim iface.register_property_changed_func [
    | none ↦ backend
    | some f ↦ f listening backend
  ]

-- A backend beside its class.
pub record Kept {ℓ} (D W : Type ℓ) : Type ℓ where
  pub upkeep : Upkeep D W
  pub kept : D

module _ {ℓ} {D W : Type ℓ} where
  -- the loop of blconf_daemon_handle_dbus_disconnect, which goes on where a flush fails
  unfoldable pub flush_backends : List (Kept D W) → W → List (Kept D W) × W
  unfolding backend_flush
  flush_backends [] world = ([], world)
  flush_backends (b ∷ backends) world =
      let after = backend_flush b.upkeep b.kept world in
      let rest = flush_backends backends after.world in
      (record b { kept = after.kept_data } ∷ rest.0, rest.1)

  -- blconf_daemon_handle_dbus_disconnect, given whether the message is "Disconnected"
  unfoldable pub handle_dbus_disconnect : Bool → List (Kept D W) → W → List (Kept D W) × W
  unfolding flush_backends
  handle_dbus_disconnect false backends world = (backends, world)
  handle_dbus_disconnect true backends world = flush_backends backends world

  -- the loop of blconf_daemon_finalize
  unfoldable pub finalize_daemon : List (Kept D W) → W → W
  unfolding register_property_changed_func backend_flush
  finalize_daemon [] world = world
  finalize_daemon (b ∷ backends) world =
      let after =
        backend_flush b.upkeep (register_property_changed_func b.upkeep false b.kept) world in
      finalize_daemon backends (b.upkeep.finalize after.kept_data after.world)

module _ {S : Type 0} (files : Files S) {F : Type 0} (floats : Floats F) (markup : Markup)
    (path : Text) where
  -- blconf_backend_perchannel_xml_flush with no error set before
  abbrev pub flush_state : State (Value F) → S → Flushing F S
  flush_state st disk =
      (Flush.flush floats markup files path (record { state = st; error = none; disk = disk })).1

  -- the per-channel backend: its flush, its listener and its end
  unfoldable pub perchannel_upkeep : Upkeep (State (Value F)) S
  perchannel_upkeep = record {
    flush = λ st disk. record {
      done =
          (Flush.flush floats markup files path
            (record { state = st; error = none; disk = disk })).0;
      kept_data = (flush_state st disk).state;
      world = (flush_state st disk).disk;
    };
    register_property_changed_func = some (λ listening st. record st { listening = listening });
    finalize = λ st disk. (finalize files floats markup path st disk).1;
  }

  abbrev pub perchannel_kept : State (Value F) → Kept (State (Value F)) S
  perchannel_kept st = record { upkeep = perchannel_upkeep; kept = st }

  -- When the bus disconnects, a channel of the daemon's per-channel backend that waits to be written, if the
  -- flush leaves no error: its file has exactly the text of its tree, and no channel of that name
  -- waits any longer. The keys of the backend's table are all different.
  pub handle_dbus_disconnect-document :
      (laws : FilesLaws files) (st : State (Value F)) (disk : S) (name : Text)
      (channel : Channel (Value F))
      → IsKeyed st.channels
      → table_lookup name st.channels ≡ some channel
      → channel.dirty ≡ true
      → (flush_state st disk).error ≡ none
      → let after = handle_dbus_disconnect true (perchannel_kept st ∷ []) disk in
        (laws.content after.1 (file_name path name)
          ≡ document floats markup name channel.properties)
        × All (λ (b : Kept (State (Value F)) S). IsSaved name b.kept.channels) after.0
  unfolding handle_dbus_disconnect flush_backends backend_flush perchannel_upkeep
  handle_dbus_disconnect-document laws st disk name channel keyed found dirty fine =
      let now : Flushing F S = record { state = st; error = none; disk = disk } in
      (
        flush-document files laws floats markup path now name channel keyed found dirty fine,
        ((flush-IsSaved files floats markup path now name).1, tt),
      )
