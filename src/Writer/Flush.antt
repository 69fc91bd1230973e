-- ===== src/Writer/Flush.antt =====
-- blconf_backend_perchannel_xml_flush_channel, blconf_backend_perchannel_xml_flush_get_dirty and
-- blconf_backend_perchannel_xml_flush of blconfd/blconf-backend-perchannel-xml.c.
use blconf.Base.{
  Bool, true, false, Option, none, some, List, [], ◌∷◌, ◌++◌, Text, codes, if◌then◌else◌,
}
use blconf.Backend.Error.{Error, write_failure, channel_not_found}
use blconf.Tree.{Forest}
use blconf.Tree.Visit.{Table, table_lookup, table_insert}
use blconf.Perchannel.Channels.{Channel, State}
use blconf.Values.{Floats, Value}
use blconf.Writer.Format.{Markup}
use blconf.Writer.{Files, seq, step, write_nodes}

-- `filename` and `filename_tmp`
unfoldable pub file_name : Text → Text → Text
file_name config_save_path channel_name =
    config_save_path ++ codes "/" ++ channel_name ++ codes ".xml"

abbrev pub temporary : Text → Text
temporary filename = filename ++ codes ".new"

unfoldable pub opening : Text → Text
opening channel_name = codes "<channel name=\"" ++ channel_name ++ codes "\" version=\"1.0\">\n"

abbrev pub heading : Text
heading = codes "<?xml version=\"1.0\" encoding=\"UTF-8\"?>\n\n"

abbrev pub closing : Text
closing = codes "</channel>\n"

-- `goto out`, after which a stream that is open is closed, whatever that gives
unfoldable pub close_after {ℓ} : {S : Type ℓ} → Files S → Bool × S → Bool × S
close_after files (false, st) = (false, (files.fclose st).1)
close_after files (true, st) = files.fclose st

-- The state of the backend, `*error`, and the file system.
pub record Flushing {ℓ} (F : Type 0) (S : Type ℓ) : Type ℓ where
  pub state : State (Value F)
  pub error : Option Error
  pub disk : S

module _ {F : Type 0} (floats : Floats F) (markup : Markup) where
  -- from the first `fputs` to `fdatasync`
  unfoldable pub write_channel {ℓ} :
      {S : Type ℓ} → Files S → Text → Forest (Value F) → S → (Bool × S) × Forest (Value F)
  unfolding seq step write_nodes opening
  write_channel files channel_name tree st =
      let headed = seq (files.fputs heading st) (files.fputs (opening channel_name)) in
      let written = step headed tree (write_nodes floats markup files 1 tree) in
      (seq (seq (seq written.0 (files.fputs closing)) files.fflush) files.fdatasync, written.1)

  -- from `fopen` to `rename`
  unfoldable pub save_channel {ℓ} :
      {S : Type ℓ} → Files S → Text → Text → Forest (Value F) → S → (Bool × S) × Forest (Value F)
  unfolding seq step write_channel close_after
  save_channel files filename channel_name tree st =
      let written = step (files.fopen (temporary filename) st) tree (λ opened.
        let contents = write_channel files channel_name tree opened in
        (close_after files contents.0, contents.1)) in
      (seq written.0 (files.rename (temporary filename) filename), written.1)

  -- `error && !*error`
  unfoldable pub set_error : Bool → Option Error → Option Error
  set_error true error = error
  set_error false none = some write_failure
  set_error false (some e) = some e

  -- blconf_backend_perchannel_xml_flush_channel
  unfoldable pub flush_channel {ℓ} :
      {S : Type ℓ} → Files S → Text → Text → Flushing F S → Bool × Flushing F S
  unfolding save_channel set_error file_name
  flush_channel files config_save_path channel_name now =
      elim (table_lookup channel_name now.state.channels) [
        | none ↦ (false, record now { error = some channel_not_found })
        | some channel ↦
            let saved =
              save_channel files (file_name config_save_path channel_name) channel_name
                channel.properties now.disk in
            let channel' : Channel (Value F) = record channel {
              properties = saved.1;
              dirty = false;
            } in
            (
              saved.0.0,
              record {
                state = record now.state {
                  channels = table_insert channel_name channel' now.state.channels;
                };
                error = set_error saved.0.0 now.error;
                disk = saved.0.1;
              },
            )
      ]

  -- the keys that `g_slist_prepend` collects, the table being gone through in order
  unfoldable pub flush_get_dirty : Table (Channel (Value F)) → List Text → List Text
  flush_get_dirty [] dirty = dirty
  flush_get_dirty ((key, channel) ∷ rest) dirty =
      flush_get_dirty rest (if channel.dirty then key ∷ dirty else dirty)

  -- its loop
  unfoldable pub flush_each {ℓ} :
      {S : Type ℓ} → Files S → Text → List Text → Flushing F S → Flushing F S
  unfolding flush_channel
  flush_each files config_save_path [] now = now
  flush_each files config_save_path (key ∷ dirty) now =
      flush_each files config_save_path dirty (flush_channel files config_save_path key now).1

  -- blconf_backend_perchannel_xml_flush
  unfoldable pub flush {ℓ} : {S : Type ℓ} → Files S → Text → Flushing F S → Bool × Flushing F S
  unfolding flush_get_dirty flush_each
  flush files config_save_path now =
      (true, flush_each files config_save_path (flush_get_dirty now.state.channels []) now)
