-- ===== src/Writer/Ended.antt =====
-- The end of a backend of blconfd/blconf-backend-perchannel-xml.c: what blconf_backend_perchannel_xml_finalize
-- leaves in the files of the channels.
use blconf.Base.{◌≡◌, Bool, true, none, some, Text}
use blconf.Tree.Visit.{table_lookup}
use blconf.Perchannel.Channels.{Channel, State}
use blconf.Values.{Floats, Value}
use blconf.Xml.Types.{ValueOps, Users}
use blconf.Writer.Format.{Markup}
use blconf.Writer.{Files}
use blconf.Writer.Flush.{file_name, flush}
use blconf.Writer.Clean.{IsSaved}
use blconf.Writer.Laws.{FilesLaws}
use blconf.Writer.Document.{document}
use blconf.Writer.Flushed.{flush-document}
use blconf.Writer.Timer.{
  flushing, save_timeout, finalize, Reach, Reach-Timed, Reach-pending, save_timeout-IsSaved,
}

module _ {ℓ} {S : Type ℓ} (files : Files S) (laws : FilesLaws files) {F : Type 0}
    (floats : Floats F) (markup : Markup) (path : Text) where
  -- A channel that waits to be written when a backend ends, in whatever state the backend has reached: if
  -- no error is met in the flush that the end makes, the channel's file has exactly the text of its
  -- tree, and the channel waits no longer.
  pub finalize-document :
      (ops : ValueOps (Value F)) (users : Users) (equal : Value F → Value F → Bool)
      (st : State (Value F)) (disk : S) (name : Text) (channel : Channel (Value F))
      → Reach files floats markup path ops users equal st
      → table_lookup name st.channels ≡ some channel
      → channel.dirty ≡ true
      → (flush floats markup files path (flushing files floats markup path st disk)).1.error ≡ none
      → (laws.content (finalize files floats markup path st disk).1 (file_name path name)
          ≡ document floats markup name channel.properties)
        × IsSaved name (finalize files floats markup path st disk).0.channels
  unfolding finalize
  finalize-document ops users equal st disk name channel r found dirty fine =
      let pending =
        Reach-pending files floats markup path ops users equal st name channel r found dirty in
      let timed = Reach-Timed files floats markup path ops users equal st r in
      rw (finalize, pending)
        (
          unfold save_timeout in
              flush-document files laws floats markup path
                (flushing files floats markup path st disk) name channel timed.keyed found dirty
                fine,
          save_timeout-IsSaved files floats markup path st disk name,
        )
