-- ===== src/Writer/Replacing.antt =====
-- A file of blconf_backend_perchannel_xml_flush_channel replaces the one before it, or leaves it.
use blconf.Base.{
  ◌≡◌, ◌≢◌, refl, subst, ◌∙◌, Bool, false, ◌&&◌, inl, none, some, [], Text, codes, str_eq,
  str_eq_iff, if◌then◌else◌,
}
use blconf.Backend.Error.{write_failure}
use blconf.Tree.{Forest}
use blconf.Tree.Visit.{table_lookup}
use blconf.Perchannel.Channels.{Channel}
use blconf.Values.{Floats, Value}
use blconf.Writer.Format.{Markup}
use blconf.Writer.{Files, step}
use blconf.Writer.Flush.{
  temporary, file_name, close_after, write_channel, save_channel, set_error, flush_channel,
  Flushing,
}
use blconf.Writer.Clean.{IsSaved, flush_channel-IsSaved}
use blconf.Writer.Laws.{FilesLaws}
use blconf.Writer.Document.{document, glue_nothing}
use blconf.Writer.Pieces.{Outcome}
use blconf.Writer.Saving.{write_channel-Puts}
use blconf.Writer.Closing.{
  seq-fails, longer, Closed, close_after-Closed, step-Closed, Replaced, seq-Replaced, unprintable,
}

module _ {ℓ} {S : Type ℓ} (files : Files S) (laws : FilesLaws files) {F : Type 0}
    (floats : Floats F) (markup : Markup) (filename channel_name : Text) (tree : Forest (Value F))
    (st : S) where
  -- the calls up to `fclose`
  unrenamed : (Bool × S) × Forest (Value F)
  unrenamed = step (files.fopen (temporary filename) st) tree (λ opened.
      let contents = write_channel floats markup files channel_name tree opened in
      (close_after files contents.0, contents.1))

  unrenamed-Closed :
      Closed files laws filename st unrenamed.0 (document floats markup channel_name tree)
  unfolding unrenamed
  unrenamed-Closed =
      step-Closed files laws filename st (files.fopen (temporary filename) st) tree _
        (document floats markup channel_name tree)
        (λ q ne. laws.fopen-content (temporary filename) q st ne)
        (λ e. (
          record {
            at = laws.fopen-path (temporary filename) st e;
            kept = λ q ne. laws.fopen-content (temporary filename) q st ne;
          },
          laws.fopen-put (temporary filename) st e,
        ))
        (λ opened o.
          close_after-Closed files laws filename st
            (write_channel floats markup files channel_name tree opened).0
            (document floats markup channel_name tree)
            (subst
              (λ t.
                Outcome files laws (temporary filename) st
                  (write_channel floats markup files channel_name tree opened).0 t)
              (glue_nothing (document floats markup channel_name tree))
              (write_channel-Puts files laws (temporary filename) st floats markup channel_name tree
                [] opened o)))

  pub save_channel-content :
      (q : Text)
      → q ≢ temporary filename
      → Replaced files laws filename st q
          (save_channel floats markup files filename channel_name tree st).0
          (document floats markup channel_name tree)
  unfolding save_channel unrenamed
  save_channel-content q ne =
      seq-Replaced files laws filename st q unrenamed.0 (document floats markup channel_name tree)
        ne unrenamed-Closed

  pub save_channel-unprintable :
      document floats markup channel_name tree ≡ none
      → (save_channel floats markup files filename channel_name tree st).0.0 ≡ false
  unfolding save_channel unrenamed
  save_channel-unprintable e =
      let stopped : unrenamed.0.0 ≡ false =
        unprintable files laws filename st unrenamed.0
          (subst (λ t. Closed files laws filename st unrenamed.0 t) e unrenamed-Closed) in
      seq-fails unrenamed.0 (files.rename (temporary filename) filename) stopped

module _ {ℓ} {S : Type ℓ} (files : Files S) (laws : FilesLaws files) {F : Type 0}
    (floats : Floats F) (markup : Markup) (config_save_path : Text) where
  -- Flushing a channel of the table replaces its file by its document, if it succeeds, and leaves
  -- every file as it was, if it fails, the temporary file beside it apart.
  pub flush_channel-content :
      (channel_name q : Text) (channel : Channel (Value F)) (now : Flushing F S)
      → table_lookup channel_name now.state.channels ≡ some channel
      → q ≢ temporary (file_name config_save_path channel_name)
      → laws.content (flush_channel floats markup files config_save_path channel_name now).1.disk q
        ≡ (if (flush_channel floats markup files config_save_path channel_name now).0
              && str_eq q (file_name config_save_path channel_name)
            then document floats markup channel_name channel.properties
            else laws.content now.disk q)
  unfolding flush_channel
  flush_channel-content channel_name q channel now found ne =
      rw (flush_channel, found)
        (save_channel-content files laws floats markup (file_name config_save_path channel_name)
          channel_name channel.properties now.disk q ne)

  -- A channel whose document does not exist is not saved: flushing it gives FALSE, sets the error if
  -- there was none, leaves its file as it was, and yet marks the channel as saved.
  pub flush_channel-unprintable :
      (channel_name : Text) (channel : Channel (Value F)) (now : Flushing F S)
      → table_lookup channel_name now.state.channels ≡ some channel
      → document floats markup channel_name channel.properties ≡ none
      → now.error ≡ none
      → let after = flush_channel floats markup files config_save_path channel_name now in
        (after.0 ≡ false)
        × (after.1.error ≡ some write_failure)
        × (laws.content after.1.disk (file_name config_save_path channel_name)
            ≡ laws.content now.disk (file_name config_save_path channel_name))
        × (IsSaved channel_name after.1.state.channels)
  unfolding flush_channel set_error
  flush_channel-unprintable channel_name channel now found none_printed no_error =
      let failed =
        save_channel-unprintable files laws floats markup (file_name config_save_path channel_name)
          channel_name channel.properties now.disk none_printed in
      let result : (flush_channel floats markup files config_save_path channel_name now).0 ≡ false =
        rw (flush_channel, found) failed in
      (
        result,
        rw (flush_channel, found, failed, no_error) refl,
        flush_channel-content channel_name (file_name config_save_path channel_name) channel now
              found (longer (file_name config_save_path channel_name) (codes "new") b'.')
            ∙ (rw result refl),
        flush_channel-IsSaved files floats markup config_save_path channel_name channel_name now
            (inl ((str_eq_iff channel_name channel_name).1 refl)),
      )
