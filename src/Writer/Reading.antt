-- ===== src/Writer/Reading.antt =====
-- Reading a property after blconf_backend_perchannel_xml_flush_channel of
-- blconfd/blconf-backend-perchannel-xml.c.
use blconf.Base.{
  ◌≡◌, refl, sym, ap, ◌∙◌, Bool, true, false, inl, inr, Option, none, some, Option-cases, Text,
  str_eq_iff,
}
use blconf.Backend.Error.{Result, ok, err, property_not_found}
use blconf.Tree.{Forest, Node, lookup_node}
use blconf.Tree.Visit.{table_lookup, effective}
use blconf.Perchannel.Channels.{Channel, Disk, open_channel}
use blconf.Values.{Floats, Value}
use blconf.Writer.Format.{Markup}
use blconf.Writer.{Files, seq, step, write_nodes}
use blconf.Writer.Flush.{
  temporary, file_name, heading, opening, closing, close_after, save_channel, write_channel,
  flush_channel, Flushing,
}
use blconf.Perchannel.{get, get_in, value_found}
use blconf.Tree.Tables.{lookup-insert}
use blconf.Writer.Lost.{
  kept, stripped, stripped_node, lookup_node-stripped, step-true, seq-true, write_nodes-stripped,
}

module _ {F : Type 0} (floats : Floats F) (markup : Markup) where
  close_after-true {ℓ} :
      {S : Type ℓ} (files : Files S) (r : Bool × S) → (close_after files r).0 ≡ true → r.0 ≡ true
  unfolding close_after
  close_after-true files (false, st) e = cc e
  close_after-true files (true, st) e = refl

  write_channel-stripped {ℓ} :
      {S : Type ℓ} (files : Files S) (channel_name : Text) (tree : Forest (Value F)) (st : S)
      → (write_channel floats markup files channel_name tree st).0.0 ≡ true
      → (write_channel floats markup files channel_name tree st).1 ≡ stripped tree
  unfolding write_channel
  write_channel-stripped files channel_name tree st e =
      let nodes = write_nodes floats markup files 1 tree in
      let headed = seq (files.fputs heading st) (files.fputs (opening channel_name)) in
      let written = step headed tree nodes in
      let ended = seq written.0 (files.fputs closing) in
      let pushed = seq ended files.fflush in
      let ran =
        seq-true written.0 (files.fputs closing)
          (seq-true ended files.fflush (seq-true pushed files.fdatasync e)) in
      let same = (step-true headed tree nodes ran).1 in
      ap (λ r. r.1) same
      ∙ write_nodes-stripped floats markup files 1 tree headed.1 (sym (ap (λ r. r.0.0) same) ∙ ran)

  save_channel-stripped {ℓ} :
      {S : Type ℓ} (files : Files S) (filename channel_name : Text) (tree : Forest (Value F))
      (st : S)
      → (save_channel floats markup files filename channel_name tree st).0.0 ≡ true
      → (save_channel floats markup files filename channel_name tree st).1 ≡ stripped tree
  unfolding save_channel
  save_channel-stripped {S = S} files filename channel_name tree st e =
      let fopened = files.fopen (temporary filename) st in
      let next : S → (Bool × S) × Forest (Value F) = λ opened.
        let contents = write_channel floats markup files channel_name tree opened in
        (close_after files contents.0, contents.1) in
      let ran =
        seq-true (step fopened tree next).0 (files.rename (temporary filename) filename) e in
      let same = (step-true fopened tree next ran).1 in
      ap (λ r. r.1) same
      ∙ write_channel-stripped files channel_name tree fopened.1 (
          close_after-true files (write_channel floats markup files channel_name tree fopened.1).0
            (sym (ap (λ r. r.0.0) same) ∙ ran))

  -- what a reader of a property sees
  abbrev pub shown : Option (Value F) → Option (Value F) → Result (Value F)
  shown (some v) system = ok v
  shown none (some v) = ok v
  shown none none = err property_not_found

  shown-effective :
      (n : Node (Value F)) → value_found (some n) ≡ shown n.prop.value n.prop.system_value
  unfolding value_found effective
  shown-effective n = elim (Option-cases n.prop.value) [
    | inl e ↦ elim (Option-cases n.prop.system_value) [
      | inl k ↦ rw (value_found, e, k) refl
      | inr (v, k) ↦ rw (value_found, e, k) refl
    ]
    | inr (v, e) ↦ rw (value_found, e) refl
  ]

  shown-found :
      (o : Option (Node (Value F))) (n : Node (Value F))
      → o ≡ some n
      → value_found (stripped_node o) ≡ shown (kept n.prop.value) n.prop.system_value
  unfolding stripped_node
  shown-found o n e = rw e (shown-effective _)

  flush_channel-found {ℓ} :
      {S : Type ℓ} (files : Files S) (path channel_name : Text) (channel : Channel (Value F))
      (now : Flushing F S)
      → table_lookup channel_name now.state.channels ≡ some channel
      → (flush_channel floats markup files path channel_name now).0 ≡ true
      → table_lookup channel_name
          (flush_channel floats markup files path channel_name now).1.state.channels
        ≡ some (record channel { properties = stripped channel.properties; dirty = false })
  unfolding flush_channel
  flush_channel-found files path channel_name channel now found done =
      let saved : (save_channel floats markup files (file_name path channel_name) channel_name
            channel.properties now.disk).0.0
          ≡ true =
        sym (unfold flush_channel in rw (flush_channel, found) refl) ∙ done in
      rw (flush_channel, found)
        (lookup-insert channel_name channel_name _ now.state.channels
          ∙ ((rw ((str_eq_iff channel_name channel_name).1 refl) (
              ap (λ (t : Forest (Value F)). some (record channel { properties = t; dirty = false }))
                (save_channel-stripped files (file_name path channel_name) channel_name
                  channel.properties now.disk saved)))))

  -- After a flush of a channel that succeeds, reading one of its properties gives the value that it had,
  -- unless this was an int16 or a uint16: that value is lost, and the one of the system is read, or none
  -- is found.
  pub get-flush_channel {ℓ} :
      {S : Type ℓ} (files : Files S) (path channel_name property : Text) (disk : Disk (Value F))
      (channel : Channel (Value F)) (n : Node (Value F)) (now : Flushing F S)
      → table_lookup channel_name now.state.channels ≡ some channel
      → lookup_node channel.properties property ≡ some n
      → (flush_channel floats markup files path channel_name now).0 ≡ true
      → (get disk
          (flush_channel floats markup files path channel_name now).1.state
          channel_name
          property).0
        ≡ shown (kept n.prop.value) n.prop.system_value
  unfolding get open_channel get_in
  get-flush_channel files path channel_name property disk channel n now found there done =
      rw (get, open_channel, flush_channel-found files path channel_name channel now found done)
        (ap value_found (lookup_node-stripped channel.properties property)
          ∙ shown-found (lookup_node channel.properties property) n there)
