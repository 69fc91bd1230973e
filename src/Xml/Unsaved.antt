-- ===== src/Xml/Unsaved.antt =====
-- The channels that blconf_backend_perchannel_xml_load_channel of blconfd/blconf-backend-perchannel-xml.c reads:
-- none of them waits to be written.
use blconf.Base.{
  ◌≡◌, refl, ap, ◌∙◌, subst, Bool, true, false, inl, inr, Option, none, some, List, [], ◌∷◌, arith,
  Option-cases, Text, slash,
}
use mathlib.Core.List.{reverse}
use blconf.Backend.Error.{ok}
use blconf.Tree.{Forest, Node, strlcpy, strlcat, lookup_node}
use blconf.Perchannel.Channels.{Channel, Disk, empty_channel}
use blconf.Perchannel.Timed.{IsClean}
use blconf.Xml.Types.{GType, gtype_from_string, ValueOps, Users}
use blconf.Xml.Attributes.{
  Attributes, ChannelAttrs, PropertyAttrs, ValueAttrs, channel_attrs, no_channel_attrs,
  property_attrs, no_property_attrs, value_attrs, no_value_attrs, text_of,
}
use blconf.Xml.Element.{
  Parser, Outcome, fine, failed, crashed, Elem, none_open, in_channel, in_property, in_value,
  lock_channel, channel_read, parsed, read_value, opened, read_lock, cleared, property_at,
  property_read, handle_channel, handle_property,
}
use blconf.Xml.Handlers.{
  start_elem, end_elem, value_parsed, value_typed, value_read, handle_value, start_at,
  leave_property, end_at,
}
use blconf.Xml.Merge.{Outcome-cases}
use blconf.Xml.Load.{
  Event, start, finish, malformed, Files, parse, merge_file, merge_system, merge_user, load_channel,
  channel_of, begin,
}

module _ {ℓ} {V : Type ℓ} (ops : ValueOps V) (users : Users) where
  -- the flag that a handler leaves
  abbrev dirty_after : Outcome (Parser V) → Bool
  dirty_after (fine st) = st.channel.dirty
  dirty_after (failed st) = st.channel.dirty
  dirty_after crashed = false

  channel_read-dirty :
      (st : Parser V) (o : Option ChannelAttrs)
      → st.channel.dirty ≡ false
      → dirty_after (channel_read users st o) ≡ false
  unfolding channel_read lock_channel
  channel_read-dirty st none h = h
  channel_read-dirty st (some a) h = ground (arith, h)

  parsed-dirty :
      (st : Parser V) (fullpath : Text) (t : GType) (tree : Forest V) (o : Option V)
      → st.channel.dirty ≡ false
      → dirty_after (parsed ops st fullpath t tree o) ≡ false
  unfolding parsed opened
  parsed-dirty st fullpath t tree none h = h
  parsed-dirty st fullpath t tree (some v) h = h

  read_value-dirty :
      (st : Parser V) (fullpath type : Text) (value : Option Text) (tree : Forest V)
      → st.channel.dirty ≡ false
      → dirty_after (read_value ops st fullpath type value tree) ≡ false
  unfolding read_value opened
  read_value-dirty st fullpath type value tree h =
      let p =
        parsed-dirty st fullpath (gtype_from_string type) tree
          (ops.from_string (gtype_from_string type) value) h in
      ground (arith, h, p)

  read_lock-dirty :
      (st : Parser V) (fullpath : Text) (a : PropertyAttrs) (tree : Forest V)
      → st.channel.dirty ≡ false
      → dirty_after (read_lock ops users st fullpath a tree) ≡ false
  unfolding read_lock
  read_lock-dirty st fullpath a tree h = grind (arith, h, read_value-dirty)

  property_at-dirty :
      (st : Parser V) (fullpath : Text) (a : PropertyAttrs) (o : Option (Node V))
      → st.channel.dirty ≡ false
      → dirty_after (property_at ops users st fullpath a o) ≡ false
  unfolding property_at cleared
  property_at-dirty st fullpath a o h = grind (arith, h, read_lock-dirty)

  property_read-dirty :
      (st : Parser V) (o : Option PropertyAttrs)
      → st.channel.dirty ≡ false
      → dirty_after (property_read ops users st o) ≡ false
  unfolding property_read
  property_read-dirty st none h = h
  property_read-dirty st (some a) h =
      let fullpath = strlcat (strlcat (strlcpy st.cur_path) (slash ∷ [])) (text_of a.name) in
      ground
        (arith, h, property_at-dirty st fullpath a (lookup_node st.channel.properties fullpath) h)

  value_read-dirty :
      (st : Parser V) (o : Option ValueAttrs)
      → st.channel.dirty ≡ false
      → dirty_after (value_read ops st o) ≡ false
  unfolding value_read value_typed value_parsed
  value_read-dirty st none h = h
  value_read-dirty st (some a) h = ground (arith, h)

  start_at-dirty :
      (st : Parser V) (element : Text) (attrs : Attributes) (x : Elem)
      → st.channel.dirty ≡ false
      → dirty_after (start_at ops users st element attrs x) ≡ false
  unfolding start_at handle_channel handle_property handle_value
  start_at-dirty st element attrs none_open h =
      ground (arith, h, channel_read-dirty st (channel_attrs attrs no_channel_attrs) h)
  start_at-dirty st element attrs in_channel h =
      ground (arith, h, property_read-dirty st (property_attrs attrs no_property_attrs) h)
  start_at-dirty st element attrs in_property h = ground (
    arith,
    h,
    property_read-dirty st (property_attrs attrs no_property_attrs) h,
    value_read-dirty st (value_attrs attrs no_value_attrs) h,
  )
  start_at-dirty st element attrs in_value h = h

  end_elem-dirty : (st : Parser V) → (end_elem st).channel.dirty ≡ st.channel.dirty
  unfolding end_elem end_at leave_property
  end_elem-dirty st = ground arith

  parse-dirty :
      (st : Parser V) (events : List Event)
      → st.channel.dirty ≡ false
      → dirty_after (parse ops users st events) ≡ false
  unfolding parse start_elem
  parse-dirty st [] h = h
  parse-dirty st (malformed ∷ rest) h = h
  parse-dirty st (finish ∷ rest) h = parse-dirty (end_elem st) rest (end_elem-dirty st ∙ h)
  parse-dirty st (start element attrs ∷ rest) h =
      let after = start_at-dirty st element attrs st.cur_elem h in
      elim (Outcome-cases (start_at ops users st element attrs st.cur_elem)) [
        | inl (st', e) ↦
            rw (parse, start_elem, e)
              (parse-dirty st' rest (subst (λ o. dirty_after o ≡ false) e after))
        | inr (inl (st', e)) ↦
            rw (parse, start_elem, e) (subst (λ o. dirty_after o ≡ false) e after)
        | inr (inr e) ↦ rw (parse, start_elem, e) refl
      ]

  -- the flag of a channel that files were read into
  abbrev dirty_of : Outcome (Channel V) → Bool
  dirty_of (fine ch) = ch.dirty
  dirty_of (failed ch) = ch.dirty
  dirty_of crashed = false

  channel_of-dirty : (o : Outcome (Parser V)) → dirty_of (channel_of ops users o) ≡ dirty_after o
  unfolding channel_of
  channel_of-dirty (fine st) = refl
  channel_of-dirty (failed st) = refl
  channel_of-dirty crashed = refl

  merge_file-dirty :
      (events : Option (List Event)) (is_system_file : Bool) (ch : Channel V)
      → ch.dirty ≡ false
      → dirty_of (merge_file ops users events is_system_file ch) ≡ false
  unfolding merge_file
  merge_file-dirty none is_system_file ch h = h
  merge_file-dirty (some events) is_system_file ch h =
      channel_of-dirty (parse ops users (begin ops users is_system_file ch) events)
      ∙ parse-dirty (begin ops users is_system_file ch) events h

  merge_system-dirty :
      (files : Files) (names : List Text) (ch : Channel V)
      → ch.dirty ≡ false
      → dirty_of (merge_system ops users files names ch) ≡ false
  unfolding merge_system
  merge_system-dirty files [] ch h = h
  merge_system-dirty files (name ∷ rest) ch h =
      let merged = merge_file-dirty (files.contents name) true ch h in
      let skipped = merge_system-dirty files rest ch h in
      elim (Outcome-cases (merge_file ops users (files.contents name) true ch)) [
        | inl (ch', m) ↦
            let more =
              merge_system-dirty files rest ch' (subst (λ o. dirty_of o ≡ false) m merged) in
            ground (arith, m, more, skipped)
        | inr (inl (ch', m)) ↦
            let more =
              merge_system-dirty files rest ch' (subst (λ o. dirty_of o ≡ false) m merged) in
            ground (arith, m, more, skipped)
        | inr (inr m) ↦ ground (arith, m, skipped)
      ]

  merge_user-dirty :
      (files : Files) (o : Outcome (Channel V))
      → dirty_of o ≡ false
      → dirty_of (merge_user ops users files o) ≡ false
  unfolding merge_user
  merge_user-dirty files crashed h = h
  merge_user-dirty files (failed ch) h = h
  merge_user-dirty files (fine ch) h = elim (Option-cases files.user_file) [
    | inl e ↦ rw (merge_user, e) h
    | inr (name, e) ↦
        let merged = merge_file-dirty (files.contents name) false ch h in
        ground (arith, e, merged, h)
  ]

  -- What the files of the names that are asked for give: a disk that the reader has read.
  abbrev pub IsRead : Disk V → Type ℓ
  IsRead disk =
      (name : Text) → (files : Files) × (load_channel ops users files ≡ fine (disk.load name))

  pub load_channel-dirty :
      (files : Files) (ch : Channel V)
      → load_channel ops users files ≡ fine (ok ch)
      → ch.dirty ≡ false
  unfolding load_channel
  load_channel-dirty files ch e =
      let merged =
        merge_user-dirty files
          (merge_system ops users files (reverse files.filenames) empty_channel)
          (merge_system-dirty files (reverse files.filenames) empty_channel refl) in
      ground (arith, e, merged)

  pub IsRead-IsClean : (disk : Disk V) → IsRead disk → IsClean disk
  IsRead-IsClean disk read name channel e =
      let (files, k) = read name in load_channel-dirty files channel (k ∙ ap (λ r. fine r) e)
