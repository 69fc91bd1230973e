-- ===== src/Xml/Policy/Elements.antt =====
-- The other elements of a user's file, and the ends of elements:
-- blconf_xml_handle_channel, blconf_xml_handle_value, blconf_backend_perchannel_xml_start_elem and
-- blconf_backend_perchannel_xml_end_elem of blconfd/blconf-backend-perchannel-xml.c.
use blconf.Base.{
  ◌≡◌, refl, sym, ap, subst, true, false, not, ◌&&◌, ◌||◌, inl, inr, Option, none, some, [], ◌∷◌,
  Text, arith, Option-cases, Bool-cases, str_eq, codes, is_some, before_last_slash,
}
use blconf.Tree.{modify_at}
use blconf.Perchannel.Channels.{Channel}
use blconf.Xml.Types.{GType, gtype_from_string, ValueOps, Users}
use blconf.Xml.Attributes.{
  Attributes, ChannelAttrs, ValueAttrs, channel_attrs, no_channel_attrs, value_attrs,
  no_value_attrs, is_given, text_of, version_fits,
}
use blconf.Xml.Element.{
  Elem, none_open, in_channel, in_property, in_value, Parser, fine, path_of, handle_channel,
  channel_read, is_invalid, is_empty, is_array,
}
use blconf.Xml.Handlers.{
  add_member, value_parsed, value_typed, value_read, handle_value, start_at, start_elem,
  leave_property, end_at,
}
use blconf.Xml.Locks.{KeepsLocks, KeepsLocks-refl, OnlyValue, modify_at-KeepsLocks}
use blconf.Xml.Policy.Clearing.{handle_property-Ends}
use blconf.Xml.Policy.{Good, Ends, ListFree, tree_of, stays}

module _ {ℓ} {V : Type ℓ} (ops : ValueOps V) (users : Users) where
  pub same_tree :
      (st st' : Parser V)
      → st'.is_system_file ≡ st.is_system_file
      → st'.channel ≡ st.channel
      → Good st st'
  same_tree st st' u c = record {
    user = u;
    channel_lock = ap (λ (x : Channel V). x.locked) c;
    locks =
        subst (λ f. KeepsLocks (tree_of st) f) (sym (ap (λ (x : Channel V). x.properties) c))
          (KeepsLocks-refl (tree_of st));
  }

  channel_read-Ends :
      (st : Parser V) (o : Option ChannelAttrs)
      → st.is_system_file ≡ false
      → ListFree st
      → Ends st (channel_read users st o)
  unfolding channel_read
  channel_read-Ends st none user free = same_tree st st refl refl
  channel_read-Ends st (some a) user free =
      elim (Bool-cases (not (is_given a.name) || not (is_given a.version))) [
        | inl e ↦ rw e (same_tree st st refl refl)
        | inr e ↦ elim (Bool-cases (version_fits (text_of a.version))) [
          | inr v ↦ rw (e, v) (same_tree st st refl refl)
          | inl v ↦ elim (Bool-cases (is_given a.locked || is_given a.unlocked)) [
            | inr g ↦ rw (e, v, g) (stays st _ free (same_tree st _ refl refl) refl)
            | inl g ↦
                let on : not st.is_system_file ≡ true = ap not user in
                rw (e, v, g, on) (same_tree st st refl refl)
          ]
        ]
      ]

  handle_channel-Ends :
      (st : Parser V) (attrs : Attributes)
      → st.is_system_file ≡ false
      → ListFree st
      → Ends st (handle_channel users st attrs)
  unfolding handle_channel
  handle_channel-Ends st attrs user free =
      channel_read-Ends st (channel_attrs attrs no_channel_attrs) user free

  only_member : (v : V) → OnlyValue (add_member ops false v)
  unfolding add_member
  only_member v = record { name = λ r. refl; locked = λ r. refl; system_value = λ r. refl }

  value_parsed-Ends :
      (st : Parser V) (o : Option V) (lp : Text)
      → st.is_system_file ≡ false
      → ListFree st
      → st.list_property ≡ some lp
      → Ends st (value_parsed ops st o)
  unfolding value_parsed
  value_parsed-Ends st none lp user free e = same_tree st st refl refl
  value_parsed-Ends st (some v) lp user free e =
      let keeps =
        modify_at-KeepsLocks (add_member ops false v) (path_of lp) (tree_of st) (only_member v)
          (free lp e) in
      let member =
        subst
          (λ b. KeepsLocks (tree_of st) (modify_at (add_member ops b v) (path_of lp) (tree_of st)))
          (sym user) keeps in
      let here =
        subst
          (λ l.
            KeepsLocks (tree_of st)
              (modify_at (add_member ops st.is_system_file v) (path_of (text_of l)) (tree_of st)))
          (sym e) member in
      stays st _ free (record { user = refl; channel_lock = refl; locks = here }) refl

  value_typed-Ends :
      (st : Parser V) (t : GType) (value : Option Text) (lp : Text)
      → st.is_system_file ≡ false
      → ListFree st
      → st.list_property ≡ some lp
      → Ends st (value_typed ops st t value)
  unfolding value_typed
  value_typed-Ends st t value lp user free e =
      elim (Bool-cases (is_array t || (is_invalid t || is_empty t))) [
        | inl h ↦ rw h (same_tree st st refl refl)
        | inr h ↦ rw h (value_parsed-Ends st (ops.from_string t value) lp user free e)
      ]

  value_read-Ends :
      (st : Parser V) (o : Option ValueAttrs) (lp : Text)
      → st.is_system_file ≡ false
      → ListFree st
      → st.list_property ≡ some lp
      → Ends st (value_read ops st o)
  unfolding value_read
  value_read-Ends st none lp user free e = same_tree st st refl refl
  value_read-Ends st (some a) lp user free e = elim (Option-cases a.type) [
    | inl t ↦ rw t tt
    | inr (type, t) ↦ rw t (value_typed-Ends st (gtype_from_string type) a.value lp user free e)
  ]

  handle_value-Ends :
      (st : Parser V) (attrs : Attributes) (lp : Text)
      → st.is_system_file ≡ false
      → ListFree st
      → st.list_property ≡ some lp
      → Ends st (handle_value ops st attrs)
  unfolding handle_value
  handle_value-Ends st attrs lp user free e =
      value_read-Ends st (value_attrs attrs no_value_attrs) lp user free e

  start_at-Ends :
      (st : Parser V) (element : Text) (attrs : Attributes) (x : Elem)
      → st.is_system_file ≡ false
      → st.channel.locked ≡ false
      → ListFree st
      → Ends st (start_at ops users st element attrs x)
  unfolding start_at
  start_at-Ends st element attrs none_open user chan free =
      elim (Bool-cases (str_eq element (codes "channel"))) [
        | inl e ↦ rw e (handle_channel-Ends st attrs user free)
        | inr e ↦ rw e (same_tree st st refl refl)
      ]
  start_at-Ends st element attrs in_channel user chan free =
      elim (Bool-cases (str_eq element (codes "property"))) [
        | inl e ↦ rw e (handle_property-Ends ops users st attrs user chan free)
        | inr e ↦ rw e (same_tree st st refl refl)
      ]
  start_at-Ends st element attrs in_property user chan free =
      elim (Bool-cases (str_eq element (codes "property"))) [
        | inl e ↦ rw e (handle_property-Ends ops users st attrs user chan free)
        | inr e ↦ elim (Bool-cases (is_some st.list_property && str_eq element (codes "value"))) [
          | inr v ↦ rw (e, v) (same_tree st st refl refl)
          | inl v ↦ elim (Option-cases st.list_property) [
            | inl l ↦ absurd (ground (arith, v, l))
            | inr (lp, l) ↦ rw (e, v) (handle_value-Ends st attrs lp user free l)
          ]
        ]
      ]
  start_at-Ends st element attrs in_value user chan free = same_tree st st refl refl

  pub start_elem-Ends :
      (st : Parser V) (element : Text) (attrs : Attributes)
      → st.is_system_file ≡ false
      → st.channel.locked ≡ false
      → ListFree st
      → Ends st (start_elem ops users st element attrs)
  unfolding start_elem
  start_elem-Ends st element attrs user chan free =
      start_at-Ends st element attrs st.cur_elem user chan free

  -- a step that closes the array and leaves the tree
  closes : (st st' : Parser V) → Good st st' → st'.list_property ≡ none → Ends st (fine st')
  closes st st' g e = (g, λ lp h. absurd (cc (e, h)))

  leave_property-Ends : (st : Parser V) (o : Option Text) → Ends st (fine (leave_property st o))
  unfolding leave_property
  leave_property-Ends st none = closes st _ (same_tree st _ refl refl) refl
  leave_property-Ends st (some []) = closes st _ (same_tree st _ refl refl) refl
  leave_property-Ends st (some (c ∷ s)) = closes st _ (same_tree st _ refl refl) refl

  pub end_at-Ends : (st : Parser V) (x : Elem) → ListFree st → Ends st (fine (end_at st x))
  unfolding end_at
  end_at-Ends st none_open free = stays st _ free (same_tree st _ refl refl) refl
  end_at-Ends st in_channel free = stays st _ free (same_tree st _ refl refl) refl
  end_at-Ends st in_property free = leave_property-Ends st (before_last_slash st.cur_path)
  end_at-Ends st in_value free = stays st _ free (same_tree st _ refl refl) refl
