-- ===== src/Xml/Merge.antt =====
-- Reading a user's file into a channel that the system files have given:
-- blconf_backend_perchannel_xml_merge_file and the end of blconf_backend_perchannel_xml_load_channel of
-- blconfd/blconf-backend-perchannel-xml.c.
use blconf.Base.{
  ◌≡◌, refl, sym, subst, ◌∙◌, ◌⊎◌, Bool, true, false, if◌then◌else◌, inl, inr, Option, none, some,
  List, [], ◌∷◌, arith, Option-cases, Bool-cases, Text,
}
use blconf.Perchannel.Channels.{Channel}
use blconf.Xml.Types.{ValueOps, Users}
use blconf.Xml.Element.{Parser, Outcome, fine, failed, crashed}
use blconf.Xml.Handlers.{start_elem, end_elem}
use blconf.Xml.Load.{
  Event, start, finish, malformed, Files, parse, channel_of, begin, merge_file, merge_user,
}
use blconf.Tree.Paths.{seen, view}
use blconf.Xml.Locks.{lock_at, KeepsLocks, KeepsLocks-refl, KeepsLocks-trans}
use blconf.Xml.Policy.{Good, Ends, ListFree}
use blconf.Xml.Policy.Elements.{start_elem-Ends, end_at-Ends, same_tree}

pub Outcome-cases {κ} :
    {A : Type κ} (o : Outcome A)
    → ((a : A) × (o ≡ fine a)) ⊎ (((a : A) × (o ≡ failed a)) ⊎ (o ≡ crashed))
Outcome-cases (fine a) = inl (a, refl)
Outcome-cases (failed a) = inr (inl (a, refl))
Outcome-cases crashed = inr (inr refl)

module _ {ℓ} {V : Type ℓ} (ops : ValueOps V) (users : Users) where
  -- What is left of a channel once a user's file has been read into it.
  abbrev Leaves : Parser V → Outcome (Parser V) → Type ℓ
  Leaves st (fine st') = Good st st'
  Leaves st (failed st') = Good st st'
  Leaves st crashed = Unit

  Leaves-trans :
      (st st' : Parser V) (o : Outcome (Parser V)) → Good st st' → Leaves st' o → Leaves st o
  Leaves-trans st st' (fine x) g h = record {
    user = h.user ∙ g.user;
    channel_lock = h.channel_lock ∙ g.channel_lock;
    locks = KeepsLocks-trans _ _ _ g.locks h.locks;
  }
  Leaves-trans st st' (failed x) g h = record {
    user = h.user ∙ g.user;
    channel_lock = h.channel_lock ∙ g.channel_lock;
    locks = KeepsLocks-trans _ _ _ g.locks h.locks;
  }
  Leaves-trans st st' crashed g h = tt

  parse-Leaves :
      (st : Parser V) (events : List Event)
      → st.is_system_file ≡ false
      → st.channel.locked ≡ false
      → ListFree st
      → Leaves st (parse ops users st events)
  unfolding parse end_elem
  parse-Leaves st [] user chan free = same_tree ops users st st refl refl
  parse-Leaves st (malformed ∷ rest) user chan free = same_tree ops users st st refl refl
  parse-Leaves st (finish ∷ rest) user chan free =
      let (g, free') = end_at-Ends ops users st st.cur_elem free in
      Leaves-trans st (end_elem st) (parse ops users (end_elem st) rest) g
        (parse-Leaves (end_elem st) rest (g.user ∙ user) (g.channel_lock ∙ chan) free')
  parse-Leaves st (start element attrs ∷ rest) user chan free =
      let ends = start_elem-Ends ops users st element attrs user chan free in
      elim (Outcome-cases (start_elem ops users st element attrs)) [
        | inl (st', e) ↦
            let (g, free') = subst (Ends st) e ends in
            let more = parse-Leaves st' rest (g.user ∙ user) (g.channel_lock ∙ chan) free' in
            rw (Leaves, parse, e) (Leaves-trans st st' (parse ops users st' rest) g more)
        | inr (inl (st', e)) ↦ rw (Leaves, parse, e) (subst (Ends st) e ends)
        | inr (inr e) ↦ rw (Leaves, parse, e) tt
      ]

  -- What reading a user's file leaves of a channel.
  abbrev Keeps : Channel V → Outcome (Channel V) → Type ℓ
  Keeps ch (fine ch') = (ch'.locked ≡ ch.locked) × KeepsLocks ch.properties ch'.properties
  Keeps ch (failed ch') = (ch'.locked ≡ ch.locked) × KeepsLocks ch.properties ch'.properties
  Keeps ch crashed = Unit

  channel_of-Keeps :
      (st : Parser V) (o : Outcome (Parser V))
      → Leaves st o
      → Keeps st.channel (channel_of ops users o)
  unfolding channel_of
  channel_of-Keeps st (fine st') g = (g.channel_lock, g.locks)
  channel_of-Keeps st (failed st') g = (g.channel_lock, g.locks)
  channel_of-Keeps st crashed g = tt

  merge_file-Keeps :
      (events : Option (List Event)) (ch : Channel V)
      → ch.locked ≡ false
      → Keeps ch (merge_file ops users events false ch)
  unfolding merge_file
  merge_file-Keeps none ch chan = (refl, KeepsLocks-refl ch.properties)
  merge_file-Keeps (some events) ch chan = channel_of-Keeps (begin ops users false ch) _ (
      parse-Leaves (begin ops users false ch) events refl chan (λ lp h. absurd (ground (arith, h))))

  unless_locked :
      (ch : Channel V) (b : Bool) (o : Outcome (Channel V))
      → b ≡ false
      → Keeps ch o
      → Keeps ch (if b then fine ch else o)
  unless_locked ch true o l k = absurd (cc l)
  unless_locked ch false o l k = k

  merge_user-Keeps :
      (files : Files) (ch : Channel V) → Keeps ch (merge_user ops users files (fine ch))
  unfolding merge_user
  merge_user-Keeps files ch = elim (Option-cases files.user_file) [
    | inl e ↦ rw (Keeps, merge_user, e) (refl, KeepsLocks-refl ch.properties)
    | inr (name, e) ↦ elim (Bool-cases ch.locked) [
      | inl l ↦ rw (Keeps, merge_user, e, l) (sym l, KeepsLocks-refl ch.properties)
      | inr l ↦
          let keeps = merge_file-Keeps (files.contents name) ch l in
          elim (Outcome-cases (merge_file ops users (files.contents name) false ch)) [
            | inl (ch', m) ↦
                rw (merge_user, e, m) (unless_locked ch ch.locked _ l (subst (Keeps ch) m keeps))
            | inr (inl (ch', m)) ↦
                rw (merge_user, e, m) (unless_locked ch ch.locked _ l (subst (Keeps ch) m keeps))
            | inr (inr m) ↦ rw (merge_user, e, m) (unless_locked ch ch.locked _ l tt)
          ]
    ]
  ]

  -- A user's file, well formed or not, cannot touch what the system files have locked: once it is
  -- read into the channel, the channel's lock, the lock and the system's value of the property at
  -- any path are as they were, and so is its value if there is a lock.
  pub merge_user-lock_at :
      (files : Files) (ch ch' : Channel V) (qs : List Text)
      → merge_user ops users files (fine ch) ≡ fine ch'
      → (ch'.locked ≡ ch.locked)
        × (lock_at qs ch'.properties ≡ lock_at qs ch.properties)
        × ((seen (view qs ch'.properties)).1 ≡ (seen (view qs ch.properties)).1)
        × ((lock_at qs ch.properties ≡ false)
            ⊎ ((seen (view qs ch'.properties)).0 ≡ (seen (view qs ch.properties)).0))
  merge_user-lock_at files ch ch' qs h =
      let (chan, keeps) = subst (Keeps ch) h (merge_user-Keeps files ch) in
      let (lock, system, value) = keeps.at qs in
      elim (Bool-cases (lock_at qs ch.properties)) [
        | inl l ↦ (chan, lock, system, inr (value l))
        | inr l ↦ (chan, lock, system, inl l)
      ]
