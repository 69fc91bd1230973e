-- ===== src/Perchannel/Notify.antt =====
-- What `set` of blconfd/blconf-backend-perchannel-xml.c tells the listener, and when it asks for a save.
use blconf.Base.{
  ◌≡◌, refl, sym, subst, ap, ◌⊎◌, ◌∙◌, inl, inr, Bool, true, Option, none, some, List, [], ◌∷◌,
  ◌++◌, Text, Bool-cases, Option-cases, arith,
}
use blconf.Backend.Error.{Result, ok, err, permission_denied, Result-cases}
use blconf.Tree.{Forest, Node, lookup_node}
use blconf.Tree.Visit.{effective, table_lookup}
use blconf.Perchannel.Channels.{
  State, Disk, Handle, notify, schedule_save, open_channel, open_or_create, load_channel,
  create_channel, or_create,
}
use blconf.Perchannel.{set, set_found, changed, same_value, get_in, value_found}

module _ {ℓ} {V : Type ℓ} where
  -- What an operation leaves of the listener's side of the state.
  abbrev pub Quiet : State V → State V → Type 0
  Quiet st st' =
      (st'.notified ≡ st.notified)
      × (st'.save_pending ≡ st.save_pending)
      × (st'.listening ≡ st.listening)

  create-Quiet : (st : State V) (name : Text) → Quiet st (create_channel st name).1
  unfolding create_channel
  create-Quiet st name = elim (Option-cases (table_lookup name st.channels)) [
    | inl e ↦ rw e (refl, refl, refl)
    | inr (ch, e) ↦ rw e (refl, refl, refl)
  ]

  loaded-Quiet :
      (disk : Disk V) (st : State V) (name : Text)
      → Quiet st (or_create name (load_channel disk st name)).1
  unfolding or_create load_channel
  loaded-Quiet disk st name = elim (Result-cases (disk.load name)) [
    | inl (ch, l) ↦ rw l (refl, refl, refl)
    | inr (x, l) ↦ rw l (create-Quiet st name)
  ]

  open_or_create-Quiet :
      (disk : Disk V) (st : State V) (name : Text) → Quiet st (open_or_create disk st name).1
  unfolding open_or_create open_channel or_create
  open_or_create-Quiet disk st name = elim (Option-cases (table_lookup name st.channels)) [
    | inr (ch, e) ↦ rw e (refl, refl, refl)
    | inl e ↦ rw e (loaded-Quiet disk st name)
  ]

  -- The call succeeded, told the listener once of the property, and asked for a save.
  abbrev pub Told : Text → Text → State V → Result (Unit {0}) × State V → Type 0
  Told name property st r =
      (r.0 ≡ ok tt)
      × (r.1.notified ≡ st.notified ++ (name, property) ∷ [])
      × (r.1.save_pending ≡ true)

  changed-Told :
      (h : Handle V) (name property : Text) (f : Forest V) (st : State V)
      → st.listening ≡ true
      → Told name property st (changed h name property f st)
  unfolding changed notify schedule_save
  changed-Told h name property f st on = rw on (refl, refl, refl)

  -- The call left the state of the opened channel: the property was denied, or has an equal value.
  pub record Unchanged (equal : V → V → Bool) (h : Handle V) (st' : State V) (property : Text)
      (v : V) (r : Result (Unit {0}) × State V) : Type ℓ where
    pub same : r.1 ≡ st'
    pub why :
        (r.0 ≡ err permission_denied)
        ⊎ ((r.0 ≡ ok tt) × (w : V) × (get_in property (ok h) ≡ ok w) × (equal w v ≡ true))

  has_equal :
      (equal : V → V → Bool) (o : Option V) (v : V)
      → same_value equal o v ≡ true
      → (w : V) × (o ≡ some w) × (equal w v ≡ true)
  unfolding same_value
  has_equal equal none v s = absurd (ground (arith, s))
  has_equal equal (some w) v s = (w, refl, s)

  found-Unchanged :
      (equal : V → V → Bool) (h : Handle V) (property : Text) (v : V) (n : Node V) (st : State V)
      → lookup_node h.channel.properties property ≡ some n
      → same_value equal (effective n.prop) v ≡ true
      → Unchanged equal h st property v (ok tt, st)
  unfolding get_in value_found
  found-Unchanged equal h property v n st found s =
      let (w, e, same) = has_equal equal (effective n.prop) v s in
      record { same = refl; why = inr (refl, w, ap value_found found ∙ (ground (arith, e)), same) }

  set_found-Told :
      (equal : V → V → Bool) (h : Handle V) (name property : Text) (v : V) (o : Option (Node V))
      (st : State V)
      → lookup_node h.channel.properties property ≡ o
      → st.listening ≡ true
      → Told name property st (set_found equal h name property v o st)
        ⊎ Unchanged equal h st property v (set_found equal h name property v o st)
  unfolding set_found
  set_found-Told equal h name property v none st found on =
      inl (changed-Told h name property _ st on)
  set_found-Told equal h name property v (some n) st found on = elim (Bool-cases n.prop.locked) [
    | inl l ↦ rw l (inr (record { same = refl; why = inl refl }))
    | inr l ↦ elim (Bool-cases (same_value equal (effective n.prop) v)) [
      | inl s ↦ rw (l, s) (inr (found-Unchanged equal h property v n st found s))
      | inr s ↦ rw (l, s) (inl (changed-Told h name property _ st on))
    ]
  ]

  -- With a listener registered, `set` either succeeds, tells the listener of exactly the property that
  -- was set and schedules a save; or its state is the one that opening the channel gives, which tells
  -- nothing and leaves the save's timeout as it was, and then either permission was denied or the
  -- property had a value that the comparison calls equal to the new one, and the call succeeded.
  pub set-Told :
      (equal : V → V → Bool) (disk : Disk V) (st : State V) (name property : Text) (v : V)
      → st.listening ≡ true
      → Told name property st (set equal disk st name property v)
        ⊎ (Quiet st (set equal disk st name property v).1
            × Unchanged equal
                (open_or_create disk st name).0
                (open_or_create disk st name).1
                property
                v
                (set equal disk st name property v))
  unfolding set
  set-Told equal disk st name property v on =
      let (n, s, l) = open_or_create-Quiet disk st name in
      let (h, st') = open_or_create disk st name in
      elim (set_found-Told equal h name property v (lookup_node h.channel.properties property) st'
        refl (l ∙ on)) [
          | inl (r, n', s') ↦
              inl (r, n' ∙ ap (λ (x : List (Text × Text)). x ++ (name, property) ∷ []) n, s')
          | inr u ↦ inr (subst (Quiet st) (sym u.same) (n, s, l), u)
        ]
