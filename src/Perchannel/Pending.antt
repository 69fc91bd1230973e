-- ===== src/Perchannel/Pending.antt =====
-- The timer of blconfd/blconf-backend-perchannel-xml.c: each operation leaves it running where a channel waits
-- to be written.
use blconf.Base.{
  ◌≡◌, sym, ap, subst, ◌∙◌, Bool, true, false, Bool-cases, inl, inr, Option, none, some,
  Option-cases, List, [], Text,
}
use blconf.Backend.Error.{Result, ok, err, Result-cases}
use blconf.Tree.{Forest, Node, lookup_node, tree_reset}
use blconf.Tree.Visit.{table_lookup, table_insert, table_remove, effective, reset_values}
use blconf.Tree.Keys.{IsKeyed, remove-IsKeyed, remove-some}
use blconf.Perchannel.Channels.{
  State, Disk, Handle, open_channel, load_channel, or_create, open_or_create, create_channel,
  notify, notify_all, schedule_save, store,
}
use blconf.Perchannel.{set, set_found, changed, with_tree, same_value, is_whole}
use blconf.Perchannel.Reset.{
  reset, reset_in, reset_one, reset_found, reset_below, reset_channel, set_tree,
}
use blconf.Perchannel.Timed.{
  Timed, IsClean, insert-Timed, schedule_save-Timed, notify-channels, notify_all-channels,
  notify_all-pending,
}

module _ {ℓ} {V : Type ℓ} where
  -- A channel that is opened is one of the table, or has nothing to be written.
  abbrev Opened : Result (Handle V) × State V → Type ℓ
  Opened (err e, st) = Timed st
  Opened (ok h, st) = Timed st × (h.channel.dirty ≡ true → st.save_pending ≡ true)

  load_channel-Opened :
      (disk : Disk V) (st : State V) (name : Text)
      → IsClean disk
      → Timed st
      → Opened (load_channel disk st name)
  unfolding load_channel
  load_channel-Opened disk st name clean t = elim (Result-cases (disk.load name)) [
    | inl (channel, e) ↦ rw e (
      insert-Timed _ channel st t (λ d. cc (clean name channel e, d)),
      λ d. cc (clean name channel e, d),
    )
    | inr (x, e) ↦ rw e t
  ]

  open_channel-Opened :
      (disk : Disk V) (st : State V) (name : Text)
      → IsClean disk
      → Timed st
      → Opened (open_channel disk st name)
  unfolding open_channel
  open_channel-Opened disk st name clean t = elim (Option-cases (table_lookup name st.channels)) [
    | inl e ↦ rw e (load_channel-Opened disk st name clean t)
    | inr (channel, e) ↦ rw e (t, λ d. t.timed name channel e d)
  ]

  opened : (r : Result (Handle V) × State V) → Opened r → Timed r.1
  opened (ok h, st) o = o.0
  opened (err e, st) o = o

  or_create-Opened :
      (name : Text) (r : Result (Handle V) × State V) → Opened r → Timed (or_create name r).1
  unfolding or_create create_channel
  or_create-Opened name (ok h, st) o = o.0
  or_create-Opened name (err e, st) t = elim (Option-cases (table_lookup name st.channels)) [
    | inl k ↦ rw k (insert-Timed _ _ st t (λ d. cc d))
    | inr (channel, k) ↦ rw k t
  ]

  told-Timed :
      (h : Handle V) (name property : Text) (st : State V)
      → Timed st
      → Timed (schedule_save h (notify name property st))
  told-Timed h name property st t =
      schedule_save-Timed h (notify name property st)
        (subst (λ c. IsKeyed c) (sym (notify-channels name property st)) t.keyed)

  all_told-Timed :
      (h : Handle V) (name : Text) (names : List Text) (st : State V)
      → Timed st
      → Timed (schedule_save h (notify_all name names st))
  all_told-Timed h name names st t =
      schedule_save-Timed h (notify_all name names st)
        (subst (λ c. IsKeyed c) (sym (notify_all-channels name names st)) t.keyed)

  changed-Timed :
      (h : Handle V) (name property : Text) (tree : Forest V) (st : State V)
      → Timed st
      → Timed (changed h name property tree st).1
  unfolding changed
  changed-Timed h name property tree st t = told-Timed (with_tree h tree) name property st t

  remove-Timed :
      (k : Text) (st : State V)
      → Timed st
      → Timed (record st { channels = table_remove k st.channels })
  remove-Timed k st t = record {
    keyed = remove-IsKeyed k st.channels t.keyed;
    timed = λ name found e d. t.timed name found (remove-some k name found st.channels t.keyed e) d;
  }

  notify_all-Timed :
      (name : Text) (names : List Text) (st : State V) → Timed st → Timed (notify_all name names st)
  notify_all-Timed name names st t = record {
    keyed = subst (λ c. IsKeyed c) (sym (notify_all-channels name names st)) t.keyed;
    timed = λ k found e d.
        notify_all-pending name names st
        ∙ t.timed k found (sym (ap (table_lookup k) (notify_all-channels name names st)) ∙ e) d;
  }

  set_found-Timed :
      (equal : V → V → Bool) (h : Handle V) (name property : Text) (v : V) (o : Option (Node V))
      (st : State V)
      → Timed st
      → Timed (set_found equal h name property v o st).1
  unfolding set_found
  set_found-Timed equal h name property v none st t = changed-Timed h name property _ st t
  set_found-Timed equal h name property v (some n) st t = elim (Bool-cases n.prop.locked) [
    | inl e ↦ rw e t
    | inr e ↦ elim (Bool-cases (same_value equal (effective n.prop) v)) [
      | inl k ↦ rw (e, k) t
      | inr k ↦ rw (e, k) (changed-Timed h name property _ st t)
    ]
  ]

  pub set-Timed :
      (equal : V → V → Bool) (disk : Disk V) (st : State V) (name property : Text) (v : V)
      → IsClean disk
      → Timed st
      → Timed (set equal disk st name property v).1
  unfolding set open_or_create
  set-Timed equal disk st name property v clean t =
      set_found-Timed equal (open_or_create disk st name).0 name property v _
        (open_or_create disk st name).1
        (or_create-Opened name (open_channel disk st name)
          (open_channel-Opened disk st name clean t))

  reset_channel-Timed :
      (disk : Disk V) (h : Handle V) (name : Text) (st : State V)
      → Timed st
      → (h.channel.dirty ≡ true → st.save_pending ≡ true)
      → Timed (reset_channel disk h name st).1
  unfolding reset_channel store set_tree
  reset_channel-Timed disk h name st t d =
      let (tree, names) = reset_values [] h.channel.properties in
      let unset = record h.channel { properties = tree } in
      let told = notify_all name names st in
      let stored =
        insert-Timed h.key unset told (notify_all-Timed name names st t)
          (λ e. notify_all-pending name names st ∙ d e) in
      let removed =
        remove-Timed name (record told { channels = table_insert h.key unset told.channels })
          stored in
      elim (Bool-cases (disk.unlink_fails name)) [
        | inl e ↦ rw (reset_channel, e) removed
        | inr e ↦ rw (reset_channel, e) removed
      ]

  reset_one-Timed :
      (h : Handle V) (name property : Text) (o : Option (Forest V)) (st : State V)
      → Timed st
      → Timed (reset_one h name property o st).1
  unfolding reset_one
  reset_one-Timed h name property none st t = t
  reset_one-Timed h name property (some tree) st t = told-Timed (set_tree h tree) name property st t

  reset_found-Timed :
      (h : Handle V) (name property : Text) (o : Option (Node V)) (st : State V)
      → Timed st
      → Timed (reset_found h name property o st).1
  unfolding reset_found
  reset_found-Timed h name property none st t = t
  reset_found-Timed h name property (some n) st t =
      let (tree, names) = reset_below property h.channel.properties n in
      all_told-Timed (set_tree h tree) name names st t

  reset_in-Timed :
      (disk : Disk V) (name property : Text) (recursive : Bool) (r : Result (Handle V))
      (st : State V)
      → Opened (r, st)
      → Timed (reset_in disk name property recursive r st).1
  unfolding reset_in
  reset_in-Timed disk name property recursive (err e) st t = t
  reset_in-Timed disk name property false (ok h) st (t, d) =
      reset_one-Timed h name property (tree_reset h.channel.properties property) st t
  reset_in-Timed disk name property true (ok h) st (t, d) = elim (Bool-cases (is_whole property)) [
    | inl e ↦ rw e (reset_channel-Timed disk h name st t d)
    | inr e ↦
        rw e (reset_found-Timed h name property (lookup_node h.channel.properties property) st t)
  ]

  pub reset-Timed :
      (disk : Disk V) (st : State V) (name property : Text) (recursive : Bool)
      → IsClean disk
      → Timed st
      → Timed (reset disk st name property recursive).1
  unfolding reset
  reset-Timed disk st name property recursive clean t =
      reset_in-Timed disk name property recursive (open_channel disk st name).0
        (open_channel disk st name).1 (open_channel-Opened disk st name clean t)

  pub open_channel-Timed :
      (disk : Disk V) (st : State V) (name : Text)
      → IsClean disk
      → Timed st
      → Timed (open_channel disk st name).1
  open_channel-Timed disk st name clean t =
      opened (open_channel disk st name) (open_channel-Opened disk st name clean t)
