-- ===== src/Perchannel/Case.antt =====
-- The keys of the table of channels in blconfd/blconf-backend-perchannel-xml.c: a channel is inserted
-- under its name in lower case, and looked up under the name as it was given.
use blconf.Base.{
  ◌≡◌, refl, ap, ◌≢◌, inl, inr, Bool, true, Option, none, some, List, [], ◌∷◌, Text, str_eq,
  str_eq_iff, arith, Bool-cases, Option-cases,
}
use blconf.Backend.Error.{Result-cases}
use blconf.Tree.Visit.{table_lookup, table_insert, effective}
use blconf.Tree.{Forest, Node, lookup_node}
use blconf.Tree.Tables.{lookup-insert}
use blconf.Perchannel.Channels.{
  Channel, State, Disk, Handle, strdown, open_channel, open_or_create, load_channel, or_create,
  init, notify,
}
use blconf.Perchannel.{set, set_found, changed, same_value, get, get_in}

-- g_ascii_strdown leaves nothing to do for a second call.
pub strdown-strdown : (s : Text) → strdown (strdown s) ≡ strdown s
unfolding strdown
strdown-strdown [] = refl
strdown-strdown (c ∷ s) = ground (arith, strdown-strdown s)

module _ {ℓ} {V : Type ℓ} where
  -- No channel stands under a name that is not in lower case.
  pub record KeysLower (st : State V) : Type ℓ where
    pub lower : (k : Text) → strdown k ≢ k → table_lookup k st.channels ≡ none

  insert-KeysLower :
      (st : State V) (k : Text) (ch : Channel V) (b l : Bool) (n : List (Text × Text))
      → strdown k ≡ k
      → KeysLower st
      → KeysLower (record {
        channels = table_insert k ch st.channels;
        save_pending = b;
        listening = l;
        notified = n;
      })
  insert-KeysLower st k ch b l n low keys = record {
    lower = λ j up. rw (lookup-insert k j ch st.channels) (elim (Bool-cases (str_eq k j)) [
      | inl e ↦ absurd (up (rw (← (str_eq_iff k j).0 e) low))
      | inr e ↦ rw e (keys.lower j up)
    ]);
  }

  -- A handle that points into the table under a key in lower case.
  abbrev Opened : Handle V × State V → Type ℓ
  Opened r = (strdown r.0.key ≡ r.0.key) × KeysLower r.1

  found_lower :
      (st : State V) (name : Text) (ch : Channel V)
      → KeysLower st
      → table_lookup name st.channels ≡ some ch
      → strdown name ≡ name
  found_lower st name ch keys e = elim (Bool-cases (str_eq (strdown name) name)) [
    | inl t ↦ (str_eq_iff (strdown name) name).0 t
    | inr t ↦ absurd (cc (e, keys.lower name (λ k. cc (t, (str_eq_iff (strdown name) name).1 k))))
  ]

  loaded_or_created :
      (disk : Disk V) (st : State V) (name : Text)
      → KeysLower st
      → table_lookup name st.channels ≡ none
      → Opened (or_create name (load_channel disk st name))
  unfolding or_create load_channel
  loaded_or_created disk st name keys e = elim (Result-cases (disk.load name)) [
    | inl (ch, l) ↦ rw l (
      strdown-strdown name,
      insert-KeysLower st (strdown name) ch st.save_pending st.listening st.notified
          (strdown-strdown name) keys,
    )
    | inr (x, l) ↦
        rw (l, e)
          (
            strdown-strdown name,
            insert-KeysLower st (strdown name) _ st.save_pending st.listening st.notified
                (strdown-strdown name) keys,
          )
  ]

  open_or_create-Opened :
      (disk : Disk V) (st : State V) (name : Text)
      → KeysLower st
      → Opened (open_or_create disk st name)
  unfolding open_or_create
  open_or_create-Opened disk st name keys = elim (Option-cases (table_lookup name st.channels)) [
    | inr (ch, e) ↦ rw e (found_lower st name ch keys e, keys)
    | inl e ↦ rw e (loaded_or_created disk st name keys e)
  ]

  notify-channels :
      (name property : Text) (st : State V) → (notify name property st).channels ≡ st.channels
  unfolding notify
  notify-channels name property st = ground arith

  notify-KeysLower :
      (name property : Text) (st : State V) → KeysLower st → KeysLower (notify name property st)
  notify-KeysLower name property st keys = record {
    lower = λ k up. rw (notify-channels name property st) (keys.lower k up);
  }

  changed-KeysLower :
      (h : Handle V) (name property : Text) (f : Forest V) (st : State V)
      → strdown h.key ≡ h.key
      → KeysLower st
      → KeysLower (changed h name property f st).1
  unfolding changed
  changed-KeysLower h name property f st low keys =
      insert-KeysLower (notify name property st) h.key _ true (notify name property st).listening
        (notify name property st).notified low (notify-KeysLower name property st keys)

  set_found-KeysLower :
      (equal : V → V → Bool) (h : Handle V) (name property : Text) (v : V) (o : Option (Node V))
      (st : State V)
      → strdown h.key ≡ h.key
      → KeysLower st
      → KeysLower (set_found equal h name property v o st).1
  unfolding set_found
  set_found-KeysLower equal h name property v none st low keys =
      changed-KeysLower h name property _ st low keys
  set_found-KeysLower equal h name property v (some n) st low keys =
      elim (Bool-cases n.prop.locked) [
        | inl l ↦ rw l keys
        | inr l ↦ elim (Bool-cases (same_value equal (effective n.prop) v)) [
          | inl s ↦ rw (l, s) keys
          | inr s ↦ rw (l, s) (changed-KeysLower h name property _ st low keys)
        ]
      ]

  -- `set` keeps every key of the table in lower case.
  pub set-KeysLower :
      (equal : V → V → Bool) (disk : Disk V) (st : State V) (name property : Text) (v : V)
      → KeysLower st
      → KeysLower (set equal disk st name property v).1
  unfolding set
  set-KeysLower equal disk st name property v keys =
      let (low, keys') = open_or_create-Opened disk st name keys in
      let (h, st') = open_or_create disk st name in
      set_found-KeysLower equal h name property v (lookup_node h.channel.properties property) st'
        low keys'

  load-same :
      (disk : Disk V) (st st' : State V) (name : Text)
      → (load_channel disk st name).0 ≡ (load_channel disk st' name).0
  unfolding load_channel
  load-same disk st st' name = elim (Result-cases (disk.load name)) [
    | inl (ch, l) ↦ rw l
    | inr (x, l) ↦ rw l
  ]

  -- Under a name that is not in lower case a channel is read from its files at every call.
  open_upper :
      (disk : Disk V) (st : State V) (name : Text)
      → KeysLower st
      → strdown name ≢ name
      → (open_channel disk st name).0 ≡ (open_channel disk init name).0
  unfolding open_channel table_lookup
  open_upper disk st name keys up = rw (keys.lower name up) (load-same disk st init name)

  -- A write to a channel whose name has a capital letter is not seen: after `set`, successful or not,
  -- `get` under that name gives, of every property, what a daemon that has just started gives.
  pub get-set_upper :
      (equal : V → V → Bool) (disk : Disk V) (st : State V) (name property : Text) (v : V)
      (property' : Text)
      → KeysLower st
      → strdown name ≢ name
      → (get disk (set equal disk st name property v).1 name property').0
        ≡ (get disk init name property').0
  unfolding get
  get-set_upper equal disk st name property v property' keys up =
      ap (get_in property')
        (open_upper disk _ name (set-KeysLower equal disk st name property v keys) up)
