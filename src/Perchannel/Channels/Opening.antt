-- ===== src/Perchannel/Channels/Opening.antt =====
-- How the operations of blconfd/blconf-backend-perchannel-xml.c find a channel whose name is in lower case.
use blconf.Base.{◌≡◌, refl, inl, inr, some, none, Text, str_eq_refl, Option-cases, arith}
use blconf.Backend.Error.{Result, ok, err, Result-cases}
use blconf.Tree.Visit.{Table, table_lookup, table_insert}
use blconf.Tree.Tables.{lookup-insert}
use blconf.Perchannel.Channels.{
  Channel, State, Disk, Handle, strdown, open_channel, open_or_create, load_channel, or_create,
}

module _ {ℓ} {V : Type ℓ} where
  -- A channel whose name is in lower case stands in the table under its name once it is opened.
  abbrev pub InTable : Text → Handle V × State V → Type ℓ
  InTable name r = (r.0.key ≡ name) × (table_lookup name r.1.channels ≡ some r.0.channel)

  pub inserted :
      (name : Text) (ch : Channel V) (t : Table (Channel V))
      → table_lookup name (table_insert name ch t) ≡ some ch
  inserted name ch t = rw (lookup-insert name name ch t, str_eq_refl name)

  created-InTable :
      (disk : Disk V) (st : State V) (name : Text)
      → strdown name ≡ name
      → table_lookup name st.channels ≡ none
      → InTable name (or_create name (load_channel disk st name))
  unfolding or_create load_channel
  created-InTable disk st name low e = elim (Result-cases (disk.load name)) [
    | inl (ch, l) ↦ rw (l, low) (refl, inserted name ch st.channels)
    | inr (x, l) ↦ rw (l, e, low) (refl, inserted name _ st.channels)
  ]

  pub open_or_create-InTable :
      (disk : Disk V) (st : State V) (name : Text)
      → strdown name ≡ name
      → InTable name (open_or_create disk st name)
  unfolding open_or_create
  open_or_create-InTable disk st name low = elim (Option-cases (table_lookup name st.channels)) [
    | inr (ch, e) ↦ rw e (refl, e)
    | inl e ↦ rw e (created-InTable disk st name low e)
  ]

  pub open-InTable :
      (disk : Disk V) (st : State V) (name : Text) (ch : Channel V)
      → table_lookup name st.channels ≡ some ch
      → open_channel disk st name ≡ (ok (record { key = name; channel = ch }), st)
  unfolding open_channel
  open-InTable disk st name ch e = rw e

  or_create-ok :
      (name : Text) (h : Handle V) (r : Result (Handle V) × State V)
      → r.0 ≡ ok h
      → or_create name r ≡ (h, r.1)
  unfolding or_create
  or_create-ok name h (ok g, st) e = ground (arith, e)
  or_create-ok name h (err x, st) e = absurd (ground (arith, e))

  pub open_or_create-ok :
      (disk : Disk V) (st : State V) (name : Text) (h : Handle V)
      → (open_channel disk st name).0 ≡ ok h
      → open_or_create disk st name ≡ (h, (open_channel disk st name).1)
  unfolding open_or_create
  open_or_create-ok disk st name h e = or_create-ok name h (open_channel disk st name) e
