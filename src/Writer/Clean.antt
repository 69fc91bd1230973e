-- ===== src/Writer/Clean.antt =====
-- Which channels wait to be written after blconf_backend_perchannel_xml_flush.
use blconf.Base.{
  ◌≡◌, refl, sym, ap, ◌∙◌, ◌⊎◌, inl, inr, Bool, true, false, Bool-cases, Option, none, some,
  Option-cases, List, [], ◌∷◌, Text, str_eq, str_eq_iff,
}
use blconf.Tree.Visit.{Table, table_lookup, table_insert}
use blconf.Tree.Tables.{lookup-insert}
use blconf.Perchannel.Channels.{Channel}
use blconf.Values.{Floats, Value}
use blconf.Writer.Format.{Markup}
use blconf.Writer.{Files}
use blconf.Writer.Flush.{Flushing, flush_channel, flush_get_dirty, flush_each, flush}

-- Nothing of the channel waits to be written.
abbrev pub IsSaved {ℓ} : {V : Type ℓ} → Text → Table (Channel V) → Type ℓ
IsSaved name channels =
    (channel : Channel _) → table_lookup name channels ≡ some channel → channel.dirty ≡ false

abbrev dirty_of {ℓ} : {V : Type ℓ} → Option (Channel V) → Bool
dirty_of none = false
dirty_of (some channel) = channel.dirty

-- two results of one lookup
same_dirty {ℓ} :
    {V : Type ℓ} (a b : Channel V) (o : Option (Channel V))
    → o ≡ some a
    → o ≡ some b
    → a.dirty ≡ false
    → b.dirty ≡ false
same_dirty a b none e h saved = cc e
same_dirty a b (some c) e h saved = sym (ap dirty_of h) ∙ ap dirty_of e ∙ saved

insert-IsSaved {ℓ} :
    {V : Type ℓ} (k j : Text) (channel : Channel V) (channels : Table (Channel V))
    → channel.dirty ≡ false
    → (str_eq k j ≡ true) ⊎ IsSaved j channels
    → IsSaved j (table_insert k channel channels)
insert-IsSaved k j channel channels saved cases found e = elim (Bool-cases (str_eq k j)) [
  | inl same ↦
      same_dirty channel found (table_lookup j (table_insert k channel channels))
        (lookup-insert k j channel channels ∙ (rw same refl)) e saved
  | inr other ↦ elim cases [
    | inl same ↦ cc (same, other)
    | inr before ↦ before found (sym (lookup-insert k j channel channels ∙ (rw other refl)) ∙ e)
  ]
]

missing {ℓ} :
    {V : Type ℓ} (k j : Text) (channels : Table (Channel V))
    → table_lookup k channels ≡ none
    → (str_eq k j ≡ true) ⊎ IsSaved j channels
    → IsSaved j channels
missing k j channels e (inl same) found h =
    cc (ap (λ x. table_lookup x channels) ((str_eq_iff k j).0 same), e, h)
missing k j channels e (inr before) found h = before found h

module _ {ℓ} {S : Type ℓ} (files : Files S) {F : Type 0} (floats : Floats F) (markup : Markup)
    (path : Text) where
  pub flush_channel-IsSaved :
      (k j : Text) (now : Flushing F S)
      → (str_eq k j ≡ true) ⊎ IsSaved j now.state.channels
      → IsSaved j (flush_channel floats markup files path k now).1.state.channels
  unfolding flush_channel
  flush_channel-IsSaved k j now cases = elim (Option-cases (table_lookup k now.state.channels)) [
    | inl e ↦ rw (flush_channel, e) (missing k j now.state.channels e cases)
    | inr (channel, e) ↦ rw (flush_channel, e) (insert-IsSaved k j _ now.state.channels refl cases)
  ]

  -- the keys of a list that `flush_get_dirty` gave
  abbrev Listed : Text → List Text → Type 0
  Listed j [] = ⊥
  Listed j (k ∷ keys) = (str_eq k j ≡ true) ⊎ Listed j keys

  flush_each-IsSaved :
      (keys : List Text) (j : Text) (now : Flushing F S)
      → Listed j keys ⊎ IsSaved j now.state.channels
      → IsSaved j (flush_each floats markup files path keys now).state.channels
  unfolding flush_each
  flush_each-IsSaved [] j now (inl l) = absurd l
  flush_each-IsSaved [] j now (inr h) = h
  flush_each-IsSaved (k ∷ keys) j now (inl (inl e)) =
      flush_each-IsSaved keys j (flush_channel floats markup files path k now).1
        (inr (flush_channel-IsSaved k j now (inl e)))
  flush_each-IsSaved (k ∷ keys) j now (inl (inr l)) =
      flush_each-IsSaved keys j (flush_channel floats markup files path k now).1 (inl l)
  flush_each-IsSaved (k ∷ keys) j now (inr h) =
      flush_each-IsSaved keys j (flush_channel floats markup files path k now).1
        (inr (flush_channel-IsSaved k j now (inr h)))

  Listed-kept :
      (j : Text) (channels : Table (Channel (Value F))) (keys : List Text)
      → Listed j keys
      → Listed j (flush_get_dirty floats markup channels keys)
  unfolding flush_get_dirty
  Listed-kept j [] keys l = l
  Listed-kept j ((k, channel) ∷ rest) keys l = elim (Bool-cases channel.dirty) [
    | inl e ↦ rw e (Listed-kept j rest (k ∷ keys) (inr l))
    | inr e ↦ rw e (Listed-kept j rest keys l)
  ]

  listed :
      (j : Text) (channels : Table (Channel (Value F))) (keys : List Text)
      → Listed j (flush_get_dirty floats markup channels keys) ⊎ IsSaved j channels
  unfolding flush_get_dirty table_lookup
  listed j [] keys = inr (λ channel e. cc)
  listed j ((k, channel) ∷ rest) keys = elim (Bool-cases (str_eq k j)) [
    | inl same ↦ elim (Bool-cases channel.dirty) [
      | inl e ↦ inl (rw e (Listed-kept j rest (k ∷ keys) (inl same)))
      | inr e ↦ inr (λ found h.
          same_dirty channel found (table_lookup j ((k, channel) ∷ rest)) (rw same refl) h e)
    ]
    | inr other ↦ elim (Bool-cases channel.dirty) [
      | inl e ↦ rw (e, other) (listed j rest (k ∷ keys))
      | inr e ↦ rw (e, other) (listed j rest keys)
    ]
  ]

  -- After a flush nothing waits to be written, whatever the writing of each channel gave: the flush
  -- gives TRUE, and no channel of the table is marked as dirty.
  pub flush-IsSaved :
      (now : Flushing F S) (name : Text)
      → ((flush floats markup files path now).0 ≡ true)
        × IsSaved name (flush floats markup files path now).1.state.channels
  unfolding flush
  flush-IsSaved now name = (
    refl,
    flush_each-IsSaved (flush_get_dirty floats markup now.state.channels []) name now
        (listed name now.state.channels []),
  )
