-- ===== src/Writer/Flushed.antt =====
-- What blconf_backend_perchannel_xml_flush of blconfd/blconf-backend-perchannel-xml.c leaves in the files of the
-- channels, and the functions that flush a backend.
use mathlib.Core.List.{append_cancel_left, append_cancel_right}
use blconf.Base.{
  ℕ, ◌≡◌, ◌≢◌, refl, sym, ap, subst, ◌∙◌, ◌⊎◌, Bool, true, false, Bool-cases, inl, inr, Option,
  none, some, Option-cases, List, [], ◌∷◌, ◌++◌, Text, codes, arith, str_eq, str_eq_iff,
  str_eq_refl,
}
use blconf.Backend.Error.{Error}
use blconf.Tree.Visit.{Table, table_lookup}
use blconf.Tree.Tables.{lookup-insert}
use blconf.Tree.Keys.{IsKeyed}
use blconf.Perchannel.Channels.{Channel}
use blconf.Values.{Floats, Value}
use blconf.Writer.Format.{Markup}
use blconf.Writer.{Files}
use blconf.Writer.Flush.{
  file_name, temporary, set_error, Flushing, flush_channel, flush_get_dirty, flush_each, flush,
}
use blconf.Writer.Laws.{FilesLaws}
use blconf.Writer.Document.{document}
use blconf.Writer.Replacing.{flush_channel-content}

-- the last code of a text
final : Text → ℕ
final [] = 0
final (x ∷ []) = x
final (x ∷ y ∷ s) = final (y ∷ s)

final-append : (s t : Text) (c : ℕ) → final (s ++ c ∷ t) ≡ final (c ∷ t)
unfolding final
final-append [] t c = refl
final-append (x ∷ []) t c = refl
final-append (x ∷ y ∷ s) t c = final-append (y ∷ s) t c

file_name-final : (path k : Text) → final (file_name path k) ≡ b'l'
unfolding file_name final
file_name-final path k = final-append (path ++ codes "/" ++ k) (codes "xml") b'.'

-- The file of a channel is the temporary one of none.
file_name-temporary : (path j k : Text) → file_name path j ≢ temporary (file_name path k)
unfolding final
file_name-temporary path j k e =
    let last : b'l' ≡ b'w' =
      sym (file_name-final path j)
      ∙ ap final e
      ∙ final-append (file_name path k) (codes "new") b'.' in
    ground (arith, last)

file_name-inj : (path j k : Text) → file_name path j ≡ file_name path k → j ≡ k
unfolding file_name
file_name-inj path j k e =
    append_cancel_left (path ++ codes "/") j k
      (append_cancel_right (path ++ codes "/" ++ j) (path ++ codes "/" ++ k) (codes ".xml") e)

file_name-differ :
    (path j k : Text) → str_eq k j ≡ false → str_eq (file_name path j) (file_name path k) ≡ false
file_name-differ path j k ne = elim (Bool-cases (str_eq (file_name path j) (file_name path k))) [
  | inr e ↦ e
  | inl e ↦
      let same = file_name-inj path j k ((str_eq_iff (file_name path j) (file_name path k)).0 e) in
      absurd (cc ((str_eq_iff k j).1 (sym same), ne))
]

-- `j` is not among the keys, or is so exactly once
abbrev Never : Text → List Text → Type 0
Never j [] = Unit
Never j (k ∷ keys) = (str_eq k j ≡ false) × Never j keys

abbrev Once : Text → List Text → Type 0
Once j [] = ⊥
Once j (k ∷ keys) = ((str_eq k j ≡ true) × Never j keys) ⊎ ((str_eq k j ≡ false) × Once j keys)

module _ {ℓ} {S : Type ℓ} (files : Files S) (laws : FilesLaws files) {F : Type 0}
    (floats : Floats F) (markup : Markup) (path : Text) where
  set_error-none :
      (saved : Bool) (error : Option Error)
      → set_error floats markup saved error ≡ none
      → (saved ≡ true) × (error ≡ none)
  unfolding set_error
  set_error-none true error e = (refl, e)
  set_error-none false none e = cc e
  set_error-none false (some x) e = cc e

  flush_channel-error :
      (k : Text) (now : Flushing F S)
      → (flush_channel floats markup files path k now).1.error ≡ none
      → ((flush_channel floats markup files path k now).0 ≡ true) × (now.error ≡ none)
  unfolding flush_channel
  flush_channel-error k now = elim (Option-cases (table_lookup k now.state.channels)) [
    | inl e ↦ rw (flush_channel, e) (λ h. cc h)
    | inr (channel, e) ↦ rw (flush_channel, e) (set_error-none _ now.error)
  ]

  flush_each-error :
      (keys : List Text) (now : Flushing F S)
      → (flush_each floats markup files path keys now).error ≡ none
      → now.error ≡ none
  unfolding flush_each
  flush_each-error [] now e = e
  flush_each-error (k ∷ keys) now e =
      (flush_channel-error k now
        (flush_each-error keys (flush_channel floats markup files path k now).1 e)).1

  -- flushing one channel leaves another and its file
  flush_channel-other :
      (k j : Text) (now : Flushing F S)
      → str_eq k j ≡ false
      → (table_lookup j (flush_channel floats markup files path k now).1.state.channels
          ≡ table_lookup j now.state.channels)
        × (laws.content (flush_channel floats markup files path k now).1.disk (file_name path j)
            ≡ laws.content now.disk (file_name path j))
  flush_channel-other k j now ne = elim (Option-cases (table_lookup k now.state.channels)) [
    | inl e ↦ unfold flush_channel in rw (flush_channel, e) (refl, refl)
    | inr (channel, e) ↦ (
      unfold flush_channel in
          rw (flush_channel, e) (lookup-insert k j _ now.state.channels ∙ (rw ne refl)),
      flush_channel-content files laws floats markup path k (file_name path j) channel now e
            (file_name-temporary path j k)
          ∙ ground (arith, file_name-differ path j k ne),
    )
  ]

  flush_each-other :
      (keys : List Text) (j : Text) (now : Flushing F S)
      → Never j keys
      → laws.content (flush_each floats markup files path keys now).disk (file_name path j)
        ≡ laws.content now.disk (file_name path j)
  unfolding flush_each
  flush_each-other [] j now never = refl
  flush_each-other (k ∷ keys) j now (ne, never) =
      flush_each-other keys j (flush_channel floats markup files path k now).1 never
      ∙ (flush_channel-other k j now ne).1

  flush_channel-document :
      (j : Text) (channel : Channel (Value F)) (now : Flushing F S)
      → table_lookup j now.state.channels ≡ some channel
      → (flush_channel floats markup files path j now).0 ≡ true
      → laws.content (flush_channel floats markup files path j now).1.disk (file_name path j)
        ≡ document floats markup j channel.properties
  flush_channel-document j channel now found good =
      flush_channel-content files laws floats markup path j (file_name path j) channel now found
        (file_name-temporary path j j)
      ∙ (rw (good, str_eq_refl (file_name path j)) refl)

  flush_each-document :
      (keys : List Text) (j : Text) (channel : Channel (Value F)) (now : Flushing F S)
      → Once j keys
      → table_lookup j now.state.channels ≡ some channel
      → (flush_each floats markup files path keys now).error ≡ none
      → laws.content (flush_each floats markup files path keys now).disk (file_name path j)
        ≡ document floats markup j channel.properties
  unfolding flush_each
  flush_each-document [] j channel now once found e = absurd once
  flush_each-document (k ∷ keys) j channel now (inl (same, never)) found e =
      let after = flush_channel floats markup files path k now in
      let (good, before) = flush_channel-error k now (flush_each-error keys after.1 e) in
      flush_each-other keys j after.1 never
      ∙ subst
          (λ x.
            (flush_channel floats markup files path x now).0 ≡ true
            → laws.content (flush_channel floats markup files path x now).1.disk (file_name path j)
              ≡ document floats markup j channel.properties)
          (sym ((str_eq_iff k j).0 same)) (flush_channel-document j channel now found) good
  flush_each-document (k ∷ keys) j channel now (inr (ne, once)) found e =
      let after = (flush_channel floats markup files path k now).1 in
      flush_each-document keys j channel after once ((flush_channel-other k j now ne).0 ∙ found) e

  Once-kept :
      (j : Text) (channels : Table (Channel (Value F))) (keys : List Text)
      → table_lookup j channels ≡ none
      → Once j keys
      → Once j (flush_get_dirty floats markup channels keys)
  unfolding flush_get_dirty table_lookup
  Once-kept j [] keys off once = once
  Once-kept j ((k, channel) ∷ rest) keys off once = elim (Bool-cases (str_eq k j)) [
    | inl same ↦ absurd (ground (arith, same, off))
    | inr ne ↦
        let off' : table_lookup j rest ≡ none = ground (arith, ne, off) in
        elim (Bool-cases channel.dirty) [
          | inl d ↦ rw d (Once-kept j rest (k ∷ keys) off' (inr (ne, once)))
          | inr d ↦ rw d (Once-kept j rest keys off' once)
        ]
  ]

  listed-Once :
      (j : Text) (channels : Table (Channel (Value F))) (channel : Channel (Value F))
      (keys : List Text)
      → IsKeyed channels
      → table_lookup j channels ≡ some channel
      → channel.dirty ≡ true
      → Never j keys
      → Once j (flush_get_dirty floats markup channels keys)
  unfolding flush_get_dirty table_lookup
  listed-Once j [] channel keys keyed found dirty never = cc found
  listed-Once j ((k, c) ∷ rest) channel keys (off, keyed) found dirty never =
      elim (Bool-cases (str_eq k j)) [
        | inl same ↦
            let e : some c ≡ some channel = ground (arith, same, found) in
            let d : c.dirty ≡ true = cc (e, dirty) in
            rw d (
              Once-kept j rest (k ∷ keys)
                (subst (λ x. table_lookup x rest ≡ none) ((str_eq_iff k j).0 same) off)
                (inl (same, never)))
        | inr ne ↦
            let found' : table_lookup j rest ≡ some channel = ground (arith, ne, found) in
            elim (Bool-cases c.dirty) [
              | inl d ↦ rw d (listed-Once j rest channel (k ∷ keys) keyed found' dirty (ne, never))
              | inr d ↦ rw d (listed-Once j rest channel keys keyed found' dirty never)
            ]
      ]

  -- A flush that leaves no error has written every channel that waited: its file has the text of its
  -- tree.
  pub flush-document :
      (now : Flushing F S) (j : Text) (channel : Channel (Value F))
      → IsKeyed now.state.channels
      → table_lookup j now.state.channels ≡ some channel
      → channel.dirty ≡ true
      → (flush floats markup files path now).1.error ≡ none
      → laws.content (flush floats markup files path now).1.disk (file_name path j)
        ≡ document floats markup j channel.properties
  unfolding flush
  flush-document now j channel keyed found dirty =
      flush_each-document (flush_get_dirty floats markup now.state.channels []) j channel now
        (listed-Once j now.state.channels channel [] keyed found dirty tt) found
