-- ===== src/Perchannel/Timed.antt =====
-- The timer of blconfd/blconf-backend-perchannel-xml.c and the channels that wait to be written: what the
-- functions that the operations call leave of both.
use blconf.Base.{
  ◌≡◌, refl, sym, ap, ◌∙◌, Bool, true, false, Bool-cases, inl, inr, Option, none, some, List, [],
  ◌∷◌, Text, arith, str_eq,
}
use blconf.Backend.Error.{ok}
use blconf.Tree.Visit.{table_lookup, table_insert}
use blconf.Tree.Tables.{lookup-insert}
use blconf.Tree.Keys.{IsKeyed, insert-IsKeyed}
use blconf.Perchannel.Channels.{
  Channel, State, Disk, Handle, notify, notify_all, schedule_save, store,
}

abbrev dirty_of {ℓ} : {V : Type ℓ} → Option (Channel V) → Bool
dirty_of none = false
dirty_of (some channel) = channel.dirty

module _ {ℓ} {V : Type ℓ} where
  -- No channel stands in the table twice, and the timer runs where one waits to be written.
  pub record Timed (st : State V) : Type ℓ where
    pub keyed : IsKeyed st.channels
    pub timed :
        (name : Text) (channel : Channel V)
        → table_lookup name st.channels ≡ some channel
        → channel.dirty ≡ true
        → st.save_pending ≡ true

  -- Channels that are read from files have nothing to be written.
  abbrev pub IsClean : Disk V → Type ℓ
  IsClean disk =
      (name : Text) (channel : Channel V) → disk.load name ≡ ok channel → channel.dirty ≡ false

  pub insert-Timed :
      (k : Text) (channel : Channel V) (st : State V)
      → Timed st
      → (channel.dirty ≡ true → st.save_pending ≡ true)
      → Timed (record st { channels = table_insert k channel st.channels })
  insert-Timed k channel st t h = record {
    keyed = insert-IsKeyed k channel st.channels t.keyed;
    timed = λ name found e d. elim (Bool-cases (str_eq k name)) [
      | inl m ↦
          let same : some channel ≡ some found =
            sym (lookup-insert k name channel st.channels ∙ (rw m refl)) ∙ e in
          h (ap dirty_of same ∙ d)
      | inr m ↦
          t.timed name found (sym (lookup-insert k name channel st.channels ∙ (rw m refl)) ∙ e) d
    ];
  }

  pub schedule_save-Timed :
      (h : Handle V) (st : State V) → IsKeyed st.channels → Timed (schedule_save h st)
  unfolding schedule_save store
  schedule_save-Timed h st k = record {
    keyed = insert-IsKeyed h.key _ st.channels k;
    timed = λ name found e d. refl;
  }

  pub notify-channels :
      (name property : Text) (st : State V) → (notify name property st).channels ≡ st.channels
  unfolding notify
  notify-channels name property st = ground arith

  pub notify-pending :
      (name property : Text) (st : State V)
      → (notify name property st).save_pending ≡ st.save_pending
  unfolding notify
  notify-pending name property st = ground arith

  pub notify_all-channels :
      (name : Text) (names : List Text) (st : State V)
      → (notify_all name names st).channels ≡ st.channels
  unfolding notify_all
  notify_all-channels name [] st = refl
  notify_all-channels name (property ∷ rest) st =
      notify_all-channels name rest (notify name property st) ∙ notify-channels name property st

  pub notify_all-pending :
      (name : Text) (names : List Text) (st : State V)
      → (notify_all name names st).save_pending ≡ st.save_pending
  unfolding notify_all
  notify_all-pending name [] st = refl
  notify_all-pending name (property ∷ rest) st =
      notify_all-pending name rest (notify name property st) ∙ notify-pending name property st
