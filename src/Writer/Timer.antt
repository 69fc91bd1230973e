-- ===== src/Writer/Timer.antt =====
-- blconf_backend_perchannel_xml_save_timeout and blconf_backend_perchannel_xml_finalize of
-- blconfd/blconf-backend-perchannel-xml.c, and the backend from its start to its end.
use blconf.Base.{
  Option, ◌≡◌, Bool, true, false, inl, inr, none, some, Option-cases, List, [], ◌∷◌, Text, arith,
  if◌then◌else◌,
}
use blconf.Tree.Visit.{Table, table_lookup}
use blconf.Tree.Keys.{IsKeyed, insert-IsKeyed}
use blconf.Perchannel.Channels.{Channel, State, Disk, init}
use blconf.Perchannel.{set, get, get_all, exists, is_property_locked}
use blconf.Perchannel.Reset.{reset}
use blconf.Perchannel.Timed.{Timed}
use blconf.Perchannel.Pending.{set-Timed, reset-Timed, open_channel-Timed}
use blconf.Backend.Error.{Error}
use blconf.Xml.Types.{ValueOps, Users}
use blconf.Xml.Unsaved.{IsRead, IsRead-IsClean}
use blconf.Values.{Floats, Value}
use blconf.Writer.Format.{Markup}
use blconf.Writer.{Files}
use blconf.Writer.Flush.{Flushing, flush_channel, flush_get_dirty, flush_each, flush}
use blconf.Writer.Clean.{IsSaved, flush-IsSaved}

module _ {ℓ} {S : Type ℓ} (files : Files S) {F : Type 0} (floats : Floats F) (markup : Markup)
    (path : Text) where
  -- a flush without an error to set
  abbrev pub flushing : State (Value F) → S → Flushing F S
  flushing st disk = record {
    state = record st { save_pending = false };
    error = none;
    disk = disk;
  }

  -- blconf_backend_perchannel_xml_save_timeout
  unfoldable pub save_timeout : State (Value F) → S → State (Value F) × S
  unfolding flush
  save_timeout st disk =
      let after = (flush floats markup files path (flushing st disk)).1 in (after.state, after.disk)

  -- blconf_backend_perchannel_xml_finalize
  unfoldable pub finalize : State (Value F) → S → State (Value F) × S
  unfolding save_timeout
  finalize st disk = if st.save_pending then save_timeout st disk else (st, disk)

  flush_channel-IsKeyed :
      (k : Text) (now : Flushing F S)
      → IsKeyed now.state.channels
      → IsKeyed (flush_channel floats markup files path k now).1.state.channels
  unfolding flush_channel
  flush_channel-IsKeyed k now h = elim (Option-cases (table_lookup k now.state.channels)) [
    | inl e ↦ rw (flush_channel, e) h
    | inr (channel, e) ↦ rw (flush_channel, e) (insert-IsKeyed k _ now.state.channels h)
  ]

  flush_each-IsKeyed :
      (keys : List Text) (now : Flushing F S)
      → IsKeyed now.state.channels
      → IsKeyed (flush_each floats markup files path keys now).state.channels
  unfolding flush_each
  flush_each-IsKeyed [] now h = h
  flush_each-IsKeyed (k ∷ keys) now h =
      flush_each-IsKeyed keys (flush_channel floats markup files path k now).1
        (flush_channel-IsKeyed k now h)

  pub save_timeout-IsSaved :
      (st : State (Value F)) (disk : S) (name : Text)
      → IsSaved name (save_timeout st disk).0.channels
  unfolding save_timeout
  save_timeout-IsSaved st disk name =
      (flush-IsSaved files floats markup path (flushing st disk) name).1

  -- A flush leaves nothing that waits to be written, wherever the timer stands.
  flush-Timed :
      (now : Flushing F S)
      → IsKeyed now.state.channels
      → Timed (flush floats markup files path now).1.state
  flush-Timed now keyed = record {
    keyed =
        unfold flush in
        flush_each-IsKeyed (flush_get_dirty floats markup now.state.channels []) now keyed;
    timed =
        λ name channel e d. cc ((flush-IsSaved files floats markup path now name).1 channel e, d);
  }

  save_timeout-Timed : (st : State (Value F)) (disk : S) → Timed st → Timed (save_timeout st disk).0
  unfolding save_timeout
  save_timeout-Timed st disk t = flush-Timed (flushing st disk) t.keyed

  -- A step of the backend: an operation of its interface, at any state of the files, or the timer. The
  -- channels that it loads are those that the reader makes of files.
  pub data Step (ops : ValueOps (Value F)) (users : Users) (equal : Value F → Value F → Bool)
      : State (Value F) → State (Value F) → Type ℓ where
    sets :
        (d : Disk (Value F)) (st : State (Value F)) (name property : Text) (v : Value F)
        → IsRead ops users d
        → Step ops users equal st (set equal d st name property v).1
    gets :
        (d : Disk (Value F)) (st : State (Value F)) (name property : Text)
        → IsRead ops users d
        → Step ops users equal st (get d st name property).1
    gets_all :
        (d : Disk (Value F)) (st : State (Value F)) (name base : Text) (table : Table (Value F))
        → IsRead ops users d
        → Step ops users equal st (get_all d st name base table).1
    looks :
        (d : Disk (Value F)) (st : State (Value F)) (name property : Text)
        → IsRead ops users d
        → Step ops users equal st (exists d st name property).1
    asks_lock :
        (d : Disk (Value F)) (st : State (Value F)) (name property : Text)
        → IsRead ops users d
        → Step ops users equal st (is_property_locked d st name property).1
    resets :
        (d : Disk (Value F)) (st : State (Value F)) (name property : Text) (recursive : Bool)
        → IsRead ops users d
        → Step ops users equal st (reset d st name property recursive).1
    listens :
        (st : State (Value F)) (listening : Bool)
        → Step ops users equal st (record st { listening = listening })
    flushes :
        (st : State (Value F)) (error : Option Error) (disk : S)
        → Step ops users equal st
            (flush floats markup files path
              (record { state = st; error = error; disk = disk })).1.state
    times_out : (st : State (Value F)) (disk : S) → Step ops users equal st (save_timeout st disk).0

  pub data Reach (ops : ValueOps (Value F)) (users : Users) (equal : Value F → Value F → Bool)
      : State (Value F) → Type ℓ where
    here : Reach ops users equal init
    next :
        {st st' : State (Value F)}
        → Reach ops users equal st
        → Step ops users equal st st'
        → Reach ops users equal st'

  Step-Timed :
      (ops : ValueOps (Value F)) (users : Users) (equal : Value F → Value F → Bool)
      {st st' : State (Value F)}
      → Step ops users equal st st'
      → Timed st
      → Timed st'
  unfolding get get_all exists is_property_locked
  Step-Timed ops users equal (sets d st name property v read) t =
      set-Timed equal d st name property v (IsRead-IsClean ops users d read) t
  Step-Timed ops users equal (gets d st name property read) t =
      open_channel-Timed d st name (IsRead-IsClean ops users d read) t
  Step-Timed ops users equal (gets_all d st name base table read) t =
      open_channel-Timed d st name (IsRead-IsClean ops users d read) t
  Step-Timed ops users equal (looks d st name property read) t =
      open_channel-Timed d st name (IsRead-IsClean ops users d read) t
  Step-Timed ops users equal (asks_lock d st name property read) t =
      open_channel-Timed d st name (IsRead-IsClean ops users d read) t
  Step-Timed ops users equal (resets d st name property recursive read) t =
      reset-Timed d st name property recursive (IsRead-IsClean ops users d read) t
  Step-Timed ops users equal (listens st listening) t = record { keyed = t.keyed; timed = t.timed }
  Step-Timed ops users equal (flushes st error disk) t =
      flush-Timed (record { state = st; error = error; disk = disk }) t.keyed
  Step-Timed ops users equal (times_out st disk) t = save_timeout-Timed st disk t

  pub Reach-Timed :
      (ops : ValueOps (Value F)) (users : Users) (equal : Value F → Value F → Bool)
      (st : State (Value F))
      → Reach ops users equal st
      → Timed st
  Reach-Timed ops users equal st here = record {
    keyed = tt;
    timed = λ name channel e d. absurd (unfold table_lookup in ground (arith, e));
  }
  Reach-Timed ops users equal st (next r s) =
      Step-Timed ops users equal s (Reach-Timed ops users equal _ r)

  -- Whatever operations and timers the backend has gone through, the timer runs where a channel waits to be
  -- written.
  pub Reach-pending :
      (ops : ValueOps (Value F)) (users : Users) (equal : Value F → Value F → Bool)
      (st : State (Value F)) (name : Text) (channel : Channel (Value F))
      → Reach ops users equal st
      → table_lookup name st.channels ≡ some channel
      → channel.dirty ≡ true
      → st.save_pending ≡ true
  Reach-pending ops users equal st name channel r =
      (Reach-Timed ops users equal st r).timed name channel
