-- ===== src/Client/Cache/Steps.antt =====
-- The steps that a cache of blconf/blconf-cache.c takes: its functions, the replies to its calls and the
-- daemon's signals, in any order.
use blconf.Base.{
  ℕ, ◌≡◌, refl, Bool, true, false, inl, inr, Option, none, some, Text, str_eq_refl, arith,
  Bool-cases, Option-cases,
}
use blconf.Tree.Visit.{Table, table_lookup, table_insert}
use blconf.Tree.Tables.{lookup-insert}
use blconf.Client.Cache.{
  Remote, answer, remote_error, no_answer, OldItem, Cache, call_lookup, call_steal, drop, cache_new,
  does_not_exist, property_changed, changed_unless, changed_item, property_removed,
  set_property_reply_handler, reply_of, replied, replied_item, restored,
}
use blconf.Client.Cache.Calls.{
  prefetch, prefetched, lookup, lookup_item, fetched, begun, begin_call, set_item, set_looked, set,
  reset,
}
use blconf.Client.Cache.Tables.{lookup-drop}
use blconf.Client.Cache.Linked.{Linked, Linked-ext, Linked-unique, settle-Linked, begin-Linked}

module _ {ℓ} {V : Type ℓ} where
  abbrev pub IsLinked : Cache V → Type ℓ
  IsLinked c = Linked c.pending_calls c.old_properties c.next_call

  -- The calls are left alone.
  record SameCalls (c c' : Cache V) : Type ℓ where
    calls : c'.pending_calls ≡ c.pending_calls
    olds : c'.old_properties ≡ c.old_properties
    next : c'.next_call ≡ c.next_call

  same-IsLinked : (c c' : Cache V) → SameCalls c c' → IsLinked c → IsLinked c'
  same-IsLinked c c' s l = rw (s.calls, s.olds, s.next) l

  same_all : (c : Cache V) → SameCalls c c
  same_all c = record { calls = refl; olds = refl; next = refl }

  module _ (equal : V → V → Bool) where
    property_changed-SameCalls :
        (c : Cache V) (channel property : Text) (v : V)
        → SameCalls c (property_changed equal c channel property v)
    unfolding property_changed changed_unless changed_item
    property_changed-SameCalls c channel property v = record {
      calls = ground arith;
      olds = ground arith;
      next = ground arith;
    }

    restored-SameCalls :
        (c : Cache V) (property : Text) (item : V) (old : Option V)
        → SameCalls c (restored equal c property item old)
    unfolding restored
    restored-SameCalls c property item none = record { calls = refl; olds = refl; next = refl }
    restored-SameCalls c property item (some old) = record {
      calls = refl;
      olds = refl;
      next = refl;
    }

    replied_item-SameCalls :
        (c : Cache V) (property : Text) (succeeded : Bool) (old : OldItem V) (o : Option V)
        → SameCalls c (replied_item equal c property succeeded old o)
    unfolding replied_item
    replied_item-SameCalls c property succeeded old none = same_all c
    replied_item-SameCalls c property true old (some item) = same_all c
    replied_item-SameCalls c property false old (some item) =
        restored-SameCalls c property item old.item

  property_removed-SameCalls :
      (c : Cache V) (channel property : Text) → SameCalls c (property_removed c channel property)
  unfolding property_removed
  property_removed-SameCalls c channel property = record {
    calls = ground arith;
    olds = ground arith;
    next = ground arith;
  }

  prefetch-SameCalls : (c : Cache V) (got : Remote (Table V)) → SameCalls c (prefetch c got).1
  unfolding prefetch prefetched
  prefetch-SameCalls c got = record {
    calls = ground arith;
    olds = ground arith;
    next = ground arith;
  }

  lookup-SameCalls :
      (c : Cache V) (property : Text) (got : Remote V) → SameCalls c (lookup c property got).1
  unfolding lookup lookup_item fetched
  lookup-SameCalls c property got = record {
    calls = ground arith;
    olds = ground arith;
    next = ground arith;
  }

  reset-SameCalls :
      (c : Cache V) (base : Text) (recursive done : Bool)
      → SameCalls c (reset c base recursive done).1
  unfolding reset
  reset-SameCalls c base recursive true = record { calls = refl; olds = refl; next = refl }
  reset-SameCalls c base recursive false = same_all c

  begun-IsLinked :
      (c : Cache V) (property : Text) (v : V) (item : Option V) (o : Option (OldItem V))
      → IsLinked c
      → table_lookup property c.old_properties ≡ o
      → IsLinked (begun c property v item o)
  unfolding begun begin_call
  begun-IsLinked c property v item none l e =
      begin-Linked c.pending_calls c.old_properties c.next_call property item l e
  begun-IsLinked c property v item (some old) l e =
      let (d, k, hd) = l.back property old e in
      let new : OldItem V = record { call = some c.next_call; item = old.item } in
      let left = settle-Linked c.pending_calls c.old_properties c.next_call d property l hd in
      let again =
        begin-Linked (call_steal d c.pending_calls) (drop property c.old_properties) c.next_call
          property old.item left
          (rw (lookup-drop property property c.old_properties, str_eq_refl property) refl) in
      let same : (q : Text)
          → table_lookup q (table_insert property new c.old_properties)
            ≡ table_lookup q (table_insert property new (drop property c.old_properties)) =
        λ q.
          rw
            (
              lookup-insert property q new c.old_properties,
              lookup-insert property q new (drop property c.old_properties),
              lookup-drop property q c.old_properties,
            )
            (ground arith) in
      let linked = Linked-ext _ _ (table_insert property new c.old_properties) _ same again in
      rw k linked

  module _ (equal : V → V → Bool) where
    set_item-IsLinked :
        (c : Cache V) (property : Text) (v : V) (o : Option V)
        → IsLinked c
        → IsLinked (set_item equal c property v o).1
    unfolding set_item
    set_item-IsLinked c property v none l = begun-IsLinked c property v none _ l refl
    set_item-IsLinked c property v (some item) l = elim (Bool-cases (equal item v)) [
      | inl e ↦ rw e l
      | inr e ↦ rw e (begun-IsLinked c property v (some item) _ l refl)
    ]

    set_looked-IsLinked :
        (c : Cache V) (property : Text) (v : V) (got : Remote V)
        → IsLinked c
        → IsLinked (set_looked equal c property v got).1
    unfolding set_looked
    set_looked-IsLinked c property v (answer item) l = set_item-IsLinked c property v (some item) l
    set_looked-IsLinked c property v (remote_error e) l = elim (Bool-cases (does_not_exist e)) [
      | inl k ↦ rw k (set_item-IsLinked c property v none l)
      | inr k ↦ rw k l
    ]
    set_looked-IsLinked c property v no_answer l = l

    pub set-IsLinked :
        (c : Cache V) (property : Text) (v : V) (got : Remote V)
        → IsLinked c
        → IsLinked (set equal c property v got).1
    unfolding set
    set-IsLinked c property v got l =
        set_looked-IsLinked (lookup c property got).1 property v (lookup c property got).0
          (same-IsLinked c _ (lookup-SameCalls c property got) l)

    reply_of-IsLinked :
        (c : Cache V) (call : ℕ) (succeeded : Bool) (o : Option Text)
        → IsLinked c
        → call_lookup call c.pending_calls ≡ o
        → IsLinked (reply_of equal c call succeeded o)
    unfolding reply_of replied
    reply_of-IsLinked c call succeeded none l e = l
    reply_of-IsLinked c call succeeded (some p) l e =
        elim (Option-cases (table_lookup p c.old_properties)) [
          | inl k ↦ rw k l
          | inr (old, k) ↦ rw k (
              same-IsLinked _ _
                (replied_item-SameCalls equal _ p succeeded old (table_lookup p c.properties))
                (settle-Linked c.pending_calls c.old_properties c.next_call call p l e))
        ]

  -- A step of a cache.
  pub data Step (equal : V → V → Bool) : Cache V → Cache V → Type ℓ where
    sets :
        (c : Cache V) (property : Text) (v : V) (got : Remote V)
        → Step equal c (set equal c property v got).1
    looks :
        (c : Cache V) (property : Text) (got : Remote V) → Step equal c (lookup c property got).1
    prefetches : (c : Cache V) (got : Remote (Table V)) → Step equal c (prefetch c got).1
    resets :
        (c : Cache V) (base : Text) (recursive done : Bool)
        → Step equal c (reset c base recursive done).1
    replies :
        (c : Cache V) (call : ℕ) (succeeded : Bool)
        → Step equal c (set_property_reply_handler equal c call succeeded)
    changes :
        (c : Cache V) (channel property : Text) (v : V)
        → Step equal c (property_changed equal c channel property v)
    removes :
        (c : Cache V) (channel property : Text) → Step equal c (property_removed c channel property)

  pub data Reach (equal : V → V → Bool) (s : Cache V) : Cache V → Type ℓ where
    here : Reach equal s s
    next : {c c' : Cache V} → Reach equal s c → Step equal c c' → Reach equal s c'

  Step-IsLinked :
      (equal : V → V → Bool) {c c' : Cache V} → Step equal c c' → IsLinked c → IsLinked c'
  unfolding set_property_reply_handler
  Step-IsLinked equal (sets c property v got) l = set-IsLinked equal c property v got l
  Step-IsLinked equal (looks c property got) l =
      same-IsLinked c _ (lookup-SameCalls c property got) l
  Step-IsLinked equal (prefetches c got) l = same-IsLinked c _ (prefetch-SameCalls c got) l
  Step-IsLinked equal (resets c base recursive done) l =
      same-IsLinked c _ (reset-SameCalls c base recursive done) l
  Step-IsLinked equal (replies c call succeeded) l =
      reply_of-IsLinked equal c call succeeded (call_lookup call c.pending_calls) l refl
  Step-IsLinked equal (changes c channel property v) l =
      same-IsLinked c _ (property_changed-SameCalls equal c channel property v) l
  Step-IsLinked equal (removes c channel property) l =
      same-IsLinked c _ (property_removed-SameCalls c channel property) l

  new-IsLinked : (name : Text) → IsLinked (cache_new {V = V} name)
  unfolding cache_new call_lookup table_lookup
  new-IsLinked name = record {
    forth = λ c p h. absurd (ground (arith, h));
    back = λ p o h. absurd (ground (arith, h));
    fresh = λ c p h. absurd (ground (arith, h));
  }

  -- Whatever has happened to a new cache, in whatever order: a call without an answer leads to an old item
  -- that has it as its call, every old item has such a call, and the next call is fresh.
  pub Reach-IsLinked :
      (equal : V → V → Bool) (name : Text) (c : Cache V)
      → Reach equal (cache_new name) c
      → Linked c.pending_calls c.old_properties c.next_call
  Reach-IsLinked equal name c here = new-IsLinked name
  Reach-IsLinked equal name c (next r st) = Step-IsLinked equal st (Reach-IsLinked equal name _ r)

  -- So a property has at most one call without an answer.
  pub Reach-one_call :
      (equal : V → V → Bool) (name : Text) (c : Cache V) (call call' : ℕ) (property : Text)
      → Reach equal (cache_new name) c
      → call_lookup call c.pending_calls ≡ some property
      → call_lookup call' c.pending_calls ≡ some property
      → call ≡ call'
  Reach-one_call equal name c call call' property r h h' =
      Linked-unique c.pending_calls c.old_properties c.next_call call call' property
        (Reach-IsLinked equal name c r) h h'
