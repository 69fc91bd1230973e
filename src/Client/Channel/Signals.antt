-- ===== src/Client/Channel/Signals.antt =====
-- The handler of blconf/blconf-channel.c for the cache's signal, after the calls of the cache that emit it.
use Prim.Native.Nat.{◌-◌}
use blconf.Base.{
  ℕ, suc, ◌≡◌, refl, ap, ◌∙◌, Bool, true, false, inl, inr, Option, none, some, List, [], ◌∷◌, ◌++◌,
  Text, str_eq, str_eq_refl, arith, Bool-cases, Option-cases, if◌then◌else◌, length, take, ==_refl,
}
use blconf.Tree.Visit.{table_lookup}
use blconf.Values.{Value}
use blconf.Client.Cache.{Remote, answer, remote_error, no_answer, OldItem, Cache, does_not_exist}
use blconf.Client.Cache.Calls.{
  lookup, lookup_item, fetched, set, set_looked, set_item, begun, begin_call, cancel,
}
use blconf.Client.Channel.{
  Channel, behind, prefixed, real_prop, passed_on, property_changed, heard, with_cache,
  set_internal,
}

module _ {F : Type 0} where
  changed-base :
      (ch : Channel F) (c q : Text) (v : Option (Value F))
      → (property_changed ch c q v).property_base ≡ ch.property_base
  unfolding property_changed
  changed-base ch c q v = elim (Bool-cases (str_eq c ch.channel_name)) [
    | inr k ↦ rw k refl
    | inl k ↦ rw k (elim (Option-cases (passed_on ch.property_base q)) [
      | inl e ↦ rw e refl
      | inr (name, e) ↦ rw e refl
    ])
  ]

  heard-base :
      (ch : Channel F) (es : List (Text × Option (Value F)))
      → (heard ch es).property_base ≡ ch.property_base
  unfolding heard
  heard-base ch [] = refl
  heard-base ch ((q, v) ∷ es) =
      changed-base (heard ch es) ch.cache.channel_name q v ∙ heard-base ch es

  pub with_cache-base :
      (ch : Channel F) (c : Cache (Value F)) → (with_cache ch c).property_base ≡ ch.property_base
  unfolding with_cache
  with_cache-base ch c = heard-base ch (take (length c.emitted - length ch.cache.emitted) c.emitted)

  pub with_cache-real_prop :
      (ch : Channel F) (c : Cache (Value F)) (p : Text)
      → real_prop (with_cache ch c) p ≡ real_prop ch p
  unfolding real_prop
  with_cache-real_prop ch c p = ap (λ b. prefixed b p) (with_cache-base ch c)

behind-append : (base s : Text) → behind base (base ++ s) ≡ some s
unfolding behind
behind-append [] s = refl
behind-append (c ∷ base) s = rw (==_refl c) (behind-append base s)

-- the name is the one without the base
passed_on-prefixed :
    (base : Option Text) (c : ℕ) (p : Text) → passed_on base (prefixed base (c ∷ p)) ≡ some (c ∷ p)
unfolding passed_on
passed_on-prefixed none c p = refl
passed_on-prefixed (some base) c p = rw (passed_on, behind-append base (c ∷ p)) refl

-- Whether the value looked up passes the comparison with the one to write.
abbrev pub is_unchanged {ℓ} : {V : Type ℓ} → (V → V → Bool) → V → Remote V → Bool
is_unchanged equal v (answer item) = equal item v
is_unchanged equal v (remote_error e) = false
is_unchanged equal v no_answer = false

module _ {ℓ} {V : Type ℓ} where
  lookup_item-emitted :
      (c : Cache V) (p : Text) (got : Remote V) (o : Option V)
      → (lookup_item c p got o).1.emitted ≡ c.emitted
  unfolding lookup_item fetched
  lookup_item-emitted c p got (some v) = refl
  lookup_item-emitted c p (answer v) none = refl
  lookup_item-emitted c p (remote_error e) none = refl
  lookup_item-emitted c p no_answer none = refl

  lookup-emitted :
      (c : Cache V) (p : Text) (got : Remote V) → (lookup c p got).1.emitted ≡ c.emitted
  unfolding lookup
  lookup-emitted c p got = lookup_item-emitted c p got (table_lookup p c.properties)

  cancel-emitted : (call : Option ℕ) (c : Cache V) → (cancel call c).emitted ≡ c.emitted
  cancel-emitted none c = refl
  cancel-emitted (some call) c = refl

  begun-emitted :
      (c : Cache V) (p : Text) (v : V) (item : Option V) (o : Option (OldItem V))
      → (begun c p v item o).emitted ≡ c.emitted
  unfolding begun begin_call
  begun-emitted c p v item none = refl
  begun-emitted c p v item (some old) = cancel-emitted old.call c

  module _ (equal : V → V → Bool) where
    set_looked-emitted :
        (c : Cache V) (p : Text) (v : V) (item : Remote V)
        → (set_looked equal c p v item).0 ≡ true
        → (set_looked equal c p v item).1.emitted
          ≡ (if is_unchanged equal v item then c.emitted else (p, some v) ∷ c.emitted)
    unfolding set_looked set_item
    set_looked-emitted c p v (answer w) good = elim (Bool-cases (equal w v)) [
      | inl k ↦ rw k refl
      | inr k ↦ rw (k, begun-emitted c p v (some w) (table_lookup p c.old_properties)) refl
    ]
    set_looked-emitted c p v (remote_error e) good = elim (Bool-cases (does_not_exist e)) [
      | inl k ↦ rw (k, begun-emitted c p v none (table_lookup p c.old_properties)) refl
      | inr k ↦ absurd (ground (arith, k, good))
    ]
    set_looked-emitted c p v no_answer good = absurd (ground (arith, good))

    set-emitted :
        (c : Cache V) (p : Text) (v : V) (got : Remote V)
        → (set equal c p v got).0 ≡ true
        → (set equal c p v got).1.emitted
          ≡ (if is_unchanged equal v (lookup c p got).0 then c.emitted else (p, some v) ∷ c.emitted)
    unfolding set
    set-emitted c p v got good =
        set_looked-emitted (lookup c p got).1 p v (lookup c p got).0 good
        ∙ rw (lookup-emitted c p got) refl

module _ {F : Type 0} where
  same-length : (es : List (Text × Option (Value F))) → take (length es - length es) es ≡ []
  same-length es = let z : length es - length es ≡ 0 = omega arith in rw z refl

  one_more :
      (e : Text × Option (Value F)) (es : List (Text × Option (Value F)))
      → take (length (e ∷ es) - length es) (e ∷ es) ≡ e ∷ []
  one_more e es = let z : suc (length es) - length es ≡ 1 = omega arith in rw z refl

  -- the signals of a channel that has heard none, and one
  none-heard :
      (ch : Channel F) (c : Cache (Value F))
      → c.emitted ≡ ch.cache.emitted
      → (with_cache ch c).signals ≡ ch.signals
  unfolding with_cache heard
  none-heard ch c e = rw (e, same-length ch.cache.emitted) refl

  one-heard :
      (ch : Channel F) (c : Cache (Value F)) (d : ℕ) (p : Text) (v : Option (Value F))
      → ch.cache.channel_name ≡ ch.channel_name
      → c.emitted ≡ (real_prop ch (d ∷ p), v) ∷ ch.cache.emitted
      → (with_cache ch c).signals ≡ (d ∷ p, v) ∷ ch.signals
  unfolding with_cache heard property_changed real_prop
  one-heard ch c d p v same e =
      rw
        (
          e,
          one_more (real_prop ch (d ∷ p), v) ch.cache.emitted,
          same,
          str_eq_refl ch.channel_name,
          passed_on-prefixed ch.property_base d p,
        )
        refl

  module _ (equal : Value F → Value F → Bool) where
    -- A write that succeeds, of a property whose name is not empty, emits one signal of the channel if the value that was
    -- looked up is another, and none else. It carries the value and the name that the write was given, whatever
    -- the base of the channel is.
    pub set_internal-signals :
        (ch : Channel F) (d : ℕ) (p : Text) (v : Value F) (got : Remote (Value F))
        → ch.cache.channel_name ≡ ch.channel_name
        → (set_internal equal ch (d ∷ p) v got).0 ≡ true
        → (set_internal equal ch (d ∷ p) v got).1.signals ≡ (
            if is_unchanged equal v (lookup ch.cache (real_prop ch (d ∷ p)) got).0
            then ch.signals
            else (d ∷ p, some v) ∷ ch.signals)
    unfolding set_internal
    set_internal-signals ch d p v got same good =
        let cache = (set equal ch.cache (real_prop ch (d ∷ p)) v got).1 in
        let e = set-emitted equal ch.cache (real_prop ch (d ∷ p)) v got good in
        elim (Bool-cases (is_unchanged equal v (lookup ch.cache (real_prop ch (d ∷ p)) got).0)) [
          | inl k ↦ rw k (none-heard ch cache (rw (e, k) refl))
          | inr k ↦ rw k (one-heard ch cache d p (some v) same (rw (e, k) refl))
        ]
