-- ===== src/Client/Cache/Writes.antt =====
-- blconf_cache_set of blconf/blconf-cache.c on the two layers of a cache.
use blconf.Base.{
  ℕ, ◌≡◌, refl, sym, ap, subst, ◌∙◌, Bool, true, inl, inr, Option, none, some, Text, str_eq,
  str_eq_iff, str_eq_refl, arith, Bool-cases, Option-cases, if◌then◌else◌,
}
use blconf.Tree.Visit.{table_lookup}
use blconf.Tree.Tables.{lookup-insert}
use blconf.Client.Cache.{
  Remote, answer, remote_error, no_answer, OldItem, Cache, emit, put, does_not_exist,
}
use blconf.Client.Cache.Calls.{
  lookup, lookup_item, fetched, begun, begin_call, cancel, set_item, set_looked, set,
}
use blconf.Client.Cache.View.{IsExact, Layers-ext, layers, show}

module _ {ℓ} {V : Type ℓ} where
  abbrev kept_item : Option V → Option (OldItem V) → Option V
  kept_item item none = item
  kept_item item (some old) = old.item

  cancel-olds : (call : Option ℕ) (c : Cache V) → (cancel call c).old_properties ≡ c.old_properties
  cancel-olds none c = refl
  cancel-olds (some call) c = refl

  cancel-next : (call : Option ℕ) (c : Cache V) → (cancel call c).next_call ≡ c.next_call
  cancel-next none c = refl
  cancel-next (some call) c = refl

  cancel-properties : (call : Option ℕ) (c : Cache V) → (cancel call c).properties ≡ c.properties
  cancel-properties none c = refl
  cancel-properties (some call) c = refl

  begun-olds :
      (c : Cache V) (p q : Text) (v : V) (item : Option V) (o : Option (OldItem V))
      → table_lookup q (begun c p v item o).old_properties ≡ (
          if str_eq p q
          then some (record { call = some c.next_call; item = kept_item item o })
          else table_lookup q c.old_properties)
  unfolding begun begin_call
  begun-olds c p q v item none = lookup-insert p q _ c.old_properties
  begun-olds c p q v item (some old) =
      rw (cancel-olds old.call c, cancel-next old.call c) (lookup-insert p q _ c.old_properties)

  begun-properties :
      (c : Cache V) (p : Text) (v : V) (item : Option V) (o : Option (OldItem V))
      → (begun c p v item o).properties ≡ c.properties
  unfolding begun begin_call
  begun-properties c p v item none = refl
  begun-properties c p v item (some old) = cancel-properties old.call c

  -- a call that has begun, and the value put into the cache
  begun-layers :
      (c : Cache V) (p : Text) (v : V)
      → layers
          (put p v (begun c p v (table_lookup p c.properties) (table_lookup p c.old_properties)))
        ≡ show p v (layers c)
  begun-layers c p v =
      let o = table_lookup p c.old_properties in
      let same = begun-properties c p v (table_lookup p c.properties) o in
      Layers-ext _ _
        (λ q.
          rw
            (
              same,
              begun-olds c p q v (table_lookup p c.properties) o,
              lookup-insert p q v c.properties,
            )
            (elim (Bool-cases (str_eq p q)) [
              | inl m ↦
                  rw (m, ← (str_eq_iff p q).0 m)
                    (elim (Option-cases o) [ inl k ↦ rw k refl | inr (old, k) ↦ rw k refl ])
              | inr m ↦ rw m refl
            ]))
        (λ q. rw (same, lookup-insert p q v c.properties) refl)

  -- writing the value that is there
  show-same :
      (c : Cache V) (p : Text) (v : V)
      → table_lookup p c.properties ≡ some v
      → show p v (layers c) ≡ layers c
  show-same c p v e =
      Layers-ext _ _ (λ q. refl)
        (λ q. elim (Bool-cases (str_eq p q)) [
          | inl m ↦ rw (m, ← (str_eq_iff p q).0 m, e) refl
          | inr m ↦ rw m refl
        ])

  emitted-layers : (c : Cache V) (p : Text) (o : Option V) → layers (emit p o c) ≡ layers c
  emitted-layers c p o = refl

  module _ (equal : V → V → Bool) where
    set_item-layers :
        (c : Cache V) (p : Text) (v : V) (o : Option V)
        → IsExact equal v
        → table_lookup p c.properties ≡ o
        → layers (set_item equal c p v o).1 ≡ show p v (layers c)
    unfolding set_item
    set_item-layers c p v none exact e =
        subst
          (λ x.
            layers (put p v (begun c p v x (table_lookup p c.old_properties)))
            ≡ show p v (layers c))
          e (begun-layers c p v)
    set_item-layers c p v (some item) exact e = elim (Bool-cases (equal item v)) [
      | inl k ↦ rw k (sym (show-same c p v (e ∙ ap (λ x. some x) (exact item k))))
      | inr k ↦ rw k (
          subst
            (λ x.
              layers (put p v (begun c p v x (table_lookup p c.old_properties)))
              ≡ show p v (layers c))
            e (begun-layers c p v))
    ]

    -- What a lookup leaves: the cache holds the value that it gives, and none where it fails.
    unfoldable pub Held : Cache V → Text → Remote V → Type ℓ
    Held c p (answer v) = table_lookup p c.properties ≡ some v
    Held c p (remote_error e) = table_lookup p c.properties ≡ none
    Held c p no_answer = table_lookup p c.properties ≡ none

    pub lookup_item-Held :
        (c : Cache V) (p : Text) (got : Remote V) (o : Option V)
        → table_lookup p c.properties ≡ o
        → Held (lookup_item c p got o).1 p (lookup_item c p got o).0
    unfolding lookup_item fetched Held
    lookup_item-Held c p got (some v) e = e
    lookup_item-Held c p (answer v) none e =
        rw (lookup-insert p p v c.properties, str_eq_refl p) refl
    lookup_item-Held c p (remote_error x) none e = e
    lookup_item-Held c p no_answer none e = e

    set_looked-layers :
        (c : Cache V) (p : Text) (v : V) (got : Remote V)
        → IsExact equal v
        → Held c p got
        → (set_looked equal c p v got).0 ≡ true
        → layers (set_looked equal c p v got).1 ≡ show p v (layers c)
    unfolding set_looked Held
    set_looked-layers c p v (answer item) exact held good =
        set_item-layers c p v (some item) exact held
    set_looked-layers c p v (remote_error x) exact held good =
        elim (Bool-cases (does_not_exist x)) [
          | inl k ↦ rw k (set_item-layers c p v none exact held)
          | inr k ↦ absurd (ground (arith, k, good))
        ]
    set_looked-layers c p v no_answer exact held good = absurd (ground (arith, good))

    -- A write that succeeds, of a value that the comparison takes for no other, shows the value, whatever
    -- calls for the property are without an answer, and leaves the agreed values as they were once
    -- the property was looked up.
    pub set-layers :
        (c : Cache V) (p : Text) (v : V) (got : Remote V)
        → IsExact equal v
        → (set equal c p v got).0 ≡ true
        → layers (set equal c p v got).1 ≡ show p v (layers (lookup c p got).1)
    unfolding set lookup
    set-layers c p v got exact good =
        set_looked-layers (lookup c p got).1 p v (lookup c p got).0 exact
          (lookup_item-Held c p got (table_lookup p c.properties) refl) good
