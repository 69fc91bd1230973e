-- ===== src/Client/Cache/Sending.antt =====
-- What blconf_cache_set of blconf/blconf-cache.c sends to the daemon.
use blconf.Base.{
  ◌≡◌, refl, ap, sym, ◌∙◌, ◌⊎◌, Bool, true, inl, inr, Bool-cases, Option, none, some, ◌∷◌, Text,
  arith, Option-cases, str_eq_refl,
}
use blconf.Tree.Visit.{table_lookup}
use blconf.Tree.Tables.{lookup-insert}
use blconf.Client.Cache.{Remote, answer, remote_error, no_answer, Cache, OldItem, does_not_exist}
use blconf.Client.Cache.Calls.{
  lookup, lookup_item, fetched, begun, begin_call, set_item, set_looked, set,
}
use blconf.Client.Cache.View.{IsExact}

-- The call of SetProperty with the value is the one call that was begun, or the daemon has answered that the
-- property has the value already.
abbrev pub Sends {ℓ} : {V : Type ℓ} → Cache V → Text → V → Remote V → Cache V → Type ℓ
Sends c p v got after =
    (after.sent ≡ (c.next_call, p, v) ∷ c.sent) ⊎ ((lookup c p got).0 ≡ answer v)

module _ {ℓ} {V : Type ℓ} where
  begun-sent :
      (c : Cache V) (p : Text) (v : V) (item : Option V) (o : Option (OldItem V))
      → (begun c p v item o).sent ≡ (c.next_call, p, v) ∷ c.sent
  unfolding begun begin_call
  begun-sent c p v item none = refl
  begun-sent c p v item (some old) = elim (Option-cases old.call) [
    | inl e ↦ rw e refl
    | inr (call, e) ↦ rw e refl
  ]

  -- what a lookup leaves of the calls
  lookup_item-sent :
      (c : Cache V) (p : Text) (got : Remote V) (o : Option V)
      → ((lookup_item c p got o).1.sent ≡ c.sent)
        × ((lookup_item c p got o).1.next_call ≡ c.next_call)
  unfolding lookup_item fetched
  lookup_item-sent c p got (some v) = (refl, refl)
  lookup_item-sent c p (answer v) none = (refl, refl)
  lookup_item-sent c p (remote_error e) none = (refl, refl)
  lookup_item-sent c p no_answer none = (refl, refl)

  lookup-sent :
      (c : Cache V) (p : Text) (got : Remote V)
      → ((lookup c p got).1.sent ≡ c.sent) × ((lookup c p got).1.next_call ≡ c.next_call)
  unfolding lookup
  lookup-sent c p got = lookup_item-sent c p got (table_lookup p c.properties)

  set_looked-sent :
      (equal : V → V → Bool) (c : Cache V) (p : Text) (v : V) (got : Remote V)
      → IsExact equal v
      → (set_looked equal c p v got).0 ≡ true
      → ((set_looked equal c p v got).1.sent ≡ (c.next_call, p, v) ∷ c.sent) ⊎ (got ≡ answer v)
  unfolding set_looked set_item
  set_looked-sent equal c p v (answer item) exact good = elim (Bool-cases (equal item v)) [
    | inl k ↦ inr (ap (λ x. answer x) (exact item k))
    | inr k ↦ inl (rw k (begun-sent c p v (some item) (table_lookup p c.old_properties)))
  ]
  set_looked-sent equal c p v (remote_error x) exact good = elim (Bool-cases (does_not_exist x)) [
    | inl k ↦ inl (rw k (begun-sent c p v none (table_lookup p c.old_properties)))
    | inr k ↦ absurd (ground (arith, k, good))
  ]
  set_looked-sent equal c p v no_answer exact good = absurd (ground (arith, good))

  pub set-Sends :
      (equal : V → V → Bool) (c : Cache V) (p : Text) (v : V) (got : Remote V)
      → IsExact equal v
      → (set equal c p v got).0 ≡ true
      → Sends c p v got (set equal c p v got).1
  unfolding set
  set-Sends equal c p v got exact good =
      let (s, n) = lookup-sent c p got in
      elim (set_looked-sent equal (lookup c p got).1 p v (lookup c p got).0 exact good) [
        | inl e ↦ inl (cc (e, s, n))
        | inr e ↦ inr e
      ]

  -- a second lookup gives what the first gave
  lookup_item-again :
      (c : Cache V) (p : Text) (got : Remote V) (o : Option V)
      → table_lookup p c.properties ≡ o
      → (lookup (lookup_item c p got o).1 p got).0 ≡ (lookup_item c p got o).0
  unfolding lookup lookup_item fetched
  lookup_item-again c p got (some v) e = rw e refl
  lookup_item-again c p (answer v) none e =
      rw (lookup-insert p p v c.properties, str_eq_refl p) refl
  lookup_item-again c p (remote_error x) none e = rw e refl
  lookup_item-again c p no_answer none e = rw e refl

  lookup-again :
      (c : Cache V) (p : Text) (got : Remote V)
      → (lookup (lookup c p got).1 p got).0 ≡ (lookup c p got).0
  unfolding lookup
  lookup-again c p got = lookup_item-again c p got (table_lookup p c.properties) refl

  pub Sends-again :
      (c : Cache V) (p : Text) (v : V) (got : Remote V) (after : Cache V)
      → Sends (lookup c p got).1 p v got after
      → Sends c p v got after
  Sends-again c p v got after (inl e) = let (s, n) = lookup-sent c p got in inl (cc (e, s, n))
  Sends-again c p v got after (inr e) = inr (sym (lookup-again c p got) ∙ e)
