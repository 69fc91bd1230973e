-- ===== src/Client/Cache/Stale.antt =====
-- Two writes of one property in a row, the first of which is never answered: blconf_cache_set of
-- blconf/blconf-cache.c cancels its call, which the daemon may have done all the same.
use blconf.Base.{ℕ, ◌≡◌, refl, ap, ◌∙◌, Bool, true, false, some, Text, str_eq_refl, arith}
use blconf.Tree.Visit.{table_lookup}
use blconf.Client.Cache.{
  Remote, OldItem, Cache, call_lookup, property_changed, changed_unless, set_property_reply_handler,
}
use blconf.Client.Cache.Calls.{lookup, lookup_item, set}
use blconf.Client.Cache.Linked.{Linked}
use blconf.Client.Cache.Steps.{IsLinked, set-IsLinked}
use blconf.Client.Cache.View.{IsExact, Layers, layers, reply-layers}
use blconf.Client.Cache.Writes.{set-layers}

module _ {ℓ} {V : Type ℓ} (equal : V → V → Bool) where
  -- A signal for a property that has a call without an answer is not heeded.
  ignored :
      (c : Cache V) (channel p : Text) (v : V) (old : OldItem V)
      → table_lookup p c.old_properties ≡ some old
      → property_changed equal c channel p v ≡ c
  unfolding property_changed changed_unless
  ignored c channel p v old k = rw k (ground arith)

  lookup_present :
      (c : Cache V) (p : Text) (v : V) (got : Remote V)
      → table_lookup p c.properties ≡ some v
      → (lookup c p got).1 ≡ c
  unfolding lookup lookup_item
  lookup_present c p v got e = rw e refl

  shown-set :
      (c : Cache V) (p : Text) (v : V) (got : Remote V)
      → IsExact equal v
      → (set equal c p v got).0 ≡ true
      → table_lookup p (set equal c p v got).1.properties ≡ some v
  shown-set c p v got exact good =
      ap (λ (l : Layers V). l.shown p) (set-layers equal c p v got exact good)
      ∙ rw (str_eq_refl p) refl

  agreed-set :
      (c : Cache V) (p : Text) (v : V) (got : Remote V)
      → IsExact equal v
      → (set equal c p v got).0 ≡ true
      → (layers (set equal c p v got).1).agreed p ≡ (layers (lookup c p got).1).agreed p
  agreed-set c p v got exact good =
      ap (λ (l : Layers V). l.agreed p) (set-layers equal c p v got exact good)

  taken_back :
      (c : Cache V) (call : ℕ) (p : Text) (item : V)
      → ((w : V) → (layers c).agreed p ≡ some w → IsExact equal w)
      → IsLinked c
      → call_lookup call c.pending_calls ≡ some p
      → table_lookup p c.properties ≡ some item
      → table_lookup p (set_property_reply_handler equal c call false).properties
        ≡ (layers c).agreed p
  taken_back c call p item exact l h e =
      ap (λ (x : Layers V). x.shown p) (reply-layers equal c call false p item exact l h e)
      ∙ rw (str_eq_refl p) refl

  -- Set to `u` and, before the answer, to `v`, both and the value agreed before them being values that the
  -- comparison takes for no other: the daemon's signal that the property is `u` is not heeded,
  -- and where the second call fails the cache is back at the value before both writes, although `u` is
  -- what the daemon has.
  pub stale_set :
      (c : Cache V) (p channel : Text) (u v : V) (got got' : Remote V) (first second : ℕ)
      → IsExact equal u
      → IsExact equal v
      → ((w : V) → (layers (lookup c p got).1).agreed p ≡ some w → IsExact equal w)
      → Linked c.pending_calls c.old_properties c.next_call
      → (set equal c p u got).0 ≡ true
      → call_lookup first (set equal c p u got).1.pending_calls ≡ some p
      → (set equal (set equal c p u got).1 p v got').0 ≡ true
      → call_lookup second (set equal (set equal c p u got).1 p v got').1.pending_calls ≡ some p
      → (property_changed equal (set equal c p u got).1 channel p u ≡ (set equal c p u got).1)
        × (table_lookup p
              (set_property_reply_handler equal
                (set equal (set equal c p u got).1 p v got').1
                second
                false).properties
            ≡ (layers (lookup c p got).1).agreed p)
  stale_set c p channel u v got got' first second eu ev exact l good hf good' hs =
      let c1 = (set equal c p u got).1 in
      let c2 = (set equal c1 p v got').1 in
      let l1 = set-IsLinked equal c p u got l in
      let l2 = set-IsLinked equal c1 p v got' l1 in
      let (old, k, m) = l1.forth first p hf in
      let kept = lookup_present c1 p u got' (shown-set c p u got eu good) in
      let agreed =
        agreed-set c1 p v got' ev good'
        ∙ ap (λ (x : Cache V). (layers x).agreed p) kept
        ∙ agreed-set c p u got eu good in
      (
        ignored c1 channel p u old k,
        taken_back c2 second p v (λ w e. exact w (rw (← agreed) e)) l2 hs
              (shown-set c1 p v got' ev good')
            ∙ agreed,
      )
