-- ===== src/Client/Channel/ReadBack.antt =====
-- The internal getter of blconf/blconf-channel.c after the internal setter, and the getters after the setters.
use blconf.Base.{
  ℕ, ◌≡◌, refl, ap, ◌∙◌, ◌<◌, Bool, true, inl, inr, Option, none, some, Text, str_eq_refl, ==_iff,
  arith, Bool-cases, ℤ, pos, negsuc,
}
use Prim.Native.Nat.{◌^◌}
use blconf.Tree.Visit.{table_lookup}
use blconf.Tree.Tables.{lookup-insert}
use blconf.Values.{Floats, Value, uint_value, uint64_value, int_value, array_value, Members}
use blconf.Values.Equal.{is_equal}
use blconf.Values.Shorts.{from_bits, to_bits}
use blconf.Client.Cache.{Remote, answer, remote_error, no_answer, Cache, does_not_exist}
use blconf.Client.Cache.Calls.{lookup, lookup_item, set_item, set_looked, set}
use blconf.Client.Cache.View.{IsExact}
use blconf.Client.Cache.Writes.{Held, lookup_item-Held}
use blconf.Client.Channel.{Channel, real_prop, with_cache, set_internal, get_internal}
use blconf.Client.Channel.Signals.{with_cache-real_prop}
use blconf.Client.Channel.Typed.{get_uint64, set_uint64}

module _ {ℓ} {V : Type ℓ} (equal : V → V → Bool) where
  set_item-properties :
      (c : Cache V) (p : Text) (v : V) (o : Option V)
      → IsExact equal v
      → table_lookup p c.properties ≡ o
      → table_lookup p (set_item equal c p v o).1.properties ≡ some v
  unfolding set_item
  set_item-properties c p v none exact e = rw (lookup-insert p p v _, str_eq_refl p) refl
  set_item-properties c p v (some item) exact e = elim (Bool-cases (equal item v)) [
    | inl k ↦ rw k (e ∙ ap (λ x. some x) (exact item k))
    | inr k ↦ rw (k, lookup-insert p p v _, str_eq_refl p) refl
  ]

  set_looked-properties :
      (c : Cache V) (p : Text) (v : V) (got : Remote V)
      → IsExact equal v
      → Held equal c p got
      → (set_looked equal c p v got).0 ≡ true
      → table_lookup p (set_looked equal c p v got).1.properties ≡ some v
  unfolding set_looked Held
  set_looked-properties c p v (answer item) exact held good =
      set_item-properties c p v (some item) exact held
  set_looked-properties c p v (remote_error x) exact held good =
      elim (Bool-cases (does_not_exist x)) [
        | inl k ↦ rw k (set_item-properties c p v none exact held)
        | inr k ↦ absurd (ground (arith, k, good))
      ]
  set_looked-properties c p v no_answer exact held good = absurd (ground (arith, good))

  pub set-properties :
      (c : Cache V) (p : Text) (v : V) (got : Remote V)
      → IsExact equal v
      → (set equal c p v got).0 ≡ true
      → table_lookup p (set equal c p v got).1.properties ≡ some v
  unfolding set lookup
  set-properties c p v got exact good =
      set_looked-properties (lookup c p got).1 p v (lookup c p got).0 exact
        (lookup_item-Held equal c p got (table_lookup p c.properties) refl) good

pub lookup-hit {κ} :
    {V : Type κ} (c : Cache V) (p : Text) (v : V) (got : Remote V)
    → table_lookup p c.properties ≡ some v
    → (lookup c p got).0 ≡ answer v
unfolding lookup lookup_item
lookup-hit c p v got e = rw (lookup, e) refl

module _ {F : Type 0} (equal : Value F → Value F → Bool) where
  -- A write that succeeds is read back, whatever calls are without an answer, if no other value passes the
  -- comparison with the one written; the daemon is not asked again.
  pub get_internal-set_internal :
      (ch : Channel F) (p : Text) (v : Value F) (got again : Remote (Value F))
      → IsExact equal v
      → (set_internal equal ch p v got).0 ≡ true
      → (get_internal (set_internal equal ch p v got).1 p again).0 ≡ some v
  unfolding set_internal get_internal with_cache
  get_internal-set_internal ch p v got again exact good =
      let cache = (set equal ch.cache (real_prop ch p) v got).1 in
      rw
        (
          with_cache-real_prop ch cache p,
          lookup-hit cache (real_prop ch p) v again
              (set-properties equal ch.cache (real_prop ch p) v got exact good),
        )
        refl

module _ {F : Type 0} (floats : Floats F) where
  pub uint_value-IsExact : (n : ℕ) → IsExact (is_equal floats) (uint_value n)
  unfolding is_equal
  uint_value-IsExact n (uint_value m) e = ap (λ x. uint_value x) ((==_iff m n).0 e)
  uint_value-IsExact n w e = cc e

  pub int_value-IsExact : (i : ℤ) → IsExact (is_equal floats) (int_value i)
  unfolding is_equal
  int_value-IsExact (pos n) (int_value (pos m)) e = ap (λ x. int_value (pos x)) ((==_iff m n).0 e)
  int_value-IsExact (negsuc n) (int_value (negsuc m)) e =
      ap (λ x. int_value (negsuc x)) ((==_iff m n).0 e)
  int_value-IsExact i w e = cc e

  uint64_value-IsExact : (n : ℕ) → IsExact (is_equal floats) (uint64_value n)
  unfolding is_equal
  uint64_value-IsExact n (uint64_value m) e = ap (λ x. uint64_value x) ((==_iff m n).0 e)
  uint64_value-IsExact n w e = cc e

  pub array_value-IsExact : (m : Members F) → IsExact (is_equal floats) (array_value m)
  unfolding is_equal
  array_value-IsExact m (array_value n) e = cc e
  array_value-IsExact m w e = cc e

  bits-of : (n : ℕ) → n < 2 ^ 64 → to_bits (2 ^ 64) (from_bits (2 ^ 63) n) ≡ n
  bits-of n h = ground (arith, h)

  -- A guint64 that was written is read back, though the getter takes it through a gint64.
  pub get_uint64-set_uint64 :
      (ch : Channel F) (p : Text) (n default_value : ℕ) (got again : Remote (Value F))
      → n < 2 ^ 64
      → (set_uint64 (is_equal floats) ch p n got).0 ≡ true
      → (get_uint64 (set_uint64 (is_equal floats) ch p n got).1 p default_value again).0 ≡ n
  unfolding get_uint64 set_uint64
  get_uint64-set_uint64 ch p n default_value got again h good =
      rw
        (get_internal-set_internal (is_equal floats) ch p (uint64_value n) got again
          (uint64_value-IsExact n) good)
        (bits-of n h)
