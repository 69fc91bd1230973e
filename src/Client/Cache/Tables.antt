-- ===== src/Client/Cache/Tables.antt =====
-- The tables of blconf/blconf-cache.c: what a lookup shows after a removal or an insertion.
use blconf.Base.{ℕ, ◌≡◌, none, List, [], ◌∷◌, Text, str_eq, str_eq_iff, ◌==◌, if◌then◌else◌, arith}
use blconf.Tree.Visit.{Table, table_lookup}
use blconf.Client.Cache.{drop, call_lookup, call_steal, has_prefix_nocase}
use blconf.Client.Cache.Calls.{evict_below}

module _ {ℓ} {V : Type ℓ} where
  pub lookup-drop :
      (k j : Text) (t : Table V)
      → table_lookup j (drop k t) ≡ (if str_eq k j then none else table_lookup j t)
  unfolding table_lookup drop
  lookup-drop k j [] = ground arith
  lookup-drop k j ((i, w) ∷ t) =
      ground (arith, lookup-drop k j t, str_eq_iff i k, str_eq_iff i j, str_eq_iff k j)

  pub lookup-evict_below :
      (base j : Text) (t : Table V)
      → table_lookup j (evict_below base t)
        ≡ (if has_prefix_nocase base j then none else table_lookup j t)
  unfolding table_lookup evict_below
  lookup-evict_below base j [] = ground arith
  lookup-evict_below base j ((i, w) ∷ t) =
      ground (arith, lookup-evict_below base j t, str_eq_iff i j)

pub steal-lookup :
    (c d : ℕ) (calls : List (ℕ × Text))
    → call_lookup d (call_steal c calls) ≡ (if c == d then none else call_lookup d calls)
unfolding call_lookup call_steal
steal-lookup c d [] = ground arith
steal-lookup c d ((e, p) ∷ calls) = ground (arith, steal-lookup c d calls)
