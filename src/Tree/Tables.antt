-- ===== src/Tree/Tables.antt =====
-- The hash tables of blconfd/blconf-backend-perchannel-xml.c: what a lookup shows after an insertion.
use blconf.Base.{◌≡◌, refl, some, [], ◌∷◌, Text, str_eq, str_eq_iff, if◌then◌else◌, arith}
use blconf.Tree.Visit.{Table, table_lookup, table_insert}

module _ {ℓ} {V : Type ℓ} where
  pub lookup-insert :
      (k j : Text) (v : V) (t : Table V)
      → table_lookup j (table_insert k v t) ≡ (if str_eq k j then some v else table_lookup j t)
  unfolding table_lookup table_insert
  lookup-insert k j v [] = refl
  lookup-insert k j v ((i, w) ∷ t) =
      ground (arith, lookup-insert k j v t, str_eq_iff i k, str_eq_iff i j, str_eq_iff k j)
