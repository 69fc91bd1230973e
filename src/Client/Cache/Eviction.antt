-- ===== src/Client/Cache/Eviction.antt =====
-- What blconf_cache_reset of blconf/blconf-cache.c drops from the cache.
use blconf.Base.{
  ◌≡◌, refl, Bool, true, false, ◌||◌, none, [], ◌∷◌, ◌++◌, Text, slash, str_eq, if◌then◌else◌,
  arith,
}
use blconf.Tree.Visit.{Table, table_lookup}
use blconf.Client.Cache.{Cache, drop, has_prefix_nocase}
use blconf.Client.Cache.Calls.{evicted, reset}
use blconf.Client.Cache.Tables.{lookup-drop, lookup-evict_below}

-- the names that a reset drops
abbrev pub dropped : Text → Bool → Text → Bool
dropped base recursive j =
    str_eq base j || (if recursive then has_prefix_nocase (base ++ slash ∷ []) j else false)

module _ {ℓ} {V : Type ℓ} where
  lookup-evicted :
      (base j : Text) (recursive : Bool) (t : Table V)
      → table_lookup j (evicted base recursive t)
        ≡ (if dropped base recursive j then none else table_lookup j t)
  unfolding evicted
  lookup-evicted base j true t =
      ground (arith, lookup-evict_below (base ++ slash ∷ []) j (drop base t), lookup-drop base j t)
  lookup-evicted base j false t = ground (arith, lookup-drop base j t)

  -- A reset that the daemon accepts drops the property itself and, if it is recursive, each one whose name
  -- begins with the property's and a '/', capital and small letters being the same; every other
  -- value stays, so a recursive reset of "/" drops only names that begin with "//". A reset that fails
  -- drops nothing.
  pub lookup-reset :
      (c : Cache V) (base j : Text) (recursive done : Bool)
      → ((reset c base recursive done).0 ≡ done)
        × (table_lookup j (reset c base recursive done).1.properties ≡ (
            if done
            then (if dropped base recursive j then none else table_lookup j c.properties)
            else table_lookup j c.properties))
  unfolding reset
  lookup-reset c base j recursive true = (refl, lookup-evicted base j recursive c.properties)
  lookup-reset c base j recursive false = (refl, refl)
