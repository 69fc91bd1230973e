-- ===== src/Examples/Caches.antt =====
-- The theorems of blconf/blconf-cache.c at a cache of a few properties.
use blconf.Base.{
  ℕ, ◌≡◌, refl, sym, ap, ◌∙◌, Bool, true, false, none, some, [], ◌∷◌, codes, slash, subst,
}
use blconf.Values.{Value, uint_value}
use blconf.Values.Equal.{is_equal}
use blconf.Tree.Visit.{table_lookup, table_insert}
use blconf.Client.Cache.{
  answer, Cache, cache_new, call_lookup, call_steal, property_changed, set_property_reply_handler,
  has_prefix_nocase,
}
use blconf.Client.Cache.Calls.{
  lookup, lookup_item, fetched, set, set_looked, set_item, begun, begin_call, reset,
}
use blconf.Client.Cache.Linked.{Linked}
use blconf.Client.Cache.Steps.{sets, Reach, here, next, Reach-IsLinked}
use blconf.Client.Cache.View.{IsExact, Layers, layers, take_back, show, reply-layers}
use blconf.Client.Cache.Writes.{set-layers}
use blconf.Client.Cache.Eviction.{lookup-reset}
use blconf.Client.Cache.Stale.{stale_set}
use blconf.Client.Channel.ReadBack.{uint_value-IsExact}
use blconf.Examples.Writing.{floats}
use blconf.Examples.{size, panel, gtk}

abbrev same : Value ℕ → Value ℕ → Bool
same = is_equal floats

abbrev sized : ℕ → Value ℕ
sized n = uint_value n

abbrev fresh : Cache (Value ℕ)
fresh = cache_new panel

-- `size` is 3 at the daemon; it is set to 5, and to 7 before the answer
abbrev once : Cache (Value ℕ)
once = (set same fresh size (sized 5) (answer (sized 3))).1

abbrev twice : Cache (Value ℕ)
twice = (set same once size (sized 7) (answer (sized 3))).1

once-Reach : Reach same fresh once
once-Reach = next here (sets fresh size (sized 5) (answer (sized 3)))

twice-Reach : Reach same fresh twice
twice-Reach = next once-Reach (sets once size (sized 7) (answer (sized 3)))

Reach-IsLinked_example : Linked twice.pending_calls twice.old_properties twice.next_call
Reach-IsLinked_example = Reach-IsLinked same panel twice twice-Reach

once_call : call_lookup 0 once.pending_calls ≡ some size
unfolding is_equal cache_new set lookup lookup_item fetched set_looked set_item begun begin_call
    table_lookup table_insert call_lookup
once_call = refl

twice_call : call_lookup 1 twice.pending_calls ≡ some size
unfolding is_equal cache_new set lookup lookup_item fetched set_looked set_item begun begin_call
    table_lookup table_insert call_lookup call_steal
twice_call = refl

once_size : table_lookup size once.properties ≡ some (sized 5)
unfolding is_equal cache_new set lookup lookup_item fetched set_looked set_item begun begin_call
    table_lookup table_insert
once_size = refl

-- the value that is agreed is the 3 of the daemon
three-IsExact :
    (w : Value ℕ)
    → (layers (lookup fresh size (answer (sized 3))).1).agreed size ≡ some w
    → IsExact same w
unfolding cache_new lookup lookup_item fetched table_lookup table_insert
three-IsExact w e = subst (IsExact same) (cc e) (uint_value-IsExact floats 3)

once_set : (set same fresh size (sized 5) (answer (sized 3))).0 ≡ true
unfolding is_equal cache_new set lookup lookup_item fetched set_looked set_item table_lookup
    table_insert
once_set = refl

once-IsExact : (w : Value ℕ) → (layers once).agreed size ≡ some w → IsExact same w
once-IsExact w e =
    let kept =
      set-layers same fresh size (sized 5) (answer (sized 3)) (uint_value-IsExact floats 5)
        once_set in
    three-IsExact w (sym (ap (λ (l : Layers (Value ℕ)). l.agreed size) kept) ∙ e)

reply-layers_example :
    layers (set_property_reply_handler same once 0 false) ≡ take_back size (layers once)
reply-layers_example =
    reply-layers same once 0 false size (sized 5) once-IsExact
      (Reach-IsLinked same panel once once-Reach) once_call once_size

twice_set : (set same once size (sized 7) (answer (sized 3))).0 ≡ true
unfolding is_equal cache_new set lookup lookup_item fetched set_looked set_item begun begin_call
    table_lookup table_insert
twice_set = refl

set-layers_example :
    layers once ≡ show size (sized 5) (layers (lookup fresh size (answer (sized 3))).1)
set-layers_example =
    set-layers same fresh size (sized 5) (answer (sized 3)) (uint_value-IsExact floats 5) once_set

new_Linked : Linked fresh.pending_calls fresh.old_properties fresh.next_call
new_Linked = Reach-IsLinked same panel fresh here

stale_set_example :
    (property_changed same once panel size (sized 5) ≡ once)
    × (table_lookup size (set_property_reply_handler same twice 1 false).properties
        ≡ some (sized 3))
unfolding cache_new lookup lookup_item fetched table_lookup table_insert
stale_set_example =
    stale_set same fresh size panel (sized 5) (sized 7) (answer (sized 3)) (answer (sized 3)) 0 1
      (uint_value-IsExact floats 5) (uint_value-IsExact floats 7) three-IsExact new_Linked once_set
      once_call twice_set twice_call

-- "/gtk" and "/GTK/size" stand in the cache
abbrev wide : Cache (Value ℕ)
wide = record fresh {
  properties =
      (slash ∷ gtk, sized 1) ∷ (codes "/GTK/size", sized 2) ∷ (codes "/other", sized 3) ∷ [];
}

lookup-reset_example :
    ((reset wide (slash ∷ gtk) true true).0 ≡ true)
    × (table_lookup (codes "/GTK/size") (reset wide (slash ∷ gtk) true true).1.properties ≡ none)
unfolding has_prefix_nocase table_lookup
lookup-reset_example = lookup-reset wide (slash ∷ gtk) (codes "/GTK/size") true true
