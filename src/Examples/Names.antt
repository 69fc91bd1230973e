-- ===== src/Examples/Names.antt =====
-- The theorems on the names that are notified, at concrete names.
use blconf.Base.{◌≡◌, [], ◌∷◌, length}
use blconf.Tree.Visit.{reset_values}
use blconf.Tree.{unset_value}
use blconf.Tree.Paths.{view, map_prop}
use blconf.Tree.Resets.{values_set, reset_values_lem}
use blconf.Examples.{tree, mode, gtk}

-- "/gtk/mode" loses its 7 and stays locked, and one name is given
reset_values_lem_example :
    (view (gtk ∷ mode ∷ []) (reset_values [] tree).0
      ≡ map_prop unset_value (view (gtk ∷ mode ∷ []) tree))
    × (length (reset_values [] tree).1 ≡ values_set tree)
reset_values_lem_example = reset_values_lem [] tree (gtk ∷ mode ∷ [])
