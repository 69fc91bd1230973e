-- ===== src/Tree/Resets.antt =====
-- nodes_do_prop_reset of blconfd/blconf-backend-perchannel-xml.c over a tree: what is left of it, and how
-- often the listener is called.
use blconf.Base.{
  ℕ, ◌+◌, ◌≡◌, refl, ap, ◌∙◌, Bool, true, false, List, [], ◌∷◌, ◌++◌, Text, arith, length,
  length-append, Option-cases, inl, inr, is_some, if◌then◌else◌,
}
use blconf.Tree.{Forest, leaf, node, Node, find_child, lookup_parts, unset_value}
use blconf.Tree.Visit.{reset_values, build_propname}
use blconf.Tree.Paths.{view, view-cons, map_node, map_prop}

length-own :
    (b : Bool) (name : Text) (names : List Text)
    → length ((if b then name ∷ [] else []) ++ names) ≡ (if b then 1 else 0) + length names
length-own true name names = omega arith
length-own false name names = omega arith

module _ {ℓ} {V : Type ℓ} where
  emptied : List Text → Node V → Node V
  emptied up n = record {
    prop = unset_value n.prop;
    children = (reset_values (n.prop.name ∷ up) n.children).0;
  }

  find_child-reset_values :
      (up : List Text) (q : Text) (f : Forest V)
      → find_child q (reset_values up f).0 ≡ map_node (emptied up) (find_child q f)
  unfolding find_child reset_values emptied
  find_child-reset_values up q leaf = refl
  find_child-reset_values up q (node p c s) = ground (arith, find_child-reset_values up q s)

  view-reset_cons :
      (up : List Text) (q : Text) (qs : List Text) (f : Forest V)
      → view (q ∷ qs) (reset_values up f).0 ≡ map_prop unset_value (view (q ∷ qs) f)
  unfolding emptied
  view-reset_cons up q [] f =
      rw (view-cons q [] (reset_values up f).0, view-cons q [] f, find_child-reset_values up q f)
        (elim (Option-cases (find_child q f)) [ inl e ↦ rw e refl | inr (n, e) ↦ rw e refl ])
  view-reset_cons up q (r ∷ qs) f =
      rw
        (
          view-cons q (r ∷ qs) (reset_values up f).0,
          view-cons q (r ∷ qs) f,
          find_child-reset_values up q f,
        )
        (elim (Option-cases (find_child q f)) [
          | inl e ↦ rw e refl
          | inr (n, e) ↦ rw e (view-reset_cons (n.prop.name ∷ up) r qs n.children)
        ])

  view-reset :
      (up : List Text) (qs : List Text) (f : Forest V)
      → view qs (reset_values up f).0 ≡ map_prop unset_value (view qs f)
  view-reset up [] f = unfold view lookup_parts in refl
  view-reset up (q ∷ qs) f = view-reset_cons up q qs f

  -- How many properties have a value of their own.
  pub values_set : Forest V → ℕ
  values_set leaf = 0
  values_set (node p c s) = values_set c + ((if is_some p.value then 1 else 0) + values_set s)

  length-reset_values :
      (up : List Text) (f : Forest V) → length (reset_values up f).1 ≡ values_set f
  unfolding reset_values values_set
  length-reset_values up leaf = refl
  length-reset_values up (node p c s) =
      let beside = (reset_values up s).1 in
      let own = length-own (is_some p.value) (build_propname (p.name ∷ up)) beside in
      length-append (reset_values (p.name ∷ up) c).1 _
      ∙ (ap (λ (n : ℕ). length (reset_values (p.name ∷ up) c).1 + n) own
          ∙ rw (length-reset_values (p.name ∷ up) c, length-reset_values up s) refl)

  -- The traversal unsets the value of the property at every path, and leaves its name, its default and its
  -- lock; it gives one name for each value that was set.
  pub reset_values_lem :
      (up : List Text) (f : Forest V) (qs : List Text)
      → (view qs (reset_values up f).0 ≡ map_prop unset_value (view qs f))
        × (length (reset_values up f).1 ≡ values_set f)
  reset_values_lem up f qs = (view-reset up qs f, length-reset_values up f)
