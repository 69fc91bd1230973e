-- ===== src/Tree/Paths/Blank.antt =====
-- An empty node that is appended to the tree of blconfd/blconf-backend-perchannel-xml.c is not seen,
-- wherever it goes and whatever its name is.
use blconf.Base.{
  ◌≡◌, refl, ◌∙◌, subst, length, Bool, true, false, inl, inr, Option, none, some, List, [], ◌∷◌,
  Text, arith, Option-cases, str_eq, zero, suc, ℕ, not, Bool-cases, is_some, if◌then◌else◌,
  before_last_slash, after_last_slash, strsplit,
}
use blconf.Tree.{
  Property, Forest, append, append_at, find_child, new_property, add_property, tree_add,
  append_under, or_empty, strlcpy, tail, prop_name_is_valid, lookup_node, lookup_parts,
}
use blconf.Tree.Paths.{seen, view, view-cons}
use blconf.Tree.Paths.Appending.{view-leaf, find_child-append, find_child-append_at}

module _ {ℓ} {V : Type ℓ} where
  abbrev blank : Text → Property V
  blank n = new_property n none false

  seen-append :
      (n : Text) (q : Text) (qs : List Text) (f : Forest V)
      → seen (view (q ∷ qs) (append f (blank n))) ≡ seen (view (q ∷ qs) f)
  seen-append n q [] f =
      rw (view-cons q [] (append f (blank n)), view-cons q [] f, find_child-append q f (blank n))
        (ground arith)
  seen-append n q (q' ∷ qs) f =
      rw
        (
          view-cons q (q' ∷ qs) (append f (blank n)),
          view-cons q (q' ∷ qs) f,
          find_child-append q f (blank n),
        )
        (ground (arith, view-leaf {V = V} q' qs))

  seen-append_at :
      (ps : List Text) (n : Text) (q : Text) (qs : List Text) (f : Forest V)
      → seen (view (q ∷ qs) (append_at ps (blank n) f)) ≡ seen (view (q ∷ qs) f)
  seen-append_at [] n q qs f = unfold append_at in seen-append n q qs f
  seen-append_at (p ∷ ps) n q [] f =
      rw
        (
          view-cons q [] (append_at (p ∷ ps) (blank n) f),
          view-cons q [] f,
          find_child-append_at p ps (blank n) q f,
        )
        (ground arith)
  seen-append_at (p ∷ ps) n q (q' ∷ qs) f =
      rw
        (
          view-cons q (q' ∷ qs) (append_at (p ∷ ps) (blank n) f),
          view-cons q (q' ∷ qs) f,
          find_child-append_at p ps (blank n) q f,
        )
        (elim (Option-cases (find_child q f)) [
          | inl e ↦ rw e (ground arith)
          | inr (m, e) ↦ rw e (ground (arith, seen-append_at ps n q' qs m.children))
        ])

  pub seen-append_at-blank :
      (ps : List Text) (n : Text) (qs : List Text) (f : Forest V)
      → seen (view qs (append_at ps (blank n) f)) ≡ seen (view qs f)
  seen-append_at-blank ps n [] f = unfold view lookup_parts in refl
  seen-append_at-blank ps n (q ∷ qs) f = seen-append_at ps n q qs f

  invalid_not_added :
      (fuel : ℕ) (f : Forest V) (name : Text)
      → prop_name_is_valid name ≡ false
      → add_property (suc fuel) f name none false ≡ none
  unfolding add_property
  invalid_not_added fuel f name h = rw h

  abbrev SameSeen : Forest V → Option (Forest V) → Type ℓ
  SameSeen f none = Unit
  SameSeen f (some f') = (qs : List Text) → seen (view qs f') ≡ seen (view qs f)

  append_under-SameSeen :
      (ps : List Text) (n : Text) (f : Forest V) (o : Option (Forest V))
      → SameSeen f o
      → SameSeen f (append_under ps (blank n) o)
  unfolding append_under
  append_under-SameSeen ps n f none h = tt
  append_under-SameSeen ps n f (some g) h = λ qs. seen-append_at-blank ps n qs g ∙ h qs

  SameSeen-if :
      (f : Forest V) (b : Bool) (x y : Option (Forest V))
      → SameSeen f x
      → SameSeen f y
      → SameSeen f (if b then x else y)
  SameSeen-if f true x y h k = h
  SameSeen-if f false x y h k = k

  -- blconf_proptree_add_property without a value and without a lock shows nothing new at any path.
  add_property-SameSeen :
      (fuel : ℕ) (f : Forest V) (name : Text) → SameSeen f (add_property fuel f name none false)
  unfolding add_property
  add_property-SameSeen zero f name = tt
  add_property-SameSeen (suc fuel) f name =
      let parent = or_empty (before_last_slash (strlcpy name)) in
      let n = after_last_slash name in
      let made = add_property fuel f parent none false in
      SameSeen-if f (not (prop_name_is_valid name)) none _ tt (
        SameSeen-if f (str_eq parent []) (some (append f (blank n))) _
          (λ qs. unfold append_at in seen-append_at-blank [] n qs f)
          (append_under-SameSeen (strsplit (tail parent)) n f _ (
            SameSeen-if f (is_some (lookup_node f parent)) (some f) made (λ qs. refl)
              (add_property-SameSeen fuel f parent))))

  pub tree_add-seen :
      (f f' : Forest V) (name : Text)
      → tree_add f name none false ≡ some f'
      → (qs : List Text) → seen (view qs f') ≡ seen (view qs f)
  unfolding tree_add
  tree_add-seen f f' name e = subst (SameSeen f) e (add_property-SameSeen (length name) f name)

  pub tree_add-valid :
      (f f' : Forest V) (name : Text)
      → tree_add f name none false ≡ some f'
      → prop_name_is_valid name ≡ true
  unfolding tree_add add_property
  tree_add-valid f f' [] e = absurd (ground (arith, e))
  tree_add-valid f f' (c ∷ name) e = elim (Bool-cases (prop_name_is_valid (c ∷ name))) [
    | inl h ↦ h
    | inr h ↦ absurd (cc (e, invalid_not_added (length name) f (c ∷ name) h))
  ]
