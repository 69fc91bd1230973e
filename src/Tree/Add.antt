-- ===== src/Tree/Add.antt =====
-- blconf_proptree_add_property of blconfd/blconf-backend-perchannel-xml.c: what the tree shows after it.
use blconf.Base.{
  ℕ, zero, suc, ◌<◌, ◌≤◌, ◌≡◌, refl, sym, ap, subst, ◌∙◌, ◌≢◌, ◌⊎◌, inl, inr, Bool, false, Option,
  none, some, List, [], ◌∷◌, ◌++◌, Text, str_eq, if◌then◌else◌, arith, Bool-cases, Option-cases,
  All, length, append_assoc,
}
use blconf.Tree.{
  Property, Forest, lookup_node, lookup_parts, find_child, append, append_at, new_property,
  add_property, tree_add, max_prop_path,
}
use blconf.Tree.Paths.{path_eq, path_eq_iff, path_eq_refl, prop_of, view, view-cons, seen}
use blconf.Tree.Paths.Appending.{view-append_at}
use blconf.Tree.Names.{
  IsPart, rjoin, rpath, rjoin_is_valid, strsplit-rjoin, parent_of_rjoin, last_of_rjoin,
  length-rjoin, rjoin-ne-nil,
}

path_eq-longer : (ps : List Text) (x : Text) (xs : List Text) → path_eq ps (ps ++ (x ∷ xs)) ≡ false
path_eq-longer [] x xs = refl
path_eq-longer (p ∷ ps) x xs = ground (arith, path_eq-longer ps x xs)

str_eq-nil : (s : Text) → s ≢ [] → str_eq s [] ≡ false
str_eq-nil [] n = absurd (n refl)
str_eq-nil (c ∷ s) n = refl

module _ {ℓ} {V : Type ℓ} where
  view-nil : (f : Forest V) → view [] f ≡ none
  unfolding view lookup_parts
  view-nil f = refl

  -- `view-append_at`, at any path
  view-appended :
      (ps : List Text) (new : Property V) (qs : List Text) (f : Forest V)
      → (ps ≡ []) ⊎ (view ps f ≢ none)
      → view (ps ++ new.name ∷ []) f ≡ none
      → view qs (append_at ps new f)
        ≡ (if path_eq (ps ++ new.name ∷ []) qs then some new else view qs f)
  view-appended [] new [] f k h = view-nil _ ∙ sym (view-nil f)
  view-appended (p ∷ ps) new [] f k h = view-nil _ ∙ sym (view-nil f)
  view-appended ps new (q ∷ qs) f k h = view-append_at ps new q qs f k h

  -- nothing is below a node that is not there
  view-below :
      (ps : List Text) (p x : Text) (xs : List Text) (f : Forest V)
      → view (ps ++ p ∷ []) f ≡ none
      → view (ps ++ (p ∷ x ∷ xs)) f ≡ none
  view-below [] p x xs f h = rw (view-cons p (x ∷ xs) f) (ground (arith, view-cons p [] f))
  view-below (q ∷ []) p x xs f h = elim (Option-cases (find_child q f)) [
    | inl e ↦ rw (view-cons q (p ∷ x ∷ xs) f, e)
    | inr (n, e) ↦
        rw (view-cons q (p ∷ x ∷ xs) f, e)
          (ground (arith, view-below [] p x xs n.children, view-cons q (p ∷ []) f))
  ]
  view-below (q ∷ q' ∷ ps) p x xs f h = elim (Option-cases (find_child q f)) [
    | inl e ↦ rw (view-cons q (q' ∷ (ps ++ (p ∷ x ∷ xs))) f, e)
    | inr (n, e) ↦
        rw (view-cons q (q' ∷ (ps ++ (p ∷ x ∷ xs))) f, e)
          (ground
            (arith, view-below (q' ∷ ps) p x xs n.children, view-cons q (q' ∷ (ps ++ p ∷ [])) f))
  ]

  -- What an added property leaves: it is there, nothing is below it, and all else looks as before.
  pub record Added (path : List Text) (new : Property V) (f f' : Forest V) : Type ℓ where
    pub here : view path f' ≡ some new
    pub empty : (x : Text) (xs : List Text) → view (path ++ (x ∷ xs)) f' ≡ none
    pub others : (qs : List Text) → path_eq path qs ≡ false → seen (view qs f') ≡ seen (view qs f)

  append_at-Added :
      (ps : List Text) (new : Property V) (f g : Forest V)
      → (ps ≡ []) ⊎ (view ps g ≢ none)
      → view (ps ++ new.name ∷ []) g ≡ none
      → ((qs : List Text) → seen (view qs g) ≡ seen (view qs f))
      → Added (ps ++ new.name ∷ []) new f (append_at ps new g)
  append_at-Added ps new f g k h same = record {
    here =
        rw (view-appended ps new (ps ++ new.name ∷ []) g k h, path_eq_refl (ps ++ new.name ∷ []));
    empty = λ x xs.
        rw
          (
            view-appended ps new ((ps ++ new.name ∷ []) ++ (x ∷ xs)) g k h,
            path_eq-longer (ps ++ new.name ∷ []) x xs,
            append_assoc,
          )
          (view-below ps new.name x xs g h);
    others = λ qs ne. rw (view-appended ps new qs g k h, ne) (same qs);
  }

  append-Added :
      (p : Text) (v : Option V) (l : Bool) (f : Forest V)
      → view (p ∷ []) f ≡ none
      → Added (p ∷ []) (new_property p v l) f (append f (new_property p v l))
  unfolding append_at
  append-Added p v l f free =
      append_at-Added [] (new_property p v l) f f (inl refl) free (λ qs. refl)

  lookup_node-view :
      (p : Text) (rs : List Text) (f : Forest V)
      → All IsPart (p ∷ rs)
      → lookup_node f (rjoin (p ∷ rs)) ≡ lookup_parts (rpath (p ∷ rs)) f
  unfolding lookup_node
  lookup_node-view p rs f h = rw (rjoin_is_valid p rs h, strsplit-rjoin p rs h)

  pub view-lookup_node :
      (p : Text) (rs : List Text) (f : Forest V)
      → All IsPart (p ∷ rs)
      → view (rpath (p ∷ rs)) f ≡ prop_of (lookup_node f (rjoin (p ∷ rs)))
  unfolding view
  view-lookup_node p rs f h = rw (lookup_node-view p rs f h)

  abbrev AddedBy : Text → List Text → Option V → Bool → Forest V → Option (Forest V) → Type ℓ
  AddedBy p rs v l f o =
      (f' : Forest V) × (o ≡ some f') × Added (rpath (p ∷ rs)) (new_property p v l) f f'

  -- below a parent that is there, or that a recursive call has made
  same-Added :
      (p : Text) (rs : List Text) (f f' : Forest V) (qs : List Text)
      → Added (rpath (p ∷ rs)) (new_property p none false) f f'
      → view (rpath (p ∷ rs)) f ≡ none
      → seen (view qs f') ≡ seen (view qs f)
  same-Added p rs f f' qs added free = elim (Bool-cases (path_eq (rpath (p ∷ rs)) qs)) [
    | inl e ↦
        subst (λ ks. seen (view ks f') ≡ seen (view ks f)) ((path_eq_iff (rpath (p ∷ rs)) qs).0 e)
          (rw (added.here, free))
    | inr ne ↦ added.others qs ne
  ]

  add_property-Added :
      (fuel : ℕ) (p : Text) (rs : List Text) (v : Option V) (l : Bool) (f : Forest V)
      → All IsPart (p ∷ rs)
      → length (rjoin (p ∷ rs)) < max_prop_path
      → length (rjoin (p ∷ rs)) ≤ fuel
      → view (rpath (p ∷ rs)) f ≡ none
      → AddedBy p rs v l f (add_property fuel f (rjoin (p ∷ rs)) v l)
  unfolding add_property
  add_property-Added zero p rs v l f parts short enough free =
      absurd (omega (arith, length-rjoin p rs))
  add_property-Added (suc fuel) p [] v l f parts short enough free =
      rw
        (
          add_property,
          rjoin_is_valid p [] parts,
          parent_of_rjoin p [] parts.0.1 short,
          last_of_rjoin p [] parts.0.1,
        )
        (append f (new_property p v l), refl, append-Added p v l f free)
  add_property-Added (suc fuel) p (r ∷ rs) v l f parts short enough free =
      rw
        (
          add_property,
          rjoin_is_valid p (r ∷ rs) parts,
          parent_of_rjoin p (r ∷ rs) parts.0.1 short,
          last_of_rjoin p (r ∷ rs) parts.0.1,
          str_eq-nil (rjoin (r ∷ rs)) (rjoin-ne-nil r rs),
          strsplit-rjoin r rs parts.1,
        )
        (elim (Option-cases (lookup_node f (rjoin (r ∷ rs)))) [
          | inr (n, e) ↦ rw e (
            append_at (rpath (r ∷ rs)) (new_property p v l) f,
            refl,
            append_at-Added (rpath (r ∷ rs)) (new_property p v l) f f
                (inr (λ k. cc (view-lookup_node r rs f parts.1, k, e))) free (λ qs. refl),
          )
          | inl e ↦
              let missing : view (rpath (r ∷ rs)) f ≡ none =
                view-lookup_node r rs f parts.1 ∙ ap prop_of e in
              let (f1, made, added) =
                add_property-Added fuel r rs none false f parts.1
                  (omega (arith, length-rjoin p (r ∷ rs))) (omega (arith, length-rjoin p (r ∷ rs)))
                  missing in
              rw (e, made)
                (
                  append_at (rpath (r ∷ rs)) (new_property p v l) f1,
                  refl,
                  append_at-Added (rpath (r ∷ rs)) (new_property p v l) f f1
                      (inr (λ k. cc (added.here, k))) (added.empty p [])
                      (λ qs. same-Added r rs f f1 qs added missing),
                )
        ])

  -- blconf_proptree_add_property on a name of one or more components, shorter than MAX_PROP_PATH,
  -- that no node has: the property is there with the value and the lock that were given, nothing
  -- is below it, and every other name shows the value, the default and the lock that it had.
  pub tree_add-Added :
      (p : Text) (rs : List Text) (v : Option V) (l : Bool) (f : Forest V)
      → All IsPart (p ∷ rs)
      → length (rjoin (p ∷ rs)) < max_prop_path
      → lookup_node f (rjoin (p ∷ rs)) ≡ none
      → (f' : Forest V) × (tree_add f (rjoin (p ∷ rs)) v l ≡ some f')
        × Added (rpath (p ∷ rs)) (new_property p v l) f f'
  unfolding tree_add
  tree_add-Added p rs v l f parts short free =
      add_property-Added (length (rjoin (p ∷ rs))) p rs v l f parts short (omega arith)
        (view-lookup_node p rs f parts ∙ ap prop_of free)
