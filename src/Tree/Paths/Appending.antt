-- ===== src/Tree/Paths/Appending.antt =====
-- What the tree shows after g_node_append_data, as blconf_proptree_add_property of
-- blconfd/blconf-backend-perchannel-xml.c calls it.
use blconf.Base.{
  ◌≡◌, refl, ◌≢◌, ◌⊎◌, inl, inr, Option, none, some, List, [], ◌∷◌, ◌++◌, Text, str_eq, str_eq_iff,
  if◌then◌else◌, arith, Option-cases,
}
use blconf.Tree.{Property, Forest, leaf, node, Node, find_child, lookup_parts, append, append_at}
use blconf.Tree.Paths.{path_eq, map_node, view, view-cons}

module _ {ℓ} {V : Type ℓ} where
  -- appending
  abbrev or_else : Option (Node V) → Option (Node V) → Option (Node V)
  or_else none o = o
  or_else (some n) o = some n

  abbrev fresh : Property V → Node V
  fresh new = record { prop = new; children = leaf }

  pub find_child-append :
      (q : Text) (f : Forest V) (new : Property V)
      → find_child q (append f new)
        ≡ or_else (find_child q f) (if str_eq new.name q then some (fresh new) else none)
  unfolding find_child append
  find_child-append q leaf new = refl
  find_child-append q (node p c s) new = ground (arith, find_child-append q s new)

  abbrev grown : List Text → Property V → Node V → Node V
  grown ps new n = record n { children = append_at ps new n.children }

  pub find_child-append_at :
      (p : Text) (ps : List Text) (new : Property V) (q : Text) (f : Forest V)
      → find_child q (append_at (p ∷ ps) new f)
        ≡ (if str_eq p q then map_node (grown ps new) (find_child q f) else find_child q f)
  unfolding find_child append_at
  find_child-append_at p ps new q leaf = ground arith
  find_child-append_at p ps new q (node r c s) = ground (
    arith,
    find_child-append_at p ps new q s,
    str_eq_iff r.name p,
    str_eq_iff r.name q,
    str_eq_iff p q,
  )

  pub view-leaf : (q : Text) (qs : List Text) → view {V = V} (q ∷ qs) leaf ≡ none
  unfolding view lookup_parts find_child
  view-leaf q qs = refl

  view-append :
      (new : Property V) (q : Text) (qs : List Text) (f : Forest V)
      → view (new.name ∷ []) f ≡ none
      → view (q ∷ qs) (append f new)
        ≡ (if path_eq (new.name ∷ []) (q ∷ qs) then some new else view (q ∷ qs) f)
  view-append new q [] f h =
      rw (view-cons q [] (append f new), view-cons q [] f, find_child-append q f new)
        (ground (arith, view-cons new.name [] f, str_eq_iff new.name q))
  view-append new q (q' ∷ qs) f h =
      rw (view-cons q (q' ∷ qs) (append f new), view-cons q (q' ∷ qs) f, find_child-append q f new)
        (ground (arith, view-cons new.name [] f, str_eq_iff new.name q, view-leaf q' qs))

  -- A node that is appended under a node of the tree, with a name that no child of it has, is seen
  -- at its path, and nothing else changes.
  pub view-append_at :
      (ps : List Text) (new : Property V) (q : Text) (qs : List Text) (f : Forest V)
      → (ps ≡ []) ⊎ (view ps f ≢ none)
      → view (ps ++ new.name ∷ []) f ≡ none
      → view (q ∷ qs) (append_at ps new f)
        ≡ (if path_eq (ps ++ new.name ∷ []) (q ∷ qs) then some new else view (q ∷ qs) f)
  view-append_at [] new q qs f k h = unfold append_at in view-append new q qs f h
  view-append_at (p ∷ []) new q [] f k h =
      rw
        (
          view-cons q [] (append_at (p ∷ []) new f),
          view-cons q [] f,
          find_child-append_at p [] new q f,
        )
        (ground arith)
  view-append_at (p ∷ p' ∷ ps) new q [] f k h =
      rw
        (
          view-cons q [] (append_at (p ∷ p' ∷ ps) new f),
          view-cons q [] f,
          find_child-append_at p (p' ∷ ps) new q f,
        )
        (ground arith)
  view-append_at (p ∷ []) new q (q' ∷ qs) f k h =
      rw
        (
          view-cons q (q' ∷ qs) (append_at (p ∷ []) new f),
          view-cons q (q' ∷ qs) f,
          find_child-append_at p [] new q f,
        )
        (elim (Option-cases (find_child q f)) [
          | inl e ↦ rw e (ground (arith, k, view-cons p [] f, str_eq_iff p q))
          | inr (n, e) ↦ rw e (
              ground (
                arith,
                view-append_at [] new q' qs n.children (inl refl),
                view-cons p (new.name ∷ []) f,
                str_eq_iff p q,
              ))
        ])
  view-append_at (p ∷ p' ∷ ps) new q (q' ∷ qs) f k h =
      rw
        (
          view-cons q (q' ∷ qs) (append_at (p ∷ p' ∷ ps) new f),
          view-cons q (q' ∷ qs) f,
          find_child-append_at p (p' ∷ ps) new q f,
        )
        (elim (Option-cases (find_child q f)) [
          | inl e ↦ rw e (ground (arith, k, view-cons p (p' ∷ ps) f, str_eq_iff p q))
          | inr (n, e) ↦ rw e (
              ground (
                arith,
                view-append_at (p' ∷ ps) new q' qs n.children,
                view-cons p (p' ∷ ps) f,
                view-cons p (p' ∷ (ps ++ new.name ∷ [])) f,
                str_eq_iff p q,
              ))
        ])
