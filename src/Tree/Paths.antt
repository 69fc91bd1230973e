-- ===== src/Tree/Paths.antt =====
-- What a path of names sees in the property tree of blconfd/blconf-backend-perchannel-xml.c, and how
-- a write through a pointer and an appended node change it.
pub mod Appending
pub mod Blank
use blconf.Base.{
  ◌≡◌, refl, ◌↔◌, ◌≢◌, ◌⊎◌, inl, inr, Bool, true, false, ◌&&◌, Option, none, some, List, [], ◌∷◌,
  ◌++◌, Text, str_eq, str_eq_iff, str_eq_refl, if◌then◌else◌, arith, Option-cases,
}
use blconf.Tree.{
  Property, Forest, leaf, node, Node, find_child, lookup_parts, modify_at, append, append_at,
}

abbrev pub path_eq : List Text → List Text → Bool
path_eq [] [] = true
path_eq [] (q ∷ qs) = false
path_eq (p ∷ ps) [] = false
path_eq (p ∷ ps) (q ∷ qs) = str_eq p q && path_eq ps qs

pub path_eq_refl : (ps : List Text) → path_eq ps ps ≡ true
path_eq_refl [] = refl
path_eq_refl (p ∷ ps) = ground (arith, str_eq_refl p, path_eq_refl ps)

pub path_eq_iff : (ps qs : List Text) → (path_eq ps qs ≡ true) ↔ (ps ≡ qs)
path_eq_iff [] [] = (λ _. refl, λ _. refl)
path_eq_iff [] (q ∷ qs) = (λ e. cc, λ e. cc)
path_eq_iff (p ∷ ps) [] = (λ e. cc, λ e. cc)
path_eq_iff (p ∷ ps) (q ∷ qs) = (
  λ e. ground (arith, str_eq_iff p q, path_eq_iff ps qs),
  λ e. ground (arith, str_eq_iff p q, path_eq_iff ps qs),
)

module _ {ℓ} {V : Type ℓ} where
  abbrev pub map_node : (Node V → Node V) → Option (Node V) → Option (Node V)
  map_node g none = none
  map_node g (some n) = some (g n)

  abbrev pub prop_of : Option (Node V) → Option (Property V)
  prop_of none = none
  prop_of (some n) = some n.prop

  abbrev pub map_prop : (Property V → Property V) → Option (Property V) → Option (Property V)
  map_prop g none = none
  map_prop g (some p) = some (g p)

  -- What a reader can tell of a property: a missing node looks like an empty one.
  abbrev pub seen : Option (Property V) → Option V × Option V × Bool
  seen none = (none, none, false)
  seen (some p) = (p.value, p.system_value, p.locked)

  -- The property that a path leads to.
  unfoldable pub view : List Text → Forest V → Option (Property V)
  view path f = prop_of (lookup_parts path f)

  -- the property that the rest of a path leads to from a node
  abbrev pub view_from : List Text → Option (Node V) → Option (Property V)
  view_from [] o = prop_of o
  view_from (q ∷ qs) none = none
  view_from (q ∷ qs) (some n) = view (q ∷ qs) n.children

  pub view-cons :
      (q : Text) (qs : List Text) (f : Forest V) → view (q ∷ qs) f ≡ view_from qs (find_child q f)
  unfolding view lookup_parts
  view-cons q [] f = ground arith
  view-cons q (r ∷ qs) f = ground arith

  find_child-name :
      (q : Text) (f : Forest V) (n : Node V) → find_child q f ≡ some n → str_eq n.prop.name q ≡ true
  unfolding find_child
  find_child-name q leaf n h = cc
  find_child-name q (node p c s) n h = ground (arith, find_child-name q s n)

  -- the write that a path of at least one name makes, seen at the first name
  abbrev modified : (Property V → Property V) → List Text → Node V → Node V
  modified g [] n = record n { prop = g n.prop }
  modified g (q ∷ qs) n = record n { children = modify_at g (q ∷ qs) n.children }

  find_child-modify_at :
      (g : Property V → Property V) (p : Text) (ps : List Text) (q : Text) (f : Forest V)
      → ((r : Property V) → (g r).name ≡ r.name)
      → find_child q (modify_at g (p ∷ ps) f)
        ≡ (if str_eq p q then map_node (modified g ps) (find_child q f) else find_child q f)
  unfolding find_child modify_at
  find_child-modify_at g p ps q leaf h = ground arith
  find_child-modify_at g p [] q (node r c s) h = ground (
    arith,
    h r,
    find_child-modify_at g p [] q s h,
    str_eq_iff r.name p,
    str_eq_iff r.name q,
    str_eq_iff p q,
  )
  find_child-modify_at g p (p' ∷ ps) q (node r c s) h = ground (
    arith,
    find_child-modify_at g p (p' ∷ ps) q s h,
    str_eq_iff r.name p,
    str_eq_iff r.name q,
    str_eq_iff p q,
  )

  -- A write through the pointer that a path leads to changes that property alone.
  pub view-modify_at :
      (g : Property V → Property V) (p : Text) (ps : List Text) (q : Text) (qs : List Text)
      (f : Forest V)
      → ((r : Property V) → (g r).name ≡ r.name)
      → view (q ∷ qs) (modify_at g (p ∷ ps) f)
        ≡ (if path_eq (p ∷ ps) (q ∷ qs) then map_prop g (view (q ∷ qs) f) else view (q ∷ qs) f)
  view-modify_at g p [] q [] f h =
      rw
        (
          view-cons q [] (modify_at g (p ∷ []) f),
          view-cons q [] f,
          find_child-modify_at g p [] q f h,
        )
        (ground arith)
  view-modify_at g p (p' ∷ ps) q [] f h =
      rw
        (
          view-cons q [] (modify_at g (p ∷ p' ∷ ps) f),
          view-cons q [] f,
          find_child-modify_at g p (p' ∷ ps) q f h,
        )
        (ground arith)
  view-modify_at g p [] q (q' ∷ qs) f h =
      rw
        (
          view-cons q (q' ∷ qs) (modify_at g (p ∷ []) f),
          view-cons q (q' ∷ qs) f,
          find_child-modify_at g p [] q f h,
        )
        (ground arith)
  view-modify_at g p (p' ∷ ps) q (q' ∷ qs) f h =
      rw
        (
          view-cons q (q' ∷ qs) (modify_at g (p ∷ p' ∷ ps) f),
          view-cons q (q' ∷ qs) f,
          find_child-modify_at g p (p' ∷ ps) q f h,
        )
        (elim (Option-cases (find_child q f)) [
          | inl e ↦ rw e (ground arith)
          | inr (n, e) ↦ rw e (ground (arith, view-modify_at g p' ps q' qs n.children h))
        ])

  -- The same at any two paths; the empty path leads to no property.
  pub view-modified :
      (g : Property V → Property V) (ps qs : List Text) (f : Forest V)
      → ((r : Property V) → (g r).name ≡ r.name)
      → view qs (modify_at g ps f) ≡ (if path_eq ps qs then map_prop g (view qs f) else view qs f)
  unfolding view lookup_parts modify_at
  view-modified g [] [] f h = refl
  view-modified g [] (q ∷ qs) f h = refl
  view-modified g (p ∷ ps) [] f h = refl
  view-modified g (p ∷ ps) (q ∷ qs) f h = view-modify_at g p ps q qs f h
