-- ===== src/Xml/Locks.antt =====
-- What a change to the tree keeps of the locks and the system's values, for the policy that the comments
-- of blconf_xml_handle_property in blconfd/blconf-backend-perchannel-xml.c describe.
use blconf.Base.{
  ◌≡◌, refl, subst, ◌∙◌, Bool, true, false, inl, inr, Option, none, some, List, Text, arith,
  Bool-cases, strsplit,
}
use blconf.Tree.{Property, Forest, Node, modify_at, lookup_node, prop_name_is_valid, tail}
use blconf.Tree.Paths.{seen, view, prop_of, path_eq, path_eq_iff, view-modified, map_prop}

module _ {ℓ} {V : Type ℓ} where
  abbrev pub lock_at : List Text → Forest V → Bool
  lock_at qs f = (seen (view qs f)).2

  -- At one path: the lock and the system's value are as before, and so is the value if there is a lock.
  abbrev pub Kept : Option V × Option V × Bool → Option V × Option V × Bool → Type ℓ
  Kept x y = (y.2 ≡ x.2) × (y.1 ≡ x.1) × (x.2 ≡ true → y.0 ≡ x.0)

  pub record KeepsLocks (f f' : Forest V) : Type ℓ where
    pub at : (qs : List Text) → Kept (seen (view qs f)) (seen (view qs f'))

  pub KeepsLocks-refl : (f : Forest V) → KeepsLocks f f
  KeepsLocks-refl f = record { at = λ qs. (refl, refl, λ _. refl) }

  pub KeepsLocks-trans : (f g h : Forest V) → KeepsLocks f g → KeepsLocks g h → KeepsLocks f h
  KeepsLocks-trans f g h a b = record {
    at = λ qs.
        let (l, s, v) = a.at qs in
        let (l', s', v') = b.at qs in (l' ∙ l, s' ∙ s, λ k. v' (l ∙ k) ∙ v k);
  }

  pub KeepsLocks-seen :
      (f f' : Forest V)
      → ((qs : List Text) → seen (view qs f') ≡ seen (view qs f))
      → KeepsLocks f f'
  KeepsLocks-seen f f' h = record { at = λ qs. rw (h qs) (refl, refl, λ _. refl) }

  -- A write to the value alone.
  pub record OnlyValue (g : Property V → Property V) : Type ℓ where
    pub name : (r : Property V) → (g r).name ≡ r.name
    pub locked : (r : Property V) → (g r).locked ≡ r.locked
    pub system_value : (r : Property V) → (g r).system_value ≡ r.system_value

  map_prop-Kept :
      (g : Property V → Property V) (o : Option (Property V))
      → OnlyValue g
      → (seen o).2 ≡ false
      → Kept (seen o) (seen (map_prop g o))
  map_prop-Kept g none only free = (refl, refl, λ _. refl)
  map_prop-Kept g (some r) only free =
      (only.locked r, only.system_value r, λ k. absurd (cc (k, free)))

  -- A write to the value of a property that is not locked.
  pub modify_at-KeepsLocks :
      (g : Property V → Property V) (path : List Text) (f : Forest V)
      → OnlyValue g
      → lock_at path f ≡ false
      → KeepsLocks f (modify_at g path f)
  modify_at-KeepsLocks g path f only free = record {
    at = λ qs. elim (Bool-cases (path_eq path qs)) [
      | inl e ↦
          rw (view-modified g path qs f only.name, e)
            (map_prop-Kept g (view qs f) only
              (subst (λ ks. lock_at ks f ≡ false) ((path_eq_iff path qs).0 e) free))
      | inr e ↦ rw (view-modified g path qs f only.name, e) (refl, refl, λ _. refl)
    ];
  }

  -- A name that is accepted leads where its path leads.
  pub view-lookup_node_valid :
      (f : Forest V) (name : Text)
      → prop_name_is_valid name ≡ true
      → view (strsplit (tail name)) f ≡ prop_of (lookup_node f name)
  unfolding view lookup_node
  view-lookup_node_valid f name h = rw h

  pub view-lookup_node_found :
      (f : Forest V) (name : Text) (n : Node V)
      → lookup_node f name ≡ some n
      → view (strsplit (tail name)) f ≡ some n.prop
  unfolding view lookup_node
  view-lookup_node_found f name n e = ground (arith, e)
