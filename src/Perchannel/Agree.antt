-- ===== src/Perchannel/Agree.antt =====
-- How the operations of blconfd/blconf-backend-perchannel-xml.c agree with one another: `exists` with
-- `get`, and `is_property_locked` with what `set` refuses.
use blconf.Base.{
  ◌≡◌, refl, ap, ◌↔◌, inl, inr, Bool, true, false, ◌||◌, is_some, Option, none, some, Text, arith,
  Option-cases,
}
use blconf.Backend.Error.{Result, ok, err, permission_denied}
use blconf.Tree.{Forest, lookup_node}
use blconf.Tree.Visit.{effective}
use blconf.Perchannel.Channels.{State, Disk, Handle, open_channel}
use blconf.Perchannel.Channels.Opening.{open_or_create-ok}
use blconf.Perchannel.{
  set, set_found, changed, get, get_in, exists, exists_in, locked_in, value_found,
  is_property_locked,
}

module _ {ℓ} {V : Type ℓ} where
  found_iff :
      (val def : Option V) (n : Text) (l : Bool) (c : Forest V)
      → ((is_some val || is_some def) ≡ true) ↔ (
          (w : V) × (value_found (
              some (record {
                prop = record { name = n; value = val; system_value = def; locked = l };
                children = c;
              }))
            ≡ ok w))
  unfolding value_found effective
  found_iff (some v) def n l c = ((λ _. (v, refl)), λ _. refl)
  found_iff none (some v) n l c = ((λ _. (v, refl)), λ _. refl)
  found_iff none none n l c = ((λ h. absurd (ground (arith, h))), λ h. absurd (ground (arith, h.1)))

  exists_in-get_in :
      (property : Text) (r : Result (Handle V))
      → (exists_in property r ≡ true) ↔ ((w : V) × (get_in property r ≡ ok w))
  unfolding exists_in get_in value_found effective
  exists_in-get_in property (err e) =
      ((λ h. absurd (ground (arith, h))), λ h. absurd (ground (arith, h.1)))
  exists_in-get_in property (ok h) =
      elim (Option-cases (lookup_node h.channel.properties property)) [
        | inl e ↦ rw e ((λ h. absurd (ground (arith, h))), λ h. absurd (ground (arith, h.1)))
        | inr (n, e) ↦
            rw (e, exists_in)
              (found_iff n.prop.value n.prop.system_value n.prop.name n.prop.locked n.children)
      ]

  -- `exists` never fails, and says TRUE exactly when `get` finds a value.
  pub exists-get :
      (disk : Disk V) (st : State V) (name property : Text)
      → ((b : Bool) × ((exists disk st name property).0 ≡ ok b))
        × (((exists disk st name property).0 ≡ ok true)
            ↔ ((w : V) × ((get disk st name property).0 ≡ ok w)))
  unfolding exists get
  exists-get disk st name property =
      let r = (open_channel disk st name).0 in
      let both = exists_in-get_in property r in
      ((exists_in property r, refl), ((λ e. both.0 (ground (arith, e))), λ h. ap ok (both.1 h)))

  set_found-denied :
      (equal : V → V → Bool) (h : Handle V) (name property : Text) (v : V) (st : State V)
      → h.channel.locked ≡ false
      → ((set_found equal h name property v (lookup_node h.channel.properties property) st).0
          ≡ err permission_denied)
        ↔ (locked_in property (ok h) ≡ ok true)
  unfolding set_found locked_in changed
  set_found-denied equal h name property v st free =
      elim (Option-cases (lookup_node h.channel.properties property)) [
        | inl e ↦ rw (e, free) ((λ k. absurd (ground (arith, k))), λ k. absurd (ground (arith, k)))
        | inr (n, e) ↦ rw (e, free) ((λ k. ground (arith, k)), λ k. ground (arith, k))
      ]

  -- In a channel that is not locked as a whole, `set` refuses with "permission denied" exactly where
  -- `is_property_locked` says TRUE.
  pub set-denied_iff :
      (equal : V → V → Bool) (disk : Disk V) (st : State V) (name property : Text) (v : V)
      (h : Handle V)
      → (open_channel disk st name).0 ≡ ok h
      → h.channel.locked ≡ false
      → ((set equal disk st name property v).0 ≡ err permission_denied)
        ↔ ((is_property_locked disk st name property).0 ≡ ok true)
  unfolding set is_property_locked
  set-denied_iff equal disk st name property v h opened free =
      rw (open_or_create-ok disk st name h opened, opened)
        (set_found-denied equal h name property v (open_channel disk st name).1 free)

  -- A channel that is locked as a whole: `is_property_locked` says TRUE of every property, and `set`
  -- still accepts one that the tree does not hold.
  pub set-locked_channel :
      (equal : V → V → Bool) (disk : Disk V) (st : State V) (name property : Text) (v : V)
      (h : Handle V)
      → (open_channel disk st name).0 ≡ ok h
      → h.channel.locked ≡ true
      → lookup_node h.channel.properties property ≡ none
      → ((is_property_locked disk st name property).0 ≡ ok true)
        × ((set equal disk st name property v).0 ≡ ok tt)
  unfolding set is_property_locked set_found locked_in changed
  set-locked_channel equal disk st name property v h opened locked missing =
      (rw (opened, locked), rw (open_or_create-ok disk st name h opened, missing))
