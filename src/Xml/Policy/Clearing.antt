-- ===== src/Xml/Policy/Clearing.antt =====
-- blconf_xml_handle_property of blconfd/blconf-backend-perchannel-xml.c for a user's file.
use blconf.Base.{
  ◌≡◌, refl, sym, ap, subst, ◌∙◌, false, not, ◌&&◌, ◌||◌, inl, inr, Option, none, some, Text, arith,
  Option-cases, Bool-cases,
}
use blconf.Tree.{Forest, Node, modify_at, lookup_node, tree_add, tree_reset, unset_value}
use blconf.Tree.Paths.{seen, view, prop_of, view-modified, path_eq_refl}
use blconf.Tree.Paths.Blank.{tree_add-seen, tree_add-valid}
use blconf.Xml.Types.{ValueOps, Users}
use blconf.Xml.Attributes.{Attributes, PropertyAttrs, is_given, text_of}
use blconf.Xml.Element.{
  Parser, path_of, clear_property, read_lock, property_at, property_read, handle_property, kept,
  cleared, locks_out,
}
use blconf.Xml.Locks.{
  lock_at, KeepsLocks, KeepsLocks-refl, KeepsLocks-seen, modify_at-KeepsLocks,
  view-lookup_node_valid, view-lookup_node_found,
}
use blconf.Xml.Policy.{Ends, ListFree, tree_of, stays, only_unset, read_value-Ends}

module _ {ℓ} {V : Type ℓ} (ops : ValueOps V) (users : Users) where
  -- The property is emptied or made, and has no lock.
  clear_property-Keeps :
      (st : Parser V) (fullpath : Text) (o : Option (Node V)) (tree : Forest V)
      → st.is_system_file ≡ false
      → st.channel.locked ≡ false
      → lookup_node (tree_of st) fullpath ≡ o
      → (seen (prop_of o)).2 ≡ false
      → clear_property st fullpath o ≡ some tree
      → KeepsLocks (tree_of st) tree
        × ((seen (view (path_of fullpath) tree)).0 ≡ none)
        × (lock_at (path_of fullpath) tree ≡ false)
  unfolding clear_property
  clear_property-Keeps st fullpath none tree user chan e unlocked made =
      let f = tree_of st in
      let made' = subst (λ l. tree_add f fullpath none l ≡ some tree) chan made in
      let same = tree_add-seen f tree fullpath made' in
      let blank : seen (view (path_of fullpath) tree) ≡ seen (prop_of {V = V} none) =
        same (path_of fullpath)
        ∙ ap seen (
            view-lookup_node_valid f fullpath (tree_add-valid f tree fullpath made')
            ∙ ap prop_of e) in
      (KeepsLocks-seen f tree same, ap (λ x. x.0) blank, ap (λ x. x.2) blank)
  clear_property-Keeps st fullpath (some n) tree user chan e unlocked made =
      let f = tree_of st in
      let path = path_of fullpath in
      let found = view-lookup_node_found f fullpath n e in
      let is : modify_at unset_value path f ≡ tree = ground (arith, made, user, chan) in
      let free : lock_at path f ≡ false = ap (λ o. (seen o).2) found ∙ unlocked in
      let keeps = modify_at-KeepsLocks unset_value path f only_unset free in
      subst (λ t. KeepsLocks f t × ((seen (view path t)).0 ≡ none) × (lock_at path t ≡ false)) is
        (
          keeps,
          rw (view-modified unset_value path path f (λ _. refl), path_eq_refl path, found) refl,
          (keeps.at path).0 ∙ free,
        )

  -- There is nothing to reset where no value is.
  reset_blank :
      (tree : Forest V) (fullpath : Text)
      → (seen (view (path_of fullpath) tree)).0 ≡ none
      → kept tree (tree_reset tree fullpath) ≡ tree
  unfolding kept tree_reset
  reset_blank tree fullpath blank = elim (Option-cases (lookup_node tree fullpath)) [
    | inl e ↦ rw (kept, tree_reset, e) refl
    | inr (n, e) ↦
        let none' : n.prop.value ≡ none =
          sym (ap (λ o. (seen o).0) (view-lookup_node_found tree fullpath n e)) ∙ blank in
        rw (kept, tree_reset, e, none') refl
  ]

  read_lock-Ends :
      (st : Parser V) (fullpath : Text) (a : PropertyAttrs) (tree : Forest V)
      → st.is_system_file ≡ false
      → ListFree st
      → KeepsLocks (tree_of st) tree
      → (seen (view (path_of fullpath) tree)).0 ≡ none
      → lock_at (path_of fullpath) tree ≡ false
      → Ends st (read_lock ops users st fullpath a tree)
  unfolding read_lock
  read_lock-Ends st fullpath a tree user free k blank unlocked =
      elim (Bool-cases (is_given a.locked || is_given a.unlocked)) [
        | inl e ↦
            rw (e, user, reset_blank tree fullpath blank)
              (record { user = refl; channel_lock = refl; locks = k })
        | inr e ↦ rw e (
            read_value-Ends ops users st fullpath (text_of a.type) a.value tree user free k
              unlocked)
      ]

  not_locked_out :
      (st : Parser V) (o : Option (Node V))
      → st.is_system_file ≡ false
      → st.channel.locked ≡ false
      → locks_out st o ≡ false
      → (seen (prop_of o)).2 ≡ false
  unfolding locks_out
  not_locked_out st none user chan h = refl
  not_locked_out st (some n) user chan h = ground (arith, h, user, chan)

  cleared-Ends :
      (st : Parser V) (fullpath : Text) (a : PropertyAttrs) (o : Option (Forest V))
      → st.is_system_file ≡ false
      → ListFree st
      → ((tree : Forest V)
          → o ≡ some tree
          → KeepsLocks (tree_of st) tree
            × ((seen (view (path_of fullpath) tree)).0 ≡ none)
            × (lock_at (path_of fullpath) tree ≡ false))
      → Ends st (cleared ops users st fullpath a o)
  unfolding cleared
  cleared-Ends st fullpath a none user free h = tt
  cleared-Ends st fullpath a (some tree) user free h =
      let (k, blank, unlocked) = h tree refl in
      read_lock-Ends st fullpath a tree user free k blank unlocked

  property_at-Ends :
      (st : Parser V) (fullpath : Text) (a : PropertyAttrs) (o : Option (Node V))
      → st.is_system_file ≡ false
      → st.channel.locked ≡ false
      → ListFree st
      → lookup_node (tree_of st) fullpath ≡ o
      → Ends st (property_at ops users st fullpath a o)
  unfolding property_at
  property_at-Ends st fullpath a o user chan free e = elim (Bool-cases (locks_out st o)) [
    | inl l ↦ rw l (
        stays st _ free
          (record { user = refl; channel_lock = refl; locks = KeepsLocks-refl (tree_of st) }) refl)
    | inr l ↦ rw l (
        cleared-Ends st fullpath a (clear_property st fullpath o) user free (λ tree made.
          clear_property-Keeps st fullpath o tree user chan e (not_locked_out st o user chan l)
            made))
  ]

  property_read-Ends :
      (st : Parser V) (o : Option PropertyAttrs)
      → st.is_system_file ≡ false
      → st.channel.locked ≡ false
      → ListFree st
      → Ends st (property_read ops users st o)
  unfolding property_read
  property_read-Ends st none user chan free = record {
    user = refl;
    channel_lock = refl;
    locks = KeepsLocks-refl (tree_of st);
  }
  property_read-Ends st (some a) user chan free =
      elim (Bool-cases (not (is_given a.name) || not (is_given a.type))) [
        | inl e ↦
            rw e (record { user = refl; channel_lock = refl; locks = KeepsLocks-refl (tree_of st) })
        | inr e ↦
            let off : (st.channel.locked && not st.is_system_file) ≡ false = ground (arith, chan) in
            rw (e, off) (property_at-Ends st _ a _ user chan free refl)
      ]

  -- A <property> element of a user's file.
  pub handle_property-Ends :
      (st : Parser V) (attrs : Attributes)
      → st.is_system_file ≡ false
      → st.channel.locked ≡ false
      → ListFree st
      → Ends st (handle_property ops users st attrs)
  unfolding handle_property
  handle_property-Ends st attrs user chan free = property_read-Ends st _ user chan free
