-- ===== src/Xml/Policy.antt =====
-- The user's file against the system's locks: the handlers of blconfd/blconf-backend-perchannel-xml.c for
-- a file that is no system file.
pub mod Clearing
pub mod Elements
use blconf.Base.{
  ◌≡◌, refl, sym, ap, subst, ◌∙◌, Bool, true, false, not, ◌&&◌, ◌||◌, inl, inr, Option, none, some,
  List, [], ◌∷◌, Text, arith, Option-cases, Bool-cases, str_eq, is_some, strsplit,
}
use blconf.Tree.{
  Property, Forest, Node, modify_at, lookup_node, tree_add, tree_reset, prop_name_is_valid,
  unset_value,
}
use blconf.Tree.Paths.{seen, view, prop_of, map_prop, view-modified, path_eq_refl}
use blconf.Tree.Paths.Blank.{tree_add-seen, tree_add-valid}
use blconf.Perchannel.Channels.{Channel}
use blconf.Xml.Types.{GType, gtype_from_string, ValueOps, Users}
use blconf.Xml.Attributes.{Attributes, PropertyAttrs, ChannelAttrs, ValueAttrs, is_given, text_of}
use blconf.Xml.Element.{
  Parser, Outcome, fine, failed, crashed, path_of, put_value, clear_property, parsed, read_value,
  read_lock, property_at, property_read, handle_property, is_invalid, is_empty, is_array, kept,
  opened, cleared, locks_out,
}
use blconf.Xml.Locks.{
  lock_at, Kept, KeepsLocks, KeepsLocks-refl, KeepsLocks-trans, KeepsLocks-seen, OnlyValue,
  modify_at-KeepsLocks, view-lookup_node_valid, view-lookup_node_found,
}

module _ {ℓ} {V : Type ℓ} where
  abbrev pub tree_of : Parser V → Forest V
  tree_of st = st.channel.properties

  -- The array that is open is not a locked property.
  abbrev pub ListFree : Parser V → Type 0
  ListFree st = (lp : Text) → st.list_property ≡ some lp → lock_at (path_of lp) (tree_of st) ≡ false

  -- What a handler of a user's file keeps.
  pub record Good (st st' : Parser V) : Type ℓ where
    pub user : st'.is_system_file ≡ st.is_system_file
    pub channel_lock : st'.channel.locked ≡ st.channel.locked
    pub locks : KeepsLocks (tree_of st) (tree_of st')

  abbrev pub Ends : Parser V → Outcome (Parser V) → Type ℓ
  Ends st (fine st') = Good st st' × ListFree st'
  Ends st (failed st') = Good st st'
  Ends st crashed = Unit

  pub only_put : (b : Bool) (v : V) → b ≡ false → OnlyValue (put_value b v)
  only_put b v e = record {
    name = λ r. ground (arith, e);
    locked = λ r. ground (arith, e);
    system_value = λ r. ground (arith, e);
  }

  pub only_unset : OnlyValue {V = V} unset_value
  only_unset = record { name = λ r. refl; locked = λ r. refl; system_value = λ r. refl }

  pub lock_after :
      (qs : List Text) (f f' : Forest V)
      → KeepsLocks f f'
      → lock_at qs f ≡ false
      → lock_at qs f' ≡ false
  lock_after qs f f' k h = (k.at qs).0 ∙ h

  -- A step to another tree, with the open array as before or at a path that is not locked.
  pub stays :
      (st st' : Parser V)
      → ListFree st
      → Good st st'
      → st'.list_property ≡ st.list_property
      → Ends st (fine st')
  stays st st' free g e =
      (g, λ lp h. lock_after (path_of lp) (tree_of st) (tree_of st') g.locks (free lp (sym e ∙ h)))

  module _ (ops : ValueOps V) (users : Users) where
    -- the value is written to a tree that keeps the locks, at a path that has none
    put_KeepsLocks :
        (st : Parser V) (fullpath : Text) (tree : Forest V) (v : V)
        → st.is_system_file ≡ false
        → KeepsLocks (tree_of st) tree
        → lock_at (path_of fullpath) tree ≡ false
        → KeepsLocks
            (tree_of st)
            (modify_at (put_value st.is_system_file v) (path_of fullpath) tree)
    put_KeepsLocks st fullpath tree v user k unlocked = KeepsLocks-trans (tree_of st) tree _ k (
        modify_at-KeepsLocks (put_value st.is_system_file v) (path_of fullpath) tree
          (only_put st.is_system_file v user) unlocked)

    parsed-Ends :
        (st : Parser V) (fullpath : Text) (t : GType) (tree : Forest V) (o : Option V)
        → st.is_system_file ≡ false
        → ListFree st
        → KeepsLocks (tree_of st) tree
        → lock_at (path_of fullpath) tree ≡ false
        → Ends st (parsed ops st fullpath t tree o)
    unfolding parsed opened
    parsed-Ends st fullpath t tree none user free k unlocked = record {
      user = refl;
      channel_lock = refl;
      locks = put_KeepsLocks st fullpath tree (ops.initial t) user k unlocked;
    }
    parsed-Ends st fullpath t tree (some v) user free k unlocked =
        let after = put_KeepsLocks st fullpath tree v user k unlocked in
        let tree' = modify_at (put_value st.is_system_file v) (path_of fullpath) tree in
        (
          record { user = refl; channel_lock = refl; locks = after },
          λ lp h. elim (Bool-cases (is_array t)) [
            | inl e ↦
                let same : fullpath ≡ lp = ground (arith, h, e) in
                subst (λ x. lock_at (path_of x) tree' ≡ false) same
                  (((modify_at-KeepsLocks (put_value st.is_system_file v) (path_of fullpath) tree
                        (only_put st.is_system_file v user) unlocked).at
                      (path_of fullpath)).0
                    ∙ unlocked)
            | inr e ↦
                lock_after (path_of lp) (tree_of st) tree' after (free lp (ground (arith, h, e)))
          ],
        )

    pub read_value-Ends :
        (st : Parser V) (fullpath type : Text) (value : Option Text) (tree : Forest V)
        → st.is_system_file ≡ false
        → ListFree st
        → KeepsLocks (tree_of st) tree
        → lock_at (path_of fullpath) tree ≡ false
        → Ends st (read_value ops st fullpath type value tree)
    unfolding read_value opened
    read_value-Ends st fullpath type value tree user free k unlocked =
        let t = gtype_from_string type in
        elim (Bool-cases (is_invalid t)) [
          | inl e ↦ rw (e, read_value) (record { user = refl; channel_lock = refl; locks = k })
          | inr e ↦ elim (Bool-cases (is_empty t)) [
            | inl e' ↦
                rw (e, e', read_value)
                  (stays st _ free (record { user = refl; channel_lock = refl; locks = k }) refl)
            | inr e' ↦
                rw (e, e', read_value)
                  (parsed-Ends st fullpath t tree (ops.from_string t value) user free k unlocked)
          ]
        ]
