-- ===== src/Perchannel/Access.antt =====
-- What `get` shows after `set`, in blconfd/blconf-backend-perchannel-xml.c.
use blconf.Base.{
  ◌≡◌, refl, sym, ap, ◌∙◌, ◌⊎◌, inl, inr, Bool, true, false, Option, none, some, List, ◌∷◌, ◌<◌,
  Text, arith, Bool-cases, Option-cases, All, length,
}
use blconf.Backend.Error.{Result, ok, err, permission_denied, property_not_found}
use blconf.Tree.{Property, Forest, Node, lookup_node, modify_at, max_prop_path, new_property}
use blconf.Tree.Visit.{table_lookup, effective}
use blconf.Tree.Paths.{seen, path_eq, path_eq_refl, view, prop_of, view-modified}
use blconf.Tree.Names.{IsPart, rjoin, rpath, strsplit-rjoin}
use blconf.Tree.Add.{Added, tree_add-Added, view-lookup_node}
use blconf.Perchannel.Channels.{Channel, State, Disk, Handle, strdown, open_or_create, notify}
use blconf.Perchannel.Channels.Opening.{inserted, open_or_create-InTable, open-InTable}
use blconf.Perchannel.{set, set_found, changed, get, get_in, value_found, same_value}

-- A name that the operations are called with: one or more components, shorter than MAX_PROP_PATH.
pub record IsPath (p : Text) (rs : List Text) : Type 0 where
  pub parts : All IsPart (p ∷ rs)
  pub short : length (rjoin (p ∷ rs)) < max_prop_path

module _ {ℓ} {V : Type ℓ} where
  -- What `get` makes of a property that looks so.
  abbrev pub read : Option V × Option V × Bool → Result V
  read (some v, d, l) = ok v
  read (none, some d, l) = ok d
  read (none, none, l) = err property_not_found

  value_found-read : (o : Option (Node V)) → value_found o ≡ read (seen (prop_of o))
  unfolding value_found
  value_found-read none = refl
  value_found-read (some n) = ground arith

  -- `get` in a channel, by the path.
  pub get_in-view :
      (p : Text) (rs : List Text) (h : Handle V)
      → All IsPart (p ∷ rs)
      → get_in (rjoin (p ∷ rs)) (ok h) ≡ read (seen (view (rpath (p ∷ rs)) h.channel.properties))
  unfolding get_in
  get_in-view p rs h parts =
      value_found-read (lookup_node h.channel.properties (rjoin (p ∷ rs)))
      ∙ ap (λ o. read (seen o)) (sym (view-lookup_node p rs h.channel.properties parts))

  -- The tree that a successful `set` leaves, seen at every path: the new value or one that is equal to
  -- it at the path that was set, and elsewhere what was there.
  pub record Wrote (equal : V → V → Bool) (path : List Text) (v : V) (f f' : Forest V)
      : Type ℓ where
    pub here : (w : V) × (read (seen (view path f')) ≡ ok w) × ((w ≡ v) ⊎ (equal w v ≡ true))
    pub others : (qs : List Text) → path_eq path qs ≡ false → seen (view qs f') ≡ seen (view qs f)

  Added-Wrote :
      (equal : V → V → Bool) (p : Text) (rs : List Text) (v : V) (f f' : Forest V)
      → Added (rpath (p ∷ rs)) (new_property p (some v) false) f f'
      → Wrote equal (rpath (p ∷ rs)) v f f'
  Added-Wrote equal p rs v f f' a = record { here = (v, rw a.here, inl refl); others = a.others }

  set_value : V → Property V → Property V
  set_value v p = record p { value = some v }

  modified-Wrote :
      (equal : V → V → Bool) (path : List Text) (v : V) (f : Forest V) (r : Property V)
      → view path f ≡ some r
      → Wrote equal path v f (modify_at (set_value v) path f)
  unfolding set_value
  modified-Wrote equal path v f r h = record {
    here = (
      v,
      rw (view-modified (set_value v) path path f (λ _. refl), path_eq_refl path, h),
      inl refl,
    );
    others = λ qs ne. rw (view-modified (set_value v) path qs f (λ _. refl), ne);
  }

  same_read :
      (equal : V → V → Bool) (v : V) (n : Text) (val def : Option V) (l : Bool)
      → same_value equal
          (effective (record { name = n; value = val; system_value = def; locked = l }))
          v
        ≡ true
      → (w : V) × (read (val, def, l) ≡ ok w) × ((w ≡ v) ⊎ (equal w v ≡ true))
  unfolding same_value effective
  same_read equal v n (some w) def l h = (w, refl, inr h)
  same_read equal v n none (some w) l h = (w, refl, inr h)
  same_read equal v n none none l h = absurd (ground arith)

  same-Wrote :
      (equal : V → V → Bool) (path : List Text) (v : V) (f : Forest V) (r : Property V)
      → view path f ≡ some r
      → same_value equal (effective r) v ≡ true
      → Wrote equal path v f f
  same-Wrote equal path v f r h same = record {
    here =
        let (w, e, close) = same_read equal v r.name r.value r.system_value r.locked same in
        (w, rw h e, close);
    others = λ qs ne. refl;
  }

  -- What `set` can come to in a channel.
  abbrev pub Outcome :
      (V → V → Bool)
      → Handle V
      → Text
      → Text
      → List Text
      → V
      → State V
      → Result (Unit {0}) × State V
      → Type ℓ
  Outcome equal h name p rs v st r =
      (r ≡ (err permission_denied, st))
      ⊎ ((r ≡ (ok tt, st))
          × Wrote equal (rpath (p ∷ rs)) v h.channel.properties h.channel.properties)
      ⊎ ((f' : Forest V) × (r ≡ changed h name (rjoin (p ∷ rs)) f' st)
          × Wrote equal (rpath (p ∷ rs)) v h.channel.properties f')

  pub set_found-Outcome :
      (equal : V → V → Bool) (h : Handle V) (name p : Text) (rs : List Text) (v : V) (st : State V)
      → IsPath p rs
      → Outcome equal h name p rs v st (
          set_found equal h name
            (rjoin (p ∷ rs))
            v
            (lookup_node h.channel.properties (rjoin (p ∷ rs)))
            st)
  unfolding set_found
  set_found-Outcome equal h name p rs v st path =
      elim (Option-cases (lookup_node h.channel.properties (rjoin (p ∷ rs)))) [
        | inl e ↦
            let (f', made, added) =
              tree_add-Added p rs (some v) false h.channel.properties path.parts path.short e in
            rw (e, made)
              (inr (inr (f', refl, Added-Wrote equal p rs v h.channel.properties f' added)))
        | inr (n, e) ↦
            let r : view (rpath (p ∷ rs)) h.channel.properties ≡ some n.prop =
              view-lookup_node p rs h.channel.properties path.parts ∙ ap prop_of e in
            elim (Bool-cases n.prop.locked) [
              | inl l ↦ rw (e, l) (inl refl)
              | inr l ↦ elim (Bool-cases (same_value equal (effective n.prop) v)) [
                | inl s ↦
                    rw (e, l, s)
                      (inr (
                        inl (
                          refl,
                          same-Wrote equal (rpath (p ∷ rs)) v h.channel.properties n.prop r s,
                        )))
                | inr s ↦
                    rw (e, l, s, strsplit-rjoin p rs path.parts)
                      (inr (
                        inr (
                          modify_at (set_value v) (rpath (p ∷ rs)) h.channel.properties,
                          unfold set_value in refl,
                          modified-Wrote equal (rpath (p ∷ rs)) v h.channel.properties n.prop r,
                        )))
              ]
            ]
      ]

  -- `get` from the channel that stands in the table
  pub get-InTable :
      (disk : Disk V) (st : State V) (name p : Text) (rs : List Text) (ch : Channel V)
      → All IsPart (p ∷ rs)
      → table_lookup name st.channels ≡ some ch
      → (get disk st name (rjoin (p ∷ rs))).0 ≡ read (seen (view (rpath (p ∷ rs)) ch.properties))
  unfolding get
  get-InTable disk st name p rs ch parts e =
      rw (open-InTable disk st name ch e)
        (get_in-view p rs (record { key = name; channel = ch }) parts)

  -- the state after a write, at the name
  pub changed-InTable :
      (h : Handle V) (st : State V) (name property : Text) (f' : Forest V)
      → h.key ≡ name
      → table_lookup name (changed h name property f' st).1.channels
        ≡ some (record h.channel { properties = f'; dirty = true })
  unfolding changed
  changed-InTable h st name property f' e =
      rw e (inserted name _ (notify name property st).channels)

  abbrev GetsBack : (V → V → Bool) → V → Result V → Type ℓ
  GetsBack equal v r = (w : V) × (r ≡ ok w) × ((w ≡ v) ⊎ (equal w v ≡ true))

  outcome-get :
      (equal : V → V → Bool) (disk : Disk V) (h : Handle V) (name p : Text) (rs : List Text) (v : V)
      (st : State V) (r : Result (Unit {0}) × State V)
      → IsPath p rs
      → h.key ≡ name
      → table_lookup name st.channels ≡ some h.channel
      → Outcome equal h name p rs v st r
      → r.0 ≡ ok tt
      → GetsBack equal v (get disk r.1 name (rjoin (p ∷ rs))).0
  outcome-get equal disk h name p rs v st r path k t (inl e) good =
      absurd (ground (arith, ap (λ (x : Result (Unit {0}) × State V). x.0) e, good))
  outcome-get equal disk h name p rs v st r path k t (inr (inl (e, w))) good =
      rw (e, get-InTable disk st name p rs h.channel path.parts t) w.here
  outcome-get equal disk h name p rs v st r path k t (inr (inr (f', e, w))) good =
      rw
        (
          e,
          get-InTable disk (changed h name (rjoin (p ∷ rs)) f' st).1 name p rs
              (record h.channel { properties = f'; dirty = true }) path.parts
              (changed-InTable h st name (rjoin (p ∷ rs)) f' k),
        )
        w.here

  -- A property that was set is read back, with the value that was given or one that
  -- _blconf_gvalue_is_equal calls equal to it, on a channel whose name is in lower case.
  pub get-set_self :
      (equal : V → V → Bool) (disk : Disk V) (st : State V) (name p : Text) (rs : List Text) (v : V)
      → strdown name ≡ name
      → IsPath p rs
      → (set equal disk st name (rjoin (p ∷ rs)) v).0 ≡ ok tt
      → (w : V) × ((get disk (set equal disk st name (rjoin (p ∷ rs)) v).1 name (rjoin (p ∷ rs))).0
          ≡ ok w)
        × ((w ≡ v) ⊎ (equal w v ≡ true))
  unfolding set
  get-set_self equal disk st name p rs v low path good =
      let (h, st') = open_or_create disk st name in
      let (k, t) = open_or_create-InTable disk st name low in
      outcome-get equal disk h name p rs v st' _ path k t
        (set_found-Outcome equal h name p rs v st' path) good
