-- ===== src/Client/Cache/View.antt =====
-- blconf/blconf-cache.c as two layers: what the daemon has agreed to, and what the client is shown.
use mathlib.Core.Path.{fun_ext}
use blconf.Base.{
  ℕ, ◌≡◌, refl, Bool, true, false, inl, inr, Option, none, some, Text, str_eq, str_eq_iff,
  Bool-cases, if◌then◌else◌,
}
use blconf.Tree.Visit.{table_lookup}
use blconf.Tree.Tables.{lookup-insert}
use blconf.Client.Cache.{
  OldItem, Cache, call_lookup, settled, set_property_reply_handler, reply_of, replied, replied_item,
  restored,
}
use blconf.Client.Cache.Tables.{lookup-drop}
use blconf.Client.Cache.Linked.{Linked}

-- A comparison that no other value passes.
abbrev pub IsExact {κ} : {V : Type κ} → (V → V → Bool) → V → Type κ
IsExact {V = V} equal v = (w : V) → equal w v ≡ true → w ≡ v

-- Two maps from properties to values.
pub record Layers {ℓ} (V : Type ℓ) : Type ℓ where
  pub agreed : Text → Option V
  pub shown : Text → Option V

module _ {ℓ} {V : Type ℓ} where
  -- The value that a property has once the call for it, if there is one, has failed.
  abbrev pub agreed_value : Option (OldItem V) → Option V → Option V
  agreed_value none item = item
  agreed_value (some old) item = old.item

  abbrev pub layers : Cache V → Layers V
  layers c = record {
    agreed = λ q. agreed_value (table_lookup q c.old_properties) (table_lookup q c.properties);
    shown = λ q. table_lookup q c.properties;
  }

  -- A write is shown at once; an answer moves it to the agreed layer, or takes it back.
  abbrev pub show : Text → V → Layers V → Layers V
  show p v l = record l { shown = λ q. if str_eq p q then some v else l.shown q }

  abbrev pub agree : Text → Layers V → Layers V
  agree p l = record l { agreed = λ q. if str_eq p q then l.shown q else l.agreed q }

  abbrev pub take_back : Text → Layers V → Layers V
  take_back p l = record l { shown = λ q. if str_eq p q then l.agreed q else l.shown q }

  pub Layers-ext :
      (l l' : Layers V)
      → ((q : Text) → l.agreed q ≡ l'.agreed q)
      → ((q : Text) → l.shown q ≡ l'.shown q)
      → l ≡ l'
  Layers-ext l l' a s =
      let a' : l.agreed ≡ l'.agreed = fun_ext a in
      let s' : l.shown ≡ l'.shown = fun_ext s in cc (a', s')

  module _ (equal : V → V → Bool) where
    -- a failed call restores the agreed value
    restored-shown :
        (c : Cache V) (p q : Text) (item : V) (old : Option V)
        → ((w : V) → old ≡ some w → IsExact equal w)
        → table_lookup p c.properties ≡ some item
        → table_lookup q (restored equal c p item old).properties
          ≡ (if str_eq p q then old else table_lookup q c.properties)
    unfolding restored
    restored-shown c p q item none exact e = lookup-drop p q c.properties
    restored-shown c p q item (some v) exact e = elim (Bool-cases (equal item v)) [
      | inl k ↦ rw (k, exact v refl item k) (lookup-insert p q v c.properties)
      | inr k ↦ rw k (lookup-insert p q v c.properties)
    ]

    restored-old :
        (c : Cache V) (p : Text) (item : V) (old : Option V)
        → (restored equal c p item old).old_properties ≡ c.old_properties
    unfolding restored
    restored-old c p item none = refl
    restored-old c p item (some v) = refl

    settled-layers :
        (c : Cache V) (call : ℕ) (p : Text) → layers (settled c call p) ≡ agree p (layers c)
    settled-layers c call p =
        Layers-ext _ _
          (λ q.
            rw (lookup-drop p q c.old_properties)
              (elim (Bool-cases (str_eq p q)) [ inl e ↦ rw e refl | inr e ↦ rw e refl ]))
          (λ q. refl)

    restored-layers :
        (c : Cache V) (call : ℕ) (p : Text) (item : V) (old : OldItem V)
        → ((w : V) → old.item ≡ some w → IsExact equal w)
        → table_lookup p c.properties ≡ some item
        → table_lookup p c.old_properties ≡ some old
        → layers (restored equal (settled c call p) p item old.item) ≡ take_back p (layers c)
    restored-layers c call p item old exact e k =
        let shown = λ (q : Text). restored-shown (settled c call p) p q item old.item exact e in
        let olds = restored-old (settled c call p) p item old.item in
        Layers-ext _ _
          (λ q.
            rw (olds, shown q, lookup-drop p q c.old_properties)
              (elim (Bool-cases (str_eq p q)) [
                | inl m ↦ rw (m, ← (str_eq_iff p q).0 m, k) refl
                | inr m ↦ rw m refl
              ]))
          (λ q. rw (shown q) (elim (Bool-cases (str_eq p q)) [
            | inl m ↦ rw (m, ← (str_eq_iff p q).0 m, k) refl
            | inr m ↦ rw m refl
          ]))

    -- The answer to a call, for a cache that its own steps have led to, with the property still in it and an
    -- agreed value, if there is one, that the comparison takes for no other: a success agrees to the
    -- value that is shown, a failure shows the agreed value again, and no other property is touched.
    pub reply-layers :
        (c : Cache V) (call : ℕ) (succeeded : Bool) (p : Text) (item : V)
        → ((w : V) → (layers c).agreed p ≡ some w → IsExact equal w)
        → Linked c.pending_calls c.old_properties c.next_call
        → call_lookup call c.pending_calls ≡ some p
        → table_lookup p c.properties ≡ some item
        → layers (set_property_reply_handler equal c call succeeded)
          ≡ (if succeeded then agree p (layers c) else take_back p (layers c))
    unfolding set_property_reply_handler reply_of replied replied_item
    reply-layers c call true p item exact l h e =
        let (old, k, m) = l.forth call p h in rw (h, k, e) (settled-layers c call p)
    reply-layers c call false p item exact l h e =
        let (old, k, m) = l.forth call p h in
        rw (h, k, e) (restored-layers c call p item old (λ w m. exact w (rw k m)) e k)
