-- ===== src/Daemon/Answers.antt =====
-- What the loops of blconfd/blconf-daemon.c answer, by what each backend answers.
use blconf.Base.{
  ◌≡◌, refl, ◌↔◌, ◌⊎◌, inl, inr, Bool, true, false, ◌||◌, List, [], ◌∷◌, Text, arith, some, All,
  Bool-cases,
}
use blconf.Backend.Error.{Result, ok, Result-cases}
use blconf.Backend.Dispatch
use blconf.Tree.Visit.{Table, table_lookup}
use blconf.Daemon.{
  Backend, is_ok, is_true, or_table, any_from, get_property, get_all_from, get_all_properties,
  property_exists, check_lock, check_locks, set_property,
}

module _ {ℓ} {S V : Type ℓ} where
  abbrev get_of : Text → Text → Backend S V → Result V
  get_of channel property x = (Dispatch.get x.iface x.data_of channel property).0

  abbrev exists_of : Text → Text → Backend S V → Result Bool
  exists_of channel property x = (Dispatch.exists x.iface x.data_of channel property).0

  abbrev locked_of : Text → Text → Backend S V → Result Bool
  locked_of channel property x = (Dispatch.is_property_locked x.iface x.data_of channel property).0

  -- Some backend has the value, and all before it fail.
  abbrev pub FirstHas : (Backend S V → Result V) → V → Backend S V → List (Backend S V) → Type ℓ
  FirstHas f v x [] = f x ≡ ok v
  FirstHas f v x (y ∷ ys) = (f x ≡ ok v) ⊎ ((is_ok (f x) ≡ false) × FirstHas f v y ys)

  -- `GetProperty` answers with a value exactly when it is the answer of the first backend that has one.
  pub get_property-ok :
      (b : Backend S V) (bs : List (Backend S V)) (channel property : Text) (v : V)
      → ((get_property b bs channel property).0 ≡ ok v) ↔ FirstHas (get_of channel property) v b bs
  unfolding get_property
  get_property-ok b [] channel property v = ((λ h. h), λ h. h)
  get_property-ok b (b' ∷ bs) channel property v =
      let (there, back) = get_property-ok b' bs channel property v in
      elim (Result-cases (get_of channel property b)) [
        | inl (w, e) ↦
            rw (e, get_property)
              ((λ h. inl h), λ h. elim h [ inl k ↦ k | inr k ↦ absurd (ground (arith, k.0)) ])
        | inr (x, e) ↦
            rw (e, get_property)
              (
                (λ h. inr (refl, there h)),
                λ h. elim h [ inl k ↦ absurd (ground (arith, k)) | inr k ↦ back k.1 ],
              )
      ]

  abbrev pub Any : (Backend S V → Type 0) → List (Backend S V) → Type 0
  Any P [] = ⊥
  Any P (x ∷ xs) = P x ⊎ Any P xs

  any_from-true :
      (call : Backend S V → Result Bool × S) (succeed : Bool) (b : Backend S V)
      (bs : List (Backend S V))
      → ((any_from call succeed b bs).0 ≡ ok true) ↔ Any (λ x. is_true (call x).0 ≡ true) (b ∷ bs)
  unfolding any_from
  any_from-true call succeed b [] = elim (Result-cases (call b).0) [
    | inl (w, e) ↦
        rw (e, any_from)
          (
            (λ h. inl (ground (arith, h))),
            λ h. elim h [ inl k ↦ ground (arith, k) | inr k ↦ absurd k ],
          )
    | inr (x, e) ↦
        rw (e, any_from)
          (
            (λ h. absurd (ground (arith, h))),
            λ h. elim h [ inl k ↦ absurd (ground (arith, k)) | inr k ↦ absurd k ],
          )
  ]
  any_from-true call succeed b (b' ∷ bs) =
      let (there, back) = any_from-true call (succeed || is_ok (call b).0) b' bs in
      elim (Bool-cases (is_true (call b).0)) [
        | inl e ↦ rw (e, any_from) ((λ h. inl refl), λ h. refl)
        | inr e ↦
            rw (e, any_from)
              (
                (λ h. inr (there h)),
                λ h. elim h [ inl k ↦ absurd (ground (arith, k)) | inr k ↦ back k ],
              )
      ]

  -- `PropertyExists` answers TRUE exactly when some backend does.
  pub property_exists-true :
      (b : Backend S V) (bs : List (Backend S V)) (channel property : Text)
      → ((property_exists b bs channel property).0 ≡ ok true)
        ↔ Any (λ x. is_true (exists_of channel property x) ≡ true) (b ∷ bs)
  unfolding property_exists
  property_exists-true b bs channel property = any_from-true _ false b bs

  check_locks-All :
      (channel property : Text) (bs : List (Backend S V))
      → (check_locks channel property bs).0 ≡ ok tt
      → All (λ x. locked_of channel property x ≡ ok false) bs
  unfolding check_locks check_lock
  check_locks-All channel property [] h = tt
  check_locks-All channel property (b ∷ bs) h =
      (ground (arith, h), check_locks-All channel property bs (ground (arith, h)))

  -- Where there are several backends, `SetProperty` only succeeds if every one of them answers that
  -- the property is not locked.
  pub set_property-unlocked :
      (b b' : Backend S V) (bs : List (Backend S V)) (channel property : Text) (v : V)
      → (set_property b (b' ∷ bs) channel property v).0 ≡ ok tt
      → All (λ x. locked_of channel property x ≡ ok false) (b ∷ b' ∷ bs)
  unfolding set_property
  set_property-unlocked b b' bs channel property v h =
      check_locks-All channel property (b ∷ b' ∷ bs) (ground (arith, h))

  -- Two backends that both have a property: `GetProperty` answers with the value of the first, and the
  -- table of `GetAllProperties` has the value of the second.
  pub get-get_all-differ :
      (b b' : Backend S V) (channel property base : Text) (v v' : V)
      → get_of channel property b ≡ ok v
      → ((t : Table V)
          → (t' : Table V) × ((Dispatch.get_all b'.iface b'.data_of channel base t).0 ≡ ok t')
            × (table_lookup property t' ≡ some v'))
      → ((get_property b (b' ∷ []) channel property).0 ≡ ok v)
        × ((t : Table V) × ((get_all_properties b (b' ∷ []) channel base).0 ≡ ok t)
            × (table_lookup property t ≡ some v'))
  unfolding get_property get_all_properties get_all_from
  get-get_all-differ b b' channel property base v v' h later =
      let table : Table V = or_table [] (Dispatch.get_all b.iface b.data_of channel base []).0 in
      let (t', e, found) = later table in (ground (arith, h), (t', ground (arith, e), found))
