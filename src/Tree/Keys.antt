-- ===== src/Tree/Keys.antt =====
-- The keys of the hash tables of blconfd/blconf-backend-perchannel-xml.c.
use blconf.Base.{
  ◌≡◌, refl, sym, ap, ◌∙◌, Bool-cases, inl, inr, none, some, [], ◌∷◌, Text, arith, str_eq,
  str_eq_iff,
}
use blconf.Tree.Visit.{Table, table_lookup, table_insert, table_remove}
use blconf.Tree.Tables.{lookup-insert}

-- The keys are all different.
abbrev pub IsKeyed {ℓ} : {V : Type ℓ} → Table V → Type ℓ
IsKeyed [] = Unit
IsKeyed ((k, v) ∷ t) = (table_lookup k t ≡ none) × IsKeyed t

module _ {ℓ} {V : Type ℓ} where
  pub insert-IsKeyed : (k : Text) (v : V) (t : Table V) → IsKeyed t → IsKeyed (table_insert k v t)
  unfolding table_insert table_lookup
  insert-IsKeyed k v [] h = (refl, tt)
  insert-IsKeyed k v ((j, w) ∷ t) (off, h) = elim (Bool-cases (str_eq j k)) [
    | inl e ↦ rw e (off, h)
    | inr e ↦ rw e (
      lookup-insert k j v t ∙ ground (arith, off, e, str_eq_iff j k, str_eq_iff k j),
      insert-IsKeyed k v t h,
    )
  ]

  remove-none :
      (k j : Text) (t : Table V)
      → table_lookup j t ≡ none
      → table_lookup j (table_remove k t) ≡ none
  unfolding table_remove table_lookup
  remove-none k j [] e = refl
  remove-none k j ((i, w) ∷ t) e = elim (Bool-cases (str_eq i j)) [
    | inl m ↦ absurd (ground (arith, m, e))
    | inr m ↦ elim (Bool-cases (str_eq i k)) [
      | inl n ↦ rw n (ground (arith, m, e))
      | inr n ↦ rw (n, m) (remove-none k j t (ground (arith, m, e)))
    ]
  ]

  pub remove-IsKeyed : (k : Text) (t : Table V) → IsKeyed t → IsKeyed (table_remove k t)
  unfolding table_remove
  remove-IsKeyed k [] h = tt
  remove-IsKeyed k ((j, w) ∷ t) (off, h) = elim (Bool-cases (str_eq j k)) [
    | inl e ↦ rw e h
    | inr e ↦ rw e (remove-none k j t off, remove-IsKeyed k t h)
  ]

  -- what is left was there before
  pub remove-some :
      (k j : Text) (v : V) (t : Table V)
      → IsKeyed t
      → table_lookup j (table_remove k t) ≡ some v
      → table_lookup j t ≡ some v
  unfolding table_remove table_lookup
  remove-some k j v [] h e = e
  remove-some k j v ((i, w) ∷ t) (off, h) e = elim (Bool-cases (str_eq i k)) [
    | inl m ↦
        let cut : table_remove k ((i, w) ∷ t) ≡ t = rw m refl in
        let found : table_lookup j t ≡ some v = sym (ap (table_lookup j) cut) ∙ e in
        elim (Bool-cases (str_eq i j)) [
          | inl n ↦ cc (ap (λ x. table_lookup x t) ((str_eq_iff i j).0 n), off, found)
          | inr n ↦ rw n found
        ]
    | inr m ↦
        let left : table_remove k ((i, w) ∷ t) ≡ (i, w) ∷ table_remove k t = rw m refl in
        let found : table_lookup j ((i, w) ∷ table_remove k t) ≡ some v =
          sym (ap (table_lookup j) left) ∙ e in
        elim (Bool-cases (str_eq i j)) [
          | inl n ↦
              let here : table_lookup j ((i, w) ∷ table_remove k t) ≡ some w = rw n refl in
              rw n (sym here ∙ found)
          | inr n ↦
              let there : table_lookup j ((i, w) ∷ table_remove k t)
                  ≡ table_lookup j (table_remove k t) =
                rw n refl in
              rw n (remove-some k j v t h (sym there ∙ found))
        ]
  ]
