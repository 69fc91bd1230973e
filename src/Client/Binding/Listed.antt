-- ===== src/Client/Binding/Listed.antt =====
-- `__bindings` of blconf/blconf-binding.c: the list of the bindings that are allocated.
use blconf.Base.{
  ℕ, ◌≡◌, refl, sym, ◌∙◌, subst, ◌⊎◌, false, inl, inr, Bool-cases, Option, none, some, List, [],
  ◌∷◌, ==_iff, ◌==◌, if◌then◌else◌, arith,
}
use blconf.Client.Binding.{Binding, remove, update}
use blconf.Client.Binding.Orderly.{update-cases, update-other}

abbrev pub In : ℕ → List ℕ → Type 0
In a [] = ⊥
In a (b ∷ bs) = (b ≡ a) ⊎ In a bs

abbrev pub IsDistinct : List ℕ → Type 0
IsDistinct [] = Unit
IsDistinct (a ∷ bs) = (In a bs → ⊥) × IsDistinct bs

-- The members of a list are those that are allocated, each once.
pub record IsList (at : ℕ → Option Binding) (bindings : List ℕ) : Type 0 where
  pub each : (a : ℕ) (b : Binding) → at a ≡ some b → In a bindings
  pub allocated : (a : ℕ) → In a bindings → (b : Binding) × (at a ≡ some b)
  pub distinct : IsDistinct bindings

remove-In : (a c : ℕ) (bs : List ℕ) → In c (remove a bs) → In c bs
unfolding remove
remove-In a c [] i = i
remove-In a c (b ∷ bs) i = elim (Bool-cases (b == a)) [
  | inl e ↦ inr (subst (λ t. In c (if t then bs else b ∷ remove a bs)) e i)
  | inr e ↦ elim (subst (λ t. In c (if t then bs else b ∷ remove a bs)) e i) [
    | inl same ↦ inl same
    | inr later ↦ inr (remove-In a c bs later)
  ]
]

In-remove : (a c : ℕ) (bs : List ℕ) → (c == a) ≡ false → In c bs → In c (remove a bs)
unfolding remove
In-remove a c [] m i = absurd i
In-remove a c (b ∷ bs) m i = elim (Bool-cases (b == a)) [
  | inl e ↦ rw e (elim i [ inl same ↦ absurd (ground (arith, same, e, m)) | inr later ↦ later ])
  | inr e ↦ rw e (elim i [ inl same ↦ inl same | inr later ↦ inr (In-remove a c bs m later) ])
]

remove-absent : (a : ℕ) (bs : List ℕ) → IsDistinct bs → In a (remove a bs) → ⊥
unfolding remove
remove-absent a [] d i = i
remove-absent a (b ∷ bs) d i = elim (Bool-cases (b == a)) [
  | inl e ↦ d.0 (
      subst (λ c. In c bs) (sym ((==_iff b a).0 e))
        (subst (λ t. In a (if t then bs else b ∷ remove a bs)) e i))
  | inr e ↦ elim (subst (λ t. In a (if t then bs else b ∷ remove a bs)) e i) [
    | inl same ↦ absurd (ground (arith, same, e))
    | inr later ↦ remove-absent a bs d.1 later
  ]
]

remove-IsDistinct : (a : ℕ) (bs : List ℕ) → IsDistinct bs → IsDistinct (remove a bs)
unfolding remove
remove-IsDistinct a [] d = tt
remove-IsDistinct a (b ∷ bs) d = elim (Bool-cases (b == a)) [
  | inl e ↦ rw e d.1
  | inr e ↦ rw e ((λ i. d.0 (remove-In a b bs i)), remove-IsDistinct a bs d.1)
]

-- the list without a binding that ends, and with one that begins
pub ended-IsList :
    (at : ℕ → Option Binding) (bs : List ℕ) (a : ℕ)
    → IsList at bs
    → IsList (update at a none) (remove a bs)
ended-IsList at bs a l = record {
  each = λ c d x. elim (update-cases at a c none d x) [
    | inl (y, z) ↦ absurd (cc z)
    | inr (m, z) ↦ In-remove a c bs m (l.each c d z)
  ];
  allocated = λ c i. elim (Bool-cases (c == a)) [
    | inl e ↦
        absurd
          (remove-absent a bs l.distinct (subst (λ k. In k (remove a bs)) ((==_iff c a).0 e) i))
    | inr m ↦ let (d, x) = l.allocated c (remove-In a c bs i) in (d, update-other at a c none m ∙ x)
  ];
  distinct = remove-IsDistinct a bs l.distinct;
}

pub begun-IsList :
    (at : ℕ → Option Binding) (bs : List ℕ) (a : ℕ) (b : Binding)
    → at a ≡ none
    → IsList at bs
    → IsList (update at a (some b)) (a ∷ bs)
unfolding update
begun-IsList at bs a b new l =
    let absent : In a bs → ⊥ = λ i. let (d, x) = l.allocated a i in cc (x, new) in
    record {
      each = λ c d x. elim (update-cases at a c (some b) d x) [
        | inl (y, z) ↦ inl (sym y)
        | inr (m, z) ↦ inr (l.each c d z)
      ];
      allocated = λ c i. elim (Bool-cases (c == a)) [
        | inl e ↦ (b, rw e refl)
        | inr m ↦ elim i [
          | inl same ↦ absurd (ground (arith, same, m))
          | inr later ↦ let (d, x) = l.allocated c later in (d, update-other at a c (some b) m ∙ x)
        ]
      ];
      distinct = (absent, l.distinct);
    }
