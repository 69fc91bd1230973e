-- ===== src/Backend/Names/Spec.antt =====
-- blconf_property_is_valid and blconf_channel_is_valid of blconfd/blconf-backend.c against a
-- description of the names that does not walk over them.
use blconf.Base.{
  ℕ, ◌≡◌, refl, ◌≢◌, ◌↔◌, ◌∙◌, sym, ap, subst, true, List, [], ◌∷◌, ◌++◌, Text, slash, arith, ◌==◌,
  Bool-cases, inl, inr, pieces, cons_head, join, join-pieces, All, ◌≤◌, ◌⊎◌,
}
use blconf.Backend.Error.{ok}
use blconf.Backend.Names.{
  is_common, is_property_char, check_property, property_is_valid, check_channel, channel_is_valid,
}

-- The characters that docs/spec/general.txt allows in the name of a property.
abbrev pub IsDocumented : ℕ → Type 0
IsDocumented c =
    ((b'A' ≤ c) × (c ≤ b'Z'))
    ⊎ (((b'a' ≤ c) × (c ≤ b'z'))
        ⊎ (((b'0' ≤ c) × (c ≤ b'9')) ⊎ ((c ≡ b'-') ⊎ ((c ≡ b'_') ⊎ ((c ≡ b'<') ⊎ (c ≡ b'>'))))))

-- The characters that the code allows beside them.
abbrev pub IsUndocumented : ℕ → Type 0
IsUndocumented c =
    ((c ≡ b'.') ⊎ ((c ≡ b':') ⊎ ((c ≡ b',') ⊎ (c ≡ b'|'))))
    ⊎ ((c ≡ b'[') ⊎ ((c ≡ b']') ⊎ ((c ≡ b'{') ⊎ (c ≡ b'}'))))

-- A character of a component.
abbrev pub IsNameChar : ℕ → Type 0
IsNameChar c = IsDocumented c ⊎ IsUndocumented c

name_char : (c : ℕ) → IsNameChar c → (is_property_char c ≡ true) × (c ≢ slash)
unfolding is_property_char is_common
name_char c h = (ground arith, ground arith)

accepted : (c : ℕ) → is_property_char c ≡ true → c ≢ slash → IsNameChar c
unfolding is_property_char is_common
accepted c h ne = ground arith

abbrev pub IsComponent : Text → Type 0
IsComponent p = (p ≢ []) × All IsNameChar p

abbrev Shape : ℕ → List Text → Type 0
Shape prev [] = ⊥
Shape prev (p ∷ ps) = All IsNameChar p × (prev ≡ slash → p ≢ []) × All IsComponent ps

-- The head piece of the rest is not empty after a '/', so it is a component as well.
Shape-slash : (ps : List Text) → Shape slash ps → All IsComponent ps
Shape-slash [] h = absurd h
Shape-slash (p ∷ ps) h = ((h.1 refl, h.0), h.2)

Shape-nonempty : (prev : ℕ) (ps : List Text) → Shape prev ps → ps ≢ []
Shape-nonempty prev [] h = absurd h
Shape-nonempty prev (p ∷ ps) h = λ e. cc

Shape-cons_head :
    (prev c : ℕ) (ps : List Text) → IsNameChar c → Shape c ps → Shape prev (cons_head c ps)
unfolding cons_head
Shape-cons_head prev c [] k h = absurd h
Shape-cons_head prev c (p ∷ ps) k h = ((k, h.0), (λ _ e. cc), h.2)

check_property-Shape : (prev : ℕ) (s : Text) → check_property prev s ≡ ok tt → Shape prev (pieces s)
unfolding check_property pieces
check_property-Shape prev [] h = (tt, (λ e. ground arith), tt)
check_property-Shape prev (c ∷ s) h = elim (Bool-cases (c == slash)) [
  | inl e ↦
      let c_slash : c ≡ slash = ground arith in
      rw (e, pieces)
        (
          tt,
          (λ k. ground arith),
          Shape-slash (pieces s)
              (subst (λ d. Shape d (pieces s)) c_slash (check_property-Shape c s (ground arith))),
        )
  | inr e ↦
      rw (e, pieces)
        (Shape-cons_head prev c (pieces s) (accepted c (ground arith) (ground arith))
          (check_property-Shape c s (ground arith)))
]

-- Accepted pieces, joined, are accepted.
check_property-join :
    (prev : ℕ) (p : Text) (ps : List Text)
    → Shape prev (p ∷ ps)
    → (prev ≡ slash → p ≢ [])
    → check_property prev (p ++ join ps) ≡ ok tt
unfolding check_property join
check_property-join prev [] [] h k = ground (arith, k)
check_property-join prev [] (q ∷ qs) h k =
    let rest = check_property-join slash q qs (h.2.0.1, (λ _. h.2.0.0), h.2.1) (λ _. h.2.0.0) in
    ground (arith, rest, k)
check_property-join prev (c ∷ p) ps h k =
    let (good, ne) = name_char c h.0.0 in
    let rest = check_property-join c p ps (h.0.1, (λ e. absurd (ne e)), h.2) (λ e. absurd (ne e)) in
    ground (arith, good, ne, rest)

pieces_of_valid :
    (c : ℕ) (s : Text)
    → c ≡ slash
    → property_is_valid (c ∷ s) ≡ ok tt
    → (pieces s ≢ []) × All IsComponent (pieces s) × ((c ∷ s) ≡ join (pieces s))
unfolding property_is_valid
pieces_of_valid c [] e h = ground arith
pieces_of_valid c (d ∷ s) e h =
    let shape = check_property-Shape slash (d ∷ s) (ground arith) in
    (
      Shape-nonempty slash (pieces (d ∷ s)) shape,
      Shape-slash (pieces (d ∷ s)) shape,
      ap (λ b. b ∷ d ∷ s) e ∙ sym (join-pieces (d ∷ s)),
    )

split_valid :
    (s : Text)
    → property_is_valid s ≡ ok tt
    → (ps : List Text) × (ps ≢ []) × All IsComponent ps × (s ≡ join ps)
unfolding property_is_valid
split_valid [] h = cc
split_valid (c ∷ s) h = elim (Bool-cases (c == slash)) [
  | inl e ↦
      let parts = pieces_of_valid c s (ground arith) h in (pieces s, parts.0, parts.1, parts.2)
  | inr e ↦ absurd (ground arith)
]

-- A joined list of components is accepted.
pub property_is_valid-join :
    (p : Text) (ps : List Text)
    → All IsComponent (p ∷ ps)
    → property_is_valid (join (p ∷ ps)) ≡ ok tt
unfolding property_is_valid join
property_is_valid-join [] ps h = absurd (h.0.0 refl)
property_is_valid-join (c ∷ p) ps h =
    check_property-join slash (c ∷ p) ps (h.0.1, (λ _. h.0.0), h.1) (λ _. h.0.0)

join_valid : (ps : List Text) → ps ≢ [] → All IsComponent ps → property_is_valid (join ps) ≡ ok tt
join_valid [] n h = absurd (n refl)
join_valid (p ∷ ps) n h = property_is_valid-join p ps h

-- A property name is accepted exactly when it is one or more components, each behind a '/', no
-- component being empty, and every character of them is a letter or digit of ASCII, one of - _ < >,
-- which docs/spec/general.txt allows as well, or one of . : , | [ ] { }, which it does not.
pub property_is_valid_iff :
    (s : Text)
    → (property_is_valid s ≡ ok tt)
      ↔ ((ps : List Text) × (ps ≢ []) × All IsComponent ps × (s ≡ join ps))
property_is_valid_iff s = (split_valid s, λ h. rw h.3 (join_valid h.0 h.1 h.2))

check_channel-All : (s : Text) → (check_channel s ≡ ok tt) ↔ All (λ c. is_common c ≡ true) s
unfolding check_channel
check_channel-All [] = (λ h. tt, λ h. refl)
check_channel-All (c ∷ s) = (
  λ h. (ground arith, (check_channel-All s).0 (ground arith)),
  λ h. ground (arith, (check_channel-All s).1 h.1),
)

-- A channel name is accepted exactly when it is not empty and has only accepted characters.
pub channel_is_valid_iff :
    (s : Text) → (channel_is_valid s ≡ ok tt) ↔ ((s ≢ []) × All (λ c. is_common c ≡ true) s)
unfolding channel_is_valid
channel_is_valid_iff [] = ((λ h. cc), (λ h. absurd (h.0 refl)))
channel_is_valid_iff (c ∷ s) =
    ((λ h. ((λ e. cc), (check_channel-All (c ∷ s)).0 h)), λ h. (check_channel-All (c ∷ s)).1 h.1)
