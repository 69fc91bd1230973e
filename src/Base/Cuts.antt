-- ===== src/Base/Cuts.antt =====
-- How the cuts at '/' of Base/Strings undo `join`: laws of `g_strsplit`, `strrchr` and `g_strrstr` on
-- names whose components hold no '/'.
use Prim.Native.Nat.{ℕ}
use mathlib.Core.Path.{◌≡◌, refl, sym, ap, ◌∙◌}
use mathlib.Core.Logic.{◌≢◌, inl, inr}
use mathlib.Core.Option.{some, none}
use mathlib.Core.List.{List, [], ◌∷◌, ◌++◌, append-nil, append_assoc}
use native.Mathlib.Omega.{arith}
use blconf.Base.Tests.{◌==◌, Bool-cases}
use blconf.Base.Lists.{All}
use blconf.Base.Strings.{Text, slash, cons_head, pieces, join, before_last_slash, after_last_slash}

-- A text without '/'.
abbrev pub NoSlash : Text → Type 0
NoSlash = All (λ c. c ≢ slash)

pub pieces-append : (p s : Text) → NoSlash p → pieces (p ++ (slash ∷ s)) ≡ p ∷ pieces s
unfolding pieces
pieces-append [] s h = refl
pieces-append (c ∷ p) s h = ground (arith, h.0, pieces-append p s h.1)

pub pieces-NoSlash : (p : Text) → NoSlash p → pieces p ≡ p ∷ []
unfolding pieces
pieces-NoSlash [] h = refl
pieces-NoSlash (c ∷ p) h = ground (arith, h.0, pieces-NoSlash p h.1)

pub pieces-join :
    (p : Text) (ps : List Text) → NoSlash p → All NoSlash ps → pieces (p ++ join ps) ≡ p ∷ ps
unfolding join
pieces-join p [] h k = rw append-nil (pieces-NoSlash p h)
pieces-join p (q ∷ ps) h k =
    pieces-append p (q ++ join ps) h ∙ ap (λ r. p ∷ r) (pieces-join q ps k.0 k.1)

All-cons_head : (c : ℕ) (ps : List Text) → c ≢ slash → All NoSlash ps → All NoSlash (cons_head c ps)
unfolding cons_head
All-cons_head c [] h k = ((h, tt), tt)
All-cons_head c (p ∷ ps) h k = ((h, k.0), k.1)

pub pieces-All : (s : Text) → All NoSlash (pieces s)
unfolding pieces
pieces-All [] = (tt, tt)
pieces-All (c ∷ s) = elim (Bool-cases (c == slash)) [
  | inl e ↦ rw (e, pieces) (tt, pieces-All s)
  | inr e ↦ rw (e, pieces) (All-cons_head c (pieces s) (ground arith) (pieces-All s))
]

join-cons_head :
    (c : ℕ) (ps : List Text) (s : Text)
    → join ps ≡ slash ∷ s
    → join (cons_head c ps) ≡ slash ∷ (c ∷ s)
unfolding join cons_head
join-cons_head c [] s h = cc
join-cons_head c (p ∷ ps) s h = ground arith

-- Splitting loses nothing.
pub join-pieces : (s : Text) → join (pieces s) ≡ slash ∷ s
unfolding pieces join
join-pieces [] = refl
join-pieces (c ∷ s) = elim (Bool-cases (c == slash)) [
  | inl e ↦ rw (e, pieces) (ground (arith, join-pieces s))
  | inr e ↦ rw (e, pieces) (join-cons_head c (pieces s) s (join-pieces s))
]

before_last_slash-NoSlash : (p : Text) → NoSlash p → before_last_slash p ≡ none
unfolding before_last_slash
before_last_slash-NoSlash [] h = refl
before_last_slash-NoSlash (c ∷ p) h = ground (arith, h.0, before_last_slash-NoSlash p h.1)

pub before_last_slash-append :
    (s p : Text) → NoSlash p → before_last_slash (s ++ (slash ∷ p)) ≡ some s
unfolding before_last_slash
before_last_slash-append [] p h = ground (arith, before_last_slash-NoSlash p h)
before_last_slash-append (c ∷ s) p h = ground (arith, before_last_slash-append s p h)

pub after_last_slash-append : (s p : Text) → NoSlash p → after_last_slash (s ++ (slash ∷ p)) ≡ p
unfolding after_last_slash
after_last_slash-append [] p h = ground (arith, before_last_slash-NoSlash p h)
after_last_slash-append (c ∷ s) p h =
    ground (arith, before_last_slash-append s p h, after_last_slash-append s p h)

pub join-append : (ps qs : List Text) → join (ps ++ qs) ≡ join ps ++ join qs
unfolding join
join-append [] qs = refl
join-append (p ∷ ps) qs =
    ap (λ t. slash ∷ t)
      (ap (λ t. p ++ t) (join-append ps qs) ∙ sym (append_assoc p (join ps) (join qs)))
