-- ===== src/Base/Strings.antt =====
-- C strings as lists of bytes (the NUL at the end is not part of the list), `strcmp` as a Boolean
-- equality, and the cuts at '/' that `g_strsplit`, `strrchr` and `g_strrstr` make.
use Prim.Native.Nat.{ℕ}
use Prim.Native.Char.{code}
use Prim.Native.String.{String}
use mathlib.Core.Path.{◌≡◌, refl}
use mathlib.Core.Logic.{◌↔◌}
use mathlib.Core.Bool.{Bool, true, false, ◌&&◌}
use mathlib.Core.Option.{Option, none, some}
use mathlib.Core.List.{List, [], ◌∷◌, ◌++◌}
use native.Mathlib.Omega.{arith}
use blconf.Base.Tests.{◌==◌, if◌then◌else◌}

abbrev pub Text : Type 0
Text = List ℕ

abbrev pub codes : String → Text
codes String.[] = []
codes (String.◌∷◌ c s) = code c ∷ codes s

-- '/'
abbrev pub slash : ℕ
slash = 47

-- `!strcmp(s, t)`
abbrev pub str_eq : Text → Text → Bool
str_eq [] [] = true
str_eq [] (d ∷ t) = false
str_eq (c ∷ s) [] = false
str_eq (c ∷ s) (d ∷ t) = c == d && str_eq s t

pub str_eq_iff : (s t : Text) → (str_eq s t ≡ true) ↔ (s ≡ t)
str_eq_iff [] [] = (λ _. refl, λ _. refl)
str_eq_iff [] (d ∷ t) = (λ e. cc, λ e. cc)
str_eq_iff (c ∷ s) [] = (λ e. cc, λ e. cc)
str_eq_iff (c ∷ s) (d ∷ t) =
    (λ e. ground (arith, str_eq_iff s t), λ e. ground (arith, str_eq_iff s t))

pub str_eq_refl : (s : Text) → str_eq s s ≡ true
str_eq_refl s = (str_eq_iff s s).1 refl

unfoldable pub cons_head : ℕ → List Text → List Text
cons_head c [] = (c ∷ []) ∷ []
cons_head c (p ∷ ps) = (c ∷ p) ∷ ps

-- The pieces of a text between its '/'.
unfoldable pub pieces : Text → List Text
unfolding cons_head
pieces [] = [] ∷ []
pieces (c ∷ s) = let rest = pieces s in if c == slash then [] ∷ rest else cons_head c rest

-- `g_strsplit(s, "/", -1)`: no piece for the empty text.
unfoldable pub strsplit : Text → List Text
unfolding pieces
strsplit [] = []
strsplit (c ∷ s) = pieces (c ∷ s)

-- Each piece with a '/' before it.
unfoldable pub join : List Text → Text
join [] = []
join (p ∷ ps) = slash ∷ (p ++ join ps)

-- What stands before the last '/', if there is one (`p = g_strrstr(s, "/"); *p = 0`).
unfoldable pub before_last_slash : Text → Option Text
before_last_slash [] = none
before_last_slash (c ∷ s) = elim (before_last_slash s) [
  | some t ↦ some (c ∷ t)
  | none ↦ if c == slash then some [] else none
]

-- What stands behind the last '/' (`strrchr(s, '/') + 1`), or the whole text if there is none.
unfoldable pub after_last_slash : Text → Text
unfolding before_last_slash
after_last_slash [] = []
after_last_slash (c ∷ s) = elim (before_last_slash s) [
  | some t ↦ after_last_slash s
  | none ↦ if c == slash then s else c ∷ s
]
