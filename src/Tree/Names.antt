-- ===== src/Tree/Names.antt =====
-- The names of properties as paths: what `g_strsplit`, `g_strrstr` and PROP_NAME_IS_VALID do in
-- blconfd/blconf-backend-perchannel-xml.c on a name whose components are not empty.
use blconf.Base.{
  ◌≡◌, refl, ap, subst, ◌≢◌, true, false, List, [], ◌∷◌, ◌++◌, Text, slash, ◌<◌, arith, length,
  length-append, take_all, All, All-append, NoSlash, strsplit, pieces-join, join, join-append,
  append-nil, some, before_last_slash-append, after_last_slash-append, before_last_slash,
  after_last_slash,
}
use blconf.Tree.{prop_name_is_valid, has_double_slash, tail, strlcpy, max_prop_path}

-- A component of a name in the tree.
abbrev pub IsPart : Text → Type 0
IsPart p = (p ≢ []) × NoSlash p

-- A path is given by its names from the last to the first; its name, and its names in order.
abbrev pub rjoin : List Text → Text
rjoin [] = []
rjoin (p ∷ rs) = rjoin rs ++ (slash ∷ p)

abbrev pub rpath : List Text → List Text
rpath [] = []
rpath (p ∷ rs) = rpath rs ++ p ∷ []

pub join-rpath : (rs : List Text) → join (rpath rs) ≡ rjoin rs
join-rpath [] = unfold join in refl
join-rpath (p ∷ rs) =
    rw (join-append (rpath rs) (p ∷ []), join-rpath rs)
      (unfold join in ap (λ t. rjoin rs ++ (slash ∷ t)) (append-nil p))

rpath-All : (rs : List Text) → All IsPart rs → All IsPart (rpath rs)
rpath-All [] h = tt
rpath-All (p ∷ rs) h = All-append IsPart (rpath rs) (p ∷ []) (rpath-All rs h.1) (h.0, tt)

All-NoSlash : (ps : List Text) → All IsPart ps → All NoSlash ps
All-NoSlash [] h = tt
All-NoSlash (p ∷ ps) h = (h.0.1, All-NoSlash ps h.1)

strsplit-join :
    (p : Text) (ps : List Text) → All IsPart (p ∷ ps) → strsplit (tail (join (p ∷ ps))) ≡ p ∷ ps
strsplit-join [] ps h = absurd (h.0.0 refl)
strsplit-join (c ∷ p) ps h =
    unfold strsplit join in pieces-join (c ∷ p) ps h.0.1 (All-NoSlash ps h.1)

no_double_slash :
    (p : Text) (ps : List Text)
    → NoSlash p
    → All IsPart ps
    → has_double_slash (p ++ join ps) ≡ false
unfolding has_double_slash join
no_double_slash [] [] n h = refl
no_double_slash [] ([] ∷ ps) n h = absurd (h.0.0 refl)
no_double_slash [] ((c ∷ q) ∷ ps) n h =
    ground (arith, h.0.1.0, no_double_slash (c ∷ q) ps h.0.1 h.1)
no_double_slash (c ∷ []) [] n h = refl
no_double_slash (c ∷ []) (q ∷ ps) n h = ground (arith, n.0, no_double_slash [] (q ∷ ps) tt h)
no_double_slash (c ∷ d ∷ p) ps n h = ground (arith, n.0, no_double_slash (d ∷ p) ps n.1 h)

join_is_valid :
    (p : Text) (ps : List Text) → All IsPart (p ∷ ps) → prop_name_is_valid (join (p ∷ ps)) ≡ true
unfolding prop_name_is_valid join has_double_slash
join_is_valid [] ps h = absurd (h.0.0 refl)
join_is_valid (c ∷ p) ps h = ground (arith, h.0.1.0, no_double_slash (c ∷ p) ps h.0.1 h.1)

abbrev Splits : List Text → Text → Type 0
Splits ps s = (prop_name_is_valid s ≡ true) × (strsplit (tail s) ≡ ps)

join-Splits : (ps : List Text) → ps ≢ [] → All IsPart ps → Splits ps (join ps)
join-Splits [] n h = absurd (n refl)
join-Splits (p ∷ ps) n h = (join_is_valid p ps h, strsplit-join p ps h)

snoc-ne-nil : (ps : List Text) (p : Text) → ps ++ p ∷ [] ≢ []
snoc-ne-nil [] p = λ e. cc
snoc-ne-nil (q ∷ ps) p = λ e. cc

rjoin-Splits :
    (p : Text) (rs : List Text) → All IsPart (p ∷ rs) → Splits (rpath (p ∷ rs)) (rjoin (p ∷ rs))
rjoin-Splits p rs h =
    subst (Splits (rpath (p ∷ rs))) (join-rpath (p ∷ rs))
      (join-Splits (rpath (p ∷ rs)) (snoc-ne-nil (rpath rs) p) (rpath-All (p ∷ rs) h))

-- The name is accepted by PROP_NAME_IS_VALID.
pub rjoin_is_valid :
    (p : Text) (rs : List Text) → All IsPart (p ∷ rs) → prop_name_is_valid (rjoin (p ∷ rs)) ≡ true
rjoin_is_valid p rs h = (rjoin-Splits p rs h).0

-- It splits into the path.
pub strsplit-rjoin :
    (p : Text) (rs : List Text)
    → All IsPart (p ∷ rs)
    → strsplit (tail (rjoin (p ∷ rs))) ≡ rpath (p ∷ rs)
strsplit-rjoin p rs h = (rjoin-Splits p rs h).1

-- The part before the last '/' names the parent, and the part behind it is the node's own name.
pub parent_of_rjoin :
    (p : Text) (rs : List Text)
    → NoSlash p
    → length (rjoin (p ∷ rs)) < max_prop_path
    → before_last_slash (strlcpy (rjoin (p ∷ rs))) ≡ some (rjoin rs)
unfolding strlcpy
parent_of_rjoin p rs n h =
    rw (take_all 4095 (rjoin (p ∷ rs)) (omega arith)) (before_last_slash-append (rjoin rs) p n)

pub last_of_rjoin : (p : Text) (rs : List Text) → NoSlash p → after_last_slash (rjoin (p ∷ rs)) ≡ p
last_of_rjoin p rs n = after_last_slash-append (rjoin rs) p n

-- The parent's name is shorter.
pub length-rjoin : (p : Text) (rs : List Text) → length (rjoin rs) < length (rjoin (p ∷ rs))
length-rjoin p rs = omega (arith, length-append (rjoin rs) (slash ∷ p))

pub rjoin-ne-nil : (p : Text) (rs : List Text) → rjoin (p ∷ rs) ≢ []
rjoin-ne-nil p rs e =
    omega (arith, length-append (rjoin rs) (slash ∷ p), ap (λ (t : Text). length t) e)
