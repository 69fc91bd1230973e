-- ===== src/Tree/Propname.antt =====
-- The names that a recursive reset hands to the listener: blconf_proptree_build_propname of
-- blconfd/blconf-backend-perchannel-xml.c.
use blconf.Base.{
  ℕ, ◌≡◌, refl, sym, ap, ◌∙◌, false, List, [], ◌∷◌, ◌++◌, Text, slash, ◌<◌, arith, length,
  length-append, take_all, All, append_assoc, append-nil,
}
use blconf.Tree.{strlcpy, strlcat, max_prop_path}
use blconf.Tree.Visit.{is_short, collect, concat_components, build_propname}
use blconf.Tree.Names.{rjoin, rpath, length-rjoin}

-- A component of two characters or more.
abbrev pub IsLong : Text → Type 0
IsLong p = is_short p ≡ false

collect-rpath : (rs acc : List Text) → All IsLong rs → collect rs acc ≡ rpath rs ++ acc
unfolding collect
collect-rpath [] acc h = refl
collect-rpath (p ∷ rs) acc h =
    rw h.0 (collect-rpath rs (p ∷ acc) h.1 ∙ sym (append_assoc (rpath rs) (p ∷ []) acc))

collect-short :
    (xs : List Text) (c : ℕ) (rs acc : List Text)
    → All IsLong xs
    → collect (xs ++ ((c ∷ []) ∷ rs)) acc ≡ collect xs acc
unfolding collect
collect-short [] c rs acc h = refl
collect-short (x ∷ xs) c rs acc h = rw h.0 (collect-short xs c rs (x ∷ acc) h.1)

concat-append :
    (buf : Text) (xs : List Text) (p : Text)
    → concat_components buf (xs ++ p ∷ [])
      ≡ strlcat (strlcat (concat_components buf xs) (slash ∷ [])) p
unfolding concat_components
concat-append buf [] p = refl
concat-append buf (x ∷ xs) p = concat-append (strlcat (strlcat buf (slash ∷ [])) x) xs p

strlcat_fits :
    (buf p : Text)
    → length (buf ++ (slash ∷ p)) < max_prop_path
    → strlcat (strlcat buf (slash ∷ [])) p ≡ buf ++ (slash ∷ p)
unfolding strlcat strlcpy
strlcat_fits buf p h =
    let n = length-append buf (slash ∷ p) in
    rw
      (
        take_all 4095 (buf ++ slash ∷ []) (omega (arith, length-append buf (slash ∷ []))),
        append_assoc buf (slash ∷ []) p,
      )
      (take_all 4095 (buf ++ (slash ∷ p)) (omega arith))

concat-rpath :
    (rs : List Text)
    → length (rjoin rs) < max_prop_path
    → concat_components [] (rpath rs) ≡ rjoin rs
unfolding concat_components
concat-rpath [] h = refl
concat-rpath (p ∷ rs) h =
    concat-append [] (rpath rs) p
    ∙ ap (λ buf. strlcat (strlcat buf (slash ∷ [])) p)
        (concat-rpath rs (omega (arith, length-rjoin p rs)))
    ∙ strlcat_fits (rjoin rs) p h

-- The name of a node, all the components of which have two characters or more and which fits the buffer,
-- is built in full.
pub build_propname-rjoin :
    (rs : List Text)
    → All IsLong rs
    → length (rjoin rs) < max_prop_path
    → build_propname rs ≡ rjoin rs
unfolding build_propname
build_propname-rjoin rs long short =
    ap (concat_components []) (collect-rpath rs [] long ∙ append-nil (rpath rs))
    ∙ concat-rpath rs short

-- A component of a single character hides itself and all that is above it: only the components below it
-- are in the name that is built.
pub build_propname-short :
    (p : Text) (below : List Text) (c : ℕ) (above : List Text)
    → All IsLong (p ∷ below)
    → length (rjoin (p ∷ below)) < max_prop_path
    → build_propname ((p ∷ below) ++ ((c ∷ []) ∷ above)) ≡ rjoin (p ∷ below)
unfolding build_propname
build_propname-short p below c above long short =
    ap (concat_components []) (collect-short (p ∷ below) c above [] long)
    ∙ build_propname-rjoin (p ∷ below) long short
