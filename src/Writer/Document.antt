-- ===== src/Writer/Document.antt =====
-- The text of a channel file, as one text: what blconfd/blconf-backend-perchannel-xml.c writes piece by piece.
use blconf.Base.{
  ℕ, ◌+◌, ◌≡◌, refl, ap, Bool, true, false, Option, none, some, [], ◌++◌, append_assoc, Text, codes,
}
use blconf.Tree.{Forest, leaf, node}
use blconf.Values.{Floats, Value}
use blconf.Writer.Format.{Markup}
use blconf.Writer.{fitting, spaces, start_tag, has_end}
use blconf.Writer.Flush.{heading, closing, opening}

unfoldable pub glue : Option Text → Option Text → Option Text
glue none u = none
glue (some s) none = none
glue (some s) (some t) = some (s ++ t)

pub glue_assoc : (s t u : Option Text) → glue (glue s t) u ≡ glue s (glue t u)
unfolding glue
glue_assoc none t u = refl
glue_assoc (some s) none u = refl
glue_assoc (some s) (some t) none = refl
glue_assoc (some s) (some t) (some u) = ap (λ x. some x) (append_assoc s t u)

pub glue_nothing : (t : Option Text) → glue (some []) t ≡ t
unfolding glue
glue_nothing none = refl
glue_nothing (some t) = refl

module _ {F : Type 0} (floats : Floats F) (markup : Markup) where
  unfoldable pub tag_text : Option (Text × Bool × Option (Value F)) → Option Text
  tag_text none = none
  tag_text (some (tag, is_array, value)) = some tag

  unfoldable pub end_text : ℕ → Bool → Text
  end_text depth false = []
  end_text depth true = spaces depth ++ codes "</property>\n"

  -- The text of a list of nodes, if each of its values has one.
  unfoldable pub printed : ℕ → Forest (Value F) → Option Text
  unfolding glue tag_text end_text
  printed depth leaf = some []
  printed depth (node p child next) =
      let tag = start_tag floats markup depth p child in
      let below = printed (fitting depth + 1) child in
      let rest = printed depth next in
      glue (tag_text tag)
        (glue below (glue (some (end_text depth (has_end floats markup tag child))) rest))

  -- The text of a file.
  unfoldable pub document : Text → Forest (Value F) → Option Text
  unfolding printed glue
  document channel_name tree =
      glue (some (heading ++ opening channel_name)) (glue (printed 1 tree) (some closing))
