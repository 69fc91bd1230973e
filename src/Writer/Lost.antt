-- ===== src/Writer/Lost.antt =====
-- The values that blconf_format_xml_tag of blconfd/blconf-backend-perchannel-xml.c unsets.
use blconf.Base.{
  ℕ, ◌+◌, is_some, ◌≡◌, refl, sym, ap, ◌∙◌, Bool, true, false, Bool-cases, inl, inr, Option, none,
  some, Option-cases, List, [], ◌∷◌, Text, arith, str_eq, strsplit,
}
use blconf.Tree.{
  Property, Forest, leaf, node, Node, lookup_node, lookup_parts, find_child, prop_name_is_valid,
  tail,
}
use blconf.Values.{
  Floats, Value, string_value, uchar_value, uint_value, uint64_value, uint16_value, char_value,
  int_value, int64_value, int16_value, float_value, double_value, boolean_value, array_value,
}
use blconf.Writer.Format.{Markup, format_xml_tag, format_fundamental, format_members}
use blconf.Writer.{
  Files, seq, step, fitting, spaces, start_tag, has_end, put_start, put_end, value_after,
  write_nodes,
}

module _ {F : Type 0} where
  abbrev pub kept : Option (Value F) → Option (Value F)
  kept none = none
  kept (some (uint16_value n)) = none
  kept (some (int16_value i)) = none
  kept (some v) = some v

  -- The tree without the values that have no tag.
  unfoldable pub stripped : Forest (Value F) → Forest (Value F)
  stripped leaf = leaf
  stripped (node p child next) =
      node (record p { value = kept p.value }) (stripped child) (stripped next)

  unfoldable pub stripped_node : Option (Node (Value F)) → Option (Node (Value F))
  stripped_node none = none
  stripped_node (some n) = some (record {
    prop = record n.prop { value = kept n.prop.value };
    children = stripped n.children;
  })

  find_child-stripped :
      (part : Text) (f : Forest (Value F))
      → find_child part (stripped f) ≡ stripped_node (find_child part f)
  unfolding find_child stripped stripped_node
  find_child-stripped part leaf = refl
  find_child-stripped part (node p child next) = elim (Bool-cases (str_eq p.name part)) [
    | inl e ↦ rw e refl
    | inr e ↦ rw e (find_child-stripped part next)
  ]

  lookup_parts-stripped :
      (parts : List Text) (f : Forest (Value F))
      → lookup_parts parts (stripped f) ≡ stripped_node (lookup_parts parts f)
  unfolding lookup_parts stripped_node
  lookup_parts-stripped [] f = refl
  lookup_parts-stripped (part ∷ []) f = elim (Option-cases (find_child part f)) [
    | inl e ↦ rw (lookup_parts, find_child-stripped part f, e) refl
    | inr (n, e) ↦ rw (lookup_parts, find_child-stripped part f, e) refl
  ]
  lookup_parts-stripped (part ∷ q ∷ rest) f = elim (Option-cases (find_child part f)) [
    | inl e ↦ rw (lookup_parts, find_child-stripped part f, e) refl
    | inr (n, e) ↦
        rw (lookup_parts, find_child-stripped part f, e)
          (lookup_parts-stripped (q ∷ rest) n.children)
  ]

  pub lookup_node-stripped :
      (f : Forest (Value F)) (name : Text)
      → lookup_node (stripped f) name ≡ stripped_node (lookup_node f name)
  unfolding lookup_node stripped_node
  lookup_node-stripped f name = elim (Bool-cases (prop_name_is_valid name)) [
    | inl e ↦ rw e (lookup_parts-stripped (strsplit (tail name)) f)
    | inr e ↦ rw e refl
  ]

pub step-true {ℓ κ} :
    {S : Type ℓ} {A : Type κ} (r : Bool × S) (a : A) (next : S → (Bool × S) × A)
    → (step r a next).0.0 ≡ true
    → (r.0 ≡ true) × (step r a next ≡ next r.1)
unfolding step
step-true (false, st) a next e = cc e
step-true (true, st) a next e = (refl, refl)

pub seq-true {ℓ} :
    {S : Type ℓ} (r : Bool × S) (next : S → Bool × S) → (seq r next).0 ≡ true → r.0 ≡ true
unfolding seq
seq-true (false, st) next e = cc e
seq-true (true, st) next e = refl

same_node {ℓ} :
    {V : Type ℓ} (p : Property V) {v w : Option V} {c d s t : Forest V}
    → v ≡ w
    → c ≡ d
    → s ≡ t
    → node (record p { value = v }) c s ≡ node (record p { value = w }) d t
same_node p value children siblings = cc (value, children, siblings)

module _ {F : Type 0} (floats : Floats F) (markup : Markup) where
  format_xml_tag-kept :
      (blank : Text) (value : Option (Value F))
      → is_some (format_xml_tag floats markup blank value) ≡ true
      → value_after floats markup (format_xml_tag floats markup blank value) value ≡ kept value
  unfolding format_xml_tag format_fundamental value_after
  format_xml_tag-kept blank none e = refl
  format_xml_tag-kept blank (some (string_value x)) e = refl
  format_xml_tag-kept blank (some (uchar_value x)) e = refl
  format_xml_tag-kept blank (some (uint_value x)) e = refl
  format_xml_tag-kept blank (some (uint64_value x)) e = refl
  format_xml_tag-kept blank (some (uint16_value x)) e = refl
  format_xml_tag-kept blank (some (char_value x)) e = refl
  format_xml_tag-kept blank (some (int_value x)) e = refl
  format_xml_tag-kept blank (some (int64_value x)) e = refl
  format_xml_tag-kept blank (some (int16_value x)) e = refl
  format_xml_tag-kept blank (some (float_value x)) e = refl
  format_xml_tag-kept blank (some (double_value x)) e = refl
  format_xml_tag-kept blank (some (boolean_value x)) e = refl
  format_xml_tag-kept blank (some (array_value m)) e =
      elim (Option-cases (format_members floats markup blank m)) [
        | inl k ↦ rw (value_after, k) refl
        | inr (lines, k) ↦ rw (value_after, k) refl
      ]

  start_tag-kept {ℓ} :
      {S : Type ℓ} (files : Files S) (depth : ℕ) (p : Property (Value F)) (child : Forest (Value F))
      (st : S)
      → (put_start floats markup files (start_tag floats markup depth p child) st).0 ≡ true
      → value_after floats markup (start_tag floats markup depth p child) p.value ≡ kept p.value
  unfolding start_tag put_start value_after
  start_tag-kept files depth p child st e =
      elim (Option-cases (format_xml_tag floats markup (spaces depth) p.value)) [
        | inl k ↦ absurd (ground (arith, k, e))
        | inr (got, k) ↦
            let same = format_xml_tag-kept (spaces depth) p.value (ap is_some k) in
            let opened : value_after floats markup (some got) p.value ≡ kept p.value =
              ap (λ o. value_after floats markup o p.value) (sym k) ∙ same in
            rw (value_after, k) opened
      ]

  pub write_nodes-stripped {ℓ} :
      {S : Type ℓ} (files : Files S) (depth : ℕ) (f : Forest (Value F)) (st : S)
      → (write_nodes floats markup files depth f st).0.0 ≡ true
      → (write_nodes floats markup files depth f st).1 ≡ stripped f
  unfolding write_nodes stripped
  write_nodes-stripped files depth leaf st e = refl
  write_nodes-stripped files depth (node p child next) st e =
      let tag = start_tag floats markup depth p child in
      let inner = write_nodes floats markup files (fitting depth + 1) child in
      let started = put_start floats markup files tag st in
      let below = step started child inner in
      let finish = put_end floats markup files depth (has_end floats markup tag child) in
      let closed = seq below.0 finish in
      let (finished, last) = step-true closed next (write_nodes floats markup files depth next) e in
      let (begun, first) = step-true started child inner (seq-true below.0 finish finished) in
      let value = start_tag-kept files depth p child st begun in
      let children =
        ap (λ r. r.1) first
        ∙ write_nodes-stripped files (fitting depth + 1) child started.1
            (sym (ap (λ r. r.0.0) first) ∙ seq-true below.0 finish finished) in
      let siblings =
        ap (λ r. r.1) last
        ∙ write_nodes-stripped files depth next closed.1 (sym (ap (λ r. r.0.0) last) ∙ e) in
      same_node p value children siblings
