-- ===== src/Writer.antt =====
-- The writer of channel files in blconfd/blconf-backend-perchannel-xml.c
-- (blconf_backend_perchannel_xml_write_node and blconf_backend_perchannel_xml_flush_channel). The C
-- library's files are a parameter.
pub mod Format
pub mod Flush
pub mod Laws
pub mod Document
pub mod Pieces
pub mod Saving
pub mod Clean
pub mod Lost
pub mod Reading
pub mod Timer
pub mod Ended
pub mod Closing
pub mod Replacing
pub mod Flushed
use blconf.Base.{
  ℕ, zero, suc, ◌-◌, ◌*◌, ◌+◌, Bool, true, false, not, ◌||◌, Option, none, some, List, [], ◌∷◌,
  ◌++◌, Text, codes, if◌then◌else◌, ltb,
}
use Prim.Native.Nat.{◌/◌}
use blconf.Backend.Error.{Error, write_failure, channel_not_found}
use blconf.Tree.{Property, Forest, leaf, node, is_leaf, max_prop_path}
use blconf.Perchannel.Channels.{Channel}
use blconf.Values.{Floats, Value}
use Format.{Markup, format_xml_tag}

-- The calls of the C library that write a file. Each gives whether it succeeded, and the state of the
-- file system and of the stream after it, on a failure too.
pub record Files {ℓ} (S : Type ℓ) : Type ℓ where
  pub fopen : Text → S → Bool × S
  pub fputs : Text → S → Bool × S
  pub fflush : S → Bool × S
  pub fdatasync : S → Bool × S
  pub fclose : S → Bool × S
  pub rename : Text → Text → S → Bool × S

-- `a || goto out`
unfoldable pub seq {ℓ} : {S : Type ℓ} → Bool × S → (S → Bool × S) → Bool × S
seq (false, st) next = (false, st)
seq (true, st) next = next st

-- the same before a loop that may change what it goes through
unfoldable pub step {ℓ κ} :
    {S : Type ℓ} {A : Type κ} → Bool × S → A → (S → (Bool × S) × A) → (Bool × S) × A
step (false, st) a next = ((false, st), a)
step (true, st) a next = next st

-- the depth that fits in `spaces`
unfoldable pub fitting : ℕ → ℕ
fitting depth = if ltb (max_prop_path + 1) (depth * 2) then max_prop_path / 2 - 1 else depth

blanks : ℕ → Text
blanks zero = []
blanks (suc n) = b' ' ∷ blanks n

-- `spaces`
unfoldable pub spaces : ℕ → Text
unfolding fitting blanks
spaces depth = blanks (fitting depth * 2)

module _ {F : Type 0} (floats : Floats F) (markup : Markup) where
  -- `elem_str` of a node, whether it is an array, and the value after it; `none` is FALSE
  unfoldable pub start_tag :
      ℕ → Property (Value F) → Forest (Value F) → Option (Text × Bool × Option (Value F))
  unfolding format_xml_tag spaces
  start_tag depth p child = elim (format_xml_tag floats markup (spaces depth) p.value) [
    | none ↦ none
    | some (tag, is_array, value) ↦ some (
      spaces depth
          ++ codes "<property name=\""
          ++ markup.escape (some p.name)
          ++ codes "\""
          ++ tag
          ++ (if is_array then [] else if is_leaf child then codes "/>\n" else codes ">\n"),
      is_array,
      value,
    )
  ]

  -- `is_array || g_node_first_child(node)`
  unfoldable pub has_end : Option (Text × Bool × Option (Value F)) → Forest (Value F) → Bool
  has_end none child = false
  has_end (some (tag, is_array, value)) child = is_array || not (is_leaf child)

  unfoldable pub value_after :
      Option (Text × Bool × Option (Value F)) → Option (Value F) → Option (Value F)
  value_after none value = value
  value_after (some (tag, is_array, value')) value = value'

  unfoldable pub put_start {ℓ} :
      {S : Type ℓ} → Files S → Option (Text × Bool × Option (Value F)) → S → Bool × S
  put_start files none st = (false, st)
  put_start files (some (tag, is_array, value)) st = files.fputs tag st

  unfoldable pub put_end {ℓ} : {S : Type ℓ} → Files S → ℕ → Bool → S → Bool × S
  unfolding seq spaces
  put_end files depth false st = (true, st)
  put_end files depth true st =
      seq (files.fputs (spaces depth) st) (files.fputs (codes "</property>\n"))

  -- the loops over a list of children, with blconf_backend_perchannel_xml_write_node for each; the
  -- forest that it gives has the values after the calls
  unfoldable pub write_nodes {ℓ} :
      {S : Type ℓ} → Files S → ℕ → Forest (Value F) → S → (Bool × S) × Forest (Value F)
  unfolding step seq start_tag has_end value_after put_start put_end fitting
  write_nodes files depth leaf st = ((true, st), leaf)
  write_nodes files depth (node p child next) st =
      let tag = start_tag depth p child in
      let below =
        step (put_start files tag st) child (write_nodes files (fitting depth + 1) child) in
      let rest =
        step (seq below.0 (put_end files depth (has_end tag child))) next
          (write_nodes files depth next) in
      (rest.0, node (record p { value = value_after tag p.value }) below.1 rest.1)
