-- ===== src/Client/Query.antt =====
-- blconf-query/main.c: what the command line client does to a property once its options are read. A text that it
-- prints, or the failure that it reports, is the result; both arrays of options end at their NULL.
pub mod Runs
use blconf.Base.{
  Bool, true, false, not, ◌&&◌, ◌||◌, Option, none, some, List, [], ◌∷◌, Text, length, ◌==◌,
  if◌then◌else◌, is_some,
}
use blconf.Xml.Types.{GType, invalid, empty, array, gtype_from_string}
use blconf.Values.{Floats, Value, boolean_value, array_value, Members, nil, cons, type_of}
use blconf.Values.Convert.{from_string, to_string}
use blconf.Values.Shorts.{same_type}
use blconf.Client.Cache.{Remote}
use blconf.Client.Channel.{Channel, has_property}
use blconf.Client.Channel.Typed.{set_bool}
use blconf.Client.Channel.Property.{get_property, set_property}
use blconf.Values.Shorts.{Conversions}

-- The messages of the program, and its end without one.
pub data Report : Type 0 where
  success : Report
  printed : List (Option Text) → Report
  no_property missing_type no_existing_type unknown_type still_array unreadable wrong_count not_set
        not_boolean :
      Report

-- `type && type[0]` and the type that it names
abbrev pub first_type : List Text → Option GType
first_type [] = none
first_type (t ∷ ts) = some (gtype_from_string t)

abbrev pub is_unknown : GType → Bool
is_unknown t = same_type t invalid || same_type t empty

module _ {F : Type 0} where
  abbrev pub reported : Bool × Channel F → Report × Channel F
  reported (true, ch) = (success, ch)
  reported (false, ch) = (not_set, ch)

module _ {F : Type 0} (floats : Floats F) where
  -- the texts of an array's items
  abbrev pub texts_of : Members F → List (Option Text)
  texts_of nil = []
  texts_of (cons v m) = to_string floats v ∷ texts_of m

  -- the printing of a value
  abbrev pub texts : Value F → List (Option Text)
  texts (array_value m) = texts_of m
  texts v = to_string floats v ∷ []

  abbrev pub read_report : Option (Value F) → Report
  read_report none = no_property
  read_report (some v) = printed (texts v)

  -- the type of the existing value, or none
  abbrev pub old_type : Option (Value F) → GType
  old_type none = invalid
  old_type (some v) = type_of v

  abbrev pub chosen : Option GType → GType → GType
  chosen none old = old
  chosen (some t) old = t

  -- a value that is not an array
  unfoldable pub single_value : GType → Text → Report × Option (Value F)
  single_value t text =
      if is_unknown t
      then (unknown_type, none)
      else if same_type t array
      then (still_array, none)
      else elim (from_string floats t text) [
        | none ↦ (unreadable, none)
        | some v ↦ (success, some v)
      ]

  -- `new_types` types: those of the option or those of the items that are there
  abbrev pub item_types : Members F → List GType
  item_types nil = []
  item_types (cons v m) = type_of v ∷ item_types m

  abbrev pub named_types : List Text → List GType
  named_types [] = []
  named_types (t ∷ ts) = gtype_from_string t ∷ named_types ts

  abbrev pub types_for : List Text → Option (Value F) → List GType
  types_for (t ∷ ts) old = named_types (t ∷ ts)
  types_for [] (some (array_value m)) = item_types m
  types_for [] old = []

  abbrev pub item_then : Report × Option (Members F) → Value F → Report × Option (Members F)
  item_then (r, none) v = (r, none)
  item_then (r, some m) v = (r, some (cons v m))

  -- the loop over the values of an array, which are as many as the types
  unfoldable pub new_items : List GType → List Text → Report × Option (Members F)
  new_items [] texts = (success, some nil)
  new_items (t ∷ types) [] = (success, some nil)
  new_items (t ∷ types) (text ∷ texts) =
      if is_unknown t then (unknown_type, none) else elim (from_string floats t text) [
        | none ↦ (unreadable, none)
        | some v ↦ item_then (new_items types texts) v
      ]

  abbrev pub boxed : Report × Option (Members F) → Report × Option (Value F)
  boxed (r, none) = (r, none)
  boxed (r, some m) = (r, some (array_value m))

  -- the value to write
  unfoldable pub new_value :
      List Text → Text → List Text → Bool → Option (Value F) → Report × Option (Value F)
  unfolding single_value new_items
  new_value type text [] false old = single_value (chosen (first_type type) (old_type old)) text
  new_value type text [] true old =
      if length (types_for type old) == 1
      then boxed (new_items (types_for type old) (text ∷ []))
      else (wrong_count, none)
  new_value type text (text' ∷ texts) force_array old =
      if length (types_for type old) == length (text ∷ text' ∷ texts)
      then boxed (new_items (types_for type old) (text ∷ text' ∷ texts))
      else (wrong_count, none)

  module _ (equal : Value F → Value F → Bool) (conv : Conversions F)
      (utf8_validate : Text → Bool) where
    abbrev pub written :
        Channel F → Text → Report × Option (Value F) → Remote (Value F) → Report × Channel F
    written ch property (r, none) got = (r, ch)
    written ch property (r, some v) got =
        reported (set_property equal utf8_validate ch property v got)

    -- the branch of main that writes a value; `got` is the answer to the lookups, of which the cache keeps
    -- the first
    unfoldable pub write_value :
        Channel F
        → Text
        → Text
        → List Text
        → List Text
        → Bool
        → Bool
        → Remote (Value F)
        → Report × Channel F
    unfolding new_value
    write_value ch property text texts type create force_array got =
        let (exists, ch1) = has_property ch property got in
        let (old, ch2) = get_property conv ch1 property invalid got in
        if not exists && not create
        then (no_property, ch1)
        else if not exists && not (is_some (first_type type))
        then (missing_type, ch1)
        else if is_some (first_type type)
        then written ch1 property (new_value type text texts force_array none) got
        else elim old [
          | none ↦ (no_existing_type, ch2)
          | some v ↦ written ch2 property (new_value type text texts force_array (some v)) got
        ]

    -- the branch of main that reads a value, and that of --toggle
    unfoldable pub read_value : Channel F → Text → Remote (Value F) → Report × Channel F
    read_value ch property got =
        let (v, ch') = get_property conv ch property invalid got in (read_report v, ch')

    abbrev pub toggled : Channel F → Text → Option (Value F) → Remote (Value F) → Report × Channel F
    toggled ch property (some (boolean_value b)) got =
        reported (set_bool equal ch property (not b) got)
    toggled ch property none got = (no_property, ch)
    toggled ch property v got = (not_boolean, ch)

    unfoldable pub toggle_value : Channel F → Text → Remote (Value F) → Report × Channel F
    toggle_value ch property got =
        let (v, ch') = get_property conv ch property invalid got in toggled ch' property v got
