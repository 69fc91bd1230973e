-- ===== src/Examples/Queries.antt =====
-- The theorem of blconf-query/main.c at a property that is created.
use blconf.Base.{ℕ, ◌≡◌, refl, true, false, none, some, [], ◌∷◌, codes, pos}
use blconf.Xml.Types.{gtype_from_string, int}
use blconf.Values.{int_value}
use blconf.Values.Equal.{is_equal}
use blconf.Values.Convert.{to_string, from_string}
use blconf.Tree.Visit.{table_lookup}
use blconf.Client.Cache.{answer, cache_new}
use blconf.Client.Cache.Calls
use blconf.Client.Cache.Calls.{lookup}
use blconf.Client.Channel.{Channel, has_property, set_internal, real_prop}
use blconf.Client.Channel.Property.{set_property}
use blconf.Client.Query.{Report, success, printed, write_value, read_value}
use blconf.Client.Query.Runs.{read_value-write_value}
use blconf.Client.Cache.Sending.{Sends}
use blconf.Examples.Writing.{floats}
use blconf.Examples.Channels.{conv, desk, width, missing, equal}

abbrev wrote : Report × Channel ℕ
wrote =
    write_value floats equal conv (λ s. true) desk width (codes "42") [] (codes "int" ∷ []) true
      false missing

names_int : gtype_from_string (codes "int") ≡ int
unfolding gtype_from_string
names_int = refl

reads_42 : from_string floats int (codes "42") ≡ some (int_value (pos 42))
unfolding from_string
reads_42 = refl

wrote-success : wrote.0 ≡ success
unfolding write_value has_property lookup table_lookup cache_new gtype_from_string from_string
    set_property set_internal Calls.set
wrote-success = refl

-- the channel of the next run is as new as that of the first
not_cached : table_lookup (real_prop desk width) desk.cache.properties ≡ none
unfolding table_lookup cache_new
not_cached = refl

equals_42 : is_equal floats (int_value (pos 42)) (int_value (pos 42)) ≡ true
unfolding is_equal
equals_42 = refl

read_value-write_value_example :
    Sends desk.cache (real_prop desk width) (int_value (pos 42)) missing wrote.1.cache
    × ((read_value floats equal conv (λ s. true) desk width (answer (int_value (pos 42)))).0
        ≡ printed (to_string floats (int_value (pos 42)) ∷ []))
read_value-write_value_example =
    read_value-write_value floats conv (λ s. true) desk desk width (codes "42") (codes "int")
      (pos 42) true missing (int_value (pos 42)) names_int reads_42 wrote-success not_cached
      equals_42
