-- ===== src/Client/Query/Runs.antt =====
-- Two runs of the command line client of blconf-query/main.c, each with a channel of its own: what one writes the
-- other prints.
use blconf.Base.{
  ◌≡◌, refl, ap, subst, sym, ◌∙◌, Bool, true, false, not, ◌&&◌, inl, inr, Bool-cases, none, some,
  [], ◌∷◌, Text, ℤ, arith,
}
use blconf.Xml.Types.{GType, int, invalid, gtype_from_string}
use blconf.Tree.Visit.{table_lookup}
use blconf.Values.{Floats, Value, int_value}
use blconf.Values.Equal.{is_equal}
use blconf.Values.Convert.{from_string, to_string}
use blconf.Values.Shorts.{Conversions}
use blconf.Client.Cache.{Remote, answer, Cache}
use blconf.Client.Cache.Calls.{lookup, lookup_item, fetched}
use blconf.Client.Cache.Sending.{Sends, set-Sends, Sends-again}
use blconf.Client.Channel.{Channel, real_prop, with_cache, set_internal, get_internal, has_property}
use blconf.Client.Channel.Property.{set_property, get_property, found_in_type, sent_value, widened}
use blconf.Client.Channel.Signals.{with_cache-real_prop}
use blconf.Client.Channel.ReadBack.{int_value-IsExact}
use blconf.Client.Query.{
  success, printed, new_value, single_value, write_value, read_value, read_report, reported,
  written,
}

module _ {F : Type 0} (floats : Floats F) (conv : Conversions F) (utf8_validate : Text → Bool) where
  get_internal-answer :
      (ch : Channel F) (p : Text) (v : Value F)
      → table_lookup (real_prop ch p) ch.cache.properties ≡ none
      → (get_internal ch p (answer v)).0 ≡ some v
  unfolding get_internal lookup lookup_item fetched
  get_internal-answer ch p v e = rw e refl

  read_value-answer :
      (reader : Channel F) (p : Text) (i : ℤ) (w : Value F)
      → table_lookup (real_prop reader p) reader.cache.properties ≡ none
      → is_equal floats w (int_value i) ≡ true
      → (read_value floats (is_equal floats) conv utf8_validate reader p (answer w)).0
        ≡ printed (to_string floats (int_value i) ∷ [])
  unfolding read_value get_property
  read_value-answer reader p i w e same =
      ap (λ v. read_report floats (found_in_type conv invalid v))
        (get_internal-answer reader p w e ∙ ap (λ x. some x) (int_value-IsExact floats i w same))

  -- the report of a write that succeeded
  reported_channel :
      (x : Bool × Channel F) → (reported x).0 ≡ success → (x.0 ≡ true) × ((reported x).1 ≡ x.1)
  reported_channel (true, ch) e = (refl, refl)
  reported_channel (false, ch) e = absurd (cc e)

  reported-Sends :
      (ch : Channel F) (p : Text) (i : ℤ) (got : Remote (Value F))
      → (reported (set_internal (is_equal floats) ch p (int_value i) got)).0 ≡ success
      → Sends ch.cache
          (real_prop ch p)
          (int_value i)
          got
          (reported (set_internal (is_equal floats) ch p (int_value i) got)).1.cache
  unfolding set_internal with_cache
  reported-Sends ch p i got good =
      let (done, same) =
        reported_channel (set_internal (is_equal floats) ch p (int_value i) got) good in
      subst (λ (c : Channel F). Sends ch.cache (real_prop ch p) (int_value i) got c.cache)
        (sym same)
        (set-Sends (is_equal floats) ch.cache (real_prop ch p) (int_value i) got
          (int_value-IsExact floats i) done)

  written-Sends :
      (ch : Channel F) (p text : Text) (i : ℤ) (got : Remote (Value F)) (t : GType)
      → t ≡ int
      → from_string floats int text ≡ some (int_value i)
      → (written floats
          (is_equal floats)
          conv
          utf8_validate
          ch
          p
          (single_value floats t text)
          got).0
        ≡ success
      → Sends ch.cache
          (real_prop ch p)
          (int_value i)
          got
          (written floats
            (is_equal floats)
            conv
            utf8_validate
            ch
            p
            (single_value floats t text)
            got).1.cache
  unfolding single_value set_property sent_value widened
  written-Sends ch p text i got t e f good =
      let single : single_value floats t text ≡ (success, some (int_value i)) =
        rw (e, single_value, f) refl in
      subst
        (λ r.
          (written floats (is_equal floats) conv utf8_validate ch p r got).0 ≡ success
          → Sends ch.cache (real_prop ch p) (int_value i) got
              (written floats (is_equal floats) conv utf8_validate ch p r got).1.cache)
        (sym single) (reported-Sends ch p i got) good

  -- the cache and the names after has_property
  has_property-Sends :
      (ch : Channel F) (p : Text) (v : Value F) (got : Remote (Value F)) (after : Cache (Value F))
      → Sends (has_property ch p got).1.cache (real_prop (has_property ch p got).1 p) v got after
      → Sends ch.cache (real_prop ch p) v got after
  unfolding has_property get_internal with_cache
  has_property-Sends ch p v got after h =
      let cache = (lookup ch.cache (real_prop ch p) got).1 in
      Sends-again ch.cache (real_prop ch p) v got after
        (subst (λ q. Sends cache q v got after) (with_cache-real_prop ch cache p) h)

  -- A run of the program that writes a text as an int, which the text reads as the number i, and succeeds: it has
  -- sent the number to the daemon, in one call, or the daemon had it already. And a later run, with a new
  -- channel of its own in which the property is not cached, to which the daemon answers with a value
  -- that is equal to the number, prints the text of i.
  pub read_value-write_value :
      (ch reader : Channel F) (p text type : Text) (i : ℤ) (create : Bool) (got : Remote (Value F))
      (w : Value F)
      → gtype_from_string type ≡ int
      → from_string floats int text ≡ some (int_value i)
      → (write_value floats
          (is_equal floats)
          conv
          utf8_validate
          ch
          p
          text
          []
          (type ∷ [])
          create
          false
          got).0
        ≡ success
      → table_lookup (real_prop reader p) reader.cache.properties ≡ none
      → is_equal floats w (int_value i) ≡ true
      → Sends ch.cache
          (real_prop ch p)
          (int_value i)
          got
          (write_value floats
            (is_equal floats)
            conv
            utf8_validate
            ch
            p
            text
            []
            (type ∷ [])
            create
            false
            got).1.cache
        × ((read_value floats (is_equal floats) conv utf8_validate reader p (answer w)).0
            ≡ printed (to_string floats (int_value i) ∷ []))
  unfolding write_value new_value
  read_value-write_value ch reader p text type i create got w e f good empty same =
      let (exists, ch1) = has_property ch p got in
      elim (Bool-cases (not exists && not create)) [
        | inl k ↦ absurd (cc (k, good))
        | inr k ↦
            let typed : (not exists && false) ≡ false = ground arith in
            let out =
              written floats (is_equal floats) conv utf8_validate ch1 p
                (single_value floats (gtype_from_string type) text) got in
            let run : write_value floats (is_equal floats) conv utf8_validate ch p text []
                  (type ∷ []) create false got
                ≡ out =
              rw (write_value, k, typed, new_value) refl in
            (
              subst
                  (λ r. r.0 ≡ success → Sends ch.cache (real_prop ch p) (int_value i) got r.1.cache)
                  (sym run)
                  (λ done.
                    has_property-Sends ch p (int_value i) got out.1.cache
                      (written-Sends ch1 p text i got (gtype_from_string type) e f done))
                  good,
              read_value-answer reader p i w empty same,
            )
      ]
