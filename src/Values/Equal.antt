-- ===== src/Values/Equal.antt =====
-- _blconf_gvalue_is_equal of common/blconf-gvaluefuncs.c.
use blconf.Base.{
  ◌≡◌, refl, ap, ◌↔◌, Bool, true, false, not, Option, none, some, Text, str_eq, str_eq_refl,
  ==_refl, ==_iff, ◌==◌, arith, ℤ, pos, negsuc, eq_int,
}
use blconf.Values.{
  Floats, Value, string_value, uchar_value, uint_value, uint64_value, uint16_value, char_value,
  int_value, int64_value, int16_value, float_value, double_value, boolean_value, array_value,
  get_uint16,
}
use blconf.Backend.Error.{ok}
use blconf.Tree.{Node, lookup_node}
use blconf.Tree.Visit.{effective}
use blconf.Perchannel.Channels.{State, Disk, Handle, open_channel}
use blconf.Perchannel.Channels.Opening.{open_or_create-ok}
use blconf.Perchannel.{set, set_found, same_value}

-- `!g_strcmp0(s, t)`
abbrev pub strcmp0_eq : Option Text → Option Text → Bool
strcmp0_eq none none = true
strcmp0_eq none (some t) = false
strcmp0_eq (some s) none = false
strcmp0_eq (some s) (some t) = str_eq s t

abbrev pub eq_bool : Bool → Bool → Bool
eq_bool true b = b
eq_bool false b = not b

eq_int_refl : (i : ℤ) → eq_int i i ≡ true
eq_int_refl (pos n) = ==_refl n
eq_int_refl (negsuc n) = ==_refl n

eq_int_zero_iff : (i : ℤ) → (eq_int i (pos 0) ≡ true) ↔ (i ≡ pos 0)
eq_int_zero_iff (pos n) = ((λ e. ap (λ x. pos x) ((==_iff n 0).0 e)), λ e. cc e)
eq_int_zero_iff (negsuc n) = ((λ e. absurd (ground (arith, e))), λ e. absurd (cc e))

module _ {F : Type 0} (floats : Floats F) where
  -- Both values are set, and the code has no case for arrays.
  unfoldable pub is_equal : Value F → Value F → Bool
  unfolding get_uint16
  is_equal (char_value i) (char_value j) = eq_int i j
  is_equal (uchar_value m) (uchar_value n) = m == n
  is_equal (boolean_value b) (boolean_value c) = eq_bool b c
  is_equal (int_value i) (int_value j) = eq_int i j
  is_equal (uint_value m) (uint_value n) = m == n
  is_equal (int64_value i) (int64_value j) = eq_int i j
  is_equal (uint64_value m) (uint64_value n) = m == n
  is_equal (float_value x) (float_value y) = floats.same x y
  is_equal (double_value x) (double_value y) = floats.same x y
  is_equal (string_value s) (string_value t) = strcmp0_eq s t
  is_equal (int16_value i) (int16_value j) = eq_int i (pos (get_uint16 {F = F} (int16_value j)))
  is_equal (uint16_value m) (uint16_value n) =
      get_uint16 {F = F} (uint16_value m) == get_uint16 {F = F} (uint16_value n)
  is_equal v w = false

  -- The types that the comparison answers TRUE on for one value twice.
  abbrev pub IsReflexive : Value F → Type 0
  IsReflexive (int16_value i) = i ≡ pos 0
  IsReflexive (array_value m) = ⊥
  IsReflexive (float_value x) = floats.same x x ≡ true
  IsReflexive (double_value x) = floats.same x x ≡ true
  IsReflexive v = Unit

  -- A value is equal to itself exactly if it is no array and no int16 but 0; a floating number must be
  -- equal to itself as a number.
  pub is_equal_self_iff : (v : Value F) → (is_equal v v ≡ true) ↔ IsReflexive v
  unfolding is_equal
  is_equal_self_iff (string_value none) = ((λ e. tt), λ e. refl)
  is_equal_self_iff (string_value (some s)) = ((λ e. tt), λ e. str_eq_refl s)
  is_equal_self_iff (uchar_value n) = ((λ e. tt), λ e. ==_refl n)
  is_equal_self_iff (uint_value n) = ((λ e. tt), λ e. ==_refl n)
  is_equal_self_iff (uint64_value n) = ((λ e. tt), λ e. ==_refl n)
  is_equal_self_iff (uint16_value n) = ((λ e. tt), λ e. ==_refl n)
  is_equal_self_iff (char_value i) = ((λ e. tt), λ e. eq_int_refl i)
  is_equal_self_iff (int_value i) = ((λ e. tt), λ e. eq_int_refl i)
  is_equal_self_iff (int64_value i) = ((λ e. tt), λ e. eq_int_refl i)
  is_equal_self_iff (int16_value i) = eq_int_zero_iff i
  is_equal_self_iff (boolean_value true) = ((λ e. tt), λ e. refl)
  is_equal_self_iff (boolean_value false) = ((λ e. tt), λ e. refl)
  is_equal_self_iff (float_value x) = ((λ e. e), λ e. e)
  is_equal_self_iff (double_value x) = ((λ e. e), λ e. e)
  is_equal_self_iff (array_value m) = ((λ e. absurd (ground (arith, e))), λ e. absurd e)

  -- The second of two int16 values does not matter, only whether the first is 0.
  int16-is_equal : (i j : ℤ) → (is_equal (int16_value i) (int16_value j) ≡ true) ↔ (i ≡ pos 0)
  unfolding is_equal
  int16-is_equal i j = eq_int_zero_iff i

  -- An int16 property that is 0 cannot be set: blconf_backend_perchannel_xml_set answers with success and
  -- leaves the backend as opening the channel left it, whatever the new int16 is.
  pub set_int16_zero :
      (disk : Disk (Value F)) (st : State (Value F)) (name property : Text) (j : ℤ)
      (h : Handle (Value F)) (n : Node (Value F))
      → (open_channel disk st name).0 ≡ ok h
      → lookup_node h.channel.properties property ≡ some n
      → n.prop.locked ≡ false
      → effective n.prop ≡ some (int16_value (pos 0))
      → set is_equal disk st name property (int16_value j) ≡ (ok tt, (open_channel disk st name).1)
  unfolding set set_found same_value is_equal
  set_int16_zero disk st name property j h n opened found free zero' =
      rw (open_or_create-ok disk st name h opened, found, free, zero') refl
