-- ===== src/Client/Library.antt =====
-- blconf/blconf.c: the start and the end of the client library, and the structs that are registered with it.
use blconf.Base.{
  ℕ, ◌+◌, ◌-◌, ◌<◌, ◌≡◌, refl, Bool, true, false, not, Option, none, some, List, [], ◌∷◌, Text, ltb,
  ◌==◌, if◌then◌else◌, arith,
}
use Prim.Native.Nat.{◌^◌, ◌%◌}
use native.Mathlib.Nat.{mod-eq_of_lt}
use blconf.Xml.Types.{GType}
use blconf.Tree.Visit.{Table, table_lookup, table_insert}
use blconf.Client.Channel.{Channel}
use blconf.Client.Channel.Structs.{NamedStruct}
use blconf.Client.Binding.{Bindings, at_channel, signal_handler_disconnect}
use blconf.Client.Binding
use blconf.Client.Binding.Reach.{Reach, cut, Reach-signal_handler_disconnect}
use blconf.Client.Binding.Ends.{IsBare, Reach-shutdown}

-- The static variables of the library: `blconf_refcnt`, whether there are `dbus_conn` and `dbus_proxy`,
-- `named_structs`, and those of the channels and of the bindings. A table that is NULL is an empty one.
pub record Library (F : Type 0) : Type 0 where
  pub refcnt : ℕ
  pub connected : Bool
  pub named_structs : Table NamedStruct
  pub singletons : Table (Channel F)
  pub bindings : Bindings

-- what becomes of the handlers of channels that end
unfoldable pub end_handlers : List ℕ → Bindings → Option Bindings
end_handlers [] s = some s
end_handlers (h ∷ hs) s = elim (signal_handler_disconnect at_channel h s) [
  | none ↦ none
  | some s' ↦ end_handlers hs s'
]

-- the guards of blconf_named_struct_register
abbrev pub is_registrable : Text → List GType → Bool
is_registrable [] types = false
is_registrable (c ∷ name) [] = false
is_registrable (c ∷ name) (t ∷ types) = true

end_handlers-Reach :
    (ended : List ℕ) (s : Bindings)
    → Reach s
    → (s' : Bindings) × ((end_handlers ended s ≡ some s') × Reach s')
unfolding end_handlers
end_handlers-Reach [] s r = (s, (refl, r))
end_handlers-Reach (h ∷ hs) s r =
    let (s1, (e, off)) = Reach-signal_handler_disconnect s at_channel h r in
    let (s2, (all, r2)) = end_handlers-Reach hs s1 (cut at_channel h r e) in
    (s2, (rw (end_handlers, e) all, r2))

module _ {F : Type 0} where
  -- blconf_init, given whether the bus is there
  unfoldable pub library_init : Bool → Library F → Bool × Library F
  library_init got lib =
      if not (lib.refcnt == 0)
      then (true, record lib { refcnt = (lib.refcnt + 1) % 2 ^ 32 })
      else if got
      then (true, record lib { connected = true; refcnt = 1 })
      else (false, record lib { connected = false })

  abbrev pub unconnected : Library F → Bindings → Library F
  unconnected lib s = record lib {
    refcnt = lib.refcnt - 1;
    connected = false;
    named_structs = [];
    singletons = [];
    bindings = s;
  }

  -- blconf_shutdown; `ended` are the handlers of the channels that end because the library gives up its
  -- reference
  unfoldable pub library_shutdown : List ℕ → Library F → Option (Library F)
  unfolding end_handlers
  library_shutdown ended lib =
      if lib.refcnt == 0
      then some lib
      else if ltb 1 lib.refcnt
      then some (record lib { refcnt = lib.refcnt - 1 })
      else elim (end_handlers ended lib.bindings) [
        | none ↦ none
        | some s ↦ elim (Binding.shutdown s) [ none ↦ none | some s' ↦ some (unconnected lib s') ]
      ]

  -- blconf_named_struct_register; a name that is registered keeps its struct
  unfoldable pub named_struct_register : Text → List GType → Library F → Library F
  named_struct_register struct_name member_types lib =
      if is_registrable struct_name member_types
      then elim (table_lookup struct_name lib.named_structs) [
        | some ns ↦ lib
        | none ↦ record lib {
          named_structs =
              table_insert struct_name (record { member_types = member_types }) lib.named_structs;
        }
      ]
      else lib

  -- A start that is not the first is undone by a shutdown, whatever the bus does.
  library_shutdown-library_init :
      (got : Bool) (ended : List ℕ) (lib : Library F)
      → 0 < lib.refcnt
      → lib.refcnt + 1 < 2 ^ 32
      → library_shutdown ended (library_init got lib).1 ≡ some lib
  unfolding library_init library_shutdown
  library_shutdown-library_init got ended lib pos h =
      let started : (lib.refcnt == 0) ≡ false = ground (arith, pos) in
      let small : (lib.refcnt + 1) % 2 ^ 32 ≡ lib.refcnt + 1 = mod-eq_of_lt h in
      let again : (lib.refcnt + 1 == 0) ≡ false = ground arith in
      let more : ltb 1 (lib.refcnt + 1) ≡ true = ground (arith, pos) in
      let back : lib.refcnt + 1 - 1 ≡ lib.refcnt = omega arith in
      rw (library_shutdown, library_init, started, small, again, more, back) refl

  -- In every state that the bindings reach, the shutdown that takes the count of starts from 1 has a result: the count
  -- is 0, the library is not connected, every binding is freed and none of their handlers is connected,
  -- whichever channels end before the bindings do.
  pub library_shutdown-IsBare :
      (ended : List ℕ) (lib : Library F)
      → lib.refcnt ≡ 1
      → Reach lib.bindings
      → (lib' : Library F) × ((library_shutdown ended lib ≡ some lib')
          × (lib'.refcnt ≡ 0)
          × (lib'.connected ≡ false)
          × IsBare lib'.bindings)
  unfolding library_shutdown
  library_shutdown-IsBare ended lib one r =
      let (s, (e, r1)) = end_handlers-Reach ended lib.bindings r in
      let (s', (done, bare)) = Reach-shutdown s r1 in
      let started : (lib.refcnt == 0) ≡ false = ground (arith, one) in
      let last : ltb 1 lib.refcnt ≡ false = ground (arith, one) in
      (
        unconnected lib s',
        (rw (library_shutdown, started, last, e, done) refl, omega (arith, one), refl, bare),
      )
