-- ===== src/Client/Binding.antt =====
-- blconf/blconf-binding.c: the bindings of a channel's properties to those of objects. A binding is freed by
-- the closure of one signal handler and used by that of another, so the allocated ones are a store by
-- address, and a use of one that is not allocated has no result.
pub mod Notify
pub mod Colors
pub mod Unbinding
pub mod Orderly
pub mod Reach
pub mod Listed
pub mod Ends
pub mod Search
use blconf.Base.{
  ℕ, zero, suc, ◌+◌, Bool, true, false, not, ◌&&◌, ◌||◌, Option, none, some, List, [], ◌∷◌, Text,
  slash, str_eq, ◌==◌, if◌then◌else◌, is_some,
}
use blconf.Xml.Types.{GType, invalid, empty}
use blconf.Values.Shorts.{same_type}

-- A type of the bindings: one that a property has, or a color of GDK as `__gdkcolor_gtype` and
-- `__gdkrgba_gtype` name it.
pub data BoundType : Type 0 where
  of_type : GType → BoundType
  gdk_color gdk_rgba : BoundType

-- BlconfGBinding; channels and objects are numbers, and `none` is NULL
pub record Binding : Type 0 where
  pub channel : Option ℕ
  pub blconf_property : Text
  pub blconf_property_type : BoundType
  pub channel_handler : ℕ
  pub object : Option ℕ
  pub object_property : Text
  pub object_property_type : BoundType
  pub object_handler : ℕ

-- The bindings by their addresses, `__bindings`, and the data of each connected handler; `next` is the next
-- number, of an address as of a handler.
pub record Bindings : Type 0 where
  pub at : ℕ → Option Binding
  pub bindings : List ℕ
  pub object_handlers : ℕ → Option ℕ
  pub channel_handlers : ℕ → Option ℕ
  pub next : ℕ

unfoldable pub update {ℓ} : {A : Type ℓ} → (ℕ → Option A) → ℕ → Option A → ℕ → Option A
update f k v j = if j == k then v else f j

-- g_slist_remove
unfoldable pub remove : ℕ → List ℕ → List ℕ
remove a [] = []
remove a (b ∷ bs) = let rest = remove a bs in if b == a then bs else b ∷ rest

abbrev pub store : ℕ → Binding → Bindings → Bindings
store a b s = record s { at = update s.at a (some b) }

-- g_free of the names and g_slice_free
unfoldable pub free : ℕ → Bindings → Option Bindings
free a s = elim (s.at a) [ none ↦ none | some b ↦ some (record s { at = update s.at a none }) ]

abbrev pub free_after : ℕ → Option Bindings → Option Bindings
free_after a none = none
free_after a (some s) = free a s

-- The two handlers of a binding.
pub data Side : Type 0 where
  at_object at_channel : Side

abbrev pub without_object : ℕ → Binding → Bindings → Bindings
without_object a b s =
    store a (record b { object = none }) (record s { bindings = remove a s.bindings })

abbrev pub without_channel : ℕ → Binding → Bindings → Bindings
without_channel a b s = store a (record b { channel = none }) s

abbrev pub drop_handler : Side → ℕ → Bindings → Bindings
drop_handler at_object h s = record s { object_handlers = update s.object_handlers h none }
drop_handler at_channel h s = record s { channel_handlers = update s.channel_handlers h none }

abbrev pub handler : Side → ℕ → Bindings → Option ℕ
handler at_object h s = s.object_handlers h
handler at_channel h s = s.channel_handlers h

-- blconf_g_property_object_disconnect and blconf_g_property_channel_disconnect, the closures of the two
-- handlers. Each calls g_signal_handler_disconnect for the other handler, which removes it and runs its
-- closure, or warns where there is none; g_return_if_fail ends a closure whose own side is NULL already. They run on fuel: there is no result where it runs out, or
-- where a binding is used that is freed.
unfoldable pub disconnected : ℕ → Side → ℕ → Bindings → Option Bindings
unfolding free update remove
disconnected zero side a s = none
disconnected (suc fuel) at_object a s = elim (s.at a) [
  | none ↦ none
  | some b ↦ elim b.object [
    | none ↦ some s
    | some o ↦
        let s' = without_object a b s in
        free_after a (elim b.channel [
          | none ↦ some s'
          | some c ↦ elim (handler at_channel b.channel_handler s') [
            | none ↦ some s'
            | some d ↦ disconnected fuel at_channel d (drop_handler at_channel b.channel_handler s')
          ]
        ])
  ]
]
disconnected (suc fuel) at_channel a s = elim (s.at a) [
  | none ↦ none
  | some b ↦ elim b.channel [
    | none ↦ some s
    | some c ↦
        let s' = without_channel a b s in
        elim b.object [
          | none ↦ some s'
          | some o ↦ elim (handler at_object b.object_handler s') [
            | none ↦ some s'
            | some d ↦ disconnected fuel at_object d (drop_handler at_object b.object_handler s')
          ]
        ]
  ]
]

-- g_signal_handler_disconnect
unfoldable pub signal_handler_disconnect : Side → ℕ → Bindings → Option Bindings
unfolding disconnected
signal_handler_disconnect side h s = elim (handler side h s) [
  | none ↦ some s
  | some a ↦ disconnected 3 side a (drop_handler side h s)
]

-- blconf_g_property_init, but for the value that it transfers to the object; it gives the binding's id
unfoldable pub property_init : ℕ → Text → BoundType → ℕ → Text → BoundType → Bindings → ℕ × Bindings
unfolding update
property_init channel blconf_property blconf_property_type object object_property
      object_property_type s =
    let a = s.next in
    let h = s.next + 1 in
    let k = s.next + 2 in
    let b : Binding = record {
      channel = some channel;
      blconf_property = blconf_property;
      blconf_property_type = blconf_property_type;
      channel_handler = k;
      object = some object;
      object_property = object_property;
      object_property_type = object_property_type;
      object_handler = h;
    } in
    (
      k,
      record {
        at = update s.at a (some b);
        bindings = a ∷ s.bindings;
        object_handlers = update s.object_handlers h (some a);
        channel_handlers = update s.channel_handlers k (some a);
        next = s.next + 3;
      },
    )

-- `blconf_property && *blconf_property == '/'`, and the test of the other name
abbrev pub starts_with_slash : Text → Bool
starts_with_slash [] = false
starts_with_slash (c ∷ s) = c == slash

abbrev pub is_named : Text → Bool
is_named [] = false
is_named (c ∷ s) = true

abbrev pub bind_type : (GType → GType → Bool) → GType → Option GType → Option GType
bind_type transformable t none = none
bind_type transformable t (some u) = if transformable t u && transformable u t then some u else none

-- blconf_g_property_bind, given g_value_type_transformable and the type of the object's property, if it
-- has one of that name; 0 is no id
unfoldable pub bind :
    (GType → GType → Bool) → ℕ → Text → GType → ℕ → Text → Option GType → Bindings → ℕ × Bindings
unfolding property_init
bind transformable channel blconf_property t object object_property pspec s =
    if starts_with_slash blconf_property
      && (not (same_type t empty) && (not (same_type t invalid) && is_named object_property))
    then elim (bind_type transformable t pspec) [
      | none ↦ (0, s)
      | some u ↦
          property_init channel blconf_property (of_type t) object object_property (of_type u) s
    ]
    else (0, s)

-- the search of blconf_g_property_unbind; a binding in the list is allocated
unfoldable pub find_binding : (Binding → Bool) → (ℕ → Option Binding) → List ℕ → Option Binding
find_binding test at [] = none
find_binding test at (a ∷ bindings) = elim (at a) [
  | none ↦ none
  | some b ↦ elim (test b) [ true ↦ some b | false ↦ find_binding test at bindings ]
]

abbrev pub unbind_found : Option Binding → Bindings → Option Bindings
unbind_found none s = some s
unbind_found (some b) s = signal_handler_disconnect at_object b.object_handler s

-- blconf_g_property_unbind
unfoldable pub unbind : ℕ → Bindings → Option Bindings
unfolding find_binding signal_handler_disconnect
unbind id s = unbind_found (find_binding (λ b. b.channel_handler == id) s.at s.bindings) s

abbrev pub is_same : ℕ → Option ℕ → Bool
is_same m none = false
is_same m (some n) = m == n

-- blconf_g_property_unbind_by_property
unfoldable pub unbind_by_property : ℕ → Text → ℕ → Text → Bindings → Option Bindings
unfolding find_binding signal_handler_disconnect
unbind_by_property channel blconf_property object object_property s =
    if starts_with_slash blconf_property && is_named object_property
    then unbind_found
        (find_binding
          (λ b.
            (is_same object b.object && is_same channel b.channel)
            && (str_eq blconf_property b.blconf_property
                && str_eq object_property b.object_property))
          s.at s.bindings)
        s
    else some s

-- the loop of _blconf_g_bindings_shutdown
unfoldable pub disconnect_each : List ℕ → Bindings → Option Bindings
unfolding signal_handler_disconnect
disconnect_each [] s = some s
disconnect_each (a ∷ bindings) s = elim (s.at a) [
  | none ↦ none
  | some b ↦ elim (signal_handler_disconnect at_object b.object_handler s) [
    | none ↦ none
    | some s' ↦ disconnect_each bindings s'
  ]
]

-- _blconf_g_bindings_shutdown
unfoldable pub shutdown : Bindings → Option Bindings
unfolding disconnect_each
shutdown s = disconnect_each s.bindings (record s { bindings = [] })
