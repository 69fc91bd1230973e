-- ===== src/Daemon/Start.antt =====
-- blconf_daemon_load_config and blconf_daemon_emit_property_changed_idled of blconfd/blconf-daemon.c, with
-- blconf_backend_factory_get_backend of blconfd/blconf-backend-factory.c.
use blconf.Base.{
  ◌≡◌, refl, sym, ap, ◌∙◌, ◌⊎◌, Bool, true, Option, none, some, List, [], ◌∷◌, ◌++◌, append_assoc,
  append-nil, Text, if◌then◌else◌,
}
use blconf.Backend.Error.{Result, ok, err, unknown, no_backend, write_failure}
use blconf.Backend.Dispatch.{Interface}
use blconf.Backend.Dispatch
use blconf.Tree.Visit.{Table, table_lookup}
use blconf.Perchannel.Channels.{State, Disk, init, open_or_create}
use blconf.Perchannel.{get_in}
use blconf.Perchannel.Class.{interface}
use blconf.Daemon.{Backend, with_data}

-- blconf_backend_perchannel_xml_initialize: the directory to save in. `path` is what
-- xfce_resource_save_location gives, NULL being `none`.
unfoldable pub initialize : (Text → Bool) → Option Text → Result Text
initialize is_dir none = err write_failure
initialize is_dir (some path) = if is_dir path then ok path else err write_failure

-- A class of backends: its interface, the data of a new object, and what initialize and
-- register_property_changed_func make of it.
pub record Class {ℓ} (S V : Type ℓ) : Type ℓ where
  pub iface : Interface S V
  pub new : S
  pub initialize : S → Result S
  pub register : S → S

-- The signals of the daemon.
pub data Signal {ℓ} (V : Type ℓ) : Type ℓ where
  property_changed : Text → Text → V → Signal V
  property_removed : Text → Text → Signal V

unfoldable pub reversed {ℓ} : {A : Type ℓ} → List A → List A → List A
reversed [] out = out
reversed (x ∷ xs) out = reversed xs (x ∷ out)

abbrev signal_of {ℓ} : {V : Type ℓ} → Text → Text → Result V → Signal V
signal_of channel property (ok v) = property_changed channel property v
signal_of channel property (err e) = property_removed channel property

module _ {ℓ} {S V : Type ℓ} where
  abbrev initialized : Class S V → Result S → Result (Backend S V)
  initialized c (ok s) = ok (record { iface = c.iface; data_of = s })
  initialized c (err e) = err e

  -- blconf_backend_factory_get_backend; the class stands beside the backend that is made of it
  unfoldable pub get_backend : Table (Class S V) → Text → Result (Class S V × Backend S V)
  get_backend types type = elim (table_lookup type types) [
    | none ↦ err unknown
    | some c ↦ elim (initialized c (c.initialize c.new)) [ err e ↦ err e | ok b ↦ ok (c, b) ]
  ]

  -- blconf_backend_register_property_changed_func
  abbrev pub registered : Class S V × Backend S V → Backend S V
  registered (c, b) = with_data b (c.register b.data_of)

  abbrev prepended : Result (Class S V × Backend S V) → List (Backend S V) → List (Backend S V)
  prepended (err e) backends = backends
  prepended (ok made) backends = registered made ∷ backends

  -- the loop of blconf_daemon_load_config
  unfoldable pub load_each : Table (Class S V) → List Text → List (Backend S V) → List (Backend S V)
  unfolding get_backend
  load_each types [] backends = backends
  load_each types (id ∷ ids) backends =
      load_each types ids (prepended (get_backend types id) backends)

  abbrev pub loaded : List (Backend S V) → Result (List (Backend S V))
  loaded [] = err no_backend
  loaded (b ∷ bs) = ok (b ∷ bs)

  -- blconf_daemon_load_config
  unfoldable pub load_config : Table (Class S V) → List Text → Result (List (Backend S V))
  unfolding load_each reversed
  load_config types ids = elim (load_each types ids []) [
    | [] ↦ err no_backend
    | b ∷ bs ↦ ok (reversed (b ∷ bs) [])
  ]

  -- blconf_daemon_emit_property_changed_idled
  unfoldable pub emit_property_changed_idled : Backend S V → Text → Text → Signal V × Backend S V
  emit_property_changed_idled b channel property =
      let (r, s) = Dispatch.get b.iface b.data_of channel property in
      (signal_of channel property r, with_data b s)

  -- The backends that can be started, in the order of their names.
  unfoldable pub started : Table (Class S V) → List Text → List (Backend S V)
  started types [] = []
  started types (id ∷ ids) = prepended (get_backend types id) (started types ids)

  reversed-append :
      (xs ys out : List (Backend S V)) → reversed xs (ys ++ out) ≡ reversed xs ys ++ out
  unfolding reversed
  reversed-append [] ys out = refl
  reversed-append (x ∷ xs) ys out = reversed-append xs (x ∷ ys) out

  prepended-append :
      (r : Result (Class S V × Backend S V)) (bs rest : List (Backend S V))
      → reversed (prepended r bs) [] ++ rest ≡ reversed bs [] ++ prepended r rest
  unfolding reversed
  prepended-append (err e) bs rest = refl
  prepended-append (ok made) bs rest =
      ap (λ xs. xs ++ rest) (reversed-append bs [] (registered made ∷ []))
      ∙ append_assoc (reversed bs []) (registered made ∷ []) rest

  load_each-reversed :
      (types : Table (Class S V)) (ids : List Text) (backends : List (Backend S V))
      → reversed (load_each types ids backends) [] ≡ reversed backends [] ++ started types ids
  unfolding load_each started
  load_each-reversed types [] backends = sym (append-nil _)
  load_each-reversed types (id ∷ ids) backends =
      load_each-reversed types ids (prepended (get_backend types id) backends)
      ∙ prepended-append (get_backend types id) backends (started types ids)

  loaded-reversed :
      (b : Backend S V) (rest out : List (Backend S V))
      → loaded (reversed rest (b ∷ out)) ≡ ok (reversed rest (b ∷ out))
  unfolding reversed
  loaded-reversed b [] out = refl
  loaded-reversed b (x ∷ rest) out = loaded-reversed x rest (b ∷ out)

  load_config-order :
      (bs : List (Backend S V)) (started' : List (Backend S V))
      → reversed bs [] ≡ started'
      → elim bs as (λ _. Result (List (Backend S V))) [
        | [] ↦ err no_backend
        | b ∷ rest ↦ ok (reversed (b ∷ rest) [])
      ]
        ≡ loaded started'
  unfolding reversed
  load_config-order [] started' e = ap loaded e
  load_config-order (b ∷ rest) started' e = sym (loaded-reversed b rest []) ∙ ap loaded e

  -- The daemon starts with a backend for each name that the factory can make one for, in the order of the
  -- names, so that the first of them is asked first; it fails exactly where there is none.
  pub load_config-started :
      (types : Table (Class S V)) (ids : List Text)
      → load_config types ids ≡ loaded (started types ids)
  unfolding load_config
  load_config-started types ids =
      load_config-order (load_each types ids []) (started types ids)
        (load_each-reversed types ids [] ∙ (unfold reversed in refl))

module _ {ℓ} {V : Type ℓ} where
  -- the per-channel backend in the table of classes: its data come from the init function, and
  -- blconf_backend_perchannel_xml_register_property_changed_func keeps the function
  abbrev pub perchannel_class :
      (V → V → Bool)
      → Disk V
      → List (Option (List Text))
      → (Text → Bool)
      → Option Text
      → Class (State V) V
  perchannel_class equal disk dirs is_dir path = record {
    iface = interface equal disk dirs;
    new = init;
    initialize = λ st. elim (initialize is_dir path) [ ok saved ↦ ok st | err e ↦ err e ];
    register = λ st. record st { listening = true };
  }

  -- What a set that succeeded leaves for the daemon to announce: one more notification, of the property; or
  -- no more than before, where the channel has an equal value already.
  abbrev pub Announced :
      (V → V → Bool) → Disk V → State V → Text → Text → V → List (Text × Text) → Type ℓ
  Announced equal disk st name property v notified =
      (notified ≡ st.notified ++ (name, property) ∷ [])
      ⊎ ((notified ≡ st.notified)
          × ((w : V) × (get_in property (ok (open_or_create disk st name).0) ≡ ok w)
              × (equal w v ≡ true)))
