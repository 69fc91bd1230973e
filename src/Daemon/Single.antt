-- ===== src/Daemon/Single.antt =====
-- The daemon of blconfd/blconf-daemon.c over the one backend that it has by default, the one of
-- blconfd/blconf-backend-perchannel-xml.c.
use blconf.Base.{◌≡◌, refl, ap, subst, ◌⊎◌, Bool, true, Option, List, [], ◌∷◌, Text, arith}
use blconf.Backend.Error.{Result, ok, err}
use blconf.Backend.Dispatch.{checked_names, after}
use blconf.Backend.Dispatch
use blconf.Tree.Names.{rjoin}
use blconf.Perchannel
use blconf.Perchannel.Channels.{State, Disk, strdown}
use blconf.Perchannel.Class.{interface}
use blconf.Perchannel.Access.{IsPath, get-set_self}
use blconf.Daemon.{Backend, get_property, set_property}

module _ {ℓ} {V : Type ℓ} where
  abbrev pub perchannel :
      (V → V → Bool) → Disk V → List (Option (List Text)) → State V → Backend (State V) V
  perchannel equal disk dirs st = record { iface = interface equal disk dirs; data_of = st }

  -- a call that succeeds has passed the checks before it
  passed :
      (c : Result (Unit {0})) (call : State V → Result (Unit {0}) × State V) (st : State V)
      → (after c call st).0 ≡ ok tt
      → (c ≡ ok tt) × (after c call st ≡ call st)
  passed (ok u) call st h = (refl, refl)
  passed (err e) call st h = absurd (ground (arith, h))

  -- a call that succeeds has set the property in the backend
  pub set_property-set :
      (equal : V → V → Bool) (disk : Disk V) (dirs : List (Option (List Text))) (st : State V)
      (name property : Text) (v : V) (b : Backend (State V) V)
      → set_property (perchannel equal disk dirs st) [] name property v ≡ (ok tt, b ∷ [])
      → ((Perchannel.set equal disk st name property v).0 ≡ ok tt)
        × ((Perchannel.set equal disk st name property v).1 ≡ b.data_of)
  unfolding set_property interface Dispatch.set
  set_property-set equal disk dirs st name property v b done =
      let call : State V → Result (Unit {0}) × State V =
        λ s. Perchannel.set equal disk s name property v in
      let (e, ran) = passed (checked_names name property) call st (ap (λ x. x.0) done) in
      let same : perchannel equal disk dirs (call st).1 ≡ b = cc (ran, done) in
      (cc (ran, done), ap (λ (x : Backend (State V) V). x.data_of) same)

  -- `SetProperty` over D-Bus, and then `GetProperty` of the same property, with the per-channel backend
  -- alone: the property's name having components that are not empty and fitting the buffer, and the
  -- channel's name being in lower case, the answer
  -- is the value that was set or one that the backend calls equal to it.
  pub get_property-set_property :
      (equal : V → V → Bool) (disk : Disk V) (dirs : List (Option (List Text))) (st : State V)
      (name p : Text) (rs : List Text) (v : V) (b : Backend (State V) V)
      → strdown name ≡ name
      → IsPath p rs
      → set_property (perchannel equal disk dirs st) [] name (rjoin (p ∷ rs)) v ≡ (ok tt, b ∷ [])
      → (w : V) × ((get_property b [] name (rjoin (p ∷ rs))).0 ≡ ok w)
        × ((w ≡ v) ⊎ (equal w v ≡ true))
  unfolding set_property get_property interface Dispatch.set Dispatch.get
  get_property-set_property equal disk dirs st name p rs v b low path done =
      let name' = rjoin (p ∷ rs) in
      let call : State V → Result (Unit {0}) × State V =
        λ s. Perchannel.set equal disk s name name' v in
      let (e, ran) = passed (checked_names name name') call st (ap (λ x. x.0) done) in
      let good : (call st).0 ≡ ok tt = cc (ran, done) in
      let same : perchannel equal disk dirs (call st).1 ≡ b = cc (ran, done) in
      subst
        (λ (x : Backend (State V) V).
          (w : V) × ((get_property x [] name name').0 ≡ ok w) × ((w ≡ v) ⊎ (equal w v ≡ true)))
        same (rw e (get-set_self equal disk st name p rs v low path good))
