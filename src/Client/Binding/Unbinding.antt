-- ===== src/Client/Binding/Unbinding.antt =====
-- The end of a binding of blconf/blconf-binding.c.
use mathlib.Core.Path.{fun_ext}
use blconf.Base.{ℕ, ◌≡◌, refl, inl, inr, Bool-cases, Option, none, some, ==_refl, ◌==◌}
use blconf.Client.Binding.{
  Binding, Bindings, update, remove, free, Side, at_object, at_channel, disconnected,
  signal_handler_disconnect,
}

module _ {ℓ} {A : Type ℓ} where
  pub update-same : (f : ℕ → Option A) (k : ℕ) (v : Option A) → update f k v k ≡ v
  unfolding update
  update-same f k v = rw (==_refl k) refl

  pub update-update :
      (f : ℕ → Option A) (k : ℕ) (v w : Option A) → update (update f k v) k w ≡ update f k w
  unfolding update
  update-update f k v w =
      fun_ext (λ j. elim (Bool-cases (j == k)) [ inl e ↦ rw e refl | inr e ↦ rw e refl ])

-- A binding that is whole: both of its handlers are connected, and theirs is its data.
pub record IsWhole (s : Bindings) (a : ℕ) (b : Binding) : Type 0 where
  pub stored : s.at a ≡ some b
  pub has_channel : (c : ℕ) × (b.channel ≡ some c)
  pub has_object : (o : ℕ) × (b.object ≡ some o)
  pub on_object : s.object_handlers b.object_handler ≡ some a
  pub on_channel : s.channel_handlers b.channel_handler ≡ some a

-- A state without the binding.
abbrev pub cleared : ℕ → Binding → Bindings → Bindings
cleared a b s = record s {
  at = update s.at a none;
  bindings = remove a s.bindings;
  object_handlers = update s.object_handlers b.object_handler none;
  channel_handlers = update s.channel_handlers b.channel_handler none;
}

abbrev pub handler_of : Side → Binding → ℕ
handler_of at_object b = b.object_handler
handler_of at_channel b = b.channel_handler

-- Whichever of its two handlers is disconnected first, from outside or with the channel or the object, the two
-- closures end, no freed binding is used or freed again, and nothing of the binding is left.
pub disconnect-cleared :
    (side : Side) (s : Bindings) (a : ℕ) (b : Binding)
    → IsWhole s a b
    → signal_handler_disconnect side (handler_of side b) s ≡ some (cleared a b s)
unfolding signal_handler_disconnect disconnected free
disconnect-cleared at_object s a b whole =
    let (c, ec) = whole.has_channel in
    let (o, eo) = whole.has_object in
    let b1 : Binding = record b { object = none } in
    let b2 : Binding = record b1 { channel = none } in
    rw
      (
        signal_handler_disconnect,
        whole.on_object,
        disconnected,
        whole.stored,
        eo,
        ec,
        whole.on_channel,
        update-same s.at a (some b1),
        ec,
        free,
        update-same (update s.at a (some b1)) a (some b2),
        update-update (update s.at a (some b1)) a (some b2) none,
        update-update s.at a (some b1) none,
      )
      refl
disconnect-cleared at_channel s a b whole =
    let (c, ec) = whole.has_channel in
    let (o, eo) = whole.has_object in
    let b1 : Binding = record b { channel = none } in
    let b2 : Binding = record b1 { object = none } in
    rw
      (
        signal_handler_disconnect,
        whole.on_channel,
        disconnected,
        whole.stored,
        ec,
        eo,
        whole.on_object,
        update-same s.at a (some b1),
        eo,
        free,
        update-same (update s.at a (some b1)) a (some b2),
        update-update (update s.at a (some b1)) a (some b2) none,
        update-update s.at a (some b1) none,
      )
      refl
