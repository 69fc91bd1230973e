-- ===== src/Client/Binding/Reach.antt =====
-- The states that the bindings of blconf/blconf-binding.c reach.
use blconf.Base.{ℕ, ◌≡◌, refl, subst, inl, inr, Option-cases, none, some, [], Text}
use blconf.Client.Binding.{
  BoundType, Binding, Bindings, update, Side, at_object, at_channel, signal_handler_disconnect,
  handler, property_init,
}
use blconf.Client.Binding.Unbinding.{cleared, update-same, handler_of, disconnect-cleared}
use blconf.Client.Binding.Listed.{IsList, ended-IsList}
use blconf.Client.Binding.Orderly.{IsOrderly, cleared-IsOrderly, property_init-IsOrderly}

-- A state at the start, with a binding more, and with a handler less: blconf_g_property_unbind and
-- blconf_g_property_unbind_by_property disconnect a handler of an object, blconf_g_property_unbind_all and
-- the end of a channel or an object each of theirs.
abbrev pub none_bound : Bindings
none_bound = record {
  at = λ a. none;
  bindings = [];
  object_handlers = λ h. none;
  channel_handlers = λ h. none;
  next = 1;
}

pub data Reach : Bindings → Type 0 where
  start : Reach none_bound
  bound :
      {s : Bindings} (channel : ℕ) (p : Text) (t : BoundType) (object : ℕ) (q : Text)
      (u : BoundType)
      → Reach s
      → Reach (property_init channel p t object q u s).1
  cut :
      {s s' : Bindings} (side : Side) (h : ℕ)
      → Reach s
      → signal_handler_disconnect side h s ≡ some s'
      → Reach s'

none_bound-IsOrderly : IsOrderly none_bound
none_bound-IsOrderly = record {
  whole = λ a b e. absurd (cc e);
  object_data = λ h a e. absurd (cc e);
  channel_data = λ h a e. absurd (cc e);
  fresh = λ n l. (refl, refl, refl);
}

-- the state that a disconnected handler leaves
unfoldable pub Ended : Side → ℕ → Bindings → Type 0
Ended side h s =
    (s' : Bindings) × ((signal_handler_disconnect side h s ≡ some s')
      × (handler side h s' ≡ none)
      × IsOrderly s'
      × (IsList s.at s.bindings → IsList s'.at s'.bindings))

owned-Ended :
    (side : Side) (h a : ℕ) (b : Binding) (s : Bindings)
    → IsOrderly s
    → s.at a ≡ some b
    → handler_of side b ≡ h
    → Ended side h s
unfolding Ended
owned-Ended at_object h a b s o e same = (
  cleared a b s,
  (
    subst (λ i. signal_handler_disconnect at_object i s ≡ some (cleared a b s)) same
        (disconnect-cleared at_object s a b (o.whole a b e)),
    subst (λ i. update s.object_handlers b.object_handler none i ≡ none) same
        (update-same s.object_handlers b.object_handler none),
    cleared-IsOrderly s a b e o,
    ended-IsList s.at s.bindings a,
  ),
)
owned-Ended at_channel h a b s o e same = (
  cleared a b s,
  (
    subst (λ i. signal_handler_disconnect at_channel i s ≡ some (cleared a b s)) same
        (disconnect-cleared at_channel s a b (o.whole a b e)),
    subst (λ i. update s.channel_handlers b.channel_handler none i ≡ none) same
        (update-same s.channel_handlers b.channel_handler none),
    cleared-IsOrderly s a b e o,
    ended-IsList s.at s.bindings a,
  ),
)

unowned-Ended :
    (side : Side) (h : ℕ) (s : Bindings) → IsOrderly s → handler side h s ≡ none → Ended side h s
unfolding Ended signal_handler_disconnect
unowned-Ended side h s o e = (s, (rw (signal_handler_disconnect, e) refl, e, o, λ l. l))

pub disconnect-Ended : (side : Side) (h : ℕ) (s : Bindings) → IsOrderly s → Ended side h s
disconnect-Ended at_object h s o = elim (Option-cases (s.object_handlers h)) [
  | inl e ↦ unowned-Ended at_object h s o e
  | inr (a, e) ↦
      let (b, (stored, same)) = o.object_data h a e in owned-Ended at_object h a b s o stored same
]
disconnect-Ended at_channel h s o = elim (Option-cases (s.channel_handlers h)) [
  | inl e ↦ unowned-Ended at_channel h s o e
  | inr (a, e) ↦
      let (b, (stored, same)) = o.channel_data h a e in owned-Ended at_channel h a b s o stored same
]

-- In every state that is reached each binding has both of its handlers, each handler is one of a binding, and
-- no address or handler is in use that is still to be given.
pub Reach-IsOrderly : (s : Bindings) → Reach s → IsOrderly s
unfolding Ended
Reach-IsOrderly s start = none_bound-IsOrderly
Reach-IsOrderly s (bound {s = s0} channel p t object q u r) =
    property_init-IsOrderly channel p t object q u s0 (Reach-IsOrderly s0 r)
Reach-IsOrderly s (cut {s = s0} side h r e) =
    let (s1, (result, off, orderly, listed)) = disconnect-Ended side h s0 (Reach-IsOrderly s0 r) in
    let same : s1 ≡ s = cc (result, e) in subst IsOrderly same orderly

-- In every state that is reached, to disconnect a handler of either side ends: the two closures, which call each
-- other, stop by themselves, use no binding that is freed and free none twice, and the handler is gone.
pub Reach-signal_handler_disconnect :
    (s : Bindings) (side : Side) (h : ℕ)
    → Reach s
    → (s' : Bindings) × ((signal_handler_disconnect side h s ≡ some s')
        × (handler side h s' ≡ none))
unfolding Ended
Reach-signal_handler_disconnect s side h r =
    let (s', (result, off, orderly, listed)) = disconnect-Ended side h s (Reach-IsOrderly s r) in
    (s', (result, off))
