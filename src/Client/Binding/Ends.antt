-- ===== src/Client/Binding/Ends.antt =====
-- _blconf_g_bindings_shutdown of blconf/blconf-binding.c.
use blconf.Base.{
  ℕ, ◌≡◌, refl, ◌∙◌, subst, inl, inr, Bool-cases, Option-cases, none, some, List, [], ◌∷◌, ==_iff,
  ◌==◌, arith,
}
use blconf.Client.Binding.{Binding, Bindings, at_object, property_init, disconnect_each, shutdown}
use blconf.Client.Binding.Unbinding.{cleared, disconnect-cleared}
use blconf.Client.Binding.Orderly.{IsOrderly, cleared-IsOrderly, update-cases, update-other}
use blconf.Client.Binding.Listed.{In, IsDistinct, IsList, begun-IsList}
use blconf.Client.Binding.Reach.{Reach, start, bound, cut, Ended, disconnect-Ended, Reach-IsOrderly}

-- Nothing is left of any binding.
pub record IsBare (s : Bindings) : Type 0 where
  pub no_binding : (a : ℕ) → s.at a ≡ none
  pub no_object_handler : (h : ℕ) → s.object_handlers h ≡ none
  pub no_channel_handler : (h : ℕ) → s.channel_handlers h ≡ none

-- the allocated bindings are among some that are left to do
record IsTodo (s : Bindings) (todo : List ℕ) : Type 0 where
  pub each : (a : ℕ) (b : Binding) → s.at a ≡ some b → In a todo
  pub allocated : (a : ℕ) → In a todo → (b : Binding) × (s.at a ≡ some b)
  pub distinct : IsDistinct todo

orderly-IsBare : (s : Bindings) → IsOrderly s → IsTodo s [] → IsBare s
orderly-IsBare s o t =
    let empty : (a : ℕ) → s.at a ≡ none =
      λ a. elim (Option-cases (s.at a)) [ inl e ↦ e | inr (b, e) ↦ absurd (t.each a b e) ] in
    record {
      no_binding = empty;
      no_object_handler = λ h. elim (Option-cases (s.object_handlers h)) [
        | inl e ↦ e
        | inr (a, e) ↦ let (b, (x, y)) = o.object_data h a e in absurd (cc (x, empty a))
      ];
      no_channel_handler = λ h. elim (Option-cases (s.channel_handlers h)) [
        | inl e ↦ e
        | inr (a, e) ↦ let (b, (x, y)) = o.channel_data h a e in absurd (cc (x, empty a))
      ];
    }

next-IsTodo :
    (s : Bindings) (a : ℕ) (b : Binding) (todo : List ℕ)
    → IsTodo s (a ∷ todo)
    → IsTodo (cleared a b s) todo
next-IsTodo s a b todo t = record {
  each = λ c d x. elim (update-cases s.at a c none d x) [
    | inl (y, z) ↦ absurd (cc z)
    | inr (m, z) ↦ elim (t.each c d z) [
      | inl same ↦ absurd (ground (arith, same, m))
      | inr later ↦ later
    ]
  ];
  allocated = λ c i. elim (Bool-cases (c == a)) [
    | inl e ↦ absurd (t.distinct.0 (subst (λ k. In k todo) ((==_iff c a).0 e) i))
    | inr m ↦ let (d, x) = t.allocated c (inr i) in (d, update-other s.at a c none m ∙ x)
  ];
  distinct = t.distinct.1;
}

each-IsBare :
    (todo : List ℕ) (s : Bindings)
    → IsOrderly s
    → IsTodo s todo
    → (s' : Bindings) × ((disconnect_each todo s ≡ some s') × IsBare s')
unfolding disconnect_each
each-IsBare [] s o t = (s, (refl, orderly-IsBare s o t))
each-IsBare (a ∷ todo) s o t =
    let (b, stored) = t.allocated a (inl refl) in
    let (s', (done, bare)) =
      each-IsBare todo (cleared a b s) (cleared-IsOrderly s a b stored o)
        (next-IsTodo s a b todo t) in
    (
      s',
      (
        rw (disconnect_each, stored, disconnect-cleared at_object s a b (o.whole a b stored)) done,
        bare,
      ),
    )

no_list-IsOrderly : (s : Bindings) → IsOrderly s → IsOrderly (record s { bindings = [] })
no_list-IsOrderly s o = record {
  whole = λ a b e.
      let w = o.whole a b e in
      record {
        stored = w.stored;
        has_channel = w.has_channel;
        has_object = w.has_object;
        on_object = w.on_object;
        on_channel = w.on_channel;
      };
  object_data = o.object_data;
  channel_data = o.channel_data;
  fresh = o.fresh;
}

pub Reach-IsList : (s : Bindings) → Reach s → IsList s.at s.bindings
unfolding property_init Ended
Reach-IsList s start = record {
  each = λ a b e. absurd (cc e);
  allocated = λ a i. absurd i;
  distinct = tt;
}
Reach-IsList s (bound {s = s0} channel p t object q u r) =
    begun-IsList s0.at s0.bindings s0.next _ ((Reach-IsOrderly s0 r).fresh s0.next (omega arith)).0
      (Reach-IsList s0 r)
Reach-IsList s (cut {s = s0} side h r e) =
    let (s1, (result, off, orderly, listed)) = disconnect-Ended side h s0 (Reach-IsOrderly s0 r) in
    let same : s1 ≡ s = cc (result, e) in
    subst (λ x. IsList x.at x.bindings) same (listed (Reach-IsList s0 r))

-- At the end of the library, in every state that is reached, each binding is freed, once, and no handler is left
-- that is connected.
pub Reach-shutdown :
    (s : Bindings) → Reach s → (s' : Bindings) × ((shutdown s ≡ some s') × IsBare s')
unfolding shutdown
Reach-shutdown s r =
    let l = Reach-IsList s r in
    each-IsBare s.bindings (record s { bindings = [] }) (no_list-IsOrderly s (Reach-IsOrderly s r))
      (record { each = l.each; allocated = l.allocated; distinct = l.distinct })
