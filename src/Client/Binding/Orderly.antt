-- ===== src/Client/Binding/Orderly.antt =====
-- The bindings of blconf/blconf-binding.c and their handlers, with one begun and with one ended.
use blconf.Base.{
  ℕ, ◌≡◌, refl, ap, ◌∙◌, sym, subst, ◌⊎◌, false, inl, inr, Bool-cases, Option, none, some, ==_iff,
  ◌==◌, arith, Text, ◌+◌, ◌≤◌, ◌<◌,
}
use blconf.Client.Binding.{BoundType, Binding, Bindings, update, property_init}
use blconf.Client.Binding.Unbinding.{IsWhole, cleared, update-same}

module _ {ℓ} {A : Type ℓ} where
  pub update-cases :
      (f : ℕ → Option A) (k j : ℕ) (v : Option A) (x : A)
      → update f k v j ≡ some x
      → ((j ≡ k) × (v ≡ some x)) ⊎ (((j == k) ≡ false) × (f j ≡ some x))
  unfolding update
  update-cases f k j v x e = elim (Bool-cases (j == k)) [
    | inl m ↦ inl ((==_iff j k).0 m, ground (arith, m, e))
    | inr m ↦ inr (m, ground (arith, m, e))
  ]

  pub update-other :
      (f : ℕ → Option A) (k j : ℕ) (v : Option A) → (j == k) ≡ false → update f k v j ≡ f j
  unfolding update
  update-other f k j v m = rw m refl

-- Every binding is whole, every handler is one of a binding that is allocated, and the next number is new.
pub record IsOrderly (s : Bindings) : Type 0 where
  pub whole : (a : ℕ) (b : Binding) → s.at a ≡ some b → IsWhole s a b
  pub object_data :
      (h a : ℕ)
      → s.object_handlers h ≡ some a
      → (b : Binding) × ((s.at a ≡ some b) × (b.object_handler ≡ h))
  pub channel_data :
      (h a : ℕ)
      → s.channel_handlers h ≡ some a
      → (b : Binding) × ((s.at a ≡ some b) × (b.channel_handler ≡ h))
  pub fresh :
      (n : ℕ)
      → s.next ≤ n
      → (s.at n ≡ none) × (s.object_handlers n ≡ none) × (s.channel_handlers n ≡ none)

some-apart :
    {A : Type 0} (j k : ℕ) (f : ℕ → Option A) (x : A) → f j ≡ some x → f k ≡ none → (j == k) ≡ false
some-apart j k f x e n = elim (Bool-cases (j == k)) [
  | inr m ↦ m
  | inl m ↦
      let same : f k ≡ some x = subst (λ i. f i ≡ some x) ((==_iff j k).0 m) e in
      absurd (cc (same, n))
]

owner-apart :
    (f : ℕ → Option ℕ) (h k a c : ℕ)
    → f h ≡ some a
    → f k ≡ some c
    → (a == c) ≡ false
    → (h == k) ≡ false
owner-apart f h k a c e d m = elim (Bool-cases (h == k)) [
  | inr n ↦ n
  | inl n ↦
      let same : f k ≡ some a = subst (λ i. f i ≡ some a) ((==_iff h k).0 n) e in
      let same' : a ≡ c = cc (same, d) in absurd (ground (arith, same', m))
]

-- the data of the handlers of one side, with a binding ended and with one begun
Data : (Binding → ℕ) → (ℕ → Option ℕ) → (ℕ → Option Binding) → Type 0
Data side f at = (h a : ℕ) → f h ≡ some a → (b : Binding) × ((at a ≡ some b) × (side b ≡ h))

module _ (side : Binding → ℕ) (f : ℕ → Option ℕ) (at : ℕ → Option Binding) (a : ℕ)
    (b : Binding) where
  Data-ended :
      at a ≡ some b → Data side f at → Data side (update f (side b) none) (update at a none)
  unfolding Data
  Data-ended e theirs h c x = elim (update-cases f (side b) h none c x) [
    | inl (y, z) ↦ absurd (cc z)
    | inr (m, z) ↦
        let (d, (stored, same)) = theirs h c z in
        elim (Bool-cases (c == a)) [
          | inr n ↦ (d, (update-other at a c none n ∙ stored, same))
          | inl n ↦
              let again : at a ≡ some d = subst (λ i. at i ≡ some d) ((==_iff c a).0 n) stored in
              let one : d ≡ b = cc (again, e) in absurd (ground (arith, m, sym same ∙ ap side one))
        ]
  ]

  Data-begun :
      (h0 : ℕ)
      → side b ≡ h0
      → at a ≡ none
      → Data side f at
      → Data side (update f h0 (some a)) (update at a (some b))
  unfolding Data
  Data-begun h0 mine new theirs h c x = elim (update-cases f h0 h (some a) c x) [
    | inl (y, z) ↦
        let own : a ≡ c = cc z in
        (
          b,
          (
            subst (λ i. update at a (some b) i ≡ some b) own (update-same at a (some b)),
            mine ∙ sym y,
          ),
        )
    | inr (m, z) ↦
        let (d, (stored, same)) = theirs h c z in
        (d, (update-other at a c (some b) (some-apart c a at d stored new) ∙ stored, same))
  ]

update-none : {A : Type 0} (f : ℕ → Option A) (k n : ℕ) → f n ≡ none → update f k none n ≡ none
unfolding update
update-none f k n e = elim (Bool-cases (n == k)) [ inl m ↦ rw m refl | inr m ↦ rw m e ]

update-apart :
    {A : Type 0} (f : ℕ → Option A) (k n : ℕ) (v : Option A)
    → k < n
    → f n ≡ none
    → update f k v n ≡ none
update-apart f k n v l e = update-other f k n v (ground (arith, l)) ∙ e

-- a binding that ends leaves the others whole
pub cleared-IsOrderly :
    (s : Bindings) (a : ℕ) (b : Binding) → s.at a ≡ some b → IsOrderly s → IsOrderly (cleared a b s)
unfolding Data
cleared-IsOrderly s a b e o =
    let wb = o.whole a b e in
    record {
      whole = λ c d x. elim (update-cases s.at a c none d x) [
        | inl (y, z) ↦ absurd (cc z)
        | inr (m, z) ↦
            let w = o.whole c d z in
            record {
              stored = x;
              has_channel = w.has_channel;
              has_object = w.has_object;
              on_object =
                  update-other s.object_handlers b.object_handler d.object_handler none (
                    owner-apart s.object_handlers d.object_handler b.object_handler c a w.on_object
                      wb.on_object m)
                  ∙ w.on_object;
              on_channel =
                  update-other s.channel_handlers b.channel_handler d.channel_handler none (
                    owner-apart s.channel_handlers d.channel_handler b.channel_handler c a
                      w.on_channel wb.on_channel m)
                  ∙ w.on_channel;
            }
      ];
      object_data = Data-ended (λ d. d.object_handler) s.object_handlers s.at a b e o.object_data;
      channel_data =
          Data-ended (λ d. d.channel_handler) s.channel_handlers s.at a b e o.channel_data;
      fresh = λ n l.
          let (x, y, z) = o.fresh n l in
          (
            update-none s.at a n x,
            update-none s.object_handlers b.object_handler n y,
            update-none s.channel_handlers b.channel_handler n z,
          );
    }

-- a new one is whole, and leaves the others so
pub property_init-IsOrderly :
    (channel : ℕ) (p : Text) (t : BoundType) (object : ℕ) (q : Text) (u : BoundType) (s : Bindings)
    → IsOrderly s
    → IsOrderly (property_init channel p t object q u s).1
unfolding property_init Data
property_init-IsOrderly channel p t object q u s o =
    let a = s.next in
    let h = s.next + 1 in
    let k = s.next + 2 in
    let b : Binding = record {
      channel = some channel;
      blconf_property = p;
      blconf_property_type = t;
      channel_handler = k;
      object = some object;
      object_property = q;
      object_property_type = u;
      object_handler = h;
    } in
    let s' = (property_init channel p t object q u s).1 in
    let new : IsWhole s' a b = record {
      stored = update-same s.at a (some b);
      has_channel = (channel, refl);
      has_object = (object, refl);
      on_object = update-same s.object_handlers h (some a);
      on_channel = update-same s.channel_handlers k (some a);
    } in
    let no_binding : s.at a ≡ none = (o.fresh a (omega arith)).0 in
    let no_object : s.object_handlers h ≡ none = (o.fresh h (omega arith)).1 in
    let no_channel : s.channel_handlers k ≡ none = (o.fresh k (omega arith)).2 in
    record {
      whole = λ c d x. elim (update-cases s.at a c (some b) d x) [
        | inl (y, z) ↦
            let same : b ≡ d = cc z in
            subst (λ i. IsWhole s' i d) (sym y) (subst (λ r. IsWhole s' a r) same new)
        | inr (m, z) ↦
            let w = o.whole c d z in
            record {
              stored = x;
              has_channel = w.has_channel;
              has_object = w.has_object;
              on_object =
                  update-other s.object_handlers h d.object_handler (some a)
                    (some-apart d.object_handler h s.object_handlers c w.on_object no_object)
                  ∙ w.on_object;
              on_channel =
                  update-other s.channel_handlers k d.channel_handler (some a)
                    (some-apart d.channel_handler k s.channel_handlers c w.on_channel no_channel)
                  ∙ w.on_channel;
            }
      ];
      object_data =
          Data-begun (λ d. d.object_handler) s.object_handlers s.at a b h refl no_binding
            o.object_data;
      channel_data =
          Data-begun (λ d. d.channel_handler) s.channel_handlers s.at a b k refl no_binding
            o.channel_data;
      fresh = λ n l.
          let (x, y, z) = o.fresh n (omega (arith, l)) in
          (
            update-apart s.at a n (some b) (omega (arith, l)) x,
            update-apart s.object_handlers h n (some a) (omega (arith, l)) y,
            update-apart s.channel_handlers k n (some a) (omega (arith, l)) z,
          );
    }
