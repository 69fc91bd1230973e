-- ===== src/Client/Binding/Search.antt =====
-- blconf_g_property_unbind of blconf/blconf-binding.c: the search for a binding, and its end.
use blconf.Base.{
  ℕ, ◌≡◌, refl, sym, ◌∙◌, subst, ◌⊎◌, Bool, true, false, inl, inr, Bool-cases, Option, none, some,
  List, [], ◌∷◌, ==_iff, ◌==◌, arith,
}
use blconf.Client.Binding.{Binding, Bindings, at_object, find_binding, unbind}
use blconf.Client.Binding.Unbinding.{cleared, disconnect-cleared}
use blconf.Client.Binding.Orderly.{update-cases}
use blconf.Client.Binding.Listed.{In}
use blconf.Client.Binding.Ends.{Reach-IsList}
use blconf.Client.Binding.Reach.{Reach, Reach-IsOrderly}

-- A search that found a binding, and one that found none.
Searched : (Binding → Bool) → (ℕ → Option Binding) → List ℕ → Type 0
Searched test at bindings =
    ((a : ℕ) × (b : Binding) × ((find_binding test at bindings ≡ some b)
        × (at a ≡ some b)
        × (test b ≡ true)))
    ⊎ ((find_binding test at bindings ≡ none)
        × ((a : ℕ) (b : Binding) → In a bindings → at a ≡ some b → test b ≡ false))

find_binding-Searched :
    (test : Binding → Bool) (at : ℕ → Option Binding) (bindings : List ℕ)
    → ((a : ℕ) → In a bindings → (b : Binding) × (at a ≡ some b))
    → Searched test at bindings
unfolding find_binding Searched
find_binding-Searched test at [] all = inr (refl, λ a b i e. absurd i)
find_binding-Searched test at (a ∷ bindings) all =
    let (b, e) = all a (inl refl) in
    elim (Bool-cases (test b)) [
      | inl t ↦ inl (a, b, (rw (find_binding, e, t) refl, e, t))
      | inr t ↦ elim (find_binding-Searched test at bindings (λ c i. all c (inr i))) [
        | inl (c, d, (found, x, y)) ↦ inl (c, d, (rw (find_binding, e, t) found, x, y))
        | inr (missed, rest) ↦ inr (
          rw (find_binding, e, t) missed,
          λ c d i x. elim i [
            | inl same ↦
                let own : at a ≡ some d = subst (λ k. at k ≡ some d) (sym same) x in
                let one : b ≡ d = cc (own, e) in subst (λ k. test k ≡ false) one t
            | inr later ↦ rest c d later x
          ],
        )
      ]
    ]

-- the handlers of two bindings
id-apart :
    (s : Bindings) (id a c : ℕ) (b d : Binding)
    → s.channel_handlers b.channel_handler ≡ some a
    → (b.channel_handler == id) ≡ true
    → s.channel_handlers d.channel_handler ≡ some c
    → (c == a) ≡ false
    → (d.channel_handler == id) ≡ false
id-apart s id a c b d x mine y m = elim (Bool-cases (d.channel_handler == id)) [
  | inr k ↦ k
  | inl k ↦
      let same : b.channel_handler ≡ d.channel_handler =
        (==_iff b.channel_handler id).0 mine ∙ sym ((==_iff d.channel_handler id).0 k) in
      let own : s.channel_handlers d.channel_handler ≡ some a =
        subst (λ h. s.channel_handlers h ≡ some a) same x in
      let one : c ≡ a = cc (own, y) in absurd (ground (arith, one, m))
]

-- In every state that is reached, to unbind an id has a result, in which no binding has the id.
pub Reach-unbind :
    (s : Bindings) (id : ℕ)
    → Reach s
    → (s' : Bindings) × ((unbind id s ≡ some s')
        × ((a : ℕ) (b : Binding) → s'.at a ≡ some b → (b.channel_handler == id) ≡ false))
unfolding unbind Searched
Reach-unbind s id r =
    let o = Reach-IsOrderly s r in
    let l = Reach-IsList s r in
    elim (find_binding-Searched (λ b. b.channel_handler == id) s.at s.bindings l.allocated) [
      | inr (missed, rest) ↦ (s, (rw (unbind, missed) refl, λ a b e. rest a b (l.each a b e) e))
      | inl (a, b, (found, stored, mine)) ↦ (
        cleared a b s,
        (
          rw (unbind, found) (disconnect-cleared at_object s a b (o.whole a b stored)),
          λ c d e. elim (update-cases s.at a c none d e) [
            | inl (y, z) ↦ absurd (cc z)
            | inr (m, z) ↦
                id-apart s id a c b d (o.whole a b stored).on_channel mine
                  (o.whole c d z).on_channel m
          ],
        ),
      )
    ]
