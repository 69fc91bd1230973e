-- ===== src/Client/Cache/Linked.antt =====
-- The two tables of blconf/blconf-cache.c that share the old items, `pending_calls` and `old_properties`.
use blconf.Base.{
  ℕ, suc, ◌<◌, ◌≡◌, ◌≢◌, refl, sym, ap, ◌∙◌, ◌⊎◌, false, inl, inr, Option, none, some, List, ◌∷◌,
  Text, str_eq, str_eq_iff, ◌==◌, ==_iff, ==_refl, arith, Bool-cases,
}
use blconf.Tree.Visit.{Table, table_lookup, table_insert}
use blconf.Tree.Tables.{lookup-insert}
use blconf.Client.Cache.{OldItem, call_lookup, call_steal, drop}
use blconf.Client.Cache.Tables.{lookup-drop, steal-lookup}

pub text_ne : (p q : Text) → p ≢ q → str_eq p q ≡ false
text_ne p q n = elim (Bool-cases (str_eq p q)) [
  | inl e ↦ absurd (n ((str_eq_iff p q).0 e))
  | inr e ↦ e
]

steal_found :
    (c d : ℕ) (calls : List (ℕ × Text)) (q : Text)
    → call_lookup d (call_steal c calls) ≡ some q
    → (c ≢ d) × (call_lookup d calls ≡ some q)
steal_found c d calls q h = elim (Bool-cases (c == d)) [
  | inl e ↦ absurd (ground (arith, steal-lookup c d calls, h, e))
  | inr e ↦ (ground (arith, e), ground (arith, steal-lookup c d calls, h, e))
]

cons_found :
    (n d : ℕ) (p q : Text) (calls : List (ℕ × Text))
    → call_lookup d ((n, p) ∷ calls) ≡ some q
    → ((n ≡ d) × (p ≡ q)) ⊎ ((n ≢ d) × (call_lookup d calls ≡ some q))
unfolding call_lookup
cons_found n d p q calls h = elim (Bool-cases (n == d)) [
  | inl e ↦ inl (ground (arith, e), ground (arith, e, h))
  | inr e ↦ inr (ground (arith, e), ground (arith, e, h))
]

module _ {ℓ} {V : Type ℓ} where
  -- Each call leads to an old item that has it as its call, each old item has a call that leads to it, and
  -- the next call is fresh.
  pub record Linked (calls : List (ℕ × Text)) (olds : Table (OldItem V)) (next : ℕ) : Type ℓ where
    pub forth :
        (c : ℕ) (p : Text)
        → call_lookup c calls ≡ some p
        → (o : OldItem V) × (table_lookup p olds ≡ some o) × (o.call ≡ some c)
    pub back :
        (p : Text) (o : OldItem V)
        → table_lookup p olds ≡ some o
        → (c : ℕ) × (o.call ≡ some c) × (call_lookup c calls ≡ some p)
    pub fresh : (c : ℕ) (p : Text) → call_lookup c calls ≡ some p → c < next

  -- Only one call leads to an old item.
  pub Linked-unique :
      (calls : List (ℕ × Text)) (olds : Table (OldItem V)) (next c d : ℕ) (p : Text)
      → Linked calls olds next
      → call_lookup c calls ≡ some p
      → call_lookup d calls ≡ some p
      → c ≡ d
  Linked-unique calls olds next c d p l hc hd =
      let (o, f, e) = l.forth c p hc in let (o', f', e') = l.forth d p hd in cc (f, f', e, e')

  -- The tables are only seen by lookups.
  pub Linked-ext :
      (calls : List (ℕ × Text)) (olds olds' : Table (OldItem V)) (next : ℕ)
      → ((q : Text) → table_lookup q olds' ≡ table_lookup q olds)
      → Linked calls olds next
      → Linked calls olds' next
  Linked-ext calls olds olds' next same l = record {
    forth = λ c p h. let (o, f, e) = l.forth c p h in (o, same p ∙ f, e);
    back = λ p o h. l.back p o (sym (same p) ∙ h);
    fresh = l.fresh;
  }

  drop_found :
      (p q : Text) (olds : Table (OldItem V)) (o : OldItem V)
      → table_lookup q (drop p olds) ≡ some o
      → (p ≢ q) × (table_lookup q olds ≡ some o)
  drop_found p q olds o h = elim (Bool-cases (str_eq p q)) [
    | inl e ↦ absurd (ground (arith, lookup-drop p q olds, h, e))
    | inr e ↦ ((λ k. cc (e, (str_eq_iff p q).1 k)), ground (arith, lookup-drop p q olds, h, e))
  ]

  -- A call and its old item leave together.
  pub settle-Linked :
      (calls : List (ℕ × Text)) (olds : Table (OldItem V)) (next c : ℕ) (p : Text)
      → Linked calls olds next
      → call_lookup c calls ≡ some p
      → Linked (call_steal c calls) (drop p olds) next
  settle-Linked calls olds next c p l hc = record {
    forth = λ d q h.
        let (ne, hd) = steal_found c d calls q h in
        let (o, f, e) = l.forth d q hd in
        let apart : p ≢ q =
          λ k. ne (Linked-unique calls olds next c d q l (hc ∙ ap (λ x. some x) k) hd) in
        (o, rw (lookup-drop p q olds, text_ne p q apart) f, e);
    back = λ q o h.
        let (ne, found) = drop_found p q olds o h in
        let (d, e, hd) = l.back q o found in
        let apart : (c == d) ≡ false = elim (Bool-cases (c == d)) [
          | inl k ↦ absurd (ne (cc (hc, hd, (==_iff c d).0 k)))
          | inr k ↦ k
        ] in
        (d, e, rw (steal-lookup c d calls, apart) hd);
    fresh = λ d q h. l.fresh d q (steal_found c d calls q h).1;
  }

  insert_found :
      (p q : Text) (new : OldItem V) (olds : Table (OldItem V)) (o : OldItem V)
      → table_lookup q (table_insert p new olds) ≡ some o
      → ((p ≡ q) × (new ≡ o)) ⊎ ((p ≢ q) × (table_lookup q olds ≡ some o))
  insert_found p q new olds o h = elim (Bool-cases (str_eq p q)) [
    | inl e ↦ inl ((str_eq_iff p q).0 e, ground (arith, lookup-insert p q new olds, h, e))
    | inr e ↦
        inr ((λ k. cc (e, (str_eq_iff p q).1 k)), ground (arith, lookup-insert p q new olds, h, e))
  ]

  -- A fresh call and a new old item come together.
  pub begin-Linked :
      (calls : List (ℕ × Text)) (olds : Table (OldItem V)) (next : ℕ) (p : Text) (item : Option V)
      → Linked calls olds next
      → table_lookup p olds ≡ none
      → Linked
          ((next, p) ∷ calls)
          (table_insert p (record { call = some next; item = item }) olds)
          (suc next)
  unfolding call_lookup
  begin-Linked calls olds next p item l free = record {
    forth = λ d q h. elim (cons_found next d p q calls h) [
      | inl (n, k) ↦ (
        record { call = some next; item = item },
        rw (lookup-insert p q (record { call = some next; item = item }) olds, (str_eq_iff p q).1 k)
            refl,
        ap (λ x. some x) n,
      )
      | inr (n, hd) ↦
          let (o, f, e) = l.forth d q hd in
          let apart : p ≢ q = λ k. cc (free, f, k) in
          (
            o,
            rw
                (
                  lookup-insert p q (record { call = some next; item = item }) olds,
                  text_ne p q apart,
                )
                f,
            e,
          )
    ];
    back = λ q o h. elim (insert_found p q (record { call = some next; item = item }) olds o h) [
      | inl (k, n) ↦
          (next, sym (ap (λ (x : OldItem V). x.call) n), rw (==_refl next) (ap (λ x. some x) k))
      | inr (k, found) ↦
          let (d, e, hd) = l.back q o found in
          let apart : (next == d) ≡ false = ground (arith, l.fresh d q hd) in (d, e, rw apart hd)
    ];
    fresh = λ d q h. elim (cons_found next d p q calls h) [
      | inl (n, k) ↦ omega arith
      | inr (n, hd) ↦ omega (arith, l.fresh d q hd)
    ];
  }
