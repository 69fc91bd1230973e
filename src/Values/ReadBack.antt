-- ===== src/Values/ReadBack.antt =====
-- Reading back the numbers that common/blconf-gvaluefuncs.c prints.
use blconf.Base.{
  ℕ, zero, suc, ◌+◌, ◌-◌, ◌*◌, ◌≤◌, ◌<◌, ◌≡◌, ◌≢◌, refl, sym, ap, ◌∙◌, Bool, true, false, inl, inr,
  some, [], ◌∷◌, ◌++◌, Text, arith, ltb, ◌==◌, is_some, Bool-cases, Option-cases, pos, negsuc,
}
use Prim.Native.Nat.{◌/◌, ◌%◌, ◌^◌}
use blconf.Values.Numbers.{
  skip_space, digit_of, below, scan, base_of, after_zero, starts_with_digit, magnitude, signed,
  strtol, strtoul, clamp_long, clamp_ulong,
}
use blconf.Values.Print.{digits, decimal}

scan-append :
    (base a m : ℕ) (s t : Text) → scan base a s ≡ (m, []) → scan base a (s ++ t) ≡ scan base m t
unfolding scan
scan-append base a m [] t h = ap (λ (x : ℕ × Text). scan base x.0 t) h
scan-append base a m (c ∷ s) t h = elim (Option-cases (below base (digit_of c))) [
  | inl e ↦ absurd (ground (arith, e, h))
  | inr (d, e) ↦ rw (scan, e) (scan-append base (a * base + d) m s t (ground (arith, e, h)))
]

at_end : {m n : ℕ} → m ≡ n → ◌≡◌ {A = ℕ × Text} (m, []) (n, [])
at_end e = ap (λ (x : ℕ). (x, [])) e

scan_digit : (a k : ℕ) → k < 10 → scan 10 a ((b'0' + k) ∷ []) ≡ (a * 10 + k, [])
unfolding scan
scan_digit a k h = ground arith

scan-digits : (fuel n : ℕ) → n ≤ fuel → scan 10 0 (digits fuel n) ≡ (n, [])
unfolding digits
scan-digits zero n h = scan_digit 0 (n % 10) (omega arith) ∙ at_end (omega arith)
scan-digits (suc fuel) n h = elim (Bool-cases (ltb n 10)) [
  | inl e ↦ rw e (scan_digit 0 n (ground (arith, e)) ∙ at_end (omega arith))
  | inr e ↦ rw e (
      scan-append 10 0 (n / 10) (digits fuel (n / 10)) _
        (scan-digits fuel (n / 10) (ground (arith, e)))
      ∙ scan_digit (n / 10) (n % 10) (omega arith)
      ∙ at_end (omega arith))
]

-- The first digit is a digit, and not '0' unless the number is 0.
record Leads (n : ℕ) (s : Text) : Type 0 where
  first : ℕ
  others : Text
  shape : s ≡ first ∷ others
  low : b'0' ≤ first
  high : first ≤ b'9'
  nonzero : first ≡ b'0' → n ≡ 0

digits-Leads : (fuel n : ℕ) → n ≤ fuel → Leads n (digits fuel n)
unfolding digits
digits-Leads zero n h = record {
  first = b'0' + n % 10;
  others = [];
  shape = refl;
  low = omega arith;
  high = omega arith;
  nonzero = λ e. omega arith;
}
digits-Leads (suc fuel) n h = elim (Bool-cases (ltb n 10)) [
  | inl e ↦ rw e (record {
    first = b'0' + n;
    others = [];
    shape = refl;
    low = omega arith;
    high = ground (arith, e);
    nonzero = λ k. omega arith;
  })
  | inr e ↦
      let small : 10 ≤ n = ground (arith, e) in
      let l = digits-Leads fuel (n / 10) (omega arith) in
      rw e (record {
        first = l.first;
        others = l.others ++ (b'0' + n % 10) ∷ [];
        shape = ap (λ (x : Text). x ++ (b'0' + n % 10) ∷ []) l.shape;
        low = l.low;
        high = l.high;
        nonzero = λ k. omega (arith, l.nonzero k);
      })
]

magnitude_leads :
    (minus : Bool) (c n : ℕ) (s : Text)
    → b'0' ≤ c
    → c ≤ b'9'
    → c ≢ b'0'
    → scan 10 0 (c ∷ s) ≡ (n, [])
    → magnitude minus (c ∷ s) ≡ some (minus, n, [])
unfolding magnitude base_of starts_with_digit
magnitude_leads minus c n s low high ne back =
    let off : (c == b'0') ≡ false = ground (arith, ne) in
    let on : is_some (below 10 (digit_of c)) ≡ true = ground (arith, low, high) in
    rw (off, on, back) refl

-- no space and no sign stands before a digit
signed_leads :
    (c : ℕ) (s : Text) → b'0' ≤ c → c ≤ b'9' → signed (skip_space (c ∷ s)) ≡ magnitude false (c ∷ s)
unfolding signed skip_space
signed_leads c s low high = ground arith

-- a number without its sign, the fuel being enough
magnitude-decimal : (minus : Bool) (n : ℕ) → magnitude minus (decimal n) ≡ some (minus, n, [])
unfolding decimal
magnitude-decimal minus zero =
    unfold magnitude base_of after_zero starts_with_digit scan digits in refl
magnitude-decimal minus (suc n) =
    let l = digits-Leads (suc n) (suc n) (omega arith) in
    let back = scan-digits (suc n) (suc n) (omega arith) in
    rw l.shape (
      magnitude_leads minus l.first (suc n) l.others l.low l.high (λ e. omega (arith, l.nonzero e))
        (ap (λ s. scan 10 0 s) (sym l.shape) ∙ back))

signed-decimal : (n : ℕ) → signed (skip_space (decimal n)) ≡ some (false, n, [])
unfolding decimal
signed-decimal n =
    let l = digits-Leads n n (omega arith) in
    ap (λ s. signed (skip_space s)) l.shape
    ∙ signed_leads l.first l.others l.low l.high
    ∙ ap (λ s. magnitude false s) (sym l.shape)
    ∙ magnitude-decimal false n

signed-minus : (n : ℕ) → signed (skip_space (b'-' ∷ decimal n)) ≡ some (true, n, [])
unfolding signed skip_space
signed-minus n = magnitude-decimal true n

pub strtol-decimal :
    (n : ℕ) → n < 2 ^ 63 → strtol (decimal n) ≡ record { number = pos n; erange = false; end = [] }
unfolding strtol clamp_long
strtol-decimal n h =
    let fits : ltb (2 ^ 63 - 1) n ≡ false = ground (arith, h) in
    rw (strtol, signed-decimal n, fits) refl

pub strtol-minus :
    (n : ℕ)
    → n < 2 ^ 63
    → strtol (b'-' ∷ decimal (suc n)) ≡ record { number = negsuc n; erange = false; end = [] }
unfolding strtol clamp_long
strtol-minus n h =
    let fits : ltb (2 ^ 63) (suc n) ≡ false = ground (arith, h) in
    rw (strtol, signed-minus (suc n), fits) refl

pub strtoul-decimal :
    (n : ℕ) → n < 2 ^ 64 → strtoul (decimal n) ≡ record { number = n; erange = false; end = [] }
unfolding strtoul clamp_ulong
strtoul-decimal n h =
    let fits : ltb (2 ^ 64 - 1) n ≡ false = ground (arith, h) in
    rw (strtoul, signed-decimal n, fits) refl

pub decimal-ne-nil : (n : ℕ) → decimal n ≢ []
unfolding decimal
decimal-ne-nil n e = let l = digits-Leads n n (omega arith) in cc (l.shape, e)
