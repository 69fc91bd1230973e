-- ===== src/Values/Print.antt =====
-- The numbers that "%u" and "%d" print.
use blconf.Base.{ℕ, zero, suc, ◌+◌, [], ◌∷◌, ◌++◌, Text, ltb, if◌then◌else◌, ℤ, pos, negsuc}
use Prim.Native.Nat.{◌/◌, ◌%◌}

-- the digits of `n` behind those of its tenth; the fuel is `n` itself, and a tenth is smaller
unfoldable pub digits : ℕ → ℕ → Text
digits zero n = (b'0' + n % 10) ∷ []
digits (suc fuel) n =
    let before = digits fuel (n / 10) in
    if ltb n 10 then (b'0' + n) ∷ [] else before ++ (b'0' + n % 10) ∷ []

-- "%u"
unfoldable pub decimal : ℕ → Text
unfolding digits
decimal n = digits n n

-- "%d"
unfoldable pub signed_decimal : ℤ → Text
unfolding decimal
signed_decimal (pos n) = decimal n
signed_decimal (negsuc n) = b'-' ∷ decimal (suc n)
