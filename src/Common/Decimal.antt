-- ===== src/Common/Decimal.antt =====
-- strconv.Itoa, strconv.FormatInt(v, 10) and the verb %d of Go's standard library.
use morgue.Common.Tests.{ltb, if◌then◌else◌}
use morgue.Common.Signed.{ℤ, pos, negsuc}
use Prim.Native.Nat.{ℕ, zero, suc, ◌+◌, ◌/◌, ◌%◌}
use mathlib.Core.List.{List, [], ◌∷◌}

-- The digits of `n` before those of `tail`; the fuel `n` is enough, since each round divides by ten.
digits : ℕ → ℕ → List ℕ → List ℕ
digits zero n tail = (b'0' + n) ∷ tail
digits (suc f) n tail =
    let more = digits f (n / 10) ((b'0' + n % 10) ∷ tail) in
    if ltb n 10 then (b'0' + n) ∷ tail else more

unfoldable pub itoa : ℕ → List ℕ
unfolding digits
itoa n = digits n n []

unfoldable pub itoa_ℤ : ℤ → List ℕ
unfolding itoa
itoa_ℤ (pos n) = itoa n
itoa_ℤ (negsuc n) = b'-' ∷ itoa (suc n)
