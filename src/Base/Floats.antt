-- ===== src/Base/Floats.antt =====
-- `float64` by its 64 bits: the conversion of an integer, and the test for an integer value.
use Prim.Native.Nat.{ℕ, zero, suc, ◌+◌, ◌-◌, ◌*◌, ◌/◌, ◌%◌, ◌^◌}
use mathlib.Core.Path.{◌≡◌, refl}
use mathlib.Core.Bool.{Bool, true, false, ◌&&◌, ◌||◌}
use cross_validate.Base.Bools.{ltb, leb, nat_eq, if◌then◌else◌}
use cross_validate.Base.Int.{ℤ, pos, negsuc}

-- The place of the highest bit of a positive number below 2^(k + 1).
highest_bit : ℕ → ℕ → ℕ
highest_bit zero n = 0
highest_bit (suc k) n = let below = highest_bit k n in if leb (2 ^ suc k) n then suc k else below

-- `n` times 2^(52 - k), to the nearest integer and at a tie to the even one.
scaled : ℕ → ℕ → ℕ
scaled n k =
    let unit = 2 ^ (k - 52) in
    let q = n / unit in
    let r = n % unit in
    if leb k 52
    then n * 2 ^ (52 - k)
    else if ltb unit (2 * r) || nat_eq (2 * r) unit && nat_eq (q % 2) 1
    then q + 1
    else q

-- A mantissa that was rounded up to 2^53 carries into the exponent.
magnitude : ℕ → ℕ
unfolding highest_bit scaled
magnitude n = let k = highest_bit 63 n in if nat_eq n 0 then 0 else (k + 1022) * 2 ^ 52 + scaled n k

-- `float64(x)` for an `int`
unfoldable pub float_of_int : ℤ → ℕ
unfolding magnitude
float_of_int (pos n) = magnitude n
float_of_int (negsuc n) = 2 ^ 63 + magnitude (n + 1)

-- `f == float64(int64(f))`. The conversion of a float past the range of int64 depends on the
-- machine, so the answer for it is the parameter `beyond`.
unfoldable pub is_integral : (beyond : ℕ → Bool) → ℕ → Bool
is_integral beyond f =
    let exponent = f / 2 ^ 52 % 2048 in
    let mantissa = f % 2 ^ 52 in
    if ltb exponent 1023
    then nat_eq exponent 0 && nat_eq mantissa 0
    else if ltb exponent 1075
    then nat_eq ((2 ^ 52 + mantissa) % 2 ^ (1075 - exponent)) 0
    else if ltb exponent 1086
    then true
    else if nat_eq f (2 ^ 63 + 1086 * 2 ^ 52)
    then true
    else beyond f

ints :
    (float_of_int (pos 1) ≡ 0x3ff0000000000000)
    × (float_of_int (negsuc 1) ≡ 0xc000000000000000)
    × (float_of_int (pos 10) ≡ 0x4024000000000000)
    × (float_of_int (pos 9007199254740993) ≡ 0x4340000000000000)
    × (float_of_int (pos 9223372036854775807) ≡ 0x43e0000000000000)
unfolding float_of_int
ints = (refl, refl, refl, refl, refl)

halves :
    (is_integral (λ _. false) 0x4004000000000000 ≡ false)
    × (is_integral (λ _. false) 0x4008000000000000 ≡ true)
unfolding is_integral
halves = (refl, refl)
