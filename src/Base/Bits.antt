-- ===== src/Base/Bits.antt =====
-- `&`, `|` and shifts as arithmetic: the masks on one byte by tables, the others at every width.
use Prim.Native.Nat.{
  ℕ, zero, suc, ◌+◌, ◌-◌, ◌*◌, ◌/◌, ◌%◌, ◌^◌, ◌≤◌, ◌<◌, bit_and, bit_or, min, max, digits, bitwise,
  bit_and-bitwise, bit_or-bitwise,
}
use mathlib.Core.Path.{◌≡◌, refl, sym, ap, ◌∙◌}
use mathlib.Core.Bool.{Bool, true, ◌&&◌}
use native.Mathlib.Omega.{arith}
use native.Mathlib.Nat.{
  pow-suc, one-le-pow, le_refl, mod-lt, mod-eq_of_lt, div-add-mod, mul-add-mod_self_left,
  div-div-eq-div-mul, div-one, mul-one,
}
use native.Mathlib.Decide.{dec_le}
use bbq.Base.Tests.{◌==◌}

-- Two functions that agree on every value below `n`, by evaluation.
module _ (f g : ℕ → ℕ) where
  agree : ℕ → Bool
  agree zero = true
  agree (suc n) = f n == g n && agree n

  agree→eq : (n : ℕ) → agree n ≡ true → (x : ℕ) → x < n → f x ≡ g x
  unfolding agree
  agree→eq zero e x h = absurd (omega arith)
  agree→eq (suc n) e x h = ground (arith, agree→eq n (ground arith) x)

-- The seven value bits of a byte, its flag bit, its sign bit, and a byte with the flag set.
pub bit_and_low : (x : ℕ) → x < 256 → bit_and x 0x7f ≡ x % 128
unfolding agree
bit_and_low = agree→eq _ _ 256 refl

pub bit_and_flag : (x : ℕ) → x < 256 → bit_and x 0x80 ≡ x / 128 * 128
unfolding agree
bit_and_flag = agree→eq _ _ 256 refl

pub bit_and_sign : (x : ℕ) → x < 256 → bit_and x 0x40 ≡ x / 64 % 2 * 64
unfolding agree
bit_and_sign = agree→eq _ _ 256 refl

pub bit_or_flag : (x : ℕ) → x < 128 → bit_or x 0x80 ≡ x + 128
unfolding agree
bit_or_flag = agree→eq _ _ 128 refl

-- A digit-wise operation looks at its first argument for fuel; a unit of fuel to spare changes nothing,
-- so its value has an equation by the lowest digit.
module _ (digit : ℕ → ℕ → ℕ) (past : ℕ → ℕ) where
  spare_unit :
      (fuel x y : ℕ) → x ≤ fuel → digits past digit (suc fuel) x y ≡ digits past digit fuel x y
  spare_unit zero zero y h = refl
  spare_unit (suc fuel) zero y h = refl
  spare_unit (suc fuel) (suc x) y h = rw (spare_unit fuel (suc x / 2) (y / 2) (omega arith))
  spare_unit zero (suc x) y h = absurd (omega arith)

  settled : (fuel x y : ℕ) → x ≤ fuel → digits past digit fuel x y ≡ bitwise past digit x y
  settled zero zero y h = refl
  settled zero (suc x) y h = absurd (omega arith)
  settled (suc fuel) x y h = elim (dec_le x fuel) [
    | yes small ↦ spare_unit fuel x y small ∙ settled fuel x y small
    | no tight ↦ ap (λ (t : ℕ). digits past digit t x y) {x = suc fuel} {y = x} (omega arith)
  ]

  lowest_digit :
      (x y : ℕ)
      → bitwise past digit (suc x) y
        ≡ bitwise past digit (suc x / 2) (y / 2) * 2 + digit (suc x % 2) (y % 2)
  lowest_digit x y =
      ap (λ (t : ℕ). t * 2 + digit (suc x % 2) (y % 2))
        (settled x (suc x / 2) (y / 2) (omega arith))

bit_and_step : (x y : ℕ) → bit_and x y ≡ min (x % 2) (y % 2) + 2 * bit_and (x / 2) (y / 2)
bit_and_step zero y = omega (arith, bit_and-bitwise 0 y, bit_and-bitwise (0 / 2) (y / 2))
bit_and_step (suc x) y = omega (
  arith,
  bit_and-bitwise (suc x) y,
  bit_and-bitwise (suc x / 2) (y / 2),
  lowest_digit min (λ t. 0) x y,
)

bit_or_step : (x y : ℕ) → bit_or x y ≡ max (x % 2) (y % 2) + 2 * bit_or (x / 2) (y / 2)
bit_or_step zero y = omega (arith, bit_or-bitwise 0 y, bit_or-bitwise (0 / 2) (y / 2))
bit_or_step (suc x) y = omega (
  arith,
  bit_or-bitwise (suc x) y,
  bit_or-bitwise (suc x / 2) (y / 2),
  lowest_digit max (λ t. t) x y,
)

bit_or_zero : (b : ℕ) → bit_or 0 b ≡ b
bit_or_zero b = simp bit_or-bitwise

double : (q k : ℕ) → q * 2 ^ suc k ≡ 2 * (q * 2 ^ k)
double q k = omega (arith, ap (λ (t : ℕ). q * t) (pow-suc 2 k))

-- `r | (q << k)` is a sum when `r` fits `k` bits.
pub bit_or_high : (k r q : ℕ) → r < 2 ^ k → bit_or r (q * 2 ^ k) ≡ r + q * 2 ^ k
bit_or_high zero zero q h = bit_or_zero (q * 1) ∙ omega arith
bit_or_high zero (suc r) q h = absurd (omega arith)
bit_or_high (suc k) r q h = ground (
  arith,
  bit_or_step r (q * 2 ^ suc k),
  double q k,
  pow-suc 2 k,
  bit_or_high k (r / 2) q (omega (arith, pow-suc 2 k)),
)

bit_and_zero_fuel : (n a : ℕ) → a ≤ n → bit_and a 0 ≡ 0
bit_and_zero_fuel zero zero h = refl
bit_and_zero_fuel zero (suc a) h = absurd (omega arith)
bit_and_zero_fuel (suc n) zero h = refl
bit_and_zero_fuel (suc n) (suc a) h =
    omega (arith, bit_and_step (suc a) 0, bit_and_zero_fuel n (suc a / 2) (omega arith))

-- The remainder by a double, digit by digit.
mod_double : (a m : ℕ) → 0 < m → a % (2 * m) ≡ 2 * (a / 2 % m) + a % 2
mod_double a m h =
    let q = a / 2 / m in
    let r = 2 * (a / 2 % m) + a % 2 in
    let fits : r < 2 * m = omega (arith, mod-lt (a / 2) h) in
    let parts : a ≡ 2 * m * q + r = omega (arith, div-add-mod (a / 2) m) in
    ap (λ (t : ℕ). t % (2 * m)) parts ∙ mul-add-mod_self_left (2 * m) q r ∙ mod-eq_of_lt fits

-- `a & (2^k - 1)` is the remainder by `2^k`.
pub bit_and_mask : (k a : ℕ) → bit_and a (2 ^ k - 1) ≡ a % 2 ^ k
bit_and_mask zero a = omega (arith, bit_and_zero_fuel a a (le_refl _))
bit_and_mask (suc k) a =
    let pos = one-le-pow k 2 (omega arith) in
    let half : (2 ^ suc k - 1) / 2 ≡ 2 ^ k - 1 = omega (arith, pow-suc 2 k, pos) in
    let ih : bit_and (a / 2) ((2 ^ suc k - 1) / 2) ≡ a / 2 % 2 ^ k =
      rw half (bit_and_mask k (a / 2)) in
    let wide : a % 2 ^ suc k ≡ a % (2 * 2 ^ k) =
      ap (λ (t : ℕ). a % t) {x = 2 ^ suc k} {y = 2 * 2 ^ k} (omega (arith, pow-suc 2 k)) in
    omega
      (arith, bit_and_step a (2 ^ suc k - 1), pow-suc 2 k, pos, ih, wide, mod_double a (2 ^ k) pos)

-- `a & (m << k)` looks at `a >> k`.
pub bit_and_high : (k a m : ℕ) → bit_and a (m * 2 ^ k) ≡ bit_and (a / 2 ^ k) m * 2 ^ k
bit_and_high zero a m = simp (div-one, mul-one)
bit_and_high (suc k) a m =
    let halves : a / 2 ^ suc k ≡ a / 2 / 2 ^ k =
      ap (λ (t : ℕ). a / t) {x = 2 ^ suc k} {y = 2 * 2 ^ k} (omega (arith, pow-suc 2 k))
      ∙ sym (div-div-eq-div-mul a 2 (2 ^ k)) in
    let even : m * 2 ^ suc k / 2 ≡ m * 2 ^ k = omega (arith, double m k) in
    let ih : bit_and (a / 2) (m * 2 ^ suc k / 2) ≡ bit_and (a / 2 / 2 ^ k) m * 2 ^ k =
      rw even (bit_and_high k (a / 2) m) in
    rw halves (
      omega (
        arith,
        bit_and_step a (m * 2 ^ suc k),
        double m k,
        ih,
        double (bit_and (a / 2 / 2 ^ k) m) k,
      ))

-- The byte of `a` at bit `k`, in its place.
pub bit_and_byte : (k a : ℕ) → bit_and a (255 * 2 ^ k) ≡ a / 2 ^ k % 256 * 2 ^ k
bit_and_byte k a = bit_and_high k a 255 ∙ ap (λ (t : ℕ). t * 2 ^ k) (bit_and_mask 8 (a / 2 ^ k))
