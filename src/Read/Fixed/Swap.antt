-- ===== src/Read/Fixed/Swap.antt =====
-- backends/c/runtime/bbq_read.h: the byte swaps, and the two orders of bytes.
use bbq.Base.{
  ℕ, ◌+◌, ◌*◌, ◌/◌, ◌%◌, ◌^◌, ◌<◌, ◌≡◌, ◌∙◌, List, [], ◌∷◌, arith, bit_or_high, bit_and_byte,
  bit_and_mask, length,
}
use bbq.Read.Fixed.{bswap16, bswap32, bswap64, le_value, be_value}

-- Every element is a byte.
abbrev pub AreBytes : List ℕ → Type 0
AreBytes [] = Unit {0}
AreBytes (b ∷ bs) = (b < 256) × AreBytes bs

pub bswap16-sum : (v : ℕ) → v < 2 ^ 16 → bswap16 v ≡ v / 256 + v % 256 * 256
unfolding bswap16
bswap16-sum v h = omega (arith, bit_or_high 8 (v / 2 ^ 8) v (omega arith))

pub bswap32-sum :
    (v : ℕ)
    → v < 2 ^ 32
    → bswap32 v
      ≡ v / 2 ^ 24 % 256 + v / 2 ^ 16 % 256 * 2 ^ 8 + v / 2 ^ 8 % 256 * 2 ^ 16 + v % 256 * 2 ^ 24
unfolding bswap32
bswap32-sum v h =
    let a = v / 2 ^ 24 % 256 in
    let b = v / 2 ^ 8 / 2 ^ 8 % 256 in
    let c = v * 2 ^ 8 % 2 ^ 32 / 2 ^ 16 % 256 in
    let d = v * 2 ^ 24 % 2 ^ 32 / 2 ^ 24 % 256 in
    rw
      (
        bit_and_mask 8 (v / 2 ^ 24),
        bit_and_byte 8 (v / 2 ^ 8),
        bit_and_byte 16 (v * 2 ^ 8 % 2 ^ 32),
        bit_and_byte 24 (v * 2 ^ 24 % 2 ^ 32),
        bit_or_high 8 a b (omega arith),
        bit_or_high 16 (a + b * 2 ^ 8) c (omega arith),
        bit_or_high 24 (a + b * 2 ^ 8 + c * 2 ^ 16) d (omega arith),
      )
      (omega arith)

pub bswap64-sum :
    (v : ℕ)
    → v < 2 ^ 64
    → bswap64 v
      ≡ v / 2 ^ 56
        + v / 2 ^ 48 % 256 * 2 ^ 8
        + v / 2 ^ 40 % 256 * 2 ^ 16
        + v / 2 ^ 32 % 256 * 2 ^ 24
        + v / 2 ^ 24 % 256 * 2 ^ 32
        + v / 2 ^ 16 % 256 * 2 ^ 40
        + v / 2 ^ 8 % 256 * 2 ^ 48
        + v % 256 * 2 ^ 56
unfolding bswap64
bswap64-sum v h =
    let a = v / 2 ^ 56 in
    let b = v / 2 ^ 40 / 2 ^ 8 % 256 in
    let c = v / 2 ^ 24 / 2 ^ 16 % 256 in
    let d = v / 2 ^ 8 / 2 ^ 24 % 256 in
    let e = v * 2 ^ 8 % 2 ^ 64 / 2 ^ 32 % 256 in
    let f = v * 2 ^ 24 % 2 ^ 64 / 2 ^ 40 % 256 in
    let g = v * 2 ^ 40 % 2 ^ 64 / 2 ^ 48 % 256 in
    let s2 = a + b * 2 ^ 8 in
    let s3 = s2 + c * 2 ^ 16 in
    let s4 = s3 + d * 2 ^ 24 in
    let s5 = s4 + e * 2 ^ 32 in
    let s6 = s5 + f * 2 ^ 40 in
    let s7 = s6 + g * 2 ^ 48 in
    let top : v * 2 ^ 56 % 2 ^ 64 ≡ v % 256 * 2 ^ 56 = omega arith in
    rw
      (
        bit_and_byte 8 (v / 2 ^ 40),
        bit_and_byte 16 (v / 2 ^ 24),
        bit_and_byte 24 (v / 2 ^ 8),
        bit_and_byte 32 (v * 2 ^ 8 % 2 ^ 64),
        bit_and_byte 40 (v * 2 ^ 24 % 2 ^ 64),
        bit_and_byte 48 (v * 2 ^ 40 % 2 ^ 64),
        top,
        bit_or_high 8 a b (omega arith),
        bit_or_high 16 s2 c (omega arith),
        bit_or_high 24 s3 d (omega arith),
        bit_or_high 32 s4 e (omega arith),
        bit_or_high 40 s5 f (omega arith),
        bit_or_high 48 s6 g (omega arith),
        bit_or_high 56 s7 (v % 256) (omega arith),
      )
      (omega arith)

-- The value of bytes in one order and in the other, with `n` bytes of 8 bits.
pub swap_16 : (bs : List ℕ) → length bs ≡ 2 → AreBytes bs → bswap16 (le_value bs) ≡ be_value bs
unfolding le_value be_value
swap_16 (a ∷ b ∷ []) e h = bswap16-sum _ (omega arith) ∙ omega arith
swap_16 _ e h = absurd (omega arith)

pub swap_16_back : (bs : List ℕ) → length bs ≡ 2 → AreBytes bs → bswap16 (be_value bs) ≡ le_value bs
unfolding le_value be_value
swap_16_back (a ∷ b ∷ []) e h = bswap16-sum _ (omega arith) ∙ omega arith
swap_16_back _ e h = absurd (omega arith)

pub swap_32 : (bs : List ℕ) → length bs ≡ 4 → AreBytes bs → bswap32 (le_value bs) ≡ be_value bs
unfolding le_value be_value
swap_32 (a ∷ b ∷ c ∷ d ∷ []) e h = bswap32-sum _ (omega arith) ∙ omega arith
swap_32 _ e h = absurd (omega arith)

pub swap_32_back : (bs : List ℕ) → length bs ≡ 4 → AreBytes bs → bswap32 (be_value bs) ≡ le_value bs
unfolding le_value be_value
swap_32_back (a ∷ b ∷ c ∷ d ∷ []) e h = bswap32-sum _ (omega arith) ∙ omega arith
swap_32_back _ e h = absurd (omega arith)

pub swap_64 : (bs : List ℕ) → length bs ≡ 8 → AreBytes bs → bswap64 (le_value bs) ≡ be_value bs
unfolding le_value be_value
swap_64 (a ∷ b ∷ c ∷ d ∷ p ∷ q ∷ r ∷ s ∷ []) e h = bswap64-sum _ (omega arith) ∙ omega arith
swap_64 _ e h = absurd (omega arith)

pub swap_64_back : (bs : List ℕ) → length bs ≡ 8 → AreBytes bs → bswap64 (be_value bs) ≡ le_value bs
unfolding le_value be_value
swap_64_back (a ∷ b ∷ c ∷ d ∷ p ∷ q ∷ r ∷ s ∷ []) e h = bswap64-sum _ (omega arith) ∙ omega arith
swap_64_back _ e h = absurd (omega arith)
