-- ===== src/Read/Leb/Uleb.antt =====
-- backends/c/runtime/bbq_read.h: bbq_read_uleb128, and the unsigned encodings.
use bbq.Base.{
  ℕ, zero, suc, ◌+◌, ◌-◌, ◌*◌, ◌/◌, ◌%◌, ◌^◌, ◌≤◌, ◌<◌, ◌≡◌, sym, ap, ap₂, ◌∙◌, List, [], ◌∷◌, ◌++◌,
  arith, length, drop, get_elem?, bit_or_high, bit_and_low, bit_and_flag, some,
}
use native.Mathlib.Nat.{pow-le-pow_right, one-le-pow, suc-add, mod-eq_of_lt, div-eq_of_lt}
use bbq.Read.Ctx.{Ctx, done, load, effective_end, fail, u8_overrun}
use bbq.Read.Fixed.{read_u8}
use bbq.Read.Leb.{max_bytes, add_group, uleb_loop, read_uleb128}
use bbq.Read.Leb.Groups.{IsUleb, uleb_value, pow_add, pow_seven, uleb_value_nil, uleb_value_cons}

pub drop-get :
    (n : ℕ) (l : List ℕ) (b : ℕ) (r : List ℕ)
    → drop n l ≡ b ∷ r
    → (get_elem? l n ≡ some b) × (drop (n + 1) l ≡ r)
drop-get zero [] b r e = cc
drop-get zero (x ∷ l) b r e = (cc, cc)
drop-get (suc n) [] b r e = cc
drop-get (suc n) (x ∷ l) b r e = rw suc-add (drop-get n l b r e)

pub group_fits : (g m p : ℕ) → g ≤ m → g * p ≤ m * p
group_fits g m p h = grind arith

-- The value of an encoding, read group by group.
pub value_step :
    (i b result : ℕ) (tail : List ℕ)
    → result + b % 128 * 2 ^ (7 * i) + uleb_value tail * 2 ^ (7 * (i + 1))
      ≡ result + uleb_value (b ∷ tail) * 2 ^ (7 * i)
value_step i b result tail =
    let wide : 2 ^ (7 * (i + 1)) ≡ 128 * 2 ^ (7 * i) =
      ap (λ (t : ℕ). 2 ^ t) {x = 7 * (i + 1)} {y = 7 * i + 7} (omega arith) ∙ pow_seven (7 * i) in
    omega (
      arith,
      ap (λ (t : ℕ). t * 2 ^ (7 * i)) (uleb_value_cons b tail),
      ap (λ (t : ℕ). uleb_value tail * t) wide,
    )

-- The cursor with `n` bytes consumed.
abbrev pub moved : Ctx → ℕ → Ctx
moved c n = record c { pos = c.pos + n }

pub read_u8-byte :
    (c : Ctx) (b : ℕ) (r : List ℕ)
    → drop c.pos c.input ≡ b ∷ r
    → c.pos + 1 ≤ effective_end c
    → c.pos + 1 < 2 ^ 64
    → read_u8 c ≡ (done b, moved c 1)
unfolding read_u8 load
read_u8-byte c b r e room fits = ground (arith, drop-get c.pos c.input b r e)

pub read_u8-short :
    (c : Ctx) → effective_end c < c.pos + 1 → c.pos + 1 < 2 ^ 64 → read_u8 c ≡ fail u8_overrun c
unfolding read_u8
read_u8-short c short fits = ground arith

-- One group added, where the value so far fits below it and the result fits 64 bits.
pub add_group-sum :
    (result byte shift : ℕ)
    → byte < 256
    → result < 2 ^ shift
    → result + byte % 128 * 2 ^ shift < 2 ^ 64
    → add_group result byte shift ≡ result + byte % 128 * 2 ^ shift
add_group-sum result byte shift hb hr fits = rw (bit_and_low byte hb) (
    rw (mod-eq_of_lt {n = byte % 128 * 2 ^ shift} {m = 2 ^ 64} (omega arith))
      (bit_or_high shift result (byte % 128) hr))

pub pow-le-64 : (bits : ℕ) → bits ≤ 64 → 2 ^ bits ≤ 2 ^ 64
pow-le-64 bits h = pow-le-pow_right (omega arith) h

-- A last group whose value fits `bits` bits leaves nothing above the bits that are left.
top_clear :
    (bits shift byte : ℕ)
    → shift ≤ bits
    → byte * 2 ^ shift < 2 ^ bits
    → byte / 2 ^ (bits - shift) ≡ 0
top_clear bits shift byte le fits =
    let split : 2 ^ bits ≡ 2 ^ (bits - shift) * 2 ^ shift =
      ap (λ (t : ℕ). 2 ^ t) {x = bits} {y = bits - shift + shift} (omega arith)
      ∙ pow_add (bits - shift) shift in
    let small : byte < 2 ^ (bits - shift) = grind (arith, one-le-pow shift 2 (omega arith)) in
    div-eq_of_lt small

module _ (bits : ℕ) (low : 1 ≤ bits) (high : bits ≤ 64) where
  -- The loop on its last byte, and on a byte that another follows.
  last_round :
      (rounds i : ℕ) (byte result : ℕ) (r : List ℕ) (c : Ctx)
      → i + suc rounds ≡ max_bytes bits
      → drop c.pos c.input ≡ byte ∷ r
      → c.pos + 1 ≤ effective_end c
      → c.pos + 1 < 2 ^ 64
      → byte < 128
      → result < 2 ^ (7 * i)
      → result + byte * 2 ^ (7 * i) < 2 ^ bits
      → uleb_loop bits (suc rounds) i (7 * i) result c
        ≡ (done (result + byte * 2 ^ (7 * i)), moved c 1)
  unfolding uleb_loop
  last_round rounds i byte result r c hi at room fits hb hr small =
      rw (read_u8-byte c byte r at room fits) (
        ground (
          arith,
          bit_and_flag byte,
          top_clear bits (7 * i) byte,
          add_group-sum result byte (7 * i),
          pow-le-64 bits high,
        ))

  inner_round :
      (rounds i : ℕ) (byte result : ℕ) (r : List ℕ) (c : Ctx)
      → i + suc (suc rounds) ≡ max_bytes bits
      → drop c.pos c.input ≡ byte ∷ r
      → c.pos + 1 ≤ effective_end c
      → c.pos + 1 < 2 ^ 64
      → 128 ≤ byte
      → byte < 256
      → result < 2 ^ (7 * i)
      → result + byte % 128 * 2 ^ (7 * i) < 2 ^ bits
      → uleb_loop bits (suc (suc rounds)) i (7 * i) result c
        ≡ uleb_loop bits
            (suc rounds)
            (i + 1)
            (7 * i + 7)
            (result + byte % 128 * 2 ^ (7 * i))
            (moved c 1)
  unfolding uleb_loop
  inner_round rounds i byte result r c hi at room fits lo hb hr small =
      rw (read_u8-byte c byte r at room fits) (
        rw (add_group-sum result byte (7 * i) hb hr (omega (arith, pow-le-64 bits high)))
          (ground (arith, bit_and_flag byte)))

  uleb_loop-accepts :
      (rounds i : ℕ) (bs : List ℕ) (result : ℕ) (rest : List ℕ) (c : Ctx)
      → i + rounds ≡ max_bytes bits
      → IsUleb bs
      → length bs ≤ rounds
      → drop c.pos c.input ≡ bs ++ rest
      → c.pos + length bs ≤ effective_end c
      → c.pos + length bs < 2 ^ 64
      → result < 2 ^ (7 * i)
      → result + uleb_value bs * 2 ^ (7 * i) < 2 ^ bits
      → uleb_loop bits rounds i (7 * i) result c
        ≡ (done (result + uleb_value bs * 2 ^ (7 * i)), moved c (length bs))
  uleb_loop-accepts rounds i [] result rest c hi leb len at room fits hr small = absurd leb
  uleb_loop-accepts zero i (b ∷ bs) result rest c hi leb len at room fits hr small =
      absurd (omega arith)
  uleb_loop-accepts (suc rounds) i (b ∷ []) result rest c hi leb len at room fits hr small =
      let value : uleb_value (b ∷ []) ≡ b = omega (arith, uleb_value_cons b [], uleb_value_nil) in
      rw value (
        last_round rounds i b result rest c hi at (omega arith) (omega arith) leb hr
          (omega (arith, small, ap (λ (t : ℕ). t * 2 ^ (7 * i)) value)))
  uleb_loop-accepts (suc zero) i (b ∷ d ∷ bs) result rest c hi leb len at room fits hr small =
      absurd (omega arith)
  uleb_loop-accepts (suc (suc rounds)) i (b ∷ d ∷ bs) result rest c hi leb len at room fits hr
        small =
      let tail : List ℕ = d ∷ bs in
      let next = result + b % 128 * 2 ^ (7 * i) in
      let shift : 7 * i + 7 ≡ 7 * (i + 1) = omega arith in
      let wide : 2 ^ (7 * (i + 1)) ≡ 128 * 2 ^ (7 * i) =
        ap (λ (t : ℕ). 2 ^ t) (sym shift) ∙ pow_seven (7 * i) in
      let total = value_step i b result tail in
      let below : next < 2 ^ (7 * (i + 1)) =
        omega (arith, wide, group_fits (b % 128) 127 (2 ^ (7 * i)) (omega arith)) in
      inner_round rounds i b result (tail ++ rest) c hi at (omega arith) (omega arith) leb.0 leb.1
        hr (omega (arith, total))
      ∙ ap (λ (t : ℕ). uleb_loop bits (suc rounds) (i + 1) t next (moved c 1)) shift
      ∙ uleb_loop-accepts (suc rounds) (i + 1) tail next rest (moved c 1) (omega arith) leb.2
          (omega arith) (drop-get c.pos c.input b (tail ++ rest) at).1 (omega arith) (omega arith)
          below (omega (arith, total))
      ∙ ap₂ (λ (v p : ℕ). (done v, record c { pos = p })) total (omega arith)

  -- Every unsigned encoding at the cursor, minimal or padded, that takes no more than ceil(bits / 7)
  -- bytes, whose value is below 2^bits and that the window holds whole is read: the result is its
  -- value and the cursor stands behind it.
  pub read_uleb128_accepts :
      (bs rest : List ℕ) (c : Ctx)
      → IsUleb bs
      → length bs ≤ max_bytes bits
      → uleb_value bs < 2 ^ bits
      → drop c.pos c.input ≡ bs ++ rest
      → c.pos + length bs ≤ effective_end c
      → c.pos + length bs < 2 ^ 64
      → read_uleb128 bits c ≡ (done (uleb_value bs), moved c (length bs))
  unfolding read_uleb128
  read_uleb128_accepts bs rest c leb len small at room fits =
      uleb_loop-accepts (max_bytes bits) 0 bs 0 rest c (omega arith) leb len at room fits
        (omega arith) (omega (arith, small))
      ∙ ap (λ (v : ℕ). (done v, moved c (length bs))) (omega arith)
