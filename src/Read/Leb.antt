-- ===== src/Read/Leb.antt =====
-- backends/c/runtime/bbq_read.h: strict LEB128 reads of a value of `bits` bits.
pub mod Groups
pub mod Uleb
pub mod Strict
use bbq.Base.{
  ℕ, zero, suc, ◌+◌, ◌-◌, ◌*◌, ◌/◌, ◌%◌, ◌^◌, Bool, true, false, ◌&&◌, ltb, not, ◌==◌, bit_and,
  bit_or, if◌then◌else◌, ℤ, to_signed,
}
use bbq.Read.Ctx.{
  Ctx, Outcome, done, failed, fault, M, pure, fail, ◌>>=◌, bind, uleb128_too_long,
  uleb128_value_too_large, uleb128_unterminated, sleb128_too_long, sleb128_value_out_of_range,
  sleb128_unterminated,
}
use bbq.Read.Fixed.{read_u8, shl, shr}

-- `(bits + 6) / 7`
abbrev pub max_bytes : ℕ → ℕ
max_bytes bits = (bits + 6) / 7

-- One more group of seven bits.
abbrev pub add_group : ℕ → ℕ → ℕ → ℕ
add_group result byte shift = bit_or result (shl 64 (bit_and byte 0x7f) shift)

-- The loop of bbq_read_uleb128: the rounds left, then `i`, `shift` and `result`.
unfoldable pub uleb_loop : ℕ → ℕ → ℕ → ℕ → ℕ → M ℕ
uleb_loop bits zero i shift result c = fail uleb128_unterminated c
uleb_loop bits (suc rounds) i shift result c = bind (read_u8 c) (λ byte c'.
    let last = i == max_bytes bits - 1 in
    let avail = bits - shift in
    let result' = add_group result byte shift in
    let rest = uleb_loop bits rounds (i + 1) (shift + 7) result' c' in
    if last && not (bit_and byte 0x80 == 0)
    then fail uleb128_too_long c'
    else if last && (ltb avail 7 && not (shr byte avail == 0))
    then fail uleb128_value_too_large c'
    else if bit_and byte 0x80 == 0
    then (done result', c')
    else rest)

-- bbq_read_uleb128
unfoldable pub read_uleb128 : ℕ → M ℕ
unfolding uleb_loop
read_uleb128 bits = uleb_loop bits (max_bytes bits) 0 0 0

-- bbq_read_uleb128_u32 and bbq_read_uleb128_u64; the cast to 32 bits is a remainder.
unfoldable pub read_uleb128_u32 : M ℕ
unfolding read_uleb128
read_uleb128_u32 = do v ← read_uleb128 32; pure (v % 2 ^ 32)

unfoldable pub read_uleb128_u64 : M ℕ
unfolding read_uleb128
read_uleb128_u64 = read_uleb128 64

-- The check of the last byte of bbq_read_sleb128: the padding bits against the sign bit.
unfoldable pub sleb_padding_ok : ℕ → ℕ → Bool
sleb_padding_ok byte avail =
    let low_mask = shr 0x7f (7 - avail) in
    let high_mask = 0x7f - low_mask in
    let hi = bit_and (bit_and byte 0x7f) high_mask in
    let expect = if bit_and byte (2 ^ (avail - 1)) == 0 then 0 else high_mask in hi == expect

-- `~(uint64_t)0 << shift`
abbrev pub ones_from : ℕ → ℕ
ones_from shift = shl 64 (2 ^ 64 - 1) shift

-- The loop of bbq_read_sleb128; the value is the pattern of the int64_t.
unfoldable pub sleb_loop : ℕ → ℕ → ℕ → ℕ → ℕ → M ℕ
unfolding sleb_padding_ok
sleb_loop bits zero i shift result c = fail sleb128_unterminated c
sleb_loop bits (suc rounds) i shift result c = bind (read_u8 c) (λ byte c'.
    let last = i == max_bytes bits - 1 in
    let result' = add_group result byte shift in
    let shift' = shift + 7 in
    let rest = sleb_loop bits rounds (i + 1) shift' result' c' in
    let extended =
      if ltb shift' 64 && not (bit_and byte 0x40 == 0)
      then bit_or result' (ones_from shift')
      else result' in
    if last && not (bit_and byte 0x80 == 0)
    then fail sleb128_too_long c'
    else if last && not (sleb_padding_ok byte (bits - shift))
    then fail sleb128_value_out_of_range c'
    else if bit_and byte 0x80 == 0
    then (done extended, c')
    else rest)

-- bbq_read_sleb128
unfoldable pub read_sleb128 : ℕ → M ℤ
unfolding sleb_loop
read_sleb128 bits = do v ← sleb_loop bits (max_bytes bits) 0 0 0; pure (to_signed 64 v)

-- bbq_read_sleb128_i32, _i64 and _s33
unfoldable pub read_sleb128_i32 : M ℤ
unfolding read_sleb128
read_sleb128_i32 = do v ← sleb_loop 32 (max_bytes 32) 0 0 0; pure (to_signed 32 (v % 2 ^ 32))

unfoldable pub read_sleb128_i64 : M ℤ
unfolding read_sleb128
read_sleb128_i64 = read_sleb128 64

unfoldable pub read_sleb128_s33 : M ℤ
unfolding read_sleb128
read_sleb128_s33 = do v ← sleb_loop 33 (max_bytes 33) 0 0 0; pure (to_signed 32 (v % 2 ^ 32))
