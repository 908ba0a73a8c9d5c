-- ===== src/Write/Leb.antt =====
-- backends/c/runtime/bbq_runtime.h: the LEB128 writes.
pub mod RoundTrip
use bbq.Base.{
  ℕ, zero, suc, ◌+◌, ◌-◌, ◌*◌, ◌/◌, ◌%◌, ◌^◌, Bool, true, false, ◌&&◌, ◌||◌, not, List, [], ◌∷◌,
  ◌==◌, if◌then◌else◌, bit_and, bit_or, ℤ, pos, negsuc,
}
use bbq.Write.Buffer.{WriteCtx, W, and_then, write_u8}

-- One round of the unsigned loops: the byte for `val`, flagged where more is to come.
abbrev pub uleb_byte : ℕ → ℕ
uleb_byte val = if val / 2 ^ 7 == 0 then bit_and val 0x7f else bit_or (bit_and val 0x7f) 0x80

-- The loop of bbq_write_uleb128_u64 with the rounds left; ten are enough for 64 bits.
unfoldable pub write_uleb_loop : ℕ → ℕ → W
write_uleb_loop zero val c = (true, c)
write_uleb_loop (suc rounds) val c = and_then (write_u8 (uleb_byte val) c) (λ c'.
    let rest = write_uleb_loop rounds (val / 2 ^ 7) c' in
    if val / 2 ^ 7 == 0 then (true, c') else rest)

-- bbq_write_uleb128_u64 and bbq_write_uleb128_u32
unfoldable pub write_uleb128_u64 : ℕ → W
unfolding write_uleb_loop
write_uleb128_u64 val = write_uleb_loop 10 val

unfoldable pub write_uleb128_u32 : ℕ → W
unfolding write_uleb128_u64
write_uleb128_u32 val = write_uleb128_u64 val

-- bbq_uleb128_encode: the bytes put into the caller's buffer; their number is what it returns.
unfoldable pub encode_loop : ℕ → ℕ → List ℕ
encode_loop zero val = []
encode_loop (suc rounds) val =
    let rest = encode_loop rounds (val / 2 ^ 7) in
    if val / 2 ^ 7 == 0 then uleb_byte val ∷ [] else uleb_byte val ∷ rest

unfoldable pub uleb128_encode : ℕ → List ℕ
unfolding encode_loop
uleb128_encode val = encode_loop 10 val

-- `val & 0x7f` and the arithmetic `val >> 7` on an int64_t.
abbrev pub low_seven : ℤ → ℕ
low_seven (pos n) = n % 128
low_seven (negsuc n) = 127 - n % 128

abbrev pub sar_seven : ℤ → ℤ
sar_seven (pos n) = pos (n / 128)
sar_seven (negsuc n) = negsuc (n / 128)

-- `(val == 0 && !sign) || (val == -1 && sign)` on the shifted value and the byte.
abbrev pub sleb_ends : ℤ → ℕ → Bool
sleb_ends (pos n) byte = n == 0 && bit_and byte 0x40 == 0
sleb_ends (negsuc n) byte = n == 0 && not (bit_and byte 0x40 == 0)

-- The loop of bbq_write_sleb128_i64 with the rounds left; ten are enough for 64 bits.
unfoldable pub write_sleb_loop : ℕ → ℤ → W
write_sleb_loop zero val c = (true, c)
write_sleb_loop (suc rounds) val c =
    let byte = low_seven val in
    let rest =
      and_then (write_u8 (bit_or byte 0x80) c) (λ c'. write_sleb_loop rounds (sar_seven val) c') in
    if sleb_ends (sar_seven val) byte then write_u8 byte c else rest

-- bbq_write_sleb128_i64 and bbq_write_sleb128_i32
unfoldable pub write_sleb128_i64 : ℤ → W
unfolding write_sleb_loop
write_sleb128_i64 val = write_sleb_loop 10 val

unfoldable pub write_sleb128_i32 : ℤ → W
unfolding write_sleb128_i64
write_sleb128_i32 val = write_sleb128_i64 val
