-- ===== src/Read/Fixed.antt =====
-- backends/c/runtime/bbq_read.h: byte swapping and the fixed-width reads.
-- `host` is bbq_host_is_little_endian(): the byte order of the machine, a parameter. A float or a
-- double is its bit pattern, which the C code copies as such.
pub mod Swap
pub mod Laws
use bbq.Base.{
  ℕ, ◌+◌, ◌*◌, ◌/◌, ◌%◌, ◌^◌, Bool, true, false, List, [], ◌∷◌, bit_and, bit_or, ltb, not, ◌==◌,
  if◌then◌else◌, ℤ, to_signed,
}
use bbq.Crt.Alloc.{add_size}
use bbq.Read.Ctx.{
  Ctx, Outcome, done, failed, fault, M, pure, fail, ◌>>=◌, ◌>>◌, bind, load, copy_bytes,
  effective_end, Message, u8_overrun, u16be_overrun, u16le_overrun, u32be_overrun, u32le_overrun,
  u64be_overrun, u64le_overrun,
}

-- `(v << k)` in `w` bits, and `v >> k`.
abbrev pub shl : ℕ → ℕ → ℕ → ℕ
shl w v k = v * 2 ^ k % 2 ^ w

abbrev pub shr : ℕ → ℕ → ℕ
shr v k = v / 2 ^ k

-- bbq_bswap16, bbq_bswap32 and bbq_bswap64, as the portable branch has them.
unfoldable pub bswap16 : ℕ → ℕ
bswap16 v = bit_or (shr v 8) (v * 2 ^ 8) % 2 ^ 16

unfoldable pub bswap32 : ℕ → ℕ
bswap32 v =
    bit_or
      (bit_or (bit_or (bit_and (shr v 24) 0xFF) (bit_and (shr v 8) 0xFF00))
        (bit_and (shl 32 v 8) 0xFF0000))
      (bit_and (shl 32 v 24) 0xFF000000)

unfoldable pub bswap64 : ℕ → ℕ
bswap64 v =
    let b0 = bit_or (shr v 56) (bit_and (shr v 40) 0xFF00) in
    let b1 = bit_or b0 (bit_and (shr v 24) 0xFF0000) in
    let b2 = bit_or b1 (bit_and (shr v 8) 0xFF000000) in
    let b3 = bit_or b2 (bit_and (shl 64 v 8) 0xFF00000000) in
    let b4 = bit_or b3 (bit_and (shl 64 v 24) 0xFF0000000000) in
    let b5 = bit_or b4 (bit_and (shl 64 v 40) 0xFF000000000000) in bit_or b5 (shl 64 v 56)

-- What memcpy of the bytes into an integer gives on each kind of host.
unfoldable pub le_value : List ℕ → ℕ
le_value [] = 0
le_value (b ∷ bs) = b + 256 * le_value bs

unfoldable pub be_from : ℕ → List ℕ → ℕ
be_from acc [] = acc
be_from acc (b ∷ bs) = be_from (acc * 256 + b) bs

unfoldable pub be_value : List ℕ → ℕ
unfolding be_from
be_value bs = be_from 0 bs

unfoldable pub host_value : Bool → List ℕ → ℕ
unfolding le_value be_value
host_value host bs = if host then le_value bs else be_value bs

-- bbq_read_u8, bbq_read_i8 and bbq_read_bool
unfoldable pub read_u8 : M ℕ
unfolding load
read_u8 c =
    if ltb (effective_end c) (add_size c.pos 1)
    then fail u8_overrun c
    else bind (load c.pos c) (λ b c'. (done b, record c' { pos = add_size c'.pos 1 }))

unfoldable pub read_i8 : M ℤ
unfolding read_u8
read_i8 = do v ← read_u8; pure (to_signed 8 v)

unfoldable pub read_bool : M Bool
unfolding read_u8
read_bool = do v ← read_u8; pure (not (v == 0))

-- The shape of the reads below: the check, the copy, the byte order, the advance.
unfoldable pub read_word : ℕ → Message → (List ℕ → ℕ) → M ℕ
unfolding copy_bytes
read_word n msg value c =
    if ltb (effective_end c) (add_size c.pos n)
    then fail msg c
    else bind (copy_bytes c.pos n c)
        (λ bs c'. (done (value bs), record c' { pos = add_size c'.pos n }))

module _ (host : Bool) where
  -- The byte order is turned round where it is not the host's.
  unfoldable pub from_be : (ℕ → ℕ) → List ℕ → ℕ
  from_be swap bs = if host then swap (host_value host bs) else host_value host bs

  unfoldable pub from_le : (ℕ → ℕ) → List ℕ → ℕ
  from_le swap bs = if host then host_value host bs else swap (host_value host bs)

  -- bbq_read_u16be and the other unsigned reads of a fixed byte order
  unfoldable pub read_u16be : M ℕ
  read_u16be = read_word 2 u16be_overrun (from_be bswap16)

  unfoldable pub read_u16le : M ℕ
  read_u16le = read_word 2 u16le_overrun (from_le bswap16)

  unfoldable pub read_u32be : M ℕ
  read_u32be = read_word 4 u32be_overrun (from_be bswap32)

  unfoldable pub read_u32le : M ℕ
  read_u32le = read_word 4 u32le_overrun (from_le bswap32)

  unfoldable pub read_u64be : M ℕ
  read_u64be = read_word 8 u64be_overrun (from_be bswap64)

  unfoldable pub read_u64le : M ℕ
  read_u64le = read_word 8 u64le_overrun (from_le bswap64)

  -- bbq_read_i16be and the other signed reads of a fixed byte order
  unfoldable pub read_i16be : M ℤ
  read_i16be = do v ← read_u16be; pure (to_signed 16 v)

  unfoldable pub read_i16le : M ℤ
  read_i16le = do v ← read_u16le; pure (to_signed 16 v)

  unfoldable pub read_i32be : M ℤ
  read_i32be = do v ← read_u32be; pure (to_signed 32 v)

  unfoldable pub read_i32le : M ℤ
  read_i32le = do v ← read_u32le; pure (to_signed 32 v)

  unfoldable pub read_i64be : M ℤ
  read_i64be = do v ← read_u64be; pure (to_signed 64 v)

  unfoldable pub read_i64le : M ℤ
  read_i64le = do v ← read_u64le; pure (to_signed 64 v)

  -- The reads that follow the endian register.
  unfoldable pub read_u16 : M ℕ
  read_u16 c = if c.little_endian then read_u16le c else read_u16be c

  unfoldable pub read_i16 : M ℤ
  read_i16 c = if c.little_endian then read_i16le c else read_i16be c

  unfoldable pub read_u32 : M ℕ
  read_u32 c = if c.little_endian then read_u32le c else read_u32be c

  unfoldable pub read_i32 : M ℤ
  read_i32 c = if c.little_endian then read_i32le c else read_i32be c

  unfoldable pub read_u64 : M ℕ
  read_u64 c = if c.little_endian then read_u64le c else read_u64be c

  unfoldable pub read_i64 : M ℤ
  read_i64 c = if c.little_endian then read_i64le c else read_i64be c

  -- bbq_read_f32be, f32le, f64be, f64le, f32 and f64: the bit patterns
  unfoldable pub read_f32be : M ℕ
  read_f32be = do v ← read_u32be; pure v

  unfoldable pub read_f32le : M ℕ
  read_f32le = do v ← read_u32le; pure v

  unfoldable pub read_f64be : M ℕ
  read_f64be = do v ← read_u64be; pure v

  unfoldable pub read_f64le : M ℕ
  read_f64le = do v ← read_u64le; pure v

  unfoldable pub read_f32 : M ℕ
  read_f32 c = if c.little_endian then read_f32le c else read_f32be c

  unfoldable pub read_f64 : M ℕ
  read_f64 c = if c.little_endian then read_f64le c else read_f64be c
