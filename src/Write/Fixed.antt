-- ===== src/Write/Fixed.antt =====
-- backends/c/runtime/bbq_runtime.h: the fixed-width writes.
-- `host` is bbq_host_is_little_endian(); a float or a double is its bit pattern.
pub mod Forms
pub mod RoundTrip
use bbq.Base.{
  ℕ, zero, suc, ◌+◌, ◌*◌, ◌/◌, ◌%◌, ◌^◌, Bool, true, false, List, [], ◌∷◌, if◌then◌else◌, ℤ,
  to_pattern,
}
use bbq.Read.Fixed.{bswap16, bswap32, bswap64}
use bbq.Write.Buffer.{WriteCtx, W, emit, write_u8}

-- The bytes of an integer of `n` bytes in memory, on each kind of host.
unfoldable pub le_bytes : ℕ → ℕ → List ℕ
le_bytes zero v = []
le_bytes (suc n) v = (v % 256) ∷ le_bytes n (v / 256)

unfoldable pub be_bytes : ℕ → ℕ → List ℕ
be_bytes zero v = []
be_bytes (suc n) v = (v / 256 ^ n % 256) ∷ be_bytes n v

unfoldable pub host_bytes : Bool → ℕ → ℕ → List ℕ
unfolding le_bytes be_bytes
host_bytes host n v = if host then le_bytes n v else be_bytes n v

-- bbq_write_i8
unfoldable pub write_i8 : ℤ → W
write_i8 val = write_u8 (to_pattern 8 val)

module _ (host : Bool) where
  -- bbq_write_u16be and the other unsigned writes of a fixed byte order
  unfoldable pub write_u16be : ℕ → W
  write_u16be val = emit (host_bytes host 2 (if host then bswap16 val else val))

  unfoldable pub write_u16le : ℕ → W
  write_u16le val = emit (host_bytes host 2 (if host then val else bswap16 val))

  unfoldable pub write_u32be : ℕ → W
  write_u32be val = emit (host_bytes host 4 (if host then bswap32 val else val))

  unfoldable pub write_u32le : ℕ → W
  write_u32le val = emit (host_bytes host 4 (if host then val else bswap32 val))

  unfoldable pub write_u64be : ℕ → W
  write_u64be val = emit (host_bytes host 8 (if host then bswap64 val else val))

  unfoldable pub write_u64le : ℕ → W
  write_u64le val = emit (host_bytes host 8 (if host then val else bswap64 val))

  -- bbq_write_i16be and the other signed writes of a fixed byte order
  unfoldable pub write_i16be : ℤ → W
  write_i16be val = write_u16be (to_pattern 16 val)

  unfoldable pub write_i16le : ℤ → W
  write_i16le val = write_u16le (to_pattern 16 val)

  unfoldable pub write_i32be : ℤ → W
  write_i32be val = write_u32be (to_pattern 32 val)

  unfoldable pub write_i32le : ℤ → W
  write_i32le val = write_u32le (to_pattern 32 val)

  unfoldable pub write_i64be : ℤ → W
  write_i64be val = write_u64be (to_pattern 64 val)

  unfoldable pub write_i64le : ℤ → W
  write_i64le val = write_u64le (to_pattern 64 val)

  -- bbq_write_f32be, f32le, f64be and f64le
  unfoldable pub write_f32be : ℕ → W
  write_f32be val = write_u32be val

  unfoldable pub write_f32le : ℕ → W
  write_f32le val = write_u32le val

  unfoldable pub write_f64be : ℕ → W
  write_f64be val = write_u64be val

  unfoldable pub write_f64le : ℕ → W
  write_f64le val = write_u64le val

  -- The writes that follow the endian register.
  unfoldable pub write_u16 : ℕ → W
  write_u16 v c = if c.little_endian then write_u16le v c else write_u16be v c

  unfoldable pub write_i16 : ℤ → W
  write_i16 v c = if c.little_endian then write_i16le v c else write_i16be v c

  unfoldable pub write_u32 : ℕ → W
  write_u32 v c = if c.little_endian then write_u32le v c else write_u32be v c

  unfoldable pub write_i32 : ℤ → W
  write_i32 v c = if c.little_endian then write_i32le v c else write_i32be v c

  unfoldable pub write_u64 : ℕ → W
  write_u64 v c = if c.little_endian then write_u64le v c else write_u64be v c

  unfoldable pub write_i64 : ℤ → W
  write_i64 v c = if c.little_endian then write_i64le v c else write_i64be v c

  unfoldable pub write_f32 : ℕ → W
  write_f32 v c = if c.little_endian then write_f32le v c else write_f32be v c

  unfoldable pub write_f64 : ℕ → W
  write_f64 v c = if c.little_endian then write_f64le v c else write_f64be v c
