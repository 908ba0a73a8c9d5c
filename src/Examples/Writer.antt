-- ===== src/Examples/Writer.antt =====
-- backends/c/runtime/bbq_runtime.h on a caller's buffer of sixteen bytes, and readers of what it wrote.
use bbq.Base.{
  ◌≤◌, ◌<◌, ℕ, ◌≡◌, ◌==◌, refl, true, false, some, [], ◌∷◌, if◌then◌else◌, arith, replicate,
}
use bbq.Crt.Vec.{Vec, null, vec_cap}
use bbq.Read.Ctx.{Ctx, at, ctx_init, done}
use bbq.Read.Fixed.{bswap32}
use bbq.Read.Fixed.Laws.{IsParsing}
use bbq.Read.Leb.{read_uleb128_u64}
use bbq.Write.Buffer.{WriteCtx, write_ctx_init, PostW, capacity, poke, emit, written}
use bbq.Write.Buffer
use bbq.Write.Buffer.Reserve.{IsBuffer, Reserved, Untouched, reserve_lem}
use bbq.Write.Buffer.Emit.{Emitted, emit_lem}
use bbq.Write.Fixed.{host_bytes, be_bytes, write_u32be}
use bbq.Write.Fixed.Forms.{u32be, form_bytes, write_form, read_form, fixed_writes}
use bbq.Write.Fixed.RoundTrip.{read-write_fixed}
use bbq.Write.Leb.{write_uleb128_u64, uleb128_encode}
use bbq.Write.Leb.RoundTrip.{Encodes, Kept, write_uleb128_lem, read-write_uleb128}
use bbq.Write.Holes.{patch_count}
use bbq.Write.Holes.Counts.{CountPatched, CountFilled, patch_count_lem, patch_count_fixed}

abbrev buffer : WriteCtx
buffer = write_ctx_init (replicate 16 0) 0 []

buffer-IsBuffer : IsBuffer buffer
unfolding write_ctx_init Buffer.fresh null
buffer-IsBuffer = record { within = omega arith; fits = omega arith }

reserve_example : PostW (Buffer.reserve 20 buffer) (Reserved 20 buffer) (Untouched buffer)
reserve_example = reserve_lem 20 buffer buffer-IsBuffer

emit_example : PostW (emit (1 ∷ 2 ∷ []) buffer) (Emitted (1 ∷ 2 ∷ []) buffer) (Untouched buffer)
emit_example = emit_lem (1 ∷ 2 ∷ []) buffer buffer-IsBuffer

fixed_writes_example :
    PostW
      (write_form u32be true 0x01020304 buffer)
      (Emitted (form_bytes u32be 0x01020304) buffer)
      (Untouched buffer)
fixed_writes_example = fixed_writes u32be true 0x01020304 buffer (omega arith) buffer-IsBuffer

write_uleb128_example :
    PostW (write_uleb128_u64 300 buffer) (Emitted (uleb128_encode 300) buffer) (Kept buffer)
    × Encodes 300 10 (uleb128_encode 300)
write_uleb128_example = write_uleb128_lem 300 buffer (omega arith) buffer-IsBuffer

-- The buffer after 300 was written as LEB128, and a reader of those two bytes.
abbrev after_300 : WriteCtx
after_300 = record buffer { buf = 0xAC ∷ 2 ∷ replicate 14 0; pos = 2 }

wrote_300 : write_uleb128_u64 300 buffer ≡ (true, after_300)
unfolding write_uleb128_u64 write_ctx_init Buffer.fresh null Buffer.write_u8
wrote_300 = refl

abbrev reader_300 : Ctx
reader_300 = ctx_init (0xAC ∷ 2 ∷ []) []

read-write_uleb128_example :
    read_uleb128_u64 reader_300 ≡ (done 300, record reader_300 { pos = after_300.pos })
unfolding ctx_init write_ctx_init Buffer.fresh
read-write_uleb128_example =
    read-write_uleb128 300 buffer after_300 reader_300 (omega arith) buffer-IsBuffer wrote_300 refl
      refl refl

-- A little-endian host writes 0x01020304 big-endian, and a big-endian host reads it.
abbrev after_word : WriteCtx
after_word = record buffer { buf = 1 ∷ 2 ∷ 3 ∷ 4 ∷ replicate 12 0; pos = 4 }

wrote_word : write_form u32be true 0x01020304 buffer ≡ (true, after_word)
unfolding write_u32be write_ctx_init Buffer.fresh null Buffer.emit host_bytes bswap32
wrote_word = refl

abbrev reader_word : Ctx
reader_word = ctx_init (1 ∷ 2 ∷ 3 ∷ 4 ∷ []) []

reader_word-IsParsing : IsParsing reader_word
unfolding ctx_init
reader_word-IsParsing = record {
  confined = tt;
  bytes = omega arith;
  within = omega arith;
  fits = omega arith;
}

read-write_fixed_example :
    read_form u32be false reader_word
    ≡ (done 0x01020304, record reader_word { pos = after_word.pos })
unfolding ctx_init write_ctx_init Buffer.fresh
read-write_fixed_example =
    read-write_fixed u32be true false 0x01020304 buffer after_word reader_word (omega arith)
      buffer-IsBuffer wrote_word reader_word-IsParsing refl refl refl

-- Two bytes fit where six have been written.
abbrev sixth : WriteCtx
sixth = record buffer { pos = 6 }

sixth-IsBuffer : IsBuffer sixth
unfolding write_ctx_init Buffer.fresh null
sixth-IsBuffer = record { within = omega arith; fits = omega arith }

-- Holes at 1 and 3, with six bytes written.
abbrev holes : Vec ℕ
holes = record {
  len = 0;
  cap = 8;
  poisoned = false;
  slot = λ i. if i == 0 then some 1 else if i == 1 then some 3 else some 0;
}

abbrev with_rest : WriteCtx
with_rest = record sixth { rest_holes = holes; rest_depth = 2 }

narrow_16 : 16 ≤ 64
narrow_16 = omega arith

narrow_0 : 0 ≤ 64
narrow_0 = omega arith

-- One `@rest` open, at offset 2.
abbrev rests : Vec ℕ
rests = record { len = 0; cap = 8; poisoned = false; slot = λ i. some 2 }

abbrev with_counts : WriteCtx
with_counts = record sixth { count_holes = holes; rest_holes = rests; rest_depth = 1 }

with_counts-IsBuffer : IsBuffer with_counts
unfolding write_ctx_init Buffer.fresh null
with_counts-IsBuffer = record { within = omega arith; fits = omega arith }

holes-inside : (i : ℕ) → i < vec_cap with_counts.count_holes → at with_counts.count_holes i ≤ 6
unfolding vec_cap
holes-inside i lt = ground arith

-- The count 300 goes in at 1, in front of the other count hole and the open `@rest`.
patch_count_example :
    PostW
      (patch_count (some 0) 300 0 narrow_0 true false with_counts)
      (CountPatched 0 300 with_counts)
      (Untouched with_counts)
unfolding write_ctx_init Buffer.fresh vec_cap
patch_count_example =
    patch_count_lem 0 300 0 narrow_0 false with_counts (omega arith) holes-inside
      (λ j lt. omega arith) with_counts-IsBuffer

patch_count_fixed_example :
    PostW
      (patch_count (some 1) 258 16 narrow_16 false false with_counts)
      (CountFilled 1 (host_bytes false 2 258) with_counts)
      (λ _. ⊥)
unfolding write_ctx_init Buffer.fresh vec_cap host_bytes be_bytes
patch_count_fixed_example =
    patch_count_fixed 1 258 16 narrow_16 false with_counts (omega arith) (omega arith)
      with_counts-IsBuffer
