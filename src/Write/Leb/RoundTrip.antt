-- ===== src/Write/Leb/RoundTrip.antt =====
-- backends/c/runtime/bbq_runtime.h: the unsigned LEB128 writers, and the strict readers of bbq_read.h
-- on what they wrote.
use bbq.Base.{
  ℕ, zero, suc, ◌+◌, ◌/◌, ◌%◌, ◌^◌, ◌≤◌, ◌<◌, ◌≡◌, refl, sym, ap, ap₂, ◌∙◌, Bool, true, false, List,
  [], ◌∷◌, ◌++◌, ◌==◌, arith, length, take, drop, length-take, bit_and, bit_and_mask, bit_or_flag,
  length-append,
}
use mathlib.Core.List.{append_assoc, append-nil}
use native.Mathlib.Nat.{pow-suc}
use native.Mathlib.Decide.{dec_lt}
use bbq.Read.Leb.Groups.{IsUleb, cons_IsUleb, uleb_value, uleb_value_nil, uleb_value_cons}
use bbq.Read.Ctx.{Ctx, done, effective_end}
use bbq.Read.Leb.{read_uleb128, read_uleb128_u64}
use bbq.Read.Leb.Uleb.{read_uleb128_accepts}
use bbq.Write.Buffer.{WriteCtx, and_then, write_u8, written, PostW, PostW_then}
use bbq.Write.Buffer.Reserve.{IsBuffer, Untouched, SameStacks_trans}
use bbq.Write.Buffer.Emit.{Emitted, emit_lem, behind, emitted_from_true}
use bbq.Write.Leb.{uleb_byte, write_uleb_loop, write_uleb128_u64, encode_loop, uleb128_encode}

low_byte : (v : ℕ) → bit_and v 0x7f ≡ v % 128
low_byte v = bit_and_mask 7 v

uleb_byte-last : (v : ℕ) → v < 128 → uleb_byte v ≡ v
uleb_byte-last v h = ground (arith, low_byte v)

uleb_byte-more : (v : ℕ) → 128 ≤ v → uleb_byte v ≡ v % 128 + 128
uleb_byte-more v h = ground (arith, low_byte v, bit_or_flag (bit_and v 0x7f))

encode_last : (rounds v : ℕ) → v < 128 → encode_loop (suc rounds) v ≡ v ∷ []
unfolding encode_loop
encode_last rounds v h = ground (arith, low_byte v)

encode_more :
    (rounds v : ℕ)
    → 128 ≤ v
    → encode_loop (suc rounds) v ≡ (v % 128 + 128) ∷ encode_loop rounds (v / 128)
unfolding encode_loop
encode_more rounds v h = ground (arith, low_byte v, bit_or_flag (bit_and v 0x7f))

-- An encoding of `v` in `n` bytes at most.
pub record Encodes (v n : ℕ) (bs : List ℕ) : Type 0 where
  pub encoding : IsUleb bs
  pub value : uleb_value bs ≡ v
  pub few : length bs ≤ n

last-Encodes : (rounds v : ℕ) → v < 128 → Encodes v (suc rounds) (encode_loop (suc rounds) v)
last-Encodes rounds v small = rw (encode_last rounds v small) (record {
  encoding = small;
  value = omega (arith, uleb_value_cons v [], uleb_value_nil);
  few = omega arith;
})

pub encode_loop-Encodes :
    (rounds v : ℕ) → v < 128 ^ suc rounds → Encodes v (suc rounds) (encode_loop (suc rounds) v)
encode_loop-Encodes zero v h = last-Encodes zero v (omega arith)
encode_loop-Encodes (suc r) v h = elim (dec_lt v 128) [
  | yes small ↦ last-Encodes (suc r) v small
  | no big ↦
      let rest : Encodes (v / 128) (suc r) (encode_loop (suc r) (v / 128)) =
        encode_loop-Encodes r (v / 128) (omega (arith, pow-suc 128 (suc r))) in
      rw (encode_more (suc r) v (omega arith)) (record {
        encoding = cons_IsUleb (v % 128 + 128) _ (omega arith) (omega arith) rest.encoding;
        value =
            omega
              (arith, uleb_value_cons (v % 128 + 128) (encode_loop (suc r) (v / 128)), rest.value);
        few = omega (arith, rest.few);
      })
]

pub uleb128_encode-Encodes : (v : ℕ) → v < 2 ^ 64 → Encodes v 10 (uleb128_encode v)
unfolding uleb128_encode
uleb128_encode-Encodes v small = encode_loop-Encodes 9 v (omega arith)

-- bbq_write_uleb128_u64 emits what bbq_uleb128_encode puts into the caller's buffer.
Emitted-cons :
    (b : ℕ) (bs : List ℕ) (c c' c'' : WriteCtx)
    → Emitted (b ∷ []) c c'
    → Emitted bs c' c''
    → Emitted (b ∷ bs) c c''
Emitted-cons b bs c c' c'' e f = record {
  valid = f.valid;
  pos = omega (arith, e.pos, f.pos);
  output = f.output ∙ ap (λ t. t ++ bs) e.output ∙ append_assoc (written c) (b ∷ []) bs;
  stacks = SameStacks_trans c c' c'' e.stacks f.stacks;
}

and_then_done : (m : Bool × WriteCtx) → and_then m (λ c. (true, c)) ≡ m
and_then_done (true, c) = refl
and_then_done (false, c) = refl

one_byte : (rounds v : ℕ) (c : WriteCtx) → v < 128 → write_uleb_loop (suc rounds) v c ≡ write_u8 v c
unfolding write_uleb_loop
one_byte rounds v c small =
    let stop : (v / 2 ^ 7 == 0) ≡ true = ground arith in
    let byte = uleb_byte-last v small in rw byte (rw stop (and_then_done (write_u8 v c)))

more_bytes :
    (rounds v : ℕ) (c : WriteCtx)
    → 128 ≤ v
    → write_uleb_loop (suc rounds) v c
      ≡ and_then (write_u8 (v % 128 + 128) c) (write_uleb_loop rounds (v / 128))
unfolding write_uleb_loop
more_bytes rounds v c big =
    let more : (v / 2 ^ 7 == 0) ≡ false = ground arith in
    let byte = uleb_byte-more v big in rw byte (rw more refl)

-- What was written stays in front of whatever a failure has left.
pub record Kept (c c' : WriteCtx) : Type 0 where
  pub more : List ℕ
  pub output : written c' ≡ written c ++ more

Untouched-Kept : (c : WriteCtx) → IsBuffer c → (c' : WriteCtx) → Untouched c c' → Kept c c'
Untouched-Kept c h c' u = record {
  more = [];
  output = ap₂ take u.pos u.buf ∙ sym (append-nil (written c));
}

Kept-after : {bs : List ℕ} (c c' c'' : WriteCtx) → Emitted bs c c' → Kept c' c'' → Kept c c''
Kept-after {bs} c c' c'' e k = record {
  more = bs ++ k.more;
  output = k.output ∙ ap (λ t. t ++ k.more) e.output ∙ append_assoc (written c) bs k.more;
}

PostW_weaken :
    (m : Bool × WriteCtx) (P Q : WriteCtx → Type 0) {P' Q' : WriteCtx → Type 0}
    → PostW m P Q
    → ((c : WriteCtx) → P c → P' c)
    → ((c : WriteCtx) → Q c → Q' c)
    → PostW m P' Q'
PostW_weaken (true, c) P Q h f g = f c h
PostW_weaken (false, c) P Q h f g = g c h

write_u8_lem :
    (b : ℕ) (c : WriteCtx) → IsBuffer c → PostW (write_u8 b c) (Emitted (b ∷ []) c) (Untouched c)
unfolding write_u8
write_u8_lem b c h = emit_lem (b ∷ []) c h

write_uleb_loop-Emitted :
    (rounds v : ℕ) (c : WriteCtx)
    → IsBuffer c
    → v < 128 ^ suc rounds
    → PostW (write_uleb_loop (suc rounds) v c) (Emitted (encode_loop (suc rounds) v) c) (Kept c)
write_uleb_loop-Emitted zero v c h lt =
    rw (one_byte zero v c (omega arith), encode_last zero v (omega arith))
      (PostW_weaken (write_u8 v c) _ _ (write_u8_lem v c h) (λ c' e. e) (Untouched-Kept c h))
write_uleb_loop-Emitted (suc r) v c h lt = elim (dec_lt v 128) [
  | yes small ↦
      rw (one_byte (suc r) v c small, encode_last (suc r) v small)
        (PostW_weaken (write_u8 v c) _ _ (write_u8_lem v c h) (λ c' e. e) (Untouched-Kept c h))
  | no big ↦
      let byte = v % 128 + 128 in
      let bs = encode_loop (suc r) (v / 128) in
      rw (more_bytes (suc r) v c (omega arith), encode_more (suc r) v (omega arith))
        (PostW_then (write_u8 byte c) _ (Emitted (byte ∷ []) c) (Kept c) _ _
          (PostW_weaken (write_u8 byte c) _ _ (write_u8_lem byte c h) (λ c' e. e)
            (Untouched-Kept c h))
          (λ c' e.
            PostW_weaken (write_uleb_loop (suc r) (v / 128) c') _ _
              (write_uleb_loop-Emitted r (v / 128) c' e.valid (omega (arith, pow-suc 128 (suc r))))
              (λ c'' f. Emitted-cons byte bs c c' c'' e f) (λ c'' k. Kept-after c c' c'' e k))
          (λ c' k. k))
]

-- bbq_write_uleb128_u64 appends exactly the bytes of bbq_uleb128_encode, at most ten of them and a
-- well-formed encoding of the value, to what was written, or fails with what was written still in
-- front.
pub write_uleb128_lem :
    (v : ℕ) (c : WriteCtx)
    → v < 2 ^ 64
    → IsBuffer c
    → PostW (write_uleb128_u64 v c) (Emitted (uleb128_encode v) c) (Kept c)
      × Encodes v 10 (uleb128_encode v)
unfolding write_uleb128_u64 uleb128_encode
write_uleb128_lem v c small h =
    (write_uleb_loop-Emitted 9 v c h (omega arith), encode_loop-Encodes 9 v (omega arith))

read_u64_lem : (r : Ctx) → read_uleb128_u64 r ≡ read_uleb128 64 r
unfolding read_uleb128_u64
read_u64_lem r = refl

-- What bbq_write_uleb128_u64 has written for `v`, bbq_read_uleb128_u64 reads back as `v` from where
-- the write began, with no window open, and the reader then stands where the writer does.
pub read-write_uleb128 :
    (v : ℕ) (c c' : WriteCtx) (r : Ctx)
    → v < 2 ^ 64
    → IsBuffer c
    → write_uleb128_u64 v c ≡ (true, c')
    → r.input ≡ written c'
    → r.pos ≡ c.pos
    → r.interval_depth ≡ 0
    → read_uleb128_u64 r ≡ (done v, record r { pos = c'.pos })
read-write_uleb128 v c c' r small h ran input pos open_ =
    let laws = write_uleb128_lem v c small h in
    let e : Emitted (uleb128_encode v) c c' =
      emitted_from_true _ (Kept c) (write_uleb128_u64 v c) c' ran laws.0 in
    let enc = laws.1 in
    let bs = uleb128_encode v in
    let whole : effective_end r ≡ length r.input = ground arith in
    let size : length r.input ≡ c.pos + length bs =
      ap length (input ∙ e.output)
      ∙ length-append (written c) bs
      ∙ omega (arith, length-take c.pos c.buf, h.within) in
    let at : drop r.pos r.input ≡ bs ++ [] = ap₂ (λ n l. drop n l) pos input ∙ behind bs c c' h e in
    let fits : r.pos + length bs < 2 ^ 64 =
      omega (arith, pos, e.pos, e.valid.within, e.valid.fits) in
    read_u64_lem r
    ∙ read_uleb128_accepts 64 (omega arith) (omega arith) bs [] r enc.encoding enc.few
        (omega (arith, enc.value)) at (omega (arith, whole, size, pos)) fits
    ∙ ap₂ (λ (x p : ℕ). (done x, record r { pos = p })) enc.value (omega (arith, pos, e.pos))
