-- ===== src/Write/Buffer/Emit.antt =====
-- backends/c/runtime/bbq_runtime.h: the plain writes at the cursor.
use bbq.Base.{
  ℕ, ◌+◌, ◌≤◌, ◌≡◌, sym, ap, ◌∙◌, Bool, true, List, [], ◌++◌, arith, length, take, drop,
  length-append, length-take, length-drop, take-append_long, take-append_short, take-take, take_all,
  subst, drop-length_append,
}
use mathlib.Core.List.{append-nil}
use bbq.Write.Buffer.{WriteCtx, reserve, emit, poke, written, PostW, PostW_then}
use bbq.Write.Buffer.Reserve.{IsBuffer, Reserved, Untouched, SameStacks, reserve_lem}

-- What a poke leaves in front of its end, and how long the buffer is.
pub poke-length :
    (i : ℕ) (bs buf : List ℕ) → i + length bs ≤ length buf → length (poke i bs buf) ≡ length buf
poke-length i bs buf h = omega (
  arith,
  length-append (take i buf) (bs ++ drop (i + length bs) buf),
  length-append bs (drop (i + length bs) buf),
  length-take i buf,
  length-drop (i + length bs) buf,
)

pub take-poke :
    (i : ℕ) (bs buf : List ℕ)
    → i + length bs ≤ length buf
    → take (i + length bs) (poke i bs buf) ≡ take i buf ++ bs
take-poke i bs buf h =
    let rest = drop (i + length bs) buf in
    let len : length (take i buf) ≡ i = omega (arith, length-take i buf) in
    ap (λ (n : ℕ). take (n + length bs) (poke i bs buf)) (sym len)
    ∙ take-append_long (take i buf) (bs ++ rest) (length bs)
    ∙ ap (λ t. take i buf ++ t)
        (take-append_short (length bs) bs rest (omega arith)
          ∙ take_all (length bs) bs (omega arith))

-- Bytes in front of a poke stay.
pub take-poke_before :
    (j i : ℕ) (bs buf : List ℕ) → j ≤ i → i ≤ length buf → take j (poke i bs buf) ≡ take j buf
take-poke_before j i bs buf h k =
    take-append_short j (take i buf) (bs ++ drop (i + length bs) buf)
      (omega (arith, length-take i buf))
    ∙ take-take j i buf h

-- `bs` behind what was written.
pub record Emitted (bs : List ℕ) (c c' : WriteCtx) : Type 0 where
  pub valid : IsBuffer c'
  pub pos : c'.pos ≡ c.pos + length bs
  pub output : written c' ≡ written c ++ bs
  pub stacks : SameStacks c c'

module _ (bs : List ℕ) (c : WriteCtx) (h : IsBuffer c) where
  poked-Emitted :
      (c' : WriteCtx)
      → Reserved (length bs) c c'
      → Emitted bs c (record c' { buf = poke c'.pos bs c'.buf; pos = c'.pos + length bs })
  poked-Emitted c' r =
      let room : c'.pos + length bs ≤ length c'.buf = omega (arith, r.pos, r.room) in
      record {
        valid = record {
          within = omega (arith, poke-length c'.pos bs c'.buf room);
          fits = omega (arith, poke-length c'.pos bs c'.buf room, r.valid.fits);
        };
        pos = omega (arith, r.pos);
        output =
            take-poke c'.pos bs c'.buf room
            ∙ ap (λ t. t ++ bs) (ap (λ (n : ℕ). take n c'.buf) r.pos ∙ r.bytes c.pos h.within);
        stacks = record {
          rest_holes = r.stacks.rest_holes;
          rest_depth = r.stacks.rest_depth;
          count_holes = r.stacks.count_holes;
          endian = r.stacks.endian;
        };
      }

  -- A write of bytes appends exactly them to what was written and moves the cursor behind them, or it
  -- leaves buffer and cursor.
  pub emit_lem : PostW (emit bs c) (Emitted bs c) (Untouched c)
  unfolding emit
  emit_lem =
      PostW_then (reserve (length bs) c) _ (Reserved (length bs) c) (Untouched c) (Emitted bs c)
        (Untouched c) (reserve_lem (length bs) c h) (λ c' r. poked-Emitted c' r) (λ c' u. u)

-- What is behind the cursor of a write, when it has appended `bs`.
pub behind :
    (bs : List ℕ) (c c' : WriteCtx)
    → IsBuffer c
    → Emitted bs c c'
    → drop c.pos (written c') ≡ bs ++ []
behind bs c c' h e =
    let len : length (written c) ≡ c.pos = omega (arith, length-take c.pos c.buf, h.within) in
    ap (λ t. drop c.pos t) e.output
    ∙ ap (λ (n : ℕ). drop n (written c ++ bs)) {x = c.pos} {y = length (written c)}
        (omega (arith, len))
    ∙ drop-length_append (written c) bs
    ∙ sym (append-nil bs)

pub emitted_from_true :
    (P Q : WriteCtx → Type 0) (m : Bool × WriteCtx) (c' : WriteCtx)
    → m ≡ (true, c')
    → PostW m P Q
    → P c'
emitted_from_true P Q m c' e h = subst (λ (t : Bool × WriteCtx). PostW t P Q) e h
