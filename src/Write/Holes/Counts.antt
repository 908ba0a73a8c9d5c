-- ===== src/Write/Holes/Counts.antt =====
-- backends/c/runtime/bbq_runtime.h: bbq_w_patch_count, with the count and the `@rest` holes that are
-- open when it is called.
use bbq.Base.{
  ltb, Bool-cases, inl, inr, ℕ, ◌+◌, ◌-◌, ◌/◌, ◌≤◌, ◌<◌, ◌≡◌, ◌≢◌, refl, ap, ap₂, ◌∙◌, Bool, true,
  false, List, ◌++◌, Option, none, some, leb, ==_iff, arith, length, take, drop, length-take,
  take-append_long,
}
use bbq.Crt.Alloc.{sub_size}
use bbq.Crt.Vec.{Vec, vec_cap}
use bbq.Read.Ctx.{at}
use bbq.Write.Buffer.{WriteCtx, poke, written, PostW, PostW_then}
use bbq.Write.Buffer.Reserve.{IsBuffer, Reserved, Untouched, reserve_lem}
use bbq.Write.Buffer.Emit.{poke-length}
use bbq.Write.Fixed.{host_bytes}
use bbq.Write.Leb.{uleb128_encode}
use bbq.Write.Holes.{insert_at, prefix_bytes, shift_holes, is_skipped, patch_count}
use bbq.Write.Holes.Shift.{Follows, behind_insertion, shifted, shifted_own}
use bbq.Write.Holes.Rest.{take-drop, take-insert_at, insert_at-length}

-- The writer after an LEB128 count has gone into hole `id`.
pub record CountPatched (id count : ℕ) (c c' : WriteCtx) : Type 0 where
  pub valid : IsBuffer c'
  pub output :
      written c'
      ≡ take (at c.count_holes id) c.buf
        ++ (uleb128_encode count ++ drop (at c.count_holes id) (written c))
  pub own : at c'.count_holes id ≡ at c.count_holes id
  pub count_holes :
      (i : ℕ)
      → i < vec_cap c.count_holes
      → i ≢ id
      → Follows
          (at c.count_holes id)
          (length (uleb128_encode count))
          (written c)
          (written c')
          (at c.count_holes i)
          (at c'.count_holes i)
  pub rest_depth : c'.rest_depth ≡ c.rest_depth
  pub rest_holes :
      (j : ℕ)
      → j < c.rest_depth
      → Follows
          (at c.count_holes id)
          (length (uleb128_encode count))
          (written c)
          (written c')
          (at c.rest_holes j)
          (at c'.rest_holes j)

module _ (id count width : ℕ) (narrow : width ≤ 64) (little : Bool) (c : WriteCtx)
    (known : id < vec_cap c.count_holes)
    (counts : (i : ℕ) → i < vec_cap c.count_holes → at c.count_holes i ≤ c.pos)
    (rests : (j : ℕ) → j < c.rest_depth → at c.rest_holes j ≤ c.pos) (h : IsBuffer c) where
  patched : WriteCtx → WriteCtx
  patched c' =
      let hole = at c.count_holes id in
      let tmp = uleb128_encode count in
      record c' {
        buf = insert_at hole tmp (c.pos - hole) c'.buf;
        pos = c'.pos + length tmp;
        count_holes =
            shift_holes (some id) (vec_cap c.count_holes) hole (length tmp) c'.count_holes;
        rest_holes = shift_holes none c'.rest_depth hole (length tmp) c'.rest_holes;
      }

  module _ (c' : WriteCtx) (r : Reserved (length (uleb128_encode count)) c c') where
    patched-output :
        written (patched c')
        ≡ take (at c.count_holes id) c.buf
          ++ (uleb128_encode count ++ drop (at c.count_holes id) (written c))
    unfolding patched
    patched-output =
        let hole = at c.count_holes id in
        let tmp = uleb128_encode count in
        let rest = c.pos - hole in
        let room : hole + rest + length tmp ≤ length c'.buf =
          omega (arith, r.room, counts id known) in
        let end_ : c'.pos + length tmp ≡ hole + rest + length tmp =
          omega (arith, r.pos, counts id known) in
        let same : take (hole + rest) c'.buf ≡ written c =
          r.bytes (hole + rest) (omega (arith, h.within, counts id known))
          ∙ ap (λ (n : ℕ). take n c.buf) {x = hole + rest} {y = c.pos}
              (omega (arith, counts id known)) in
        ap (λ (n : ℕ). take n (insert_at hole tmp rest c'.buf)) end_
        ∙ take-insert_at hole tmp rest c'.buf room
        ∙ ap₂ (λ l t. l ++ (tmp ++ drop hole t))
            (r.bytes hole (omega (arith, h.within, counts id known))) same

    -- A hole that the loop moved or kept points at what it pointed at.
    moved-Follows :
        (old new : ℕ)
        → (at c.count_holes id < old → new ≡ old + length (uleb128_encode count))
        → (old ≤ at c.count_holes id → new ≡ old)
        → Follows
            (at c.count_holes id)
            (length (uleb128_encode count))
            (written c)
            (written (patched c'))
            old
            new
    moved-Follows old new up stay =
        let hole = at c.count_holes id in
        let tmp = uleb128_encode count in
        elim (Bool-cases (ltb hole old)) [
          | inl b ↦
              let new_is = up (ground arith) in
              rw b (
                new_is,
                ap₂ (λ (n : ℕ) t. drop n t) new_is patched-output
                    ∙ behind_insertion hole old (take hole c.buf) tmp (written c)
                        (omega (arith, length-take hole c.buf, h.within, counts id known))
                        (ground arith),
              )
          | inr b ↦ rw b (stay (ground arith))
        ]

    follows :
        (skip : Option ℕ) (bound i old : ℕ) (v : Vec ℕ)
        → at v i ≡ old
        → old ≤ c.pos
        → i < bound
        → is_skipped skip i ≡ false
        → Follows
            (at c.count_holes id)
            (length (uleb128_encode count))
            (written c)
            (written (patched c'))
            old
            (at (shift_holes skip bound (at c.count_holes id) (length (uleb128_encode count)) v) i)
    follows skip bound i old v e le lt keep =
        let n = length (uleb128_encode count) in
        let s =
          shifted skip bound (at c.count_holes id) n i v lt keep
            (omega (arith, e, le, r.room, r.pos, r.valid.fits)) in
        moved-Follows old _ (λ a. s.0 (rw e a) ∙ ap (λ (m : ℕ). m + n) e) (λ b. s.1 (rw e b) ∙ e)

    patched-CountPatched : CountPatched id count c (patched c')
    unfolding patched is_skipped
    patched-CountPatched =
        let hole = at c.count_holes id in
        let tmp = uleb128_encode count in
        let rest = c.pos - hole in
        let room : hole + rest + length tmp ≤ length c'.buf =
          omega (arith, r.room, counts id known) in
        let size = insert_at-length hole tmp rest c'.buf room in
        let same_counts : (i : ℕ) → at c'.count_holes i ≡ at c.count_holes i =
          λ i. ap (λ v. at v i) r.stacks.count_holes in
        record {
          valid = record {
            within = omega (arith, size, r.room, r.pos);
            fits = omega (arith, size, r.valid.fits);
          };
          output = patched-output;
          own =
              shifted_own (vec_cap c.count_holes) hole (length tmp) id c'.count_holes
              ∙ same_counts id;
          count_holes = λ i lt n.
              follows (some id) (vec_cap c.count_holes) i (at c.count_holes i) c'.count_holes
                (same_counts i) (counts i lt) lt (ground (arith, n, ==_iff i id));
          rest_depth = r.stacks.rest_depth;
          rest_holes = λ j lt.
              follows none c'.rest_depth j (at c.rest_holes j) c'.rest_holes
                (ap (λ v. at v j) r.stacks.rest_holes) (rests j lt)
                (omega (arith, r.stacks.rest_depth)) refl;
        }

  -- Where every open hole lies within what was written: an LEB128 patch of a hole puts the encoded
  -- count there in front of what was behind it. Every other count hole and every open `@rest` hole
  -- that stood behind it moves by the size of the count and points at the bytes it pointed at; those
  -- at or before it, and the patched one, stay; and the same `@rest`s are open. Or there was no room,
  -- and the buffer and the cursor are as they were.
  pub patch_count_lem :
      PostW
        (patch_count (some id) count width narrow true little c)
        (CountPatched id count c)
        (Untouched c)
  unfolding patch_count prefix_bytes patched
  patch_count_lem =
      let hole = at c.count_holes id in
      let size : sub_size c.pos hole ≡ c.pos - hole =
        omega (arith, h.within, h.fits, counts id known) in
      let there : leb (vec_cap c.count_holes) id ≡ false = ground arith in
      rw there (
        rw size (
          PostW_then _ _ (Reserved (length (uleb128_encode count)) c) (Untouched c) _ _
            (reserve_lem (length (uleb128_encode count)) c h) (λ c' r. patched-CountPatched c' r)
            (λ c' u. u)))

-- The writer after a count of a fixed width has gone into the hole that was kept for it.
pub record CountFilled (id : ℕ) (bs : List ℕ) (c c' : WriteCtx) : Type 0 where
  pub valid : IsBuffer c'
  pub stays : c'.pos ≡ c.pos
  pub output :
      written c'
      ≡ take (at c.count_holes id) c.buf
        ++ (bs ++ drop (at c.count_holes id + length bs) (written c))

take-poke_past :
    (hole end_ : ℕ) (bs buf : List ℕ)
    → hole + length bs ≤ end_
    → end_ ≤ length buf
    → take end_ (poke hole bs buf)
      ≡ take hole buf ++ (bs ++ drop (hole + length bs) (take end_ buf))
take-poke_past hole end_ bs buf le le' =
    let l = take hole buf in
    let len : length l ≡ hole = omega (arith, length-take hole buf) in
    let tail = drop (hole + length bs) buf in
    let more = end_ - (hole + length bs) in
    ap (λ (n : ℕ). take n (poke hole bs buf)) {x = end_} {y = length l + (length bs + more)}
      (omega (arith, len))
    ∙ take-append_long l (bs ++ tail) (length bs + more)
    ∙ ap (λ t. l ++ t) (take-append_long bs tail more)
    ∙ ap (λ t. l ++ (bs ++ t)) (take-drop more (hole + length bs) buf)
    ∙ ap (λ (n : ℕ). l ++ (bs ++ drop (hole + length bs) (take n buf)))
        {x = hole + length bs + more} {y = end_} (omega arith)

-- A count of a fixed width of at most 64 bits whose placeholder is within what was written replaces
-- exactly the placeholder, in the byte order asked for; every other byte and the cursor stay, and the
-- patch does not fail.
pub patch_count_fixed :
    (id count width : ℕ) (narrow : width ≤ 64) (little : Bool) (c : WriteCtx)
    → id < vec_cap c.count_holes
    → at c.count_holes id + length (host_bytes little (width / 8) count) ≤ c.pos
    → IsBuffer c
    → PostW
        (patch_count (some id) count width narrow false little c)
        (CountFilled id (host_bytes little (width / 8) count) c)
        (λ _. ⊥)
unfolding patch_count prefix_bytes
patch_count_fixed id count width narrow little c known inside h =
    let hole = at c.count_holes id in
    let bs = host_bytes little (width / 8) count in
    let there : leb (vec_cap c.count_holes) id ≡ false = ground arith in
    let len = poke-length hole bs c.buf (omega (arith, h.within, inside)) in
    rw there (record {
      valid = record { within = omega (arith, len, h.within); fits = omega (arith, len, h.fits) };
      stays = refl;
      output = take-poke_past hole c.pos bs c.buf inside h.within;
    })
