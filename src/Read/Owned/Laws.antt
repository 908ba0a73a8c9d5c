-- ===== src/Read/Owned/Laws.antt =====
-- backends/c/runtime/bbq_runtime.h: bbq_read_bytes, bbq_read_string and bbq_array_grow.
use bbq.Base.{
  ℕ, ◌+◌, ◌-◌, ◌*◌, ◌/◌, ◌^◌, ◌≤◌, ◌<◌, ◌≡◌, refl, sym, ap, ◌∙◌, ◌==◌, true, false, ◌&&◌, not, List,
  ◌++◌, ltb, leb, if◌then◌else◌, arith, length, take, drop, take_all, take-append_short,
  length-append, length-replicate, replicate, Answered, Bool-cases, inl, inr,
}
use bbq.Crt.Alloc.{size_max, add_size}
use bbq.Read.Ctx.{Ctx, Outcome, failed, fault, at, effective_end, copy_bytes, Post, Post_if}
use bbq.Read.Stacks.Laws.{at-write_self}
use bbq.Read.Window.Laws.{effective_end-le}
use bbq.Read.Fixed.Laws.{IsParsing}
use bbq.Read.Owned.{owned_resize, grown_cap, array_grow, read_bytes, read_string}

-- The bytes at the cursor were copied, and the cursor stands behind them.
pub record Copied (len : ℕ) (c : Ctx) (bs : List ℕ) (c' : Ctx) : Type 0 where
  pub inside : c.pos + len ≤ effective_end c
  pub bytes : bs ≡ take len (drop c.pos c.input)
  pub moved : c'.pos ≡ c.pos + len
  pub input : c'.input ≡ c.input

-- In a parse, and for a length that does not take the cursor to 2^64: a bytes read and a string read
-- each copy exactly the bytes at the cursor, all inside the window, and move the cursor behind them,
-- or fail and leave the cursor; neither reads outside the input.
pub owned_reads :
    (len : ℕ) (c : Ctx)
    → IsParsing c
    → c.pos + len < 2 ^ 64
    → Post (read_bytes len c) (λ bs c'. Copied len c bs c') (λ c'. c'.pos ≡ c.pos)
      × Post (read_string len c) (λ bs c'. Copied len c bs c') (λ c'. c'.pos ≡ c.pos)
unfolding read_bytes read_string copy_bytes
owned_reads len c h fits =
    let sum : add_size c.pos len ≡ c.pos + len = omega arith in
    let whole = effective_end-le c h.confined in
    elim (Bool-cases (ltb (effective_end c) (add_size c.pos len))) [
      | inl out ↦ simp out (refl, refl)
      | inr in_ ↦
          let room : leb (c.pos + len) (length c.input) ≡ true = ground arith in
          let copied : (c' : Ctx)
              → c'.pos ≡ c.pos + len
              → c'.input ≡ c.input
              → Copied len c (take len (drop c.pos c.input)) c' =
            λ c' p i. record { inside = ground arith; bytes = refl; moved = p; input = i } in
          simp (in_, room)
            (
              Post_if (owned_resize c.grants (if len == 0 then 1 else len)).0 _ _ _ _
                  (λ _. copied _ sum refl) (λ _. refl),
              Post_if (ltb len size_max && (owned_resize c.grants (add_size len 1)).0) _ _ _ _
                  (λ _. copied _ sum refl) (λ _. refl),
            )
    ]

-- The read got past its bound check: it reads outside the input, or says that memory is out.
abbrev pub Unbounded : Ctx → ℕ → Outcome (List ℕ) × Ctx → Type 0
Unbounded c bytes r =
    Answered (owned_resize c.grants bytes).0 (r.0 ≡ fault)
      ((r.0 ≡ failed) × (r.1.store_oom ≡ true) × (r.1.pos ≡ c.pos))

-- The store after a growth that was not refused: a slot for the current index, and the elements that
-- were there in front.
pub record Grown (items : List ℕ) (elem : ℕ) (c : Ctx) (items' : List ℕ) (c' : Ctx) : Type 0 where
  pub slot : at c.loop_indices (c.loop_depth - 1) < at c'.loop_caps (c.loop_depth - 1)
  pub size : length items' ≡ at c'.loop_caps (c.loop_depth - 1) * elem
  pub kept : take (at c.loop_caps (c.loop_depth - 1) * elem) items' ≡ items

slots_sum : (n k e : ℕ) → k ≤ n → k * e + (n - k) * e ≡ n * e
slots_sum n k e h = grind arith

grown_cap-le : (cap need : ℕ) → (need ≤ grown_cap cap need)
unfolding grown_cap
grown_cap-le cap need = ground arith

-- Inside a loop whose index and capacity do not reach 2^63, with a store of `cap` elements: growing the
-- store gives a slot for the current index, keeps every element in front and leaves whole elements, or
-- is refused, leaves the store and notes that memory is out.
pub array_grow_lem :
    (items : List ℕ) (elem : ℕ) (c : Ctx)
    → 1 ≤ c.loop_depth
    → at c.loop_indices (c.loop_depth - 1) < 2 ^ 63
    → length items ≡ at c.loop_caps (c.loop_depth - 1) * elem
    → Answered
        (array_grow items elem c).0
        (Grown items elem c (array_grow items elem c).1 (array_grow items elem c).2)
        (((array_grow items elem c).1 ≡ items) × ((array_grow items elem c).2.store_oom ≡ true))
unfolding array_grow
array_grow_lem items elem c inside small size =
    let d = c.loop_depth - 1 in
    let cap = at c.loop_caps d in
    let need = add_size (at c.loop_indices d) 1 in
    let sum : need ≡ at c.loop_indices d + 1 = omega arith in
    let newcap = grown_cap cap need in
    let gs = owned_resize c.grants (newcap * elem) in
    let deep : (c.loop_depth == 0) ≡ false = ground arith in
    elim (Bool-cases (leb need cap)) [
      | inl fits ↦
          simp (deep, fits)
            (record {
              slot = ground arith;
              size = size;
              kept = take_all (cap * elem) items (omega arith);
            })
      | inr tight ↦ elim (Bool-cases (not (elem == 0) && ltb (size_max / elem) newcap)) [
        | inl large ↦ simp (deep, tight, large) (refl, refl)
        | inr sane ↦ elim (Bool-cases gs.0) [
          | inl got ↦
              let wide : cap ≤ newcap = ground (arith, grown_cap-le cap need) in
              let new = at-write_self c.loop_caps d newcap in
              let zeros : List ℕ = replicate ((newcap - cap) * elem) 0 in
              let whole = take_all (cap * elem) items (omega (arith, size)) in
              simp (deep, tight, sane, got)
                (record {
                  slot = omega (arith, new, grown_cap-le cap need, sum);
                  size =
                      ap (λ t. length (t ++ zeros)) whole
                      ∙ length-append items zeros
                      ∙ omega (arith, size, length-replicate {A = ℕ} ((newcap - cap) * elem) 0)
                      ∙ slots_sum newcap cap elem wide
                      ∙ ap (λ (n : ℕ). n * elem) (sym new);
                  kept =
                      ap (λ t. take (cap * elem) (t ++ zeros)) whole
                      ∙ take-append_short (cap * elem) items zeros (omega (arith, size))
                      ∙ whole;
                })
          | inr none_ ↦ simp (deep, tight, sane, none_) (refl, refl)
        ]
      ]
    ]
