-- ===== src/Write/Buffer/Reserve.antt =====
-- backends/c/runtime/bbq_runtime.h: bbq_write_reserve, which makes room.
use bbq.Base.{
  ℕ, zero, suc, ◌+◌, ◌-◌, ◌*◌, ◌/◌, ◌^◌, ◌≤◌, ◌<◌, ◌≡◌, refl, ap, ◌∙◌, ◌&&◌, ◌++◌, ltb, leb,
  if◌then◌else◌, arith, length, take, replicate, length-append, length-replicate, take-append_short,
  not, Bool-cases, inl, inr,
}
use native.Mathlib.Nat.{pow-suc, one-le-pow}
use bbq.Crt.Alloc.{size_max, mem_resize}
use bbq.Write.Buffer.{
  WriteCtx, capacity, double_until, new_capacity, grow_to, reserve, PostW, PostW_if,
}

group_up : (n p : ℕ) → 1 ≤ p → n ≤ n * p
group_up n p h = grind arith

-- With a start of at least 1, `fuel` rounds reach every size below 2^fuel times it.
double_until-reaches :
    (fuel newcap want : ℕ)
    → 1 ≤ newcap
    → want ≤ newcap * 2 ^ fuel
    → (want ≤ double_until fuel newcap want) × (newcap ≤ double_until fuel newcap want)
unfolding double_until
double_until-reaches zero newcap want pos enough = (omega arith, omega arith)
double_until-reaches (suc fuel) newcap want pos enough =
    let p = one-le-pow fuel 2 (omega arith) in
    let twice : want ≤ newcap * 2 * 2 ^ fuel =
      omega (arith, enough, ap (λ (t : ℕ). newcap * t) (pow-suc 2 fuel)) in
    elim (Bool-cases (ltb newcap want)) [
      | inr e ↦ ground arith
      | inl e ↦ elim (Bool-cases (ltb (size_max / 2) newcap)) [
        | inl big ↦
            simp (e, big)
              (ground (
                arith,
                double_until-reaches fuel want want (ground arith)
                    (omega (arith, group_up want (2 ^ fuel) p)),
              ))
        | inr small ↦
            simp (e, small)
              (ground (arith, double_until-reaches fuel (newcap * 2) want (omega arith) twice))
      ]
    ]

pub new_capacity-reaches :
    (need : ℕ) (c : WriteCtx)
    → c.pos + need ≤ 2 ^ 64
    → (c.pos + need ≤ new_capacity need c) × (capacity c ≤ new_capacity need c)
unfolding new_capacity
new_capacity-reaches need c h =
    let start = if ltb 0 (capacity c) then capacity c else 64 in
    let pos : 1 ≤ start = ground arith in
    let le : capacity c ≤ start = ground arith in
    let d = double_until-reaches 65 start (c.pos + need) pos (omega (arith, pos)) in
    (d.0, omega (arith, d.1, le))

-- A buffer whose cursor is in it, and whose size a size_t holds.
pub record IsBuffer (c : WriteCtx) : Type 0 where
  pub within : c.pos ≤ capacity c
  pub fits : capacity c < 2 ^ 64

-- The stacks of the writer, and the byte order, as they were.
pub record SameStacks (c c' : WriteCtx) : Type 0 where
  pub rest_holes : c'.rest_holes ≡ c.rest_holes
  pub rest_depth : c'.rest_depth ≡ c.rest_depth
  pub count_holes : c'.count_holes ≡ c.count_holes
  pub endian : c'.little_endian ≡ c.little_endian

abbrev same_stacks : (c : WriteCtx) → SameStacks c c
same_stacks c = record { rest_holes = refl; rest_depth = refl; count_holes = refl; endian = refl }

pub SameStacks_trans :
    (c c' c'' : WriteCtx) → SameStacks c c' → SameStacks c' c'' → SameStacks c c''
SameStacks_trans c c' c'' s t = record {
  rest_holes = t.rest_holes ∙ s.rest_holes;
  rest_depth = t.rest_depth ∙ s.rest_depth;
  count_holes = t.count_holes ∙ s.count_holes;
  endian = t.endian ∙ s.endian;
}

-- After room was made: the same bytes up to the cursor, and the room.
pub record Reserved (need : ℕ) (c c' : WriteCtx) : Type 0 where
  pub valid : IsBuffer c'
  pub pos : c'.pos ≡ c.pos
  pub room : c.pos + need ≤ capacity c'
  pub bytes : (i : ℕ) → i ≤ capacity c → take i c'.buf ≡ take i c.buf
  pub more : capacity c ≤ capacity c'
  pub stacks : SameStacks c c'

double_until-bound :
    (fuel newcap want : ℕ)
    → newcap ≤ size_max
    → want ≤ size_max
    → double_until fuel newcap want ≤ size_max
unfolding double_until
double_until-bound zero newcap want h k = h
double_until-bound (suc fuel) newcap want h k =
    let next = if ltb (size_max / 2) newcap then want else newcap * 2 in
    let le : next ≤ size_max = ground arith in
    ground (arith, double_until-bound fuel next want le k)

pub new_capacity-bound :
    (need : ℕ) (c : WriteCtx)
    → IsBuffer c
    → c.pos + need ≤ size_max
    → new_capacity need c ≤ size_max
unfolding new_capacity
new_capacity-bound need c h k =
    let start = if ltb 0 (capacity c) then capacity c else 64 in
    let le : start ≤ size_max = ground arith in double_until-bound 65 start (c.pos + need) le k

-- What a refusal leaves.
pub record Untouched (c c' : WriteCtx) : Type 0 where
  pub buf : c'.buf ≡ c.buf
  pub pos : c'.pos ≡ c.pos

module _ (need : ℕ) (c : WriteCtx) (h : IsBuffer c) where
  grow_to-Reserved :
      c.pos + need ≤ size_max
      → PostW (grow_to (new_capacity need c) c) (Reserved need c) (Untouched c)
  unfolding grow_to
  grow_to-Reserved fits =
      let cap = new_capacity need c in
      let r = new_capacity-reaches need c (omega arith) in
      let wide : length (c.buf ++ replicate (cap - capacity c) c.junk) ≡ cap = omega (
        arith,
        length-append c.buf (replicate (cap - capacity c) c.junk),
        length-replicate (cap - capacity c) c.junk,
        r.1,
      ) in
      PostW_if (mem_resize c.grants cap).0 _ _ (Reserved need c) (Untouched c)
        (λ e. record {
          valid = record {
            within = omega (arith, wide, h.within, r.1);
            fits = omega (arith, wide, new_capacity-bound need c h fits);
          };
          pos = refl;
          room = omega (arith, wide, r.0);
          bytes = λ i le. take-append_short i c.buf _ le;
          more = omega (arith, wide, r.1);
          stacks = record {
            rest_holes = refl;
            rest_depth = refl;
            count_holes = refl;
            endian = refl;
          };
        })
        (λ e. record { buf = refl; pos = refl })

  -- Room for `need` bytes: a success leaves the cursor and every byte of the old buffer and gives the
  -- room, in a buffer whose size a size_t still holds; a failure leaves the buffer and the cursor.
  pub reserve_lem : PostW (reserve need c) (Reserved need c) (Untouched c)
  unfolding reserve
  reserve_lem =
      let P = Reserved need c in
      let Q = Untouched c in
      let keep : Q c = record { buf = refl; pos = refl } in
      PostW_if (leb c.pos (capacity c) && leb need (capacity c - c.pos)) _ _ P Q
        (λ e. record {
          valid = h;
          pos = refl;
          room = ground arith;
          bytes = λ i le. refl;
          more = omega arith;
          stacks = same_stacks c;
        })
        (λ full.
          PostW_if (not c.owns) _ _ P Q (λ _. keep)
            (λ _.
              PostW_if (ltb (size_max - c.pos) need) _ _ P Q (λ _. keep)
                (λ e. grow_to-Reserved (ground arith))))
