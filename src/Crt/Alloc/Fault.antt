-- ===== src/Crt/Alloc/Fault.antt =====
-- crt/bbq_alloc.c: the fault injector, an allocator that says no on schedule.
use bbq.Base.{
  ℕ, zero, suc, ◌+◌, ◌^◌, ◌≤◌, ◌<◌, ◌≡◌, refl, ap, ◌∙◌, ◌==◌, Bool, true, false, ltb, leb, not,
  if◌then◌else◌, arith, replicate, Bool-cases, inl, inr,
}
use bbq.Crt.Alloc.{Grants, add_size, mem_alloc, mem_resize}

-- bbq_faulty; `under` is what the allocator underneath will answer.
pub record Faulty : Type 0 where
  pub fail_at : ℕ
  pub served : ℕ
  pub once : Bool
  pub under : Grants

-- bbq_faulty_init
unfoldable pub faulty_init : ℕ → Bool → Grants → Faulty
faulty_init fail_at once under = record {
  fail_at = fail_at;
  served = 0;
  once = once;
  under = under;
}

-- faulty_bites, on the request about to be served
unfoldable pub faulty_bites : Faulty → Bool
faulty_bites f =
    let n = add_size f.served 1 in
    if f.fail_at == 0 then false else if f.once then n == f.fail_at else leb f.fail_at n

serve_one : Bool → Grants → Faulty → Bool × Faulty
serve_one granted under f =
    if granted
    then (true, record f { served = add_size f.served 1; under = under })
    else (false, record f { under = under })

-- faulty_alloc and faulty_resize
unfoldable pub faulty_alloc : Faulty → ℕ → Bool × Faulty
unfolding serve_one
faulty_alloc f n =
    let (granted, under) = mem_alloc f.under n in
    if faulty_bites f
    then (false, record f { served = add_size f.served 1 })
    else serve_one granted under f

unfoldable pub faulty_resize : Faulty → ℕ → Bool × Faulty
unfolding serve_one
faulty_resize f new_n =
    let (granted, under) = mem_resize f.under new_n in
    if faulty_bites f
    then (false, record f { served = add_size f.served 1 })
    else serve_one granted under f

-- `k` allocations of `n` bytes in a row: the last answer and the injector.
pub in_turn : ℕ → ℕ → Faulty → Bool × Faulty
in_turn zero n f = (true, f)
in_turn (suc k) n f = faulty_alloc (in_turn k n f).1 n

-- After `k` requests on an allocator that always answers yes.
record Served (fail_at : ℕ) (once : Bool) (m k : ℕ) (f : Faulty) : Type 0 where
  same : f.fail_at ≡ fail_at
  mode : f.once ≡ once
  count : f.served ≡ k
  left : ℕ
  grants : f.under ≡ replicate left true
  enough : m ≤ left + k

granted :
    (gs : Grants) (n left : ℕ)
    → 1 ≤ n
    → gs ≡ replicate (suc left) true
    → mem_alloc gs n ≡ (true, replicate left true)
unfolding mem_alloc
granted gs n left pos e = let some_ : (n == 0) ≡ false = ground arith in rw e (rw some_ refl)

yields : Bool → ℕ → ℕ → Bool
yields once fail_at n = if once then not (n == fail_at) else ltb n fail_at

bites_lem :
    (fail_at : ℕ) (once : Bool) (m k : ℕ) (f : Faulty)
    → 1 ≤ fail_at
    → suc k < 2 ^ 64
    → Served fail_at once m k f
    → faulty_bites f ≡ not (yields once fail_at (suc k))
unfolding faulty_bites yields
bites_lem fail_at true m k f some_ small s = ground (arith, s.same, s.mode, s.count)
bites_lem fail_at false m k f some_ small s = ground (arith, s.same, s.mode, s.count)

next-Served :
    (fail_at : ℕ) (once : Bool) (m k n : ℕ) (f : Faulty)
    → 1 ≤ n
    → k < m
    → m < 2 ^ 64
    → 1 ≤ fail_at
    → (left : ℕ) → f.under ≡ replicate left true
    → m ≤ left + k
    → Served fail_at once m k f
    → ((faulty_alloc f n).0 ≡ yields once fail_at (suc k))
      × Served fail_at once m (suc k) (faulty_alloc f n).1
unfolding faulty_alloc serve_one
next-Served fail_at once m k n f pos lt small some_ zero e enough s = absurd (omega arith)
next-Served fail_at once m k n f pos lt small some_ (suc left) e enough s =
    let g = granted f.under n left pos e in
    let b = bites_lem fail_at once m k f some_ (omega arith) s in
    let next : add_size f.served 1 ≡ suc k = omega (arith, s.count) in
    elim (Bool-cases (yields once fail_at (suc k))) [
      | inl yes_ ↦
          let calm : faulty_bites f ≡ false = b ∙ ap not yes_ in
          rw (calm, g, yes_)
            (
              refl,
              record {
                same = s.same;
                mode = s.mode;
                count = next;
                left = left;
                grants = refl;
                enough = omega arith;
              },
            )
      | inr no_ ↦
          let bite : faulty_bites f ≡ true = b ∙ ap not no_ in
          rw (bite, no_)
            (
              refl,
              record {
                same = s.same;
                mode = s.mode;
                count = next;
                left = suc left;
                grants = e;
                enough = omega arith;
              },
            )
    ]

in_turn-Served :
    (fail_at : ℕ) (once : Bool) (m k n : ℕ)
    → 1 ≤ n
    → k ≤ m
    → m < 2 ^ 64
    → 1 ≤ fail_at
    → Served fail_at once m k (in_turn k n (faulty_init fail_at once (replicate m true))).1
unfolding in_turn faulty_init
in_turn-Served fail_at once m zero n pos le small some_ = record {
  same = refl;
  mode = refl;
  count = refl;
  left = m;
  grants = refl;
  enough = omega arith;
}
in_turn-Served fail_at once m (suc k) n pos le small some_ =
    let s = in_turn-Served fail_at once m k n pos (omega arith) small some_ in
    (next-Served fail_at once m k n _ pos (omega arith) small some_ s.left s.grants s.enough s).1

-- On an allocator that grants every one of `m` requests, an injector set to `fail_at`, counted from 1,
-- answers the k-th allocation, for each k up to `m`, by its schedule: with `once` set it refuses the
-- request of that number and no other, and otherwise it refuses that one and every later one.
pub faulty_schedule :
    (fail_at : ℕ) (once : Bool) (m k n : ℕ)
    → 1 ≤ fail_at
    → 1 ≤ n
    → k < m
    → m < 2 ^ 64
    → (in_turn (suc k) n (faulty_init fail_at once (replicate m true))).0
      ≡ (if once then not (suc k == fail_at) else ltb (suc k) fail_at)
unfolding in_turn yields
faulty_schedule fail_at once m k n some_ pos lt small =
    let s = in_turn-Served fail_at once m k n pos (omega arith) small some_ in
    (next-Served fail_at once m k n _ pos lt small some_ s.left s.grants s.enough s).0
