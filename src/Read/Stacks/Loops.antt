-- ===== src/Read/Stacks/Loops.antt =====
-- backends/c/runtime/bbq_read.h: bbq_push_loop_n and the calls of bbq_loop_next that follow it.
use bbq.Base.{
  ℕ, zero, suc, ◌+◌, ◌-◌, ◌%◌, ◌^◌, ◌≤◌, ◌<◌, ◌≡◌, refl, ◌∙◌, Bool, true, ltb, ◌==◌, ◌||◌, arith,
}
use bbq.Read.Ctx.{Ctx, at, Post, Post_if, Post_weaken}
use bbq.Read.Stacks.{
  push_loop_n, push_frame, loop_ensure, loop_next, loop_advance, loop_index, loop_limit, write_at,
}
use bbq.Read.Stacks.Laws.{at-write_self}

-- The innermost frame: its index and its limit.
pub record IsFrame (index limit : ℕ) (c : Ctx) : Type 0 where
  pub there : 1 ≤ c.loop_depth
  pub index_is : loop_index c ≡ index
  pub limit_is : loop_limit c ≡ limit

push-IsFrame :
    (limit : ℕ) (c : Ctx) → Post (push_loop_n limit c) (λ _ c'. IsFrame 0 limit c') (λ _. Unit {0})
unfolding push_loop_n push_frame loop_index loop_limit
push-IsFrame limit c =
    let (there, c') = loop_ensure c in
    Post_if there _ _ _ _
      (λ e. record {
        there = omega arith;
        index_is = ground (arith, at-write_self c'.loop_indices c.loop_depth 0);
        limit_is = ground (arith, at-write_self c'.loop_limits c.loop_depth limit);
      })
      (λ e. tt)

next-IsFrame :
    (index limit : ℕ) (c : Ctx)
    → index < limit
    → limit < 2 ^ 63
    → IsFrame index limit c
    → ((loop_next c).0 ≡ ltb (suc index) limit) × IsFrame (suc index) limit (loop_next c).1
unfolding loop_next loop_advance loop_index loop_limit
next-IsFrame index limit c lt small f =
    let there : ltb 0 c.loop_depth ≡ true = ground (arith, f.there) in
    let d = c.loop_depth - 1 in
    let idx : at c.loop_indices d ≡ index = ground (arith, f.index_is) in
    let lim : at c.loop_limits d ≡ limit = ground (arith, f.limit_is) in
    let v = write_at c.loop_indices d ((at c.loop_indices d + 1) % 2 ^ 64) in
    let new : at v d ≡ suc index =
      at-write_self c.loop_indices d ((at c.loop_indices d + 1) % 2 ^ 64)
      ∙ omega (arith, idx, lt, small) in
    (
      ground (arith, new, lim),
      record {
        there = ground (arith, f.there);
        index_is = ground (arith, new);
        limit_is = ground (arith, lim);
      },
    )

-- `k` calls of bbq_loop_next in a row: the last answer and the context.
pub turns : ℕ → Ctx → Bool × Ctx
unfolding loop_next
turns zero c = (true, c)
turns (suc k) c = loop_next (turns k c).1

turns-IsFrame :
    (limit : ℕ) (c : Ctx) (k : ℕ)
    → k ≤ limit
    → limit < 2 ^ 63
    → IsFrame 0 limit c
    → IsFrame k limit (turns k c).1
unfolding turns
turns-IsFrame limit c zero le small f = f
turns-IsFrame limit c (suc k) le small f =
    (next-IsFrame k limit (turns k c).1 (omega arith) small
      (turns-IsFrame limit c k (omega arith) small f)).1

nth_turn :
    (limit : ℕ) (c : Ctx) (k : ℕ)
    → k ≤ limit
    → limit < 2 ^ 63
    → IsFrame 0 limit c
    → (turns k c).0 ≡ (k == 0 || ltb k limit)
unfolding turns
nth_turn limit c zero le small f = refl
nth_turn limit c (suc k) le small f =
    let n =
      next-IsFrame k limit (turns k c).1 (omega arith) small
        (turns-IsFrame limit c k (omega arith) small f) in
    ground (arith, n.0)

-- After a successful bbq_push_loop_n of a count that is no negative int64_t, and for each k up to the
-- count: k calls of bbq_loop_next in a row leave the innermost frame with the index k and the count
-- as its limit, and the last of them, where there is one, answers whether k is below the count.
pub push_loop_n-turns :
    (limit k : ℕ) (c : Ctx)
    → limit < 2 ^ 63
    → k ≤ limit
    → Post
        (push_loop_n limit c)
        (λ _ c'. IsFrame k limit (turns k c').1 × ((turns k c').0 ≡ (k == 0 || ltb k limit)))
        (λ _. Unit {0})
push_loop_n-turns limit k c small le =
    Post_weaken (push_loop_n limit c) _ _ _ _ (push-IsFrame limit c)
      (λ _ c' f. (turns-IsFrame limit c' k le small f, nth_turn limit c' k le small f)) (λ _ _. tt)
