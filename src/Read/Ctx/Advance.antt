-- ===== src/Read/Ctx/Advance.antt =====
-- backends/c/runtime/bbq_read.h: bbq_advance, whose sum of cursor and distance is a size_t.
use bbq.Base.{ℕ, ◌+◌, ◌-◌, ◌^◌, ◌≤◌, ◌<◌, ◌≡◌, arith}
use bbq.Crt.Alloc.{add_size}
use bbq.Read.Ctx.{Ctx, done, advance, effective_end}

-- A distance that a size_t holds and that takes the sum to 2^64 or past it is not refused: from a
-- cursor inside the window, bbq_advance succeeds and moves the cursor back by 2^64 less the distance.
pub advance-wraps :
    (n : ℕ) (c : Ctx)
    → c.pos ≤ effective_end c
    → effective_end c < 2 ^ 64
    → n < 2 ^ 64
    → 2 ^ 64 ≤ c.pos + n
    → advance n c ≡ (done tt, record c { pos = c.pos - (2 ^ 64 - n) })
unfolding advance
advance-wraps n c inside small fits wraps =
    let sum : add_size c.pos n ≡ c.pos - (2 ^ 64 - n) = omega arith in ground (arith, sum)
