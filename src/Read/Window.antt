-- ===== src/Read/Window.antt =====
-- backends/c/runtime/bbq_read.h: the interval stack, with its plain and its checked operations.
pub mod Laws
pub mod Confine
use bbq.Base.{ℕ, suc, ◌-◌, Bool, true, false, ◌||◌, ltb, ◌==◌, if◌then◌else◌}
use bbq.Read.Ctx.{
  Ctx, Outcome, done, failed, fault, M, fail, at, effective_start, effective_end,
  interval_out_of_range, oom_interval_stack, interval_unbalanced_pop, interval_size_mismatch,
}
use bbq.Read.Stacks.{stack_ensure, write_at}

-- bbq_pop_interval
unfoldable pub pop_interval : Ctx → Ctx
pop_interval c =
    if ltb 0 c.interval_depth then record c { interval_depth = c.interval_depth - 1 } else c

-- The two growths of a push; the second is not tried where the first failed.
unfoldable pub interval_ensure : Ctx → Bool × Ctx
interval_ensure c =
    let (a, v, gs) = stack_ensure 8 c.grants c.interval_starts c.interval_depth in
    let (b, w, gs') = stack_ensure 8 gs c.interval_ends c.interval_depth in
    if a
    then (b, record c { interval_starts = v; interval_ends = w; grants = gs' })
    else (false, record c { interval_starts = v; grants = gs })

-- bbq_push_interval_checked
unfoldable pub push_interval_checked : ℕ → M (Unit {0})
push_interval_checked end_pos c =
    if ltb end_pos c.pos || ltb c.pos (effective_start c) || ltb (effective_end c) end_pos
    then fail interval_out_of_range c
    else let (there, c') = interval_ensure c in
      if there
      then (
        done tt,
        record c' {
          interval_starts = write_at c'.interval_starts c.interval_depth c.pos;
          interval_ends = write_at c'.interval_ends c.interval_depth end_pos;
          interval_depth = suc c.interval_depth;
        },
      )
      else fail oom_interval_stack c'

-- bbq_pop_interval_checked: the depth goes down before the cursor is compared.
unfoldable pub pop_interval_checked : M (Unit {0})
pop_interval_checked c =
    let c' = record c { interval_depth = c.interval_depth - 1 } in
    if c.interval_depth == 0
    then fail interval_unbalanced_pop c
    else if c.pos == at c.interval_ends (c.interval_depth - 1)
    then (done tt, c')
    else fail interval_size_mismatch c'
