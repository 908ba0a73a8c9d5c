-- ===== src/Write/Stacks.antt =====
-- backends/c/runtime/bbq_runtime.h: the loop, scope and interval stacks of the write context, on the
-- stack growth that the reader uses. An int64_t is its bit pattern below 2^64.
use bbq.Base.{ℕ, ◌+◌, ◌-◌, ◌%◌, ◌^◌, true, false, ltb, if◌then◌else◌}
use bbq.Read.Ctx.{at}
use bbq.Read.Stacks.{stack_ensure, write_at, lt_int64}
use bbq.Write.Buffer.{WriteCtx, W, w_seek}

-- bbq_w_push_loop_base, bbq_w_pop_loop_base, bbq_w_cur_loop_base
unfoldable pub w_push_loop_base : ℕ → W
w_push_loop_base base c =
    let (there, v, gs) = stack_ensure 4 c.grants c.loop_bases c.loop_base_depth in
    let c' = record c { loop_bases = v; grants = gs } in
    if there
    then (
      true,
      record c' {
        loop_bases = write_at v c.loop_base_depth base;
        loop_base_depth = c.loop_base_depth + 1;
      },
    )
    else (false, c')

unfoldable pub w_pop_loop_base : WriteCtx → WriteCtx
w_pop_loop_base c =
    if ltb 0 c.loop_base_depth then record c { loop_base_depth = c.loop_base_depth - 1 } else c

unfoldable pub w_cur_loop_base : WriteCtx → ℕ
w_cur_loop_base c = if ltb 0 c.loop_base_depth then at c.loop_bases (c.loop_base_depth - 1) else 0

-- The two growths of bbq_w_push_loop_n and its stores.
unfoldable pub w_loop_ensure : W
w_loop_ensure c =
    let (a, v, gs) = stack_ensure 8 c.grants c.loop_indices c.loop_depth in
    let (b, w, gs') = stack_ensure 8 gs c.loop_limits c.loop_depth in
    if a
    then (b, record c { loop_indices = v; loop_limits = w; grants = gs' })
    else (false, record c { loop_indices = v; grants = gs })

unfoldable pub w_push_loop_n : ℕ → W
unfolding w_loop_ensure
w_push_loop_n limit c =
    let (there, c') = w_loop_ensure c in
    if there
    then (
      true,
      record c' {
        loop_indices = write_at c'.loop_indices c.loop_depth 0;
        loop_limits = write_at c'.loop_limits c.loop_depth limit;
        loop_depth = c.loop_depth + 1;
      },
    )
    else (false, c')

-- bbq_w_pop_loop, bbq_w_loop_next, bbq_w_loop_index, bbq_w_loop_index_at
unfoldable pub w_pop_loop : WriteCtx → WriteCtx
w_pop_loop c = if ltb 0 c.loop_depth then record c { loop_depth = c.loop_depth - 1 } else c

unfoldable pub w_loop_next : W
w_loop_next c =
    let top = c.loop_depth - 1 in
    let i = (at c.loop_indices top + 1) % 2 ^ 64 in
    if ltb 0 c.loop_depth
    then (
      lt_int64 i (at c.loop_limits top),
      record c { loop_indices = write_at c.loop_indices top i },
    )
    else (false, c)

unfoldable pub w_loop_index : WriteCtx → ℕ
w_loop_index c = if ltb 0 c.loop_depth then at c.loop_indices (c.loop_depth - 1) else 0

unfoldable pub w_loop_index_at : WriteCtx → ℕ → ℕ
w_loop_index_at c depth = if ltb depth c.loop_depth then at c.loop_indices depth else 0

-- bbq_w_push_scope, bbq_w_pop_scope, bbq_w_scope_ptr
unfoldable pub w_push_scope : ℕ → W
w_push_scope ptr c =
    let (there, v, gs) = stack_ensure 8 c.grants c.scopes c.scope_depth in
    let c' = record c { scopes = v; grants = gs } in
    if there
    then (
      true,
      record c' { scopes = write_at v c.scope_depth ptr; scope_depth = c.scope_depth + 1 },
    )
    else (false, c')

unfoldable pub w_pop_scope : WriteCtx → WriteCtx
w_pop_scope c = if ltb 0 c.scope_depth then record c { scope_depth = c.scope_depth - 1 } else c

unfoldable pub w_scope_ptr : WriteCtx → ℕ → ℕ
w_scope_ptr c levels_up =
    if ltb levels_up c.scope_depth then at c.scopes (c.scope_depth - 1 - levels_up) else 0

-- bbq_w_push_interval with its two growths, and bbq_w_pop_interval
unfoldable pub w_interval_ensure : W
w_interval_ensure c =
    let (a, v, gs) = stack_ensure 8 c.grants c.interval_starts c.interval_depth in
    let (b, w, gs') = stack_ensure 8 gs c.interval_ends c.interval_depth in
    if a
    then (b, record c { interval_starts = v; interval_ends = w; grants = gs' })
    else (false, record c { interval_starts = v; grants = gs })

unfoldable pub w_push_interval : ℕ → W
unfolding w_interval_ensure
w_push_interval end_pos c =
    let (there, c') = w_interval_ensure c in
    if there
    then (
      true,
      record c' {
        interval_starts = write_at c'.interval_starts c.interval_depth c.pos;
        interval_ends = write_at c'.interval_ends c.interval_depth end_pos;
        interval_depth = c.interval_depth + 1;
      },
    )
    else (false, c')

unfoldable pub w_pop_interval : W
unfolding w_seek
w_pop_interval c =
    let top = c.interval_depth - 1 in
    if ltb 0 c.interval_depth
    then w_seek (at c.interval_ends top) (record c { interval_depth = top })
    else (false, c)
