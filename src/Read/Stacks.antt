-- ===== src/Read/Stacks.antt =====
-- backends/c/runtime/bbq_read.h: the scope, loop and loop-base stacks of the read context.
-- A stack is a vector of crt/ indexed by the context's own depth. An int64_t is its bit pattern
-- below 2^64; a loop's index and limit compare as signed numbers.
pub mod Laws
pub mod Loops
use bbq.Base.{ℕ, ◌+◌, ◌-◌, ◌*◌, ◌%◌, ◌^◌, Bool, true, false, ◌&&◌, ltb, leb, ◌==◌, if◌then◌else◌}
use bbq.Crt.Alloc.{Grants}
use bbq.Crt.Vec.{Vec, vec_cap, reserve, write}
use bbq.Read.Ctx.{
  Ctx, Outcome, done, failed, fault, M, fail, at, oom_scope_stack, oom_loop_stack,
  oom_loop_base_stack,
}

-- BBQ__STACK_ENSURE: true iff `v[depth]` is there.
unfoldable pub stack_ensure : ℕ → Grants → Vec ℕ → ℕ → Bool × Vec ℕ × Grants
stack_ensure elem_size gs v depth =
    let sw = if ltb 0 (vec_cap v) then vec_cap v * 2 else 8 in
    let (w, gs') = reserve elem_size gs v sw in
    if ltb depth (vec_cap v) then (true, v, gs) else (leb sw (vec_cap w), w, gs')

abbrev pub write_at : Vec ℕ → ℕ → ℕ → Vec ℕ
write_at v i x = record v { slot = write v.slot i x }

-- bbq_push_scope, bbq_pop_scope, bbq_scope_ptr
unfoldable pub push_scope : ℕ → M (Unit {0})
push_scope ptr c =
    let (there, v, gs) = stack_ensure 8 c.grants c.scopes c.scope_depth in
    let c' = record c { scopes = v; grants = gs } in
    if there
    then (
      done tt,
      record c' { scopes = write_at v c.scope_depth ptr; scope_depth = c.scope_depth + 1 },
    )
    else fail oom_scope_stack c'

unfoldable pub pop_scope : Ctx → Ctx
pop_scope c = if ltb 0 c.scope_depth then record c { scope_depth = c.scope_depth - 1 } else c

unfoldable pub scope_ptr : Ctx → ℕ → ℕ
scope_ptr c levels_up =
    if ltb levels_up c.scope_depth then at c.scopes (c.scope_depth - 1 - levels_up) else 0

-- bbq__loop_ensure: the three arrays in turn, stopping at the first that did not grow.
unfoldable pub loop_ensure : Ctx → Bool × Ctx
loop_ensure c =
    let (a, v, gs) = stack_ensure 8 c.grants c.loop_indices c.loop_depth in
    let (b, w, gs') = stack_ensure 8 gs c.loop_limits c.loop_depth in
    let (d, u, gs'') = stack_ensure 8 gs' c.loop_caps c.loop_depth in
    if a
    then (if b
        then (d, record c { loop_indices = v; loop_limits = w; loop_caps = u; grants = gs'' })
        else (false, record c { loop_indices = v; loop_limits = w; grants = gs' }))
    else (false, record c { loop_indices = v; grants = gs })

-- The frame that the three pushers below store.
unfoldable pub push_frame : ℕ → M (Unit {0})
push_frame limit c =
    let (there, c') = loop_ensure c in
    if there
    then (
      done tt,
      record c' {
        loop_indices = write_at c'.loop_indices c.loop_depth 0;
        loop_limits = write_at c'.loop_limits c.loop_depth limit;
        loop_caps = write_at c'.loop_caps c.loop_depth 0;
        loop_depth = c.loop_depth + 1;
      },
    )
    else fail oom_loop_stack c'

-- bbq_push_loop, bbq_push_loop_n, bbq_push_loop_unbounded (limit -1), bbq_pop_loop
unfoldable pub push_loop : M (Unit {0})
push_loop = push_frame 0

unfoldable pub push_loop_n : ℕ → M (Unit {0})
push_loop_n limit = push_frame limit

unfoldable pub push_loop_unbounded : M (Unit {0})
push_loop_unbounded = push_frame (2 ^ 64 - 1)

unfoldable pub pop_loop : Ctx → Ctx
pop_loop c = if ltb 0 c.loop_depth then record c { loop_depth = c.loop_depth - 1 } else c

-- Signed `a < b` on int64_t patterns.
abbrev pub lt_int64 : ℕ → ℕ → Bool
lt_int64 a b = ltb ((a + 2 ^ 63) % 2 ^ 64) ((b + 2 ^ 63) % 2 ^ 64)

-- bbq_loop_advance
unfoldable pub loop_advance : Ctx → Ctx
loop_advance c =
    let d = c.loop_depth - 1 in
    if ltb 0 c.loop_depth
    then record c { loop_indices = write_at c.loop_indices d ((at c.loop_indices d + 1) % 2 ^ 64) }
    else c

-- bbq_loop_limit, bbq_loop_index, bbq_loop_index_at
unfoldable pub loop_limit : Ctx → ℕ
loop_limit c = if ltb 0 c.loop_depth then at c.loop_limits (c.loop_depth - 1) else 0

unfoldable pub loop_index : Ctx → ℕ
loop_index c = if ltb 0 c.loop_depth then at c.loop_indices (c.loop_depth - 1) else 0

unfoldable pub loop_index_at : Ctx → ℕ → ℕ
loop_index_at c depth = if ltb depth c.loop_depth then at c.loop_indices depth else 0

-- bbq_loop_next: whether another element remains, and the advanced frame.
unfoldable pub loop_next : Ctx → Bool × Ctx
loop_next c =
    let c' = loop_advance c in
    if ltb 0 c.loop_depth then (lt_int64 (loop_index c') (loop_limit c'), c') else (false, c)

-- bbq_set_loop_index
unfoldable pub set_loop_index : ℕ → Ctx → Ctx
set_loop_index idx c =
    if ltb 0 c.loop_depth
    then record c { loop_indices = write_at c.loop_indices (c.loop_depth - 1) idx }
    else c

-- bbq_push_loop_base, bbq_pop_loop_base, bbq_cur_loop_base
unfoldable pub push_loop_base : ℕ → M (Unit {0})
push_loop_base base c =
    let (there, v, gs) = stack_ensure 4 c.grants c.loop_bases c.loop_base_depth in
    let c' = record c { loop_bases = v; grants = gs } in
    if there
    then (
      done tt,
      record c' {
        loop_bases = write_at v c.loop_base_depth base;
        loop_base_depth = c.loop_base_depth + 1;
      },
    )
    else fail oom_loop_base_stack c'

unfoldable pub pop_loop_base : Ctx → Ctx
pop_loop_base c =
    if ltb 0 c.loop_base_depth then record c { loop_base_depth = c.loop_base_depth - 1 } else c

unfoldable pub cur_loop_base : Ctx → ℕ
cur_loop_base c = if ltb 0 c.loop_base_depth then at c.loop_bases (c.loop_base_depth - 1) else 0
