-- ===== src/Read/Owned.antt =====
-- backends/c/runtime/bbq_runtime.h: the storage that the owning reader hands out.
pub mod Laws
use bbq.Base.{
  ℕ, ◌+◌, ◌-◌, ◌*◌, ◌/◌, ◌%◌, ◌^◌, ◌==◌, Bool, true, false, ◌&&◌, not, List, [], ◌∷◌, ◌++◌, ltb,
  leb, if◌then◌else◌, length, take, replicate,
}
use bbq.Crt.Alloc.{Grants, size_max, add_size, mem_resize}
use bbq.Read.Ctx.{
  Ctx, Outcome, done, failed, fault, M, bind, fail, at, effective_end, copy_bytes, bytes_overrun,
  bytes_out_of_memory, string_overrun, string_out_of_memory,
}
use bbq.Read.Stacks.{write_at}

-- sizeof(bbq_owned_hdr) where max_align_t takes 32 bytes, as on x86-64.
abbrev pub owned_hdr : ℕ
owned_hdr = 32

-- bbq_owned_resize: whether the block is there, and the answers that are left.
unfoldable pub owned_resize : Grants → ℕ → Bool × Grants
owned_resize gs bytes =
    if ltb (size_max - owned_hdr) bytes then (false, gs) else mem_resize gs (owned_hdr + bytes)

-- The capacity that bbq_array_grow asks for.
unfoldable pub grown_cap : ℕ → ℕ → ℕ
grown_cap cap need =
    let newcap = if cap == 0 then 4 else cap * 2 % 2 ^ 64 in
    if ltb newcap need then need else newcap

-- bbq_array_grow on a store of `elem`-byte elements.
unfoldable pub array_grow : List ℕ → ℕ → Ctx → Bool × List ℕ × Ctx
unfolding grown_cap
array_grow items elem c =
    let d = c.loop_depth - 1 in
    let need = add_size (at c.loop_indices d) 1 in
    let cap = at c.loop_caps d in
    let newcap = grown_cap cap need in
    let (granted, gs) = owned_resize c.grants (newcap * elem) in
    if c.loop_depth == 0
    then (true, items, c)
    else if leb need cap
    then (true, items, c)
    else if not (elem == 0) && ltb (size_max / elem) newcap
    then (false, items, record c { store_oom = true })
    else if granted
    then (
      true,
      take (cap * elem) items ++ replicate ((newcap - cap) * elem) 0,
      record c { loop_caps = write_at c.loop_caps d newcap; grants = gs },
    )
    else (false, items, record c { store_oom = true; grants = gs })

-- bbq_read_bytes: the copy is the result.
unfoldable pub read_bytes : ℕ → M (List ℕ)
read_bytes len c =
    let (granted, gs) = owned_resize c.grants (if len == 0 then 1 else len) in
    let c' = record c { grants = gs } in
    if ltb (effective_end c) (add_size c.pos len)
    then fail bytes_overrun c
    else if granted
    then bind (copy_bytes c.pos len c')
        (λ bs c''. (done bs, record c'' { pos = add_size c.pos len }))
    else fail bytes_out_of_memory (record c' { store_oom = true })

-- bbq_read_string: the bytes before the NUL that the copy ends in.
unfoldable pub read_string : ℕ → M (List ℕ)
read_string len c =
    let (granted, gs) = owned_resize c.grants (add_size len 1) in
    let c' = record c { grants = if ltb len size_max then gs else c.grants } in
    if ltb (effective_end c) (add_size c.pos len)
    then fail string_overrun c
    else if ltb len size_max && granted
    then bind (copy_bytes c.pos len c')
        (λ bs c''. (done bs, record c'' { pos = add_size c.pos len }))
    else fail string_out_of_memory (record c' { store_oom = true })
