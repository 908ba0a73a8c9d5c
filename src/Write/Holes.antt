-- ===== src/Write/Holes.antt =====
-- backends/c/runtime/bbq_runtime.h: sizes and counts that are written once what they measure is.
-- A `@rest` remembers where its size goes; a count field remembers its hole by an id.
pub mod Prefix
pub mod Rest
pub mod Shift
pub mod Counts
use bbq.Base.{
  ℕ, zero, suc, ◌+◌, ◌-◌, ◌*◌, ◌/◌, ◌≤◌, Bool, true, false, ◌&&◌, ◌||◌, Option, none, some, List,
  not, ltb, leb, ◌==◌, if◌then◌else◌, length, take, drop, replicate,
}
use bbq.Crt.Alloc.{sub_size, add_size}
use bbq.Crt.Vec
use bbq.Crt.Vec.{Vec, max_cap, vec_cap, fill_from}
use bbq.Read.Ctx.{at}
use bbq.Read.Stacks.{stack_ensure, write_at}
use bbq.Write.Buffer.{WriteCtx, W, and_then, reserve, emit, poke}
use bbq.Write.Fixed.{host_bytes}
use bbq.Write.Leb.{uleb128_encode}

-- `memmove(data + hole + n, data + hole, moved)` and the memcpy of the `n` bytes into the gap.
unfoldable pub insert_at : ℕ → List ℕ → ℕ → List ℕ → List ℕ
insert_at hole bs moved buf =
    poke hole bs (poke (hole + length bs) (take moved (drop hole buf)) buf)

-- The bytes of a size or a count: LEB128, or `width` bits in the byte order `little`. The shifts of a
-- uint64_t and the ten bytes of `tmp` take no more than 64 bits, and C leaves a wider patch undefined.
unfoldable pub prefix_bytes : (width : ℕ) → width ≤ 64 → Bool → Bool → ℕ → List ℕ
prefix_bytes width narrow is_uleb little v =
    if is_uleb then uleb128_encode v else host_bytes little (width / 8) v

-- bbq_w_push_rest
unfoldable pub push_rest : W
push_rest c =
    let (there, v, gs) = stack_ensure 8 c.grants c.rest_holes c.rest_depth in
    let c' = record c { rest_holes = v; grants = gs } in
    if there
    then (
      true,
      record c' { rest_holes = write_at v c.rest_depth c.pos; rest_depth = c.rest_depth + 1 },
    )
    else (false, c')

-- bbq_w_patch_rest: the hole is off the stack before room is made.
unfoldable pub patch_rest : (width : ℕ) → width ≤ 64 → Bool → Bool → W
unfolding insert_at prefix_bytes
patch_rest width narrow is_uleb little c =
    let hole = at c.rest_holes (c.rest_depth - 1) in
    let rest_len = sub_size c.pos hole in
    let tmp = prefix_bytes width narrow is_uleb little rest_len in
    if ltb 0 c.rest_depth
    then and_then (reserve (length tmp) (record c { rest_depth = c.rest_depth - 1 })) (λ c'.
      (true, record c' { buf = insert_at hole tmp rest_len c'.buf; pos = c'.pos + length tmp }))
    else (false, c)

-- `while (nc <= id && nc < BBQ_VEC_MAX_CAP) nc *= 2;`
unfoldable pub cover_id : ℕ → ℕ → ℕ → ℕ
cover_id zero nc id = nc
cover_id (suc fuel) nc id =
    let rest = cover_id fuel (nc * 2) id in if leb nc id && ltb nc max_cap then rest else nc

-- bbq_w__count_holes_ensure: 30 rounds double any capacity past the ceiling.
unfoldable pub count_holes_ensure : ℕ → W
unfolding cover_id fill_from
count_holes_ensure id c =
    let oldcap = vec_cap c.count_holes in
    let nc = cover_id 30 (if oldcap == 0 then 8 else oldcap) id in
    let (v, gs) = Vec.reserve 8 c.grants c.count_holes nc in
    if ltb id oldcap
    then (true, c)
    else if ltb max_cap nc || leb max_cap id
    then (false, c)
    else if ltb (vec_cap v) nc
    then (false, record c { count_holes = v; grants = gs })
    else (
      true,
      record c {
        count_holes = record v { slot = fill_from v.slot oldcap (vec_cap v - oldcap) 0 };
        grants = gs;
      },
    )

-- The placeholder of a fixed-width count.
unfoldable pub placeholder : ℕ → Bool → W
unfolding emit
placeholder width is_uleb c = if is_uleb then (true, c) else emit (replicate (width / 8) 0) c

-- bbq_w_reserve_count; an id below 0 is `none`.
unfoldable pub reserve_count : Option ℕ → ℕ → Bool → W
unfolding count_holes_ensure placeholder
reserve_count none width is_uleb c = placeholder width is_uleb c
reserve_count (some id) width is_uleb c = and_then (count_holes_ensure id c) (λ c'.
    placeholder width is_uleb (record c' { count_holes = write_at c'.count_holes id c'.pos }))

unfoldable pub is_skipped : Option ℕ → ℕ → Bool
is_skipped none i = false
is_skipped (some id) i = i == id

-- The loops over open holes: those below `bound` that stand behind `hole` move up by `n`, but for the
-- one of `skip`.
unfoldable pub shift_holes : Option ℕ → ℕ → ℕ → ℕ → Vec ℕ → Vec ℕ
unfolding is_skipped
shift_holes skip bound hole n v = record v {
  slot = λ i.
      if ltb i bound && not (is_skipped skip i) && ltb hole (at v i)
      then some (add_size (at v i) n)
      else v.slot i;
}

-- bbq_w_patch_count
unfoldable pub patch_count : Option ℕ → ℕ → (width : ℕ) → width ≤ 64 → Bool → Bool → W
unfolding insert_at prefix_bytes shift_holes
patch_count none count width narrow is_uleb little c = (false, c)
patch_count (some id) count width narrow is_uleb little c =
    let hole = at c.count_holes id in
    let tmp = prefix_bytes width narrow is_uleb little count in
    let cap = vec_cap c.count_holes in
    if leb cap id
    then (false, c)
    else if is_uleb
    then and_then (reserve (length tmp) c) (λ c'. (
      true,
      record c' {
        buf = insert_at hole tmp (sub_size c.pos hole) c'.buf;
        pos = c'.pos + length tmp;
        count_holes = shift_holes (some id) cap hole (length tmp) c'.count_holes;
        rest_holes = shift_holes none c'.rest_depth hole (length tmp) c'.rest_holes;
      },
    ))
    else (true, record c { buf = poke hole tmp c.buf })
