-- ===== src/Write/Buffer.antt =====
-- backends/c/runtime/bbq_runtime.h: the write context (bbq_write_ctx_t) and its buffer.
-- `buf` is `data` whole, so its length is `capacity`; memory that nothing has written holds the
-- byte `junk`. `grants` is what the allocator will answer; pointers are numbers, NULL 0.
pub mod Reserve
pub mod Emit
use bbq.Base.{
  ℕ, zero, suc, ◌+◌, ◌-◌, ◌*◌, ◌/◌, Bool, true, false, ◌&&◌, List, [], ◌∷◌, ◌++◌, ltb, leb, not,
  if◌then◌else◌, length, take, drop, replicate, ◌≡◌, refl,
}
use bbq.Crt.Alloc.{Grants, size_max, add_size, mem_alloc, mem_resize}
use bbq.Crt.Vec.{Vec, null}

-- bbq_write_ctx_t
pub record WriteCtx : Type 0 where
  pub buf : List ℕ
  pub pos : ℕ
  pub little_endian : Bool
  pub owns : Bool
  pub junk : ℕ
  pub grants : Grants
  pub endian_seeded : Bool
  pub loop_indices : Vec ℕ
  pub loop_limits : Vec ℕ
  pub loop_depth : ℕ
  pub loop_bases : Vec ℕ
  pub loop_base_depth : ℕ
  pub interval_starts : Vec ℕ
  pub interval_ends : Vec ℕ
  pub interval_depth : ℕ
  pub scopes : Vec ℕ
  pub scope_depth : ℕ
  pub rest_holes : Vec ℕ
  pub rest_depth : ℕ
  pub count_holes : Vec ℕ

-- A call that returns bool.
abbrev pub W : Type 0
W = WriteCtx → Bool × WriteCtx

-- `if (!f(ctx)) return false; return g(ctx);`
abbrev pub and_then : Bool × WriteCtx → W → Bool × WriteCtx
and_then (true, c) k = k c
and_then (false, c) k = (false, c)

-- bbq_write_ctx_reset_state under both init functions
unfoldable pub fresh : List ℕ → Bool → ℕ → Grants → WriteCtx
unfolding null
fresh buf owns junk grants = record {
  buf = buf;
  pos = 0;
  little_endian = false;
  owns = owns;
  junk = junk;
  grants = grants;
  endian_seeded = false;
  loop_indices = null;
  loop_limits = null;
  loop_depth = 0;
  loop_bases = null;
  loop_base_depth = 0;
  interval_starts = null;
  interval_ends = null;
  interval_depth = 0;
  scopes = null;
  scope_depth = 0;
  rest_holes = null;
  rest_depth = 0;
  count_holes = null;
}

-- bbq_write_ctx_init: a caller's buffer.
unfoldable pub write_ctx_init : List ℕ → ℕ → Grants → WriteCtx
unfolding fresh
write_ctx_init buf junk grants = fresh buf false junk grants

-- bbq_write_ctx_init_growable_a and bbq_write_ctx_init_growable
pub write_ctx_init_growable : ℕ → ℕ → Grants → Bool × WriteCtx
unfolding fresh mem_alloc
write_ctx_init_growable initial junk grants =
    let initial' = if ltb initial 64 then 64 else initial in
    let (granted, gs) = mem_alloc grants initial' in
    if granted
    then (true, fresh (replicate initial' junk) true junk gs)
    else (false, fresh [] true junk gs)

-- bbq_write_ctx_free
unfoldable pub write_ctx_free : WriteCtx → WriteCtx
unfolding null
write_ctx_free c = record c {
  buf = [];
  owns = false;
  loop_indices = null;
  loop_limits = null;
  loop_bases = null;
  interval_starts = null;
  interval_ends = null;
  scopes = null;
  rest_holes = null;
  count_holes = null;
}

abbrev pub capacity : WriteCtx → ℕ
capacity c = length c.buf

-- `while (newcap < want) newcap = newcap > SIZE_MAX / 2 ? want : newcap * 2;`
unfoldable pub double_until : ℕ → ℕ → ℕ → ℕ
double_until zero newcap want = newcap
double_until (suc fuel) newcap want =
    let rest = double_until fuel (if ltb (size_max / 2) newcap then want else newcap * 2) want in
    if ltb newcap want then rest else newcap

-- The capacity that bbq_write_reserve asks for: 65 rounds double any size past the largest.
unfoldable pub new_capacity : ℕ → WriteCtx → ℕ
unfolding double_until
new_capacity need c = double_until 65 (if ltb 0 (capacity c) then capacity c else 64) (c.pos + need)

-- The resize of bbq_write_reserve.
unfoldable pub grow_to : ℕ → W
grow_to newcap c =
    let (granted, gs) = mem_resize c.grants newcap in
    if granted
    then (true, record c { buf = c.buf ++ replicate (newcap - capacity c) c.junk; grants = gs })
    else (false, record c { grants = gs })

-- bbq_write_reserve
unfoldable pub reserve : ℕ → W
reserve need c =
    if leb c.pos (capacity c) && leb need (capacity c - c.pos)
    then (true, c)
    else if not c.owns
    then (false, c)
    else if ltb (size_max - c.pos) need
    then (false, c)
    else grow_to (new_capacity need c) c

-- `memcpy(data + i, bs, n)`, for bytes that the buffer has room for.
abbrev pub poke : ℕ → List ℕ → List ℕ → List ℕ
poke i bs buf = take i buf ++ (bs ++ drop (i + length bs) buf)

-- What has been written up to the cursor.
abbrev pub written : WriteCtx → List ℕ
written c = take c.pos c.buf

-- bbq_write_bytes and bbq_write_string, and the tail of every fixed-width write
unfoldable pub emit : List ℕ → W
unfolding reserve
emit bs c =
    and_then (reserve (length bs) c)
      (λ c'. (true, record c' { buf = poke c'.pos bs c'.buf; pos = c'.pos + length bs }))

-- bbq_write_u8, bbq_write_bool
unfoldable pub write_u8 : ℕ → W
unfolding emit
write_u8 val = emit (val ∷ [])

unfoldable pub write_bool : Bool → W
unfolding write_u8
write_bool val = write_u8 (if val then 1 else 0)

-- bbq_write_set_endian
unfoldable pub write_set_endian : Bool → WriteCtx → WriteCtx
write_set_endian little c = record c { little_endian = little }

-- bbq_w_seek; a gap is filled with zeros. bbq_w_advance
unfoldable pub w_seek : ℕ → W
unfolding reserve
w_seek target c =
    let gap = target - c.pos in
    if ltb c.pos target
    then and_then (reserve gap c)
        (λ c'. (true, record c' { buf = poke c'.pos (replicate gap 0) c'.buf; pos = target }))
    else (true, record c { pos = target })

unfoldable pub w_advance : ℕ → W
unfolding w_seek
w_advance by_n c = w_seek (add_size c.pos by_n) c

-- What holds after a call that returned true, and after one that returned false.
abbrev pub PostW : Bool × WriteCtx → (WriteCtx → Type 0) → (WriteCtx → Type 0) → Type 0
PostW (true, c) P Q = P c
PostW (false, c) P Q = Q c

pub PostW_if :
    (b : Bool) (x y : Bool × WriteCtx) (P Q : WriteCtx → Type 0)
    → (b ≡ true → PostW x P Q)
    → (b ≡ false → PostW y P Q)
    → PostW (if b then x else y) P Q
PostW_if true x y P Q h k = h refl
PostW_if false x y P Q h k = k refl

pub PostW_then :
    (m : Bool × WriteCtx) (k : W) (P Q P' Q' : WriteCtx → Type 0)
    → PostW m P Q
    → ((c : WriteCtx) → P c → PostW (k c) P' Q')
    → ((c : WriteCtx) → Q c → Q' c)
    → PostW (and_then m k) P' Q'
PostW_then (true, c) k P Q P' Q' h f g = f c h
PostW_then (false, c) k P Q P' Q' h f g = g c h
