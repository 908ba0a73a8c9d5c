-- ===== src/Crt/Buf.antt =====
-- crt/bbq_buf.c: the growable byte buffer. `store` is `data` whole, so its length is the capacity;
-- fresh memory holds `junk`, and `grants` is what the allocator will answer.
pub mod Laws
use bbq.Base.{
  ℕ, zero, suc, ◌+◌, ◌-◌, ◌*◌, ◌/◌, ◌==◌, Bool, true, false, List, [], ◌∷◌, ◌++◌, ltb, leb, not,
  if◌then◌else◌, length, take, drop, replicate,
}
use bbq.Crt.Alloc.{Grants, size_max, mem_resize}

pub record Buf : Type 0 where
  pub store : List ℕ
  pub len : ℕ
  pub oom : Bool
  pub junk : ℕ
  pub grants : Grants

-- bbq_buf_init_a and bbq_buf_init; bbq_buf_free, which keeps the allocator; bbq_buf_clear
unfoldable pub init : ℕ → Grants → Buf
init junk grants = record { store = []; len = 0; oom = false; junk = junk; grants = grants }

unfoldable pub free : Buf → Buf
free b = record b { store = []; len = 0; oom = false }

unfoldable pub clear : Buf → Buf
clear b = record b { len = 0 }

-- The doubling loop of bbq_buf_reserve with the rounds left.
unfoldable pub double_to : ℕ → ℕ → ℕ → ℕ
double_to zero newcap total = newcap
double_to (suc rounds) newcap total =
    let rest = double_to rounds (newcap * 2) total in
    if leb total newcap then newcap else if ltb (size_max / 2) newcap then total else rest

-- bbq_buf_reserve
unfoldable pub reserve : ℕ → Buf → Bool × Buf
unfolding double_to
reserve total b =
    let cap = length b.store in
    let newcap = double_to 65 (if cap == 0 then 64 else cap) total in
    let (granted, gs) = mem_resize b.grants newcap in
    if b.oom
    then (false, b)
    else if leb total cap
    then (true, b)
    else if granted
    then (true, record b { store = b.store ++ replicate (newcap - cap) b.junk; grants = gs })
    else (false, record b { oom = true; grants = gs })

-- The store of bbq_buf_append behind what is there.
unfoldable pub put_last : List ℕ → Buf → Buf
put_last src b = record b {
  store = take b.len b.store ++ (src ++ drop (b.len + length src) b.store);
  len = b.len + length src;
}

-- bbq_buf_append and bbq_buf_append_byte
unfoldable pub append : List ℕ → Buf → Bool × Buf
append src b =
    let (there, b') = reserve (b.len + length src) b in
    if length src == 0
    then (not b.oom, b)
    else if b.oom
    then (false, b)
    else if ltb (size_max - b.len) (length src)
    then (false, record b { oom = true })
    else if there
    then (true, put_last src b')
    else (false, b')

unfoldable pub append_byte : ℕ → Buf → Bool × Buf
append_byte byte b = append (byte ∷ []) b
