-- ===== src/Crt/Vec.antt =====
-- crt/bbq_vec.h and crt/bbq_vec.c: the growable array.
-- A vector is its header and the elements written so far. `cap` is the real capacity: the C header
-- stores -1 - cap in its place once the vector is poisoned. NULL is the vector with no capacity, and
-- the poison sentinel is that vector poisoned. `slot` is the memory of the block: `none` is an
-- element that nothing has written.
pub mod Laws
use bbq.Base.{
  ℕ, zero, suc, ◌+◌, ◌-◌, ◌*◌, Bool, true, false, not, ◌&&◌, ◌||◌, Option, none, some, ltb, leb,
  ◌==◌, if◌then◌else◌,
}
use bbq.Crt.Alloc.{Grants, size_max, mem_array_bytes, mem_resize}

-- BBQ_VEC_MAX_CAP and sizeof(bbq_vec_hdr) on a 64-bit host.
abbrev pub max_cap : ℕ
max_cap = 0x3FFFFFFF

abbrev pub hdr_bytes : ℕ
hdr_bytes = 16

pub record Vec {ℓ} (A : Type ℓ) : Type ℓ where
  pub len : ℕ
  pub cap : ℕ
  pub poisoned : Bool
  pub slot : ℕ → Option A

-- Allocation failure is sticky; a poisoned vector reports capacity 0.
module _ {ℓ} {A : Type ℓ} where
  unfoldable pub null : Vec A
  null = record { len = 0; cap = 0; poisoned = false; slot = λ i. none }

  -- bbq_vec_cap
  unfoldable pub vec_cap : Vec A → ℕ
  vec_cap v = if v.poisoned then 0 else v.cap

  -- `v[i] = x`
  abbrev pub write : (ℕ → Option A) → ℕ → A → ℕ → Option A
  write m i x j = if i == j then some x else m j

  poison : Vec A → Vec A
  poison v = record v { poisoned = true }

  -- The store of a push, which a poisoned vector skips.
  unfoldable pub store_last : Vec A → A → Vec A
  store_last v x =
      if v.poisoned then v else record v { len = v.len + 1; slot = write v.slot v.len x }

pub block_bytes : ℕ → ℕ → ℕ
unfolding mem_array_bytes
block_bytes n elem_size =
    let body = mem_array_bytes n elem_size in
    if body == 0 then 0 else if ltb (size_max - hdr_bytes) body then 0 else hdr_bytes + body

-- The operations take the element's size and the answers of the allocator.
module _ {ℓ} {A : Type ℓ} (elem_size : ℕ) where
  -- bbq__vec_resize. A vector that is not NULL has a capacity, or is the sentinel.
  unfoldable pub resize : Grants → Vec A → ℕ → Vec A × Grants
  unfolding poison
  resize gs v want =
      if v.poisoned
      then (v, gs)
      else if ltb 0 v.cap && leb want v.cap
      then (v, gs)
      else if ltb max_cap want || block_bytes want elem_size == 0
      then (poison v, gs)
      else let (granted, gs') = mem_resize gs (block_bytes want elem_size) in
        if granted then (record v { cap = want }, gs') else (poison v, gs')

  -- bbq__vec_grow
  unfoldable pub grow : Grants → Vec A → Vec A × Grants
  unfolding poison resize
  grow gs v =
      let doubled = if ltb 0 v.cap then v.cap * 2 else 8 in
      let want = if ltb max_cap doubled then max_cap else doubled in
      if v.poisoned then (v, gs) else if leb want v.cap then (poison v, gs) else resize gs v want

  -- bbq_vec_push_a: nothing is stored, and the length stays, if the growth failed.
  unfoldable pub ensure_room : Grants → Vec A → Vec A × Grants
  unfolding grow vec_cap
  ensure_room gs v = if leb (vec_cap v) v.len then grow gs v else (v, gs)

  unfoldable pub push : Grants → Vec A → A → Vec A × Grants
  push gs v x = let (w, gs') = ensure_room gs v in (store_last w x, gs')

  -- bbq_vec_try_push_a
  unfoldable pub try_push : Grants → Vec A → A → Bool × Vec A × Grants
  unfolding push
  try_push gs v x = let (w, gs') = push gs v x in (not w.poisoned, w, gs')

  -- bbq_vec_reserve_a
  unfoldable pub reserve : Grants → Vec A → ℕ → Vec A × Grants
  unfolding resize vec_cap
  reserve gs v n = if ltb (vec_cap v) n then resize gs v n else (v, gs)

  -- bbq_vec_try_reserve_a
  unfoldable pub try_reserve : Grants → Vec A → ℕ → Bool × Vec A × Grants
  unfolding reserve vec_cap
  try_reserve gs v n = let (w, gs') = reserve gs v n in (leb n (vec_cap w), w, gs')

module _ {ℓ} {A : Type ℓ} where
  -- bbq__vec_setlen; `n` below 0 is 0.
  unfoldable pub setlen : Vec A → ℕ → Vec A
  setlen v n = record v { len = if ltb n v.cap then n else v.cap }

  -- bbq__vec_truncate
  unfoldable pub truncate : Vec A → ℕ → Vec A
  truncate v n = record v { len = if ltb n v.len then n else v.len }

  -- bbq_vec_pop by bbq__vec_popi: the element that is read, and the shorter vector.
  unfoldable pub pop : Vec A → Option A × Vec A
  pop v = if v.len == 0 then (v.slot 0, v) else (v.slot (v.len - 1), record v { len = v.len - 1 })

  -- bbq_vec_last by bbq__vec_topi
  unfoldable pub last : Vec A → Option A
  last v = v.slot (if ltb 0 v.len then v.len - 1 else 0)

  -- The loop of bbq_vec_fill_a: `n` elements from index `i` on.
  unfoldable pub fill_from : (ℕ → Option A) → ℕ → ℕ → A → ℕ → Option A
  fill_from m i zero x = m
  fill_from m i (suc n) x = fill_from (write m i x) (i + 1) n x

  -- What bbq_vec_fill_a does once the capacity is there.
  unfoldable pub fill_in : Vec A → ℕ → A → Vec A
  unfolding setlen fill_from
  fill_in v n x =
      let filled = record v { slot = fill_from v.slot v.len (n - v.len) x } in
      if ltb v.len n then setlen filled n else filled

  -- bbq_vec_fill_a
  unfoldable pub fill : ℕ → Grants → Vec A → ℕ → A → Bool × Vec A × Grants
  unfolding try_reserve fill_in
  fill elem_size gs v n x =
      let (enough, w, gs') = try_reserve elem_size gs v n in
      (enough, (if enough then fill_in w n x else w), gs')

  -- bbq_vec_reverse: element i becomes the one as far from the end.
  unfoldable pub swap_at : (ℕ → Option A) → ℕ → ℕ → ℕ → Option A
  swap_at m i j k = if k == i then m j else if k == j then m i else m k

  -- Its loop from `i` on, with the rounds left; half the length is enough.
  unfoldable pub reverse_from : ℕ → ℕ → ℕ → (ℕ → Option A) → ℕ → Option A
  reverse_from zero i n m = m
  reverse_from (suc rounds) i n m =
      if ltb (i + 1) (n - i) then reverse_from rounds (i + 1) n (swap_at m i (n - 1 - i)) else m

  unfoldable pub reverse : Vec A → Vec A
  reverse v = record v { slot = reverse_from v.len 0 v.len v.slot }
