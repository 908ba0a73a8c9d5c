-- ===== src/Crt/Alloc.antt =====
-- crt/bbq_alloc.c: the four entry points, and the budget that sits in front of an allocator.
-- libc and a caller's own allocator are not in the repository: what they answer is a list, one
-- `true` (a block) or `false` (NULL) for each request, in order. An empty list refuses.
pub mod Live
pub mod Fault
use bbq.Base.{
  ℕ, ◌+◌, ◌-◌, ◌*◌, ◌/◌, ◌%◌, ◌^◌, Bool, true, false, ◌&&◌, ◌||◌, List, [], ◌∷◌, ltb, ◌==◌,
  if◌then◌else◌,
}

abbrev pub size_max : ℕ
size_max = 2 ^ 64 - 1

abbrev pub Grants : Type 0
Grants = List Bool

-- One request: the answer, and the answers that are left.
abbrev pub ask : Grants → Bool × Grants
ask [] = (false, [])
ask (g ∷ gs) = (g, gs)

-- bbq_mem_alloc and bbq_mem_zalloc: nothing is asked for no bytes.
unfoldable pub mem_alloc : Grants → ℕ → Bool × Grants
mem_alloc gs n = if n == 0 then (false, gs) else ask gs

-- bbq_mem_resize: no bytes are a release, with NULL for an answer.
unfoldable pub mem_resize : Grants → ℕ → Bool × Grants
mem_resize gs new_n = if new_n == 0 then (false, gs) else ask gs

-- bbq_mem_array_bytes: 0 stands for a size that cannot be represented.
unfoldable pub mem_array_bytes : ℕ → ℕ → ℕ
mem_array_bytes n size =
    if n == 0 || size == 0 then 0 else if ltb (size_max / size) n then 0 else n * size

-- bbq_budget, with the answers of the allocator under it.
pub record Budget : Type 0 where
  pub limit : ℕ
  pub used : ℕ
  pub peak : ℕ
  pub denials : ℕ
  pub under : Grants

pub budget_init : ℕ → Grants → Budget
budget_init limit under = record { limit = limit; used = 0; peak = 0; denials = 0; under = under }

-- `a - b` in size_t.
abbrev pub sub_size : ℕ → ℕ → ℕ
sub_size a b = (a + 2 ^ 64 - b) % 2 ^ 64

abbrev pub add_size : ℕ → ℕ → ℕ
add_size a b = (a + b) % 2 ^ 64

budget_note : Budget → ℕ → Budget
budget_note b added =
    let used = add_size b.used added in
    record b { used = used; peak = if ltb b.peak used then used else b.peak }

denied : Budget → Budget
denied b = record b { denials = add_size b.denials 1 }

over_limit : Budget → ℕ → Bool
over_limit b n = ltb (sub_size b.limit b.used) n || ltb b.limit b.used

pub budget_alloc : Budget → ℕ → Bool × Budget
unfolding budget_note denied over_limit mem_alloc
budget_alloc b n =
    if over_limit b n
    then (false, denied b)
    else let (granted, under) = mem_alloc b.under n in
      let b' = record b { under = under } in
      if granted then (true, budget_note b' n) else (false, denied b')

pub budget_resize : Budget → ℕ → ℕ → Bool × Budget
unfolding budget_note denied over_limit mem_resize
budget_resize b old_n new_n =
    if ltb old_n new_n && over_limit b (new_n - old_n)
    then (false, denied b)
    else let (granted, under) = mem_resize b.under new_n in
      let b' = record b { under = under } in
      if granted
      then (true, budget_note (record b' { used = sub_size b.used old_n }) new_n)
      else (false, denied b')

pub budget_release : Budget → ℕ → Budget
budget_release b n = record b { used = if ltb b.used n then 0 else b.used - n }
