-- ===== src/Crt/Alloc/Live.antt =====
-- A client of the budget that gives each block back with the size it was taken at.
use bbq.Base.{
  max, ℕ, zero, suc, ◌+◌, ◌%◌, ◌^◌, ◌≤◌, ◌<◌, ◌≡◌, List, [], ◌∷◌, ltb, ◌==◌, if◌then◌else◌, arith,
  length, get_or, set, ◌≢◌,
}
use bbq.Crt.Alloc.{Grants, Budget, budget_init, budget_alloc, budget_resize, budget_release}

-- A request of the client, on the blocks that it holds, by index.
pub data Request : Type 0 where
  alloc : ℕ → Request
  resize : ℕ → ℕ → Request
  release : ℕ → Request

abbrev pub erase : List ℕ → ℕ → List ℕ
erase [] i = []
erase (x ∷ xs) zero = xs
erase (x ∷ xs) (suc i) = x ∷ erase xs i

abbrev pub sum : List ℕ → ℕ
sum [] = 0
sum (x ∷ xs) = x + sum xs

-- The budget and the sizes of the live blocks.
pub record Client : Type 0 where
  pub budget : Budget
  pub live : List ℕ

-- One request through bbq_mem_alloc, bbq_mem_resize or bbq_mem_release.
give_back : Client → ℕ → Client
give_back c i = record {
  budget = budget_release c.budget (get_or c.live i 0);
  live = erase c.live i;
}

take_block : Client → ℕ → Client
take_block c n =
    let (granted, b) = budget_alloc c.budget n in
    record { budget = b; live = if granted then n ∷ c.live else c.live }

change_block : Client → ℕ → ℕ → Client
change_block c i n =
    let (granted, b) = budget_resize c.budget (get_or c.live i 0) n in
    record { budget = b; live = if granted then set c.live i n else c.live }

pub serve : Client → Request → Client
serve c (alloc n) = if n == 0 then c else take_block c n
serve c (resize i n) =
    if ltb i (length c.live) then (if n == 0 then give_back c i else change_block c i n) else c
serve c (release i) = if ltb i (length c.live) then give_back c i else c

pub serve_all : Client → List Request → Client
serve_all c [] = c
serve_all c (r ∷ rs) = serve_all (serve c r) rs

-- What is charged is what is live, within the limit.
pub record IsCharged (limit : ℕ) (c : Client) : Type 0 where
  pub ceiling : c.budget.limit ≡ limit
  pub charged : c.budget.used ≡ sum c.live
  pub within : c.budget.used ≤ c.budget.limit
  pub noted : c.budget.used ≤ c.budget.peak
  pub peaked : c.budget.peak ≤ c.budget.limit
  pub fits : limit < 2 ^ 64

sum-erase : (xs : List ℕ) (i : ℕ) → i < length xs → sum (erase xs i) + get_or xs i 0 ≡ sum xs
sum-erase [] i h = absurd (omega arith)
sum-erase (x ∷ xs) zero h = omega arith
sum-erase (x ∷ xs) (suc i) h = omega (arith, sum-erase xs i (omega arith))

sum-set : (xs : List ℕ) (i v : ℕ) → i < length xs → sum (set xs i v) + get_or xs i 0 ≡ sum xs + v
sum-set [] i v h = absurd (omega arith)
sum-set (x ∷ xs) zero v h = omega arith
sum-set (x ∷ xs) (suc i) v h = omega (arith, sum-set xs i v (omega arith))

module _ {limit : ℕ} (c : Client) (h : IsCharged limit c) where
  take_block-IsCharged : (n : ℕ) → IsCharged limit (take_block c n)
  unfolding take_block budget_alloc
  take_block-IsCharged n = ground arith

  give_back-IsCharged : (i : ℕ) → i < length c.live → IsCharged limit (give_back c i)
  unfolding give_back budget_release
  give_back-IsCharged i lt = ground (arith, sum-erase c.live i)

  change_block-IsCharged :
      (i n : ℕ) → i < length c.live → n ≢ 0 → IsCharged limit (change_block c i n)
  unfolding change_block budget_resize
  change_block-IsCharged i n lt pos = ground (arith, sum-set c.live i n lt, sum-erase c.live i lt)

  pub serve-IsCharged : (r : Request) → IsCharged limit (serve c r)
  unfolding serve
  serve-IsCharged (alloc n) = ground (arith, take_block-IsCharged n)
  serve-IsCharged (resize i n) = ground (arith, give_back-IsCharged i, change_block-IsCharged i n)
  serve-IsCharged (release i) = ground (arith, give_back-IsCharged i)

serve_all_from :
    {limit : ℕ} (c : Client) (rs : List Request)
    → IsCharged limit c
    → IsCharged limit (serve_all c rs)
unfolding serve_all
serve_all_from c [] h = h
serve_all_from c (r ∷ rs) h = serve_all_from (serve c r) rs (serve-IsCharged c h r)

-- A client that starts on a fresh budget and holds nothing.
abbrev pub start : ℕ → Grants → Client
start limit under = record { budget = budget_init limit under; live = [] }

-- For every limit below 2^64, every sequence of answers of the allocator underneath and every
-- sequence of requests: what the budget has charged is the sum of the sizes of the blocks that the
-- client holds; neither that nor its peak is ever over the limit, which stays as it was set.
pub serve_all-IsCharged :
    (limit : ℕ) (under : Grants) (rs : List Request)
    → limit < 2 ^ 64
    → IsCharged limit (serve_all (start limit under) rs)
unfolding budget_init
serve_all-IsCharged limit under rs h = serve_all_from (start limit under) rs (omega arith)

-- A request that is refused changes no byte count: only the refusals go up, by one modulo 2^64.
pub record Denied (b b' : Budget) : Type 0 where
  pub used : b'.used ≡ b.used
  pub peak : b'.peak ≡ b.peak
  pub denials : b'.denials ≡ (b.denials + 1) % 2 ^ 64

-- A request that is granted charges `used` and may raise the peak to it.
pub record Charged (used : ℕ) (b b' : Budget) : Type 0 where
  pub charged : b'.used ≡ used
  pub peak : b'.peak ≡ max b.peak used
  pub denials : b'.denials ≡ b.denials
