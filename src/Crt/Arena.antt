-- ===== src/Crt/Arena.antt =====
-- crt/bbq_arena.c: the bump allocator. The three parallel arrays are one list of pages; an address is
-- a page and an offset in it. `grants` is what the allocator will answer.
use bbq.Base.{
  ℕ, zero, suc, ◌+◌, ◌-◌, ◌*◌, ◌/◌, ◌==◌, Bool, true, false, ◌&&◌, ◌||◌, not, Option, none, some,
  List, [], ◌∷◌, ◌++◌, ltb, leb, if◌then◌else◌, length,
}
use bbq.Crt.Alloc.{Grants, size_max, add_size, mem_alloc, mem_array_bytes}

pub record Page : Type 0 where
  pub size : ℕ
  pub spent : ℕ

-- bbq_arena
pub record Arena : Type 0 where
  pub pages : List Page
  pub page_cap : ℕ
  pub cur_page : ℕ
  pub page_size : ℕ
  pub oom : Bool
  pub grants : Grants

-- align_up to 8, which refuses rather than wrapping.
unfoldable pub align_up : ℕ → Option ℕ
align_up v = if ltb (size_max - 7) v then none else some ((v + 7) / 8 * 8)

or_default : Option ℕ → ℕ
or_default none = 4096
or_default (some ps) = ps

-- bbq_arena_init_a and bbq_arena_init
unfoldable pub arena_init : ℕ → Grants → Arena
unfolding or_default
arena_init page_size grants = record {
  pages = [];
  page_cap = 0;
  cur_page = 0;
  page_size = if page_size == 0 then 4096 else or_default (align_up page_size);
  oom = false;
  grants = grants;
}

-- bbq_arena_capacity and bbq_arena_used
unfoldable pub capacity_of : List Page → ℕ
capacity_of [] = 0
capacity_of (p ∷ ps) = add_size p.size (capacity_of ps)

unfoldable pub used_of : List Page → ℕ
used_of [] = 0
used_of (p ∷ ps) = add_size p.spent (used_of ps)

-- grow_page_table: all three arrays or none.
unfoldable pub grow_page_table : Arena → Bool × Arena
grow_page_table a =
    let newcap = if a.page_cap == 0 then 4 else add_size a.page_cap a.page_cap in
    let bytes = mem_array_bytes newcap 8 in
    let (p, gs) = mem_alloc a.grants bytes in
    let (s, gs') = mem_alloc gs bytes in
    let (u, gs'') = mem_alloc gs' bytes in
    if ltb (length a.pages) a.page_cap
    then (true, a)
    else if ltb newcap a.page_cap || bytes == 0
    then (false, a)
    else if p && s && u
    then (true, record a { page_cap = newcap; grants = gs'' })
    else (false, record a { grants = gs'' })

-- Whether page `i` is there with room for `need`, and the first page that is.
abbrev fits : Page → ℕ → Bool
fits p need = leb need (p.size - p.spent)

unfoldable pub fits_at : List Page → ℕ → ℕ → Bool
fits_at [] i need = false
fits_at (p ∷ ps) zero need = fits p need
fits_at (p ∷ ps) (suc i) need = fits_at ps i need

unfoldable pub first_fit : List Page → ℕ → ℕ
first_fit [] need = 0
first_fit (p ∷ ps) need = let rest = first_fit ps need in if fits p need then 0 else suc rest

-- The bytes taken from page `i`: the offset, and the pages.
unfoldable pub spend : List Page → ℕ → ℕ → ℕ × List Page
spend [] i need = (0, [])
spend (p ∷ ps) zero need = (p.spent, record p { spent = p.spent + need } ∷ ps)
spend (p ∷ ps) (suc i) need = let (at, rest) = spend ps i need in (at, p ∷ rest)

hand_out : ℕ → ℕ → Arena → Option (ℕ × ℕ) × Arena
hand_out i need a =
    let (at, pages) = spend a.pages i need in
    (some (i, at), record a { pages = pages; cur_page = i })

-- The page that bbq_arena_alloc adds.
unfoldable pub new_page : ℕ → Arena → Bool × Arena
new_page need a =
    let alloc_size = if ltb a.page_size need then need else a.page_size in
    let (there, a') = grow_page_table a in
    let (granted, gs) = mem_alloc a'.grants alloc_size in
    if not there
    then (false, record a' { oom = true })
    else if granted
    then (
      true,
      record a' { pages = a'.pages ++ (record { size = alloc_size; spent = 0 } ∷ []); grants = gs },
    )
    else (false, record a' { oom = true; grants = gs })

take_room : ℕ → Arena → Option (ℕ × ℕ) × Arena
unfolding hand_out
take_room need a =
    let found = first_fit a.pages need in
    let (there, a') = new_page need a in
    if fits_at a.pages a.cur_page need
    then hand_out a.cur_page need a
    else if ltb found (length a.pages)
    then hand_out found need a
    else if there
    then hand_out found need a'
    else (none, a')

-- bbq_arena_alloc
unfoldable pub arena_alloc : ℕ → Arena → Option (ℕ × ℕ) × Arena
unfolding take_room
arena_alloc size a = if size == 0 || a.oom then (none, a) else elim (align_up size) [
  | none ↦ (none, record a { oom = true })
  | some need ↦ take_room need a
]

-- bbq_arena_reset and bbq_arena_free
unspent : List Page → List Page
unspent [] = []
unspent (p ∷ ps) = record p { spent = 0 } ∷ unspent ps

unfoldable pub arena_reset : Arena → Arena
unfolding unspent
arena_reset a = record a { pages = unspent a.pages; cur_page = 0; oom = false }

unfoldable pub arena_free : Arena → Arena
arena_free a = record a { pages = []; page_cap = 0; cur_page = 0; oom = false }
