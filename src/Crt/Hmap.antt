-- ===== src/Crt/Hmap.antt =====
-- crt/bbq_hmap.c: the open-addressing map from 64-bit keys to pointers, which are numbers here.
-- The arrays are functions of the index; `grants` is what the allocator will answer.
pub mod Probe
pub mod Laws
use bbq.Base.{
  ℕ, zero, suc, ◌+◌, ◌-◌, ◌*◌, ◌/◌, ◌%◌, ◌^◌, ◌==◌, Bool, true, false, ◌&&◌, ◌||◌, not, ltb, leb,
  if◌then◌else◌, bit_and, bit_xor, Option, none, some,
}
use bbq.Crt.Alloc.{Grants, size_max, mem_alloc, mem_array_bytes}

pub record Hmap : Type 0 where
  pub keys : ℕ → ℕ
  pub vals : ℕ → ℕ
  pub used : ℕ → Bool
  pub cap : ℕ
  pub len : ℕ
  pub oom : Bool
  pub seed : ℕ
  pub grants : Grants

-- hmap_mix
unfoldable pub hmap_mix : ℕ → ℕ → ℕ
hmap_mix seed x =
    let a = bit_xor x seed in
    let b = bit_xor a (a / 2 ^ 33) * 0xff51afd7ed558ccd % 2 ^ 64 in
    let d = bit_xor b (b / 2 ^ 33) * 0xc4ceb9fe1a85ec53 % 2 ^ 64 in bit_xor d (d / 2 ^ 33)

-- The loop of round_pow2 with the rounds left: 65 reach past every size_t.
unfoldable pub pow2_from : ℕ → ℕ → ℕ → ℕ
pow2_from zero c n = c
pow2_from (suc rounds) c n =
    let rest = pow2_from rounds (c * 2) n in
    if leb n c then c else if ltb (size_max / 2) c then 0 else rest

unfoldable pub round_pow2 : ℕ → ℕ
round_pow2 n = pow2_from 65 1 n

-- hmap_alloc: three zeroed arrays, or none.
unfoldable pub hmap_alloc : ℕ → Hmap → Bool × Hmap
hmap_alloc cap m =
    let (k, gs) = mem_alloc m.grants (mem_array_bytes cap 8) in
    let (v, gs') = mem_alloc gs (mem_array_bytes cap 8) in
    let (u, gs'') = mem_alloc gs' (mem_array_bytes cap 1) in
    if cap == 0 || mem_array_bytes cap 8 == 0 || mem_array_bytes cap 1 == 0
    then (false, m)
    else if k && v && u
    then (
      true,
      record m { keys = λ i. 0; vals = λ i. 0; used = λ i. false; cap = cap; grants = gs'' },
    )
    else (false, record m { grants = gs'' })

-- bbq_hmap_init_seeded
unfoldable pub init_seeded : ℕ → ℕ → Grants → Bool × Hmap
init_seeded initial_cap seed grants =
    let cap = round_pow2 (if initial_cap == 0 then 16 else initial_cap) in
    let empty : Hmap = record {
      keys = λ i. 0;
      vals = λ i. 0;
      used = λ i. false;
      cap = 0;
      len = 0;
      oom = false;
      seed = seed;
      grants = grants;
    } in
    let (there, m) = hmap_alloc cap empty in
    if cap == 0
    then (false, record empty { oom = true })
    else if there
    then (true, m)
    else (false, record m { oom = true })

-- bbq_hmap_free
unfoldable pub hmap_free : Hmap → Hmap
hmap_free m = record m {
  keys = λ i. 0;
  vals = λ i. 0;
  used = λ i. false;
  cap = 0;
  len = 0;
  oom = false;
}

-- The probe loop of hmap_slot with the steps left. `none` is a probe that has gone round the table
-- without a free slot or the key, and so goes round for ever in C.
unfoldable pub probe : ℕ → Hmap → ℕ → ℕ → Option ℕ
probe zero m key i = none
probe (suc steps) m key i =
    let rest = probe steps m key (bit_and (i + 1) (m.cap - 1)) in
    if m.used i && not (m.keys i == key) then rest else some i

-- hmap_slot
unfoldable pub hmap_slot : Hmap → ℕ → Option ℕ
hmap_slot m key = probe m.cap m key (bit_and (hmap_mix m.seed key) (m.cap - 1))

-- `keys[s] = key; vals[s] = val; used[s] = 1;`
unfoldable pub place : ℕ → ℕ → ℕ → Hmap → Hmap
place s key val m = record m {
  keys = λ i. if i == s then key else m.keys i;
  vals = λ i. if i == s then val else m.vals i;
  used = λ i. if i == s then true else m.used i;
}

-- The loop of hmap_grow: the first `n` slots of the old table go into the new one, lowest first.
unfoldable pub replace_all : Hmap → ℕ → Hmap → Option Hmap
replace_all old zero m = some m
replace_all old (suc n) m = elim (replace_all old n m) [
  | none ↦ none
  | some m' ↦
      if old.used n
      then elim (hmap_slot m' (old.keys n)) [
        | none ↦ none
        | some s ↦ some (place s (old.keys n) (old.vals n) m')
      ]
      else some m'
]

-- hmap_grow
unfoldable pub hmap_grow : Hmap → Option (Bool × Hmap)
hmap_grow m =
    let (there, m') = hmap_alloc (if m.cap == 0 then 16 else m.cap * 2) m in
    if ltb (size_max / 2) m.cap
    then some (false, m)
    else if there
    then elim (replace_all m m.cap m') [ none ↦ none | some m'' ↦ some (true, m'') ]
    else some (false, m')

-- The store of bbq_hmap_put into slot `i`.
unfoldable pub store_at : ℕ → ℕ → ℕ → Hmap → Hmap
unfolding place
store_at i key val m =
    let m' = place i key val m in
    if m.used i then record m { vals = m'.vals } else record m' { len = (m.len + 1) % 2 ^ 64 }

-- What bbq_hmap_put does once there is room.
unfoldable pub store : ℕ → ℕ → Hmap → Option (Bool × Hmap)
unfolding store_at
store key val m = elim (hmap_slot m key) [
  | none ↦ none
  | some i ↦ some (true, store_at i key val m)
]

-- The load test of bbq_hmap_put, in the arithmetic of size_t.
unfoldable pub is_loaded : Hmap → Bool
is_loaded m = leb (m.cap * 3 % 2 ^ 64) ((m.len + 1) % 2 ^ 64 * 4 % 2 ^ 64)

-- bbq_hmap_put, bbq_hmap_get, bbq_hmap_contains
unfoldable pub put : ℕ → ℕ → Hmap → Option (Bool × Hmap)
unfolding is_loaded
put key val m =
    if is_loaded m
    then elim (hmap_grow m) [
      | none ↦ none
      | some (there, m') ↦
          if there then store key val m' else some (false, record m' { oom = true })
    ]
    else store key val m

unfoldable pub get : Hmap → ℕ → Option ℕ
get m key =
    if m.cap == 0
    then some 0
    else elim (hmap_slot m key) [ none ↦ none | some i ↦ some (if m.used i then m.vals i else 0) ]

unfoldable pub contains : Hmap → ℕ → Option Bool
contains m key =
    if m.cap == 0
    then some false
    else elim (hmap_slot m key) [ none ↦ none | some i ↦ some (m.used i) ]
