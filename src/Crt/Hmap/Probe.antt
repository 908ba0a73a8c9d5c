-- ===== src/Crt/Hmap/Probe.antt =====
-- crt/bbq_hmap.c: hmap_slot, and the lookups on it.
use bbq.Base.{
  ℕ, zero, suc, ◌+◌, ◌-◌, ◌%◌, ◌^◌, ◌<◌, ◌≡◌, ◌≢◌, refl, sym, ap, ◌∙◌, ◌==◌, Bool, true, false,
  ◌&&◌, not, if◌then◌else◌, arith, bit_and, bit_and_mask, Bool-cases, inl, inr, if_true, if_false,
  ◌⊎◌, Option, some, some_same, none-some, subst, true-false,
}
use native.Mathlib.Nat.{mod-lt, one-le-pow, mod-eq_of_lt, mod_self}
use native.Mathlib.Decide.{dec_lt, dec_le}
use bbq.Crt.Hmap.{Hmap, probe, hmap_slot, hmap_mix, get, contains}

-- The probe goes on at slot `i`.
unfoldable pub passes : Hmap → ℕ → ℕ → Bool
passes m key i = m.used i && not (m.keys i == key)

-- A table of 2^k slots of which slot `free` is free.
pub record HasFree (k free : ℕ) (m : Hmap) : Type 0 where
  pub size : m.cap ≡ 2 ^ k
  pub inside : free < 2 ^ k
  pub empty : m.used free ≡ false

next_slot :
    (k : ℕ) (m : Hmap) (i : ℕ) → m.cap ≡ 2 ^ k → bit_and (i + 1) (m.cap - 1) ≡ (i + 1) % 2 ^ k
next_slot k m i e = ap (λ (n : ℕ). bit_and (i + 1) (n - 1)) e ∙ bit_and_mask k (i + 1)

wraps :
    (c i : ℕ) → i < c → ((i + 1 < c) × ((i + 1) % c ≡ i + 1)) ⊎ ((i + 1 ≡ c) × ((i + 1) % c ≡ 0))
wraps c i h = elim (dec_lt (i + 1) c) [
  | yes lt ↦ inl (lt, mod-eq_of_lt lt)
  | no ge ↦ let e : i + 1 ≡ c = omega arith in inr (e, ap (λ (n : ℕ). n % c) e ∙ mod_self c)
]

-- Slot `s` of the table, where the probe of the key stops by the test of its loop.
pub record Stops (k : ℕ) (m : Hmap) (key : ℕ) (s : Option ℕ) : Type 0 where
  pub slot : ℕ
  pub found : s ≡ some slot
  pub stop : passes m key slot ≡ false
  pub inside : slot < 2 ^ k

-- The probe from `i`, with the free slot `left` steps ahead, stops in the table.
probe-Stops :
    (k steps left i f key : ℕ) (m : Hmap)
    → m.cap ≡ 2 ^ k
    → left < steps
    → i < 2 ^ k
    → f < 2 ^ k
    → (i + left ≡ f) ⊎ (i + left ≡ 2 ^ k + f)
    → m.used f ≡ false
    → Stops k m key (probe steps m key i)
unfolding probe passes
probe-Stops k zero left i f key m e lt in_ inf ahead free = absurd (omega arith)
probe-Stops k (suc steps) left i f key m e lt in_ inf ahead free =
    let next = next_slot k m i e in
    elim (Bool-cases (m.used i && not (m.keys i == key))) [
      | inr stop ↦
          rw (if_false _ (probe steps m key (bit_and (i + 1) (m.cap - 1))) (some i) stop)
            (record { slot = i; found = refl; stop = stop; inside = in_ })
      | inl go ↦
          let apart : i ≢ f = λ h. ground (arith, ap m.used h, go, free) in
          rw (if_true _ (probe steps m key (bit_and (i + 1) (m.cap - 1))) (some i) go) (
            rw next (elim (wraps (2 ^ k) i in_) [
              | inl on ↦ rw on.1 (
                  probe-Stops k steps (left - 1) (i + 1) f key m e (omega (arith, apart)) on.0 inf
                    (omega (arith, apart)) free)
              | inr back ↦ rw back.1 (
                  probe-Stops k steps (left - 1) 0 f key m e (omega (arith, apart))
                    (omega (arith, back.0)) inf (omega (arith, back.0, apart)) free)
            ]))
    ]

pub hmap_slot-Stops :
    (k free : ℕ) (m : Hmap) (key : ℕ) → HasFree k free m → Stops k m key (hmap_slot m key)
unfolding hmap_slot
hmap_slot-Stops k free m key h =
    let s = bit_and (hmap_mix m.seed key) (m.cap - 1) in
    let start : s ≡ hmap_mix m.seed key % 2 ^ k =
      ap (λ (n : ℕ). bit_and (hmap_mix m.seed key) (n - 1)) h.size
      ∙ bit_and_mask k (hmap_mix m.seed key) in
    let in_ : s < 2 ^ k =
      omega (arith, start, mod-lt (hmap_mix m.seed key) (one-le-pow k 2 (omega arith))) in
    elim (dec_le s free) [
      | yes le ↦
          probe-Stops k m.cap (free - s) s free key m h.size (omega (arith, h.size, h.inside)) in_
            h.inside (inl (omega arith)) h.empty
      | no gt ↦
          probe-Stops k m.cap (2 ^ k + free - s) s free key m h.size (omega (arith, h.size)) in_
            h.inside (inr (omega arith)) h.empty
    ]

-- The entries of `m` are in `m'`, at the same slots.
pub record Extends (m m' : Hmap) : Type 0 where
  pub cap : m'.cap ≡ m.cap
  pub seed : m'.seed ≡ m.seed
  pub used : (j : ℕ) → m.used j ≡ true → m'.used j ≡ true
  pub keys : (j : ℕ) → m.used j ≡ true → m'.keys j ≡ m.keys j

-- A probe that stopped at an entry stops there in every table that keeps the entries.
probe_kept :
    (steps i key s : ℕ) (m m' : Hmap)
    → Extends m m'
    → m.used s ≡ true
    → probe steps m key i ≡ some s
    → probe steps m' key i ≡ some s
unfolding probe
probe_kept zero i key s m m' x u e = absurd (none-some e)
probe_kept (suc steps) i key s m m' x u e =
    let next = bit_and (i + 1) (m.cap - 1) in
    let ih = probe_kept steps next key s m m' x u in
    let same : probe steps m' key (bit_and (i + 1) (m'.cap - 1)) ≡ probe steps m' key next =
      ap (λ (n : ℕ). probe steps m' key (bit_and (i + 1) (n - 1))) x.cap in
    elim (Bool-cases (m.used i)) [
      | inl here ↦
          let e' = if_same _ _ (probe steps m key next) (some i) (there _ here) e in
          rw (x.used i here, x.keys i here, same) (kept (m.keys i == key) e' ih)
      | inr free ↦
          let at_ : i ≡ s =
            some_same (sym (if_false _ (probe steps m key next) (some i) (not_there _ free)) ∙ e) in
          absurd (true-false (sym u ∙ ap m.used (sym at_) ∙ free))
    ]
  where
    there : (b : Bool) → m.used i ≡ true → (m.used i && b) ≡ b
    there b h = ground arith

    not_there : (b : Bool) → m.used i ≡ false → (m.used i && b) ≡ false
    not_there b h = ground arith

    if_same :
        (b b' : Bool) (p q : Option ℕ)
        → b ≡ b'
        → (if b then p else q) ≡ some s
        → (if b' then p else q) ≡ some s
    if_same b b' p q h g = subst (λ z. (if z then p else q) ≡ some s) h g

    kept :
        (b : Bool) {p q : Option ℕ}
        → (if not b then p else some i) ≡ some s
        → (p ≡ some s → q ≡ some s)
        → (if not b then q else some i) ≡ some s
    kept true g h = g
    kept false g h = h g

-- A probe of a table that differs at no slot in whether the probe goes on.
pub probe_same :
    (steps i key : ℕ) (m m' : Hmap)
    → m'.cap ≡ m.cap
    → ((j : ℕ) → passes m' key j ≡ passes m key j)
    → probe steps m' key i ≡ probe steps m key i
unfolding probe passes
probe_same zero i key m m' e same = refl
probe_same (suc steps) i key m m' e same =
    let ih = probe_same steps (bit_and (i + 1) (m.cap - 1)) key m m' e same in
    rw (same i) (
      ap (λ (x : Option ℕ). if m.used i && not (m.keys i == key) then x else some i)
        (ap (λ (n : ℕ). probe steps m' key (bit_and (i + 1) (n - 1))) e ∙ ih))

pub hmap_slot_kept :
    (m m' : Hmap) (key s : ℕ)
    → Extends m m'
    → m.used s ≡ true
    → hmap_slot m key ≡ some s
    → hmap_slot m' key ≡ some s
unfolding hmap_slot
hmap_slot_kept m m' key s x u e =
    ap (λ (n : ℕ). probe n m' key (bit_and (hmap_mix m'.seed key) (n - 1))) x.cap
    ∙ ap (λ (n : ℕ). probe m.cap m' key (bit_and (hmap_mix n key) (m.cap - 1))) x.seed
    ∙ probe_kept m.cap (bit_and (hmap_mix m.seed key) (m.cap - 1)) key s m m' x u e

-- What a lookup answers once its probe has stopped.
pub lookup-at :
    (k free : ℕ) (m : Hmap) (key s : ℕ)
    → HasFree k free m
    → hmap_slot m key ≡ some s
    → (get m key ≡ some (if m.used s then m.vals s else 0)) × (contains m key ≡ some (m.used s))
unfolding get contains
lookup-at k free m key s h e =
    let some_ : (m.cap == 0) ≡ false = ground (arith, h.size, one-le-pow k 2 (omega arith)) in
    rw some_ (rw e (refl, refl))
