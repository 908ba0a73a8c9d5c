-- ===== src/Read/Leb/Groups.antt =====
-- LEB128 as a description of byte lists, independent of the readers and the writers: groups of seven
-- bits, lowest first, with the top bit set on every byte but the last.
use bbq.Base.{
  ℕ, zero, suc, ◌+◌, ◌*◌, ◌%◌, ◌^◌, ◌≤◌, ◌<◌, ◌≡◌, refl, ap, ◌∙◌, List, [], ◌∷◌, arith, length,
}
use native.Mathlib.Nat.{pow-suc, zero-add, suc-add}
use native.Mathlib.Numerals.{towards_suc}

abbrev pub IsUleb : List ℕ → Type 0
IsUleb [] = ⊥
IsUleb (b ∷ []) = b < 128
IsUleb (b ∷ c ∷ bs) = (128 ≤ b) × (b < 256) × IsUleb (c ∷ bs)

pub cons_IsUleb : (b : ℕ) (bs : List ℕ) → 128 ≤ b → b < 256 → IsUleb bs → IsUleb (b ∷ bs)
cons_IsUleb b [] lo hi h = absurd h
cons_IsUleb b (d ∷ bs) lo hi h = (lo, hi, h)

unfoldable pub uleb_value : List ℕ → ℕ
uleb_value [] = 0
uleb_value (b ∷ bs) = b % 128 + 128 * uleb_value bs

pub pow_add : (a b : ℕ) → 2 ^ (a + b) ≡ 2 ^ a * 2 ^ b
pow_add zero b = rw zero-add (omega arith)
pow_add (suc a) b = rw suc-add (
    omega
      (arith, pow-suc 2 (a + b), pow-suc 2 a, pow_add a b, ap (λ (t : ℕ). t * 2 ^ b) (pow-suc 2 a)))

pub pow_seven : (s : ℕ) → 2 ^ (s + 7) ≡ 128 * 2 ^ s
pow_seven s = simp towards_suc (omega arith)

-- `n` groups carry values below 2^(7 n).
pub uleb_value-lt : (bs : List ℕ) → uleb_value bs < 2 ^ (7 * length bs)
unfolding uleb_value
uleb_value-lt [] = omega arith
uleb_value-lt (b ∷ bs) =
    let step : 2 ^ (7 * suc (length bs)) ≡ 128 * 2 ^ (7 * length bs) =
      ap (λ (t : ℕ). 2 ^ t) {x = 7 * suc (length bs)} {y = 7 * length bs + 7} (omega arith)
      ∙ pow_seven (7 * length bs) in
    omega (arith, step, uleb_value-lt bs)

pub uleb_value_nil : uleb_value [] ≡ 0
unfolding uleb_value
uleb_value_nil = refl

pub uleb_value_cons : (b : ℕ) (bs : List ℕ) → uleb_value (b ∷ bs) ≡ b % 128 + 128 * uleb_value bs
unfolding uleb_value
uleb_value_cons b bs = refl
