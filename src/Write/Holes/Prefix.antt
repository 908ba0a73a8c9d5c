-- ===== src/Write/Holes/Prefix.antt =====
-- backends/c/runtime/bbq_runtime.h: the bytes that a patch writes for a size or a count.
use bbq.Base.{
  ℕ, zero, suc, ◌+◌, ◌*◌, ◌/◌, ◌%◌, ◌^◌, ◌≤◌, ◌<◌, ◌≡◌, refl, sym, ap, ◌∙◌, Bool, true, false, List,
  arith, length,
}
use native.Mathlib.Nat.{
  pow-suc, mod-lt, mod-eq_of_lt, add-mul-mod_self_left, one-le-pow, mod-add-div,
}
use bbq.Read.Fixed.{le_value, be_from, be_value}
use bbq.Read.Fixed.Swap.{AreBytes}
use bbq.Write.Fixed.{le_bytes, be_bytes, host_bytes}
use bbq.Write.Leb.RoundTrip.{Encodes, uleb128_encode-Encodes}
use bbq.Write.Holes.{prefix_bytes}

-- The bytes of a number in a form, said by what a reader makes of them: an LEB128 encoding of at most
-- ten bytes, or one byte for every eight bits of the width, lowest first or highest first.
abbrev pub IsPrefix : ℕ → Bool → Bool → ℕ → List ℕ → Type 0
IsPrefix width true little v bs = Encodes v 10 bs
IsPrefix width false true v bs =
    (length bs ≡ width / 8) × AreBytes bs × (le_value bs ≡ v % 256 ^ (width / 8))
IsPrefix width false false v bs =
    (length bs ≡ width / 8) × AreBytes bs × (be_value bs ≡ v % 256 ^ (width / 8))

scaled : (a q b : ℕ) → q < b → a * q + a ≤ a * b
scaled a q b h = grind arith

-- Euclid's division by a product.
product_mod : (v a b : ℕ) → 1 ≤ a → 1 ≤ b → v % (a * b) ≡ v % a + a * (v / a % b)
product_mod v a b pa pb =
    let q = v / a % b in
    let top = v / a / b in
    let outer : v ≡ v % a + a * (v / a) = sym (mod-add-div v a) in
    let inner : v / a ≡ q + b * top = sym (mod-add-div (v / a) b) in
    let whole : v ≡ (v % a + a * q) + (a * b) * top =
      outer ∙ ap (λ (t : ℕ). v % a + a * t) inner ∙ grind arith in
    let below : a * q + a ≤ a * b = scaled a q b (mod-lt (v / a) pb) in
    ap (λ (t : ℕ). t % (a * b)) whole
    ∙ add-mul-mod_self_left (v % a + a * q) (a * b) top
    ∙ mod-eq_of_lt (omega (arith, below, mod-lt v pa))

le_bytes-length : (n v : ℕ) → length (le_bytes n v) ≡ n
unfolding le_bytes
le_bytes-length zero v = refl
le_bytes-length (suc n) v = omega (arith, le_bytes-length n (v / 256))

be_bytes-length : (n v : ℕ) → length (be_bytes n v) ≡ n
unfolding be_bytes
be_bytes-length zero v = refl
be_bytes-length (suc n) v = omega (arith, be_bytes-length n v)

le_bytes-AreBytes : (n v : ℕ) → AreBytes (le_bytes n v)
unfolding le_bytes
le_bytes-AreBytes zero v = tt
le_bytes-AreBytes (suc n) v = (omega arith, le_bytes-AreBytes n (v / 256))

be_bytes-AreBytes : (n v : ℕ) → AreBytes (be_bytes n v)
unfolding be_bytes
be_bytes-AreBytes zero v = tt
be_bytes-AreBytes (suc n) v = (omega arith, be_bytes-AreBytes n v)

le_value-le_bytes : (n v : ℕ) → le_value (le_bytes n v) ≡ v % 256 ^ n
unfolding le_bytes le_value
le_value-le_bytes zero v = omega arith
le_value-le_bytes (suc n) v =
    ap (λ (t : ℕ). v % 256 + 256 * t) (le_value-le_bytes n (v / 256))
    ∙ sym (product_mod v 256 (256 ^ n) (omega arith) (one-le-pow n 256 (omega arith)))
    ∙ ap (λ (t : ℕ). v % t) (omega (arith, pow-suc 256 n))

digits : (acc d p r : ℕ) → (acc * 256 + d) * p + r ≡ acc * (p * 256) + (r + p * d)
digits acc d p r = grind arith

be_from-be_bytes : (n acc v : ℕ) → be_from acc (be_bytes n v) ≡ acc * 256 ^ n + v % 256 ^ n
unfolding be_bytes be_from
be_from-be_bytes zero acc v = omega arith
be_from-be_bytes (suc n) acc v =
    let p = 256 ^ n in
    let d = v / p % 256 in
    let split : v % (p * 256) ≡ v % p + p * d =
      product_mod v p 256 (one-le-pow n 256 (omega arith)) (omega arith) in
    be_from-be_bytes n (acc * 256 + d) v
    ∙ digits acc d p (v % p)
    ∙ ap (λ (t : ℕ). acc * (p * 256) + t) (sym split)
    ∙ ap (λ (t : ℕ). acc * t + v % t) {x = p * 256} {y = 256 ^ suc n} (omega (arith, pow-suc 256 n))

-- The bytes of a patch are those of its number in the form asked for.
pub prefix_bytes-IsPrefix :
    (width : ℕ) (narrow : width ≤ 64) (is_uleb little : Bool) (v : ℕ)
    → v < 2 ^ 64
    → IsPrefix width is_uleb little v (prefix_bytes width narrow is_uleb little v)
unfolding prefix_bytes host_bytes be_value
prefix_bytes-IsPrefix width narrow true little v small = uleb128_encode-Encodes v small
prefix_bytes-IsPrefix width narrow false true v small = (
  le_bytes-length (width / 8) v,
  le_bytes-AreBytes (width / 8) v,
  le_value-le_bytes (width / 8) v,
)
prefix_bytes-IsPrefix width narrow false false v small = (
  be_bytes-length (width / 8) v,
  be_bytes-AreBytes (width / 8) v,
  be_from-be_bytes (width / 8) 0 v ∙ omega arith,
)
