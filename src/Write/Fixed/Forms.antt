-- ===== src/Write/Fixed/Forms.antt =====
-- backends/c/runtime/bbq_runtime.h: the fixed-width writes, by form and kind of host.
use bbq.Base.{ℕ, ◌^◌, ◌<◌, ◌≡◌, refl, sym, ap, ap₂, Bool, true, false, List, ◌∷◌, arith, subst}
use bbq.Read.Ctx.{M}
use bbq.Read.Fixed.{
  bswap16, bswap32, bswap64, read_u16be, read_u16le, read_u32be, read_u32le, read_u64be, read_u64le,
}
use bbq.Read.Fixed.Swap.{bswap16-sum, bswap32-sum, bswap64-sum}
use bbq.Write.Buffer.{WriteCtx, W, emit, PostW}
use bbq.Write.Buffer.Reserve.{IsBuffer, Untouched}
use bbq.Write.Buffer.Emit.{Emitted, emit_lem}
use bbq.Write.Fixed.{
  le_bytes, be_bytes, host_bytes, write_u16be, write_u16le, write_u32be, write_u32le, write_u64be,
  write_u64le,
}

-- The fixed-width forms: bits and byte order.
pub data Form : Type 0 where
  u16be u16le u32be u32le u64be u64le : Form

abbrev pub bytes_of : Form → ℕ
bytes_of u16be = 2
bytes_of u16le = 2
bytes_of u32be = 4
bytes_of u32le = 4
bytes_of u64be = 8
bytes_of u64le = 8

-- The bytes of a value in a form, said without a host.
abbrev pub form_bytes : Form → ℕ → List ℕ
form_bytes u16be v = be_bytes 2 v
form_bytes u16le v = le_bytes 2 v
form_bytes u32be v = be_bytes 4 v
form_bytes u32le v = le_bytes 4 v
form_bytes u64be v = be_bytes 8 v
form_bytes u64le v = le_bytes 8 v

abbrev pub write_form : Form → Bool → ℕ → W
write_form u16be = write_u16be
write_form u16le = write_u16le
write_form u32be = write_u32be
write_form u32le = write_u32le
write_form u64be = write_u64be
write_form u64le = write_u64le

abbrev pub read_form : Form → Bool → M ℕ
read_form u16be = read_u16be
read_form u16le = read_u16le
read_form u32be = read_u32be
read_form u32le = read_u32le
read_form u64be = read_u64be
read_form u64le = read_u64le

cons_eq : {x y : ℕ} {xs ys : List ℕ} → x ≡ y → xs ≡ ys → x ∷ xs ≡ y ∷ ys
cons_eq e f = ap₂ (λ (a : ℕ) rest. a ∷ rest) e f

-- The bytes of a swapped value on a host of one order are the value's in the other.
le_swapped_2 : (v : ℕ) → v < 2 ^ 16 → le_bytes 2 (bswap16 v) ≡ be_bytes 2 v
unfolding le_bytes be_bytes
le_swapped_2 v h =
    let s = bswap16-sum v h in cons_eq (omega (arith, s)) (cons_eq (omega (arith, s)) refl)

be_swapped_2 : (v : ℕ) → v < 2 ^ 16 → be_bytes 2 (bswap16 v) ≡ le_bytes 2 v
unfolding le_bytes be_bytes
be_swapped_2 v h =
    let s = bswap16-sum v h in cons_eq (omega (arith, s)) (cons_eq (omega (arith, s)) refl)

le_swapped_4 : (v : ℕ) → v < 2 ^ 32 → le_bytes 4 (bswap32 v) ≡ be_bytes 4 v
unfolding le_bytes be_bytes
le_swapped_4 v h =
    let s = bswap32-sum v h in
    cons_eq (omega (arith, s))
      (cons_eq (omega (arith, s)) (cons_eq (omega (arith, s)) (cons_eq (omega (arith, s)) refl)))

be_swapped_4 : (v : ℕ) → v < 2 ^ 32 → be_bytes 4 (bswap32 v) ≡ le_bytes 4 v
unfolding le_bytes be_bytes
be_swapped_4 v h =
    let s = bswap32-sum v h in
    cons_eq (omega (arith, s))
      (cons_eq (omega (arith, s)) (cons_eq (omega (arith, s)) (cons_eq (omega (arith, s)) refl)))

four_eq :
    {a b c d a' b' c' d' : ℕ} {xs ys : List ℕ}
    → a ≡ a'
    → b ≡ b'
    → c ≡ c'
    → d ≡ d'
    → xs ≡ ys
    → a ∷ b ∷ c ∷ d ∷ xs ≡ a' ∷ b' ∷ c' ∷ d' ∷ ys
four_eq a b c d e = cons_eq a (cons_eq b (cons_eq c (cons_eq d e)))

le_swapped_8 : (v : ℕ) → v < 2 ^ 64 → le_bytes 8 (bswap64 v) ≡ be_bytes 8 v
unfolding le_bytes be_bytes
le_swapped_8 v h =
    let s = bswap64-sum v h in
    four_eq (omega (arith, s)) (omega (arith, s)) (omega (arith, s)) (omega (arith, s))
      (four_eq (omega (arith, s)) (omega (arith, s)) (omega (arith, s)) (omega (arith, s)) refl)

be_swapped_8 : (v : ℕ) → v < 2 ^ 64 → be_bytes 8 (bswap64 v) ≡ le_bytes 8 v
unfolding le_bytes be_bytes
be_swapped_8 v h =
    let s = bswap64-sum v h in
    four_eq (omega (arith, s)) (omega (arith, s)) (omega (arith, s)) (omega (arith, s))
      (four_eq (omega (arith, s)) (omega (arith, s)) (omega (arith, s)) (omega (arith, s)) refl)

write_form-bytes :
    (f : Form) (host : Bool) (v : ℕ) (c : WriteCtx)
    → v < 256 ^ bytes_of f
    → write_form f host v c ≡ emit (form_bytes f v) c
unfolding write_u16be write_u16le write_u32be write_u32le write_u64be write_u64le host_bytes
write_form-bytes u16be true v c h = ap (λ bs. emit bs c) (le_swapped_2 v (omega arith))
write_form-bytes u16be false v c h = refl
write_form-bytes u16le true v c h = refl
write_form-bytes u16le false v c h = ap (λ bs. emit bs c) (be_swapped_2 v (omega arith))
write_form-bytes u32be true v c h = ap (λ bs. emit bs c) (le_swapped_4 v (omega arith))
write_form-bytes u32be false v c h = refl
write_form-bytes u32le true v c h = refl
write_form-bytes u32le false v c h = ap (λ bs. emit bs c) (be_swapped_4 v (omega arith))
write_form-bytes u64be true v c h = ap (λ bs. emit bs c) (le_swapped_8 v (omega arith))
write_form-bytes u64be false v c h = refl
write_form-bytes u64le true v c h = refl
write_form-bytes u64le false v c h = ap (λ bs. emit bs c) (be_swapped_8 v (omega arith))

-- On a host of either byte order, each fixed-width write appends the bytes of its value in the order of
-- its name to what was written, or fails and leaves buffer and cursor.
pub fixed_writes :
    (f : Form) (host : Bool) (v : ℕ) (c : WriteCtx)
    → v < 256 ^ bytes_of f
    → IsBuffer c
    → PostW (write_form f host v c) (Emitted (form_bytes f v) c) (Untouched c)
fixed_writes f host v c small h =
    subst (λ m. PostW m (Emitted (form_bytes f v) c) (Untouched c))
      (sym (write_form-bytes f host v c small)) (emit_lem (form_bytes f v) c h)
