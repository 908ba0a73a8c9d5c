-- ===== src/Write/Holes/Shift.antt =====
-- backends/c/runtime/bbq_runtime.h: the loops of bbq_w_patch_count that move the open holes.
use bbq.Base.{
  Answered, ℕ, zero, suc, ◌+◌, ◌-◌, ◌^◌, ◌≤◌, ◌<◌, ◌≡◌, refl, sym, ap, ap₂, ◌∙◌, true, false, List,
  [], ◌∷◌, ◌++◌, Option, some, ltb, ==_iff, arith, length, drop, length-append, drop-length_append,
}
use mathlib.Core.List.{append_assoc}
use native.Mathlib.Nat.{suc-add, zero-add}
use bbq.Crt.Vec.{Vec}
use bbq.Read.Ctx.{at}
use bbq.Write.Holes.{shift_holes, is_skipped}

drop_add : (a b : ℕ) (l : List ℕ) → drop (a + b) l ≡ drop b (drop a l)
drop_add zero b l = rw zero-add refl
drop_add (suc a) zero [] = rw suc-add refl
drop_add (suc a) (suc b) [] = rw suc-add refl
drop_add (suc a) b (x ∷ l) = rw suc-add (drop_add a b l)

-- What stands behind an insertion, from a place behind its hole on.
pub behind_insertion :
    (hole g : ℕ) (l bs w : List ℕ)
    → length l ≡ hole
    → hole ≤ g
    → drop (g + length bs) (l ++ (bs ++ drop hole w)) ≡ drop g w
behind_insertion hole g l bs w e le =
    let size : length (l ++ bs) ≡ hole + length bs = omega (arith, length-append l bs, e) in
    ap₂ (λ (n : ℕ) t. drop n t) {x = g + length bs} {y = length (l ++ bs) + (g - hole)}
      (omega (arith, size)) (sym (append_assoc l bs (drop hole w)))
    ∙ drop_add (length (l ++ bs)) (g - hole) ((l ++ bs) ++ drop hole w)
    ∙ ap (λ t. drop (g - hole) t) (drop-length_append (l ++ bs) (drop hole w))
    ∙ sym (drop_add hole (g - hole) w)
    ∙ ap (λ (n : ℕ). drop n w) {x = hole + (g - hole)} {y = g} (omega arith)

-- Where an open hole stands after `n` bytes went in at `hole`, and what it points at: a hole behind
-- moved with its bytes, and one at or before the insertion stayed.
abbrev pub Follows : (hole n : ℕ) (w w' : List ℕ) (old new : ℕ) → Type 0
Follows hole n w w' old new =
    Answered (ltb hole old) ((new ≡ old + n) × (drop new w' ≡ drop old w)) (new ≡ old)

-- What the loop over open holes does to a hole that it does not skip, where no place wraps.
pub shifted :
    (skip : Option ℕ) (bound hole n i : ℕ) (v : Vec ℕ)
    → i < bound
    → is_skipped skip i ≡ false
    → at v i + n < 2 ^ 64
    → (hole < at v i → at (shift_holes skip bound hole n v) i ≡ at v i + n)
      × (at v i ≤ hole → at (shift_holes skip bound hole n v) i ≡ at v i)
unfolding shift_holes
shifted skip bound hole n i v lt keep small =
    let in_ : ltb i bound ≡ true = ground arith in
    (λ a. ground (arith, in_, keep, small), λ b. ground (arith, in_, keep))

-- The loop leaves the hole that it skips.
pub shifted_own :
    (bound hole n i : ℕ) (v : Vec ℕ) → at (shift_holes (some i) bound hole n v) i ≡ at v i
unfolding shift_holes is_skipped
shifted_own bound hole n i v = ground (arith, (==_iff i i).1 refl)
