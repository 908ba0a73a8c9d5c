-- ===== src/Write/Holes/Rest.antt =====
-- backends/c/runtime/bbq_runtime.h: bbq_w_patch_rest, and insertions in general.
use bbq.Base.{
  ℕ, zero, suc, ◌+◌, ◌-◌, ◌≤◌, ◌≡◌, refl, sym, ap, ap₂, ◌∙◌, Bool, List, [], ◌∷◌, ◌++◌, arith,
  length, take, drop, length-append, length-take, length-drop, take-append_short, take_all,
  drop-length_append,
}
use mathlib.Core.List.{append_assoc}
use native.Mathlib.Nat.{suc-add, zero-add}
use bbq.Read.Ctx.{at}
use bbq.Write.Buffer.{WriteCtx, poke, written}
use bbq.Write.Buffer.Reserve.{IsBuffer}
use bbq.Write.Buffer.Emit.{poke-length, take-poke_before}
use bbq.Write.Holes.{insert_at}
use bbq.Write.Holes.Prefix.{IsPrefix}

pub take-drop : (m h : ℕ) (l : List ℕ) → take m (drop h l) ≡ drop h (take (h + m) l)
take-drop m zero l = rw zero-add refl
take-drop zero (suc h) [] = rw suc-add refl
take-drop (suc m) (suc h) [] = rw suc-add refl
take-drop m (suc h) (x ∷ l) = rw suc-add (take-drop m h l)

drop-poke :
    (i : ℕ) (bs buf : List ℕ)
    → i ≤ length buf
    → drop i (poke i bs buf) ≡ bs ++ drop (i + length bs) buf
drop-poke i bs buf h =
    let len : length (take i buf) ≡ i = omega (arith, length-take i buf) in
    ap (λ (n : ℕ). drop n (poke i bs buf)) (sym len) ∙ drop-length_append (take i buf) _

-- An insertion: what was in front of the hole, the bytes, and what was behind it.
pub take-insert_at :
    (hole : ℕ) (bs : List ℕ) (moved : ℕ) (buf : List ℕ)
    → hole + moved + length bs ≤ length buf
    → take (hole + moved + length bs) (insert_at hole bs moved buf)
      ≡ take hole buf ++ (bs ++ drop hole (take (hole + moved) buf))
unfolding insert_at
take-insert_at hole bs moved buf room =
    let tail = take moved (drop hole buf) in
    let rest = drop (hole + length bs + length tail) buf in
    let len : length tail ≡ moved =
      omega (arith, length-take moved (drop hole buf), length-drop hole buf) in
    let front = take-poke_before hole (hole + length bs) tail buf (omega arith) (omega arith) in
    let back = drop-poke (hole + length bs) tail buf (omega arith) in
    let whole : insert_at hole bs moved buf ≡ (take hole buf ++ (bs ++ tail)) ++ rest =
      ap₂ (λ l r. l ++ (bs ++ r)) front back
      ∙ ap (λ t. take hole buf ++ t) (sym (append_assoc bs tail rest))
      ∙ sym (append_assoc (take hole buf) (bs ++ tail) rest) in
    let size : length (take hole buf ++ (bs ++ tail)) ≡ hole + moved + length bs = omega (
      arith,
      len,
      length-append (take hole buf) (bs ++ tail),
      length-append bs tail,
      length-take hole buf,
    ) in
    ap (λ t. take (hole + moved + length bs) t) whole
    ∙ take-append_short (hole + moved + length bs) _ rest (omega (arith, size))
    ∙ take_all (hole + moved + length bs) _ (omega (arith, size))
    ∙ ap (λ t. take hole buf ++ (bs ++ t)) (take-drop moved hole buf)

pub insert_at-length :
    (hole : ℕ) (bs : List ℕ) (moved : ℕ) (buf : List ℕ)
    → hole + moved + length bs ≤ length buf
    → length (insert_at hole bs moved buf) ≡ length buf
unfolding insert_at
insert_at-length hole bs moved buf room =
    let tail = take moved (drop hole buf) in
    let len : length tail ≡ moved =
      omega (arith, length-take moved (drop hole buf), length-drop hole buf) in
    let inner = poke-length (hole + length bs) tail buf (omega (arith, len)) in
    poke-length hole bs (poke (hole + length bs) tail buf) (omega (arith, inner)) ∙ inner

-- The writer after a patch of the innermost `@rest`.
pub record RestPatched (width : ℕ) (is_uleb little : Bool) (c c' : WriteCtx) : Type 0 where
  pub valid : IsBuffer c'
  pub closed : c'.rest_depth ≡ c.rest_depth - 1
  pub size : List ℕ
  pub form : IsPrefix width is_uleb little (c.pos - at c.rest_holes (c.rest_depth - 1)) size
  pub output :
      written c'
      ≡ take (at c.rest_holes (c.rest_depth - 1)) c.buf
        ++ (size ++ drop (at c.rest_holes (c.rest_depth - 1)) (written c))

module _ (width : ℕ) (narrow : width ≤ 64) (is_uleb little : Bool) (c : WriteCtx)
    (open_ : 1 ≤ c.rest_depth) (inside : at c.rest_holes (c.rest_depth - 1) ≤ c.pos)
    (h : IsBuffer c) where
  hole : ℕ
  hole = at c.rest_holes (c.rest_depth - 1)

  closed_rest : WriteCtx
  closed_rest = record c { rest_depth = c.rest_depth - 1 }
