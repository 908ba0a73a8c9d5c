-- ===== src/Pegc/Kildall/Fixpoint.antt =====
-- The rounds of compute_first_sets of pegc/frontend/PegAnalysis.cpp.
use bbq.Base.{
  ℕ, zero, suc, ◌+◌, ◌-◌, ◌*◌, ◌≤◌, ◌<◌, ◌≡◌, refl, sym, ap, ◌∙◌, subst, ◌⊎◌, inl, inr, Bool, true,
  Option, some, List, [], ◌∷◌, arith, Bool-cases, or_left, length,
}
use native.Mathlib.Nat.{mul-le-mul_right}
use bbq.Pegc.Names.{Text, text_eq, count, erase, text_eq_self}
use bbq.Pegc.Ast.{PegExpr, FirstElement, epsilon}
use bbq.Pegc.First.{ProductionInfo, Productions, find, Terminals, first_of}
use bbq.Pegc.First.Bound.{IsWithin}
use bbq.Pegc.First.Grow.{IsPlain}
use bbq.Pegc.Worklist.{Worklist, pop, pop-IsTracked}
use bbq.Pegc.Collect.{Callers, callers_of}
use bbq.Pegc.Kildall.{FirstState, set_first, first_round, first_loop}
use bbq.Pegc.Kildall.Table.{find-declared, total}
use bbq.Pegc.Kildall.Invariant.{IsRising, IsPending, length-fresh}
use bbq.Pegc.Kildall.Step.{IsLive, Nearer, Advanced, first_round_lem}

-- What compute_first_sets leaves of each production: its name, its body, its mark.
unfoldable pub skeleton : Productions → List (Text × (PegExpr × Bool))
skeleton [] = []
skeleton (p ∷ ps) = (p.name, (p.body, p.left_recursive)) ∷ skeleton ps

skeleton-set_first :
    (m : Text) (s : List FirstElement) (ps : Productions)
    → skeleton (set_first m s ps) ≡ skeleton ps
unfolding skeleton set_first
skeleton-set_first m s [] = refl
skeleton-set_first m s (p ∷ ps) = elim (Bool-cases (text_eq m p.name)) [
  | inl k ↦ rw (k) refl
  | inr k ↦ rw (k) (ap (λ l. (p.name, (p.body, p.left_recursive)) ∷ l) (skeleton-set_first m s ps))
]

length-set_first :
    (m : Text) (s : List FirstElement) (ps : Productions) → length (set_first m s ps) ≡ length ps
unfolding set_first
length-set_first m s [] = refl
length-set_first m s (p ∷ ps) = elim (Bool-cases (text_eq m p.name)) [
  | inl k ↦ rw (k) refl
  | inr k ↦ rw (k) (ap suc (length-set_first m s ps))
]

-- No FIRST set of the table is longer than `n`.
abbrev pub IsShort : ℕ → Productions → Type 0
IsShort n [] = Unit
IsShort n (p ∷ ps) = (length p.first_set ≤ n) × IsShort n ps

IsShort-set_first :
    (n : ℕ) (m : Text) (s : List FirstElement) (ps : Productions)
    → length s ≤ n
    → IsShort n ps
    → IsShort n (set_first m s ps)
unfolding set_first
IsShort-set_first n m s [] l h = h
IsShort-set_first n m s (p ∷ ps) l h = elim (Bool-cases (text_eq m p.name)) [
  | inl k ↦ rw (k) (l, h.1)
  | inr k ↦ rw (k) (h.0, IsShort-set_first n m s ps l h.1)
]

total_le : (n : ℕ) (ps : Productions) → IsShort n ps → total ps ≤ length ps * n
unfolding total
total_le n [] h = omega arith
total_le n (p ∷ ps) h = grind (arith, h.0, total_le n ps h.1)

-- The rounds that are left: at most the elements that are missing, each with the callers that it
-- makes pending, and the names that are pending now.
abbrev rounds : ℕ → ℕ → Productions → Worklist → ℕ
rounds k n ps wl = (length ps * n - total ps) * suc k + length wl.queue

fewer : (d e k : ℕ) → d < e → d * suc k + suc k ≤ e * suc k
fewer d e k h = omega (arith, mul-le-mul_right (suc k) h)

pub List-cases {ℓ} :
    {A : Type ℓ} (xs : List A) → (xs ≡ []) ⊎ ((x : A) × (rest : List A) × (xs ≡ x ∷ rest))
List-cases [] = inl refl
List-cases (x ∷ xs) = inr (x, xs, refl)

abbrev pub popped : Worklist → Text → List Text → Worklist
popped wl m rest = record { queue = rest; on_queue = erase m wl.on_queue }

loop_ends :
    (fuel : ℕ) (t : Terminals) (callers : List Callers) (ps : Productions) (wl : Worklist)
    → wl.queue ≡ []
    → first_loop (suc fuel) t callers ps wl ≡ some ps
unfolding first_loop pop
loop_ends fuel t callers ps wl h = rw (h) refl

loop_goes_on :
    (fuel : ℕ) (t : Terminals) (callers : List Callers) (ps : Productions) (wl : Worklist)
    (m : Text) (rest : List Text) (info : ProductionInfo)
    → wl.queue ≡ m ∷ rest
    → find m ps ≡ some info
    → first_loop (suc fuel) t callers ps wl
      ≡ first_loop fuel t callers
          (first_round t callers m info ps (popped wl m rest)).productions
          (first_round t callers m info ps (popped wl m rest)).worklist
unfolding first_loop pop
loop_goes_on fuel t callers ps wl m rest info h f = cc

-- What the loop comes to from a state that its invariant describes.
abbrev pub IsDone : Terminals → List FirstElement → Productions → Option Productions → Type 0
IsDone t u ps o =
    (qs : Productions) × (o ≡ some qs)
    × IsRising t u qs
    × IsPending t qs []
    × (skeleton qs ≡ skeleton ps)

head_in : {m : Text} {q rest : List Text} → q ≡ m ∷ rest → count m q ≡ true
unfolding count
head_in {m = m} {rest = rest} e = ap (λ q. count m q) e ∙ or_left _ (count m rest) (text_eq_self m)

module _ (t : Terminals) (callers : List Callers) (u : List FirstElement) (plain : IsPlain u)
    (he : IsWithin (epsilon ∷ []) u) (k : ℕ)
    (few : (n : Text) → length (callers_of n callers) ≤ k) where
  -- What a round's outcome needs of the next.
  abbrev Descends : Productions → ℕ → FirstState → Type 0
  Descends ps q s =
      IsShort (length u) s.productions
      × (skeleton s.productions ≡ skeleton ps)
      × ((length s.productions * length u - total s.productions) * suc k + length s.worklist.queue
          < (length ps * length u - total ps) * suc k + q)

  descends :
      (ps : Productions) (wl : Worklist) (m : Text) (info : ProductionInfo)
      (f : find m ps ≡ some info) (s : FirstState)
      → IsRising t u ps
      → IsShort (length u) ps
      → Nearer t callers u plain he ps wl m info f s
      → Descends ps (suc (length wl.queue)) s
  descends ps wl m info f s r short (inl e) = (
    subst (λ l. IsShort (length u) l) (sym e.0) short,
    ap (λ l. skeleton l) e.0,
    let size : length s.productions ≡ length ps = ap (λ (l : Productions). length l) e.0 in
        let held : total s.productions ≡ total ps = ap (λ l. total l) e.0 in
        rw (size, held) (omega (arith, e.1)),
  )
  descends ps wl m info f s r short (inr e) =
      let fresh : List FirstElement = first_of t ps info.body in
      let now : IsShort (length u) (set_first m fresh ps) =
        IsShort-set_first (length u) m fresh ps (length-fresh t u plain he ps m info f r) short in
      let here : IsShort (length u) s.productions =
        subst (λ l. IsShort (length u) l) (sym e.0) now in
      let size : length s.productions ≡ length ps =
        ap (λ (l : Productions). length l) e.0 ∙ length-set_first m fresh ps in
      (
        here,
        ap (λ l. skeleton l) e.0 ∙ skeleton-set_first m fresh ps,
        let bound : total s.productions ≤ length ps * length u =
              subst (λ n. total s.productions ≤ n * length u) size
                (total_le (length u) s.productions here) in
            let left : length ps * length u - total s.productions
                < length ps * length u - total ps =
              omega (arith, bound, e.1) in
            rw (size) (omega (arith, fewer _ _ k left, e.2, few m)),
      )

  pub first_loop_lem :
      (fuel : ℕ) (ps : Productions) (wl : Worklist)
      → IsLive t callers u ps wl
      → IsShort (length u) ps
      → rounds k (length u) ps wl < fuel
      → IsDone t u ps (first_loop fuel t callers ps wl)
  first_loop_lem zero ps wl live short h = absurd (omega arith)
  first_loop_lem (suc fuel) ps wl live short h = elim (List-cases wl.queue) [
    | inl e ↦ (
      ps,
      loop_ends fuel t callers ps wl e,
      live.ascent,
      subst (λ q. IsPending t ps q) e live.pending,
      refl,
    )
    | inr e ↦
        let m : Text = e.0 in
        let rest : List Text = e.1 in
        let front : wl.queue ≡ m ∷ rest = e.2 in
        let entry = find-declared m ps (live.pending.queued m (head_in front)) in
        let s : FirstState = first_round t callers m entry.0 ps (popped wl m rest) in
        let after : Advanced t callers u plain he ps (popped wl m rest) m entry.0 entry.1 s =
          first_round_lem t callers u plain he ps (popped wl m rest) m entry.0 entry.1
            (pop-IsTracked wl m rest live.tracked front) live.wiring live.ascent
            (subst (λ q. IsPending t ps q) front live.pending) in
        let down : Descends ps (suc (length rest)) s =
          descends ps (popped wl m rest) m entry.0 entry.1 s live.ascent short after.1 in
        let sizes : length wl.queue ≡ suc (length rest) = ap (λ (q : List Text). length q) front in
        let done : IsDone t u s.productions (first_loop fuel t callers s.productions s.worklist) =
          first_loop_lem fuel s.productions s.worklist after.0 down.0
            (omega (arith, down.2, sizes)) in
        (
          done.0,
          loop_goes_on fuel t callers ps wl m rest entry.0 front entry.1 ∙ done.1,
          done.2,
          done.3,
          done.4 ∙ down.1,
        )
  ]
