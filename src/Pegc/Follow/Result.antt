-- ===== src/Pegc/Follow/Result.antt =====
-- The whole of compute_follow_sets of pegc/frontend/PegAnalysis.cpp.
use bbq.Base.{
  ℕ, zero, suc, ◌<◌, ◌≡◌, ap, ◌∙◌, inl, inr, true, false, Option, none, some, List, [], ◌∷◌, arith,
  Bool-cases, Option-cases, length,
}
use bbq.Pegc.Names.{Text}
use bbq.Pegc.Ast.{FirstElement, epsilon}
use bbq.Pegc.First.{ProductionInfo, Productions, find, Terminals}
use bbq.Pegc.First.Bound.{IsWithin, IsWithin-none}
use bbq.Pegc.Worklist.{pop}
use bbq.Pegc.Kildall.{FirstState}
use bbq.Pegc.Kildall.Fixpoint.{List-cases, popped}
use bbq.Pegc.Follow.{walk_for_follow, follow_loop}
use bbq.Pegc.Follow.Kept.{IsKept, IsKept-same, IsKept-further}
use bbq.Pegc.Follow.Walk.{walk-Keeps}
use bbq.Pegc.Follow.Size.{IsLimited, rounds_left, Limits}
use bbq.Pegc.Follow.Ends.{walk-Limits}

abbrev rest_of : FirstState → Text → List Text → FirstState
rest_of s m rest = record s { worklist = popped s.worklist m rest }

module _ (fuel : ℕ) (t : Terminals) (s : FirstState) where
  loop_stops : s.worklist.queue ≡ [] → follow_loop (suc fuel) t s ≡ some s.productions
  unfolding follow_loop pop
  loop_stops h = cc

  module _ (m : Text) (rest : List Text) (h : s.worklist.queue ≡ m ∷ rest) where
    loop_undeclared :
        find m s.productions ≡ none
        → follow_loop (suc fuel) t s ≡ follow_loop fuel t (rest_of s m rest)
    unfolding follow_loop pop
    loop_undeclared e = cc

    loop_skips :
        (p : ProductionInfo)
        → find m s.productions ≡ some p
        → p.left_recursive ≡ true
        → follow_loop (suc fuel) t s ≡ follow_loop fuel t (rest_of s m rest)
    unfolding follow_loop pop
    loop_skips p e l = cc

    loop_walks :
        (p : ProductionInfo)
        → find m s.productions ≡ some p
        → p.left_recursive ≡ false
        → follow_loop (suc fuel) t s
          ≡ follow_loop fuel t (walk_for_follow t m p.body [] (rest_of s m rest))
    unfolding follow_loop pop
    loop_walks p e l = cc

-- What the loop comes to.
abbrev pub IsFollowed : Terminals → List FirstElement → Productions → Option Productions → Type 0
IsFollowed t u ps o = (qs : Productions) × (o ≡ some qs) × IsLimited t u qs × IsKept ps qs

module _ (t : Terminals) (u : List FirstElement) (he : IsWithin (epsilon ∷ []) u) where
  pub follow_loop_lem :
      (fuel : ℕ) (s : FirstState)
      → IsLimited t u s.productions
      → rounds_left u s < fuel
      → IsFollowed t u s.productions (follow_loop fuel t s)
  follow_loop_lem zero s live h = absurd (omega arith)
  follow_loop_lem (suc fuel) s live h = elim (List-cases s.worklist.queue) [
    | inl e ↦ (s.productions, loop_stops fuel t s e, live, IsKept-same s.productions)
    | inr e ↦
        let m : Text = e.0 in
        let rest : List Text = e.1 in
        let sizes : length s.worklist.queue ≡ suc (length rest) =
          ap (λ (q : List Text). length q) e.2 in
        let skipped : IsFollowed t u s.productions (follow_loop fuel t (rest_of s m rest)) =
          follow_loop_lem fuel (rest_of s m rest) live (omega (arith, h, sizes)) in
        elim (Option-cases (find m s.productions)) [
          | inl n ↦
              (skipped.0, loop_undeclared fuel t s m rest e.2 n ∙ skipped.1, skipped.2, skipped.3)
          | inr f ↦ elim (Bool-cases f.0.left_recursive) [
            | inl l ↦ (
              skipped.0,
              loop_skips fuel t s m rest e.2 f.0 f.1 l ∙ skipped.1,
              skipped.2,
              skipped.3,
            )
            | inr l ↦
                let w : FirstState = walk_for_follow t m f.0.body [] (rest_of s m rest) in
                let a : Limits t u (rest_of s m rest) w =
                  walk-Limits t u he m f.0.body [] (rest_of s m rest) live (live.bodies m f.0 f.1)
                    (IsWithin-none u) in
                let k : IsKept s.productions w.productions =
                  walk-Keeps t m f.0.body [] (rest_of s m rest) in
                let done : IsFollowed t u w.productions (follow_loop fuel t w) =
                  follow_loop_lem fuel w a.0 (omega (arith, h, sizes, a.1)) in
                (
                  done.0,
                  loop_walks fuel t s m rest e.2 f.0 f.1 l ∙ done.1,
                  done.2,
                  IsKept-further s.productions w.productions done.0 k done.3,
                )
          ]
        ]
  ]
