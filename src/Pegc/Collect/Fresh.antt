-- ===== src/Pegc/Collect/Fresh.antt =====
-- The table that collect_productions of pegc/frontend/PegAnalysis.cpp leaves.
use bbq.Base.{
  ◌≡◌, refl, sym, ap, ◌∙◌, inl, inr, false, ◌||◌, List, [], ◌∷◌, ◌++◌, arith, Bool-cases, or_parts,
  true-false,
}
use bbq.Pegc.Names.{Text, text_eq, text_lt, count, text_eq_comm}
use bbq.Pegc.Ast.{Production}
use bbq.Pegc.First.{ProductionInfo, Productions, Terminals}
use bbq.Pegc.Collect.{
  Message, duplicate_production, put, is_declared, new_info, collect_productions,
}
use bbq.Pegc.Kildall.{all_names}
use bbq.Pegc.Kildall.Start.{IsFresh, count-is_declared}

count-put :
    (n : Text) (p : ProductionInfo) (ps : Productions)
    → count n (all_names (put p ps)) ≡ text_eq n p.name || count n (all_names ps)
unfolding count all_names put
count-put n p [] = refl
count-put n p (q ∷ ps) = ground (arith, count-put n p ps)

put-IsFresh :
    (t : Terminals) (g : Production) (ps : Productions)
    → count g.name (all_names ps) ≡ false
    → IsFresh t ps
    → IsFresh t (put (new_info t g) ps)
unfolding count all_names put
put-IsFresh t g [] k h = (refl, refl, refl, refl, h)
put-IsFresh t g (q ∷ ps) k h =
    let rest : IsFresh t (put (new_info t g) ps) = put-IsFresh t g ps (or_parts _ _ k).1 h.4 in
    let apart : count q.name (all_names (put (new_info t g) ps)) ≡ false =
      count-put q.name (new_info t g) ps
      ∙ ap (λ b. b || count q.name (all_names ps)) (text_eq_comm q.name g.name ∙ (or_parts _ _ k).0)
      ∙ h.0 in
    elim (Bool-cases (text_lt g.name q.name)) [
      | inl l ↦ rw (l) (k, refl, refl, refl, h)
      | inr l ↦ rw (l) (apart, h.1, h.2, h.3, rest)
    ]

undeclared-count :
    (n : Text) (ps : Productions) → is_declared n ps ≡ false → count n (all_names ps) ≡ false
undeclared-count n ps h = elim (Bool-cases (count n (all_names ps))) [
  | inl k ↦ absurd (true-false (sym (count-is_declared n ps k) ∙ h))
  | inr k ↦ k
]

-- From a table without FIRST sets, collecting further productions leaves one: no name stands twice,
-- whatever the grammar repeats, and the calls of each production are those of its body.
pub collect_productions-IsFresh :
    (t : Terminals) (gs : List Production) (ps : Productions) (errors : List Message)
    → IsFresh t ps
    → IsFresh t (collect_productions t gs ps errors).0
unfolding collect_productions
collect_productions-IsFresh t [] ps errors h = h
collect_productions-IsFresh t (g ∷ gs) ps errors h = elim (Bool-cases (is_declared g.name ps)) [
  | inl k ↦
      rw (k) (collect_productions-IsFresh t gs ps (errors ++ (duplicate_production g.name ∷ [])) h)
  | inr k ↦ rw (k) (
      collect_productions-IsFresh t gs (put (new_info t g) ps) errors
        (put-IsFresh t g ps (undeclared-count g.name ps k) h))
]
