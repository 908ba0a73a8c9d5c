-- ===== src/Pegc/Graph/Sort.antt =====
-- A visit of topological_sort of pegc/frontend/PegAnalysis.cpp, and what the whole comes to.
use bbq.Base.{
  ℕ, zero, suc, ◌<◌, ◌≡◌, refl, sym, ap, ◌∙◌, subst, ◌⊎◌, inl, inr, true, false, not, ◌&&◌, ◌||◌,
  some, List, [], ◌∷◌, arith, Bool-cases, or_left, or_right, or_cases, true-false, length,
}
use bbq.Pegc.Names.{
  Text, text_eq, count, unrepeated, text_eq_self, text_eq-same, count-insert, count-append,
  count-erase, count-eq, unrepeated-snoc,
}
use bbq.Pegc.First.{Productions}
use bbq.Pegc.Kildall.{all_names}
use bbq.Pegc.Graph.{
  deps_of, TopoState, topo_enter, topo_leave, topo_all, topo_visit, topological_sort,
}
use bbq.Pegc.Graph.Reach.{Reaches, arrived, unvisited, grown-insert, unvisited_lt, unvisited_length}
use bbq.Pegc.Graph.Mark.{deps_none}
use bbq.Pegc.Graph.Topo.{
  InOrder, InOrder-snoc, Reaches-snoc, IsSorted, IsStep, IsStep-same, Leads, Visited, topo_all_lem,
}

module _ (fuel : ℕ) (ps : Productions) (n : Text) (s : TopoState) where
  visit_done : count n s.visited ≡ true → topo_visit (suc fuel) ps n s ≡ some s
  unfolding topo_visit
  visit_done h = cc

  visit_circle :
      count n s.visited ≡ false → count n s.in_stack ≡ true → topo_visit (suc fuel) ps n s ≡ some s
  unfolding topo_visit
  visit_circle h k = cc

  visit_enters :
      (r : TopoState)
      → count n s.visited ≡ false
      → count n s.in_stack ≡ false
      → topo_all (topo_visit fuel ps) (deps_of n ps) (topo_enter n s) ≡ some r
      → topo_visit (suc fuel) ps n s ≡ some (topo_leave n r)
  unfolding topo_visit
  visit_enters r h k e = cc

-- What the visits of the calls of `n` come to.
abbrev Within : Productions → ℕ → Text → TopoState → Type 0
Within ps fuel n s =
    (r : TopoState) × (topo_all (topo_visit fuel ps) (deps_of n ps) (topo_enter n s) ≡ some r)
    × IsSorted ps r
    × IsStep (topo_enter n s) r
    × ((d : Text)
        → count d (deps_of n ps) ≡ true
        → (count d r.visited ≡ true) ⊎ (count d (topo_enter n s).in_stack ≡ true))

enter-Leads :
    (ps : Productions) (n : Text) (s : TopoState)
    → Leads ps s n
    → (d : Text) → count d (deps_of n ps) ≡ true
    → Leads ps (topo_enter n s) d
enter-Leads ps n s l d c m k = elim (or_cases _ _ (sym (count-insert m n s.in_stack) ∙ k)) [
  | inl e ↦ Reaches-snoc ps m n d (subst (λ a. Reaches ps a n) (sym (text_eq-same m n e)) arrived) c
  | inr i ↦ Reaches-snoc ps m n d (l m i) c
]

enter_none :
    (ps : Productions) (fuel : ℕ) (n : Text) (s : TopoState)
    → IsSorted ps s
    → count n (all_names ps) ≡ false
    → Within ps fuel n s
unfolding topo_all count
enter_none ps fuel n s o h =
    let none_there : deps_of n ps ≡ [] = deps_none n ps h in
    (
      topo_enter n s,
      ap (λ ds. topo_all (topo_visit fuel ps) ds (topo_enter n s)) none_there,
      record { listed = o.listed; once = o.once; ordered = o.ordered },
      IsStep-same (topo_enter n s),
      λ d k. absurd (true-false (sym k ∙ ap (λ ds. count d ds) none_there)),
    )

module _ (ps : Productions) (fuel : ℕ) (n : Text) (s : TopoState) (new : count n s.visited ≡ false)
    (off : count n s.in_stack ≡ false) (l : Leads ps s n) (w : Within ps fuel n s) where
  abbrev inner : TopoState
  inner = w.0

  unlisted : count n inner.visited ≡ false
  unlisted = w.3.held n (count-insert n n s.in_stack ∙ or_left _ _ (text_eq_self n)) new

  leave-IsSorted : IsSorted ps (topo_leave n inner)
  unfolding count
  leave-IsSorted = record {
    listed = λ m.
        count-append m inner.topo_order (n ∷ [])
        ∙ ground (arith, w.2.listed m, count-insert m n inner.visited);
    once = unrepeated-snoc inner.topo_order n w.2.once (w.2.listed n ∙ unlisted);
    ordered = InOrder-snoc ps [] inner.topo_order n w.2.ordered before;
  }
    where
      before :
          (d : Text)
          → count d (deps_of n ps) ≡ true
          → (count d inner.topo_order || count d [] ≡ true) ⊎ Reaches ps d n
      before d c = elim (w.4 d c) [
        | inl i ↦ inl (or_left _ _ (w.2.listed d ∙ i))
        | inr i ↦ elim (or_cases _ _ (sym (count-insert d n s.in_stack) ∙ i)) [
          | inl e ↦ inr (subst (λ a. Reaches ps a n) (sym (text_eq-same d n e)) arrived)
          | inr j ↦ inr (l d j)
        ]
      ]

  leave-IsStep : IsStep s (topo_leave n inner)
  leave-IsStep = record {
    more = λ m k. grown-insert n inner.visited m (w.3.more m k);
    stack = λ m.
        count-erase m n inner.in_stack
        ∙ ap (λ b. not (text_eq m n) && b) (w.3.stack m ∙ count-insert m n s.in_stack)
        ∙ ground (arith, off, count-eq m n s.in_stack);
    held = λ m k j.
        count-insert m n inner.visited
        ∙ ground (arith, apart m k, w.3.held m (count-insert m n s.in_stack ∙ or_right _ _ k) j);
  }
    where
      apart : (m : Text) → count m s.in_stack ≡ true → text_eq m n ≡ false
      apart m k = elim (Bool-cases (text_eq m n)) [
        | inl e ↦ absurd (true-false (sym k ∙ count-eq m n s.in_stack e ∙ off))
        | inr e ↦ e
      ]

topo_lem :
    (ps : Productions) (fuel : ℕ) (n : Text) (s : TopoState)
    → unvisited (all_names ps) s.in_stack < fuel
    → IsSorted ps s
    → Leads ps s n
    → (r : TopoState) × (topo_visit fuel ps n s ≡ some r) × Visited ps s n r
topo_lem ps zero n s h o l = absurd (omega arith)
topo_lem ps (suc fuel) n s h o l = elim (Bool-cases (count n s.visited)) [
  | inl k ↦ (s, visit_done fuel ps n s k, (o, IsStep-same s, inl k))
  | inr new ↦ elim (Bool-cases (count n s.in_stack)) [
    | inl k ↦ (s, visit_circle fuel ps n s new k, (o, IsStep-same s, inr k))
    | inr off ↦
        let w : Within ps fuel n s = elim (Bool-cases (count n (all_names ps))) [
          | inl d ↦
              topo_all_lem ps fuel (topo_visit fuel ps) (topo_lem ps fuel) (deps_of n ps)
                (topo_enter n s) (omega (arith, h, unvisited_lt (all_names ps) n s.in_stack d off))
                (record { listed = o.listed; once = o.once; ordered = o.ordered })
                (enter-Leads ps n s l)
          | inr d ↦ enter_none ps fuel n s o d
        ] in
        (
          topo_leave n w.0,
          visit_enters fuel ps n s w.0 new off w.1,
          (
            leave-IsSorted ps fuel n s new off l w,
            leave-IsStep ps fuel n s new off l w,
            inl (count-insert n n w.0.visited ∙ or_left _ _ (text_eq_self n)),
          ),
        )
  ]
]

-- With depth for each declared name and one more, topological_sort comes to an end. Its order has
-- every production and no name twice, and each name stands behind each of its calls, but for a
-- call from which a chain of calls leads back to the name.
pub topological_sort_lem :
    (ps : Productions) (fuel : ℕ)
    → length (all_names ps) < fuel
    → (order : List Text) × (topological_sort fuel ps ≡ some order)
      × ((n : Text) → count n (all_names ps) ≡ true → count n order ≡ true)
      × (unrepeated order ≡ true)
      × InOrder ps [] order
unfolding count unrepeated topological_sort
topological_sort_lem ps fuel h =
    let s : TopoState = record { visited = []; in_stack = []; topo_order = [] } in
    let r =
      topo_all_lem ps fuel (topo_visit fuel ps) (topo_lem ps fuel) (all_names ps) s
        (omega (arith, h, unvisited_length (all_names ps) []))
        (record { listed = λ m. refl; once = refl; ordered = tt })
        (λ d k m i. absurd (true-false (sym i))) in
    (
      r.0.topo_order,
      rw (topological_sort, r.1) refl,
      λ n k. elim (r.4 n k) [ inl i ↦ r.2.listed n ∙ i | inr i ↦ absurd (true-false (sym i)) ],
      r.2.once,
      r.2.ordered,
    )
