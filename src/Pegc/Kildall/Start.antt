-- ===== src/Pegc/Kildall/Start.antt =====
-- The table with which compute_first_sets of pegc/frontend/PegAnalysis.cpp starts.
use bbq.Base.{
  ℕ, ◌+◌, ◌≤◌, ◌≡◌, refl, sym, ap, ◌∙◌, subst, inl, inr, true, false, some, List, [], ◌∷◌, arith,
  Bool-cases, or_left, or_right, and_both, true-false, some_same, if_true, if_false, length,
}
use bbq.Pegc.Names.{Text, text_eq, count, unrepeated}
use bbq.Pegc.Ast.{FirstElement}
use bbq.Pegc.Sets.{found, first_set_contains_epsilon}
use bbq.Pegc.Sets.Distinct.{distinct}
use bbq.Pegc.First.{ProductionInfo, Productions, find, Terminals, nullable_entry, first_entry}
use bbq.Pegc.First.Universe.{universe, covered_body}
use bbq.Pegc.Worklist.{empty_worklist, push_all, IsTracked, push_all-IsTracked, push_all-count}
use bbq.Pegc.Collect.{collect_calls, is_declared, Callers, callers_of, build_callers_graph}
use bbq.Pegc.Collect.Calls.{calls, collect_calls_lem, has_call, build_callers_graph_lem}
use bbq.Pegc.Kildall.{all_names}
use bbq.Pegc.Kildall.Invariant.{IsWired, IsRising, IsPending}
use bbq.Pegc.Kildall.Fixpoint.{IsShort}

-- A table as collect_productions leaves it, whatever has been marked as left recursive since: no
-- name stands twice, no FIRST set has been computed, and the calls are those of the bodies.
abbrev pub IsFresh : Terminals → Productions → Type 0
IsFresh t [] = Unit
IsFresh t (p ∷ ps) =
    (count p.name (all_names ps) ≡ false)
    × (p.first_set ≡ [])
    × (p.nullable ≡ false)
    × (p.calls ≡ collect_calls t p.body [])
    × IsFresh t ps

fresh_entry :
    (t : Terminals) (ps : Productions)
    → IsFresh t ps
    → (n : Text) → (nullable_entry (find n ps) ≡ false) × (first_entry (find n ps) ≡ [])
unfolding find nullable_entry first_entry
fresh_entry t [] h n = (refl, refl)
fresh_entry t (p ∷ ps) h n = elim (Bool-cases (text_eq n p.name)) [
  | inl k ↦ rw (k) (h.2, h.1)
  | inr k ↦ rw (k) (fresh_entry t ps h.4 n)
]

pub fresh-IsRising :
    (t : Terminals) (ps : Productions) → IsFresh t ps → IsRising t (universe t ps) ps
unfolding distinct first_set_contains_epsilon found first_entry
fresh-IsRising t ps h = record {
  covered = λ n p f x k. or_right _ _ (covered_body t ps n p f x k);
  bounded = λ n x k. absurd (nothing_in n x k);
  unique = λ n. ap (λ s. distinct s) (fresh_entry t ps h n).1;
  consistent = λ n.
      (fresh_entry t ps h n).0
      ∙ sym (ap (λ s. first_set_contains_epsilon s) (fresh_entry t ps h n).1);
  rising = λ n p f x k. absurd (nothing_in n x (ap (λ o. found x (first_entry o)) f ∙ k));
}
  where
    nothing_in : (n : Text) (x : FirstElement) → found x (first_entry (find n ps)) ≡ true → ⊥
    nothing_in n x k = true-false (sym k ∙ ap (λ s. found x s) (fresh_entry t ps h n).1)

pub find-count :
    (n : Text) (ps : Productions) (p : ProductionInfo)
    → find n ps ≡ some p
    → count n (all_names ps) ≡ true
unfolding find count all_names
find-count n [] p h = cc
find-count n (q ∷ ps) p h = ground (arith, h, find-count n ps p)

pub count-is_declared :
    (n : Text) (ps : Productions) → count n (all_names ps) ≡ true → is_declared n ps ≡ true
unfolding find count all_names is_declared
count-is_declared n [] h = cc
count-is_declared n (q ∷ ps) h = ground (arith, h, count-is_declared n ps)

empty-IsTracked : IsTracked empty_worklist
unfolding count unrepeated
empty-IsTracked = record { tracked = λ n. refl; single = refl }

pub start_worklist-IsTracked :
    (ps : Productions) → IsTracked (push_all empty_worklist (all_names ps))
start_worklist-IsTracked ps = push_all-IsTracked empty_worklist (all_names ps) empty-IsTracked

start_count :
    (ps : Productions) (n : Text)
    → count n (push_all empty_worklist (all_names ps)).queue ≡ count n (all_names ps)
unfolding count
start_count ps n = push_all-count empty_worklist (all_names ps) n empty-IsTracked ∙ ground arith

pub start-IsPending :
    (t : Terminals) (ps : Productions)
    → IsPending t ps (push_all empty_worklist (all_names ps)).queue
start-IsPending t ps = record {
  queued = λ n k. count-is_declared n ps (sym (start_count ps n) ∙ k);
  settled =
      λ n p f l k. absurd (true-false (sym (find-count n ps p f) ∙ sym (start_count ps n) ∙ k));
}

has_call-find :
    (t : Terminals) (n m : Text) (ps : Productions) (p : ProductionInfo)
    → IsFresh t ps
    → find m ps ≡ some p
    → calls t n p.body ≡ true
    → has_call ps m n ≡ true
unfolding find has_call
has_call-find t n m [] p h f c = cc
has_call-find t n m (q ∷ ps) p h f c = elim (Bool-cases (text_eq m q.name)) [
  | inl e ↦
      let same : q ≡ p = some_same (sym (if_true _ _ _ e) ∙ f) in
      let held : count n q.calls ≡ true =
        ap (λ l. count n l) h.3
        ∙ collect_calls_lem t n q.body []
        ∙ or_left _ _ (ap (λ (r : ProductionInfo). calls t n r.body) same ∙ c) in
      or_left _ _ (and_both _ _ held e)
  | inr e ↦ or_right _ _ (has_call-find t n m ps p h.4 (sym (if_false _ _ _ e) ∙ f) c)
]

has_call-declared :
    (n m : Text) (ps : Productions) → has_call ps m n ≡ true → is_declared m ps ≡ true
unfolding has_call is_declared find
has_call-declared n m [] h = cc
has_call-declared n m (q ∷ ps) h = ground (arith, h, has_call-declared n m ps)

pub fresh-IsWired :
    (t : Terminals) (ps : Productions) → IsFresh t ps → IsWired t (build_callers_graph ps []) ps
fresh-IsWired t ps h = record {
  wired = λ n m p f c. build_callers_graph_lem ps n m ∙ has_call-find t n m ps p h f c;
  known = λ n m c. has_call-declared n m ps (sym (build_callers_graph_lem ps n m) ∙ c);
}

pub fresh-IsShort : (t : Terminals) (n : ℕ) (ps : Productions) → IsFresh t ps → IsShort n ps
fresh-IsShort t n [] h = h
fresh-IsShort t n (p ∷ ps) h = (
  subst (λ (s : List FirstElement). length s ≤ n) (sym h.1) (omega arith),
  fresh-IsShort t n ps h.4,
)

-- The names in the graph of callers.
unfoldable pub callers_size : List Callers → ℕ
callers_size [] = 0
callers_size (c ∷ cs) = length c.names + callers_size cs

pub callers_of_le : (n : Text) (cs : List Callers) → length (callers_of n cs) ≤ callers_size cs
unfolding callers_of callers_size
callers_of_le n [] = omega arith
callers_of_le n (c ∷ cs) = ground (arith, callers_of_le n cs)
