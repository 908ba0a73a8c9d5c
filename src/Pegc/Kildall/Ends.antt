-- ===== src/Pegc/Kildall/Ends.antt =====
-- The number of rounds of compute_first_sets of pegc/frontend/PegAnalysis.cpp.
use native.Mathlib.Nat.{mul-le-mul_right}
use bbq.Base.{
  ℕ, suc, ◌+◌, ◌-◌, ◌*◌, ◌≤◌, ◌≡◌, refl, sym, ap, ◌∙◌, subst, inl, inr, true, false, some, List, [],
  ◌∷◌, arith, Bool-cases, none-some, Bool_same, some_same, if_true, if_false, length,
}
use bbq.Pegc.Names.{Text, text_eq, count}
use bbq.Pegc.Ast.{FirstElement}
use bbq.Pegc.Sets.{first_set_eq, first_set_contains_epsilon}
use bbq.Pegc.Sets.Distinct.{distinct, first_set_eq_lem}
use bbq.Pegc.First.{
  ProductionInfo, Productions, find, Terminals, nullable_entry, first_entry, nullable_of, first_of,
}
use bbq.Pegc.First.Laws.{IsConsistent, nullable_of_lem}
use bbq.Pegc.First.Local.{Agree, first_of_local}
use bbq.Pegc.First.Universe.{universe, universe-IsPlain, epsilon-universe}
use bbq.Pegc.First.Unique.{distinct-first_of}
use bbq.Pegc.Worklist.{empty_worklist, push_all, length-push_all}
use bbq.Pegc.Collect.{build_callers_graph}
use bbq.Pegc.Kildall.{first_loop, set_first_testable, all_names, compute_first_sets}
use bbq.Pegc.Kildall.Table.{total}
use bbq.Pegc.Kildall.Invariant.{contains_epsilon_grow}
use bbq.Pegc.Kildall.Fixpoint.{skeleton, IsDone, first_loop_lem}
use bbq.Pegc.Kildall.Start.{
  IsFresh, fresh-IsRising, start_worklist-IsTracked, start-IsPending, fresh-IsWired, fresh-IsShort,
  callers_size, callers_of_le,
}

-- Rounds that are enough: one for each name, and one for each caller that an element added to a
-- FIRST set makes pending, with the round that adds it.
abbrev pub enough : Terminals → Productions → ℕ
enough t ps =
    length ps * length (universe t ps) * suc (callers_size (build_callers_graph ps []))
    + length ps
    + 1

find-set_first_testable : (n : Text) (ps : Productions) → Agree ps (set_first_testable ps) n
unfolding set_first_testable find nullable_entry first_entry
find-set_first_testable n [] = (refl, refl)
find-set_first_testable n (p ∷ ps) = elim (Bool-cases (text_eq n p.name)) [
  | inl k ↦ rw (k) (refl, refl)
  | inr k ↦ rw (k) (find-set_first_testable n ps)
]

-- The production that stood at a name before the tests were set.
find_back :
    (n : Text) (ps : Productions) (p : ProductionInfo)
    → find n (set_first_testable ps) ≡ some p
    → (q : ProductionInfo) × (find n ps ≡ some q)
      × (p.body ≡ q.body)
      × (p.first_set ≡ q.first_set)
      × (p.nullable ≡ q.nullable)
      × (p.left_recursive ≡ q.left_recursive)
unfolding set_first_testable find
find_back n [] p h = absurd (none-some h)
find_back n (q ∷ ps) p h = elim (Bool-cases (text_eq n q.name)) [
  | inl k ↦
      let same = sym (some_same (sym (if_true _ _ _ k) ∙ h)) in
      (
        q,
        if_true _ _ _ k,
        ap (λ (r : ProductionInfo). r.body) same,
        ap (λ (r : ProductionInfo). r.first_set) same,
        ap (λ (r : ProductionInfo). r.nullable) same,
        ap (λ (r : ProductionInfo). r.left_recursive) same,
      )
  | inr k ↦
      let rest = find_back n ps p (sym (if_false _ _ _ k) ∙ h) in
      (rest.0, if_false _ _ _ k ∙ rest.1, rest.2, rest.3, rest.4, rest.5)
]

pub skeleton-set_first_testable :
    (ps : Productions) → skeleton (set_first_testable ps) ≡ skeleton ps
unfolding set_first_testable skeleton
skeleton-set_first_testable [] = refl
skeleton-set_first_testable (p ∷ ps) =
    ap (λ l. (p.name, (p.body, p.left_recursive)) ∷ l) (skeleton-set_first_testable ps)

pub length-start :
    (ps : Productions) → length (push_all empty_worklist (all_names ps)).queue ≤ length ps
unfolding all_names
length-start ps = omega (arith, length-push_all empty_worklist (all_names ps), length-names ps)
  where
    length-names : (ps : Productions) → length (all_names ps) ≡ length ps
    length-names [] = refl
    length-names (p ∷ ps) = ap suc (length-names ps)

module _ (t : Terminals) (ps : Productions) (fuel : ℕ) (fresh : IsFresh t ps)
    (h : enough t ps ≤ fuel) where
  pub loop-IsDone :
      IsDone t
        (universe t ps)
        ps
        (first_loop fuel t (build_callers_graph ps []) ps (push_all empty_worklist (all_names ps)))
  loop-IsDone =
      first_loop_lem t (build_callers_graph ps []) (universe t ps) (universe-IsPlain t ps)
        (epsilon-universe t ps) (callers_size (build_callers_graph ps []))
        (λ n. callers_of_le n (build_callers_graph ps [])) fuel ps
        (push_all empty_worklist (all_names ps))
        (record {
          tracked = start_worklist-IsTracked ps;
          wiring = fresh-IsWired t ps fresh;
          ascent = fresh-IsRising t ps fresh;
          pending = start-IsPending t ps;
        })
        (fresh-IsShort t (length (universe t ps)) ps fresh)
        (omega (arith, h, length-start ps, mul-le-mul_right (suc k) fewer_missing))
    where
      k : ℕ
      k = callers_size (build_callers_graph ps [])

      fewer_missing :
          length ps * length (universe t ps) - total ps ≤ length ps * length (universe t ps)
      fewer_missing = omega arith

  abbrev pub before : Productions
  before = loop-IsDone.0

  pub compute_some :
      compute_first_sets fuel t (build_callers_graph ps []) ps ≡ some (set_first_testable before)
  unfolding compute_first_sets
  compute_some = rw (compute_first_sets, loop-IsDone.1) refl

  pub after-IsConsistent : IsConsistent (set_first_testable before)
  after-IsConsistent n =
      sym (find-set_first_testable n before).0
      ∙ loop-IsDone.2.consistent n
      ∙ ap (λ s. first_set_contains_epsilon s) (find-set_first_testable n before).1

  after_unique : (n : Text) → distinct (first_entry (find n (set_first_testable before))) ≡ true
  after_unique n =
      sym (ap (λ s. distinct s) (find-set_first_testable n before).1) ∙ loop-IsDone.2.unique n

  pub after_settled :
      (n : Text) (p : ProductionInfo)
      → find n (set_first_testable before) ≡ some p
      → p.left_recursive ≡ false
      → first_set_eq (first_of t (set_first_testable before) p.body) p.first_set ≡ true
  unfolding count
  after_settled n p f l =
      let q = find_back n before p f in
      let there : first_set_eq (first_of t before q.0.body) q.0.first_set ≡ true =
        loop-IsDone.3.settled n q.0 q.1 (sym q.5 ∙ l) refl in
      let same : first_of t before p.body ≡ first_of t (set_first_testable before) p.body =
        (first_of_local t before (set_first_testable before) p.body
          (λ m c. find-set_first_testable m before)).0 in
      ap (λ s. first_set_eq s p.first_set) (sym same)
      ∙ ap (λ e. first_set_eq (first_of t before e) p.first_set) q.2
      ∙ ap (λ s. first_set_eq (first_of t before q.0.body) s) q.3
      ∙ there

  pub after_nullable :
      (n : Text) (p : ProductionInfo)
      → find n (set_first_testable before) ≡ some p
      → p.left_recursive ≡ false
      → nullable_of t (set_first_testable before) p.body ≡ p.nullable
  unfolding nullable_entry first_entry
  after_nullable n p f l =
      let s : List FirstElement = first_of t (set_first_testable before) p.body in
      let once : distinct p.first_set ≡ true =
        subst (λ o. distinct (first_entry o) ≡ true) f (after_unique n) in
      let same =
        (first_set_eq_lem s p.first_set
            (distinct-first_of t (set_first_testable before) after_unique p.body) once).0
          (after_settled n p f l) in
      let marked : p.nullable ≡ first_set_contains_epsilon p.first_set =
        subst (λ o. nullable_entry o ≡ first_set_contains_epsilon (first_entry o)) f
          (after-IsConsistent n) in
      nullable_of_lem t (set_first_testable before) after-IsConsistent p.body
      ∙ Bool_same (first_set_contains_epsilon s) (first_set_contains_epsilon p.first_set)
          (contains_epsilon_grow s p.first_set (λ x k. sym (same x) ∙ k))
          (contains_epsilon_grow p.first_set s (λ x k. same x ∙ k))
      ∙ sym marked
