-- ===== src/Pegc/Kildall/Result.antt =====
-- The whole of compute_first_sets of pegc/frontend/PegAnalysis.cpp.
use bbq.Base.{ℕ, ◌≤◌, ◌≡◌, sym, ap, ◌∙◌, subst, true, false, some, [], some_same}
use bbq.Pegc.Names.{Text}
use bbq.Pegc.Sets.{found, first_set_eq}
use bbq.Pegc.First.{ProductionInfo, Productions, find, Terminals, nullable_of, first_of}
use bbq.Pegc.First.Match.{Lexicon, Match}
use bbq.Pegc.First.Sound.{IsClosed, HasNoRange, Foreseen, nothing, begun, entry_of, Match-Sound}
use bbq.Pegc.Collect.{build_callers_graph}
use bbq.Pegc.Kildall.{set_first_testable, compute_first_sets}
use bbq.Pegc.Kildall.Fixpoint.{skeleton}
use bbq.Pegc.Kildall.Start.{IsFresh}
use bbq.Pegc.Kildall.Ends.{
  enough, skeleton-set_first_testable, loop-IsDone, before, compute_some, after_settled,
  after_nullable,
}

module _ (t : Terminals) (ps : Productions) (fuel : ℕ) (fresh : IsFresh t ps)
    (h : enough t ps ≤ fuel) where
  -- For every table as collect_productions leaves it, whatever is marked as left recursive: the
  -- worklist runs empty, within one round for each name and one for each element that a set can
  -- take on and each caller that it makes pending; no name on it lacks a node; and every
  -- production keeps its name, its body and its mark.
  pub compute_first_sets_ends :
      (done : Productions) × (compute_first_sets fuel t (build_callers_graph ps []) ps ≡ some done)
      × (skeleton done ≡ skeleton ps)
  compute_first_sets_ends = (
    set_first_testable (before t ps fuel fresh h),
    compute_some t ps fuel fresh h,
    skeleton-set_first_testable (before t ps fuel fresh h) ∙ (loop-IsDone t ps fuel fresh h).4,
  )

  module _ (done : Productions)
      (run : compute_first_sets fuel t (build_callers_graph ps []) ps ≡ some done) where
    result_same : set_first_testable (before t ps fuel fresh h) ≡ done
    result_same = some_same (sym (compute_some t ps fuel fresh h) ∙ run)

    -- In the table that compute_first_sets leaves, for each production that is not left recursive:
    -- its FIRST set is, by the code's own comparison, the set that first_of computes for its body
    -- from that very table, and it is marked as nullable as nullable_of answers of its body.
    pub compute_first_sets_fixed :
        (n : Text) (p : ProductionInfo)
        → find n done ≡ some p
        → p.left_recursive ≡ false
        → (first_set_eq (first_of t done p.body) p.first_set ≡ true)
          × (nullable_of t done p.body ≡ p.nullable)
    compute_first_sets_fixed n p f l =
        let f' : find n (set_first_testable (before t ps fuel fresh h)) ≡ some p =
          ap (λ d. find n d) result_same ∙ f in
        subst
          (λ (d : Productions).
            (first_set_eq (first_of t d p.body) p.first_set ≡ true)
            × (nullable_of t d p.body ≡ p.nullable))
          result_same
          (after_settled t ps fuel fresh h n p f' l, after_nullable t ps fuel fresh h n p f' l)

    -- After compute_first_sets on a grammar in which no production is left recursive and no body
    -- has a range of characters: whatever a production matches, under every reading of the sets
    -- and tokens, either it takes nothing, and the production is marked as nullable, or its text
    -- begins with a terminal of the production's FIRST set.
    pub first_sets_cover :
        (lex : Lexicon)
        → ((n : Text) (p : ProductionInfo) → find n done ≡ some p → p.left_recursive ≡ false)
        → HasNoRange done
        → (n : Text) (p : ProductionInfo) → find n done ≡ some p
        → (s r : Text) → Match t done lex p.body s r
        → Foreseen lex p.nullable (λ x. found x p.first_set) s r
    first_sets_cover lex straight no_range n p f s r m =
        let closed : IsClosed t done = λ k q g. compute_first_sets_fixed k q g (straight k q g) in
        elim (Match-Sound t done lex closed no_range (no_range n p f) m) [
          | nothing e k ↦ nothing e (sym (closed n p f).1 ∙ k)
          | begun x k l i ↦ begun x (entry_of t done lex p (closed n p f) x l k) l i
        ]
