-- ===== src/Pegc/Analyze/Covers.antt =====
-- What the phases of PegAnalysis::analyze of pegc/frontend/PegAnalysis.cpp come to together.
use bbq.Base.{suc, ◌≡◌, refl, sym, ap, ◌∙◌, false, some, List, [], arith, some_same, length}
use bbq.Pegc.Names.{Text}
use bbq.Pegc.Ast.{Production}
use bbq.Pegc.Sets.{found}
use bbq.Pegc.First.{ProductionInfo, Productions, find, Terminals}
use bbq.Pegc.First.Match.{Lexicon, Match}
use bbq.Pegc.First.Sound.{HasNoRange, Foreseen}
use bbq.Pegc.Collect.{Message, collect_productions, build_callers_graph}
use bbq.Pegc.Collect.Fresh.{collect_productions-IsFresh}
use bbq.Pegc.Kildall.{all_names, compute_first_sets}
use bbq.Pegc.Kildall.Start.{IsFresh}
use bbq.Pegc.Kildall.Ends.{enough}
use bbq.Pegc.Kildall.Result.{compute_first_sets_ends, first_sets_cover}
use bbq.Pegc.LeftRec.{detect_left_recursion}
use bbq.Pegc.LeftRec.Detect.{detect_left_recursion_ends, detect_left_recursion-IsFresh}
use bbq.Pegc.Analyze.{check_declared, analyze_first}

module _ (t : Terminals) (grammar : List Production) where
  abbrev collected : Productions
  collected = (collect_productions t grammar [] []).0

  abbrev errors : List Message
  errors = check_declared t collected collected (collect_productions t grammar [] []).1

  -- What detect_left_recursion leaves.
  marks :
      (r : Productions × List Message) × (detect_left_recursion
          (suc (length (all_names collected)))
          collected
          errors
        ≡ some r)
  marks =
      detect_left_recursion_ends (suc (length (all_names collected))) collected errors (omega arith)

  marks_table-IsFresh : IsFresh t marks.0.0
  marks_table-IsFresh =
      detect_left_recursion-IsFresh (suc (length (all_names collected))) collected marks.0.0 errors
        marks.0.1 (omega arith) marks.1 t (collect_productions-IsFresh t grammar [] [] tt)

  sets :
      (done : Productions) × (compute_first_sets
          (enough t marks.0.0)
          t
          (build_callers_graph marks.0.0 [])
          marks.0.0
        ≡ some done)
  sets =
      let e =
        compute_first_sets_ends t marks.0.0 (enough t marks.0.0) marks_table-IsFresh
          (omega arith) in
      (e.0, e.1)

  run_all : analyze_first t grammar ≡ some (sets.0, marks.0.1)
  unfolding analyze_first
  run_all = rw (analyze_first, marks.1, sets.1) refl

  -- Every grammar is analyzed to its FIRST sets, whatever it repeats, leaves undeclared or calls in
  -- a circle: neither the search for left recursion nor the worklist runs without end.
  pub analyze_first_ends : (r : Productions × List Message) × (analyze_first t grammar ≡ some r)
  analyze_first_ends = ((sets.0, marks.0.1), run_all)

  -- After the analysis of a grammar in which it marks no production as left recursive, and without
  -- ranges of characters: whatever a production matches, under every reading of the sets and
  -- tokens, either it takes nothing, and the production is marked as nullable, or its text begins
  -- with a terminal of the production's FIRST set.
  pub analyze_first_covers :
      (done : Productions) (es : List Message) (lex : Lexicon)
      → analyze_first t grammar ≡ some (done, es)
      → ((n : Text) (p : ProductionInfo) → find n done ≡ some p → p.left_recursive ≡ false)
      → HasNoRange done
      → (n : Text) (p : ProductionInfo) → find n done ≡ some p
      → (s r : Text) → Match t done lex p.body s r
      → Foreseen lex p.nullable (λ x. found x p.first_set) s r
  analyze_first_covers done es lex run straight no_range n p f s r m =
      let same : sets.0 ≡ done =
        ap (λ (q : Productions × List Message). q.0) (some_same (sym run_all ∙ run)) in
      first_sets_cover t marks.0.0 (enough t marks.0.0) marks_table-IsFresh (omega arith) done
        (sets.1 ∙ ap (λ d. some d) same) lex straight no_range n p f s r m
