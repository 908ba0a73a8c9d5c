-- ===== src/Examples/Faults.antt =====
-- Runs of the analysis of pegc/frontend/PegAnalysis.cpp on grammars with faults, and where it answers
-- what a reader would not expect.
use bbq.Base.{◌≡◌, refl, ◌↔◌, true, false, not, some, List, [], ◌∷◌, arith}
use bbq.Pegc.Names.{Text, text_eq, text_lt, count, insert, erase, unrepeated}
use bbq.Pegc.Ast.{
  literal, char_range, rule_call, sequence, and_expr, not_expr, no_exprs, exprs, epsilon,
}
use bbq.Pegc.Sets.{
  kind_eq, first_element_eq, found, all_found, first_set_eq, first_set_union,
  first_set_contains_epsilon, first_set_without_epsilon, is_none,
}
use bbq.Pegc.First.{
  ProductionInfo, Productions, find, nullable_entry, first_entry, nullable_of, with_epsilon,
  first_of,
}
use bbq.Pegc.First.Bound.{terminals_of}
use bbq.Pegc.First.Universe.{grammar_terminals}
use bbq.Pegc.First.Match.{Match, has_range, any_range}
use bbq.Pegc.First.Sound.{HasNoRange}
use bbq.Pegc.Worklist.{push, pop, push_all}
use bbq.Pegc.Collect.{
  left_recursion, and_always_succeeds, collect_calls, put, is_declared, collect_productions,
  add_caller, callers_of, add_callers, build_callers_graph,
}
use bbq.Pegc.Kildall.{
  set_first, first_round, first_loop, set_first_testable, all_names, compute_first_sets,
}
use bbq.Pegc.Kildall.Table.{every, find-every}
use bbq.Pegc.LeftRec.Chain.{LeftChain}
use bbq.Pegc.Kildall.Start.{IsFresh, callers_size}
use bbq.Pegc.Kildall.Ends.{enough}
use bbq.Pegc.LeftRec.{
  first_element, rule_name, leftmost_all, leftmost, try_all, has_left_path, mark_left_recursive,
  detect_left_recursion,
}
use bbq.Pegc.LeftRec.Detect.{detect_left_recursion_lem}
use bbq.Pegc.Warnings.{detect_always_failing, useless_predicates}
use bbq.Pegc.Warnings.Failing.{warns_failing, detect_always_failing_lem}
use bbq.Pegc.Analyze.{undeclared, check_declared, analyze_first}
use bbq.Pegc.Graph.{deps_of, topo_all, topo_visit, topological_sort}
use bbq.Pegc.Graph.Topo.{InOrder}
use bbq.Pegc.Graph.Sort.{topological_sort_lem}
use bbq.Pegc.Kildall.{
  set_first, first_round, first_loop, set_first_testable, all_names, compute_first_sets,
}
use bbq.Examples.Sample.{s, x, terminals, a_body, info, digits}

-- L = L "x", which calls itself at the left.
abbrev l : Text
l = 76 ∷ []

abbrev l_info : ProductionInfo
l_info =
    info l (sequence (exprs (rule_call l []) (exprs (literal x) no_exprs))) [] false false (l ∷ [])

abbrev l_marked : ProductionInfo
l_marked = record l_info { left_recursive = true }

marks_l : detect_left_recursion 2 (l_info ∷ []) [] ≡ some (l_marked ∷ [], left_recursion l ∷ [])
unfolding analyze_first collect_productions put is_declared find text_eq text_lt collect_calls
    detect_left_recursion mark_left_recursive has_left_path leftmost leftmost_all rule_name
    first_element try_all count insert check_declared undeclared compute_first_sets first_loop
    first_round pop push push_all erase callers_of build_callers_graph add_callers add_caller
    all_names set_first first_of nullable_of first_set_eq all_found found first_element_eq kind_eq
    first_set_union first_set_contains_epsilon with_epsilon nullable_entry first_entry
    set_first_testable terminals_of grammar_terminals callers_size
marks_l = refl

detect_left_recursion_lem_example : (true ≡ true) ↔ LeftChain (l_info ∷ []) l l
unfolding find text_eq all_names
detect_left_recursion_lem_example =
    detect_left_recursion_lem 2 (l_info ∷ []) (l_marked ∷ []) [] (left_recursion l ∷ [])
      (omega arith) marks_l l l_info l_marked refl refl refl

-- F calls a production that is not there.
abbrev f : Text
f = 70 ∷ []

abbrev f_info : ProductionInfo
f_info = info f (rule_call x []) [] false false (x ∷ [])

f-IsFresh : IsFresh terminals (f_info ∷ [])
unfolding analyze_first collect_productions put is_declared find text_eq text_lt collect_calls
    detect_left_recursion mark_left_recursive has_left_path leftmost leftmost_all rule_name
    first_element try_all count insert check_declared undeclared compute_first_sets first_loop
    first_round pop push push_all erase callers_of build_callers_graph add_callers add_caller
    all_names set_first first_of nullable_of first_set_eq all_found found first_element_eq kind_eq
    first_set_union first_set_contains_epsilon with_epsilon nullable_entry first_entry
    set_first_testable terminals_of grammar_terminals callers_size
f-IsFresh = (refl, refl, refl, refl, tt)

f_computed :
    compute_first_sets
      (enough terminals (f_info ∷ []))
      terminals
      (build_callers_graph (f_info ∷ []) [])
      (f_info ∷ [])
    ≡ some (f_info ∷ [])
unfolding analyze_first collect_productions put is_declared find text_eq text_lt collect_calls
    detect_left_recursion mark_left_recursive has_left_path leftmost leftmost_all rule_name
    first_element try_all count insert check_declared undeclared compute_first_sets first_loop
    first_round pop push push_all erase callers_of build_callers_graph add_callers add_caller
    all_names set_first first_of nullable_of first_set_eq all_found found first_element_eq kind_eq
    first_set_union first_set_contains_epsilon with_epsilon nullable_entry first_entry
    set_first_testable terminals_of grammar_terminals callers_size
f_computed = refl

f_straight :
    (n : Text) (p : ProductionInfo) → find n (f_info ∷ []) ≡ some p → p.left_recursive ≡ false
unfolding every
f_straight n p e =
    let t = find-every (λ q. not q.left_recursive) n (f_info ∷ []) p refl e in ground (arith, t)

f_no_range : HasNoRange (f_info ∷ [])
unfolding every has_range any_range
f_no_range n p e =
    let t = find-every (λ q. not (has_range q.body)) n (f_info ∷ []) p refl e in ground (arith, t)

detect_always_failing_lem_example : ¬ Match terminals (f_info ∷ []) digits (rule_call x []) x []
unfolding find text_eq warns_failing detect_always_failing is_none
detect_always_failing_lem_example =
    detect_always_failing_lem terminals (f_info ∷ []) (enough terminals (f_info ∷ [])) f-IsFresh
      (omega arith) (f_info ∷ []) f_computed f_straight f_no_range f refl digits f_info refl x []

-- H = d* H "x" calls itself without having consumed anything, and is not reported.
abbrev h_info : ProductionInfo
h_info =
    info s (sequence (exprs a_body (exprs (rule_call s []) (exprs (literal x) no_exprs)))) [] false
      false (s ∷ [])

hidden_left_recursion : detect_left_recursion 2 (h_info ∷ []) [] ≡ some (h_info ∷ [], [])
unfolding analyze_first collect_productions put is_declared find text_eq text_lt collect_calls
    detect_left_recursion mark_left_recursive has_left_path leftmost leftmost_all rule_name
    first_element try_all count insert check_declared undeclared compute_first_sets first_loop
    first_round pop push push_all erase callers_of build_callers_graph add_callers add_caller
    all_names set_first first_of nullable_of first_set_eq all_found found first_element_eq kind_eq
    first_set_union first_set_contains_epsilon with_epsilon nullable_entry first_entry
    set_first_testable terminals_of grammar_terminals callers_size
hidden_left_recursion = refl

-- A range of characters, which matches one, is taken to match nothing.
range_is_nullable :
    (nullable_of terminals [] (char_range 97 122) ≡ true)
    × (first_of terminals [] (char_range 97 122) ≡ epsilon ∷ [])
unfolding nullable_of first_of
range_is_nullable = (refl, refl)

-- &(!x) is reported as a predicate that always succeeds.
nested_predicate :
    useless_predicates terminals [] s (and_expr (not_expr (literal x))) []
    ≡ and_always_succeeds s ∷ []
unfolding useless_predicates nullable_of first_of first_set_without_epsilon kind_eq is_none
nested_predicate = refl

-- F calls itself and S, which is behind it in the order of the names.
abbrev circle : Productions
circle =
    info f (sequence (exprs (rule_call f []) (exprs (rule_call s []) no_exprs))) [] false false
      (f ∷ s ∷ [])
    ∷ info s (literal x) [] false false []
    ∷ []

topological_sort_lem_example :
    (order : List Text) × (topological_sort 3 circle ≡ some order)
    × ((n : Text) → count n (all_names circle) ≡ true → count n order ≡ true)
    × (unrepeated order ≡ true)
    × InOrder circle [] order
unfolding all_names
topological_sort_lem_example = topological_sort_lem circle 3 (omega arith)

circle_order : topological_sort 3 circle ≡ some (s ∷ f ∷ [])
unfolding topological_sort topo_all topo_visit deps_of count text_eq find insert text_lt erase
    all_names
circle_order = refl
