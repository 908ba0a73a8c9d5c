-- ===== src/Examples/Grammar.antt =====
-- Runs of the analysis of pegc/frontend/PegAnalysis.cpp on a small grammar, where the conditions of
-- the theorems hold.
use bbq.Base.{◌≡◌, refl, ◌↔◌, true, false, not, some, List, [], ◌∷◌, arith}
use bbq.Pegc.Names.{Text, text_eq, text_lt, count, insert, erase}
use bbq.Pegc.Ast.{PegExpr, Production, literal_kind, charset_kind, FirstElement, element, epsilon}
use bbq.Pegc.Sets.{
  kind_eq, first_element_eq, found, all_found, first_set_eq, first_set_union,
  first_set_contains_epsilon, is_none,
}
use bbq.Pegc.Sets.Distinct.{distinct, first_set_eq_lem}
use bbq.Pegc.First.{
  ProductionInfo, Productions, find, nullable_entry, first_entry, nullable_of, with_epsilon,
  first_of,
}
use bbq.Pegc.First.Laws.{IsConsistent, nullable_of_lem}
use bbq.Pegc.First.Bound.{terminals_of}
use bbq.Pegc.First.Universe.{grammar_terminals}
use bbq.Pegc.First.Match.{
  Match, matched_literal, called_charset, called, in_order, repeated, ended, all_done, all_more,
  has_range, any_range,
}
use bbq.Pegc.First.Sound.{HasNoRange, Foreseen}
use bbq.Pegc.Worklist.{empty_worklist, push, pop, push_all}
use bbq.Pegc.Collect.{
  Message, collect_calls, put, is_declared, collect_productions, add_caller, callers_of,
  add_callers, build_callers_graph,
}
use bbq.Pegc.Kildall.{
  FirstState, set_first, first_round, first_loop, set_first_testable, all_names, compute_first_sets,
}
use bbq.Pegc.Kildall.Table.{every, find-every}
use bbq.Pegc.Graph.Reach.{Reaches}
use bbq.Pegc.Follow.Kept.{IsClean}
use bbq.Pegc.Kildall.Start.{IsFresh, callers_size}
use bbq.Pegc.Kildall.Ends.{enough}
use bbq.Pegc.Kildall.Result.{compute_first_sets_fixed}
use bbq.Pegc.Graph.{mark_reachable}
use bbq.Pegc.Graph.Mark.{mark_reachable_lem}
use bbq.Pegc.LeftRec.{
  first_element, rule_name, leftmost_all, leftmost, try_all, has_left_path, mark_left_recursive,
  detect_left_recursion,
}
use bbq.Pegc.Warnings.{suffix_first}
use bbq.Pegc.Follow.{
  set_follow, follow_entry, follow_call, element_tail, repeated_tail, walk_for_follow, end_of_input,
  compute_follow_sets,
}
use bbq.Pegc.Follow.Seed.{compute_follow_sets_lem}
use bbq.Pegc.Analyze.{undeclared, check_declared, analyze_first}
use bbq.Pegc.Analyze.Covers.{analyze_first_ends, analyze_first_covers}
use bbq.Examples.Sample.{d, a, s, x, terminals, s_body, a_body, info, digits}

abbrev grammar : List Production
grammar = record { name = s; body = s_body } ∷ record { name = a; body = a_body } ∷ []

abbrev collected : Productions
collected = (collect_productions terminals grammar [] []).0

-- The table before compute_first_sets, and after it.
abbrev fresh_table : Productions
fresh_table = info a a_body [] false false [] ∷ info s s_body [] false false (a ∷ []) ∷ []

abbrev a_first : List FirstElement
a_first = element charset_kind d ∷ epsilon ∷ []

abbrev s_first : List FirstElement
s_first = element charset_kind d ∷ element literal_kind x ∷ []

abbrev after : Productions
after = info a a_body a_first true true [] ∷ info s s_body s_first false true (a ∷ []) ∷ []

analysis : analyze_first terminals grammar ≡ some (after, [])
unfolding analyze_first collect_productions put is_declared find text_eq text_lt collect_calls
    detect_left_recursion mark_left_recursive has_left_path leftmost leftmost_all rule_name
    first_element try_all count insert check_declared undeclared compute_first_sets first_loop
    first_round pop push push_all erase callers_of build_callers_graph add_callers add_caller
    all_names set_first first_of nullable_of first_set_eq all_found found first_element_eq kind_eq
    first_set_union first_set_contains_epsilon with_epsilon nullable_entry first_entry
    set_first_testable terminals_of grammar_terminals callers_size
analysis = refl

straight : (n : Text) (p : ProductionInfo) → find n after ≡ some p → p.left_recursive ≡ false
unfolding every
straight n p f =
    let e = find-every (λ q. not q.left_recursive) n after p refl f in ground (arith, e)

no_range : HasNoRange after
unfolding every has_range any_range
no_range n p f =
    let e = find-every (λ q. not (has_range q.body)) n after p refl f in ground (arith, e)

digit_x : Text
digit_x = 53 ∷ x

s_matches : Match terminals after digits s_body digit_x []
unfolding count text_eq find digit_x
s_matches = in_order (
    all_more
      (called {p = info a a_body a_first true true []} refl refl refl
        (repeated (called_charset refl refl) ended))
      (all_more (matched_literal refl) all_done))

-- "5x" is matched by S, and begins with a digit.
analyze_first_covers_example : Foreseen digits false (λ y. found y s_first) digit_x []
unfolding find text_eq
analyze_first_covers_example =
    analyze_first_covers terminals grammar after [] digits analysis straight no_range s
      (info s s_body s_first false true (a ∷ [])) refl digit_x [] s_matches

analyze_first_ends_example :
    (r : Productions × List Message) × (analyze_first terminals grammar ≡ some r)
analyze_first_ends_example = analyze_first_ends terminals grammar

fresh_table-IsFresh : IsFresh terminals fresh_table
unfolding analyze_first collect_productions put is_declared find text_eq text_lt collect_calls
    detect_left_recursion mark_left_recursive has_left_path leftmost leftmost_all rule_name
    first_element try_all count insert check_declared undeclared compute_first_sets first_loop
    first_round pop push push_all erase callers_of build_callers_graph add_callers add_caller
    all_names set_first first_of nullable_of first_set_eq all_found found first_element_eq kind_eq
    first_set_union first_set_contains_epsilon with_epsilon nullable_entry first_entry
    set_first_testable terminals_of grammar_terminals callers_size
fresh_table-IsFresh = (refl, refl, refl, refl, (refl, refl, refl, refl, tt))

computed :
    compute_first_sets
      (enough terminals fresh_table)
      terminals
      (build_callers_graph fresh_table [])
      fresh_table
    ≡ some after
unfolding analyze_first collect_productions put is_declared find text_eq text_lt collect_calls
    detect_left_recursion mark_left_recursive has_left_path leftmost leftmost_all rule_name
    first_element try_all count insert check_declared undeclared compute_first_sets first_loop
    first_round pop push push_all erase callers_of build_callers_graph add_callers add_caller
    all_names set_first first_of nullable_of first_set_eq all_found found first_element_eq kind_eq
    first_set_union first_set_contains_epsilon with_epsilon nullable_entry first_entry
    set_first_testable terminals_of grammar_terminals callers_size
computed = refl

compute_first_sets_fixed_example :
    (first_set_eq (first_of terminals after s_body) s_first ≡ true)
    × (nullable_of terminals after s_body ≡ false)
unfolding find text_eq
compute_first_sets_fixed_example =
    compute_first_sets_fixed terminals fresh_table (enough terminals fresh_table)
      fresh_table-IsFresh (omega arith) after computed s (info s s_body s_first false true (a ∷ []))
      refl refl

mark_reachable_lem_example :
    (w : List Text) × (mark_reachable 3 fresh_table s [] ≡ some w)
    × ((m : Text) → (count m w ≡ true) ↔ Reaches fresh_table s m)
unfolding all_names
mark_reachable_lem_example = mark_reachable_lem fresh_table 3 s (omega arith)

table-IsConsistent : IsConsistent after
unfolding find nullable_entry first_entry first_set_contains_epsilon kind_eq
table-IsConsistent n = ground arith

nullable_of_lem_example :
    nullable_of terminals after a_body
    ≡ first_set_contains_epsilon (first_of terminals after a_body)
nullable_of_lem_example = nullable_of_lem terminals after table-IsConsistent a_body

first_set_eq_lem_example :
    (first_set_eq a_first (epsilon ∷ element charset_kind d ∷ []) ≡ true)
    ↔ ((y : FirstElement) → found y a_first ≡ found y (epsilon ∷ element charset_kind d ∷ []))
unfolding distinct found first_element_eq kind_eq text_eq
first_set_eq_lem_example =
    first_set_eq_lem a_first (epsilon ∷ element charset_kind d ∷ []) refl refl

abbrev start : FirstState
start = record { productions = after; worklist = empty_worklist }

-- The elements of the grammar.
abbrev elements : List FirstElement
elements = epsilon ∷ end_of_input ∷ element charset_kind d ∷ element literal_kind x ∷ []

compute_follow_sets_lem_example :
    (done : Productions) × (compute_follow_sets 19 terminals grammar after ≡ some done)
    × IsClean done
    × (found end_of_input (follow_entry (find s done)) ≡ true)
    × ((e : PegExpr) → first_of terminals after e ≡ first_of terminals done e)
unfolding every is_none all_found found first_element_eq kind_eq text_eq is_declared find
    terminals_of count
compute_follow_sets_lem_example =
    compute_follow_sets_lem terminals elements (record { name = s; body = s_body })
      (record { name = a; body = a_body } ∷ []) after 19 refl refl refl refl (omega arith)

-- The walk puts "x" into FOLLOW(A).
walk_runs :
    follow_entry (find a (walk_for_follow terminals s s_body [] start).productions)
    ≡ element literal_kind x ∷ []
unfolding walk_for_follow follow_call element_tail repeated_tail suffix_first set_follow
    follow_entry analyze_first collect_productions put is_declared find text_eq text_lt
    collect_calls detect_left_recursion mark_left_recursive has_left_path leftmost leftmost_all
    rule_name first_element try_all count insert check_declared undeclared compute_first_sets
    first_loop first_round pop push push_all erase callers_of build_callers_graph add_callers
    add_caller all_names set_first first_of nullable_of first_set_eq all_found found
    first_element_eq kind_eq first_set_union first_set_contains_epsilon with_epsilon nullable_entry
    first_entry set_first_testable terminals_of grammar_terminals callers_size
walk_runs = refl
