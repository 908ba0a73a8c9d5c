-- ===== src/Pegc/Analyze.antt =====
-- The analysis up to the FIRST sets: PegAnalysis::analyze of pegc/frontend/PegAnalysis.cpp.
use bbq.Base.{
  ℕ, zero, suc, ◌+◌, ◌-◌, ◌*◌, ◌≤◌, ◌<◌, ◌≡◌, refl, sym, ap, ◌∙◌, subst, ◌≢◌, ◌↔◌, ◌⊎◌, inl, inr,
  Bool, true, false, not, ◌&&◌, ◌||◌, Option, none, some, List, [], ◌∷◌, ◌++◌, arith, ltb, leb,
  ◌==◌, if◌then◌else◌, ltb→lt, lt→ltb, leb→le, ==_iff, tests, Bool-cases, Answered, by_answer,
  or_left, or_right, and_both, or_parts, and_parts, or_cases, or_swap, when_true, when_false,
  true-false, none-some, Bool_same, some_same, Option-cases, if_true, if_false, length,
  length-append,
}
use bbq.Pegc.Names.{
  Text, text_eq, text_lt, count, insert, erase, unrepeated, text_eq_self, text_eq-same, text_eq_iff,
  text_eq_comm, count-insert, count-append, count-erase, count-eq, unrepeated-snoc,
}
use bbq.Pegc.Ast.{
  PegExpr, literal, char_range, charset_ref, token_ref, rule_call, sequence, choice, star, plus,
  optional, and_expr, not_expr, group, action, resolver, any_expr, PegExprs, no_exprs, exprs,
  Production, Kind, literal_kind, charset_kind, token_kind, any_kind, epsilon_kind, FirstElement,
  element, epsilon,
}
use bbq.Pegc.Sets.{
  kind_eq, first_element_eq, is_epsilon, found, all_found, first_set_eq, first_set_union,
  first_set_contains_epsilon, first_set_without_epsilon, first_set_subsumes, is_none,
}
use bbq.Pegc.First.{
  ProductionInfo, Productions, find, Terminals, nullable_entry, first_entry, nullable_of,
  nullable_all, nullable_some, with_epsilon, first_of, first_sequence, first_choice,
}
use bbq.Pegc.Collect.{
  Message, duplicate_production, undeclared_identifier, left_recursion, masked_alternative,
  star_suffix_conflict, plus_suffix_conflict, star_follow_conflict, plus_follow_conflict,
  always_failing, and_always_succeeds, not_always_fails, not_always_succeeds,
  unreachable_production, collect_calls, collect_all_calls, put, is_declared, new_info,
  collect_productions, Callers, add_caller, callers_of, add_callers, build_callers_graph,
}
use bbq.Pegc.Kildall.{
  FirstState, with_first, set_first, first_round, first_loop, set_first_testable, all_names,
  compute_first_sets,
}
use bbq.Pegc.Kildall.Ends.{
  enough, skeleton-set_first_testable, loop-IsDone, before, compute_some, after-IsConsistent,
  after_settled, after_nullable,
}
use bbq.Pegc.LeftRec.{
  first_element, rule_name, leftmost_all, leftmost, try_all, has_left_path, mark_left_recursive,
  detect_left_recursion,
}
pub mod Covers

-- The names that an expression calls and that nothing declares, as errors in their order.
unfoldable mutual
  pub undeclared : Terminals → Productions → Text → PegExpr → List Message → List Message
  undeclared t ps owner (rule_call n args) errors =
      if not (count n t.charset_names) && not (count n t.token_names) && not (is_declared n ps)
      then errors ++ (undeclared_identifier n owner ∷ [])
      else errors
  undeclared t ps owner (sequence es) errors = undeclared_all t ps owner es errors
  undeclared t ps owner (choice es) errors = undeclared_all t ps owner es errors
  undeclared t ps owner (star e) errors = undeclared t ps owner e errors
  undeclared t ps owner (plus e) errors = undeclared t ps owner e errors
  undeclared t ps owner (optional e) errors = undeclared t ps owner e errors
  undeclared t ps owner (and_expr e) errors = undeclared t ps owner e errors
  undeclared t ps owner (not_expr e) errors = undeclared t ps owner e errors
  undeclared t ps owner (group e) errors = undeclared t ps owner e errors
  undeclared t ps owner (resolver c e) errors = undeclared t ps owner e errors
  undeclared t ps owner _ errors = errors

  pub undeclared_all : Terminals → Productions → Text → PegExprs → List Message → List Message
  undeclared_all t ps owner no_exprs errors = errors
  undeclared_all t ps owner (exprs e es) errors =
      undeclared_all t ps owner es (undeclared t ps owner e errors)

unfoldable pub check_declared : Terminals → Productions → Productions → List Message → List Message
check_declared t table [] errors = errors
check_declared t table (p ∷ ps) errors =
    check_declared t table ps (undeclared t table p.name p.body errors)

-- The phases up to compute_first_sets, each on fuel that is enough for it.
unfoldable pub analyze_first : Terminals → List Production → Option (Productions × List Message)
analyze_first t grammar =
    let collected = collect_productions t grammar [] [] in
    elim (detect_left_recursion (suc (length (all_names collected.0))) collected.0
      (check_declared t collected.0 collected.0 collected.1)) [
        | none ↦ none
        | some r ↦ elim (compute_first_sets (enough t r.0) t (build_callers_graph r.0 []) r.0) [
          | none ↦ none
          | some done ↦ some (done, r.1)
        ]
      ]
