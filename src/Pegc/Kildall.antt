-- ===== src/Pegc/Kildall.antt =====
-- FIRST sets as the fixed point of a worklist: compute_first_sets of pegc/frontend/PegAnalysis.cpp.
use bbq.Base.{
  ℕ, zero, suc, ◌+◌, ◌-◌, ◌*◌, ◌≤◌, ◌<◌, ◌≡◌, refl, sym, ap, ◌∙◌, subst, ◌≢◌, ◌↔◌, ◌⊎◌, inl, inr,
  Bool, true, false, not, ◌&&◌, ◌||◌, Option, none, some, List, [], ◌∷◌, ◌++◌, arith, ltb, leb,
  ◌==◌, if◌then◌else◌, ltb→lt, lt→ltb, leb→le, ==_iff, tests, Bool-cases, Answered, by_answer,
  or_left, or_right, and_both, or_parts, and_parts, or_cases, or_swap, Option-cases, if_true,
  if_false, length, length-append,
}
use bbq.Pegc.Names.{
  Text, text_eq, text_lt, count, insert, erase, unrepeated, text_eq_self, text_eq-same, text_eq_iff,
  text_eq_comm, count-insert, count-append, count-erase, count-eq, unrepeated-snoc,
}
use bbq.Pegc.Ast.{
  PegExpr, literal, char_range, charset_ref, token_ref, rule_call, sequence, choice, star, plus,
  optional, and_expr, not_expr, group, action, resolver, any_expr, PegExprs, no_exprs, exprs,
  Production, Kind, literal_kind, charset_kind, token_kind, any_kind, epsilon_kind, FirstElement,
  element, epsilon,
}
use bbq.Pegc.Sets.{
  kind_eq, first_element_eq, is_epsilon, found, all_found, first_set_eq, first_set_union,
  first_set_contains_epsilon, first_set_without_epsilon, first_set_subsumes,
}
use bbq.Pegc.First.{
  ProductionInfo, Productions, find, Terminals, nullable_entry, first_entry, nullable_of,
  nullable_all, nullable_some, with_epsilon, first_of, first_sequence, first_choice,
}
use bbq.Pegc.Worklist.{
  Worklist, empty_worklist, push, is_empty, pop, push_all, IsTracked, push-count, push-IsTracked,
  push_lem, pop-IsTracked, push_all-IsTracked, push_all-count, length-push_all,
}
use bbq.Pegc.Collect.{
  Message, duplicate_production, undeclared_identifier, left_recursion, masked_alternative,
  star_suffix_conflict, plus_suffix_conflict, star_follow_conflict, plus_follow_conflict,
  always_failing, and_always_succeeds, not_always_fails, not_always_succeeds,
  unreachable_production, collect_calls, collect_all_calls, put, is_declared, new_info,
  collect_productions, Callers, add_caller, callers_of, add_callers, build_callers_graph,
}
pub mod Table
pub mod Invariant
pub mod Step
pub mod Fixpoint
pub mod Start
pub mod Ends
pub mod Result

pub record FirstState : Type 0 where
  pub productions : Productions
  pub worklist : Worklist

-- info.first_set = new_first; info.nullable = first_set_contains_epsilon(info.first_set);
abbrev pub with_first : List FirstElement → ProductionInfo → ProductionInfo
with_first new_first info = record info {
  first_set = new_first;
  nullable = first_set_contains_epsilon new_first;
}

-- The same on the production of that name in the table.
unfoldable pub set_first : Text → List FirstElement → Productions → Productions
set_first n new_first [] = []
set_first n new_first (p ∷ ps) =
    let rest = set_first n new_first ps in
    if text_eq n p.name then with_first new_first p ∷ ps else p ∷ rest

-- A round of the loop, for the name that was popped and its production.
unfoldable pub first_round :
    Terminals → List Callers → Text → ProductionInfo → Productions → Worklist → FirstState
first_round t callers name info ps wl =
    if info.left_recursive
    then record { productions = ps; worklist = wl }
    else (if first_set_eq (first_of t ps info.body) info.first_set
        then record { productions = ps; worklist = wl }
        else record {
          productions = set_first name (first_of t ps info.body) ps;
          worklist = push_all wl (callers_of name callers);
        })

-- The loop, on fuel for its rounds. A name on the worklist that is no production has no node, whose
-- body the code would read: the run stops with none, as it does without fuel.
unfoldable pub first_loop :
    ℕ → Terminals → List Callers → Productions → Worklist → Option Productions
first_loop zero t callers ps wl = none
first_loop (suc fuel) t callers ps wl = elim (pop wl) [
  | none ↦ some ps
  | some popped ↦ elim (find popped.0 ps) [
    | none ↦ none
    | some info ↦
        let next = first_round t callers popped.0 info ps popped.1 in
        first_loop fuel t callers next.productions next.worklist
  ]
]

-- info.first_testable, set for every production when the loop has ended.
unfoldable pub set_first_testable : Productions → Productions
set_first_testable [] = []
set_first_testable (p ∷ ps) =
    let rest = set_first_testable ps in
    record p { first_testable = elim p.first_set [ [] ↦ false | e ∷ es ↦ not (is_epsilon e) ] }
    ∷ rest

unfoldable pub all_names : Productions → List Text
all_names [] = []
all_names (p ∷ ps) = p.name ∷ all_names ps

unfoldable pub compute_first_sets : ℕ → Terminals → List Callers → Productions → Option Productions
compute_first_sets fuel t callers ps =
    elim (first_loop fuel t callers ps (push_all empty_worklist (all_names ps))) [
      | none ↦ none
      | some done ↦ some (set_first_testable done)
    ]
