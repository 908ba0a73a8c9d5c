-- ===== src/Pegc/Follow.antt =====
-- FOLLOW sets: walk_for_follow, compute_follow_sets and detect_star_follow_conflict of
-- pegc/frontend/PegAnalysis.cpp.
use bbq.Base.{
  ℕ, zero, suc, ◌+◌, ◌-◌, ◌*◌, ◌≤◌, ◌<◌, ◌≡◌, refl, sym, ap, ◌∙◌, subst, ◌≢◌, ◌↔◌, ◌⊎◌, inl, inr,
  Bool, true, false, not, ◌&&◌, ◌||◌, Option, none, some, List, [], ◌∷◌, ◌++◌, arith, ltb, leb,
  ◌==◌, if◌then◌else◌, ltb→lt, lt→ltb, leb→le, ==_iff, tests, Bool-cases, Answered, by_answer,
  or_left, or_right, and_both, or_parts, and_parts, or_cases, or_swap, when_true, when_false,
  true-false, none-some, Bool_same, some_same, Option-cases, if_true, if_false, length,
  length-append,
}
use bbq.Pegc.Names.{
  Text, text_eq, text_lt, count, insert, erase, unrepeated, text_eq_self, text_eq-same, text_eq_iff,
  text_eq_comm, count-insert, count-append, count-erase, count-eq, unrepeated-snoc,
}
use bbq.Pegc.Ast.{
  PegExpr, literal, char_range, charset_ref, token_ref, rule_call, sequence, choice, star, plus,
  optional, and_expr, not_expr, group, action, resolver, any_expr, PegExprs, no_exprs, exprs,
  Production, Kind, literal_kind, charset_kind, token_kind, any_kind, epsilon_kind, FirstElement,
  element, epsilon,
}
use bbq.Pegc.Sets.{
  kind_eq, first_element_eq, is_epsilon, found, all_found, first_set_eq, first_set_union,
  first_set_contains_epsilon, first_set_without_epsilon, first_set_subsumes, is_none,
}
use bbq.Pegc.First.{
  ProductionInfo, Productions, find, Terminals, nullable_entry, first_entry, nullable_of,
  nullable_all, nullable_some, with_epsilon, first_of, first_sequence, first_choice,
}
use bbq.Pegc.Worklist.{
  Worklist, empty_worklist, push, is_empty, pop, push_all, IsTracked, push-count, push-IsTracked,
  push_lem, pop-IsTracked, push_all-IsTracked, push_all-count, length-push_all,
}
use bbq.Pegc.Collect.{
  Message, duplicate_production, undeclared_identifier, left_recursion, masked_alternative,
  star_suffix_conflict, plus_suffix_conflict, star_follow_conflict, plus_follow_conflict,
  always_failing, and_always_succeeds, not_always_fails, not_always_succeeds,
  unreachable_production, collect_calls, collect_all_calls, put, is_declared, new_info,
  collect_productions, Callers, add_caller, callers_of, add_callers, build_callers_graph,
}
use bbq.Pegc.Kildall.{
  FirstState, with_first, set_first, first_round, first_loop, set_first_testable, all_names,
  compute_first_sets,
}
use bbq.Pegc.Warnings.{
  detect_always_failing, useless_predicates, useless_in_all, detect_useless_predicates,
  first_masking, masked_alternatives, suffix_first, repeated_body, suffix_warning, suffix_conflict,
  suffix_conflicts, star_suffix_walk, star_suffix_walk_all, detect_star_suffix_conflict,
}
pub mod Kept
pub mod Walk
pub mod Size
pub mod Ends
pub mod Result
pub mod Seed

-- callee.follow_set = grew, on the production of that name.
unfoldable pub set_follow : Text → List FirstElement → Productions → Productions
set_follow n grew [] = []
set_follow n grew (p ∷ ps) =
    let rest = set_follow n grew ps in
    if text_eq n p.name then record p { follow_set = grew } ∷ ps else p ∷ rest

unfoldable pub follow_entry : Option ProductionInfo → List FirstElement
follow_entry none = []
follow_entry (some p) = p.follow_set

-- A call: the tail's elements join the callee's FOLLOW set, and a callee whose set grew is pending.
unfoldable pub follow_call : Terminals → Text → List FirstElement → FirstState → FirstState
follow_call t n tail_first s =
    if count n t.charset_names || count n t.token_names then s else elim (find n s.productions) [
      | none ↦ s
      | some callee ↦
          if first_set_eq (first_set_union callee.follow_set tail_first false) callee.follow_set
          then s
          else record {
            productions =
                set_follow n (first_set_union callee.follow_set tail_first false) s.productions;
            worklist = (push s.worklist callee.name).0;
          }
    ]

-- What may follow an element of a sequence: FIRST of the suffix and, where the suffix may match
-- nothing, the tail and the owner's FOLLOW set as it is by then.
unfoldable pub element_tail :
    Terminals → Text → PegExprs → List FirstElement → FirstState → List FirstElement
element_tail t owner suffix tail_first s =
    let sf = suffix_first t s.productions suffix [] in
    if sf.1
    then first_set_union (first_set_union sf.0 tail_first false)
        (follow_entry (find owner s.productions)) false
    else sf.0

unfoldable pub repeated_tail :
    Terminals → PegExpr → List FirstElement → FirstState → List FirstElement
repeated_tail t body tail_first s =
    first_set_union (first_set_union [] (first_of t s.productions body) false) tail_first false

unfoldable mutual
  pub walk_for_follow : Terminals → Text → PegExpr → List FirstElement → FirstState → FirstState
  walk_for_follow t owner (rule_call n args) tail s = follow_call t n tail s
  walk_for_follow t owner (sequence es) tail s = walk_sequence t owner es tail s
  walk_for_follow t owner (choice es) tail s = walk_choice t owner es tail s
  walk_for_follow t owner (group e) tail s = walk_for_follow t owner e tail s
  walk_for_follow t owner (resolver c e) tail s = walk_for_follow t owner e tail s
  walk_for_follow t owner (optional e) tail s = walk_for_follow t owner e tail s
  walk_for_follow t owner (star e) tail s = walk_for_follow t owner e (repeated_tail t e tail s) s
  walk_for_follow t owner (plus e) tail s = walk_for_follow t owner e (repeated_tail t e tail s) s
  walk_for_follow t owner (and_expr e) tail s = walk_for_follow t owner e [] s
  walk_for_follow t owner (not_expr e) tail s = walk_for_follow t owner e [] s
  walk_for_follow t owner _ tail s = s

  pub walk_sequence : Terminals → Text → PegExprs → List FirstElement → FirstState → FirstState
  walk_sequence t owner no_exprs tail s = s
  walk_sequence t owner (exprs e es) tail s =
      walk_sequence t owner es tail (walk_for_follow t owner e (element_tail t owner es tail s) s)

  pub walk_choice : Terminals → Text → PegExprs → List FirstElement → FirstState → FirstState
  walk_choice t owner no_exprs tail s = s
  walk_choice t owner (exprs e es) tail s =
      walk_choice t owner es tail (walk_for_follow t owner e tail s)

-- The loop, on fuel for its rounds.
unfoldable pub follow_loop : ℕ → Terminals → FirstState → Option Productions
follow_loop zero t s = none
follow_loop (suc fuel) t s = elim (pop s.worklist) [
  | none ↦ some s.productions
  | some popped ↦
      let next : FirstState = record s { worklist = popped.1 } in
      elim (find popped.0 s.productions) [
        | none ↦ follow_loop fuel t next
        | some info ↦ elim info.left_recursive [
          | true ↦ follow_loop fuel t next
          | false ↦ follow_loop fuel t (walk_for_follow t popped.0 info.body [] next)
        ]
      ]
]

-- The end of the input, `{FirstElement::Literal, "$"}`.
abbrev pub end_of_input : FirstElement
end_of_input = element literal_kind (36 ∷ [])

unfoldable pub compute_follow_sets :
    ℕ → Terminals → List Production → Productions → Option Productions
compute_follow_sets fuel t [] ps = some ps
compute_follow_sets fuel t (start ∷ rest) ps =
    let seeded =
      set_follow start.name (follow_entry (find start.name ps) ++ (end_of_input ∷ [])) ps in
    follow_loop fuel t
      (record { productions = seeded; worklist = push_all empty_worklist (all_names seeded) })
