-- ===== src/Pegc/LeftRec.antt =====
-- The search for left recursion: first_element, has_left_path and detect_left_recursion of
-- pegc/frontend/PegAnalysis.cpp.
use bbq.Base.{
  ℕ, zero, suc, ◌+◌, ◌-◌, ◌*◌, ◌≤◌, ◌<◌, ◌≡◌, refl, sym, ap, ◌∙◌, subst, ◌≢◌, ◌↔◌, ◌⊎◌, inl, inr,
  Bool, true, false, not, ◌&&◌, ◌||◌, Option, none, some, List, [], ◌∷◌, ◌++◌, arith, ltb, leb,
  ◌==◌, if◌then◌else◌, ltb→lt, lt→ltb, leb→le, ==_iff, tests, Bool-cases, Answered, by_answer,
  or_left, or_right, and_both, or_parts, and_parts, or_cases, or_swap, true-false, none-some,
  Bool_same, some_same, Option-cases, if_true, if_false, length, length-append,
}
use bbq.Pegc.Names.{
  Text, text_eq, text_lt, count, insert, erase, unrepeated, text_eq_self, text_eq-same, text_eq_iff,
  text_eq_comm, count-insert, count-append, count-erase, count-eq, unrepeated-snoc,
}
use bbq.Pegc.Ast.{
  PegExpr, literal, char_range, charset_ref, token_ref, rule_call, sequence, choice, star, plus,
  optional, and_expr, not_expr, group, action, resolver, any_expr, PegExprs, no_exprs, exprs,
  Production, Kind, literal_kind, charset_kind, token_kind, any_kind, epsilon_kind, FirstElement,
  element, epsilon,
}
use bbq.Pegc.First.{
  ProductionInfo, Productions, find, Terminals, nullable_entry, first_entry, nullable_of,
  nullable_all, nullable_some, with_epsilon, first_of, first_sequence, first_choice,
}
use bbq.Pegc.Collect.{
  Message, duplicate_production, undeclared_identifier, left_recursion, masked_alternative,
  star_suffix_conflict, plus_suffix_conflict, star_follow_conflict, plus_follow_conflict,
  always_failing, and_always_succeeds, not_always_fails, not_always_succeeds,
  unreachable_production, collect_calls, collect_all_calls, put, is_declared, new_info,
  collect_productions, Callers, add_caller, callers_of, add_callers, build_callers_graph,
}
pub mod Chain
pub mod Path
pub mod Detect

unfoldable pub first_element : PegExpr → Option PegExpr
first_element (sequence (exprs e es)) = first_element e
first_element (choice es) = none
first_element (group e) = first_element e
first_element e = some e

-- `dynamic_cast<RuleCall*>(f)` of the elements that were pushed to `leftmost`.
unfoldable pub rule_name : Option PegExpr → List Text
rule_name (some (rule_call n args)) = n ∷ []
rule_name _ = []

unfoldable pub leftmost_all : PegExprs → List Text
leftmost_all no_exprs = []
leftmost_all (exprs e es) = rule_name (first_element e) ++ leftmost_all es

-- The rule calls among the leftmost elements of a production's body.
unfoldable pub leftmost : PegExpr → List Text
leftmost (choice es) = leftmost_all es
leftmost e = rule_name (first_element e)

-- The loop over the leftmost rule calls, with the set of visited names handed on.
unfoldable pub try_all :
    (Text → List Text → Option (Bool × List Text))
    → Text
    → List Text
    → List Text
    → Option (Bool × List Text)
try_all path to [] visited = some (false, visited)
try_all path to (n ∷ ns) visited =
    if text_eq n to then some (true, visited) else elim (path n visited) [
      | none ↦ none
      | some r ↦ elim r.0 [ true ↦ some r | false ↦ try_all path to ns r.1 ]
    ]

-- On fuel for the depth of the recursion.
unfoldable pub has_left_path : ℕ → Productions → Text → Text → List Text → Option (Bool × List Text)
has_left_path zero ps to from visited = none
has_left_path (suc fuel) ps to from visited = elim (find from ps) [
  | none ↦ some (false, visited)
  | some p ↦ elim (count from visited) [
    | true ↦ some (false, visited)
    | false ↦ try_all (has_left_path fuel ps to) to (leftmost p.body) (insert from visited)
  ]
]

-- The loop over the productions, which marks them one after another. The marks are not read by the
-- search, so each is looked for in the table as it was.
unfoldable pub mark_left_recursive :
    ℕ → Productions → Productions → List Message → Option (Productions × List Message)
mark_left_recursive fuel table [] errors = some ([], errors)
mark_left_recursive fuel table (p ∷ ps) errors = elim (has_left_path fuel table p.name p.name []) [
  | none ↦ none
  | some r ↦
      elim (mark_left_recursive fuel table ps
        (if r.0 then errors ++ (left_recursion p.name ∷ []) else errors)) [
          | none ↦ none
          | some rest ↦
              some ((if r.0 then record p { left_recursive = true } else p) ∷ rest.0, rest.1)
        ]
]

unfoldable pub detect_left_recursion :
    ℕ → Productions → List Message → Option (Productions × List Message)
detect_left_recursion fuel ps errors = mark_left_recursive fuel ps ps errors
