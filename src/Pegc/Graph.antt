-- ===== src/Pegc/Graph.antt =====
-- Which productions the start production reaches: mark_reachable and detect_unreachable of
-- pegc/frontend/PegAnalysis.cpp.
use bbq.Base.{
  ℕ, zero, suc, ◌+◌, ◌-◌, ◌*◌, ◌≤◌, ◌<◌, ◌≡◌, refl, sym, ap, ◌∙◌, subst, ◌≢◌, ◌↔◌, ◌⊎◌, inl, inr,
  Bool, true, false, not, ◌&&◌, ◌||◌, Option, none, some, List, [], ◌∷◌, ◌++◌, arith, ltb, leb,
  ◌==◌, if◌then◌else◌, ltb→lt, lt→ltb, leb→le, ==_iff, tests, Bool-cases, Answered, by_answer,
  or_left, or_right, and_both, or_parts, and_parts, or_cases, or_swap, when_true, when_false,
  true-false, none-some, Bool_same, some_same, Option-cases, if_true, if_false, length,
  length-append,
}
use bbq.Pegc.Names.{
  Text, text_eq, text_lt, count, insert, erase, unrepeated, text_eq_self, text_eq-same, text_eq_iff,
  text_eq_comm, count-insert, count-append, count-erase, count-eq, unrepeated-snoc,
}
use bbq.Pegc.Ast.{
  PegExpr, literal, char_range, charset_ref, token_ref, rule_call, sequence, choice, star, plus,
  optional, and_expr, not_expr, group, action, resolver, any_expr, PegExprs, no_exprs, exprs,
  Production, Kind, literal_kind, charset_kind, token_kind, any_kind, epsilon_kind, FirstElement,
  element, epsilon,
}
use bbq.Pegc.First.{
  ProductionInfo, Productions, find, Terminals, nullable_entry, first_entry, nullable_of,
  nullable_all, nullable_some, with_epsilon, first_of, first_sequence, first_choice,
}
use bbq.Pegc.Collect.{
  Message, duplicate_production, undeclared_identifier, left_recursion, masked_alternative,
  star_suffix_conflict, plus_suffix_conflict, star_follow_conflict, plus_follow_conflict,
  always_failing, and_always_succeeds, not_always_fails, not_always_succeeds,
  unreachable_production, collect_calls, collect_all_calls, put, is_declared, new_info,
  collect_productions, Callers, add_caller, callers_of, add_callers, build_callers_graph,
}
use bbq.Pegc.Kildall.{
  FirstState, with_first, set_first, first_round, first_loop, set_first_testable, all_names,
  compute_first_sets,
}
pub mod Reach
pub mod Mark
pub mod Topo
pub mod Sort

-- The calls of a production; none for a name that is not declared.
unfoldable pub deps_of : Text → Productions → List Text
deps_of n ps = elim (find n ps) [ none ↦ [] | some p ↦ p.calls ]

-- One visit after another, each with the set that the one before left.
unfoldable pub visit_all :
    (Text → List Text → Option (List Text)) → List Text → List Text → Option (List Text)
visit_all visit [] visited = some visited
visit_all visit (d ∷ ds) visited = elim (visit d visited) [
  | none ↦ none
  | some further ↦ visit_all visit ds further
]

-- On fuel for the depth of the recursion.
unfoldable pub mark_reachable : ℕ → Productions → Text → List Text → Option (List Text)
mark_reachable zero ps name visited = none
mark_reachable (suc fuel) ps name visited = elim (count name visited) [
  | true ↦ some visited
  | false ↦ visit_all (mark_reachable fuel ps) (deps_of name ps) (insert name visited)
]

-- The loop over the productions: the mark of each, and the warnings in order.
unfoldable pub unmark : List Text → Productions → Productions
unmark reachable [] = []
unmark reachable (p ∷ ps) =
    let rest = unmark reachable ps in
    if count p.name reachable then p ∷ rest else record p { reachable = false } ∷ rest

unfoldable pub unreachable_warnings : List Text → Productions → List Message
unreachable_warnings reachable [] = []
unreachable_warnings reachable (p ∷ ps) =
    let rest = unreachable_warnings reachable ps in
    if count p.name reachable then rest else unreachable_production p.name ∷ rest

-- The grammar's first production is the start; without one, nothing is done.
unfoldable pub detect_unreachable :
    ℕ → List Production → Productions → List Message → Option (Productions × List Message)
detect_unreachable fuel [] ps warnings = some (ps, warnings)
detect_unreachable fuel (start ∷ rest) ps warnings = elim (mark_reachable fuel ps start.name []) [
  | none ↦ none
  | some reachable ↦ some (unmark reachable ps, warnings ++ unreachable_warnings reachable ps)
]

-- The sets of topological_sort, and the order so far.
pub record TopoState : Type 0 where
  pub visited : List Text
  pub in_stack : List Text
  pub topo_order : List Text

abbrev pub topo_enter : Text → TopoState → TopoState
topo_enter name s = record s { in_stack = insert name s.in_stack }

abbrev pub topo_leave : Text → TopoState → TopoState
topo_leave name s = record {
  visited = insert name s.visited;
  in_stack = erase name s.in_stack;
  topo_order = s.topo_order ++ (name ∷ []);
}

unfoldable pub topo_all :
    (Text → TopoState → Option TopoState) → List Text → TopoState → Option TopoState
topo_all visit [] s = some s
topo_all visit (d ∷ ds) s = elim (visit d s) [
  | none ↦ none
  | some further ↦ topo_all visit ds further
]

-- `visit`, on fuel for the depth of the recursion.
unfoldable pub topo_visit : ℕ → Productions → Text → TopoState → Option TopoState
topo_visit zero ps name s = none
topo_visit (suc fuel) ps name s = elim (count name s.visited) [
  | true ↦ some s
  | false ↦ elim (count name s.in_stack) [
    | true ↦ some s
    | false ↦ elim (topo_all (topo_visit fuel ps) (deps_of name ps) (topo_enter name s)) [
      | none ↦ none
      | some r ↦ some (topo_leave name r)
    ]
  ]
]

unfoldable pub topological_sort : ℕ → Productions → Option (List Text)
topological_sort fuel ps =
    elim (topo_all (topo_visit fuel ps) (all_names ps)
      (record { visited = []; in_stack = []; topo_order = [] })) [
        | none ↦ none
        | some s ↦ some s.topo_order
      ]
