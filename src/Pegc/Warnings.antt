-- ===== src/Pegc/Warnings.antt =====
-- The checks that warn: detect_masked_alternatives, detect_star_suffix_conflict,
-- detect_star_follow_conflict, detect_always_failing and detect_useless_predicates of
-- pegc/frontend/PegAnalysis.cpp.
use bbq.Base.{
  ℕ, zero, suc, ◌+◌, ◌-◌, ◌*◌, ◌≤◌, ◌<◌, ◌≡◌, refl, sym, ap, ◌∙◌, subst, ◌≢◌, ◌↔◌, ◌⊎◌, inl, inr,
  Bool, true, false, not, ◌&&◌, ◌||◌, Option, none, some, List, [], ◌∷◌, ◌++◌, arith, ltb, leb,
  ◌==◌, if◌then◌else◌, ltb→lt, lt→ltb, leb→le, ==_iff, tests, Bool-cases, Answered, by_answer,
  or_left, or_right, and_both, or_parts, and_parts, or_cases, or_swap, when_true, when_false,
  true-false, none-some, Bool_same, some_same, Option-cases, if_true, if_false, length,
  length-append,
}
use bbq.Pegc.Names.{
  Text, text_eq, text_lt, count, insert, erase, unrepeated, text_eq_self, text_eq-same, text_eq_iff,
  text_eq_comm, count-insert, count-append, count-erase, count-eq, unrepeated-snoc,
}
use bbq.Pegc.Ast.{
  PegExpr, literal, char_range, charset_ref, token_ref, rule_call, sequence, choice, star, plus,
  optional, and_expr, not_expr, group, action, resolver, any_expr, PegExprs, no_exprs, exprs,
  Production, Kind, literal_kind, charset_kind, token_kind, any_kind, epsilon_kind, FirstElement,
  element, epsilon,
}
use bbq.Pegc.Sets.{
  kind_eq, first_element_eq, is_epsilon, found, all_found, first_set_eq, first_set_union,
  first_set_contains_epsilon, first_set_without_epsilon, first_set_subsumes, is_none,
}
use bbq.Pegc.First.{
  ProductionInfo, Productions, find, Terminals, nullable_entry, first_entry, nullable_of,
  nullable_all, nullable_some, with_epsilon, first_of, first_sequence, first_choice,
}
use bbq.Pegc.Collect.{
  Message, duplicate_production, undeclared_identifier, left_recursion, masked_alternative,
  star_suffix_conflict, plus_suffix_conflict, star_follow_conflict, plus_follow_conflict,
  always_failing, and_always_succeeds, not_always_fails, not_always_succeeds,
  unreachable_production, collect_calls, collect_all_calls, put, is_declared, new_info,
  collect_productions, Callers, add_caller, callers_of, add_callers, build_callers_graph,
}
pub mod Failing
pub mod StarFollow
pub mod Refs

unfoldable pub detect_always_failing : Productions → List Message → List Message
detect_always_failing [] warnings = warnings
detect_always_failing (p ∷ ps) warnings =
    if p.left_recursive
    then detect_always_failing ps warnings
    else (if is_none p.first_set && not p.nullable
        then detect_always_failing ps (warnings ++ (always_failing p.name ∷ []))
        else detect_always_failing ps warnings)

unfoldable mutual
  pub useless_predicates : Terminals → Productions → Text → PegExpr → List Message → List Message
  useless_predicates t ps owner (and_expr e) ws =
      useless_predicates t ps owner e
        (if nullable_of t ps e then ws ++ (and_always_succeeds owner ∷ []) else ws)
  useless_predicates t ps owner (not_expr e) ws = useless_predicates t ps owner e (
      if nullable_of t ps e
      then ws ++ (not_always_fails owner ∷ [])
      else (if is_none (first_set_without_epsilon (first_of t ps e))
          then ws ++ (not_always_succeeds owner ∷ [])
          else ws))
  useless_predicates t ps owner (sequence es) ws = useless_in_all t ps owner es ws
  useless_predicates t ps owner (choice es) ws = useless_in_all t ps owner es ws
  useless_predicates t ps owner (star e) ws = useless_predicates t ps owner e ws
  useless_predicates t ps owner (plus e) ws = useless_predicates t ps owner e ws
  useless_predicates t ps owner (optional e) ws = useless_predicates t ps owner e ws
  useless_predicates t ps owner (group e) ws = useless_predicates t ps owner e ws
  useless_predicates t ps owner (resolver c e) ws = useless_predicates t ps owner e ws
  useless_predicates t ps owner _ ws = ws

  pub useless_in_all : Terminals → Productions → Text → PegExprs → List Message → List Message
  useless_in_all t ps owner no_exprs ws = ws
  useless_in_all t ps owner (exprs e es) ws =
      useless_in_all t ps owner es (useless_predicates t ps owner e ws)

unfoldable pub detect_useless_predicates :
    Terminals → Productions → List Production → List Message → List Message
detect_useless_predicates t ps [] warnings = warnings
detect_useless_predicates t ps (p ∷ rest) warnings =
    detect_useless_predicates t ps rest (useless_predicates t ps p.name p.body warnings)

-- The alternatives of one choice, the loops over j and over the i before it: the first i whose set
-- subsumes the j-th is named.
unfoldable pub first_masking : List (List FirstElement) → List FirstElement → ℕ → Option ℕ
first_masking [] s i = none
first_masking (a ∷ earlier) s i =
    let rest = first_masking earlier s (suc i) in if first_set_subsumes a s then some i else rest

unfoldable pub masked_alternatives :
    Text → List (List FirstElement) → List (List FirstElement) → List Message → List Message
masked_alternatives owner earlier [] warnings = warnings
masked_alternatives owner earlier (s ∷ later) warnings =
    masked_alternatives owner (earlier ++ (s ∷ [])) later (elim (first_masking earlier s 0) [
      | none ↦ warnings
      | some i ↦ warnings ++ (masked_alternative owner (length earlier) i ∷ [])
    ])

-- FIRST of a suffix, and whether the suffix may match nothing.
unfoldable pub suffix_first :
    Terminals → Productions → PegExprs → List FirstElement → List FirstElement × Bool
suffix_first t ps no_exprs sf = (sf, true)
suffix_first t ps (exprs e es) sf =
    let further = suffix_first t ps es (first_set_union sf (first_of t ps e) false) in
    if nullable_of t ps e then further else (first_set_union sf (first_of t ps e) false, false)

-- The body of a repetition.
unfoldable pub repeated_body : PegExpr → Option PegExpr
repeated_body (star e) = some e
repeated_body (plus e) = some e
repeated_body _ = none

unfoldable pub suffix_warning : PegExpr → Text → List Message
suffix_warning (star e) owner = star_suffix_conflict owner ∷ []
suffix_warning (plus e) owner = plus_suffix_conflict owner ∷ []
suffix_warning _ owner = []

-- One repetition against what follows it in its sequence.
unfoldable pub suffix_conflict :
    Terminals → Productions → Text → PegExpr → PegExprs → List Message → List Message
suffix_conflict t ps owner e no_exprs ws = ws
suffix_conflict t ps owner e (exprs f es) ws = elim (repeated_body e) [
  | none ↦ ws
  | some body ↦
      let suffix = suffix_first t ps (exprs f es) [] in
      if is_none suffix.0 || suffix.1
      then ws
      else (if first_set_subsumes (first_set_without_epsilon (first_of t ps body)) suffix.0
          then ws ++ suffix_warning e owner
          else ws)
]

unfoldable pub suffix_conflicts :
    Terminals → Productions → Text → PegExprs → List Message → List Message
suffix_conflicts t ps owner no_exprs ws = ws
suffix_conflicts t ps owner (exprs e es) ws =
    suffix_conflicts t ps owner es (suffix_conflict t ps owner e es ws)

unfoldable mutual
  pub star_suffix_walk : Terminals → Productions → Text → PegExpr → List Message → List Message
  star_suffix_walk t ps owner (sequence es) ws =
      star_suffix_walk_all t ps owner es (suffix_conflicts t ps owner es ws)
  star_suffix_walk t ps owner (choice es) ws = star_suffix_walk_all t ps owner es ws
  star_suffix_walk t ps owner (star e) ws = star_suffix_walk t ps owner e ws
  star_suffix_walk t ps owner (plus e) ws = star_suffix_walk t ps owner e ws
  star_suffix_walk t ps owner (optional e) ws = star_suffix_walk t ps owner e ws
  star_suffix_walk t ps owner (and_expr e) ws = star_suffix_walk t ps owner e ws
  star_suffix_walk t ps owner (not_expr e) ws = star_suffix_walk t ps owner e ws
  star_suffix_walk t ps owner (group e) ws = star_suffix_walk t ps owner e ws
  star_suffix_walk t ps owner (resolver c e) ws = star_suffix_walk t ps owner e ws
  star_suffix_walk t ps owner _ ws = ws

  pub star_suffix_walk_all : Terminals → Productions → Text → PegExprs → List Message → List Message
  star_suffix_walk_all t ps owner no_exprs ws = ws
  star_suffix_walk_all t ps owner (exprs e es) ws =
      star_suffix_walk_all t ps owner es (star_suffix_walk t ps owner e ws)

unfoldable pub detect_star_suffix_conflict :
    Terminals → Productions → List Production → List Message → List Message
detect_star_suffix_conflict t ps [] warnings = warnings
detect_star_suffix_conflict t ps (p ∷ rest) warnings =
    detect_star_suffix_conflict t ps rest (star_suffix_walk t ps p.name p.body warnings)
