-- ===== src/Pegc/First.antt =====
-- FIRST sets and the question whether an expression matches nothing, over the table of what is
-- known of each production: nullable_of and first_of of pegc/frontend/PegAnalysis.cpp.
use bbq.Base.{
  ℕ, zero, suc, ◌+◌, ◌-◌, ◌*◌, ◌≤◌, ◌<◌, ◌≡◌, refl, sym, ap, ◌∙◌, subst, ◌≢◌, ◌↔◌, ◌⊎◌, inl, inr,
  Bool, true, false, not, ◌&&◌, ◌||◌, Option, none, some, List, [], ◌∷◌, ◌++◌, arith, ltb, leb,
  ◌==◌, if◌then◌else◌, ltb→lt, lt→ltb, leb→le, ==_iff, tests, Bool-cases, Option-cases, if_true,
  if_false, length, length-append,
}
use bbq.Pegc.Names.{
  Text, text_eq, text_lt, count, insert, text_eq_self, text_eq-same, text_eq_iff, text_eq_comm,
  count-insert,
}
use bbq.Pegc.Ast.{
  PegExpr, literal, char_range, charset_ref, token_ref, rule_call, sequence, choice, star, plus,
  optional, and_expr, not_expr, group, action, resolver, any_expr, PegExprs, no_exprs, exprs,
  Production, Kind, literal_kind, charset_kind, token_kind, any_kind, epsilon_kind, FirstElement,
  element, epsilon,
}
use bbq.Pegc.Sets.{
  kind_eq, first_element_eq, is_epsilon, found, all_found, first_set_eq, first_set_union,
  first_set_contains_epsilon, first_set_without_epsilon, first_set_subsumes,
}
pub mod Laws
pub mod Starts
pub mod Match
pub mod Sound
pub mod Bound
pub mod Unique
pub mod Grow
pub mod Local
pub mod Universe

-- ProductionInfo, with the production's body in place of its node.
pub record ProductionInfo : Type 0 where
  pub name : Text
  pub body : PegExpr
  pub first_set : List FirstElement
  pub nullable : Bool
  pub follow_set : List FirstElement
  pub first_testable : Bool
  pub calls : List Text
  pub reachable : Bool
  pub left_recursive : Bool

-- result_.productions, in the order of the names.
abbrev pub Productions : Type 0
Productions = List ProductionInfo

unfoldable pub find : Text → Productions → Option ProductionInfo
find n [] = none
find n (p ∷ ps) = let rest = find n ps in if text_eq n p.name then some p else rest

-- The names that the analysis keeps: charset_names_ and token_names_.
pub record Terminals : Type 0 where
  pub charset_names : List Text
  pub token_names : List Text

-- What the two functions read of a production that was looked up.
unfoldable pub nullable_entry : Option ProductionInfo → Bool
nullable_entry none = false
nullable_entry (some p) = p.nullable

unfoldable pub first_entry : Option ProductionInfo → List FirstElement
first_entry none = []
first_entry (some p) = p.first_set

unfoldable mutual
  pub nullable_of : Terminals → Productions → PegExpr → Bool
  nullable_of t ps (literal v) = false
  nullable_of t ps (charset_ref n) = false
  nullable_of t ps (token_ref n) = false
  nullable_of t ps any_expr = false
  nullable_of t ps (rule_call n args) =
      if count n t.charset_names || count n t.token_names then false else nullable_entry (find n ps)
  nullable_of t ps (sequence es) = nullable_all t ps es
  nullable_of t ps (choice es) = nullable_some t ps es
  nullable_of t ps (star e) = true
  nullable_of t ps (optional e) = true
  nullable_of t ps (plus e) = nullable_of t ps e
  nullable_of t ps (group e) = nullable_of t ps e
  nullable_of t ps (resolver c e) = nullable_of t ps e
  nullable_of t ps (char_range from to) = true
  nullable_of t ps (and_expr e) = true
  nullable_of t ps (not_expr e) = true
  nullable_of t ps (action c) = true

  pub nullable_all : Terminals → Productions → PegExprs → Bool
  nullable_all t ps no_exprs = true
  nullable_all t ps (exprs e es) = nullable_of t ps e && nullable_all t ps es

  pub nullable_some : Terminals → Productions → PegExprs → Bool
  nullable_some t ps no_exprs = false
  nullable_some t ps (exprs e es) = nullable_of t ps e || nullable_some t ps es

-- `if (!first_set_contains_epsilon(result)) result.push_back({FirstElement::Epsilon, ""});`
unfoldable pub with_epsilon : List FirstElement → List FirstElement
with_epsilon s = if first_set_contains_epsilon s then s else s ++ (epsilon ∷ [])

unfoldable mutual
  pub first_of : Terminals → Productions → PegExpr → List FirstElement
  first_of t ps (literal v) = element literal_kind v ∷ []
  first_of t ps (rule_call n args) =
      if count n t.charset_names
      then element charset_kind n ∷ []
      else (if count n t.token_names then element token_kind n ∷ [] else first_entry (find n ps))
  first_of t ps (sequence es) = first_sequence t ps es []
  first_of t ps (choice es) = first_choice t ps es []
  first_of t ps (star e) = with_epsilon (first_of t ps e)
  first_of t ps (plus e) = first_of t ps e
  first_of t ps (optional e) = with_epsilon (first_of t ps e)
  first_of t ps (group e) = first_of t ps e
  first_of t ps any_expr = element any_kind [] ∷ []
  first_of t ps (charset_ref n) = element charset_kind n ∷ []
  first_of t ps (token_ref n) = element token_kind n ∷ []
  first_of t ps (resolver c e) = first_of t ps e
  first_of t ps (char_range from to) = epsilon ∷ []
  first_of t ps (and_expr e) = epsilon ∷ []
  first_of t ps (not_expr e) = epsilon ∷ []
  first_of t ps (action c) = epsilon ∷ []

  -- The walk over a sequence's elements: it stops behind the first that is not nullable.
  pub first_sequence : Terminals → Productions → PegExprs → List FirstElement → List FirstElement
  first_sequence t ps no_exprs result = result ++ (epsilon ∷ [])
  first_sequence t ps (exprs e es) result =
      let further = first_sequence t ps es (first_set_union result (first_of t ps e) false) in
      if nullable_of t ps e then further else first_set_union result (first_of t ps e) false

  pub first_choice : Terminals → Productions → PegExprs → List FirstElement → List FirstElement
  first_choice t ps no_exprs result = result
  first_choice t ps (exprs e es) result =
      first_choice t ps es (first_set_union result (first_of t ps e) true)
