-- ===== src/Pegc/Warnings/Refs.antt =====
-- The names that bodies use: collect_all_refs of pegc/frontend/PegAnalysis.cpp.
use bbq.Base.{◌≡◌, refl, ap, ◌∙◌, inl, inr, List, if◌then◌else◌, Bool-cases}
use bbq.Pegc.Names.{Text, count, insert}
use bbq.Pegc.Ast.{
  PegExpr, literal, char_range, charset_ref, token_ref, rule_call, sequence, choice, star, plus,
  optional, and_expr, not_expr, group, action, resolver, any_expr, PegExprs, no_exprs, exprs,
}
use bbq.Pegc.First.{Terminals}
use bbq.Pegc.Collect.{collect_calls, collect_all_calls}

pub record Refs : Type 0 where
  pub tokens : List Text
  pub charsets : List Text
  pub rules : List Text

unfoldable mutual
  pub collect_all_refs : Terminals → PegExpr → Refs → Refs
  collect_all_refs t (rule_call n args) r =
      if count n t.charset_names
      then record r { charsets = insert n r.charsets }
      else (if count n t.token_names
          then record r { tokens = insert n r.tokens }
          else record r { rules = insert n r.rules })
  collect_all_refs t (charset_ref n) r = record r { charsets = insert n r.charsets }
  collect_all_refs t (token_ref n) r = record r { tokens = insert n r.tokens }
  collect_all_refs t (sequence es) r = collect_refs_all t es r
  collect_all_refs t (choice es) r = collect_refs_all t es r
  collect_all_refs t (star e) r = collect_all_refs t e r
  collect_all_refs t (plus e) r = collect_all_refs t e r
  collect_all_refs t (optional e) r = collect_all_refs t e r
  collect_all_refs t (and_expr e) r = collect_all_refs t e r
  collect_all_refs t (not_expr e) r = collect_all_refs t e r
  collect_all_refs t (group e) r = collect_all_refs t e r
  collect_all_refs t (resolver c e) r = collect_all_refs t e r
  collect_all_refs t _ r = r

  pub collect_refs_all : Terminals → PegExprs → Refs → Refs
  collect_refs_all t no_exprs r = r
  collect_refs_all t (exprs e es) r = collect_refs_all t es (collect_all_refs t e r)

rule_refs :
    (t : Terminals) (n args : Text) (r : Refs)
    → (collect_all_refs t (rule_call n args) r).rules ≡ collect_calls t (rule_call n args) r.rules
unfolding collect_all_refs collect_calls
rule_refs t n args r = elim (Bool-cases (count n t.charset_names)) [
  | inl k ↦ rw (k) refl
  | inr k ↦ elim (Bool-cases (count n t.token_names)) [
    | inl l ↦ rw (k, l) refl
    | inr l ↦ rw (k, l) refl
  ]
]

mutual
  unfolding collect_all_refs collect_calls

  rules_same :
      (t : Terminals) (e : PegExpr) (r : Refs)
      → (collect_all_refs t e r).rules ≡ collect_calls t e r.rules
  rules_same t (rule_call n args) r = rule_refs t n args r
  rules_same t (sequence es) r = all_rules_same t es r
  rules_same t (choice es) r = all_rules_same t es r
  rules_same t (star e) r = rules_same t e r
  rules_same t (plus e) r = rules_same t e r
  rules_same t (optional e) r = rules_same t e r
  rules_same t (and_expr e) r = rules_same t e r
  rules_same t (not_expr e) r = rules_same t e r
  rules_same t (group e) r = rules_same t e r
  rules_same t (resolver c e) r = rules_same t e r
  rules_same t (literal v) r = refl
  rules_same t (char_range a b) r = refl
  rules_same t (charset_ref n) r = refl
  rules_same t (token_ref n) r = refl
  rules_same t (action c) r = refl
  rules_same t any_expr r = refl

  all_rules_same :
      (t : Terminals) (es : PegExprs) (r : Refs)
      → (collect_refs_all t es r).rules ≡ collect_all_calls t es r.rules
  all_rules_same t no_exprs r = refl
  all_rules_same t (exprs e es) r =
      all_rules_same t es (collect_all_refs t e r)
      ∙ ap (λ l. collect_all_calls t es l) (rules_same t e r)

-- The rules among the names that collect_all_refs collects are, in their order, the calls that
-- collect_calls collects from the same expression.
pub collect_all_refs_lem :
    (t : Terminals) (e : PegExpr) (r : Refs)
    → (collect_all_refs t e r).rules ≡ collect_calls t e r.rules
collect_all_refs_lem t e r = rules_same t e r
