-- ===== src/Pegc/First/Unique.antt =====
-- The FIRST sets of pegc/frontend/PegAnalysis.cpp, and repetition in them.
use bbq.Base.{◌≡◌, refl, inl, inr, true, false, List, [], ◌∷◌, ◌++◌, arith, Bool-cases}
use bbq.Pegc.Names.{Text}
use bbq.Pegc.Ast.{
  PegExpr, literal, char_range, charset_ref, token_ref, rule_call, sequence, choice, star, plus,
  optional, and_expr, not_expr, group, action, resolver, any_expr, PegExprs, no_exprs, exprs,
  charset_kind, token_kind, FirstElement, element, epsilon,
}
use bbq.Pegc.Sets.{kind_eq, found, first_set_union, first_set_contains_epsilon}
use bbq.Pegc.Sets.Distinct.{distinct, distinct-snoc, distinct-union}
use bbq.Pegc.First.{
  Productions, find, Terminals, first_entry, with_epsilon, first_of, first_sequence, first_choice,
}
use bbq.Pegc.First.Laws.{found-epsilon, contains_epsilon-union}

distinct-snoc_epsilon :
    (a : List FirstElement)
    → distinct a ≡ true
    → first_set_contains_epsilon a ≡ false
    → distinct (a ++ (epsilon ∷ [])) ≡ true
unfolding kind_eq
distinct-snoc_epsilon a d h = distinct-snoc a epsilon d (elim (Bool-cases (found epsilon a)) [
  | inl k ↦ let e : first_set_contains_epsilon a ≡ true = found-epsilon epsilon a refl k in cc
  | inr k ↦ k
])

distinct-with_epsilon :
    (a : List FirstElement) → distinct a ≡ true → distinct (with_epsilon a) ≡ true
unfolding with_epsilon
distinct-with_epsilon a d = ground (arith, d, distinct-snoc_epsilon a d)

distinct_one : (x : FirstElement) → distinct (x ∷ []) ≡ true
unfolding distinct found
distinct_one x = refl

distinct_none : distinct [] ≡ true
unfolding distinct
distinct_none = refl

contains_epsilon_none : first_set_contains_epsilon [] ≡ false
unfolding first_set_contains_epsilon
contains_epsilon_none = refl

module _ (t : Terminals) (ps : Productions)
    (hp : (n : Text) → distinct (first_entry (find n ps)) ≡ true) where
  mutual
    unfolding first_of

    pub distinct-first_of : (e : PegExpr) → distinct (first_of t ps e) ≡ true
    distinct-first_of (literal v) = distinct_one _
    distinct-first_of (rule_call n args) =
        ground
          (arith, hp n, distinct_one (element charset_kind n), distinct_one (element token_kind n))
    distinct-first_of (sequence es) =
        distinct-first_sequence es [] distinct_none contains_epsilon_none
    distinct-first_of (choice es) = distinct-first_choice es [] distinct_none
    distinct-first_of (star e) = distinct-with_epsilon _ (distinct-first_of e)
    distinct-first_of (plus e) = distinct-first_of e
    distinct-first_of (optional e) = distinct-with_epsilon _ (distinct-first_of e)
    distinct-first_of (group e) = distinct-first_of e
    distinct-first_of any_expr = distinct_one _
    distinct-first_of (charset_ref n) = distinct_one _
    distinct-first_of (token_ref n) = distinct_one _
    distinct-first_of (resolver c e) = distinct-first_of e
    distinct-first_of (char_range from to) = distinct_one _
    distinct-first_of (and_expr e) = distinct_one _
    distinct-first_of (not_expr e) = distinct_one _
    distinct-first_of (action c) = distinct_one _

    distinct-first_sequence :
        (es : PegExprs) (r : List FirstElement)
        → distinct r ≡ true
        → first_set_contains_epsilon r ≡ false
        → distinct (first_sequence t ps es r) ≡ true
    distinct-first_sequence no_exprs r d h = distinct-snoc_epsilon r d h
    distinct-first_sequence (exprs e es) r d h =
        let wider : distinct (first_set_union r (first_of t ps e) false) ≡ true =
          distinct-union r (first_of t ps e) false d in
        let none_in : first_set_contains_epsilon (first_set_union r (first_of t ps e) false)
            ≡ false =
          ground (arith, h, contains_epsilon-union r (first_of t ps e) false) in
        ground (arith, wider, distinct-first_sequence es _ wider none_in)

    distinct-first_choice :
        (es : PegExprs) (r : List FirstElement)
        → distinct r ≡ true
        → distinct (first_choice t ps es r) ≡ true
    distinct-first_choice no_exprs r d = d
    distinct-first_choice (exprs e es) r d =
        distinct-first_choice es _ (distinct-union r (first_of t ps e) true d)
