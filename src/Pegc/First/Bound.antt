-- ===== src/Pegc/First/Bound.antt =====
-- The elements of the FIRST sets of pegc/frontend/PegAnalysis.cpp, and the terminals of the
-- grammar.
use bbq.Base.{
  ◌≡◌, sym, ◌∙◌, inl, inr, Bool, true, false, List, [], ◌∷◌, ◌++◌, arith, if◌then◌else◌, or_left,
  or_right, and_parts, or_cases,
}
use bbq.Pegc.Names.{Text, count}
use bbq.Pegc.Ast.{
  PegExpr, literal, char_range, charset_ref, token_ref, rule_call, sequence, choice, star, plus,
  optional, and_expr, not_expr, group, action, resolver, any_expr, PegExprs, no_exprs, exprs,
  literal_kind, charset_kind, token_kind, any_kind, FirstElement, element, epsilon,
}
use bbq.Pegc.Sets.{found, first_set_union, first_set_contains_epsilon}
use bbq.Pegc.Sets.Laws.{found-append, found-union}
use bbq.Pegc.First.{
  Productions, find, Terminals, first_entry, nullable_of, with_epsilon, first_of, first_sequence,
  first_choice,
}

-- The terminals that stand in an expression.
unfoldable mutual
  pub terminals_of : Terminals → PegExpr → List FirstElement
  terminals_of t (literal v) = element literal_kind v ∷ []
  terminals_of t (charset_ref n) = element charset_kind n ∷ []
  terminals_of t (token_ref n) = element token_kind n ∷ []
  terminals_of t any_expr = element any_kind [] ∷ []
  terminals_of t (rule_call n args) =
      if count n t.charset_names
      then element charset_kind n ∷ []
      else (if count n t.token_names then element token_kind n ∷ [] else [])
  terminals_of t (sequence es) = all_terminals t es
  terminals_of t (choice es) = all_terminals t es
  terminals_of t (star e) = terminals_of t e
  terminals_of t (plus e) = terminals_of t e
  terminals_of t (optional e) = terminals_of t e
  terminals_of t (group e) = terminals_of t e
  terminals_of t (resolver c e) = terminals_of t e
  terminals_of t (and_expr e) = terminals_of t e
  terminals_of t (not_expr e) = terminals_of t e
  terminals_of t _ = []

  pub all_terminals : Terminals → PegExprs → List FirstElement
  all_terminals t no_exprs = []
  all_terminals t (exprs e es) = terminals_of t e ++ all_terminals t es

-- Inclusion of sets.
abbrev pub IsWithin : List FirstElement → List FirstElement → Type 0
IsWithin a b = (x : FirstElement) → found x a ≡ true → found x b ≡ true

pub IsWithin-union :
    (a b u : List FirstElement) (inc : Bool)
    → IsWithin a u
    → IsWithin b u
    → IsWithin (first_set_union a b inc) u
IsWithin-union a b u inc ha hb x h = elim (or_cases _ _ (sym (found-union x a b inc) ∙ h)) [
  | inl k ↦ ha x k
  | inr k ↦ hb x (and_parts _ _ k).0
]

pub IsWithin-append :
    (a b u : List FirstElement) → IsWithin a u → IsWithin b u → IsWithin (a ++ b) u
IsWithin-append a b u ha hb x h = elim (or_cases _ _ (sym (found-append x a b) ∙ h)) [
  | inl k ↦ ha x k
  | inr k ↦ hb x k
]

pub IsWithin-left : (a b u : List FirstElement) → IsWithin (a ++ b) u → IsWithin a u
IsWithin-left a b u h x k = h x (found-append x a b ∙ or_left _ _ k)

pub IsWithin-right : (a b u : List FirstElement) → IsWithin (a ++ b) u → IsWithin b u
IsWithin-right a b u h x k = h x (found-append x a b ∙ or_right _ _ k)

pub IsWithin-none : (u : List FirstElement) → IsWithin [] u
unfolding found
IsWithin-none u x h = cc

pub IsWithin-if :
    (b : Bool) (a c u : List FirstElement)
    → IsWithin a u
    → IsWithin c u
    → IsWithin (if b then a else c) u
IsWithin-if true a c u ha hc = ha
IsWithin-if false a c u ha hc = hc

IsWithin-with_epsilon :
    (a u : List FirstElement)
    → IsWithin (epsilon ∷ []) u
    → IsWithin a u
    → IsWithin (with_epsilon a) u
unfolding with_epsilon
IsWithin-with_epsilon a u he ha =
    IsWithin-if (first_set_contains_epsilon a) a (a ++ (epsilon ∷ [])) u ha
      (IsWithin-append a (epsilon ∷ []) u ha he)

module _ (t : Terminals) (ps : Productions) (u : List FirstElement) (he : IsWithin (epsilon ∷ []) u)
    (hp : (n : Text) → IsWithin (first_entry (find n ps)) u) where
  IsWithin-rule :
      (n args : Text)
      → IsWithin (terminals_of t (rule_call n args)) u
      → IsWithin (first_of t ps (rule_call n args)) u
  unfolding first_of terminals_of
  IsWithin-rule n args h x m = ground (arith, h x, m, hp n x)

  mutual
    unfolding first_of terminals_of

    pub IsWithin-first_of :
        (e : PegExpr) → IsWithin (terminals_of t e) u → IsWithin (first_of t ps e) u
    IsWithin-first_of (literal v) h = h
    IsWithin-first_of (rule_call n args) h = IsWithin-rule n args h
    IsWithin-first_of (sequence es) h = IsWithin-first_sequence es [] h (IsWithin-none u)
    IsWithin-first_of (choice es) h = IsWithin-first_choice es [] h (IsWithin-none u)
    IsWithin-first_of (star e) h = IsWithin-with_epsilon _ u he (IsWithin-first_of e h)
    IsWithin-first_of (plus e) h = IsWithin-first_of e h
    IsWithin-first_of (optional e) h = IsWithin-with_epsilon _ u he (IsWithin-first_of e h)
    IsWithin-first_of (group e) h = IsWithin-first_of e h
    IsWithin-first_of any_expr h = h
    IsWithin-first_of (charset_ref n) h = h
    IsWithin-first_of (token_ref n) h = h
    IsWithin-first_of (resolver c e) h = IsWithin-first_of e h
    IsWithin-first_of (char_range from to) h = he
    IsWithin-first_of (and_expr e) h = he
    IsWithin-first_of (not_expr e) h = he
    IsWithin-first_of (action c) h = he

    IsWithin-first_sequence :
        (es : PegExprs) (r : List FirstElement)
        → IsWithin (all_terminals t es) u
        → IsWithin r u
        → IsWithin (first_sequence t ps es r) u
    IsWithin-first_sequence no_exprs r h k = IsWithin-append r (epsilon ∷ []) u k he
    IsWithin-first_sequence (exprs e es) r h k =
        let wider : IsWithin (first_set_union r (first_of t ps e) false) u =
          IsWithin-union r (first_of t ps e) u false k
            (IsWithin-first_of e (IsWithin-left _ (all_terminals t es) u h)) in
        IsWithin-if (nullable_of t ps e) _ _ u
          (IsWithin-first_sequence es _ (IsWithin-right (terminals_of t e) _ u h) wider) wider

    IsWithin-first_choice :
        (es : PegExprs) (r : List FirstElement)
        → IsWithin (all_terminals t es) u
        → IsWithin r u
        → IsWithin (first_choice t ps es r) u
    IsWithin-first_choice no_exprs r h k = k
    IsWithin-first_choice (exprs e es) r h k =
        IsWithin-first_choice es _ (IsWithin-right (terminals_of t e) _ u h) (
          IsWithin-union r (first_of t ps e) u true k
            (IsWithin-first_of e (IsWithin-left _ (all_terminals t es) u h)))
