-- ===== src/Pegc/Sets.antt =====
-- The helpers on FIRST sets of pegc/frontend/PegAnalysis.cpp.
use bbq.Base.{
  ℕ, zero, suc, ◌+◌, ◌-◌, ◌*◌, ◌≤◌, ◌<◌, ◌≡◌, refl, sym, ap, ◌∙◌, subst, ◌≢◌, ◌↔◌, ◌⊎◌, inl, inr,
  Bool, true, false, not, ◌&&◌, ◌||◌, Option, none, some, List, [], ◌∷◌, ◌++◌, arith, ltb, leb,
  ◌==◌, if◌then◌else◌, ltb→lt, lt→ltb, leb→le, ==_iff, tests, Bool-cases, Answered, by_answer,
  or_left, or_right, and_both, or_parts, and_parts, or_cases, or_swap, when_true, when_false,
  true-false, none-some, Bool_same, some_same, Option-cases, if_true, if_false, length,
  length-append,
}
use bbq.Pegc.Names.{
  Text, text_eq, text_lt, count, insert, erase, unrepeated, text_eq_self, text_eq-same, text_eq_iff,
  text_eq_comm, count-insert, count-append, count-erase, count-eq, unrepeated-snoc,
}
use bbq.Pegc.Ast.{
  PegExpr, literal, char_range, charset_ref, token_ref, rule_call, sequence, choice, star, plus,
  optional, and_expr, not_expr, group, action, resolver, any_expr, PegExprs, no_exprs, exprs,
  Production, Kind, literal_kind, charset_kind, token_kind, any_kind, epsilon_kind, FirstElement,
  element, epsilon,
}
pub mod Laws
pub mod Distinct

unfoldable pub kind_eq : Kind → Kind → Bool
kind_eq literal_kind literal_kind = true
kind_eq charset_kind charset_kind = true
kind_eq token_kind token_kind = true
kind_eq any_kind any_kind = true
kind_eq epsilon_kind epsilon_kind = true
kind_eq _ _ = false

unfoldable pub first_element_eq : FirstElement → FirstElement → Bool
first_element_eq a b = kind_eq a.kind b.kind && text_eq a.value b.value

abbrev pub is_epsilon : FirstElement → Bool
is_epsilon e = kind_eq e.kind epsilon_kind

-- The loop that looks for an element: `for (auto& y : b) if (first_element_eq(x, y)) ...`.
unfoldable pub found : FirstElement → List FirstElement → Bool
found x [] = false
found x (y ∷ b) = first_element_eq x y || found x b

-- Every element of `a` is in `b`.
unfoldable pub all_found : List FirstElement → List FirstElement → Bool
all_found [] b = true
all_found (x ∷ a) b = found x b && all_found a b

unfoldable pub first_set_eq : List FirstElement → List FirstElement → Bool
first_set_eq a b = (length a == length b) && all_found a b

unfoldable pub first_set_union : List FirstElement → List FirstElement → Bool → List FirstElement
first_set_union dest [] include_epsilon = dest
first_set_union dest (e ∷ src) include_epsilon =
    if not include_epsilon && is_epsilon e
    then first_set_union dest src include_epsilon
    else (if found e dest
        then first_set_union dest src include_epsilon
        else first_set_union (dest ++ (e ∷ [])) src include_epsilon)

unfoldable pub first_set_contains_epsilon : List FirstElement → Bool
first_set_contains_epsilon [] = false
first_set_contains_epsilon (e ∷ s) = is_epsilon e || first_set_contains_epsilon s

unfoldable pub first_set_without_epsilon : List FirstElement → List FirstElement
first_set_without_epsilon [] = []
first_set_without_epsilon (e ∷ s) =
    let rest = first_set_without_epsilon s in if is_epsilon e then rest else e ∷ rest

unfoldable pub first_set_subsumes : List FirstElement → List FirstElement → Bool
first_set_subsumes a [] = true
first_set_subsumes a (y ∷ b) = (is_epsilon y || found y a) && first_set_subsumes a b

-- `.empty()`
unfoldable pub is_none : List FirstElement → Bool
is_none [] = true
is_none (e ∷ s) = false
