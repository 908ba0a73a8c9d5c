-- ===== src/Pegc/First/Universe.antt =====
-- The terminals of a whole grammar: the elements that its FIRST sets of pegc/frontend/PegAnalysis.cpp
-- can have.
use bbq.Base.{
  ◌≡◌, refl, sym, ap, ◌∙◌, inl, inr, true, false, some, List, [], ◌∷◌, ◌++◌, arith, Bool-cases,
  or_left, or_right, or_cases, true-false, some_same, if_true, if_false,
}
use bbq.Pegc.Names.{Text, text_eq}
use bbq.Pegc.Ast.{
  PegExpr, literal, char_range, charset_ref, token_ref, rule_call, sequence, choice, star, plus,
  optional, and_expr, not_expr, group, action, resolver, any_expr, PegExprs, no_exprs, exprs, Kind,
  literal_kind, charset_kind, token_kind, any_kind, epsilon_kind, FirstElement, element, epsilon,
}
use bbq.Pegc.Sets.{kind_eq, first_element_eq, is_epsilon, found}
use bbq.Pegc.Sets.Laws.{first_element_eq-same, is_epsilon-eq, found-append}
use bbq.Pegc.First.{ProductionInfo, Productions, find, Terminals}
use bbq.Pegc.First.Bound.{terminals_of, all_terminals, IsWithin}
use bbq.Pegc.First.Grow.{IsPlain}

-- The terminals of all bodies.
unfoldable pub grammar_terminals : Terminals → Productions → List FirstElement
grammar_terminals t [] = []
grammar_terminals t (p ∷ ps) = terminals_of t p.body ++ grammar_terminals t ps

abbrev pub universe : Terminals → Productions → List FirstElement
universe t ps = epsilon ∷ grammar_terminals t ps

one_plain :
    (k : Kind) (v : Text) (x : FirstElement)
    → kind_eq k epsilon_kind ≡ false
    → found x (element k v ∷ []) ≡ true
    → is_epsilon x ≡ false
unfolding found
one_plain k v x a h = elim (or_cases _ _ h) [
  | inl e ↦ is_epsilon-eq x (element k v) e ∙ a
  | inr e ↦ absurd (true-false (sym e))
]

mutual
  unfolding terminals_of found first_element_eq kind_eq

  terminals_plain :
      (t : Terminals) (e : PegExpr) (x : FirstElement)
      → found x (terminals_of t e) ≡ true
      → is_epsilon x ≡ false
  terminals_plain t (literal v) x h = one_plain literal_kind v x refl h
  terminals_plain t (rule_call n args) x h =
      ground (arith, h, one_plain charset_kind n x refl, one_plain token_kind n x refl)
  terminals_plain t (sequence es) x h = all_terminals_plain t es x h
  terminals_plain t (choice es) x h = all_terminals_plain t es x h
  terminals_plain t (star e) x h = terminals_plain t e x h
  terminals_plain t (plus e) x h = terminals_plain t e x h
  terminals_plain t (optional e) x h = terminals_plain t e x h
  terminals_plain t (group e) x h = terminals_plain t e x h
  terminals_plain t any_expr x h = one_plain any_kind [] x refl h
  terminals_plain t (charset_ref n) x h = one_plain charset_kind n x refl h
  terminals_plain t (token_ref n) x h = one_plain token_kind n x refl h
  terminals_plain t (resolver c e) x h = terminals_plain t e x h
  terminals_plain t (char_range from to) x h = cc
  terminals_plain t (and_expr e) x h = terminals_plain t e x h
  terminals_plain t (not_expr e) x h = terminals_plain t e x h
  terminals_plain t (action c) x h = cc

  all_terminals_plain :
      (t : Terminals) (es : PegExprs) (x : FirstElement)
      → found x (all_terminals t es) ≡ true
      → is_epsilon x ≡ false
  all_terminals_plain t no_exprs x h = cc
  all_terminals_plain t (exprs e es) x h =
      elim (or_cases _ _ (sym (found-append x (terminals_of t e) (all_terminals t es)) ∙ h)) [
        | inl k ↦ terminals_plain t e x k
        | inr k ↦ all_terminals_plain t es x k
      ]

grammar_terminals_plain :
    (t : Terminals) (ps : Productions) (x : FirstElement)
    → found x (grammar_terminals t ps) ≡ true
    → is_epsilon x ≡ false
unfolding grammar_terminals found
grammar_terminals_plain t [] x h = cc
grammar_terminals_plain t (p ∷ ps) x h =
    elim (or_cases _ _
      (sym (found-append x (terminals_of t p.body) (grammar_terminals t ps)) ∙ h)) [
        | inl k ↦ terminals_plain t p.body x k
        | inr k ↦ grammar_terminals_plain t ps x k
      ]

pub universe-IsPlain : (t : Terminals) (ps : Productions) → IsPlain (universe t ps)
unfolding found
universe-IsPlain t ps x h e = elim (or_cases _ _ h) [
  | inl k ↦ first_element_eq-same x epsilon k
  | inr k ↦ absurd (true-false (sym e ∙ grammar_terminals_plain t ps x k))
]

pub epsilon-universe : (t : Terminals) (ps : Productions) → IsWithin (epsilon ∷ []) (universe t ps)
unfolding found
epsilon-universe t ps x h = elim (or_cases _ _ h) [
  | inl k ↦ or_left _ _ k
  | inr k ↦ absurd (true-false (sym k))
]

pub covered_body :
    (t : Terminals) (ps : Productions) (n : Text) (p : ProductionInfo)
    → find n ps ≡ some p
    → IsWithin (terminals_of t p.body) (grammar_terminals t ps)
unfolding find grammar_terminals
covered_body t [] n p h x k = absurd (no_entry h)
  where
    no_entry : find n [] ≡ some p → ⊥
    no_entry e = cc
covered_body t (q ∷ ps) n p h x k = elim (Bool-cases (text_eq n q.name)) [
  | inl e ↦
      let same : p ≡ q = some_same (sym h ∙ if_true _ _ _ e) in
      found-append x (terminals_of t q.body) (grammar_terminals t ps)
      ∙ or_left _ _ (sym (ap (λ (r : ProductionInfo). found x (terminals_of t r.body)) same) ∙ k)
  | inr e ↦
      found-append x (terminals_of t q.body) (grammar_terminals t ps)
      ∙ or_right _ _ (covered_body t ps n p (sym (if_false _ _ _ e) ∙ h) x k)
]
