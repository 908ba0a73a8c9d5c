-- ===== src/Pegc/First/Grow.antt =====
-- The FIRST sets of pegc/frontend/PegAnalysis.cpp over tables that grow.
use bbq.Base.{
  ◌≡◌, refl, sym, ap, ◌∙◌, inl, inr, true, List, [], ◌∷◌, arith, Bool-cases, or_left, or_right,
  and_both, and_parts, or_cases,
}
use bbq.Pegc.Names.{Text}
use bbq.Pegc.Ast.{
  PegExpr, literal, char_range, charset_ref, token_ref, rule_call, sequence, choice, star, plus,
  optional, and_expr, not_expr, group, action, resolver, any_expr, PegExprs, no_exprs, exprs,
  FirstElement, epsilon,
}
use bbq.Pegc.Sets.{first_element_eq, is_epsilon, found, first_set_contains_epsilon}
use bbq.Pegc.Sets.Laws.{first_element_eq_self}
use bbq.Pegc.First.{
  Productions, find, Terminals, nullable_entry, first_entry, nullable_of, nullable_all,
  nullable_some, first_of,
}
use bbq.Pegc.First.Laws.{found-epsilon, IsConsistent, nullable_of_lem}
use bbq.Pegc.First.Starts.{starts, starts_sequence, starts_choice, first_of_lem}
use bbq.Pegc.First.Bound.{IsWithin}

-- What holds of the table holds of a later one.
module _ (t : Terminals) (ps qs : Productions)
    (hn : (n : Text) → nullable_entry (find n ps) ≡ true → nullable_entry (find n qs) ≡ true)
    (hf : (n : Text) (x : FirstElement)
      → found x (first_entry (find n ps)) ≡ true
      → found x (first_entry (find n qs)) ≡ true) where
  mutual
    unfolding nullable_of

    nullable_of_grow : (e : PegExpr) → nullable_of t ps e ≡ true → nullable_of t qs e ≡ true
    nullable_of_grow (rule_call n args) h = ground (arith, h, hn n)
    nullable_of_grow (sequence es) h = nullable_all_grow es h
    nullable_of_grow (choice es) h = nullable_some_grow es h
    nullable_of_grow (plus e) h = nullable_of_grow e h
    nullable_of_grow (group e) h = nullable_of_grow e h
    nullable_of_grow (resolver c e) h = nullable_of_grow e h
    nullable_of_grow (literal v) h = h
    nullable_of_grow (charset_ref n) h = h
    nullable_of_grow (token_ref n) h = h
    nullable_of_grow any_expr h = h
    nullable_of_grow (star e) h = refl
    nullable_of_grow (optional e) h = refl
    nullable_of_grow (char_range from to) h = refl
    nullable_of_grow (and_expr e) h = refl
    nullable_of_grow (not_expr e) h = refl
    nullable_of_grow (action c) h = refl

    nullable_all_grow : (es : PegExprs) → nullable_all t ps es ≡ true → nullable_all t qs es ≡ true
    nullable_all_grow no_exprs h = refl
    nullable_all_grow (exprs e es) h =
        and_both _ _ (nullable_of_grow e (and_parts _ _ h).0)
          (nullable_all_grow es (and_parts _ _ h).1)

    nullable_some_grow :
        (es : PegExprs) → nullable_some t ps es ≡ true → nullable_some t qs es ≡ true
    nullable_some_grow no_exprs h = h
    nullable_some_grow (exprs e es) h = elim (or_cases _ _ h) [
      | inl k ↦ or_left _ _ (nullable_of_grow e k)
      | inr k ↦ or_right _ _ (nullable_some_grow es k)
    ]

  mutual
    unfolding starts

    starts_grow : (x : FirstElement) (e : PegExpr) → starts t ps x e ≡ true → starts t qs x e ≡ true
    starts_grow x (rule_call n args) h = ground (arith, h, hf n x)
    starts_grow x (sequence es) h = starts_sequence_grow x es h
    starts_grow x (choice es) h = starts_choice_grow x es h
    starts_grow x (star e) h = starts_grow x e h
    starts_grow x (plus e) h = starts_grow x e h
    starts_grow x (optional e) h = starts_grow x e h
    starts_grow x (group e) h = starts_grow x e h
    starts_grow x (resolver c e) h = starts_grow x e h
    starts_grow x (literal v) h = h
    starts_grow x (charset_ref n) h = h
    starts_grow x (token_ref n) h = h
    starts_grow x any_expr h = h
    starts_grow x (char_range from to) h = h
    starts_grow x (and_expr e) h = h
    starts_grow x (not_expr e) h = h
    starts_grow x (action c) h = h

    starts_sequence_grow :
        (x : FirstElement) (es : PegExprs)
        → starts_sequence t ps x es ≡ true
        → starts_sequence t qs x es ≡ true
    starts_sequence_grow x no_exprs h = h
    starts_sequence_grow x (exprs e es) h = elim (or_cases _ _ h) [
      | inl k ↦ or_left _ _ (starts_grow x e k)
      | inr k ↦ or_right _ _ (
          and_both _ _ (nullable_of_grow e (and_parts _ _ k).0)
            (starts_sequence_grow x es (and_parts _ _ k).1))
    ]

    starts_choice_grow :
        (x : FirstElement) (es : PegExprs)
        → starts_choice t ps x es ≡ true
        → starts_choice t qs x es ≡ true
    starts_choice_grow x no_exprs h = h
    starts_choice_grow x (exprs e es) h = elim (or_cases _ _ h) [
      | inl k ↦ or_left _ _ (starts_grow x e k)
      | inr k ↦ or_right _ _ (starts_choice_grow x es k)
    ]

-- The one epsilon of a set in which no other stands.
abbrev pub IsPlain : List FirstElement → Type 0
IsPlain u = (x : FirstElement) → found x u ≡ true → is_epsilon x ≡ true → x ≡ epsilon

contains_epsilon-found :
    (a u : List FirstElement)
    → IsWithin a u
    → IsPlain u
    → first_set_contains_epsilon a ≡ true
    → found epsilon a ≡ true
unfolding first_set_contains_epsilon found
contains_epsilon-found [] u w p h = cc
contains_epsilon-found (x ∷ a) u w p h = elim (or_cases _ _ h) [
  | inl k ↦
      let here : found x u ≡ true = w x (or_left _ _ (first_element_eq_self x)) in
      or_left _ _
        (ap (λ y. first_element_eq epsilon y) (p x here k) ∙ first_element_eq_self epsilon)
  | inr k ↦ or_right _ _ (contains_epsilon-found a u (λ y m. w y (or_right _ _ m)) p k)
]

-- A FIRST set grows where the table's sets do.
pub first_of_grow :
    (t : Terminals) (ps qs : Productions) (u : List FirstElement) (e : PegExpr)
    → ((n : Text) → nullable_entry (find n ps) ≡ true → nullable_entry (find n qs) ≡ true)
    → ((n : Text) → IsWithin (first_entry (find n ps)) (first_entry (find n qs)))
    → IsConsistent ps
    → IsConsistent qs
    → IsPlain u
    → IsWithin (first_of t ps e) u
    → IsWithin (first_of t qs e) u
    → IsWithin (first_of t ps e) (first_of t qs e)
first_of_grow t ps qs u e hn hf cp cq plain wp wq x h = elim (Bool-cases (is_epsilon x)) [
  | inl k ↦
      let e' : x ≡ epsilon = plain x (wp x h) k in
      let before : nullable_of t ps e ≡ true =
        nullable_of_lem t ps cp e ∙ found-epsilon x (first_of t ps e) k h in
      let after : first_set_contains_epsilon (first_of t qs e) ≡ true =
        sym (nullable_of_lem t qs cq e) ∙ nullable_of_grow t ps qs hn hf e before in
      ap (λ y. found y (first_of t qs e)) e'
      ∙ contains_epsilon-found (first_of t qs e) u wq plain after
  | inr k ↦
      first_of_lem t qs x k e ∙ starts_grow t ps qs hn hf x e (sym (first_of_lem t ps x k e) ∙ h)
]
