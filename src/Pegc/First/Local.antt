-- ===== src/Pegc/First/Local.antt =====
-- nullable_of and first_of of pegc/frontend/PegAnalysis.cpp, and the productions that are
-- called.
use bbq.Base.{◌≡◌, refl, ap, inl, inr, true, false, List, [], arith, Bool-cases, or_left, or_right}
use bbq.Pegc.Names.{Text, count, text_eq_self}
use bbq.Pegc.Ast.{
  PegExpr, literal, char_range, charset_ref, token_ref, rule_call, sequence, choice, star, plus,
  optional, and_expr, not_expr, group, action, resolver, any_expr, PegExprs, no_exprs, exprs,
  FirstElement,
}
use bbq.Pegc.Sets.{first_set_union}
use bbq.Pegc.First.{
  Productions, find, Terminals, nullable_entry, first_entry, nullable_of, nullable_all,
  nullable_some, with_epsilon, first_of, first_sequence, first_choice,
}
use bbq.Pegc.Collect.Calls.{calls, calls_any}

-- Two tables have the same set and the same mark for a name.
abbrev pub Agree : Productions → Productions → Text → Type 0
Agree ps qs n =
    (nullable_entry (find n ps) ≡ nullable_entry (find n qs))
    × (first_entry (find n ps) ≡ first_entry (find n qs))

module _ (t : Terminals) (ps qs : Productions) where
  rule_same :
      (n args : Text)
      → ((m : Text) → calls t m (rule_call n args) ≡ true → Agree ps qs m)
      → (nullable_of t ps (rule_call n args) ≡ nullable_of t qs (rule_call n args))
        × (first_of t ps (rule_call n args) ≡ first_of t qs (rule_call n args))
  unfolding nullable_of first_of calls
  rule_same n args h = elim (Bool-cases (count n t.charset_names)) [
    | inl k ↦ rw (k) (refl, refl)
    | inr k ↦ elim (Bool-cases (count n t.token_names)) [
      | inl l ↦ rw (k, l) (refl, refl)
      | inr l ↦
          let same : Agree ps qs n = h n (ground (arith, k, l, text_eq_self n)) in rw (k, l) same
    ]
  ]

  mutual
    unfolding nullable_of first_of calls

    nullable_same :
        (e : PegExpr)
        → ((n : Text) → calls t n e ≡ true → Agree ps qs n)
        → nullable_of t ps e ≡ nullable_of t qs e
    nullable_same (rule_call n args) h = (rule_same n args h).0
    nullable_same (sequence es) h = nullable_all_same es h
    nullable_same (choice es) h = nullable_some_same es h
    nullable_same (plus e) h = nullable_same e h
    nullable_same (group e) h = nullable_same e h
    nullable_same (resolver c e) h = nullable_same e h
    nullable_same (literal v) h = refl
    nullable_same (charset_ref n) h = refl
    nullable_same (token_ref n) h = refl
    nullable_same any_expr h = refl
    nullable_same (star e) h = refl
    nullable_same (optional e) h = refl
    nullable_same (char_range from to) h = refl
    nullable_same (and_expr e) h = refl
    nullable_same (not_expr e) h = refl
    nullable_same (action c) h = refl

    nullable_all_same :
        (es : PegExprs)
        → ((n : Text) → calls_any t n es ≡ true → Agree ps qs n)
        → nullable_all t ps es ≡ nullable_all t qs es
    nullable_all_same no_exprs h = refl
    nullable_all_same (exprs e es) h =
        rw
          (
            nullable_same e (λ n k. h n (or_left _ _ k)),
            nullable_all_same es (λ n k. h n (or_right _ _ k)),
          )
          refl

    nullable_some_same :
        (es : PegExprs)
        → ((n : Text) → calls_any t n es ≡ true → Agree ps qs n)
        → nullable_some t ps es ≡ nullable_some t qs es
    nullable_some_same no_exprs h = refl
    nullable_some_same (exprs e es) h =
        rw
          (
            nullable_same e (λ n k. h n (or_left _ _ k)),
            nullable_some_same es (λ n k. h n (or_right _ _ k)),
          )
          refl

  mutual
    unfolding first_of calls

    first_same :
        (e : PegExpr)
        → ((n : Text) → calls t n e ≡ true → Agree ps qs n)
        → first_of t ps e ≡ first_of t qs e
    first_same (rule_call n args) h = (rule_same n args h).1
    first_same (sequence es) h = first_sequence_same es [] h
    first_same (choice es) h = first_choice_same es [] h
    first_same (star e) h = ap (λ s. with_epsilon s) (first_same e h)
    first_same (plus e) h = first_same e h
    first_same (optional e) h = ap (λ s. with_epsilon s) (first_same e h)
    first_same (group e) h = first_same e h
    first_same (resolver c e) h = first_same e h
    first_same (literal v) h = refl
    first_same any_expr h = refl
    first_same (charset_ref n) h = refl
    first_same (token_ref n) h = refl
    first_same (char_range from to) h = refl
    first_same (and_expr e) h = refl
    first_same (not_expr e) h = refl
    first_same (action c) h = refl

    first_sequence_same :
        (es : PegExprs) (r : List FirstElement)
        → ((n : Text) → calls_any t n es ≡ true → Agree ps qs n)
        → first_sequence t ps es r ≡ first_sequence t qs es r
    first_sequence_same no_exprs r h = refl
    first_sequence_same (exprs e es) r h =
        let f : first_of t ps e ≡ first_of t qs e = first_same e (λ n k. h n (or_left _ _ k)) in
        let n : nullable_of t ps e ≡ nullable_of t qs e =
          nullable_same e (λ n k. h n (or_left _ _ k)) in
        rw
          (
            f,
            n,
            first_sequence_same es (first_set_union r (first_of t qs e) false)
                (λ n k. h n (or_right _ _ k)),
          )
          refl

    first_choice_same :
        (es : PegExprs) (r : List FirstElement)
        → ((n : Text) → calls_any t n es ≡ true → Agree ps qs n)
        → first_choice t ps es r ≡ first_choice t qs es r
    first_choice_same no_exprs r h = refl
    first_choice_same (exprs e es) r h =
        let f : first_of t ps e ≡ first_of t qs e = first_same e (λ n k. h n (or_left _ _ k)) in
        rw
          (
            f,
            first_choice_same es (first_set_union r (first_of t qs e) true)
                (λ n k. h n (or_right _ _ k)),
          )
          refl

-- Two tables that agree at every production that an expression calls give it the same FIRST set
-- and the same answer of nullable_of.
pub first_of_local :
    (t : Terminals) (ps qs : Productions) (e : PegExpr)
    → ((n : Text) → calls t n e ≡ true → Agree ps qs n)
    → (first_of t ps e ≡ first_of t qs e) × (nullable_of t ps e ≡ nullable_of t qs e)
first_of_local t ps qs e h = (first_same t ps qs e h, nullable_same t ps qs e h)
