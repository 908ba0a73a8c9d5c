-- ===== src/Pegc/Follow/Ends.antt =====
-- The rounds of compute_follow_sets of pegc/frontend/PegAnalysis.cpp.
use bbq.Base.{
  ◌≡◌, refl, sym, subst, inl, inr, Bool, true, false, ◌||◌, List, [], ◌∷◌, arith, if◌then◌else◌,
  Bool-cases, Option-cases,
}
use bbq.Pegc.Names.{Text, count}
use bbq.Pegc.Ast.{
  PegExpr, literal, char_range, charset_ref, token_ref, rule_call, sequence, choice, star, plus,
  optional, and_expr, not_expr, group, action, resolver, any_expr, PegExprs, no_exprs, exprs,
  FirstElement, epsilon,
}
use bbq.Pegc.Sets.{first_set_eq, first_set_union}
use bbq.Pegc.First.{Productions, find, Terminals, nullable_of, first_of}
use bbq.Pegc.First.Bound.{
  terminals_of, all_terminals, IsWithin, IsWithin-union, IsWithin-left, IsWithin-right,
  IsWithin-none, IsWithin-if, IsWithin-first_of,
}
use bbq.Pegc.Warnings.{suffix_first}
use bbq.Pegc.Kildall.{FirstState}
use bbq.Pegc.Follow.{
  follow_entry, follow_call, element_tail, repeated_tail, walk_for_follow, walk_sequence,
  walk_choice,
}
use bbq.Pegc.Follow.Walk.{call_terminal, call_undeclared, call_known}
use bbq.Pegc.Follow.Size.{IsLimited, Limits, set_follow-Limits}

module _ (t : Terminals) (u : List FirstElement) (he : IsWithin (epsilon ∷ []) u) where
  suffix-IsWithin :
      (ps : Productions) (es : PegExprs) (sf : List FirstElement)
      → IsLimited t u ps
      → IsWithin (all_terminals t es) u
      → IsWithin sf u
      → IsWithin (suffix_first t ps es sf).0 u
  unfolding suffix_first terminals_of
  suffix-IsWithin ps no_exprs sf h w k = k
  suffix-IsWithin ps (exprs e es) sf h w k =
      let wider : IsWithin (first_set_union sf (first_of t ps e) false) u =
        IsWithin-union sf (first_of t ps e) u false k
          (IsWithin-first_of t ps u he h.firsts e (IsWithin-left _ (all_terminals t es) u w)) in
      either (nullable_of t ps e) _ _
        (suffix-IsWithin ps es _ h (IsWithin-right (terminals_of t e) _ u w) wider) wider
    where
      either :
          (b : Bool) (x y : List FirstElement × Bool)
          → IsWithin x.0 u
          → IsWithin y.0 u
          → IsWithin (if b then x else y).0 u
      either true x y a c = a
      either false x y a c = c

  tail-IsWithin :
      (owner : Text) (es : PegExprs) (tail : List FirstElement) (s : FirstState)
      → IsLimited t u s.productions
      → IsWithin (all_terminals t es) u
      → IsWithin tail u
      → IsWithin (element_tail t owner es tail s) u
  unfolding element_tail
  tail-IsWithin owner es tail s h w k =
      let sf : IsWithin (suffix_first t s.productions es []).0 u =
        suffix-IsWithin s.productions es [] h w (IsWithin-none u) in
      IsWithin-if (suffix_first t s.productions es []).1 _ _ u
        (IsWithin-union _ (follow_entry (find owner s.productions)) u false
          (IsWithin-union _ tail u false sf k) (h.follows owner))
        sf

  repeated-IsWithin :
      (e : PegExpr) (tail : List FirstElement) (s : FirstState)
      → IsLimited t u s.productions
      → IsWithin (terminals_of t e) u
      → IsWithin tail u
      → IsWithin (repeated_tail t e tail s) u
  unfolding repeated_tail
  repeated-IsWithin e tail s h w k =
      IsWithin-union _ tail u false
        (IsWithin-union [] _ u false (IsWithin-none u)
          (IsWithin-first_of t s.productions u he h.firsts e w))
        k

  same-Limits : (s : FirstState) → IsLimited t u s.productions → Limits t u s s
  same-Limits s h = (h, omega arith)

  call-Limits :
      (n : Text) (tail : List FirstElement) (s : FirstState)
      → IsLimited t u s.productions
      → IsWithin tail u
      → Limits t u s (follow_call t n tail s)
  call-Limits n tail s h w = elim (Bool-cases (count n t.charset_names || count n t.token_names)) [
    | inl k ↦ subst (λ r. Limits t u s r) (sym (call_terminal t n tail s k)) (same-Limits s h)
    | inr k ↦ elim (Option-cases (find n s.productions)) [
      | inl e ↦ subst (λ r. Limits t u s r) (sym (call_undeclared t n tail s k e)) (same-Limits s h)
      | inr e ↦
          subst (λ r. Limits t u s r) (sym (call_known t n tail s e.0 k e.1))
            (either (first_set_eq (first_set_union e.0.follow_set tail false) e.0.follow_set) _
              (set_follow-Limits t u n tail s e.0 e.1 w h))
    ]
  ]
    where
      either :
          (b : Bool) (r : FirstState)
          → (b ≡ false → Limits t u s r)
          → Limits t u s (if b then s else r)
      either true r f = same-Limits s h
      either false r f = f refl

  mutual
    unfolding walk_for_follow terminals_of

    pub walk-Limits :
        (owner : Text) (e : PegExpr) (tail : List FirstElement) (s : FirstState)
        → IsLimited t u s.productions
        → IsWithin (terminals_of t e) u
        → IsWithin tail u
        → Limits t u s (walk_for_follow t owner e tail s)
    walk-Limits owner (rule_call n args) tail s h w k = call-Limits n tail s h k
    walk-Limits owner (sequence es) tail s h w k = walk_sequence-Limits owner es tail s h w k
    walk-Limits owner (choice es) tail s h w k = walk_choice-Limits owner es tail s h w k
    walk-Limits owner (group e) tail s h w k = walk-Limits owner e tail s h w k
    walk-Limits owner (resolver c e) tail s h w k = walk-Limits owner e tail s h w k
    walk-Limits owner (optional e) tail s h w k = walk-Limits owner e tail s h w k
    walk-Limits owner (star e) tail s h w k =
        walk-Limits owner e (repeated_tail t e tail s) s h w (repeated-IsWithin e tail s h w k)
    walk-Limits owner (plus e) tail s h w k =
        walk-Limits owner e (repeated_tail t e tail s) s h w (repeated-IsWithin e tail s h w k)
    walk-Limits owner (and_expr e) tail s h w k = walk-Limits owner e [] s h w (IsWithin-none u)
    walk-Limits owner (not_expr e) tail s h w k = walk-Limits owner e [] s h w (IsWithin-none u)
    walk-Limits owner (literal v) tail s h w k = same-Limits s h
    walk-Limits owner (char_range a b) tail s h w k = same-Limits s h
    walk-Limits owner (charset_ref n) tail s h w k = same-Limits s h
    walk-Limits owner (token_ref n) tail s h w k = same-Limits s h
    walk-Limits owner (action c) tail s h w k = same-Limits s h
    walk-Limits owner any_expr tail s h w k = same-Limits s h

    walk_sequence-Limits :
        (owner : Text) (es : PegExprs) (tail : List FirstElement) (s : FirstState)
        → IsLimited t u s.productions
        → IsWithin (all_terminals t es) u
        → IsWithin tail u
        → Limits t u s (walk_sequence t owner es tail s)
    walk_sequence-Limits owner no_exprs tail s h w k = same-Limits s h
    walk_sequence-Limits owner (exprs e es) tail s h w k =
        let rest : IsWithin (all_terminals t es) u = IsWithin-right (terminals_of t e) _ u w in
        let m : FirstState = walk_for_follow t owner e (element_tail t owner es tail s) s in
        let a : Limits t u s m =
          walk-Limits owner e (element_tail t owner es tail s) s h
            (IsWithin-left _ (all_terminals t es) u w) (tail-IsWithin owner es tail s h rest k) in
        let b : Limits t u m (walk_sequence t owner es tail m) =
          walk_sequence-Limits owner es tail m a.0 rest k in
        (b.0, omega (arith, a.1, b.1))

    walk_choice-Limits :
        (owner : Text) (es : PegExprs) (tail : List FirstElement) (s : FirstState)
        → IsLimited t u s.productions
        → IsWithin (all_terminals t es) u
        → IsWithin tail u
        → Limits t u s (walk_choice t owner es tail s)
    walk_choice-Limits owner no_exprs tail s h w k = same-Limits s h
    walk_choice-Limits owner (exprs e es) tail s h w k =
        let m : FirstState = walk_for_follow t owner e tail s in
        let a : Limits t u s m =
          walk-Limits owner e tail s h (IsWithin-left _ (all_terminals t es) u w) k in
        let b : Limits t u m (walk_choice t owner es tail m) =
          walk_choice-Limits owner es tail m a.0 (IsWithin-right (terminals_of t e) _ u w) k in
        (b.0, omega (arith, a.1, b.1))
