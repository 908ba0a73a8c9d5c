-- ===== src/Pegc/Follow/Walk.antt =====
-- The table along a walk of walk_for_follow of pegc/frontend/PegAnalysis.cpp.
use bbq.Base.{
  ◌≡◌, sym, subst, inl, inr, Bool, true, false, ◌||◌, none, some, List, [], if◌then◌else◌,
  Bool-cases, Option-cases, if_true,
}
use bbq.Pegc.Names.{Text, count}
use bbq.Pegc.Ast.{
  PegExpr, literal, char_range, charset_ref, token_ref, rule_call, sequence, choice, star, plus,
  optional, and_expr, not_expr, group, action, resolver, any_expr, PegExprs, no_exprs, exprs,
  FirstElement,
}
use bbq.Pegc.Sets.{all_found, first_set_eq, first_set_union}
use bbq.Pegc.Sets.Distinct.{found-all_found}
use bbq.Pegc.First.{ProductionInfo, find, Terminals, first_of}
use bbq.Pegc.First.Local.{first_of_local}
use bbq.Pegc.Worklist.{push}
use bbq.Pegc.Kildall.{FirstState}
use bbq.Pegc.Follow.{
  set_follow, follow_entry, follow_call, element_tail, repeated_tail, walk_for_follow,
  walk_sequence, walk_choice,
}
use bbq.Pegc.Follow.Kept.{IsClean, IsKept, IsKept-same, IsKept-further, set_follow-IsKept}

abbrev Keeps : FirstState → FirstState → Type 0
Keeps s r = IsKept s.productions r.productions

module _ (t : Terminals) (n : Text) (tail : List FirstElement) (s : FirstState) where
  pub call_terminal :
      count n t.charset_names || count n t.token_names ≡ true → follow_call t n tail s ≡ s
  unfolding follow_call
  call_terminal h = if_true _ _ _ h

  pub call_undeclared :
      count n t.charset_names || count n t.token_names ≡ false
      → find n s.productions ≡ none
      → follow_call t n tail s ≡ s
  unfolding follow_call
  call_undeclared h e = cc

  pub call_known :
      (c : ProductionInfo)
      → count n t.charset_names || count n t.token_names ≡ false
      → find n s.productions ≡ some c
      → follow_call t n tail s ≡ (
          if first_set_eq (first_set_union c.follow_set tail false) c.follow_set
          then s
          else record {
            productions = set_follow n (first_set_union c.follow_set tail false) s.productions;
            worklist = (push s.worklist c.name).0;
          })
  unfolding follow_call
  call_known c h e = cc

  follow_call-Keeps : Keeps s (follow_call t n tail s)
  follow_call-Keeps = elim (Bool-cases (count n t.charset_names || count n t.token_names)) [
    | inl k ↦ subst (λ r. Keeps s r) (sym (call_terminal k)) (IsKept-same s.productions)
    | inr k ↦ elim (Option-cases (find n s.productions)) [
      | inl e ↦ subst (λ r. Keeps s r) (sym (call_undeclared k e)) (IsKept-same s.productions)
      | inr e ↦
          subst (λ r. Keeps s r) (sym (call_known e.0 k e.1))
            (either (first_set_eq (first_set_union e.0.follow_set tail false) e.0.follow_set) _
              (set_follow-IsKept n tail s.productions e.0 e.1))
    ]
  ]
    where
      either : (b : Bool) (r : FirstState) → Keeps s r → Keeps s (if b then s else r)
      either true r h = IsKept-same s.productions
      either false r h = h

mutual
  unfolding walk_for_follow

  pub walk-Keeps :
      (t : Terminals) (owner : Text) (e : PegExpr) (tail : List FirstElement) (s : FirstState)
      → Keeps s (walk_for_follow t owner e tail s)
  walk-Keeps t owner (rule_call n args) tail s = follow_call-Keeps t n tail s
  walk-Keeps t owner (sequence es) tail s = walk_sequence-Keeps t owner es tail s
  walk-Keeps t owner (choice es) tail s = walk_choice-Keeps t owner es tail s
  walk-Keeps t owner (group e) tail s = walk-Keeps t owner e tail s
  walk-Keeps t owner (resolver c e) tail s = walk-Keeps t owner e tail s
  walk-Keeps t owner (optional e) tail s = walk-Keeps t owner e tail s
  walk-Keeps t owner (star e) tail s = walk-Keeps t owner e (repeated_tail t e tail s) s
  walk-Keeps t owner (plus e) tail s = walk-Keeps t owner e (repeated_tail t e tail s) s
  walk-Keeps t owner (and_expr e) tail s = walk-Keeps t owner e [] s
  walk-Keeps t owner (not_expr e) tail s = walk-Keeps t owner e [] s
  walk-Keeps t owner (literal v) tail s = IsKept-same s.productions
  walk-Keeps t owner (char_range a b) tail s = IsKept-same s.productions
  walk-Keeps t owner (charset_ref n) tail s = IsKept-same s.productions
  walk-Keeps t owner (token_ref n) tail s = IsKept-same s.productions
  walk-Keeps t owner (action c) tail s = IsKept-same s.productions
  walk-Keeps t owner any_expr tail s = IsKept-same s.productions

  walk_sequence-Keeps :
      (t : Terminals) (owner : Text) (es : PegExprs) (tail : List FirstElement) (s : FirstState)
      → Keeps s (walk_sequence t owner es tail s)
  walk_sequence-Keeps t owner no_exprs tail s = IsKept-same s.productions
  walk_sequence-Keeps t owner (exprs e es) tail s =
      let m : FirstState = walk_for_follow t owner e (element_tail t owner es tail s) s in
      IsKept-further s.productions m.productions (walk_sequence t owner es tail m).productions
        (walk-Keeps t owner e (element_tail t owner es tail s) s)
        (walk_sequence-Keeps t owner es tail m)

  walk_choice-Keeps :
      (t : Terminals) (owner : Text) (es : PegExprs) (tail : List FirstElement) (s : FirstState)
      → Keeps s (walk_choice t owner es tail s)
  walk_choice-Keeps t owner no_exprs tail s = IsKept-same s.productions
  walk_choice-Keeps t owner (exprs e es) tail s =
      let m : FirstState = walk_for_follow t owner e tail s in
      IsKept-further s.productions m.productions (walk_choice t owner es tail m).productions
        (walk-Keeps t owner e tail s) (walk_choice-Keeps t owner es tail m)

-- From a table in which no FOLLOW set holds epsilon or an element twice, a walk over any expression
-- with any tail leaves such a table: each FOLLOW set still has all that it had, and the FIRST set
-- that first_of computes for any expression is the same as before.
pub walk_for_follow_lem :
    (t : Terminals) (owner : Text) (e : PegExpr) (tail : List FirstElement) (s : FirstState)
    → IsClean s.productions
    → IsClean (walk_for_follow t owner e tail s).productions
      × ((n : Text)
          → all_found
              (follow_entry (find n s.productions))
              (follow_entry (find n (walk_for_follow t owner e tail s).productions))
            ≡ true)
      × ((d : PegExpr)
          → first_of t s.productions d
            ≡ first_of t (walk_for_follow t owner e tail s).productions d)
walk_for_follow_lem t owner e tail s h =
    let k : Keeps s (walk_for_follow t owner e tail s) = walk-Keeps t owner e tail s in
    (
      k.clean h,
      (λ n. found-all_found _ _ (k.further n)),
      λ d.
          (first_of_local t s.productions (walk_for_follow t owner e tail s).productions d
            (λ n c. k.agree n)).0,
    )
