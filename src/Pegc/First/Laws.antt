-- ===== src/Pegc/First/Laws.antt =====
-- What nullable_of and first_of of pegc/frontend/PegAnalysis.cpp have to do with each other.
use bbq.Base.{◌≡◌, refl, sym, Bool, true, false, ◌&&◌, ◌||◌, List, [], ◌∷◌, ◌++◌, arith}
use bbq.Pegc.Names.{Text}
use bbq.Pegc.Ast.{
  PegExpr, literal, char_range, charset_ref, token_ref, rule_call, sequence, choice, star, plus,
  optional, and_expr, not_expr, group, action, resolver, any_expr, PegExprs, no_exprs, exprs,
  FirstElement, epsilon,
}
use bbq.Pegc.Sets.{kind_eq, is_epsilon, found, first_set_union, first_set_contains_epsilon}
use bbq.Pegc.Sets.Laws.{is_epsilon-eq}
use bbq.Pegc.First.{
  Productions, find, Terminals, nullable_entry, first_entry, nullable_of, nullable_all,
  nullable_some, with_epsilon, first_of, first_sequence, first_choice,
}

contains_epsilon-append :
    (a b : List FirstElement)
    → first_set_contains_epsilon (a ++ b)
      ≡ first_set_contains_epsilon a || first_set_contains_epsilon b
unfolding first_set_contains_epsilon
contains_epsilon-append [] b = refl
contains_epsilon-append (x ∷ a) b = ground (arith, contains_epsilon-append a b)

pub found-epsilon :
    (e : FirstElement) (a : List FirstElement)
    → is_epsilon e ≡ true
    → found e a ≡ true
    → first_set_contains_epsilon a ≡ true
unfolding first_set_contains_epsilon found
found-epsilon e [] h k = cc
found-epsilon e (x ∷ a) h k = ground (arith, h, k, is_epsilon-eq e x, found-epsilon e a h)

pub contains_epsilon-union :
    (dest src : List FirstElement) (include_epsilon : Bool)
    → first_set_contains_epsilon (first_set_union dest src include_epsilon)
      ≡ first_set_contains_epsilon dest || (first_set_contains_epsilon src && include_epsilon)
unfolding first_set_union first_set_contains_epsilon
contains_epsilon-union dest [] inc = ground arith
contains_epsilon-union dest (e ∷ src) inc = ground (
  arith,
  contains_epsilon-append dest (e ∷ []),
  contains_epsilon-union dest src inc,
  found-epsilon e dest,
  contains_epsilon-union (dest ++ (e ∷ [])) src inc,
)

contains_epsilon-with_epsilon :
    (a : List FirstElement) → first_set_contains_epsilon (with_epsilon a) ≡ true
unfolding with_epsilon kind_eq first_set_contains_epsilon
contains_epsilon-with_epsilon a = ground (arith, contains_epsilon-append a (epsilon ∷ []))

-- In the table, a production is marked as nullable where its FIRST set holds epsilon.
abbrev pub IsConsistent : Productions → Type 0
IsConsistent ps =
    (n : Text) → nullable_entry (find n ps) ≡ first_set_contains_epsilon (first_entry (find n ps))

mutual
  unfolding first_of nullable_of first_set_contains_epsilon kind_eq

  contains_epsilon-first_of :
      (t : Terminals) (ps : Productions)
      → IsConsistent ps
      → (e : PegExpr) → first_set_contains_epsilon (first_of t ps e) ≡ nullable_of t ps e
  contains_epsilon-first_of t ps h (literal v) = refl
  contains_epsilon-first_of t ps h (rule_call n args) = ground (arith, h n)
  contains_epsilon-first_of t ps h (sequence es) = contains_epsilon-first_sequence t ps h es [] refl
  contains_epsilon-first_of t ps h (choice es) = contains_epsilon-first_choice t ps h es []
  contains_epsilon-first_of t ps h (star e) = contains_epsilon-with_epsilon (first_of t ps e)
  contains_epsilon-first_of t ps h (plus e) = contains_epsilon-first_of t ps h e
  contains_epsilon-first_of t ps h (optional e) = contains_epsilon-with_epsilon (first_of t ps e)
  contains_epsilon-first_of t ps h (group e) = contains_epsilon-first_of t ps h e
  contains_epsilon-first_of t ps h any_expr = refl
  contains_epsilon-first_of t ps h (charset_ref n) = refl
  contains_epsilon-first_of t ps h (token_ref n) = refl
  contains_epsilon-first_of t ps h (resolver c e) = contains_epsilon-first_of t ps h e
  contains_epsilon-first_of t ps h (char_range from to) = refl
  contains_epsilon-first_of t ps h (and_expr e) = refl
  contains_epsilon-first_of t ps h (not_expr e) = refl
  contains_epsilon-first_of t ps h (action c) = refl

  contains_epsilon-first_sequence :
      (t : Terminals) (ps : Productions)
      → IsConsistent ps
      → (es : PegExprs) (result : List FirstElement) → first_set_contains_epsilon result ≡ false
      → first_set_contains_epsilon (first_sequence t ps es result) ≡ nullable_all t ps es
  contains_epsilon-first_sequence t ps h no_exprs r n =
      ground (arith, contains_epsilon-append r (epsilon ∷ []))
  contains_epsilon-first_sequence t ps h (exprs e es) r n = ground (
    arith,
    n,
    contains_epsilon-union r (first_of t ps e) false,
    contains_epsilon-first_sequence t ps h es (first_set_union r (first_of t ps e) false),
  )

  contains_epsilon-first_choice :
      (t : Terminals) (ps : Productions)
      → IsConsistent ps
      → (es : PegExprs) (result : List FirstElement)
      → first_set_contains_epsilon (first_choice t ps es result)
        ≡ first_set_contains_epsilon result || nullable_some t ps es
  contains_epsilon-first_choice t ps h no_exprs r = ground arith
  contains_epsilon-first_choice t ps h (exprs e es) r = ground (
    arith,
    contains_epsilon-union r (first_of t ps e) true,
    contains_epsilon-first_of t ps h e,
    contains_epsilon-first_choice t ps h es (first_set_union r (first_of t ps e) true),
  )

-- In a table in which each production is marked as nullable where its FIRST set holds epsilon,
-- for every expression the two walks agree: the FIRST set that first_of computes holds epsilon
-- exactly where nullable_of answers true.
pub nullable_of_lem :
    (t : Terminals) (ps : Productions)
    → IsConsistent ps
    → (e : PegExpr) → nullable_of t ps e ≡ first_set_contains_epsilon (first_of t ps e)
nullable_of_lem t ps h e = sym (contains_epsilon-first_of t ps h e)
