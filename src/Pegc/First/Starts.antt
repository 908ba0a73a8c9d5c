-- ===== src/Pegc/First/Starts.antt =====
-- The members of a set of first_of of pegc/frontend/PegAnalysis.cpp, one terminal at a time.
use bbq.Base.{◌≡◌, refl, ◌∙◌, Bool, true, false, ◌&&◌, ◌||◌, List, [], ◌∷◌, arith, if◌then◌else◌}
use bbq.Pegc.Names.{count}
use bbq.Pegc.Ast.{
  PegExpr, literal, char_range, charset_ref, token_ref, rule_call, sequence, choice, star, plus,
  optional, and_expr, not_expr, group, action, resolver, any_expr, PegExprs, no_exprs, exprs,
  literal_kind, charset_kind, token_kind, any_kind, FirstElement, element, epsilon,
}
use bbq.Pegc.Sets.{kind_eq, first_element_eq, is_epsilon, found, first_set_union}
use bbq.Pegc.Sets.Laws.{found-append, found-union}
use bbq.Pegc.First.{
  Productions, find, Terminals, first_entry, nullable_of, with_epsilon, first_of, first_sequence,
  first_choice,
}

-- Whether a terminal may stand first in a match of an expression, over the sets of the table.
unfoldable mutual
  pub starts : Terminals → Productions → FirstElement → PegExpr → Bool
  starts t ps x (literal v) = first_element_eq x (element literal_kind v)
  starts t ps x (charset_ref n) = first_element_eq x (element charset_kind n)
  starts t ps x (token_ref n) = first_element_eq x (element token_kind n)
  starts t ps x any_expr = first_element_eq x (element any_kind [])
  starts t ps x (rule_call n args) =
      if count n t.charset_names
      then first_element_eq x (element charset_kind n)
      else (if count n t.token_names
          then first_element_eq x (element token_kind n)
          else found x (first_entry (find n ps)))
  starts t ps x (sequence es) = starts_sequence t ps x es
  starts t ps x (choice es) = starts_choice t ps x es
  starts t ps x (star e) = starts t ps x e
  starts t ps x (plus e) = starts t ps x e
  starts t ps x (optional e) = starts t ps x e
  starts t ps x (group e) = starts t ps x e
  starts t ps x (resolver c e) = starts t ps x e
  starts t ps x (char_range from to) = false
  starts t ps x (and_expr e) = false
  starts t ps x (not_expr e) = false
  starts t ps x (action c) = false

  -- The first element, or a later one behind elements that match nothing.
  pub starts_sequence : Terminals → Productions → FirstElement → PegExprs → Bool
  starts_sequence t ps x no_exprs = false
  starts_sequence t ps x (exprs e es) =
      starts t ps x e || (nullable_of t ps e && starts_sequence t ps x es)

  pub starts_choice : Terminals → Productions → FirstElement → PegExprs → Bool
  starts_choice t ps x no_exprs = false
  starts_choice t ps x (exprs e es) = starts t ps x e || starts_choice t ps x es

epsilon-apart : (x : FirstElement) → is_epsilon x ≡ false → first_element_eq x epsilon ≡ false
unfolding first_element_eq kind_eq
epsilon-apart x h = ground (arith, h)

found-with_epsilon :
    (x : FirstElement) (a : List FirstElement)
    → is_epsilon x ≡ false
    → found x (with_epsilon a) ≡ found x a
unfolding with_epsilon found
found-with_epsilon x a h = ground (arith, found-append x a (epsilon ∷ []), epsilon-apart x h)

found_none : (x : FirstElement) → found x [] ≡ false
unfolding found
found_none x = refl

found_one : (x y : FirstElement) → found x (y ∷ []) ≡ first_element_eq x y
unfolding found
found_one x y = ground arith

mutual
  unfolding first_of starts nullable_of

  found-first_of :
      (t : Terminals) (ps : Productions) (x : FirstElement)
      → is_epsilon x ≡ false
      → (e : PegExpr) → found x (first_of t ps e) ≡ starts t ps x e
  found-first_of t ps x h (literal v) = found_one x _
  found-first_of t ps x h (rule_call n args) =
      ground (arith, found_one x (element charset_kind n), found_one x (element token_kind n))
  found-first_of t ps x h (sequence es) =
      found-first_sequence t ps x h es [] ∙ ground (arith, found_none x)
  found-first_of t ps x h (choice es) =
      found-first_choice t ps x h es [] ∙ ground (arith, found_none x)
  found-first_of t ps x h (star e) = found-with_epsilon x _ h ∙ found-first_of t ps x h e
  found-first_of t ps x h (plus e) = found-first_of t ps x h e
  found-first_of t ps x h (optional e) = found-with_epsilon x _ h ∙ found-first_of t ps x h e
  found-first_of t ps x h (group e) = found-first_of t ps x h e
  found-first_of t ps x h any_expr = found_one x _
  found-first_of t ps x h (charset_ref n) = found_one x _
  found-first_of t ps x h (token_ref n) = found_one x _
  found-first_of t ps x h (resolver c e) = found-first_of t ps x h e
  found-first_of t ps x h (char_range from to) = found_one x _ ∙ epsilon-apart x h
  found-first_of t ps x h (and_expr e) = found_one x _ ∙ epsilon-apart x h
  found-first_of t ps x h (not_expr e) = found_one x _ ∙ epsilon-apart x h
  found-first_of t ps x h (action c) = found_one x _ ∙ epsilon-apart x h

  found-first_sequence :
      (t : Terminals) (ps : Productions) (x : FirstElement)
      → is_epsilon x ≡ false
      → (es : PegExprs) (r : List FirstElement)
      → found x (first_sequence t ps es r) ≡ found x r || starts_sequence t ps x es
  found-first_sequence t ps x h no_exprs r =
      ground (arith, found-append x r (epsilon ∷ []), found_one x epsilon, epsilon-apart x h)
  found-first_sequence t ps x h (exprs e es) r = ground (
    arith,
    h,
    found-union x r (first_of t ps e) false,
    found-first_of t ps x h e,
    found-first_sequence t ps x h es (first_set_union r (first_of t ps e) false),
  )

  found-first_choice :
      (t : Terminals) (ps : Productions) (x : FirstElement)
      → is_epsilon x ≡ false
      → (es : PegExprs) (r : List FirstElement)
      → found x (first_choice t ps es r) ≡ found x r || starts_choice t ps x es
  found-first_choice t ps x h no_exprs r = ground arith
  found-first_choice t ps x h (exprs e es) r = ground (
    arith,
    found-union x r (first_of t ps e) true,
    found-first_of t ps x h e,
    found-first_choice t ps x h es (first_set_union r (first_of t ps e) true),
  )

-- A terminal is in the set that first_of gives an expression exactly where the walk above, one
-- terminal at a time, says so.
pub first_of_lem :
    (t : Terminals) (ps : Productions) (x : FirstElement)
    → is_epsilon x ≡ false
    → (e : PegExpr) → found x (first_of t ps e) ≡ starts t ps x e
first_of_lem t ps x h e = found-first_of t ps x h e
