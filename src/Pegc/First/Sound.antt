-- ===== src/Pegc/First/Sound.antt =====
-- The FIRST sets of pegc/frontend/PegAnalysis.cpp, held against matches.
use bbq.Base.{
  ◌≡◌, refl, sym, ap, ◌∙◌, subst, Bool, true, false, some, [], arith, or_left, or_right, and_both,
  or_parts,
}
use bbq.Pegc.Names.{Text}
use bbq.Pegc.Ast.{
  PegExpr, sequence, choice, star, PegExprs, Kind, literal_kind, charset_kind, token_kind, any_kind,
  epsilon_kind, FirstElement, element,
}
use bbq.Pegc.Sets.{kind_eq, is_epsilon, found, first_set_eq}
use bbq.Pegc.Sets.Laws.{first_element_eq_self}
use bbq.Pegc.Sets.Distinct.{all_found-found}
use bbq.Pegc.First.{
  ProductionInfo, Productions, find, Terminals, nullable_entry, first_entry, nullable_of, first_of,
}
use bbq.Pegc.First.Starts.{starts, first_of_lem}
use bbq.Pegc.First.Match.{
  Lexicon, Match, matched_literal, matched_range, matched_any, matched_charset, matched_token,
  called_charset, called_token, called, in_order, chosen, repeated, ended, at_least_once, present,
  absent, seen, unseen, grouped, acted, resolved, MatchAll, all_done, all_more, MatchSome, this_one,
  later_one, Begins, begins_literal, begins_charset, begins_token, begins_any, has_range, any_range,
}

-- Each production's FIRST set is, by the code's comparison, the FIRST set of its body.
abbrev pub IsClosed : Terminals → Productions → Type 0
IsClosed t ps =
    (n : Text) (p : ProductionInfo)
    → find n ps ≡ some p
    → (first_set_eq (first_of t ps p.body) p.first_set ≡ true)
      × (nullable_of t ps p.body ≡ p.nullable)

abbrev pub HasNoRange : Productions → Type 0
HasNoRange ps = (n : Text) (p : ProductionInfo) → find n ps ≡ some p → has_range p.body ≡ false

-- What a match from `s` to `r` shows: it took nothing where that is foreseen, or its text begins
-- with one of the foreseen terminals.
pub data Foreseen (lex : Lexicon) (empty : Bool) (starting : FirstElement → Bool) (s r : Text)
    : Type 0 where
  nothing : s ≡ r → empty ≡ true → Foreseen lex empty starting s r
  begun :
      (x : FirstElement)
      → starting x ≡ true
      → is_epsilon x ≡ false
      → Begins lex x s
      → Foreseen lex empty starting s r

module _ (t : Terminals) (ps : Productions) (lex : Lexicon) where
  abbrev Sound : PegExpr → Text → Text → Type 0
  Sound e s r = Foreseen lex (nullable_of t ps e) (λ x. starts t ps x e) s r

  -- A terminal in the set that the table has for a rule.
  pub entry_of :
      (p : ProductionInfo)
      → (first_set_eq (first_of t ps p.body) p.first_set ≡ true)
        × (nullable_of t ps p.body ≡ p.nullable)
      → (x : FirstElement) → is_epsilon x ≡ false
      → starts t ps x p.body ≡ true
      → found x p.first_set ≡ true
  unfolding first_set_eq
  entry_of p h x a k =
      all_found-found (first_of t ps p.body) p.first_set (ground (arith, h)) x
        (first_of_lem t ps x a p.body ∙ k)

  kind_apart :
      (k : Kind) (v : Text) → kind_eq k epsilon_kind ≡ false → is_epsilon (element k v) ≡ false
  kind_apart k v h = h

  module _ (closed : IsClosed t ps) (no_range : HasNoRange ps) where
    mutual
      unfolding nullable_of starts has_range first_entry nullable_entry kind_eq

      pub Match-Sound :
          {e : PegExpr} {s r : Text} → has_range e ≡ false → Match t ps lex e s r → Sound e s r
      Match-Sound h (matched_literal {v = v} {r = r} e) =
          begun (element literal_kind v) (first_element_eq_self _) refl (begins_literal r e)
      Match-Sound h (matched_range a b) = cc
      Match-Sound h matched_any =
          begun (element any_kind []) (first_element_eq_self _) refl begins_any
      Match-Sound h (matched_charset {n = n} k) =
          begun (element charset_kind n) (first_element_eq_self _) refl (begins_charset k)
      Match-Sound h (matched_token {n = n} {r = r} k) =
          begun (element token_kind n) (first_element_eq_self _) refl (begins_token r k)
      Match-Sound h (called_charset {n = n} e k) =
          begun (element charset_kind n)
            (ground (arith, e, first_element_eq_self (element charset_kind n))) refl
            (begins_charset k)
      Match-Sound h (called_token {n = n} {r = r} a b k) =
          begun (element token_kind n)
            (ground (arith, a, b, first_element_eq_self (element token_kind n))) refl
            (begins_token r k)
      Match-Sound h (called {n = n} {p = p} a b f m) = elim (Match-Sound (no_range n p f) m) [
        | nothing e k ↦
            nothing e (ground (arith, a, b, k, (closed n p f).1, ap (λ o. nullable_entry o) f))
        | begun x k l i ↦
            begun x
              (ground
                (arith, a, b, entry_of p (closed n p f) x l k, ap (λ o. found x (first_entry o)) f))
              l i
      ]
      Match-Sound h (in_order m) = MatchAll-Sound h m
      Match-Sound h (chosen m) = MatchSome-Sound h m
      Match-Sound h (repeated {e = e} {r = r} m n) = elim (Match-Sound h m) [
        | nothing p k ↦ subst (λ u. Sound (star e) u r) (sym p) (Match-Sound h n)
        | begun x k l i ↦ begun x k l i
      ]
      Match-Sound h ended = nothing refl refl
      Match-Sound h (at_least_once {e = e} {r = r} m n) = elim (Match-Sound h m) [
        | nothing p k ↦ elim (Match-Sound h n) [
          | nothing q l ↦ nothing (p ∙ q) k
          | begun x l a i ↦ begun x l a (subst (λ u. Begins lex x u) (sym p) i)
        ]
        | begun x k l i ↦ begun x k l i
      ]
      Match-Sound h (present m) = elim (Match-Sound h m) [
        | nothing p k ↦ nothing p refl
        | begun x k l i ↦ begun x k l i
      ]
      Match-Sound h absent = nothing refl refl
      Match-Sound h (seen m) = nothing refl refl
      Match-Sound h unseen = nothing refl refl
      Match-Sound h (grouped m) = Match-Sound h m
      Match-Sound h acted = nothing refl refl
      Match-Sound h (resolved m) = Match-Sound h m

      MatchAll-Sound :
          {es : PegExprs} {s r : Text}
          → any_range es ≡ false
          → MatchAll t ps lex es s r
          → Sound (sequence es) s r
      MatchAll-Sound h all_done = nothing refl refl
      MatchAll-Sound h (all_more {e = e} {es = es} {r = r} m n) =
          elim (Match-Sound (or_parts _ _ h).0 m) [
            | nothing p k ↦ elim (MatchAll-Sound (or_parts _ _ h).1 n) [
              | nothing q l ↦ nothing (p ∙ q) (and_both _ _ k l)
              | begun x l a i ↦
                  begun x (or_right _ _ (and_both _ _ k l)) a
                    (subst (λ u. Begins lex x u) (sym p) i)
            ]
            | begun x k l i ↦ begun x (or_left _ _ k) l i
          ]

      MatchSome-Sound :
          {es : PegExprs} {s r : Text}
          → any_range es ≡ false
          → MatchSome t ps lex es s r
          → Sound (choice es) s r
      MatchSome-Sound h (this_one m) = elim (Match-Sound (or_parts _ _ h).0 m) [
        | nothing p k ↦ nothing p (or_left _ _ k)
        | begun x k l i ↦ begun x (or_left _ _ k) l i
      ]
      MatchSome-Sound h (later_one m) = elim (MatchSome-Sound (or_parts _ _ h).1 m) [
        | nothing p k ↦ nothing p (or_right _ _ k)
        | begun x k l i ↦ begun x (or_right _ _ k) l i
      ]

-- In a table whose sets are closed, with no range of characters in a body: whatever an expression
-- without such a range matches, under every reading of the sets and tokens, either it takes nothing
-- and nullable_of answers true of it, or its text begins with a terminal of its FIRST set.
pub first_of_covers :
    (t : Terminals) (ps : Productions) (lex : Lexicon)
    → IsClosed t ps
    → HasNoRange ps
    → (e : PegExpr) (s r : Text) → has_range e ≡ false
    → Match t ps lex e s r
    → Foreseen lex (nullable_of t ps e) (λ x. found x (first_of t ps e)) s r
first_of_covers t ps lex closed no_range e s r h m =
    elim (Match-Sound t ps lex closed no_range h m) [
      | nothing p k ↦ nothing p k
      | begun x k l i ↦ begun x (first_of_lem t ps x l e ∙ k) l i
    ]
