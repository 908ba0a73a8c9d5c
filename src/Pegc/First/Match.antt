-- ===== src/Pegc/First/Match.antt =====
-- What it is for an expression of a grammar to match a text, by the rules of parsing expressions:
-- the description that the FIRST sets of pegc/frontend/PegAnalysis.cpp are held against.
use bbq.Base.{ℕ, ◌≤◌, ◌≡◌, Bool, true, false, ◌||◌, some, ◌∷◌, ◌++◌}
use bbq.Pegc.Names.{Text, count}
use bbq.Pegc.Ast.{
  PegExpr, literal, char_range, charset_ref, token_ref, rule_call, sequence, choice, star, plus,
  optional, and_expr, not_expr, group, action, resolver, any_expr, PegExprs, no_exprs, exprs,
  literal_kind, charset_kind, token_kind, any_kind, FirstElement, element,
}
use bbq.Pegc.First.{ProductionInfo, Productions, find, Terminals}

-- The character sets and tokens that a grammar declares: which characters a set has, and which
-- texts a token leaves behind it.
pub record Lexicon : Type 1 where
  pub has_char : Text → ℕ → Bool
  pub Token : Text → Text → Text → Type 0

-- `Match e s r`: the expression may match the front of `s` and leave `r`. Which of several matches
-- a parser takes, by the order of the alternatives, the greed of a repetition and the answer of a
-- predicate or of a resolver's code, is left open: each match that a parser makes is among these.
module _ (t : Terminals) (ps : Productions) (lex : Lexicon) where
  mutual
    pub data Match : PegExpr → Text → Text → Type 0 where
      matched_literal : {v s r : Text} → s ≡ v ++ r → Match (literal v) s r
      matched_range : {a b c : ℕ} {r : Text} → a ≤ c → c ≤ b → Match (char_range a b) (c ∷ r) r
      matched_any : {c : ℕ} {r : Text} → Match any_expr (c ∷ r) r
      matched_charset :
          {n : Text} {c : ℕ} {r : Text} → lex.has_char n c ≡ true → Match (charset_ref n) (c ∷ r) r
      matched_token : {n s r : Text} → lex.Token n s r → Match (token_ref n) s r
      called_charset :
          {n args : Text} {c : ℕ} {r : Text}
          → count n t.charset_names ≡ true
          → lex.has_char n c ≡ true
          → Match (rule_call n args) (c ∷ r) r
      called_token :
          {n args s r : Text}
          → count n t.charset_names ≡ false
          → count n t.token_names ≡ true
          → lex.Token n s r
          → Match (rule_call n args) s r
      called :
          {n args s r : Text} {p : ProductionInfo}
          → count n t.charset_names ≡ false
          → count n t.token_names ≡ false
          → find n ps ≡ some p
          → Match p.body s r
          → Match (rule_call n args) s r
      in_order : {es : PegExprs} {s r : Text} → MatchAll es s r → Match (sequence es) s r
      chosen : {es : PegExprs} {s r : Text} → MatchSome es s r → Match (choice es) s r
      repeated :
          {e : PegExpr} {s m r : Text} → Match e s m → Match (star e) m r → Match (star e) s r
      ended : {e : PegExpr} {s : Text} → Match (star e) s s
      at_least_once :
          {e : PegExpr} {s m r : Text} → Match e s m → Match (star e) m r → Match (plus e) s r
      present : {e : PegExpr} {s r : Text} → Match e s r → Match (optional e) s r
      absent : {e : PegExpr} {s : Text} → Match (optional e) s s
      seen : {e : PegExpr} {s r : Text} → Match e s r → Match (and_expr e) s s
      unseen : {e : PegExpr} {s : Text} → Match (not_expr e) s s
      grouped : {e : PegExpr} {s r : Text} → Match e s r → Match (group e) s r
      acted : {code s : Text} → Match (action code) s s
      resolved :
          {code : Text} {e : PegExpr} {s r : Text} → Match e s r → Match (resolver code e) s r

    pub data MatchAll : PegExprs → Text → Text → Type 0 where
      all_done : {s : Text} → MatchAll no_exprs s s
      all_more :
          {e : PegExpr} {es : PegExprs} {s m r : Text}
          → Match e s m
          → MatchAll es m r
          → MatchAll (exprs e es) s r

    pub data MatchSome : PegExprs → Text → Text → Type 0 where
      this_one :
          {e : PegExpr} {es : PegExprs} {s r : Text} → Match e s r → MatchSome (exprs e es) s r
      later_one :
          {e : PegExpr} {es : PegExprs} {s r : Text} → MatchSome es s r → MatchSome (exprs e es) s r

-- A text begins with what an element of a FIRST set stands for.
pub data Begins (lex : Lexicon) : FirstElement → Text → Type 0 where
  begins_literal : {v s : Text} (r : Text) → s ≡ v ++ r → Begins lex (element literal_kind v) s
  begins_charset :
      {n : Text} {c : ℕ} {r : Text}
      → lex.has_char n c ≡ true
      → Begins lex (element charset_kind n) (c ∷ r)
  begins_token : {n s : Text} (r : Text) → lex.Token n s r → Begins lex (element token_kind n) s
  begins_any : {v : Text} {c : ℕ} {r : Text} → Begins lex (element any_kind v) (c ∷ r)

-- Whether a range of characters stands in an expression.
unfoldable mutual
  pub has_range : PegExpr → Bool
  has_range (char_range from to) = true
  has_range (sequence es) = any_range es
  has_range (choice es) = any_range es
  has_range (star e) = has_range e
  has_range (plus e) = has_range e
  has_range (optional e) = has_range e
  has_range (and_expr e) = has_range e
  has_range (not_expr e) = has_range e
  has_range (group e) = has_range e
  has_range (resolver c e) = has_range e
  has_range _ = false

  pub any_range : PegExprs → Bool
  any_range no_exprs = false
  any_range (exprs e es) = has_range e || any_range es
