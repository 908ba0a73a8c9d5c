-- ===== src/Examples/Sample.antt =====
-- A small grammar for the analysis of pegc/frontend/PegAnalysis.cpp, its names and its terminals.
use bbq.Base.{◌≡◌, Bool, true, false, ◌&&◌, List, [], ◌∷◌, leb}
use bbq.Pegc.Names.{Text}
use bbq.Pegc.Ast.{PegExpr, literal, rule_call, sequence, star, no_exprs, exprs, FirstElement}
use bbq.Pegc.First.{ProductionInfo, Terminals}
use bbq.Pegc.First.Match.{Lexicon}
use bbq.Pegc.Collect.Calls.{calls}

-- CHARACTERS d; PRODUCTIONS S = A "x".  A = d*.
abbrev pub d : Text
d = 100 ∷ []

abbrev pub a : Text
a = 65 ∷ []

abbrev pub s : Text
s = 83 ∷ []

abbrev pub x : Text
x = 120 ∷ []

abbrev pub terminals : Terminals
terminals = record { charset_names = d ∷ []; token_names = [] }

abbrev pub s_body : PegExpr
s_body = sequence (exprs (rule_call a []) (exprs (literal x) no_exprs))

abbrev pub a_body : PegExpr
a_body = star (rule_call d [])

abbrev pub info : Text → PegExpr → List FirstElement → Bool → Bool → List Text → ProductionInfo
info n body first_set nullable first_testable calls = record {
  name = n;
  body = body;
  first_set = first_set;
  nullable = nullable;
  follow_set = [];
  first_testable = first_testable;
  calls = calls;
  reachable = true;
  left_recursive = false;
}

-- Digits stand for the character set; there are no tokens.
abbrev pub digits : Lexicon
digits = record { has_char = λ n c. leb 48 c && leb c 57; Token = λ n u r. u ≡ r }
