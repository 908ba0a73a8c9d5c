-- ===== src/Pegc/Ast.antt =====
-- The grammar's tree, pegc/grammar/grammar.asdl, from which pegc/frontend/GrammarAST.h is made, and
-- the FIRST set's element of pegc/frontend/PegAnalysis.h.
use bbq.Base.{ℕ, []}
use bbq.Pegc.Names.{Text}

-- PegExpr, with the lists of Sequence and Choice in the block. The source places are left out.
mutual
  pub data PegExpr : Type 0 where
    literal : Text → PegExpr
    char_range : ℕ → ℕ → PegExpr
    charset_ref : Text → PegExpr
    token_ref : Text → PegExpr
    rule_call : Text → Text → PegExpr
    sequence : PegExprs → PegExpr
    choice : PegExprs → PegExpr
    star : PegExpr → PegExpr
    plus : PegExpr → PegExpr
    optional : PegExpr → PegExpr
    and_expr : PegExpr → PegExpr
    not_expr : PegExpr → PegExpr
    group : PegExpr → PegExpr
    action : Text → PegExpr
    resolver : Text → PegExpr → PegExpr
    any_expr : PegExpr

  pub data PegExprs : Type 0 where
    no_exprs : PegExprs
    exprs : PegExpr → PegExprs → PegExprs

pub record Production : Type 0 where
  pub name : Text
  pub body : PegExpr

-- FirstElement::Kind.
pub data Kind : Type 0 where
  literal_kind charset_kind token_kind any_kind epsilon_kind : Kind

pub record FirstElement : Type 0 where
  pub kind : Kind
  pub value : Text

abbrev pub element : Kind → Text → FirstElement
element k v = record { kind = k; value = v }

abbrev pub epsilon : FirstElement
epsilon = element epsilon_kind []
