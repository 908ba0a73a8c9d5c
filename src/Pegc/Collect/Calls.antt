-- ===== src/Pegc/Collect/Calls.antt =====
-- What collect_calls and build_callers_graph of pegc/frontend/PegAnalysis.cpp collect.
use bbq.Base.{
  ◌≡◌, refl, ap, ◌∙◌, inl, inr, Bool, false, not, ◌&&◌, ◌||◌, List, [], ◌∷◌, arith, Bool-cases,
  or_swap,
}
use bbq.Pegc.Names.{Text, text_eq, count, text_eq-same, count-insert}
use bbq.Pegc.Ast.{
  PegExpr, literal, char_range, charset_ref, token_ref, rule_call, sequence, choice, star, plus,
  optional, and_expr, not_expr, group, action, resolver, any_expr, PegExprs, no_exprs, exprs,
}
use bbq.Pegc.First.{Productions, Terminals}
use bbq.Pegc.Collect.{
  collect_calls, collect_all_calls, Callers, add_caller, callers_of, add_callers,
  build_callers_graph,
}

-- Whether an expression calls a production.
unfoldable mutual
  pub calls : Terminals → Text → PegExpr → Bool
  calls t n (rule_call m args) =
      text_eq n m && (not (count m t.charset_names) && not (count m t.token_names))
  calls t n (sequence es) = calls_any t n es
  calls t n (choice es) = calls_any t n es
  calls t n (star e) = calls t n e
  calls t n (plus e) = calls t n e
  calls t n (optional e) = calls t n e
  calls t n (and_expr e) = calls t n e
  calls t n (not_expr e) = calls t n e
  calls t n (group e) = calls t n e
  calls t n (resolver c e) = calls t n e
  calls t n _ = false

  pub calls_any : Terminals → Text → PegExprs → Bool
  calls_any t n no_exprs = false
  calls_any t n (exprs e es) = calls t n e || calls_any t n es

mutual
  unfolding collect_calls calls

  count-collect_calls :
      (t : Terminals) (n : Text) (e : PegExpr) (acc : List Text)
      → count n (collect_calls t e acc) ≡ calls t n e || count n acc
  count-collect_calls t n (rule_call m args) acc = ground (arith, count-insert n m acc)
  count-collect_calls t n (sequence es) acc = count-collect_all_calls t n es acc
  count-collect_calls t n (choice es) acc = count-collect_all_calls t n es acc
  count-collect_calls t n (star e) acc = count-collect_calls t n e acc
  count-collect_calls t n (plus e) acc = count-collect_calls t n e acc
  count-collect_calls t n (optional e) acc = count-collect_calls t n e acc
  count-collect_calls t n (and_expr e) acc = count-collect_calls t n e acc
  count-collect_calls t n (not_expr e) acc = count-collect_calls t n e acc
  count-collect_calls t n (group e) acc = count-collect_calls t n e acc
  count-collect_calls t n (resolver c e) acc = count-collect_calls t n e acc
  count-collect_calls t n (literal v) acc = refl
  count-collect_calls t n (char_range a b) acc = refl
  count-collect_calls t n (charset_ref m) acc = refl
  count-collect_calls t n (token_ref m) acc = refl
  count-collect_calls t n (action c) acc = refl
  count-collect_calls t n any_expr acc = refl

  count-collect_all_calls :
      (t : Terminals) (n : Text) (es : PegExprs) (acc : List Text)
      → count n (collect_all_calls t es acc) ≡ calls_any t n es || count n acc
  count-collect_all_calls t n no_exprs acc = refl
  count-collect_all_calls t n (exprs e es) acc =
      count-collect_all_calls t n es (collect_calls t e acc)
      ∙ ap (λ u. calls_any t n es || u) (count-collect_calls t n e acc)
      ∙ or_swap (calls_any t n es) (calls t n e) (count n acc)

-- The set that collect_calls leaves holds, beside what it held, exactly the productions that the
-- expression calls: at any depth, and no name of a set of characters or of a token.
pub collect_calls_lem :
    (t : Terminals) (n : Text) (e : PegExpr) (acc : List Text)
    → count n (collect_calls t e acc) ≡ calls t n e || count n acc
collect_calls_lem t n e acc = count-collect_calls t n e acc

callers_of-add_caller :
    (k n m q : Text) (cs : List Callers)
    → count q (callers_of k (add_caller n m cs))
      ≡ (text_eq k n && text_eq q m) || count q (callers_of k cs)
unfolding callers_of add_caller count
callers_of-add_caller k n m q [] = ground arith
callers_of-add_caller k n m q (c ∷ cs) = elim (Bool-cases (text_eq n c.callee)) [
  | inl e ↦
      let e' : n ≡ c.callee = text_eq-same n c.callee e in
      ground (arith, e, e', count-insert q m c.names)
  | inr e ↦ elim (Bool-cases (text_eq k n)) [
    | inl l ↦
        let l' : k ≡ n = text_eq-same k n l in
        ground (arith, e, l, l', callers_of-add_caller k n m q cs)
    | inr l ↦ ground (arith, e, l, callers_of-add_caller k n m q cs)
  ]
]

callers_of-add_callers :
    (k m q : Text) (ns : List Text) (cs : List Callers)
    → count q (callers_of k (add_callers ns m cs))
      ≡ (count k ns && text_eq q m) || count q (callers_of k cs)
unfolding add_callers count
callers_of-add_callers k m q [] cs = refl
callers_of-add_callers k m q (n ∷ ns) cs =
    ground
      (arith, callers_of-add_callers k m q ns (add_caller n m cs), callers_of-add_caller k n m q cs)

-- Whether a production of that name in the table calls another.
unfoldable pub has_call : Productions → Text → Text → Bool
has_call [] m n = false
has_call (p ∷ ps) m n = (count n p.calls && text_eq m p.name) || has_call ps m n

callers_of-build :
    (k q : Text) (ps : Productions) (cs : List Callers)
    → count q (callers_of k (build_callers_graph ps cs))
      ≡ has_call ps q k || count q (callers_of k cs)
unfolding build_callers_graph has_call
callers_of-build k q [] cs = refl
callers_of-build k q (p ∷ ps) cs = ground (
  arith,
  callers_of-build k q ps (add_callers p.calls p.name cs),
  callers_of-add_callers k p.name q p.calls cs,
)

-- The graph of callers is the graph of calls turned round: under each name stand exactly the
-- productions of the table whose calls hold it.
pub build_callers_graph_lem :
    (ps : Productions) (n m : Text)
    → count m (callers_of n (build_callers_graph ps [])) ≡ has_call ps m n
unfolding callers_of count
build_callers_graph_lem ps n m = ground (arith, callers_of-build n m ps [])
