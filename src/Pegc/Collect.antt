-- ===== src/Pegc/Collect.antt =====
-- The table of productions and the calls between them: collect_productions, collect_calls and
-- build_callers_graph of pegc/frontend/PegAnalysis.cpp.
use bbq.Base.{
  ℕ, zero, suc, ◌+◌, ◌-◌, ◌*◌, ◌≤◌, ◌<◌, ◌≡◌, refl, sym, ap, ◌∙◌, subst, ◌≢◌, ◌↔◌, ◌⊎◌, inl, inr,
  Bool, true, false, not, ◌&&◌, ◌||◌, Option, none, some, List, [], ◌∷◌, ◌++◌, arith, ltb, leb,
  ◌==◌, if◌then◌else◌, ltb→lt, lt→ltb, leb→le, ==_iff, tests, Bool-cases, Answered, by_answer,
  or_left, or_right, and_both, or_parts, and_parts, or_cases, Option-cases, if_true, if_false,
  length, length-append,
}
use bbq.Pegc.Names.{
  Text, text_eq, text_lt, count, insert, erase, unrepeated, text_eq_self, text_eq-same, text_eq_iff,
  text_eq_comm, count-insert, count-append, count-erase, count-eq, unrepeated-snoc,
}
use bbq.Pegc.Ast.{
  PegExpr, literal, char_range, charset_ref, token_ref, rule_call, sequence, choice, star, plus,
  optional, and_expr, not_expr, group, action, resolver, any_expr, PegExprs, no_exprs, exprs,
  Production, Kind, literal_kind, charset_kind, token_kind, any_kind, epsilon_kind, FirstElement,
  element, epsilon,
}
use bbq.Pegc.First.{
  ProductionInfo, Productions, find, Terminals, nullable_entry, first_entry, nullable_of,
  nullable_all, nullable_some, with_epsilon, first_of, first_sequence, first_choice,
}
pub mod Calls
pub mod Fresh

-- Errors and warnings, by their text and the names in it.
pub data Message : Type 0 where
  duplicate_production : Text → Message
  undeclared_identifier : Text → Text → Message
  left_recursion : Text → Message
  masked_alternative : Text → ℕ → ℕ → Message
  star_suffix_conflict : Text → Message
  plus_suffix_conflict : Text → Message
  star_follow_conflict : Text → Message
  plus_follow_conflict : Text → Message
  always_failing : Text → Message
  and_always_succeeds : Text → Message
  not_always_fails : Text → Message
  not_always_succeeds : Text → Message
  unreachable_production : Text → Message

unfoldable mutual
  pub collect_calls : Terminals → PegExpr → List Text → List Text
  collect_calls t (rule_call n args) calls =
      if not (count n t.charset_names) && not (count n t.token_names) then insert n calls else calls
  collect_calls t (sequence es) calls = collect_all_calls t es calls
  collect_calls t (choice es) calls = collect_all_calls t es calls
  collect_calls t (star e) calls = collect_calls t e calls
  collect_calls t (plus e) calls = collect_calls t e calls
  collect_calls t (optional e) calls = collect_calls t e calls
  collect_calls t (and_expr e) calls = collect_calls t e calls
  collect_calls t (not_expr e) calls = collect_calls t e calls
  collect_calls t (group e) calls = collect_calls t e calls
  collect_calls t (resolver c e) calls = collect_calls t e calls
  collect_calls t _ calls = calls

  pub collect_all_calls : Terminals → PegExprs → List Text → List Text
  collect_all_calls t no_exprs calls = calls
  collect_all_calls t (exprs e es) calls = collect_all_calls t es (collect_calls t e calls)

-- result_.productions[p->name] = info, for a name that is not there yet.
unfoldable pub put : ProductionInfo → Productions → Productions
put p [] = p ∷ []
put p (q ∷ ps) = let rest = put p ps in if text_lt p.name q.name then p ∷ q ∷ ps else q ∷ rest

unfoldable pub is_declared : Text → Productions → Bool
is_declared n ps = elim (find n ps) [ none ↦ false | some p ↦ true ]

abbrev pub new_info : Terminals → Production → ProductionInfo
new_info t p = record {
  name = p.name;
  body = p.body;
  first_set = [];
  nullable = false;
  follow_set = [];
  first_testable = false;
  calls = collect_calls t p.body [];
  reachable = true;
  left_recursive = false;
}

unfoldable pub collect_productions :
    Terminals → List Production → Productions → List Message → Productions × List Message
collect_productions t [] ps errors = (ps, errors)
collect_productions t (p ∷ rest) ps errors =
    if is_declared p.name ps
    then collect_productions t rest ps (errors ++ (duplicate_production p.name ∷ []))
    else collect_productions t rest (put (new_info t p) ps) errors

-- callers_: for each name that is called, the names of the productions that call it.
pub record Callers : Type 0 where
  pub callee : Text
  pub names : List Text

-- callers_[callee].insert(name)
unfoldable pub add_caller : Text → Text → List Callers → List Callers
add_caller n m [] = record { callee = n; names = m ∷ [] } ∷ []
add_caller n m (c ∷ cs) =
    let rest = add_caller n m cs in
    if text_eq n c.callee then record c { names = insert m c.names } ∷ cs else c ∷ rest

-- What `callers_.find(name)` finds; nothing where the name is not there.
unfoldable pub callers_of : Text → List Callers → List Text
callers_of n [] = []
callers_of n (c ∷ cs) = let rest = callers_of n cs in if text_eq n c.callee then c.names else rest

unfoldable pub add_callers : List Text → Text → List Callers → List Callers
add_callers [] m cs = cs
add_callers (n ∷ ns) m cs = add_callers ns m (add_caller n m cs)

unfoldable pub build_callers_graph : Productions → List Callers → List Callers
build_callers_graph [] cs = cs
build_callers_graph (p ∷ ps) cs = build_callers_graph ps (add_callers p.calls p.name cs)
