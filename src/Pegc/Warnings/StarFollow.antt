-- ===== src/Pegc/Warnings/StarFollow.antt =====
-- A repetition at the end of a body against what follows the production:
-- detect_star_follow_conflict of pegc/frontend/PegAnalysis.cpp.
use bbq.Base.{Bool, true, false, not, ◌&&◌, ◌||◌, none, some, List, [], ◌∷◌, ◌++◌, if◌then◌else◌}
use bbq.Pegc.Names.{Text}
use bbq.Pegc.Ast.{
  PegExpr, sequence, choice, star, plus, group, resolver, PegExprs, no_exprs, exprs, Production,
  FirstElement,
}
use bbq.Pegc.Sets.{is_epsilon, found, first_set_without_epsilon}
use bbq.Pegc.First.{ProductionInfo, Productions, find, Terminals, first_of}
use bbq.Pegc.Collect.{Message, star_follow_conflict, plus_follow_conflict}

-- Whether an element of the FOLLOW set, other than epsilon, is in the body's FIRST set.
unfoldable pub overlaps : List FirstElement → List FirstElement → Bool
overlaps [] body_first = false
overlaps (f ∷ follow) body_first =
    (not (is_epsilon f) && found f body_first) || overlaps follow body_first

unfoldable pub follow_warning : PegExpr → Text → List Message
follow_warning (star e) owner = star_follow_conflict owner ∷ []
follow_warning (plus e) owner = plus_follow_conflict owner ∷ []
follow_warning _ owner = []

-- A repetition `e` of `body`: only where its tail is that of the production.
unfoldable pub follow_conflict :
    Terminals
    → Productions
    → ProductionInfo
    → PegExpr
    → PegExpr
    → Bool
    → List Message
    → List Message
follow_conflict t ps owner e body tail_is_follow ws =
    if tail_is_follow && overlaps owner.follow_set (first_set_without_epsilon (first_of t ps body))
    then ws ++ follow_warning e owner.name
    else ws

unfoldable mutual
  pub star_follow_walk :
      Terminals → Productions → ProductionInfo → PegExpr → Bool → List Message → List Message
  star_follow_walk t ps owner (sequence es) tail ws = star_follow_sequence t ps owner es tail ws
  star_follow_walk t ps owner (choice es) tail ws = star_follow_choice t ps owner es tail ws
  star_follow_walk t ps owner (group e) tail ws = star_follow_walk t ps owner e tail ws
  star_follow_walk t ps owner (resolver c e) tail ws = star_follow_walk t ps owner e tail ws
  star_follow_walk t ps owner (star e) tail ws =
      star_follow_walk t ps owner e false (follow_conflict t ps owner (star e) e tail ws)
  star_follow_walk t ps owner (plus e) tail ws =
      star_follow_walk t ps owner e false (follow_conflict t ps owner (plus e) e tail ws)
  star_follow_walk t ps owner _ tail ws = ws

  -- The last element alone has the tail of the sequence.
  pub star_follow_sequence :
      Terminals → Productions → ProductionInfo → PegExprs → Bool → List Message → List Message
  star_follow_sequence t ps owner no_exprs tail ws = ws
  star_follow_sequence t ps owner (exprs e no_exprs) tail ws = star_follow_walk t ps owner e tail ws
  star_follow_sequence t ps owner (exprs e (exprs f es)) tail ws =
      star_follow_sequence t ps owner (exprs f es) tail (star_follow_walk t ps owner e false ws)

  pub star_follow_choice :
      Terminals → Productions → ProductionInfo → PegExprs → Bool → List Message → List Message
  star_follow_choice t ps owner no_exprs tail ws = ws
  star_follow_choice t ps owner (exprs e es) tail ws =
      star_follow_choice t ps owner es tail (star_follow_walk t ps owner e tail ws)

unfoldable pub detect_star_follow_conflict :
    Terminals → Productions → List Production → List Message → List Message
detect_star_follow_conflict t ps [] warnings = warnings
detect_star_follow_conflict t ps (p ∷ rest) warnings = elim (find p.name ps) [
  | none ↦ detect_star_follow_conflict t ps rest warnings
  | some info ↦ elim info.left_recursive [
    | true ↦ detect_star_follow_conflict t ps rest warnings
    | false ↦
        detect_star_follow_conflict t ps rest (star_follow_walk t ps info p.body true warnings)
  ]
]
