-- ===== src/Pegc/Follow/Size.antt =====
-- The size of the FOLLOW sets of pegc/frontend/PegAnalysis.cpp, and what bounds it.
use bbq.Base.{
  ℕ, suc, ◌+◌, ◌-◌, ◌*◌, ◌≤◌, ◌<◌, ◌≡◌, refl, sym, ap, ◌∙◌, subst, inl, inr, true, false, some,
  List, [], ◌∷◌, arith, Bool-cases, or_left, some_same, if_true, if_false, length,
}
use bbq.Pegc.Names.{Text, text_eq}
use bbq.Pegc.Ast.{FirstElement}
use bbq.Pegc.Sets.{first_set_eq, first_set_union, first_set_contains_epsilon}
use bbq.Pegc.Sets.Laws.{found-union}
use bbq.Pegc.Sets.Distinct.{distinct, distinct-le, distinct-union, length_lt}
use bbq.Pegc.First.{ProductionInfo, Productions, find, Terminals, first_entry}
use bbq.Pegc.First.Bound.{terminals_of, IsWithin, IsWithin-union}
use bbq.Pegc.Worklist.{push, length-push}
use bbq.Pegc.Kildall.{FirstState}
use bbq.Pegc.Follow.{set_follow, follow_entry}
use bbq.Pegc.Follow.Kept.{IsClean, split_follow, set_follow-IsKept}

-- The number of elements in all FOLLOW sets together.
unfoldable pub follow_total : Productions → ℕ
follow_total [] = 0
follow_total (p ∷ ps) = length p.follow_set + follow_total ps

pub total-set_follow :
    (m : Text) (s : List FirstElement) (ps : Productions) (p : ProductionInfo)
    → find m ps ≡ some p
    → follow_total (set_follow m s ps) + length p.follow_set ≡ follow_total ps + length s
unfolding find set_follow follow_total
total-set_follow m s [] p h = cc
total-set_follow m s (q ∷ ps) p h = elim (Bool-cases (text_eq m q.name)) [
  | inl k ↦ let e : q ≡ p = some_same (sym (if_true _ _ _ k) ∙ h) in rw (k, ← e) (omega arith)
  | inr k ↦
      let rest : follow_total (set_follow m s ps) + length p.follow_set
          ≡ follow_total ps + length s =
        total-set_follow m s ps p (sym (if_false _ _ _ k) ∙ h) in
      rw (k) (omega (arith, rest))
]

pub length-set_follow :
    (m : Text) (s : List FirstElement) (ps : Productions) → length (set_follow m s ps) ≡ length ps
unfolding set_follow
length-set_follow m s [] = refl
length-set_follow m s (p ∷ ps) = elim (Bool-cases (text_eq m p.name)) [
  | inl k ↦ rw (k) refl
  | inr k ↦ rw (k) (ap suc (length-set_follow m s ps))
]

-- No FOLLOW set of the table is longer than `n`.
abbrev pub IsBrief : ℕ → Productions → Type 0
IsBrief n [] = Unit
IsBrief n (p ∷ ps) = (length p.follow_set ≤ n) × IsBrief n ps

pub IsBrief-set_follow :
    (n : ℕ) (m : Text) (s : List FirstElement) (ps : Productions)
    → length s ≤ n
    → IsBrief n ps
    → IsBrief n (set_follow m s ps)
unfolding set_follow
IsBrief-set_follow n m s [] l h = h
IsBrief-set_follow n m s (p ∷ ps) l h = elim (Bool-cases (text_eq m p.name)) [
  | inl k ↦ rw (k) (l, h.1)
  | inr k ↦ rw (k) (h.0, IsBrief-set_follow n m s ps l h.1)
]

pub follow_total_le : (n : ℕ) (ps : Productions) → IsBrief n ps → follow_total ps ≤ length ps * n
unfolding follow_total
follow_total_le n [] h = omega arith
follow_total_le n (p ∷ ps) h = grind (arith, h.0, follow_total_le n ps h.1)

-- What holds between two rounds: the sets of the table and the terminals of its bodies lie in `u`,
-- and no FOLLOW set holds epsilon or an element twice.
pub record IsLimited (t : Terminals) (u : List FirstElement) (ps : Productions) : Type 0 where
  pub clean : IsClean ps
  pub follows : (n : Text) → IsWithin (follow_entry (find n ps)) u
  pub firsts : (n : Text) → IsWithin (first_entry (find n ps)) u
  pub bodies :
      (n : Text) (p : ProductionInfo) → find n ps ≡ some p → IsWithin (terminals_of t p.body) u
  pub brief : IsBrief (length u) ps

-- The rounds that are left, at most: two for each element that is missing, which is one to add it
-- and one for the name that it makes pending, and the names that are pending now.
abbrev pub rounds_left : List FirstElement → FirstState → ℕ
rounds_left u s =
    (length s.productions * length u - follow_total s.productions) * 2 + length s.worklist.queue

-- A step that keeps what holds, and takes no rounds more than there were.
abbrev pub Limits : Terminals → List FirstElement → FirstState → FirstState → Type 0
Limits t u s r = IsLimited t u r.productions × (rounds_left u r ≤ rounds_left u s)

module _ (t : Terminals) (u : List FirstElement) (m : Text) (tail : List FirstElement)
    (s : FirstState) (c : ProductionInfo) (f : find m s.productions ≡ some c) (wt : IsWithin tail u)
    (h : IsLimited t u s.productions) where
  abbrev pub grown : List FirstElement
  grown = first_set_union c.follow_set tail false

  old_clean : (distinct c.follow_set ≡ true) × (first_set_contains_epsilon c.follow_set ≡ false)
  unfolding follow_entry
  old_clean =
      subst
        (λ o.
          (distinct (follow_entry o) ≡ true)
          × (first_set_contains_epsilon (follow_entry o) ≡ false))
        f (h.clean m)

  old-IsWithin : IsWithin c.follow_set u
  unfolding follow_entry
  old-IsWithin = subst (λ o. IsWithin (follow_entry o) u) f (h.follows m)

  grown-IsWithin : IsWithin grown u
  grown-IsWithin = IsWithin-union c.follow_set tail u false old-IsWithin wt

  length-grown : length grown ≤ length u
  length-grown =
      distinct-le grown u (distinct-union c.follow_set tail false old_clean.0) grown-IsWithin

  pub grown-IsLimited : IsLimited t u (set_follow m grown s.productions)
  unfolding follow_entry first_entry
  grown-IsLimited = record {
    clean = (set_follow-IsKept m tail s.productions c f).clean h.clean;
    follows =
        split_follow m tail s.productions c f (λ n o. IsWithin (follow_entry o) u) grown-IsWithin
          h.follows;
    firsts =
        split_follow m tail s.productions c f (λ n o. IsWithin (first_entry o) u)
          (subst (λ o. IsWithin (first_entry o) u) f (h.firsts m)) h.firsts;
    bodies =
        split_follow m tail s.productions c f
          (λ n o. (p : ProductionInfo) → o ≡ some p → IsWithin (terminals_of t p.body) u)
          (λ p e.
            subst (λ (q : ProductionInfo). IsWithin (terminals_of t q.body) u) (some_same e)
              (h.bodies m c f))
          h.bodies;
    brief = IsBrief-set_follow (length u) m grown s.productions length-grown h.brief;
  }

  pub set_follow-Limits :
      first_set_eq grown c.follow_set ≡ false
      → Limits t u s (record {
        productions = set_follow m grown s.productions;
        worklist = (push s.worklist c.name).0;
      })
  set_follow-Limits ne =
      let longer : length c.follow_set < length grown =
        length_lt c.follow_set grown old_clean.0
          (λ x k. found-union x c.follow_set tail false ∙ or_left _ _ k) ne in
      let size : length (set_follow m grown s.productions) ≡ length s.productions =
        length-set_follow m grown s.productions in
      let bound : follow_total (set_follow m grown s.productions)
          ≤ length s.productions * length u =
        subst (λ n. follow_total (set_follow m grown s.productions) ≤ n * length u) size
          (follow_total_le (length u) (set_follow m grown s.productions) grown-IsLimited.brief) in
      (
        grown-IsLimited,
        rw (size) (
            omega (
              arith,
              bound,
              longer,
              total-set_follow m grown s.productions c f,
              length-push s.worklist c.name,
            )),
      )
