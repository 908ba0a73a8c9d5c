-- ===== src/Pegc/Kildall/Invariant.antt =====
-- What holds between two rounds of compute_first_sets of pegc/frontend/PegAnalysis.cpp.
use bbq.Base.{
  ◌≤◌, ◌<◌, ◌≡◌, refl, sym, ap, ◌∙◌, subst, inl, inr, true, false, Option, some, List, [], ◌∷◌,
  Bool-cases, or_left, or_right, or_cases, length,
}
use bbq.Pegc.Names.{Text, text_eq, count, text_eq-same}
use bbq.Pegc.Ast.{PegExpr, FirstElement, epsilon}
use bbq.Pegc.Sets.{found, first_set_eq, first_set_contains_epsilon}
use bbq.Pegc.Sets.Laws.{first_element_eq_self}
use bbq.Pegc.Sets.Distinct.{distinct, distinct-le, length_lt}
use bbq.Pegc.First.{
  ProductionInfo, Productions, find, Terminals, nullable_entry, first_entry, first_of,
}
use bbq.Pegc.First.Laws.{found-epsilon, IsConsistent}
use bbq.Pegc.First.Bound.{terminals_of, IsWithin, IsWithin-first_of}
use bbq.Pegc.First.Unique.{distinct-first_of}
use bbq.Pegc.First.Grow.{IsPlain, first_of_grow}
use bbq.Pegc.Collect.{is_declared, Callers, callers_of}
use bbq.Pegc.Collect.Calls.{calls}
use bbq.Pegc.Kildall.{with_first, set_first}
use bbq.Pegc.Kildall.Table.{
  find-set_first, find-set_first_ne, find-set_first_back, is_declared-set_first,
}

-- The callers that the graph has are the productions that call, and no other name.
pub record IsWired (t : Terminals) (callers : List Callers) (ps : Productions) : Type 0 where
  pub wired :
      (n m : Text) (p : ProductionInfo)
      → find m ps ≡ some p
      → calls t n p.body ≡ true
      → count m (callers_of n callers) ≡ true
  pub known : (n m : Text) → count m (callers_of n callers) ≡ true → is_declared m ps ≡ true

-- The sets of the table lie in `u`, hold nothing twice, and hold nothing that the bodies' sets do
-- not hold; and a production is marked as nullable where its set holds epsilon.
pub record IsRising (t : Terminals) (u : List FirstElement) (ps : Productions) : Type 0 where
  pub covered :
      (n : Text) (p : ProductionInfo) → find n ps ≡ some p → IsWithin (terminals_of t p.body) u
  pub bounded : (n : Text) → IsWithin (first_entry (find n ps)) u
  pub unique : (n : Text) → distinct (first_entry (find n ps)) ≡ true
  pub consistent : IsConsistent ps
  pub rising :
      (n : Text) (p : ProductionInfo)
      → find n ps ≡ some p
      → IsWithin p.first_set (first_of t ps p.body)

-- Each name that is pending is a production, and a production that is neither pending nor left
-- recursive has the set of its body.
pub record IsPending (t : Terminals) (ps : Productions) (queue : List Text) : Type 0 where
  pub queued : (n : Text) → count n queue ≡ true → is_declared n ps ≡ true
  pub settled :
      (n : Text) (p : ProductionInfo)
      → find n ps ≡ some p
      → p.left_recursive ≡ false
      → count n queue ≡ false
      → first_set_eq (first_of t ps p.body) p.first_set ≡ true

pub set_first-IsWired :
    (t : Terminals) (callers : List Callers) (ps : Productions) (m : Text) (s : List FirstElement)
    (info : ProductionInfo)
    → find m ps ≡ some info
    → IsWired t callers ps
    → IsWired t callers (set_first m s ps)
set_first-IsWired t callers ps m s info f h = record {
  wired = λ n k q g c. elim (find-set_first_back k m s ps info q f g) [
    | inl e ↦
        h.wired n k info (ap (λ a. find a ps) (text_eq-same k m e.0) ∙ f)
          (sym (ap (λ r. calls t n r.body) e.1) ∙ c)
    | inr e ↦ h.wired n k q e.1 c
  ];
  known = λ n k c. is_declared-set_first k m s ps info f (h.known n k c);
}

pub contains_epsilon_grow :
    (a b : List FirstElement)
    → IsWithin a b
    → first_set_contains_epsilon a ≡ true
    → first_set_contains_epsilon b ≡ true
unfolding first_set_contains_epsilon found
contains_epsilon_grow [] b w h = cc
contains_epsilon_grow (x ∷ a) b w h = elim (or_cases _ _ h) [
  | inl k ↦ found-epsilon x b k (w x (or_left _ _ (first_element_eq_self x)))
  | inr k ↦ contains_epsilon_grow a b (λ y m. w y (or_right _ _ m)) k
]

-- A larger set in the table's place, of the body as the table has it.
module _ (t : Terminals) (u : List FirstElement) (plain : IsPlain u)
    (he : IsWithin (epsilon ∷ []) u) (ps : Productions) (m : Text) (info : ProductionInfo)
    (f : find m ps ≡ some info) (h : IsRising t u ps) where
  abbrev fresh : List FirstElement
  fresh = first_of t ps info.body

  abbrev next : Productions
  next = set_first m fresh ps

  found_next : find m next ≡ some (with_first fresh info)
  found_next = find-set_first m fresh ps info f

  IsWithin-fresh : IsWithin fresh u
  IsWithin-fresh = IsWithin-first_of t ps u he h.bounded info.body (h.covered m info f)

  -- To show something of a table's set: for the production that was set, and for every other.
  split_next :
      (P : Text → Option ProductionInfo → Type 0)
      → P m (some (with_first fresh info))
      → ((n : Text) → text_eq n m ≡ false → P n (find n ps))
      → (n : Text) → P n (find n next)
  split_next P here there n = elim (Bool-cases (text_eq n m)) [
    | inl k ↦
        subst (λ a. P a (find a next)) (sym (text_eq-same n m k))
          (subst (λ o. P m o) (sym found_next) here)
    | inr k ↦ subst (λ o. P n o) (sym (find-set_first_ne n m fresh ps k)) (there n k)
  ]

  rising_here : IsWithin (first_entry (find m ps)) fresh
  unfolding first_entry
  rising_here = subst (λ o. IsWithin (first_entry o) fresh) (sym f) (h.rising m info f)

  entries_grow : (n : Text) → IsWithin (first_entry (find n ps)) (first_entry (find n next))
  unfolding first_entry
  entries_grow =
      split_next (λ n o. IsWithin (first_entry (find n ps)) (first_entry o)) rising_here
        (λ n a x k. k)

  next_bounded : (n : Text) → IsWithin (first_entry (find n next)) u
  unfolding first_entry
  next_bounded = split_next (λ n o. IsWithin (first_entry o) u) IsWithin-fresh (λ n a. h.bounded n)

  next_unique : (n : Text) → distinct (first_entry (find n next)) ≡ true
  unfolding first_entry
  next_unique =
      split_next (λ n o. distinct (first_entry o) ≡ true)
        (distinct-first_of t ps h.unique info.body) (λ n a. h.unique n)

  next-IsConsistent : IsConsistent next
  unfolding first_entry nullable_entry
  next-IsConsistent =
      split_next (λ n o. nullable_entry o ≡ first_set_contains_epsilon (first_entry o)) refl
        (λ n a. h.consistent n)

  nullable_grow :
      (n : Text) → nullable_entry (find n ps) ≡ true → nullable_entry (find n next) ≡ true
  nullable_grow n k =
      next-IsConsistent n ∙ contains_epsilon_grow _ _ (entries_grow n) (sym (h.consistent n) ∙ k)

  bodies_grow :
      (e : PegExpr) → IsWithin (terminals_of t e) u → IsWithin (first_of t ps e) (first_of t next e)
  bodies_grow e w =
      first_of_grow t ps next u e nullable_grow entries_grow h.consistent next-IsConsistent plain
        (IsWithin-first_of t ps u he h.bounded e w) (IsWithin-first_of t next u he next_bounded e w)

  pub next-IsRising : IsRising t u next
  next-IsRising = record {
    covered = λ n q g. elim (find-set_first_back n m fresh ps info q f g) [
      | inl e ↦ subst (λ r. IsWithin (terminals_of t r.body) u) (sym e.1) (h.covered m info f)
      | inr e ↦ h.covered n q e.1
    ];
    bounded = next_bounded;
    unique = next_unique;
    consistent = next-IsConsistent;
    rising = λ n q g. elim (find-set_first_back n m fresh ps info q f g) [
      | inl e ↦
          subst (λ (r : ProductionInfo). IsWithin r.first_set (first_of t next r.body)) (sym e.1)
            (bodies_grow info.body (h.covered m info f))
      | inr e ↦ λ x k. bodies_grow q.body (h.covered n q e.1) x (h.rising n q e.1 x k)
    ];
  }

  pub length-fresh : length fresh ≤ length u
  length-fresh = distinct-le fresh u (distinct-first_of t ps h.unique info.body) IsWithin-fresh

  -- A production whose set changed has more in it.
  pub fresh_longer :
      first_set_eq fresh info.first_set ≡ false → length info.first_set < length fresh
  unfolding first_entry
  fresh_longer k =
      let once : distinct info.first_set ≡ true =
        subst (λ o. distinct (first_entry o) ≡ true) f (h.unique m) in
      length_lt info.first_set fresh once (h.rising m info f) k
