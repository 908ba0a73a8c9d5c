-- ===== src/Pegc/Follow/Kept.antt =====
-- What walk_for_follow of pegc/frontend/PegAnalysis.cpp keeps.
use bbq.Base.{
  ◌≡◌, refl, sym, ap, ◌∙◌, subst, inl, inr, true, false, Option, none, some, List, [], ◌∷◌, arith,
  Bool-cases, or_left, none-some, some_same, if_true, if_false,
}
use bbq.Pegc.Names.{Text, text_eq, text_eq-same}
use bbq.Pegc.Ast.{FirstElement}
use bbq.Pegc.Sets.{found, first_set_union, first_set_contains_epsilon}
use bbq.Pegc.Sets.Laws.{found-union}
use bbq.Pegc.Sets.Distinct.{distinct, distinct-union}
use bbq.Pegc.First.{ProductionInfo, Productions, find, nullable_entry, first_entry}
use bbq.Pegc.First.Laws.{contains_epsilon-union}
use bbq.Pegc.First.Local.{Agree}
use bbq.Pegc.First.Bound.{IsWithin}
use bbq.Pegc.Kildall.Table.{find_here, find_later}
use bbq.Pegc.Follow.{set_follow, follow_entry}

find-none : (n : Text) → find n [] ≡ none
unfolding find
find-none n = refl

abbrev pub with_follow : List FirstElement → ProductionInfo → ProductionInfo
with_follow grew p = record p { follow_set = grew }

pub set_follow_here :
    (m : Text) (s : List FirstElement) (q : ProductionInfo) (ps : Productions)
    → text_eq m q.name ≡ true
    → set_follow m s (q ∷ ps) ≡ with_follow s q ∷ ps
unfolding set_follow
set_follow_here m s q ps h = if_true _ _ _ h

pub set_follow_later :
    (m : Text) (s : List FirstElement) (q : ProductionInfo) (ps : Productions)
    → text_eq m q.name ≡ false
    → set_follow m s (q ∷ ps) ≡ q ∷ set_follow m s ps
unfolding set_follow
set_follow_later m s q ps h = if_false _ _ _ h

pub find-set_follow :
    (m : Text) (s : List FirstElement) (ps : Productions) (p : ProductionInfo)
    → find m ps ≡ some p
    → find m (set_follow m s ps) ≡ some (with_follow s p)
find-set_follow m s [] p h = absurd (none-some (sym (find-none m) ∙ h))
find-set_follow m s (q ∷ ps) p h = elim (Bool-cases (text_eq m q.name)) [
  | inl k ↦
      ap (λ l. find m l) (set_follow_here m s q ps k)
      ∙ find_here m (with_follow s q) ps k
      ∙ ap (λ r. some (with_follow s r)) (some_same (sym (find_here m q ps k) ∙ h))
  | inr k ↦
      ap (λ l. find m l) (set_follow_later m s q ps k)
      ∙ find_later m q (set_follow m s ps) k
      ∙ find-set_follow m s ps p (sym (find_later m q ps k) ∙ h)
]

pub find-set_follow_ne :
    (n m : Text) (s : List FirstElement) (ps : Productions)
    → text_eq n m ≡ false
    → find n (set_follow m s ps) ≡ find n ps
unfolding find set_follow
find-set_follow_ne n m s [] h = refl
find-set_follow_ne n m s (q ∷ ps) h = elim (Bool-cases (text_eq m q.name)) [
  | inl k ↦
      let e : m ≡ q.name = text_eq-same m q.name k in
      let apart : text_eq n q.name ≡ false = ap (λ a. text_eq n a) (sym e) ∙ h in rw (k, apart) refl
  | inr k ↦ rw (k, find-set_follow_ne n m s ps h) refl
]

-- No FOLLOW set holds an element twice, or epsilon.
abbrev pub IsClean : Productions → Type 0
IsClean ps =
    (n : Text)
    → (distinct (follow_entry (find n ps)) ≡ true)
      × (first_set_contains_epsilon (follow_entry (find n ps)) ≡ false)

-- From one table to a later one: clean sets stay clean, no FOLLOW set loses an element, and FIRST
-- sets and the marks of what may match nothing are the same.
pub record IsKept (ps qs : Productions) : Type 0 where
  pub clean : IsClean ps → IsClean qs
  pub further : (n : Text) → IsWithin (follow_entry (find n ps)) (follow_entry (find n qs))
  pub agree : (n : Text) → Agree ps qs n

pub IsKept-same : (ps : Productions) → IsKept ps ps
IsKept-same ps = record { clean = λ c. c; further = λ n x k. k; agree = λ n. (refl, refl) }

pub IsKept-further : (ps qs rs : Productions) → IsKept ps qs → IsKept qs rs → IsKept ps rs
IsKept-further ps qs rs a b = record {
  clean = λ c. b.clean (a.clean c);
  further = λ n x k. b.further n x (a.further n x k);
  agree = λ n. ((a.agree n).0 ∙ (b.agree n).0, (a.agree n).1 ∙ (b.agree n).1);
}

module _ (m : Text) (tail : List FirstElement) (ps : Productions) (c : ProductionInfo)
    (f : find m ps ≡ some c) where
  abbrev pub grew : List FirstElement
  grew = first_set_union c.follow_set tail false

  pub split_follow :
      (P : Text → Option ProductionInfo → Type 0)
      → P m (some (with_follow grew c))
      → ((n : Text) → P n (find n ps))
      → (n : Text) → P n (find n (set_follow m grew ps))
  split_follow P here there n = elim (Bool-cases (text_eq n m)) [
    | inl k ↦
        subst (λ a. P a (find a (set_follow m grew ps))) (sym (text_eq-same n m k))
          (subst (λ o. P m o) (sym (find-set_follow m grew ps c f)) here)
    | inr k ↦ subst (λ o. P n o) (sym (find-set_follow_ne n m grew ps k)) (there n)
  ]

  pub set_follow-IsKept : IsKept ps (set_follow m grew ps)
  unfolding follow_entry first_entry nullable_entry
  set_follow-IsKept = record {
    clean = λ h.
        split_follow
          (λ n o.
            (distinct (follow_entry o) ≡ true)
            × (first_set_contains_epsilon (follow_entry o) ≡ false))
          (mine h) h;
    further =
        split_follow (λ n o. IsWithin (follow_entry (find n ps)) (follow_entry o)) wider
          (λ n x k. k);
    agree =
        split_follow
          (λ n o.
            (nullable_entry (find n ps) ≡ nullable_entry o)
            × (first_entry (find n ps) ≡ first_entry o))
          (ap (λ o. nullable_entry o) f, ap (λ o. first_entry o) f) (λ n. (refl, refl));
  }
    where
      mine : IsClean ps → (distinct grew ≡ true) × (first_set_contains_epsilon grew ≡ false)
      mine h =
          let old : (distinct c.follow_set ≡ true)
              × (first_set_contains_epsilon c.follow_set ≡ false) =
            subst
              (λ o.
                (distinct (follow_entry o) ≡ true)
                × (first_set_contains_epsilon (follow_entry o) ≡ false))
              f (h m) in
          (
            distinct-union c.follow_set tail false old.0,
            contains_epsilon-union c.follow_set tail false ∙ ground (arith, old.1),
          )

      wider : IsWithin (follow_entry (find m ps)) grew
      wider x k =
          found-union x c.follow_set tail false
          ∙ or_left _ _ (sym (ap (λ o. found x (follow_entry o)) f) ∙ k)
