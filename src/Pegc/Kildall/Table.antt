-- ===== src/Pegc/Kildall/Table.antt =====
-- The table of productions when the FIRST set of one of them is set, in compute_first_sets of
-- pegc/frontend/PegAnalysis.cpp.
use bbq.Base.{
  ℕ, ◌+◌, ◌≡◌, refl, sym, ap, ◌∙◌, ◌⊎◌, inl, inr, Bool, true, false, ◌&&◌, none, some, List, [],
  ◌∷◌, arith, Bool-cases, and_parts, none-some, some_same, Option-cases, if_true, if_false, length,
}
use bbq.Pegc.Names.{Text, text_eq, text_eq-same}
use bbq.Pegc.Ast.{FirstElement}
use bbq.Pegc.First.{ProductionInfo, Productions, find}
use bbq.Pegc.Collect.{is_declared}
use bbq.Pegc.Kildall.{with_first, set_first}

pub find_here :
    (n : Text) (q : ProductionInfo) (ps : Productions)
    → text_eq n q.name ≡ true
    → find n (q ∷ ps) ≡ some q
unfolding find
find_here n q ps h = if_true _ _ _ h

pub find_later :
    (n : Text) (q : ProductionInfo) (ps : Productions)
    → text_eq n q.name ≡ false
    → find n (q ∷ ps) ≡ find n ps
unfolding find
find_later n q ps h = if_false _ _ _ h

set_first_here :
    (m : Text) (s : List FirstElement) (q : ProductionInfo) (ps : Productions)
    → text_eq m q.name ≡ true
    → set_first m s (q ∷ ps) ≡ with_first s q ∷ ps
unfolding set_first
set_first_here m s q ps h = if_true _ _ _ h

set_first_later :
    (m : Text) (s : List FirstElement) (q : ProductionInfo) (ps : Productions)
    → text_eq m q.name ≡ false
    → set_first m s (q ∷ ps) ≡ q ∷ set_first m s ps
unfolding set_first
set_first_later m s q ps h = if_false _ _ _ h

pub find-set_first :
    (m : Text) (s : List FirstElement) (ps : Productions) (p : ProductionInfo)
    → find m ps ≡ some p
    → find m (set_first m s ps) ≡ some (with_first s p)
unfolding find
find-set_first m s [] p h = absurd (find-none m p h)
  where
    find-none : (n : Text) (q : ProductionInfo) → find n [] ≡ some q → ⊥
    find-none n q e = cc
find-set_first m s (q ∷ ps) p h = elim (Bool-cases (text_eq m q.name)) [
  | inl k ↦
      ap (λ l. find m l) (set_first_here m s q ps k)
      ∙ find_here m (with_first s q) ps k
      ∙ ap (λ r. some (with_first s r)) (some_same (sym (find_here m q ps k) ∙ h))
  | inr k ↦
      ap (λ l. find m l) (set_first_later m s q ps k)
      ∙ find_later m q (set_first m s ps) k
      ∙ find-set_first m s ps p (sym (find_later m q ps k) ∙ h)
]

pub find-set_first_ne :
    (n m : Text) (s : List FirstElement) (ps : Productions)
    → text_eq n m ≡ false
    → find n (set_first m s ps) ≡ find n ps
unfolding find set_first
find-set_first_ne n m s [] h = refl
find-set_first_ne n m s (q ∷ ps) h = elim (Bool-cases (text_eq m q.name)) [
  | inl k ↦
      let e : m ≡ q.name = text_eq-same m q.name k in
      let apart : text_eq n q.name ≡ false = ap (λ a. text_eq n a) (sym e) ∙ h in rw (k, apart) refl
  | inr k ↦ rw (k, find-set_first_ne n m s ps h) refl
]

-- Whose FIRST set is set keeps its body and its mark.
pub find-set_first_back :
    (n m : Text) (s : List FirstElement) (ps : Productions) (info q : ProductionInfo)
    → find m ps ≡ some info
    → find n (set_first m s ps) ≡ some q
    → ((text_eq n m ≡ true) × (q ≡ with_first s info))
      ⊎ ((text_eq n m ≡ false) × (find n ps ≡ some q))
find-set_first_back n m s ps info q f h = elim (Bool-cases (text_eq n m)) [
  | inl k ↦
      let e : n ≡ m = text_eq-same n m k in
      inl (
        k,
        some_same (sym h ∙ ap (λ a. find a (set_first m s ps)) e ∙ find-set_first m s ps info f),
      )
  | inr k ↦ inr (k, sym (find-set_first_ne n m s ps k) ∙ h)
]

pub find-declared :
    (n : Text) (ps : Productions)
    → is_declared n ps ≡ true
    → (p : ProductionInfo) × (find n ps ≡ some p)
unfolding is_declared
find-declared n ps h = elim (Option-cases (find n ps)) [ inl e ↦ absurd (undeclared e) | inr e ↦ e ]
  where
    undeclared : find n ps ≡ none → ⊥
    undeclared e = cc

pub find-is_declared :
    (n : Text) (ps : Productions) (p : ProductionInfo)
    → find n ps ≡ some p
    → is_declared n ps ≡ true
unfolding is_declared
find-is_declared n ps p h = ground (arith, h)

pub is_declared-set_first :
    (n m : Text) (s : List FirstElement) (ps : Productions) (info : ProductionInfo)
    → find m ps ≡ some info
    → is_declared n ps ≡ true
    → is_declared n (set_first m s ps) ≡ true
is_declared-set_first n m s ps info f h = elim (Bool-cases (text_eq n m)) [
  | inl k ↦
      find-is_declared n (set_first m s ps) (with_first s info)
        (ap (λ a. find a (set_first m s ps)) (text_eq-same n m k) ∙ find-set_first m s ps info f)
  | inr k ↦
      let p = find-declared n ps h in
      find-is_declared n (set_first m s ps) p.0 (find-set_first_ne n m s ps k ∙ p.1)
]

-- The number of elements in all FIRST sets together.
unfoldable pub total : Productions → ℕ
total [] = 0
total (p ∷ ps) = length p.first_set + total ps

pub total-set_first :
    (m : Text) (s : List FirstElement) (ps : Productions) (p : ProductionInfo)
    → find m ps ≡ some p
    → total (set_first m s ps) + length p.first_set ≡ total ps + length s
unfolding find set_first total
total-set_first m s [] p h = cc
total-set_first m s (q ∷ ps) p h = elim (Bool-cases (text_eq m q.name)) [
  | inl k ↦ let e : q ≡ p = some_same (sym (if_true _ _ _ k) ∙ h) in rw (k, ← e) (omega arith)
  | inr k ↦
      let rest : total (set_first m s ps) + length p.first_set ≡ total ps + length s =
        total-set_first m s ps p (sym (if_false _ _ _ k) ∙ h) in
      rw (k) (omega (arith, rest))
]

-- What holds of every production of a table holds of the one that is found.
unfoldable pub every : (ProductionInfo → Bool) → Productions → Bool
every test [] = true
every test (p ∷ ps) = test p && every test ps

pub find-every :
    (test : ProductionInfo → Bool) (n : Text) (ps : Productions) (p : ProductionInfo)
    → every test ps ≡ true
    → find n ps ≡ some p
    → test p ≡ true
unfolding every find
find-every test n [] p h f = absurd (none-some f)
find-every test n (q ∷ ps) p h f = elim (Bool-cases (text_eq n q.name)) [
  | inl k ↦ ap (λ r. test r) (some_same (sym f ∙ if_true _ _ _ k)) ∙ (and_parts _ _ h).0
  | inr k ↦ find-every test n ps p (and_parts _ _ h).1 (sym (if_false _ _ _ k) ∙ f)
]
