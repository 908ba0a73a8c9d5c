-- ===== src/Pegc/LeftRec/Path.antt =====
-- What has_left_path of pegc/frontend/PegAnalysis.cpp answers.
use bbq.Base.{
  ℕ, zero, suc, ◌<◌, ◌≡◌, refl, sym, ap, ◌∙◌, subst, ◌↔◌, ◌⊎◌, inl, inr, Bool, true, false, ◌||◌,
  Option, none, some, List, [], ◌∷◌, arith, Bool-cases, by_answer, or_left, when_true, when_false,
  true-false, none-some, some_same, Option-cases, length,
}
use bbq.Pegc.Names.{Text, text_eq, count, insert, text_eq_self, text_eq-same, count-insert}
use bbq.Pegc.First.{ProductionInfo, Productions, find}
use bbq.Pegc.Kildall.{all_names}
use bbq.Pegc.Kildall.Table.{find-declared}
use bbq.Pegc.Kildall.Start.{find-count, count-is_declared}
use bbq.Pegc.Graph.Reach.{unvisited, grown-insert, unvisited_lt, unvisited_length}
use bbq.Pegc.LeftRec.{leftmost, try_all, has_left_path}
use bbq.Pegc.LeftRec.Chain.{
  left_calls, LeftChain, last_call, first_call, IsSearched, Answer, try_all_lem,
}

left_calls-find :
    (n d : Text) (ps : Productions) (p : ProductionInfo)
    → find n ps ≡ some p
    → count d (left_calls n ps) ≡ count d (leftmost p.body)
unfolding left_calls
left_calls-find n d ps p f =
    ap (λ (o : Option ProductionInfo). count d (elim o [ none ↦ [] | some q ↦ leftmost q.body ])) f

left_calls-declared :
    (n d : Text) (ps : Productions)
    → count d (left_calls n ps) ≡ true
    → count n (all_names ps) ≡ true
unfolding left_calls find all_names count
left_calls-declared n d [] h = cc
left_calls-declared n d (p ∷ ps) h = ground (arith, h, left_calls-declared n d ps)

IsSearched-same : (ps : Productions) (to : Text) (v : List Text) → IsSearched ps to v v
IsSearched-same ps to v = record {
  grown = λ m k. k;
  missed = λ m d k l e. absurd (true-false (sym k ∙ l));
}

module _ (ps : Productions) (to from : Text) (p : ProductionInfo) (f : find from ps ≡ some p) where
  leave_true :
      ((d : Text) × (count d (leftmost p.body) ≡ true)
        × ((text_eq d to ≡ true) ⊎ LeftChain ps d to))
      → LeftChain ps from to
  leave_true r =
      let called : count r.0 (left_calls from ps) ≡ true = left_calls-find from r.0 ps p f ∙ r.1 in
      elim r.2 [
        | inl e ↦ subst (λ a. LeftChain ps from a) (text_eq-same r.0 to e) (last_call called)
        | inr c ↦ first_call called c
      ]

  leave_false :
      (v w : List Text)
      → ((d : Text)
          → count d (leftmost p.body) ≡ true
          → (text_eq d to ≡ false) × (count d (all_names ps) ≡ true → count d w ≡ true))
      → IsSearched ps to (insert from v) w
      → (count from (all_names ps) ≡ true → count from w ≡ true) × IsSearched ps to v w
  leave_false v w all s = (
    (λ k. s.grown from (count-insert from from v ∙ or_left _ _ (text_eq_self from))),
    record {
      grown = λ m i. s.grown m (grown-insert from v m i);
      missed = λ m d i l c. elim (Bool-cases (text_eq m from)) [
        | inl q ↦ all d (
            sym (left_calls-find from d ps p f)
            ∙ ap (λ a. count d (left_calls a ps)) (sym (text_eq-same m from q))
            ∙ c)
        | inr q ↦ s.missed m d i (count-insert m from v ∙ ap (λ b. b || count m v) q ∙ l) c
      ];
    },
  )

path_undeclared :
    (fuel : ℕ) (ps : Productions) (to from : Text) (v : List Text)
    → find from ps ≡ none
    → has_left_path (suc fuel) ps to from v ≡ some (false, v)
unfolding has_left_path
path_undeclared fuel ps to from v e = cc

path_visited :
    (fuel : ℕ) (ps : Productions) (to from : Text) (v : List Text) (p : ProductionInfo)
    → find from ps ≡ some p
    → count from v ≡ true
    → has_left_path (suc fuel) ps to from v ≡ some (false, v)
unfolding has_left_path
path_visited fuel ps to from v p e k = cc

path_enters :
    (fuel : ℕ) (ps : Productions) (to from : Text) (v : List Text) (p : ProductionInfo)
    → find from ps ≡ some p
    → count from v ≡ false
    → has_left_path (suc fuel) ps to from v
      ≡ try_all (has_left_path fuel ps to) to (leftmost p.body) (insert from v)
unfolding has_left_path
path_enters fuel ps to from v p e k = cc

path_lem :
    (ps : Productions) (to : Text) (fuel : ℕ) (from : Text) (v : List Text)
    → unvisited (all_names ps) v < fuel
    → (r : Bool × List Text) × (has_left_path fuel ps to from v ≡ some r) × Answer ps to from v r
path_lem ps to zero from v h = absurd (omega arith)
path_lem ps to (suc fuel) from v h = elim (Option-cases (find from ps)) [
  | inl e ↦ (
    (false, v),
    path_undeclared fuel ps to from v e,
    (
      (λ k. absurd (none-some (sym e ∙ (find-declared from ps (count-is_declared from ps k)).1))),
      IsSearched-same ps to v,
    ),
  )
  | inr e ↦ elim (Bool-cases (count from v)) [
    | inl k ↦
        ((false, v), path_visited fuel ps to from v e.0 e.1 k, ((λ c. k), IsSearched-same ps to v))
    | inr k ↦
        let inner =
          try_all_lem ps to fuel (has_left_path fuel ps to) (path_lem ps to fuel)
            (leftmost e.0.body) (insert from v)
            (omega (arith, h, unvisited_lt (all_names ps) from v (find-count from ps e.0 e.1) k)) in
        (
          inner.0,
          path_enters fuel ps to from v e.0 e.1 k ∙ inner.1,
          by_answer inner.0.0 _ _
              (λ l. leave_true ps to from e.0 e.1 (when_true inner.0.0 _ _ l inner.2))
              (λ l.
                let r = when_false inner.0.0 _ _ l inner.2 in
                leave_false ps to from e.0 e.1 v inner.0.1 r.0 r.1),
        )
  ]
]

chain-declared : (ps : Productions) (n m : Text) → LeftChain ps n m → count n (all_names ps) ≡ true
chain-declared ps n m (last_call {m = d} c) = left_calls-declared n d ps c
chain-declared ps n m (first_call {d = d} c r) = left_calls-declared n d ps c

no_chain :
    (ps : Productions) (to : Text) (w : List Text)
    → IsSearched ps to [] w
    → (n : Text) → count n w ≡ true
    → LeftChain ps n to
    → ⊥
unfolding count
no_chain ps to w s n k (last_call c) =
    true-false (sym (text_eq_self to) ∙ (s.missed n to k refl c).0)
no_chain ps to w s n k (first_call {d = d} c r) =
    no_chain ps to w s d ((s.missed n d k refl c).1 (chain-declared ps d to r)) r

pub has_left_path_ends :
    (ps : Productions) (to from : Text) (fuel : ℕ)
    → length (all_names ps) < fuel
    → (r : Bool × List Text) × (has_left_path fuel ps to from [] ≡ some r)
has_left_path_ends ps to from fuel h =
    let r = path_lem ps to fuel from [] (omega (arith, h, unvisited_length (all_names ps) [])) in
    (r.0, r.1)

-- With depth for each declared name and one more: has_left_path, from nothing visited, answers true
-- exactly where a chain of leftmost calls, one at least, leads from the one name to the other.
pub has_left_path_lem :
    (ps : Productions) (to from : Text) (fuel : ℕ) (r : Bool × List Text)
    → length (all_names ps) < fuel
    → has_left_path fuel ps to from [] ≡ some r
    → (r.0 ≡ true) ↔ LeftChain ps from to
has_left_path_lem ps to from fuel r h run = (λ k. when_true r.0 _ _ k answer, conversely)
  where
    answer : Answer ps to from [] r
    answer =
        let q =
          path_lem ps to fuel from [] (omega (arith, h, unvisited_length (all_names ps) [])) in
        subst (λ (a : Bool × List Text). Answer ps to from [] a) (some_same (sym q.1 ∙ run)) q.2

    conversely : LeftChain ps from to → r.0 ≡ true
    conversely c = elim (Bool-cases r.0) [
      | inl k ↦ k
      | inr k ↦
          let a = when_false r.0 _ _ k answer in
          absurd (no_chain ps to r.1 a.1 from (a.0 (chain-declared ps from to c)) c)
    ]
