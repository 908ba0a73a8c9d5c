-- ===== src/Pegc/LeftRec/Chain.antt =====
-- Chains of leftmost calls, and has_left_path of pegc/frontend/PegAnalysis.cpp.
use bbq.Base.{
  ℕ, ◌<◌, ◌≡◌, refl, sym, ◌∙◌, subst, ◌⊎◌, inl, inr, Bool, true, false, ◌||◌, Option, none, some,
  List, [], ◌∷◌, arith, Bool-cases, Answered, by_answer, or_left, or_right, or_cases, when_true,
  when_false, true-false, if_true,
}
use bbq.Pegc.Names.{Text, text_eq, count, text_eq_self, text_eq-same}
use bbq.Pegc.First.{Productions, find}
use bbq.Pegc.Kildall.{all_names}
use bbq.Pegc.Graph.Reach.{unvisited, IsGrown, unvisited_le}
use bbq.Pegc.LeftRec.{leftmost, try_all}

-- The leftmost calls of a name; none where it is not declared.
unfoldable pub left_calls : Text → Productions → List Text
left_calls n ps = elim (find n ps) [ none ↦ [] | some p ↦ leftmost p.body ]

-- A chain of leftmost calls, of one call at least.
pub data LeftChain (ps : Productions) : Text → Text → Type 0 where
  last_call : {n m : Text} → count m (left_calls n ps) ≡ true → LeftChain ps n m
  first_call :
      {n d m : Text} → count d (left_calls n ps) ≡ true → LeftChain ps d m → LeftChain ps n m

-- After a search that found nothing: each new name has been searched, so none of its leftmost calls
-- is the target, and those that are declared have been visited.
pub record IsSearched (ps : Productions) (to : Text) (v w : List Text) : Type 0 where
  pub grown : IsGrown v w
  pub missed :
      (m d : Text)
      → count m w ≡ true
      → count m v ≡ false
      → count d (left_calls m ps) ≡ true
      → (text_eq d to ≡ false) × (count d (all_names ps) ≡ true → count d w ≡ true)

-- What a search from `from` answers: a chain, or nothing and the names that it has been through.
abbrev pub Answer : Productions → Text → Text → List Text → Bool × List Text → Type 0
Answer ps to from v r =
    Answered r.0 (LeftChain ps from to)
      ((count from (all_names ps) ≡ true → count from r.1 ≡ true) × IsSearched ps to v r.1)

-- The same of the loop over leftmost calls.
abbrev pub AnswerAll : Productions → Text → List Text → List Text → Bool × List Text → Type 0
AnswerAll ps to ds v r =
    Answered r.0 ((d : Text) × (count d ds ≡ true) × ((text_eq d to ≡ true) ⊎ LeftChain ps d to)) (
      ((d : Text)
        → count d ds ≡ true
        → (text_eq d to ≡ false) × (count d (all_names ps) ≡ true → count d r.1 ≡ true))
      × IsSearched ps to v r.1)

join-IsSearched :
    (ps : Productions) (to : Text) (v u w : List Text)
    → IsSearched ps to v u
    → IsSearched ps to u w
    → IsSearched ps to v w
join-IsSearched ps to v u w a b = record {
  grown = λ m k. b.grown m (a.grown m k);
  missed = λ m d k l e. elim (Bool-cases (count m u)) [
    | inl i ↦ let before = a.missed m d i l e in (before.0, λ q. b.grown d (before.1 q))
    | inr i ↦ b.missed m d k i e
  ];
}

module _ (ps : Productions) (to : Text) (b : ℕ)
    (path : Text → List Text → Option (Bool × List Text))
    (one : (n : Text) (v : List Text)
      → unvisited (all_names ps) v < b
      → (r : Bool × List Text) × (path n v ≡ some r) × Answer ps to n v r) where
  try_found :
      (d : Text) (ds v : List Text) (r : Bool × List Text)
      → text_eq d to ≡ false
      → path d v ≡ some r
      → r.0 ≡ true
      → try_all path to (d ∷ ds) v ≡ some r
  unfolding try_all
  try_found d ds v r k e l = ground (arith, k, e, l)

  try_next :
      (d : Text) (ds v : List Text) (r : Bool × List Text)
      → text_eq d to ≡ false
      → path d v ≡ some r
      → r.0 ≡ false
      → try_all path to (d ∷ ds) v ≡ try_all path to ds r.1
  unfolding try_all
  try_next d ds v r k e l = ground (arith, k, e, l)

  every :
      (d : Text) (ds u w : List Text)
      → text_eq d to ≡ false
      → (count d (all_names ps) ≡ true → count d u ≡ true)
      → IsGrown u w
      → ((c : Text)
          → count c ds ≡ true
          → (text_eq c to ≡ false) × (count c (all_names ps) ≡ true → count c w ≡ true))
      → (c : Text) → text_eq c d || count c ds ≡ true
      → (text_eq c to ≡ false) × (count c (all_names ps) ≡ true → count c w ≡ true)
  every d ds u w k here g later c i = elim (or_cases _ _ i) [
    | inl q ↦
        let same : d ≡ c = sym (text_eq-same c d q) in
        subst (λ a. (text_eq a to ≡ false) × (count a (all_names ps) ≡ true → count a w ≡ true))
          same (k, λ m. g d (here m))
    | inr q ↦ later c q
  ]

  pub try_all_lem :
      (ds v : List Text)
      → unvisited (all_names ps) v < b
      → (r : Bool × List Text) × (try_all path to ds v ≡ some r) × AnswerAll ps to ds v r
  unfolding try_all count
  try_all_lem [] v h = (
    (false, v),
    refl,
    (
      (λ d k. absurd (true-false (sym k))),
      record { grown = λ m k. k; missed = λ m d k l e. absurd (true-false (sym k ∙ l)) },
    ),
  )
  try_all_lem (d ∷ ds) v h = elim (Bool-cases (text_eq d to)) [
    | inl k ↦ ((true, v), if_true _ _ _ k, (d, or_left _ _ (text_eq_self d), inl k))
    | inr k ↦
        let first = one d v h in
        elim (Bool-cases first.0.0) [
          | inl l ↦ (
            first.0,
            try_found d ds v first.0 k first.1 l,
            by_answer first.0.0 _ _
                (λ e. (d, or_left _ _ (text_eq_self d), inr (when_true first.0.0 _ _ l first.2)))
                (λ e. absurd (true-false (sym l ∙ e))),
          )
          | inr l ↦
              let u : List Text = first.0.1 in
              let missed : (count d (all_names ps) ≡ true → count d u ≡ true)
                  × IsSearched ps to v u =
                when_false first.0.0 _ _ l first.2 in
              let rest =
                try_all_lem ds u
                  (omega (arith, h, unvisited_le (all_names ps) v u missed.1.grown)) in
              (
                rest.0,
                try_next d ds v first.0 k first.1 l ∙ rest.1,
                by_answer rest.0.0 _ _
                    (λ e. let r = when_true rest.0.0 _ _ e rest.2 in (r.0, or_right _ _ r.1, r.2))
                    (λ e.
                      let r = when_false rest.0.0 _ _ e rest.2 in
                      (
                        λ c i. every d ds u rest.0.1 k missed.0 r.1.grown r.0 c i,
                        join-IsSearched ps to v u rest.0.1 missed.1 r.1,
                      )),
              )
        ]
  ]
