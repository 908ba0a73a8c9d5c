-- ===== src/Pegc/Graph/Mark.antt =====
-- What mark_reachable of pegc/frontend/PegAnalysis.cpp marks.
use bbq.Base.{
  ℕ, zero, suc, ◌<◌, ◌≡◌, refl, sym, ap, ◌∙◌, subst, ◌↔◌, inl, inr, true, false, ◌||◌, some, List,
  [], ◌∷◌, arith, Bool-cases, or_left, or_cases, true-false, length,
}
use bbq.Pegc.Names.{Text, text_eq, count, insert, text_eq_self, text_eq-same, count-insert}
use bbq.Pegc.First.{Productions, find}
use bbq.Pegc.Kildall.{all_names}
use bbq.Pegc.Graph.{deps_of, visit_all, mark_reachable}
use bbq.Pegc.Graph.Reach.{
  Reaches, arrived, calls_on, unvisited, grown-insert, unvisited_lt, IsVisit, visit_all_lem,
  unvisited_length,
}

pub deps-declared :
    (n d : Text) (ps : Productions) → count d (deps_of n ps) ≡ true → count n (all_names ps) ≡ true
unfolding deps_of find all_names count
deps-declared n d [] h = cc
deps-declared n d (p ∷ ps) h = ground (arith, h, deps-declared n d ps)

pub deps_none : (n : Text) (ps : Productions) → count n (all_names ps) ≡ false → deps_of n ps ≡ []
unfolding deps_of find all_names count
deps_none n [] h = refl
deps_none n (p ∷ ps) h = ground (arith, h, deps_none n ps)

-- The visits of the calls of `n`, once `n` is marked.
abbrev Entered : Productions → ℕ → Text → List Text → Type 0
Entered ps fuel n v =
    (w : List Text) × (visit_all (mark_reachable fuel ps) (deps_of n ps) (insert n v) ≡ some w)
    × ((d : Text) → count d (deps_of n ps) ≡ true → count d w ≡ true)
    × IsVisit ps (insert n v) w (λ m. (d : Text) × (count d (deps_of n ps) ≡ true) × Reaches ps d m)

enter_none :
    (ps : Productions) (fuel : ℕ) (n : Text) (v : List Text)
    → count n (all_names ps) ≡ false
    → Entered ps fuel n v
unfolding visit_all count
enter_none ps fuel n v h =
    let none_there : deps_of n ps ≡ [] = deps_none n ps h in
    (
      insert n v,
      ap (λ ds. visit_all (mark_reachable fuel ps) ds (insert n v)) none_there,
      λ d k. absurd (true-false (sym k ∙ ap (λ ds. count d ds) none_there)),
      record {
        grown = λ m i. i;
        closed = λ m d i l e. absurd (true-false (sym i ∙ l));
        sound = λ m i. inl i;
      },
    )

leave :
    (ps : Productions) (fuel : ℕ) (n : Text) (v : List Text)
    → (e : Entered ps fuel n v) → IsVisit ps v e.0 (Reaches ps n)
leave ps fuel n v e = record {
  grown = λ m i. e.3.grown m (grown-insert n v m i);
  closed = λ m d i l c. elim (Bool-cases (text_eq m n)) [
    | inl q ↦ e.2 d (ap (λ a. count d (deps_of a ps)) (sym (text_eq-same m n q)) ∙ c)
    | inr q ↦ e.3.closed m d i (count-insert m n v ∙ ap (λ b. b || count m v) q ∙ l) c
  ];
  sound = λ m i. elim (e.3.sound m i) [
    | inl j ↦ elim (or_cases _ _ (sym (count-insert m n v) ∙ j)) [
      | inl q ↦ inr (subst (λ a. Reaches ps a m) (text_eq-same m n q) arrived)
      | inr q ↦ inl q
    ]
    | inr r ↦ inr (calls_on r.1 r.2)
  ];
}

mark_lem :
    (ps : Productions) (fuel : ℕ) (n : Text) (v : List Text)
    → unvisited (all_names ps) v < fuel
    → (w : List Text) × (mark_reachable fuel ps n v ≡ some w)
      × (count n w ≡ true)
      × IsVisit ps v w (Reaches ps n)
unfolding mark_reachable
mark_lem ps zero n v h = absurd (omega arith)
mark_lem ps (suc fuel) n v h = elim (Bool-cases (count n v)) [
  | inl k ↦ (
    v,
    rw (mark_reachable, k) refl,
    k,
    record {
      grown = λ m i. i;
      closed = λ m d i l e. absurd (true-false (sym i ∙ l));
      sound = λ m i. inl i;
    },
  )
  | inr k ↦
      let e : Entered ps fuel n v = elim (Bool-cases (count n (all_names ps))) [
        | inl d ↦
            visit_all_lem ps fuel (mark_reachable fuel ps) (mark_lem ps fuel) (deps_of n ps)
              (insert n v) (omega (arith, h, unvisited_lt (all_names ps) n v d k))
        | inr d ↦ enter_none ps fuel n v d
      ] in
      (
        e.0,
        rw (mark_reachable, k) e.1,
        e.3.grown n (count-insert n n v ∙ or_left _ _ (text_eq_self n)),
        leave ps fuel n v e,
      )
]

chain_visited :
    (ps : Productions) (w : List Text) (P : Text → Type 0) (n m : Text)
    → IsVisit ps [] w P
    → Reaches ps n m
    → count n w ≡ true
    → count m w ≡ true
unfolding count
chain_visited ps w P n m a arrived k = k
chain_visited ps w P n m a (calls_on {d = d} c r) k =
    chain_visited ps w P d m a r (a.closed n d k refl c)

-- With depth for each declared name and one more, mark_reachable from nothing visited comes to an
-- end, and the set that it leaves holds exactly the names to which a chain of calls leads from the
-- start, the start among them.
pub mark_reachable_lem :
    (ps : Productions) (fuel : ℕ) (start : Text)
    → length (all_names ps) < fuel
    → (w : List Text) × (mark_reachable fuel ps start [] ≡ some w)
      × ((m : Text) → (count m w ≡ true) ↔ Reaches ps start m)
unfolding count
mark_reachable_lem ps fuel start h =
    let r = mark_lem ps fuel start [] (omega (arith, h, unvisited_length (all_names ps) [])) in
    (
      r.0,
      r.1,
      λ m. (
        λ k. elim (r.3.sound m k) [ inl i ↦ absurd (true-false (sym i)) | inr i ↦ i ],
        λ c. chain_visited ps r.0 (Reaches ps start) start m r.3 c r.2,
      ),
    )
