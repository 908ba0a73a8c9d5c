-- ===== src/Pegc/Graph/Reach.antt =====
-- The walk of mark_reachable of pegc/frontend/PegAnalysis.cpp, and reachability.
use bbq.Base.{
  ℕ, ◌+◌, ◌≤◌, ◌<◌, ◌≡◌, refl, sym, ◌∙◌, ◌⊎◌, inl, inr, true, false, ◌||◌, Option, some, List, [],
  ◌∷◌, arith, if◌then◌else◌, Bool-cases, or_left, or_right, or_cases, true-false, length,
}
use bbq.Pegc.Names.{
  Text, text_eq, count, insert, text_eq_self, text_eq_comm, count-insert, count-eq,
}
use bbq.Pegc.First.{Productions}
use bbq.Pegc.Kildall.{all_names}
use bbq.Pegc.Graph.{deps_of, visit_all}

-- A chain of calls from one name to another.
pub data Reaches (ps : Productions) : Text → Text → Type 0 where
  arrived : {n : Text} → Reaches ps n n
  calls_on : {n d m : Text} → count d (deps_of n ps) ≡ true → Reaches ps d m → Reaches ps n m

-- The declared names that have not been visited.
unfoldable pub unvisited : List Text → List Text → ℕ
unvisited [] visited = 0
unvisited (n ∷ ns) visited = (if count n visited then 0 else 1) + unvisited ns visited

abbrev pub IsGrown : List Text → List Text → Type 0
IsGrown v w = (m : Text) → count m v ≡ true → count m w ≡ true

pub unvisited_le : (ns v w : List Text) → IsGrown v w → unvisited ns w ≤ unvisited ns v
unfolding unvisited
unvisited_le [] v w g = omega arith
unvisited_le (n ∷ ns) v w g = ground (arith, g n, unvisited_le ns v w g)

pub grown-insert : (n : Text) (v : List Text) → IsGrown v (insert n v)
grown-insert n v m h = count-insert m n v ∙ or_right _ _ h

pub unvisited_lt :
    (ns : List Text) (n : Text) (v : List Text)
    → count n ns ≡ true
    → count n v ≡ false
    → unvisited ns (insert n v) < unvisited ns v
unfolding unvisited count
unvisited_lt [] n v h k = cc
unvisited_lt (x ∷ ns) n v h k = elim (Bool-cases (text_eq n x)) [
  | inl e ↦
      let same : count n v ≡ count x v = count-eq n x v e in
      let now : count x (insert n v) ≡ true =
        count-insert x n v ∙ or_left _ _ (text_eq_comm x n ∙ e) in
      ground (arith, same, k, now, unvisited_le ns v (insert n v) (grown-insert n v))
  | inr e ↦ ground (arith, grown-insert n v x, unvisited_lt ns n v (ground (arith, h, e)) k)
]

-- After a visit: what was visited still is; the calls of what is new are visited too; and what is
-- new is reached from where the visit began.
pub record IsVisit (ps : Productions) (v w : List Text) (From : Text → Type 0) : Type 0 where
  pub grown : IsGrown v w
  pub closed :
      (m d : Text)
      → count m w ≡ true
      → count m v ≡ false
      → count d (deps_of m ps) ≡ true
      → count d w ≡ true
  pub sound : (m : Text) → count m w ≡ true → (count m v ≡ true) ⊎ From m

join-IsVisit :
    (ps : Productions) (v u w : List Text) (P Q R : Text → Type 0)
    → IsVisit ps v u P
    → IsVisit ps u w Q
    → ((m : Text) → P m → R m)
    → ((m : Text) → Q m → R m)
    → IsVisit ps v w R
join-IsVisit ps v u w P Q R a b f g = record {
  grown = λ m k. b.grown m (a.grown m k);
  closed = λ m d k l e. elim (Bool-cases (count m u)) [
    | inl i ↦ b.grown d (a.closed m d i l e)
    | inr i ↦ b.closed m d k i e
  ];
  sound = λ m k. elim (b.sound m k) [
    | inl i ↦ elim (a.sound m i) [ inl j ↦ inl j | inr j ↦ inr (f m j) ]
    | inr i ↦ inr (g m i)
  ];
}

module _ (ps : Productions) (b : ℕ) (visit : Text → List Text → Option (List Text))
    (one : (n : Text) (v : List Text)
      → unvisited (all_names ps) v < b
      → (w : List Text) × (visit n v ≡ some w)
        × (count n w ≡ true)
        × IsVisit ps v w (Reaches ps n)) where
  pub visit_all_lem :
      (ds v : List Text)
      → unvisited (all_names ps) v < b
      → (w : List Text) × (visit_all visit ds v ≡ some w)
        × ((d : Text) → count d ds ≡ true → count d w ≡ true)
        × IsVisit ps v w (λ m. (d : Text) × (count d ds ≡ true) × Reaches ps d m)
  unfolding visit_all count
  visit_all_lem [] v h = (
    v,
    refl,
    λ d k. cc,
    record {
      grown = λ m k. k;
      closed = λ m d k l e. absurd (true-false (sym k ∙ l));
      sound = λ m k. inl k;
    },
  )
  visit_all_lem (d ∷ ds) v h =
      let first = one d v h in
      let u : List Text = first.0 in
      let a : IsVisit ps v u (Reaches ps d) = first.3 in
      let fewer : unvisited (all_names ps) u ≤ unvisited (all_names ps) v =
        unvisited_le (all_names ps) v u a.grown in
      let rest = visit_all_lem ds u (omega (arith, h, fewer)) in
      (
        rest.0,
        rw (visit_all, first.1) rest.1,
        here u rest.0 first.2 rest.3.grown rest.2,
        join-IsVisit ps v u rest.0 _ _ _ a rest.3 (λ m r. (d, or_left _ _ (text_eq_self d), r))
            (λ m r. (r.0, or_right _ _ r.1, r.2)),
      )
    where
      here :
          (u w : List Text)
          → count d u ≡ true
          → IsGrown u w
          → ((e : Text) → count e ds ≡ true → count e w ≡ true)
          → (e : Text) → text_eq e d || count e ds ≡ true
          → count e w ≡ true
      here u w now g later e k = elim (or_cases _ _ k) [
        | inl i ↦ g e (count-eq e d u i ∙ now)
        | inr i ↦ later e i
      ]

pub unvisited_length : (ns v : List Text) → unvisited ns v ≤ length ns
unfolding unvisited
unvisited_length [] v = omega arith
unvisited_length (n ∷ ns) v = ground (arith, unvisited_length ns v)
