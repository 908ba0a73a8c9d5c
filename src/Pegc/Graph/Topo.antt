-- ===== src/Pegc/Graph/Topo.antt =====
-- The order that topological_sort of pegc/frontend/PegAnalysis.cpp gives the productions.
use bbq.Base.{
  ℕ, ◌<◌, ◌≡◌, refl, sym, ◌∙◌, ◌⊎◌, inl, inr, true, false, ◌||◌, Option, some, List, [], ◌∷◌, ◌++◌,
  arith, or_left, or_right, or_cases, true-false,
}
use bbq.Pegc.Names.{Text, text_eq, count, unrepeated, text_eq_self, count-eq}
use bbq.Pegc.First.{Productions}
use bbq.Pegc.Kildall.{all_names}
use bbq.Pegc.Graph.{deps_of, TopoState, topo_all}
use bbq.Pegc.Graph.Reach.{Reaches, arrived, calls_on, unvisited, IsGrown}

-- Each of the calls of `m` stands among `seen`, or leads back to `m`.
abbrev pub IsPreceded : Productions → List Text → Text → List Text → Type 0
IsPreceded ps seen m [] = Unit
IsPreceded ps seen m (d ∷ ds) = ((count d seen ≡ true) ⊎ Reaches ps d m) × IsPreceded ps seen m ds

-- Each name of the list has its calls in front of it, but for those that lead back to it.
abbrev pub InOrder : Productions → List Text → List Text → Type 0
InOrder ps seen [] = Unit
InOrder ps seen (m ∷ ms) = IsPreceded ps seen m (deps_of m ps) × InOrder ps (m ∷ seen) ms

every-IsPreceded :
    (ps : Productions) (seen : List Text) (m : Text) (ds : List Text)
    → ((d : Text) → count d ds ≡ true → (count d seen ≡ true) ⊎ Reaches ps d m)
    → IsPreceded ps seen m ds
unfolding count
every-IsPreceded ps seen m [] h = tt
every-IsPreceded ps seen m (d ∷ ds) h = (
  h d (or_left _ _ (text_eq_self d)),
  every-IsPreceded ps seen m ds (λ e k. h e (or_right _ _ k)),
)

pub InOrder-snoc :
    (ps : Productions) (seen xs : List Text) (n : Text)
    → InOrder ps seen xs
    → ((d : Text)
        → count d (deps_of n ps) ≡ true
        → (count d xs || count d seen ≡ true) ⊎ Reaches ps d n)
    → InOrder ps seen (xs ++ (n ∷ []))
unfolding count
InOrder-snoc ps seen [] n o h = (every-IsPreceded ps seen n (deps_of n ps) h, tt)
InOrder-snoc ps seen (x ∷ xs) n o h = (
  o.0,
  InOrder-snoc ps (x ∷ seen) xs n o.1
      (λ d k. elim (h d k) [ inl i ↦ inl (swapped d i) | inr r ↦ inr r ]),
)
  where
    swapped :
        (d : Text)
        → (text_eq d x || count d xs) || count d seen ≡ true
        → count d xs || (text_eq d x || count d seen) ≡ true
    swapped d i = ground (arith, i)

pub Reaches-snoc :
    (ps : Productions) (n m d : Text)
    → Reaches ps n m
    → count d (deps_of m ps) ≡ true
    → Reaches ps n d
Reaches-snoc ps n m d arrived c = calls_on c arrived
Reaches-snoc ps n m d (calls_on {d = e} k r) c = calls_on k (Reaches-snoc ps e m d r c)

-- The order has the visited names, each once, and each behind its calls.
pub record IsSorted (ps : Productions) (s : TopoState) : Type 0 where
  pub listed : (m : Text) → count m s.topo_order ≡ count m s.visited
  pub once : unrepeated s.topo_order ≡ true
  pub ordered : InOrder ps [] s.topo_order

-- What a visit does to the sets: no name is taken out, the stack is as it was, and no name on it
-- becomes visited.
pub record IsStep (s r : TopoState) : Type 0 where
  pub more : IsGrown s.visited r.visited
  pub stack : (m : Text) → count m r.in_stack ≡ count m s.in_stack
  pub held :
      (m : Text) → count m s.in_stack ≡ true → count m s.visited ≡ false → count m r.visited ≡ false

pub IsStep-same : (s : TopoState) → IsStep s s
IsStep-same s = record { more = λ m k. k; stack = λ m. refl; held = λ m k l. l }

IsStep-further : (s r q : TopoState) → IsStep s r → IsStep r q → IsStep s q
IsStep-further s r q a b = record {
  more = λ m k. b.more m (a.more m k);
  stack = λ m. b.stack m ∙ a.stack m;
  held = λ m k l. b.held m (a.stack m ∙ k) (a.held m k l);
}

-- All that is on the stack reaches a name.
abbrev pub Leads : Productions → TopoState → Text → Type 0
Leads ps s n = (m : Text) → count m s.in_stack ≡ true → Reaches ps m n

-- What a visit of `n` comes to.
abbrev pub Visited : Productions → TopoState → Text → TopoState → Type 0
Visited ps s n r =
    IsSorted ps r × IsStep s r × ((count n r.visited ≡ true) ⊎ (count n s.in_stack ≡ true))

unvisited_same :
    (ns v w : List Text) → ((m : Text) → count m w ≡ count m v) → unvisited ns w ≡ unvisited ns v
unfolding unvisited
unvisited_same [] v w h = refl
unvisited_same (n ∷ ns) v w h = ground (arith, h n, unvisited_same ns v w h)

module _ (ps : Productions) (b : ℕ) (visit : Text → TopoState → Option TopoState)
    (one : (n : Text) (s : TopoState)
      → unvisited (all_names ps) s.in_stack < b
      → IsSorted ps s
      → Leads ps s n
      → (r : TopoState) × (visit n s ≡ some r) × Visited ps s n r) where
  pub topo_all_lem :
      (ds : List Text) (s : TopoState)
      → unvisited (all_names ps) s.in_stack < b
      → IsSorted ps s
      → ((d : Text) → count d ds ≡ true → Leads ps s d)
      → (r : TopoState) × (topo_all visit ds s ≡ some r)
        × IsSorted ps r
        × IsStep s r
        × ((d : Text)
            → count d ds ≡ true
            → (count d r.visited ≡ true) ⊎ (count d s.in_stack ≡ true))
  unfolding topo_all count
  topo_all_lem [] s h o l = (s, refl, o, IsStep-same s, λ d k. absurd (true-false (sym k)))
  topo_all_lem (d ∷ ds) s h o l =
      let first = one d s h o (l d (or_left _ _ (text_eq_self d))) in
      let u : TopoState = first.0 in
      let a : IsStep s u = first.2.1 in
      let rest =
        topo_all_lem ds u (rw (unvisited_same (all_names ps) s.in_stack u.in_stack a.stack) h)
          first.2.0 (λ e k m i. l e (or_right _ _ k) m (sym (a.stack m) ∙ i)) in
      (
        rest.0,
        rw (topo_all, first.1) rest.1,
        rest.2,
        IsStep-further s u rest.0 a rest.3,
        λ e k. elim (or_cases _ _ k) [
          | inl q ↦ elim first.2.2 [
            | inl i ↦ inl (rest.3.more e (count-eq e d u.visited q ∙ i))
            | inr i ↦ inr (count-eq e d s.in_stack q ∙ i)
          ]
          | inr q ↦ elim (rest.4 e q) [ inl i ↦ inl i | inr i ↦ inr (sym (a.stack e) ∙ i) ]
        ],
      )
