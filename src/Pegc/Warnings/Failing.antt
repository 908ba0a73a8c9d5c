-- ===== src/Pegc/Warnings/Failing.antt =====
-- detect_always_failing of pegc/frontend/PegAnalysis.cpp, held against matches.
use bbq.Base.{
  ℕ, ◌≤◌, ◌≡◌, refl, sym, ap, ◌∙◌, ◌⊎◌, inl, inr, Bool, true, false, not, ◌&&◌, ◌||◌, some, List,
  [], ◌∷◌, ◌++◌, arith, Bool-cases, or_cases, true-false, some_same, if_false,
}
use bbq.Pegc.Names.{Text, text_eq, count, unrepeated, count-eq}
use bbq.Pegc.Ast.{PegExpr, FirstElement}
use bbq.Pegc.Sets.{found, is_none}
use bbq.Pegc.First.{ProductionInfo, Productions, find, Terminals}
use bbq.Pegc.First.Match.{Lexicon, Match}
use bbq.Pegc.First.Sound.{HasNoRange, nothing, begun}
use bbq.Pegc.Collect.{Message, always_failing, build_callers_graph}
use bbq.Pegc.Kildall.{all_names, compute_first_sets}
use bbq.Pegc.Kildall.Table.{find_here}
use bbq.Pegc.Kildall.Fixpoint.{skeleton}
use bbq.Pegc.Kildall.Start.{IsFresh, find-count}
use bbq.Pegc.Kildall.Ends.{enough}
use bbq.Pegc.Kildall.Result.{compute_first_sets_ends, first_sets_cover}
use bbq.Pegc.Warnings.{detect_always_failing}

-- Whether the warning that a production can never match stands in a list of messages.
unfoldable pub warns_failing : Text → List Message → Bool
warns_failing n [] = false
warns_failing n (always_failing m ∷ ws) = text_eq n m || warns_failing n ws
warns_failing n (_ ∷ ws) = warns_failing n ws

warns_failing-append :
    (n : Text) (a b : List Message)
    → warns_failing n (a ++ b) ≡ warns_failing n a || warns_failing n b
unfolding warns_failing
warns_failing-append n [] b = refl
warns_failing-append n (always_failing m ∷ a) b = ground (arith, warns_failing-append n a b)
warns_failing-append n (_ ∷ a) b = warns_failing-append n a b

warns_failing_one : (n m : Text) → warns_failing n (always_failing m ∷ []) ≡ text_eq n m
unfolding warns_failing
warns_failing_one n m = ground arith

-- A production that the check finds.
abbrev Failing : Text → Productions → Type 0
Failing n ps =
    (p : ProductionInfo) × (find n ps ≡ some p)
    × (p.left_recursive ≡ false)
    × (is_none p.first_set ≡ true)
    × (p.nullable ≡ false)

Failing-later :
    (n : Text) (p : ProductionInfo) (ps : Productions)
    → count p.name (all_names ps) ≡ false
    → Failing n ps
    → Failing n (p ∷ ps)
unfolding find
Failing-later n p ps apart r =
    let ne : text_eq n p.name ≡ false = elim (Bool-cases (text_eq n p.name)) [
      | inl k ↦
          absurd (
            true-false (sym (find-count n ps r.0 r.1) ∙ count-eq n p.name (all_names ps) k ∙ apart))
      | inr k ↦ k
    ] in
    (r.0, if_false _ _ _ ne ∙ r.1, r.2, r.3, r.4)

failing_skip :
    (p : ProductionInfo) (ps : Productions) (ws : List Message)
    → p.left_recursive || not (is_none p.first_set && not p.nullable) ≡ true
    → detect_always_failing (p ∷ ps) ws ≡ detect_always_failing ps ws
unfolding detect_always_failing
failing_skip p ps ws h = ground (arith, h)

failing_warn :
    (p : ProductionInfo) (ps : Productions) (ws : List Message)
    → p.left_recursive || not (is_none p.first_set && not p.nullable) ≡ false
    → detect_always_failing (p ∷ ps) ws
      ≡ detect_always_failing ps (ws ++ (always_failing p.name ∷ []))
unfolding detect_always_failing
failing_warn p ps ws h = ground (arith, h)

unrepeated_parts :
    (p : ProductionInfo) (ps : Productions)
    → unrepeated (all_names (p ∷ ps)) ≡ true
    → (count p.name (all_names ps) ≡ false) × (unrepeated (all_names ps) ≡ true)
unfolding all_names unrepeated
unrepeated_parts p ps u = ground (arith, u)

failing_none : (ws : List Message) → detect_always_failing [] ws ≡ ws
unfolding detect_always_failing
failing_none ws = refl

Failing-found :
    (ps : Productions) (ws : List Message) (n : Text)
    → unrepeated (all_names ps) ≡ true
    → warns_failing n (detect_always_failing ps ws) ≡ true
    → (warns_failing n ws ≡ true) ⊎ Failing n ps
Failing-found [] ws n u h = inl (sym (ap (λ l. warns_failing n l) (failing_none ws)) ∙ h)
Failing-found (p ∷ ps) ws n u h =
    let parts = unrepeated_parts p ps u in
    elim (Bool-cases (p.left_recursive || not (is_none p.first_set && not p.nullable))) [
      | inl k ↦
          elim (Failing-found ps ws n parts.1
            (sym (ap (λ l. warns_failing n l) (failing_skip p ps ws k)) ∙ h)) [
              | inl i ↦ inl i
              | inr i ↦ inr (Failing-later n p ps parts.0 i)
            ]
      | inr k ↦
          elim (Failing-found ps (ws ++ (always_failing p.name ∷ [])) n parts.1
            (sym (ap (λ l. warns_failing n l) (failing_warn p ps ws k)) ∙ h)) [
              | inl i ↦
                  elim (or_cases _ _
                    (sym (warns_failing-append n ws (always_failing p.name ∷ [])) ∙ i)) [
                      | inl j ↦ inl j
                      | inr j ↦ inr (here (sym (warns_failing_one n p.name) ∙ j) k)
                    ]
              | inr i ↦ inr (Failing-later n p ps parts.0 i)
            ]
    ]
  where
    here :
        text_eq n p.name ≡ true
        → p.left_recursive || not (is_none p.first_set && not p.nullable) ≡ false
        → Failing n (p ∷ ps)
    here e k = (p, find_here n p ps e, ground (arith, k), ground (arith, k), ground (arith, k))

names_of : List (Text × (PegExpr × Bool)) → List Text
names_of [] = []
names_of (s ∷ l) = s.0 ∷ names_of l

names-skeleton : (ps : Productions) → all_names ps ≡ names_of (skeleton ps)
unfolding all_names skeleton names_of
names-skeleton [] = refl
names-skeleton (p ∷ ps) = ap (λ l. p.name ∷ l) (names-skeleton ps)

IsFresh-unrepeated :
    (t : Terminals) (ps : Productions) → IsFresh t ps → unrepeated (all_names ps) ≡ true
unfolding all_names unrepeated
IsFresh-unrepeated t [] h = refl
IsFresh-unrepeated t (p ∷ ps) h = ground (arith, h.0, IsFresh-unrepeated t ps h.4)

done-unrepeated :
    (t : Terminals) (ps : Productions) (fuel : ℕ)
    → IsFresh t ps
    → enough t ps ≤ fuel
    → (done : Productions) → compute_first_sets fuel t (build_callers_graph ps []) ps ≡ some done
    → unrepeated (all_names done) ≡ true
done-unrepeated t ps fuel fresh h done run =
    let e = compute_first_sets_ends t ps fuel fresh h in
    let same : e.0 ≡ done = some_same (sym e.1 ∙ run) in
    let names : all_names done ≡ all_names ps =
      names-skeleton done
      ∙ ap (λ l. names_of l) (sym (ap (λ d. skeleton d) same) ∙ e.2)
      ∙ sym (names-skeleton ps) in
    ap (λ l. unrepeated l) names ∙ IsFresh-unrepeated t ps fresh

no_warning : (n : Text) → warns_failing n [] ≡ false
unfolding warns_failing
no_warning n = refl

none-found : (x : FirstElement) (s : List FirstElement) → is_none s ≡ true → found x s ≡ false
unfolding is_none found
none-found x [] h = refl
none-found x (y ∷ s) h = cc

-- After compute_first_sets on a grammar in which no production is left recursive and no body has a
-- range of characters: a production of which detect_always_failing warns matches no text at all,
-- under any reading of the sets and tokens.
pub detect_always_failing_lem :
    (t : Terminals) (ps : Productions) (fuel : ℕ)
    → IsFresh t ps
    → enough t ps ≤ fuel
    → (done : Productions) → compute_first_sets fuel t (build_callers_graph ps []) ps ≡ some done
    → ((n : Text) (p : ProductionInfo) → find n done ≡ some p → p.left_recursive ≡ false)
    → HasNoRange done
    → (n : Text) → warns_failing n (detect_always_failing done []) ≡ true
    → (lex : Lexicon) (p : ProductionInfo) → find n done ≡ some p
    → (s r : Text) → ¬ Match t done lex p.body s r
detect_always_failing_lem t ps fuel fresh h done run straight no_range n warned lex p f s r m =
    elim (Failing-found done [] n (done-unrepeated t ps fuel fresh h done run) warned) [
      | inl k ↦ true-false (sym k ∙ no_warning n)
      | inr q ↦
          let same : q.0 ≡ p = some_same (sym q.1 ∙ f) in
          elim (first_sets_cover t ps fuel fresh h done run lex straight no_range n p f s r m) [
            | nothing e k ↦
                true-false (sym k ∙ sym (ap (λ (a : ProductionInfo). a.nullable) same) ∙ q.4)
            | begun x k l i ↦ true-false (
                sym k
                ∙ none-found x p.first_set
                    (sym (ap (λ (a : ProductionInfo). is_none a.first_set) same) ∙ q.3))
          ]
    ]
