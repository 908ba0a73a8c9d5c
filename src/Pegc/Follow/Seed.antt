-- ===== src/Pegc/Follow/Seed.antt =====
-- The start of compute_follow_sets of pegc/frontend/PegAnalysis.cpp, and what the whole comes to.
use bbq.Base.{
  ℕ, ◌+◌, ◌*◌, ◌≤◌, ◌<◌, ◌≡◌, refl, sym, ap, ◌∙◌, subst, inl, inr, true, false, ◌&&◌, some, List,
  [], ◌∷◌, ◌++◌, arith, or_left, or_right, and_parts, or_cases, true-false, Option-cases, length,
}
use bbq.Pegc.Names.{Text}
use bbq.Pegc.Ast.{PegExpr, Production, FirstElement, epsilon}
use bbq.Pegc.Sets.{kind_eq, found, all_found, first_set_union, first_set_contains_epsilon, is_none}
use bbq.Pegc.Sets.Laws.{first_element_eq_self, found-append}
use bbq.Pegc.Sets.Distinct.{distinct, all_found-found}
use bbq.Pegc.First.{ProductionInfo, Productions, find, Terminals, first_entry, first_of}
use bbq.Pegc.First.Bound.{terminals_of, IsWithin, IsWithin-none}
use bbq.Pegc.First.Local.{first_of_local}
use bbq.Pegc.Worklist.{empty_worklist, push_all}
use bbq.Pegc.Collect.{is_declared}
use bbq.Pegc.Kildall.{FirstState, all_names}
use bbq.Pegc.Kildall.Table.{find-declared, every, find-every}
use bbq.Pegc.Kildall.Ends.{length-start}
use bbq.Pegc.Follow.{set_follow, follow_entry, follow_loop, end_of_input, compute_follow_sets}
use bbq.Pegc.Follow.Kept.{find-set_follow, IsClean, IsKept, IsKept-further, set_follow-IsKept}
use bbq.Pegc.Follow.Size.{length-set_follow, IsBrief, IsLimited, grown-IsLimited}
use bbq.Pegc.Follow.Result.{IsFollowed, follow_loop_lem}

is_none-none : (s : List FirstElement) → is_none s ≡ true → s ≡ []
unfolding is_none
is_none-none [] h = refl
is_none-none (x ∷ s) h = cc

-- No FOLLOW set of the table has been computed.
abbrev pub IsBlank : Productions → Type 0
IsBlank ps = every (λ p. is_none p.follow_set) ps ≡ true

blank_entry : (ps : Productions) → IsBlank ps → (n : Text) → follow_entry (find n ps) ≡ []
unfolding follow_entry
blank_entry ps h n = elim (Option-cases (find n ps)) [
  | inl e ↦ ap (λ o. follow_entry o) e
  | inr e ↦
      ap (λ o. follow_entry o) e.1
      ∙ is_none-none e.0.follow_set (find-every (λ p. is_none p.follow_set) n ps e.0 h e.1)
]

IsBlank-IsBrief : (n : ℕ) (ps : Productions) → IsBlank ps → IsBrief n ps
unfolding every
IsBlank-IsBrief n [] h = tt
IsBlank-IsBrief n (p ∷ ps) h = (
  subst (λ (s : List FirstElement). length s ≤ n)
      (sym (is_none-none p.follow_set (and_parts _ _ h).0)) (omega arith),
  IsBlank-IsBrief n ps (and_parts _ _ h).1,
)

IsBlank-IsLimited :
    (t : Terminals) (u : List FirstElement) (ps : Productions)
    → IsBlank ps
    → ((n : Text) → IsWithin (first_entry (find n ps)) u)
    → ((n : Text) (p : ProductionInfo) → find n ps ≡ some p → IsWithin (terminals_of t p.body) u)
    → IsLimited t u ps
unfolding distinct first_set_contains_epsilon
IsBlank-IsLimited t u ps h firsts bodies = record {
  clean = λ n. (
    ap (λ s. distinct s) (blank_entry ps h n),
    ap (λ s. first_set_contains_epsilon s) (blank_entry ps h n),
  );
  follows = λ n. subst (λ s. IsWithin s u) (sym (blank_entry ps h n)) (IsWithin-none u);
  firsts = firsts;
  bodies = bodies;
  brief = IsBlank-IsBrief (length u) ps h;
}

-- The FIRST sets of the table and the terminals of its bodies lie in `u`.
abbrev pub IsCovered : Terminals → List FirstElement → Productions → Type 0
IsCovered t u ps =
    every (λ p. all_found p.first_set u && all_found (terminals_of t p.body) u) ps ≡ true

covered_both :
    (t : Terminals) (u : List FirstElement) (ps : Productions)
    → IsCovered t u ps
    → (n : Text) (p : ProductionInfo) → find n ps ≡ some p
    → (all_found p.first_set u ≡ true) × (all_found (terminals_of t p.body) u ≡ true)
covered_both t u ps h n p f =
    and_parts _ _
      (find-every (λ q. all_found q.first_set u && all_found (terminals_of t q.body) u) n ps p h f)

covered_firsts :
    (t : Terminals) (u : List FirstElement) (ps : Productions)
    → IsCovered t u ps
    → (n : Text) → IsWithin (first_entry (find n ps)) u
unfolding first_entry
covered_firsts t u ps h n = elim (Option-cases (find n ps)) [
  | inl e ↦ subst (λ o. IsWithin (first_entry o) u) (sym e) (IsWithin-none u)
  | inr e ↦
      subst (λ o. IsWithin (first_entry o) u) (sym e.1)
        (all_found-found e.0.first_set u (covered_both t u ps h n e.0 e.1).0)
]

covered_bodies :
    (t : Terminals) (u : List FirstElement) (ps : Productions)
    → IsCovered t u ps
    → (n : Text) (p : ProductionInfo) → find n ps ≡ some p
    → IsWithin (terminals_of t p.body) u
covered_bodies t u ps h n p f =
    all_found-found (terminals_of t p.body) u (covered_both t u ps h n p f).1

-- The seed is a union with the end of the input.
seed_union :
    (s : List FirstElement)
    → s ≡ []
    → first_set_union s (end_of_input ∷ []) false ≡ s ++ (end_of_input ∷ [])
unfolding first_set_union found kind_eq
seed_union s h = rw (h) refl

end_found : found end_of_input (end_of_input ∷ []) ≡ true
unfolding found
end_found = or_left _ _ (first_element_eq_self end_of_input)

module _ (t : Terminals) (u : List FirstElement) (start : Production) (later : List Production)
    (ps : Productions) (fuel : ℕ) (he : all_found (epsilon ∷ end_of_input ∷ []) u ≡ true)
    (blank : IsBlank ps) (declared : is_declared start.name ps ≡ true) (covered : IsCovered t u ps)
    (h : length ps * length u * 2 + length ps < fuel) where
  abbrev seeded : Productions
  seeded = set_follow start.name (follow_entry (find start.name ps) ++ (end_of_input ∷ [])) ps

  entry : (p : ProductionInfo) × (find start.name ps ≡ some p)
  entry = find-declared start.name ps declared

  entry_none : entry.0.follow_set ≡ []
  entry_none =
      is_none-none entry.0.follow_set
        (find-every (λ p. is_none p.follow_set) start.name ps entry.0 blank entry.1)

  seeded_same :
      set_follow start.name (first_set_union entry.0.follow_set (end_of_input ∷ []) false) ps
      ≡ seeded
  unfolding follow_entry
  seeded_same =
      ap (λ l. set_follow start.name l ps)
        (seed_union entry.0.follow_set entry_none
          ∙ ap (λ o. follow_entry o ++ (end_of_input ∷ [])) (sym entry.1))

  end-IsWithin : IsWithin (end_of_input ∷ []) u
  unfolding found
  end-IsWithin x k = all_found-found (epsilon ∷ end_of_input ∷ []) u he x (or_right _ _ k)

  epsilon-IsWithin : IsWithin (epsilon ∷ []) u
  unfolding found
  epsilon-IsWithin x k =
      all_found-found (epsilon ∷ end_of_input ∷ []) u he x
        (elim (or_cases _ _ k) [ inl e ↦ or_left _ _ e | inr e ↦ absurd (true-false (sym e)) ])

  abbrev begin : FirstState
  begin = record { productions = ps; worklist = empty_worklist }

  seeded-IsLimited : IsLimited t u seeded
  seeded-IsLimited =
      subst (λ l. IsLimited t u l) seeded_same
        (grown-IsLimited t u start.name (end_of_input ∷ []) begin entry.0 entry.1 end-IsWithin (
          IsBlank-IsLimited t u ps blank (covered_firsts t u ps covered)
            (covered_bodies t u ps covered)))

  seeded-IsKept : IsKept ps seeded
  seeded-IsKept =
      subst (λ l. IsKept ps l) seeded_same
        (set_follow-IsKept start.name (end_of_input ∷ []) ps entry.0 entry.1)

  seeded_end : found end_of_input (follow_entry (find start.name seeded)) ≡ true
  unfolding follow_entry
  seeded_end =
      let set : List FirstElement = follow_entry (find start.name ps) ++ (end_of_input ∷ []) in
      ap (λ o. found end_of_input (follow_entry o))
        (find-set_follow start.name set ps entry.0 entry.1)
      ∙ found-append end_of_input (follow_entry (find start.name ps)) (end_of_input ∷ [])
      ∙ or_right _ _ end_found

  follow_done : IsFollowed t u seeded (
      follow_loop fuel t
        (record { productions = seeded; worklist = push_all empty_worklist (all_names seeded) }))
  follow_done =
      let size : length seeded ≡ length ps = length-set_follow start.name _ ps in
      follow_loop_lem t u epsilon-IsWithin fuel
        (record { productions = seeded; worklist = push_all empty_worklist (all_names seeded) })
        seeded-IsLimited (rw (size) (omega (arith, h, length-start seeded, size)))

  -- For a table in which no FOLLOW set has been computed, whose start production is declared, and a
  -- set of elements in which its FIRST sets and the terminals of its bodies lie, with epsilon and
  -- the end of the input: two rounds for each element and production and one more for each
  -- production are enough for compute_follow_sets. No FOLLOW set that it leaves holds epsilon or an
  -- element twice; the end of the input is in the FOLLOW set of the start; and the FIRST set that
  -- first_of computes for any expression is the same as before.
  pub compute_follow_sets_lem :
      (done : Productions) × (compute_follow_sets fuel t (start ∷ later) ps ≡ some done)
      × IsClean done
      × (found end_of_input (follow_entry (find start.name done)) ≡ true)
      × ((d : PegExpr) → first_of t ps d ≡ first_of t done d)
  unfolding compute_follow_sets
  compute_follow_sets_lem =
      let k : IsKept ps follow_done.0 =
        IsKept-further ps seeded follow_done.0 seeded-IsKept follow_done.3 in
      (
        follow_done.0,
        follow_done.1,
        follow_done.2.clean,
        follow_done.3.further start.name end_of_input seeded_end,
        λ d. (first_of_local t ps follow_done.0 d (λ n c. k.agree n)).0,
      )
