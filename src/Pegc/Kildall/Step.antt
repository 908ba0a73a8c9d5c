-- ===== src/Pegc/Kildall/Step.antt =====
-- A round of compute_first_sets of pegc/frontend/PegAnalysis.cpp, and the measure of what is
-- left.
use bbq.Base.{
  ◌+◌, ◌≤◌, ◌<◌, ◌≡◌, refl, sym, ap, ◌∙◌, subst, ◌⊎◌, inl, inr, true, false, ◌||◌, some, List, [],
  ◌∷◌, arith, Bool-cases, or_right, and_both, or_parts, or_cases, some_same, if_true, if_false,
  length,
}
use bbq.Pegc.Names.{Text, text_eq, count, text_eq-same}
use bbq.Pegc.Ast.{FirstElement, epsilon}
use bbq.Pegc.Sets.{first_set_eq}
use bbq.Pegc.Sets.Distinct.{found-all_found}
use bbq.Pegc.First.{
  ProductionInfo, Productions, find, Terminals, nullable_entry, first_entry, first_of,
}
use bbq.Pegc.First.Bound.{IsWithin}
use bbq.Pegc.First.Grow.{IsPlain}
use bbq.Pegc.First.Local.{Agree, first_of_local}
use bbq.Pegc.Worklist.{
  Worklist, push_all, IsTracked, push_all-IsTracked, push_all-count, length-push_all,
}
use bbq.Pegc.Collect.{Callers, callers_of}
use bbq.Pegc.Collect.Calls.{calls}
use bbq.Pegc.Kildall.{FirstState, set_first, first_round}
use bbq.Pegc.Kildall.Table.{
  find-set_first_ne, find-set_first_back, is_declared-set_first, total, total-set_first,
}
use bbq.Pegc.Kildall.Invariant.{
  IsWired, IsRising, IsPending, set_first-IsWired, next-IsRising, fresh_longer,
}

pub record IsLive (t : Terminals) (callers : List Callers) (u : List FirstElement)
    (ps : Productions) (wl : Worklist) : Type 0 where
  pub tracked : IsTracked wl
  pub wiring : IsWired t callers ps
  pub ascent : IsRising t u ps
  pub pending : IsPending t ps wl.queue

module _ (t : Terminals) (callers : List Callers) (m : Text) (info : ProductionInfo)
    (ps : Productions) (wl : Worklist) where
  abbrev unchanged : FirstState
  unchanged = record { productions = ps; worklist = wl }

  abbrev changed : FirstState
  changed = record {
    productions = set_first m (first_of t ps info.body) ps;
    worklist = push_all wl (callers_of m callers);
  }

  pub round_skips : info.left_recursive ≡ true → first_round t callers m info ps wl ≡ unchanged
  unfolding first_round
  round_skips h = if_true _ _ _ h

  pub round_rests :
      info.left_recursive ≡ false
      → first_set_eq (first_of t ps info.body) info.first_set ≡ true
      → first_round t callers m info ps wl ≡ unchanged
  unfolding first_round
  round_rests h k = if_false _ _ _ h ∙ if_true _ _ _ k

  pub round_changes :
      info.left_recursive ≡ false
      → first_set_eq (first_of t ps info.body) info.first_set ≡ false
      → first_round t callers m info ps wl ≡ changed
  unfolding first_round
  round_changes h k = if_false _ _ _ h ∙ if_false _ _ _ k

first_set_eq_self : (a : List FirstElement) → first_set_eq a a ≡ true
unfolding first_set_eq
first_set_eq_self a = and_both _ _ (ground arith) (found-all_found a a (λ x k. k))

-- The name that was popped is settled, or is passed over for good.
rest-IsPending :
    (t : Terminals) (ps : Productions) (m : Text) (rest : List Text) (info : ProductionInfo)
    → find m ps ≡ some info
    → (info.left_recursive ≡ false → first_set_eq (first_of t ps info.body) info.first_set ≡ true)
    → IsPending t ps (m ∷ rest)
    → IsPending t ps rest
unfolding count
rest-IsPending t ps m rest info f done h = record {
  queued = λ n k. h.queued n (or_right _ _ k);
  settled = λ n p g l k. elim (Bool-cases (text_eq n m)) [
    | inl e ↦
        let same : info ≡ p =
          some_same (sym f ∙ ap (λ a. find a ps) (sym (text_eq-same n m e)) ∙ g) in
        subst (λ (r : ProductionInfo). first_set_eq (first_of t ps r.body) r.first_set ≡ true) same
          (done (ap (λ (r : ProductionInfo). r.left_recursive) same ∙ l))
    | inr e ↦ h.settled n p g l (ap (λ b. b || count n rest) e ∙ k)
  ];
}

-- A body that does not call the production that was set has the same set afterwards.
body_same :
    (t : Terminals) (callers : List Callers) (ps : Productions) (m n : Text) (s : List FirstElement)
    (p : ProductionInfo)
    → IsWired t callers ps
    → find n ps ≡ some p
    → count n (callers_of m callers) ≡ false
    → first_of t ps p.body ≡ first_of t (set_first m s ps) p.body
body_same t callers ps m n s p w g no_call =
    (first_of_local t ps (set_first m s ps) p.body (λ k c. agree k (apart k c))).0
  where
    agree : (k : Text) → text_eq k m ≡ false → Agree ps (set_first m s ps) k
    agree k a =
        let same : find k ps ≡ find k (set_first m s ps) = sym (find-set_first_ne k m s ps a) in
        (ap (λ o. nullable_entry o) same, ap (λ o. first_entry o) same)

    apart : (k : Text) → calls t k p.body ≡ true → text_eq k m ≡ false
    apart k c = elim (Bool-cases (text_eq k m)) [
      | inl e ↦
          let called : count n (callers_of m callers) ≡ true =
            ap (λ a. count n (callers_of a callers)) (sym (text_eq-same k m e))
            ∙ w.wired k n p g c in
          cc
      | inr e ↦ e
    ]

-- After a change the callers are pending, and the sets of all others are as they were.
changed-IsPending :
    (t : Terminals) (callers : List Callers) (ps : Productions) (m : Text) (wl : Worklist)
    (info : ProductionInfo)
    → find m ps ≡ some info
    → IsWired t callers ps
    → IsTracked wl
    → IsPending t ps (m ∷ wl.queue)
    → IsPending t
        (set_first m (first_of t ps info.body) ps)
        (push_all wl (callers_of m callers)).queue
unfolding count
changed-IsPending t callers ps m wl info f w tr h = record {
  queued = λ n k.
      is_declared-set_first n m _ ps info f
        (elim (or_cases _ _ (sym (push_all-count wl (callers_of m callers) n tr) ∙ k)) [
          | inl c ↦ w.known m n c
          | inr c ↦ h.queued n (or_right _ _ c)
        ]);
  settled = λ n q g l k.
      let parts : (count n (callers_of m callers) ≡ false) × (count n wl.queue ≡ false) =
        or_parts _ _ (sym (push_all-count wl (callers_of m callers) n tr) ∙ k) in
      elim (find-set_first_back n m (first_of t ps info.body) ps info q f g) [
        | inl e ↦
            let g' : find n ps ≡ some info = ap (λ a. find a ps) (text_eq-same n m e.0) ∙ f in
            let same : first_of t ps info.body
                ≡ first_of t (set_first m (first_of t ps info.body) ps) info.body =
              body_same t callers ps m n _ info w g' parts.0 in
            subst
              (λ (r : ProductionInfo).
                first_set_eq (first_of t (set_first m (first_of t ps info.body) ps) r.body)
                  r.first_set
                ≡ true)
              (sym e.1)
              (ap (λ s. first_set_eq s (first_of t ps info.body)) (sym same)
                ∙ first_set_eq_self (first_of t ps info.body))
        | inr e ↦
            ap (λ s. first_set_eq s q.first_set)
              (sym (body_same t callers ps m n _ q w e.1 parts.0))
            ∙ h.settled n q e.1 l (ap (λ b. b || count n wl.queue) e.0 ∙ parts.1)
      ];
}

module _ (t : Terminals) (callers : List Callers) (u : List FirstElement) (plain : IsPlain u)
    (he : IsWithin (epsilon ∷ []) u) (ps : Productions) (wl : Worklist) (m : Text)
    (info : ProductionInfo) (f : find m ps ≡ some info) where
  -- What a round comes to: nothing but the name is gone, or the sets have grown together by at
  -- least an element, and at most the callers are pending in addition.
  abbrev pub Nearer : FirstState → Type 0
  Nearer s =
      ((s.productions ≡ ps) × (length s.worklist.queue ≡ length wl.queue))
      ⊎ ((s.productions ≡ set_first m (first_of t ps info.body) ps)
          × (total ps < total s.productions)
          × (length s.worklist.queue ≤ length wl.queue + length (callers_of m callers)))

  abbrev pub Advanced : FirstState → Type 0
  Advanced s = IsLive t callers u s.productions s.worklist × Nearer s

  rests :
      IsTracked wl
      → IsWired t callers ps
      → IsRising t u ps
      → IsPending t ps wl.queue
      → Advanced (unchanged t callers m info ps wl)
  rests tr w r p = (record { tracked = tr; wiring = w; ascent = r; pending = p }, inl (refl, refl))

  changes :
      IsTracked wl
      → IsWired t callers ps
      → IsRising t u ps
      → IsPending t ps (m ∷ wl.queue)
      → first_set_eq (first_of t ps info.body) info.first_set ≡ false
      → Advanced (changed t callers m info ps wl)
  changes tr w r p k =
      let longer : length info.first_set < length (first_of t ps info.body) =
        fresh_longer t u plain he ps m info f r k in
      (
        record {
          tracked = push_all-IsTracked wl (callers_of m callers) tr;
          wiring = set_first-IsWired t callers ps m _ info f w;
          ascent = next-IsRising t u plain he ps m info f r;
          pending = changed-IsPending t callers ps m wl info f w tr p;
        },
        inr (
          refl,
          omega (arith, longer, total-set_first m (first_of t ps info.body) ps info f),
          length-push_all wl (callers_of m callers),
        ),
      )

  pub first_round_lem :
      IsTracked wl
      → IsWired t callers ps
      → IsRising t u ps
      → IsPending t ps (m ∷ wl.queue)
      → Advanced (first_round t callers m info ps wl)
  first_round_lem tr w r p = elim (Bool-cases info.left_recursive) [
    | inl l ↦
        subst Advanced (sym (round_skips t callers m info ps wl l))
          (rests tr w r (rest-IsPending t ps m wl.queue info f (λ k. cc) p))
    | inr l ↦ elim (Bool-cases (first_set_eq (first_of t ps info.body) info.first_set)) [
      | inl k ↦
          subst Advanced (sym (round_rests t callers m info ps wl l k))
            (rests tr w r (rest-IsPending t ps m wl.queue info f (λ j. k) p))
      | inr k ↦ subst Advanced (sym (round_changes t callers m info ps wl l k)) (changes tr w r p k)
    ]
  ]
