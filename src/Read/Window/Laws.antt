-- ===== src/Read/Window/Laws.antt =====
-- backends/c/runtime/bbq_read.h: the windows that the interval functions open and close.
use bbq.Base.{
  ℕ, zero, suc, ◌-◌, ◌≤◌, ◌<◌, ◌≡◌, refl, sym, ap, subst₂, ◌∙◌, Bool, true, false, ltb,
  if◌then◌else◌, arith, length, subst, List,
}
use bbq.Read.Ctx.{
  Ctx, done, fail, at, effective_start, effective_end, interval_out_of_range, oom_interval_stack,
}
use bbq.Read.Stacks.{stack_ensure, write_at}
use bbq.Read.Stacks.Laws.{HasStacks, stack_ensure-Ensured, at-write_self, at-write_ne}
use bbq.Read.Window.{interval_ensure, push_interval_checked, pop_interval}

-- The window around level `d`: the whole input at the bottom.
abbrev pub outer_start : (ℕ → ℕ) → ℕ → ℕ
outer_start s zero = 0
outer_start s (suc d) = s d

abbrev pub outer_end : ℕ → (ℕ → ℕ) → ℕ → ℕ
outer_end n e zero = n
outer_end n e (suc d) = e d

-- Each of the `d` windows is well formed and lies in the one around it.
abbrev pub Nested : ℕ → (ℕ → ℕ) → (ℕ → ℕ) → ℕ → Type 0
Nested n s e zero = Unit {0}
Nested n s e (suc d) =
    (outer_start s d ≤ s d) × (s d ≤ e d) × (e d ≤ outer_end n e d) × Nested n s e d

abbrev pub IsConfined : Ctx → Type 0
IsConfined c = Nested (length c.input) (at c.interval_starts) (at c.interval_ends) c.interval_depth

-- The windows below the top are all that nesting looks at.
Nested-congr :
    (n : ℕ) (s e s' e' : ℕ → ℕ) (d : ℕ)
    → ((i : ℕ) → i < d → s' i ≡ s i)
    → ((i : ℕ) → i < d → e' i ≡ e i)
    → Nested n s e d
    → Nested n s' e' d
Nested-congr n s e s' e' zero p q h = tt
Nested-congr n s e s' e' (suc zero) p q h = omega (arith, p 0 (omega arith), q 0 (omega arith))
Nested-congr n s e s' e' (suc (suc d)) p q h = (
  omega (arith, p d (omega arith), p (suc d) (omega arith), h.0),
  omega (arith, p (suc d) (omega arith), q (suc d) (omega arith), h.1),
  omega (arith, q d (omega arith), q (suc d) (omega arith), h.2),
  Nested-congr n s e s' e' (suc d) (λ i lt. p i (omega arith)) (λ i lt. q i (omega arith)) h.3,
)

outer_end-le : (n : ℕ) (s e : ℕ → ℕ) (d : ℕ) → Nested n s e d → outer_end n e d ≤ n
outer_end-le n s e zero h = omega arith
outer_end-le n s e (suc d) h = omega (arith, outer_end-le n s e d h.3)

pub effective_end-eq :
    (c : Ctx) → effective_end c ≡ outer_end (length c.input) (at c.interval_ends) c.interval_depth
effective_end-eq c = go c.interval_depth
  where
    go :
        (d : ℕ)
        → (if ltb 0 d then at c.interval_ends (d - 1) else length c.input)
          ≡ outer_end (length c.input) (at c.interval_ends) d
    go zero = refl
    go (suc d) = ground (arith, ap (at c.interval_ends) {x = suc d - 1} {y = d} (omega arith))

pub effective_start-eq :
    (c : Ctx) → effective_start c ≡ outer_start (at c.interval_starts) c.interval_depth
effective_start-eq c = go c.interval_depth
  where
    go :
        (d : ℕ)
        → (if ltb 0 d then at c.interval_starts (d - 1) else 0)
          ≡ outer_start (at c.interval_starts) d
    go zero = refl
    go (suc d) = ground (arith, ap (at c.interval_starts) {x = suc d - 1} {y = d} (omega arith))

-- In a confined context no window reaches past the input.
pub effective_end-le : (c : Ctx) → IsConfined c → effective_end c ≤ length c.input
effective_end-le c h = omega (
  arith,
  effective_end-eq c,
  outer_end-le (length c.input) (at c.interval_starts) (at c.interval_ends) c.interval_depth h,
)

-- The growth step of a push touches no window.
pub record Grown (c : Ctx) (there : Bool) (c' : Ctx) : Type 0 where
  pub stacks : HasStacks c'
  pub starts : (i : ℕ) → at c'.interval_starts i ≡ at c.interval_starts i
  pub ends : (i : ℕ) → at c'.interval_ends i ≡ at c.interval_ends i
  pub depth : c'.interval_depth ≡ c.interval_depth
  pub pos : c'.pos ≡ c.pos
  pub input : c'.input ≡ c.input
  pub error : c'.error ≡ c.error
  pub room_starts : there ≡ true → c.interval_depth < c'.interval_starts.cap
  pub room_ends : there ≡ true → c.interval_depth < c'.interval_ends.cap

pub interval_ensure-Grown :
    (c : Ctx) → HasStacks c → Grown c (interval_ensure c).0 (interval_ensure c).1
unfolding interval_ensure
interval_ensure-Grown c h =
    let d = c.interval_depth in
    let (a, v, gs) = stack_ensure 8 c.grants c.interval_starts d in
    let p = stack_ensure-Ensured 8 c.grants c.interval_starts d h.starts in
    let q = stack_ensure-Ensured 8 gs c.interval_ends d h.ends in
    record {
      stacks = ground (arith, p, q, h);
      starts = λ i. ground (arith, p.same i);
      ends = λ i. ground (arith, q.same i);
      depth = ground arith;
      pos = ground arith;
      input = ground arith;
      error = ground arith;
      room_starts = ground (arith, p);
      room_ends = ground (arith, q);
    }

-- A window that was opened: it runs from the cursor to `end_pos` inside the one around it.
pub record Opened (c : Ctx) (end_pos : ℕ) (c' : Ctx) : Type 0 where
  pub stacks : HasStacks c'
  pub confined : IsConfined c'
  pub depth : c'.interval_depth ≡ suc c.interval_depth
  pub starts : (i : ℕ) → i < c.interval_depth → at c'.interval_starts i ≡ at c.interval_starts i
  pub ends : (i : ℕ) → i < c.interval_depth → at c'.interval_ends i ≡ at c.interval_ends i
  pub start : effective_start c' ≡ c.pos
  pub end : effective_end c' ≡ end_pos
  pub inside_start : effective_start c ≤ c.pos
  pub inside_end : end_pos ≤ effective_end c
  pub pos : c'.pos ≡ c.pos
  pub input : c'.input ≡ c.input
  pub outer_start : effective_start (pop_interval c') ≡ effective_start c
  pub outer_end : effective_end (pop_interval c') ≡ effective_end c

-- [pos, end_pos) is a window inside the one around it.
abbrev pub Inside : Ctx → ℕ → Type 0
Inside c end_pos = (effective_start c ≤ c.pos) × (c.pos ≤ end_pos) × (end_pos ≤ effective_end c)

-- No window was opened, closed or moved, and the input and the cursor are as they were.
pub record NotOpened (c : Ctx) (c' : Ctx) : Type 0 where
  pub stacks : HasStacks c'
  pub confined : IsConfined c'
  pub depth : c'.interval_depth ≡ c.interval_depth
  pub starts : (i : ℕ) → at c'.interval_starts i ≡ at c.interval_starts i
  pub ends : (i : ℕ) → at c'.interval_ends i ≡ at c.interval_ends i
  pub input : c'.input ≡ c.input
  pub start : effective_start c' ≡ effective_start c
  pub end : effective_end c' ≡ effective_end c
  pub pos : c'.pos ≡ c.pos

outer_start_congr :
    (s s' : ℕ → ℕ) (d : ℕ) → ((i : ℕ) → i < d → s' i ≡ s i) → outer_start s' d ≡ outer_start s d
outer_start_congr s s' zero p = refl
outer_start_congr s s' (suc d) p = p d (omega arith)

outer_end_congr :
    (n : ℕ) (e e' : ℕ → ℕ) (d : ℕ)
    → ((i : ℕ) → i < d → e' i ≡ e i)
    → outer_end n e' d ≡ outer_end n e d
outer_end_congr n e e' zero p = refl
outer_end_congr n e e' (suc d) p = p d (omega arith)

-- Two contexts whose open windows are the same.
module _ (c c' : Ctx) (depth : c'.interval_depth ≡ c.interval_depth) (input : c'.input ≡ c.input)
    (starts : (i : ℕ) → i < c.interval_depth → at c'.interval_starts i ≡ at c.interval_starts i)
    (ends : (i : ℕ) → i < c.interval_depth → at c'.interval_ends i ≡ at c.interval_ends i) where
  pub effective_start_congr : effective_start c' ≡ effective_start c
  effective_start_congr =
      effective_start-eq c'
      ∙ ap (outer_start (at c'.interval_starts)) depth
      ∙ outer_start_congr (at c.interval_starts) (at c'.interval_starts) c.interval_depth starts
      ∙ sym (effective_start-eq c)

  pub effective_end_congr : effective_end c' ≡ effective_end c
  effective_end_congr =
      effective_end-eq c'
      ∙ ap (outer_end (length c'.input) (at c'.interval_ends)) depth
      ∙ ap (λ l. outer_end (length l) (at c'.interval_ends) c.interval_depth) input
      ∙ outer_end_congr (length c.input) (at c.interval_ends) (at c'.interval_ends) c.interval_depth
          ends
      ∙ sym (effective_end-eq c)

  pub IsConfined-congr : IsConfined c → IsConfined c'
  IsConfined-congr h =
      subst₂ (λ l d. Nested (length l) (at c'.interval_starts) (at c'.interval_ends) d) (sym input)
        (sym depth)
        (Nested-congr (length c.input) (at c.interval_starts) (at c.interval_ends)
          (at c'.interval_starts) (at c'.interval_ends) c.interval_depth starts ends h)

module _ (c : Ctx) (h : HasStacks c) (nested : IsConfined c) (end_pos : ℕ) where
  abbrev pub grown : Ctx
  grown = (interval_ensure c).1

  pub opened : Ctx
  opened = record grown {
    interval_starts = write_at grown.interval_starts c.interval_depth c.pos;
    interval_ends = write_at grown.interval_ends c.interval_depth end_pos;
    interval_depth = suc c.interval_depth;
  }

  pub grown-NotOpened : NotOpened c grown
  grown-NotOpened =
      let g = interval_ensure-Grown c h in
      record {
        stacks = g.stacks;
        confined =
            IsConfined-congr c grown g.depth g.input (λ i _. g.starts i) (λ i _. g.ends i) nested;
        start = effective_start_congr c grown g.depth g.input (λ i _. g.starts i) (λ i _. g.ends i);
        depth = g.depth;
        starts = g.starts;
        ends = g.ends;
        input = g.input;
        end = effective_end_congr c grown g.depth g.input (λ i _. g.starts i) (λ i _. g.ends i);
        pos = g.pos;
      }

  opened-starts :
      (i : ℕ) → i < c.interval_depth → at opened.interval_starts i ≡ at c.interval_starts i
  unfolding opened
  opened-starts i lt =
      let g = interval_ensure-Grown c h in
      at-write_ne grown.interval_starts c.interval_depth i c.pos (omega arith) ∙ g.starts i

  opened-ends : (i : ℕ) → i < c.interval_depth → at opened.interval_ends i ≡ at c.interval_ends i
  unfolding opened
  opened-ends i lt =
      let g = interval_ensure-Grown c h in
      at-write_ne grown.interval_ends c.interval_depth i end_pos (omega arith) ∙ g.ends i

  opened-top :
      (at opened.interval_starts c.interval_depth ≡ c.pos)
      × (at opened.interval_ends c.interval_depth ≡ end_pos)
  unfolding opened
  opened-top = (
    at-write_self grown.interval_starts c.interval_depth c.pos,
    at-write_self grown.interval_ends c.interval_depth end_pos,
  )

  module _ (there : (interval_ensure c).0 ≡ true) (inside : Inside c end_pos) where
    opened-HasStacks : HasStacks opened
    unfolding opened
    opened-HasStacks =
        let g = interval_ensure-Grown c h in
        let k = g.stacks in
        record {
          scopes = k.scopes;
          indices = k.indices;
          limits = k.limits;
          caps = k.caps;
          bases = k.bases;
          starts = record { room = g.room_starts there; ceiling = k.starts.ceiling };
          ends = record { room = g.room_ends there; ceiling = k.ends.ceiling };
        }

    opened-IsConfined : IsConfined opened
    unfolding opened
    opened-IsConfined =
        let g = interval_ensure-Grown c h in
        let n = length c.input in
        let s = at opened.interval_starts in
        let e = at opened.interval_ends in
        let d = c.interval_depth in
        let low = outer_start_congr (at c.interval_starts) s d opened-starts in
        let high = outer_end_congr n (at c.interval_ends) e d opened-ends in
        subst (λ (l : List ℕ). Nested (length l) s e (suc d)) (sym g.input)
          (
            omega (arith, low, opened-top.0, effective_start-eq c, inside.0),
            omega (arith, opened-top.0, opened-top.1, inside.1),
            omega (arith, high, opened-top.1, effective_end-eq c, inside.2),
            Nested-congr n (at c.interval_starts) (at c.interval_ends) s e d opened-starts
                opened-ends nested,
          )

    pub opened-Opened : Opened c end_pos opened
    unfolding opened pop_interval
    opened-Opened =
        let g = interval_ensure-Grown c h in
        record {
          stacks = opened-HasStacks;
          confined = opened-IsConfined;
          depth = refl;
          starts = opened-starts;
          ends = opened-ends;
          start = effective_start-eq opened ∙ opened-top.0;
          end = effective_end-eq opened ∙ opened-top.1;
          inside_start = inside.0;
          inside_end = inside.2;
          pos = g.pos;
          input = g.input;
          outer_start =
              effective_start_congr c (pop_interval opened) (ground arith) (ground (arith, g.input))
                (λ i lt. ground (arith, opened-starts i lt))
                (λ i lt. ground (arith, opened-ends i lt));
          outer_end =
              effective_end_congr c (pop_interval opened) (ground arith) (ground (arith, g.input))
                (λ i lt. ground (arith, opened-starts i lt))
                (λ i lt. ground (arith, opened-ends i lt));
        }

  pub push-escape :
      ¬ Inside c end_pos → push_interval_checked end_pos c ≡ fail interval_out_of_range c
  unfolding push_interval_checked
  push-escape out = ground arith

  pub push-opened :
      (interval_ensure c).0 ≡ true
      → Inside c end_pos
      → push_interval_checked end_pos c ≡ (done tt, opened)
  unfolding push_interval_checked opened
  push-opened there inside = ground arith

  pub push-full :
      (interval_ensure c).0 ≡ false
      → Inside c end_pos
      → push_interval_checked end_pos c ≡ fail oom_interval_stack grown
  unfolding push_interval_checked
  push-full there inside = ground arith
