-- ===== src/Read/Window/Confine.antt =====
-- backends/c/runtime/bbq_read.h: bbq_push_interval_checked and bbq_pop_interval_checked.
use bbq.Base.{
  ℕ, zero, suc, ◌-◌, ◌<◌, ◌≡◌, refl, ap₂, subst, arith, Bool-cases, inl, inr, ◌≢◌, ◌⊎◌, length,
  ◌==◌,
}
use bbq.Read.Ctx.{
  Ctx, fail, note_error, at, Post, Post_if, effective_end, interval_out_of_range,
  oom_interval_stack,
}
use bbq.Read.Stacks.Laws.{HasStacks}
use bbq.Read.Window.{push_interval_checked, pop_interval_checked, pop_interval, interval_ensure}
use bbq.Read.Window.Laws.{
  Nested, IsConfined, Inside, Opened, NotOpened, push-escape, push-opened, push-full, grown,
  grown-NotOpened, opened-Opened, interval_ensure-Grown,
}

Inside-cases : (c : Ctx) (end_pos : ℕ) → Inside c end_pos ⊎ (¬ Inside c end_pos)
Inside-cases c end_pos = ground arith

-- A refused window leaves the windows and the cursor, and says why.
pub record Refusal (c : Ctx) (end_pos : ℕ) (c' : Ctx) : Type 0 where
  pub unchanged : NotOpened c c'
  pub reason :
      (¬ Inside c end_pos) × (c'.error ≡ note_error c.error c.pos interval_out_of_range)
      ⊎ Inside c end_pos × (c'.error ≡ note_error c.error c.pos oom_interval_stack)

module _ (c : Ctx) (h : HasStacks c) (nested : IsConfined c) (end_pos : ℕ) where
  escape-Refusal :
      ¬ Inside c end_pos → Refusal c end_pos (fail {A = Unit {0}} interval_out_of_range c).1
  escape-Refusal out = record {
    unchanged = record {
      stacks = record {
        scopes = h.scopes;
        indices = h.indices;
        limits = h.limits;
        caps = h.caps;
        bases = h.bases;
        starts = h.starts;
        ends = h.ends;
      };
      confined = nested;
      depth = refl;
      starts = λ i. refl;
      ends = λ i. refl;
      input = refl;
      start = refl;
      end = refl;
      pos = refl;
    };
    reason = inl (out, refl);
  }

  full-Refusal :
      Inside c end_pos
      → Refusal c end_pos (fail {A = Unit {0}} oom_interval_stack (grown c h nested end_pos)).1
  full-Refusal inside =
      let g = interval_ensure-Grown c h in
      let n = grown-NotOpened c h nested end_pos in
      let k = n.stacks in
      record {
        unchanged = record {
          stacks = record {
            scopes = k.scopes;
            indices = k.indices;
            limits = k.limits;
            caps = k.caps;
            bases = k.bases;
            starts = k.starts;
            ends = k.ends;
          };
          confined = n.confined;
          depth = n.depth;
          starts = n.starts;
          ends = n.ends;
          input = n.input;
          start = n.start;
          end = n.end;
          pos = n.pos;
        };
        reason = inr (inside, ap₂ (λ e (p : ℕ). note_error e p oom_interval_stack) g.error g.pos);
      }

  -- In a context whose windows nest inside the input, opening a window [pos, end_pos) either opens
  -- exactly that window one level deeper, which lies in the one around it, leaves the outer windows,
  -- the input and the cursor, keeps the windows nested, and closing it uncovers the one around it; or
  -- it fails, leaves the depth, every window, the input and the cursor, and notes the error at the
  -- cursor, where none is noted yet: "interval out of range" where the window is none inside the one
  -- around it, and "out of memory" otherwise.
  pub push_interval_checked_lem :
      Post
        (push_interval_checked end_pos c)
        (λ _ c'. Opened c end_pos c')
        (λ c'. Refusal c end_pos c')
  push_interval_checked_lem = elim (Inside-cases c end_pos) [
    | inr out ↦ rw (push-escape c h nested end_pos out) (escape-Refusal out)
    | inl inside ↦ elim (Bool-cases (interval_ensure c).0) [
      | inl there ↦
          rw (push-opened c h nested end_pos there inside)
            (opened-Opened c h nested end_pos there inside)
      | inr full ↦ rw (push-full c h nested end_pos full inside) (full-Refusal inside)
    ]
  ]

-- A window that was closed: the cursor stood at its end, and only the depth went down.
pub record Closed (c c' : Ctx) : Type 0 where
  pub at_end : c.pos ≡ effective_end c
  pub some_open : 0 < c.interval_depth
  pub popped : c' ≡ pop_interval c
  pub confined : IsConfined c'

Nested-pop : (n : ℕ) (s e : ℕ → ℕ) (d : ℕ) → Nested n s e d → Nested n s e (d - 1)
Nested-pop n s e zero h = tt
Nested-pop n s e (suc d) h = subst (Nested n s e) {x = d} {y = suc d - 1} (omega arith) h.3

-- Closing a window succeeds exactly where one is open and the cursor stands at its end; either way
-- the windows that stay open are nested inside the input.
pub pop_interval_checked_lem :
    (c : Ctx)
    → IsConfined c
    → Post
        (pop_interval_checked c)
        (λ _ c'. Closed c c')
        (λ c'. IsConfined c' × ((c.interval_depth ≡ 0) ⊎ (c.pos ≢ effective_end c)))
unfolding pop_interval_checked pop_interval
pop_interval_checked_lem c nested =
    let below =
      Nested-pop (length c.input) (at c.interval_starts) (at c.interval_ends) c.interval_depth
        nested in
    Post_if (c.interval_depth == 0) _ _ _ _ (λ z. (nested, ground arith))
      (λ opened.
        Post_if (c.pos == at c.interval_ends (c.interval_depth - 1)) _ _ _ _
          (λ e. record {
            at_end = ground arith;
            some_open = ground arith;
            popped = ground arith;
            confined = below;
          })
          (λ e. (below, ground arith)))
