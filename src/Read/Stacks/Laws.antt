-- ===== src/Read/Stacks/Laws.antt =====
-- backends/c/runtime/bbq_read.h: what a parse stack holds after a push, and the frames of loops.
use bbq.Base.{ℕ, ◌+◌, ◌-◌, ◌*◌, ◌≤◌, ◌<◌, ◌≡◌, ap, Bool, true, ltb, if◌then◌else◌, arith, ◌≢◌}
use bbq.Crt.Alloc.{Grants}
use bbq.Crt.Vec.{Vec, max_cap, vec_cap, reserve}
use bbq.Crt.Vec.Laws.{Grows, resize-Grows}
use bbq.Read.Ctx.{Ctx, at, slot_or_zero, Post, Post_if}
use bbq.Read.Stacks.{stack_ensure, write_at, push_scope, pop_scope, scope_ptr}

-- The depth of a stack never passes what its block has room for.
pub record IsStack (v : Vec ℕ) (depth : ℕ) : Type 0 where
  pub room : depth ≤ v.cap
  pub ceiling : v.cap ≤ max_cap

-- After a growth step: the same elements, no less room, and where it answered true a slot at `depth`.
pub record Ensured (v : Vec ℕ) (depth : ℕ) (there : Bool) (w : Vec ℕ) : Type 0 where
  pub same : (i : ℕ) → at w i ≡ at v i
  pub more : v.cap ≤ w.cap
  pub capped : w.cap ≤ max_cap
  pub slot : there ≡ true → depth < w.cap

reserve-Grows :
    (elem_size : ℕ) (gs : Grants) (v : Vec ℕ) (n : ℕ)
    → v.cap ≤ max_cap
    → Grows v (reserve elem_size gs v n).0
unfolding reserve
reserve-Grows elem_size gs v n h = ground (arith, resize-Grows elem_size gs v h n)

pub stack_ensure-Ensured :
    (elem_size : ℕ) (gs : Grants) (v : Vec ℕ) (depth : ℕ)
    → IsStack v depth
    → Ensured v depth (stack_ensure elem_size gs v depth).0 (stack_ensure elem_size gs v depth).1
unfolding stack_ensure vec_cap
stack_ensure-Ensured elem_size gs v depth h =
    let sw = if ltb 0 (vec_cap v) then vec_cap v * 2 else 8 in
    let g = reserve-Grows elem_size gs v sw h.ceiling in
    let same : (i : ℕ) → at (reserve elem_size gs v sw).0 i ≡ at v i =
      λ i. ap (λ m. slot_or_zero (m i)) g.same_slots in
    record {
      same = λ i. ground (arith, same i);
      more = ground (arith, g);
      capped = ground (arith, g);
      slot = ground (arith, g);
    }

pub at-write_self : (v : Vec ℕ) (i x : ℕ) → at (write_at v i x) i ≡ x
at-write_self v i x = ground arith

pub at-write_ne : (v : Vec ℕ) (i j x : ℕ) → j ≢ i → at (write_at v i x) j ≡ at v j
at-write_ne v i j x n = ground arith

-- Every stack of the context is in its block.
pub record HasStacks (c : Ctx) : Type 0 where
  pub scopes : IsStack c.scopes c.scope_depth
  pub indices : IsStack c.loop_indices c.loop_depth
  pub limits : IsStack c.loop_limits c.loop_depth
  pub caps : IsStack c.loop_caps c.loop_depth
  pub bases : IsStack c.loop_bases c.loop_base_depth
  pub starts : IsStack c.interval_starts c.interval_depth
  pub ends : IsStack c.interval_ends c.interval_depth

-- A scope that was pushed is the innermost; the others are one level further up.
pub record ScopePushed (c : Ctx) (ptr : ℕ) (c' : Ctx) : Type 0 where
  pub stacks : HasStacks c'
  pub innermost : scope_ptr c' 0 ≡ ptr
  pub outer : (k : ℕ) → scope_ptr c' (k + 1) ≡ scope_ptr c k
  pub popped : (k : ℕ) → scope_ptr (pop_scope c') k ≡ scope_ptr c k

pub record ScopeRefused (c c' : Ctx) : Type 0 where
  pub stacks : HasStacks c'
  pub same : (k : ℕ) → scope_ptr c' k ≡ scope_ptr c k

-- A push of a scope either puts `ptr` on top of the scopes that were there, and a pop uncovers
-- them again, or it fails and leaves every scope as it was. Either way each stack stays within its
-- block.
pub push_scope_lem :
    (ptr : ℕ) (c : Ctx)
    → HasStacks c
    → Post (push_scope ptr c) (λ _ c'. ScopePushed c ptr c') (λ c'. ScopeRefused c c')
unfolding push_scope scope_ptr pop_scope
push_scope_lem ptr c h =
    let (there, w, gs) = stack_ensure 8 c.grants c.scopes c.scope_depth in
    let e = stack_ensure-Ensured 8 c.grants c.scopes c.scope_depth h.scopes in
    let d = c.scope_depth in
    Post_if there _ _ _ _
      (λ t. record {
        stacks = record {
          scopes = ground (arith, e);
          indices = h.indices;
          limits = h.limits;
          caps = h.caps;
          bases = h.bases;
          starts = h.starts;
          ends = h.ends;
        };
        innermost = ground (arith, at-write_self w d ptr);
        outer = λ k. ground (arith, e.same (d - 1 - k), at-write_ne w d (d - 1 - k) ptr);
        popped = λ k. ground (arith, e.same (d - 1 - k), at-write_ne w d (d - 1 - k) ptr);
      })
      (λ t. record {
        stacks = record {
          scopes = ground (arith, e);
          indices = h.indices;
          limits = h.limits;
          caps = h.caps;
          bases = h.bases;
          starts = h.starts;
          ends = h.ends;
        };
        same = λ k. ground (arith, e.same (d - 1 - k));
      })
