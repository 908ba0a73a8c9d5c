-- ===== src/Read/Ctx.antt =====
-- backends/c/runtime/bbq_read.h: the read context (bbq_ctx_t), failure, the cursor and checkpoints.
-- `input` is the array `data` with its `length`. `error` is has_error with the text of `error`: the
-- offset that the text begins with and the message behind it, all shorter than BBQ_ERROR_LEN.
-- `grants` is what the allocator of the stacks will answer, and a `void*` is a number, NULL 0.
pub mod Advance
use bbq.Base.{
  ℕ, ◌+◌, ◌-◌, Bool, true, false, ◌||◌, Option, none, some, List, ltb, leb, if◌then◌else◌, length,
  get_elem?, take, drop, ◌≡◌, refl,
}
use bbq.Crt.Alloc.{Grants, add_size}
use bbq.Crt.Vec.{Vec, null}

pub data Message : Type 0 where
  seek_out_of_range unexpected_end : Message
  oom_scope_stack oom_loop_stack oom_loop_base_stack oom_interval_stack : Message
  interval_out_of_range interval_unbalanced_pop interval_size_mismatch : Message
  u8_overrun u16be_overrun u16le_overrun u32be_overrun : Message
  u32le_overrun u64be_overrun u64le_overrun : Message
  uleb128_too_long uleb128_value_too_large uleb128_unterminated : Message
  sleb128_too_long sleb128_value_out_of_range sleb128_unterminated : Message
  bytes_overrun bytes_out_of_memory string_overrun string_out_of_memory : Message

-- bbq_ctx_t
pub record Ctx : Type 0 where
  pub input : List ℕ
  pub pos : ℕ
  pub little_endian : Bool
  pub grants : Grants
  pub store_oom : Bool
  pub error : Option (ℕ × Message)
  pub scopes : Vec ℕ
  pub scope_depth : ℕ
  pub loop_indices : Vec ℕ
  pub loop_limits : Vec ℕ
  pub loop_caps : Vec ℕ
  pub loop_depth : ℕ
  pub loop_bases : Vec ℕ
  pub loop_base_depth : ℕ
  pub interval_starts : Vec ℕ
  pub interval_ends : Vec ℕ
  pub interval_depth : ℕ
  pub endian_seeded : Bool

-- bbq_ctx_init and bbq_ctx_init_a
unfoldable pub ctx_init : List ℕ → Grants → Ctx
unfolding null
ctx_init input grants = record {
  input = input;
  pos = 0;
  little_endian = false;
  grants = grants;
  store_oom = false;
  error = none;
  scopes = null;
  scope_depth = 0;
  loop_indices = null;
  loop_limits = null;
  loop_caps = null;
  loop_depth = 0;
  loop_bases = null;
  loop_base_depth = 0;
  interval_starts = null;
  interval_ends = null;
  interval_depth = 0;
  endian_seeded = false;
}

-- bbq_ctx_free: the stacks are given back, the depths stay.
unfoldable pub ctx_free : Ctx → Ctx
unfolding null
ctx_free c = record c {
  scopes = null;
  loop_indices = null;
  loop_limits = null;
  loop_caps = null;
  loop_bases = null;
  interval_starts = null;
  interval_ends = null;
}

-- bbq_ctx_oom
unfoldable pub ctx_oom : Ctx → Bool
ctx_oom c =
    c.store_oom || c.scopes.poisoned || c.loop_indices.poisoned || c.loop_limits.poisoned
    || c.loop_caps.poisoned || c.loop_bases.poisoned || c.interval_starts.poisoned
    || c.interval_ends.poisoned

-- What a call that returns bool and writes through `out` does: it is `done` with the value, it
-- `failed` by returning false, or it read outside the input, a `fault`, which C leaves undefined.
pub data Outcome (A : Type 0) : Type 0 where
  done : A → Outcome A
  failed : Outcome A
  fault : Outcome A

abbrev pub M : Type 0 → Type 0
M A = Ctx → Outcome A × Ctx

abbrev pub pure : {A : Type 0} → A → M A
pure a c = (done a, c)

abbrev pub bind : {A B : Type 0} → Outcome A × Ctx → (A → M B) → Outcome B × Ctx
bind (done a, c) f = f a c
bind (failed, c) f = (failed, c)
bind (fault, c) f = (fault, c)

infixl 5 ◌>>=◌ ◌>>◌
abbrev pub ◌>>=◌ : {A B : Type 0} → M A → (A → M B) → M B
◌>>=◌ m f c = bind (m c) f

abbrev pub ◌>>◌ : {B : Type 0} → M (Unit {0}) → M B → M B
m >> k = m >>= λ _. k

-- bbq_fail: the first message stays.
abbrev pub note_error : Option (ℕ × Message) → ℕ → Message → Option (ℕ × Message)
note_error none pos msg = some (pos, msg)
note_error (some e) pos msg = some e

abbrev pub fail : {A : Type 0} → Message → M A
fail msg c = (failed, record c { error = note_error c.error c.pos msg })

-- An element of a parse stack; a slot that nothing has written reads as 0.
abbrev pub slot_or_zero : Option ℕ → ℕ
slot_or_zero none = 0
slot_or_zero (some x) = x

abbrev pub at : Vec ℕ → ℕ → ℕ
at v i = slot_or_zero (v.slot i)

-- bbq_seek, bbq_at_end
unfoldable pub seek : ℕ → Ctx → Ctx
seek pos c = record c { pos = pos }

unfoldable pub at_end : Ctx → Bool
at_end c = leb (length c.input) c.pos

-- bbq_effective_end, bbq_effective_start, bbq_remaining
abbrev pub effective_end : Ctx → ℕ
effective_end c =
    if ltb 0 c.interval_depth then at c.interval_ends (c.interval_depth - 1) else length c.input

abbrev pub effective_start : Ctx → ℕ
effective_start c =
    if ltb 0 c.interval_depth then at c.interval_starts (c.interval_depth - 1) else 0

unfoldable pub remaining : Ctx → ℕ
remaining c = if ltb c.pos (effective_end c) then effective_end c - c.pos else 0

-- bbq_seek_checked
unfoldable pub seek_checked : ℕ → M (Unit {0})
seek_checked pos c =
    if ltb (length c.input) pos then fail seek_out_of_range c else (done tt, record c { pos = pos })

-- bbq_advance; `pos + n` is a size_t.
unfoldable pub advance : ℕ → M (Unit {0})
advance n c =
    if ltb (effective_end c) (add_size c.pos n)
    then fail unexpected_end c
    else (done tt, record c { pos = add_size c.pos n })

-- bbq_set_endian
unfoldable pub set_endian : Bool → Ctx → Ctx
set_endian little c = record c { little_endian = little }

-- `data[i]`, and `memcpy` of `n` bytes from `data + i`.
unfoldable pub load : ℕ → M ℕ
load i c = elim (get_elem? c.input i) [ none ↦ (fault, c) | some b ↦ (done b, c) ]

unfoldable pub copy_bytes : ℕ → ℕ → M (List ℕ)
copy_bytes i n c =
    if leb (i + n) (length c.input) then (done (take n (drop i c.input)), c) else (fault, c)

-- bbq_peek: failing leaves no message.
unfoldable pub peek : M ℕ
unfolding load
peek c = if leb (effective_end c) c.pos then (failed, c) else load c.pos c

-- bbq_checkpoint_t, bbq_save and bbq_restore
pub record Checkpoint : Type 0 where
  pub pos : ℕ
  pub interval_depth : ℕ
  pub little_endian : Bool
  pub scope_depth : ℕ
  pub loop_depth : ℕ
  pub loop_base_depth : ℕ

unfoldable pub save : Ctx → Checkpoint
save c = record {
  pos = c.pos;
  interval_depth = c.interval_depth;
  little_endian = c.little_endian;
  scope_depth = c.scope_depth;
  loop_depth = c.loop_depth;
  loop_base_depth = c.loop_base_depth;
}

unfoldable pub restore : Checkpoint → Ctx → Ctx
restore cp c = record c {
  pos = cp.pos;
  interval_depth = cp.interval_depth;
  little_endian = cp.little_endian;
  scope_depth = cp.scope_depth;
  loop_depth = cp.loop_depth;
  loop_base_depth = cp.loop_base_depth;
  error = none;
}

-- What holds after a call: `P` of the value and the context where it is done, `Q` of the context
-- where it failed, and never a fault.
abbrev pub Post : {A : Type 0} → Outcome A × Ctx → (A → Ctx → Type 0) → (Ctx → Type 0) → Type 0
Post (done a, c) P Q = P a c
Post (failed, c) P Q = Q c
Post (fault, c) P Q = ⊥

-- A call that branches keeps the equation of its test.
pub Post_if :
    {A : Type 0} (b : Bool) (x y : Outcome A × Ctx) (P : A → Ctx → Type 0) (Q : Ctx → Type 0)
    → (b ≡ true → Post x P Q)
    → (b ≡ false → Post y P Q)
    → Post (if b then x else y) P Q
Post_if true x y P Q h k = h refl
Post_if false x y P Q h k = k refl

pub Post_bind :
    {A B : Type 0} (m : Outcome A × Ctx) (f : A → M B) (P : A → Ctx → Type 0) (Q : Ctx → Type 0)
    (P' : B → Ctx → Type 0) (Q' : Ctx → Type 0)
    → Post m P Q
    → ((a : A) (c : Ctx) → P a c → Post (f a c) P' Q')
    → ((c : Ctx) → Q c → Q' c)
    → Post (bind m f) P' Q'
Post_bind (done a, c) f P Q P' Q' h k l = k a c h
Post_bind (failed, c) f P Q P' Q' h k l = l c h
Post_bind (fault, c) f P Q P' Q' h k l = absurd h

pub Post_weaken :
    {A : Type 0} (m : Outcome A × Ctx) (P : A → Ctx → Type 0) (Q : Ctx → Type 0)
    (P' : A → Ctx → Type 0) (Q' : Ctx → Type 0)
    → Post m P Q
    → ((a : A) (c : Ctx) → P a c → P' a c)
    → ((c : Ctx) → Q c → Q' c)
    → Post m P' Q'
Post_weaken (done a, c) P Q P' Q' h k l = k a c h
Post_weaken (failed, c) P Q P' Q' h k l = l c h
Post_weaken (fault, c) P Q P' Q' h k l = absurd h
