-- ===== src/Examples/Reader.antt =====
-- backends/c/runtime/bbq_read.h on a message of eleven bytes.
use bbq.Base.{
  ◌||◌, Answered, ℕ, ◌-◌, ◌≡◌, ◌≢◌, refl, true, false, none, some, List, [], ◌∷◌, ltb, ◌==◌, ◌^◌,
  if◌then◌else◌, arith, ◌⊎◌,
}
use bbq.Crt.Vec.{Vec, null}
use bbq.Read.Ctx.{
  Ctx, ctx_init, done, Post, advance, effective_end, u16be_overrun, u16le_overrun, u32be_overrun,
  u32le_overrun, u64be_overrun, u64le_overrun,
}
use bbq.Read.Ctx.Advance.{advance-wraps}
use bbq.Read.Stacks.{push_scope, push_loop_n}
use bbq.Read.Stacks.Laws.{HasStacks, IsStack, ScopePushed, ScopeRefused, push_scope_lem}
use bbq.Read.Stacks.Loops.{IsFrame, turns, push_loop_n-turns}
use bbq.Read.Window.{push_interval_checked, pop_interval_checked}
use bbq.Read.Window.Laws.{IsConfined, Opened}
use bbq.Read.Window.Confine.{Refusal, Closed, push_interval_checked_lem, pop_interval_checked_lem}
use bbq.Read.Fixed.{
  be_value, le_value, read_u16be, read_u16le, read_u32be, read_u32le, read_u64be, read_u64le,
  read_u16, read_u32, read_u64,
}
use bbq.Read.Fixed.Laws.{IsParsing, expected, fixed_reads, native_reads}
use bbq.Read.Owned.{read_bytes, read_string, array_grow}
use bbq.Read.Owned.Laws.{Copied, Grown, owned_reads, array_grow_lem}
use bbq.Read.Leb.{read_uleb128, max_bytes}
use bbq.Read.Leb.Groups.{uleb_value}
use bbq.Read.Leb.Uleb.{moved, read_uleb128_accepts}
use bbq.Read.Leb.Strict.{HasRead, read_uleb128_sound}

-- A message: 300 as LEB128 in three bytes, padded, and eight more bytes; the allocator answers twice.
abbrev message : List ℕ
message = 0xAC ∷ 0x82 ∷ 0x00 ∷ 1 ∷ 2 ∷ 3 ∷ 4 ∷ 5 ∷ 6 ∷ 7 ∷ 8 ∷ []

abbrev reader : Ctx
reader = ctx_init message (true ∷ true ∷ [])

reader-HasStacks : HasStacks reader
unfolding ctx_init null
reader-HasStacks =
    let empty : IsStack null 0 = record { room = omega arith; ceiling = omega arith } in
    record {
      scopes = empty;
      indices = empty;
      limits = empty;
      caps = empty;
      bases = empty;
      starts = empty;
      ends = empty;
    }

reader-IsConfined : IsConfined reader
unfolding ctx_init null
reader-IsConfined = tt

reader-IsParsing : IsParsing reader
unfolding ctx_init null
reader-IsParsing = record {
  confined = tt;
  bytes = omega arith;
  within = omega arith;
  fits = omega arith;
}

push_interval_checked_example :
    Post (push_interval_checked 4 reader) (λ _ c'. Opened reader 4 c') (λ c'. Refusal reader 4 c')
push_interval_checked_example =
    push_interval_checked_lem reader reader-HasStacks reader-IsConfined 4

-- The window [0, 4) is open, and the cursor stands at its end.
abbrev one : ℕ → Vec ℕ
one x = record { len = 0; cap = 8; poisoned = false; slot = λ i. if i == 0 then some x else none }

abbrev windowed : Ctx
windowed = record reader {
  interval_starts = one 0;
  interval_ends = one 4;
  interval_depth = 1;
  pos = 4;
}

windowed-IsConfined : IsConfined windowed
unfolding ctx_init
windowed-IsConfined = (omega arith, omega arith, omega arith, tt)

pop_interval_checked_example :
    Post
      (pop_interval_checked windowed)
      (λ _ c'. Closed windowed c')
      (λ c'.
        IsConfined c' × ((windowed.interval_depth ≡ 0) ⊎ (windowed.pos ≢ effective_end windowed)))
pop_interval_checked_example = pop_interval_checked_lem windowed windowed-IsConfined

read_uleb128_sound_example :
    Post
      (read_uleb128 32 reader)
      (λ v c'. HasRead 32 (max_bytes 32) reader 1 0 v c')
      (λ c'. Unit {0})
read_uleb128_sound_example =
    read_uleb128_sound 32 (omega arith) (omega arith) reader reader-IsParsing

message-value : uleb_value (0xAC ∷ 0x82 ∷ 0x00 ∷ []) ≡ 300
unfolding uleb_value
message-value = refl

-- The padded 300 is read from the message.
read_uleb128_accepts_example :
    read_uleb128 32 reader ≡ (done (uleb_value (0xAC ∷ 0x82 ∷ 0x00 ∷ [])), moved reader 3)
unfolding ctx_init
read_uleb128_accepts_example =
    read_uleb128_accepts 32 (omega arith) (omega arith) (0xAC ∷ 0x82 ∷ 0x00 ∷ [])
      (1 ∷ 2 ∷ 3 ∷ 4 ∷ 5 ∷ 6 ∷ 7 ∷ 8 ∷ []) reader (omega arith) (omega arith)
      (omega (arith, message-value)) refl (omega arith) (omega arith)

fixed_reads_example :
    (read_u16be true reader ≡ expected 2 u16be_overrun be_value reader)
    × (read_u16le true reader ≡ expected 2 u16le_overrun le_value reader)
    × (read_u32be true reader ≡ expected 4 u32be_overrun be_value reader)
    × (read_u32le true reader ≡ expected 4 u32le_overrun le_value reader)
    × (read_u64be true reader ≡ expected 8 u64be_overrun be_value reader)
    × (read_u64le true reader ≡ expected 8 u64le_overrun le_value reader)
fixed_reads_example = fixed_reads reader reader-IsParsing true

native_reads_example :
    (read_u16 false reader
      ≡ expected 2
          (if reader.little_endian then u16le_overrun else u16be_overrun)
          (if reader.little_endian then le_value else be_value)
          reader)
    × (read_u32 false reader
        ≡ expected 4
            (if reader.little_endian then u32le_overrun else u32be_overrun)
            (if reader.little_endian then le_value else be_value)
            reader)
    × (read_u64 false reader
        ≡ expected 8
            (if reader.little_endian then u64le_overrun else u64be_overrun)
            (if reader.little_endian then le_value else be_value)
            reader)
native_reads_example = native_reads reader reader-IsParsing false

push_scope_example :
    Post
      (push_scope 4096 reader)
      (λ _ c'. ScopePushed reader 4096 c')
      (λ c'. ScopeRefused reader c')
push_scope_example = push_scope_lem 4096 reader reader-HasStacks

-- The third and last call of bbq_loop_next on a loop of three.
push_loop_n-turns_example :
    Post
      (push_loop_n 3 reader)
      (λ _ c'. IsFrame 3 3 (turns 3 c').1 × ((turns 3 c').0 ≡ (3 == 0 || ltb 3 3)))
      (λ _. Unit {0})
push_loop_n-turns_example = push_loop_n-turns 3 3 reader (omega arith) (omega arith)

-- From offset 4, an advance by SIZE_MAX goes back by one.
advance-wraps_example :
    advance 0xFFFFFFFFFFFFFFFF (record reader { pos = 4 })
    ≡ (done tt, record reader { pos = 4 - (2 ^ 64 - 0xFFFFFFFFFFFFFFFF) })
unfolding ctx_init
advance-wraps_example =
    advance-wraps 0xFFFFFFFFFFFFFFFF (record reader { pos = 4 }) (omega arith) (omega arith)
      (omega arith) (omega arith)

owned_reads_example :
    Post (read_bytes 5 reader) (λ bs c'. Copied 5 reader bs c') (λ c'. c'.pos ≡ reader.pos)
    × Post (read_string 5 reader) (λ bs c'. Copied 5 reader bs c') (λ c'. c'.pos ≡ reader.pos)
unfolding ctx_init
owned_reads_example = owned_reads 5 reader reader-IsParsing (omega arith)

-- The first element of a loop over two-byte elements, with no store yet.
abbrev looping : Ctx
looping = record reader { loop_indices = one 0; loop_caps = one 0; loop_depth = 1 }

array_grow_example :
    Answered
      (array_grow [] 2 looping).0
      (Grown [] 2 looping (array_grow [] 2 looping).1 (array_grow [] 2 looping).2)
      (((array_grow [] 2 looping).1 ≡ []) × ((array_grow [] 2 looping).2.store_oom ≡ true))
unfolding ctx_init
array_grow_example = array_grow_lem [] 2 looping (omega arith) (omega arith) (omega arith)
