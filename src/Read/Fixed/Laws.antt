-- ===== src/Read/Fixed/Laws.antt =====
-- backends/c/runtime/bbq_read.h: the fixed-width reads, on either kind of host.
use bbq.Base.{
  ℕ, zero, suc, ◌+◌, ◌^◌, ◌≤◌, ◌<◌, ◌≡◌, Bool, true, false, List, [], ◌∷◌, leb, if◌then◌else◌,
  arith, length, take, drop, length-take, length-drop, Bool-cases, inl, inr,
}
use bbq.Read.Ctx.{
  Ctx, Outcome, done, failed, M, note_error, copy_bytes, effective_end, Message, u16be_overrun,
  u16le_overrun, u32be_overrun, u32le_overrun, u64be_overrun, u64le_overrun,
}
use bbq.Read.Window.Laws.{IsConfined, effective_end-le}
use bbq.Read.Fixed.{
  le_value, be_value, host_value, from_be, from_le, read_word, bswap16, bswap32, bswap64,
  read_u16be, read_u16le, read_u32be, read_u32le, read_u64be, read_u64le, read_u16, read_u32,
  read_u64,
}
use bbq.Read.Fixed.Swap.{
  AreBytes, swap_16, swap_16_back, swap_32, swap_32_back, swap_64, swap_64_back,
}

pub AreBytes-take : (n : ℕ) (bs : List ℕ) → AreBytes bs → AreBytes (take n bs)
AreBytes-take zero bs h = tt
AreBytes-take (suc n) [] h = tt
AreBytes-take (suc n) (b ∷ bs) h = (h.0, AreBytes-take n bs h.1)

pub AreBytes-drop : (n : ℕ) (bs : List ℕ) → AreBytes bs → AreBytes (drop n bs)
AreBytes-drop zero bs h = h
AreBytes-drop (suc n) [] h = tt
AreBytes-drop (suc n) (b ∷ bs) h = AreBytes-drop n bs h.1

-- What a read of `n` bytes is to do: take them from the cursor if the window has them, and otherwise
-- fail with its message at the cursor, which stays.
abbrev pub expected : ℕ → Message → (List ℕ → ℕ) → M ℕ
expected n msg value c =
    if leb (c.pos + n) (effective_end c)
    then (done (value (take n (drop c.pos c.input))), record c { pos = c.pos + n })
    else (failed, record c { error = note_error c.error c.pos msg })

-- A context in which a parse stands: its windows nest in the input, the input is bytes and not
-- longer than size_t less a word, and the cursor is in it or at its end.
pub record IsParsing (c : Ctx) : Type 0 where
  pub confined : IsConfined c
  pub bytes : AreBytes c.input
  pub within : c.pos ≤ length c.input
  pub fits : length c.input + 8 < 2 ^ 64

module _ (c : Ctx) (h : IsParsing c) where
  chunk-length : (n : ℕ) → c.pos + n ≤ effective_end c → length (take n (drop c.pos c.input)) ≡ n
  chunk-length n le = omega (
    arith,
    length-take n (drop c.pos c.input),
    length-drop c.pos c.input,
    effective_end-le c h.confined,
  )

  chunk-AreBytes : (n : ℕ) → AreBytes (take n (drop c.pos c.input))
  chunk-AreBytes n = AreBytes-take n (drop c.pos c.input) (AreBytes-drop c.pos c.input h.bytes)

  read_word-Reads :
      (n : ℕ) (msg : Message) (value spec : List ℕ → ℕ)
      → n ≤ 8
      → ((bs : List ℕ) → length bs ≡ n → AreBytes bs → value bs ≡ spec bs)
      → read_word n msg value c ≡ expected n msg spec c
  unfolding read_word copy_bytes
  read_word-Reads n msg value spec small agree =
      elim (Bool-cases (leb (c.pos + n) (effective_end c))) [
        | inl room ↦
            let le : c.pos + n ≤ effective_end c = ground arith in
            ground (
              arith,
              agree (take n (drop c.pos c.input)) (chunk-length n le) (chunk-AreBytes n),
              effective_end-le c h.confined,
              h,
            )
        | inr short ↦ ground (arith, h)
      ]

  module _ (host : Bool) where
    -- Turning the bytes round on a host of the other order gives the value in the order of the name.
    be_read :
        (n : ℕ) (msg : Message) (swap : ℕ → ℕ)
        → n ≤ 8
        → ((bs : List ℕ) → length bs ≡ n → AreBytes bs → swap (le_value bs) ≡ be_value bs)
        → read_word n msg (from_be host swap) c ≡ expected n msg be_value c
    unfolding from_be host_value
    be_read n msg swap small agree =
        read_word-Reads n msg (from_be host swap) be_value small
          (λ bs e b. ground (arith, agree bs e b))

    le_read :
        (n : ℕ) (msg : Message) (swap : ℕ → ℕ)
        → n ≤ 8
        → ((bs : List ℕ) → length bs ≡ n → AreBytes bs → swap (be_value bs) ≡ le_value bs)
        → read_word n msg (from_le host swap) c ≡ expected n msg le_value c
    unfolding from_le host_value
    le_read n msg swap small agree =
        read_word-Reads n msg (from_le host swap) le_value small
          (λ bs e b. ground (arith, agree bs e b))

    -- On a host of either byte order, each read of a fixed order gives the bytes at the cursor in that
    -- order and moves the cursor over them where the window holds enough, and otherwise fails with its
    -- own message and moves nothing; no read faults.
    pub fixed_reads :
        (read_u16be host c ≡ expected 2 u16be_overrun be_value c)
        × (read_u16le host c ≡ expected 2 u16le_overrun le_value c)
        × (read_u32be host c ≡ expected 4 u32be_overrun be_value c)
        × (read_u32le host c ≡ expected 4 u32le_overrun le_value c)
        × (read_u64be host c ≡ expected 8 u64be_overrun be_value c)
        × (read_u64le host c ≡ expected 8 u64le_overrun le_value c)
    unfolding read_u16be read_u16le read_u32be read_u32le read_u64be read_u64le
    fixed_reads = (
      be_read 2 u16be_overrun bswap16 (omega arith) swap_16,
      le_read 2 u16le_overrun bswap16 (omega arith) swap_16_back,
      be_read 4 u32be_overrun bswap32 (omega arith) swap_32,
      le_read 4 u32le_overrun bswap32 (omega arith) swap_32_back,
      be_read 8 u64be_overrun bswap64 (omega arith) swap_64,
      le_read 8 u64le_overrun bswap64 (omega arith) swap_64_back,
    )

    by_order :
        (n : ℕ) (x y : Outcome ℕ × Ctx) (m m' : Message) (v v' : List ℕ → ℕ) (little : Bool)
        → x ≡ expected n m v c
        → y ≡ expected n m' v' c
        → (if little then x else y)
          ≡ expected n (if little then m else m') (if little then v else v') c
    by_order n x y m m' v v' true e f = e
    by_order n x y m m' v v' false e f = f

    -- A read without a suffix follows the endian register, in its value and in its message.
    pub native_reads :
        (read_u16 host c
          ≡ expected 2
              (if c.little_endian then u16le_overrun else u16be_overrun)
              (if c.little_endian then le_value else be_value)
              c)
        × (read_u32 host c
            ≡ expected 4
                (if c.little_endian then u32le_overrun else u32be_overrun)
                (if c.little_endian then le_value else be_value)
                c)
        × (read_u64 host c
            ≡ expected 8
                (if c.little_endian then u64le_overrun else u64be_overrun)
                (if c.little_endian then le_value else be_value)
                c)
    unfolding read_u16 read_u32 read_u64
    native_reads =
        let f = fixed_reads in
        (
          by_order _ _ _ _ _ _ _ c.little_endian f.1 f.0,
          by_order _ _ _ _ _ _ _ c.little_endian f.3 f.2,
          by_order _ _ _ _ _ _ _ c.little_endian f.5 f.4,
        )
