-- ===== src/Read/Leb/Strict.antt =====
-- backends/c/runtime/bbq_read.h: what bbq_read_uleb128 has read where it succeeds.
use bbq.Base.{
  ℕ, zero, suc, ◌+◌, ◌-◌, ◌*◌, ◌/◌, ◌%◌, ◌^◌, ◌≤◌, ◌<◌, ◌≡◌, refl, sym, ap, ◌∙◌, Bool, false, List,
  [], ◌∷◌, ◌++◌, ltb, ◌==◌, if◌then◌else◌, arith, length, drop, bit_and, inl, inr, bit_and_flag,
  not, ◌&&◌, subst, subst₂, Bool-cases, ◌≢◌,
}
use native.Mathlib.Nat.{pow-le-pow_right, one-le-pow, div-add-mod}
use native.Mathlib.Decide.{dec_le}
use bbq.Read.Ctx.{
  Ctx, Outcome, done, M, bind, effective_end, fail, Post, Post_if, Post_bind, Post_weaken,
  uleb128_too_long, uleb128_value_too_large,
}
use bbq.Read.Fixed.{read_u8, shr}
use bbq.Read.Fixed.Swap.{AreBytes}
use bbq.Read.Fixed.Laws.{IsParsing, AreBytes-drop}
use bbq.Read.Window.Laws.{effective_end-le}
use bbq.Read.Leb.{max_bytes, add_group, uleb_loop, read_uleb128}
use bbq.Read.Leb.Groups.{
  IsUleb, cons_IsUleb, uleb_value, pow_add, pow_seven, uleb_value_nil, uleb_value_cons,
}
use bbq.Read.Leb.Uleb.{
  moved, add_group-sum, drop-get, group_fits, value_step, read_u8-byte, read_u8-short, pow-le-64,
}

-- The byte at the cursor, where the window has one; the context that a failing read leaves.
pub record OneByte (c : Ctx) (byte : ℕ) : Type 0 where
  pub rest : List ℕ
  pub at : drop c.pos c.input ≡ byte ∷ rest
  pub small : byte < 256
  pub room : c.pos + 1 ≤ effective_end c

drop_cases : (n : ℕ) (l : List ℕ) → n < length l → (b : ℕ) × (r : List ℕ) × (drop n l ≡ b ∷ r)
drop_cases zero [] h = absurd (omega arith)
drop_cases zero (x ∷ l) h = (x, l, refl)
drop_cases (suc n) [] h = absurd (omega arith)
drop_cases (suc n) (x ∷ l) h = drop_cases n l (omega arith)

AreBytes-head : {l : List ℕ} {b : ℕ} {r : List ℕ} → l ≡ b ∷ r → AreBytes l → b < 256
AreBytes-head e h = (subst AreBytes e h).0

pub read_u8_lem :
    (c : Ctx)
    → IsParsing c
    → Post (read_u8 c) (λ b c'. OneByte c b × (c' ≡ moved c 1)) (λ c'. effective_end c < c.pos + 1)
read_u8_lem c h = elim (Bool-cases (ltb (effective_end c) (c.pos + 1))) [
  | inl short ↦
      let lt : effective_end c < c.pos + 1 = ground arith in
      rw (read_u8-short c lt (omega (arith, h.within, h.fits))) lt
  | inr room ↦
      let le : c.pos + 1 ≤ effective_end c = ground arith in
      let (b, r, e) = drop_cases c.pos c.input (omega (arith, effective_end-le c h.confined)) in
      rw (read_u8-byte c b r e le (omega (arith, h.within, h.fits))) (
        record {
          rest = r;
          at = e;
          small = AreBytes-head e (AreBytes-drop c.pos c.input h.bytes);
          room = le;
        },
        refl,
      )
]

lt-of_div-zero : (a b : ℕ) → 1 ≤ b → a / b ≡ 0 → a < b
lt-of_div-zero a b pos e = grind (arith, div-add-mod a b)

-- What has been read: an unsigned encoding of no more than `n` bytes, from the cursor on.
pub record HasRead (bits n : ℕ) (c : Ctx) (scale base v : ℕ) (c' : Ctx) : Type 0 where
  pub taken : List ℕ
  pub rest : List ℕ
  pub at : drop c.pos c.input ≡ taken ++ rest
  pub encoding : IsUleb taken
  pub few : length taken ≤ n
  pub inside : c.pos + length taken ≤ effective_end c
  pub value : v ≡ base + uleb_value taken * scale
  pub bound : v < 2 ^ bits
  pub moves : c' ≡ moved c (length taken)

moved-IsParsing :
    (c : Ctx) (n : ℕ) → IsParsing c → c.pos + n ≤ length c.input → IsParsing (moved c n)
moved-IsParsing c n h le = record {
  confined = h.confined;
  bytes = h.bytes;
  within = le;
  fits = h.fits;
}

-- The value of the last byte, where nothing stands above the bits that are left.
last_bound :
    (bits shift byte result : ℕ)
    → shift ≤ bits
    → byte / 2 ^ (bits - shift) ≡ 0
    → result < 2 ^ shift
    → result + byte * 2 ^ shift < 2 ^ bits
last_bound bits shift byte result le clear hr =
    let split : 2 ^ bits ≡ 2 ^ (bits - shift) * 2 ^ shift =
      ap (λ (t : ℕ). 2 ^ t) {x = bits} {y = bits - shift + shift} (omega arith)
      ∙ pow_add (bits - shift) shift in
    let small : byte + 1 ≤ 2 ^ (bits - shift) =
      omega
        (arith, lt-of_div-zero byte (2 ^ (bits - shift)) (one-le-pow _ 2 (omega arith)) clear) in
    omega (arith, split, group_fits (byte + 1) (2 ^ (bits - shift)) (2 ^ shift) small)

-- A read of one byte, and what goes on from it.
pub read_u8_then :
    {B : Type 0} (c : Ctx) (f : ℕ → M B) (P : B → Ctx → Type 0) (Q : Ctx → Type 0)
    → IsParsing c
    → ((b : ℕ) → OneByte c b → Post (f b (moved c 1)) P Q)
    → ((c' : Ctx) → Q c')
    → Post (bind (read_u8 c) f) P Q
read_u8_then c f P Q h k l =
    Post_bind (read_u8 c) f _ _ P Q (read_u8_lem c h)
      (λ b c' one. subst (λ (u : Ctx). Post (f b u) P Q) (sym one.1) (k b one.0)) (λ c' _. l c')

module _ (bits : ℕ) (low : 1 ≤ bits) (high : bits ≤ 64) where
  -- One more group keeps the value below 2^bits, also in the last round, which checks it.
  group_bound :
      (i byte result : ℕ)
      → i < max_bytes bits
      → result < 2 ^ (7 * i)
      → byte < 128
      → (i ≡ max_bytes bits - 1 → bits - 7 * i < 7 → byte / 2 ^ (bits - 7 * i) ≡ 0)
      → result + byte * 2 ^ (7 * i) < 2 ^ bits
  group_bound i byte result hi hr hb check = elim (dec_le (7 * (i + 1)) bits) [
    | yes roomy ↦
        let wide : 2 ^ (7 * (i + 1)) ≡ 128 * 2 ^ (7 * i) =
          ap (λ (t : ℕ). 2 ^ t) {x = 7 * (i + 1)} {y = 7 * i + 7} (omega arith)
          ∙ pow_seven (7 * i) in
        omega (
          arith,
          wide,
          group_fits (byte + 1) 128 (2 ^ (7 * i)) (omega arith),
          pow-le-pow_right {n = 2} (omega arith) roomy,
        )
    | no tight ↦
        last_bound bits (7 * i) byte result (omega arith) (check (omega arith) (omega arith)) hr
  ]

  module _ (rounds i result : ℕ) (c : Ctx) (hi : i + suc rounds ≡ max_bytes bits)
      (hr : result < 2 ^ (7 * i)) (h : IsParsing c) (b : ℕ) (one : OneByte c b) where
    -- The two checks of the last round, as the loop makes them.
    long : Bool
    long = (i == max_bytes bits - 1) && not (bit_and b 0x80 == 0)

    large : Bool
    large = (i == max_bytes bits - 1) && (ltb (bits - 7 * i) 7 && not (shr b (bits - 7 * i) == 0))

    stop_value :
        b < 128
        → large ≡ false
        → (add_group result b (7 * i) ≡ result + b % 128 * 2 ^ (7 * i))
          × (result + b % 128 * 2 ^ (7 * i) < 2 ^ bits)
    unfolding large
    stop_value hb clear =
        let value : b % 128 ≡ b = omega arith in
        let bound =
          group_bound i b result (omega arith) hr hb (λ last tight. ground (arith, clear)) in
        let bound' : result + b % 128 * 2 ^ (7 * i) < 2 ^ bits = rw value bound in
        (
          add_group-sum result b (7 * i) one.small hr (omega (arith, bound', pow-le-64 bits high)),
          bound',
        )

    stop_read :
        b < 128
        → large ≡ false
        → HasRead bits (suc rounds) c (2 ^ (7 * i)) result (add_group result b (7 * i)) (moved c 1)
    stop_read hb clear =
        let (sum, bound) = stop_value hb clear in
        record {
          taken = b ∷ [];
          rest = one.rest;
          at = one.at;
          encoding = hb;
          few = omega arith;
          inside = one.room;
          value =
              sum
              ∙ ap (λ (t : ℕ). result + t * 2 ^ (7 * i)) {x = b % 128} {y = uleb_value (b ∷ [])}
                  (omega (arith, uleb_value_cons b [], uleb_value_nil));
          bound = rw sum bound;
          moves = refl;
        }

    more_value :
        128 ≤ b
        → long ≡ false
        → (add_group result b (7 * i) ≡ result + b % 128 * 2 ^ (7 * i))
          × (result + b % 128 * 2 ^ (7 * i) < 2 ^ (7 * (i + 1)))
    unfolding long
    more_value hb short_enough =
        let inner : i ≢ max_bytes bits - 1 = λ e. ground (arith, short_enough, bit_and_flag b) in
        let bound =
          group_bound i (b % 128) result (omega arith) hr (omega arith)
            (λ last _. absurd (inner last)) in
        let wide : 2 ^ (7 * (i + 1)) ≡ 128 * 2 ^ (7 * i) =
          ap (λ (t : ℕ). 2 ^ t) {x = 7 * (i + 1)} {y = 7 * i + 7} (omega arith)
          ∙ pow_seven (7 * i) in
        (
          add_group-sum result b (7 * i) one.small hr (omega (arith, bound, pow-le-64 bits high)),
          omega (arith, wide, group_fits (b % 128 + 1) 128 (2 ^ (7 * i)) (omega arith)),
        )

    more_read :
        (v : ℕ) (c' : Ctx)
        → 128 ≤ b
        → HasRead bits rounds (moved c 1) (2 ^ (7 * (i + 1))) (result + b % 128 * 2 ^ (7 * i)) v c'
        → HasRead bits (suc rounds) c (2 ^ (7 * i)) result v c'
    more_read v c' hb r = record {
      taken = b ∷ r.taken;
      rest = r.rest;
      at = one.at ∙ ap (λ l. b ∷ l) (sym (drop-get c.pos c.input b one.rest one.at).1 ∙ r.at);
      encoding = cons_IsUleb b r.taken hb one.small r.encoding;
      few = omega (arith, r.few);
      inside = omega (arith, r.inside);
      value = r.value ∙ value_step i b result r.taken;
      bound = r.bound;
      moves = r.moves ∙ ap (λ (p : ℕ). record c { pos = p }) (omega arith);
    }

  uleb_loop_sound :
      (rounds i result : ℕ) (c : Ctx)
      → i + rounds ≡ max_bytes bits
      → result < 2 ^ (7 * i)
      → IsParsing c
      → Post
          (uleb_loop bits rounds i (7 * i) result c)
          (λ v c'. HasRead bits rounds c (2 ^ (7 * i)) result v c')
          (λ c'. Unit {0})
  unfolding uleb_loop long large
  uleb_loop_sound zero i result c hi hr h = tt
  uleb_loop_sound (suc rounds) i result c hi hr h =
      let P : ℕ → Ctx → Type 0 = λ v c'. HasRead bits (suc rounds) c (2 ^ (7 * i)) result v c' in
      let Q : Ctx → Type 0 = λ c'. Unit {0} in
      read_u8_then c _ P Q h
        (λ b one.
          let value = add_group result b (7 * i) in
          let stop : Outcome ℕ × Ctx = (done value, moved c 1) in
          let rest = uleb_loop bits rounds (i + 1) (7 * i + 7) value (moved c 1) in
          let flag = bit_and b 0x80 == 0 in
          let ended = if flag then stop else rest in
          let checked =
            if large rounds i result c hi hr h b one
            then fail uleb128_value_too_large (moved c 1)
            else ended in
          Post_if (long rounds i result c hi hr h b one) (fail uleb128_too_long (moved c 1)) checked
            P Q (λ _. tt)
            (λ short_enough.
              Post_if (large rounds i result c hi hr h b one)
                (fail uleb128_value_too_large (moved c 1)) ended P Q (λ _. tt)
                (λ clear.
                  Post_if flag stop rest P Q
                    (λ e.
                      stop_read rounds i result c hi hr h b one
                        (ground (arith, bit_and_flag b one.small)) clear)
                    (λ e.
                      let hb : 128 ≤ b = ground (arith, bit_and_flag b one.small) in
                      let (sum, below) =
                        more_value rounds i result c hi hr h b one hb short_enough in
                      let here = one.room in
                      let seven : 7 * (i + 1) ≡ 7 * i + 7 = omega arith in
                      let ih =
                        uleb_loop_sound rounds (i + 1) (result + b % 128 * 2 ^ (7 * i)) (moved c 1)
                          (omega arith) below
                          (moved-IsParsing c 1 h
                            (omega (arith, here, effective_end-le c h.confined))) in
                      subst₂ (λ (v s : ℕ). Post (uleb_loop bits rounds (i + 1) s v (moved c 1)) P Q)
                        (sym sum) seven
                        (Post_weaken
                          (uleb_loop bits rounds (i + 1) (7 * (i + 1))
                            (result + b % 128 * 2 ^ (7 * i)) (moved c 1))
                          _ _ P Q ih (λ v c'. more_read rounds i result c hi hr h b one v c' hb)
                          (λ _ _. tt))))))
        (λ _. tt)

  -- Where a read of at most `bits` bits succeeds, it took an unsigned encoding from the cursor on, of
  -- at most ceil(bits / 7) bytes and inside the window; the result is the value of that encoding, it
  -- is below 2^bits, and the cursor alone has moved, over just those bytes. The read never faults.
  pub read_uleb128_sound :
      (c : Ctx)
      → IsParsing c
      → Post
          (read_uleb128 bits c)
          (λ v c'. HasRead bits (max_bytes bits) c 1 0 v c')
          (λ c'. Unit {0})
  unfolding read_uleb128
  read_uleb128_sound c h = uleb_loop_sound (max_bytes bits) 0 0 c (omega arith) (omega arith) h
