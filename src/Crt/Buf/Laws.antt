-- ===== src/Crt/Buf/Laws.antt =====
-- crt/bbq_buf.c: bbq_buf_reserve and bbq_buf_append.
use bbq.Base.{
  by_answer, ℕ, zero, suc, ◌+◌, ◌-◌, ◌*◌, ◌/◌, ◌^◌, ◌≤◌, ◌<◌, ◌≡◌, refl, sym, ap, ◌∙◌, ◌==◌, true,
  false, List, [], ◌∷◌, ◌++◌, ltb, leb, if◌then◌else◌, arith, length, take, replicate,
  length-append, length-replicate, Answered, Bool-cases, inl, inr, take-append_short, subst,
}
use mathlib.Core.List.{append-nil}
use native.Mathlib.Nat.{pow-suc}
use bbq.Crt.Alloc.{size_max, mem_resize}
use bbq.Crt.Buf.{Buf, double_to, reserve, append, put_last}
use bbq.Write.Buffer.Emit.{take-poke, poke-length}

-- The live bytes.
abbrev pub live : Buf → List ℕ
live b = take b.len b.store

pub record IsBuf (b : Buf) : Type 0 where
  pub within : b.len ≤ length b.store
  pub fits : length b.store < 2 ^ 64

-- Sixty-five rounds from at least 1 reach every total that a size_t holds.
double_to-reaches :
    (rounds newcap total : ℕ)
    → 1 ≤ newcap
    → total ≤ newcap * 2 ^ rounds
    → newcap ≤ size_max
    → total ≤ size_max
    → (total ≤ double_to rounds newcap total) × (double_to rounds newcap total ≤ size_max)
unfolding double_to
double_to-reaches zero newcap total pos enough small fits = (omega arith, omega arith)
double_to-reaches (suc rounds) newcap total pos enough small fits =
    let twice : total ≤ newcap * 2 * 2 ^ rounds =
      omega (arith, enough, ap (λ (t : ℕ). newcap * t) (pow-suc 2 rounds)) in
    elim (Bool-cases (ltb (size_max / 2) newcap)) [
      | inl big ↦ ground arith
      | inr roomy ↦ ground (
        arith,
        double_to-reaches rounds (newcap * 2) total (omega arith) twice (ground arith) fits,
      )
    ]

-- Room for `total` bytes, with the live bytes as they were.
record Roomy (total : ℕ) (b b' : Buf) : Type 0 where
  valid : IsBuf b'
  room : total ≤ length b'.store
  same_len : b'.len ≡ b.len
  same_live : take b.len b'.store ≡ live b
  ok : b'.oom ≡ false

-- What a refusal leaves: the same bytes, and the mark.
pub record Kept (b b' : Buf) : Type 0 where
  pub valid : IsBuf b'
  pub same : live b' ≡ live b
  pub marked : b'.oom ≡ true

module _ (total : ℕ) (b : Buf) (h : IsBuf b) (fits : total < 2 ^ 64) where
  reserve-Roomy :
      Answered (reserve total b).0 (Roomy total b (reserve total b).1) (Kept b (reserve total b).1)
  unfolding reserve
  reserve-Roomy =
      let cap = length b.store in
      let start = if cap == 0 then 64 else cap in
      let newcap = double_to 65 start total in
      let reach =
        double_to-reaches 65 start total (ground arith) (ground arith) (ground (arith, h.fits))
          (omega arith) in
      let size = length-append b.store (replicate (newcap - cap) b.junk) in
      let fill = length-replicate (newcap - cap) b.junk in
      elim (Bool-cases b.oom) [
        | inl e ↦ simp e (record { valid = h; same = refl; marked = e })
        | inr e ↦ elim (Bool-cases (leb total cap)) [
          | inl le ↦
              simp (e, le)
                (record {
                  valid = h;
                  room = ground arith;
                  same_len = refl;
                  same_live = refl;
                  ok = e;
                })
          | inr gt ↦ elim (Bool-cases (mem_resize b.grants newcap).0) [
            | inl got ↦
                simp (e, gt, got)
                  (record {
                    valid = record {
                      within = ground (arith, size, fill, h.within);
                      fits = ground (arith, size, fill, reach.0, reach.1, gt);
                    };
                    room = ground (arith, size, fill, reach.0, gt);
                    same_len = refl;
                    same_live = take-append_short b.len b.store _ h.within;
                    ok = refl;
                  })
            | inr none_ ↦
                simp (e, gt, none_)
                  (record {
                    valid = record { within = h.within; fits = h.fits };
                    same = refl;
                    marked = refl;
                  })
          ]
        ]
      ]

-- `src` behind the live bytes.
pub record Appended (src : List ℕ) (b b' : Buf) : Type 0 where
  pub valid : IsBuf b'
  pub more : live b' ≡ live b ++ src
  pub clean : b'.oom ≡ false

no_more : (src : List ℕ) → length src ≡ 0 → (l : List ℕ) → l ≡ l ++ src
no_more [] e l = sym (append-nil l)
no_more (x ∷ src) e l = absurd (omega arith)

module _ (src : List ℕ) (b : Buf) (h : IsBuf b) where
  put_last-Appended :
      (b' : Buf) → Roomy (b.len + length src) b b' → Appended src b (put_last src b')
  unfolding put_last
  put_last-Appended b' r =
      let room : b'.len + length src ≤ length b'.store = omega (arith, r.room, r.same_len) in
      let size = poke-length b'.len src b'.store room in
      record {
        valid = record {
          within = omega (arith, size, room);
          fits = omega (arith, size, r.valid.fits);
        };
        more =
            take-poke b'.len src b'.store room
            ∙ ap (λ t. t ++ src) (ap (λ (n : ℕ). take n b'.store) r.same_len ∙ r.same_live);
        clean = r.ok;
      }

  append_cases :
      length src < 2 ^ 64
      → Answered (append src b).0 (Appended src b (append src b).1) (Kept b (append src b).1)
  unfolding append
  append_cases small =
      let total = b.len + length src in
      let there = reserve total b in
      elim (Bool-cases (length src == 0)) [
        | inl e ↦ elim (Bool-cases b.oom) [
          | inl o ↦ simp (e, o) (record { valid = h; same = refl; marked = o })
          | inr o ↦
              simp (e, o)
                (record { valid = h; more = no_more src (ground arith) (live b); clean = o })
        ]
        | inr e ↦ elim (Bool-cases b.oom) [
          | inl o ↦ simp (e, o) (record { valid = h; same = refl; marked = o })
          | inr o ↦ elim (Bool-cases (ltb (size_max - b.len) (length src))) [
            | inl w ↦
                simp (e, o, w)
                  (record {
                    valid = record { within = h.within; fits = h.fits };
                    same = refl;
                    marked = refl;
                  })
            | inr w ↦
                let fits : total < 2 ^ 64 = ground (arith, w, h.within, h.fits) in
                let r = reserve-Roomy total b h fits in
                elim (Bool-cases there.0) [
                  | inl g ↦
                      simp (e, o, w, g)
                        (put_last-Appended there.1
                          (subst (λ t. Answered t (Roomy total b there.1) (Kept b there.1)) g r))
                  | inr g ↦
                      simp (e, o, w, g)
                        (subst (λ t. Answered t (Roomy total b there.1) (Kept b there.1)) g r)
                ]
          ]
        ]
      ]

  marked_append : b.oom ≡ true → append src b ≡ (false, b)
  unfolding append
  marked_append o = elim (Bool-cases (length src == 0)) [
    | inl e ↦ simp (e, o) refl
    | inr e ↦ simp (e, o) refl
  ]

  -- Of fewer than 2^64 bytes: on a buffer that is marked, an append fails and changes nothing. On one
  -- that is not, it either succeeds, puts exactly its bytes behind the live ones and leaves the buffer
  -- unmarked, or fails, leaves the live bytes and marks the buffer; its size stays a size_t.
  pub append_lem :
      length src < 2 ^ 64
      → Answered b.oom
          (append src b ≡ (false, b))
          (Answered (append src b).0 (Appended src b (append src b).1) (Kept b (append src b).1))
  append_lem small = by_answer b.oom _ _ marked_append (λ _. append_cases small)
