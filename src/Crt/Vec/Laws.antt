-- ===== src/Crt/Vec/Laws.antt =====
-- crt/bbq_vec.c: bbq_vec_reserve, and the pushes and fills on it.
use bbq.Base.{
  ℕ, zero, suc, max, ◌+◌, ◌-◌, ◌≤◌, ◌<◌, ◌≡◌, refl, sym, ap, ◌∙◌, true, false, Option, some, ltb,
  leb, ◌==◌, if◌then◌else◌, arith, inl, inr, ◌⊎◌, ◌≢◌, Bool-cases, ==_iff, if_true, if_false, subst,
  Answered, by_answer,
}
use native.Mathlib.Decide.{ℕ_discrete}
use bbq.Crt.Alloc.{Grants}
use bbq.Crt.Vec.{
  Vec, max_cap, vec_cap, resize, grow, push, reserve, try_reserve, setlen, pop, fill_from, fill,
  fill_in, write, ensure_room, store_last,
}

-- The length is within the block, and the block within the ceiling.
pub record IsVec {ℓ} {A : Type ℓ} (v : Vec A) : Type 0 where
  pub within : v.len ≤ v.cap
  pub ceiling : v.cap ≤ max_cap

-- What a growth may change: the capacity, upwards, or the poison mark.
pub record Grows {ℓ} {A : Type ℓ} (v w : Vec A) : Type ℓ where
  pub same_len : w.len ≡ v.len
  pub same_slots : w.slot ≡ v.slot
  pub more : v.cap ≤ w.cap
  pub capped : w.cap ≤ max_cap
  pub refused : w.poisoned ≡ true → w.cap ≡ v.cap
  pub sticky : v.poisoned ≡ true → w.poisoned ≡ true

module _ {ℓ} {A : Type ℓ} (elem_size : ℕ) (gs : Grants) (v : Vec A) (h : v.cap ≤ max_cap) where
  pub resize-Grows : (want : ℕ) → Grows v (resize elem_size gs v want).0
  unfolding resize
  resize-Grows want = ground arith

  pub resize-reaches :
      (want : ℕ)
      → (resize elem_size gs v want).0.poisoned ≡ false
      → want ≤ (resize elem_size gs v want).0.cap
  unfolding resize
  resize-reaches want e = ground arith

  pub grow-Grows : Grows v (grow elem_size gs v).0
  unfolding grow
  grow-Grows = ground arith

  pub grow-room :
      v.poisoned ≡ false
      → (grow elem_size gs v).0.poisoned ≡ false
      → v.cap < (grow elem_size gs v).0.cap
  unfolding grow
  grow-room e f = ground arith

module _ {ℓ} {A : Type ℓ} where
  write_self : (m : ℕ → Option A) (i : ℕ) (x : A) → write m i x i ≡ some x
  write_self m i x = rw ((==_iff i i).1 refl)

  write_ne : (m : ℕ → Option A) {i j : ℕ} (x : A) → j ≢ i → write m i x j ≡ m j
  write_ne m {i} {j} x n = elim (Bool-cases (i == j)) [
    | inl e ↦ absurd (n (sym ((==_iff i j).0 e)))
    | inr e ↦ rw e
  ]

  -- A pop behind a push.
  pop-suc : (v : Vec A) (n : ℕ) → v.len ≡ n + 1 → ((pop v).0 ≡ v.slot n) × ((pop v).1.len ≡ n)
  unfolding pop
  pop-suc v n e = elim (Bool-cases (v.len == 0)) [
    | inl z ↦ absurd (omega (arith, e, (==_iff v.len 0).0 z))
    | inr z ↦ rw (z) (rw e (ap v.slot {x = n + 1 - 1} {y = n} (omega arith), omega arith))
  ]

-- What a push did: it refused and lost nothing, or it stored `x` behind the rest.
abbrev pub Refused {ℓ} : {A : Type ℓ} → Vec A → Vec A → Type ℓ
Refused v w = (w.poisoned ≡ true) × (w.len ≡ v.len) × (w.slot ≡ v.slot)

pub record Appended {ℓ} {A : Type ℓ} (v : Vec A) (x : A) (w : Vec A) : Type ℓ where
  pub live : w.poisoned ≡ false
  pub longer : w.len ≡ v.len + 1
  pub stored : w.slot v.len ≡ some x
  pub kept : (i : ℕ) → i ≢ v.len → w.slot i ≡ v.slot i
  pub popped : (pop w).0 ≡ some x
  pub shorter : (pop w).1.len ≡ v.len

module _ {ℓ} {A : Type ℓ} (v : Vec A) (x : A) where
  stored : Vec A
  stored = record v { len = v.len + 1; slot = write v.slot v.len x }

  store_last-live : v.poisoned ≡ false → store_last v x ≡ stored
  unfolding store_last stored
  store_last-live e = if_false v.poisoned _ _ e

  store_last-Appended : v.poisoned ≡ false → Appended v x (store_last v x)
  unfolding stored
  store_last-Appended e = subst (Appended v x) (sym (store_last-live e)) record {
    live = e;
    longer = refl;
    stored = write_self v.slot v.len x;
    kept = λ i n. write_ne v.slot x n;
    popped = (pop-suc stored v.len refl).0 ∙ write_self v.slot v.len x;
    shorter = (pop-suc stored v.len refl).1;
  }

  store_last-refused : v.poisoned ≡ true → store_last v x ≡ v
  unfolding store_last
  store_last-refused e = if_true v.poisoned _ _ e

  store_last-cap : (store_last v x).cap ≡ v.cap
  unfolding store_last
  store_last-cap = elim (Bool-cases v.poisoned) [ inl e ↦ simp e | inr e ↦ simp e ]

module _ {ℓ} {A : Type ℓ} (elem_size : ℕ) (gs : Grants) (v : Vec A) (h : IsVec v) where
  ensure_room-Grows : Grows v (ensure_room elem_size gs v).0
  unfolding ensure_room
  ensure_room-Grows = ground (arith, grow-Grows elem_size gs v)

  ensure_room-room :
      (ensure_room elem_size gs v).0.poisoned ≡ false → v.len < (ensure_room elem_size gs v).0.cap
  unfolding ensure_room
  ensure_room-room e = ground (arith, grow-room elem_size gs v, grow-Grows elem_size gs v)

  -- What happens to a vector that has grown to `w` is what happens to `v`.
  Appended-after : {w u : Vec A} {x : A} → Grows v w → Appended w x u → Appended v x u
  Appended-after {w} {u} {x} g a = record {
    live = a.live;
    longer = omega (arith, a.longer, g.same_len);
    stored = ap u.slot (sym g.same_len) ∙ a.stored;
    kept = λ i n. a.kept i (λ e. n (e ∙ g.same_len)) ∙ ap (λ m. m i) g.same_slots;
    popped = a.popped;
    shorter = a.shorter ∙ g.same_len;
  }

  -- A push on a vector whose length is within its block keeps it so, and its capacity under the
  -- ceiling. Either it stores the element behind the others, which stay as they were, and a pop
  -- takes it off again; or it was refused, and then the length and every element are unchanged and
  -- the vector is marked as poisoned.
  pub push_lem :
      (x : A)
      → IsVec (push elem_size gs v x).0
        × (Appended v x (push elem_size gs v x).0 ⊎ Refused v (push elem_size gs v x).0)
  unfolding push
  push_lem x =
      let w = (ensure_room elem_size gs v).0 in
      let g = ensure_room-Grows in
      elim (Bool-cases w.poisoned) [
        | inl e ↦ rw (store_last-refused w x e) (
          record { within = omega (arith, g.same_len, g.more, h.within); ceiling = g.capped },
          inr (e, g.same_len, g.same_slots),
        )
        | inr e ↦
            let a = store_last-Appended w x e in
            (
              record {
                within =
                    omega (arith, a.longer, g.same_len, ensure_room-room e, store_last-cap w x);
                ceiling = omega (arith, g.capped, store_last-cap w x);
              },
              inl (Appended-after g a),
            )
      ]

module _ {ℓ} {A : Type ℓ} (elem_size : ℕ) (gs : Grants) (v : Vec A) where
  -- A push with room in the block cannot be refused.
  pub push-room :
      (x : A) → v.len < v.cap → v.poisoned ≡ false → Appended v x (push elem_size gs v x).0
  unfolding push ensure_room vec_cap
  push-room x room live =
      let full : leb (if v.poisoned then 0 else v.cap) v.len ≡ false = ground arith in
      rw full (store_last-Appended v x live)

module _ {ℓ} {A : Type ℓ} (x : A) where
  fill_from_outside :
      (m : ℕ → Option A) (i n j : ℕ) → (j < i) ⊎ (i + n ≤ j) → fill_from m i n x j ≡ m j
  unfolding fill_from
  fill_from_outside m i zero j h = refl
  fill_from_outside m i (suc n) j h =
      fill_from_outside (write m i x) (i + 1) n j (omega arith)
      ∙ write_ne m {i = i} {j = j} x (omega arith)

  fill_from_inside :
      (m : ℕ → Option A) (i n j : ℕ) → i ≤ j → j < i + n → fill_from m i n x j ≡ some x
  unfolding fill_from
  fill_from_inside m i zero j lo hi = absurd (omega arith)
  fill_from_inside m i (suc n) j lo hi = elim (ℕ_discrete j i) [
    | yes e ↦ rw e (fill_from_outside (write m i x) (i + 1) n i (omega arith) ∙ write_self m i x)
    | no e ↦ fill_from_inside (write m i x) (i + 1) n j (omega arith) (omega arith)
  ]

-- A vector made at least `n` long with `x`.
pub record Filled {ℓ} {A : Type ℓ} (v : Vec A) (n : ℕ) (x : A) (w : Vec A) : Type ℓ where
  pub length : w.len ≡ max v.len n
  pub kept : (i : ℕ) → i < v.len → w.slot i ≡ v.slot i
  pub added : (i : ℕ) → v.len ≤ i → i < n → w.slot i ≡ some x

module _ {ℓ} {A : Type ℓ} (v : Vec A) (n : ℕ) (x : A) (h : n ≤ v.cap) where
  fill_in-slot : (fill_in v n x).slot ≡ fill_from v.slot v.len (n - v.len) x
  unfolding fill_in setlen
  fill_in-slot = elim (Bool-cases (ltb v.len n)) [ inl e ↦ simp e | inr e ↦ simp e ]

  fill_in-cap : (fill_in v n x).cap ≡ v.cap
  unfolding fill_in setlen
  fill_in-cap = elim (Bool-cases (ltb v.len n)) [ inl e ↦ simp e | inr e ↦ simp e ]

  fill_in-len : (fill_in v n x).len ≡ max v.len n
  unfolding fill_in setlen
  fill_in-len = elim (Bool-cases (ltb v.len n)) [
    | inl e ↦ simp e (ground arith)
    | inr e ↦ simp e (ground arith)
  ]

  fill_in-Filled : Filled v n x (fill_in v n x)
  fill_in-Filled = record {
    length = fill_in-len;
    kept = λ i lt.
        ap (λ m. m i) fill_in-slot ∙ fill_from_outside x v.slot v.len (n - v.len) i (inl lt);
    added = λ i lo hi.
        ap (λ m. m i) fill_in-slot ∙ fill_from_inside x v.slot v.len (n - v.len) i lo (omega arith);
  }

module _ {ℓ} {A : Type ℓ} (elem_size : ℕ) (gs : Grants) (v : Vec A) (h : IsVec v) where
  reserve-Grows : (n : ℕ) → Grows v (reserve elem_size gs v n).0
  unfolding reserve
  reserve-Grows n = ground (arith, resize-Grows elem_size gs v h.ceiling n)

  -- A fill either reaches `n` elements, with the old ones kept and every new one `x`, within a block
  -- under the ceiling; or it changes neither the length nor an element.
  pub fill_lem :
      (n : ℕ) (x : A)
      → Answered
          (fill elem_size gs v n x).0
          (IsVec (fill elem_size gs v n x).1 × Filled v n x (fill elem_size gs v n x).1)
          (((fill elem_size gs v n x).1.len ≡ v.len) × ((fill elem_size gs v n x).1.slot ≡ v.slot))
  unfolding fill try_reserve vec_cap
  fill_lem n x =
      let w = (reserve elem_size gs v n).0 in
      let g = reserve-Grows n in
      by_answer (fill elem_size gs v n x).0
        (IsVec (fill elem_size gs v n x).1 × Filled v n x (fill elem_size gs v n x).1)
        (((fill elem_size gs v n x).1.len ≡ v.len) × ((fill elem_size gs v n x).1.slot ≡ v.slot))
        (λ e.
          let room : n ≤ w.cap = ground arith in
          let f = fill_in-Filled w n x room in
          subst (λ u. IsVec u × Filled v n x u) (sym (if_true _ _ _ e))
            (
              record {
                within = omega (
                  arith,
                  fill_in-len w n x room,
                  fill_in-cap w n x room,
                  g.same_len,
                  g.more,
                  h.within,
                );
                ceiling = omega (arith, fill_in-cap w n x room, g.capped);
              },
              record {
                length = omega (arith, f.length, g.same_len);
                kept = λ i lt. f.kept i (omega (arith, g.same_len)) ∙ ap (λ m. m i) g.same_slots;
                added = λ i lo hi. f.added i (omega (arith, g.same_len)) hi;
              },
            ))
        (λ e. rw (if_false _ _ _ e) (g.same_len, g.same_slots))
