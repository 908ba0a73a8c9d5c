-- ===== src/Crt/Hmap/Laws.antt =====
-- crt/bbq_hmap.c: bbq_hmap_put and the lookups that follow it.
use bbq.Base.{
  ℕ, ◌+◌, ◌-◌, ◌*◌, ◌%◌, ◌^◌, ◌<◌, ◌≡◌, ◌≢◌, refl, sym, ap, ◌∙◌, ◌==◌, ==_iff, Bool, true, false,
  if◌then◌else◌, arith, bit_and, Bool-cases, inl, inr, leb, if_true, if_false, Option, none, some,
  some_same, none-some, subst, true-false,
}
use native.Mathlib.Decide.{ℕ_discrete}
use bbq.Crt.Hmap.{
  Hmap, probe, hmap_slot, hmap_mix, place, store_at, store, is_loaded, put, get, contains,
}
use bbq.Crt.Hmap.Probe.{
  passes, HasFree, hmap_slot-Stops, Extends, probe_same, hmap_slot_kept, lookup-at,
}

-- A table of 2^k slots of which two are free, in which every entry stands where the probe for its key
-- stops.
pub record IsTable (k : ℕ) (m : Hmap) : Type 0 where
  pub size : m.cap ≡ 2 ^ k
  pub free : ℕ
  pub spare : ℕ
  pub apart : free ≢ spare
  pub inside : (free < 2 ^ k) × (spare < 2 ^ k)
  pub empty : (m.used free ≡ false) × (m.used spare ≡ false)
  pub reached : (j : ℕ) → m.used j ≡ true → hmap_slot m (m.keys j) ≡ some j

-- Slot `s` holds the entry, and the others are as they were.
record Placed (m : Hmap) (s key val : ℕ) (m' : Hmap) : Type 0 where
  cap : m'.cap ≡ m.cap
  seed : m'.seed ≡ m.seed
  used_s : m'.used s ≡ true
  keys_s : m'.keys s ≡ key
  vals_s : m'.vals s ≡ val
  used : (j : ℕ) → j ≢ s → m'.used j ≡ m.used j
  keys : (j : ℕ) → j ≢ s → m'.keys j ≡ m.keys j
  vals : (j : ℕ) → j ≢ s → m'.vals j ≡ m.vals j

holds_key : (m : Hmap) (key s : ℕ) → passes m key s ≡ false → m.used s ≡ true → m.keys s ≡ key
unfolding passes
holds_key m key s stop u = ground (arith, stop, u, ==_iff (m.keys s) key)

store_at-Placed :
    (m : Hmap) (key val s : ℕ) → passes m key s ≡ false → Placed m s key val (store_at s key val m)
unfolding store_at place
store_at-Placed m key val s stop = elim (Bool-cases (m.used s)) [
  | inl u ↦ rw (if_true (m.used s) (record m { vals = (place s key val m).vals }) _ u) (record {
    cap = refl;
    seed = refl;
    used_s = u;
    keys_s = holds_key m key s stop u;
    vals_s = ground arith;
    used = λ j n. refl;
    keys = λ j n. refl;
    vals = λ j n. ground (arith, n);
  })
  | inr u ↦
      rw (if_false (m.used s) _ (record (place s key val m) { len = (m.len + 1) % 2 ^ 64 }) u)
        (record {
          cap = refl;
          seed = refl;
          used_s = ground arith;
          keys_s = ground arith;
          vals_s = ground arith;
          used = λ j n. ground (arith, n);
          keys = λ j n. ground (arith, n);
          vals = λ j n. ground (arith, n);
        })
]

-- The map after a put of `val` at `key`, seen at any key.
pub record Updated (key val other : ℕ) (m : Hmap) (done : Bool × Hmap) : Type 0 where
  pub granted : done.0 ≡ true
  pub reached : (j : ℕ) → done.1.used j ≡ true → hmap_slot done.1 (done.1.keys j) ≡ some j
  pub ends : hmap_slot done.1 other ≢ none
  pub get_is : get done.1 other ≡ (if other == key then some val else get m other)
  pub contains_is : contains done.1 other ≡ (if other == key then some true else contains m other)

module _ (k : ℕ) (m : Hmap) (key val s : ℕ) (h : IsTable k m) (at_ : hmap_slot m key ≡ some s)
    (stop : passes m key s ≡ false) (m' : Hmap) (p : Placed m s key val m') where
  was_free : HasFree k h.free m
  was_free = record { size = h.size; inside = h.inside.0; empty = h.empty.0 }

  placed-HasFree : (f : ℕ) → f ≢ s → f < 2 ^ k → m.used f ≡ false → HasFree k f m'
  placed-HasFree f n lt e = record { size = p.cap ∙ h.size; inside = lt; empty = p.used f n ∙ e }

  placed-Extends : Extends m m'
  placed-Extends = record {
    cap = p.cap;
    seed = p.seed;
    used = λ j u. elim (ℕ_discrete j s) [ yes e ↦ rw e p.used_s | no n ↦ p.used j n ∙ u ];
    keys = λ j u. elim (ℕ_discrete j s) [
      | yes e ↦ rw e (p.keys_s ∙ sym (holds_key m key s stop (subst (λ i. m.used i ≡ true) e u)))
      | no n ↦ p.keys j n
    ];
  }

  same_path : (j : ℕ) → passes m' key j ≡ passes m key j
  unfolding passes
  same_path j = elim (ℕ_discrete j s) [
    | yes e ↦ rw e (rw (p.used_s, p.keys_s, (==_iff key key).1 refl) (sym stop))
    | no n ↦ rw (p.used j n, p.keys j n) refl
  ]

  found_again : hmap_slot m' key ≡ some s
  unfolding hmap_slot
  found_again =
      ap (λ (n : ℕ). probe n m' key (bit_and (hmap_mix m'.seed key) (n - 1))) p.cap
      ∙ ap (λ (n : ℕ). probe m.cap m' key (bit_and (hmap_mix n key) (m.cap - 1))) p.seed
      ∙ probe_same m.cap (bit_and (hmap_mix m.seed key) (m.cap - 1)) key m m' p.cap same_path
      ∙ at_

  still_reached : (j : ℕ) → m'.used j ≡ true → hmap_slot m' (m'.keys j) ≡ some j
  still_reached j u = elim (ℕ_discrete j s) [
    | yes e ↦ rw e (rw p.keys_s found_again)
    | no n ↦
        let was = sym (p.used j n) ∙ u in
        rw (p.keys j n) (hmap_slot_kept m m' (m.keys j) j placed-Extends was (h.reached j was))
  ]

  module _ (f : ℕ) (free : HasFree k f m') (other : ℕ) where
    found_same : other ≢ key → (get m' other ≡ get m other) × (contains m' other ≡ contains m other)
    found_same n =
        let a = hmap_slot-Stops k h.free m other was_free in
        let b = hmap_slot-Stops k f m' other free in
        let before = lookup-at k h.free m other a.slot was_free a.found in
        elim (Bool-cases (m.used a.slot)) [
          | inl u ↦
              let here = holds_key m other a.slot a.stop u in
              let ne : a.slot ≢ s = λ e. n (
                sym here
                ∙ ap m.keys e
                ∙ holds_key m key s stop (subst (λ i. m.used i ≡ true) e u)) in
              let after =
                lookup-at k f m' other a.slot free
                  (hmap_slot_kept m m' other a.slot placed-Extends u a.found) in
              rw (after.0, after.1, before.0, before.1)
                (rw (p.used a.slot ne, p.vals a.slot ne) (refl, refl))
          | inr u ↦
              let after = lookup-at k f m' other b.slot free b.found in
              let gone : m'.used b.slot ≡ false = elim (Bool-cases (m'.used b.slot)) [
                | inr e ↦ e
                | inl w ↦
                    let there = holds_key m' other b.slot b.stop w in
                    let ne : b.slot ≢ s = λ e. n (sym there ∙ ap m'.keys e ∙ p.keys_s) in
                    let old = sym (p.used b.slot ne) ∙ w in
                    let back =
                      ap (hmap_slot m) (sym (sym (p.keys b.slot ne) ∙ there))
                      ∙ h.reached b.slot old in
                    let same = some_same (sym a.found ∙ back) in
                    absurd (true-false (sym old ∙ ap m.used (sym same) ∙ u))
              ] in
              rw (after.0, after.1, before.0, before.1) (rw (gone, u) (refl, refl))
        ]

    placed-Updated : Updated key val other m (true, m')
    placed-Updated =
        let b = hmap_slot-Stops k f m' other free in
        let ends : hmap_slot m' other ≢ none = λ e. none-some (sym e ∙ b.found) in
        elim (ℕ_discrete other key) [
          | yes e ↦
              let l = lookup-at k f m' key s free found_again in
              let l' : (get m' key ≡ some val) × (contains m' key ≡ some true) = (
                l.0 ∙ ap (λ u. some (if u then m'.vals s else 0)) p.used_s ∙ ap some p.vals_s,
                l.1 ∙ ap some p.used_s,
              ) in
              record {
                granted = refl;
                reached = still_reached;
                ends = ends;
                get_is = rw e (rw ((==_iff key key).1 refl) l'.0);
                contains_is = rw e (rw ((==_iff key key).1 refl) l'.1);
              }
          | no n ↦
              let apart : (other == key) ≡ false = ground (arith, n, ==_iff other key) in
              record {
                granted = refl;
                reached = still_reached;
                ends = ends;
                get_is = rw apart (found_same n).0;
                contains_is = rw apart (found_same n).1;
              }
        ]

-- The operation ends, and what it leaves is so.
abbrev pub Ended : {A : Type 0} → Option A → (A → Type 0) → Type 0
Ended none P = ⊥
Ended (some a) P = P a

store-at :
    (m : Hmap) (key val s : ℕ)
    → hmap_slot m key ≡ some s
    → store key val m ≡ some (true, store_at s key val m)
unfolding store
store-at m key val s e = rw (store, e) refl

store-Updated :
    (k : ℕ) (m : Hmap) (key val other : ℕ)
    → IsTable k m
    → Ended (store key val m) (Updated key val other m)
store-Updated k m key val other h =
    let free : HasFree k h.free m = record {
      size = h.size;
      inside = h.inside.0;
      empty = h.empty.0;
    } in
    let a = hmap_slot-Stops k h.free m key free in
    let s = a.slot in
    let m' = store_at s key val m in
    let p = store_at-Placed m key val s a.stop in
    subst (λ r. Ended r (Updated key val other m)) (sym (store-at m key val s a.found))
      (elim (ℕ_discrete h.free s) [
        | yes e ↦
            placed-Updated k m key val s h a.found a.stop m' p h.spare
              (placed-HasFree k m key val s h a.found a.stop m' p h.spare
                (λ e'. h.apart (e ∙ sym e')) h.inside.1 h.empty.1)
              other
        | no n ↦
            placed-Updated k m key val s h a.found a.stop m' p h.free
              (placed-HasFree k m key val s h a.found a.stop m' p h.free n h.inside.0 h.empty.0)
              other
      ])

-- In a table of 2^k slots of which two are free, where every entry stands where the probe for its key
-- stops, below the load at which the table grows and with sizes that do not wrap: a put ends and
-- succeeds for every key, new or already there; it keeps every entry where the probe for its key
-- stops; and afterwards the probe for any key ends, the key that was put is in the map with the value
-- put, and any other key is in the map, with its value, exactly as it was before.
pub put-get :
    (k : ℕ) (m : Hmap) (key val other : ℕ)
    → IsTable k m
    → m.cap * 3 < 2 ^ 64
    → (m.len + 1) * 4 < m.cap * 3
    → Ended (put key val m) (Updated key val other m)
unfolding put is_loaded
put-get k m key val other h small light =
    let roomy : leb (m.cap * 3 % 2 ^ 64) ((m.len + 1) % 2 ^ 64 * 4 % 2 ^ 64) ≡ false =
      ground arith in
    let same : put key val m ≡ store key val m = rw roomy refl in
    subst (λ r. Ended r (Updated key val other m)) (sym same) (store-Updated k m key val other h)
