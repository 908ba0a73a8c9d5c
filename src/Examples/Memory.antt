-- ===== src/Examples/Memory.antt =====
-- crt/bbq_alloc.c and crt/bbq_vec.c: a budget of 64 bytes, and a vector with room for two.
use bbq.Base.{
  ==_iff, ℕ, ◌≡◌, ◌==◌, refl, true, false, none, some, [], ◌∷◌, if◌then◌else◌, not, ltb, replicate,
  arith, ◌⊎◌, Answered,
}
use bbq.Crt.Alloc.{Budget}
use bbq.Crt.Alloc.Live.{alloc, resize, release, IsCharged, serve_all, start, serve_all-IsCharged}
use bbq.Crt.Alloc.Fault.{in_turn, faulty_init, faulty_schedule}
use bbq.Crt.Buf
use bbq.Crt.Buf.Laws as BufLaws
use bbq.Crt.Buf.Laws.{IsBuf, Kept, append_lem}
use bbq.Crt.Hmap.{Hmap, hmap_mix, hmap_slot, probe, put}
use bbq.Crt.Hmap.Laws.{IsTable, Ended, Updated, put-get}
use bbq.Crt.Vec.{Vec, push, fill}
use bbq.Crt.Vec.Laws.{IsVec, Appended, Refused, Filled, push_lem, push-room, fill_lem}

-- The third allocation is over the limit.
serve_all-IsCharged_example : IsCharged 64 (
    serve_all
      (start 64 (true ∷ true ∷ true ∷ []))
      (alloc 40 ∷ alloc 20 ∷ alloc 30 ∷ resize 0 10 ∷ release 1 ∷ []))
serve_all-IsCharged_example =
    serve_all-IsCharged 64 (true ∷ true ∷ true ∷ [])
      (alloc 40 ∷ alloc 20 ∷ alloc 30 ∷ resize 0 10 ∷ release 1 ∷ []) (omega arith)

abbrev half_used : Budget
half_used = record { limit = 64; used = 32; peak = 40; denials = 0; under = true ∷ true ∷ [] }

abbrev single : Vec ℕ
single = record { len = 1; cap = 2; poisoned = false; slot = λ i. if i == 0 then some 7 else none }

single-IsVec : IsVec single
single-IsVec = record { within = omega arith; ceiling = omega arith }

push_example :
    IsVec (push 8 [] single 9).0
    × (Appended single 9 (push 8 [] single 9).0 ⊎ Refused single (push 8 [] single 9).0)
push_example = push_lem 8 [] single single-IsVec 9

push-room_example : Appended single 9 (push 8 [] single 9).0
push-room_example = push-room 8 [] single 9 (omega arith) refl

fill_example :
    Answered
      (fill 8 (true ∷ []) single 5 3).0
      (IsVec (fill 8 (true ∷ []) single 5 3).1
        × Filled single 5 3 (fill 8 (true ∷ []) single 5 3).1)
      (((fill 8 (true ∷ []) single 5 3).1.len ≡ single.len)
        × ((fill 8 (true ∷ []) single 5 3).1.slot ≡ single.slot))
fill_example = fill_lem 8 (true ∷ []) single single-IsVec 5 3

abbrev two_bytes : Buf.Buf
two_bytes = record { store = 7 ∷ 8 ∷ 0 ∷ []; len = 2; oom = false; junk = 0; grants = true ∷ [] }

two_bytes-IsBuf : IsBuf two_bytes
two_bytes-IsBuf = record { within = omega arith; fits = omega arith }

append_example : Answered two_bytes.oom (Buf.append (1 ∷ 2 ∷ []) two_bytes ≡ (false, two_bytes)) (
    Answered
      (Buf.append (1 ∷ 2 ∷ []) two_bytes).0
      (BufLaws.Appended (1 ∷ 2 ∷ []) two_bytes (Buf.append (1 ∷ 2 ∷ []) two_bytes).1)
      (Kept two_bytes (Buf.append (1 ∷ 2 ∷ []) two_bytes).1))
append_example = append_lem (1 ∷ 2 ∷ []) two_bytes two_bytes-IsBuf (omega arith)

-- Set to refuse the second request and only that, the injector grants the third.
faulty_schedule_example :
    (in_turn 3 8 (faulty_init 2 true (replicate 4 true))).0
    ≡ (if true then not (3 == 2) else ltb 3 2)
faulty_schedule_example =
    faulty_schedule 2 true 4 2 8 (omega arith) (omega arith) (omega arith) (omega arith)

-- Four slots, one of them taken.
abbrev quarter : Hmap
quarter = record {
  keys = λ i. 77;
  vals = λ i. 5;
  used = λ i. i == 2;
  cap = 4;
  len = 1;
  oom = false;
  seed = 0;
  grants = [];
}

quarter-reached : (j : ℕ) → j ≡ 2 → hmap_slot quarter 77 ≡ some j
unfolding hmap_slot probe hmap_mix
quarter-reached j e = rw e refl

quarter-IsTable : IsTable 2 quarter
quarter-IsTable = record {
  size = refl;
  free = 3;
  spare = 1;
  apart = λ e. omega (arith, e);
  inside = (omega arith, omega arith);
  empty = (refl, refl);
  reached = λ j u. quarter-reached j (ground (arith, u, ==_iff j 2));
}

-- The keys 77 and 17 meet at slot 2.
put-get_example : Ended (put 17 6 quarter) (Updated 17 6 77 quarter)
put-get_example = put-get 2 quarter 17 6 77 quarter-IsTable (omega arith) (omega arith)
