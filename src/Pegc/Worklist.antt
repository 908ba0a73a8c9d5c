-- ===== src/Pegc/Worklist.antt =====
-- The queue of pending names: bbq::Worklist of lib/Worklist.h.
use bbq.Base.{
  suc, ◌+◌, ◌≤◌, ◌≡◌, refl, sym, ap, ◌∙◌, inl, inr, Bool, true, false, ◌||◌, Option, none, some,
  List, [], ◌∷◌, ◌++◌, arith, if◌then◌else◌, Bool-cases, Answered, and_parts, length, length-append,
}
use bbq.Pegc.Names.{
  Text, text_eq, count, insert, erase, unrepeated, count-insert, count-append, count-erase,
  count-eq, unrepeated-snoc,
}

pub record Worklist : Type 0 where
  pub queue : List Text
  pub on_queue : List Text

abbrev pub empty_worklist : Worklist
empty_worklist = record { queue = []; on_queue = [] }

-- The second part is false where the item is already pending.
unfoldable pub push : Worklist → Text → Worklist × Bool
push w item =
    if count item w.on_queue
    then (w, false)
    else (record { queue = w.queue ++ (item ∷ []); on_queue = insert item w.on_queue }, true)

unfoldable pub is_empty : Worklist → Bool
is_empty w = elim w.queue [ [] ↦ true | _ ∷ _ ↦ false ]

-- The front of the queue, which the caller has seen not to be empty.
unfoldable pub pop : Worklist → Option (Text × Worklist)
pop w = elim w.queue [
  | [] ↦ none
  | item ∷ rest ↦ some (item, record { queue = rest; on_queue = erase item w.on_queue })
]

-- Pushing the names of a set one after another.
unfoldable pub push_all : Worklist → List Text → Worklist
push_all w [] = w
push_all w (n ∷ ns) = push_all (push w n).0 ns

-- The set is the queue's, and the queue holds no name twice.
pub record IsTracked (w : Worklist) : Type 0 where
  pub tracked : (n : Text) → count n w.on_queue ≡ count n w.queue
  pub single : unrepeated w.queue ≡ true

pub push-count :
    (w : Worklist) (item n : Text)
    → IsTracked w
    → count n (push w item).0.queue ≡ text_eq n item || count n w.queue
unfolding push count
push-count w item n h = elim (Bool-cases (count item w.on_queue)) [
  | inl k ↦ ground (arith, k, h.tracked item, h.tracked n, count-eq n item w.queue)
  | inr k ↦ ground (arith, k, count-append n w.queue (item ∷ []))
]

count_one : (n m : Text) → count n (m ∷ []) ≡ text_eq n m
unfolding count
count_one n m = ground arith

push_new :
    (w : Worklist) (item : Text)
    → count item w.on_queue ≡ false
    → push w item
      ≡ (record { queue = w.queue ++ (item ∷ []); on_queue = insert item w.on_queue }, true)
unfolding push
push_new w item k = rw k refl

push_pending :
    (w : Worklist) (item : Text) → count item w.on_queue ≡ true → push w item ≡ (w, false)
unfolding push
push_pending w item k = rw k refl

pub push-IsTracked : (w : Worklist) (item : Text) → IsTracked w → IsTracked (push w item).0
push-IsTracked w item h = elim (Bool-cases (count item w.on_queue)) [
  | inl k ↦ rw (push_pending w item k) h
  | inr k ↦ rw (push_new w item k) (longer k)
]
  where
    found_last : (n : Text) → count n (w.queue ++ (item ∷ [])) ≡ count n w.queue || text_eq n item
    found_last n = count-append n w.queue (item ∷ []) ∙ ground (arith, count_one n item)

    longer :
        count item w.on_queue ≡ false
        → IsTracked (record { queue = w.queue ++ (item ∷ []); on_queue = insert item w.on_queue })
    longer k = record {
      tracked = λ n. ground (arith, h.tracked n, count-insert n item w.on_queue, found_last n);
      single = unrepeated-snoc w.queue item h.single (sym (h.tracked item) ∙ k);
    }

-- On a worklist whose set is its queue's: a push keeps it so. One that answers true has put the
-- item behind the others; one that answers false has changed nothing, and the item was pending.
pub push_lem :
    (w : Worklist) (item : Text)
    → IsTracked w
    → IsTracked (push w item).0
      × Answered
          (push w item).1
          ((push w item).0.queue ≡ w.queue ++ (item ∷ []))
          (((push w item).0 ≡ w) × (count item w.queue ≡ true))
push_lem w item h = (push-IsTracked w item h, answer)
  where
    answer :
        Answered
          (push w item).1
          ((push w item).0.queue ≡ w.queue ++ (item ∷ []))
          (((push w item).0 ≡ w) × (count item w.queue ≡ true))
    answer = elim (Bool-cases (count item w.on_queue)) [
      | inl k ↦ rw (push_pending w item k) (refl, sym (h.tracked item) ∙ k)
      | inr k ↦ rw (push_new w item k) refl
    ]

pub pop-IsTracked :
    (w : Worklist) (item : Text) (rest : List Text)
    → IsTracked w
    → w.queue ≡ item ∷ rest
    → IsTracked (record { queue = rest; on_queue = erase item w.on_queue })
unfolding unrepeated count
pop-IsTracked w item rest h e =
    let single : unrepeated (item ∷ rest) ≡ true = sym (ap (λ q. unrepeated q) e) ∙ h.single in
    let held : (n : Text) → count n w.on_queue ≡ text_eq n item || count n rest =
      λ n. h.tracked n ∙ ap (λ q. count n q) e in
    record {
      tracked =
          λ n. ground (arith, single, held n, count-erase n item w.on_queue, count-eq n item rest);
      single = (and_parts _ _ single).1;
    }

pub push_all-IsTracked : (w : Worklist) (ns : List Text) → IsTracked w → IsTracked (push_all w ns)
unfolding push_all
push_all-IsTracked w [] h = h
push_all-IsTracked w (n ∷ ns) h = push_all-IsTracked (push w n).0 ns (push-IsTracked w n h)

pub push_all-count :
    (w : Worklist) (ns : List Text) (m : Text)
    → IsTracked w
    → count m (push_all w ns).queue ≡ count m ns || count m w.queue
unfolding push_all count
push_all-count w [] m h = refl
push_all-count w (n ∷ ns) m h =
    ground (arith, push_all-count (push w n).0 ns m (push-IsTracked w n h), push-count w n m h)

-- A push adds at most one name.
pub length-push : (w : Worklist) (n : Text) → length (push w n).0.queue ≤ suc (length w.queue)
length-push w n = elim (Bool-cases (count n w.on_queue)) [
  | inl k ↦ rw (push_pending w n k) (omega arith)
  | inr k ↦ rw (push_new w n k) (omega (arith, length-append w.queue (n ∷ [])))
]

pub length-push_all :
    (w : Worklist) (ns : List Text) → length (push_all w ns).queue ≤ length w.queue + length ns
unfolding push_all
length-push_all w [] = omega arith
length-push_all w (n ∷ ns) = omega (arith, length-push_all (push w n).0 ns, length-push w n)
