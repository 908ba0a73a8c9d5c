-- ===== src/Pegc/Names.antt =====
-- Names as std::string, std::set<std::string> and std::map<std::string, T> keep them in
-- pegc/frontend/PegAnalysis.cpp: bytes, compared as std::string compares, in increasing order.
use bbq.Base.{
  ℕ, ◌≡◌, refl, ap, ◌↔◌, inl, inr, Bool, true, false, not, ◌&&◌, ◌||◌, List, [], ◌∷◌, ◌++◌, arith,
  ltb, ◌==◌, if◌then◌else◌, Bool-cases,
}

-- A std::string, one number for each byte.
abbrev pub Text : Type 0
Text = List ℕ

unfoldable pub text_eq : Text → Text → Bool
text_eq [] [] = true
text_eq [] (y ∷ b) = false
text_eq (x ∷ a) [] = false
text_eq (x ∷ a) (y ∷ b) = (x == y) && text_eq a b

unfoldable pub text_lt : Text → Text → Bool
text_lt [] [] = false
text_lt [] (y ∷ b) = true
text_lt (x ∷ a) [] = false
text_lt (x ∷ a) (y ∷ b) =
    let rest = text_lt a b in if ltb x y then true else (if x == y then rest else false)

-- std::set<std::string>::count and insert.
unfoldable pub count : Text → List Text → Bool
count n [] = false
count n (x ∷ xs) = text_eq n x || count n xs

unfoldable pub insert : Text → List Text → List Text
insert n [] = n ∷ []
insert n (x ∷ xs) =
    let rest = insert n xs in
    if text_eq n x then x ∷ xs else (if text_lt n x then n ∷ x ∷ xs else x ∷ rest)

unfoldable pub erase : Text → List Text → List Text
erase n [] = []
erase n (x ∷ xs) = let rest = erase n xs in if text_eq n x then rest else x ∷ rest

-- No name stands twice.
unfoldable pub unrepeated : List Text → Bool
unrepeated [] = true
unrepeated (x ∷ xs) = not (count x xs) && unrepeated xs

pub text_eq_self : (a : Text) → text_eq a a ≡ true
unfolding text_eq
text_eq_self [] = refl
text_eq_self (x ∷ a) = ground (arith, text_eq_self a)

pub text_eq-same : (a b : Text) → text_eq a b ≡ true → a ≡ b
unfolding text_eq
text_eq-same [] [] h = refl
text_eq-same [] (y ∷ b) h = cc
text_eq-same (x ∷ a) [] h = cc
text_eq-same (x ∷ a) (y ∷ b) h = ground (arith, text_eq-same a b)

pub text_eq_iff : (a b : Text) → (text_eq a b ≡ true) ↔ (a ≡ b)
text_eq_iff a b = (text_eq-same a b, λ e. rw e (text_eq_self b))

pub text_eq_comm : (a b : Text) → text_eq a b ≡ text_eq b a
unfolding text_eq
text_eq_comm [] [] = refl
text_eq_comm [] (y ∷ b) = refl
text_eq_comm (x ∷ a) [] = refl
text_eq_comm (x ∷ a) (y ∷ b) = ground (arith, text_eq_comm a b)

-- What an insertion puts in is there, and nothing else comes or goes.
pub count-insert : (m n : Text) (xs : List Text) → count m (insert n xs) ≡ text_eq m n || count m xs
unfolding count insert
count-insert m n [] = refl
count-insert m n (x ∷ xs) = elim (Bool-cases (text_eq n x)) [
  | inl e ↦ let e' : n ≡ x = text_eq-same n x e in ground (arith, e, e')
  | inr e ↦ ground (arith, e, count-insert m n xs)
]

pub count-append : (m : Text) (xs ys : List Text) → count m (xs ++ ys) ≡ count m xs || count m ys
unfolding count
count-append m [] ys = refl
count-append m (x ∷ xs) ys = ground (arith, count-append m xs ys)

pub count-erase :
    (m n : Text) (xs : List Text) → count m (erase n xs) ≡ not (text_eq m n) && count m xs
unfolding count erase
count-erase m n [] = ground arith
count-erase m n (x ∷ xs) = elim (Bool-cases (text_eq n x)) [
  | inl e ↦ let e' : n ≡ x = text_eq-same n x e in ground (arith, e, e', count-erase m n xs)
  | inr e ↦ elim (Bool-cases (text_eq m n)) [
    | inl k ↦ let k' : m ≡ n = text_eq-same m n k in ground (arith, e, k, k', count-erase m n xs)
    | inr k ↦ ground (arith, e, k, count-erase m n xs)
  ]
]

pub count-eq : (m n : Text) (xs : List Text) → text_eq m n ≡ true → count m xs ≡ count n xs
count-eq m n xs h = ap (λ k. count k xs) (text_eq-same m n h)

pub unrepeated-snoc :
    (xs : List Text) (n : Text)
    → unrepeated xs ≡ true
    → count n xs ≡ false
    → unrepeated (xs ++ (n ∷ [])) ≡ true
unfolding unrepeated count
unrepeated-snoc [] n d h = refl
unrepeated-snoc (x ∷ xs) n d h =
    ground (arith, d, h, count-append x xs (n ∷ []), text_eq_comm x n, unrepeated-snoc xs n)
