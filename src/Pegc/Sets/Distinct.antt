-- ===== src/Pegc/Sets/Distinct.antt =====
-- Sets without repetition: when first_set_eq of pegc/frontend/PegAnalysis.cpp is set equality.
use bbq.Base.{
  suc, ◌≤◌, ◌<◌, ◌≡◌, refl, sym, ◌∙◌, ◌↔◌, inl, inr, Bool, true, false, not, ◌&&◌, List, [], ◌∷◌,
  ◌++◌, arith, ◌==◌, if◌then◌else◌, Bool-cases, and_both, true-false, length,
}
use native.Mathlib.Decide.{dec_lt}
use bbq.Pegc.Ast.{FirstElement}
use bbq.Pegc.Sets.{first_element_eq, found, all_found, first_set_eq, first_set_union}
use bbq.Pegc.Sets.Laws.{
  first_element_eq_self, first_element_eq-same, first_element_eq_comm, found-append, found-eq,
}

-- No element stands twice.
unfoldable pub distinct : List FirstElement → Bool
distinct [] = true
distinct (x ∷ a) = not (found x a) && distinct a

-- The set without the first place of an element.
without : FirstElement → List FirstElement → List FirstElement
without x [] = []
without x (y ∷ a) = let rest = without x a in if first_element_eq x y then a else y ∷ rest

length-without :
    (x : FirstElement) (a : List FirstElement)
    → found x a ≡ true
    → length a ≡ suc (length (without x a))
unfolding without found
length-without x [] h = cc
length-without x (y ∷ a) h = ground (arith, length-without x a)

found-without :
    (x y : FirstElement) (a : List FirstElement)
    → first_element_eq y x ≡ false
    → found y a ≡ true
    → found y (without x a) ≡ true
unfolding without found
found-without x y [] n h = cc
found-without x y (z ∷ a) n h = elim (Bool-cases (first_element_eq x z)) [
  | inl e ↦ let e' : x ≡ z = first_element_eq-same x z e in ground (arith, n, e, e')
  | inr e ↦ ground (arith, e, found-without x y a n)
]

pub all_found-found :
    (a b : List FirstElement)
    → all_found a b ≡ true
    → (x : FirstElement) → found x a ≡ true
    → found x b ≡ true
unfolding all_found found
all_found-found [] b h x k = cc
all_found-found (y ∷ a) b h x k = elim (Bool-cases (first_element_eq x y)) [
  | inl e ↦ ground (arith, h, found-eq x y b e)
  | inr e ↦ ground (arith, e, h, k, λ (p : all_found a b ≡ true). all_found-found a b p x)
]

pub found-all_found :
    (a b : List FirstElement)
    → ((x : FirstElement) → found x a ≡ true → found x b ≡ true)
    → all_found a b ≡ true
unfolding all_found found
found-all_found [] b h = refl
found-all_found (y ∷ a) b h =
    let here : found y b ≡ true = h y (ground (arith, first_element_eq_self y)) in
    let there : all_found a b ≡ true = found-all_found a b (λ x k. h x (ground (arith, k))) in
    ground (arith, here, there)

-- A set without repetition that lies in another is no longer than it.
pub distinct-le :
    (a b : List FirstElement)
    → distinct a ≡ true
    → ((x : FirstElement) → found x a ≡ true → found x b ≡ true)
    → length a ≤ length b
unfolding distinct found
distinct-le [] b d h = omega arith
distinct-le (y ∷ a) b d h =
    let mine : found y b ≡ true = h y (ground (arith, first_element_eq_self y)) in
    let shorter : length a ≤ length (without y b) =
      distinct-le a (without y b) (ground (arith, d))
        (λ x k. found-without y x b (apart x k) (h x (ground (arith, k)))) in
    omega (arith, length-without y b mine)
  where
    apart : (x : FirstElement) → found x a ≡ true → first_element_eq x y ≡ false
    apart x k = elim (Bool-cases (first_element_eq x y)) [
      | inl e ↦ ground (arith, d, k, found-eq x y a e)
      | inr e ↦ e
    ]

pub distinct-snoc :
    (a : List FirstElement) (e : FirstElement)
    → distinct a ≡ true
    → found e a ≡ false
    → distinct (a ++ (e ∷ [])) ≡ true
unfolding distinct found
distinct-snoc [] e d n = refl
distinct-snoc (y ∷ a) e d n =
    ground (arith, d, n, found-append y a (e ∷ []), first_element_eq_comm y e, distinct-snoc a e)

pub distinct-union :
    (dest src : List FirstElement) (include_epsilon : Bool)
    → distinct dest ≡ true
    → distinct (first_set_union dest src include_epsilon) ≡ true
unfolding first_set_union
distinct-union dest [] inc d = d
distinct-union dest (e ∷ src) inc d = ground (
  arith,
  d,
  distinct-snoc dest e,
  distinct-union dest src inc,
  distinct-union (dest ++ (e ∷ [])) src inc,
)

-- As long as a set that it lies in, it leaves nothing of that set out.
pub no_more :
    (a b : List FirstElement) (x : FirstElement)
    → distinct a ≡ true
    → ((y : FirstElement) → found y a ≡ true → found y b ≡ true)
    → length a ≡ length b
    → found x a ≡ false
    → found x b ≡ true
    → ⊥
unfolding distinct found
no_more a b x d inc sizes k l =
    let longer : suc (length a) ≤ length b = distinct-le (x ∷ a) b both wider in omega arith
  where
    both : distinct (x ∷ a) ≡ true
    both = ground (arith, d, k)

    wider : (y : FirstElement) → found y (x ∷ a) ≡ true → found y b ≡ true
    wider y h = elim (Bool-cases (first_element_eq y x)) [
      | inl e ↦ found-eq y x b e ∙ l
      | inr e ↦ inc y (ground (arith, e, h))
    ]

-- For two sets without repetition: the code's comparison, of the sizes and of one inclusion,
-- answers true exactly where the two hold the same elements.
pub first_set_eq_lem :
    (a b : List FirstElement)
    → distinct a ≡ true
    → distinct b ≡ true
    → (first_set_eq a b ≡ true) ↔ ((x : FirstElement) → found x a ≡ found x b)
unfolding first_set_eq
first_set_eq_lem a b da db = (same, conversely)
  where
    same : first_set_eq a b ≡ true → (x : FirstElement) → found x a ≡ found x b
    same h x =
        let inc : all_found a b ≡ true = ground (arith, h) in
        let sizes : length a ≡ length b = ground (arith, h) in
        elim (Bool-cases (found x a)) [
          | inl k ↦ k ∙ sym (all_found-found a b inc x k)
          | inr k ↦ elim (Bool-cases (found x b)) [
            | inl l ↦ absurd (no_more a b x da (all_found-found a b inc) sizes k l)
            | inr l ↦ k ∙ sym l
          ]
        ]

    conversely : ((x : FirstElement) → found x a ≡ found x b) → first_set_eq a b ≡ true
    conversely h =
        let ab : length a ≤ length b = distinct-le a b da (λ x k. sym (h x) ∙ k) in
        let ba : length b ≤ length a = distinct-le b a db (λ x k. h x ∙ k) in
        let inc : all_found a b ≡ true = found-all_found a b (λ x k. sym (h x) ∙ k) in
        ground (arith, ab, ba, inc)

-- A set that the code's comparison tells from one that lies in it is longer.
pub length_lt :
    (a b : List FirstElement)
    → distinct a ≡ true
    → ((x : FirstElement) → found x a ≡ true → found x b ≡ true)
    → first_set_eq b a ≡ false
    → length a < length b
unfolding first_set_eq
length_lt a b d inc ne = elim (dec_lt (length a) (length b)) [
  | yes h ↦ h
  | no h ↦
      let le : length a ≤ length b = distinct-le a b d inc in
      let sizes : length a ≡ length b = omega (arith, le, h) in
      let back : all_found b a ≡ true = found-all_found b a (every sizes) in
      let clash : (length b == length a) && all_found b a ≡ true =
        and_both _ _ (ground (arith, sizes)) back in
      absurd (true-false (sym clash ∙ ne))
]
  where
    every : length a ≡ length b → (x : FirstElement) → found x b ≡ true → found x a ≡ true
    every sizes x k = elim (Bool-cases (found x a)) [
      | inl l ↦ l
      | inr l ↦ absurd (no_more a b x d inc sizes l k)
    ]
