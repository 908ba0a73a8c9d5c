-- ===== src/Pegc/Sets/Laws.antt =====
-- Laws of the helpers on FIRST sets of pegc/frontend/PegAnalysis.cpp.
use bbq.Base.{
  ◌≡◌, refl, ap, inl, inr, Bool, true, not, ◌&&◌, ◌||◌, List, [], ◌∷◌, ◌++◌, arith, Bool-cases,
}
use bbq.Pegc.Names.{text_eq_self, text_eq-same}
use bbq.Pegc.Ast.{
  Kind, literal_kind, charset_kind, token_kind, any_kind, epsilon_kind, FirstElement,
}
use bbq.Pegc.Sets.{kind_eq, first_element_eq, is_epsilon, found, first_set_union}

pub kind_eq_self : (k : Kind) → kind_eq k k ≡ true
unfolding kind_eq
kind_eq_self literal_kind = refl
kind_eq_self charset_kind = refl
kind_eq_self token_kind = refl
kind_eq_self any_kind = refl
kind_eq_self epsilon_kind = refl

kind_eq-same : (k l : Kind) → kind_eq k l ≡ true → k ≡ l
unfolding kind_eq
kind_eq-same literal_kind literal_kind h = refl
kind_eq-same charset_kind charset_kind h = refl
kind_eq-same token_kind token_kind h = refl
kind_eq-same any_kind any_kind h = refl
kind_eq-same epsilon_kind epsilon_kind h = refl
kind_eq-same _ _ h = cc

pub first_element_eq_self : (a : FirstElement) → first_element_eq a a ≡ true
unfolding first_element_eq
first_element_eq_self a = simp (kind_eq_self a.kind) (text_eq_self a.value)

pub first_element_eq-same : (a b : FirstElement) → first_element_eq a b ≡ true → a ≡ b
unfolding first_element_eq
first_element_eq-same a b h =
    ground (arith, kind_eq-same a.kind b.kind, text_eq-same a.value b.value)

pub first_element_eq_comm : (a b : FirstElement) → first_element_eq a b ≡ first_element_eq b a
first_element_eq_comm a b = elim (Bool-cases (first_element_eq a b)) [
  | inl e ↦ let e' : a ≡ b = first_element_eq-same a b e in rw e' refl
  | inr e ↦ elim (Bool-cases (first_element_eq b a)) [
    | inl k ↦ let k' : b ≡ a = first_element_eq-same b a k in rw k' refl
    | inr k ↦ cc
  ]
]

-- Whether an element is epsilon depends on the element alone.
pub is_epsilon-eq : (a b : FirstElement) → first_element_eq a b ≡ true → is_epsilon a ≡ is_epsilon b
is_epsilon-eq a b h = ap (λ e. is_epsilon e) (first_element_eq-same a b h)

pub found-append :
    (x : FirstElement) (a b : List FirstElement) → found x (a ++ b) ≡ found x a || found x b
unfolding found
found-append x [] b = refl
found-append x (y ∷ a) b = ground (arith, found-append x a b)

pub found-eq :
    (x y : FirstElement) (a : List FirstElement)
    → first_element_eq x y ≡ true
    → found x a ≡ found y a
found-eq x y a h = ap (λ e. found e a) (first_element_eq-same x y h)

-- A union holds what its sets hold, epsilon from the source only where it is asked for.
pub found-union :
    (x : FirstElement) (dest src : List FirstElement) (include_epsilon : Bool)
    → found x (first_set_union dest src include_epsilon)
      ≡ found x dest || (found x src && (include_epsilon || not (is_epsilon x)))
unfolding first_set_union found
found-union x dest [] inc = ground arith
found-union x dest (e ∷ src) inc = elim (Bool-cases (first_element_eq x e)) [
  | inl k ↦ ground (
    arith,
    k,
    is_epsilon-eq x e k,
    found-eq x e dest k,
    found-append x dest (e ∷ []),
    found-union x dest src inc,
    found-union x (dest ++ (e ∷ [])) src inc,
  )
  | inr k ↦ ground (
    arith,
    k,
    found-append x dest (e ∷ []),
    found-union x dest src inc,
    found-union x (dest ++ (e ∷ [])) src inc,
  )
]
