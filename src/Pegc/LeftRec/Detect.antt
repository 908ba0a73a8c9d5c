-- ===== src/Pegc/LeftRec/Detect.antt =====
-- What detect_left_recursion of pegc/frontend/PegAnalysis.cpp marks.
use bbq.Base.{
  ℕ, ◌<◌, ◌≡◌, refl, sym, ap, ◌∙◌, subst, ◌↔◌, inl, inr, Bool, true, false, some, List, [], ◌∷◌,
  ◌++◌, if◌then◌else◌, Bool-cases, none-some, some_same, if_true, if_false, length,
}
use bbq.Pegc.Names.{Text, text_eq, count, text_eq-same}
use bbq.Pegc.First.{ProductionInfo, Productions, find, Terminals}
use bbq.Pegc.Collect.{Message, left_recursion}
use bbq.Pegc.Kildall.{all_names}
use bbq.Pegc.Kildall.Start.{IsFresh}
use bbq.Pegc.LeftRec.{has_left_path, mark_left_recursive, detect_left_recursion}
use bbq.Pegc.LeftRec.Chain.{LeftChain}
use bbq.Pegc.LeftRec.Path.{has_left_path_ends, has_left_path_lem}

-- What the loop makes of a production.
abbrev marked : Bool → ProductionInfo → ProductionInfo
marked found p = if found then record p { left_recursive = true } else p

mark_step :
    (fuel : ℕ) (table : Productions) (p : ProductionInfo) (ps qs : Productions)
    (errors es : List Message) (r : Bool × List Text)
    → has_left_path fuel table p.name p.name [] ≡ some r
    → mark_left_recursive fuel table ps
        (if r.0 then errors ++ (left_recursion p.name ∷ []) else errors)
      ≡ some (qs, es)
    → mark_left_recursive fuel table (p ∷ ps) errors ≡ some (marked r.0 p ∷ qs, es)
unfolding mark_left_recursive
mark_step fuel table p ps qs errors es r h k = rw (mark_left_recursive, h, k) refl

-- The productions, each with the mark that the table's chains give it.
data IsMarked (table : Productions) : Productions → Productions → Type 0 where
  none_left : IsMarked table [] []
  mark_one :
      {p : ProductionInfo} {ps qs : Productions} (found : Bool)
      → (found ≡ true) ↔ LeftChain table p.name p.name
      → IsMarked table ps qs
      → IsMarked table (p ∷ ps) (marked found p ∷ qs)

marked-name : (found : Bool) (p : ProductionInfo) → (marked found p).name ≡ p.name
marked-name true p = refl
marked-name false p = refl

marks_names : (table ps qs : Productions) → IsMarked table ps qs → all_names qs ≡ all_names ps
unfolding all_names
marks_names table ps qs none_left = refl
marks_names table ps qs (mark_one {p = p} {ps = rest} {qs = done} found h m) =
    ap (λ n. n ∷ all_names done) (marked-name found p)
    ∙ ap (λ l. p.name ∷ l) (marks_names table rest done m)

marks-IsFresh :
    (t : Terminals) (table ps qs : Productions) → IsMarked table ps qs → IsFresh t ps → IsFresh t qs
marks-IsFresh t table ps qs none_left f = f
marks-IsFresh t table ps qs (mark_one {p = p} {ps = rest} {qs = done} found h m) f =
    let rests : IsFresh t done = marks-IsFresh t table rest done m f.4 in
    let names : all_names done ≡ all_names rest = marks_names table rest done m in
    let apart : count p.name (all_names done) ≡ false = ap (λ l. count p.name l) names ∙ f.0 in
    elim found as (λ k. IsFresh t (marked k p ∷ done)) [
      | true ↦ (apart, f.1, f.2, f.3, rests)
      | false ↦ (apart, f.1, f.2, f.3, rests)
    ]

marks_find :
    (table ps qs : Productions) (n : Text) (p q : ProductionInfo)
    → IsMarked table ps qs
    → find n ps ≡ some p
    → find n qs ≡ some q
    → (found : Bool) × (q ≡ marked found p) × ((found ≡ true) ↔ LeftChain table n n)
unfolding find
marks_find table ps qs n p q none_left f g = absurd (none-some f)
marks_find table ps qs n p q (mark_one {p = r} {ps = rest} {qs = done} found h m) f g =
    elim (Bool-cases (text_eq n r.name)) [
      | inl k ↦
          let k' : text_eq n (marked found r).name ≡ true =
            ap (λ a. text_eq n a) (marked-name found r) ∙ k in
          let same : r ≡ p = some_same (sym (if_true _ _ _ k) ∙ f) in
          let now : marked found r ≡ q = some_same (sym (if_true _ _ _ k') ∙ g) in
          (
            found,
            sym now ∙ ap (λ a. marked found a) same,
            subst (λ a. (found ≡ true) ↔ LeftChain table a a) (sym (text_eq-same n r.name k)) h,
          )
      | inr k ↦
          let k' : text_eq n (marked found r).name ≡ false =
            ap (λ a. text_eq n a) (marked-name found r) ∙ k in
          marks_find table rest done n p q m (sym (if_false _ _ _ k) ∙ f)
            (sym (if_false _ _ _ k') ∙ g)
    ]

mark_all :
    (fuel : ℕ) (table : Productions)
    → length (all_names table) < fuel
    → (ps : Productions) (errors : List Message)
    → (qs : Productions) × (es : List Message) × (mark_left_recursive fuel table ps errors
        ≡ some (qs, es))
      × IsMarked table ps qs
unfolding mark_left_recursive
mark_all fuel table h [] errors = ([], errors, refl, none_left)
mark_all fuel table h (p ∷ ps) errors =
    let r = has_left_path_ends table p.name p.name fuel h in
    let rest =
      mark_all fuel table h ps (if r.0.0 then errors ++ (left_recursion p.name ∷ []) else errors) in
    (
      marked r.0.0 p ∷ rest.0,
      rest.1,
      mark_step fuel table p ps rest.0 errors rest.1 r.0 r.1 rest.2,
      mark_one r.0.0 (has_left_path_lem table p.name p.name fuel r.0 h r.1) rest.3,
    )

pub detect_left_recursion_ends :
    (fuel : ℕ) (ps : Productions) (errors : List Message)
    → length (all_names ps) < fuel
    → (r : Productions × List Message) × (detect_left_recursion fuel ps errors ≡ some r)
unfolding detect_left_recursion
detect_left_recursion_ends fuel ps errors h =
    let m = mark_all fuel ps h ps errors in ((m.0, m.1), m.2)

module _ (fuel : ℕ) (ps qs : Productions) (errors es : List Message)
    (h : length (all_names ps) < fuel)
    (run : detect_left_recursion fuel ps errors ≡ some (qs, es)) where
  run_marks : IsMarked ps ps qs
  unfolding detect_left_recursion
  run_marks =
      let m = mark_all fuel ps h ps errors in
      let same : m.0 ≡ qs =
        ap (λ (r : Productions × List Message). r.0) (some_same (sym m.2 ∙ run)) in
      subst (λ l. IsMarked ps ps l) same m.3

  -- With depth for each declared name and one more: the marks of detect_left_recursion change
  -- neither the names nor the calls, and no FIRST set is computed by them.
  pub detect_left_recursion-IsFresh : (t : Terminals) → IsFresh t ps → IsFresh t qs
  detect_left_recursion-IsFresh t f = marks-IsFresh t ps ps qs run_marks f

  -- With depth for each declared name and one more: a production that was not marked before is
  -- marked by detect_left_recursion exactly where a chain of leftmost calls, one at least, leads
  -- from it back to itself.
  pub detect_left_recursion_lem :
      (n : Text) (p q : ProductionInfo)
      → find n ps ≡ some p
      → p.left_recursive ≡ false
      → find n qs ≡ some q
      → (q.left_recursive ≡ true) ↔ LeftChain ps n n
  detect_left_recursion_lem n p q f clear g =
      let m = marks_find ps ps qs n p q run_marks f g in
      let mark : q.left_recursive ≡ m.0 =
        ap (λ (a : ProductionInfo). a.left_recursive) m.1 ∙ marked_flag m.0 p clear in
      (λ k. m.2.0 (sym mark ∙ k), λ c. mark ∙ m.2.1 c)
    where
      marked_flag :
          (found : Bool) (p : ProductionInfo)
          → p.left_recursive ≡ false
          → (marked found p).left_recursive ≡ found
      marked_flag true p c = refl
      marked_flag false p c = c
