-- ===== src/Script/Taken.antt =====
-- How often an assignment takes an event, and that leaves permit what they take
-- (ctrltest/script.go).
use testkit.Prelude.{
  ℕ, zero, suc, ◌+◌, ◌<◌, List, [], ◌∷◌, Option, none, some, true, ◌==◌, if◌then◌else◌, ◌≡◌, ◌≢◌,
  sym, ap, ◌∙◌, inl, inr, Bool-cases, length, get_elem?, get_or, set, drop, get_or-set_self,
  get_or-set_ne, arith,
}
use testkit.Script.Allow.{Event, LeafAllow, matches}
use testkit.Script.Assign.{Assignment}

abbrev pub one : ℕ → Option ℕ → ℕ
one x none = 0
one x (some y) = if y == x then 1 else 0

abbrev pub taken : ℕ → Assignment → ℕ
taken x [] = 0
taken x (o ∷ at) = one x o + taken x at

pub taken-set :
    (x : ℕ) (at : Assignment) (l : ℕ) (v : Option ℕ)
    → l < length at
    → taken x (set at l v) + one x (get_or at l none) ≡ taken x at + one x v
taken-set x [] l v h = absurd (omega arith)
taken-set x (o ∷ at) zero v h = omega arith
taken-set x (o ∷ at) (suc l) v h = omega (arith, taken-set x at l v (omega arith))

-- Every leaf that takes an event permits it.
abbrev pub Permitted : List Event → List LeafAllow → Assignment → Type 0
Permitted seen leaves at =
    (l x : ℕ) (leaf : LeafAllow) (ev : Event)
    → get_elem? leaves l ≡ some leaf
    → get_or at l none ≡ some x
    → get_elem? seen x ≡ some ev
    → matches leaf ev ≡ true

pub set-Permitted :
    (seen : List Event) (leaves : List LeafAllow) (at : Assignment) (l e : ℕ) (leaf : LeafAllow)
    (ev : Event)
    → l < length at
    → get_elem? leaves l ≡ some leaf
    → get_elem? seen e ≡ some ev
    → matches leaf ev ≡ true
    → Permitted seen leaves at
    → Permitted seen leaves (set at l (some e))
set-Permitted seen leaves at l e leaf ev h p q m ok k x leaf' ev' p' a q' =
    elim (Bool-cases (l == k)) [
      | inl t ↦
          let d : l ≡ k = ground arith in
          let b : some e ≡ some x =
            sym (get_or-set_self at l (some e) none h)
            ∙ ap (λ j. get_or (set at l (some e)) j none) d
            ∙ a in
          let w : e ≡ x = ground arith in
          let same_leaf : some leaf ≡ some leaf' = sym p ∙ ap (get_elem? leaves) d ∙ p' in
          let same_event : some ev ≡ some ev' = sym q ∙ ap (get_elem? seen) w ∙ q' in
          agree same_leaf same_event
      | inr f ↦
          let d : l ≢ k = ground arith in
          ok k x leaf' ev' p' (sym (get_or-set_ne at l k (some e) none d) ∙ a) q'
    ]
  where
    of_some : {A : Type 0} (a b : A) → some a ≡ some b → a ≡ b
    of_some a b e = ground arith

    agree : some leaf ≡ some leaf' → some ev ≡ some ev' → matches leaf' ev' ≡ true
    agree u v =
        ap (λ z. matches z ev') (sym (of_some leaf leaf' u))
        ∙ ap (matches leaf) (sym (of_some ev ev' v))
        ∙ m

pub drop-cons :
    {A : Type 0} (l : ℕ) (xs : List A) {y : A} {ys : List A}
    → drop l xs ≡ y ∷ ys
    → (get_elem? xs l ≡ some y) × (drop (suc l) xs ≡ ys)
drop-cons zero [] e = absurd cc
drop-cons zero (x ∷ xs) e = (ground arith, ground arith)
drop-cons (suc l) [] e = absurd cc
drop-cons (suc l) (x ∷ xs) e = drop-cons l xs e
