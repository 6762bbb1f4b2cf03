-- ===== src/Script/Fit.antt =====
-- Assignments that the search under orderings finds (orderedFit in ctrltest/script.go).
use testkit.Prelude.{
  ℕ, zero, suc, ◌+◌, ◌<◌, List, [], ◌∷◌, none, some, true, ltb, if◌then◌else◌, ◌≡◌, refl, ap, subst,
  ◌∙◌, inl, inr, Bool-cases, Option-cases, length, get_elem?, get_or, set, drop, length-set,
  lt-length_of_get_elem?, arith,
}
use testkit.Script.Allow.{Event, LeafAllow, matches, Order}
use testkit.Script.Assign.{Assignment, order_holds, Fitted, found_or, fit_leaves, fit}
use testkit.Script.Taken.{one, taken, taken-set, Permitted, set-Permitted, drop-cons}

module _ (seen : List Event) (all : List LeafAllow) (order : Order) where
  -- The events from number `i` on, `n` of them, are taken once more, and the orderings hold.
  pub record Fits (at : Assignment) (i n : ℕ) (at' : Assignment) : Type 0 where
    pub size : length at' ≡ length at
    pub adds :
        (x : ℕ)
        → taken x at' ≡ taken x at + (if ltb x i then 0 else (if ltb x (i + n) then 1 else 0))
    pub fair : Permitted seen all at'
    pub holds : order_holds order at' ≡ true

  abbrev Found : Assignment → ℕ → ℕ → Fitted → Type 0
  Found at i n r = (at' : Assignment) → r.0 ≡ some at' → Fits at i n at'

  found_or-Found :
      (at : Assignment) (i n : ℕ) (first : Fitted) (rest : ℕ → Fitted)
      → Found at i n first
      → ((budget : ℕ) → Found at i n (rest budget))
      → Found at i n (found_or first rest)
  found_or-Found at i n (some a, budget) rest h k = h
  found_or-Found at i n (none, budget) rest h k = k budget

  -- An event put on a free leaf, and the rest of the events put behind it.
  Fits-step :
      (at : Assignment) (i l n : ℕ) (at' : Assignment)
      → l < length at
      → get_or at l none ≡ none
      → Fits (set at l (some i)) (suc i) n at'
      → Fits at i (suc n) at'
  Fits-step at i l n at' lt z f = record {
    size = f.size ∙ length-set at l (some i);
    adds = λ x. ground (arith, f.adds x, taken-set x at l (some i) lt, ap (one x) z);
    fair = f.fair;
    holds = f.holds;
  }

  get_or-none : (at : Assignment) (l : ℕ) → get_or at l (some 0) ≡ none → get_or at l none ≡ none
  get_or-none [] l e = refl
  get_or-none (o ∷ at) zero e = e
  get_or-none (o ∷ at) (suc l) e = get_or-none at l e

  module _ (deeper : Assignment → ℕ → Fitted) (i n : ℕ) (ev : Event)
      (q : get_elem? seen i ≡ some ev)
      (h : (at : Assignment) (budget : ℕ)
        → Permitted seen all at
        → length at ≡ length all
        → order_holds order at ≡ true
        → Found at (suc i) n (deeper at budget))
      (at : Assignment) (ok : Permitted seen all at) (long : length at ≡ length all) where
    fit_leaves-Found :
        (leaves : List LeafAllow) (l budget : ℕ)
        → drop l all ≡ leaves
        → Found at i (suc n) (fit_leaves deeper i ev order at leaves l budget)
    fit_leaves-Found [] l budget d = λ at' e. absurd cc
    fit_leaves-Found (leaf ∷ leaves) l zero d = λ at' e. absurd cc
    fit_leaves-Found (leaf ∷ leaves) l (suc budget) d =
        let cut = drop-cons l all d in
        let lt : l < length at = omega (arith, long, lt-length_of_get_elem? all l cut.0) in
        let skip = fit_leaves-Found leaves (suc l) budget cut.1 in
        elim (Option-cases (get_or at l (some 0))) [
          | inr (other, z) ↦ rw (fit_leaves, z) skip
          | inl z ↦
              rw (fit_leaves, z)
                (elim (Bool-cases (matches leaf ev)) [
                  | inr f ↦ rw f skip
                  | inl m ↦ rw m (elim (Bool-cases (order_holds order (set at l (some i)))) [
                    | inr f ↦ rw f skip
                    | inl o ↦
                        let fair = set-Permitted seen all at l i leaf ev lt cut.0 q m ok in
                        let size = length-set at l (some i) ∙ long in
                        rw o (
                          found_or-Found at i (suc n) (deeper (set at l (some i)) budget)
                            (fit_leaves deeper i ev order at leaves (suc l))
                            (λ at' e.
                              Fits-step at i l n at' lt (get_or-none at l z)
                                (h (set at l (some i)) budget fair size o at' e))
                            (λ b. fit_leaves-Found leaves (suc l) b cut.1))
                  ])
                ])
        ]

  pub fit-Found :
      (rest : List Event) (i budget : ℕ) (at : Assignment)
      → drop i seen ≡ rest
      → Permitted seen all at
      → length at ≡ length all
      → order_holds order at ≡ true
      → Found at i (length rest) (fit rest i all order at budget)
  unfolding fit
  fit-Found [] i budget at d ok long o = λ at' e.
      let w : at ≡ at' = ground arith in
      subst (Fits at i 0) w (record { size = refl; adds = λ x. ground arith; fair = ok; holds = o })
  fit-Found (ev ∷ rest) i budget at d ok long o =
      let cut = drop-cons i seen d in
      fit_leaves-Found (fit rest (suc i) all order) i (length rest) ev cut.0
        (λ at1 b ok1 long1 o1. fit-Found rest (suc i) b at1 cut.1 ok1 long1 o1) at ok long all 0
        budget refl
