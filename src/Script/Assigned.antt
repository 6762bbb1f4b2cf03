-- ===== src/Script/Assigned.antt =====
-- What assignEvents of ctrltest/script.go finds is an assignment.
use testkit.Prelude.{
  ℕ, zero, suc, ◌+◌, List, [], ◌∷◌, Option, none, some, true, false, ◌||◌, ◌==◌, ltb, if◌then◌else◌,
  ◌≡◌, ◌⊎◌, refl, sym, ap, subst, ◌∙◌, inl, inr, Bool-cases, Option-cases, length, replicate,
  length-replicate, get_or-replicate, arith,
}
use testkit.Script.Allow.{Event, LeafAllow, Order}
use testkit.Script.Assign.{
  Assignment, no_assignment, augment, match_from, match_all, order_holds, order_search_budget, fit,
  ordered_fit, decided, Fitted, assign_events,
}
use testkit.Script.Taken.{taken, Permitted}
use testkit.Script.Augment.{augment-Outcome}
use testkit.Script.Fit.{fit-Found}

-- Each event is taken by exactly one leaf, each leaf permits what it takes, and an event that an
-- ordering puts before another is no later than it.
pub record Assigned (seen : List Event) (leaves : List LeafAllow) (order : Order) (at : Assignment)
    : Type 0 where
  pub size : length at ≡ length leaves
  pub each : (x : ℕ) → taken x at ≡ (if ltb x (length seen) then 1 else 0)
  pub fair : Permitted seen leaves at
  pub holds : order_holds order at ≡ true

pub taken-no_assignment : (x n : ℕ) → taken x (no_assignment n) ≡ 0
taken-no_assignment x zero = refl
taken-no_assignment x (suc n) = omega (arith, taken-no_assignment x n)

pub no_assignment-Permitted :
    (seen : List Event) (leaves : List LeafAllow) (n : ℕ) → Permitted seen leaves (no_assignment n)
no_assignment-Permitted seen leaves n l x leaf ev p a q =
    absurd (let w : none ≡ some x = sym (get_or-replicate n l none) ∙ a in cc)

module _ (seen : List Event) (leaves : List LeafAllow) where
  match_from-Assigned :
      (n e : ℕ) (at at' : Assignment)
      → e + n ≡ length seen
      → length at ≡ length leaves
      → ((x : ℕ) → taken x at ≡ (if ltb x e then 1 else 0))
      → Permitted seen leaves at
      → match_from n e seen leaves at ≡ some at'
      → Assigned seen leaves [] at'
  unfolding match_from
  match_from-Assigned zero e at at' s long each fair r =
      let w : at ≡ at' = ground arith in
      subst (Assigned seen leaves []) w
        (record { size = long; each = λ x. ground (arith, each x); fair = fair; holds = refl })
  match_from-Assigned (suc n) e at at' s long each fair r =
      elim (Option-cases
        (augment (length leaves) seen leaves at e (replicate (length leaves) false)).0) [
          | inl z ↦ absurd (let k : none ≡ some at' = rw (z, match_from) at r in cc)
          | inr (at1, z) ↦
              let good =
                (augment-Outcome seen leaves at (length leaves) e (replicate (length leaves) false)
                    fair long).1
                  at1 z in
              match_from-Assigned n (suc e) at1 at' (omega (arith, s)) (good.size ∙ long)
                (λ x. ground (arith, each x, good.adds x)) good.fair (rw (z, match_from) at r)
        ]

  pub match_all-Assigned :
      (at : Assignment) → match_all seen leaves ≡ some at → Assigned seen leaves [] at
  unfolding match_all
  match_all-Assigned at r = elim (Bool-cases (ltb (length leaves) (length seen))) [
    | inl t ↦ absurd (let k : none ≡ some at = rw (t, match_all) at r in cc)
    | inr f ↦
        match_from-Assigned (length seen) 0 (no_assignment (length leaves)) at (omega arith)
          (length-replicate (length leaves) none)
          (λ x. ground (arith, taken-no_assignment x (length leaves)))
          (no_assignment-Permitted seen leaves (length leaves)) (rw (f, match_all) at r)
  ]

order_holds-no_assignment : (order : Order) (n : ℕ) → order_holds order (no_assignment n) ≡ true
order_holds-no_assignment [] n = refl
order_holds-no_assignment ((a, b) ∷ order) n =
    rw (get_or-replicate {A = Option ℕ} n a none) (order_holds-no_assignment order n)

-- Where nothing is seen, the empty assignment is one.
pub no_assignment-Assigned :
    (leaves : List LeafAllow) (order : Order)
    → Assigned [] leaves order (no_assignment (length leaves))
no_assignment-Assigned leaves order = record {
  size = length-replicate (length leaves) none;
  each = λ x. ground (arith, taken-no_assignment x (length leaves));
  fair = no_assignment-Permitted [] leaves (length leaves);
  holds = order_holds-no_assignment order (length leaves);
}

module _ (seen : List Event) (leaves : List LeafAllow) (order : Order) where
  decided_some : (r : Fitted) (at : Assignment) → (decided r).0 ≡ some at → r.0 ≡ some at
  decided_some (some a, budget) at e = e
  decided_some (none, budget) at e = e

  ordered_fit-Assigned :
      (at : Assignment)
      → (ordered_fit seen leaves order).0 ≡ some at
      → Assigned seen leaves order at
  unfolding ordered_fit
  ordered_fit-Assigned at r =
      let n = length leaves in
      let f =
        fit-Found seen leaves order seen 0 order_search_budget (no_assignment n) refl
          (no_assignment-Permitted seen leaves n) (length-replicate n none)
          (order_holds-no_assignment order n) at
          (decided_some (fit seen 0 leaves order (no_assignment n) order_search_budget) at r) in
      record {
        size = f.size ∙ length-replicate n none;
        each = λ x. ground (arith, f.adds x, taken-no_assignment x n);
        fair = f.fair;
        holds = f.holds;
      }

  empty_holds :
      (at : Assignment)
      → (length order == 0) || order_holds order at ≡ true
      → order_holds order at ≡ true
  empty_holds at h = by_order order h
    where
      by_order : (o : Order) → (length o == 0) || order_holds o at ≡ true → order_holds o at ≡ true
      by_order [] h = refl
      by_order (x ∷ o) h =
          let z : (length (x ∷ o) == 0) ≡ false = ground arith in
          ap (λ b. b || order_holds (x ∷ o) at) (sym z) ∙ h

  pub assign_events-Assigned :
      (at : Assignment)
      → (assign_events seen leaves order).0 ≡ some at
      → Assigned seen leaves order at
  unfolding assign_events
  assign_events-Assigned at r = elim (Option-cases (match_all seen leaves)) [
    | inl z ↦ absurd (let k : none ≡ some at = rw (z, assign_events) at r in cc)
    | inr (free, z) ↦ checked free z (Bool-cases ((length order == 0) || order_holds order free))
  ]
    where
      checked :
          (free : Assignment)
          → match_all seen leaves ≡ some free
          → ((length order == 0) || order_holds order free ≡ true)
            ⊎ ((length order == 0) || order_holds order free ≡ false)
          → Assigned seen leaves order at
      checked free z (inl t) =
          let w : some free ≡ some at = rw (z, t, assign_events) at r in
          let d : free ≡ at = ground arith in
          let a = match_all-Assigned seen leaves free z in
          subst (Assigned seen leaves order) d
            (record { size = a.size; each = a.each; fair = a.fair; holds = empty_holds free t })
      checked free z (inr f) = ordered_fit-Assigned at (rw (z, f, assign_events) at r)
