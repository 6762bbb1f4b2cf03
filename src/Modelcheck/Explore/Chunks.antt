-- ===== src/Modelcheck/Explore/Chunks.antt =====
-- The results of the search of modelcheck/explore.go do not depend on how many workers expand a
-- level, that is, on where its chunks end.
use testkit.Prelude.{
  ℕ, zero, suc, ◌+◌, ◌≤◌, ◌≡◌, refl, sym, ap, ap₂, ◌∙◌, ◌⊎◌, inl, inr, List, [], ◌∷◌, ◌++◌,
  append-nil, append_assoc, map, Option, Bool, arith, length, take, drop,
}
use mathlib.Core.List.{map-append}
use testkit.Modelcheck.System.{State, System, Invariant, Recoverable, Panic, Run, ok, panic, ◌>>=◌}
use testkit.Modelcheck.Explore.Defs.{Core}
use testkit.Modelcheck.Explore.Search.{
  InvViolation, Verdicts, add_goals, record_errs, record_states, evaluate, merge_one_state,
  merge_states,
}

pub Run-cases {ℓ} :
    {A : Type ℓ} (m : Run A) → ((a : A) × (m ≡ ok a)) ⊎ ((p : Panic) × (m ≡ panic p))
Run-cases (ok a) = inl (a, refl)
Run-cases (panic p) = inr (p, refl)

pub take-append-drop {ℓ} : {A : Type ℓ} (n : ℕ) (xs : List A) → take n xs ++ drop n xs ≡ xs
take-append-drop zero xs = refl
take-append-drop (suc n) [] = refl
take-append-drop (suc n) (x ∷ xs) = ap (◌∷◌ x) (take-append-drop n xs)

pub length-drop-le {ℓ} : {A : Type ℓ} (n : ℕ) (xs : List A) → length (drop n xs) ≤ length xs
length-drop-le zero xs = omega arith
length-drop-le (suc n) [] = omega arith
length-drop-le (suc n) (x ∷ xs) = omega (arith, length-drop-le n xs)

module _ {ℓ} {S : Type ℓ} where
  add_goals-append :
      (rs : List (Recoverable S)) (gs : List (List Bool)) (xs ys : List S)
      → add_goals rs gs (xs ++ ys) ≡ add_goals rs (add_goals rs gs xs) ys
  unfolding add_goals
  add_goals-append [] gs xs ys = refl
  add_goals-append (r ∷ rs) [] xs ys = refl
  add_goals-append (r ∷ rs) (g ∷ gs) xs ys =
      ap₂ ◌∷◌
        (ap (◌++◌ g) (map-append r.goal xs ys)
          ∙ sym (append_assoc g (map r.goal xs) (map r.goal ys)))
        (add_goals-append rs gs xs ys)

  add_goals-nil : (rs : List (Recoverable S)) (gs : List (List Bool)) → add_goals rs gs [] ≡ gs
  unfolding add_goals
  add_goals-nil [] gs = refl
  add_goals-nil (r ∷ rs) [] = refl
  add_goals-nil (r ∷ rs) (g ∷ gs) = ap₂ ◌∷◌ (append-nil g) (add_goals-nil rs gs)

  record_states-append :
      (is : List (Invariant S)) (base : ℕ) (xs ys : List S) (vs : List (Option InvViolation))
      → record_states is base (xs ++ ys) vs
        ≡ record_states is (base + length xs) ys (record_states is base xs vs)
  unfolding record_states
  record_states-append is base [] ys vs = ap (λ b. record_states is b ys vs) (omega arith)
  record_states-append is base (x ∷ xs) ys vs =
      record_states-append is (base + 1) xs ys (record_errs is base x vs)
      ∙ ap (λ b. record_states is b ys (record_states is (base + 1) xs (record_errs is base x vs)))
          (omega arith)

  pub evaluate-append :
      (sys : System S) (xs ys : List S) (base : ℕ) (v : Verdicts)
      → evaluate sys (xs ++ ys) base v ≡ evaluate sys ys (base + length xs) (evaluate sys xs base v)
  unfolding evaluate
  evaluate-append sys xs ys base v = λ i. record {
    goal = add_goals-append sys.recoverables v.goal xs ys i;
    inv_viol = record_states-append sys.invariants base xs ys v.inv_viol i;
  }

  pub evaluate-nil : (sys : System S) (base : ℕ) (v : Verdicts) → evaluate sys [] base v ≡ v
  unfolding evaluate record_states
  evaluate-nil sys base v =
      λ i. record { goal = add_goals-nil sys.recoverables v.goal i; inv_viol = v.inv_viol }

module _ {ℓ} {S : Type ℓ} (st : State S) (sys : System S) (bound : ℕ) where
  -- The new states of a first part, before those of the rest.
  abbrev pub after : List S → Core × List S → Run (Core × List S)
  after old q = ok (q.0, old ++ q.1)

  -- Two merges in turn.
  abbrev pub then_merge : ℕ → List S → Core × List S → Run (Core × List S)
  then_merge i ys r = merge_states st sys bound r.0 i ys >>= after r.1

  pub merge_states-append :
      (e : Core) (i : ℕ) (xs ys : List S)
      → merge_states st sys bound e i (xs ++ ys)
        ≡ merge_states st sys bound e i xs >>= then_merge (i + length xs) ys
  unfolding merge_states
  merge_states-append e i [] ys =
      let e₀ : i ≡ i + 0 = omega arith in
      ap (λ k. merge_states st sys bound e k ys) e₀ ∙ unit (merge_states st sys bound e (i + 0) ys)
    where
      unit : (m : Run (Core × List S)) → m ≡ (m >>= λ q. ok (q.0, q.1))
      unit (ok a) = refl
      unit (panic p) = refl
  merge_states-append e i (x ∷ xs) ys =
      at (merge_one_state st sys bound e i x) (λ r. merge_states-append r.0 (i + 1) xs ys)
    where
      more : (r : Core × List S) → Run (Core × List S)
      more r = merge_states st sys bound r.0 (i + 1) (xs ++ ys) >>= after r.1

      regroup :
          (old : List S) (m : Run (Core × List S))
          → (m >>= then_merge (i + 1 + length xs) ys >>= after old)
            ≡ (m >>= after old >>= then_merge (i + suc (length xs)) ys)
      regroup old (panic p) = refl
      regroup old (ok r) =
          let k : i + 1 + length xs ≡ i + suc (length xs) = omega arith in
          ap (λ (j : ℕ). then_merge j ys r >>= after old) k
          ∙ inner (merge_states st sys bound r.0 (i + suc (length xs)) ys)
        where
          inner :
              (m : Run (Core × List S))
              → (m >>= after r.1 >>= after old) ≡ (m >>= after (old ++ r.1))
          inner (panic p) = refl
          inner (ok q) = ap (λ l. ok (q.0, l)) (sym (append_assoc old r.1 q.1))

      at :
          (m : Run (Core × List S))
          → ((r : Core × List S)
              → merge_states st sys bound r.0 (i + 1) (xs ++ ys)
                ≡ merge_states st sys bound r.0 (i + 1) xs >>= then_merge (i + 1 + length xs) ys)
          → (m >>= λ r. merge_states st sys bound r.0 (i + 1) (xs ++ ys) >>= after r.1) ≡ (
              m
              >>= (λ r. merge_states st sys bound r.0 (i + 1) xs >>= after r.1)
              >>= then_merge (i + suc (length xs)) ys)
      at (panic p) ih = refl
      at (ok r) ih =
          ap (λ (m : Run (Core × List S)). m >>= after r.1) (ih r)
          ∙ regroup r.1 (merge_states st sys bound r.0 (i + 1) xs)
