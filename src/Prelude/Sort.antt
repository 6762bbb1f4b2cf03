-- ===== src/Prelude/Sort.antt =====
-- Insertion sort under a Boolean order, and what it keeps.
use Prim.Native.Nat.{suc}
use mathlib.Core.Path.{◌≡◌, refl, ap, ◌∙◌}
use mathlib.Core.Logic.{inl, inr}
use mathlib.Core.Bool.{Bool}
use mathlib.Core.List.{List, [], ◌∷◌}
use testkit.Prelude.Tests.{if◌then◌else◌, Bool-cases}
use testkit.Prelude.Lists.{length, In, here, there}

module _ {ℓ} {A : Type ℓ} (le : A → A → Bool) where
  unfoldable pub insert_by : A → List A → List A
  insert_by a [] = a ∷ []
  insert_by a (x ∷ xs) = let rest = insert_by a xs in if le a x then a ∷ x ∷ xs else x ∷ rest

  unfoldable pub sort_by : List A → List A
  unfolding insert_by
  sort_by [] = []
  sort_by (x ∷ xs) = insert_by x (sort_by xs)

module _ {ℓ} {A : Type ℓ} (le : A → A → Bool) where
  length-insert_by : (a : A) (xs : List A) → length (insert_by le a xs) ≡ suc (length xs)
  unfolding insert_by
  length-insert_by a [] = refl
  length-insert_by a (x ∷ xs) = elim (Bool-cases (le a x)) [
    | inl t ↦ rw (t, insert_by) refl
    | inr f ↦ rw (f, insert_by) (ap suc (length-insert_by a xs))
  ]

  pub length-sort_by : (xs : List A) → length (sort_by le xs) ≡ length xs
  unfolding sort_by
  length-sort_by [] = refl
  length-sort_by (x ∷ xs) = length-insert_by x (sort_by le xs) ∙ ap suc (length-sort_by xs)

  In-insert_by_self : (a : A) (xs : List A) → In a (insert_by le a xs)
  unfolding insert_by
  In-insert_by_self a [] = here refl
  In-insert_by_self a (x ∷ xs) = elim (Bool-cases (le a x)) [
    | inl t ↦ rw (t, insert_by) (here refl)
    | inr f ↦ rw (f, insert_by) (there (In-insert_by_self a xs))
  ]

  In-insert_by_old : (a : A) (xs : List A) {b : A} → In b xs → In b (insert_by le a xs)
  unfolding insert_by
  In-insert_by_old a [] {b} h = elim h [ ]
  In-insert_by_old a (x ∷ xs) {b} h = elim (Bool-cases (le a x)) [
    | inl t ↦ rw (t, insert_by) (there h)
    | inr f ↦ rw (f, insert_by) (kept (λ m. In-insert_by_old a xs m) h)
  ]
    where
      kept : (In b xs → In b (insert_by le a xs)) → In b (x ∷ xs) → In b (x ∷ insert_by le a xs)
      kept old (here e) = here e
      kept old (there m) = there (old m)

  pub In-sort_by : (xs : List A) {b : A} → In b xs → In b (sort_by le xs)
  unfolding sort_by
  In-sort_by [] h = elim h [ ]
  In-sort_by (x ∷ xs) (here e) = rw e (In-insert_by_self x (sort_by le xs))
  In-sort_by (x ∷ xs) (there m) = In-insert_by_old x (sort_by le xs) (In-sort_by xs m)

  In-insert_by : (a : A) (xs : List A) {b : A} → In b (insert_by le a xs) → In b (a ∷ xs)
  unfolding insert_by
  In-insert_by a [] h = h
  In-insert_by a (x ∷ xs) {b} h = elim (Bool-cases (le a x)) [
    | inl t ↦ let k : In b (a ∷ x ∷ xs) = rw (t, insert_by) at h in k
    | inr f ↦
        let k : In b (x ∷ insert_by le a xs) = rw (f, insert_by) at h in
        moved (λ m. In-insert_by a xs m) k
  ]
    where
      moved :
          (In b (insert_by le a xs) → In b (a ∷ xs))
          → In b (x ∷ insert_by le a xs)
          → In b (a ∷ x ∷ xs)
      moved old (here e) = there (here e)
      moved old (there m) = elim (old m) [ here e ↦ here e | there n ↦ there (there n) ]

  pub In_of-sort_by : (xs : List A) {b : A} → In b (sort_by le xs) → In b xs
  unfolding sort_by
  In_of-sort_by [] h = elim h [ ]
  In_of-sort_by (x ∷ xs) h = elim (In-insert_by x (sort_by le xs) h) [
    | here e ↦ here e
    | there m ↦ there (In_of-sort_by xs m)
  ]
