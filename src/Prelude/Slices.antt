-- ===== src/Prelude/Slices.antt =====
-- Parts of lists, and single places of them.
use Prim.Native.Nat.{ℕ, zero, suc, ◌+◌, ◌≤◌}
use mathlib.Core.Path.{◌≡◌, refl, ap, sym, ◌∙◌}
use mathlib.Core.Logic.{◌≢◌}
use mathlib.Core.List.{List, [], ◌∷◌, ◌++◌}
use mathlib.Core.Option.{some}
use native.Mathlib.Omega.{arith}
use testkit.Prelude.Lists.{length, get_elem?, set, take, drop, All}

module _ {ℓ} {A : Type ℓ} where
  pub get_elem?-set_self :
      (xs : List A) (n : ℕ) {a : A} (v : A)
      → get_elem? xs n ≡ some a
      → get_elem? (set xs n v) n ≡ some v
  get_elem?-set_self [] n v e = absurd cc
  get_elem?-set_self (x ∷ xs) zero v e = refl
  get_elem?-set_self (x ∷ xs) (suc n) v e = get_elem?-set_self xs n v e

  pub get_elem?-set_other :
      (xs : List A) (m n : ℕ) (v : A) → m ≢ n → get_elem? (set xs m v) n ≡ get_elem? xs n
  get_elem?-set_other [] m n v h = refl
  get_elem?-set_other (x ∷ xs) zero zero v h = absurd (h refl)
  get_elem?-set_other (x ∷ xs) zero (suc n) v h = refl
  get_elem?-set_other (x ∷ xs) (suc m) zero v h = refl
  get_elem?-set_other (x ∷ xs) (suc m) (suc n) v h =
      get_elem?-set_other xs m n v (λ e. h (ap suc e))

  pub take-append : (xs ys : List A) → take (length xs) (xs ++ ys) ≡ xs
  take-append [] ys = take_zero ys
    where
      take_zero : (ys : List A) → take 0 ys ≡ []
      take_zero ys = refl
  take-append (x ∷ xs) ys = ap (◌∷◌ x) (take-append xs ys)

  pub drop-append : (n : ℕ) (xs ys : List A) → n ≤ length xs → drop n (xs ++ ys) ≡ drop n xs ++ ys
  drop-append zero xs ys h = refl
  drop-append (suc n) [] ys h = absurd (omega arith)
  drop-append (suc n) (x ∷ xs) ys h = drop-append n xs ys (omega arith)

  pub drop-length : (xs : List A) → drop (length xs) xs ≡ []
  drop-length [] = refl
  drop-length (x ∷ xs) = drop-length xs

  pub drop-nil : (n : ℕ) → drop {A = A} n [] ≡ []
  drop-nil zero = refl
  drop-nil (suc n) = refl

  pub drop-drop : (n m : ℕ) (xs : List A) → drop n (drop m xs) ≡ drop (m + n) xs
  drop-drop n zero xs = let e : n ≡ 0 + n = omega arith in ap (λ k. drop k xs) e
  drop-drop n (suc m) [] = drop-nil n ∙ sym (drop-nil (suc m + n))
  drop-drop n (suc m) (x ∷ xs) =
      let e : suc (m + n) ≡ suc m + n = omega arith in
      drop-drop n m xs ∙ ap (λ k. drop k (x ∷ xs)) e

  pub length-drop : (n : ℕ) (xs : List A) → n ≤ length xs → n + length (drop n xs) ≡ length xs
  length-drop zero xs h = omega arith
  length-drop (suc n) [] h = absurd (omega arith)
  length-drop (suc n) (x ∷ xs) h = omega (arith, length-drop n xs (omega arith))

module _ {ℓ κ} {A : Type ℓ} (P : A → Type κ) where
  pub All-set : (xs : List A) (n : ℕ) (v : A) → All P xs → P v → All P (set xs n v)
  All-set [] n v h p = tt
  All-set (x ∷ xs) zero v h p = (p, h.1)
  All-set (x ∷ xs) (suc n) v h p = (h.0, All-set xs n v h.1 p)

  pub All-get_elem? : (xs : List A) (n : ℕ) {a : A} → get_elem? xs n ≡ some a → All P xs → P a
  All-get_elem? [] n e h = absurd cc
  All-get_elem? (x ∷ xs) zero {a} e h = let q : x ≡ a = ground arith in rw (sym q) h.0
  All-get_elem? (x ∷ xs) (suc n) e h = All-get_elem? xs n e h.1
