-- ===== src/Script/Count.antt =====
-- Leaves and events counted (ctrltest/script.go).
use testkit.Prelude.{
  ℕ, zero, suc, ◌+◌, ◌≤◌, ◌<◌, List, [], ◌∷◌, Option, none, some, Bool, true, false, ◌==◌, ltb,
  if◌then◌else◌, ◌≡◌, refl, ap, ◌∙◌, inl, inr, Bool-cases, length, get_or, arith,
}
use testkit.Script.Assign.{Assignment}
use testkit.Script.Taken.{one, taken}

abbrev pub marks : List Bool → ℕ
marks [] = 0
marks (b ∷ w) = (if b then 1 else 0) + marks w

module _ (p : ℕ → Bool) where
  abbrev one_of : Option ℕ → ℕ
  one_of none = 0
  one_of (some x) = if p x then 1 else 0

  -- How many leaves take an event of those.
  abbrev pub share : Assignment → ℕ
  share [] = 0
  share (o ∷ at) = one_of o + share at

  -- How often events of those below `n` are taken.
  abbrev pub upto : ℕ → Assignment → ℕ
  upto zero at = 0
  upto (suc n) at = (if p n then taken n at else 0) + upto n at

  abbrev below : ℕ → Option ℕ → ℕ
  below n none = 0
  below n (some x) = if ltb x n then one_of (some x) else 0

  upto-nil : (n : ℕ) → upto n [] ≡ 0
  upto-nil zero = refl
  upto-nil (suc n) = ground (arith, upto-nil n)

  below-suc : (n : ℕ) (o : Option ℕ) → below (suc n) o ≡ (if p n then one n o else 0) + below n o
  below-suc n none = ground arith
  below-suc n (some x) = elim (Bool-cases (x == n)) [
    | inl t ↦ let d : x ≡ n = ground arith in let q : p x ≡ p n = ap p d in ground (arith, q)
    | inr f ↦ ground arith
  ]

  upto-cons : (n : ℕ) (o : Option ℕ) (at : Assignment) → upto n (o ∷ at) ≡ below n o + upto n at
  upto-cons zero none at = refl
  upto-cons zero (some x) at = ground arith
  upto-cons (suc n) o at = ground (arith, upto-cons n o at, below-suc n o)

  below-one_of : (n : ℕ) (o : Option ℕ) → below n o ≤ one_of o
  below-one_of n none = omega arith
  below-one_of n (some x) = ground arith

  pub upto-share : (n : ℕ) (at : Assignment) → upto n at ≤ share at
  upto-share n [] = omega (arith, upto-nil n)
  upto-share n (o ∷ at) = omega (arith, upto-cons n o at, below-one_of n o, upto-share n at)

  pub share-upto :
      (n : ℕ) (at : Assignment) → ((x : ℕ) → n ≤ x → taken x at ≡ 0) → share at ≡ upto n at
  share-upto n [] h = omega (arith, upto-nil n)
  share-upto n (none ∷ at) h =
      omega (arith, upto-cons n none at, share-upto n at (λ x k. omega (arith, h x k)))
  share-upto n (some y ∷ at) h =
      let t = share-upto n at (λ x k. omega (arith, h x k)) in
      elim (Bool-cases (ltb y n)) [
        | inl b ↦ ground (arith, upto-cons n (some y) at, t)
        | inr b ↦ absurd (let k : n ≤ y = ground arith in ground (arith, h y k))
      ]

  pub upto-cong :
      (n : ℕ) (at at' : Assignment)
      → ((x : ℕ) → x < n → taken x at ≡ taken x at')
      → upto n at ≡ upto n at'
  upto-cong zero at at' h = refl
  upto-cong (suc n) at at' h =
      ground (arith, h n (omega arith), upto-cong n at at' (λ x k. h x (omega arith)))

  one_of_le : (o : Option ℕ) → one_of o ≤ 1
  one_of_le none = omega arith
  one_of_le (some x) = ground arith

  pub share-length : (at : Assignment) → share at ≤ length at
  share-length [] = omega arith
  share-length (o ∷ at) = omega (arith, one_of_le o, share-length at)

  abbrev pub Takes : Option ℕ → Type 0
  Takes o = (x : ℕ) × (o ≡ some x) × (p x ≡ true)

  Takes-one_of : (o : Option ℕ) → Takes o → one_of o ≡ 1
  Takes-one_of none (x, e, q) = absurd cc
  Takes-one_of (some y) (x, e, q) =
      let d : y ≡ x = ground arith in let k : p y ≡ true = ap p d ∙ q in ground arith

  pub marks-share :
      (w : List Bool) (at : Assignment)
      → ((l : ℕ) → get_or w l false ≡ true → Takes (get_or at l none))
      → marks w ≤ share at
  marks-share [] at h = omega arith
  marks-share (false ∷ w) [] h = omega (arith, marks-share w [] (λ l k. h (suc l) k))
  marks-share (true ∷ w) [] h = absurd (let (x, e, q) = h 0 refl in cc)
  marks-share (false ∷ w) (o ∷ at) h = omega (arith, marks-share w at (λ l k. h (suc l) k))
  marks-share (true ∷ w) (o ∷ at) h =
      omega (arith, marks-share w at (λ l k. h (suc l) k), Takes-one_of o (h 0 refl))

  pub share-marks :
      (w : List Bool) (at : Assignment)
      → ((l x : ℕ) → get_or at l none ≡ some x → p x ≡ true → get_or w l false ≡ true)
      → share at ≤ marks w
  share-marks w [] h = omega arith
  share-marks [] (none ∷ at) h = omega (arith, share-marks [] at (λ l x e q. h (suc l) x e q))
  share-marks [] (some x ∷ at) h = elim (Bool-cases (p x)) [
    | inl t ↦ absurd (let k = h 0 x refl t in cc)
    | inr f ↦ ground (arith, share-marks [] at (λ l x e q. h (suc l) x e q))
  ]
  share-marks (b ∷ w) (none ∷ at) h = omega (arith, share-marks w at (λ l x e q. h (suc l) x e q))
  share-marks (b ∷ w) (some x ∷ at) h =
      let t = share-marks w at (λ l x e q. h (suc l) x e q) in
      elim (Bool-cases (p x)) [
        | inl q ↦ let k : b ≡ true = h 0 x refl q in ground arith
        | inr f ↦ ground arith
      ]
