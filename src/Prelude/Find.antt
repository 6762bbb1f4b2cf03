-- ===== src/Prelude/Find.antt =====
-- Lookup of the first entry that passes a test, and lists whose entries have distinct keys.
use mathlib.Core.Path.{◌≡◌, sym, ap, ◌∙◌}
use mathlib.Core.Logic.{◌≢◌, ◌↔◌, inl, inr}
use mathlib.Core.Bool.{Bool, true, false}
use mathlib.Core.List.{List, [], ◌∷◌}
use mathlib.Core.Option.{Option, none, some}
use native.Mathlib.Omega.{arith}
use testkit.Prelude.Tests.{if◌then◌else◌, Bool-cases, Option-cases}
use testkit.Prelude.Lists.{All, All-In, In, here, there}

module _ {ℓ} {A : Type ℓ} where
  abbrev pub find : (A → Bool) → List A → Option A
  find p [] = none
  find p (x ∷ xs) = if p x then some x else find p xs

  pub In-find : (p : A → Bool) (xs : List A) {a : A} → find p xs ≡ some a → In a xs × (p a ≡ true)
  In-find p [] e = cc
  In-find p (x ∷ xs) {a} e = elim (Bool-cases (p x)) [
    | inl t ↦ let q : x ≡ a = ground arith in (here (sym q), ap p (sym q) ∙ t)
    | inr f ↦ let r = In-find p xs {a = a} (ground arith) in (there r.0, r.1)
  ]

  pub find-none : (p : A → Bool) (xs : List A) {a : A} → find p xs ≡ none → In a xs → p a ≡ false
  find-none p [] e m = elim m [ ]
  find-none p (x ∷ xs) e (here q) = ap p q ∙ ground arith
  find-none p (x ∷ xs) e (there m) = find-none p xs (ground arith) m

  pub find_unique :
      (p : A → Bool) (xs : List A) (a : A)
      → In a xs
      → p a ≡ true
      → ((b : A) → In b xs → p b ≡ true → b ≡ a)
      → find p xs ≡ some a
  find_unique p xs a m t only = elim (Option-cases (find p xs)) [
    | inl e ↦ let f = find-none p xs e m in cc
    | inr (b, e) ↦ let r = In-find p xs e in e ∙ ap some (only b r.0 r.1)
  ]

  abbrev pub SameMembers : List A → List A → Type ℓ
  SameMembers xs ys = (a : A) → In a xs ↔ In a ys

  -- With one entry at most that passes, the place of the entries does not matter.
  pub find-SameMembers :
      (p : A → Bool) (xs ys : List A)
      → SameMembers xs ys
      → ((a b : A) → In a xs → In b xs → p a ≡ true → p b ≡ true → a ≡ b)
      → find p ys ≡ find p xs
  find-SameMembers p xs ys same only = elim (Option-cases (find p xs)) [
    | inl e ↦ elim (Option-cases (find p ys)) [
      | inl e' ↦ e' ∙ sym e
      | inr (b, e') ↦ let r = In-find p ys e' in let f = find-none p xs e ((same b).1 r.0) in cc
    ]
    | inr (a, e) ↦
        let r = In-find p xs e in
        find_unique p ys a ((same a).0 r.0) r.1 (λ b m t. only b a ((same b).1 m) r.0 t r.1) ∙ sym e
  ]

abbrev pub Distinct {ℓ κ} : {A : Type ℓ} {K : Type κ} → (A → K) → List A → Type (ℓ ⊔ κ)
Distinct key [] = Unit
Distinct key (x ∷ xs) = All (λ y. key x ≢ key y) xs × Distinct key xs

module _ {ℓ κ} {A : Type ℓ} {K : Type κ} (key : A → K) where
  pub Distinct-injective :
      (xs : List A) (a b : A) → Distinct key xs → In a xs → In b xs → key a ≡ key b → a ≡ b
  Distinct-injective [] a b d m n e = elim m [ ]
  Distinct-injective (x ∷ xs) a b d (here p) (here q) e = p ∙ sym q
  Distinct-injective (x ∷ xs) a b d (here p) (there n) e =
      absurd (All-In (λ y. key x ≢ key y) xs d.0 n (ap key (sym p) ∙ e))
  Distinct-injective (x ∷ xs) a b d (there m) (here q) e =
      absurd (All-In (λ y. key x ≢ key y) xs d.0 m (ap key (sym q) ∙ sym e))
  Distinct-injective (x ∷ xs) a b d (there m) (there n) e = Distinct-injective xs a b d.1 m n e
