-- ===== src/Ctrl/Matched.antt =====
-- When compareMultiset of ctrltest/matchers.go finds no difference.
use testkit.Prelude.{
  ℕ, ◌+◌, List, [], ◌∷◌, map, none, some, Bool, true, false, ◌&&◌, String, str_eq, eq_iff, ◌==◌,
  if◌then◌else◌, ◌≡◌, ◌≢◌, ◌↔◌, ◌⊎◌, refl, sym, ap, ◌∙◌, inl, inr, Bool-cases, length, replicate,
  All, sort_by, text_le, length-sort_by, length-append, length-replicate, arith, str_eq_refl,
}
use testkit.Ctrl.Op.{Op}
use testkit.Ctrl.Kind.{Expect, expect_key, op_key}
use testkit.Ctrl.Recorder.{Counts, count_at}
use testkit.Ctrl.Wait.{count_wanted, strike, missing_of, compare_multiset}
use testkit.Ctrl.Multiset.{
  occurrences, count_at-count_wanted, strike_lem, Keyed, count_wanted-Keyed, strike-Keyed,
}

count_at_fresh : (k : String) (m : Counts) → All (λ e. k ≢ e.0) m → count_at k m ≡ 0
count_at_fresh k [] h = refl
count_at_fresh k ((k', n) ∷ m) h = elim (Bool-cases (str_eq k' k)) [
  | inl t ↦ absurd (h.0 (sym ((eq_iff k' k).0 t)))
  | inr f ↦ rw f (count_at_fresh k m h.1)
]

AllZero : Counts → Type 0
AllZero m = (k : String) → count_at k m ≡ 0

missing_of_zero : (m : Counts) → Keyed m → AllZero m → length (missing_of m) ≡ 0
unfolding AllZero
missing_of_zero [] d h = refl
missing_of_zero ((k', n) ∷ m) d h =
    let z : n ≡ 0 = sym (rw (str_eq_refl k') refl) ∙ h k' in
    let rest : AllZero m = λ k. behind k (Bool-cases (str_eq k' k)) in
    length-append (replicate n k') (missing_of m)
    ∙ omega (arith, length-replicate n k', missing_of_zero m d.1 rest)
  where
    behind : (k : String) → (str_eq k' k ≡ true) ⊎ (str_eq k' k ≡ false) → count_at k m ≡ 0
    behind k (inl t) = ap (λ j. count_at j m) (sym ((eq_iff k' k).0 t)) ∙ count_at_fresh k' m d.0
    behind k (inr f) = sym (rw f refl) ∙ h k

zero_of_missing : (m : Counts) → length (missing_of m) ≡ 0 → AllZero m
unfolding AllZero
zero_of_missing [] h k = refl
zero_of_missing ((k', n) ∷ m) h k =
    let l = length-append (replicate n k') (missing_of m) in
    let r = length-replicate n k' in
    let ih : count_at k m ≡ 0 = zero_of_missing m (omega (arith, l)) k in
    elim (Bool-cases (str_eq k' k)) [ inl t ↦ rw t (omega (arith, l, r)) | inr f ↦ rw f ih ]

NoKey : List Op → Type 0
NoKey ops = (k : String) → occurrences k (map op_key ops) ≡ 0

nil_of_NoKey : (ops : List Op) → NoKey ops → length ops ≡ 0
unfolding NoKey
nil_of_NoKey [] h = refl
nil_of_NoKey (op ∷ ops) h =
    let o : 1 + occurrences (op_key op) (map op_key ops) ≡ 0 =
      sym (rw (str_eq_refl (op_key op)) refl) ∙ h (op_key op) in
    absurd (omega (arith, o))

no_occurrence : (ops : List Op) → length ops ≡ 0 → NoKey ops
unfolding NoKey
no_occurrence [] h k = refl
no_occurrence (op ∷ ops) h k = absurd (omega (arith, h))

none_of : {A : Type 0} (b : Bool) (x : A) → (if b then none else some x) ≡ none → b ≡ true
none_of true x e = refl
none_of false x e = absurd cc

both_zero : (a b : ℕ) → ((a == 0) && (b == 0) ≡ true) ↔ ((a ≡ 0) × (b ≡ 0))
both_zero a b = ground arith

-- The comparison finds no difference exactly where every key occurs among the ops as often as among
-- the expectations, duplicates counted.
pub compare_multiset_lem :
    (want : List Expect) (got : List Op)
    → (compare_multiset want got ≡ none)
      ↔ ((k : String) → occurrences k (map expect_key want) ≡ occurrences k (map op_key got))
unfolding compare_multiset AllZero NoKey
compare_multiset_lem want got =
    let m = count_wanted want [] in
    let keyed = strike-Keyed got m (count_wanted-Keyed want [] tt) in
    let sorted = length-sort_by text_le (missing_of (strike got m).0) in
    let tests =
      both_zero (length (sort_by text_le (missing_of (strike got m).0)))
        (length (strike got m).1) in
    (
      λ e k.
          let z = tests.0 (none_of _ _ e) in
          let left = zero_of_missing (strike got m).0 (sym sorted ∙ z.0) k in
          let over = no_occurrence (strike got m).1 z.1 k in
          omega (arith, left, over, strike_lem k got m, count_at-count_wanted k want []),
      λ h.
          let left =
            missing_of_zero (strike got m).0 keyed
              (λ k. omega (arith, h k, strike_lem k got m, count_at-count_wanted k want [])) in
          let over =
            nil_of_NoKey (strike got m).1
              (λ k. omega (arith, h k, strike_lem k got m, count_at-count_wanted k want [])) in
          rw (tests.1 (sorted ∙ left, over)) refl,
    )
