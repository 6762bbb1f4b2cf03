-- ===== src/Ctrl/Multiset.antt =====
-- Expectations against ops, each as many times as it occurs (compareMultiset in ctrltest/matchers.go).
use testkit.Prelude.{
  ℕ, suc, ◌+◌, ◌-◌, ◌<◌, List, [], ◌∷◌, map, Bool, true, false, String, str_eq, eq_iff, ltb,
  if◌then◌else◌, ◌≡◌, ◌≢◌, ◌⊎◌, refl, sym, ap, ◌∙◌, inl, inr, Bool-cases, All, Distinct, arith,
}
use testkit.Ctrl.Op.{Op}
use testkit.Ctrl.Kind.{Expect, expect_key, op_key}
use testkit.Ctrl.Recorder.{Counts, count_at, count_up}
use testkit.Ctrl.Tally.{count_at-count_up_self, count_at-count_up_other}
use testkit.Ctrl.Wait.{count_wanted, count_down, strike}

-- How often a key occurs.
abbrev pub occurrences : String → List String → ℕ
occurrences k [] = 0
occurrences k (x ∷ xs) = (if str_eq x k then 1 else 0) + occurrences k xs

count_at-count_up :
    (k j : String) (m : Counts)
    → count_at k (count_up j m) ≡ (if str_eq j k then 1 else 0) + count_at k m
count_at-count_up k j m = elim (Bool-cases (str_eq j k)) [
  | inl t ↦
      let q = (eq_iff j k).0 t in
      let up = ap (λ i. count_at k (count_up i m)) q ∙ count_at-count_up_self k m in
      rw t (omega (arith, up))
  | inr f ↦ rw f (omega (arith, count_at-count_up_other k j m f))
]

count_at-count_down :
    (k j : String) (m : Counts)
    → count_at k (count_down j m) ≡ count_at k m - (if str_eq j k then 1 else 0)
count_at-count_down k j [] = elim (Bool-cases (str_eq j k)) [
  | inl t ↦ rw t refl
  | inr f ↦ rw f refl
]
count_at-count_down k j ((k', n) ∷ m) = elim (Bool-cases (str_eq k' j)) [
  | inl t ↦
      let q : str_eq k' k ≡ str_eq j k = ap (λ x. str_eq x k) ((eq_iff k' j).0 t) in
      rw t (rw q (by_key (str_eq j k)))
  | inr f ↦ elim (Bool-cases (str_eq k' k)) [
    | inl t ↦
        let z : str_eq j k ≡ false = other (Bool-cases (str_eq j k)) ((eq_iff k' k).0 t) f in
        rw f (rw t (rw z (omega arith)))
    | inr g ↦ rw f (rw g (count_at-count_down k j m))
  ]
]
  where
    by_key :
        (b : Bool)
        → (if b then n - 1 else count_at k m)
          ≡ (if b then n else count_at k m) - (if b then 1 else 0)
    by_key true = refl
    by_key false = omega arith

    other :
        (str_eq j k ≡ true) ⊎ (str_eq j k ≡ false)
        → k' ≡ k
        → str_eq k' j ≡ false
        → str_eq j k ≡ false
    other (inr g) e f = g
    other (inl t) e f = absurd (let u = (eq_iff k' j).1 (e ∙ sym ((eq_iff j k).0 t)) in cc)

pub count_at-count_wanted :
    (k : String) (es : List Expect) (m : Counts)
    → count_at k (count_wanted es m) ≡ occurrences k (map expect_key es) + count_at k m
count_at-count_wanted k [] m = omega arith
count_at-count_wanted k (e ∷ es) m = omega (
  arith,
  count_at-count_wanted k es (count_up (expect_key e) m),
  count_at-count_up k (expect_key e) m,
)

ltb_pos : (n : ℕ) → ltb 0 n ≡ true → 0 < n
ltb_pos n t = ground arith

ltb_zero : (n : ℕ) → ltb 0 n ≡ false → n ≡ 0
ltb_zero n f = ground arith

-- What is left of a count, and how often a key is unexpected.
pub strike_lem :
    (k : String) (ops : List Op) (m : Counts)
    → (count_at k (strike ops m).0 ≡ count_at k m - occurrences k (map op_key ops))
      × (occurrences k (map op_key (strike ops m).1)
          ≡ occurrences k (map op_key ops) - count_at k m)
strike_lem k [] m = (omega arith, omega arith)
strike_lem k (op ∷ ops) m = elim (Bool-cases (ltb 0 (count_at (op_key op) m))) [
  | inl t ↦
      let ih = strike_lem k ops (count_down (op_key op) m) in
      let d = count_at-count_down k (op_key op) m in
      rw t (elim (Bool-cases (str_eq (op_key op) k)) [
        | inl s ↦
            let q = ap (λ j. ltb 0 (count_at j m)) (sym ((eq_iff (op_key op) k).0 s)) ∙ t in
            let pos = ltb_pos (count_at k m) q in
            let d' : count_at k (count_down (op_key op) m) ≡ count_at k m - 1 = rw s at d in
            rw s (omega (arith, ih.0, d', pos), omega (arith, ih.1, d', pos))
        | inr g ↦
            let d' : count_at k (count_down (op_key op) m) ≡ count_at k m - 0 = rw g at d in
            rw g (omega (arith, ih.0, d'), omega (arith, ih.1, d'))
      ])
  | inr f ↦
      let ih = strike_lem k ops m in
      rw f (elim (Bool-cases (str_eq (op_key op) k)) [
        | inl s ↦
            let q = ap (λ j. ltb 0 (count_at j m)) (sym ((eq_iff (op_key op) k).0 s)) ∙ f in
            let z = ltb_zero (count_at k m) q in
            rw s (omega (arith, ih.0, z), omega (arith, ih.1, z))
        | inr g ↦ rw g (omega (arith, ih.0), omega (arith, ih.1))
      ])
]

-- The entries of a map have keys of their own.
abbrev pub Keyed : Counts → Type 0
Keyed = Distinct (λ e. e.0)

All-count_up :
    (P : String × ℕ → Type 0) (k : String) (m : Counts)
    → ((n : ℕ) → P (k, n))
    → ((k' : String) (n n' : ℕ) → P (k', n) → P (k', n'))
    → All P m
    → All P (count_up k m)
unfolding count_up
All-count_up P k [] new any h = (new 1, tt)
All-count_up P k ((k', n) ∷ m) new any h = elim (Bool-cases (str_eq k' k)) [
  | inl t ↦ rw (t, count_up) (any k' n (suc n) h.0, h.1)
  | inr f ↦ rw (f, count_up) (h.0, All-count_up P k m new any h.1)
]

All-count_down :
    (P : String × ℕ → Type 0) (k : String) (m : Counts)
    → ((k' : String) (n n' : ℕ) → P (k', n) → P (k', n'))
    → All P m
    → All P (count_down k m)
All-count_down P k [] any h = tt
All-count_down P k ((k', n) ∷ m) any h = elim (Bool-cases (str_eq k' k)) [
  | inl t ↦ rw t (any k' n (n - 1) h.0, h.1)
  | inr f ↦ rw f (h.0, All-count_down P k m any h.1)
]

count_up-Keyed : (k : String) (m : Counts) → Keyed m → Keyed (count_up k m)
unfolding count_up
count_up-Keyed k [] h = (tt, tt)
count_up-Keyed k ((k', n) ∷ m) h = elim (Bool-cases (str_eq k' k)) [
  | inl t ↦ rw (t, count_up) h
  | inr f ↦
      let apart : k' ≢ k = λ e. let u = (eq_iff k' k).1 e in cc in
      rw (f, count_up)
        (All-count_up (λ e. k' ≢ e.0) k m (λ _. apart) (λ _ _ _ p. p) h.0, count_up-Keyed k m h.1)
]

count_down-Keyed : (k : String) (m : Counts) → Keyed m → Keyed (count_down k m)
count_down-Keyed k [] h = tt
count_down-Keyed k ((k', n) ∷ m) h = elim (Bool-cases (str_eq k' k)) [
  | inl t ↦ rw t h
  | inr f ↦ rw f (All-count_down (λ e. k' ≢ e.0) k m (λ _ _ _ p. p) h.0, count_down-Keyed k m h.1)
]

pub count_wanted-Keyed : (es : List Expect) (m : Counts) → Keyed m → Keyed (count_wanted es m)
count_wanted-Keyed [] m h = h
count_wanted-Keyed (e ∷ es) m h =
    count_wanted-Keyed es (count_up (expect_key e) m) (count_up-Keyed (expect_key e) m h)

pub strike-Keyed : (ops : List Op) (m : Counts) → Keyed m → Keyed (strike ops m).0
strike-Keyed [] m h = h
strike-Keyed (op ∷ ops) m h = elim (Bool-cases (ltb 0 (count_at (op_key op) m))) [
  | inl t ↦ rw t (strike-Keyed ops (count_down (op_key op) m) (count_down-Keyed (op_key op) m h))
  | inr f ↦ rw f (strike-Keyed ops m h)
]
