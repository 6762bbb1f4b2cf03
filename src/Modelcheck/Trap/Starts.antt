-- ===== src/Modelcheck/Trap/Starts.antt =====
-- The first pass of findTrap over the allowed edges (modelcheck/explore.go): revStart, counted two
-- places up and summed, is where the slots of each node begin.
use testkit.Prelude.{
  ℕ, zero, suc, ◌+◌, ◌≤◌, ◌<◌, ◌==◌, ◌≡◌, ◌≢◌, refl, sym, ap, subst, ◌∙◌, inl, inr, List, [], ◌∷◌,
  ◌++◌, if◌then◌else◌, Bool-cases, All, arith, length, length-append, length-set, get_or,
  get_or-set_self, get_or-set_ne, set,
}
use testkit.Modelcheck.Trap.Defs.{increment, count_targets, sums, sum_up}
use testkit.Modelcheck.Trap.Edges.{sources}

-- How many pairs lead to a node, and how many to the nodes before it.
unfoldable pub count : ℕ → List (ℕ × ℕ) → ℕ
unfolding sources
count i ps = length (sources i ps)

unfoldable pub base : ℕ → List (ℕ × ℕ) → ℕ
unfolding count
base zero ps = 0
base (suc i) ps = base i ps + count i ps

abbrev pub Inside : ℕ → List (ℕ × ℕ) → Type 0
Inside n ps = All (λ (p : ℕ × ℕ). p.1 < n) ps

pub count-cons :
    (i f t : ℕ) (ps : List (ℕ × ℕ)) → count i ((f, t) ∷ ps) ≡ (if t == i then 1 else 0) + count i ps
unfolding sources count
count-cons i f t ps = elim (Bool-cases (t == i)) [
  | inl b ↦ rw (b, sources) (omega arith)
  | inr b ↦ rw (b, sources) (omega arith)
]

pub sources-append :
    (i : ℕ) (ps qs : List (ℕ × ℕ)) → sources i (ps ++ qs) ≡ sources i ps ++ sources i qs
unfolding sources
sources-append i [] qs = refl
sources-append i ((f, t) ∷ ps) qs = elim (Bool-cases (t == i)) [
  | inl b ↦ rw b (ap (λ xs. f ∷ xs) (sources-append i ps qs))
  | inr b ↦ rw b (sources-append i ps qs)
]

pub count-append : (i : ℕ) (ps qs : List (ℕ × ℕ)) → count i (ps ++ qs) ≡ count i ps + count i qs
unfolding count
count-append i ps qs =
    ap length (sources-append i ps qs) ∙ length-append (sources i ps) (sources i qs)

pub length-increment : (xs : List ℕ) (j : ℕ) → length (increment xs j) ≡ length xs
unfolding increment
length-increment xs j = length-set xs j (get_or xs j 0 + 1)

pub get_or-increment :
    (xs : List ℕ) (j k : ℕ)
    → j < length xs
    → get_or (increment xs j) k 0 ≡ get_or xs k 0 + (if j == k then 1 else 0)
unfolding increment
get_or-increment xs j k h = elim (Bool-cases (j == k)) [
  | inl t ↦
      let d : j ≡ k = ground arith in
      rw (t) (
        ap (λ x. get_or (set xs j (get_or xs j 0 + 1)) x 0) (sym d)
        ∙ get_or-set_self xs j (get_or xs j 0 + 1) 0 h
        ∙ ap (λ x. get_or xs x 0 + 1) d)
  | inr f ↦
      let d : j ≢ k = ground arith in
      rw (f) (omega (arith, get_or-set_ne xs j k (get_or xs j 0 + 1) 0 d))
]

pub length-count_targets :
    (xs : List ℕ) (ps : List (ℕ × ℕ)) → length (count_targets xs ps) ≡ length xs
unfolding count_targets
length-count_targets xs [] = refl
length-count_targets xs ((f, t) ∷ ps) =
    length-count_targets (increment xs (t + 2)) ps ∙ length-increment xs (t + 2)

-- The first pass counts the pairs of node j at j + 2.
pub count_targets_lem :
    (n : ℕ) (xs : List ℕ) (ps : List (ℕ × ℕ))
    → length xs ≡ n + 2
    → Inside n ps
    → ((j : ℕ) → get_or (count_targets xs ps) (j + 2) 0 ≡ get_or xs (j + 2) 0 + count j ps)
      × (get_or (count_targets xs ps) 0 0 ≡ get_or xs 0 0)
      × (get_or (count_targets xs ps) 1 0 ≡ get_or xs 1 0)
unfolding count_targets sources count
count_targets_lem n xs [] h a = (λ j. omega arith, refl, refl)
count_targets_lem n xs ((f, t) ∷ ps) h a =
    let ys = increment xs (t + 2) in
    let r = count_targets_lem n ys ps (length-increment xs (t + 2) ∙ h) a.1 in
    let lt : t + 2 < length xs = omega (arith, h, a.0) in
    (
      λ j. ground (arith, r.0 j, get_or-increment xs (t + 2) (j + 2) lt, count-cons j f t ps),
      ground (arith, r.1, get_or-increment xs (t + 2) 0 lt),
      ground (arith, r.2, get_or-increment xs (t + 2) 1 lt),
    )

length-sums : (acc : ℕ) (xs : List ℕ) → length (sums acc xs) ≡ length xs
unfolding sums
length-sums acc [] = refl
length-sums acc (x ∷ xs) = ap suc (length-sums (acc + x) xs)

sums_lem :
    (ps : List (ℕ × ℕ)) (o acc : ℕ) (xs : List ℕ) (i : ℕ)
    → acc ≡ base o ps
    → ((k : ℕ) → get_or xs k 0 ≡ count (o + k) ps)
    → i < length xs
    → get_or (sums acc xs) i 0 ≡ base (suc (o + i)) ps
unfolding sums base
sums_lem ps o acc [] i a h lt = absurd (omega arith)
sums_lem ps o acc (x ∷ xs) zero a h lt =
    let z : o + 0 ≡ o = omega arith in rw z (omega (arith, a, h 0 ∙ ap (λ u. count u ps) z))
sums_lem ps o acc (x ∷ xs) (suc i) a h lt =
    let z : o + suc i ≡ suc o + i = omega arith in
    let first : x ≡ count o ps = h 0 ∙ ap (λ u. count u ps) (omega arith) in
    rw z (
      sums_lem ps (suc o) (acc + x) xs i (omega (arith, a, first))
        (λ k. h (suc k) ∙ ap (λ u. count u ps) (omega arith)) (omega arith))

-- Where the slots of each node begin.
pub record Starts (n : ℕ) (ps : List (ℕ × ℕ)) (start : List ℕ) : Type 0 where
  pub size : length start ≡ n + 2
  pub first : get_or start 0 0 ≡ 0
  pub begins : (i : ℕ) → i ≤ n → get_or start (suc i) 0 ≡ base i ps

pub sum_up-Starts :
    (n : ℕ) (ps : List (ℕ × ℕ)) (xs : List ℕ)
    → length xs ≡ n + 2
    → ((j : ℕ) → get_or xs (j + 2) 0 ≡ count j ps)
    → get_or xs 0 0 ≡ 0
    → get_or xs 1 0 ≡ 0
    → Starts n ps (sum_up xs)
unfolding sum_up base
sum_up-Starts n ps [] h c z o = absurd (omega arith)
sum_up-Starts n ps (a ∷ []) h c z o = absurd (omega arith)
sum_up-Starts n ps (a ∷ b ∷ xs) h c z o = record {
  size = omega (arith, length-sums b xs, h);
  first = z;
  begins = λ i le. begins i le;
}
  where
    begins : (i : ℕ) → i ≤ n → get_or (a ∷ b ∷ sums b xs) (suc i) 0 ≡ base i ps
    begins zero le = o
    begins (suc i) le =
        let e : 0 + i ≡ i = omega arith in
        sums_lem ps 0 b xs i o
          (λ k.
            let s : k + 2 ≡ suc (suc k) = omega arith in
            let w : 0 + k ≡ k = omega arith in
            ap (λ u. get_or (a ∷ b ∷ xs) u 0) (sym s) ∙ c k ∙ ap (λ u. count u ps) (sym w))
          (omega (arith, h))
        ∙ ap (λ u. base (suc u) ps) e

pub base_next : (ps : List (ℕ × ℕ)) (j t : ℕ) → j < t → base j ps + count j ps ≤ base t ps
unfolding base
base_next ps j zero h = absurd (omega arith)
base_next ps j (suc t) h = elim (Bool-cases (j == t)) [
  | inl b ↦
      let d : j ≡ t = ground arith in
      subst (λ u. base j ps + count j ps ≤ base u ps + count u ps) d (omega arith)
  | inr b ↦ omega (arith, base_next ps j t (ground arith))
]
