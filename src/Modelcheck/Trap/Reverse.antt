-- ===== src/Modelcheck/Trap/Reverse.antt =====
-- The reverse adjacency of findTrap (modelcheck/explore.go): the slice of a node is the sources of the
-- allowed edges that lead to it.
use testkit.Prelude.{
  ℕ, zero, suc, ◌+◌, ◌-◌, ◌≤◌, ◌<◌, ◌==◌, ltb, ◌≡◌, refl, sym, ap, ◌∙◌, inl, inr, List, [], ◌∷◌,
  Bool-cases, arith, length, get_or, take, drop,
}
use testkit.Modelcheck.Trap.Defs.{slice, reversed, into}
use testkit.Modelcheck.Trap.Edges.{sources}
use testkit.Modelcheck.Trap.Starts.{count, base, Inside, base_next}
use testkit.Modelcheck.Trap.Filled.{reversed-Filled}

get_or-past : (xs : List ℕ) (i : ℕ) → length xs ≤ i → get_or xs i 0 ≡ 0
get_or-past [] i h = refl
get_or-past (x ∷ xs) zero h = absurd (omega arith)
get_or-past (x ∷ xs) (suc i) h = get_or-past xs i (omega arith)

-- A part of a list, from its entries.
part :
    (rev : List ℕ) (b : ℕ) (xs : List ℕ)
    → b + length xs ≤ length rev
    → ((k : ℕ) → k < length xs → get_or rev (b + k) 0 ≡ get_or xs k 0)
    → take (length xs) (drop b rev) ≡ xs
part rev zero [] h e = refl
part [] zero (x ∷ xs) h e = absurd (omega arith)
part (y ∷ rev) zero (x ∷ xs) h e =
    let z : 0 + 0 ≡ 0 = omega arith in
    let same : y ≡ x = ap (λ u. get_or (y ∷ rev) u 0) (sym z) ∙ e 0 (omega arith) in
    let rest = part rev zero xs (omega arith) (λ k lt.
      let z : 0 + suc k ≡ suc (0 + k) = omega arith in
      ap (λ u. get_or (y ∷ rev) u 0) (sym z) ∙ e (suc k) (omega arith)) in
    ap (λ u. u ∷ take (length xs) rev) same ∙ ap (λ us. x ∷ us) rest
part [] (suc b) [] h e = absurd (omega arith)
part [] (suc b) (x ∷ xs) h e = absurd (omega arith)
part (y ∷ rev) (suc b) xs h e = part rev b xs (omega arith) (λ k lt.
    let z : suc b + k ≡ suc (b + k) = omega arith in
    ap (λ u. get_or (y ∷ rev) u 0) (sym z) ∙ e k lt)

module _ (n : ℕ) (all : List (ℕ × ℕ)) (a : Inside n all) where
  no_sources : (ps : List (ℕ × ℕ)) (i : ℕ) → n ≤ i → Inside n ps → sources i ps ≡ []
  unfolding sources
  no_sources [] i h w = refl
  no_sources ((f, t) ∷ ps) i h w = elim (Bool-cases (t == i)) [
    | inl b ↦ absurd (ground (arith, w.0))
    | inr u ↦ rw u (no_sources ps i h w.1)
  ]

  starts_at : (i : ℕ) → i ≤ n → get_or (reversed n all).1 i 0 ≡ base i all
  unfolding base
  starts_at zero h = (reversed-Filled n all a).first
  starts_at (suc j) h = (reversed-Filled n all a).next j (omega arith)

  starts_end : get_or (reversed n all).1 (suc n) 0 ≡ base n all
  starts_end = (reversed-Filled n all a).last

  starts_past : (i : ℕ) → suc n < i → get_or (reversed n all).1 i 0 ≡ 0
  starts_past i h =
      get_or-past (reversed n all).1 i (omega (arith, h, (reversed-Filled n all a).size))

  into_node : (i : ℕ) → i < n → into (reversed n all) i ≡ sources i all
  unfolding into slice base count
  into_node i h =
      let one : i + 1 ≡ suc i = omega arith in
      let from : get_or (reversed n all).1 i 0 ≡ base i all = starts_at i (omega arith) in
      let next : get_or (reversed n all).1 (i + 1) 0 ≡ base i all + count i all =
        ap (λ u. get_or (reversed n all).1 u 0) one ∙ starts_at (suc i) (omega arith) in
      let long : get_or (reversed n all).1 (i + 1) 0 - get_or (reversed n all).1 i 0 ≡ count i all =
        omega (arith, from, next) in
      ap (λ k. take k (drop (get_or (reversed n all).1 i 0) (reversed n all).0)) long
      ∙ ap (λ b. take (count i all) (drop b (reversed n all).0)) from
      ∙ part (reversed n all).0 (base i all) (sources i all)
          (omega (arith, base_next all i n h, (reversed-Filled n all a).long))
          (λ k lt. (reversed-Filled n all a).slots i k h lt)

  into_past : (i : ℕ) → n ≤ i → into (reversed n all) i ≡ []
  unfolding into slice
  into_past i h =
      ap (λ k. take k (drop (get_or (reversed n all).1 i 0) (reversed n all).0)) none_left
    where
      one : i + 1 ≡ suc i
      one = omega arith

      none_left : get_or (reversed n all).1 (i + 1) 0 - get_or (reversed n all).1 i 0 ≡ 0
      none_left = elim (Bool-cases (i == n)) [
        | inl b ↦
            let d : i ≡ n = ground arith in
            let at : get_or (reversed n all).1 i 0 ≡ base n all =
              ap (λ u. get_or (reversed n all).1 u 0) d ∙ starts_at n (omega arith) in
            let past : get_or (reversed n all).1 (i + 1) 0 ≡ base n all =
              ap (λ u. get_or (reversed n all).1 u 0) (one ∙ ap suc d) ∙ starts_end in
            omega (arith, at, past)
        | inr u ↦
            let past : get_or (reversed n all).1 (i + 1) 0 ≡ 0 =
              starts_past (i + 1) (ground arith) in
            omega (arith, past)
      ]

  -- The slice of a node in the reverse adjacency is the sources of the edges that lead to it.
  pub into_lem : (i : ℕ) → into (reversed n all) i ≡ sources i all
  into_lem i = elim (Bool-cases (ltb i n)) [
    | inl b ↦ into_node i (ground arith)
    | inr u ↦ into_past i (ground arith) ∙ sym (no_sources all i (ground arith) a)
  ]
