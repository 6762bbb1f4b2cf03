-- ===== src/Modelcheck/Trap/Start.antt =====
-- findTrap (modelcheck/explore.go): the flags and the queue that the loop starts with.
use testkit.Prelude.{
  ℕ, zero, suc, ◌+◌, ◌≤◌, ◌<◌, ◌≡◌, refl, ap, subst, ◌∙◌, inl, inr, List, [], ◌∷◌, Bool, true,
  false, Bool-cases, arith, length, get_or, In, here, there,
}
use testkit.Modelcheck.Trap.Defs.{settled, start_marks}
use testkit.Modelcheck.Trap.Mark.{unmarked}

pub lt_of_get_or : (bs : List Bool) (v : ℕ) → get_or bs v false ≡ true → v < length bs
lt_of_get_or [] v e = cc
lt_of_get_or (b ∷ bs) zero e = omega arith
lt_of_get_or (b ∷ bs) (suc v) e = omega (arith, lt_of_get_or bs v e)

module _ (unknown goal : List Bool) where
  pub length-start_marks : (i k : ℕ) → length (start_marks unknown goal i k).reach ≡ k
  unfolding start_marks
  length-start_marks i zero = refl
  length-start_marks i (suc k) = ap suc (length-start_marks (i + 1) k)

  pub start_marks-work :
      (i k : ℕ)
      → unmarked (start_marks unknown goal i k).reach + length (start_marks unknown goal i k).queue
        ≡ k
  unfolding start_marks
  start_marks-work i zero = refl
  start_marks-work i (suc k) = elim (Bool-cases (settled unknown goal i)) [
    | inl b ↦ rw b (omega (arith, start_marks-work (i + 1) k))
    | inr b ↦ rw b (omega (arith, start_marks-work (i + 1) k))
  ]

  pub get_or-start_marks :
      (i k v : ℕ)
      → v < k
      → get_or (start_marks unknown goal i k).reach v false ≡ settled unknown goal (i + v)
  unfolding start_marks
  get_or-start_marks i zero v h = absurd (omega arith)
  get_or-start_marks i (suc k) zero h = ap (settled unknown goal) (omega arith)
  get_or-start_marks i (suc k) (suc v) h =
      get_or-start_marks (i + 1) k v (omega arith) ∙ ap (settled unknown goal) (omega arith)

  pub start_marks-In :
      (i k v : ℕ)
      → v < k
      → settled unknown goal (i + v) ≡ true
      → In (i + v) (start_marks unknown goal i k).queue
  unfolding start_marks
  start_marks-In i zero v h e = absurd (omega arith)
  start_marks-In i (suc k) zero h e =
      let z : i + 0 ≡ i = omega arith in
      rw (subst (λ x. settled unknown goal x ≡ true) z e) (here z)
  start_marks-In i (suc k) (suc v) h e =
      let z : i + 1 + v ≡ i + suc v = omega arith in
      let r =
        subst (λ x. In x (start_marks unknown goal (i + 1) k).queue) z
          (start_marks-In (i + 1) k v (omega arith) (ap (settled unknown goal) z ∙ e)) in
      elim (Bool-cases (settled unknown goal i)) [ inl b ↦ rw b (there r) | inr b ↦ rw b r ]

  pub In-start_marks :
      (i k v : ℕ)
      → In v (start_marks unknown goal i k).queue
      → (i ≤ v) × (v < i + k) × (settled unknown goal v ≡ true)
  unfolding start_marks
  In-start_marks i zero v h = elim h [ ]
  In-start_marks i (suc k) v h = elim (Bool-cases (settled unknown goal i)) [
    | inl b ↦ hit b (rw b at h) (In-start_marks (i + 1) k v)
    | inr b ↦
        let r = In-start_marks (i + 1) k v (rw b at h) in
        (omega (arith, r.0), omega (arith, r.1), r.2)
  ]
    where
      hit :
          settled unknown goal i ≡ true
          → In v (i ∷ (start_marks unknown goal (i + 1) k).queue)
          → (In v (start_marks unknown goal (i + 1) k).queue
              → (i + 1 ≤ v) × (v < i + 1 + k) × (settled unknown goal v ≡ true))
          → (i ≤ v) × (v < i + suc k) × (settled unknown goal v ≡ true)
      hit b (here e) rec = (omega (arith, e), omega (arith, e), ap (settled unknown goal) e ∙ b)
      hit b (there w) rec = let r = rec w in (omega (arith, r.0), omega (arith, r.1), r.2)
