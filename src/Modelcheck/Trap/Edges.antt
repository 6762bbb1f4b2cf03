-- ===== src/Modelcheck/Trap/Edges.antt =====
-- findTrap (modelcheck/explore.go): the reverse adjacency is that of the allowed edges.
use testkit.Prelude.{
  In-append, In-append_left, In-append_right, ℕ, zero, suc, ◌+◌, ◌≤◌, ◌<◌, ◌==◌, ==_iff, ◌≡◌, sym,
  ap, subst, ◌∙◌, inl, inr, List, [], ◌∷◌, Bool, true, if◌then◌else◌, Bool-cases, arith, In, here,
  there,
}
use testkit.Modelcheck.Explore.Defs.{Core}
use testkit.Modelcheck.Trap.Defs.{allowed_targets, from_node, allowed_pairs}

-- The sources of the pairs with target i.
unfoldable pub sources : ℕ → List (ℕ × ℕ) → List ℕ
sources i [] = []
sources i ((from, to) ∷ ps) = if to == i then from ∷ sources i ps else sources i ps

pub In-sources : (i : ℕ) (ps : List (ℕ × ℕ)) (f : ℕ) → In f (sources i ps) → In (f, i) ps
unfolding sources
In-sources i [] f h = elim h [ ]
In-sources i ((a, t) ∷ ps) f h = elim (Bool-cases (t == i)) [
  | inl b ↦ hit b (rw (b, sources) at h) (In-sources i ps f)
  | inr u ↦ there (In-sources i ps f (rw (u, sources) at h))
]
  where
    hit :
        (t == i) ≡ true
        → In f (a ∷ sources i ps)
        → (In f (sources i ps) → In (f, i) ps)
        → In (f, i) ((a, t) ∷ ps)
    hit b (here e) rec = here (ap (λ x. (x, i)) e ∙ ap (λ x. (a, x)) (sym ((==_iff t i).0 b)))
    hit b (there k) rec = there (rec k)

pub sources-In : (i : ℕ) (ps : List (ℕ × ℕ)) (f : ℕ) → In (f, i) ps → In f (sources i ps)
unfolding sources
sources-In i [] f h = elim h [ ]
sources-In i ((a, t) ∷ ps) f (here e) =
    let b : (t == i) ≡ true = (==_iff t i).1 (sym (ap (λ (p : ℕ × ℕ). p.1) e)) in
    rw b (here (ap (λ (p : ℕ × ℕ). p.0) e))
sources-In i ((a, t) ∷ ps) f (there k) = elim (Bool-cases (t == i)) [
  | inl b ↦ rw b (there (sources-In i ps f k))
  | inr u ↦ rw u (sources-In i ps f k)
]

In-from_node : (i : ℕ) (ts : List ℕ) {p : ℕ × ℕ} → In p (from_node i ts) → (p.0 ≡ i) × In p.1 ts
unfolding from_node
In-from_node i [] h = elim h [ ]
In-from_node i (t ∷ ts) (here e) = (ap (λ (p : ℕ × ℕ). p.0) e, here (ap (λ (p : ℕ × ℕ). p.1) e))
In-from_node i (t ∷ ts) (there k) = let r = In-from_node i ts k in (r.0, there r.1)

from_node-In : (i j : ℕ) (ts : List ℕ) → In j ts → In (i, j) (from_node i ts)
unfolding from_node
from_node-In i j [] h = elim h [ ]
from_node-In i j (t ∷ ts) (here e) = here (ap (λ x. (i, x)) e)
from_node-In i j (t ∷ ts) (there k) = there (from_node-In i j ts k)

module _ (g : Core) (oks : List Bool) where
  pub In-allowed_pairs :
      (i k : ℕ) {p : ℕ × ℕ}
      → In p (allowed_pairs g oks i k)
      → (p.0 < i + k) × In p.1 (allowed_targets g oks p.0)
  unfolding allowed_pairs
  In-allowed_pairs i zero h = elim h [ ]
  In-allowed_pairs i (suc k) {p} h =
      elim (In-append (from_node i (allowed_targets g oks i)) (allowed_pairs g oks (i + 1) k) h) [
        | inl a ↦
            let r = In-from_node i (allowed_targets g oks i) a in
            (omega (arith, r.0), subst (λ x. In p.1 (allowed_targets g oks x)) (sym r.0) r.1)
        | inr b ↦ let r = In-allowed_pairs (i + 1) k b in (omega (arith, r.0), r.1)
      ]

  pub allowed_pairs-In :
      (i k x j : ℕ)
      → i ≤ x
      → x < i + k
      → In j (allowed_targets g oks x)
      → In (x, j) (allowed_pairs g oks i k)
  unfolding allowed_pairs
  allowed_pairs-In i zero x j a b h = absurd (omega arith)
  allowed_pairs-In i (suc k) x j a b h = elim (Bool-cases (i == x)) [
    | inl s ↦
        let e = (==_iff i x).0 s in
        In-append_left (from_node i (allowed_targets g oks i)) (allowed_pairs g oks (i + 1) k) (
          subst (λ y. In (y, j) (from_node i (allowed_targets g oks i))) e
            (from_node-In i j (allowed_targets g oks i)
              (subst (λ y. In j (allowed_targets g oks y)) (sym e) h)))
    | inr d ↦
        In-append_right (from_node i (allowed_targets g oks i)) (allowed_pairs g oks (i + 1) k)
          (allowed_pairs-In (i + 1) k x j (ground arith) (omega arith) h)
  ]
