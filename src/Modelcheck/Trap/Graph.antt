-- ===== src/Modelcheck/Trap/Graph.antt =====
-- What findTrap (modelcheck/explore.go) is about: an edge is a place of the edge columns between the
-- bounds that edgeStart gives its node, and a node recovers where some path of allowed edges leads
-- it to a node that meets the goal or whose future is unknown.
use testkit.Prelude.{
  ℕ, zero, suc, ◌+◌, ◌-◌, ◌≤◌, ◌<◌, ◌≡◌, refl, sym, ap, ◌∙◌, inl, inr, List, [], ◌∷◌, some, Bool,
  true, false, Bool-cases, arith, length, get_elem?, get_or, take, drop, In, here, there,
}
use testkit.Modelcheck.Explore.Defs.{Core}
use testkit.Modelcheck.Trap.Defs.{slice, keep_allowed, allowed_targets, settled}

-- Edge k leads from i to j, and its label l is allowed.
pub record Edge (g : Core) (oks : List Bool) (i j : ℕ) : Type 0 where
  pub place : ℕ
  pub label : ℕ
  pub first : get_or g.edge_start i 0 ≤ place
  pub last : place < get_or g.edge_start (i + 1) 0
  pub labelled : get_elem? g.edge_label place ≡ some label
  pub allowed : get_or oks label false ≡ true
  pub target : get_elem? g.edge_to place ≡ some j

pub data Recovers (g : Core) (oks goal : List Bool) : ℕ → Type 0 where
  meets : {i : ℕ} → i < length g.parent → get_or goal i false ≡ true → Recovers g oks goal i
  stays_unknown :
      {i : ℕ} → i < length g.parent → get_or g.unknown i false ≡ true → Recovers g oks goal i
  moves :
      {i j : ℕ}
      → i < length g.parent
      → Edge g oks i j
      → Recovers g oks goal j
      → Recovers g oks goal i

pub settles :
    (g : Core) (oks goal : List Bool) (i : ℕ)
    → i < length g.parent
    → settled g.unknown goal i ≡ true
    → Recovers g oks goal i
unfolding settled
settles g oks goal i h e = elim (Bool-cases (get_or g.unknown i false)) [
  | inl u ↦ stays_unknown h u
  | inr u ↦ meets h (rw u at e)
]

pub settled_unknown :
    (unknown goal : List Bool) (i : ℕ)
    → get_or unknown i false ≡ true
    → settled unknown goal i ≡ true
unfolding settled
settled_unknown unknown goal i e = rw e refl

pub settled_goal :
    (unknown goal : List Bool) (i : ℕ) → get_or goal i false ≡ true → settled unknown goal i ≡ true
unfolding settled
settled_goal unknown goal i e = elim (Bool-cases (get_or unknown i false)) [
  | inl u ↦ rw u refl
  | inr u ↦ rw u e
]

module _ {ℓ} {A : Type ℓ} where
  get_elem?-take :
      (xs : List A) (n k : ℕ) {x : A}
      → get_elem? (take n xs) k ≡ some x
      → (k < n) × (get_elem? xs k ≡ some x)
  get_elem?-take xs zero k e = cc
  get_elem?-take [] (suc n) k e = cc
  get_elem?-take (y ∷ xs) (suc n) zero e = (omega arith, e)
  get_elem?-take (y ∷ xs) (suc n) (suc k) e =
      let r = get_elem?-take xs n k e in (omega (arith, r.0), r.1)

  take-get_elem? :
      (xs : List A) (n k : ℕ) {x : A}
      → k < n
      → get_elem? xs k ≡ some x
      → get_elem? (take n xs) k ≡ some x
  take-get_elem? xs zero k h e = absurd (omega arith)
  take-get_elem? [] (suc n) k h e = cc
  take-get_elem? (y ∷ xs) (suc n) zero h e = e
  take-get_elem? (y ∷ xs) (suc n) (suc k) h e = take-get_elem? xs n k (omega arith) e

  get_elem?-drop : (xs : List A) (n k : ℕ) → get_elem? (drop n xs) k ≡ get_elem? xs (k + n)
  get_elem?-drop xs zero k = ap (get_elem? xs) (omega arith)
  get_elem?-drop [] (suc n) k = refl
  get_elem?-drop (y ∷ xs) (suc n) k =
      let z : suc (k + n) ≡ k + suc n = omega arith in
      get_elem?-drop xs n k ∙ ap (get_elem? (y ∷ xs)) z

keep_allowed-In :
    (oks : List Bool) (ls tos : List ℕ) (k l j : ℕ)
    → get_elem? ls k ≡ some l
    → get_or oks l false ≡ true
    → get_elem? tos k ≡ some j
    → In j (keep_allowed oks ls tos)
unfolding keep_allowed
keep_allowed-In oks [] tos k l j p q r = cc
keep_allowed-In oks (x ∷ ls) [] k l j p q r = cc
keep_allowed-In oks (x ∷ ls) (y ∷ tos) zero l j p q r =
    let t : get_or oks x false ≡ true = cc in let e : j ≡ y = cc in rw t (here e)
keep_allowed-In oks (x ∷ ls) (y ∷ tos) (suc k) l j p q r = elim (Bool-cases (get_or oks x false)) [
  | inl b ↦ rw b (there (keep_allowed-In oks ls tos k l j p q r))
  | inr b ↦ rw b (keep_allowed-In oks ls tos k l j p q r)
]

In-keep_allowed :
    (oks : List Bool) (ls tos : List ℕ) (j : ℕ)
    → In j (keep_allowed oks ls tos)
    → (k : ℕ) × (l : ℕ) × (get_elem? ls k ≡ some l)
      × (get_or oks l false ≡ true)
      × (get_elem? tos k ≡ some j)
unfolding keep_allowed
In-keep_allowed oks [] tos j h = elim h [ ]
In-keep_allowed oks (x ∷ ls) [] j h = elim h [ ]
In-keep_allowed oks (x ∷ ls) (y ∷ tos) j h = elim (Bool-cases (get_or oks x false)) [
  | inl b ↦ first b (rw (b, keep_allowed) at h) (In-keep_allowed oks ls tos j)
  | inr b ↦
      let r = In-keep_allowed oks ls tos j (rw (b, keep_allowed) at h) in
      (suc r.0, r.1, r.2, r.3, r.4)
]
  where
    first :
        get_or oks x false ≡ true
        → In j (y ∷ keep_allowed oks ls tos)
        → (In j (keep_allowed oks ls tos)
            → (k : ℕ) × (l : ℕ) × (get_elem? ls k ≡ some l)
              × (get_or oks l false ≡ true)
              × (get_elem? tos k ≡ some j))
        → (k : ℕ) × (l : ℕ) × (get_elem? (x ∷ ls) k ≡ some l)
          × (get_or oks l false ≡ true)
          × (get_elem? (y ∷ tos) k ≡ some j)
    first b (here e) rec = (0, x, refl, b, ap some (sym e))
    first b (there m) rec = let r = rec m in (suc r.0, r.1, r.2, r.3, r.4)

module _ (g : Core) (oks : List Bool) (i j : ℕ) where
  pub In-allowed_targets : In j (allowed_targets g oks i) → Edge g oks i j
  unfolding allowed_targets slice
  In-allowed_targets h =
      let a = get_or g.edge_start i 0 in
      let b = get_or g.edge_start (i + 1) 0 in
      let (k, l, p, q, r) =
        In-keep_allowed oks (take (b - a) (drop a g.edge_label)) (take (b - a) (drop a g.edge_to)) j
          h in
      let t = get_elem?-take (drop a g.edge_label) (b - a) k p in
      let u = get_elem?-take (drop a g.edge_to) (b - a) k r in
      record {
        place = k + a;
        label = l;
        first = omega arith;
        last = omega (arith, t.0);
        labelled = sym (get_elem?-drop g.edge_label a k) ∙ t.1;
        allowed = q;
        target = sym (get_elem?-drop g.edge_to a k) ∙ u.1;
      }

  pub allowed_targets-In : Edge g oks i j → In j (allowed_targets g oks i)
  unfolding allowed_targets slice
  allowed_targets-In e =
      let a = get_or g.edge_start i 0 in
      let b = get_or g.edge_start (i + 1) 0 in
      let z : e.place ≡ e.place - a + a = omega (arith, e.first) in
      let h : e.place - a < b - a = omega (arith, e.first, e.last) in
      keep_allowed-In oks (take (b - a) (drop a g.edge_label)) (take (b - a) (drop a g.edge_to))
        (e.place - a) e.label j
        (take-get_elem? (drop a g.edge_label) (b - a) (e.place - a) h (
          get_elem?-drop g.edge_label a (e.place - a)
          ∙ ap (get_elem? g.edge_label) (sym z)
          ∙ e.labelled))
        e.allowed
        (take-get_elem? (drop a g.edge_to) (b - a) (e.place - a) h
          (get_elem?-drop g.edge_to a (e.place - a) ∙ ap (get_elem? g.edge_to) (sym z) ∙ e.target))
