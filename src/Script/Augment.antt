-- ===== src/Script/Augment.antt =====
-- What a successful augment changes (ctrltest/script.go).
use testkit.Prelude.{
  ℕ, zero, suc, ◌+◌, ◌<◌, List, [], ◌∷◌, none, some, Bool, true, false, not, ◌||◌, ◌≡◌, ◌≢◌, refl,
  ap, subst, ◌∙◌, inl, inr, Bool-cases, Option-cases, length, get_elem?, get_or, set, drop,
  length-set, get_or-set_ne, lt-length_of_get_elem?, arith,
}
use testkit.Script.Allow.{Event, LeafAllow, matches}
use testkit.Script.Assign.{Assignment, Augmented, placed, try_leaves, augment}
use testkit.Script.Taken.{one, taken, taken-set, Permitted, set-Permitted, drop-cons}

module _ (seen : List Event) (all : List LeafAllow) (at : Assignment) where
  -- One event more is taken, leaves visited before keep theirs.
  pub record Good (e : ℕ) (visited : List Bool) (at' : Assignment) : Type 0 where
    pub size : length at' ≡ length at
    pub adds : (x : ℕ) → taken x at' ≡ taken x at + one x (some e)
    pub fair : Permitted seen all at'
    pub keeps : (l : ℕ) → get_or visited l true ≡ true → get_or at' l none ≡ get_or at l none

  abbrev pub Grows : List Bool → List Bool → Type 0
  Grows v w = (l : ℕ) → get_or v l true ≡ true → get_or w l true ≡ true

  abbrev pub Outcome : ℕ → List Bool → Augmented → Type 0
  Outcome e visited r =
      Grows visited r.1 × ((at' : Assignment) → r.0 ≡ some at' → Good e visited at')

  pub Grows-set : (v : List Bool) (l : ℕ) → Grows v (set v l true)
  Grows-set [] l k h = h
  Grows-set (b ∷ v) zero zero h = refl
  Grows-set (b ∷ v) zero (suc k) h = h
  Grows-set (b ∷ v) (suc l) zero h = h
  Grows-set (b ∷ v) (suc l) (suc k) h = Grows-set v l k h

  pub marked : (v : List Bool) (l : ℕ) → get_or (set v l true) l true ≡ true
  marked [] l = refl
  marked (b ∷ v) zero = refl
  marked (b ∷ v) (suc l) = marked v l

  -- An unvisited leaf is not one of those visited.
  other_leaf : (v : List Bool) (l k : ℕ) → get_or v l true ≡ false → get_or v k true ≡ true → l ≢ k
  other_leaf v l k f t d = let w = ap (λ j. get_or v j true) d in cc

  pub or_split : (a b : Bool) → a || not b ≡ false → (a ≡ false) × (b ≡ true)
  or_split true b h = absurd cc
  or_split false true h = (refl, refl)
  or_split false false h = absurd cc

  Outcome-later :
      (e : ℕ) (v w : List Bool) (r : Augmented) → Grows v w → Outcome e w r → Outcome e v r
  Outcome-later e v w r g o = (
    λ l h. o.0 l (g l h),
    λ at' q.
        let good = o.1 at' q in
        record {
          size = good.size;
          adds = good.adds;
          fair = good.fair;
          keeps = λ l h. good.keeps l (g l h);
        },
  )

  module _ (e : ℕ) (ev : Event) (q : get_elem? seen e ≡ some ev) (ok : Permitted seen all at)
      (long : length at ≡ length all) where
    free_leaf :
        (leaf : LeafAllow) (l : ℕ) (visited : List Bool)
        → get_elem? all l ≡ some leaf
        → matches leaf ev ≡ true
        → get_or visited l true ≡ false
        → get_or at l none ≡ none
        → Good e visited (set at l (some e))
    free_leaf leaf l visited p m f z =
        let lt : l < length at = omega (arith, long, lt-length_of_get_elem? all l p) in
        record {
          size = length-set at l (some e);
          adds = λ x. omega (arith, taken-set x at l (some e) lt, ap (one x) z);
          fair = set-Permitted seen all at l e leaf ev lt p q m ok;
          keeps = λ k h. get_or-set_ne at l k (some e) none (other_leaf visited l k f h);
        }

    placed-Outcome :
        (leaf : LeafAllow) (l other : ℕ) (visited : List Bool) (called rest : Augmented)
        → get_elem? all l ≡ some leaf
        → matches leaf ev ≡ true
        → get_or visited l true ≡ false
        → get_or at l none ≡ some other
        → Outcome other (set visited l true) called
        → Outcome e called.1 rest
        → Outcome e visited (placed e l called rest)
    placed-Outcome leaf l other visited (none, v) rest p m f z o k =
        Outcome-later e visited v rest (λ j h. o.0 j (Grows-set visited l j h)) k
    placed-Outcome leaf l other visited (some at1, v) rest p m f z o k =
        let good = o.1 at1 refl in
        let lt : l < length at1 = omega (arith, good.size, long, lt-length_of_get_elem? all l p) in
        let same : get_or at1 l none ≡ some other = good.keeps l (marked visited l) ∙ z in
        (
          λ j h. o.0 j (Grows-set visited l j h),
          λ at' w.
              let d : set at1 l (some e) ≡ at' = ground arith in
              subst (Good e visited) d (record {
                size = length-set at1 l (some e) ∙ good.size;
                adds =
                    λ x. omega (arith, taken-set x at1 l (some e) lt, ap (one x) same, good.adds x);
                fair = set-Permitted seen all at1 l e leaf ev lt p q m good.fair;
                keeps = λ j h.
                    get_or-set_ne at1 l j (some e) none (other_leaf visited l j f h)
                    ∙ good.keeps j (Grows-set visited l j h);
              }),
        )

    try_leaves-Outcome :
        (again : ℕ → List Bool → Augmented)
        → ((other : ℕ) (v : List Bool) → Outcome other v (again other v))
        → (leaves : List LeafAllow) (l : ℕ) (visited : List Bool) → drop l all ≡ leaves
        → Outcome e visited (try_leaves again e ev at leaves l visited)
    try_leaves-Outcome again h [] l visited d = (λ j t. t, λ at' w. absurd cc)
    try_leaves-Outcome again h (leaf ∷ leaves) l visited d =
        let cut = drop-cons l all d in
        elim (Bool-cases (get_or visited l true || not (matches leaf ev))) [
          | inl t ↦ rw t (try_leaves-Outcome again h leaves (suc l) visited cut.1)
          | inr f ↦
              let (v, m) = or_split (get_or visited l true) (matches leaf ev) f in
              rw f (elim (Option-cases (get_or at l none)) [
                | inl z ↦ rw z (
                  Grows-set visited l,
                  λ at' w.
                      let u : set at l (some e) ≡ at' = ground arith in
                      subst (Good e visited) u (free_leaf leaf l visited cut.0 m v z),
                )
                | inr (other, z) ↦
                    let called = again other (set visited l true) in
                    rw z (
                      placed-Outcome leaf l other visited called
                        (try_leaves again e ev at leaves (suc l) called.1) cut.0 m v z
                        (h other (set visited l true))
                        (try_leaves-Outcome again h leaves (suc l) called.1 cut.1))
              ])
        ]

  pub augment-Outcome :
      (fuel e : ℕ) (visited : List Bool)
      → Permitted seen all at
      → length at ≡ length all
      → Outcome e visited (augment fuel seen all at e visited)
  unfolding augment
  augment-Outcome zero e visited ok long = (λ j t. t, λ at' w. absurd cc)
  augment-Outcome (suc fuel) e visited ok long = elim (Option-cases (get_elem? seen e)) [
    | inl n ↦ rw (n, augment) (λ j t. t, λ at' w. absurd cc)
    | inr (ev, q) ↦
        rw (q, augment)
          (try_leaves-Outcome e ev q ok long (augment fuel seen all at)
            (λ other v. augment-Outcome fuel other v ok long) all 0 visited refl)
  ]
