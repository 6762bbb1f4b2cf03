-- ===== src/Script/Exact.antt =====
-- matchAll of ctrltest/script.go finds an assignment wherever there is one.
use testkit.Prelude.{
  ℕ, zero, suc, ◌+◌, ◌≤◌, ◌<◌, List, [], ◌∷◌, Option, none, some, Bool, true, false, ◌&&◌, ◌||◌,
  ◌==◌, ltb, if◌then◌else◌, ◌≡◌, refl, sym, ap, ◌∙◌, inl, inr, Bool-cases, Option-cases, length,
  get_elem?, get_or, get_elem?_of_lt, replicate, length-replicate, get_or-replicate, arith,
}
use testkit.Script.Allow.{Event, LeafAllow}
use testkit.Script.Assign.{Assignment, no_assignment, augment, match_from, match_all}
use testkit.Script.Taken.{taken, Permitted}
use testkit.Script.Augment.{augment-Outcome}
use testkit.Script.Assigned.{Assigned, no_assignment-Permitted, taken-no_assignment}
use testkit.Script.Search.{unvisited, Hit, Blocked, Tried, augment-Looked}
use testkit.Script.Count.{
  upto, upto-share, share-upto, upto-cong, share-length, marks-share, share-marks,
}

abbrev takes : ℕ → Option ℕ → Bool
takes x none = false
takes x (some y) = y == x

-- A visited leaf takes the event.
abbrev wanted : List Bool → Assignment → ℕ → Bool
wanted [] at x = false
wanted (b ∷ w) [] x = false
wanted (b ∷ w) (o ∷ at) x = (b && takes x o) || wanted w at x

abbrev Wanted : List Bool → Assignment → ℕ → Type 0
Wanted w at x = (l : ℕ) × (get_or w l false ≡ true) × (get_or at l none ≡ some x)

wanted_of : (w : List Bool) (at : Assignment) (x : ℕ) → Wanted w at x → wanted w at x ≡ true
wanted_of [] at x (l, f, e) = absurd cc
wanted_of (b ∷ w) [] x (l, f, e) = absurd cc
wanted_of (b ∷ w) (o ∷ at) x (zero, f, e) = rw (f, e) (ground arith)
wanted_of (b ∷ w) (o ∷ at) x (suc l, f, e) = ground (arith, wanted_of w at x (l, f, e))

of_wanted : (w : List Bool) (at : Assignment) (x : ℕ) → wanted w at x ≡ true → Wanted w at x
of_wanted [] at x h = absurd cc
of_wanted (b ∷ w) [] x h = absurd cc
of_wanted (false ∷ w) (o ∷ at) x h = let (l, f, e) = of_wanted w at x h in (suc l, f, e)
of_wanted (true ∷ w) (none ∷ at) x h = let (l, f, e) = of_wanted w at x h in (suc l, f, e)
of_wanted (true ∷ w) (some y ∷ at) x h = elim (Bool-cases (y == x)) [
  | inl t ↦ (zero, refl, let d : y ≡ x = ground arith in ap some d)
  | inr f ↦
      let k : wanted w at x ≡ true = ground arith in
      let (l, g, e) = of_wanted w at x k in (suc l, g, e)
]

lt-length_of_get_or : (at : Assignment) (l : ℕ) {x : ℕ} → get_or at l none ≡ some x → l < length at
lt-length_of_get_or [] l e = absurd cc
lt-length_of_get_or (o ∷ at) zero e = omega arith
lt-length_of_get_or (o ∷ at) (suc l) {x} e = omega (arith, lt-length_of_get_or at l {x = x} e)

taken_of_get_or : (at : Assignment) (l x : ℕ) → get_or at l none ≡ some x → 1 ≤ taken x at
taken_of_get_or [] l x e = absurd cc
taken_of_get_or (none ∷ at) zero x e = absurd cc
taken_of_get_or (some y ∷ at) zero x e = let d : y ≡ x = ground arith in ground arith
taken_of_get_or (o ∷ at) (suc l) x e = omega (arith, taken_of_get_or at l x e)

visited_in :
    (w : List Bool) (l : ℕ) → l < length w → get_or w l true ≡ true → get_or w l false ≡ true
visited_in [] l h e = absurd (omega arith)
visited_in (b ∷ w) zero h e = e
visited_in (b ∷ w) (suc l) h e = visited_in w l (omega arith) e

unvisited-replicate : (n : ℕ) → unvisited (replicate n false) ≡ n
unvisited-replicate zero = refl
unvisited-replicate (suc n) = ap suc (unvisited-replicate n)

module _ (seen : List Event) (all : List LeafAllow) (at : Assignment) (e : ℕ) (w : List Bool)
    (many : length w ≡ length all) (each : (x : ℕ) → taken x at ≡ (if ltb x e then 1 else 0))
    (lt : e < length seen) (tried : Tried seen all at e w)
    (blocked : (l : ℕ) → get_or w l false ≡ true → Blocked seen all at w l) (best : Assignment)
    (a : Assigned seen all [] best) where
  p : ℕ → Bool
  p x = (x == e) || wanted w at x

  -- A leaf that takes one of those events in an assignment is visited.
  closed : (l x : ℕ) → get_or best l none ≡ some x → p x ≡ true → get_or w l false ≡ true
  unfolding p
  closed l x h q =
      let inside : l < length all = omega (arith, a.size, lt-length_of_get_or best l {x = x} h) in
      let (leaf, k) = get_elem?_of_lt all l inside in
      let below : x < length seen = ground (arith, a.each x, taken_of_get_or best l x h) in
      let (ev, s) = get_elem?_of_lt seen x below in
      let m = a.fair l x leaf ev k h s in
      let hit : Hit all 0 ev w = elim (Bool-cases (x == e)) [
        | inl t ↦ let d : x ≡ e = ground arith in tried ev (ap (get_elem? seen) (sym d) ∙ s)
        | inr f ↦
            let (l', v, z) = of_wanted w at x (ground arith) in
            let b = blocked l' v in
            let d : b.other ≡ x = let u : some b.other ≡ some x = sym b.holds ∙ z in ground arith in
            b.hit ev (ap (get_elem? seen) d ∙ s)
      ] in
      let zl : 0 + l ≡ l = omega arith in
      visited_in w l (omega (arith, many)) (ap (λ j. get_or w j true) (sym zl) ∙ hit l leaf k m)

  no_better : ⊥
  unfolding p
  no_better =
      let taken_by : (l : ℕ)
          → get_or w l false ≡ true
          → (x : ℕ) × (get_or at l none ≡ some x) × (p x ≡ true) =
        λ l v.
          let b = blocked l v in
          (b.other, b.holds, ground (arith, wanted_of w at b.other (l, v, b.holds))) in
      let same : upto p e at ≡ upto p e best =
        upto-cong p e at best (λ x k. ground (arith, each x, a.each x)) in
      let one_more : upto p (suc e) best ≡ suc (upto p e best) = ground (arith, a.each e) in
      omega (
        arith,
        marks-share p w at taken_by,
        share-upto p e at (λ x k. ground (arith, each x)),
        same,
        one_more,
        upto-share p (suc e) best,
        share-marks p w best closed,
      )

module _ (seen : List Event) (all : List LeafAllow) (best : Assignment)
    (a : Assigned seen all [] best) where
  augment-succeeds :
      (at : Assignment) (e : ℕ)
      → length at ≡ length all
      → ((x : ℕ) → taken x at ≡ (if ltb x e then 1 else 0))
      → e < length seen
      → (at' : Assignment) × ((augment (length all) seen all at e (replicate (length all) false)).0
          ≡ some at')
  augment-succeeds at e long each lt =
      let v = replicate (length all) false in
      let r =
        augment-Looked seen all at (length all) e v
          (omega (arith, unvisited-replicate (length all))) in
      elim (Option-cases (augment (length all) seen all at e v).0) [
        | inr found ↦ found
        | inl n ↦
            let (tried, news) = r.stuck n in
            absurd (
              no_better seen all at e (augment (length all) seen all at e v).1
                (r.size ∙ length-replicate (length all) false) each lt tried
                (λ l h. elim (news l h) [
                  | inr b ↦ b
                  | inl f ↦
                      absurd (
                        let k : false ≡ true = sym (get_or-replicate (length all) l false) ∙ f in
                        cc)
                ])
                best a)
      ]

  match_from-succeeds :
      (n e : ℕ) (at : Assignment)
      → e + n ≡ length seen
      → length at ≡ length all
      → ((x : ℕ) → taken x at ≡ (if ltb x e then 1 else 0))
      → Permitted seen all at
      → (at' : Assignment) × (match_from n e seen all at ≡ some at')
  unfolding match_from
  match_from-succeeds zero e at s long each fair = (at, refl)
  match_from-succeeds (suc n) e at s long each fair =
      let v = replicate (length all) false in
      let (at1, z) = augment-succeeds at e long each (omega (arith, s)) in
      let good = (augment-Outcome seen all at (length all) e v fair long).1 at1 z in
      rw (z, match_from)
        (match_from-succeeds n (suc e) at1 (omega (arith, s)) (good.size ∙ long)
          (λ x. ground (arith, each x, good.adds x)) good.fair)

  upto_all : (n : ℕ) → n ≤ length seen → upto (λ x. true) n best ≡ n
  upto_all zero h = refl
  upto_all (suc n) h = ground (arith, a.each n, upto_all n (omega arith))

  -- No more events than permitted changes.
  pub room : length seen ≤ length all
  room = omega (
    arith,
    upto_all (length seen) (omega arith),
    upto-share (λ x. true) (length seen) best,
    share-length (λ x. true) best,
    a.size,
  )

  pub match_all-succeeds : (at : Assignment) × (match_all seen all ≡ some at)
  unfolding match_all
  match_all-succeeds = elim (Bool-cases (ltb (length all) (length seen))) [
    | inl t ↦ absurd (ground (arith, room))
    | inr f ↦
        rw (f, match_all)
          (match_from-succeeds (length seen) 0 (no_assignment (length all)) (omega arith)
            (length-replicate (length all) none)
            (λ x. ground (arith, taken-no_assignment x (length all)))
            (no_assignment-Permitted seen all (length all)))
  ]
