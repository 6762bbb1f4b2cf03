-- ===== src/Script/Search.antt =====
-- What a failed augment has looked at (ctrltest/script.go).
use testkit.Prelude.{
  ℕ, zero, suc, ◌+◌, ◌≤◌, List, [], ◌∷◌, none, some, Bool, true, false, not, ◌||◌, ◌==◌, ◌≡◌, ◌≢◌,
  ◌⊎◌, refl, sym, ap, subst, ◌∙◌, inl, inr, Bool-cases, Option-cases, length, get_elem?, get_or,
  set, length-set, get_or-set_ne, arith,
}
use testkit.Script.Allow.{Event, LeafAllow, matches}
use testkit.Script.Assign.{Assignment, Augmented, placed, try_leaves, augment}
use testkit.Script.Augment.{Grows, Grows-set, marked, or_split}

abbrev pub unvisited : List Bool → ℕ
unvisited [] = 0
unvisited (true ∷ v) = unvisited v
unvisited (false ∷ v) = suc (unvisited v)

unvisited-set :
    (v : List Bool) (l : ℕ) → get_or v l true ≡ false → suc (unvisited (set v l true)) ≡ unvisited v
unvisited-set [] l f = absurd cc
unvisited-set (true ∷ v) zero f = absurd cc
unvisited-set (false ∷ v) zero f = refl
unvisited-set (true ∷ v) (suc l) f = unvisited-set v l f
unvisited-set (false ∷ v) (suc l) f = omega (arith, unvisited-set v l f)

all_visited : (v : List Bool) (l : ℕ) → unvisited v ≤ 0 → get_or v l true ≡ true
all_visited [] l h = refl
all_visited (true ∷ v) zero h = refl
all_visited (false ∷ v) l h = absurd (omega arith)
all_visited (true ∷ v) (suc l) h = all_visited v l h

visited-set :
    (v : List Bool) (l k : ℕ)
    → get_or (set v l true) k false ≡ true
    → (k ≡ l) ⊎ (get_or v k false ≡ true)
visited-set v l k h = elim (Bool-cases (l == k)) [
  | inl t ↦ inl (ground arith)
  | inr f ↦ let d : l ≢ k = ground arith in inr (sym (get_or-set_ne v l k true false d) ∙ h)
]

-- Each of the leaves, numbered from `l` on, that permits the event is visited.
abbrev pub Hit : List LeafAllow → ℕ → Event → List Bool → Type 0
Hit leaves l ev w =
    (j : ℕ) (leaf : LeafAllow)
    → get_elem? leaves j ≡ some leaf
    → matches leaf ev ≡ true
    → get_or w (l + j) true ≡ true

Hit-cons :
    (leaf : LeafAllow) (leaves : List LeafAllow) (l : ℕ) (ev : Event) (w : List Bool)
    → (matches leaf ev ≡ true → get_or w l true ≡ true)
    → Hit leaves (suc l) ev w
    → Hit (leaf ∷ leaves) l ev w
Hit-cons leaf leaves l ev w h t zero leaf' e m =
    let same : leaf ≡ leaf' = ground arith in
    let z : l + 0 ≡ l = omega arith in rw z (h (ap (λ x. matches x ev) same ∙ m))
Hit-cons leaf leaves l ev w h t (suc j) leaf' e m =
    let z : l + suc j ≡ suc l + j = omega arith in rw z (t j leaf' e m)

module _ (seen : List Event) (all : List LeafAllow) (at : Assignment) where
  -- A leaf whose event no leaf can take that is not visited.
  pub record Blocked (w : List Bool) (l : ℕ) : Type 0 where
    pub other : ℕ
    pub holds : get_or at l none ≡ some other
    pub hit : (ev : Event) → get_elem? seen other ≡ some ev → Hit all 0 ev w

  Blocked-later : (v w : List Bool) (l : ℕ) → Grows seen all at v w → Blocked v l → Blocked w l
  Blocked-later v w l g b = record {
    other = b.other;
    holds = b.holds;
    hit = λ ev e j leaf p m. g (0 + j) (b.hit ev e j leaf p m);
  }

  abbrev pub News : List Bool → List Bool → Type 0
  News v w = (l : ℕ) → get_or w l false ≡ true → (get_or v l false ≡ true) ⊎ Blocked w l

  pub record Looked (Hits : List Bool → Type 0) (v : List Bool) (r : Augmented) : Type 0 where
    pub size : length r.1 ≡ length v
    pub fewer : unvisited r.1 ≤ unvisited v
    pub grows : Grows seen all at v r.1
    pub stuck : r.0 ≡ none → Hits r.1 × News v r.1

  abbrev pub Tried : ℕ → List Bool → Type 0
  Tried e w = (ev : Event) → get_elem? seen e ≡ some ev → Hit all 0 ev w

  -- The call for the event of a leaf that is taken, and the loop behind it.
  placed-Looked :
      (e l other : ℕ) (ev : Event) (leaf : LeafAllow) (leaves : List LeafAllow) (v : List Bool)
      → (called : Augmented) (rest : List Bool → Augmented) → get_or v l true ≡ false
      → get_or at l none ≡ some other
      → Looked (Tried other) (set v l true) called
      → Looked (Hit leaves (suc l) ev) called.1 (rest called.1)
      → Looked (Hit (leaf ∷ leaves) l ev) v (placed e l called (rest called.1))
  placed-Looked e l other ev leaf leaves v (some at1, v1) rest f z c r = record {
    size = c.size ∙ length-set v l true;
    fewer = omega (arith, c.fewer, unvisited-set v l f);
    grows = λ k h. c.grows k (Grows-set seen all at v l k h);
    stuck = λ q. absurd cc;
  }
  placed-Looked e l other ev leaf leaves v (none, v1) rest f z c r = record {
    size = r.size ∙ c.size ∙ length-set v l true;
    fewer = omega (arith, r.fewer, c.fewer, unvisited-set v l f);
    grows = λ k h. r.grows k (c.grows k (Grows-set seen all at v l k h));
    stuck = λ q.
        let (hits, news) = r.stuck q in
        let (tried, called_news) = c.stuck refl in
        let w = (rest v1).1 in
        let blocked : Blocked w l = record {
          other = other;
          holds = z;
          hit = λ ev' e' j leaf' p m. r.grows (0 + j) (tried ev' e' j leaf' p m);
        } in
        (
          Hit-cons leaf leaves l ev w (λ m. r.grows l (c.grows l (marked seen all at v l))) hits,
          λ k h. elim (news k h) [
            | inr b ↦ inr b
            | inl h1 ↦ elim (called_news k h1) [
              | inr b ↦ inr (Blocked-later v1 w k r.grows b)
              | inl h2 ↦ elim (visited-set v l k h2) [
                | inl d ↦ inr (subst (Blocked w) (sym d) blocked)
                | inr h3 ↦ inl h3
              ]
            ]
          ],
        );
  }

  try_leaves-Looked :
      (again : ℕ → List Bool → Augmented) (fuel e : ℕ) (ev : Event)
      → ((other : ℕ) (v : List Bool) → unvisited v ≤ fuel → Looked (Tried other) v (again other v))
      → (leaves : List LeafAllow) (l : ℕ) (v : List Bool) → unvisited v ≤ suc fuel
      → Looked (Hit leaves l ev) v (try_leaves again e ev at leaves l v)
  try_leaves-Looked again fuel e ev h [] l v b = record {
    size = refl;
    fewer = omega arith;
    grows = λ k t. t;
    stuck = λ q. (λ j leaf p m. absurd cc, λ k t. inl t);
  }
  try_leaves-Looked again fuel e ev h (leaf ∷ leaves) l v b =
      elim (Bool-cases (get_or v l true || not (matches leaf ev))) [
        | inl t ↦
            let r = try_leaves-Looked again fuel e ev h leaves (suc l) v b in
            rw t (record {
              size = r.size;
              fewer = r.fewer;
              grows = r.grows;
              stuck = λ q. (
                Hit-cons leaf leaves l ev _
                    (λ m. r.grows l (skipped (get_or v l true) (matches leaf ev) t m))
                    (r.stuck q).0,
                (r.stuck q).1,
              );
            })
        | inr f ↦
            let (fresh, m) = or_split seen all at (get_or v l true) (matches leaf ev) f in
            rw f (elim (Option-cases (get_or at l none)) [
              | inl z ↦ rw z (record {
                size = length-set v l true;
                fewer = omega (arith, unvisited-set v l fresh);
                grows = Grows-set seen all at v l;
                stuck = λ q. absurd cc;
              })
              | inr (other, z) ↦
                  let called = h other (set v l true) (omega (arith, b, unvisited-set v l fresh)) in
                  let v1 = (again other (set v l true)).1 in
                  rw z (
                    placed-Looked e l other ev leaf leaves v (again other (set v l true))
                      (try_leaves again e ev at leaves (suc l)) fresh z called
                      (try_leaves-Looked again fuel e ev h leaves (suc l) v1
                        (omega (arith, b, called.fewer, unvisited-set v l fresh))))
            ])
      ]
    where
      skipped : (a b : Bool) → a || not b ≡ true → b ≡ true → a ≡ true
      skipped a b h k = ground arith

  pub augment-Looked :
      (fuel e : ℕ) (v : List Bool)
      → unvisited v ≤ fuel
      → Looked (Tried e) v (augment fuel seen all at e v)
  unfolding augment
  augment-Looked zero e v b = record {
    size = refl;
    fewer = omega arith;
    grows = λ k t. t;
    stuck = λ q. (λ ev w j leaf p m. all_visited v (0 + j) b, λ k t. inl t);
  }
  augment-Looked (suc fuel) e v b = elim (Option-cases (get_elem? seen e)) [
    | inl n ↦
        rw (n, augment)
          (record {
            size = refl;
            fewer = omega arith;
            grows = λ k t. t;
            stuck = λ q. (λ ev w. absurd (let k : none ≡ some ev = sym n ∙ w in cc), λ k t. inl t);
          })
    | inr (ev, q) ↦
        let r =
          try_leaves-Looked (augment fuel seen all at) fuel e ev (augment-Looked fuel) all 0 v b in
        rw (q, augment)
          (record {
            size = r.size;
            fewer = r.fewer;
            grows = r.grows;
            stuck = λ z. (
              λ ev' w.
                  subst (λ x. Hit all 0 x (try_leaves (augment fuel seen all at) e ev at all 0 v).1)
                    (same ev ev' (sym q ∙ w)) (r.stuck z).0,
              (r.stuck z).1,
            );
          })
  ]
    where
      same : (a b : Event) → some a ≡ some b → a ≡ b
      same a b k = ground arith
