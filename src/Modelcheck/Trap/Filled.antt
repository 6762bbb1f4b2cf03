-- ===== src/Modelcheck/Trap/Filled.antt =====
-- The second pass of findTrap over the allowed edges (modelcheck/explore.go): filling the slots.
use testkit.Prelude.{
  ℕ, zero, suc, ◌+◌, ◌≤◌, ◌<◌, ◌==◌, ltb, ◌≡◌, ◌≢◌, refl, sym, ap, subst, ◌∙◌, inl, inr, List, [],
  ◌∷◌, ◌++◌, append-nil, append_assoc, Bool, true, false, if◌then◌else◌, Bool-cases, arith, length,
  length-append, length-set, length-replicate, get_or, get_or-set_self, get_or-set_ne,
  get_or-replicate, set, replicate,
}
use testkit.Modelcheck.Trap.Defs.{increment, count_targets, sum_up, fill, reversed}
use testkit.Modelcheck.Trap.Edges.{sources}
use testkit.Modelcheck.Trap.Starts.{
  count, base, Inside, count-cons, sources-append, count-append, length-increment, get_or-increment,
  length-count_targets, count_targets_lem, Starts, sum_up-Starts, base_next,
}

get_or-append_lt : (xs ys : List ℕ) (k : ℕ) → k < length xs → get_or (xs ++ ys) k 0 ≡ get_or xs k 0
get_or-append_lt [] ys k h = absurd (omega arith)
get_or-append_lt (x ∷ xs) ys zero h = refl
get_or-append_lt (x ∷ xs) ys (suc k) h = get_or-append_lt xs ys k (omega arith)

get_or-append_end : (xs : List ℕ) (y k : ℕ) → k ≡ length xs → get_or (xs ++ y ∷ []) k 0 ≡ y
get_or-append_end [] y zero h = refl
get_or-append_end [] y (suc k) h = absurd (omega arith)
get_or-append_end (x ∷ xs) y zero h = absurd (omega arith)
get_or-append_end (x ∷ xs) y (suc k) h = get_or-append_end xs y k (omega arith)

module _ (n : ℕ) (all : List (ℕ × ℕ)) where
  -- The pairs `ps` have been filled in.
  pub record Filled (ps : List (ℕ × ℕ)) (r : List ℕ × List ℕ) : Type 0 where
    pub size : length r.1 ≡ n + 2
    pub first : get_or r.1 0 0 ≡ 0
    pub next : (j : ℕ) → j < n → get_or r.1 (suc j) 0 ≡ base j all + count j ps
    pub last : get_or r.1 (suc n) 0 ≡ base n all
    pub long : length r.0 ≡ base n all
    pub slots :
        (j k : ℕ)
        → j < n
        → k < count j ps
        → get_or r.0 (base j all + k) 0 ≡ get_or (sources j ps) k 0

  fill-step :
      (ps qs : List (ℕ × ℕ)) (f t : ℕ) (rev start : List ℕ)
      → all ≡ ps ++ (f, t) ∷ qs
      → t < n
      → Filled ps (rev, start)
      → Filled (ps ++ (f, t) ∷ []) (set rev (get_or start (t + 1) 0) f, increment start (t + 1))
  unfolding base sources count
  fill-step ps qs f t rev start e lt w =
      let one : t + 1 ≡ suc t = omega arith in
      let more : (j : ℕ) → count j (ps ++ (f, t) ∷ []) ≡ count j ps + (if t == j then 1 else 0) =
        λ j. omega (arith, count-append j ps ((f, t) ∷ []), count-cons j f t []) in
      let at = get_or-increment start (t + 1) in
      let inside : t + 1 < length start = omega (arith, w.size) in
      record {
        size = length-increment start (t + 1) ∙ w.size;
        first = ground (arith, at 0 inside, w.first);
        next = λ j h. ground (arith, at (suc j) inside, w.next j h, more j);
        last = ground (arith, at (suc n) inside, w.last);
        long = length-set rev (get_or start (t + 1) 0) f ∙ w.long;
        slots = λ j k h lk. slot j k h lk;
      }
    where
      pos : get_or start (t + 1) 0 ≡ base t all + count t ps
      pos = let one : t + 1 ≡ suc t = omega arith in ap (λ u. get_or start u 0) one ∙ w.next t lt

      some_left : count t ps < count t all
      some_left = omega (
        arith,
        ap (count t) e,
        count-append t ps ((f, t) ∷ qs),
        (let z : (t == t) ≡ true = ground arith in
            count-cons t f t qs ∙ ap (λ (b : Bool). (if b then 1 else 0) + count t qs) z),
      )

      room : get_or start (t + 1) 0 < length rev
      room = omega (arith, pos, some_left, w.long, base_next all t n lt)

      other : (j : ℕ) → (t == j) ≡ false → sources j ((f, t) ∷ []) ≡ []
      other j b = rw (b, sources) refl

      own : (j : ℕ) → (t == j) ≡ true → sources j ((f, t) ∷ []) ≡ f ∷ []
      own j b = rw (b, sources) refl

      elsewhere :
          (j k : ℕ) → (t == j) ≡ false → k < count j ps → get_or start (t + 1) 0 ≢ base j all + k
      elsewhere j k b lk z =
          let mine : count j ps ≤ count j all =
            omega (arith, ap (count j) e, count-append j ps ((f, t) ∷ qs)) in
          elim (Bool-cases (ltb j t)) [
            | inl s ↦ omega (arith, z, pos, lk, mine, base_next all j t (ground arith))
            | inr s ↦ omega (arith, z, pos, some_left, base_next all t j (ground arith))
          ]

      slot :
          (j k : ℕ)
          → j < n
          → k < count j (ps ++ (f, t) ∷ [])
          → get_or (set rev (get_or start (t + 1) 0) f) (base j all + k) 0
            ≡ get_or (sources j (ps ++ (f, t) ∷ [])) k 0
      slot j k h lk = elim (Bool-cases (t == j)) [
        | inr b ↦
            let same : sources j (ps ++ (f, t) ∷ []) ≡ sources j ps =
              sources-append j ps ((f, t) ∷ [])
              ∙ ap (λ xs. sources j ps ++ xs) (other j b)
              ∙ append-nil (sources j ps) in
            let lk' : k < count j ps = subst (λ (xs : List ℕ). k < length xs) same lk in
            get_or-set_ne rev (get_or start (t + 1) 0) (base j all + k) f 0 (elsewhere j k b lk')
            ∙ w.slots j k h lk'
            ∙ ap (λ (xs : List ℕ). get_or xs k 0) (sym same)
        | inl b ↦
            let d : t ≡ j = ground arith in
            let same : sources j (ps ++ (f, t) ∷ []) ≡ sources j ps ++ f ∷ [] =
              sources-append j ps ((f, t) ∷ []) ∙ ap (λ xs. sources j ps ++ xs) (own j b) in
            let here : get_or start (t + 1) 0 ≡ base j all + count j ps =
              pos ∙ ap (λ u. base u all + count u ps) d in
            elim (Bool-cases (ltb k (count j ps))) [
              | inl s ↦
                  let lk' : k < count j ps = ground arith in
                  let ne : get_or start (t + 1) 0 ≢ base j all + k =
                    λ z. absurd (omega (arith, z, here, lk')) in
                  get_or-set_ne rev (get_or start (t + 1) 0) (base j all + k) f 0 ne
                  ∙ w.slots j k h lk'
                  ∙ sym (
                      ap (λ (xs : List ℕ). get_or xs k 0) same
                      ∙ get_or-append_lt (sources j ps) (f ∷ []) k lk')
              | inr s ↦
                  let lk2 : k < length (sources j ps ++ f ∷ []) =
                    subst (λ (xs : List ℕ). k < length xs) same lk in
                  let end : k ≡ count j ps =
                    ground (arith, lk2, length-append (sources j ps) (f ∷ [])) in
                  let there : get_or start (t + 1) 0 ≡ base j all + k = omega (arith, here, end) in
                  ap (λ u. get_or (set rev (get_or start (t + 1) 0) f) u 0) (sym there)
                  ∙ get_or-set_self rev (get_or start (t + 1) 0) f 0 room
                  ∙ sym (
                      ap (λ (xs : List ℕ). get_or xs k 0) same
                      ∙ get_or-append_end (sources j ps) f k end)
            ]
      ]

  fill-Filled :
      (ps qs : List (ℕ × ℕ)) (rev start : List ℕ)
      → all ≡ ps ++ qs
      → Inside n qs
      → Filled ps (rev, start)
      → Filled all (fill rev start qs)
  unfolding fill
  fill-Filled ps [] rev start e a w =
      subst (λ xs. Filled xs (rev, start)) (sym (e ∙ append-nil ps)) w
  fill-Filled ps ((f, t) ∷ qs) rev start e a w =
      fill-Filled (ps ++ (f, t) ∷ []) qs (set rev (get_or start (t + 1) 0) f)
        (increment start (t + 1)) (e ∙ sym (append_assoc ps ((f, t) ∷ []) qs)) a.1
        (fill-step ps qs f t rev start e a.0 w)

  pub reversed-Filled : Inside n all → Filled all (reversed n all)
  unfolding reversed base sources count
  reversed-Filled a =
      let zeros : List ℕ = replicate (n + 2) 0 in
      let c : ((j : ℕ)
            → get_or (count_targets zeros all) (j + 2) 0 ≡ get_or zeros (j + 2) 0 + count j all)
          × (get_or (count_targets zeros all) 0 0 ≡ get_or zeros 0 0)
          × (get_or (count_targets zeros all) 1 0 ≡ get_or zeros 1 0) =
        count_targets_lem n zeros all (length-replicate (n + 2) 0) a in
      let s : Starts n all (sum_up (count_targets zeros all)) =
        sum_up-Starts n all (count_targets zeros all)
          (length-count_targets zeros all ∙ length-replicate (n + 2) 0)
          (λ j. omega (arith, c.0 j, get_or-replicate {A = ℕ} (n + 2) (j + 2) 0))
          (c.1 ∙ get_or-replicate {A = ℕ} (n + 2) 0 0)
          (c.2 ∙ get_or-replicate {A = ℕ} (n + 2) 1 0) in
      let start : List ℕ = sum_up (count_targets zeros all) in
      let one : n + 1 ≡ suc n = omega arith in
      fill-Filled [] all (replicate (get_or start (n + 1) 0) 0) start refl a (record {
        size = s.size;
        first = s.first;
        next = λ j h. omega (arith, s.begins j (omega arith));
        last = s.begins n (omega arith);
        long =
            length-replicate (get_or start (n + 1) 0) 0
            ∙ ap (λ u. get_or start u 0) one
            ∙ s.begins n (omega arith);
        slots = λ j k h lk. absurd (omega (arith, lk));
      })
