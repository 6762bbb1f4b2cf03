-- ===== src/Modelcheck/Trap/Loop.antt =====
-- findTrap (modelcheck/explore.go): the loop over the queue.
use testkit.Prelude.{
  ℕ, zero, suc, ◌+◌, ◌≤◌, ◌<◌, ◌≡◌, refl, sym, subst, ◌∙◌, ◌⊎◌, inl, inr, List, [], ◌∷◌, some, Bool,
  true, false, arith, length, get_or, get_elem?, In, here, there, All,
}
use testkit.Modelcheck.Explore.Defs.{Core}
use testkit.Modelcheck.Trap.Defs.{allowed_pairs, settled, Marks, mark_all, spread, reversed}
use testkit.Modelcheck.Trap.Mark.{unmarked, Marked, mark_all-Marked}
use testkit.Modelcheck.Trap.Edges.{sources, In-sources, sources-In, In-allowed_pairs}
use testkit.Modelcheck.Trap.Starts.{Inside}
use testkit.Modelcheck.Trap.Reverse.{into_lem}
use testkit.Modelcheck.Trap.Graph.{Recovers, moves, In-allowed_targets}

module _ (g : Core) (oks : List Bool) where
  -- What each round of the loop keeps.
  pub record Spreads (goal : List Bool) (m : Marks) : Type 0 where
    pub size : length m.reach ≡ length g.parent
    pub sound : (v : ℕ) → get_or m.reach v false ≡ true → Recovers g oks goal v
    pub queued : (v : ℕ) → In v m.queue → get_or m.reach v false ≡ true
    pub start :
        (v : ℕ)
        → v < length g.parent
        → settled g.unknown goal v ≡ true
        → get_or m.reach v false ≡ true
    pub closed :
        (u v : ℕ)
        → In (u, v) (allowed_pairs g oks 0 (length g.parent))
        → get_or m.reach v false ≡ true
        → In v m.queue ⊎ (get_or m.reach u false ≡ true)

All-of_In {ℓ κ} : {A : Type ℓ} (P : A → Type κ) (xs : List A) → ((x : A) → In x xs → P x) → All P xs
All-of_In P [] h = tt
All-of_In P (x ∷ xs) h = (h x (here refl), All-of_In P xs (λ y k. h y (there k)))

All-get_elem? :
    (n : ℕ) (xs : List ℕ) (k : ℕ) {x : ℕ} → All (λ to. to < n) xs → get_elem? xs k ≡ some x → x < n
All-get_elem? n [] k a e = cc
All-get_elem? n (y ∷ xs) zero {x} a e = let d : y ≡ x = cc in omega (arith, d, a.0)
All-get_elem? n (y ∷ xs) (suc k) a e = All-get_elem? n xs k a.1 e

module _ (g : Core) (oks goal : List Bool) where
  allowed_pairs-Inside :
      All (λ to. to < length g.parent) g.edge_to
      → Inside (length g.parent) (allowed_pairs g oks 0 (length g.parent))
  allowed_pairs-Inside a =
      All-of_In (λ (p : ℕ × ℕ). p.1 < length g.parent) (allowed_pairs g oks 0 (length g.parent))
        (λ p k.
          let r = In-allowed_pairs g oks 0 (length g.parent) k in
          let e = In-allowed_targets g oks p.0 p.1 r.1 in
          All-get_elem? (length g.parent) g.edge_to e.place a e.target)

  sources-Bound :
      (m : Marks) (i : ℕ)
      → length m.reach ≡ length g.parent
      → All (λ f. f < length m.reach) (sources i (allowed_pairs g oks 0 (length g.parent)))
  sources-Bound m i e =
      All-of_In (λ f. f < length m.reach) (sources i (allowed_pairs g oks 0 (length g.parent)))
        (λ f k. omega (
          arith,
          e,
          (In-allowed_pairs g oks 0 (length g.parent)
              (In-sources i (allowed_pairs g oks 0 (length g.parent)) f k)).0,
        ))

  Spreads-mark_all :
      (m : Marks) (i : ℕ) (rest : List ℕ) (q : m.queue ≡ i ∷ rest)
      → Spreads g oks goal m
      → Spreads g oks goal (
          mark_all
            (record m { queue = rest })
            (sources i (allowed_pairs g oks 0 (length g.parent))))
  Spreads-mark_all m i rest q s = record {
    size = d.size ∙ s.size;
    sound = λ v e. elim (d.origin v e) [
      | inl old ↦ s.sound v old
      | inr (k, w) ↦
          let p = In-allowed_pairs g oks 0 (length g.parent) (In-sources i pairs v k) in
          moves (omega (arith, p.0)) (In-allowed_targets g oks v i p.1) (s.sound i first)
    ];
    queued = λ v k. elim (d.came v k) [
      | inl w ↦ d.old v (s.queued v (subst (In v) (sym q) (there w)))
      | inr w ↦ d.added v w
    ];
    start = λ v h e. d.old v (s.start v h e);
    closed = λ u v p e. elim (d.origin v e) [
      | inr (k, w) ↦ inl w
      | inl old ↦ elim (s.closed u v p old) [
        | inr w ↦ inr (d.old u w)
        | inl w ↦ popped u v p (subst (In v) q w)
      ]
    ];
  }
    where
      pairs : List (ℕ × ℕ)
      pairs = allowed_pairs g oks 0 (length g.parent)

      d :
          Marked
            (record m { queue = rest })
            (sources i pairs)
            (mark_all (record m { queue = rest }) (sources i pairs))
      d = mark_all-Marked (record m { queue = rest }) (sources i pairs) (sources-Bound m i s.size)

      first : get_or m.reach i false ≡ true
      first = s.queued i (subst (In i) (sym q) (here refl))

      popped :
          (u v : ℕ)
          → In (u, v) pairs
          → In v (i ∷ rest)
          → In v (mark_all (record m { queue = rest }) (sources i pairs)).queue
            ⊎ (get_or (mark_all (record m { queue = rest }) (sources i pairs)).reach u false ≡ true)
      popped u v p (here e) =
          inr (d.added u (sources-In i pairs u (subst (λ x. In (u, x) pairs) e p)))
      popped u v p (there w) = inl (d.waits v w)

  abbrev Swept : ℕ → Marks → Type 0
  Swept fuel m =
      (reach : List Bool) × (spread fuel
          (reversed (length g.parent) (allowed_pairs g oks 0 (length g.parent))) m
        ≡ some reach)
      × Spreads g oks goal (record { reach = reach; queue = [] })

  -- The end of the loop: the flags are the answer.
  pub spread_lem :
      All (λ to. to < length g.parent) g.edge_to
      → (fuel : ℕ) (r : List Bool) (q : List ℕ)
      → Spreads g oks goal (record { reach = r; queue = q })
      → unmarked r + length q ≤ fuel
      → (reach : List Bool) × (spread fuel
            (reversed (length g.parent) (allowed_pairs g oks 0 (length g.parent)))
            (record { reach = r; queue = q })
          ≡ some reach)
        × Spreads g oks goal (record { reach = reach; queue = [] })
  unfolding spread
  spread_lem a zero r [] s h = (r, refl, s)
  spread_lem a zero r (i ∷ rest) s h = absurd (omega arith)
  spread_lem a (suc fuel) r [] s h = (r, refl, s)
  spread_lem a (suc fuel) r (i ∷ rest) s h =
      let pairs : List (ℕ × ℕ) = allowed_pairs g oks 0 (length g.parent) in
      let d =
        mark_all-Marked (record { reach = r; queue = rest }) (sources i pairs)
          (sources-Bound (record { reach = r; queue = rest }) i s.size) in
      let m : Marks = mark_all (record { reach = r; queue = rest }) (sources i pairs) in
      subst (λ fs. Swept fuel (mark_all (record { reach = r; queue = rest }) fs))
        (sym (into_lem (length g.parent) pairs (allowed_pairs-Inside a) i))
        (spread_lem a fuel m.reach m.queue
          (Spreads-mark_all (record { reach = r; queue = i ∷ rest }) i rest refl s)
          (omega (arith, h, d.work)))
