-- ===== src/Modelcheck/Explore/Counts.antt =====
-- How many nodes the search of modelcheck/explore.go adds.
use testkit.Prelude.{
  ℕ, ◌+◌, ◌≤◌, leb, ◌≡◌, refl, ap, ◌∙◌, inl, inr, List, [], ◌∷◌, ◌++◌, Option, none, some, true,
  false, Bool-cases, arith, length, length-append,
}
use testkit.Modelcheck.Index.Defs.{Lookup, hit, miss, fault, spin, lookup}
use testkit.Modelcheck.System.{
  State, System, ok, panic, >>=-eq-ok, ok-injective, index_fault, hangs,
}
use testkit.Modelcheck.Explore.Defs.{
  Core, Label, Succ, intern_new, append_node, add_node, enter_actor, count_label, add_edge, refuse,
  close_edges, merge_one, merge_from, merge, expand,
}
use testkit.Modelcheck.Explore.Cases.{
  Interned, known, fresh, Linked, Numbered, again, first, merge_one-Merged, close_edges-eq-ok,
  add_node-Added,
}
use testkit.Modelcheck.Explore.Search.{merge_one_state, merge_states, seed_one, seed}

-- Between two points of a merge: the nodes added are the new states, within the bound.
pub record Grows {ℓ} {S : Type ℓ} (bound : ℕ) (e e' : Core) (new : List S) : Type 0 where
  pub added : length e'.parent ≡ length e.parent + length new
  pub bounded : length e.parent ≤ bound → length e'.parent ≤ bound

Interned-parent : (e : Core) (l : Label) {r : ℕ × Core} → Interned e l r → (r.1).parent ≡ e.parent
unfolding intern_new
Interned-parent e l (known id q s) = ap (λ (x : ℕ × Core). (x.1).parent) s
Interned-parent e l (fresh q s) = ap (λ (x : ℕ × Core). (x.1).parent) s

Numbered-parent : (e : Core) (id : ℕ) {e' : Core} → Numbered e id e' → e'.parent ≡ e.parent
Numbered-parent e id (again q n s) = ap (λ (x : Core). x.parent) s
Numbered-parent e id (first q s) = ap (λ (x : Core). x.parent) s

enter_actor-parent :
    (e : Core) (prev : Option ℕ) (actor : ℕ) → (enter_actor e prev actor).parent ≡ e.parent
unfolding enter_actor
enter_actor-parent e none actor = refl
enter_actor-parent e (some p) actor = ground arith

module _ {ℓ} {S : Type ℓ} (bound : ℕ) where
  Grows-same : (e e' : Core) → e'.parent ≡ e.parent → Grows {S = S} bound e e' []
  Grows-same e e' h = record {
    added = omega (arith, ap length h);
    bounded = λ b. omega (arith, ap length h);
  }

  Grows-trans :
      (e₁ e₂ e₃ : Core) (xs ys : List S)
      → Grows bound e₁ e₂ xs
      → Grows bound e₂ e₃ ys
      → Grows bound e₁ e₃ (xs ++ ys)
  Grows-trans e₁ e₂ e₃ xs ys g h = record {
    added = omega (arith, g.added, h.added, length-append xs ys);
    bounded = λ b. h.bounded (g.bounded b);
  }

  Linked-Grows :
      (e : Core) (from id : ℕ) (sc : Succ S) {r : Core × List S}
      → Linked bound e from id sc r
      → Grows bound e r.0 r.1
  unfolding add_edge refuse append_node
  Linked-Grows e from id sc (Linked.known to q s) = rw s (Grows-same e _ refl)
  Linked-Grows e from id sc (Linked.refused q b s) = rw s (Grows-same e _ refl)
  Linked-Grows e from id sc (Linked.fresh q lt ix i s) = rw s (record {
    added = omega (arith, length-append e.parent (some from ∷ []));
    bounded = λ b. omega (arith, length-append e.parent (some from ∷ []));
  })

  pub merge_one-Grows :
      (e : Core) (from : ℕ) (prev : Option ℕ) (sc : Succ S) {r : Core × List S}
      → merge_one bound e from prev sc ≡ ok r
      → Grows bound e r.0 r.1
  unfolding count_label
  merge_one-Grows e from prev sc h =
      let m = merge_one-Merged bound e from prev sc h in
      let g = Linked-Grows _ from m.id sc m.link in
      let same : (m.numbered).parent ≡ e.parent =
        Numbered-parent m.interned m.id m.number
        ∙ Interned-parent m.entered _ m.intern
        ∙ ap (λ (x : Core). x.parent) m.enter
        ∙ enter_actor-parent e prev sc.actor in
      record {
        added = omega (arith, g.added, ap length same);
        bounded = λ b. g.bounded (omega (arith, ap length same));
      }

  pub merge_from-Grows :
      (e : Core) (from : ℕ) (prev : Option ℕ) (scs : List (Succ S)) {r : Core × List S}
      → merge_from bound e from prev scs ≡ ok r
      → Grows bound e r.0 r.1
  unfolding merge_from
  merge_from-Grows e from prev [] h = rw (← ok-injective h) (Grows-same e e refl)
  merge_from-Grows e from prev (sc ∷ scs) h =
      let (r₁, p, h₁) = >>=-eq-ok (merge_one bound e from prev sc) _ h in
      let (r₂, q, h₂) = >>=-eq-ok (merge_from bound r₁.0 from (some sc.actor) scs) _ h₁ in
      rw (← ok-injective h₂) (
        Grows-trans e r₁.0 r₂.0 r₁.1 r₂.1 (merge_one-Grows e from prev sc p)
          (merge_from-Grows r₁.0 from (some sc.actor) scs q))

  module _ (st : State S) (sys : System S) where
    pub merge_one_state-Grows :
        (e : Core) (i : ℕ) (s : S) {r : Core × List S}
        → merge_one_state st sys bound e i s ≡ ok r
        → Grows bound e r.0 r.1
    unfolding merge_one_state merge
    merge_one_state-Grows e i s h =
        let (r₁, p, h₁) =
          >>=-eq-ok
            (merge_from bound (record e { stamp = e.stamp + 1 }) i none (expand st 0 sys.actors s))
            _ h in
        let (e₂, q, h₂) = >>=-eq-ok (close_edges r₁.0) _ h₁ in
        let g =
          merge_from-Grows (record e { stamp = e.stamp + 1 }) i none (expand st 0 sys.actors s) p in
        let same : e₂.parent ≡ (r₁.0).parent =
          ap (λ (x : Core). x.parent) (close_edges-eq-ok r₁.0 q) in
        rw (← ok-injective h₂) (record {
          added = omega (arith, g.added, ap length same);
          bounded = λ b. omega (arith, g.bounded b, ap length same);
        })

    pub merge_states-Grows :
        (e : Core) (i : ℕ) (ss : List S) {r : Core × List S}
        → merge_states st sys bound e i ss ≡ ok r
        → Grows bound e r.0 r.1
    unfolding merge_states
    merge_states-Grows e i [] h = rw (← ok-injective h) (Grows-same e e refl)
    merge_states-Grows e i (s ∷ ss) h =
        let (r₁, p, h₁) = >>=-eq-ok (merge_one_state st sys bound e i s) _ h in
        let (r₂, q, h₂) = >>=-eq-ok (merge_states st sys bound r₁.0 (i + 1) ss) _ h₁ in
        rw (← ok-injective h₂) (
          Grows-trans e r₁.0 r₂.0 r₁.1 r₂.1 (merge_one_state-Grows e i s p)
            (merge_states-Grows r₁.0 (i + 1) ss q))

    pub seed_one-Grows :
        (e : Core) (k : ℕ) (s : S) {r : Core × List S}
        → seed_one st sys bound e k s ≡ ok r
        → Grows bound e r.0 r.1
    unfolding seed_one
    seed_one-Grows e k s {r} h =
        at (lookup e.index (st.hash_key (st.key (st.clone s))) (st.key (st.clone s)) e.hash) refl
      where
        fresh_node :
            leb bound (length e.parent) ≡ false
            → (n : ℕ × Core)
            → add_node e none none 0 (st.hash_key (st.key (st.clone s))) (st.key (st.clone s))
              ≡ ok n
            → (record (n.1) { roots = (n.1).roots ++ k ∷ [] }, st.clone s ∷ []) ≡ r
            → Grows bound e r.0 r.1
        fresh_node room n q p =
            let a = add_node-Added e _ _ _ _ _ q in
            let same : (n.1).parent ≡ e.parent ++ none ∷ [] =
              ap (λ (x : ℕ × Core). (x.1).parent) a.result ∙ unfold append_node in refl in
            rw (← p) (record {
              added = omega (arith, ap length same, length-append e.parent (none ∷ []));
              bounded = λ b. ground (arith, ap length same, length-append e.parent (none ∷ []));
            })

        at :
            (l : Lookup)
            → lookup e.index (st.hash_key (st.key (st.clone s))) (st.key (st.clone s)) e.hash ≡ l
            → Grows bound e r.0 r.1
        at (hit i) q = let p : (e, []) ≡ r = ground arith in rw (← p) (Grows-same e e refl)
        at fault q = let bad : panic index_fault ≡ ok r = ground arith in cc
        at spin q = let bad : panic hangs ≡ ok r = ground arith in cc
        at miss q = elim (Bool-cases (leb bound (length e.parent))) [
          | inl full ↦
              let p : (record e { truncated = true }, []) ≡ r = ground arith in
              rw (← p) (Grows-same e _ refl)
          | inr room ↦
              let (n, a, h₁) =
                >>=-eq-ok
                  (add_node e none none 0 (st.hash_key (st.key (st.clone s))) (st.key (st.clone s)))
                  (λ n. ok (record (n.1) { roots = (n.1).roots ++ k ∷ [] }, st.clone s ∷ []))
                  (ground arith) in
              fresh_node room n a (ok-injective h₁)
        ]

    pub seed-Grows :
        (e : Core) (k : ℕ) (ss : List S) {r : Core × List S}
        → seed st sys bound e k ss ≡ ok r
        → Grows bound e r.0 r.1
    unfolding seed
    seed-Grows e k [] h = rw (← ok-injective h) (Grows-same e e refl)
    seed-Grows e k (s ∷ ss) h =
        let (r₁, p, h₁) = >>=-eq-ok (seed_one st sys bound e k s) _ h in
        let (r₂, q, h₂) = >>=-eq-ok (seed st sys bound r₁.0 (k + 1) ss) _ h₁ in
        rw (← ok-injective h₂) (
          Grows-trans e r₁.0 r₂.0 r₁.1 r₂.1 (seed_one-Grows e k s p) (seed-Grows r₁.0 (k + 1) ss q))
