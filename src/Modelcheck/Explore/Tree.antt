-- ===== src/Modelcheck/Explore/Tree.antt =====
-- The graph of a whole search of modelcheck/explore.go is a tree by its parents.
use testkit.Prelude.{
  ℕ, zero, suc, ◌+◌, ◌≤◌, ◌<◌, ltb, leb, ◌&&◌, ◌≡◌, refl, ap, subst, ◌∙◌, inl, inr, Bool, List, [],
  ◌∷◌, ◌++◌, none, some, true, Bool-cases, arith, length, set,
}
use testkit.Modelcheck.Index.Defs.{Lookup, hit, miss, fault, spin, lookup}
use testkit.Modelcheck.System.{
  State, System, ok, panic, >>=-eq-ok, ok-injective, index_fault, hangs,
}
use testkit.Modelcheck.Explore.Defs.{
  Core, empty_core, append_node, add_node, close_edges, merge_from, merge, expand,
}
use testkit.Modelcheck.Explore.Cases.{close_edges-eq-ok, add_node-Added}
use testkit.Modelcheck.Explore.Search.{
  Verdicts, merge_one_state, merge_states, seed_one, seed, cut_off, search, run, expand_level,
  evaluate, no_verdicts,
}
use testkit.Modelcheck.Explore.Counts.{merge_one_state-Grows, merge_states-Grows, seed-Grows}
use testkit.Modelcheck.Explore.Ends.{expand_level-eq-ok}
use testkit.Modelcheck.Explore.Parents.{
  Ordered, Arranged, Arranged-SameTree, Arranged-append, merge_from-Arranged,
}

module _ {ℓ} {S : Type ℓ} (st : State S) (sys : System S) (bound : ℕ) where
  merge_one_state-Arranged :
      (e : Core) (i : ℕ) (s : S) {r : Core × List S}
      → i < length e.parent
      → merge_one_state st sys bound e i s ≡ ok r
      → Arranged e
      → Arranged r.0
  unfolding merge_one_state merge
  merge_one_state-Arranged e i s {r} f h a =
      let (r₁, p, h₁) =
        >>=-eq-ok
          (merge_from bound (record e { stamp = e.stamp + 1 }) i none (expand st 0 sys.actors s)) _
          h in
      let (e₂, q, h₂) = >>=-eq-ok (close_edges r₁.0) _ h₁ in
      let a₁ =
        merge_from-Arranged bound (record e { stamp = e.stamp + 1 }) i none
          (expand st 0 sys.actors s) f p (Arranged-SameTree e _ (refl, refl) a) in
      let c = close_edges-eq-ok r₁.0 q in
      let a₂ : Arranged e₂ =
        Arranged-SameTree r₁.0 e₂ (ap (λ (x : Core). x.parent) c, ap (λ (x : Core). x.label) c)
          a₁ in
      subst Arranged (ap (λ (x : Core × List S). x.0) (ok-injective h₂)) a₂

  merge_states-Arranged :
      (e : Core) (i : ℕ) (ss : List S) {r : Core × List S}
      → i + length ss ≤ length e.parent
      → merge_states st sys bound e i ss ≡ ok r
      → Arranged e
      → Arranged r.0
  unfolding merge_states
  merge_states-Arranged e i [] f h a =
      subst (λ (x : Core × List S). Arranged x.0) (ok-injective h) a
  merge_states-Arranged e i (s ∷ ss) f h a =
      let (r₁, p, h₁) = >>=-eq-ok (merge_one_state st sys bound e i s) _ h in
      let (r₂, q, h₂) = >>=-eq-ok (merge_states st sys bound r₁.0 (i + 1) ss) _ h₁ in
      let g = merge_one_state-Grows bound st sys e i s p in
      let a₁ = merge_one_state-Arranged e i s (omega (arith, f)) p a in
      let a₂ = merge_states-Arranged r₁.0 (i + 1) ss (omega (arith, f, g.added)) q a₁ in
      subst Arranged (ap (λ (x : Core × List S). x.0) (ok-injective h₂)) a₂

  seed_one-Arranged :
      (e : Core) (k : ℕ) (s : S) {r : Core × List S}
      → seed_one st sys bound e k s ≡ ok r
      → Arranged e
      → Arranged r.0
  unfolding seed_one
  seed_one-Arranged e k s {r} h a =
      at (lookup e.index (st.hash_key (st.key (st.clone s))) (st.key (st.clone s)) e.hash) refl
    where
      fresh_node :
          (n : ℕ × Core)
          → add_node e none none 0 (st.hash_key (st.key (st.clone s))) (st.key (st.clone s)) ≡ ok n
          → (record (n.1) { roots = (n.1).roots ++ k ∷ [] }, st.clone s ∷ []) ≡ r
          → Arranged r.0
      fresh_node n q p =
          let b = add_node-Added e _ _ _ _ _ q in
          rw (← p) (
            Arranged-append e _ none none
              (ap (λ (x : ℕ × Core). (x.1).parent) b.result ∙ unfold append_node in refl)
              (ap (λ (x : ℕ × Core). (x.1).label) b.result ∙ unfold append_node in refl) refl a)

      at :
          (l : Lookup)
          → lookup e.index (st.hash_key (st.key (st.clone s))) (st.key (st.clone s)) e.hash ≡ l
          → Arranged r.0
      at (hit i) q = let p : (e, []) ≡ r = ground arith in rw (← p) a
      at fault q = let bad : panic index_fault ≡ ok r = ground arith in cc
      at spin q = let bad : panic hangs ≡ ok r = ground arith in cc
      at miss q = elim (Bool-cases (leb bound (length e.parent))) [
        | inl full ↦
            let p : (record e { truncated = true }, []) ≡ r = ground arith in
            rw (← p) (Arranged-SameTree e _ (refl, refl) a)
        | inr room ↦
            let (n, c, h₁) =
              >>=-eq-ok
                (add_node e none none 0 (st.hash_key (st.key (st.clone s))) (st.key (st.clone s)))
                (λ n. ok (record (n.1) { roots = (n.1).roots ++ k ∷ [] }, st.clone s ∷ []))
                (ground arith) in
            fresh_node n c (ok-injective h₁)
      ]

  seed-Arranged :
      (e : Core) (k : ℕ) (ss : List S) {r : Core × List S}
      → seed st sys bound e k ss ≡ ok r
      → Arranged e
      → Arranged r.0
  unfolding seed
  seed-Arranged e k [] h a = subst (λ (x : Core × List S). Arranged x.0) (ok-injective h) a
  seed-Arranged e k (s ∷ ss) h a =
      let (r₁, p, h₁) = >>=-eq-ok (seed_one st sys bound e k s) _ h in
      let (r₂, q, h₂) = >>=-eq-ok (seed st sys bound r₁.0 (k + 1) ss) _ h₁ in
      let a₂ = seed-Arranged r₁.0 (k + 1) ss q (seed_one-Arranged e k s p a) in
      subst Arranged (ap (λ (x : Core × List S). x.0) (ok-injective h₂)) a₂

  cut_off-Arranged :
      (e : Core) (i : ℕ) (ss : List S) {e' : Core}
      → cut_off e i ss ≡ ok e'
      → Arranged e
      → Arranged e'
  unfolding cut_off
  cut_off-Arranged e i [] h a =
      subst Arranged (ok-injective h) (Arranged-SameTree e _ (refl, refl) a)
  cut_off-Arranged e i (s ∷ ss) h a =
      let (e₁, p, q) =
        >>=-eq-ok (close_edges (record e { unknown = set e.unknown i true }))
          (λ e'. cut_off e' (i + 1) ss) h in
      let c = close_edges-eq-ok (record e { unknown = set e.unknown i true }) p in
      cut_off-Arranged e₁ (i + 1) ss q
        (Arranged-SameTree e e₁ (ap (λ (x : Core). x.parent) c, ap (λ (x : Core). x.label) c) a)

  search-Arranged :
      (chunk max_depth : ℕ)
      → 1 ≤ chunk
      → (fuel depth : ℕ) (e : Core) (v : Verdicts) (start : ℕ) (ss : List S) {r : Core × Verdicts}
      → start + length ss ≡ length e.parent
      → Arranged e
      → search st sys bound fuel chunk max_depth depth e v start ss ≡ ok (some r)
      → Arranged r.0
  unfolding search
  search-Arranged chunk max_depth c zero depth e v start ss b a h = cc
  search-Arranged chunk max_depth c (suc fuel) depth e v start [] {r} b a h =
      let s : (e, v) ≡ r = cc in rw (← s) a
  search-Arranged chunk max_depth c (suc fuel) depth e v start (s ∷ ss) {r} b a h =
      elim (Bool-cases (ltb 0 max_depth && leb max_depth depth)) [
        | inl d ↦
            let (x, p, q) =
              >>=-eq-ok (cut_off e start (s ∷ ss)) (λ e'. ok (some (e', v))) (rw d at h) in
            let t : (x, v) ≡ r = cc in rw (← t) (cut_off-Arranged e start (s ∷ ss) p a)
        | inr u ↦
            let (q, p, k) =
              >>=-eq-ok (expand_level st sys bound (length (s ∷ ss)) chunk e v start (s ∷ ss))
                (λ r.
                  search st sys bound fuel chunk max_depth (depth + 1) r.0 r.1
                    (start + length (s ∷ ss)) r.2)
                (rw u at h) in
            let m = (expand_level-eq-ok st sys bound chunk e v start (s ∷ ss) c p).0 in
            let g = merge_states-Grows bound st sys e start (s ∷ ss) m in
            search-Arranged chunk max_depth c fuel (depth + 1) q.0 q.1 (start + length (s ∷ ss)) q.2
              (omega (arith, g.added, b))
              (merge_states-Arranged e start (s ∷ ss) (omega (arith, b)) m a) k
      ]

  pub run-Ordered :
      (exact : Bool) (chunk max_depth : ℕ) {r : Core × Verdicts}
      → 1 ≤ chunk
      → run st sys bound exact chunk max_depth ≡ ok (some r)
      → Ordered r.0
  unfolding run
  run-Ordered exact chunk max_depth c h =
      let (q, p, k) = >>=-eq-ok (seed st sys bound (empty_core exact) 0 sys.initial) _ h in
      let g = seed-Grows bound st sys (empty_core exact) 0 sys.initial p in
      (search-Arranged chunk max_depth c (bound + 2) 0 q.0 (evaluate sys q.1 0 (no_verdicts sys)) 0
        q.1 (counted q.0 q.1 g.added) (seed-Arranged (empty_core exact) 0 sys.initial p empty)
        k).ordered
    where
      empty : Arranged (empty_core exact)
      empty =
          unfold empty_core in
          record {
            ordered = record { earlier = λ i p h. cc; unlabelled = λ i h. cc };
            aligned = refl;
          }

      counted :
          (e : Core) (ss : List S)
          → length e.parent ≡ length (empty_core exact).parent + length ss
          → 0 + length ss ≡ length e.parent
      counted e ss h = unfold empty_core in omega (arith, h)
