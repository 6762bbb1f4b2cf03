-- ===== src/Modelcheck/Explore/Ends.antt =====
-- The search of modelcheck/explore.go ends, and stays within MaxStates.
use testkit.Prelude.{
  ℕ, zero, suc, ◌+◌, ◌-◌, ◌*◌, ◌≤◌, ◌<◌, ltb, leb, ◌≡◌, refl, sym, ap, ◌∙◌, ◌≢◌, ◌⊎◌, inl, inr,
  List, [], ◌∷◌, ◌++◌, Option, none, some, Bool, true, false, ◌&&◌, if◌then◌else◌, Bool-cases,
  arith, length,
}
use testkit.Modelcheck.System.{State, System, ok, panic, hangs, Safe-ne, >>=-eq-ok, ok-injective}
use testkit.Modelcheck.Explore.Defs.{Core, empty_core, close_edges}
use testkit.Modelcheck.Explore.Cases.{close_edges-eq-ok}
use testkit.Modelcheck.Explore.Search.{
  Verdicts, evaluate, evaluate_new, expand_chunk, expand_level, merge_states, cut_off, search, seed,
  run, no_verdicts,
}
use testkit.Modelcheck.Explore.Counts.{Grows, merge_states-Grows, seed-Grows}
use testkit.Modelcheck.Explore.Sound.{Found, run-Safe}
use testkit.Modelcheck.Explore.Workers.{expand_level-eq-expand_chunk}

module _ {ℓ} {S : Type ℓ} (st : State S) (sys : System S) (bound : ℕ) where
  -- A level that is expanded has merged its states, in order.
  pub expand_level-eq-ok :
      (chunk : ℕ) (e : Core) (v : Verdicts) (i : ℕ) (ss : List S) {r : Core × Verdicts × List S}
      → 1 ≤ chunk
      → expand_level st sys bound (length ss) chunk e v i ss ≡ ok r
      → (merge_states st sys bound e i ss ≡ ok (r.0, r.2))
        × (r.1 ≡ evaluate sys r.2 (length (r.0).parent - length r.2) v)
  expand_level-eq-ok chunk e v i ss {r} c h =
      let h' : expand_chunk st sys bound e v i ss ≡ ok r =
        sym (expand_level-eq-expand_chunk st sys bound (length ss) chunk e v i ss c (omega arith))
        ∙ h in
      inverted h'
    where
      inverted :
          expand_chunk st sys bound e v i ss ≡ ok r
          → (merge_states st sys bound e i ss ≡ ok (r.0, r.2))
            × (r.1 ≡ evaluate sys r.2 (length (r.0).parent - length r.2) v)
      inverted h' =
          unfold expand_chunk evaluate_new in
          (let (q, m, p) =
              >>=-eq-ok (merge_states st sys bound e i ss) (λ q. ok (evaluate_new sys v q)) h' in
            let s : evaluate_new sys v q ≡ r = ok-injective p in
            (
              m ∙ ap (λ (x : Core × Verdicts × List S). ok (x.0, x.2)) s,
              sym (ap (λ (x : Core × Verdicts × List S). x.1) s)
                  ∙ ap
                      (λ (x : Core × Verdicts × List S).
                        evaluate sys x.2 (length (x.0).parent - length x.2) v)
                      s,
            ))

  -- Enough fuel: one round for each node that may still be found, and one for the last frontier.
  abbrev Fueled : ℕ → Core → List S → Type 0
  Fueled fuel e [] = 1 ≤ fuel
  Fueled fuel e (s ∷ ss) = bound + 1 < length e.parent + fuel

  Fueled-next :
      (fuel : ℕ) (e e' : Core) (s : S) (ss new : List S)
      → length e.parent ≤ bound
      → Grows bound e e' new
      → Fueled (suc fuel) e (s ∷ ss)
      → Fueled fuel e' new
  Fueled-next fuel e e' s ss [] b g h = omega arith
  Fueled-next fuel e e' s ss (n ∷ ns) b g h = omega (arith, g.added)

  search-ne-none :
      (chunk max_depth : ℕ)
      → 1 ≤ chunk
      → (fuel depth : ℕ) (e : Core) (v : Verdicts) (start : ℕ) (ss : List S)
      → length e.parent ≤ bound
      → Fueled fuel e ss
      → search st sys bound fuel chunk max_depth depth e v start ss ≢ ok none
  unfolding search
  search-ne-none chunk max_depth c zero depth e v start [] b f h = omega arith
  search-ne-none chunk max_depth c zero depth e v start (s ∷ ss) b f h = omega arith
  search-ne-none chunk max_depth c (suc fuel) depth e v start [] b f h = cc
  search-ne-none chunk max_depth c (suc fuel) depth e v start (s ∷ ss) b f h =
      elim (Bool-cases (ltb 0 max_depth && leb max_depth depth)) [
        | inl d ↦
            let (x, p, q) =
              >>=-eq-ok (cut_off e start (s ∷ ss)) (λ e'. ok (some (e', v))) (rw d at h) in
            cc
        | inr u ↦
            let (r, p, q) =
              >>=-eq-ok (expand_level st sys bound (length (s ∷ ss)) chunk e v start (s ∷ ss))
                (λ r.
                  search st sys bound fuel chunk max_depth (depth + 1) r.0 r.1
                    (start + length (s ∷ ss)) r.2)
                (rw u at h) in
            let g =
              merge_states-Grows bound st sys e start (s ∷ ss)
                (expand_level-eq-ok chunk e v start (s ∷ ss) c p).0 in
            search-ne-none chunk max_depth c fuel (depth + 1) r.0 r.1 (start + length (s ∷ ss)) r.2
              (g.bounded b) (Fueled-next fuel e r.0 s ss r.2 b g f) q
      ]

  cut_off-parent :
      (e : Core) (i : ℕ) (ss : List S) {e' : Core} → cut_off e i ss ≡ ok e' → e'.parent ≡ e.parent
  unfolding cut_off
  cut_off-parent e i [] h = sym (ap (λ (x : Core). x.parent) (ok-injective h))
  cut_off-parent e i (s ∷ ss) h =
      let (e₁, p, q) =
        >>=-eq-ok (close_edges (record e { unknown = testkit.Prelude.set e.unknown i true }))
          (λ e'. cut_off e' (i + 1) ss) h in
      cut_off-parent e₁ (i + 1) ss q ∙ ap (λ (x : Core). x.parent) (close_edges-eq-ok _ p)

  search-bounded :
      (chunk max_depth : ℕ)
      → 1 ≤ chunk
      → (fuel depth : ℕ) (e : Core) (v : Verdicts) (start : ℕ) (ss : List S) {r : Core × Verdicts}
      → length e.parent ≤ bound
      → search st sys bound fuel chunk max_depth depth e v start ss ≡ ok (some r)
      → length (r.0).parent ≤ bound
  unfolding search
  search-bounded chunk max_depth c zero depth e v start ss b h = cc
  search-bounded chunk max_depth c (suc fuel) depth e v start [] {r} b h =
      let s : (e, v) ≡ r = cc in rw (← s) b
  search-bounded chunk max_depth c (suc fuel) depth e v start (s ∷ ss) {r} b h =
      elim (Bool-cases (ltb 0 max_depth && leb max_depth depth)) [
        | inl d ↦
            let (x, p, q) =
              >>=-eq-ok (cut_off e start (s ∷ ss)) (λ e'. ok (some (e', v))) (rw d at h) in
            let t : (x, v) ≡ r = cc in
            rw (← t) (omega (arith, ap length (cut_off-parent e start (s ∷ ss) p)))
        | inr u ↦
            let (q, p, k) =
              >>=-eq-ok (expand_level st sys bound (length (s ∷ ss)) chunk e v start (s ∷ ss))
                (λ r.
                  search st sys bound fuel chunk max_depth (depth + 1) r.0 r.1
                    (start + length (s ∷ ss)) r.2)
                (rw u at h) in
            let g =
              merge_states-Grows bound st sys e start (s ∷ ss)
                (expand_level-eq-ok chunk e v start (s ∷ ss) c p).0 in
            search-bounded chunk max_depth c fuel (depth + 1) q.0 q.1 (start + length (s ∷ ss)) q.2
              (g.bounded b) k
      ]

  -- A search of max_states + 2 levels has run out of levels before, and no lookup or insert on its way
  -- goes on for ever: it ends in a result or a panic. The graph of a result has at most MaxStates nodes.
  pub run_ends :
      (exact : Bool) (chunk max_depth : ℕ)
      → 1 ≤ chunk
      → (run st sys bound exact chunk max_depth ≢ ok none)
        × (run st sys bound exact chunk max_depth ≢ panic hangs)
        × ((r : Core × Verdicts)
            → run st sys bound exact chunk max_depth ≡ ok (some r)
            → length (r.0).parent ≤ bound)
  unfolding run
  run_ends exact chunk max_depth c = (
    λ h.
        let (q, p, k) = >>=-eq-ok (seed st sys bound (empty_core exact) 0 sys.initial) _ h in
        search-ne-none chunk max_depth c (bound + 2) 0 q.0 (evaluate sys q.1 0 (no_verdicts sys)) 0
          q.1 (within q p) (fueled q.0 q.1) k,
    Safe-ne (run st sys bound exact chunk max_depth) (Found st sys bound)
        (run-Safe st sys bound exact chunk max_depth),
    λ r h.
        let (q, p, k) = >>=-eq-ok (seed st sys bound (empty_core exact) 0 sys.initial) _ h in
        search-bounded chunk max_depth c (bound + 2) 0 q.0 (evaluate sys q.1 0 (no_verdicts sys)) 0
          q.1 (within q p) k,
  )
    where
      within :
          (q : Core × List S)
          → seed st sys bound (empty_core exact) 0 sys.initial ≡ ok q
          → length (q.0).parent ≤ bound
      within q p =
          (seed-Grows bound st sys (empty_core exact) 0 sys.initial p).bounded
            (unfold empty_core in omega arith)

      fueled : (e : Core) (ss : List S) → Fueled (bound + 2) e ss
      fueled e [] = omega arith
      fueled e (s ∷ ss) = omega arith
