-- ===== src/Modelcheck/Explore/Workers.antt =====
-- Options.Workers of modelcheck/explore.go: the level loop, and what the number of workers leaves
-- unchanged.
use testkit.Prelude.{
  ℕ, zero, suc, ◌+◌, ◌-◌, ◌*◌, ◌≤◌, ltb, leb, ◌≡◌, refl, sym, ap, ◌∙◌, inl, inr, List, [], ◌∷◌,
  ◌++◌, Option, Bool, ◌&&◌, Bool-cases, arith, length, take, drop, length-append,
}
use mathlib.Core.Path.{fun_ext}
use testkit.Modelcheck.System.{State, System, Panic, Run, ok, panic, ◌>>=◌}
use testkit.Modelcheck.Explore.Defs.{Core, empty_core}
use testkit.Modelcheck.Explore.Search.{
  Verdicts, evaluate, evaluate_new, expand_chunk, expand_level, merge_states, search, seed, run,
  chunk_size,
}
use testkit.Modelcheck.Explore.Counts.{Grows, merge_states-Grows}
use testkit.Modelcheck.Explore.Chunks.{
  Run-cases, take-append-drop, length-drop-le, evaluate-append, evaluate-nil, then_merge,
  merge_states-append,
}

module _ {ℓ} {S : Type ℓ} (st : State S) (sys : System S) (bound : ℕ) where
  -- A chunk, and then another.
  abbrev then_chunk : ℕ → List S → Core × Verdicts × List S → Run (Core × Verdicts × List S)
  then_chunk i ys r = expand_chunk st sys bound r.0 r.1 i ys >>= λ q. ok (q.0, q.1, r.2 ++ q.2)

  evaluate_both :
      (e : Core) (v : Verdicts) (r q : Core × List S)
      → Grows bound e r.0 r.1
      → Grows bound r.0 q.0 q.1
      → (evaluate_new sys v (q.0, r.1 ++ q.1)).1 ≡ (evaluate_new sys (evaluate_new sys v r).1 q).1
  unfolding evaluate_new
  evaluate_both e v r q g h =
      let b : length (q.0).parent - length (r.1 ++ q.1) ≡ length (r.0).parent - length r.1 =
        omega (arith, g.added, h.added, length-append r.1 q.1) in
      let c : length (r.0).parent - length r.1 + length r.1 ≡ length (q.0).parent - length q.1 =
        omega (arith, g.added, h.added) in
      ap (λ k. evaluate sys (r.1 ++ q.1) k v) b
      ∙ evaluate-append sys r.1 q.1 (length (r.0).parent - length r.1) v
      ∙ ap (λ k. evaluate sys q.1 k (evaluate sys r.1 (length (r.0).parent - length r.1) v)) c

  expand_chunk-append :
      (e : Core) (v : Verdicts) (i : ℕ) (xs ys : List S)
      → expand_chunk st sys bound e v i (xs ++ ys)
        ≡ expand_chunk st sys bound e v i xs >>= then_chunk (i + length xs) ys
  unfolding expand_chunk evaluate_new
  expand_chunk-append e v i xs ys =
      ap (λ (m : Run (Core × List S)). m >>= λ r. ok (evaluate_new sys v r))
        (merge_states-append st sys bound e i xs ys)
      ∙ elim (Run-cases (merge_states st sys bound e i xs)) [
        | inr (p, x) ↦ rw x refl
        | inl (r, x) ↦ elim (Run-cases (merge_states st sys bound r.0 (i + length xs) ys)) [
          | inr (p, y) ↦ rw x (both r p y)
          | inl (q, y) ↦ rw x (
              joined r q y (
                evaluate_both e v r q (merge_states-Grows bound st sys e i xs x)
                  (merge_states-Grows bound st sys r.0 (i + length xs) ys y)))
        ]
      ]
    where
      finish : Core × List S → Run (Core × Verdicts × List S)
      finish r = ok (evaluate_new sys v r)

      both :
          (r : Core × List S) (p : Panic)
          → merge_states st sys bound r.0 (i + length xs) ys ≡ panic p
          → (then_merge st sys bound (i + length xs) ys r >>= finish) ≡ (
              merge_states st sys bound (evaluate_new sys v r).0 (i + length xs) ys
              >>= (λ q. ok (evaluate_new sys (evaluate_new sys v r).1 q))
              >>= λ q. ok (q.0, q.1, r.1 ++ q.2))
      both r p y = unfold evaluate_new in rw y refl

      joined :
          (r q : Core × List S)
          → merge_states st sys bound r.0 (i + length xs) ys ≡ ok q
          → (evaluate_new sys v (q.0, r.1 ++ q.1)).1
            ≡ (evaluate_new sys (evaluate_new sys v r).1 q).1
          → (then_merge st sys bound (i + length xs) ys r >>= finish) ≡ (
              merge_states st sys bound (evaluate_new sys v r).0 (i + length xs) ys
              >>= (λ q. ok (evaluate_new sys (evaluate_new sys v r).1 q))
              >>= λ q. ok (q.0, q.1, r.1 ++ q.2))
      joined r q y e' = unfold evaluate_new in rw y (ap (λ w. ok (q.0, w, r.1 ++ q.1)) e')

  expand_chunk-nil :
      (e : Core) (v : Verdicts) (i : ℕ) → expand_chunk st sys bound e v i [] ≡ ok (e, v, [])
  unfolding expand_chunk merge_states evaluate_new
  expand_chunk-nil e v i = ap (λ w. ok (e, w, [])) (evaluate-nil sys (length e.parent - 0) v)

  -- The chunks of a level come to one.
  pub expand_level-eq-expand_chunk :
      (fuel chunk : ℕ) (e : Core) (v : Verdicts) (i : ℕ) (ss : List S)
      → 1 ≤ chunk
      → length ss ≤ fuel
      → expand_level st sys bound fuel chunk e v i ss ≡ expand_chunk st sys bound e v i ss
  unfolding expand_level
  expand_level-eq-expand_chunk zero chunk e v i [] c h = sym (expand_chunk-nil e v i)
  expand_level-eq-expand_chunk zero chunk e v i (s ∷ ss) c h = absurd (omega arith)
  expand_level-eq-expand_chunk (suc fuel) chunk e v i [] c h = sym (expand_chunk-nil e v i)
  expand_level-eq-expand_chunk (suc fuel) zero e v i (s ∷ ss) c h = absurd (omega arith)
  expand_level-eq-expand_chunk (suc fuel) (suc k) e v i (s ∷ ss) c h =
      ap
        (λ (f : Core × Verdicts × List S → Run (Core × Verdicts × List S)).
          expand_chunk st sys bound e v i (s ∷ take k ss) >>= f)
        (fun_ext λ r.
          ap (λ (m : Run (Core × Verdicts × List S)). m >>= λ q. ok (q.0, q.1, r.2 ++ q.2))
            (expand_level-eq-expand_chunk fuel (suc k) r.0 r.1 (i + length (s ∷ take k ss))
              (drop k ss) c (omega (arith, length-drop-le k ss))))
      ∙ sym (expand_chunk-append e v i (s ∷ take k ss) (drop k ss))
      ∙ ap (λ l. expand_chunk st sys bound e v i (s ∷ l)) (take-append-drop k ss)

  search_chunk_free :
      (c d : ℕ)
      → 1 ≤ c
      → 1 ≤ d
      → (fuel max_depth depth : ℕ) (e : Core) (v : Verdicts) (start : ℕ) (ss : List S)
      → search st sys bound fuel c max_depth depth e v start ss
        ≡ search st sys bound fuel d max_depth depth e v start ss
  unfolding search
  search_chunk_free c d hc hd zero max_depth depth e v start ss = refl
  search_chunk_free c d hc hd (suc fuel) max_depth depth e v start [] = refl
  search_chunk_free c d hc hd (suc fuel) max_depth depth e v start (s ∷ ss) =
      elim (Bool-cases (ltb 0 max_depth && leb max_depth depth)) [
        | inl b ↦ rw b refl
        | inr u ↦ rw u (
            ap
              (λ (m : Run (Core × Verdicts × List S)). m >>= λ r.
                search st sys bound fuel c max_depth (depth + 1) r.0 r.1 (start + length (s ∷ ss))
                  r.2)
              (expand_level-eq-expand_chunk (length (s ∷ ss)) c e v start (s ∷ ss) hc (omega arith)
                ∙ sym (
                    expand_level-eq-expand_chunk (length (s ∷ ss)) d e v start (s ∷ ss) hd
                      (omega arith)))
            ∙ ap
                (λ (f : Core × Verdicts × List S → Run (Option (Core × Verdicts))).
                  expand_level st sys bound (length (s ∷ ss)) d e v start (s ∷ ss) >>= f)
                (fun_ext λ r.
                  search_chunk_free c d hc hd fuel max_depth (depth + 1) r.0 r.1
                    (start + length (s ∷ ss)) r.2))
      ]

  -- The graph, the coverage counts, the truncation, the goals and the recorded violations of a run,
  -- and its panics, are the same for any number of workers and any number of nodes per worker.
  pub run_workers_free :
      (exact : Bool) (workers workers' nodes_per_worker nodes_per_worker' max_depth : ℕ)
      → run st sys bound exact (chunk_size workers nodes_per_worker) max_depth
        ≡ run st sys bound exact (chunk_size workers' nodes_per_worker') max_depth
  unfolding run chunk_size
  run_workers_free exact w w' n n' max_depth =
      ap
        (λ (f : Core × List S → Run (Option (Core × Verdicts))).
          seed st sys bound (empty_core exact) 0 sys.initial >>= f)
        (fun_ext λ r.
          search_chunk_free (Prim.Native.Nat.max 1 (w * n)) (Prim.Native.Nat.max 1 (w' * n'))
            (omega arith) (omega arith) (bound + 2) max_depth 0 r.0 _ 0 r.1)
