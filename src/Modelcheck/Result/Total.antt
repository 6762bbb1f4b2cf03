-- ===== src/Modelcheck/Result/Total.antt =====
-- Explore (modelcheck/explore.go) ends, and its result does not depend on the workers.
use testkit.Prelude.{
  ℕ, suc, ◌<◌, ◌==◌, lt-length_of_get_elem?, List, [], ◌∷◌, Option, none, some, Bool, true, false,
  ◌≤◌, subst, String, if◌then◌else◌, length, get_elem?, ◌≡◌, refl, sym, ap, ◌≢◌, inl, inr,
  Option-cases, arith,
}
use testkit.Modelcheck.System.{
  State, Invariant, Recoverable, System, Options, Step, Run, ok, panic, hangs, ◌>>=◌, Safe,
  >>=-Safe, Safe-ne,
}
use testkit.Modelcheck.Explore.Defs.{Core}
use testkit.Modelcheck.Explore.Search.{InvViolation, Verdicts, run, chunk_size}
use testkit.Modelcheck.Explore.Parents.{Ordered}
use testkit.Modelcheck.Explore.Tree.{run-Ordered}
use testkit.Modelcheck.Explore.Ends.{run_ends}
use testkit.Modelcheck.Explore.Sound.{Sound, Found, run-Safe}
use testkit.Modelcheck.Explore.Workers.{run_workers_free}
use testkit.Modelcheck.Trap.Defs.{allowed_labels, resolve_recoverables, find_trap}
use testkit.Modelcheck.Trap.Correct.{find_trap_lem}
use testkit.Modelcheck.Replay.Defs.{
  at_index, present, names_of, walk, trace, trace_of, state, state_of, first_state, steps, confirm,
}
use testkit.Modelcheck.Replay.Chain.{walk_lem}
use testkit.Modelcheck.Result.Halts.{
  Halts, at_index-Halts, covered-Halts, confirm-Halts, resolve-Halts, steps-Halts,
}
use testkit.Modelcheck.Result.{
  covered, on_some, is_some, inv_violation, inv_violations, exits, exits_of, trap_violation,
  trap_found, trap_violations, result_of, explore,
}

-- A run that goes on neither past its fuel nor for ever.
abbrev Ends {ℓ} : {A : Type ℓ} → Run (Option A) → Type 0
Ends m = Safe m (λ o. is_some o ≡ true)

module _ {ℓ κ} {A : Type ℓ} {B : Type κ} where
  >>=-Ends :
      (m : Run A) (f : A → Run (Option B))
      → Halts m
      → ((a : A) → m ≡ ok a → Ends (f a))
      → Ends (m >>= f)
  >>=-Ends m f s h = >>=-Safe m f (λ a. Unit) (λ o. is_some o ≡ true) s (λ a e u. h a e)

  on_some-Ends :
      (m : Run (Option A)) (f : A → Run (Option B))
      → Ends m
      → ((a : A) → m ≡ ok (some a) → Ends (f a))
      → Ends (m >>= on_some f)
  unfolding on_some is_some
  on_some-Ends (ok none) f g h = absurd cc
  on_some-Ends (ok (some a)) f g h = h a refl
  on_some-Ends (panic p) f g h = g

ok-Ends {ℓ} : {A : Type ℓ} (a : A) → Ends (ok (some a))
unfolding is_some
ok-Ends a = refl

module _ {ℓ} {S : Type ℓ} (st : State S) (sys : System S) (g : Core) (o : Ordered g)
    (w : Sound g) where
  walk-Ends : (i : ℕ) → Ends (walk (suc (length g.parent)) g.parent i)
  unfolding walk at_index present is_some
  walk-Ends i = elim (Option-cases (get_elem? g.parent i)) [
    | inl n ↦ rw (n, walk, at_index, present) (λ e. cc)
    | inr (x, s) ↦
        let h : i < length g.parent = lt-length_of_get_elem? g.parent i s in
        let (c, w, k) = walk_lem g.parent (suc (length g.parent)) i o.earlier (omega arith) h in
        subst Ends (sym w) refl
  ]

  trace_of-Ends : (c : List ℕ) → Ends (trace_of st sys g (some c))
  unfolding trace_of
  trace_of-Ends c = >>=-Ends (steps st sys g c) _ (steps-Halts st sys g c) (λ xs e. ok-Ends _)

  trace-Ends : (i : ℕ) → Ends (trace st sys g i)
  unfolding trace is_some
  trace-Ends i =
      >>=-Safe (walk (suc (length g.parent)) g.parent i) (trace_of st sys g) (λ c. is_some c ≡ true)
        (λ x. is_some x ≡ true) (walk-Ends i) (λ c e s. of c s)
    where
      of : (c : Option (List ℕ)) → is_some c ≡ true → Ends (trace_of st sys g c)
      of none e = absurd cc
      of (some c) e = trace_of-Ends c

  state_of-Ends : (c : List ℕ) → Ends (state_of st sys g (some c))
  unfolding state_of first_state
  state_of-Ends c =
      >>=-Ends (steps st sys g c) (first_state st sys g) (steps-Halts st sys g c) (λ xs e. first xs)
    where
      first : (xs : List (Step S)) → Ends (first_state st sys g xs)
      first [] = λ e. cc
      first (x ∷ xs) = ok-Ends x.state

  state-Ends : (i : ℕ) → Ends (state st sys g i)
  unfolding state is_some
  state-Ends i =
      >>=-Safe (walk (suc (length g.parent)) g.parent i) (state_of st sys g) (λ c. is_some c ≡ true)
        (λ x. is_some x ≡ true) (walk-Ends i) (λ c e s. of c s)
    where
      of : (c : Option (List ℕ)) → is_some c ≡ true → Ends (state_of st sys g c)
      of none e = absurd cc
      of (some c) e = state_of-Ends c

  inv_violation-Ends : (i : Invariant S) (v : InvViolation) → Ends (inv_violation st sys g i v)
  unfolding inv_violation
  inv_violation-Ends i v =
      on_some-Ends (trace st sys g v.node) _ (trace-Ends v.node)
        (λ xs e. >>=-Ends (confirm xs _ i.name) _ (confirm-Halts xs _ i.name) (λ t q. ok-Ends _))

  inv_violations-Ends :
      (is : List (Invariant S)) (vs : List (Option InvViolation))
      → Ends (inv_violations st sys g is vs)
  unfolding inv_violations
  inv_violations-Ends [] vs = ok-Ends []
  inv_violations-Ends (i ∷ is) [] = ok-Ends []
  inv_violations-Ends (i ∷ is) (none ∷ vs) = inv_violations-Ends is vs
  inv_violations-Ends (i ∷ is) (some v ∷ vs) =
      on_some-Ends (inv_violation st sys g i v) _ (inv_violation-Ends i v) (λ x e.
        on_some-Ends (inv_violations st sys g is vs) _ (inv_violations-Ends is vs)
          (λ xs q. ok-Ends _))

  exits-Ends : (ls tos : List ℕ) → Ends (exits st sys g ls tos)
  unfolding exits
  exits-Ends [] tos = ok-Ends []
  exits-Ends (l ∷ ls) [] = ok-Ends []
  exits-Ends (l ∷ ls) (to ∷ tos) =
      >>=-Ends (at_index g.labels l) _ (at_index-Halts g.labels l) (λ lbl e.
        >>=-Ends (at_index (names_of sys.actors) lbl.actor) _
          (at_index-Halts (names_of sys.actors) lbl.actor)
          (λ name q. on_some-Ends (state st sys g to) _ (state-Ends to) (λ s r.
            on_some-Ends (exits st sys g ls tos) _ (exits-Ends ls tos) (λ xs w. ok-Ends _))))

  trap_violation-Ends : (r : Recoverable S) (i : ℕ) → Ends (trap_violation st sys g r i)
  unfolding trap_violation exits_of
  trap_violation-Ends r i = on_some-Ends (trace st sys g i) _ (trace-Ends i) (λ xs e.
      on_some-Ends (exits_of st sys g i) _ (exits-Ends _ _)
        (λ ys q. >>=-Ends (confirm xs _ r.name) _ (confirm-Halts xs _ r.name) (λ t w. ok-Ends _)))

  trap_found-Ends : (r : Recoverable S) (t : Option ℕ) → Ends (trap_found st sys g r t)
  unfolding trap_found
  trap_found-Ends r none = ok-Ends []
  trap_found-Ends r (some i) = trap_violation-Ends r i

  find_trap-Ends : (oks goal : List Bool) → Ends (ok (find_trap g oks goal))
  find_trap-Ends oks goal =
      let (r, q, t) = find_trap_lem g oks goal w.inside in
      subst (λ x. Ends (ok x)) (sym q) (ok-Ends r)

  trap_violations-Ends :
      (rs : List (Recoverable S)) (sets : List (List String)) (goals : List (List Bool))
      → Ends (trap_violations st sys g rs sets goals)
  unfolding trap_violations
  trap_violations-Ends [] sets goals = ok-Ends []
  trap_violations-Ends (r ∷ rs) [] goals = ok-Ends []
  trap_violations-Ends (r ∷ rs) (a ∷ sets) [] = ok-Ends []
  trap_violations-Ends (r ∷ rs) (a ∷ sets) (goal ∷ goals) =
      on_some-Ends (ok (find_trap g (allowed_labels a (names_of sys.actors) g.labels) goal)) _
        (find_trap-Ends (allowed_labels a (names_of sys.actors) g.labels) goal)
        (λ t e. on_some-Ends (trap_found st sys g r t) _ (trap_found-Ends r t) (λ xs q.
          on_some-Ends (trap_violations st sys g rs sets goals) _
            (trap_violations-Ends rs sets goals) (λ ys w. ok-Ends _)))

module _ {ℓ} {S : Type ℓ} (st : State S) (sys : System S) where
  result_of-Ends :
      (allowed : List (List String)) (r : Core × Verdicts)
      → Ordered r.0
      → Sound r.0
      → Ends (result_of st sys allowed r)
  unfolding result_of
  result_of-Ends allowed (g, v) o w =
      >>=-Ends (covered (names_of sys.actors) g.labels g.label_count []) _
        (covered-Halts (names_of sys.actors) g.labels g.label_count [])
        (λ cov e.
          on_some-Ends (inv_violations st sys g sys.invariants v.inv_viol) _
            (inv_violations-Ends st sys g o w sys.invariants v.inv_viol)
            (λ xs q.
              on_some-Ends (trap_violations st sys g sys.recoverables allowed v.goal) _
                (trap_violations-Ends st sys g o w sys.recoverables allowed v.goal)
                (λ ys w. ok-Ends _)))

  run-Ends :
      (bound : ℕ) (exact : Bool) (chunk max_depth : ℕ)
      → 1 ≤ chunk
      → Ends (run st sys bound exact chunk max_depth)
  run-Ends bound exact chunk max_depth c =
      let e = run_ends st sys bound exact chunk max_depth c in
      ended (run st sys bound exact chunk max_depth) e.0 e.1
    where
      ended : (m : Run (Option (Core × Verdicts))) → m ≢ ok none → m ≢ panic hangs → Ends m
      ended (ok none) a b = absurd (a refl)
      ended (ok (some r)) a b = ok-Ends r
      ended (panic p) a b = λ e. b (ap panic e)

  run-Sound :
      (bound : ℕ) (exact : Bool) (chunk max_depth : ℕ) {r : Core × Verdicts}
      → run st sys bound exact chunk max_depth ≡ ok (some r)
      → Sound r.0
  run-Sound bound exact chunk max_depth e =
      subst (λ m. Safe m (Found st sys bound)) e (run-Safe st sys bound exact chunk max_depth)

  explore-Ends : (procs : ℕ) (opts : Options) → Ends (explore st sys procs opts)
  unfolding explore chunk_size
  explore-Ends procs opts =
      >>=-Ends (resolve_recoverables sys sys.recoverables) _ (resolve-Halts sys sys.recoverables)
        (λ allowed e.
          on_some-Ends (run st sys bound opts.exact_keys chunk opts.max_depth)
            (result_of st sys allowed)
            (run-Ends bound opts.exact_keys chunk opts.max_depth (omega arith))
            (λ r q.
              result_of-Ends allowed r
                (run-Ordered st sys bound opts.exact_keys chunk opts.max_depth (omega arith) q)
                (run-Sound bound opts.exact_keys chunk opts.max_depth q)))
    where
      bound : ℕ
      bound = if opts.max_states == 0 then 1000000 else opts.max_states

      chunk : ℕ
      chunk = chunk_size (if opts.workers == 0 then procs else opts.workers) 64

  -- Explore always ends, in a Result or in a panic: the search over its levels, the replays and the
  -- marking for traps do not run out of the rounds that the model gives them, and no loop of the key
  -- index goes on for ever.
  pub explore_ends :
      (procs : ℕ) (opts : Options)
      → (explore st sys procs opts ≢ ok none) × (explore st sys procs opts ≢ panic hangs)
  unfolding is_some
  explore_ends procs opts =
      let s = explore-Ends procs opts in
      (
        λ e. let f : false ≡ true = subst Ends e s in cc,
        Safe-ne (explore st sys procs opts) (λ o. is_some o ≡ true) s,
      )

  -- The Result of Explore, or its panic, is the same for any number of workers and of processors.
  pub explore_workers_free :
      (procs procs' workers : ℕ) (opts : Options)
      → explore st sys procs opts ≡ explore st sys procs' (record opts { workers = workers })
  unfolding explore
  explore_workers_free procs procs' workers opts =
      ap
        (λ m. resolve_recoverables sys sys.recoverables >>= λ allowed.
          m >>= on_some (result_of st sys allowed))
        (run_workers_free st sys (if opts.max_states == 0 then 1000000 else opts.max_states)
          opts.exact_keys (if opts.workers == 0 then procs else opts.workers)
          (if workers == 0 then procs' else workers) 64 64 opts.max_depth)
