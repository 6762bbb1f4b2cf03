-- ===== src/Modelcheck/Result.antt =====
-- modelcheck/explore.go: Explore, which turns a search into a Result; modelcheck/modelcheck.go: its
-- types. `none` is the fuel's end of the search or of a replay.
pub mod Halts
pub mod Total
use testkit.Prelude.{
  ℕ, zero, suc, ◌+◌, ◌==◌, List, [], ◌∷◌, ◌++◌, map, Option, none, some, Bool, true, false, not,
  String, str_eq, if◌then◌else◌, length, get_or,
}
use Prim.Native.Char.{Char, code}
use Prim.Native.String.{◌++◌ as text_append}
use testkit.Modelcheck.System.{
  State, Actor, Invariant, Recoverable, System, Options, Step, Run, ok, panic, ◌>>=◌,
}
use testkit.Modelcheck.Explore.Defs.{Core, Label}
use testkit.Modelcheck.Explore.Search.{InvViolation, Verdicts, run, chunk_size}
use testkit.Modelcheck.Trap.Defs.{resolve_recoverables, allowed_labels, slice, find_trap}
use testkit.Modelcheck.Replay.Defs.{at_index, names_of, trace, state, confirm}

-- `err` is nil, `none`, for a recoverable.
pub record Violation {ℓ} (S : Type ℓ) : Type ℓ where
  pub property : String
  pub kind : String
  pub err : Option String
  pub trace : List (Step S)
  pub exits : List (Step S)

-- Coverage is a map from "actor/verb".
pub record Result {ℓ} (S : Type ℓ) : Type ℓ where
  pub states : ℕ
  pub edges : ℕ
  pub truncated : Bool
  pub violations : List (Violation S)
  pub coverage : List (String × ℕ)

-- The move name up to its first space.
unfoldable pub verb : String → String
verb String.[] = ""
verb (String.◌∷◌ c s) = let rest = verb s in if code c == 32 then "" else String.◌∷◌ c rest

-- `m[key] += n`.
unfoldable pub add_count : String → ℕ → List (String × ℕ) → List (String × ℕ)
add_count key n [] = (key, n) ∷ []
add_count key n ((k, m) ∷ cs) =
    if str_eq k key then (k, m + n) ∷ cs else (k, m) ∷ add_count key n cs

-- The loop over the label counts, in the order of the labels.
unfoldable pub covered :
    List String → List Label → List ℕ → List (String × ℕ) → Run (List (String × ℕ))
covered names labels [] cov = ok cov
covered names [] (n ∷ ns) cov = ok cov
covered names (l ∷ ls) (n ∷ ns) cov = at_index names l.actor >>= λ name.
    covered names ls ns (add_count (text_append name (text_append "/" (verb l.move))) n cov)

-- A chain of calls that may end the fuel.
unfoldable pub on_some {ℓ κ} :
    {A : Type ℓ} {B : Type κ} → (A → Run (Option B)) → Option A → Run (Option B)
on_some f none = ok none
on_some f (some a) = f a

unfoldable pub is_some {ℓ} : {A : Type ℓ} → Option A → Bool
is_some none = false
is_some (some a) = true

module _ {ℓ} {S : Type ℓ} (st : State S) (sys : System S) (g : Core) where
  -- An invariant's violation, its trace confirmed.
  unfoldable pub inv_violation : Invariant S → InvViolation → Run (Option (Violation S))
  inv_violation i v =
      trace st sys g v.node
      >>= on_some (λ xs. confirm xs (λ s. is_some (i.holds s)) i.name >>= λ t. ok (
          some (record {
            property = i.name;
            kind = "invariant";
            err = some v.err;
            trace = t;
            exits = [];
          })))

  unfoldable pub inv_violations :
      List (Invariant S) → List (Option InvViolation) → Run (Option (List (Violation S)))
  inv_violations [] vs = ok (some [])
  inv_violations (i ∷ is) [] = ok (some [])
  inv_violations (i ∷ is) (none ∷ vs) = inv_violations is vs
  inv_violations (i ∷ is) (some v ∷ vs) =
      inv_violation i v
      >>= on_some (λ x. inv_violations is vs >>= on_some (λ xs. ok (some (x ∷ xs))))

  -- The moves that are still there in a trap.
  unfoldable pub exits : List ℕ → List ℕ → Run (Option (List (Step S)))
  exits [] tos = ok (some [])
  exits (l ∷ ls) [] = ok (some [])
  exits (l ∷ ls) (to ∷ tos) = at_index g.labels l >>= λ lbl.
      at_index (names_of sys.actors) lbl.actor >>= λ name.
      state st sys g to
      >>= on_some (λ s.
        exits ls tos
        >>= on_some (λ xs. ok (some (record { actor = name; move = lbl.move; state = s } ∷ xs))))

  unfoldable pub exits_of : ℕ → Run (Option (List (Step S)))
  exits_of i =
      exits (slice g.edge_label (get_or g.edge_start i 0) (get_or g.edge_start (i + 1) 0))
        (slice g.edge_to (get_or g.edge_start i 0) (get_or g.edge_start (i + 1) 0))

  unfoldable pub trap_violation : Recoverable S → ℕ → Run (Option (List (Violation S)))
  trap_violation r i =
      trace st sys g i
      >>= on_some (λ xs.
        exits_of i
        >>= on_some (λ ys. confirm xs (λ s. not (r.goal s)) r.name >>= λ t. ok (
            some (
              record { property = r.name; kind = "recoverable"; err = none; trace = t; exits = ys }
              ∷ []))))

  unfoldable pub trap_found : Recoverable S → Option ℕ → Run (Option (List (Violation S)))
  trap_found r none = ok (some [])
  trap_found r (some i) = trap_violation r i

  -- The traps of each recoverable with its actors and its goal column.
  unfoldable pub trap_violations :
      List (Recoverable S)
      → List (List String)
      → List (List Bool)
      → Run (Option (List (Violation S)))
  trap_violations [] as' goals = ok (some [])
  trap_violations (r ∷ rs) [] goals = ok (some [])
  trap_violations (r ∷ rs) (a ∷ as') [] = ok (some [])
  trap_violations (r ∷ rs) (a ∷ as') (goal ∷ goals) =
      ok (find_trap g (allowed_labels a (names_of sys.actors) g.labels) goal)
      >>= on_some (λ t.
        trap_found r t
        >>= on_some (λ xs. trap_violations rs as' goals >>= on_some (λ ys. ok (some (xs ++ ys)))))

module _ {ℓ} {S : Type ℓ} (st : State S) (sys : System S) where
  unfoldable pub result_of : List (List String) → Core × Verdicts → Run (Option (Result S))
  result_of allowed (g, v) = covered (names_of sys.actors) g.labels g.label_count [] >>= λ cov.
      inv_violations st sys g sys.invariants v.inv_viol
      >>= on_some (λ xs.
        trap_violations st sys g sys.recoverables allowed v.goal
        >>= on_some (λ ys. ok (
            some (record {
              states = length g.parent;
              edges = length g.edge_to;
              truncated = g.truncated;
              violations = xs ++ ys;
              coverage = cov;
            }))))

  -- `Explore`; `procs` is runtime.GOMAXPROCS(0), and 64 is chunkNodesPerWorker.
  unfoldable pub explore : ℕ → Options → Run (Option (Result S))
  explore procs opts = resolve_recoverables sys sys.recoverables >>= λ allowed.
      run st sys (if opts.max_states == 0 then 1000000 else opts.max_states) opts.exact_keys
        (chunk_size (if opts.workers == 0 then procs else opts.workers) 64) opts.max_depth
      >>= on_some (result_of allowed)
