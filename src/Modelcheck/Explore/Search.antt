-- ===== src/Modelcheck/Explore/Search.antt =====
-- modelcheck/explore.go: evaluate, expandChunk and run.
--
-- Workers fill one slot each, and the slots are read in order, so a parallel loop is a map over its
-- items here. `none` as a result of the search is the fuel's end.
use testkit.Prelude.{
  ℕ, zero, suc, ◌+◌, ◌-◌, ◌*◌, ltb, leb, List, [], ◌∷◌, ◌++◌, map, Option, none, some, Bool, true,
  ◌&&◌, String, if◌then◌else◌, length, set, take, drop, replicate,
}
use Prim.Native.Nat.{max}
use testkit.Modelcheck.Index.Defs.{hit, miss, fault, spin, lookup}
use testkit.Modelcheck.System.{
  State, Invariant, Recoverable, System, index_fault, hangs, Run, ok, panic, ◌>>=◌,
}
use testkit.Modelcheck.Explore.Defs.{Core, empty_core, add_node, close_edges, merge, expand}

pub record InvViolation : Type 0 where
  pub node : ℕ
  pub err : String

-- The goal column of each recoverable, and the first violation of each invariant.
pub record Verdicts : Type 0 where
  pub goal : List (List Bool)
  pub inv_viol : List (Option InvViolation)

-- An error is recorded where the invariant has none yet.
unfoldable pub record_err : ℕ → Option InvViolation → Option String → Option InvViolation
record_err node (some v) err = some v
record_err node none none = none
record_err node none (some err) = some (record { node = node; err = err })

module _ {ℓ} {S : Type ℓ} where
  unfoldable pub add_goals : List (Recoverable S) → List (List Bool) → List S → List (List Bool)
  add_goals [] gs states = gs
  add_goals (r ∷ rs) [] states = []
  add_goals (r ∷ rs) (g ∷ gs) states = (g ++ map r.goal states) ∷ add_goals rs gs states

  unfoldable pub record_errs :
      List (Invariant S) → ℕ → S → List (Option InvViolation) → List (Option InvViolation)
  record_errs [] node s vs = vs
  record_errs (i ∷ is) node s [] = []
  record_errs (i ∷ is) node s (v ∷ vs) = record_err node v (i.holds s) ∷ record_errs is node s vs

  unfoldable pub record_states :
      List (Invariant S) → ℕ → List S → List (Option InvViolation) → List (Option InvViolation)
  record_states is base [] vs = vs
  record_states is base (s ∷ ss) vs = record_states is (base + 1) ss (record_errs is base s vs)

  -- The states' nodes are base, base + 1, ... in order. `base + j` is a node's index, which addNode
  -- has narrowed. Where no state is new the source returns at once, which changes nothing either.
  unfoldable pub evaluate : System S → List S → ℕ → Verdicts → Verdicts
  evaluate sys states base v = record {
    goal = add_goals sys.recoverables v.goal states;
    inv_viol = record_states sys.invariants base states v.inv_viol;
  }

  -- The states that a chunk adds are evaluated after its merge.
  unfoldable pub evaluate_new : System S → Verdicts → Core × List S → Core × Verdicts × List S
  evaluate_new sys v (e, new) = (e, evaluate sys new (length e.parent - length new) v, new)

  -- At MaxDepth the frontier is not expanded: its futures are unknown, and its edges empty.
  unfoldable pub cut_off : Core → ℕ → List S → Run Core
  cut_off e i [] = ok (record e { truncated = true })
  cut_off e i (s ∷ ss) =
      close_edges (record e { unknown = set e.unknown i true }) >>= λ e'. cut_off e' (i + 1) ss

  unfoldable pub no_verdicts : System S → Verdicts
  no_verdicts sys = record {
    goal = replicate (length sys.recoverables) [];
    inv_viol = replicate (length sys.invariants) none;
  }

module _ {ℓ} {S : Type ℓ} (st : State S) (sys : System S) (max_states : ℕ) where
  -- One initial state: a node, unless its key is known or MaxStates refuses it.
  unfoldable pub seed_one : Core → ℕ → S → Run (Core × List S)
  seed_one e k s =
      let s' = st.clone s in
      let key = st.key s' in
      let h = st.hash_key key in
      elim (lookup e.index h key e.hash) [
        | hit i ↦ ok (e, [])
        | miss ↦
            if leb max_states (length e.parent)
            then ok (record e { truncated = true }, [])
            else (add_node e none none 0 h key >>= λ r.
                ok (record (r.1) { roots = (r.1).roots ++ k ∷ [] }, s' ∷ []))
        | fault ↦ panic index_fault
        | spin ↦ panic hangs
      ]

  unfoldable pub seed : Core → ℕ → List S → Run (Core × List S)
  seed e k [] = ok (e, [])
  seed e k (s ∷ ss) = seed_one e k s >>= λ r. seed r.0 (k + 1) ss >>= λ q. ok (q.0, r.1 ++ q.1)

  -- Successors are merged in node, actor, move order, and each node's edges are closed.
  unfoldable pub merge_one_state : Core → ℕ → S → Run (Core × List S)
  merge_one_state e i s = merge max_states e i (expand st 0 sys.actors s) >>= λ r.
      close_edges r.0 >>= λ e'. ok (e', r.1)

  unfoldable pub merge_states : Core → ℕ → List S → Run (Core × List S)
  merge_states e i [] = ok (e, [])
  merge_states e i (s ∷ ss) =
      merge_one_state e i s >>= λ r. merge_states r.0 (i + 1) ss >>= λ q. ok (q.0, r.1 ++ q.1)

  unfoldable pub expand_chunk : Core → Verdicts → ℕ → List S → Run (Core × Verdicts × List S)
  expand_chunk e v base states = merge_states e base states >>= λ r. ok (evaluate_new sys v r)

  -- The loop over the chunks of a level. The fuel is the number of its states.
  unfoldable pub expand_level :
      ℕ → ℕ → Core → Verdicts → ℕ → List S → Run (Core × Verdicts × List S)
  expand_level zero chunk e v base states = ok (e, v, [])
  expand_level (suc fuel) chunk e v base [] = ok (e, v, [])
  expand_level (suc fuel) chunk e v base (s ∷ ss) =
      expand_chunk e v base (take chunk (s ∷ ss)) >>= λ r.
      expand_level fuel chunk r.0 r.1 (base + length (take chunk (s ∷ ss))) (drop chunk (s ∷ ss))
      >>= λ q. ok (q.0, q.1, r.2 ++ q.2)

  unfoldable pub search :
      ℕ → ℕ → ℕ → ℕ → Core → Verdicts → ℕ → List S → Run (Option (Core × Verdicts))
  search zero chunk max_depth depth e v start cur = ok none
  search (suc fuel) chunk max_depth depth e v start [] = ok (some (e, v))
  search (suc fuel) chunk max_depth depth e v start (s ∷ ss) =
      if ltb 0 max_depth && leb max_depth depth
      then (cut_off e start (s ∷ ss) >>= λ e'. ok (some (e', v)))
      else (expand_level (length (s ∷ ss)) chunk e v start (s ∷ ss) >>= λ r.
          search fuel chunk max_depth (depth + 1) r.0 r.1 (start + length (s ∷ ss)) r.2)

  -- `run`, with fuel for the loop over the levels. A level finds a new node or is the last, so
  -- max_states + 2 rounds are enough.
  unfoldable pub run : Bool → ℕ → ℕ → Run (Option (Core × Verdicts))
  run exact chunk max_depth = seed (empty_core exact) 0 sys.initial >>= λ r.
      search (max_states + 2) chunk max_depth 0 r.0 (evaluate sys r.1 0 (no_verdicts sys)) 0 r.1

-- max(1, workers*chunkNodesPerWorker), for the number of nodes per worker that the package sets.
unfoldable pub chunk_size : ℕ → ℕ → ℕ
chunk_size workers nodes_per_worker = max 1 (workers * nodes_per_worker)
