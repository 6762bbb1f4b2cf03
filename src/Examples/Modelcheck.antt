-- ===== src/Examples/Modelcheck.antt =====
-- A counter that two actors raise (modelcheck/toys_test.go), and a table of three hashes.
use Prim.Native.Char.{code}
use testkit.Prelude.{
  ℕ, zero, suc, ◌+◌, ◌≤◌, ◌<◌, ltb, ◌≡◌, refl, ◌≢◌, [], ◌∷◌, none, some, false, if◌then◌else◌,
  String, arith, length, get_elem?, All, List, Option, Bool, true,
}
use testkit.Prelude.Decimal.{decimal}
use testkit.Modelcheck.Index.Defs.{
  Hash, KeyIndex, new_key_index, hit, miss, done, map_get, of_option, lookup, insert,
}
use testkit.Modelcheck.Index.Lookup.{IsIndex, DistinctHashes, lookup_lem}
use testkit.Modelcheck.Index.Insert.{new_key_index-IsIndex, insert_lem}
use testkit.Modelcheck.Replay.Defs.{
  trace, walk, at_index, present, in_front, trace_of, steps, rebuilt, root, step, label_of,
  replayed, nth_named, checked, shown, shown_of, names_of, turned,
}
use testkit.Modelcheck.Replay.Diff.{
  extended, lines, diff_from, first_diff, IsFirstDiff, first_diff_lem,
}
use testkit.Modelcheck.Replay.Path.{Traced, run_trace_lem}
use testkit.Modelcheck.Result.{explore}
use testkit.Modelcheck.Result.Total.{explore_ends, explore_workers_free}
use testkit.Modelcheck.System.{hangs, Run, panic, Step, Options, State, Actor, System, ok}
use testkit.Modelcheck.Explore.Defs.{
  Core, empty_core, index32, add_node, append_node, merge, merge_from, merge_one, enter_actor,
  intern, intern_new, label_get, number_move, count_label, link, add_edge, refuse, discover,
  close_edges, offset32, expand, succ_of,
}
use testkit.Modelcheck.Explore.Search.{
  seed, seed_one, evaluate, no_verdicts, add_goals, record_states, record_errs, search,
  expand_level, expand_chunk, evaluate_new, merge_states, merge_one_state, Verdicts, run,
}
use testkit.Modelcheck.Explore.Ends.{run_ends}
use testkit.Modelcheck.Trap.Defs.{
  slice, keep_allowed, allowed_targets, from_node, allowed_pairs, reversed, into, increment,
  count_targets, sums, sum_up, fill, settled, start_marks, mark_one, mark_all, spread,
  first_unmarked, find_trap,
}
use testkit.Modelcheck.Trap.Correct.{IsTrap, find_trap_lem}

abbrev hash : ℕ → Hash
hash n = record { hi = 0; lo = n }

-- A hash that tells short keys apart.
text_hash : ℕ → String → ℕ
text_hash acc String.[] = acc
text_hash acc (String.◌∷◌ c s) = text_hash (acc + code c + 1) s

abbrev counter : State ℕ
counter = record { clone = λ n. n; key = decimal; hash_key = λ k. hash (text_hash 0 k) }

abbrev adder : String → ℕ → Actor ℕ
adder name step = record {
  name = name;
  moves = λ n. if ltb n 3 then ("add", n + step) ∷ [] else [];
}

abbrev counting : System ℕ
counting = record {
  initial = 0 ∷ [];
  actors = adder "one" 1 ∷ adder "two" 2 ∷ [];
  names = "two" ∷ "one" ∷ [];
  invariants = [];
  recoverables = [];
}

run_ends_example :
    (run counter counting 100 false 64 0 ≢ ok none)
    × (run counter counting 100 false 64 0 ≢ panic hangs)
    × ((r : Core × Verdicts)
        → run counter counting 100 false 64 0 ≡ ok (some r)
        → length (r.0).parent ≤ 100)
run_ends_example = run_ends counter counting 100 false 64 0 (omega arith)

fresh : KeyIndex
unfolding new_key_index
fresh = new_key_index false

fresh-IsIndex : IsIndex fresh []
unfolding fresh
fresh-IsIndex = new_key_index-IsIndex

insert_lem_example :
    (ix : KeyIndex) × (insert fresh 0 (hash 7) "7" (hash 7 ∷ []) ≡ done ix)
    × IsIndex ix (hash 7 ∷ [])
insert_lem_example = insert_lem [] (hash 7) fresh 0 "7" fresh-IsIndex refl

-- The index of one node.
one_inserted :
    (ix : KeyIndex) × (insert fresh 0 (hash 7) "7" (hash 7 ∷ []) ≡ done ix)
    × IsIndex ix (hash 7 ∷ [])
one_inserted = insert_lem [] (hash 7) fresh 0 "7" fresh-IsIndex refl

one : KeyIndex
one = one_inserted.0

one-IsIndex : IsIndex one (hash 7 ∷ [])
unfolding one
one-IsIndex = one_inserted.2

one-DistinctHashes : DistinctHashes (hash 7 ∷ [])
one-DistinctHashes zero zero h p q = refl
one-DistinctHashes zero (suc j) h p q = cc
one-DistinctHashes (suc i) j h p q = cc

lookup_lem_example :
    ((i : ℕ)
      → get_elem? (hash 7 ∷ []) i ≡ some (hash 7)
      → lookup one (hash 7) "7" (hash 7 ∷ []) ≡ hit i)
    × (((i : ℕ) → get_elem? (hash 7 ∷ []) i ≢ some (hash 7))
        → lookup one (hash 7) "7" (hash 7 ∷ []) ≡ miss)
lookup_lem_example = lookup_lem one (hash 7 ∷ []) one-IsIndex (hash 7) "7" one-DistinctHashes

-- Node 0 leads to 1, which meets the goal, and to 2, from which nothing leads on.
abbrev fork : Core
fork = record (empty_core false) {
  parent = none ∷ some 0 ∷ some 0 ∷ [];
  unknown = false ∷ false ∷ false ∷ [];
  edge_start = 0 ∷ 2 ∷ 3 ∷ 3 ∷ [];
  edge_label = 0 ∷ 1 ∷ 0 ∷ [];
  edge_to = 1 ∷ 2 ∷ 0 ∷ [];
}

abbrev second_node : List Bool
second_node = false ∷ true ∷ false ∷ []

fork_trap : find_trap fork (true ∷ true ∷ []) second_node ≡ some (some 2)
unfolding find_trap spread allowed_pairs allowed_targets keep_allowed slice from_node reversed into
    increment count_targets sums sum_up fill start_marks settled mark_all mark_one first_unmarked
    empty_core
fork_trap = refl

fork_edges : All (λ to. to < 3) fork.edge_to
unfolding empty_core
fork_edges = (omega arith, (omega arith, (omega arith, tt)))

find_trap_lem_example :
    (r : Option ℕ) × (find_trap fork (true ∷ true ∷ []) second_node ≡ some r)
    × IsTrap fork (true ∷ true ∷ []) second_node r
find_trap_lem_example = find_trap_lem fork (true ∷ true ∷ []) second_node fork_edges

-- The counter's whole search, with exact keys.
explored : Run (Option (Core × Verdicts))
unfolding run empty_core new_key_index seed seed_one index32 add_node insert append_node lookup
    map_get of_option evaluate no_verdicts add_goals record_states record_errs search expand_level
    expand_chunk evaluate_new merge_states merge_one_state merge merge_from merge_one enter_actor
    intern intern_new label_get number_move count_label link add_edge refuse discover close_edges
    offset32 expand succ_of text_hash decimal
explored = run counter counting 100 true 64 0

abbrev result_of : Run (Option (Core × Verdicts)) → Core × Verdicts
result_of (ok (some r)) = r
result_of (ok none) = (fork, record { goal = []; inv_viol = [] })
result_of (panic p) = (fork, record { goal = []; inv_viol = [] })

explored_nodes : length (result_of explored).0.parent ≡ 5
unfolding explored
explored_nodes = refl

explored_ok : run counter counting 100 true 64 0 ≡ ok (some (result_of explored))
unfolding explored
explored_ok = refl

-- The last node is reached by "two" twice.
abbrev shown_path : List (Step ℕ)
shown_path =
    record { actor = ""; move = ""; state = 0 }
    ∷ record { actor = "two"; move = "add"; state = 2 }
    ∷ record { actor = "two"; move = "add"; state = 4 }
    ∷ []

last_trace : trace counter counting (result_of explored).0 4 ≡ ok (some shown_path)
unfolding explored trace walk at_index present in_front trace_of steps rebuilt root step label_of
    replayed nth_named checked shown shown_of names_of turned
last_trace = refl

run_trace_lem_example :
    (trace counter counting (result_of explored).0 4 ≢ ok none)
    × ((xs : List (Step ℕ))
        → trace counter counting (result_of explored).0 4 ≡ ok (some xs)
        → (ys : List (Step ℕ)) × (xs ≡ turned counter counting (result_of explored).0 ys [])
          × Traced counter counting (result_of explored).0 4 ys)
run_trace_lem_example =
    run_trace_lem counter counting 100 true 64 0 (result_of explored) 4 (omega arith) explored_ok
      (omega (arith, explored_nodes))

abbrev four_workers : Options
four_workers = record { max_states = 100; max_depth = 0; workers = 4; exact_keys = true }

explore_ends_example :
    (explore counter counting 8 four_workers ≢ ok none)
    × (explore counter counting 8 four_workers ≢ panic hangs)
explore_ends_example = explore_ends counter counting 8 four_workers

explore_workers_free_example :
    explore counter counting 8 four_workers
    ≡ explore counter counting 2 (record four_workers { workers = 0 })
explore_workers_free_example = explore_workers_free counter counting 8 2 0 four_workers

second_line : first_diff "a\nb" "a\nc" ≡ some (2, "b", "c")
unfolding first_diff lines extended diff_from
second_line = refl

-- Keys that differ in trailing newlines alone.
trailing_newline : first_diff "a" "a\n" ≡ none
unfolding first_diff lines extended diff_from
trailing_newline = refl

first_diff_lem_example : IsFirstDiff 0 (lines "a\nb") (lines "a\nc") (first_diff "a\nb" "a\nc")
first_diff_lem_example = first_diff_lem "a\nb" "a\nc"
