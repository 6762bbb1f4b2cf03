-- ===== src/Examples/Ctrl.antt =====
-- Two controllers, one namespace and a few ops (ctrltest/recorder.go, ctrltest/interceptor.go).

use testkit.Prelude.{
  ℕ, suc, List, [], ◌∷◌, map, Option, none, some, true, false, String, ◌≡◌, ◌↔◌, refl, inl, inr,
  arith,
}
use testkit.Ctrl.Op.{ObjectKey, Op, op_text}
use testkit.Ctrl.Kind.{
  after_dot, kind_suffix, Object, kind_of, Expect, expect_key, op_key, expect_of, expect_create,
}
use testkit.Ctrl.Suffix.{expect_key-expect_of}
use testkit.Ctrl.Recorder.{new_recorder, count_at, file}
use testkit.Ctrl.Cursor.{Cursor}
use testkit.Ctrl.Client.{Write, creates, deletes, sub_patches, Wrapped, RecordingClient}
use testkit.Ctrl.Served.{Issued, issue_all, serve_all, issue_all_lem, issue_all-Tallies}
use testkit.Ctrl.Tally.{Tallies}
use testkit.Ctrl.Wait.{Poll, Waited, wait_for_next, wait_within_quiet, compare_multiset}
use testkit.Ctrl.Stream.{sees, unread, first_of}
use testkit.Ctrl.Refine.{Use, files, peeks, takes, run_cursor, run_queue, run_cursor-Queue}
use testkit.Ctrl.Quiet.{pending, wait_for_next_lem, wait_within_quiet_lem}
use testkit.Ctrl.Multiset.{occurrences}
use testkit.Ctrl.Matched.{compare_multiset_lem}

abbrev shard_key : ObjectKey
shard_key = record { namespace = "ns"; name = "shard" }

abbrev op_by : String → String → Option String → Op
op_by controller verb err = record {
  controller = controller;
  verb = verb;
  kind = "*v1.Pod";
  key = shard_key;
  time = 0;
  err = err;
}

abbrev made : Op
made = op_by "shard" "create" none

abbrev lost : Op
lost = op_by "shard" "update" (some "conflict")

abbrev patched : Op
patched = op_by "pool" "patch" none

made_text : op_text lost ≡ "shard update *v1.Pod ns/shard (rejected: conflict)"
unfolding op_text
made_text = refl

expect_key-expect_of_example :
    (expect_of made ≡ record { verb = "create"; kind = "Pod"; name = "shard" })
    × (expect_key (expect_of made) ≡ op_key made)
unfolding after_dot
expect_key-expect_of_example = expect_key-expect_of made "*v1" "Pod" refl refl

-- A server that refuses deletions; its state is the number of its answers.
abbrev pod : Object
pod = record { own_kind = ""; go_type = "*v1.Pod"; key = shard_key }

abbrev answer_to : Write String String → Option String
answer_to (deletes obj opts) = some "forbidden"
answer_to x = none

-- The server makes up the name of what it creates.
abbrev left_by : Write String String → Object
left_by (creates obj opts) = record obj { key = record obj.key { name = "shard-7xq" } }
left_by x = pod

abbrev server : Wrapped ℕ String String
server = record {
  write = λ w x. (suc w, answer_to x);
  left = λ w x. left_by x;
  left_apply = λ w x. record { go_type = ""; accessors = none };
  clock = λ w. w;
  options_namespace = λ opts. "ns";
}

abbrev shard_client : RecordingClient
shard_client = record { controller = "shard"; scheme = some (λ obj. some ("Pod" ∷ [])) }

abbrev issued : Issued server
issued =
    (shard_client, creates pod [])
    ∷ (shard_client, deletes pod [])
    ∷ (shard_client, sub_patches "status" pod "{}" [])
    ∷ []

issue_all_lem_example :
    let run = issue_all server issued 0 new_recorder in
    (run.0 ≡ 3)
    × (run.2 ≡ none ∷ some "forbidden" ∷ none ∷ [])
    × (run.1.ops ≡ (serve_all server issued 0).2)
issue_all_lem_example = issue_all_lem server issued 0 new_recorder

made_up_name :
    (serve_all server ((shard_client, creates pod []) ∷ []) 0).2
    ≡ record {
      controller = "shard";
      verb = "create";
      kind = "Pod";
      key = record { namespace = "ns"; name = "shard-7xq" };
      time = 1;
      err = none;
    }
      ∷ []
unfolding kind_of
made_up_name = refl

issue_all-Tallies_example : Tallies (issue_all server issued 0 new_recorder).1
issue_all-Tallies_example = issue_all-Tallies server issued 0

issued_counts :
    map
      (λ k. count_at k (issue_all server issued 0 new_recorder).1.counts)
      ("shard/create/Pod" ∷ "shard/delete/Pod" ∷ "shard/status-patch/Pod" ∷ [])
    ≡ 1 ∷ 0 ∷ 1 ∷ []
unfolding issue_all file kind_of
issued_counts = refl

abbrev ns_cursor : Cursor
ns_cursor = record { ns = "ns"; controller = "shard"; attempts = false; scan = 0 }

abbrev uses : List Use
uses = files lost ∷ peeks ∷ files patched ∷ files made ∷ peeks ∷ takes ∷ takes ∷ []

run_cursor-Queue_example :
    run_queue (sees ns_cursor) uses [] ≡ ([], none ∷ some made ∷ some made ∷ none ∷ [])
unfolding run_cursor file
run_cursor-Queue_example = run_cursor-Queue uses new_recorder ns_cursor (omega arith)

abbrev polls : List Poll
polls =
    record { filed = lost ∷ patched ∷ []; late = false }
    ∷ record { filed = made ∷ []; late = true }
    ∷ []

wait_for_next_lem_example :
    (w : Waited) × (wait_for_next polls new_recorder ns_cursor "create" "Pod" "shard" ≡ some w)
    × (first_of w.ops ≡ some made)
    × (w.err ≡ none)
unfolding kind_suffix
wait_for_next_lem_example =
    wait_for_next_lem polls new_recorder ns_cursor "create" "Pod" "shard" (omega arith)
      (inr (inl refl))

abbrev quiet_polls : List Poll
quiet_polls = record { filed = lost ∷ patched ∷ []; late = true } ∷ []

wait_within_quiet_lem_example :
    (w : Waited) × (wait_within_quiet quiet_polls new_recorder ns_cursor ≡ some w)
    × ((w.err ≡ none) ↔ (pending quiet_polls new_recorder ns_cursor ≡ []))
    × (first_of w.ops ≡ none)
    × (first_of (unread w.rec w.cur) ≡ first_of w.ops)
wait_within_quiet_lem_example =
    wait_within_quiet_lem quiet_polls new_recorder ns_cursor (omega arith) (inl refl)

abbrev wanted : List Expect
wanted = expect_create "Pod" "shard" ∷ expect_create "Pod" "shard" ∷ []

compare_multiset_lem_example : (compare_multiset wanted (made ∷ made ∷ []) ≡ none) ↔ (
    (k : String)
    → occurrences k (map expect_key wanted) ≡ occurrences k (map op_key (made ∷ made ∷ [])))
compare_multiset_lem_example = compare_multiset_lem wanted (made ∷ made ∷ [])

duplicate_missed : compare_multiset wanted (made ∷ []) ≡ none → ⊥
unfolding compare_multiset
duplicate_missed e = cc
