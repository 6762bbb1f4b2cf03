-- ===== src/Examples/Passes.antt =====
-- Two controllers under one interceptor, a pause and its end (ctrltest/interceptor.go).
use testkit.Prelude.{List, [], ◌∷◌, map, Option, none, some, String, ◌≡◌, refl, inr, All, get_elem?}
use testkit.Ctrl.Op.{ObjectKey, Op}
use testkit.Ctrl.Recorder.{new_recorder, count_at}
use testkit.Ctrl.Gates.{GateOk}
use testkit.Ctrl.GateRun.{new_system, new_system-GateOk}
use testkit.Ctrl.Clamp.{Bounded, new_system-Bounded}
use testkit.Ctrl.Sequence.{numbers, one_to, new_system-Numbered}
use testkit.Ctrl.Intercept.{Reconcile, new_interceptor, ops_of}
use testkit.Ctrl.Traffic.{Runs}
use testkit.Ctrl.Attributed.{pass_ops_lem}
use testkit.Ctrl.Admission.{Has, activate_admits, pause_answers}
use testkit.Ctrl.Passes.{
  refusing, filing, returned, System, Event, activates, pauses, writes, calls_for, moves, returns,
  step, run,
}

abbrev shard_key : ObjectKey
shard_key = record { namespace = "ns"; name = "shard" }

abbrev op_by : String → Option String → Op
op_by controller err = record {
  controller = controller;
  verb = "patch";
  kind = "Pod";
  key = shard_key;
  time = 0;
  err = err;
}

abbrev begin : System
begin = new_system (some new_recorder) 50

-- A pause that refuses one request, its end, and a pass that asks for a minute.
abbrev history : List Event
history =
    pauses "ns"
    ∷ calls_for "shard" shard_key
    ∷ moves 0 1
    ∷ moves 0 2
    ∷ moves 0 3
    ∷ activates "ns"
    ∷ calls_for "shard" shard_key
    ∷ moves 1 4
    ∷ moves 1 5
    ∷ writes (some 1) (op_by "shard" none)
    ∷ returns 1 6 60000 none
    ∷ moves 1 7
    ∷ []

history_log :
    map (λ r. r.seq ∷ r.result ∷ r.requested_after ∷ []) (run begin history).ic.log
    ≡ (0 ∷ 100 ∷ 0 ∷ []) ∷ (1 ∷ 50 ∷ 60000 ∷ []) ∷ []
unfolding run new_system new_interceptor
history_log = refl

new_system-GateOk_example : GateOk (run begin history).ic.gate
new_system-GateOk_example = new_system-GateOk (some new_recorder) 50 history

new_system-Bounded_example : All (Bounded 50) (run begin history).ic.log
new_system-Bounded_example = new_system-Bounded (some new_recorder) 50 history

new_system-Numbered_example :
    numbers "shard" (run begin history).ic.log
    ≡ one_to (count_at "shard" (run begin history).ic.seq)
new_system-Numbered_example = new_system-Numbered (some new_recorder) 50 history "shard"

abbrev admitted_call : System
unfolding run
admitted_call = run begin (activates "ns" ∷ calls_for "shard" shard_key ∷ moves 0 1 ∷ [])

abbrev traffic : List Event
traffic =
    writes (some 0) (op_by "shard" none)
    ∷ writes none (op_by "pool" none)
    ∷ pauses "ns"
    ∷ writes (some 0) (op_by "shard" (some "conflict"))
    ∷ []

abbrev later_traffic : List Event
later_traffic = writes none (op_by "shard" none) ∷ []

pass_ops_lem_example :
    let s = step (run (step admitted_call (moves 0 2)) traffic) (returns 0 3 60000 none) in
    (rec : Reconcile) × (get_elem? s.calls 0
      ≡ some (record { controller = "shard"; request = shard_key; phase = filing rec }))
    × (ops_of (run s later_traffic).ic rec ≡ op_by "shard" none ∷ [])
unfolding admitted_call new_system new_interceptor
pass_ops_lem_example =
    pass_ops_lem admitted_call new_recorder 0 2 3 60000 none "shard" shard_key traffic later_traffic
      refl refl (refl, (refl, (tt, (refl, tt))))

-- The activation comes between the two looks at the gate.
abbrev overtaken : System
unfolding run
overtaken = run begin (calls_for "shard" shard_key ∷ moves 0 1 ∷ [])

activate_admits_example :
    let s = run (step overtaken (activates "ns")) (pauses "other" ∷ []) in
    (rec : Reconcile) × Runs 0 "shard" shard_key rec (run s (moves 0 2 ∷ moves 0 3 ∷ []))
unfolding overtaken new_system new_interceptor
activate_admits_example =
    activate_admits overtaken "ns" (pauses "other" ∷ []) 0 2 3 "shard" shard_key refusing (refl, tt)
      refl (inr refl) refl

pause_answers_example :
    let s = run (step overtaken (pauses "ns")) (activates "other" ∷ []) in
    Has 0 "shard" shard_key (returned 100 none) (run s (moves 0 2 ∷ moves 0 3 ∷ moves 0 4 ∷ []))
unfolding overtaken new_system new_interceptor
pause_answers_example =
    pause_answers overtaken "ns" (activates "other" ∷ []) 0 2 3 4 "shard" shard_key refusing
      (refl, tt) refl (inr refl) refl
