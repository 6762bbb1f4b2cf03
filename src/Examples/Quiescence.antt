-- ===== src/Examples/Quiescence.antt =====
-- A pass that fails, a pause over it, and a pass that recovers (ctrltest/quiescence.go).
use testkit.Prelude.{
  ℕ, List, [], ◌∷◌, Option, none, some, Bool, true, false, String, ◌≡◌, ◌⊎◌, ◌↔◌, refl, inl, inr,
  In,
}
use testkit.Ctrl.Op.{in_scope}
use testkit.Ctrl.Recorder.{new_recorder}
use testkit.Ctrl.Gate.{GatedKey}
use testkit.Ctrl.Intercept.{Reconcile, Interceptor, new_interceptor, in_namespace}
use testkit.Ctrl.Unconverged.{error_line, unconverged}
use testkit.Ctrl.LastWord.{LastWord}
use testkit.Ctrl.Report.{unconverged_lem}
use testkit.Ctrl.Quiescence.{QuietError, Next, event, waited, Turn, top_counts, try_quiescent}
use testkit.Ctrl.Verdict.{Settled, try_quiescent_lem}

abbrev pass : ℕ → Bool → Option String → Reconcile
pass start gated err = record {
  controller = "shard";
  seq = 1;
  request = record { namespace = "ns"; name = "a" };
  result = 0;
  requested_after = 0;
  err = err;
  start = start;
  end = start;
  gated = gated;
  op_from = 0;
  op_to = 0;
}

abbrev passes : List Reconcile → Interceptor
unfolding new_interceptor
passes log = record (new_interceptor none 50) { log = log }

-- A wedge under a pause is still reported.
wedged :
    unconverged (passes (pass 1 false (some "refused") ∷ pass 2 true none ∷ [])) "ns"
    ≡ "shard ns/a: refused" ∷ []
unfolding unconverged passes
wedged = refl

recovered : unconverged (passes (pass 1 false (some "refused") ∷ pass 2 false none ∷ [])) "ns" ≡ []
unfolding unconverged passes
recovered = refl

unconverged_lem_example :
    let i = passes (pass 1 false (some "refused") ∷ pass 2 true none ∷ []) in
    In "shard ns/a: refused" (unconverged i "ns") ↔ (
      (g : GatedKey) × (r : Reconcile) × (e : String) × LastWord g (in_namespace i "ns") r
      × (r.err ≡ some e)
      × ("shard ns/a: refused" ≡ error_line g e))
unconverged_lem_example =
    unconverged_lem (passes (pass 1 false (some "refused") ∷ pass 2 true none ∷ [])) "ns"
      "shard ns/a: refused"

abbrev pod_event : Next
pod_event = event (record {
  kind = "Pod";
  key = record { namespace = "ns"; name = "a" };
  changed = ("status.phase", "Pending -> Running") ∷ [];
})

abbrev turn : ℕ → Next → Turn
unfolding passes
turn begins answer = record {
  begins = begins;
  answer = answer;
  event_at = begins;
  filed = [];
  writes_at = begins;
  ends = begins;
  passes = passes (pass 1 false none ∷ []);
}

abbrev turns : List Turn
unfolding turn
turns = turn 0 pod_event ∷ turn 100 waited ∷ turn 300 waited ∷ turn 900 waited ∷ []

abbrev suite : Interceptor
unfolding passes
suite = passes (pass 1 false none ∷ [])

try_quiescent_lem_example :
    ((e : QuietError) × (try_quiescent "ns" 200 500 0 new_recorder turns (some suite)
        ≡ some (some e)))
    ⊎ ((try_quiescent "ns" 200 500 0 new_recorder turns (some suite) ≡ some none)
        × Settled "ns" 200 500 (λ op. in_scope op "ns" "" true) 0 turns
        × ((pass : Reconcile) × In pass (in_namespace suite "ns") × (pass.gated ≡ false)))
unfolding turns
try_quiescent_lem_example =
    try_quiescent_lem "ns" 200 500 0 new_recorder turns suite (inr (inr (inr (inl refl))))

quiet_at_300 : try_quiescent "ns" 200 500 0 new_recorder turns (some suite) ≡ some none
unfolding try_quiescent turns suite
quiet_at_300 = refl

busiest : top_counts (("a", 1) ∷ ("c", 3) ∷ ("b", 3) ∷ []) 2 ≡ ("b", 3) ∷ ("c", 3) ∷ []
unfolding top_counts
busiest = refl
