-- ===== src/Ctrl/Intercept.antt =====
-- The interceptor of ctrltest/interceptor.go: its records, its log, and what is read from them.
--
-- Durations and instants are in ℕ; no duration is negative. A Result is its RequeueAfter.

use testkit.Prelude.{
  ℕ, ◌-◌, List, [], ◌∷◌, ◌++◌, Option, none, some, Bool, false, not, ◌&&◌, ◌||◌, String, str_eq,
  ltb, leb, if◌then◌else◌, find,
}
use testkit.Ctrl.Op.{ObjectKey, same_key, Op}
use testkit.Ctrl.Recorder.{Recorder, log_len, Counts, count_at, count_up, keep, ops_between}
use testkit.Ctrl.Gate.{Gate, new_gate}

pub record Reconcile : Type 0 where
  pub controller : String
  pub seq : ℕ
  pub request : ObjectKey
  pub result : ℕ
  pub requested_after : ℕ
  pub err : Option String
  pub start : ℕ
  pub end : ℕ
  pub gated : Bool
  pub op_from : ℕ
  pub op_to : ℕ

unfoldable pub duration : Reconcile → ℕ
duration r = r.end - r.start

unfoldable pub compressed : Reconcile → Bool
compressed r = ltb r.result r.requested_after

-- A nil recorder is `none`; a clamp of 0 disables compression.
pub record Interceptor : Type 0 where
  pub ops : Option Recorder
  pub clamp : ℕ
  pub gate : Gate
  pub seq : Counts
  pub log : List Reconcile

unfoldable pub new_interceptor : Option Recorder → ℕ → Interceptor
new_interceptor ops clamp = record { ops = ops; clamp = clamp; gate = new_gate; seq = []; log = [] }

unfoldable pub op_log_len : Interceptor → ℕ
unfolding log_len
op_log_len i = elim i.ops [ none ↦ 0 | some r ↦ log_len r ]

-- A record with its number where it is one of a pass.
abbrev pub numbered : Counts → Reconcile → Reconcile
numbered seq r = record r { seq = count_at r.controller seq }

unfoldable pub append : Reconcile → Interceptor → Interceptor
unfolding count_up
append r i =
    if not r.gated
    then (let seq = count_up r.controller i.seq in
        record i { seq = seq; log = i.log ++ (numbered seq r ∷ []) })
    else record i { log = i.log ++ (r ∷ []) }

unfoldable pub in_namespace : Interceptor → String → List Reconcile
in_namespace i ns = keep (λ r. str_eq r.request.namespace ns) i.log

unfoldable pub requeues : Interceptor → String → List Reconcile
requeues i ns = keep (λ r. str_eq r.request.namespace ns && ltb 0 r.requested_after) i.log

unfoldable pub ops_of : Interceptor → Reconcile → List Op
unfolding ops_between
ops_of i r = elim i.ops [
  | none ↦ []
  | some ops ↦ if r.gated then [] else ops_between ops r.op_from r.op_to r.controller
]

unfoldable pub reconcile_of : Interceptor → String → ℕ → Option Reconcile
reconcile_of i controller n = find attributed i.log
  where
    attributed : Reconcile → Bool
    attributed r =
        if r.gated || not (str_eq r.controller controller)
        then false
        else leb r.op_from n && ltb n r.op_to

unfoldable pub overlapping : Interceptor → ℕ → ℕ → List Reconcile
overlapping i start end = keep (λ r. not r.gated && ltb r.op_from end && ltb start r.op_to) i.log

unfoldable pub passes_for : Interceptor → String → ObjectKey → List Reconcile
passes_for i controller key =
    keep (λ r. str_eq r.controller controller && same_key r.request key) i.log

unfoldable pub find_requeue : Interceptor → String → ObjectKey → ℕ → Option Reconcile
find_requeue i controller key at_least =
    find
      (λ r.
        str_eq r.controller controller && same_key r.request key && leb at_least r.requested_after)
      i.log

-- WaitForRequeue over what the log is at each poll, and whether the deadline is past behind it.
-- `none` inside is the failure; outside, that the polls given were too few.
unfoldable pub wait_for_requeue :
    List (Interceptor × Bool) → String → ObjectKey → ℕ → Option (Option Reconcile)
unfolding find_requeue
wait_for_requeue [] controller key at_least = none
wait_for_requeue ((i, late) ∷ polls) controller key at_least =
    let more = wait_for_requeue polls controller key at_least in
    elim (find_requeue i controller key at_least) [
      | some r ↦ some (some r)
      | none ↦ if late then some none else more
    ]
