-- ===== src/Examples/Script.antt =====
-- A step that permits two changes in order (ctrltest/script.go).
use testkit.Prelude.{◌↔◌, String, Option, List, [], ◌∷◌, none, some, ◌≡◌, refl}
use testkit.Script.Allow.{
  Event, Allow, before, added, changed, quiet, validate_allows, flatten_allows, quiet_combined,
}
use testkit.Script.Assign.{Assignment, match_all, assign_events}
use testkit.Script.Step.{
  event, silent, passed, failed, unexpected, order_violated, Invariants, await, try_step,
  try_finish,
}
use testkit.Script.Assigned.{Assigned}
use testkit.Script.Blame.{Unfit, match_all_lem, try_step-Unfit}
use testkit.Script.Passing.{Passing, try_step-Passing}

abbrev pod_added : Event
pod_added = record {
  type = "added";
  kind = "Pod";
  key = record { namespace = "ns"; name = "a" };
  changed = [];
}

abbrev shard_changed : Event
shard_changed = record {
  type = "modified";
  kind = "Shard";
  key = record { namespace = "ns"; name = "s" };
  changed = "status.ready" ∷ "status.phase" ∷ [];
}

abbrev rollout : List Allow
rollout = before (added "Pod" "a") (changed "Shard" "s" ("status.phase" ∷ [])) ∷ []

abbrev no_error : Option String
no_error = none

abbrev named : Invariants
named = ("named", λ ev. none) ∷ []

passes :
    try_step named none rollout (event pod_added ∷ event shard_changed ∷ silent ∷ silent ∷ [])
    ≡ (passed, silent ∷ [])
unfolding try_step await assign_events validate_allows flatten_allows
passes = refl

wrong_order :
    (try_step named none rollout (event shard_changed ∷ event pod_added ∷ [])).0
    ≡ failed (order_violated (some (0, 1)))
unfolding try_step await assign_events validate_allows flatten_allows
wrong_order = refl

straggler : (try_finish named (event pod_added ∷ [])).0 ≡ failed (unexpected pod_added)
straggler = refl

quiet_alone : validate_allows (quiet ∷ added "Pod" "a" ∷ []) ≡ some quiet_combined
unfolding validate_allows
quiet_alone = refl

try_step-Passing_example :
    let heard = event pod_added ∷ event shard_changed ∷ silent ∷ silent ∷ [] in
    (validate_allows rollout ≡ none)
    × (no_error ≡ none)
    × Passing named rollout heard (try_step named no_error rollout heard).1
unfolding try_step await assign_events validate_allows flatten_allows
try_step-Passing_example =
    try_step-Passing named no_error rollout
      (event pod_added ∷ event shard_changed ∷ silent ∷ silent ∷ []) refl

match_all_lem_example :
    let leaves = (flatten_allows rollout).0 in
    let seen = shard_changed ∷ pod_added ∷ [] in
    ((at : Assignment) × (match_all seen leaves ≡ some at))
    ↔ ((at : Assignment) × Assigned seen leaves [] at)
match_all_lem_example = match_all_lem (shard_changed ∷ pod_added ∷ []) (flatten_allows rollout).0

try_step-Unfit_example :
    Unfit (flatten_allows rollout).0 pod_added [] (event pod_added ∷ event pod_added ∷ silent ∷ [])
unfolding try_step await assign_events validate_allows flatten_allows
try_step-Unfit_example =
    try_step-Unfit named no_error rollout (event pod_added ∷ event pod_added ∷ silent ∷ [])
      pod_added refl
