-- ===== src/Script/Step.antt =====
-- A step of a script against the stream, and the end of a script (ctrltest/script.go).
use testkit.Prelude.{
  ℕ, zero, suc, List, [], ◌∷◌, ◌++◌, Option, none, some, Bool, true, false, not, String,
  if◌then◌else◌, length, get_or,
}
use testkit.Script.Allow.{Event, LeafAllow, Allow, Invalid, Order, validate_allows, flatten_allows}
use testkit.Script.Assign.{Assignment, no_assignment, in_order, assign_events}

-- What next reads: an event, none within its timeout, or that the stream has lost history.
pub data Heard : Type 0 where
  event : Event → Heard
  silent lost : Heard

-- What an error of a step says of the operator; its text is left out.
pub data StepError : Type 0 where
  violated : String → String → StepError
  unsatisfied : List LeafAllow → StepError
  order_violated : Option (ℕ × ℕ) → StepError
  unexpected : Event → StepError

-- What fatalf stops a test for.
pub data Fatal : Type 0 where
  malformed : Invalid → Fatal
  action_failed : String → Fatal
  lost_history undecided : Fatal

pub data Outcome : Type 0 where
  passed : Outcome
  failed : StepError → Outcome
  stopped : Fatal → Outcome

-- An invariant has a name and a check, which gives its error.
abbrev pub Invariants : Type 0
Invariants = List (String × (Event → Option String))

abbrev pub check_invariants : Invariants → Event → Option StepError
check_invariants [] ev = none
check_invariants ((name, check) ∷ more) ev =
    let rest = check_invariants more ev in
    elim (check ev) [ some e ↦ some (violated name e) | none ↦ rest ]

abbrev pub missing : List LeafAllow → Assignment → List LeafAllow
missing [] at = []
missing leaves [] = []
missing (l ∷ leaves) (some e ∷ at) = missing leaves at
missing (l ∷ leaves) (none ∷ at) = l ∷ missing leaves at

-- The pair that orderViolated names.
abbrev pub inverted : Order → Assignment → Option (ℕ × ℕ)
inverted [] at = none
inverted ((earlier, later) ∷ order) at =
    if not (in_order (get_or at earlier none) (get_or at later none))
    then some (earlier, later)
    else inverted order at

-- What a step answers, with what is left of the stream.
abbrev pub Answer : Type 0
Answer = Outcome × List Heard

-- The errors for an event that no assignment fits, by the assignment without the orderings.
abbrev pub blame : Order → Event → Option Assignment → StepError
blame order ev (some free) = order_violated (inverted order free)
blame order ev none = unexpected ev

-- The end of the loop's body, from what assignEvents has answered.
abbrev pub fitted :
    Option Assignment × Bool → StepError → List Heard → (Assignment → Answer) → Answer
fitted (found, false) e heard more = (stopped undecided, heard)
fitted (none, true) e heard more = (failed e, heard)
fitted (some at, true) e heard more = more at

-- An event is checked against the invariants before anything else.
abbrev pub checked : Option StepError → List Heard → Answer → Answer
checked (some e) heard more = (failed e, heard)
checked none heard more = more

-- The settle window of a step, and that of TryFinish.
abbrev pub settle : Invariants → (Event → StepError) → List Heard → Answer
settle invs e [] = (passed, [])
settle invs e (silent ∷ heard) = (passed, heard)
settle invs e (lost ∷ heard) = (stopped lost_history, heard)
settle invs e (event ev ∷ heard) = checked (check_invariants invs ev) heard (failed (e ev), heard)

-- The loop, with `n` leaves more than events seen. A call of next past the end of the list times out.
unfoldable pub await :
    ℕ → Invariants → List LeafAllow → Order → List Event → Assignment → List Heard → Answer
unfolding assign_events
await zero invs leaves order seen at heard = settle invs unexpected heard
await (suc n) invs leaves order seen at [] = (failed (unsatisfied (missing leaves at)), [])
await (suc n) invs leaves order seen at (silent ∷ heard) =
    (failed (unsatisfied (missing leaves at)), heard)
await (suc n) invs leaves order seen at (lost ∷ heard) = (stopped lost_history, heard)
await (suc n) invs leaves order seen at (event ev ∷ heard) =
    let seen' = seen ++ (ev ∷ []) in
    checked (check_invariants invs ev) heard (
      fitted (assign_events seen' leaves order) (blame order ev (assign_events seen' leaves []).0)
        heard (λ at'. await n invs leaves order seen' at' heard))

-- `action` is the error of what the step does first.
unfoldable pub try_step : Invariants → Option String → List Allow → List Heard → Answer
unfolding validate_allows flatten_allows await
try_step invs action allow heard =
    let leaves = (flatten_allows allow).0 in
    let order = (flatten_allows allow).1 in
    let n = length leaves in
    let ran = await n invs leaves order [] (no_assignment n) heard in
    elim (validate_allows allow) [
      | some e ↦ (stopped (malformed e), heard)
      | none ↦ elim action [ some e ↦ (stopped (action_failed e), heard) | none ↦ ran ]
    ]

-- The script is finished from here on, whatever is found.
abbrev pub try_finish : Invariants → List Heard → Answer
try_finish invs heard = settle invs unexpected heard
