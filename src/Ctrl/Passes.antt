-- ===== src/Ctrl/Passes.antt =====
-- intercepted.Reconcile of ctrltest/interceptor.go, called by many goroutines at once.
--
-- A call goes from phase to phase; a step is what one call does between two points where another
-- goroutine may run, or one call of the gate, or one write that a client records.
use testkit.Prelude.{
  ℕ, List, [], ◌∷◌, ◌++◌, Option, none, some, true, false, not, ◌&&◌, String, ltb, if◌then◌else◌,
  get_elem?, set,
}
use testkit.Ctrl.Op.{ObjectKey, Op}
use testkit.Ctrl.Recorder.{file}
use testkit.Ctrl.Gate.{activate, deactivate, pause, is_active, admitted, refused, refuse}
use testkit.Ctrl.Intercept.{Reconcile, Interceptor, op_log_len, append}

-- Called; found inactive; admitted; the delegate runs; a record is to be filed; returned.
pub data Phase : Type 0 where
  asking refusing starting : Phase
  running : Reconcile → Phase
  filing : Reconcile → Phase
  returned : ℕ → Option String → Phase

pub record Call : Type 0 where
  pub controller : String
  pub request : ObjectKey
  pub phase : Phase

pub record System : Type 0 where
  pub ic : Interceptor
  pub calls : List Call

-- A refused request as it is recorded: start and end are one instant.
abbrev pub gated_record : String → ObjectKey → ℕ → ℕ → Reconcile
gated_record controller req requeue now = record {
  controller = controller;
  seq = 0;
  request = req;
  result = requeue;
  requested_after = 0;
  err = none;
  start = now;
  end = now;
  gated = true;
  op_from = 0;
  op_to = 0;
}

abbrev pub started : String → ObjectKey → ℕ → ℕ → Reconcile
started controller req op_from now = record {
  controller = controller;
  seq = 0;
  request = req;
  result = 0;
  requested_after = 0;
  err = none;
  start = now;
  end = 0;
  gated = false;
  op_from = op_from;
  op_to = 0;
}

abbrev pub clamped : ℕ → ℕ → ℕ
clamped clamp requeue = if ltb 0 clamp && ltb clamp requeue then clamp else requeue

-- The pass behind the delegate's return.
abbrev pub ended : ℕ → ℕ → ℕ → ℕ → Option String → Reconcile → Reconcile
ended clamp op_to now requeue err r = record r {
  end = now;
  op_to = op_to;
  err = err;
  requested_after = requeue;
  result = clamped clamp requeue;
}

-- The step of one call from its phase, and the phase behind it.
unfoldable pub move : ℕ → String → ObjectKey → Phase → Interceptor → Interceptor × Phase
unfolding is_active refuse op_log_len append
move now controller req asking i =
    (i, if not (is_active req.namespace i.gate) then refusing else starting)
move now controller req refusing i =
    let (gate, answer) = refuse controller req i.gate in
    (
      record i { gate = gate },
      elim answer [
        | admitted ↦ starting
        | refused requeue noted ↦
            if noted
            then filing (gated_record controller req requeue now)
            else returned requeue none
      ],
    )
move now controller req starting i = (i, running (started controller req (op_log_len i) now))
move now controller req (running r) i = (i, running r)
move now controller req (filing r) i = (append r i, returned r.result r.err)
move now controller req (returned requeue err) i = (i, returned requeue err)

-- The delegate returns; a call in another phase has none running.
unfoldable pub deliver : ℕ → ℕ → Option String → Phase → Interceptor → Phase
unfolding op_log_len
deliver now requeue err (running r) i = filing (ended i.clamp (op_log_len i) now requeue err r)
deliver now requeue err p i = p

-- A write names the call that it is made in, where it is made in one.
pub data Event : Type 0 where
  activates deactivates pauses : String → Event
  writes : Option ℕ → Op → Event
  calls_for : String → ObjectKey → Event
  moves : ℕ → ℕ → Event
  returns : ℕ → ℕ → ℕ → Option String → Event

unfoldable pub recorded : Op → Interceptor → Interceptor
unfolding file
recorded op i = elim i.ops [ none ↦ i | some r ↦ record i { ops = some (file r op) } ]

abbrev moved : ℕ → ℕ → Call → System → System
unfolding move
moved n now c s =
    let (i, p) = move now c.controller c.request c.phase s.ic in
    record { ic = i; calls = set s.calls n (record c { phase = p }) }

abbrev delivered : ℕ → ℕ → ℕ → Option String → Call → System → System
unfolding deliver
delivered n now requeue err c s = record s {
  calls = set s.calls n (record c { phase = deliver now requeue err c.phase s.ic });
}

unfoldable pub step : System → Event → System
unfolding activate deactivate pause recorded moved delivered
step s (activates ns) = record s { ic = record s.ic { gate = activate ns s.ic.gate } }
step s (deactivates ns) = record s { ic = record s.ic { gate = deactivate ns s.ic.gate } }
step s (pauses ns) = record s { ic = record s.ic { gate = pause ns s.ic.gate } }
step s (writes by op) = record s { ic = recorded op s.ic }
step s (calls_for controller req) =
    let c : Call = record { controller = controller; request = req; phase = asking } in
    record s { calls = s.calls ++ (c ∷ []) }
step s (moves n now) = elim (get_elem? s.calls n) [ none ↦ s | some c ↦ moved n now c s ]
step s (returns n now requeue err) = elim (get_elem? s.calls n) [
  | none ↦ s
  | some c ↦ delivered n now requeue err c s
]

unfoldable pub run : System → List Event → System
unfolding step
run s [] = s
run s (e ∷ es) = run (step s e) es
