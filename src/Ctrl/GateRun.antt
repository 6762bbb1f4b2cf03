-- ===== src/Ctrl/GateRun.antt =====
-- The gate over every interleaving of calls (ctrltest/interceptor.go).
use testkit.Prelude.{
  ℕ, List, [], ◌∷◌, Option, String, ◌≡◌, refl, inl, inr, Bool-cases, Option-cases, get_elem?,
}
use testkit.Ctrl.Op.{ObjectKey}
use testkit.Ctrl.Recorder.{Recorder}
use testkit.Ctrl.Gate.{new_gate, is_active, is_paused}
use testkit.Ctrl.Gates.{GateOk, activate-GateOk, deactivate-GateOk, pause-GateOk, refuse-GateOk}
use testkit.Ctrl.Intercept.{Reconcile, Interceptor, new_interceptor, append}
use testkit.Ctrl.Passes.{
  Phase, asking, refusing, starting, running, filing, returned, System, move, Event, activates,
  deactivates, pauses, writes, calls_for, moves, returns, step, run,
}

pub append_gate : (r : Reconcile) (i : Interceptor) → (append r i).gate ≡ i.gate
unfolding append
append_gate r i = elim (Bool-cases r.gated) [
  | inl t ↦ rw (t, append) refl
  | inr f ↦ rw (f, append) refl
]

move-GateOk :
    (now : ℕ) (controller : String) (req : ObjectKey) (p : Phase) (i : Interceptor)
    → GateOk i.gate
    → GateOk (move now controller req p i).0.gate
unfolding move
move-GateOk now controller req asking i h = h
move-GateOk now controller req refusing i h = refuse-GateOk controller req i.gate h
move-GateOk now controller req starting i h = h
move-GateOk now controller req (running r) i h = h
move-GateOk now controller req (filing r) i h = rw (append_gate r i) h
move-GateOk now controller req (returned a e) i h = h

step-GateOk : (s : System) (e : Event) → GateOk s.ic.gate → GateOk (step s e).ic.gate
unfolding step
step-GateOk s (activates ns) h = activate-GateOk ns s.ic.gate h
step-GateOk s (deactivates ns) h = deactivate-GateOk ns s.ic.gate h
step-GateOk s (pauses ns) h = pause-GateOk ns s.ic.gate h
step-GateOk s (writes by op) h = elim (Option-cases s.ic.ops) [
  | inl e ↦ rw (e, step) h
  | inr (r, e) ↦ rw (e, step) h
]
step-GateOk s (calls_for controller req) h = h
step-GateOk s (moves n now) h = elim (Option-cases (get_elem? s.calls n)) [
  | inl e ↦ rw (e, step) h
  | inr (c, e) ↦ rw (e, step) (move-GateOk now c.controller c.request c.phase s.ic h)
]
step-GateOk s (returns n now requeue err) h = elim (Option-cases (get_elem? s.calls n)) [
  | inl e ↦ rw (e, step) h
  | inr (c, e) ↦ rw (e, step) h
]

run-GateOk : (s : System) (es : List Event) → GateOk s.ic.gate → GateOk (run s es).ic.gate
unfolding run
run-GateOk s [] h = h
run-GateOk s (e ∷ es) h = run-GateOk (step s e) es (step-GateOk s e h)

-- NewInterceptor, before any call.
unfoldable pub new_system : Option Recorder → ℕ → System
unfolding new_interceptor
new_system ops clamp = record { ic = new_interceptor ops clamp; calls = [] }

-- Whatever the gate's callers and the goroutines of the controllers do, in any interleaving, no
-- namespace is ever active and paused at once, and each request that is remembered as recorded is to
-- a namespace that is paused: the memory of a pause never outlives it.
pub new_system-GateOk :
    (ops : Option Recorder) (clamp : ℕ) (es : List Event)
    → GateOk (run (new_system ops clamp) es).ic.gate
unfolding new_system is_active is_paused
new_system-GateOk ops clamp es = run-GateOk (new_system ops clamp) es new_gate-GateOk
  where
    new_gate-GateOk : GateOk new_gate
    new_gate-GateOk = record { apart = λ ns e. absurd cc; kept = tt }
