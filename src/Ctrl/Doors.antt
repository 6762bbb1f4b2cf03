-- ===== src/Ctrl/Doors.antt =====
-- How long a namespace stays active, or paused (ctrltest/interceptor.go).
use testkit.Prelude.{
  ℕ, List, [], ◌∷◌, Bool, true, false, not, ◌&&◌, ◌||◌, String, str_eq, ◌≡◌, refl, ap, ◌∙◌, inl,
  inr, Bool-cases, Option-cases, All, get_elem?, or_true, and_false,
}
use testkit.Ctrl.Op.{ObjectKey, Op}
use testkit.Ctrl.Gate.{Gate, has, remove, clear_pause_locked, activate, deactivate, pause, refuse}
use testkit.Ctrl.Gates.{has-put, has-remove}
use testkit.Ctrl.GateRun.{append_gate}
use testkit.Ctrl.Intercept.{Interceptor}
use testkit.Ctrl.Passes.{
  Phase, asking, refusing, starting, running, filing, returned, System, move, Event, activates,
  deactivates, pauses, writes, calls_for, moves, returns, recorded, step, run,
}

-- Events that leave a namespace active, and events that leave it paused and inactive.
abbrev pub KeepsActive : String → Event → Type 0
KeepsActive ns (deactivates x) = str_eq x ns ≡ false
KeepsActive ns (pauses x) = str_eq x ns ≡ false
KeepsActive ns _ = Unit

abbrev pub KeepsPaused : String → Event → Type 0
KeepsPaused ns (activates x) = str_eq x ns ≡ false
KeepsPaused ns (deactivates x) = str_eq x ns ≡ false
KeepsPaused ns _ = Unit

-- The gate moves by its own calls alone: what a refusal adds is no member of its two sets.
refuse_sets :
    (controller : String) (req : ObjectKey) (g : Gate)
    → ((refuse controller req g).0.active ≡ g.active)
      × ((refuse controller req g).0.paused ≡ g.paused)
unfolding refuse
refuse_sets controller req g = elim (Bool-cases (has req.namespace g.active)) [
  | inl t ↦ rw (t, refuse) (refl, refl)
  | inr f ↦ elim (Bool-cases (has req.namespace g.paused)) [
    | inl t ↦ rw (f, refuse) (rw (t, refuse) (refl, refl))
    | inr u ↦ rw (f, refuse) (rw (u, refuse) (refl, refl))
  ]
]

move_sets :
    (now : ℕ) (controller : String) (req : ObjectKey) (p : Phase) (i : Interceptor)
    → ((move now controller req p i).0.gate.active ≡ i.gate.active)
      × ((move now controller req p i).0.gate.paused ≡ i.gate.paused)
unfolding move
move_sets now controller req asking i = (refl, refl)
move_sets now controller req refusing i = refuse_sets controller req i.gate
move_sets now controller req starting i = (refl, refl)
move_sets now controller req (running r) i = (refl, refl)
move_sets now controller req (filing r) i =
    (ap (λ g. g.active) (append_gate r i), ap (λ g. g.paused) (append_gate r i))
move_sets now controller req (returned a e) i = (refl, refl)

recorded_gate : (op : Op) (i : Interceptor) → (recorded op i).gate ≡ i.gate
unfolding recorded
recorded_gate op i = elim (Option-cases i.ops) [
  | inl e ↦ rw (e, recorded) refl
  | inr (r, e) ↦ rw (e, recorded) refl
]

step-active :
    (ns : String) (s : System) (e : Event)
    → KeepsActive ns e
    → has ns s.ic.gate.active ≡ true
    → has ns (step s e).ic.gate.active ≡ true
unfolding step activate deactivate pause clear_pause_locked
step-active ns s (activates x) k h = has-put ns x s.ic.gate.active ∙ or_true (str_eq x ns) _ h
step-active ns s (deactivates x) k h = has-remove ns x s.ic.gate.active ∙ rw (k, h) refl
step-active ns s (pauses x) k h = has-remove ns x s.ic.gate.active ∙ rw (k, h) refl
step-active ns s (writes by op) k h = ap (λ g. has ns g.active) (recorded_gate op s.ic) ∙ h
step-active ns s (calls_for controller req) k h = h
step-active ns s (moves n now) k h = elim (Option-cases (get_elem? s.calls n)) [
  | inl e ↦ rw (e, step) h
  | inr (c, e) ↦
      rw (e, step) (ap (has ns) (move_sets now c.controller c.request c.phase s.ic).0 ∙ h)
]
step-active ns s (returns n now requeue err) k h = elim (Option-cases (get_elem? s.calls n)) [
  | inl e ↦ rw (e, step) h
  | inr (c, e) ↦ rw (e, step) h
]

pub run-active :
    (ns : String) (es : List Event) (s : System)
    → All (KeepsActive ns) es
    → has ns s.ic.gate.active ≡ true
    → has ns (run s es).ic.gate.active ≡ true
unfolding run
run-active ns [] s k h = h
run-active ns (e ∷ es) s k h = run-active ns es (step s e) k.1 (step-active ns s e k.0 h)

-- Paused, and not active.
abbrev pub Closed : String → System → Type 0
Closed ns s = (has ns s.ic.gate.active ≡ false) × (has ns s.ic.gate.paused ≡ true)

pub or_not : (a b : Bool) → b ≡ true → a || (not a && b) ≡ true
or_not true b h = refl
or_not false b h = h

step-Closed :
    (ns : String) (s : System) (e : Event) → KeepsPaused ns e → Closed ns s → Closed ns (step s e)
unfolding step activate deactivate pause clear_pause_locked
step-Closed ns s (activates x) k h = (
  has-put ns x s.ic.gate.active ∙ rw (k, h.0) refl,
  has-remove ns x s.ic.gate.paused ∙ rw (k, h.1) refl,
)
step-Closed ns s (deactivates x) k h = (
  has-remove ns x s.ic.gate.active ∙ and_false _ _ h.0,
  has-remove ns x s.ic.gate.paused ∙ rw (k, h.1) refl,
)
step-Closed ns s (pauses x) k h = (
  has-remove ns x s.ic.gate.active ∙ and_false _ _ h.0,
  has-put ns x (remove x s.ic.gate.paused)
      ∙ ap (λ b. str_eq x ns || b) (has-remove ns x s.ic.gate.paused)
      ∙ or_not (str_eq x ns) (has ns s.ic.gate.paused) h.1,
)
step-Closed ns s (writes by op) k h = (
  ap (λ g. has ns g.active) (recorded_gate op s.ic) ∙ h.0,
  ap (λ g. has ns g.paused) (recorded_gate op s.ic) ∙ h.1,
)
step-Closed ns s (calls_for controller req) k h = h
step-Closed ns s (moves n now) k h = elim (Option-cases (get_elem? s.calls n)) [
  | inl e ↦ rw (e, step) h
  | inr (c, e) ↦
      let m = move_sets now c.controller c.request c.phase s.ic in
      rw (e, step) (ap (has ns) m.0 ∙ h.0, ap (has ns) m.1 ∙ h.1)
]
step-Closed ns s (returns n now requeue err) k h = elim (Option-cases (get_elem? s.calls n)) [
  | inl e ↦ rw (e, step) h
  | inr (c, e) ↦ rw (e, step) h
]

pub run-Closed :
    (ns : String) (es : List Event) (s : System)
    → All (KeepsPaused ns) es
    → Closed ns s
    → Closed ns (run s es)
unfolding run
run-Closed ns [] s k h = h
run-Closed ns (e ∷ es) s k h = run-Closed ns es (step s e) k.1 (step-Closed ns s e k.0 h)
