-- ===== src/Ctrl/Admission.antt =====
-- Who is let in while a namespace is active, and what a pause answers (ctrltest/interceptor.go).
use testkit.Prelude.{
  ℕ, List, [], ◌∷◌, true, false, Option, none, some, String, eq_iff, ◌≡◌, ◌⊎◌, refl, ap, ◌∙◌, inl,
  inr, Bool-cases, All, get_elem?, get_elem?-set_self,
}
use testkit.Ctrl.Op.{ObjectKey}
use testkit.Ctrl.Gate.{
  has, remove, has_gated, clear_pause_locked, activate, pause, is_active, refuse, pause_retry,
}
use testkit.Ctrl.Gates.{has-put, has-remove}
use testkit.Ctrl.Doors.{KeepsActive, KeepsPaused, run-active, Closed, run-Closed}
use testkit.Ctrl.Intercept.{Reconcile, Interceptor}
use testkit.Ctrl.Traffic.{Runs}
use testkit.Ctrl.Passes.{
  Phase, asking, refusing, starting, running, filing, returned, Call, System, move, Event,
  activates, pauses, moves, step, run,
}

-- Call `n`, with its phase.
abbrev pub Has : ℕ → String → ObjectKey → Phase → System → Type 0
Has n controller req p s =
    get_elem? s.calls n ≡ some (record { controller = controller; request = req; phase = p })

-- The phase of a call behind its own move.
moves_to :
    (s : System) (n now : ℕ) (controller : String) (req : ObjectKey) (p : Phase)
    → Has n controller req p s
    → Has n controller req (move now controller req p s.ic).1 (step s (moves n now))
      × ((step s (moves n now)).ic ≡ (move now controller req p s.ic).0)
unfolding step
moves_to s n now controller req p h =
    (rw (h, step) (get_elem?-set_self s.calls n _ h), rw (h, step) refl)

-- A call in one phase is in an equal one.
to_phase :
    {controller : String} {req : ObjectKey} {x : Option Call} {p q : Phase}
    → p ≡ q
    → x ≡ some (record { controller = controller; request = req; phase = p })
    → x ≡ some (record { controller = controller; request = req; phase = q })
to_phase {controller} {req} e h =
    h ∙ ap (λ y. some (record { controller = controller; request = req; phase = y })) e

ask_active :
    (now : ℕ) (controller : String) (req : ObjectKey) (i : Interceptor)
    → has req.namespace i.gate.active ≡ true
    → (move now controller req asking i).1 ≡ starting
unfolding move is_active
ask_active now controller req i h = rw (move, is_active, h) refl

refuse_active :
    (now : ℕ) (controller : String) (req : ObjectKey) (i : Interceptor)
    → has req.namespace i.gate.active ≡ true
    → (move now controller req refusing i).1 ≡ starting
unfolding move refuse
refuse_active now controller req i h = rw (move, refuse, h) refl

activated : (s : System) (ns : String) → has ns (step s (activates ns)).ic.gate.active ≡ true
unfolding step activate clear_pause_locked
activated s ns = has-put ns ns s.ic.gate.active ∙ rw ((eq_iff ns ns).1 refl) refl

closes : (s : System) (ns : String) → Closed ns (step s (pauses ns))
unfolding step pause clear_pause_locked
closes s ns =
    let same = (eq_iff ns ns).1 refl in
    (
      has-remove ns ns s.ic.gate.active ∙ rw same refl,
      has-put ns ns (remove ns s.ic.gate.paused) ∙ rw same refl,
    )

-- From the activation of a namespace on, for as long as it is neither deactivated nor paused and
-- whatever else happens, a call for a request to it that is asking, or was found inactive before the
-- activation and is about to be refused, is admitted at its next move and runs its delegate at the
-- move after that: no wake-up is lost between the two looks at the gate.
pub activate_admits :
    (s : System) (ns : String) (es : List Event) (n now later : ℕ) (controller : String)
    (req : ObjectKey) (p : Phase)
    → All (KeepsActive ns) es
    → req.namespace ≡ ns
    → (p ≡ asking) ⊎ (p ≡ refusing)
    → Has n controller req p (run (step s (activates ns)) es)
    → let s' = run (step s (activates ns)) es in
      (rec : Reconcile) × Runs n controller req rec (run s' (moves n now ∷ moves n later ∷ []))
unfolding run
activate_admits s ns es n now later controller req p k q d h =
    let s' = run (step s (activates ns)) es in
    let open_ns = run-active ns es (step s (activates ns)) k (activated s ns) in
    let open_req = ap (λ x. has x s'.ic.gate.active) q ∙ open_ns in
    let first = moves_to s' n now controller req p h in
    let to_start = by_phase s' d open_req in
    let begun : Has n controller req starting (step s' (moves n now)) = to_phase to_start first.0 in
    (_, (moves_to (step s' (moves n now)) n later controller req starting begun).0)
  where
    by_phase :
        (s' : System)
        → (p ≡ asking) ⊎ (p ≡ refusing)
        → has req.namespace s'.ic.gate.active ≡ true
        → (move now controller req p s'.ic).1 ≡ starting
    by_phase s' (inl e) a = rw e (ask_active now controller req s'.ic a)
    by_phase s' (inr e) a = rw e (refuse_active now controller req s'.ic a)

-- What a refused request is in while its namespace is paused: its record to be filed, or answered.
abbrev PausedPhase : Phase → Type 0
PausedPhase (filing r) = (r.result ≡ pause_retry) × (r.err ≡ none)
PausedPhase (returned requeue err) = (requeue ≡ pause_retry) × (err ≡ none)
PausedPhase _ = ⊥

refuse_paused :
    (now : ℕ) (controller : String) (req : ObjectKey) (i : Interceptor)
    → has req.namespace i.gate.active ≡ false
    → has req.namespace i.gate.paused ≡ true
    → PausedPhase (move now controller req refusing i).1
unfolding move refuse
refuse_paused now controller req i a b =
    elim (Bool-cases
      (has_gated (record { controller = controller; req = req }) i.gate.gated_once)) [
        | inl t ↦ rw (move, refuse, a) (rw b (rw t (refl, refl)))
        | inr f ↦ rw (move, refuse, a) (rw b (rw f (refl, refl)))
      ]

answer_paused :
    (now : ℕ) (controller : String) (req : ObjectKey) (p : Phase) (i : Interceptor)
    → PausedPhase p
    → (move now controller req p i).1 ≡ returned pause_retry none
unfolding move
answer_paused now controller req asking i h = absurd h
answer_paused now controller req refusing i h = absurd h
answer_paused now controller req starting i h = absurd h
answer_paused now controller req (running r) i h = absurd h
answer_paused now controller req (filing r) i h = rw (h.0, h.1) refl
answer_paused now controller req (returned a e) i h = rw (h.0, h.1) refl

ask_closed :
    (now : ℕ) (controller : String) (req : ObjectKey) (i : Interceptor)
    → has req.namespace i.gate.active ≡ false
    → (move now controller req asking i).1 ≡ refusing
unfolding move is_active
ask_closed now controller req i h = rw (move, is_active, h) refl

Answered : ℕ → String → ObjectKey → System → Type 0
Answered n controller req s = Has n controller req (returned pause_retry none) s

answers_on :
    (s : System) (n now : ℕ) (controller : String) (req : ObjectKey) (p : Phase)
    → PausedPhase p
    → Has n controller req p s
    → Answered n controller req (step s (moves n now))
unfolding Answered
answers_on s n now controller req p d h =
    to_phase (answer_paused now controller req p s.ic d) (moves_to s n now controller req p h).0

shut_here :
    (s : System) (ns : String) (req : ObjectKey)
    → req.namespace ≡ ns
    → Closed ns s
    → Closed req.namespace s
shut_here s ns req e c = rw e c

-- From the pause of a namespace on, for as long as it is neither activated nor deactivated and
-- whatever else happens, a call for a request to it that is asking, or that the pause has overtaken
-- between the two looks at the gate, is not admitted: within three moves of its own it has returned
-- no error and the requeue of a pause, by which the controller's queue brings the request back.
pub pause_answers :
    (s : System) (ns : String) (es : List Event) (n a b c : ℕ) (controller : String)
    (req : ObjectKey) (p : Phase)
    → All (KeepsPaused ns) es
    → req.namespace ≡ ns
    → (p ≡ asking) ⊎ (p ≡ refusing)
    → Has n controller req p (run (step s (pauses ns)) es)
    → let s' = run (step s (pauses ns)) es in
      Has n controller req
        (returned pause_retry none)
        (run s' (moves n a ∷ moves n b ∷ moves n c ∷ []))
unfolding run Answered
pause_answers s ns es n a b c controller req p k q d h =
    by_phase d (shut_here s' ns req q (run-Closed ns es (step s (pauses ns)) k (closes s ns)))
  where
    s' : System
    s' = run (step s (pauses ns)) es

    s1 : System
    s1 = step s' (moves n a)

    by_phase :
        (p ≡ asking) ⊎ (p ≡ refusing)
        → Closed req.namespace s'
        → Answered n controller req (step (step s1 (moves n b)) (moves n c))
    by_phase (inl e) shut =
        let one =
          to_phase (ask_closed a controller req s'.ic shut.0)
            (moves_to s' n a controller req asking (to_phase e h)).0 in
        let shut1 = run-Closed req.namespace (moves n a ∷ []) s' (tt, tt) shut in
        let two = moves_to s1 n b controller req refusing one in
        answers_on (step s1 (moves n b)) n c controller req _
          (refuse_paused b controller req s1.ic shut1.0 shut1.1) two.0
    by_phase (inr e) shut =
        let one = moves_to s' n a controller req refusing (to_phase e h) in
        let two =
          answers_on s1 n b controller req _ (refuse_paused a controller req s'.ic shut.0 shut.1)
            one.0 in
        answers_on (step s1 (moves n b)) n c controller req _ (refl, refl) two
