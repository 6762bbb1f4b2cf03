-- ===== src/Ctrl/Filed.antt =====
-- What holds of the interceptor and of every record on its way to the log, over every interleaving
-- (ctrltest/interceptor.go).
use testkit.Prelude.{
  ℕ, List, [], ◌∷◌, ◌++◌, Bool, true, false, not, Option, none, some, String, if◌then◌else◌, ◌≡◌,
  ◌⊎◌, refl, inl, inr, Bool-cases, Option-cases, get_elem?, All, All-append, All-set, All-get_elem?,
}
use testkit.Ctrl.Op.{ObjectKey, Op}
use testkit.Ctrl.Recorder.{Recorder, file, count_up}
use testkit.Ctrl.Gate.{
  Gate, has, has_gated, activate, deactivate, pause, is_active, admitted, refused, refuse,
  pause_retry,
}
use testkit.Ctrl.Intercept.{Reconcile, Interceptor, numbered, append, op_log_len}
use testkit.Ctrl.Passes.{
  Phase, asking, refusing, starting, running, filing, returned, Call, System, gated_record, ended,
  move, deliver, Event, activates, deactivates, pauses, writes, calls_for, moves, returns, recorded,
  step, run,
}

-- The log behind a refused request, and behind a pass.
abbrev pub with_refused : Reconcile → Interceptor → Interceptor
with_refused r i = record i { log = i.log ++ (r ∷ []) }

unfoldable pub with_pass : Reconcile → Interceptor → Interceptor
unfolding count_up
with_pass r i =
    let seq = count_up r.controller i.seq in
    record i { seq = seq; log = i.log ++ (numbered seq r ∷ []) }

pub append_cases :
    (r : Reconcile) (i : Interceptor)
    → ((r.gated ≡ true) × (append r i ≡ with_refused r i))
      ⊎ ((r.gated ≡ false) × (append r i ≡ with_pass r i))
unfolding append with_pass
append_cases r i = by_gated r.gated refl
  where
    by_gated :
        (b : Bool)
        → r.gated ≡ b
        → ((r.gated ≡ true)
            × ((if not b then with_pass r i else with_refused r i) ≡ with_refused r i))
          ⊎ ((r.gated ≡ false)
              × ((if not b then with_pass r i else with_refused r i) ≡ with_pass r i))
    by_gated true e = inl (e, refl)
    by_gated false e = inr (e, refl)

module _ (R : Reconcile → Type 0) where
  abbrev pub PhaseOk : Phase → Type 0
  PhaseOk (running r) = r.gated ≡ false
  PhaseOk (filing r) = R r
  PhaseOk _ = Unit

  abbrev pub CallOk : Call → Type 0
  CallOk c = PhaseOk c.phase

-- `Q` is about the interceptor, and `R` about a record that is to be filed.
pub record Steady (Q : Interceptor → Type 0) (R : Reconcile → Type 0) : Type 0 where
  pub regated : (i : Interceptor) (g : Gate) → Q i → Q (record i { gate = g })
  pub reopped : (i : Interceptor) (o : Option Recorder) → Q i → Q (record i { ops = o })
  pub appended : (i : Interceptor) (r : Reconcile) → R r → Q i → Q (append r i)
  pub noted :
      (controller : String) (req : ObjectKey) (requeue now : ℕ)
      → (requeue ≡ 0) ⊎ (requeue ≡ pause_retry)
      → R (gated_record controller req requeue now)
  pub ending :
      (i : Interceptor) (r : Reconcile) (now requeue : ℕ) (err : Option String)
      → r.gated ≡ false
      → Q i
      → R (ended i.clamp (op_log_len i) now requeue err r)

module _ (Q : Interceptor → Type 0) (R : Reconcile → Type 0) (st : Steady Q R) where
  abbrev pub SystemOk : System → Type 0
  SystemOk s = Q s.ic × All (CallOk R) s.calls

  answer_ok :
      (controller : String) (req : ObjectKey) (now : ℕ) (g : Gate)
      → PhaseOk R (elim (refuse controller req g).1 [
        | admitted ↦ starting
        | refused requeue noted ↦
            if noted
            then filing (gated_record controller req requeue now)
            else returned requeue none
      ])
  unfolding refuse
  answer_ok controller req now g = elim (Bool-cases (has req.namespace g.active)) [
    | inl t ↦ rw (t, refuse) tt
    | inr f ↦ elim (Bool-cases (has req.namespace g.paused)) [
      | inr u ↦ rw (f, refuse) (rw (u, refuse) (st.noted controller req 0 now (inl refl)))
      | inl t ↦
          elim (Bool-cases
            (has_gated (record { controller = controller; req = req }) g.gated_once)) [
              | inl a ↦ rw (f, refuse) (rw (t, refuse) (rw (a, refuse) tt))
              | inr b ↦
                  rw (f, refuse)
                    (rw (t, refuse)
                      (rw (b, refuse) (st.noted controller req pause_retry now (inr refl))))
            ]
    ]
  ]

  move_ok :
      (now : ℕ) (controller : String) (req : ObjectKey) (p : Phase) (i : Interceptor)
      → Q i
      → PhaseOk R p
      → Q (move now controller req p i).0 × PhaseOk R (move now controller req p i).1
  unfolding move
  move_ok now controller req asking i q h = elim (Bool-cases (is_active req.namespace i.gate)) [
    | inl t ↦ rw (t, move) (q, tt)
    | inr f ↦ rw (f, move) (q, tt)
  ]
  move_ok now controller req refusing i q h =
      (st.regated i (refuse controller req i.gate).0 q, answer_ok controller req now i.gate)
  move_ok now controller req starting i q h = (q, refl)
  move_ok now controller req (running r) i q h = (q, h)
  move_ok now controller req (filing r) i q h = (st.appended i r h q, tt)
  move_ok now controller req (returned a e) i q h = (q, tt)

  deliver_ok :
      (now requeue : ℕ) (err : Option String) (p : Phase) (i : Interceptor)
      → Q i
      → PhaseOk R p
      → PhaseOk R (deliver now requeue err p i)
  unfolding deliver
  deliver_ok now requeue err asking i q h = tt
  deliver_ok now requeue err refusing i q h = tt
  deliver_ok now requeue err starting i q h = tt
  deliver_ok now requeue err (running r) i q h = st.ending i r now requeue err h q
  deliver_ok now requeue err (filing r) i q h = h
  deliver_ok now requeue err (returned a e) i q h = tt

  recorded_ok : (op : Op) (i : Interceptor) → Q i → Q (recorded op i)
  unfolding recorded
  recorded_ok op i q = by_ops i.ops
    where
      by_ops :
          (o : Option Recorder)
          → Q (elim o [ none ↦ i | some r ↦ record i { ops = some (file r op) } ])
      by_ops none = q
      by_ops (some r) = st.reopped i (some (file r op)) q

  step_ok : (s : System) (e : Event) → SystemOk s → SystemOk (step s e)
  unfolding step recorded
  step_ok s (activates ns) h = (st.regated s.ic (activate ns s.ic.gate) h.0, h.1)
  step_ok s (deactivates ns) h = (st.regated s.ic (deactivate ns s.ic.gate) h.0, h.1)
  step_ok s (pauses ns) h = (st.regated s.ic (pause ns s.ic.gate) h.0, h.1)
  step_ok s (writes by op) h = (recorded_ok op s.ic h.0, h.1)
  step_ok s (calls_for controller req) h = (h.0, All-append (CallOk R) s.calls _ h.1 (tt, tt))
  step_ok s (moves n now) h = elim (Option-cases (get_elem? s.calls n)) [
    | inl e ↦ rw (e, step) h
    | inr (c, e) ↦
        let m =
          move_ok now c.controller c.request c.phase s.ic h.0
            (All-get_elem? (CallOk R) s.calls n e h.1) in
        rw (e, step) (m.0, All-set (CallOk R) s.calls n _ h.1 m.1)
  ]
  step_ok s (returns n now requeue err) h = elim (Option-cases (get_elem? s.calls n)) [
    | inl e ↦ rw (e, step) h
    | inr (c, e) ↦
        let m =
          deliver_ok now requeue err c.phase s.ic h.0 (All-get_elem? (CallOk R) s.calls n e h.1) in
        rw (e, step) (h.0, All-set (CallOk R) s.calls n _ h.1 m)
  ]

  pub run_ok : (s : System) (es : List Event) → SystemOk s → SystemOk (run s es)
  unfolding run
  run_ok s [] h = h
  run_ok s (e ∷ es) h = run_ok (step s e) es (step_ok s e h)
