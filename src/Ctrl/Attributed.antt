-- ===== src/Ctrl/Attributed.antt =====
-- The writes of one pass, found again in the log of all writes (Ops in ctrltest/interceptor.go).
use testkit.Prelude.{
  ℕ, ◌+◌, List, [], ◌∷◌, ◌++◌, false, ◌&&◌, Option, some, String, str_eq, ltb, if◌then◌else◌, ◌≡◌,
  refl, ap, ap₂, ◌∙◌, inl, inr, Bool-cases, All, length, length-append, get_elem?, take, drop,
  arith, drop-append, drop-length, get_elem?-set_self, take-append,
}
use testkit.Ctrl.Op.{ObjectKey, Op, accepted}
use testkit.Ctrl.Recorder.{Recorder, log_len, keep, ops_between}
use testkit.Ctrl.Intercept.{Reconcile, Interceptor, op_log_len, ops_of}
use testkit.Ctrl.Traffic.{writes_of, made_in, own_writes, During, run-Grown, Runs, run-Runs}
use testkit.Ctrl.Passes.{
  starting, filing, System, started, ended, move, deliver, Event, activates, deactivates, pauses,
  writes, calls_for, moves, returns, step, run,
}

keep-own :
    (n : ℕ) (controller : String) (es : List Event)
    → All (During n controller) es
    → keep (λ op. accepted op && str_eq op.controller controller) (writes_of es)
      ≡ keep accepted (own_writes n es)
keep-own n controller [] d = refl
keep-own n controller (writes by op ∷ es) d =
    let ih = keep-own n controller es d.1 in
    elim (Bool-cases (made_in n by)) [
      | inl t ↦ elim (Bool-cases (accepted op)) [
        | inl a ↦ rw (a, d.0, t) (rw a (ap (◌∷◌ op) ih))
        | inr b ↦ rw (b, t) (rw b ih)
      ]
      | inr f ↦ elim (Bool-cases (accepted op)) [ inl a ↦ rw (a, d.0, f) ih | inr b ↦ rw (b, f) ih ]
    ]
keep-own n controller (activates ns ∷ es) d = keep-own n controller es d.1
keep-own n controller (deactivates ns ∷ es) d = keep-own n controller es d.1
keep-own n controller (pauses ns ∷ es) d = keep-own n controller es d.1
keep-own n controller (calls_for c r ∷ es) d = keep-own n controller es d.1
keep-own n controller (moves m now ∷ es) d = keep-own n controller es d.1
keep-own n controller (returns m now q err ∷ es) d = keep-own n controller es d.1

ops_between_lem :
    (r : Recorder) (before own after : List Op) (controller : String)
    → r.ops ≡ (before ++ own) ++ after
    → ops_between r (length before) (length (before ++ own)) controller
      ≡ keep (λ op. accepted op && str_eq op.controller controller) own
unfolding ops_between
ops_between_lem r before own after controller e =
    let start = length before in
    let end = length (before ++ own) in
    let cut : (if ltb end (length r.ops) then end else length r.ops) ≡ end =
      whole end (length r.ops) (length after) (ap length e ∙ length-append (before ++ own) after) in
    ap (keep (λ op. accepted op && str_eq op.controller controller)) (
      ap₂ (λ m ops. drop start (take m ops)) cut e
      ∙ ap (drop start) (take-append (before ++ own) after)
      ∙ drop-append start before own (omega arith)
      ∙ ap (λ q. q ++ own) (drop-length before))
  where
    whole : (a b k : ℕ) → b ≡ a + k → (if ltb a b then a else b) ≡ a
    whole a b k h = ground arith

op_log_len_lem : (i : Interceptor) (r : Recorder) → i.ops ≡ some r → op_log_len i ≡ length r.ops
unfolding op_log_len log_len
op_log_len_lem i r e = rw (op_log_len, e) refl

ops_of_lem :
    (i : Interceptor) (r : Recorder) (rec : Reconcile)
    → i.ops ≡ some r
    → rec.gated ≡ false
    → ops_of i rec ≡ ops_between r rec.op_from rec.op_to rec.controller
unfolding ops_of
ops_of_lem i r rec e f = rw (ops_of, e) (rw f refl)

step-starts :
    (s : System) (n now : ℕ) (controller : String) (req : ObjectKey)
    → get_elem? s.calls n
      ≡ some (record { controller = controller; request = req; phase = starting })
    → Runs n controller req (started controller req (op_log_len s.ic) now) (step s (moves n now))
      × ((step s (moves n now)).ic ≡ s.ic)
unfolding step move
step-starts s n now controller req c =
    (rw (c, step) (get_elem?-set_self s.calls n _ c), rw (c, step) refl)

step-ends :
    (s : System) (n later requeue : ℕ) (err : Option String) (controller : String) (req : ObjectKey)
    (rec : Reconcile)
    → Runs n controller req rec s
    → (get_elem? (step s (returns n later requeue err)).calls n
        ≡ some (record {
          controller = controller;
          request = req;
          phase = filing (ended s.ic.clamp (op_log_len s.ic) later requeue err rec);
        }))
      × ((step s (returns n later requeue err)).ic ≡ s.ic)
unfolding step deliver
step-ends s n later requeue err controller req rec c =
    (rw (c, step) (get_elem?-set_self s.calls n _ c), rw (c, step) refl)

-- A call that is admitted starts; while it runs, anything happens, but the delegate does not return
-- and each write under the controller's name is made in this call and no other; then the delegate
-- returns, and anything happens. Then the call files a record, and the writes that Ops finds for it in
-- the log are those made in the call that the server accepted, all of them, in their order.
pub pass_ops_lem :
    (s : System) (r : Recorder) (n now later requeue : ℕ) (err : Option String)
    (controller : String) (req : ObjectKey) (mid after : List Event)
    → s.ic.ops ≡ some r
    → get_elem? s.calls n
      ≡ some (record { controller = controller; request = req; phase = starting })
    → All (During n controller) mid
    → let s' = step (run (step s (moves n now)) mid) (returns n later requeue err) in
      (rec : Reconcile) × (get_elem? s'.calls n
        ≡ some (record { controller = controller; request = req; phase = filing rec }))
      × (ops_of (run s' after).ic rec ≡ keep accepted (own_writes n mid))
pass_ops_lem s r n now later requeue err controller req mid after o c d =
    let s1 = step s (moves n now) in
    let s2 = run s1 mid in
    let s3 = step s2 (returns n later requeue err) in
    let begun = step-starts s n now controller req c in
    let rec1 = started controller req (op_log_len s.ic) now in
    let (r2, o2, p2) = run-Grown mid s1 r (ap (λ i. i.ops) begun.1 ∙ o) in
    let done =
      step-ends s2 n later requeue err controller req rec1
        (run-Runs n controller req rec1 mid s1 d begun.0) in
    let (r4, o4, p4) = run-Grown after s3 r2 (ap (λ i. i.ops) done.1 ∙ o2) in
    let rec = ended s2.ic.clamp (op_log_len s2.ic) later requeue err rec1 in
    (
      rec,
      done.0,
      ops_of_lem (run s3 after).ic r4 rec o4 refl
          ∙ ap₂ (λ a b. ops_between r4 a b controller) (op_log_len_lem s.ic r o)
              (op_log_len_lem s2.ic r2 o2 ∙ ap length p2)
          ∙ ops_between_lem r4 r.ops (writes_of mid) (writes_of after) controller
              (p4 ∙ ap (λ ops. ops ++ writes_of after) p2)
          ∙ keep-own n controller mid d,
    )
