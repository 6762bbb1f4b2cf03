-- ===== src/Ctrl/Verdict.antt =====
-- When the measurement ends, and what a quiet verdict says (TryQuiescent in ctrltest/quiescence.go).
use testkit.Prelude.{
  ℕ, ◌-◌, ◌≤◌, ◌<◌, List, [], ◌∷◌, ◌++◌, Option, none, some, Bool, true, false, String, ltb, leb,
  if◌then◌else◌, ◌≡◌, ◌⊎◌, refl, sym, ap, subst, ◌∙◌, inl, inr, Bool-cases, In, here, there, arith,
  drop-length,
}
use testkit.Ctrl.Op.{Op, in_scope}
use testkit.Ctrl.Recorder.{Recorder, keep, log_len}
use testkit.Ctrl.Cursor.{Cursor, attempt_cursor}
use testkit.Ctrl.Stream.{sees, unread, Fits}
use testkit.Ctrl.Wait.{file_all}
use testkit.Ctrl.Quiet.{Fits-file_all, unread-file_all}
use testkit.Ctrl.Intercept.{Reconcile, Interceptor, in_namespace}
use testkit.Ctrl.Unconverged.{unconverged}
use testkit.Ctrl.Quiescence.{
  ChurnMonitor, new_churn_monitor, QuietError, lost, never_reconciled, quiescence_error, any_pass,
  vacuous, Next, event, waited, gone, Turn, observed, since_event, judged, turned, answered,
  measure, try_quiescent_even_if_unwired, try_quiescent,
}
use testkit.Ctrl.Settled.{some_op, observe_writes-Drained}

-- The last time at which a turn has shown activity: a write in scope, else an event, else as before.
abbrev pub activity : (Op → Bool) → Turn → ℕ → ℕ
activity p t since =
    if some_op (keep p t.filed) then t.writes_at else since_event t.answer t.event_at since

abbrev pub last_activity : (Op → Bool) → ℕ → List Turn → ℕ
last_activity p since [] = since
last_activity p since (t ∷ ts) = last_activity p (activity p t since) ts

-- The deadline is past at the test of some turn.
abbrev pub IsOver : ℕ → List Turn → Type 0
IsOver deadline [] = ⊥
IsOver deadline (t ∷ ts) = (ltb t.begins deadline ≡ false) ⊎ IsOver deadline ts

-- A turn that began in time ends with nothing seen for `quiet`, and with no failed last pass.
pub record Settled (ns : String) (quiet deadline : ℕ) (p : Op → Bool) (since : ℕ) (ts : List Turn)
    : Type 0 where
  pub earlier : List Turn
  pub turn : Turn
  pub rest : List Turn
  pub split : ts ≡ earlier ++ (turn ∷ rest)
  pub in_time : turn.begins < deadline
  pub silent : quiet ≤ turn.ends - last_activity p since (earlier ++ (turn ∷ []))
  pub converged : unconverged turn.passes ns ≡ []

module _ (ns : String) (quiet deadline : ℕ) where
  Verdict : (Op → Bool) → ℕ → List Turn → Option (Option QuietError) → Type 0
  Verdict p since ts v =
      ((e : QuietError) × (v ≡ some (some e)))
      ⊎ ((v ≡ some none) × Settled ns quiet deadline p since ts)

  churn_error :
      (lines : List String) (m : ChurnMonitor)
      → (e : QuietError) × (quiescence_error lines (some m) ≡ some e)
  unfolding quiescence_error
  churn_error [] m = (_, refl)
  churn_error (x ∷ lines) m = (_, refl)

  level_error :
      (lines : List String)
      → ((e : QuietError) × (quiescence_error lines none ≡ some e))
        ⊎ ((quiescence_error lines none ≡ none) × (lines ≡ []))
  unfolding quiescence_error
  level_error [] = inr (refl, refl)
  level_error (x ∷ lines) = inl (_, refl)

  answered_cases :
      (v : Option (Option QuietError)) (a : Next)
      → ((e : QuietError) × (answered ns quiet deadline v a ≡ some (some e)))
        ⊎ (answered ns quiet deadline v a ≡ v)
  answered_cases v (event ev) = inr refl
  answered_cases v waited = inr refl
  answered_cases v (gone e) = inl (lost e, refl)

  -- A turn that reaches its end.
  judged_lem :
      (p : Op → Bool) (t : Turn) (ts : List Turn) (since : ℕ) (more : Option (Option QuietError))
      → ltb t.begins deadline ≡ true
      → Verdict p (activity p t since) ts more
      → Verdict p since (t ∷ ts) (judged ns quiet deadline t (activity p t since) more)
  unfolding judged Verdict
  judged_lem p t ts since more b ih = elim (Bool-cases (leb quiet (t.ends - activity p t since))) [
    | inl s ↦ rw (judged, s) (at_end (level_error (unconverged t.passes ns)) (ground arith))
    | inr f ↦ rw (judged, f) (later ih)
  ]
    where
      at_end :
          ((e : QuietError) × (quiescence_error (unconverged t.passes ns) none ≡ some e))
            ⊎ ((quiescence_error (unconverged t.passes ns) none ≡ none)
                × (unconverged t.passes ns ≡ []))
          → quiet ≤ t.ends - activity p t since
          → Verdict p since (t ∷ ts) (some (quiescence_error (unconverged t.passes ns) none))
      at_end (inl (e, q)) s = inl (e, ap some q)
      at_end (inr (q, z)) s = inr (
        ap some q,
        record {
          earlier = [];
          turn = t;
          rest = ts;
          split = refl;
          in_time = ground arith;
          silent = s;
          converged = z;
        },
      )

      later : Verdict p (activity p t since) ts more → Verdict p since (t ∷ ts) more
      later (inl e) = inl e
      later (inr (q, st)) = inr (
        q,
        record {
          earlier = t ∷ st.earlier;
          turn = st.turn;
          rest = st.rest;
          split = ap (◌∷◌ t) st.split;
          in_time = st.in_time;
          silent = st.silent;
          converged = st.converged;
        },
      )

  turned-some :
      (t : Turn) (since : ℕ) (again : Cursor → ChurnMonitor → ℕ → Option (Option QuietError))
      (out : Cursor × ChurnMonitor × Bool)
      → turned ns quiet deadline t since again (some out)
        ≡ judged ns quiet deadline t
            (if out.2 then t.writes_at else since)
            (again out.0 out.1 (if out.2 then t.writes_at else since))
  unfolding turned
  turned-some t since again (c, m, seen) = refl

  by_answer :
      (p : Op → Bool) (since : ℕ) (ts : List Turn) (v w : Option (Option QuietError)) (a : Next)
      → v ≡ w
      → Verdict p since ts w
      → Verdict p since ts (answered ns quiet deadline v a)
  unfolding Verdict
  by_answer p since ts v w a e d = elim (answered_cases v a) [
    | inl q ↦ inl q
    | inr q ↦ subst (Verdict p since ts) (sym (q ∙ e)) d
  ]

  not_yet :
      (t : Turn) (ts : List Turn)
      → ltb t.begins deadline ≡ true
      → IsOver deadline (t ∷ ts)
      → IsOver deadline ts
  not_yet t ts b (inl f) = absurd cc
  not_yet t ts b (inr o) = o

  measure_lem :
      (ts : List Turn) (r : Recorder) (c : Cursor) (m : ChurnMonitor) (since : ℕ)
      → Fits r c
      → unread r c ≡ []
      → IsOver deadline ts
      → Verdict (sees c) since ts (measure ns quiet deadline ts r c m since)
  unfolding measure Verdict
  measure_lem [] r c m since h u o = absurd o
  measure_lem (t ∷ ts) r c m since h u o = elim (Bool-cases (ltb t.begins deadline)) [
    | inr f ↦
        let e = churn_error (unconverged t.passes ns) m in rw (measure, f) (inl (e.0, ap some e.1))
    | inl b ↦
        let r' = file_all r t.filed in
        let d = observe_writes-Drained r' c (observed t.answer m) (Fits-file_all t.filed r c h) in
        let now = activity (sees c) t since in
        let read = unread-file_all t.filed r c h ∙ ap (λ q. q ++ keep (sees c) t.filed) u in
        let saw = d.2.saw ∙ ap some_op read in
        let at_now =
          ap (λ b. if b then t.writes_at else since_event t.answer t.event_at since) saw in
        let ih = measure_lem ts r' d.0.0 d.0.1 now d.2.inside d.2.empty (not_yet t ts b o) in
        let ih' =
          subst (λ p. Verdict p now ts (measure ns quiet deadline ts r' d.0.0 d.0.1 now)) d.2.scope
            ih in
        rw (measure, b)
          (by_answer (sees c) since (t ∷ ts) _ _ t.answer
            (ap
                (turned ns quiet deadline t (since_event t.answer t.event_at since)
                  (measure ns quiet deadline ts r'))
                d.1
              ∙ turned-some t _ (measure ns quiet deadline ts r') d.0
              ∙ ap
                  (λ a.
                    judged ns quiet deadline t a (measure ns quiet deadline ts r' d.0.0 d.0.1 a))
                  at_now)
            (judged_lem (sees c) t ts since _ b ih'))
  ]

any_pass_some :
    (rs : List Reconcile) → any_pass rs ≡ true → (r : Reconcile) × In r rs × (r.gated ≡ false)
unfolding any_pass
any_pass_some [] h = absurd cc
any_pass_some (r ∷ rs) h = elim (Bool-cases r.gated) [
  | inr f ↦ (r, here refl, f)
  | inl t ↦ let k = any_pass_some rs (ground arith) in (k.0, there k.1, k.2)
]

-- A suite with an interceptor. Where the deadline is past at the test of some turn, TryQuiescent ends.
-- It either reports an error, or some turn that began before the deadline ended with no event and no
-- attempted write in the namespace for at least the quiet time, no group's last pass had failed then,
-- and some pass in the namespace is in the log: not a request that was only refused.
pub try_quiescent_lem :
    (ns : String) (quiet deadline now : ℕ) (r : Recorder) (ts : List Turn) (i : Interceptor)
    → IsOver deadline ts
    → ((e : QuietError) × (try_quiescent ns quiet deadline now r ts (some i) ≡ some (some e)))
      ⊎ ((try_quiescent ns quiet deadline now r ts (some i) ≡ some none)
          × Settled ns quiet deadline (λ op. in_scope op ns "" true) now ts
          × ((pass : Reconcile) × In pass (in_namespace i ns) × (pass.gated ≡ false)))
unfolding try_quiescent try_quiescent_even_if_unwired attempt_cursor log_len Verdict vacuous
try_quiescent_lem ns quiet deadline now r ts i o =
    elim (measure_lem ns quiet deadline ts r (attempt_cursor r ns) new_churn_monitor now
      (omega arith) (ap (keep (λ op. in_scope op ns "" true)) (drop-length r.ops)) o) [
        | inl (e, q) ↦ inl (e, rw (try_quiescent, try_quiescent_even_if_unwired, q) refl)
        | inr (q, st) ↦ elim (Bool-cases (any_pass (in_namespace i ns))) [
          | inl t ↦ inr (
            rw (try_quiescent, try_quiescent_even_if_unwired, q) (rw t refl),
            st,
            any_pass_some (in_namespace i ns) t,
          )
          | inr f ↦
              inl
                (never_reconciled, rw (try_quiescent, try_quiescent_even_if_unwired, q) (rw f refl))
        ]
      ]
