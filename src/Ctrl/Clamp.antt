-- ===== src/Ctrl/Clamp.antt =====
-- The requeues that the log holds, against the ceiling (RequeueClamp in ctrltest/interceptor.go).
use testkit.Prelude.{
  ℕ, ◌≤◌, ◌<◌, List, [], ◌∷◌, true, false, Option, ltb, ◌≡◌, ◌⊎◌, ◌↔◌, refl, inl, inr, All,
  All-append, arith,
}
use testkit.Ctrl.Recorder.{Recorder}
use testkit.Ctrl.Gate.{pause_retry}
use testkit.Ctrl.Intercept.{Reconcile, Interceptor, new_interceptor, compressed, append}
use testkit.Ctrl.Passes.{clamped, Event, run}
use testkit.Ctrl.Filed.{with_pass, append_cases, Steady, run_ok}
use testkit.Ctrl.GateRun.{new_system}

-- A pass is told to come back no later than it asked, and no later than a ceiling that is set, and
-- counts as compressed exactly where it asked for more than that ceiling. A refused request is told
-- nothing or the retry of a pause, whatever the ceiling, and asks for nothing.
pub record Bounded (clamp : ℕ) (r : Reconcile) : Type 0 where
  pub pass_asked : r.gated ≡ false → r.result ≤ r.requested_after
  pub pass_ceiling : r.gated ≡ false → 0 < clamp → r.result ≤ clamp
  pub pass_compressed :
      r.gated ≡ false → (compressed r ≡ true) ↔ ((0 < clamp) × (clamp < r.requested_after))
  pub refused_result : r.gated ≡ true → (r.result ≡ 0) ⊎ (r.result ≡ pause_retry)
  pub refused_asked : r.gated ≡ true → r.requested_after ≡ 0

clamped_le : (clamp requeue : ℕ) → clamped clamp requeue ≤ requeue
clamped_le clamp requeue = ground arith

clamped_ceiling : (clamp requeue : ℕ) → 0 < clamp → clamped clamp requeue ≤ clamp
clamped_ceiling clamp requeue h = ground arith

clamped_less :
    (clamp requeue : ℕ)
    → (ltb (clamped clamp requeue) requeue ≡ true) ↔ ((0 < clamp) × (clamp < requeue))
clamped_less clamp requeue = (λ e. ground arith, λ h. ground arith)

module _ (clamp : ℕ) where
  abbrev AllBounded : Interceptor → Type 0
  AllBounded i = (i.clamp ≡ clamp) × All (Bounded clamp) i.log

  append-AllBounded :
      (i : Interceptor) (r : Reconcile) → Bounded clamp r → AllBounded i → AllBounded (append r i)
  unfolding with_pass compressed
  append-AllBounded i r b h = elim (append_cases r i) [
    | inl (t, e) ↦ rw e (h.0, All-append (Bounded clamp) i.log (r ∷ []) h.1 (b, tt))
    | inr (f, e) ↦ rw e (
      h.0,
      All-append (Bounded clamp) i.log _ h.1 (
        record {
          pass_asked = b.pass_asked;
          pass_ceiling = b.pass_ceiling;
          pass_compressed = b.pass_compressed;
          refused_result = b.refused_result;
          refused_asked = b.refused_asked;
        },
        tt,
      ),
    )
  ]

  steady : Steady AllBounded (Bounded clamp)
  unfolding compressed
  steady = record {
    regated = λ i g h. h;
    reopped = λ i o h. h;
    appended = append-AllBounded;
    noted = λ c req requeue now d. record {
      pass_asked = λ e. absurd cc;
      pass_ceiling = λ e. absurd cc;
      pass_compressed = λ e. absurd cc;
      refused_result = λ e. d;
      refused_asked = λ e. refl;
    };
    ending = λ i r now requeue err g h. rw h.0 (record {
      pass_asked = λ e. clamped_le clamp requeue;
      pass_ceiling = λ e. clamped_ceiling clamp requeue;
      pass_compressed = λ e. clamped_less clamp requeue;
      refused_result = λ e. absurd cc;
      refused_asked = λ e. absurd cc;
    });
  }

-- Over every interleaving, each record of the log is within the ceiling of its interceptor.
pub new_system-Bounded :
    (ops : Option Recorder) (clamp : ℕ) (es : List Event)
    → All (Bounded clamp) (run (new_system ops clamp) es).ic.log
unfolding new_system new_interceptor
new_system-Bounded ops clamp es =
    (run_ok (AllBounded clamp) (Bounded clamp) (steady clamp) (new_system ops clamp) es
      ((refl, tt), tt)).0.1
