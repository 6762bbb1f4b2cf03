-- ===== src/Ctrl/Quiescence.antt =====
-- The measurement of quiescence in ctrltest/quiescence.go.
--
-- What a turn of its loop meets is a record: the stream's answer, the ops filed before the log is
-- read, the readings of the clock, and the log of passes. The texts of the reports are left out.
use Prim.Native.String.{◌++◌ as cat}
use testkit.Prelude.{
  ℕ, zero, suc, ◌+◌, ◌-◌, List, [], ◌∷◌, Option, none, some, Bool, true, false, not, String, ◌==◌,
  ltb, leb, if◌then◌else◌, length, take, sort_by, text_le,
}
use testkit.Ctrl.Op.{ObjectKey, key_text, Op, accepted, op_text}
use testkit.Ctrl.Recorder.{Recorder, Counts, count_up}
use testkit.Ctrl.Cursor.{Cursor, attempt_cursor, take_op}
use testkit.Ctrl.Wait.{file_all}
use testkit.Ctrl.Intercept.{Reconcile, Interceptor, in_namespace}
use testkit.Ctrl.Unconverged.{unconverged}

-- An event of the stream: each changed path with its transition as text.
pub record ChangeEvent : Type 0 where
  pub kind : String
  pub key : ObjectKey
  pub changed : List (String × String)

pub record ChurnMonitor : Type 0 where
  pub events : ℕ
  pub ops : ℕ
  pub rejected : ℕ
  pub changes : Counts
  pub paths : Counts
  pub writes : Counts

abbrev pub new_churn_monitor : ChurnMonitor
new_churn_monitor = record {
  events = 0;
  ops = 0;
  rejected = 0;
  changes = [];
  paths = [];
  writes = [];
}

abbrev event_id : ChangeEvent → String
event_id ev = cat ev.kind (cat " " (key_text ev.key))

count_paths : String → List (String × String) → Counts → Counts
unfolding count_up
count_paths id [] m = m
count_paths id ((path, transition) ∷ more) m =
    count_paths id more (count_up (cat id (cat " " (cat path (cat ": " transition)))) m)

unfoldable pub observe_event : ChangeEvent → ChurnMonitor → ChurnMonitor
unfolding count_paths count_up
observe_event ev m = record m {
  events = m.events + 1;
  changes = count_up (event_id ev) m.changes;
  paths = count_paths (event_id ev) ev.changed m.paths;
}

unfoldable pub observe_write : Op → ChurnMonitor → ChurnMonitor
unfolding count_up op_text
observe_write op m = record m {
  ops = m.ops + 1;
  rejected = if not (accepted op) then m.rejected + 1 else m.rejected;
  writes = count_up (op_text op) m.writes;
}

-- The loop of observeWrites on fuel; the last component is `seen`.
unfoldable pub drain_on :
    ChurnMonitor
    → Bool
    → (Cursor → ChurnMonitor → Bool → Option (Cursor × ChurnMonitor × Bool))
    → Cursor × Option Op
    → Option (Cursor × ChurnMonitor × Bool)
unfolding observe_write
drain_on m seen again (c, none) = some (c, m, seen)
drain_on m seen again (c, some op) = again c (observe_write op m) true

unfoldable pub drain :
    ℕ → Recorder → Cursor → ChurnMonitor → Bool → Option (Cursor × ChurnMonitor × Bool)
unfolding take_op drain_on
drain zero r c m seen = none
drain (suc fuel) r c m seen = drain_on m seen (drain fuel r) (take_op r c)

-- One more than the log is long is enough.
unfoldable pub observe_writes :
    Recorder → Cursor → ChurnMonitor → Option (Cursor × ChurnMonitor × Bool)
unfolding drain
observe_writes r c m = drain (suc (length r.ops)) r c m false

-- Highest count first, and then by the key.
abbrev more_often : String × ℕ → String × ℕ → Bool
more_often (k, n) (l, m) = if not (n == m) then ltb m n else text_le k l

unfoldable pub top_counts : Counts → ℕ → Counts
unfolding sort_by
top_counts counts limit = take limit (sort_by more_often counts)

pub data QuietError : Type 0 where
  churning : ChurnMonitor → QuietError
  not_converged : List String → Option ChurnMonitor → QuietError
  lost : String → QuietError
  never_reconciled : QuietError

unfoldable pub quiescence_error : List String → Option ChurnMonitor → Option QuietError
quiescence_error [] none = none
quiescence_error [] (some m) = some (churning m)
quiescence_error (line ∷ lines) churn = some (not_converged (line ∷ lines) churn)

unfoldable pub any_pass : List Reconcile → Bool
any_pass [] = false
any_pass (r ∷ rs) = if not r.gated then true else any_pass rs

-- A suite without an interceptor is `none`.
unfoldable pub vacuous : Option Interceptor → String → Option QuietError
unfolding any_pass in_namespace
vacuous none ns = none
vacuous (some i) ns = if any_pass (in_namespace i ns) then none else some never_reconciled

pub data Next : Type 0 where
  event : ChangeEvent → Next
  waited : Next
  gone : String → Next

-- The clock is read at the loop's test, behind an event, behind writes, and at the end.
pub record Turn : Type 0 where
  pub begins : ℕ
  pub answer : Next
  pub event_at : ℕ
  pub filed : List Op
  pub writes_at : ℕ
  pub ends : ℕ
  pub passes : Interceptor

unfoldable pub observed : Next → ChurnMonitor → ChurnMonitor
unfolding observe_event
observed (event ev) m = observe_event ev m
observed _ m = m

abbrev pub since_event : Next → ℕ → ℕ → ℕ
since_event (event ev) now since = now
since_event _ now since = since

module _ (ns : String) (quiet deadline : ℕ) where
  -- A turn behind the reading of the log: the verdict, or the turns behind it.
  unfoldable pub judged : Turn → ℕ → Option (Option QuietError) → Option (Option QuietError)
  unfolding unconverged quiescence_error
  judged t since more =
      if leb quiet (t.ends - since)
      then some (quiescence_error (unconverged t.passes ns) none)
      else more

  unfoldable pub turned :
      Turn
      → ℕ
      → (Cursor → ChurnMonitor → ℕ → Option (Option QuietError))
      → Option (Cursor × ChurnMonitor × Bool)
      → Option (Option QuietError)
  unfolding judged
  turned t since again none = none
  turned t since again (some (c, m, seen)) =
      let since' = if seen then t.writes_at else since in judged t since' (again c m since')

  abbrev pub answered : Option (Option QuietError) → Next → Option (Option QuietError)
  answered after_writes (gone e) = some (some (lost e))
  answered after_writes (event ev) = after_writes
  answered after_writes waited = after_writes

  unfoldable pub measure :
      List Turn → Recorder → Cursor → ChurnMonitor → ℕ → Option (Option QuietError)
  unfolding observe_writes observed turned unconverged quiescence_error
  measure [] r c m since = none
  measure (t ∷ ts) r c m since =
      let r' = file_all r t.filed in
      let since' = since_event t.answer t.event_at since in
      let read = observe_writes r' c (observed t.answer m) in
      if not (ltb t.begins deadline)
      then some (quiescence_error (unconverged t.passes ns) (some m))
      else answered (turned t since' (measure ts r') read) t.answer

-- `now` is the reading that starts the quiet time; the deadline is that of the reading before it.
unfoldable pub try_quiescent_even_if_unwired :
    String → ℕ → ℕ → ℕ → Recorder → List Turn → Option (Option QuietError)
unfolding measure attempt_cursor
try_quiescent_even_if_unwired ns quiet deadline now r ts =
    measure ns quiet deadline ts r (attempt_cursor r ns) new_churn_monitor now

-- `suite` is the interceptor behind the measurement.
unfoldable pub try_quiescent :
    String → ℕ → ℕ → ℕ → Recorder → List Turn → Option Interceptor → Option (Option QuietError)
unfolding try_quiescent_even_if_unwired vacuous
try_quiescent ns quiet deadline now r ts suite =
    elim (try_quiescent_even_if_unwired ns quiet deadline now r ts) [
      | none ↦ none
      | some (some e) ↦ some (some e)
      | some none ↦ some (vacuous suite ns)
    ]
