-- ===== src/Ctrl/Wait.antt =====
-- The waits on a cursor in ctrltest/recorder.go and ctrltest/matchers.go.
--
-- A wait polls. What happens around the polls is a list: for each, the ops that are filed before it
-- and whether time.Now().After(deadline) is true behind it.
use testkit.Prelude.{
  ℕ, ◌+◌, ◌-◌, List, [], ◌∷◌, ◌++◌, Option, none, some, Bool, not, ◌&&◌, ◌||◌, String, str_eq, ◌==◌,
  ltb, if◌then◌else◌, length, map, replicate, sort_by, text_le,
}
use testkit.Ctrl.Op.{Op}
use testkit.Ctrl.Kind.{kind_suffix, Expect, expect_key, op_key}
use testkit.Ctrl.Recorder.{Recorder, file, Counts, count_at, count_up, scan_in_scope, find_in_scope}
use testkit.Ctrl.Cursor.{Cursor, take_op, next, position, advance_to}

pub record Poll : Type 0 where
  pub filed : List Op
  pub late : Bool

abbrev pub file_all : Recorder → List Op → Recorder
file_all r [] = r
file_all r (op ∷ ops) = file_all (file r op) ops

-- The errors of the waits, without their texts.
pub data WaitError : Type 0 where
  unexpected_op timed_out no_expectations : WaitError
  wrong_multiset : List String → List Op → WaitError

-- Where a wait leaves the log and the cursor, the ops that it returns, and its error. `none` in place
-- of it all: the polls given were too few for it to end.
pub record Waited : Type 0 where
  pub rec : Recorder
  pub cur : Cursor
  pub ops : List Op
  pub err : Option WaitError

abbrev pub matches : String → String → String → Op → Bool
matches verb kind name op = not (
    not (str_eq (kind_suffix op.kind) kind)
    || not (str_eq op.verb verb)
    || not (str_eq op.key.name name))

-- What a poll of waitForNext comes to, over the answer of take and the polls behind it.
unfoldable pub next_answer :
    Recorder → Bool → String → String → String → Option Waited → Cursor × Option Op → Option Waited
unfolding kind_suffix
next_answer r late verb kind name more (c, some op) = some (record {
  rec = r;
  cur = c;
  ops = op ∷ [];
  err = if matches verb kind name op then none else some unexpected_op;
})
next_answer r late verb kind name more (c, none) =
    if late then some (record { rec = r; cur = c; ops = []; err = some timed_out }) else more

unfoldable pub wait_for_next :
    List Poll → Recorder → Cursor → String → String → String → Option Waited
unfolding take_op next_answer
wait_for_next [] r c verb kind name = none
wait_for_next (p ∷ ps) r c verb kind name =
    let r' = file_all r p.filed in
    let found = take_op r' c in
    let more = wait_for_next ps r' found.0 verb kind name in
    next_answer r' p.late verb kind name more found

-- RequireNoActionTaken fails on an op; it does not consume it.
unfoldable pub wait_within_quiet : List Poll → Recorder → Cursor → Option Waited
unfolding next
wait_within_quiet [] r c = none
wait_within_quiet (p ∷ ps) r c =
    let r' = file_all r p.filed in
    let (c', found) = next r' c in
    let more = wait_within_quiet ps r' c' in
    elim found [
      | some op ↦ some (record { rec = r'; cur = c'; ops = op ∷ []; err = some unexpected_op })
      | none ↦ if p.late then some (record { rec = r'; cur = c'; ops = []; err = none }) else more
    ]

abbrev pub count_wanted : List Expect → Counts → Counts
count_wanted [] m = m
count_wanted (e ∷ es) m = count_wanted es (count_up (expect_key e) m)

abbrev pub count_down : String → Counts → Counts
count_down k [] = []
count_down k ((k', n) ∷ m) = if str_eq k' k then (k', n - 1) ∷ m else (k', n) ∷ count_down k m

-- The counts that are left, and the ops that nothing expected.
abbrev pub strike : List Op → Counts → Counts × List Op
strike [] m = (m, [])
strike (op ∷ ops) m =
    let struck = strike ops (count_down (op_key op) m) in
    let (m', more) = strike ops m in
    if ltb 0 (count_at (op_key op) m) then struck else (m', op ∷ more)

abbrev pub missing_of : Counts → List String
missing_of [] = []
missing_of ((k, n) ∷ m) = replicate n k ++ missing_of m

unfoldable pub compare_multiset : List Expect → List Op → Option WaitError
unfolding op_key expect_key count_up sort_by
compare_multiset want got =
    let (left, unexpected) = strike got (count_wanted want []) in
    let missing = sort_by text_le (missing_of left) in
    if (length missing == 0) && (length unexpected == 0)
    then none
    else some (wrong_multiset missing unexpected)

abbrev behind_last : List (Op × ℕ) → ℕ
behind_last [] = 0
behind_last ((op, i) ∷ []) = i + 1
behind_last (x ∷ y ∷ more) = behind_last (y ∷ more)

abbrev pub op_of : Op × ℕ → Op
op_of (op, i) = op

wait_all_polls : List Poll → Recorder → Cursor → List Expect → Option Waited
unfolding scan_in_scope position advance_to compare_multiset
wait_all_polls [] r c want = none
wait_all_polls (p ∷ ps) r c want =
    let r' = file_all r p.filed in
    let (hits, floor) = scan_in_scope r' (position c) (length want) c.ns c.controller c.attempts in
    let ops = map op_of hits in
    let c' = advance_to floor c in
    let more = wait_all_polls ps r' c' want in
    if length ops == length want
    then some (record {
      rec = r';
      cur = advance_to (behind_last hits) c;
      ops = ops;
      err = compare_multiset want ops;
    })
    else (if p.late
        then some (record { rec = r'; cur = c'; ops = ops; err = some timed_out })
        else more)

unfoldable pub wait_for_all : List Poll → Recorder → Cursor → List Expect → Option Waited
unfolding wait_all_polls
wait_for_all ps r c [] = some (record { rec = r; cur = c; ops = []; err = some no_expectations })
wait_for_all ps r c (e ∷ es) = wait_all_polls ps r c (e ∷ es)

unfoldable pub wait_for_matching : List Poll → Recorder → Cursor → Expect → Option Waited
unfolding find_in_scope position advance_to
wait_for_matching [] r c want = none
wait_for_matching (p ∷ ps) r c want =
    let r' = file_all r p.filed in
    let more = wait_for_matching ps r' c want in
    elim (find_in_scope r' (position c) c.ns c.controller want c.attempts) [
      | some (op, i) ↦
          some (record { rec = r'; cur = advance_to (i + 1) c; ops = op ∷ []; err = none })
      | none ↦
          if p.late
          then some (record { rec = r'; cur = c; ops = []; err = some timed_out })
          else more
    ]
