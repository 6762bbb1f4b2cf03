-- ===== src/Ctrl/Cursor.antt =====
-- The cursor of ctrltest/recorder.go. The recorder that it points to is an argument.
use Prim.Native.String.{◌++◌ as cat}
use testkit.Prelude.{ℕ, suc, Option, none, some, Bool, true, false, String, ltb, if◌then◌else◌}
use testkit.Ctrl.Op.{Op, is_empty}
use testkit.Ctrl.Recorder.{Recorder, log_len, first_match_from}

pub record Cursor : Type 0 where
  pub ns : String
  pub controller : String
  pub attempts : Bool
  pub scan : ℕ

unfoldable pub cursor_for : Recorder → String → String → Cursor
unfolding log_len
cursor_for r ns controller = record {
  ns = ns;
  controller = controller;
  attempts = false;
  scan = log_len r;
}

unfoldable pub cursor : Recorder → String → Cursor
unfolding cursor_for
cursor r ns = cursor_for r ns ""

unfoldable pub attempt_cursor : Recorder → String → Cursor
unfolding log_len
attempt_cursor r ns = record { ns = ns; controller = ""; attempts = true; scan = log_len r }

unfoldable pub scope : Cursor → String
scope c = if is_empty c.controller then c.ns else cat c.ns (cat "/" c.controller)

-- The cursor behind the call, and the op.
unfoldable pub peek_locked : Recorder → Cursor → Cursor × Option Op
unfolding first_match_from
peek_locked r c =
    let (op, i) = first_match_from r c.scan c.ns c.controller c.attempts in
    (record c { scan = i }, op)

unfoldable pub next : Recorder → Cursor → Cursor × Option Op
unfolding peek_locked
next r c = peek_locked r c

abbrev pub past : Cursor → Option Op → Cursor
past c none = c
past c (some op) = record c { scan = suc c.scan }

unfoldable pub take_op : Recorder → Cursor → Cursor × Option Op
unfolding peek_locked
take_op r c = let (c', op) = peek_locked r c in (past c' op, op)

unfoldable pub position : Cursor → ℕ
position c = c.scan

unfoldable pub advance_to : ℕ → Cursor → Cursor
advance_to i c = if ltb c.scan i then record c { scan = i } else c
