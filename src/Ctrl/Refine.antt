-- ===== src/Ctrl/Refine.antt =====
-- Whatever is filed between its uses, a cursor is a queue of the ops in its scope
-- (ctrltest/recorder.go).
use testkit.Prelude.{List, [], ◌∷◌, ◌++◌, Option, Bool, ◌≡◌, refl, sym, ap, ap₂, ◌∙◌}
use testkit.Ctrl.Op.{Op}
use testkit.Ctrl.Recorder.{Recorder, file, keep}
use testkit.Ctrl.Cursor.{Cursor, next, take_op}
use testkit.Ctrl.Stream.{
  first_of, rest_of, sees, unread, Fits, peek_locked_lem, unread-file, Fits-file, take_op_lem,
}

-- What happens around a cursor: any controller's op is filed, or its owner peeks or takes.
pub data Use : Type 0 where
  files : Op → Use
  peeks takes : Use

-- The answers to the peeks and the takes, in order.
unfoldable pub run_cursor : List Use → Recorder → Cursor → Recorder × Cursor × List (Option Op)
unfolding take_op next
run_cursor [] r c = (r, c, [])
run_cursor (files op ∷ us) r c = run_cursor us (file r op) c
run_cursor (peeks ∷ us) r c =
    let (c', found) = next r c in
    let (r', c'', more) = run_cursor us r c' in (r', c'', found ∷ more)
run_cursor (takes ∷ us) r c =
    let (c', found) = take_op r c in
    let (r', c'', more) = run_cursor us r c' in (r', c'', found ∷ more)

-- The same uses of a queue that the ops in scope are put on.
abbrev pub run_queue : (Op → Bool) → List Use → List Op → List Op × List (Option Op)
run_queue p [] q = (q, [])
run_queue p (files op ∷ us) q = run_queue p us (q ++ keep p (op ∷ []))
run_queue p (peeks ∷ us) q = let (q', more) = run_queue p us q in (q', first_of q ∷ more)
run_queue p (takes ∷ us) q = let (q', more) = run_queue p us (rest_of q) in (q', first_of q ∷ more)

abbrev in_front : Option Op → List Op × List (Option Op) → List Op × List (Option Op)
in_front x m = (m.0, x ∷ m.1)

-- For a cursor inside the log, under every interleaving of filed ops, peeks and takes, the cursor
-- answers exactly as the queue of its unread ops does, and what is unread at the end is what is on the
-- queue: ops come out in the order of the log, none twice, none in its scope passed over, and none
-- that is out of its scope.
pub run_cursor-Queue :
    (us : List Use) (r : Recorder) (c : Cursor)
    → Fits r c
    → let (r', c', answers) = run_cursor us r c in
      run_queue (sees c) us (unread r c) ≡ (unread r' c', answers)
unfolding run_cursor
run_cursor-Queue [] r c h = refl
run_cursor-Queue (files op ∷ us) r c h =
    ap (run_queue (sees c) us) (sym (unread-file r c op h))
    ∙ run_cursor-Queue us (file r op) c (Fits-file r c op h)
run_cursor-Queue (peeks ∷ us) r c h =
    let p = peek_locked_lem r c h in
    ap₂ in_front (sym p.front) (
      ap₂ (λ f q. run_queue f us q) (sym p.scope) (sym p.kept)
      ∙ run_cursor-Queue us r (next r c).0 p.inside)
run_cursor-Queue (takes ∷ us) r c h =
    let t = take_op_lem r c h in
    ap₂ in_front (sym t.front) (
      ap₂ (λ f q. run_queue f us q) (sym t.scope) (sym t.rest)
      ∙ run_cursor-Queue us r (take_op r c).0 t.inside)
