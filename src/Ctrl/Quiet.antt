-- ===== src/Ctrl/Quiet.antt =====
-- When the waits on a cursor end, and with what (ctrltest/recorder.go).
use testkit.Prelude.{
  List, [], ◌∷◌, ◌++◌, append-nil, append_assoc, Option, none, some, Bool, true, false, String,
  if◌then◌else◌, ◌≡◌, refl, sym, ap, ap₂, ◌∙◌, ◌↔◌, ◌⊎◌, inl, inr, Bool-cases, Option-cases, arith,
}
use testkit.Ctrl.Op.{Op}
use testkit.Ctrl.Recorder.{Recorder, file, keep}
use testkit.Ctrl.Cursor.{Cursor, peek_locked, next, take_op}
use testkit.Ctrl.Stream.{
  nil_of_none, keep-append, first_of, rest_of, sees, unread, Fits, peek_locked_lem, unread-file,
  Fits-file, take_op_lem,
}
use testkit.Ctrl.Wait.{
  Poll, file_all, WaitError, unexpected_op, timed_out, Waited, matches, next_answer, wait_for_next,
  wait_within_quiet,
}

pub Fits-file_all : (ops : List Op) (r : Recorder) (c : Cursor) → Fits r c → Fits (file_all r ops) c
Fits-file_all [] r c h = h
Fits-file_all (op ∷ ops) r c h = Fits-file_all ops (file r op) c (Fits-file r c op h)

pub unread-file_all :
    (ops : List Op) (r : Recorder) (c : Cursor)
    → Fits r c
    → unread (file_all r ops) c ≡ unread r c ++ keep (sees c) ops
unread-file_all [] r c h = sym (append-nil (unread r c))
unread-file_all (op ∷ ops) r c h =
    unread-file_all ops (file r op) c (Fits-file r c op h)
    ∙ ap (λ q. q ++ keep (sees c) ops) (unread-file r c op h)
    ∙ append_assoc (unread r c) (keep (sees c) (op ∷ [])) (keep (sees c) ops)
    ∙ ap (◌++◌ (unread r c)) (sym (keep-append (sees c) (op ∷ []) ops))

-- What is filed up to the first poll that the deadline is past at.
abbrev pub by_deadline : List Poll → List Op
by_deadline [] = []
by_deadline (p ∷ ps) = p.filed ++ (if p.late then [] else by_deadline ps)

-- The deadline passes at some poll.
abbrev pub IsTimed : List Poll → Type 0
IsTimed [] = ⊥
IsTimed (p ∷ ps) = (p.late ≡ true) ⊎ IsTimed ps

-- The ops that a wait can see: those unread at its start, and those filed by its deadline.
abbrev pub pending : List Poll → Recorder → Cursor → List Op
pending ps r c = unread r c ++ keep (sees c) (by_deadline ps)

pending-cons :
    (p : Poll) (ps : List Poll) (r : Recorder) (c : Cursor)
    → Fits r c
    → pending (p ∷ ps) r c
      ≡ unread (file_all r p.filed) c ++ keep (sees c) (if p.late then [] else by_deadline ps)
pending-cons p ps r c h =
    ap (◌++◌ (unread r c)) (keep-append (sees c) p.filed (if p.late then [] else by_deadline ps))
    ∙ sym (
        append_assoc (unread r c) (keep (sees c) p.filed)
          (keep (sees c) (if p.late then [] else by_deadline ps)))
    ∙ ap (λ q. q ++ keep (sees c) (if p.late then [] else by_deadline ps))
        (sym (unread-file_all p.filed r c h))

-- A poll finds nothing, and the cursor moves over what is out of its scope.
pending_of_empty :
    (p : Poll) (ps : List Poll) (r : Recorder) (c c' : Cursor)
    → Fits r c
    → sees c' ≡ sees c
    → unread (file_all r p.filed) c' ≡ []
    → none ≡ first_of (unread (file_all r p.filed) c)
    → (p.late ≡ true → pending (p ∷ ps) r c ≡ [])
      × (p.late ≡ false → pending ps (file_all r p.filed) c' ≡ pending (p ∷ ps) r c)
pending_of_empty p ps r c c' h s u f =
    let z = nil_of_none (unread (file_all r p.filed) c) f in
    (
      λ t. pending-cons p ps r c h ∙ rw t (append-nil (unread (file_all r p.filed) c) ∙ z),
      λ t.
          ap₂ (λ q g. q ++ keep g (by_deadline ps)) (u ∙ sym z) s
          ∙ sym (pending-cons p ps r c h ∙ rw t refl),
    )

first_of-append :
    (q more : List Op) {op : Op} → some op ≡ first_of q → first_of (q ++ more) ≡ some op
first_of-append [] more d = absurd cc
first_of-append (x ∷ q) more d = sym d

pending_of_found :
    (p : Poll) (ps : List Poll) (r : Recorder) (c : Cursor) (op : Op)
    → Fits r c
    → some op ≡ first_of (unread (file_all r p.filed) c)
    → first_of (pending (p ∷ ps) r c) ≡ some op
pending_of_found p ps r c op h e =
    ap first_of (pending-cons p ps r c h) ∙ first_of-append (unread (file_all r p.filed) c) _ e

later_deadline : (p : Poll) (ps : List Poll) → p.late ≡ false → IsTimed (p ∷ ps) → IsTimed ps
later_deadline p ps f (inl t) = absurd cc
later_deadline p ps f (inr t) = t

abbrev pub verdict_of : String → String → String → Option Op → Option WaitError
verdict_of verb kind name none = some timed_out
verdict_of verb kind name (some op) = if matches verb kind name op then none else some unexpected_op

next_answer-none :
    (r : Recorder) (verb kind name : String) (more : Option Waited) (q : Cursor × Option Op)
    → none ≡ q.1
    → (next_answer r true verb kind name more q
        ≡ some (record { rec = r; cur = q.0; ops = []; err = some timed_out }))
      × (next_answer r false verb kind name more q ≡ more)
unfolding next_answer
next_answer-none r verb kind name more (c, none) e = (refl, refl)
next_answer-none r verb kind name more (c, some op) e = absurd cc

next_answer-some :
    (r : Recorder) (late : Bool) (verb kind name : String) (more : Option Waited)
    (q : Cursor × Option Op) (op : Op)
    → q.1 ≡ some op
    → next_answer r late verb kind name more q
      ≡ some (record {
        rec = r;
        cur = q.0;
        ops = op ∷ [];
        err = if matches verb kind name op then none else some unexpected_op;
      })
unfolding next_answer
next_answer-some r late verb kind name more (c, none) op e = absurd cc
next_answer-some r late verb kind name more (c, some x) op e =
    let d : x ≡ op = ground arith in rw d refl

-- Where the deadline passes at some poll, WaitForNext ends. It returns the first op in the cursor's
-- scope that is unread at its start or filed by the deadline, with an error unless that op has the
-- verb, the kind and the name; where there is no such op, it returns none and times out.
pub wait_for_next_lem :
    (ps : List Poll) (r : Recorder) (c : Cursor) (verb kind name : String)
    → Fits r c
    → IsTimed ps
    → (w : Waited) × (wait_for_next ps r c verb kind name ≡ some w)
      × (first_of w.ops ≡ first_of (pending ps r c))
      × (w.err ≡ verdict_of verb kind name (first_of (pending ps r c)))
unfolding wait_for_next
wait_for_next_lem [] r c verb kind name h t = absurd t
wait_for_next_lem (p ∷ ps) r c verb kind name h t =
    let r' = file_all r p.filed in
    let k = take_op_lem r' c (Fits-file_all p.filed r c h) in
    let more = wait_for_next ps r' (take_op r' c).0 verb kind name in
    elim (Option-cases (take_op r' c).1) [
      | inl e ↦
          let c' = (take_op r' c).0 in
          let f = sym e ∙ k.front in
          let u = k.rest ∙ ap rest_of (nil_of_none (unread r' c) f) in
          let over = pending_of_empty p ps r c c' h k.scope u f in
          elim (Bool-cases p.late) [
            | inl d ↦ (
              record { rec = r'; cur = c'; ops = []; err = some timed_out },
              rw d (next_answer-none r' verb kind name more (take_op r' c) (sym e)).0,
              sym (ap first_of (over.0 d)),
              sym (ap (λ q. verdict_of verb kind name (first_of q)) (over.0 d)),
            )
            | inr d ↦
                let ih =
                  wait_for_next_lem ps r' c' verb kind name k.inside (later_deadline p ps d t) in
                (
                  ih.0,
                  rw d ((next_answer-none r' verb kind name _ (take_op r' c) (sym e)).1 ∙ ih.1),
                  ih.2 ∙ ap first_of (over.1 d),
                  ih.3 ∙ ap (λ q. verdict_of verb kind name (first_of q)) (over.1 d),
                )
          ]
      | inr (op, e) ↦
          let g = sym (pending_of_found p ps r c op h (sym e ∙ k.front)) in
          (
            _,
            next_answer-some r' p.late verb kind name more (take_op r' c) op e,
            g,
            ap (verdict_of verb kind name) g,
          )
    ]

-- Where the deadline passes at some poll, the absence check ends. It finds no action exactly where
-- no op in the cursor's scope was unread at its start or is filed by the deadline; otherwise it names
-- the first of those, which stays the cursor's next op.
pub wait_within_quiet_lem :
    (ps : List Poll) (r : Recorder) (c : Cursor)
    → Fits r c
    → IsTimed ps
    → (w : Waited) × (wait_within_quiet ps r c ≡ some w)
      × ((w.err ≡ none) ↔ (pending ps r c ≡ []))
      × (first_of w.ops ≡ first_of (pending ps r c))
      × (first_of (unread w.rec w.cur) ≡ first_of w.ops)
unfolding wait_within_quiet next
wait_within_quiet_lem [] r c h t = absurd t
wait_within_quiet_lem (p ∷ ps) r c h t =
    let r' = file_all r p.filed in
    let k = peek_locked_lem r' c (Fits-file_all p.filed r c h) in
    let c' = (peek_locked r' c).0 in
    elim (Option-cases (peek_locked r' c).1) [
      | inl e ↦
          let f = sym e ∙ k.front in
          let u = k.kept ∙ nil_of_none (unread r' c) f in
          let over = pending_of_empty p ps r c c' h k.scope u f in
          elim (Bool-cases p.late) [
            | inl d ↦ (
              record { rec = r'; cur = c'; ops = []; err = none },
              rw (e, wait_within_quiet) (rw d refl),
              (λ _. over.0 d, λ _. refl),
              sym (ap first_of (over.0 d)),
              ap first_of u,
            )
            | inr d ↦
                let ih = wait_within_quiet_lem ps r' c' k.inside (later_deadline p ps d t) in
                (
                  ih.0,
                  rw (e, wait_within_quiet) (rw d ih.1),
                  (λ n. sym (over.1 d) ∙ ih.2.0 n, λ n. ih.2.1 (over.1 d ∙ n)),
                  ih.3 ∙ ap first_of (over.1 d),
                  ih.4,
                )
          ]
      | inr (op, e) ↦
          let g = pending_of_found p ps r c op h (sym e ∙ k.front) in
          (
            record { rec = r'; cur = c'; ops = op ∷ []; err = some unexpected_op },
            rw (e, wait_within_quiet) refl,
            (λ n. absurd cc, λ n. absurd (let o : none ≡ some op = ap first_of (sym n) ∙ g in cc)),
            sym g,
            ap first_of k.kept ∙ sym k.front ∙ e,
          )
    ]
