-- ===== src/Ctrl/Served.antt =====
-- Runs of several recording clients against one server (ctrltest/recorder.go).
use testkit.Prelude.{
  List, [], ◌∷◌, ◌++◌, append-nil, append_assoc, Option, String, ◌≡◌, refl, sym, ap, ◌∙◌,
}
use testkit.Ctrl.Op.{ObjectKey, Op}
use testkit.Ctrl.Kind.{Scheme, kind_of, apply_target}
use testkit.Ctrl.Recorder.{Recorder, new_recorder, add, add_key, add_apply, file}
use testkit.Ctrl.Wait.{file_all}
use testkit.Ctrl.Tally.{Tallies, file_all-Tallies}
use testkit.Ctrl.Client.{
  Write, creates, updates, patches, deletes, applies, deletes_all, sub_creates, sub_updates,
  sub_patches, sub_applies, Wrapped, RecordingClient, sub_verb, recorded, recorded_apply, create,
  update, patch, delete, apply, delete_all_of, sub_create, sub_update, sub_patch, sub_apply,
}

module _ {W O B : Type 0} (s : Wrapped W O B) where
  -- The method of a client that makes a write.
  abbrev pub issue : RecordingClient → Write O B → W → Recorder → W × Recorder × Option String
  unfolding create update patch delete apply delete_all_of sub_create sub_update sub_patch sub_apply
  issue c (creates obj opts) = create s c obj opts
  issue c (updates obj opts) = update s c obj opts
  issue c (patches obj body opts) = patch s c obj body opts
  issue c (deletes obj opts) = delete s c obj opts
  issue c (applies obj opts) = apply s c obj opts
  issue c (deletes_all obj opts) = delete_all_of s c obj opts
  issue c (sub_creates sub obj body opts) = sub_create s c sub obj body opts
  issue c (sub_updates sub obj opts) = sub_update s c sub obj opts
  issue c (sub_patches sub obj body opts) = sub_patch s c sub obj body opts
  issue c (sub_applies sub obj opts) = sub_apply s c sub obj opts

  -- What a write is: its verb, and its kind and key, told from the object as the call leaves it.
  abbrev pub verb_of : Write O B → String
  verb_of (creates obj opts) = "create"
  verb_of (updates obj opts) = "update"
  verb_of (patches obj body opts) = "patch"
  verb_of (deletes obj opts) = "delete"
  verb_of (applies obj opts) = "apply"
  verb_of (deletes_all obj opts) = "delete-all-of"
  verb_of (sub_creates sub obj body opts) = sub_verb sub "create"
  verb_of (sub_updates sub obj opts) = sub_verb sub "update"
  verb_of (sub_patches sub obj body opts) = sub_verb sub "patch"
  verb_of (sub_applies sub obj opts) = sub_verb sub "apply"

  abbrev pub target_of : Option Scheme → W → Write O B → String × ObjectKey
  target_of scheme w (creates obj opts) =
      (kind_of scheme (s.left w (creates obj opts)), (s.left w (creates obj opts)).key)
  target_of scheme w (updates obj opts) =
      (kind_of scheme (s.left w (updates obj opts)), (s.left w (updates obj opts)).key)
  target_of scheme w (patches obj body opts) =
      (kind_of scheme (s.left w (patches obj body opts)), (s.left w (patches obj body opts)).key)
  target_of scheme w (deletes obj opts) =
      (kind_of scheme (s.left w (deletes obj opts)), (s.left w (deletes obj opts)).key)
  target_of scheme w (applies obj opts) = apply_target (s.left_apply w (applies obj opts))
  target_of scheme w (deletes_all obj opts) = (
    kind_of scheme (s.left w (deletes_all obj opts)),
    record { namespace = s.options_namespace opts; name = "" },
  )
  target_of scheme w (sub_creates sub obj body opts) = (
    kind_of scheme (s.left w (sub_creates sub obj body opts)),
    (s.left w (sub_creates sub obj body opts)).key,
  )
  target_of scheme w (sub_updates sub obj opts) = (
    kind_of scheme (s.left w (sub_updates sub obj opts)),
    (s.left w (sub_updates sub obj opts)).key,
  )
  target_of scheme w (sub_patches sub obj body opts) = (
    kind_of scheme (s.left w (sub_patches sub obj body opts)),
    (s.left w (sub_patches sub obj body opts)).key,
  )
  target_of scheme w (sub_applies sub obj opts) =
      apply_target (s.left_apply w (sub_applies sub obj opts))

  -- The entry for a write in a state, from its answer.
  abbrev pub entry : RecordingClient → W → Write O B → W × Option String → Op
  entry c before x (w, err) =
      let (kind, key) = target_of c.scheme before x in
      record {
        controller = c.controller;
        verb = verb_of x;
        kind = kind;
        key = key;
        time = s.clock w;
        err = err;
      }

  issue-file :
      (c : RecordingClient) (x : Write O B) (w : W) (r : Recorder)
      → issue c x w r ≡ ((s.write w x).0, file r (entry c w x (s.write w x)), (s.write w x).1)
  unfolding issue create update patch delete apply delete_all_of sub_create sub_update sub_patch
      sub_apply recorded recorded_apply add add_key add_apply
  issue-file c (creates obj opts) w r = refl
  issue-file c (updates obj opts) w r = refl
  issue-file c (patches obj body opts) w r = refl
  issue-file c (deletes obj opts) w r = refl
  issue-file c (applies obj opts) w r = refl
  issue-file c (deletes_all obj opts) w r = refl
  issue-file c (sub_creates sub obj body opts) w r = refl
  issue-file c (sub_updates sub obj opts) w r = refl
  issue-file c (sub_patches sub obj body opts) w r = refl
  issue-file c (sub_applies sub obj opts) w r = refl

  -- Writes one after the other, each by the client beside it: through the recorder, and bare.
  abbrev pub Issued : Type 0
  Issued = List (RecordingClient × Write O B)

  unfoldable pub issue_all : Issued → W → Recorder → W × Recorder × List (Option String)
  unfolding issue
  issue_all [] w r = (w, r, [])
  issue_all ((c, x) ∷ xs) w r =
      let (w', r', err) = issue c x w r in
      let (w'', r'', errs) = issue_all xs w' r' in (w'', r'', err ∷ errs)

  -- Every answer, with the state of the server behind it.
  abbrev pub serve_all : Issued → W → W × List (Option String) × List Op
  serve_all [] w = (w, [], [])
  serve_all ((c, x) ∷ xs) w =
      let answer = s.write w x in
      let (w', errs, entries) = serve_all xs answer.0 in
      (w', answer.1 ∷ errs, entry c w x answer ∷ entries)

  abbrev in_front :
      Option String → W × Recorder × List (Option String) → W × Recorder × List (Option String)
  in_front err (w, r, errs) = (w, r, err ∷ errs)

  abbrev behind : Issued → W × Recorder × Option String → W × Recorder × List (Option String)
  unfolding issue_all
  behind xs (w, r, err) = in_front err (issue_all xs w r)

  issue_all-file :
      (xs : Issued) (w : W) (r : Recorder)
      → let (w', errs, entries) = serve_all xs w in
        issue_all xs w r ≡ (w', file_all r entries, errs)
  unfolding issue_all behind
  issue_all-file [] w r = refl
  issue_all-file ((c, x) ∷ xs) w r =
      ap (λ q. behind xs q) (issue-file c x w r)
      ∙ ap (in_front (s.write w x).1)
          (issue_all-file xs (s.write w x).0 (file r (entry c w x (s.write w x))))

  file_all_ops : (ops : List Op) (r : Recorder) → (file_all r ops).ops ≡ r.ops ++ ops
  unfolding file
  file_all_ops [] r = sym (append-nil r.ops)
  file_all_ops (op ∷ ops) r = file_all_ops ops (file r op) ∙ append_assoc r.ops (op ∷ []) ops

  -- Through recording clients, every run of writes leaves the server in the state of the bare run and
  -- gets the bare run's answers, and the log grows by one entry for each write, in their order: with
  -- the client's controller, the verb of the method, the kind and key of the object as the call has left
  -- it (for a delete-all-of the namespace of its options and no name), and the answer, a refusal included.
  pub issue_all_lem :
      (xs : Issued) (w : W) (r : Recorder)
      → let (w', errs, entries) = serve_all xs w in
        let run = issue_all xs w r in (run.0 ≡ w') × (run.2 ≡ errs) × (run.1.ops ≡ r.ops ++ entries)
  issue_all_lem xs w r =
      let e = issue_all-file xs w r in
      (ap (λ q. q.0) e, ap (λ q. q.2) e, ap (λ q. q.1.ops) e ∙ file_all_ops (serve_all xs w).2 r)

  new_recorder-Tallies : Tallies new_recorder
  new_recorder-Tallies k = refl

  -- After any run of writes by recording clients on a new recorder, the count under each key is the
  -- number of the accepted entries of the log that render to that key; refused writes count nowhere.
  pub issue_all-Tallies : (xs : Issued) (w : W) → Tallies (issue_all xs w new_recorder).1
  issue_all-Tallies xs w =
      let e = issue_all-file xs w new_recorder in
      rw (ap (λ q. q.1) e) (file_all-Tallies (serve_all xs w).2 new_recorder new_recorder-Tallies)
