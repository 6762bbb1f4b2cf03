-- ===== src/Script/Closed.antt =====
-- The closed world of a step that passes (ctrltest/script.go).
use testkit.Prelude.{
  ℕ, zero, suc, ◌+◌, List, [], ◌∷◌, ◌++◌, Option, none, some, Bool, true, false, String, map,
  append-nil, append_assoc, ◌≡◌, refl, sym, ap, subst, ◌∙◌, inl, inr, Option-cases, drop, length,
  length-append, arith,
}
use testkit.Script.Allow.{Event, LeafAllow, Allow, Order, validate_allows, flatten_allows}
use testkit.Script.Assign.{Assignment, no_assignment, assign_events}
use testkit.Script.Assigned.{Assigned, assign_events-Assigned, no_assignment-Assigned}
use testkit.Script.Step.{
  Heard, event, silent, lost, StepError, failed, stopped, malformed, action_failed, passed,
  Invariants, check_invariants, checked, fitted, settle, unexpected, Answer, await, try_step,
}

-- The next call of next times out.
abbrev pub quiet_next : List Heard → Bool
quiet_next [] = true
quiet_next (silent ∷ heard) = true
quiet_next _ = false

module _ (invs : Invariants) where
  abbrev pub no_violation : List Event → Bool
  no_violation [] = true
  no_violation (ev ∷ evs) = elim (check_invariants invs ev) [
    | some e ↦ false
    | none ↦ no_violation evs
  ]

  no_violation-cons :
      (ev : Event) (evs : List Event)
      → check_invariants invs ev ≡ none
      → no_violation evs ≡ true
      → no_violation (ev ∷ evs) ≡ true
  no_violation-cons ev evs v h = rw (no_violation, v) h

  module _ (leaves : List LeafAllow) (order : Order) where
    -- The stream, read with `seen` already taken: the events to come, each leaf's event, and silence; `left` follows.
    pub record Closed (seen : List Event) (heard left : List Heard) : Type 0 where
      pub events : List Event
      pub rest : List Heard
      pub stream : heard ≡ map event events ++ rest
      pub held : no_violation events ≡ true
      pub full : length (seen ++ events) ≡ length leaves
      pub at : Assignment
      pub each : Assigned (seen ++ events) leaves order at
      pub ended : quiet_next rest ≡ true
      pub after : left ≡ drop 1 rest

    checked-passed :
        (r : Option StepError) (heard : List Heard) (more : Answer)
        → (checked r heard more).0 ≡ passed
        → (r ≡ none) × (more.0 ≡ passed) × ((checked r heard more).1 ≡ more.1)
    checked-passed (some e) heard more p = absurd cc
    checked-passed none heard more p = (refl, p, refl)

    fitted-passed :
        (f : Option Assignment × Bool) (e : StepError) (heard : List Heard)
        (more : Assignment → Answer)
        → (fitted f e heard more).0 ≡ passed
        → (at : Assignment) × (f.0 ≡ some at)
          × ((more at).0 ≡ passed)
          × ((fitted f e heard more).1 ≡ (more at).1)
    fitted-passed (found, false) e heard more p = absurd cc
    fitted-passed (none, true) e heard more p = absurd cc
    fitted-passed (some at, true) e heard more p = (at, refl, p, refl)

    settle-passed :
        (e : Event → StepError) (heard : List Heard)
        → (settle invs e heard).0 ≡ passed
        → (quiet_next heard ≡ true) × ((settle invs e heard).1 ≡ drop 1 heard)
    settle-passed e [] p = (refl, refl)
    settle-passed e (silent ∷ heard) p = (refl, refl)
    settle-passed e (lost ∷ heard) p = absurd cc
    settle-passed e (event ev ∷ heard) p =
        absurd (
          let q = (checked-passed (check_invariants invs ev) heard (failed (e ev), heard) p).1 in
          cc)

    await-Closed :
        (n : ℕ) (seen : List Event) (at : Assignment) (heard : List Heard)
        → length seen + n ≡ length leaves
        → Assigned seen leaves order at
        → (await n invs leaves order seen at heard).0 ≡ passed
        → Closed seen heard (await n invs leaves order seen at heard).1
    unfolding await
    await-Closed zero seen at heard s a p = record {
      events = [];
      rest = heard;
      stream = refl;
      held = refl;
      full = ground (arith, s, length-append seen []);
      at = at;
      each = subst (λ xs. Assigned xs leaves order at) (sym (append-nil seen)) a;
      ended = (settle-passed unexpected heard p).0;
      after = (settle-passed unexpected heard p).1;
    }
    await-Closed (suc n) seen at [] s a p = absurd cc
    await-Closed (suc n) seen at (silent ∷ heard) s a p = absurd cc
    await-Closed (suc n) seen at (lost ∷ heard) s a p = absurd cc
    await-Closed (suc n) seen at (event ev ∷ heard) s a p =
        let seen' = seen ++ (ev ∷ []) in
        let (v, q, k) = checked-passed (check_invariants invs ev) heard _ p in
        let (at', f, r, m) = fitted-passed (assign_events seen' leaves order) _ heard _ q in
        let c =
          await-Closed n seen' at' heard (omega (arith, s, length-append seen (ev ∷ [])))
            (assign_events-Assigned seen' leaves order at' f) r in
        let shift = append_assoc seen (ev ∷ []) c.events in
        record {
          events = ev ∷ c.events;
          rest = c.rest;
          stream = ap (λ xs. event ev ∷ xs) c.stream;
          held = no_violation-cons ev c.events v c.held;
          full = ap length (sym shift) ∙ c.full;
          at = c.at;
          each = subst (λ xs. Assigned xs leaves order c.at) shift c.each;
          ended = c.ended;
          after = k ∙ m ∙ c.after;
        }

  pub try_step-Closed :
      (action : Option String) (allow : List Allow) (heard : List Heard)
      → (try_step invs action allow heard).0 ≡ passed
      → (validate_allows allow ≡ none)
        × (action ≡ none)
        × Closed
            (flatten_allows allow).0
            (flatten_allows allow).1
            []
            heard
            (try_step invs action allow heard).1
  unfolding try_step
  try_step-Closed action allow heard p = elim (Option-cases (validate_allows allow)) [
    | inr (e, z) ↦ absurd (let k : stopped (malformed e) ≡ passed = rw (z, try_step) at p in cc)
    | inl z ↦ acted action z p
  ]
    where
      acted :
          (action : Option String)
          → validate_allows allow ≡ none
          → (try_step invs action allow heard).0 ≡ passed
          → (validate_allows allow ≡ none)
            × (action ≡ none)
            × Closed
                (flatten_allows allow).0
                (flatten_allows allow).1
                []
                heard
                (try_step invs action allow heard).1
      acted (some e) z p =
          absurd (let k : stopped (action_failed e) ≡ passed = rw (z, try_step) at p in cc)
      acted none z p =
          let leaves = (flatten_allows allow).0 in
          let order = (flatten_allows allow).1 in
          let n = length leaves in
          let ran : (await n invs leaves order [] (no_assignment n) heard).0 ≡ passed =
            rw (z, try_step) at p in
          let c =
            await-Closed leaves order n [] (no_assignment n) heard (omega arith)
              (no_assignment-Assigned leaves order) ran in
          (z, refl, rw (z, try_step) c)
