-- ===== src/Script/Blame.antt =====
-- The errors of a step that say that no assignment exists (ctrltest/script.go).
use testkit.Prelude.{
  ℕ, zero, suc, ◌+◌, List, [], ◌∷◌, ◌++◌, Option, none, some, Bool, true, false, String, map,
  append_assoc, ◌≡◌, ◌↔◌, refl, ap, subst, ◌∙◌, inl, inr, Option-cases, length, length-append,
  arith,
}
use testkit.Script.Allow.{Event, LeafAllow, Allow, Order, validate_allows, flatten_allows}
use testkit.Script.Assign.{Assignment, no_assignment, match_all, assign_events}
use testkit.Script.Assigned.{Assigned, match_all-Assigned}
use testkit.Script.Exact.{match_all-succeeds, room}
use testkit.Script.Step.{
  Heard, event, silent, lost, failed, stopped, malformed, action_failed, unexpected, violated,
  Invariants, check_invariants, checked, fitted, blame, Answer, await, try_step,
}

-- matchAll finds an assignment exactly where there is one.
pub match_all_lem :
    (seen : List Event) (leaves : List LeafAllow)
    → ((at : Assignment) × (match_all seen leaves ≡ some at))
      ↔ ((at : Assignment) × Assigned seen leaves [] at)
match_all_lem seen leaves = (
  λ (at, e). (at, match_all-Assigned seen leaves at e),
  λ (at, a). match_all-succeeds seen leaves at a,
)

no_events :
    (seen : List Event) (leaves : List LeafAllow) (at : Assignment)
    → (assign_events seen leaves []).0 ≡ none
    → ¬ Assigned seen leaves [] at
unfolding assign_events
no_events seen leaves at e a =
    let (found, z) = match_all-succeeds seen leaves at a in
    let k : some found ≡ none = rw (z, assign_events) at e in cc

no_blame :
    (invs : Invariants) (ev found : Event) → ¬ (check_invariants invs found ≡ some (unexpected ev))
no_blame [] ev found e = cc
no_blame ((name, check) ∷ more) ev found e = elim (Option-cases (check found)) [
  | inl z ↦ no_blame more ev found (rw (z, check_invariants) at e)
  | inr (err, z) ↦
      let k : some (violated name err) ≡ some (unexpected ev) = rw (z, check_invariants) at e in cc
]

-- The stream up to `ev`, which no assignment fits behind what was seen.
pub record Unfit (leaves : List LeafAllow) (ev : Event) (seen : List Event) (heard : List Heard)
    : Type 0 where
  pub events : List Event
  pub rest : List Heard
  pub stream : heard ≡ map event (events ++ ev ∷ []) ++ rest
  pub unfit : (at : Assignment) → ¬ Assigned (seen ++ (events ++ ev ∷ [])) leaves [] at

module _ (invs : Invariants) (leaves : List LeafAllow) (order : Order) (ev : Event) where
  checked-failed :
      (found : Event) (heard : List Heard) (more : Answer)
      → (checked (check_invariants invs found) heard more).0 ≡ failed (unexpected ev)
      → more.0 ≡ failed (unexpected ev)
  checked-failed found heard more p = elim (Option-cases (check_invariants invs found)) [
    | inl z ↦ rw z at p
    | inr (e, z) ↦
        let k : failed e ≡ failed (unexpected ev) = rw z at p in
        let d : e ≡ unexpected ev = ground arith in absurd (no_blame invs ev found (z ∙ ap some d))
  ]

  blame-unexpected :
      (found : Event) (free : Option Assignment)
      → failed (blame order found free) ≡ failed (unexpected ev)
      → (found ≡ ev) × (free ≡ none)
  blame-unexpected found (some at) h = absurd cc
  blame-unexpected found none h = (ground arith, refl)

  at_once :
      (found : Event) (seen : List Event) (heard : List Heard)
      → found ≡ ev
      → ((at : Assignment) → ¬ Assigned (seen ++ found ∷ []) leaves [] at)
      → Unfit leaves ev seen (event found ∷ heard)
  at_once found seen heard d h = record {
    events = [];
    rest = heard;
    stream = ap (λ x. event x ∷ heard) d;
    unfit = λ at. subst (λ x. ¬ Assigned (seen ++ x ∷ []) leaves [] at) d (h at);
  }

  await-Unfit :
      (n : ℕ) (seen : List Event) (at : Assignment) (heard : List Heard)
      → length seen + n ≡ length leaves
      → (await n invs leaves order seen at heard).0 ≡ failed (unexpected ev)
      → Unfit leaves ev seen heard
  unfolding await
  await-Unfit zero seen at [] s p = absurd cc
  await-Unfit zero seen at (silent ∷ heard) s p = absurd cc
  await-Unfit zero seen at (lost ∷ heard) s p = absurd cc
  await-Unfit zero seen at (event found ∷ heard) s p =
      let q = checked-failed found heard (failed (unexpected found), heard) p in
      at_once found seen heard (blame-unexpected found none q).0 (λ best a.
        omega (arith, s, length-append seen (found ∷ []), room (seen ++ found ∷ []) leaves best a))
  await-Unfit (suc n) seen at [] s p = absurd cc
  await-Unfit (suc n) seen at (silent ∷ heard) s p = absurd cc
  await-Unfit (suc n) seen at (lost ∷ heard) s p = absurd cc
  await-Unfit (suc n) seen at (event found ∷ heard) s p =
      let seen' = seen ++ found ∷ [] in
      answered (assign_events seen' leaves order)
        (λ at' q.
          await-Unfit n seen' at' heard (omega (arith, s, length-append seen (found ∷ []))) q)
        (checked-failed found heard _ p)
    where
      answered :
          (f : Option Assignment × Bool)
          → ((at' : Assignment)
              → (await n invs leaves order (seen ++ found ∷ []) at' heard).0
                ≡ failed (unexpected ev)
              → Unfit leaves ev (seen ++ found ∷ []) heard)
          → (fitted f
              (blame order found (assign_events (seen ++ found ∷ []) leaves []).0)
              heard
              (λ at'. await n invs leaves order (seen ++ found ∷ []) at' heard)).0
            ≡ failed (unexpected ev)
          → Unfit leaves ev seen (event found ∷ heard)
      answered (at', false) k q = absurd cc
      answered (none, true) k q =
          let (d, z) = blame-unexpected found _ q in
          at_once found seen heard d (λ best a. no_events (seen ++ found ∷ []) leaves best z a)
      answered (some at', true) k q =
          let u = k at' q in
          record {
            events = found ∷ u.events;
            rest = u.rest;
            stream = ap (λ xs. event found ∷ xs) u.stream;
            unfit = λ best.
                subst (λ xs. ¬ Assigned xs leaves [] best)
                  (append_assoc seen (found ∷ []) (u.events ++ ev ∷ [])) (u.unfit best);
          }

pub try_step-Unfit :
    (invs : Invariants) (action : Option String) (allow : List Allow) (heard : List Heard)
    (ev : Event)
    → (try_step invs action allow heard).0 ≡ failed (unexpected ev)
    → Unfit (flatten_allows allow).0 ev [] heard
unfolding try_step
try_step-Unfit invs action allow heard ev p = elim (Option-cases (validate_allows allow)) [
  | inr (e, z) ↦
      absurd (let k : stopped (malformed e) ≡ failed (unexpected ev) = rw (z, try_step) at p in cc)
  | inl z ↦ elim (Option-cases action) [
    | inr (e, y) ↦ absurd (
        let k : stopped (action_failed e) ≡ failed (unexpected ev) = rw (z, y, try_step) at p in cc)
    | inl y ↦
        let leaves = (flatten_allows allow).0 in
        let n = length leaves in
        await-Unfit invs leaves (flatten_allows allow).1 ev n [] (no_assignment n) heard
          (omega arith) (rw (z, y, try_step) at p)
  ]
]
