-- ===== src/Script/Passing.antt =====
-- What a step that passes has seen (ctrltest/script.go).
use testkit.Prelude.{
  ℕ, ◌≤◌, List, ◌++◌, Option, none, some, true, String, map, ◌≡◌, ap, ◌∙◌, drop, length, get_elem?,
  get_or, ltb, if◌then◌else◌,
}
use testkit.Script.Allow.{Event, LeafAllow, Allow, validate_allows, flatten_allows}
use testkit.Script.Assign.{Assignment}
use testkit.Script.Taken.{taken}
use testkit.Script.Step.{Heard, event, passed, Invariants, try_step}
use testkit.Script.Closed.{quiet_next, no_violation, try_step-Closed}
use testkit.Script.Meaning.{leaves_of, PrecedesIn, Permits, matches-Permits}
use testkit.Script.Walk.{flatten_allows-leaves, flatten_allows-orders, order_holds-In}

-- The stream begins with as many events as there are permitted changes, and then the next call times
-- out. Each event is one permitted change, and each change one event; none breaks an invariant; and of
-- two changes in a declared order, the event of the first one is the earlier one. `left` is what the
-- step leaves of the stream.
pub record Passing (invs : Invariants) (allow : List Allow) (heard left : List Heard) : Type 0 where
  pub events : List Event
  pub rest : List Heard
  pub stream : heard ≡ map event events ++ rest
  pub held : no_violation invs events ≡ true
  pub full : length events ≡ length (leaves_of allow)
  -- The number of each change's event.
  pub at : Assignment
  pub size : length at ≡ length (leaves_of allow)
  pub once : (x : ℕ) → taken x at ≡ (if ltb x (length events) then 1 else 0)
  pub permitted :
      (l x : ℕ) (leaf : LeafAllow) (ev : Event)
      → get_elem? (leaves_of allow) l ≡ some leaf
      → get_or at l none ≡ some x
      → get_elem? events x ≡ some ev
      → Permits leaf ev
  pub ordered :
      (i j x y : ℕ)
      → PrecedesIn allow i j
      → get_or at i none ≡ some x
      → get_or at j none ≡ some y
      → x ≤ y
  pub ended : quiet_next rest ≡ true
  pub after : left ≡ drop 1 rest

-- A step that passes has been accepted by the validation, and its action has succeeded. It has read just
-- as many events as it permits changes, none of which breaks an invariant: each is one permitted change,
-- by kind, name, type and paths, and each change one event. Of two changes that a Before orders, however
-- it is nested, the event of the first is the earlier. Then no event came within the settle window.
pub try_step-Passing :
    (invs : Invariants) (action : Option String) (allow : List Allow) (heard : List Heard)
    → (try_step invs action allow heard).0 ≡ passed
    → (validate_allows allow ≡ none)
      × (action ≡ none)
      × Passing invs allow heard (try_step invs action allow heard).1
try_step-Passing invs action allow heard p =
    let (valid, acted, c) = try_step-Closed invs action allow heard p in
    let same = flatten_allows-leaves allow in
    (
      valid,
      acted,
      record {
        events = c.events;
        rest = c.rest;
        stream = c.stream;
        held = c.held;
        full = c.full ∙ ap length same;
        at = c.at;
        size = c.each.size ∙ ap length same;
        once = c.each.each;
        permitted = λ l x leaf ev q a r.
            matches-Permits leaf ev
              (c.each.fair l x leaf ev (ap (λ (xs : List LeafAllow). get_elem? xs l) same ∙ q) a r);
        ordered = λ i j x y h a b.
            order_holds-In (flatten_allows allow).1 c.at i j x y c.each.holds
              (flatten_allows-orders allow h) a b;
        ended = c.ended;
        after = c.after;
      },
    )
