-- ===== src/Script/Assign.antt =====
-- The events of a step against its leaves, in ctrltest/script.go.
--
-- An assignment has for each leaf the number of its event, or `none` for -1.
use testkit.Prelude.{
  ℕ, zero, suc, List, [], ◌∷◌, Option, none, some, Bool, true, false, not, ◌||◌, ltb, ◌==◌,
  if◌then◌else◌, length, get_elem?, get_or, set, replicate,
}
use testkit.Script.Allow.{Event, LeafAllow, matches, Order}

abbrev pub Assignment : Type 0
Assignment = List (Option ℕ)

abbrev pub no_assignment : ℕ → Assignment
no_assignment n = replicate n none

-- augment changes the assignment only where it succeeds; it also gives back what it has visited.
abbrev pub Augmented : Type 0
Augmented = Option Assignment × List Bool

-- The loop over the leaves from number `l` on, where `again` is the call for a displaced event.
abbrev pub placed : ℕ → ℕ → Augmented → Augmented → Augmented
placed e l (some at, visited) rest = (some (set at l (some e)), visited)
placed e l (none, visited) rest = rest

abbrev pub displaced :
    (ℕ → List Bool → Augmented)
    → ℕ
    → ℕ
    → Assignment
    → List Bool
    → (List Bool → Augmented)
    → Option ℕ
    → Augmented
displaced again e l at visited rest none = (some (set at l (some e)), visited)
displaced again e l at visited rest (some other) =
    let called = again other visited in placed e l called (rest called.1)

abbrev pub try_leaves :
    (ℕ → List Bool → Augmented)
    → ℕ
    → Event
    → Assignment
    → List LeafAllow
    → ℕ
    → List Bool
    → Augmented
try_leaves again e ev at [] l visited = (none, visited)
try_leaves again e ev at (leaf ∷ leaves) l visited =
    let skipped = try_leaves again e ev at leaves (suc l) visited in
    let taken =
      displaced again e l at (set visited l true) (try_leaves again e ev at leaves (suc l))
        (get_or at l none) in
    if get_or visited l true || not (matches leaf ev) then skipped else taken

-- The fuel is at least the number of leaves not visited: each call visits one more before the next.
unfoldable pub augment : ℕ → List Event → List LeafAllow → Assignment → ℕ → List Bool → Augmented
augment zero seen leaves at e visited = (none, visited)
augment (suc fuel) seen leaves at e visited = elim (get_elem? seen e) [
  | none ↦ (none, visited)
  | some ev ↦ try_leaves (augment fuel seen leaves at) e ev at leaves 0 visited
]

-- The loop of matchAll from event `e` on, with `n` events to go.
unfoldable pub match_from : ℕ → ℕ → List Event → List LeafAllow → Assignment → Option Assignment
unfolding augment
match_from zero e seen leaves at = some at
match_from (suc n) e seen leaves at =
    elim (augment (length leaves) seen leaves at e (replicate (length leaves) false)).0 [
      | none ↦ none
      | some at' ↦ match_from n (suc e) seen leaves at'
    ]

unfoldable pub match_all : List Event → List LeafAllow → Option Assignment
unfolding match_from
match_all seen leaves =
    if ltb (length leaves) (length seen)
    then none
    else match_from (length seen) 0 seen leaves (no_assignment (length leaves))

abbrev pub in_order : Option ℕ → Option ℕ → Bool
in_order (some earlier) (some later) = not (ltb later earlier)
in_order _ _ = true

abbrev pub order_holds : Order → Assignment → Bool
order_holds [] at = true
order_holds ((earlier, later) ∷ order) at =
    if not (in_order (get_or at earlier none) (get_or at later none))
    then false
    else order_holds order at

-- Each look at a leaf takes one of the budget; the answer comes with what is left.
abbrev pub Fitted : Type 0
Fitted = Option Assignment × ℕ

abbrev pub found_or : Fitted → (ℕ → Fitted) → Fitted
found_or (some at, budget) rest = (some at, budget)
found_or (none, budget) rest = rest budget

abbrev pub fit_leaves :
    (Assignment → ℕ → Fitted) → ℕ → Event → Order → Assignment → List LeafAllow → ℕ → ℕ → Fitted
fit_leaves deeper i ev order at [] l budget = (none, budget)
fit_leaves deeper i ev order at (leaf ∷ leaves) l zero = (none, zero)
fit_leaves deeper i ev order at (leaf ∷ leaves) l (suc budget) =
    let at' = set at l (some i) in
    let rest = fit_leaves deeper i ev order at leaves (suc l) in
    let skipped = rest budget in
    let tried = found_or (deeper at' budget) rest in
    elim (get_or at l (some 0)) [
      | some other ↦ skipped
      | none ↦
          if not (matches leaf ev)
          then skipped
          else (if order_holds order at' then tried else skipped)
    ]

-- `fit` for the events from number `i` on.
unfoldable pub fit : List Event → ℕ → List LeafAllow → Order → Assignment → ℕ → Fitted
fit [] i leaves order at budget = (some at, budget)
fit (ev ∷ seen) i leaves order at budget =
    fit_leaves (fit seen (suc i) leaves order) i ev order at leaves 0 budget

abbrev pub order_search_budget : ℕ
order_search_budget = 200000

-- The assignment, where there is one, and whether the search has decided.
abbrev pub decided : Fitted → Option Assignment × Bool
decided (some at, budget) = (some at, true)
decided (none, budget) = (none, ltb 0 budget)

unfoldable pub ordered_fit : List Event → List LeafAllow → Order → Option Assignment × Bool
unfolding fit
ordered_fit seen leaves order =
    decided (fit seen 0 leaves order (no_assignment (length leaves)) order_search_budget)

unfoldable pub assign_events : List Event → List LeafAllow → Order → Option Assignment × Bool
unfolding match_all ordered_fit
assign_events seen leaves order = elim (match_all seen leaves) [
  | none ↦ (none, true)
  | some free ↦
      if (length order == 0) || order_holds order free
      then (some free, true)
      else ordered_fit seen leaves order
]
