-- ===== src/Modelcheck/Replay/Defs.antt =====
-- modelcheck/replay.go. The memo only saves repeated work: a state is rebuilt here from the initial
-- one of its chain each time, and Moves, a function, gives the same again. A chain runs from a node
-- up to its initial node, as the source collects it. `none` is the fuel's end. The texts of the
-- panics are left out.
use testkit.Prelude.{
  ℕ, zero, suc, List, [], ◌∷◌, Option, none, some, Bool, true, false, String, str_eq, if◌then◌else◌,
  length, get_elem?,
}
use testkit.Modelcheck.Index.Defs.{hash_eq}
use testkit.Modelcheck.System.{
  State, Actor, System, Step, index_fault, not_replayed, key_mismatch, not_confirmed, Run, ok,
  panic, ◌>>=◌,
}
use testkit.Modelcheck.Explore.Defs.{Core, Label}

-- The n-th successor yielded under a move name, from 0.
unfoldable pub nth_named {ℓ} : {S : Type ℓ} → String → ℕ → List (String × S) → Option S
nth_named move n [] = none
nth_named move n ((name, s) ∷ ms) = elim (str_eq name move) [
  | false ↦ nth_named move n ms
  | true ↦ elim n [ zero ↦ some s | suc k ↦ nth_named move k ms ]
]

-- The index -1 of a root's label is out of range.
unfoldable pub present {ℓ} : {A : Type ℓ} → Option A → Run A
present none = panic index_fault
present (some a) = ok a

-- `xs[i]`, a panic out of range.
unfoldable pub at_index {ℓ} : {A : Type ℓ} → List A → ℕ → Run A
at_index xs i = present (get_elem? xs i)

unfoldable pub in_front : ℕ → Option (List ℕ) → Option (List ℕ)
in_front i none = none
in_front i (some chain) = some (i ∷ chain)

unfoldable pub walk : ℕ → List (Option ℕ) → ℕ → Run (Option (List ℕ))
walk zero parents i = ok none
walk (suc fuel) parents i = at_index parents i >>= λ up. elim up [
  | none ↦ ok (some (i ∷ []))
  | some p ↦ walk fuel parents p >>= λ rest. ok (in_front i rest)
]

unfoldable pub names_of {ℓ} : {S : Type ℓ} → List (Actor S) → List String
names_of [] = []
names_of (a ∷ more) = a.name ∷ names_of more

unfoldable pub replayed {ℓ} : {S : Type ℓ} → ℕ → Option S → Run S
replayed i none = panic (not_replayed i)
replayed i (some s) = ok s

module _ {ℓ} {S : Type ℓ} (st : State S) (sys : System S) (g : Core) where
  unfoldable pub label_of : ℕ → Run Label
  label_of i = at_index g.label i >>= λ l. present l >>= λ id. at_index g.labels id

  -- `step`, from the state of the parent.
  unfoldable pub step : S → ℕ → Run S
  step parent i = label_of i >>= λ l. at_index sys.actors l.actor >>= λ a.
      at_index g.ordinal i >>= λ want.
      replayed i (nth_named l.move want (a.moves (st.clone parent)))

  unfoldable pub root : ℕ → Run S
  root i = at_index g.roots i >>= λ k. at_index sys.initial k >>= λ s. ok (st.clone s)

  -- Every rebuilt state is checked against the hash recorded when it was found.
  unfoldable pub checked : ℕ → S → Run S
  checked i s = at_index g.hash i >>= λ h.
      if hash_eq (st.hash_key (st.key s)) h then ok s else panic (key_mismatch i)

  -- The step that a trace shows for a node.
  unfoldable pub shown_of : S → Option ℕ → Run (Step S)
  shown_of s none = ok (record { actor = ""; move = ""; state = s })
  shown_of s (some id) = at_index g.labels id >>= λ l.
      at_index (names_of sys.actors) l.actor >>= λ name.
      ok (record { actor = name; move = l.move; state = s })

  unfoldable pub shown : ℕ → S → Run (Step S)
  shown i s = at_index g.label i >>= λ l. shown_of s l

  -- A node's state from the steps above it.
  unfoldable pub rebuilt : ℕ → List (Step S) → Run S
  rebuilt i [] = root i
  rebuilt i (above ∷ more) = step above.state i

  -- The steps of a chain, the node's own first.
  unfoldable pub steps : List ℕ → Run (List (Step S))
  steps [] = ok []
  steps (i ∷ chain) = steps chain >>= λ done.
      rebuilt i done >>= λ s. checked i s >>= λ s'. shown i s' >>= λ x. ok (x ∷ done)

  unfoldable pub turned : List (Step S) → List (Step S) → List (Step S)
  turned [] done = done
  turned (x ∷ xs) done = turned xs (x ∷ done)

  -- `trace`: the steps from an initial state to a node.
  unfoldable pub trace_of : Option (List ℕ) → Run (Option (List (Step S)))
  trace_of none = ok none
  trace_of (some chain) = steps chain >>= λ xs. ok (some (turned xs []))

  unfoldable pub trace : ℕ → Run (Option (List (Step S)))
  trace i = walk (suc (length g.parent)) g.parent i >>= λ chain. trace_of chain

  -- `state`.
  unfoldable pub first_state : List (Step S) → Run (Option S)
  first_state [] = panic index_fault
  first_state (x ∷ more) = ok (some x.state)

  unfoldable pub state_of : Option (List ℕ) → Run (Option S)
  state_of none = ok none
  state_of (some chain) = steps chain >>= λ xs. first_state xs

  unfoldable pub state : ℕ → Run (Option S)
  state i = walk (suc (length g.parent)) g.parent i >>= λ chain. state_of chain

module _ {ℓ} {S : Type ℓ} where
  unfoldable pub last_of : List (Step S) → Run (Step S)
  last_of [] = panic index_fault
  last_of (x ∷ []) = ok x
  last_of (x ∷ y ∷ ys) = last_of (y ∷ ys)

  -- `confirm`: the fact that a violation rests on has to hold of the replayed state.
  unfoldable pub confirm : List (Step S) → (S → Bool) → String → Run (List (Step S))
  confirm xs holds property =
      last_of xs >>= λ last. if holds last.state then ok xs else panic (not_confirmed property)
