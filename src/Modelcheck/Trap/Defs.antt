-- ===== src/Modelcheck/Trap/Defs.antt =====
-- modelcheck/explore.go: resolveRecoverables and the search of findTrap. Both passes that build the
-- reverse adjacency walk the allowed edges in one order: that of the list of their (source, target)
-- pairs.
use testkit.Prelude.{
  ℕ, zero, suc, ◌+◌, ◌-◌, List, [], ◌∷◌, ◌++◌, Option, none, some, Bool, true, false, ◌||◌, String,
  if◌then◌else◌, length, get_elem?, get_or, set, take, drop, replicate,
}
use testkit.Modelcheck.System.{Recoverable, System, unknown_actor, has_name, Run, ok, panic, ◌>>=◌}
use testkit.Modelcheck.Explore.Defs.{Core, Label}

-- The names that count towards a recoverable: all that are registered where it names none. A name
-- that is not registered panics.
unfoldable pub named_actors : List String → String → List String → Run (List String)
named_actors registered property [] = ok []
named_actors registered property (n ∷ ns) =
    if has_name registered n
    then (named_actors registered property ns >>= λ rest. ok (n ∷ rest))
    else panic (unknown_actor property n)

module _ {ℓ} {S : Type ℓ} where
  unfoldable pub allowed_for : System S → Recoverable S → Run (List String)
  allowed_for sys r = elim r.actors [
    | [] ↦ ok sys.names
    | n ∷ ns ↦ named_actors sys.names r.name (n ∷ ns)
  ]

  unfoldable pub resolve_recoverables : System S → List (Recoverable S) → Run (List (List String))
  resolve_recoverables sys [] = ok []
  resolve_recoverables sys (r ∷ rs) =
      allowed_for sys r >>= λ set. resolve_recoverables sys rs >>= λ sets. ok (set ∷ sets)

-- `xs[a:b]`.
unfoldable pub slice {ℓ} : {A : Type ℓ} → List A → ℕ → ℕ → List A
slice xs a b = take (b - a) (drop a xs)

-- The targets of the edges whose label is allowed.
unfoldable pub keep_allowed : List Bool → List ℕ → List ℕ → List ℕ
keep_allowed oks [] tos = []
keep_allowed oks (l ∷ ls) [] = []
keep_allowed oks (l ∷ ls) (to ∷ tos) =
    if get_or oks l false then to ∷ keep_allowed oks ls tos else keep_allowed oks ls tos

-- The allowed targets of node i, from its slice of the edge columns.
unfoldable pub allowed_targets : Core → List Bool → ℕ → List ℕ
allowed_targets g oks i =
    keep_allowed oks (slice g.edge_label (get_or g.edge_start i 0) (get_or g.edge_start (i + 1) 0))
      (slice g.edge_to (get_or g.edge_start i 0) (get_or g.edge_start (i + 1) 0))

unfoldable pub from_node : ℕ → List ℕ → List (ℕ × ℕ)
from_node i [] = []
from_node i (to ∷ tos) = (i, to) ∷ from_node i tos

-- The loop `for from := range n`, from node `i` on, with `k` nodes left.
unfoldable pub allowed_pairs : Core → List Bool → ℕ → ℕ → List (ℕ × ℕ)
allowed_pairs g oks i zero = []
allowed_pairs g oks i (suc k) =
    from_node i (allowed_targets g oks i) ++ allowed_pairs g oks (i + 1) k

-- `ok[id]`: may a label's actor help.
unfoldable pub allowed_labels : List String → List String → List Label → List Bool
allowed_labels allowed names [] = []
allowed_labels allowed names (l ∷ ls) = elim (get_elem? names l.actor) [
  | none ↦ false ∷ allowed_labels allowed names ls
  | some n ↦ has_name allowed n ∷ allowed_labels allowed names ls
]

-- `xs[j]++` where j is in range; outside it nothing is counted. A sum is at most the number of
-- edges, which offset32 keeps within 32 bits.
unfoldable pub increment : List ℕ → ℕ → List ℕ
increment xs j = set xs j (get_or xs j 0 + 1)

-- The first pass over the allowed edges: revStart[to+2]++.
unfoldable pub count_targets : List ℕ → List (ℕ × ℕ) → List ℕ
count_targets start [] = start
count_targets start ((from, to) ∷ ps) = count_targets (increment start (to + 2)) ps

-- `for i := 2; ...` revStart[i] += revStart[i-1].
unfoldable pub sums : ℕ → List ℕ → List ℕ
sums acc [] = []
sums acc (x ∷ xs) = (acc + x) ∷ sums (acc + x) xs

unfoldable pub sum_up : List ℕ → List ℕ
sum_up [] = []
sum_up (a ∷ []) = a ∷ []
sum_up (a ∷ b ∷ xs) = a ∷ b ∷ sums b xs

-- The second pass: rev[revStart[to+1]] = from, and revStart[to+1]++. `from` is below the number of
-- nodes, which index32 has narrowed.
unfoldable pub fill : List ℕ → List ℕ → List (ℕ × ℕ) → List ℕ × List ℕ
fill rev start [] = (rev, start)
fill rev start ((from, to) ∷ ps) =
    fill (set rev (get_or start (to + 1) 0) from) (increment start (to + 1)) ps

-- The reverse adjacency: rev and revStart.
unfoldable pub reversed : ℕ → List (ℕ × ℕ) → List ℕ × List ℕ
reversed n ps =
    let start = sum_up (count_targets (replicate (n + 2) 0) ps) in
    fill (replicate (get_or start (n + 1) 0) 0) start ps

-- `rev[revStart[i]:revStart[i+1]]`.
unfoldable pub into : List ℕ × List ℕ → ℕ → List ℕ
into (rev, start) i = slice rev (get_or start i 0) (get_or start (i + 1) 0)

-- The flags and the rest of the queue.
pub record Marks : Type 0 where
  pub reach : List Bool
  pub queue : List ℕ

-- A node whose future is unknown, or which meets the goal, can reach the goal.
unfoldable pub settled : List Bool → List Bool → ℕ → Bool
settled unknown goal i = get_or unknown i false || get_or goal i false

unfoldable pub start_marks : List Bool → List Bool → ℕ → ℕ → Marks
start_marks unknown goal i zero = record { reach = []; queue = [] }
start_marks unknown goal i (suc k) =
    let rest = start_marks unknown goal (i + 1) k in
    let s = settled unknown goal i in
    record { reach = s ∷ rest.reach; queue = if s then i ∷ rest.queue else rest.queue }

unfoldable pub mark_one : Marks → ℕ → Marks
mark_one m from =
    if get_or m.reach from false
    then m
    else record { reach = set m.reach from true; queue = m.queue ++ from ∷ [] }

unfoldable pub mark_all : Marks → List ℕ → Marks
mark_all m [] = m
mark_all m (from ∷ fs) = mark_all (mark_one m from) fs

-- The loop over the queue; `none` is the fuel's end.
unfoldable pub spread : ℕ → List ℕ × List ℕ → Marks → Option (List Bool)
spread zero rev m = elim m.queue [ [] ↦ some m.reach | _ ∷ _ ↦ none ]
spread (suc fuel) rev m = elim m.queue [
  | [] ↦ some m.reach
  | i ∷ rest ↦ spread fuel rev (mark_all (record m { queue = rest }) (into rev i))
]

unfoldable pub first_unmarked : ℕ → List Bool → Option ℕ
first_unmarked i [] = none
first_unmarked i (b ∷ bs) = if b then first_unmarked (i + 1) bs else some i

-- The first trap of `findTrap`, `none` where there is none; the outer `none` is the fuel's end. A node
-- is queued once at most, so the number of nodes is fuel enough.
unfoldable pub find_trap : Core → List Bool → List Bool → Option (Option ℕ)
find_trap g oks goal =
    let n = length g.parent in
    elim (spread n (reversed n (allowed_pairs g oks 0 n)) (start_marks g.unknown goal 0 n)) [
      | none ↦ none
      | some reach ↦ some (first_unmarked 0 reach)
    ]
