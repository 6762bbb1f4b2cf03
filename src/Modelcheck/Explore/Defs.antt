-- ===== src/Modelcheck/Explore/Defs.antt =====
-- modelcheck/explore.go: the graph, and the ordered merge of successors into it.
--
-- The sentinel -1 of `parent` and `label` is `none`. `int` values are natural numbers, and index32
-- and offset32 panic past the range of the narrow type as in the source.
use testkit.Prelude.{
  ℕ, ◌+◌, ◌==◌, ltb, leb, List, [], ◌∷◌, ◌++◌, map, Option, none, some, Bool, true, false, ◌&&◌,
  String, str_eq, if◌then◌else◌, length, get_or, set,
}
use testkit.Modelcheck.Index.Defs.{
  Hash, KeyIndex, new_key_index, hit, miss, fault, spin, lookup, done, outside, unended, insert,
}
use testkit.Modelcheck.System.{
  State, Actor, too_many_moves, too_many_nodes, too_many_edges, index_fault, hangs, Run, ok, panic,
  ◌>>=◌,
}

-- An (actor, move) pair.
pub record Label : Type 0 where
  pub actor : ℕ
  pub move : String

abbrev pub label_eq : Label → Label → Bool
label_eq a b = a.actor == b.actor && str_eq a.move b.move

-- The columns of stateGraph, the index, the interned labels and the counters of the explorer. The
-- goal column and the violations, which the merge does not touch, are in `Verdicts`.
pub record Core : Type 0 where
  pub parent : List (Option ℕ)
  pub label : List (Option ℕ)
  pub ordinal : List ℕ
  pub hash : List Hash
  pub unknown : List Bool
  pub edge_start : List ℕ
  pub edge_label : List ℕ
  pub edge_to : List ℕ
  pub labels : List Label
  pub roots : List ℕ
  pub index : KeyIndex
  pub label_ids : List (Label × ℕ)
  pub truncated : Bool
  pub label_count : List ℕ
  pub seen_stamp : List ℕ
  pub seen_n : List ℕ
  pub stamp : ℕ

-- A successor that awaits the merge.
pub record Succ {ℓ} (S : Type ℓ) : Type ℓ where
  pub actor : ℕ
  pub move : String
  pub state : S
  pub hash : Hash
  pub key : String

unfoldable pub empty_core : Bool → Core
empty_core exact = record {
  parent = [];
  label = [];
  ordinal = [];
  hash = [];
  unknown = [];
  edge_start = 0 ∷ [];
  edge_label = [];
  edge_to = [];
  labels = [];
  roots = [];
  index = new_key_index exact;
  label_ids = [];
  truncated = false;
  label_count = [];
  seen_stamp = [];
  seen_n = [];
  stamp = 0;
}

-- The narrowing of counts: a panic past math.MaxInt32 and math.MaxUint32.
unfoldable pub index32 : ℕ → Run ℕ
index32 n = if ltb 2147483647 n then panic too_many_nodes else ok n

unfoldable pub offset32 : ℕ → Run ℕ
offset32 n = if ltb 4294967295 n then panic too_many_edges else ok n

unfoldable pub label_get : Label → List (Label × ℕ) → Option ℕ
label_get l [] = none
label_get l ((k, id) ∷ m) = if label_eq k l then some id else label_get l m

unfoldable pub intern_new : Core → Label → ℕ → Core
intern_new e l id = record e {
  labels = e.labels ++ l ∷ [];
  label_ids = (l, id) ∷ e.label_ids;
  label_count = e.label_count ++ 0 ∷ [];
  seen_stamp = e.seen_stamp ++ 0 ∷ [];
  seen_n = e.seen_n ++ 0 ∷ [];
}

unfoldable pub intern : Core → Label → Run (ℕ × Core)
intern e l = elim (label_get l e.label_ids) [
  | some id ↦ ok (id, e)
  | none ↦ index32 (length e.labels) >>= λ id. ok (id, intern_new e l id)
]

unfoldable pub append_node : Core → Option ℕ → Option ℕ → ℕ → Hash → KeyIndex → Core
append_node e parent lbl ord h index = record e {
  parent = e.parent ++ parent ∷ [];
  label = e.label ++ lbl ∷ [];
  ordinal = e.ordinal ++ ord ∷ [];
  hash = e.hash ++ h ∷ [];
  unknown = e.unknown ++ false ∷ [];
  index = index;
}

-- The source keeps a successor's key only for exact keys, and an index of the other mode reads none.
unfoldable pub add_node : Core → Option ℕ → Option ℕ → ℕ → Hash → String → Run (ℕ × Core)
add_node e parent lbl ord h key = index32 (length e.parent) >>= λ idx.
    elim (insert e.index idx h key (e.hash ++ h ∷ [])) [
      | outside ↦ panic index_fault
      | unended ↦ panic hangs
      | done index ↦ ok (idx, append_node e parent lbl ord h index)
    ]

-- A fresh stamp where the actor changes.
unfoldable pub enter_actor : Core → Option ℕ → ℕ → Core
enter_actor e prev actor = elim prev [
  | none ↦ record e { stamp = e.stamp + 1 }
  | some p ↦ if p == actor then e else record e { stamp = e.stamp + 1 }
]

-- The number of a move among those of its name; the panic past math.MaxUint16.
unfoldable pub number_move : Core → ℕ → ℕ → String → Run Core
number_move e id actor move =
    if get_or e.seen_stamp id 0 == e.stamp
    then (if get_or e.seen_n id 0 == 65535
        then panic (too_many_moves actor move)
        else ok (record e { seen_n = set e.seen_n id (get_or e.seen_n id 0 + 1) }))
    else ok (record e { seen_stamp = set e.seen_stamp id e.stamp; seen_n = set e.seen_n id 0 })

unfoldable pub count_label : Core → ℕ → Core
count_label e id = record e { label_count = set e.label_count id (get_or e.label_count id 0 + 1) }

unfoldable pub add_edge : Core → ℕ → ℕ → Core
add_edge e id to = record e { edge_label = e.edge_label ++ id ∷ []; edge_to = e.edge_to ++ to ∷ [] }

-- A successor that MaxStates refuses: its node's future is unknown.
unfoldable pub refuse : Core → ℕ → Core
refuse e from = record e { truncated = true; unknown = set e.unknown from true }

unfoldable pub close_edges : Core → Run Core
close_edges e =
    offset32 (length e.edge_to) >>= λ n. ok (record e { edge_start = e.edge_start ++ n ∷ [] })

module _ {ℓ} {S : Type ℓ} where
  -- A successor with a new key: its node, the edge to it, and its state.
  unfoldable pub discover : Core → ℕ → ℕ → Succ S → Run (Core × List S)
  discover e from id sc = index32 from >>= λ from'.
      add_node e (some from') (some id) (get_or e.seen_n id 0) sc.hash sc.key >>= λ r.
      ok (add_edge r.1 id r.0, sc.state ∷ [])

module _ {ℓ} {S : Type ℓ} (max_states : ℕ) where
  -- A successor whose label has been counted: an edge to a node that is there, a new node, or a
  -- refusal. The new states are those that the merge appends to `next`.
  unfoldable pub link : Core → ℕ → ℕ → Succ S → Run (Core × List S)
  link e from id sc = elim (lookup e.index sc.hash sc.key e.hash) [
    | hit to ↦ ok (add_edge e id to, [])
    | miss ↦
        if leb max_states (length e.parent) then ok (refuse e from, []) else discover e from id sc
    | fault ↦ panic index_fault
    | spin ↦ panic hangs
  ]

  unfoldable pub merge_one : Core → ℕ → Option ℕ → Succ S → Run (Core × List S)
  merge_one e from prev sc =
      intern (enter_actor e prev sc.actor) (record { actor = sc.actor; move = sc.move }) >>= λ r.
      number_move r.1 r.0 sc.actor sc.move >>= λ e'. link (count_label e' r.0) from r.0 sc

  unfoldable pub merge_from : Core → ℕ → Option ℕ → List (Succ S) → Run (Core × List S)
  merge_from e from prev [] = ok (e, [])
  merge_from e from prev (sc ∷ scs) = merge_one e from prev sc >>= λ r.
      merge_from r.0 from (some sc.actor) scs >>= λ q. ok (q.0, r.1 ++ q.1)

  unfoldable pub merge : Core → ℕ → List (Succ S) → Run (Core × List S)
  merge e from succs = merge_from (record e { stamp = e.stamp + 1 }) from none succs

module _ {ℓ} {S : Type ℓ} (st : State S) where
  unfoldable pub succ_of : ℕ → String × S → Succ S
  succ_of actor (move, s) = record {
    actor = actor;
    move = move;
    state = s;
    hash = st.hash_key (st.key s);
    key = st.key s;
  }

  -- The successors of a state, by actor. The last actor takes the state itself, the others a clone.
  unfoldable pub expand : ℕ → List (Actor S) → S → List (Succ S)
  expand ai [] s = []
  expand ai (a ∷ []) s = map (succ_of ai) (a.moves s)
  expand ai (a ∷ b ∷ rest) s =
      map (succ_of ai) (a.moves (st.clone s)) ++ expand (ai + 1) (b ∷ rest) s
