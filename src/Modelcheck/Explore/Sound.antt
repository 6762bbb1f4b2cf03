-- ===== src/Modelcheck/Explore/Sound.antt =====
-- What the search of modelcheck/explore.go keeps: its key index, and edges that lead to nodes.
use testkit.Prelude.{
  All, ◌≤◌, ◌<◌, ℕ, zero, suc, ◌+◌, ltb, leb, ◌==◌, ◌≡◌, refl, sym, ◌∙◌, inl, inr, List, [], ◌∷◌,
  ◌++◌, Option, none, some, Bool, true, false, ◌&&◌, String, Bool-cases, Option-cases, arith,
  length, length-append, set, take, drop,
}
use testkit.Modelcheck.Index.Defs.{
  Hash, new_key_index, Lookup, hit, miss, fault, spin, map_get, lookup,
}
use testkit.Modelcheck.Index.Insert.{new_key_index-IsIndex}
use testkit.Modelcheck.System.{State, System, Safe, >>=-Safe}
use testkit.Modelcheck.Explore.Defs.{
  Core, Label, Succ, empty_core, intern_new, index32, offset32, label_get, intern, add_node,
  append_node, enter_actor, number_move, count_label, add_edge, refuse, close_edges, discover, link,
  merge_one, merge_from, merge, expand,
}
use testkit.Modelcheck.Explore.Search.{
  Verdicts, evaluate, evaluate_new, cut_off, no_verdicts, seed_one, seed, merge_one_state,
  merge_states, expand_chunk, expand_level, search, run,
}
use testkit.Modelcheck.Explore.Kept.{Kept, keyed, hashed, lookup-Kept, hit-Kept, insert-Kept}

-- The index holds the nodes' hashes, one for each node, and every edge leads to a node.
pub record Sound (e : Core) : Type 0 where
  pub kept : Kept e.index e.hash
  pub even : length e.hash ≡ length e.parent
  pub inside : All (λ to. to < length e.parent) e.edge_to

index32-Safe : (n : ℕ) → Safe (index32 n) (λ m. m ≡ n)
unfolding index32
index32-Safe n = elim (Bool-cases (ltb 2147483647 n)) [ inl t ↦ rw t (λ e. cc) | inr f ↦ rw f refl ]

close_edges-Safe : (e : Core) → Sound e → Safe (close_edges e) Sound
unfolding close_edges offset32
close_edges-Safe e s = elim (Bool-cases (ltb 4294967295 (length e.edge_to))) [
  | inl t ↦ rw t (λ q. cc)
  | inr f ↦ rw f (record { kept = s.kept; even = s.even; inside = s.inside })
]

intern-Safe : (e : Core) (l : Label) → Sound e → Safe (intern e l) (λ r. Sound r.1)
unfolding intern intern_new
intern-Safe e l s = elim (Option-cases (label_get l e.label_ids)) [
  | inr (id, q) ↦ rw (q, intern) s
  | inl q ↦
      rw (q, intern)
        (>>=-Safe (index32 (length e.labels)) _ _ (λ r. Sound r.1) (index32-Safe (length e.labels))
          (λ id p n. record { kept = s.kept; even = s.even; inside = s.inside }))
]

All-longer : (xs : List ℕ) (n m : ℕ) → n ≤ m → All (λ to. to < n) xs → All (λ to. to < m) xs
All-longer [] n m h a = tt
All-longer (x ∷ xs) n m h a = (omega (arith, a.0), All-longer xs n m h a.1)

All-last :
    (xs : List ℕ) (n to : ℕ) → to < n → All (λ t. t < n) xs → All (λ t. t < n) (xs ++ to ∷ [])
All-last [] n to h a = (h, tt)
All-last (x ∷ xs) n to h a = (a.0, All-last xs n to h a.1)

-- A new node is the last one.
abbrev Placed : Core → ℕ × Core → Type 0
Placed e r = Sound r.1 × (r.0 < length (r.1).parent)

add_node-Safe :
    (e : Core) (parent lbl : Option ℕ) (ord : ℕ) (h : Hash) (key : String)
    → Sound e
    → Safe (add_node e parent lbl ord h key) (Placed e)
unfolding add_node append_node
add_node-Safe e parent lbl ord h key s =
    >>=-Safe (index32 (length e.parent)) _ _ (Placed e) (index32-Safe (length e.parent)) (λ idx p n.
      let (ix, q, k) = insert-Kept e.index e.hash h idx key s.kept (n ∙ sym s.even) in
      rw (q, add_node)
        (
          record {
            kept = k;
            even = omega (
              arith,
              length-append e.hash (h ∷ []),
              length-append e.parent (parent ∷ []),
              s.even,
            );
            inside =
                All-longer e.edge_to (length e.parent) (length (e.parent ++ parent ∷ []))
                  (omega (arith, length-append e.parent (parent ∷ []))) s.inside;
          },
          omega (arith, n, length-append e.parent (parent ∷ [])),
        ))

enter_actor-Sound :
    (e : Core) (prev : Option ℕ) (actor : ℕ) → Sound e → Sound (enter_actor e prev actor)
unfolding enter_actor
enter_actor-Sound e none actor s = record { kept = s.kept; even = s.even; inside = s.inside }
enter_actor-Sound e (some p) actor s = elim (Bool-cases (p == actor)) [
  | inl t ↦ rw t s
  | inr f ↦ rw f (record { kept = s.kept; even = s.even; inside = s.inside })
]

number_move-Safe :
    (e : Core) (id actor : ℕ) (move : String) → Sound e → Safe (number_move e id actor move) Sound
unfolding number_move
number_move-Safe e id actor move s =
    elim (Bool-cases (testkit.Prelude.get_or e.seen_stamp id 0 == e.stamp)) [
      | inr f ↦ rw f (record { kept = s.kept; even = s.even; inside = s.inside })
      | inl t ↦ elim (Bool-cases (testkit.Prelude.get_or e.seen_n id 0 == 65535)) [
        | inl u ↦ rw t (rw u (λ q. cc))
        | inr u ↦ rw t (rw u (record { kept = s.kept; even = s.even; inside = s.inside }))
      ]
    ]

module _ {ℓ} {S : Type ℓ} (bound : ℕ) where
  abbrev Both : Core × List S → Type 0
  Both r = Sound r.0

  discover-Safe :
      (e : Core) (from id : ℕ) (sc : Succ S) → Sound e → Safe (discover e from id sc) Both
  unfolding discover add_edge
  discover-Safe e from id sc s = >>=-Safe (index32 from) _ _ Both (index32-Safe from) (λ f p n.
      >>=-Safe (add_node e (some f) (some id) (testkit.Prelude.get_or e.seen_n id 0) sc.hash sc.key)
        _ (Placed e) Both
        (add_node-Safe e (some f) (some id) (testkit.Prelude.get_or e.seen_n id 0) sc.hash sc.key s)
        (λ r q k. record {
          kept = (k.0).kept;
          even = (k.0).even;
          inside = All-last (r.1).edge_to (length (r.1).parent) r.0 k.1 (k.0).inside;
        }))

  link-Safe : (e : Core) (from id : ℕ) (sc : Succ S) → Sound e → Safe (link bound e from id sc) Both
  unfolding link add_edge refuse
  link-Safe e from id sc s = at (lookup e.index sc.hash sc.key e.hash) refl
    where
      at :
          (l : Lookup)
          → lookup e.index sc.hash sc.key e.hash ≡ l
          → Safe (link bound e from id sc) Both
      at (hit to) q =
          let lt : to < length e.parent =
            omega (arith, s.even, hit-Kept e.index e.hash sc.hash sc.key to s.kept q) in
          rw (q, link)
            (record {
              kept = s.kept;
              even = s.even;
              inside = All-last e.edge_to (length e.parent) to lt s.inside;
            })
      at fault q = rw (q, link) (λ z. cc)
      at spin q = absurd (lookup-Kept e.index e.hash sc.hash sc.key s.kept q)
      at miss q = elim (Bool-cases (leb bound (length e.parent))) [
        | inl t ↦ rw (q, link) (rw t (record { kept = s.kept; even = s.even; inside = s.inside }))
        | inr f ↦ rw (q, link) (rw f (discover-Safe e from id sc s))
      ]

  merge_one-Safe :
      (e : Core) (from : ℕ) (prev : Option ℕ) (sc : Succ S)
      → Sound e
      → Safe (merge_one bound e from prev sc) Both
  unfolding merge_one count_label
  merge_one-Safe e from prev sc s =
      let l : Label = record { actor = sc.actor; move = sc.move } in
      >>=-Safe (intern (enter_actor e prev sc.actor) l) _ (λ r. Sound r.1) Both
        (intern-Safe (enter_actor e prev sc.actor) l (enter_actor-Sound e prev sc.actor s))
        (λ r p k.
          >>=-Safe (number_move r.1 r.0 sc.actor sc.move) _ Sound Both
            (number_move-Safe r.1 r.0 sc.actor sc.move k)
            (λ e' q w.
              link-Safe _ from r.0 sc (record { kept = w.kept; even = w.even; inside = w.inside })))

  merge_from-Safe :
      (e : Core) (from : ℕ) (prev : Option ℕ) (scs : List (Succ S))
      → Sound e
      → Safe (merge_from bound e from prev scs) Both
  unfolding merge_from
  merge_from-Safe e from prev [] s = s
  merge_from-Safe e from prev (sc ∷ scs) s =
      >>=-Safe (merge_one bound e from prev sc) _ Both Both (merge_one-Safe e from prev sc s)
        (λ r p k.
          >>=-Safe (merge_from bound r.0 from (some sc.actor) scs) _ Both Both
            (merge_from-Safe r.0 from (some sc.actor) scs k) (λ q u w. w))

module _ {ℓ} {S : Type ℓ} (st : State S) (sys : System S) (bound : ℕ) where
  seed_one-Safe :
      (e : Core) (k : ℕ) (s : S) → Sound e → Safe (seed_one st sys bound e k s) (λ r. Sound r.0)
  unfolding seed_one
  seed_one-Safe e k s w = at (lookup e.index h key e.hash) refl
    where
      key : String
      key = st.key (st.clone s)

      h : Hash
      h = st.hash_key key

      at :
          (l : Lookup)
          → lookup e.index h key e.hash ≡ l
          → Safe (seed_one st sys bound e k s) (λ r. Sound r.0)
      at (hit i) q = rw (q, seed_one) w
      at fault q = rw (q, seed_one) (λ z. cc)
      at spin q = absurd (lookup-Kept e.index e.hash h key w.kept q)
      at miss q = elim (Bool-cases (leb bound (length e.parent))) [
        | inl t ↦
            rw (q, seed_one) (rw t (record { kept = w.kept; even = w.even; inside = w.inside }))
        | inr f ↦
            rw (q, seed_one)
              (rw f (
                >>=-Safe (add_node e none none 0 h key) _ (Placed e) (λ r. Sound r.0)
                  (add_node-Safe e none none 0 h key w)
                  (λ r u v. record {
                    kept = (v.0).kept;
                    even = (v.0).even;
                    inside = (v.0).inside;
                  })))
      ]

  seed-Safe :
      (e : Core) (k : ℕ) (ss : List S) → Sound e → Safe (seed st sys bound e k ss) (λ r. Sound r.0)
  unfolding seed
  seed-Safe e k [] w = w
  seed-Safe e k (s ∷ ss) w =
      >>=-Safe (seed_one st sys bound e k s) _ (λ r. Sound r.0) (λ r. Sound r.0)
        (seed_one-Safe e k s w)
        (λ r p v.
          >>=-Safe (seed st sys bound r.0 (k + 1) ss) _ (λ r. Sound r.0) (λ r. Sound r.0)
            (seed-Safe r.0 (k + 1) ss v) (λ q u z. z))

  merge_states-Safe :
      (e : Core) (i : ℕ) (ss : List S)
      → Sound e
      → Safe (merge_states st sys bound e i ss) (λ r. Sound r.0)
  unfolding merge_states merge_one_state merge
  merge_states-Safe e i [] w = w
  merge_states-Safe e i (s ∷ ss) w =
      >>=-Safe (merge_one_state st sys bound e i s) _ (λ r. Sound r.0) (λ r. Sound r.0) one
        (λ r p v.
          >>=-Safe (merge_states st sys bound r.0 (i + 1) ss) _ (λ r. Sound r.0) (λ r. Sound r.0)
            (merge_states-Safe r.0 (i + 1) ss v) (λ q u z. z))
    where
      one : Safe (merge_one_state st sys bound e i s) (λ r. Sound r.0)
      one =
          >>=-Safe (merge bound e i (expand st 0 sys.actors s)) _ (λ r. Sound r.0) (λ r. Sound r.0)
            (merge_from-Safe bound _ i none (expand st 0 sys.actors s)
              (record { kept = w.kept; even = w.even; inside = w.inside }))
            (λ r p v.
              >>=-Safe (close_edges r.0) _ Sound (λ r. Sound r.0) (close_edges-Safe r.0 v)
                (λ e' q z. z))

  expand_level-Safe :
      (fuel chunk : ℕ) (e : Core) (v : Verdicts) (base : ℕ) (ss : List S)
      → Sound e
      → Safe (expand_level st sys bound fuel chunk e v base ss) (λ r. Sound r.0)
  unfolding expand_level expand_chunk evaluate_new
  expand_level-Safe zero chunk e v base ss w = w
  expand_level-Safe (suc fuel) chunk e v base [] w = w
  expand_level-Safe (suc fuel) chunk e v base (s ∷ ss) w =
      >>=-Safe (expand_chunk st sys bound e v base (take chunk (s ∷ ss))) _ (λ r. Sound r.0)
        (λ r. Sound r.0)
        (>>=-Safe (merge_states st sys bound e base (take chunk (s ∷ ss))) _ (λ r. Sound r.0)
          (λ r. Sound r.0) (merge_states-Safe e base (take chunk (s ∷ ss)) w) (λ r p z. z))
        (λ r p z.
          >>=-Safe
            (expand_level st sys bound fuel chunk r.0 r.1 (base + length (take chunk (s ∷ ss)))
              (drop chunk (s ∷ ss)))
            _ (λ r. Sound r.0) (λ r. Sound r.0)
            (expand_level-Safe fuel chunk r.0 r.1 (base + length (take chunk (s ∷ ss)))
              (drop chunk (s ∷ ss)) z)
            (λ q u y. y))

  cut_off-Safe : (e : Core) (i : ℕ) (ss : List S) → Sound e → Safe (cut_off e i ss) Sound
  unfolding cut_off
  cut_off-Safe e i [] w = record { kept = w.kept; even = w.even; inside = w.inside }
  cut_off-Safe e i (s ∷ ss) w =
      >>=-Safe (close_edges (record e { unknown = set e.unknown i true })) _ Sound Sound
        (close_edges-Safe _ (record { kept = w.kept; even = w.even; inside = w.inside }))
        (λ e' p z. cut_off-Safe e' (i + 1) ss z)

  -- What a search that ends has found.
  abbrev pub Found : Option (Core × Verdicts) → Type 0
  Found none = Unit
  Found (some r) = Sound r.0

  search-Safe :
      (fuel chunk max_depth depth : ℕ) (e : Core) (v : Verdicts) (start : ℕ) (ss : List S)
      → Sound e
      → Safe (search st sys bound fuel chunk max_depth depth e v start ss) Found
  unfolding search
  search-Safe zero chunk max_depth depth e v start ss w = tt
  search-Safe (suc fuel) chunk max_depth depth e v start [] w = w
  search-Safe (suc fuel) chunk max_depth depth e v start (s ∷ ss) w =
      elim (Bool-cases (ltb 0 max_depth && leb max_depth depth)) [
        | inl t ↦ rw t (
            >>=-Safe (cut_off e start (s ∷ ss)) _ Sound Found (cut_off-Safe e start (s ∷ ss) w)
              (λ e' p z. z))
        | inr f ↦ rw f (
            >>=-Safe (expand_level st sys bound (length (s ∷ ss)) chunk e v start (s ∷ ss)) _
              (λ r. Sound r.0) Found
              (expand_level-Safe (length (s ∷ ss)) chunk e v start (s ∷ ss) w)
              (λ r p z.
                search-Safe fuel chunk max_depth (depth + 1) r.0 r.1 (start + length (s ∷ ss)) r.2
                  z))
      ]

  empty_core-Sound : (exact : Bool) → Sound (empty_core exact)
  unfolding empty_core new_key_index map_get
  empty_core-Sound true = record {
    kept = keyed [] refl (λ k i q. absurd (let z : none ≡ some i = q in cc));
    even = refl;
    inside = tt;
  }
  empty_core-Sound false = record { kept = hashed new_key_index-IsIndex; even = refl; inside = tt }

  pub run-Safe :
      (exact : Bool) (chunk max_depth : ℕ) → Safe (run st sys bound exact chunk max_depth) Found
  unfolding run
  run-Safe exact chunk max_depth =
      >>=-Safe (seed st sys bound (empty_core exact) 0 sys.initial) _ (λ r. Sound r.0) Found
        (seed-Safe (empty_core exact) 0 sys.initial (empty_core-Sound exact))
        (λ r p w.
          search-Safe (bound + 2) chunk max_depth 0 r.0 (evaluate sys r.1 0 (no_verdicts sys)) 0 r.1
            w)
