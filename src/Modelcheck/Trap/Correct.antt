-- ===== src/Modelcheck/Trap/Correct.antt =====
-- findTrap (modelcheck/explore.go): the trap that is reported.
use testkit.Prelude.{
  ℕ, zero, suc, ◌+◌, ◌<◌, ◌≡◌, refl, sym, ap, subst, ◌∙◌, inl, ⊎_elim, List, [], ◌∷◌, Option, none,
  some, Bool, true, false, arith, length, get_or, In, All,
}
use testkit.Modelcheck.Explore.Defs.{Core}
use testkit.Modelcheck.Trap.Defs.{
  allowed_pairs, settled, start_marks, spread, first_unmarked, find_trap, reversed,
}
use testkit.Modelcheck.Trap.Edges.{allowed_pairs-In}
use testkit.Modelcheck.Trap.Graph.{
  Recovers, meets, stays_unknown, moves, settles, settled_goal, settled_unknown, allowed_targets-In,
}
use testkit.Modelcheck.Trap.Loop.{Spreads, spread_lem}
use testkit.Modelcheck.Trap.Start.{
  lt_of_get_or, length-start_marks, start_marks-work, get_or-start_marks, start_marks-In,
  In-start_marks,
}

-- Where the first flag that is not set stands.
IsFirst : ℕ → List Bool → Option ℕ → Type 0
IsFirst i bs none = (v : ℕ) → v < length bs → get_or bs v false ≡ true
IsFirst i bs (some t) =
    (k : ℕ) × (t ≡ i + k)
    × (k < length bs)
    × (get_or bs k false ≡ false)
    × ((v : ℕ) → v < k → get_or bs v false ≡ true)

first_unmarked-IsFirst : (i : ℕ) (bs : List Bool) → IsFirst i bs (first_unmarked i bs)
unfolding first_unmarked IsFirst
first_unmarked-IsFirst i [] = λ v h. absurd (omega arith)
first_unmarked-IsFirst i (false ∷ bs) =
    (0, omega arith, omega arith, refl, λ v h. absurd (omega arith))
first_unmarked-IsFirst i (true ∷ bs) =
    shift (first_unmarked (i + 1) bs) (first_unmarked-IsFirst (i + 1) bs)
  where
    step :
        (k : ℕ)
        → ((v : ℕ) → v < k → get_or bs v false ≡ true)
        → (v : ℕ) → v < suc k
        → get_or (true ∷ bs) v false ≡ true
    step k f zero h = refl
    step k f (suc v) h = f v (omega arith)

    shift : (o : Option ℕ) → IsFirst (i + 1) bs o → IsFirst i (true ∷ bs) o
    shift none f = step (length bs) f
    shift (some t) (k, e, l, u, f) = (suc k, omega (arith, e), omega (arith, l), u, step k f)

module _ (g : Core) (oks goal : List Bool) where
  start_marks-Spreads : Spreads g oks goal (start_marks g.unknown goal 0 (length g.parent))
  start_marks-Spreads = record {
    size = length-start_marks g.unknown goal 0 n;
    sound = λ v e. settles g oks goal v (bound v e) (sym (flag v (bound v e)) ∙ e);
    queued =
        λ v k. let r = In-start_marks g.unknown goal 0 n v k in flag v (omega (arith, r.1)) ∙ r.2;
    start = λ v h e. flag v h ∙ e;
    closed = λ u v p e. inl (
        subst (λ x. In x (start_marks g.unknown goal 0 n).queue) (at v)
          (start_marks-In g.unknown goal 0 n v (bound v e)
            (sym (get_or-start_marks g.unknown goal 0 n v (bound v e)) ∙ e)));
  }
    where
      n : ℕ
      n = length g.parent

      at : (v : ℕ) → 0 + v ≡ v
      at v = omega arith

      flag :
          (v : ℕ)
          → v < n
          → get_or (start_marks g.unknown goal 0 n).reach v false ≡ settled g.unknown goal v
      flag v h = get_or-start_marks g.unknown goal 0 n v h ∙ ap (settled g.unknown goal) (at v)

      bound : (v : ℕ) → get_or (start_marks g.unknown goal 0 n).reach v false ≡ true → v < n
      bound v e =
          subst (λ k. v < k) (length-start_marks g.unknown goal 0 n)
            (lt_of_get_or (start_marks g.unknown goal 0 n).reach v e)

  -- Once the queue is empty the marked nodes are all that recover.
  Recovers-marked :
      (r : List Bool) (v : ℕ)
      → Spreads g oks goal (record { reach = r; queue = [] })
      → Recovers g oks goal v
      → get_or r v false ≡ true
  Recovers-marked r v s (meets h e) = s.start v h (settled_goal g.unknown goal v e)
  Recovers-marked r v s (stays_unknown h e) = s.start v h (settled_unknown g.unknown goal v e)
  Recovers-marked r v s (moves {j = j} h k w) =
      ⊎_elim (λ x. elim x [ ]) (λ x. x)
        (s.closed v j
          (allowed_pairs-In g oks 0 (length g.parent) v j (omega arith) (omega arith)
            (allowed_targets-In g oks v j k))
          (Recovers-marked r j s w))

  -- What findTrap has to find: the first node that does not recover.
  abbrev pub IsTrap : Option ℕ → Type 0
  IsTrap none = (i : ℕ) → i < length g.parent → Recovers g oks goal i
  IsTrap (some t) =
      (t < length g.parent) × ¬ (Recovers g oks goal t) × ((i : ℕ) → i < t → Recovers g oks goal i)

  ended :
      (reach : List Bool)
      → spread
          (length g.parent)
          (reversed (length g.parent) (allowed_pairs g oks 0 (length g.parent)))
          (start_marks g.unknown goal 0 (length g.parent))
        ≡ some reach
      → find_trap g oks goal ≡ some (first_unmarked 0 reach)
  unfolding find_trap
  ended reach e = rw (e, find_trap) refl

  answer :
      (reach : List Bool)
      → Spreads g oks goal (record { reach = reach; queue = [] })
      → (o : Option ℕ) → IsFirst 0 reach o
      → IsTrap o
  unfolding IsFirst
  answer reach s none f = λ i h. s.sound i (f i (omega (arith, h, s.size)))
  answer reach s (some t) (k, e, l, u, f) =
      let z : t ≡ k = omega (arith, e) in
      (
        omega (arith, e, l, s.size),
        λ w.
            absurd
              (set_and_unset (sym u ∙ Recovers-marked reach k s (subst (Recovers g oks goal) z w))),
        λ i h. s.sound i (f i (omega (arith, e))),
      )
    where
      set_and_unset : false ≡ true → ⊥
      set_and_unset e = cc

  -- Where every edge of the graph leads to a node, find_trap always ends. It finds no trap only where every explored node can reach, over edges of
  -- allowed actors, a node that meets the goal or was cut off; otherwise it finds the node of least
  -- index that cannot.
  pub find_trap_lem :
      All (λ to. to < length g.parent) g.edge_to
      → (r : Option ℕ) × (find_trap g oks goal ≡ some r) × IsTrap r
  find_trap_lem a =
      let (reach, e, s) =
        spread_lem g oks goal a (length g.parent)
          (start_marks g.unknown goal 0 (length g.parent)).reach
          (start_marks g.unknown goal 0 (length g.parent)).queue start_marks-Spreads
          (omega (arith, start_marks-work g.unknown goal 0 (length g.parent))) in
      (
        first_unmarked 0 reach,
        ended reach e,
        answer reach s (first_unmarked 0 reach) (first_unmarked-IsFirst 0 reach),
      )
