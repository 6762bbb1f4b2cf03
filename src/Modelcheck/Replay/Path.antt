-- ===== src/Modelcheck/Replay/Path.antt =====
-- The traces of modelcheck/replay.go are paths of the system.
use testkit.Prelude.{
  ℕ, suc, ◌≤◌, ◌<◌, List, [], ◌∷◌, none, some, Bool, true, String, length, get_elem?, In, ◌≡◌, sym,
  ap, subst, ◌∙◌, ◌≢◌, inl, inr, Bool-cases, arith,
}
use testkit.Modelcheck.Index.Defs.{Hash, hash_eq}
use testkit.Modelcheck.System.{
  State, Actor, System, Step, Panic, ok, panic, ◌>>=◌, >>=-eq-ok, ok-injective,
}
use testkit.Modelcheck.Explore.Defs.{Core, Label}
use testkit.Modelcheck.Explore.Parents.{Ordered}
use testkit.Modelcheck.Explore.Search.{Verdicts, run}
use testkit.Modelcheck.Explore.Tree.{run-Ordered}
use testkit.Modelcheck.Replay.Chain.{
  Chain, top, up, present-eq-ok, at_index-eq-ok, at_index-some, get_elem?-In, walk_lem,
  nth_named-In, replayed-eq-ok, get_elem?-names_of,
}
use testkit.Modelcheck.Replay.Defs.{
  nth_named, at_index, present, names_of, label_of, step, root, checked, shown_of, shown, rebuilt,
  steps, turned, trace_of, trace,
}

module _ {ℓ} {S : Type ℓ} (st : State S) (sys : System S) where
  -- A path of the system, its last step first.
  pub data Leads : List (Step S) → Type ℓ where
    starts :
        {s : S} (k : ℕ)
        → get_elem? sys.initial k ≡ some s
        → Leads (record { actor = ""; move = ""; state = st.clone s } ∷ [])
    continues :
        {x : Step S} {xs : List (Step S)} {a : Actor S} {move : String} {s : S}
        → In a sys.actors
        → In (move, s) (a.moves (st.clone x.state))
        → Leads (x ∷ xs)
        → Leads (record { actor = a.name; move = move; state = s } ∷ x ∷ xs)

module _ {ℓ} {S : Type ℓ} (st : State S) (sys : System S) (g : Core) where
  -- The hash recorded for node i is that of a state.
  pub record Hashed (i : ℕ) (s : S) : Type ℓ where
    pub hash : Hash
    pub recorded : get_elem? g.hash i ≡ some hash
    pub matches : hash_eq (st.hash_key (st.key s)) hash ≡ true

  checked-eq-ok : (i : ℕ) (s : S) {s' : S} → checked st sys g i s ≡ ok s' → (s ≡ s') × Hashed i s
  unfolding checked
  checked-eq-ok i s {s'} e =
      let (h, a, b) = >>=-eq-ok (at_index g.hash i) _ e in
      elim (Bool-cases (hash_eq (st.hash_key (st.key s)) h)) [
        | inl t ↦ (
          ok-injective (rw t at b),
          record { hash = h; recorded = at_index-eq-ok g.hash i a; matches = t },
        )
        | inr f ↦ absurd (panicked (rw f at b))
      ]
    where
      panicked : {q : Panic} → panic q ≡ ok s' → ⊥
      panicked e = cc

  -- What label a node has, as the step and as the trace read it.
  label_of-eq-ok :
      (i : ℕ) {l : Label}
      → label_of st sys g i ≡ ok l
      → (id : ℕ) × (get_elem? g.label i ≡ some (some id)) × (get_elem? g.labels id ≡ some l)
  unfolding label_of
  label_of-eq-ok i {l} e =
      let (o, a, b) = >>=-eq-ok (at_index g.label i) _ e in
      let (id, c, d) = >>=-eq-ok (present o) _ b in
      (id, at_index-eq-ok g.label i a ∙ ap some (present-eq-ok o c), at_index-eq-ok g.labels id d)

  shown-eq-ok :
      (i id : ℕ) (l : Label) (a : Actor S) (s : S) {x : Step S}
      → get_elem? g.label i ≡ some (some id)
      → get_elem? g.labels id ≡ some l
      → get_elem? sys.actors l.actor ≡ some a
      → shown st sys g i s ≡ ok x
      → record { actor = a.name; move = l.move; state = s } ≡ x
  unfolding shown shown_of
  shown-eq-ok i id l a s {x} p q r e =
      let e₁ : shown_of st sys g s (some id) ≡ ok x = rw (at_index-some g.label i p, shown) at e in
      let e₂ = rw (at_index-some g.labels id q, shown_of) at e₁ in
      let (n, u, v) = >>=-eq-ok (at_index (names_of sys.actors) l.actor) _ e₂ in
      let z =
        get_elem?-names_of sys.actors l.actor r (at_index-eq-ok (names_of sys.actors) l.actor u) in
      ap (λ y. record { actor = y; move = l.move; state = s }) (sym z) ∙ ok-injective v

  -- The step of a node below `above`.
  step-Leads :
      (i : ℕ) (above : Step S) (more : List (Step S)) {s : S} {x : Step S}
      → Leads st sys (above ∷ more)
      → step st sys g above.state i ≡ ok s
      → shown st sys g i s ≡ ok x
      → Leads st sys (x ∷ above ∷ more) × (x.state ≡ s)
  unfolding step
  step-Leads i above more {s} {x} k e f =
      let (l, a, e₁) = >>=-eq-ok (label_of st sys g i) _ e in
      let (id, p, q) = label_of-eq-ok i a in
      let (actor, b, e₂) = >>=-eq-ok (at_index sys.actors l.actor) _ e₁ in
      let (want, c, e₃) = >>=-eq-ok (at_index g.ordinal i) _ e₂ in
      let r = at_index-eq-ok sys.actors l.actor b in
      let z = shown-eq-ok i id l actor s p q r f in
      let d =
        nth_named-In l.move want (actor.moves (st.clone above.state))
          (replayed-eq-ok i (nth_named l.move want (actor.moves (st.clone above.state))) e₃) in
      (
        subst (λ y. Leads st sys (y ∷ above ∷ more)) z
            (continues (get_elem?-In sys.actors l.actor r) d k),
        sym (ap (λ (y : Step S). y.state) z),
      )

  root-Leads :
      (i : ℕ) {s : S} {x : Step S}
      → get_elem? g.label i ≡ some none
      → root st sys g i ≡ ok s
      → shown st sys g i s ≡ ok x
      → Leads st sys (x ∷ []) × (x.state ≡ s)
  unfolding root shown shown_of
  root-Leads i {s} {x} n e f =
      let (k, a, e₁) = >>=-eq-ok (at_index g.roots i) _ e in
      let (s₀, b, e₂) = >>=-eq-ok (at_index sys.initial k) _ e₁ in
      let f₁ : shown_of st sys g s none ≡ ok x = rw (at_index-some g.label i n, shown) at f in
      let z : record { actor = ""; move = ""; state = s } ≡ x = ok-injective f₁ in
      (
        subst (λ y. Leads st sys (y ∷ []))
            (ap (λ y. record { actor = ""; move = ""; state = y }) (ok-injective e₂) ∙ z)
            (starts k (at_index-eq-ok sys.initial k b)),
        sym (ap (λ (y : Step S). y.state) z),
      )

  -- The steps of a chain are a path of the system to a state with the hash recorded for the node.
  pub record Traced (i : ℕ) (xs : List (Step S)) : Type ℓ where
    pub last : Step S
    pub before : List (Step S)
    pub list : xs ≡ last ∷ before
    pub path : Leads st sys (last ∷ before)
    pub hashed : Hashed i last.state

  steps-Traced :
      (i : ℕ) (c : List ℕ) (xs : List (Step S))
      → Ordered g
      → Chain g.parent i c
      → steps st sys g c ≡ ok xs
      → Traced i xs
  unfolding steps rebuilt
  steps-Traced i c xs o (top t) e =
      let (s, a, e₁) = >>=-eq-ok (root st sys g i) _ e in
      let (s', b, e₂) = >>=-eq-ok (checked st sys g i s) _ e₁ in
      let (x, d, e₃) = >>=-eq-ok (shown st sys g i s') _ e₂ in
      let (z, h) = checked-eq-ok i s b in
      let (l, w) =
        root-Leads i (o.unlabelled i t) a (subst (λ y. shown st sys g i y ≡ ok x) (sym z) d) in
      record {
        last = x;
        before = [];
        list = sym (ok-injective e₃);
        path = l;
        hashed = subst (Hashed i) (sym w) h;
      }
  steps-Traced i c xs o (up {p = p} {c = c'} u k) e =
      let (done, a, e₁) = >>=-eq-ok (steps st sys g c') _ e in
      below done (steps-Traced p c' done o k a) e₁
    where
      below :
          (done : List (Step S))
          → Traced p done
          → (rebuilt st sys g i done >>= λ s.
              checked st sys g i s >>= λ s'. shown st sys g i s' >>= λ x. ok (x ∷ done))
            ≡ ok xs
          → Traced i xs
      below [] t e₁ = absurd (nothing t.list)
        where
          nothing : {y : Step S} {ys : List (Step S)} → [] ≡ y ∷ ys → ⊥
          nothing q = cc
      below (above ∷ more) t e₁ =
          let (s, a, e₂) = >>=-eq-ok (step st sys g above.state i) _ e₁ in
          let (s', b, e₃) = >>=-eq-ok (checked st sys g i s) _ e₂ in
          let (x, d, e₄) = >>=-eq-ok (shown st sys g i s') _ e₃ in
          let (z, h) = checked-eq-ok i s b in
          let q : Leads st sys (above ∷ more) = subst (Leads st sys) (sym t.list) t.path in
          let (l, w) =
            step-Leads i above more q a (subst (λ y. shown st sys g i y ≡ ok x) (sym z) d) in
          record {
            last = x;
            before = above ∷ more;
            list = sym (ok-injective e₄);
            path = l;
            hashed = subst (Hashed i) (sym w) h;
          }

  trace_lem :
      (i : ℕ)
      → Ordered g
      → i < length g.parent
      → (trace st sys g i ≢ ok none)
        × ((xs : List (Step S))
            → trace st sys g i ≡ ok (some xs)
            → (ys : List (Step S)) × (xs ≡ turned st sys g ys []) × Traced i ys)
  unfolding trace trace_of
  trace_lem i o h =
      let (c, w, k) = walk_lem g.parent (suc (length g.parent)) i o.earlier (omega arith) h in
      (λ e. ends c (rw (w, trace) at e), λ xs e. path c k xs (rw (w, trace) at e))
    where
      ends : (c : List ℕ) → (steps st sys g c >>= λ ys. ok (some (turned st sys g ys []))) ≢ ok none
      ends c e =
          let (ys, a, b) = >>=-eq-ok (steps st sys g c) _ e in
          let z : some (turned st sys g ys []) ≡ none = ok-injective b in cc

      path :
          (c : List ℕ)
          → Chain g.parent i c
          → (xs : List (Step S))
          → (steps st sys g c >>= λ ys. ok (some (turned st sys g ys []))) ≡ ok (some xs)
          → (ys : List (Step S)) × (xs ≡ turned st sys g ys []) × Traced i ys
      path c k xs e =
          let (ys, a, b) = >>=-eq-ok (steps st sys g c) _ e in
          let z : some (turned st sys g ys []) ≡ some xs = ok-injective b in
          let y : xs ≡ turned st sys g ys [] = cc in (ys, y, steps-Traced i c ys o k a)

-- The trace of a node that a search has found is never cut short: either a step cannot be replayed,
-- which panics, or the trace is a path of the system. Such a path starts at a copy of an initial
-- state, each step is a move that an actor yields in the state before it, under the names shown, and
-- the key of its end has the hash recorded for the node.
pub run_trace_lem {ℓ} :
    {S : Type ℓ} (st : State S) (sys : System S) (bound : ℕ) (exact : Bool) (chunk max_depth : ℕ)
    (r : Core × Verdicts) (i : ℕ)
    → 1 ≤ chunk
    → run st sys bound exact chunk max_depth ≡ ok (some r)
    → i < length (r.0).parent
    → (trace st sys r.0 i ≢ ok none)
      × ((xs : List (Step S))
          → trace st sys r.0 i ≡ ok (some xs)
          → (ys : List (Step S)) × (xs ≡ turned st sys r.0 ys []) × Traced st sys r.0 i ys)
run_trace_lem st sys bound exact chunk max_depth r i c e h =
    trace_lem st sys r.0 i (run-Ordered st sys bound exact chunk max_depth c e) h
