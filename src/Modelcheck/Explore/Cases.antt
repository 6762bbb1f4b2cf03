-- ===== src/Modelcheck/Explore/Cases.antt =====
-- What the steps of the merge in modelcheck/explore.go do, where they do not panic.
use testkit.Prelude.{
  ℕ, ◌+◌, ◌≤◌, ◌<◌, leb, ◌==◌, ◌≡◌, refl, sym, ap, ◌∙◌, ◌≢◌, inl, inr, List, [], ◌∷◌, ◌++◌, Option,
  none, some, Bool-cases, Option-cases, String, arith, length, get_or, set,
}
use testkit.Modelcheck.Index.Defs.{
  Hash, KeyIndex, Lookup, hit, miss, fault, spin, lookup, Looped, done, outside, unended, insert,
}
use testkit.Modelcheck.System.{ok, panic, >>=-eq-ok, ok-injective, index_fault, hangs}
use testkit.Modelcheck.Explore.Defs.{
  Core, Label, Succ, index32, offset32, label_get, intern_new, intern, append_node, add_node,
  enter_actor, number_move, count_label, add_edge, refuse, close_edges, discover, link, merge_one,
}

pub index32-eq-ok : (n : ℕ) {m : ℕ} → index32 n ≡ ok m → (m ≡ n) × (n ≤ 2147483647)
unfolding index32
index32-eq-ok n h = (ground arith, ground arith)

-- A label that is known, or a new one.
pub data Interned (e : Core) (l : Label) (r : ℕ × Core) : Type 0 where
  known : (id : ℕ) → label_get l e.label_ids ≡ some id → r ≡ (id, e) → Interned e l r
  fresh :
      label_get l e.label_ids ≡ none
      → r ≡ (length e.labels, intern_new e l (length e.labels))
      → Interned e l r

pub intern-Interned : (e : Core) (l : Label) {r : ℕ × Core} → intern e l ≡ ok r → Interned e l r
unfolding intern
intern-Interned e l {r} h = elim (Option-cases (label_get l e.label_ids)) [
  | inr (id, q) ↦ known id q (ground arith)
  | inl q ↦
      let (id, p, h') =
        >>=-eq-ok (index32 (length e.labels)) (λ id. ok (id, intern_new e l id))
          (rw (q, intern) at h) in
      let (s, _) = index32-eq-ok (length e.labels) p in
      fresh q (sym (ok-injective h') ∙ ap (λ i. (i, intern_new e l i)) s)
]

-- A node that has been added.
pub record Added (e : Core) (parent lbl : Option ℕ) (ord : ℕ) (h : Hash) (key : String)
    (r : ℕ × Core) : Type 0 where
  pub narrow : length e.parent ≤ 2147483647
  pub index : KeyIndex
  pub inserted : insert e.index (length e.parent) h key (e.hash ++ h ∷ []) ≡ done index
  pub result : r ≡ (length e.parent, append_node e parent lbl ord h index)

pub add_node-Added :
    (e : Core) (parent lbl : Option ℕ) (ord : ℕ) (h : Hash) (key : String) {r : ℕ × Core}
    → add_node e parent lbl ord h key ≡ ok r
    → Added e parent lbl ord h key r
unfolding add_node
add_node-Added e parent lbl ord h key {r} q =
    let (idx, p, q') = >>=-eq-ok (index32 (length e.parent)) _ q in
    let (s, narrow) = index32-eq-ok (length e.parent) p in
    at narrow s q' (insert e.index (length e.parent) h key (e.hash ++ h ∷ [])) refl
  where
    at :
        {idx : ℕ}
        → length e.parent ≤ 2147483647
        → idx ≡ length e.parent
        → (elim (insert e.index idx h key (e.hash ++ h ∷ [])) [
          | outside ↦ panic index_fault
          | unended ↦ panic hangs
          | done index ↦ ok (idx, append_node e parent lbl ord h index)
        ])
          ≡ ok r
        → (l : Looped KeyIndex) → insert e.index (length e.parent) h key (e.hash ++ h ∷ []) ≡ l
        → Added e parent lbl ord h key r
    at narrow s q' outside n = let bad : panic index_fault ≡ ok r = ground (arith, q', s, n) in cc
    at narrow s q' unended n = let bad : panic hangs ≡ ok r = ground (arith, q', s, n) in cc
    at narrow s q' (done ix) i = record {
      narrow = narrow;
      index = ix;
      inserted = i;
      result = ground (arith, q', s, i);
    }

-- The three ends of a successor.
pub data Linked {ℓ} {S : Type ℓ} (bound : ℕ) (e : Core) (from id : ℕ) (sc : Succ S)
    (r : Core × List S) : Type ℓ where
  known :
      (to : ℕ)
      → lookup e.index sc.hash sc.key e.hash ≡ hit to
      → r ≡ (add_edge e id to, [])
      → Linked bound e from id sc r
  refused :
      lookup e.index sc.hash sc.key e.hash ≡ miss
      → bound ≤ length e.parent
      → r ≡ (refuse e from, [])
      → Linked bound e from id sc r
  fresh :
      lookup e.index sc.hash sc.key e.hash ≡ miss
      → length e.parent < bound
      → (index : KeyIndex)
      → insert e.index (length e.parent) sc.hash sc.key (e.hash ++ sc.hash ∷ []) ≡ done index
      → r ≡ (
        add_edge
            (append_node e (some from) (some id) (get_or e.seen_n id 0) sc.hash index)
            id
            (length e.parent),
        sc.state ∷ [],
      )
      → Linked bound e from id sc r

module _ {ℓ} {S : Type ℓ} (bound : ℕ) (e : Core) (from id : ℕ) (sc : Succ S) where
  abbrev discovered : ℕ × Core → Core × List S
  discovered p = (add_edge p.1 id p.0, sc.state ∷ [])

  discover-eq-ok :
      {r : Core × List S}
      → discover e from id sc ≡ ok r
      → (p : ℕ × Core) × Added e (some from) (some id) (get_or e.seen_n id 0) sc.hash sc.key p
        × (discovered p ≡ r)
  unfolding discover
  discover-eq-ok h =
      let (f, p, h₁) = >>=-eq-ok (index32 from) _ h in
      let (n, q, h₂) =
        >>=-eq-ok (add_node e (some f) (some id) (get_or e.seen_n id 0) sc.hash sc.key) _ h₁ in
      let (s, _) = index32-eq-ok from p in
      let q' : add_node e (some from) (some id) (get_or e.seen_n id 0) sc.hash sc.key ≡ ok n =
        rw (← s) q in
      (n, add_node-Added e _ _ _ _ _ q', ok-injective h₂)

  pub link-Linked :
      {r : Core × List S} → link bound e from id sc ≡ ok r → Linked bound e from id sc r
  unfolding link
  link-Linked {r} h = at (lookup e.index sc.hash sc.key e.hash) refl
    where
      at : (l : Lookup) → lookup e.index sc.hash sc.key e.hash ≡ l → Linked bound e from id sc r
      at (hit to) q = known to q (ground arith)
      at fault q = let bad : panic index_fault ≡ ok r = ground arith in cc
      at spin q = let bad : panic hangs ≡ ok r = ground arith in cc
      at miss q = elim (Bool-cases (leb bound (length e.parent))) [
        | inl full ↦ refused q (ground arith) (ground arith)
        | inr room ↦
            let d : discover e from id sc ≡ ok r = ground arith in
            let (p, a, s) = discover-eq-ok d in
            fresh q (ground arith) a.index a.inserted (sym s ∙ ap discovered a.result)
      ]

-- The number that a move gets.
pub data Numbered (e : Core) (id : ℕ) (e' : Core) : Type 0 where
  again :
      get_or e.seen_stamp id 0 ≡ e.stamp
      → get_or e.seen_n id 0 ≢ 65535
      → e' ≡ record e { seen_n = set e.seen_n id (get_or e.seen_n id 0 + 1) }
      → Numbered e id e'
  first :
      get_or e.seen_stamp id 0 ≢ e.stamp
      → e' ≡ record e { seen_stamp = set e.seen_stamp id e.stamp; seen_n = set e.seen_n id 0 }
      → Numbered e id e'

pub number_move-Numbered :
    (e : Core) (id actor : ℕ) (move : String) {e' : Core}
    → number_move e id actor move ≡ ok e'
    → Numbered e id e'
unfolding number_move
number_move-Numbered e id actor move h = elim (Bool-cases (get_or e.seen_stamp id 0 == e.stamp)) [
  | inl b ↦ again (ground arith) (ground arith) (ground arith)
  | inr u ↦ first (ground arith) (ground arith)
]

pub close_edges-eq-ok :
    (e : Core) {e' : Core}
    → close_edges e ≡ ok e'
    → e' ≡ record e { edge_start = e.edge_start ++ length e.edge_to ∷ [] }
unfolding close_edges offset32
close_edges-eq-ok e h = ground arith

-- The parts of a merge of one successor.
pub record Merged {ℓ} {S : Type ℓ} (bound : ℕ) (e : Core) (from : ℕ) (prev : Option ℕ) (sc : Succ S)
    (r : Core × List S) : Type ℓ where
  pub id : ℕ
  pub entered : Core
  pub interned : Core
  pub numbered : Core
  pub enter : entered ≡ enter_actor e prev sc.actor
  pub intern : Interned entered (record { actor = sc.actor; move = sc.move }) (id, interned)
  pub number : Numbered interned id numbered
  pub link : Linked bound (count_label numbered id) from id sc r

pub merge_one-Merged {ℓ} :
    {S : Type ℓ} (bound : ℕ) (e : Core) (from : ℕ) (prev : Option ℕ) (sc : Succ S)
    {r : Core × List S}
    → merge_one bound e from prev sc ≡ ok r
    → Merged bound e from prev sc r
unfolding merge_one
merge_one-Merged bound e from prev sc h =
    let en = enter_actor e prev sc.actor in
    let l : Label = record { actor = sc.actor; move = sc.move } in
    let (i, p, h₁) = >>=-eq-ok (intern en l) _ h in
    let (n, q, h₂) = >>=-eq-ok (number_move i.1 i.0 sc.actor sc.move) _ h₁ in
    record {
      id = i.0;
      entered = en;
      interned = i.1;
      numbered = n;
      enter = refl;
      intern = intern-Interned en l p;
      number = number_move-Numbered i.1 i.0 sc.actor sc.move q;
      link = link-Linked bound (count_label n i.0) from i.0 sc h₂;
    }
