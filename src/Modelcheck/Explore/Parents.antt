-- ===== src/Modelcheck/Explore/Parents.antt =====
-- The parent column of the graph that the search of modelcheck/explore.go builds.
use testkit.Prelude.{
  ℕ, zero, suc, ◌<◌, ◌≡◌, refl, sym, ap, subst, ◌∙◌, ◌⊎◌, inl, inr, List, [], ◌∷◌, ◌++◌, Option,
  none, some, arith, length, length-append, get_elem?,
}
use testkit.Modelcheck.System.{ok, >>=-eq-ok, ok-injective}
use testkit.Modelcheck.Explore.Defs.{
  Core, Label, Succ, intern_new, append_node, enter_actor, count_label, add_edge, refuse, merge_one,
  merge_from,
}
use testkit.Modelcheck.Explore.Cases.{
  Interned, known, fresh, Linked, Numbered, again, first, merge_one-Merged,
}
use testkit.Modelcheck.Explore.Counts.{merge_one-Grows}

-- Parents come before their children, and a node without a parent has no label.
pub record Ordered (g : Core) : Type 0 where
  pub earlier : (i p : ℕ) → get_elem? g.parent i ≡ some (some p) → p < i
  pub unlabelled : (i : ℕ) → get_elem? g.parent i ≡ some none → get_elem? g.label i ≡ some none

-- With a label for each node.
pub record Arranged (g : Core) : Type 0 where
  pub ordered : Ordered g
  pub aligned : length g.label ≡ length g.parent

-- The two columns are the same.
abbrev pub SameTree : Core → Core → Type 0
SameTree e e' = (e'.parent ≡ e.parent) × (e'.label ≡ e.label)

pub Arranged-SameTree : (e e' : Core) → SameTree e e' → Arranged e → Arranged e'
Arranged-SameTree e e' s a = record {
  ordered = record {
    earlier = λ i p h. a.ordered.earlier i p (ap (λ x. get_elem? x i) (sym s.0) ∙ h);
    unlabelled = λ i h.
        ap (λ x. get_elem? x i) s.1
        ∙ a.ordered.unlabelled i (ap (λ x. get_elem? x i) (sym s.0) ∙ h);
  };
  aligned = ap length s.1 ∙ a.aligned ∙ sym (ap length s.0);
}

module _ {ℓ} {A : Type ℓ} where
  get_elem?-append_cases :
      (xs : List A) (x : A) (i : ℕ) {y : A}
      → get_elem? (xs ++ x ∷ []) i ≡ some y
      → (get_elem? xs i ≡ some y) ⊎ ((i ≡ length xs) × (x ≡ y))
  get_elem?-append_cases [] x zero {y} e = let z : x ≡ y = cc in inr (refl, z)
  get_elem?-append_cases [] x (suc i) e = cc
  get_elem?-append_cases (w ∷ xs) x zero e = inl e
  get_elem?-append_cases (w ∷ xs) x (suc i) e = elim (get_elem?-append_cases xs x i e) [
    | inl q ↦ inl q
    | inr (q, r) ↦ inr (ap suc q, r)
  ]

  get_elem?-append_keep :
      (xs : List A) (x : A) (i : ℕ) {y : A}
      → get_elem? xs i ≡ some y
      → get_elem? (xs ++ x ∷ []) i ≡ some y
  get_elem?-append_keep [] x i e = cc
  get_elem?-append_keep (w ∷ xs) x zero e = e
  get_elem?-append_keep (w ∷ xs) x (suc i) e = get_elem?-append_keep xs x i e

  get_elem?-append_new :
      (xs : List A) (x : A) (i : ℕ) → i ≡ length xs → get_elem? (xs ++ x ∷ []) i ≡ some x
  get_elem?-append_new [] x zero e = refl
  get_elem?-append_new [] x (suc i) e = absurd (omega arith)
  get_elem?-append_new (w ∷ xs) x zero e = absurd (omega arith)
  get_elem?-append_new (w ∷ xs) x (suc i) e = get_elem?-append_new xs x i (omega arith)

-- A node whose parent is there, or a root without a label.
abbrev pub Fits : Core → Option ℕ → Option ℕ → Type 0
Fits e none l = l ≡ none
Fits e (some p) l = p < length e.parent

pub Arranged-append :
    (e e' : Core) (o l : Option ℕ)
    → e'.parent ≡ e.parent ++ o ∷ []
    → e'.label ≡ e.label ++ l ∷ []
    → Fits e o l
    → Arranged e
    → Arranged e'
Arranged-append e e' o l p q f a = record {
  ordered = record {
    earlier = λ i j h.
        elim (get_elem?-append_cases e.parent o i (ap (λ x. get_elem? x i) (sym p) ∙ h)) [
          | inl k ↦ a.ordered.earlier i j k
          | inr (k, z) ↦ young o f i j k z
        ];
    unlabelled = λ i h.
        ap (λ x. get_elem? x i) q
        ∙ (elim (get_elem?-append_cases e.parent o i (ap (λ x. get_elem? x i) (sym p) ∙ h)) [
          | inl k ↦ get_elem?-append_keep e.label l i (a.ordered.unlabelled i k)
          | inr (k, z) ↦ get_elem?-append_new e.label l i (k ∙ sym a.aligned) ∙ ap some (bare o f z)
        ]);
  };
  aligned = omega (
    arith,
    ap length p,
    ap length q,
    length-append e.parent (o ∷ []),
    length-append e.label (l ∷ []),
    a.aligned,
  );
}
  where
    young : (o : Option ℕ) → Fits e o l → (i j : ℕ) → i ≡ length e.parent → o ≡ some j → j < i
    young none f i j k z = cc
    young (some x) f i j k z = let y : x ≡ j = cc in omega (arith, y, f, k)

    bare : (o : Option ℕ) → Fits e o l → o ≡ none → l ≡ none
    bare none f z = f
    bare (some x) f z = cc

Interned-SameTree : (e : Core) (l : Label) {r : ℕ × Core} → Interned e l r → SameTree e r.1
unfolding intern_new
Interned-SameTree e l (known id q s) =
    (ap (λ (x : ℕ × Core). (x.1).parent) s, ap (λ (x : ℕ × Core). (x.1).label) s)
Interned-SameTree e l (fresh q s) =
    (ap (λ (x : ℕ × Core). (x.1).parent) s, ap (λ (x : ℕ × Core). (x.1).label) s)

Numbered-SameTree : (e : Core) (id : ℕ) {e' : Core} → Numbered e id e' → SameTree e e'
Numbered-SameTree e id (again q n s) = (ap (λ (x : Core). x.parent) s, ap (λ (x : Core). x.label) s)
Numbered-SameTree e id (first q s) = (ap (λ (x : Core). x.parent) s, ap (λ (x : Core). x.label) s)

enter_actor-SameTree :
    (e : Core) (prev : Option ℕ) (actor : ℕ) → SameTree e (enter_actor e prev actor)
unfolding enter_actor
enter_actor-SameTree e none actor = (refl, refl)
enter_actor-SameTree e (some p) actor = (ground arith, ground arith)

module _ {ℓ} {S : Type ℓ} (bound : ℕ) where
  Linked-Arranged :
      (e : Core) (from id : ℕ) (sc : Succ S) {r : Core × List S}
      → from < length e.parent
      → Linked bound e from id sc r
      → Arranged e
      → Arranged r.0
  unfolding add_edge refuse append_node
  Linked-Arranged e from id sc f (Linked.known to q s) a =
      rw s (Arranged-SameTree e _ (refl, refl) a)
  Linked-Arranged e from id sc f (Linked.refused q b s) a =
      rw s (Arranged-SameTree e _ (refl, refl) a)
  Linked-Arranged e from id sc f (Linked.fresh q lt ix i s) a =
      rw s (Arranged-append e _ (some from) (some id) refl refl f a)

  merge_one-Arranged :
      (e : Core) (from : ℕ) (prev : Option ℕ) (sc : Succ S) {r : Core × List S}
      → from < length e.parent
      → merge_one bound e from prev sc ≡ ok r
      → Arranged e
      → Arranged r.0
  unfolding count_label
  merge_one-Arranged e from prev sc f h a =
      let m = merge_one-Merged bound e from prev sc h in
      let a₁ =
        Arranged-SameTree e (enter_actor e prev sc.actor) (enter_actor-SameTree e prev sc.actor)
          a in
      let a₂ = subst Arranged (sym m.enter) a₁ in
      let a₃ = Arranged-SameTree m.entered m.interned (Interned-SameTree m.entered _ m.intern) a₂ in
      let a₄ =
        Arranged-SameTree m.interned m.numbered (Numbered-SameTree m.interned m.id m.number) a₃ in
      let same : (m.numbered).parent ≡ e.parent =
        (Numbered-SameTree m.interned m.id m.number).0
        ∙ (Interned-SameTree m.entered _ m.intern).0
        ∙ ap (λ (x : Core). x.parent) m.enter
        ∙ (enter_actor-SameTree e prev sc.actor).0 in
      Linked-Arranged _ from m.id sc (omega (arith, f, ap length same)) m.link
        (Arranged-SameTree m.numbered _ (refl, refl) a₄)

  pub merge_from-Arranged :
      (e : Core) (from : ℕ) (prev : Option ℕ) (scs : List (Succ S)) {r : Core × List S}
      → from < length e.parent
      → merge_from bound e from prev scs ≡ ok r
      → Arranged e
      → Arranged r.0
  unfolding merge_from
  merge_from-Arranged e from prev [] f h a =
      subst (λ (x : Core × List S). Arranged x.0) (ok-injective h) a
  merge_from-Arranged e from prev (sc ∷ scs) {r} f h a =
      let (r₁, p, h₁) = >>=-eq-ok (merge_one bound e from prev sc) _ h in
      let (r₂, q, h₂) = >>=-eq-ok (merge_from bound r₁.0 from (some sc.actor) scs) _ h₁ in
      let a₁ = merge_one-Arranged e from prev sc f p a in
      let g = merge_one-Grows bound e from prev sc p in
      let a₂ = merge_from-Arranged r₁.0 from (some sc.actor) scs (omega (arith, f, g.added)) q a₁ in
      subst Arranged (ap (λ (x : Core × List S). x.0) (ok-injective h₂)) a₂
