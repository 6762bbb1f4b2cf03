-- ===== src/Ctrl/Converged.antt =====
-- The report names exactly the groups whose last pass failed (Unconverged in ctrltest/quiescence.go).
use testkit.Prelude.{
  ◌≤◌, ◌<◌, List, [], ◌∷◌, ◌++◌, append-nil, append_assoc, Option, none, some, Bool, true, false,
  ltb, if◌then◌else◌, ◌≡◌, ◌⊎◌, refl, sym, ap, ap₂, subst, ◌∙◌, inl, inr, Bool-cases, All,
  All-append, In, here, there, arith,
}
use testkit.Ctrl.Gate.{GatedKey, same_gated}
use testkit.Ctrl.Intercept.{Reconcile}
use testkit.Ctrl.Unconverged.{Latest, group_of, look, upsert, put_latest, note_latest, note_all}
use testkit.Ctrl.LastWord.{
  in_group, LastWord, Nobody, LastWord-latest, LastWord-snoc_old, LastWord-snoc_new, same_gated_eq,
  same_gated_refl, look-upsert, Apart, upsert-Apart,
}

-- What the map says of a group, against what has been read.
abbrev pub Told : GatedKey → Latest → List Reconcile → Type 0
Told g m rs =
    ((look g m ≡ none) × Nobody g rs) ⊎ ((r : Reconcile) × (look g m ≡ some r) × LastWord g rs r)

Told-other :
    (g : GatedKey) (x : Reconcile) (m : Latest) (rs : List Reconcile)
    → in_group g x ≡ false
    → Told g m rs
    → Told g m (rs ++ (x ∷ []))
Told-other g x m rs f (inl (e, n)) =
    inl (e, All-append (λ y. in_group g y ≡ false) rs (x ∷ []) n (f, tt))
Told-other g x m rs f (inr (r, e, l)) = inr (r, e, LastWord-snoc_old g x rs r l (λ t. absurd cc))

earlier_if_new :
    (g : GatedKey) (x : Reconcile) (rs : List Reconcile)
    → Nobody g rs
    → All (λ y. in_group g y ≡ true → y.start ≤ x.start) rs
earlier_if_new g x [] n = tt
earlier_if_new g x (y ∷ rs) n = ((λ t. absurd cc), earlier_if_new g x rs n.1)

earlier_of_latest :
    (g : GatedKey) (x prev : Reconcile) (rs : List Reconcile)
    → prev.start ≤ x.start
    → All (λ y. in_group g y ≡ true → y.start ≤ prev.start) rs
    → All (λ y. in_group g y ≡ true → y.start ≤ x.start) rs
earlier_of_latest g x prev [] h a = tt
earlier_of_latest g x prev (y ∷ rs) h a =
    ((λ t. omega (arith, h, a.0 t)), earlier_of_latest g x prev rs h a.1)

-- The record becomes its group's entry, where nothing read of the group started later.
Told-upsert :
    (g : GatedKey) (x : Reconcile) (m : Latest) (rs : List Reconcile)
    → x.gated ≡ false
    → All (λ y. in_group (group_of x) y ≡ true → y.start ≤ x.start) rs
    → Told g m rs
    → Told g (upsert (group_of x) x m) (rs ++ (x ∷ []))
Told-upsert g x m rs f a t = elim (Bool-cases (same_gated (group_of x) g)) [
  | inl s ↦
      let e = same_gated_eq (group_of x) g s in
      let p : in_group g x ≡ true = rw f s in
      let later : All (λ y. in_group g y ≡ true → y.start ≤ x.start) rs =
        subst (λ h. All (λ y. in_group h y ≡ true → y.start ≤ x.start) rs) e a in
      inr (x, look-upsert g (group_of x) x m ∙ rw s refl, LastWord-snoc_new g x rs p later)
  | inr u ↦
      let p : in_group g x ≡ false = rw f u in
      let same : look g (upsert (group_of x) x m) ≡ look g m =
        look-upsert g (group_of x) x m ∙ rw u refl in
      moved same (Told-other g x m rs p t)
]
  where
    moved :
        look g (upsert (group_of x) x m) ≡ look g m
        → Told g m (rs ++ (x ∷ []))
        → Told g (upsert (group_of x) x m) (rs ++ (x ∷ []))
    moved e (inl (n, k)) = inl (e ∙ n, k)
    moved e (inr (r, k, l)) = inr (r, e ∙ k, l)

Told-note :
    (x : Reconcile) (m : Latest) (rs : List Reconcile)
    → ((g : GatedKey) → Told g m rs)
    → (g : GatedKey) → Told g (note_latest x m) (rs ++ (x ∷ []))
Told-note x m rs h g = elim (Bool-cases x.gated) [
  | inl t ↦
      let p : in_group g x ≡ false = rw t refl in
      subst (λ n. Told g n (rs ++ (x ∷ []))) (skipped t) (Told-other g x m rs p (h g))
  | inr f ↦ subst (λ n. Told g n (rs ++ (x ∷ []))) (taken f) (by_entry f (h (group_of x)))
]
  where
    skipped : x.gated ≡ true → m ≡ note_latest x m
    skipped t = sym (ap (λ b. if b then m else put_latest (look (group_of x) m) x m) t)

    taken : x.gated ≡ false → put_latest (look (group_of x) m) x m ≡ note_latest x m
    taken f = sym (ap (λ b. if b then m else put_latest (look (group_of x) m) x m) f)

    by_entry :
        x.gated ≡ false
        → Told (group_of x) m rs
        → Told g (put_latest (look (group_of x) m) x m) (rs ++ (x ∷ []))
    by_entry f (inl (e, n)) =
        rw e (Told-upsert g x m rs f (earlier_if_new (group_of x) x rs n) (h g))
    by_entry f (inr (prev, e, l)) = elim (Bool-cases (ltb x.start prev.start)) [
      | inr u ↦
          let le : prev.start ≤ x.start = ground arith in
          rw e (
            rw u (
              Told-upsert g x m rs f
                (earlier_of_latest (group_of x) x prev rs le
                  (LastWord-latest (group_of x) rs prev l))
                (h g)))
      | inl t ↦ rw e (
          rw t (elim (Bool-cases (same_gated (group_of x) g)) [
            | inr v ↦ let p : in_group g x ≡ false = rw f v in Told-other g x m rs p (h g)
            | inl s ↦
                let q = same_gated_eq (group_of x) g s in
                let lt : x.start < prev.start = ground arith in
                subst (λ k. Told k m (rs ++ (x ∷ []))) q
                  (inr (prev, e, LastWord-snoc_old (group_of x) x rs prev l (λ _. lt)))
          ]))
    ]

pub Told-all :
    (xs : List Reconcile) (m : Latest) (rs : List Reconcile)
    → ((g : GatedKey) → Told g m rs)
    → (g : GatedKey) → Told g (note_all xs m) (rs ++ xs)
Told-all [] m rs h g = rw (append-nil rs) (h g)
Told-all (x ∷ xs) m rs h g =
    subst (Told g (note_all xs (note_latest x m))) (append_assoc rs (x ∷ []) xs)
      (Told-all xs (note_latest x m) (rs ++ (x ∷ [])) (Told-note x m rs h) g)

note_latest-Apart : (x : Reconcile) (m : Latest) → Apart m → Apart (note_latest x m)
note_latest-Apart x m a = by_gated x.gated
  where
    by_entry : (o : Option Reconcile) → Apart (put_latest o x m)
    by_entry none = upsert-Apart (group_of x) x m a
    by_entry (some prev) = elim (Bool-cases (ltb x.start prev.start)) [
      | inl t ↦ rw t a
      | inr f ↦ rw f (upsert-Apart (group_of x) x m a)
    ]

    by_gated : (b : Bool) → Apart (if b then m else put_latest (look (group_of x) m) x m)
    by_gated true = a
    by_gated false = by_entry (look (group_of x) m)

pub note_all-Apart : (xs : List Reconcile) (m : Latest) → Apart m → Apart (note_all xs m)
note_all-Apart [] m a = a
note_all-Apart (x ∷ xs) m a = note_all-Apart xs (note_latest x m) (note_latest-Apart x m a)

pub look-In :
    (g : GatedKey) (r : Reconcile) (m : Latest) → Apart m → In (g, r) m → look g m ≡ some r
look-In g r [] a h = elim h [ ]
look-In g r ((k, x) ∷ m) a (here e) =
    let s : same_gated k g ≡ true =
      ap (λ z. same_gated z g) (sym (ap (λ z. z.0) e)) ∙ same_gated_refl g in
    rw s (ap some (sym (ap (λ z. z.1) e)))
look-In g r ((k, x) ∷ m) a (there h) =
    let ih = look-In g r m a.1 h in
    elim (Bool-cases (same_gated k g)) [
      | inl t ↦
          let n : look g m ≡ none = ap (λ z. look z m) (sym (same_gated_eq k g t)) ∙ a.0 in
          absurd cc
      | inr f ↦ rw f ih
    ]

pub In-look : (g : GatedKey) (r : Reconcile) (m : Latest) → look g m ≡ some r → In (g, r) m
In-look g r [] e = absurd cc
In-look g r ((k, x) ∷ m) e = elim (Bool-cases (same_gated k g)) [
  | inl t ↦
      let q : x ≡ r = ground arith in here (ap₂ (λ a b. (a, b)) (sym (same_gated_eq k g t)) (sym q))
  | inr f ↦ there (In-look g r m (ground arith))
]
