-- ===== src/Ctrl/LastWord.antt =====
-- The last pass of each group, and the lines of those that failed (ctrltest/quiescence.go).
use testkit.Prelude.{
  ◌≤◌, ◌<◌, List, [], ◌∷◌, ◌++◌, none, some, Bool, true, false, not, ◌&&◌, str_eq, eq_iff,
  if◌then◌else◌, ◌≡◌, ◌⊎◌, refl, sym, ap, ap₂, ◌∙◌, inl, inr, Bool-cases, All, All-append, arith,
  and_true,
}
use testkit.Ctrl.Op.{ObjectKey, same_key}
use testkit.Ctrl.Gate.{GatedKey, same_gated}
use testkit.Ctrl.Intercept.{Reconcile}
use testkit.Ctrl.Unconverged.{Latest, group_of, look, upsert}

-- A pass of a group: not a refused request.
abbrev pub in_group : GatedKey → Reconcile → Bool
in_group g r = not r.gated && same_gated (group_of r) g

-- The last pass of a group in a log, by its start: those before it in the log did not start later,
-- and those behind it started earlier.
pub data LastWord (g : GatedKey) : List Reconcile → Reconcile → Type 0 where
  last :
      {r : Reconcile} {rs : List Reconcile}
      → in_group g r ≡ true
      → All (λ x. in_group g x ≡ true → x.start < r.start) rs
      → LastWord g (r ∷ rs) r
  before :
      {x r : Reconcile} {rs : List Reconcile}
      → (in_group g x ≡ true → x.start ≤ r.start)
      → LastWord g rs r
      → LastWord g (x ∷ rs) r

abbrev pub Nobody : GatedKey → List Reconcile → Type 0
Nobody g rs = All (λ x. in_group g x ≡ false) rs

pub LastWord-group :
    (g : GatedKey) (rs : List Reconcile) (r : Reconcile) → LastWord g rs r → in_group g r ≡ true
LastWord-group g [] r l = elim l [ ]
LastWord-group g (x ∷ rs) r (last p a) = p
LastWord-group g (x ∷ rs) r (before p l) = LastWord-group g rs r l

-- Every pass of the group started at most as late.
pub LastWord-latest :
    (g : GatedKey) (rs : List Reconcile) (r : Reconcile)
    → LastWord g rs r
    → All (λ x. in_group g x ≡ true → x.start ≤ r.start) rs
LastWord-latest g [] r l = elim l [ ]
LastWord-latest g (x ∷ rs) r (last p a) = ((λ _. omega arith), weaker rs a)
  where
    weaker :
        (xs : List Reconcile)
        → All (λ y. in_group g y ≡ true → y.start < r.start) xs
        → All (λ y. in_group g y ≡ true → y.start ≤ r.start) xs
    weaker [] a = tt
    weaker (y ∷ ys) a = ((λ t. omega (arith, a.0 t)), weaker ys a.1)
LastWord-latest g (x ∷ rs) r (before p l) = (p, LastWord-latest g rs r l)

module _ (g : GatedKey) (x : Reconcile) where
  pub LastWord-snoc_old :
      (rs : List Reconcile) (r : Reconcile)
      → LastWord g rs r
      → (in_group g x ≡ true → x.start < r.start)
      → LastWord g (rs ++ (x ∷ [])) r
  LastWord-snoc_old [] r l h = elim l [ ]
  LastWord-snoc_old (y ∷ rs) r (last p a) h =
      last p (All-append (λ z. in_group g z ≡ true → z.start < r.start) rs (x ∷ []) a (h, tt))
  LastWord-snoc_old (y ∷ rs) r (before p l) h = before p (LastWord-snoc_old rs r l h)

  pub LastWord-snoc_new :
      (rs : List Reconcile)
      → in_group g x ≡ true
      → All (λ y. in_group g y ≡ true → y.start ≤ x.start) rs
      → LastWord g (rs ++ (x ∷ [])) x
  LastWord-snoc_new [] p a = last p tt
  LastWord-snoc_new (y ∷ rs) p a = before a.0 (LastWord-snoc_new rs p a.1)

pub LastWord-All :
    (g : GatedKey) (P : Reconcile → Type 0) (rs : List Reconcile) (r : Reconcile)
    → LastWord g rs r
    → All P rs
    → P r
LastWord-All g P [] r l h = elim l [ ]
LastWord-All g P (x ∷ rs) r (last p a) h = h.0
LastWord-All g P (x ∷ rs) r (before p l) h = LastWord-All g P rs r l h.1

-- A log has no two last passes of one group.
LastWord-clash :
    (g : GatedKey) (rs : List Reconcile) (r s : Reconcile)
    → in_group g r ≡ true
    → All (λ x. in_group g x ≡ true → x.start < r.start) rs
    → (in_group g r ≡ true → r.start ≤ s.start)
    → LastWord g rs s
    → ⊥
LastWord-clash g rs r s p a q l =
    let less =
      LastWord-All g (λ x. in_group g x ≡ true → x.start < r.start) rs s l a
        (LastWord-group g rs s l) in
    omega (arith, less, q p)

pub LastWord-unique :
    (g : GatedKey) (rs : List Reconcile) (r s : Reconcile)
    → LastWord g rs r
    → LastWord g rs s
    → r ≡ s
LastWord-unique g [] r s k l = elim k [ ]
LastWord-unique g (x ∷ rs) r s (last p a) (last q b) = refl
LastWord-unique g (x ∷ rs) r s (last p a) (before q l) = absurd (LastWord-clash g rs x s p a q l)
LastWord-unique g (x ∷ rs) r s (before p k) (last q b) = absurd (LastWord-clash g rs x r q b p k)
LastWord-unique g (x ∷ rs) r s (before p k) (before q l) = LastWord-unique g rs r s k l

pub same_gated_eq : (a b : GatedKey) → same_gated a b ≡ true → a ≡ b
same_gated_eq a b h =
    let (c, k) = and_true (str_eq a.controller b.controller) (same_key a.req b.req) h in
    let (n, m) =
      and_true (str_eq a.req.namespace b.req.namespace) (str_eq a.req.name b.req.name) k in
    let c' = (eq_iff a.controller b.controller).0 c in
    let n' = (eq_iff a.req.namespace b.req.namespace).0 n in
    let m' = (eq_iff a.req.name b.req.name).0 m in
    ap₂ (λ x (y : ObjectKey). record { controller = x; req = y }) c'
      (ap₂ (λ x y. record { namespace = x; name = y }) n' m')

pub same_gated_refl : (a : GatedKey) → same_gated a a ≡ true
same_gated_refl a =
    let c = (eq_iff a.controller a.controller).1 refl in
    let n = (eq_iff a.req.namespace a.req.namespace).1 refl in
    let m = (eq_iff a.req.name a.req.name).1 refl in rw (c, n, m) refl

pub look-upsert :
    (g h : GatedKey) (r : Reconcile) (m : Latest)
    → look g (upsert h r m) ≡ (if same_gated h g then some r else look g m)
look-upsert g h r [] = refl
look-upsert g h r ((k, x) ∷ m) = elim (Bool-cases (same_gated k h)) [
  | inl t ↦
      let e = ap (λ z. same_gated z g) (same_gated_eq k h t) in rw t (rw e (twice (same_gated h g)))
  | inr f ↦ elim (Bool-cases (same_gated k g)) [
    | inl t ↦ let d = apart f t (Bool-cases (same_gated h g)) in rw f (rw t (rw d refl))
    | inr u ↦ rw f (rw u (look-upsert g h r m))
  ]
]
  where
    twice :
        (b : Bool)
        → (if b then some r else look g m)
          ≡ (if b then some r else (if b then some x else look g m))
    twice true = refl
    twice false = refl

    apart :
        same_gated k h ≡ false
        → same_gated k g ≡ true
        → (same_gated h g ≡ true) ⊎ (same_gated h g ≡ false)
        → same_gated h g ≡ false
    apart f t (inr u) = u
    apart f t (inl u) =
        let e : k ≡ h = same_gated_eq k g t ∙ sym (same_gated_eq h g u) in
        absurd (let w = ap (λ z. same_gated z h) e ∙ same_gated_refl h in cc)

-- Every entry stands before any other of its group.
abbrev pub Apart : Latest → Type 0
Apart [] = Unit
Apart ((g, r) ∷ m) = (look g m ≡ none) × Apart m

pub upsert-Apart : (h : GatedKey) (r : Reconcile) (m : Latest) → Apart m → Apart (upsert h r m)
upsert-Apart h r [] a = (refl, tt)
upsert-Apart h r ((k, x) ∷ m) a = elim (Bool-cases (same_gated k h)) [
  | inl t ↦ rw t a
  | inr f ↦
      let d : same_gated h k ≡ false = flipped (Bool-cases (same_gated h k)) f in
      rw f (look-upsert k h r m ∙ rw d a.0, upsert-Apart h r m a.1)
]
  where
    flipped :
        (same_gated h k ≡ true) ⊎ (same_gated h k ≡ false)
        → same_gated k h ≡ false
        → same_gated h k ≡ false
    flipped (inr u) f = u
    flipped (inl t) f =
        absurd
          (let w = ap (λ z. same_gated z h) (sym (same_gated_eq h k t)) ∙ same_gated_refl h in cc)
