-- ===== src/Fakeapi/Content.antt =====
-- sameContent and content (fakeapi/tracker.go): what counts as a change.
use testkit.Prelude.{
  List, [], ◌∷◌, none, Bool, true, false, String, str_eq, eq_iff, ◌≡◌, refl, sym, ap, subst, ◌∙◌,
  ◌≢◌, ◌↔◌, inl, inr, Bool-cases,
}
use testkit.Fakeapi.Types.{good, field, Meta, MetaLaws}
use testkit.Fakeapi.Tracker.{is_dropped, keep_fields, content, same_content}

module _ {ℓ} {V : Type ℓ} where
  field-keep_fields_kept :
      (k : String) (u : List (String × V))
      → is_dropped k ≡ false
      → field k (keep_fields u) ≡ field k u
  unfolding keep_fields
  field-keep_fields_kept k [] d = refl
  field-keep_fields_kept k ((x, v) ∷ u) d = elim (Bool-cases (is_dropped x)) [
    | inl b ↦ elim (Bool-cases (str_eq x k)) [
      | inl e ↦ let q : x ≡ k = (eq_iff x k).0 e in let f = ap is_dropped q in cc
      | inr e ↦ rw (b, e) (field-keep_fields_kept k u d)
    ]
    | inr b ↦ elim (Bool-cases (str_eq x k)) [
      | inl e ↦ rw (b, e) refl
      | inr e ↦ rw (b, e) (field-keep_fields_kept k u d)
    ]
  ]

  field-keep_fields_dropped :
      (k : String) (u : List (String × V)) → is_dropped k ≡ true → field k (keep_fields u) ≡ none
  unfolding keep_fields
  field-keep_fields_dropped k [] d = refl
  field-keep_fields_dropped k ((x, v) ∷ u) d = elim (Bool-cases (is_dropped x)) [
    | inl b ↦ rw b (field-keep_fields_dropped k u d)
    | inr b ↦ elim (Bool-cases (str_eq x k)) [
      | inl e ↦ let q : x ≡ k = (eq_iff x k).0 e in let f = ap is_dropped q in cc
      | inr e ↦ rw (b, e) (field-keep_fields_dropped k u d)
    ]
  ]

-- The two unstructured objects agree outside metadata, status, apiVersion and kind.
abbrev pub Agree {ℓ} : {V : Type ℓ} → List (String × V) → List (String × V) → Type ℓ
Agree ua ub =
    (k : String)
    → k ≢ "metadata"
    → k ≢ "status"
    → k ≢ "apiVersion"
    → k ≢ "kind"
    → field k ua ≡ field k ub

str_neq : (a b : String) → a ≢ b → str_eq a b ≡ false
str_neq a b h = elim (Bool-cases (str_eq a b)) [ inl e ↦ absurd (h ((eq_iff a b).0 e)) | inr e ↦ e ]

is_dropped_lem :
    (k : String)
    → is_dropped k ≡ false
    → (k ≢ "metadata") × (k ≢ "status") × (k ≢ "apiVersion") × (k ≢ "kind")
unfolding is_dropped
is_dropped_lem k d = (
  λ e. differ (subst (λ x. is_dropped x ≡ false) e d),
  λ e. differ (subst (λ x. is_dropped x ≡ false) e d),
  λ e. differ (subst (λ x. is_dropped x ≡ false) e d),
  λ e. differ (subst (λ x. is_dropped x ≡ false) e d),
)
  where
    differ : true ≡ false → ⊥
    differ e = cc

is_kept :
    (k : String)
    → k ≢ "metadata"
    → k ≢ "status"
    → k ≢ "apiVersion"
    → k ≢ "kind"
    → is_dropped k ≡ false
unfolding is_dropped
is_kept k a b c d =
    rw (str_neq k "metadata" a, str_neq k "status" b, str_neq k "apiVersion" c, str_neq k "kind" d)
      refl

Agree-keep_fields {ℓ} :
    {V : Type ℓ} (ua ub : List (String × V))
    → Agree ua ub ↔ ((k : String) → field k (keep_fields ua) ≡ field k (keep_fields ub))
Agree-keep_fields ua ub = (
  λ h k. elim (Bool-cases (is_dropped k)) [
    | inl d ↦ field-keep_fields_dropped k ua d ∙ sym (field-keep_fields_dropped k ub d)
    | inr d ↦
        let (p, q, r, s) = is_dropped_lem k d in
        field-keep_fields_kept k ua d ∙ h k p q r s ∙ sym (field-keep_fields_kept k ub d)
  ],
  λ h k p q r s.
      let d = is_kept k p q r s in
      sym (field-keep_fields_kept k ua d) ∙ h k ∙ field-keep_fields_kept k ub d,
)

module _ {O V : Type 0} (m : Meta O V) (laws : MetaLaws m) where
  content_lem :
      (o : O) (u : List (String × V))
      → m.to_unstructured o ≡ good u
      → content m o ≡ good (keep_fields u)
  unfolding content
  content_lem o u p = rw (p, content) refl

  -- Where both objects convert, sameContent answers, and it answers yes exactly where they agree
  -- on every top-level field but metadata, status, apiVersion and kind.
  pub same_content_lem :
      (a b : O) (ua ub : List (String × V))
      → m.to_unstructured a ≡ good ua
      → m.to_unstructured b ≡ good ub
      → (same : Bool) × (same_content m a b ≡ good same) × ((same ≡ true) ↔ Agree ua ub)
  unfolding same_content
  same_content_lem a b ua ub p q = (
    m.deep_equal (keep_fields ua) (keep_fields ub),
    rw (content_lem a ua p, content_lem b ub q, same_content) refl,
    (
      λ e.
          (Agree-keep_fields ua ub).1 ((laws.deep_equal_iff (keep_fields ua) (keep_fields ub)).0 e),
      λ h.
          (laws.deep_equal_iff (keep_fields ua) (keep_fields ub)).1 ((Agree-keep_fields ua ub).0 h),
    ),
  )
