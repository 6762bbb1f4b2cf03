-- ===== src/Ctrl/Suffix.antt =====
-- Kinds with and without a package in front (KindSuffix, ExpectOf, TrimSuffix in ctrltest).
use Prim.Native.Char.{code}
use Prim.Native.String.{◌++◌ as cat}
use text.Mathlib.TextLemmas.{nil-append, cons-append, append_cancel_right, cons-ne-nil}
use testkit.Prelude.{
  none, some, String, str_eq, eq_iff, ◌==◌, ◌≡◌, refl, sym, ap, ◌∙◌, inl, inr, Bool-cases,
  Option-cases, arith,
}
use testkit.Ctrl.Op.{Op}
use testkit.Ctrl.Kind.{after_dot, kind_suffix, trim_suffix, expect_key, op_key, expect_of}

-- No full stop stands behind the last one.
after_dot_last : (s : String) {t : String} → after_dot s ≡ some t → after_dot t ≡ none
unfolding after_dot
after_dot_last String.[] e = cc
after_dot_last (String.◌∷◌ c s) {t} e = elim (Option-cases (after_dot s)) [
  | inr (u, q) ↦ let r = after_dot_last s q in ground arith
  | inl q ↦ elim (Bool-cases (code c == 46)) [ inl d ↦ ground arith | inr d ↦ ground arith ]
]

kind_suffix_of_none : (k : String) → after_dot k ≡ none → kind_suffix k ≡ k
unfolding kind_suffix
kind_suffix_of_none k e = rw (kind_suffix, e) refl

kind_suffix_of_some : (k : String) {t : String} → after_dot k ≡ some t → kind_suffix k ≡ t
unfolding kind_suffix
kind_suffix_of_some k e = rw (kind_suffix, e) refl

kind_suffix_idem : (k : String) → kind_suffix (kind_suffix k) ≡ kind_suffix k
kind_suffix_idem k = elim (Option-cases (after_dot k)) [
  | inl e ↦ ap kind_suffix (kind_suffix_of_none k e)
  | inr (t, e) ↦
      ap kind_suffix (kind_suffix_of_some k e)
      ∙ kind_suffix_of_none t (after_dot_last k e)
      ∙ sym (kind_suffix_of_some k e)
]

after_dot-append : (p k : String) → after_dot k ≡ none → after_dot (cat p (cat "." k)) ≡ some k
unfolding after_dot
after_dot-append String.[] k e =
    let bare = nil-append k in
    rw (nil-append (cat "." k), cons-append "." "" k, after_dot)
      (rw (ap after_dot bare ∙ e) (ap some bare))
after_dot-append (String.◌∷◌ c s) k e =
    rw (cons-append c s (cat "." k), after_dot, after_dot-append s k e) refl

-- An op of the kind `k`, recorded with a package in front of it, is expected under the bare kind `k`,
-- its verb and its name, and the expectation made from the op has the op's own key.
pub expect_key-expect_of :
    (op : Op) (p k : String)
    → after_dot k ≡ none
    → op.kind ≡ cat p (cat "." k)
    → (expect_of op ≡ record { verb = op.verb; kind = k; name = op.key.name })
      × (expect_key (expect_of op) ≡ op_key op)
unfolding expect_of expect_key op_key
expect_key-expect_of op p k e q =
    let r : kind_suffix op.kind ≡ k =
      ap kind_suffix q ∙ kind_suffix_of_some (cat p (cat "." k)) (after_dot-append p k e) in
    (rw r refl, rw (kind_suffix_idem op.kind) refl)

-- TrimSuffix takes the suffix off once.
trim_suffix_self : (s : String) → trim_suffix s s ≡ ""
unfolding trim_suffix
trim_suffix_self String.[] = refl
trim_suffix_self (String.◌∷◌ c s) = rw ((eq_iff (String.◌∷◌ c s) (String.◌∷◌ c s)).1 refl) refl

pub trim_suffix-append : (s suffix : String) → trim_suffix (cat s suffix) suffix ≡ s
unfolding trim_suffix
trim_suffix-append String.[] suffix = rw (nil-append suffix) (trim_suffix_self suffix)
trim_suffix-append (String.◌∷◌ c s) suffix =
    elim (Bool-cases (str_eq (String.◌∷◌ c (cat s suffix)) suffix)) [
      | inl t ↦ absurd (
          cons-ne-nil c s (
            append_cancel_right (String.◌∷◌ c s) "" suffix (
              cons-append c s suffix
              ∙ (eq_iff (String.◌∷◌ c (cat s suffix)) suffix).0 t
              ∙ sym (nil-append suffix))))
      | inr f ↦
          rw (cons-append c s suffix, f, trim_suffix)
            (ap (String.◌∷◌ c) (trim_suffix-append s suffix))
    ]
