-- ===== src/Prelude/Texts.antt =====
-- The order of texts, and their equality as a test; laws of `&&` and `||`.
use Prim.Native.String.{String, compare}
use mathlib.Core.Path.{◌≡◌, refl, sym, ◌∙◌}
use mathlib.Core.Logic.{inl, inr}
use mathlib.Core.Bool.{Bool, true, false, ◌&&◌, ◌||◌}
use text.Mathlib.Text.{is_le, ◌==◌ as str_eq}
use text.Mathlib.TextEquality.{eq_iff}
use testkit.Prelude.Tests.{Bool-cases}

abbrev pub text_le : String → String → Bool
text_le a b = is_le (compare a b)

pub str_eq_refl : (s : String) → str_eq s s ≡ true
str_eq_refl s = (eq_iff s s).1 refl

pub str_eq_sym : (s t : String) → str_eq s t ≡ str_eq t s
str_eq_sym s t = elim (Bool-cases (str_eq s t)) [
  | inl e ↦ e ∙ sym ((eq_iff t s).1 (sym ((eq_iff s t).0 e)))
  | inr f ↦ elim (Bool-cases (str_eq t s)) [
    | inl e ↦ absurd (let g = (eq_iff s t).1 (sym ((eq_iff t s).0 e)) in cc)
    | inr g ↦ f ∙ sym g
  ]
]

pub or_true : (a b : Bool) → b ≡ true → a || b ≡ true
or_true true b h = refl
or_true false b h = h

pub or_false : (a : Bool) → a || false ≡ a
or_false true = refl
or_false false = refl

pub and_false : (a b : Bool) → b ≡ false → a && b ≡ false
and_false true b h = h
and_false false b h = refl

pub and_true : (a b : Bool) → a && b ≡ true → (a ≡ true) × (b ≡ true)
and_true true b h = (refl, h)
and_true false b h = absurd cc
