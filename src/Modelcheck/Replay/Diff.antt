-- ===== src/Modelcheck/Replay/Diff.antt =====
-- firstDiff of modelcheck/replay.go, without the format of its text.
use Prim.Native.Char.{code}
use testkit.Prelude.{
  ℕ, zero, suc, ◌+◌, ◌<◌, ◌==◌, List, [], ◌∷◌, Option, none, some, false, String, str_eq, eq_iff,
  if◌then◌else◌, get_or, ◌≡◌, refl, sym, ◌∙◌, ◌≢◌, inl, inr, Bool-cases, arith,
}

-- strings.Split(s, "\n").
unfoldable pub extended : List String → String → List String
extended [] c = c ∷ []
extended (l ∷ ls) c = c ∷ ls

unfoldable pub lines : String → List String
lines String.[] = "" ∷ []
lines (String.◌∷◌ c s) =
    let rest = lines s in
    if code c == 10 then "" ∷ rest else extended rest (String.◌∷◌ c (get_or rest 0 ""))

-- A difference: the number of the line, from 1, and the two lines.
abbrev pub Difference : Type 0
Difference = ℕ × String × String

-- The loop from line j on; a line that is not there counts as empty.
unfoldable pub diff_from : ℕ → List String → List String → Option Difference
diff_from j [] [] = none
diff_from j [] (y ∷ ys) =
    let rest = diff_from (j + 1) [] ys in if str_eq "" y then rest else some (j + 1, "", y)
diff_from j (x ∷ xs) [] =
    let rest = diff_from (j + 1) xs [] in if str_eq x "" then rest else some (j + 1, x, "")
diff_from j (x ∷ xs) (y ∷ ys) =
    let rest = diff_from (j + 1) xs ys in if str_eq x y then rest else some (j + 1, x, y)

unfoldable pub first_diff : String → String → Option Difference
first_diff a b = diff_from 0 (lines a) (lines b)

-- What a difference has to be, for lines that start at j.
abbrev pub IsFirstDiff : ℕ → List String → List String → Option Difference → Type 0
IsFirstDiff j xs ys none = (k : ℕ) → get_or xs k "" ≡ get_or ys k ""
IsFirstDiff j xs ys (some d) =
    (k : ℕ) × (d.0 ≡ j + k + 1)
    × (d.1 ≡ get_or xs k "")
    × (d.2 ≡ get_or ys k "")
    × (d.1 ≢ d.2)
    × ((i : ℕ) → i < k → get_or xs i "" ≡ get_or ys i "")

-- A first line that agrees, before the rest.
IsFirstDiff-shift :
    (j : ℕ) (xs ys xs' ys' : List String) (o : Option Difference)
    → get_or xs' 0 "" ≡ get_or ys' 0 ""
    → ((k : ℕ) → get_or xs' (suc k) "" ≡ get_or xs k "")
    → ((k : ℕ) → get_or ys' (suc k) "" ≡ get_or ys k "")
    → IsFirstDiff (j + 1) xs ys o
    → IsFirstDiff j xs' ys' o
IsFirstDiff-shift j xs ys xs' ys' none e p q h = below
  where
    below : (k : ℕ) → get_or xs' k "" ≡ get_or ys' k ""
    below zero = e
    below (suc k) = p k ∙ h k ∙ sym (q k)
IsFirstDiff-shift j xs ys xs' ys' (some d) e p q (k, a, b, c, n, h) =
    (suc k, omega (arith, a), b ∙ sym (p k), c ∙ sym (q k), n, below)
  where
    below : (i : ℕ) → i < suc k → get_or xs' i "" ≡ get_or ys' i ""
    below zero l = e
    below (suc i) l = p i ∙ h i (omega arith) ∙ sym (q i)

differs : (x y : String) → str_eq x y ≡ false → x ≢ y
differs x y f e = let t = (eq_iff x y).1 e in cc

diff_from-IsFirstDiff : (j : ℕ) (xs ys : List String) → IsFirstDiff j xs ys (diff_from j xs ys)
unfolding diff_from
diff_from-IsFirstDiff j [] [] = λ k. refl
diff_from-IsFirstDiff j [] (y ∷ ys) = elim (Bool-cases (str_eq "" y)) [
  | inl t ↦ rw t (
      IsFirstDiff-shift j [] ys [] (y ∷ ys) (diff_from (j + 1) [] ys) ((eq_iff "" y).0 t)
        (λ k. refl) (λ k. refl) (diff_from-IsFirstDiff (j + 1) [] ys))
  | inr f ↦ rw f (0, omega arith, refl, refl, differs "" y f, λ i l. absurd (omega arith))
]
diff_from-IsFirstDiff j (x ∷ xs) [] = elim (Bool-cases (str_eq x "")) [
  | inl t ↦ rw t (
      IsFirstDiff-shift j xs [] (x ∷ xs) [] (diff_from (j + 1) xs []) ((eq_iff x "").0 t)
        (λ k. refl) (λ k. refl) (diff_from-IsFirstDiff (j + 1) xs []))
  | inr f ↦ rw f (0, omega arith, refl, refl, differs x "" f, λ i l. absurd (omega arith))
]
diff_from-IsFirstDiff j (x ∷ xs) (y ∷ ys) = elim (Bool-cases (str_eq x y)) [
  | inl t ↦ rw t (
      IsFirstDiff-shift j xs ys (x ∷ xs) (y ∷ ys) (diff_from (j + 1) xs ys) ((eq_iff x y).0 t)
        (λ k. refl) (λ k. refl) (diff_from-IsFirstDiff (j + 1) xs ys))
  | inr f ↦ rw f (0, omega arith, refl, refl, differs x y f, λ i l. absurd (omega arith))
]

-- firstDiff finds the first line, counted from 1, at which the two texts differ, a missing line taken
-- as empty, and finds none exactly where all lines agree in that sense.
pub first_diff_lem : (a b : String) → IsFirstDiff 0 (lines a) (lines b) (first_diff a b)
unfolding first_diff
first_diff_lem a b = diff_from-IsFirstDiff 0 (lines a) (lines b)
