-- ===== src/Script/Meaning.antt =====
-- What the permissions of a step mean, told without the code of ctrltest/script.go: which changes they
-- permit, and which of these Before puts before which.
use testkit.Prelude.{
  ℕ, ◌+◌, ◌<◌, List, [], ◌∷◌, ◌++◌, Bool, true, false, not, ◌&&◌, ◌||◌, String, str_eq, eq_iff, ◌≡◌,
  ◌⊎◌, sym, subst, inl, inr, Bool-cases, In, here, there, length, arith,
}
use testkit.Ctrl.Op.{is_empty}
use testkit.Script.Allow.{
  Event, LeafAllow, Allow, unset, quiet, leaf, before, contains, contains_all, matches,
}

abbrev pub leaves_in : Allow → List LeafAllow
leaves_in unset = []
leaves_in quiet = []
leaves_in (leaf l) = l ∷ []
leaves_in (before a b) = leaves_in a ++ leaves_in b

abbrev pub leaves_of : List Allow → List LeafAllow
leaves_of [] = []
leaves_of (a ∷ more) = leaves_in a ++ leaves_of more

-- Among the leaves of a permission, numbered from 0: leaf i has to come before leaf j.
pub data Precedes : Allow → ℕ → ℕ → Type 0 where
  across :
      {a b : Allow} {i j : ℕ}
      → i < length (leaves_in a)
      → j < length (leaves_in b)
      → Precedes (before a b) i (length (leaves_in a) + j)
  in_left : {a b : Allow} {i j : ℕ} → Precedes a i j → Precedes (before a b) i j
  in_right :
      {a b : Allow} {i j : ℕ}
      → Precedes b i j
      → Precedes (before a b) (length (leaves_in a) + i) (length (leaves_in a) + j)

-- The same for all permissions of a step.
pub data PrecedesIn : List Allow → ℕ → ℕ → Type 0 where
  in_first : {a : Allow} {more : List Allow} {i j : ℕ} → Precedes a i j → PrecedesIn (a ∷ more) i j
  in_rest :
      {a : Allow} {more : List Allow} {i j : ℕ}
      → PrecedesIn more i j
      → PrecedesIn (a ∷ more) (length (leaves_in a) + i) (length (leaves_in a) + j)

-- The event is the change: its kind and its object, its type where one is given, and at least these
-- paths.
pub record Permits (l : LeafAllow) (ev : Event) : Type 0 where
  pub kind : l.kind ≡ ev.kind
  pub name : l.name ≡ ev.key.name
  pub type : (l.typ ≡ "") ⊎ (l.typ ≡ ev.type)
  pub paths : (p : String) → In p l.changed → In p ev.changed

contains-In : (xs : List String) (x : String) → contains xs x ≡ true → In x xs
contains-In [] x h = absurd cc
contains-In (y ∷ ys) x h = elim (Bool-cases (str_eq y x)) [
  | inl t ↦ here (sym ((eq_iff y x).0 t))
  | inr f ↦ there (contains-In ys x (ground arith))
]

contains_all-In :
    (have xs : List String) → contains_all have xs ≡ true → (p : String) → In p xs → In p have
contains_all-In have [] h p k = elim k [ ]
contains_all-In have (x ∷ xs) h p (here e) =
    subst (λ y. In y have) (sym e) (contains-In have x (ground arith))
contains_all-In have (x ∷ xs) h p (there k) = contains_all-In have xs (ground arith) p k

pub matches-Permits : (l : LeafAllow) (ev : Event) → matches l ev ≡ true → Permits l ev
matches-Permits l ev h =
    elim (Bool-cases (not (str_eq l.kind ev.kind) || not (str_eq l.name ev.key.name))) [
      | inl t ↦ absurd (let z : false ≡ true = rw (matches, t) at h in cc)
      | inr f ↦ elim (Bool-cases (not (is_empty l.typ) && not (str_eq l.typ ev.type))) [
        | inl t ↦ absurd (let z : false ≡ true = rw (matches, f, t) at h in cc)
        | inr g ↦ record {
          kind =
              (eq_iff l.kind ev.kind).0
                (left_true (str_eq l.kind ev.kind) (str_eq l.name ev.key.name) f);
          name =
              (eq_iff l.name ev.key.name).0
                (right_true (str_eq l.kind ev.kind) (str_eq l.name ev.key.name) f);
          type = typed g;
          paths = contains_all-In ev.changed l.changed (rw (matches, f, g) at h);
        }
      ]
    ]
  where
    left_true : (a b : Bool) → not a || not b ≡ false → a ≡ true
    left_true a b e = ground arith

    right_true : (a b : Bool) → not a || not b ≡ false → b ≡ true
    right_true a b e = ground arith

    one_of : (a b : Bool) → a ≡ false → not a && not b ≡ false → b ≡ true
    one_of a b e g = ground arith

    typed :
        not (is_empty l.typ) && not (str_eq l.typ ev.type) ≡ false
        → (l.typ ≡ "") ⊎ (l.typ ≡ ev.type)
    typed g = elim (Bool-cases (str_eq l.typ "")) [
      | inl t ↦ inl ((eq_iff l.typ "").0 t)
      | inr f ↦ inr ((eq_iff l.typ ev.type).0 (one_of (str_eq l.typ "") (str_eq l.typ ev.type) f g))
    ]
