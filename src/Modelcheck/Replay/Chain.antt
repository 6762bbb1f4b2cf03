-- ===== src/Modelcheck/Replay/Chain.antt =====
-- modelcheck/replay.go: the walk up a node's parents, and what its lookups give.
use testkit.Prelude.{
  ℕ, zero, suc, ◌<◌, List, [], ◌∷◌, Option, none, some, String, str_eq, eq_iff, length, get_elem?,
  get_elem?_of_lt, In, here, there, ◌≡◌, refl, sym, ap, ◌∙◌, inl, inr, Bool-cases, arith,
}
use testkit.Modelcheck.System.{Actor, ok, ok-injective}
use testkit.Modelcheck.Replay.Defs.{
  nth_named, at_index, present, in_front, walk, names_of, replayed,
}

pub present-eq-ok {ℓ} : {A : Type ℓ} (o : Option A) {x : A} → present o ≡ ok x → o ≡ some x
unfolding present
present-eq-ok none e = cc
present-eq-ok (some y) e = ap some (ok-injective e)

module _ {ℓ} {A : Type ℓ} where
  pub at_index-eq-ok :
      (xs : List A) (i : ℕ) {x : A} → at_index xs i ≡ ok x → get_elem? xs i ≡ some x
  unfolding at_index
  at_index-eq-ok xs i e = present-eq-ok (get_elem? xs i) e

  pub at_index-some : (xs : List A) (i : ℕ) {x : A} → get_elem? xs i ≡ some x → at_index xs i ≡ ok x
  unfolding at_index present
  at_index-some xs i e = rw (e, at_index, present) refl

  pub get_elem?-In : (xs : List A) (i : ℕ) {x : A} → get_elem? xs i ≡ some x → In x xs
  get_elem?-In [] i e = cc
  get_elem?-In (y ∷ xs) zero {x} e = let q : x ≡ y = cc in here q
  get_elem?-In (y ∷ xs) (suc i) e = there (get_elem?-In xs i e)

-- A node's chain of parents up to an initial node.
pub data Chain (parents : List (Option ℕ)) : ℕ → List ℕ → Type 0 where
  top : {i : ℕ} → get_elem? parents i ≡ some none → Chain parents i (i ∷ [])
  up :
      {i p : ℕ} {c : List ℕ}
      → get_elem? parents i ≡ some (some p)
      → Chain parents p c
      → Chain parents i (i ∷ c)

pub walk_lem :
    (parents : List (Option ℕ)) (fuel i : ℕ)
    → ((j p : ℕ) → get_elem? parents j ≡ some (some p) → p < j)
    → i < fuel
    → i < length parents
    → (c : List ℕ) × (walk fuel parents i ≡ ok (some c)) × Chain parents i c
unfolding walk in_front
walk_lem parents zero i h l b = absurd (omega arith)
walk_lem parents (suc fuel) i h l b =
    let (o, e) = get_elem?_of_lt parents i b in
    go o e (λ p m. walk_lem parents fuel p h (omega (arith, m, l)) (omega (arith, m, b)))
  where
    go :
        (o : Option ℕ)
        → get_elem? parents i ≡ some o
        → ((p : ℕ) → p < i → (c : List ℕ) × (walk fuel parents p ≡ ok (some c)) × Chain parents p c)
        → (c : List ℕ) × (walk (suc fuel) parents i ≡ ok (some c)) × Chain parents i c
    go none e rec = (i ∷ [], rw (at_index-some parents i e, walk) refl, top e)
    go (some p) e rec =
        let (c, w, k) = rec p (h i p e) in
        (i ∷ c, rw (at_index-some parents i e, walk) (rw w refl), up e k)

module _ {ℓ} {S : Type ℓ} where
  pub nth_named-In :
      (move : String) (n : ℕ) (ms : List (String × S)) {s : S}
      → nth_named move n ms ≡ some s
      → In (move, s) ms
  unfolding nth_named
  nth_named-In move n [] e = cc
  nth_named-In move n ((name, t) ∷ ms) {s} e = elim (Bool-cases (str_eq name move)) [
    | inr f ↦ there (nth_named-In move n ms (rw (f, nth_named) at e))
    | inl f ↦
        named n ((eq_iff name move).0 f) (rw (f, nth_named) at e) (λ k q. nth_named-In move k ms q)
  ]
    where
      named :
          (n : ℕ)
          → name ≡ move
          → (elim n [ zero ↦ some t | suc k ↦ nth_named move k ms ]) ≡ some s
          → ((k : ℕ) → nth_named move k ms ≡ some s → In (move, s) ms)
          → In (move, s) ((name, t) ∷ ms)
      named zero q r rec =
          let z : s ≡ t = cc in here (ap (λ x. (move, x)) z ∙ ap (λ x. (x, t)) (sym q))
      named (suc k) q r rec = there (rec k r)

  pub replayed-eq-ok : (i : ℕ) (o : Option S) {s : S} → replayed i o ≡ ok s → o ≡ some s
  unfolding replayed
  replayed-eq-ok i none e = cc
  replayed-eq-ok i (some t) e = ap some (ok-injective e)

  pub get_elem?-names_of :
      (as' : List (Actor S)) (i : ℕ) {a : Actor S} {n : String}
      → get_elem? as' i ≡ some a
      → get_elem? (names_of as') i ≡ some n
      → n ≡ a.name
  unfolding names_of
  get_elem?-names_of [] i e q = cc
  get_elem?-names_of (b ∷ bs) zero {a} {n} e q =
      let z : b ≡ a = cc in let y : b.name ≡ n = cc in sym y ∙ ap (λ (x : Actor S). x.name) z
  get_elem?-names_of (b ∷ bs) (suc i) e q = get_elem?-names_of bs i e q
