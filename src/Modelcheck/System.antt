-- ===== src/Modelcheck/System.antt =====
-- modelcheck/modelcheck.go: states, actors, properties, and the chained methods that build a system.
-- A model's Clone, Key, Moves, invariants and goals are caller code: they are arguments here. The
-- hash of a key (the first 128 bits of its SHA-256) is an argument too.
use testkit.Prelude.{
  ℕ, List, [], ◌∷◌, ◌++◌, Option, Bool, false, ◌||◌, String, str_eq, if◌then◌else◌, ◌≡◌, ◌≢◌, refl,
}
use testkit.Modelcheck.Index.Defs.{Hash}

-- The methods of a state, and the hash of its key.
pub record State {ℓ} (S : Type ℓ) : Type ℓ where
  pub clone : S → S
  pub key : S → String
  pub hash_key : String → Hash

-- A deep copy is the same value.
abbrev pub IsClone {ℓ} : {S : Type ℓ} → State S → Type ℓ
IsClone {S} st = (s : S) → st.clone s ≡ s

-- Moves is an iterator that the engine drains: the list of what it yields.
pub record Actor {ℓ} (S : Type ℓ) : Type ℓ where
  pub name : String
  pub moves : S → List (String × S)

-- `none` is the nil error.
pub record Invariant {ℓ} (S : Type ℓ) : Type ℓ where
  pub name : String
  pub holds : S → Option String

pub record Recoverable {ℓ} (S : Type ℓ) : Type ℓ where
  pub name : String
  pub goal : S → Bool
  pub actors : List String

pub record System {ℓ} (S : Type ℓ) : Type ℓ where
  pub initial : List S
  pub actors : List (Actor S)
  pub names : List String
  pub invariants : List (Invariant S)
  pub recoverables : List (Recoverable S)

-- Why a run has no result: a panic, but for `hangs`, which stands for a loop that goes on for ever.
pub data Panic : Type 0 where
  hangs : Panic
  duplicate_actor : String → Panic
  unknown_actor : String → String → Panic
  too_many_moves : ℕ → String → Panic
  too_many_nodes too_many_edges : Panic
  index_fault : Panic
  not_replayed : ℕ → Panic
  key_mismatch : ℕ → Panic
  not_confirmed : String → Panic
  out_of_range : Panic

pub data Run {ℓ} (A : Type ℓ) : Type ℓ where
  ok : A → Run A
  panic : Panic → Run A

infixl 5 ◌>>=◌
abbrev pub ◌>>=◌ {ℓ κ} : {A : Type ℓ} {B : Type κ} → Run A → (A → Run B) → Run B
ok a >>= f = f a
panic p >>= f = panic p

-- What a run's result is, where it has one; and the run does not go on for ever.
abbrev pub Safe {ℓ} : {A : Type ℓ} → Run A → (A → Type 0) → Type 0
Safe (ok a) P = P a
Safe (panic p) P = p ≢ hangs

pub >>=-Safe {ℓ κ} :
    {A : Type ℓ} {B : Type κ} (m : Run A) (f : A → Run B) (P : A → Type 0) (Q : B → Type 0)
    → Safe m P
    → ((a : A) → m ≡ ok a → P a → Safe (f a) Q)
    → Safe (m >>= f) Q
>>=-Safe (ok a) f P Q s h = h a refl s
>>=-Safe (panic p) f P Q s h = s

pub Safe-ne {ℓ} : {A : Type ℓ} (m : Run A) (P : A → Type 0) → Safe m P → m ≢ panic hangs
Safe-ne (ok a) P s e = cc
Safe-ne (panic p) P s e = let d : p ≡ hangs = cc in s d

pub ok-injective {ℓ} : {A : Type ℓ} {a b : A} → ok a ≡ ok b → a ≡ b
ok-injective e = cc

pub >>=-eq-ok {ℓ κ} :
    {A : Type ℓ} {B : Type κ} (m : Run A) (f : A → Run B) {b : B}
    → (m >>= f) ≡ ok b
    → (a : A) × (m ≡ ok a) × (f a ≡ ok b)
>>=-eq-ok (ok a) f e = (a, refl, e)
>>=-eq-ok (panic p) f e = cc

unfoldable pub has_name : List String → String → Bool
has_name [] s = false
has_name (t ∷ ts) s = str_eq t s || has_name ts s

module _ {ℓ} {S : Type ℓ} where
  unfoldable pub new : List S → System S
  new initial = record {
    initial = initial;
    actors = [];
    names = [];
    invariants = [];
    recoverables = [];
  }

  unfoldable pub add_actor : System S → Actor S → Run (System S)
  add_actor sys a =
      if has_name sys.names a.name
      then panic (duplicate_actor a.name)
      else ok (record sys { names = a.name ∷ sys.names; actors = sys.actors ++ a ∷ [] })

  unfoldable pub add_invariant : System S → String → (S → Option String) → System S
  add_invariant sys name holds = record sys {
    invariants = sys.invariants ++ record { name = name; holds = holds } ∷ [];
  }

  unfoldable pub add_recoverable : System S → String → (S → Bool) → List String → System S
  add_recoverable sys name goal actors = record sys {
    recoverables = sys.recoverables ++ record { name = name; goal = goal; actors = actors } ∷ [];
  }

  -- An attached actor moves the component that `get` projects, and `set` puts the result back into
  -- a clone of the whole.
  unfoldable pub put_back {κ} :
      {C : Type κ} → State S → (S → C → S) → S → List (String × C) → List (String × S)
  put_back st set s [] = []
  put_back st set s ((move, c) ∷ ms) = (move, set (st.clone s) c) ∷ put_back st set s ms

  unfoldable pub attached {κ} : {C : Type κ} → State S → (S → C) → (S → C → S) → Actor C → Actor S
  attached st get set a = record { name = a.name; moves = λ s. put_back st set s (a.moves (get s)) }

  unfoldable pub attach {κ} :
      {C : Type κ} → State S → System S → (S → C) → (S → C → S) → Actor C → Run (System S)
  attach st sys get set a = add_actor sys (attached st get set a)

pub record Options : Type 0 where
  pub max_states : ℕ
  pub max_depth : ℕ
  pub workers : ℕ
  pub exact_keys : Bool

pub record Step {ℓ} (S : Type ℓ) : Type ℓ where
  pub actor : String
  pub move : String
  pub state : S
