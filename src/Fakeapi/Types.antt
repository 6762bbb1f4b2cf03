-- ===== src/Fakeapi/Types.antt =====
-- What fakeapi/tracker.go takes from apimachinery and client-go: access to an object's metadata, its
-- unstructured form, reflect.DeepEqual on that form, and the tracker below.
use testkit.Prelude.{
  List, [], ◌∷◌, Option, none, some, Bool, true, String, str_eq, if◌then◌else◌, ◌≡◌, ◌≢◌, ◌↔◌,
}
use testkit.Prelude.Int.{ℤ}

-- The errors of those libraries carry a text, and apierrors.IsNotFound tells one kind.
pub data Error : Type 0 where
  not_found : Error
  failed : String → Error
  invalid_fields : Error → Error
  not_unstructured : Error → Error
  not_client_object : Error
  not_read_back : Error → Error

-- A result or an error.
pub data Result {ℓ} (A : Type ℓ) : Type ℓ where
  good : A → Result A
  bad : Error → Result A

infixl 5 ◌>>=◌
abbrev pub ◌>>=◌ {ℓ κ} : {A : Type ℓ} {B : Type κ} → Result A → (A → Result B) → Result B
good a >>= f = f a
bad e >>= f = bad e

-- `m[k]` of the unstructured form.
abbrev pub field {ℓ} : {V : Type ℓ} → String → List (String × V) → Option V
field k [] = none
field k ((x, v) ∷ m) = if str_eq x k then some v else field k m

-- meta.Accessor, its getters and setters, managedfields.ValidateManagedFields, and the conversion.
pub record Meta (O V : Type 0) : Type 0 where
  pub accessor : O → Option Error
  pub name : O → String
  pub generation : O → ℤ
  pub set_generation : ℤ → O → O
  -- GetDeletionTimestamp() != nil.
  pub deleting : O → Bool
  pub validate : O → Option Error
  pub to_unstructured : O → Result (List (String × V))
  pub deep_equal : List (String × V) → List (String × V) → Bool

-- testing.ObjectTracker: its state, and the error of a write. `kind` is the resource.
pub record Store (O T : Type 0) : Type 0 where
  pub get : T → String → String → String → Result O
  pub add : T → O → T × Option Error
  pub create : T → String → O → String → T × Option Error
  pub update : T → String → O → String → T × Option Error
  pub patch : T → String → O → String → T × Option Error
  -- Apply with a field manager, and with Force set or not.
  pub apply : T → String → O → String → String → Bool → T × Option Error
  pub new_scratch : T

-- reflect.DeepEqual of two maps asks for the same keys with the same values, and SetGeneration writes
-- one field of the metadata.
pub record MetaLaws {O V : Type 0} (m : Meta O V) : Type 0 where
  pub deep_equal_iff :
      (a b : List (String × V)) → (m.deep_equal a b ≡ true) ↔ ((k : String) → field k a ≡ field k b)
  pub generation_set : (g : ℤ) (o : O) → m.generation (m.set_generation g o) ≡ g
  pub name_set : (g : ℤ) (o : O) → m.name (m.set_generation g o) ≡ m.name o
  pub accessor_set : (g : ℤ) (o : O) → m.accessor (m.set_generation g o) ≡ m.accessor o
  pub deleting_set : (g : ℤ) (o : O) → m.deleting (m.set_generation g o) ≡ m.deleting o
  pub to_unstructured_set :
      (g : ℤ) (o : O) (u : List (String × V))
      → m.to_unstructured o ≡ good u
      → (u' : List (String × V)) × (m.to_unstructured (m.set_generation g o) ≡ good u')
        × ((k : String) → k ≢ "metadata" → field k u' ≡ field k u)

-- A write without an error stores the object. The tracker below keeps track of field managers, and so
-- rewrites the managed fields of what it stores; it leaves alone all outside the metadata, and in it
-- the generation and the deletion timestamp.
pub record StoreLaws {O V T : Type 0} (m : Meta O V) (s : Store O T) : Type 0 where
  pub update_get :
      (t t' : T) (kind : String) (o : O) (ns : String)
      → s.update t kind o ns ≡ (t', none)
      → (stored : O) × (s.get t' kind ns (m.name o) ≡ good stored)
        × (m.accessor stored ≡ m.accessor o)
        × (m.generation stored ≡ m.generation o)
        × (m.deleting stored ≡ m.deleting o)
        × ((u : List (String × V))
            → m.to_unstructured o ≡ good u
            → (u' : List (String × V)) × (m.to_unstructured stored ≡ good u')
              × ((k : String) → k ≢ "metadata" → field k u' ≡ field k u))
