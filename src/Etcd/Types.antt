-- ===== src/Etcd/Types.antt =====
-- etcdsim/etcdsim.go: the members, the cluster, and what a call can end in.
--
-- The map `members` is keyed by the member's own `Name`, so it is a list of members here, in some
-- iteration order. A registered hook is arbitrary caller code: its type `H` is a parameter.
use testkit.Prelude.{◌≡◌, refl, ℕ, List, Option, String, Bool, str_eq, if◌then◌else◌, [], ◌∷◌, find}
use testkit.Prelude.Int.{ℤ}

pub record Member : Type 0 where
  pub id : ℕ
  pub name : String
  pub endpoint : String
  pub learner : Bool
  pub healthy : Bool
  pub db_size : ℤ
  pub alarms : List String

-- `view` is 0 when it is not set, as in the source.
pub record MemberState : Type 0 where
  pub spec : Member
  pub open spec use *
  pub in_use : ℤ
  pub view : ℕ

-- The methods that `checkMethod` accepts.
pub data Method : Type 0 where
  status members health move_leader defragment : Method

unfoldable pub method_index : Method → ℕ
method_index Method.status = 0
method_index Method.members = 1
method_index Method.health = 2
method_index Method.move_leader = 3
method_index Method.defragment = 4

pub data Panic : Type 0 where
  duplicate_name duplicate_endpoint : String → Panic
  duplicate_id : ℕ → Panic
  learner_first : String → Panic
  bad_size : String → ℤ → ℤ → Panic
  no_member : String → Panic
  unknown_method : String → Panic

-- A call that a test makes on the cluster returns, or panics with a message.
pub data Outcome {ℓ} (A : Type ℓ) : Type ℓ where
  ok : A → Outcome A
  panic : Panic → Outcome A

pub data Error : Type 0 where
  closed : Error
  canceled : Error
  injected : String → Error
  unknown_endpoint : String → List String → Error
  unhealthy : String → Error
  not_leader : String → ℕ → ℕ → Error
  unknown_target : ℕ → Error
  learner_target : String → Error

-- What a client's call ends in. `fatal` is the runtime's "unlock of unlocked mutex", which kills
-- the process.
pub data Reply {ℓ} (A : Type ℓ) : Type ℓ where
  reply : A → Reply A
  fail : Error → Reply A
  fatal : Reply A

-- A queued failure is an `error` value, and so may be nil: `none`.
pub record Cluster {ℓ} (H : Type ℓ) : Type ℓ where
  pub members : List MemberState
  pub leader : ℕ
  pub stall : Bool
  pub defrag_log : List String
  pub move_leader_log : List ℕ
  pub fail_next : Method → List (Option Error)
  pub hooks : Method → List H

infixl 5 ◌>>=◌
abbrev pub ◌>>=◌ {ℓ κ} : {A : Type ℓ} {B : Type κ} → Outcome A → (A → Outcome B) → Outcome B
ok a >>= f = f a
panic p >>= f = panic p

pub ok-injective {ℓ} : {A : Type ℓ} {a b : A} → ok a ≡ ok b → a ≡ b
ok-injective e = cc

pub >>=-eq-ok {ℓ κ} :
    {A : Type ℓ} {B : Type κ} (m : Outcome A) (f : A → Outcome B) {b : B}
    → (m >>= f) ≡ ok b
    → (a : A) × (m ≡ ok a) × (f a ≡ ok b)
>>=-eq-ok (ok a) f e = (a, refl, e)
>>=-eq-ok (panic p) f e = cc

-- `members[name]`.
abbrev pub member_named : String → List MemberState → Option MemberState
member_named n ms = find (λ m. str_eq m.name n) ms

-- A write through the pointer that `members[name]` holds.
unfoldable pub modify : String → (MemberState → MemberState) → List MemberState → List MemberState
modify n f [] = []
modify n f (m ∷ ms) = (if str_eq m.name n then f m else m) ∷ modify n f ms

-- `delete(members, name)`.
unfoldable pub delete : String → List MemberState → List MemberState
delete n [] = []
delete n (m ∷ ms) = if str_eq m.name n then delete n ms else m ∷ delete n ms
