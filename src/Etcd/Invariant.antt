-- ===== src/Etcd/Invariant.antt =====
-- What every cluster that New builds satisfies, and that the faults keep it (etcdsim/etcdsim.go).
use testkit.Prelude.{
  ℕ, ◌≡◌, refl, ap, ◌∙◌, ◌⊎◌, inl, inr, List, [], ◌∷◌, some, true, false, String, str_eq, eq_iff,
  Bool-cases, arith, In, here, there, Distinct, In-find,
}
use testkit.Etcd.Types.{MemberState, Cluster, ok, >>=-eq-ok, member_named, modify}
use testkit.Etcd.Faults.{must_member, change_member}
use testkit.Etcd.Members.{Distinct-modify, In-modify}

-- The leader votes; only a cluster in which nobody votes has none.
abbrev pub LeaderVotes : ℕ → List MemberState → Type 0
LeaderVotes leader ms =
    ((m : MemberState) × In m ms × (m.id ≡ leader) × (m.learner ≡ false))
    ⊎ (((m : MemberState) → In m ms → m.learner ≡ true) × (leader ≡ 0))

pub record IsValidFor (leader : ℕ) (ms : List MemberState) : Type 0 where
  pub names : Distinct (λ m. m.name) ms
  pub endpoints : Distinct (λ m. m.endpoint) ms
  pub ids : Distinct (λ m. m.id) ms
  pub votes : LeaderVotes leader ms

abbrev pub IsValid {ℓ} : {H : Type ℓ} → Cluster H → Type 0
IsValid c = IsValidFor c.leader c.members

-- A write that leaves a member's name, endpoint, ID and role alone.
pub record Keeps (f : MemberState → MemberState) : Type 0 where
  pub name : (m : MemberState) → (f m).name ≡ m.name
  pub endpoint : (m : MemberState) → (f m).endpoint ≡ m.endpoint
  pub id : (m : MemberState) → (f m).id ≡ m.id
  pub learner : (m : MemberState) → (f m).learner ≡ m.learner

module _ (n : String) (f : MemberState → MemberState) (keeps : Keeps f) where
  In-of_modify :
      (ms : List MemberState) (m : MemberState)
      → In m (modify n f ms)
      → (p : MemberState) × In p ms × (m.learner ≡ p.learner)
  unfolding modify
  In-of_modify [] m h = elim h [ ]
  In-of_modify (x ∷ xs) m (here e) = elim (Bool-cases (str_eq x.name n)) [
    | inl t ↦ (x, here refl, ap (λ (y : MemberState). y.learner) e ∙ (rw t (keeps.learner x)))
    | inr u ↦ (x, here refl, ap (λ (y : MemberState). y.learner) e ∙ (rw u refl))
  ]
  In-of_modify (x ∷ xs) m (there h) = let (p, k, e) = In-of_modify xs m h in (p, there k, e)

  pub modify-IsValidFor :
      (leader : ℕ) (ms : List MemberState)
      → IsValidFor leader ms
      → IsValidFor leader (modify n f ms)
  modify-IsValidFor leader ms v = record {
    names = Distinct-modify n f (λ m. m.name) keeps.name ms v.names;
    endpoints = Distinct-modify n f (λ m. m.endpoint) keeps.endpoint ms v.endpoints;
    ids = Distinct-modify n f (λ m. m.id) keeps.id ms v.ids;
    votes = elim v.votes [
      | inl (m, h, e, l) ↦ inl (elim (In-modify n f ms m h) [
        | inl same ↦ (m, same, e, l)
        | inr moved ↦ (f m, moved, keeps.id m ∙ e, keeps.learner m ∙ l)
      ])
      | inr (all, e) ↦ inr (λ m h. let (p, k, q) = In-of_modify ms m h in q ∙ all p k, e)
    ];
  }

pub must_member-eq-ok {ℓ} :
    {H : Type ℓ} (c : Cluster H) (name : String) {m : MemberState}
    → must_member c name ≡ ok m
    → In m c.members × (m.name ≡ name)
unfolding must_member
must_member-eq-ok c name {m} e =
    let found : member_named name c.members ≡ some m = ground arith in
    let (h, t) = In-find (λ x. str_eq x.name name) c.members found in (h, (eq_iff m.name name).0 t)

module _ {ℓ} {H : Type ℓ} where
  -- A write of a member that returns has found the member, and changed nothing else.
  pub change_member-eq-ok :
      (name : String) (f : MemberState → MemberState) (c : Cluster H) {d : Cluster H}
      → change_member name f c ≡ ok d
      → (m : MemberState) × In m c.members
        × (m.name ≡ name)
        × (d ≡ record c { members = modify name f c.members })
  unfolding change_member
  change_member-eq-ok name f c e =
      let (m, found, e') = >>=-eq-ok (must_member c name) _ e in
      let (h, n) = must_member-eq-ok c name found in (m, h, n, cc)

  pub change_member-IsValid :
      (name : String) (f : MemberState → MemberState) (c : Cluster H) {d : Cluster H}
      → Keeps f
      → IsValid c
      → change_member name f c ≡ ok d
      → IsValid d
  change_member-IsValid name f c keeps v e =
      let (m, h, n, q) = change_member-eq-ok name f c e in
      rw q (modify-IsValidFor name f keeps c.leader c.members v)
