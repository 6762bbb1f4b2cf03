-- ===== src/Etcd/Transfer.antt =====
-- MoveLeader of etcdsim/etcdsim.go: when a transfer is accepted, and what it does.
use testkit.Prelude.{
  ℕ, ◌≡◌, refl, sym, ap, ◌∙◌, ◌⊎◌, inl, inr, List, [], ◌∷◌, Option, none, some, true, false, ◌==◌,
  if◌then◌else◌, Bool-cases, Option-cases, arith, ◌≢◌, ◌++◌, Distinct, Distinct-injective, In,
}
use testkit.Etcd.Types.{
  MemberState, Error, Cluster, Reply, reply, fail, not_leader, unknown_target, learner_target,
}
use testkit.Etcd.Client.{last_with_id, transfer}
use testkit.Etcd.Invariant.{IsValid}

-- The entry found last for an ID is a member with that ID.
pub last_with_id-In :
    (i : ℕ) (ms : List MemberState) (start : Option MemberState) {t : MemberState}
    → last_with_id i ms start ≡ some t
    → (In t ms × (t.id ≡ i)) ⊎ (start ≡ some t)
unfolding last_with_id
last_with_id-In i [] start e = inr e
last_with_id-In i (m ∷ ms) start {t} e =
    elim (last_with_id-In i ms (if m.id == i then some m else start) e) [
      | inl (h, q) ↦ inl (In.there h, q)
      | inr s ↦ elim (Bool-cases (m.id == i)) [
        | inl b ↦
            let q : m ≡ t = ground arith in
            inl (In.here (sym q), ap (λ (x : MemberState). x.id) (sym q) ∙ ground arith)
        | inr u ↦ inr (ground arith)
      ]
    ]

last_with_id-some :
    (i : ℕ) (ms : List MemberState) (a : MemberState)
    → (t : MemberState) × (last_with_id i ms (some a) ≡ some t)
unfolding last_with_id
last_with_id-some i [] a = (a, refl)
last_with_id-some i (m ∷ ms) a = elim (Bool-cases (m.id == i)) [
  | inl b ↦ rw b (last_with_id-some i ms m)
  | inr u ↦ rw u (last_with_id-some i ms a)
]

pub last_with_id-none :
    (i : ℕ) (ms : List MemberState) (start : Option MemberState) (t : MemberState)
    → In t ms
    → t.id ≡ i
    → last_with_id i ms start ≢ none
unfolding last_with_id
last_with_id-none i (m ∷ ms) start t (In.here e) q n =
    let b : (m.id == i) ≡ true = ground (arith, ap (λ (x : MemberState). x.id) e) in
    let (r, s) = last_with_id-some i ms m in
    let s' : last_with_id i ms (if m.id == i then some m else start) ≡ some r = rw b s in cc
last_with_id-none i (m ∷ ms) start t (In.there h) q n =
    last_with_id-none i ms (if m.id == i then some m else start) t h q n
last_with_id-none i [] start t h q n = elim h [ ]

-- The state after an accepted `MoveLeader`.
abbrev pub transferred {ℓ} : {H : Type ℓ} → ℕ → Cluster H → Cluster H
transferred i c = record c {
  move_leader_log = c.move_leader_log ++ i ∷ [];
  leader = if c.stall then c.leader else i;
}

-- A transfer is accepted where the endpoint's member leads and the target is a voting member, and
-- else it changes nothing.
abbrev pub Transfers {ℓ} :
    {H : Type ℓ} → ℕ → Cluster H → MemberState → Cluster H × Reply (Unit {0}) → Type ℓ
Transfers i c m r =
    ((e : Error) × (r ≡ (c, fail e))
      × (m.id ≡ c.leader → (t : MemberState) → In t c.members → t.id ≡ i → t.learner ≡ true))
    ⊎ ((t : MemberState) × (m.id ≡ c.leader)
        × In t c.members
        × (t.id ≡ i)
        × (t.learner ≡ false)
        × (r ≡ (transferred i c, reply tt)))

module _ {ℓ} {H : Type ℓ} where
  pub transfer-Transfers :
      (i : ℕ) (c : Cluster H) (m : MemberState)
      → Distinct (λ x. x.id) c.members
      → Transfers i c m (transfer i c m)
  unfolding transfer
  transfer-Transfers i c m d = elim (Bool-cases (m.id == c.leader)) [
    | inr u ↦ inl (not_leader m.name m.id c.leader, ground arith, λ e. absurd (ground arith))
    | inl b ↦ elim (Option-cases (last_with_id i c.members none)) [
      | inl e ↦ inl (
        unknown_target i,
        ground arith,
        λ _ t h q. absurd (last_with_id-none i c.members none t h q e),
      )
      | inr (t, e) ↦ elim (last_with_id-In i c.members none e) [
        | inr bad ↦ cc
        | inl (h, q) ↦ elim (Bool-cases t.learner) [
          | inl l ↦ inl (
            learner_target t.name,
            ground arith,
            λ _ x k r.
                ap (λ (y : MemberState). y.learner)
                  (Distinct-injective (λ (y : MemberState). y.id) c.members x t d k h (r ∙ sym q))
                ∙ l,
          )
          | inr v ↦ inr (t, ground arith, h, q, v, ground arith)
        ]
      ]
    ]
  ]

  pub transfer-IsValid :
      (i : ℕ) (c : Cluster H) (m : MemberState) → IsValid c → IsValid (transfer i c m).0
  transfer-IsValid i c m v = elim (transfer-Transfers i c m v.ids) [
    | inl (e, r, _) ↦ rw r v
    | inr (t, _, h, q, l, r) ↦ rw r (elim (Bool-cases c.stall) [
      | inl s ↦ rw s v
      | inr s ↦ rw s (record {
        names = v.names;
        endpoints = v.endpoints;
        ids = v.ids;
        votes = inl (t, h, q, l);
      })
    ])
  ]
