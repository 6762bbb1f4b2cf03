-- ===== src/Etcd/Election.antt =====
-- RemoveMember of etcdsim/etcdsim.go: who leads afterwards.
use testkit.Prelude.{
  ℕ, ◌≡◌, sym, ap, ◌∙◌, ◌≢◌, ◌⊎◌, inl, inr, ◌≤◌, List, true, false, String, ◌==◌, ==_iff,
  if◌then◌else◌, Bool-cases, Option-cases, arith, All-In, In, Distinct, Distinct-injective,
}
use testkit.Etcd.Types.{MemberState, Cluster, ok, panic, no_member, member_named, delete}
use testkit.Etcd.Faults.{sorted, first_voter, must_member, remove_member}
use testkit.Etcd.Members.{Distinct-delete, In-delete, In-of_delete}
use testkit.Etcd.Sorting.{In-sorted, sorted-Ascending, first_voter_least}
use testkit.Etcd.Invariant.{LeaderVotes, IsValid, must_member-eq-ok}

-- The voting member of a list with the least ID, if one votes.
abbrev pub Elected : List MemberState → ℕ → Type 0
Elected ms leader =
    ((v : MemberState) × In v ms
      × (v.learner ≡ false)
      × (leader ≡ v.id)
      × ((w : MemberState) → In w ms → w.learner ≡ false → v.id ≤ w.id))
    ⊎ (((m : MemberState) → In m ms → m.learner ≡ true) × (leader ≡ 0))

pub election :
    (ms : List MemberState) → Distinct (λ m. m.id) ms → Elected ms (first_voter (sorted ms))
election ms d = elim (first_voter_least (sorted ms) (sorted-Ascending ms d)) [
  | inl (v, h, votes, e, least) ↦
      inl (v, (In-sorted ms v).0 h, votes, e, λ w k q. least w ((In-sorted ms w).1 k) q)
  | inr (all, e) ↦
      inr (λ m h. All-In (λ x. x.learner ≡ true) (sorted ms) all ((In-sorted ms m).1 h), e)
]

Elected-LeaderVotes :
    (ms : List MemberState) (leader : ℕ) → Elected ms leader → LeaderVotes leader ms
Elected-LeaderVotes ms leader (inl (v, h, votes, e, least)) = inl (v, h, sym e, votes)
Elected-LeaderVotes ms leader (inr none_votes) = inr none_votes

module _ {ℓ} {H : Type ℓ} (name : String) (c : Cluster H) where
  -- What a removal that returns has done: the member is there, and the two branches.
  pub record Removal (removed : MemberState) (d : Cluster H) : Type ℓ where
    pub present : In removed c.members
    pub named : removed.name ≡ name
    pub left : d.members ≡ delete name c.members
    pub leader : d.leader ≡ (
        if c.leader == removed.id then first_voter (sorted (delete name c.members)) else c.leader)

  pub remove_member-Removal :
      {d : Cluster H} → remove_member name c ≡ ok d → (m : MemberState) × Removal m d
  unfolding remove_member
  remove_member-Removal {d} e = elim (Option-cases (member_named name c.members)) [
    | inl a ↦
        let bad : remove_member name c ≡ panic (no_member name) =
          unfold must_member in ground arith in
        cc
    | inr (m, p) ↦
        let there_is : must_member c name ≡ ok m = unfold must_member in ground arith in
        let (h, q) = must_member-eq-ok c name there_is in
        (
          m,
          record {
            present = h;
            named = q;
            left = ground (arith, there_is);
            leader = ground (arith, there_is);
          },
        )
  ]

  module _ (m : MemberState) {d : Cluster H} (r : Removal m d) (v : IsValid c) where
    -- Nobody but the removed member is dropped.
    pub In-left : (x : MemberState) → In x c.members → x ≢ m → In x (delete name c.members)
    In-left x h ne = In-delete name c.members x h (λ e. ne (
        Distinct-injective (λ (y : MemberState). y.name) c.members x m v.names h r.present
          (e ∙ sym r.named)))

    left-ids : Distinct (λ x. x.id) (delete name c.members)
    left-ids = Distinct-delete name (λ x. x.id) c.members v.ids

    -- Another member's leadership is kept.
    kept : c.leader ≢ m.id → LeaderVotes c.leader (delete name c.members)
    kept other = elim v.votes [
      | inl (x, h, e, l) ↦
          inl (x, In-left x h (λ q. other (sym e ∙ ap (λ (y : MemberState). y.id) q)), e, l)
      | inr (all, e) ↦ inr (λ x h. all x (In-of_delete name c.members x h).0, e)
    ]

    pub removal-LeaderVotes : LeaderVotes d.leader (delete name c.members)
    removal-LeaderVotes = elim (Bool-cases (c.leader == m.id)) [
      | inl t ↦
          let q : d.leader ≡ first_voter (sorted (delete name c.members)) =
            ground (arith, r.leader) in
          rw q (Elected-LeaderVotes _ _ (election (delete name c.members) left-ids))
      | inr u ↦
          let q : d.leader ≡ c.leader = ground (arith, r.leader) in
          rw q (kept (λ e. let t = (==_iff c.leader m.id).1 e in cc))
    ]

    pub removal-IsValid : IsValid d
    removal-IsValid = rw r.left (record {
      names = Distinct-delete name (λ x. x.name) c.members v.names;
      endpoints = Distinct-delete name (λ x. x.endpoint) c.members v.endpoints;
      ids = left-ids;
      votes = removal-LeaderVotes;
    })

    -- The removed leader's successor, or the old leader.
    pub removal-Elected :
        (c.leader ≡ m.id → Elected d.members d.leader) × (c.leader ≢ m.id → d.leader ≡ c.leader)
    removal-Elected = (
      λ e.
          let q : d.leader ≡ first_voter (sorted (delete name c.members)) =
            ground (arith, r.leader, ==_iff c.leader m.id) in
          rw (q, r.left) (election (delete name c.members) left-ids),
      λ ne. ground (arith, r.leader, ==_iff c.leader m.id),
    )

  pub remove_member-IsValid : {d : Cluster H} → IsValid c → remove_member name c ≡ ok d → IsValid d
  remove_member-IsValid {d} v e = let (m, r) = remove_member-Removal e in removal-IsValid m r v

-- Removing a member that leads elects the remaining voting member with the least ID (leader 0 where
-- none votes), and removing any other member leaves the leader as it was. Exactly the members of
-- the other names remain.
pub remove_member-Elected {ℓ} :
    {H : Type ℓ} (name : String) (c d : Cluster H)
    → IsValid c
    → remove_member name c ≡ ok d
    → (m : MemberState) × In m c.members
      × (m.name ≡ name)
      × (c.leader ≡ m.id → Elected d.members d.leader)
      × (c.leader ≢ m.id → d.leader ≡ c.leader)
      × ((x : MemberState) → In x c.members → x.name ≢ name → In x d.members)
      × ((x : MemberState) → In x d.members → In x c.members × (x.name ≢ name))
remove_member-Elected name c d v e =
    let (m, r) = remove_member-Removal name c e in
    let (led, other) = removal-Elected name c m r v in
    (
      m,
      r.present,
      r.named,
      led,
      other,
      λ x h ne. rw r.left (In-delete name c.members x h ne),
      λ x h. In-of_delete name c.members x (rw r.left at h),
    )
