-- ===== src/Etcd/Client.antt =====
-- etcdsim/etcdsim.go: the client. A context is the error that its `Err` reports, if any. Hooks are
-- caller code: the section's parameter says what each does to the cluster, and it returns.
use testkit.Prelude.{
  ℕ, ◌==◌, List, [], ◌∷◌, ◌++◌, map, Option, none, some, Bool, true, false, not, String, str_eq,
  if◌then◌else◌, find,
}
use testkit.Prelude.Int.{ℤ, pos, min_ℤ, max_ℤ}
use testkit.Etcd.Types.{
  MemberState, Method, Error, closed, unknown_endpoint, unhealthy, not_leader, unknown_target,
  learner_target, Reply, reply, fail, fatal, Cluster, modify,
}
use testkit.Etcd.Faults.{sorted, at_method}

pub record Client : Type 0 where
  pub is_closed : Bool

unfoldable pub open_client : Client
open_client = record { is_closed = false }

unfoldable pub close : Client → Client
close cl = record cl { is_closed = true }

-- clusterID.
abbrev pub cluster_id : ℕ
cluster_id = 0xe7cd0000c1

pub record StatusResponse : Type 0 where
  pub cluster_id : ℕ
  pub member_id : ℕ
  pub leader : ℕ
  pub db_size : ℤ
  pub db_size_in_use : ℤ
  pub is_learner : Bool
  pub errors : List String

pub record ListedMember : Type 0 where
  pub id : ℕ
  pub name : String
  pub is_learner : Bool
  pub client_urls : List String

unfoldable pub by_endpoint : String → List MemberState → Option MemberState
by_endpoint ep ms = find (λ m. str_eq m.endpoint ep) ms

-- The loop of `MoveLeader` keeps the last member with the ID.
unfoldable pub last_with_id : ℕ → List MemberState → Option MemberState → Option MemberState
last_with_id id [] target = target
last_with_id id (m ∷ ms) target = last_with_id id ms (if m.id == id then some m else target)

unfoldable pub status_of : ℕ → MemberState → StatusResponse
status_of leader m = record {
  cluster_id = cluster_id;
  member_id = m.id;
  leader = if m.view == 0 then leader else m.view;
  db_size = m.db_size;
  db_size_in_use = min_ℤ m.in_use m.db_size;
  is_learner = m.learner;
  errors = m.alarms;
}

unfoldable pub listed : MemberState → ListedMember
listed m = record {
  id = m.id;
  name = m.name;
  is_learner = m.learner;
  client_urls = m.endpoint ∷ [];
}

-- What `enter` ends in: an error; success with the lock held; or a queued nil error, returned as
-- success with the lock released.
pub data Entry {ℓ} (H : Type ℓ) : Type ℓ where
  refused : Cluster H → Error → Entry H
  entered : Cluster H → Entry H
  unlocked : Cluster H → Entry H

module _ {ℓ} {H : Type ℓ} where
  -- The deferred unlock is fatal where the lock is not held.
  unfoldable pub finish {κ} :
      {A : Type κ} → Entry H → (Cluster H → Cluster H × Reply A) → Cluster H × Reply A
  finish (refused c e) body = (c, fail e)
  finish (entered c) body = body c
  finish (unlocked c) body = ((body c).0, fatal)

  -- Lookup of the endpoint's member, the first step of most calls.
  unfoldable pub with_member {κ} :
      {A : Type κ} → String → Cluster H → (MemberState → Cluster H × Reply A) → Cluster H × Reply A
  with_member ep c body = elim (by_endpoint ep c.members) [
    | none ↦ (c, fail (unknown_endpoint ep (map (λ m. m.endpoint) (sorted c.members))))
    | some m ↦ body m
  ]

  -- The queued failure of `enter`, once its hooks have run.
  unfoldable pub take_failure : Method → Cluster H → Entry H
  take_failure method c = elim (c.fail_next method) [
    | [] ↦ entered c
    | none ∷ q ↦ unlocked (record c { fail_next = at_method method q c.fail_next })
    | some e ∷ q ↦ refused (record c { fail_next = at_method method q c.fail_next }) e
  ]

  -- `MoveLeader` behind the lookup of its endpoint.
  unfoldable pub transfer : ℕ → Cluster H → MemberState → Cluster H × Reply (Unit {0})
  transfer id c m =
      if not (m.id == c.leader)
      then (c, fail (not_leader m.name m.id c.leader))
      else (elim (last_with_id id c.members none) [
        | none ↦ (c, fail (unknown_target id))
        | some target ↦ if target.learner then (c, fail (learner_target target.name)) else (
          record c {
            move_leader_log = c.move_leader_log ++ id ∷ [];
            leader = if c.stall then c.leader else id;
          },
          reply tt,
        )
      ])

  -- `Defragment` behind the lookup of its endpoint.
  unfoldable pub shrink : String → Cluster H → MemberState → Cluster H × Reply (Unit {0})
  shrink ep c m = if not m.healthy then (c, fail (unhealthy m.name)) else (
    record c {
      members =
          modify m.name
            (λ x. record x { spec = record x.spec { db_size = max_ℤ x.in_use (pos 1) } }) c.members;
      defrag_log = c.defrag_log ++ ep ∷ [];
    },
    reply tt,
  )

module _ {ℓ} {H : Type ℓ} (run : H → String → Cluster H → Cluster H) where
  unfoldable pub run_hooks : List H → String → Cluster H → Cluster H
  run_hooks [] ep c = c
  run_hooks (fn ∷ fns) ep c = run_hooks fns ep (run fn ep c)

  unfoldable pub enter : Option Error → Method → String → Cluster H → Entry H
  enter (some e) method ep c = refused c e
  enter none method ep c = take_failure method (run_hooks (c.hooks method) ep c)

  -- The client's check, and the prologue.
  unfoldable pub call {κ} :
      {A : Type κ}
      → Client
      → Option Error
      → Method
      → String
      → (Cluster H → Cluster H × Reply A)
      → Cluster H
      → Cluster H × Reply A
  call cl ctx method ep body c =
      if cl.is_closed then (c, fail closed) else finish (enter ctx method ep c) body

  unfoldable pub status :
      Client → Option Error → String → Cluster H → Cluster H × Reply StatusResponse
  status cl ctx ep =
      call cl ctx Method.status ep (λ c. with_member ep c (λ m. (c, reply (status_of c.leader m))))

  unfoldable pub members : Client → Option Error → Cluster H → Cluster H × Reply (List ListedMember)
  members cl ctx = call cl ctx Method.members "" (λ c. (c, reply (map listed (sorted c.members))))

  unfoldable pub health : Client → Option Error → String → Cluster H → Cluster H × Reply (Unit {0})
  health cl ctx ep =
      call cl ctx Method.health ep (λ c.
        with_member ep c (λ m. (c, (if m.healthy then reply tt else fail (unhealthy m.name)))))

  unfoldable pub move_leader :
      Client → Option Error → String → ℕ → Cluster H → Cluster H × Reply (Unit {0})
  move_leader cl ctx ep id =
      call cl ctx Method.move_leader ep (λ c. with_member ep c (transfer id c))

  unfoldable pub defragment :
      Client → Option Error → String → Cluster H → Cluster H × Reply (Unit {0})
  defragment cl ctx ep = call cl ctx Method.defragment ep (λ c. with_member ep c (shrink ep c))
