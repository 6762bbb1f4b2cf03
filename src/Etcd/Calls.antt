-- ===== src/Etcd/Calls.antt =====
-- The client's calls of etcdsim/etcdsim.go, from the prologue to the reply.
use testkit.Prelude.{
  ℕ, ◌≡◌, refl, sym, ap, ◌∙◌, inl, inr, List, [], ◌∷◌, ◌++◌, Option, none, some, true, false,
  String, ◌==◌, ==_iff, str_eq, eq_iff, if◌then◌else◌, Bool-cases, arith, In, Distinct,
  Distinct-injective, find_unique,
}
use mathlib.Core.Path.{fun_ext}
use testkit.Prelude.Int.{pos, max_ℤ}
use testkit.Etcd.Types.{
  MemberState, Method, method_index, Error, closed, unhealthy, Cluster, Reply, reply, fail, modify,
}
use testkit.Etcd.Faults.{at_method}
use testkit.Etcd.Client
use testkit.Etcd.Client.{
  Client, Entry, refused, entered, unlocked, by_endpoint, last_with_id, finish, with_member,
  take_failure, transfer, shrink, status_of, run_hooks, enter, call, listed,
}
use testkit.Etcd.Invariant.{IsValid}
use testkit.Etcd.Transfer.{Transfers, transfer-Transfers}

-- A member is found at its endpoint.
pub by_endpoint_found :
    (ep : String) (ms : List MemberState) (m : MemberState)
    → Distinct (λ x. x.endpoint) ms
    → In m ms
    → m.endpoint ≡ ep
    → by_endpoint ep ms ≡ some m
unfolding by_endpoint
by_endpoint_found ep ms m d h e =
    find_unique (λ x. str_eq x.endpoint ep) ms m h ((eq_iff m.endpoint ep).1 e)
      (λ b k t.
        Distinct-injective (λ (x : MemberState). x.endpoint) ms b m d k h
          ((eq_iff b.endpoint ep).0 t ∙ sym e))

pub at_method_self {ℓ} : {A : Type ℓ} (m : Method) (v : A) (f : Method → A) → at_method m v f m ≡ v
unfolding at_method
at_method_self m v f = ground arith

pub method_index-injective : (k m : Method) → method_index k ≡ method_index m → k ≡ m
unfolding method_index
method_index-injective k m e = ground arith

pub at_method-undo {ℓ} :
    {A : Type ℓ} (m : Method) (v w : A) (f : Method → A)
    → f m ≡ w
    → at_method m w (at_method m v f) ≡ f
unfolding at_method
at_method-undo m v w f e = fun_ext λ k. elim (Bool-cases (method_index k == method_index m)) [
  | inl b ↦ rw b (sym e ∙ ap f (sym (method_index-injective k m ((==_iff _ _).0 b))))
  | inr u ↦ rw u refl
]

-- No hook and no queued failure of the method.
pub record IsQuiet {ℓ} {H : Type ℓ} (m : Method) (c : Cluster H) : Type ℓ where
  pub hooks : c.hooks m ≡ []
  pub failures : c.fail_next m ≡ []

-- The cluster after a call of Defragment on a healthy member.
abbrev pub defragmented {ℓ} : {H : Type ℓ} → String → MemberState → Cluster H → Cluster H
defragmented ep m c = record c {
  members =
      modify m.name (λ x. record x { spec = record x.spec { db_size = max_ℤ x.in_use (pos 1) } })
        c.members;
  defrag_log = c.defrag_log ++ ep ∷ [];
}

module _ {ℓ} {H : Type ℓ} (run : H → String → Cluster H → Cluster H) where
  pub run_hooks_none :
      (m : Method) (ep : String) (c : Cluster H)
      → c.hooks m ≡ []
      → run_hooks run (c.hooks m) ep c ≡ c
  unfolding run_hooks
  run_hooks_none m ep c e = ap (λ fns. run_hooks run fns ep c) e

  enter_quiet :
      (m : Method) (ep : String) (c : Cluster H) → IsQuiet m c → enter run none m ep c ≡ entered c
  unfolding enter take_failure
  enter_quiet m ep c q =
      ap (take_failure m) (run_hooks_none m ep c q.hooks) ∙ rw (q.failures, take_failure) refl

module _ {ℓ} {H : Type ℓ} (run : H → String → Cluster H → Cluster H) (cl : Client) where
  pub call_quiet {κ} :
      {A : Type κ} (m : Method) (ep : String) (body : Cluster H → Cluster H × Reply A)
      (c : Cluster H)
      → cl.is_closed ≡ false
      → IsQuiet m c
      → call run cl none m ep body c ≡ body c
  unfolding call finish
  call_quiet m ep body c o q = rw o (ap (λ en. finish en body) (enter_quiet run m ep c q))

  with_member_found {κ} :
      {A : Type κ} (ep : String) (c : Cluster H) (body : MemberState → Cluster H × Reply A)
      (m : MemberState)
      → IsValid c
      → In m c.members
      → m.endpoint ≡ ep
      → with_member ep c body ≡ body m
  unfolding with_member
  with_member_found ep c body m v h e =
      rw (by_endpoint_found ep c.members m v.endpoints h e, with_member) refl

  -- On an open client with no hook or failure set up, MoveLeader sent to a member's endpoint is
  -- accepted exactly where that member leads and the target is a voting member: then it is logged,
  -- and the leader is the target unless transfers are stalled. Otherwise it fails and changes
  -- nothing.
  pub move_leader_lem :
      (ep : String) (i : ℕ) (c : Cluster H) (m : MemberState)
      → cl.is_closed ≡ false
      → IsQuiet Method.move_leader c
      → IsValid c
      → In m c.members
      → m.endpoint ≡ ep
      → Transfers i c m (Client.move_leader run cl none ep i c)
  unfolding Client.move_leader
  move_leader_lem ep i c m o q v h e =
      rw
        (
          call_quiet Method.move_leader ep (λ d. with_member ep d (transfer i d)) c o q,
          with_member_found ep c (transfer i c) m v h e,
        )
        (transfer-Transfers i c m v.ids)

  pub defragment_cases :
      (ep : String) (c : Cluster H) (m : MemberState)
      → cl.is_closed ≡ false
      → IsQuiet Method.defragment c
      → IsValid c
      → In m c.members
      → m.endpoint ≡ ep
      → Client.defragment run cl none ep c
        ≡ (if m.healthy then (defragmented ep m c, reply tt) else (c, fail (unhealthy m.name)))
  unfolding Client.defragment shrink
  defragment_cases ep c m o q v h e =
      rw
        (
          call_quiet Method.defragment ep (λ d. with_member ep d (shrink ep d)) c o q,
          with_member_found ep c (shrink ep c) m v h e,
        )
        (ground arith)

  pub status_found :
      (ep : String) (c : Cluster H) (m : MemberState)
      → cl.is_closed ≡ false
      → IsQuiet Method.status c
      → IsValid c
      → In m c.members
      → m.endpoint ≡ ep
      → Client.status run cl none ep c ≡ (c, reply (status_of c.leader m))
  unfolding Client.status
  status_found ep c m o q v h e =
      rw
        (call_quiet Method.status ep
          (λ d. with_member ep d (λ x. (d, reply (status_of d.leader x)))) c o q)
        (with_member_found ep c (λ x. (c, reply (status_of c.leader x))) m v h e)

  -- A closed client refuses every call, and a call changes nothing then.
  pub closed_refuses :
      cl.is_closed ≡ true
      → (ctx : Option Error) (ep : String) (i : ℕ) (c : Cluster H)
      → (Client.status run cl ctx ep c ≡ (c, fail closed))
        × (Client.members run cl ctx c ≡ (c, fail closed))
        × (Client.health run cl ctx ep c ≡ (c, fail closed))
        × (Client.move_leader run cl ctx ep i c ≡ (c, fail closed))
        × (Client.defragment run cl ctx ep c ≡ (c, fail closed))
  unfolding Client.status Client.members Client.health Client.move_leader Client.defragment call
  closed_refuses o ctx ep i c = rw o (refl, refl, refl, refl, refl)
