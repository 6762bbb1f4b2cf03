-- ===== src/Etcd/Build/Healthy.antt =====
-- NewHealthyAt and NewHealthy of etcdsim/etcdsim.go: the clusters that they return.
use Prim.Native.String.{◌++◌ as str_append}
use text.Mathlib.TextLemmas.{append_cancel_left}
use testkit.Prelude.{
  ℕ, ◌+◌, ◌<◌, ◌≡◌, refl, sym, ap, ◌∙◌, ◌≢◌, inl, inr, List, [], ◌∷◌, map, true, false, String,
  arith, All, In, here, there, Distinct,
}
use testkit.Prelude.Decimal.{decimal, decimal-injective}
use testkit.Etcd.Types.{Member, MemberState, ok, Cluster}
use testkit.Etcd.Invariant.{IsValid, LeaderVotes}
use testkit.Etcd.Build.Defs.{
  store, empty_cluster, default_in_use, default_db_size, healthy_members, with_default_in_use,
  new_healthy_at,
}
use testkit.Etcd.Build.Accepted.{Differs, AllDiffer, FirstVotes, first_id, new_iff, new-IsValid}

member_name-injective :
    (i j : ℕ) → str_append "etcd-" (decimal i) ≡ str_append "etcd-" (decimal j) → i ≡ j
member_name-injective i j e = decimal-injective i j (append_cancel_left "etcd-" _ _ e)

Differs-healthy_members :
    (i j : ℕ) (m : Member) (eps : List String)
    → i < j
    → m.name ≡ str_append "etcd-" (decimal i)
    → m.id ≡ i + 1
    → All (λ ep. m.endpoint ≢ ep) eps
    → All (Differs m) (healthy_members j eps)
unfolding healthy_members
Differs-healthy_members i j m [] lt n k h = tt
Differs-healthy_members i j m (ep ∷ eps) lt n k h = (
  record {
    name = λ e. absurd (omega (arith, member_name-injective i j (sym n ∙ e)));
    endpoint = h.0;
    id = λ e. absurd (omega (arith, e, k));
  },
  Differs-healthy_members i (j + 1) m eps (omega arith) n k h.1,
)

healthy_members-AllDiffer :
    (i : ℕ) (eps : List String) → Distinct (λ ep. ep) eps → AllDiffer (healthy_members i eps)
unfolding healthy_members
healthy_members-AllDiffer i [] d = tt
healthy_members-AllDiffer i (ep ∷ eps) d = (
  Differs-healthy_members i (i + 1) _ eps (omega arith) refl refl d.0,
  healthy_members-AllDiffer (i + 1) eps d.1,
)

healthy_members-FirstVotes : (i : ℕ) (eps : List String) → FirstVotes (healthy_members i eps)
unfolding healthy_members
healthy_members-FirstVotes i [] = tt
healthy_members-FirstVotes i (ep ∷ eps) = refl

-- A member as NewHealthyAt leaves it.
pub record IsHealthy (m : MemberState) : Type 0 where
  pub healthy : m.healthy ≡ true
  pub votes : m.learner ≡ false
  pub quiet : m.alarms ≡ []
  pub size : m.db_size ≡ default_db_size
  pub used : m.in_use ≡ default_in_use
  pub view : m.view ≡ 0

abbrev start_members : ℕ → List String → List MemberState
start_members i eps = map with_default_in_use (map store (healthy_members i eps))

start_members-IsHealthy : (i : ℕ) (eps : List String) → All IsHealthy (start_members i eps)
unfolding healthy_members store with_default_in_use
start_members-IsHealthy i [] = tt
start_members-IsHealthy i (ep ∷ eps) = (
  record { healthy = refl; votes = refl; quiet = refl; size = refl; used = refl; view = refl },
  start_members-IsHealthy (i + 1) eps,
)

start_members-endpoint :
    (i : ℕ) (eps : List String) → map (λ m. m.endpoint) (start_members i eps) ≡ eps
unfolding healthy_members store with_default_in_use
start_members-endpoint i [] = refl
start_members-endpoint i (ep ∷ eps) = ap (◌∷◌ ep) (start_members-endpoint (i + 1) eps)

module _ {κ} {K : Type κ} (key : MemberState → K) where
  module _ (same : (m : MemberState) → key (with_default_in_use m) ≡ key m) where
    All-with_default :
        (k : K) (ms : List MemberState)
        → All (λ x. k ≢ key x) ms
        → All (λ x. k ≢ key x) (map with_default_in_use ms)
    All-with_default k [] h = tt
    All-with_default k (m ∷ ms) h = (λ e. h.0 (e ∙ same m), All-with_default k ms h.1)

    Distinct-with_default :
        (ms : List MemberState) → Distinct key ms → Distinct key (map with_default_in_use ms)
    Distinct-with_default [] d = tt
    Distinct-with_default (m ∷ ms) d =
        (rw (same m) (All-with_default (key m) ms d.0), Distinct-with_default ms d.1)

In-map_default :
    (ms : List MemberState) (m : MemberState)
    → In m ms
    → In (with_default_in_use m) (map with_default_in_use ms)
In-map_default (x ∷ xs) m (here e) = here (ap with_default_in_use e)
In-map_default (x ∷ xs) m (there h) = there (In-map_default xs m h)
In-map_default [] m h = elim h [ ]

-- With distinct endpoints NewHealthyAt returns, and the cluster is valid: its members stand at
-- exactly those endpoints, in order, all of them healthy voting members at the default sizes, and
-- the first one leads.
pub new_healthy_at_lem {ℓ} :
    (H : Type ℓ) (eps : List String)
    → Distinct (λ ep. ep) eps
    → (c : Cluster H) × (new_healthy_at eps ≡ ok c)
      × IsValid c
      × All IsHealthy c.members
      × (map (λ m. m.endpoint) c.members ≡ eps)
      × (c.leader ≡ first_id (healthy_members 0 eps))
unfolding new_healthy_at empty_cluster
new_healthy_at_lem H eps d =
    let built =
      (new_iff H (healthy_members 0 eps)).0 (healthy_members-AllDiffer 0 eps d)
        (healthy_members-FirstVotes 0 eps) in
    let v = new-IsValid (healthy_members 0 eps) built in
    (
      record (empty_cluster H (map store (healthy_members 0 eps))
          (first_id (healthy_members 0 eps))) { members = start_members 0 eps },
      rw built refl,
      record {
        names =
            Distinct-with_default (λ m. m.name) (λ m. unfold with_default_in_use in refl) _ v.names;
        endpoints =
            Distinct-with_default (λ m. m.endpoint) (λ m. unfold with_default_in_use in refl) _
              v.endpoints;
        ids = Distinct-with_default (λ m. m.id) (λ m. unfold with_default_in_use in refl) _ v.ids;
        votes = leads eps;
      },
      start_members-IsHealthy 0 eps,
      start_members-endpoint 0 eps,
      refl,
    )
  where
    leads : (es : List String) → LeaderVotes (first_id (healthy_members 0 es)) (start_members 0 es)
    leads [] = unfold healthy_members in inr (λ m h. elim h [ ], refl)
    leads (e ∷ es) =
        unfold healthy_members store with_default_in_use in inl (_, here refl, refl, refl)
