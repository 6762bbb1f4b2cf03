-- ===== src/Etcd/Build/Defs.antt =====
-- etcdsim/etcdsim.go: New, NewHealthy and NewHealthyAt.
use testkit.Prelude.{
  ℕ, ◌+◌, ◌*◌, ◌==◌, List, [], ◌∷◌, map, Bool, true, false, String, str_eq, if◌then◌else◌, ◌||◌,
}
use Prim.Native.String.{◌++◌ as str_append}
use testkit.Prelude.Decimal.{decimal}
use testkit.Prelude.Int.{ℤ, pos, half_ℤ}
use testkit.Etcd.Types.{
  Member, MemberState, duplicate_name, duplicate_endpoint, duplicate_id, learner_first, Outcome, ok,
  panic, Cluster, ◌>>=◌,
}

unfoldable pub has_text : List String → String → Bool
has_text [] s = false
has_text (t ∷ ts) s = str_eq t s || has_text ts s

unfoldable pub has_id : List ℕ → ℕ → Bool
has_id [] i = false
has_id (j ∷ js) i = j == i || has_id js i

-- The sets `names`, `endpoints` and `ids` of the loop, and the members that it has stored.
pub record Seen : Type 0 where
  pub names : List String
  pub endpoints : List String
  pub ids : List ℕ

abbrev pub nothing_seen : Seen
nothing_seen = record { names = []; endpoints = []; ids = [] }

-- The three duplicate checks, in the order of the source.
unfoldable pub admit : Seen → Member → Outcome Seen
unfolding has_text has_id
admit seen m =
    if has_text seen.names m.name
    then panic (duplicate_name m.name)
    else (if has_text seen.endpoints m.endpoint
        then panic (duplicate_endpoint m.endpoint)
        else (if has_id seen.ids m.id
            then panic (duplicate_id m.id)
            else ok (record {
              names = m.name ∷ seen.names;
              endpoints = m.endpoint ∷ seen.endpoints;
              ids = m.id ∷ seen.ids;
            })))

unfoldable pub store : Member → MemberState
store m = record { spec = m; in_use = half_ℤ m.db_size; view = 0 }

-- The rounds of the loop after the first.
unfoldable pub add_members : Seen → List Member → Outcome (List MemberState)
add_members seen [] = ok []
add_members seen (m ∷ ms) =
    admit seen m >>= λ seen'. add_members seen' ms >>= λ rest. ok (store m ∷ rest)

-- The first round also elects the leader.
unfoldable pub first_round : Member → Outcome ℕ
first_round m = if m.learner then panic (learner_first m.name) else ok m.id

unfoldable pub empty_cluster {ℓ} : (H : Type ℓ) → List MemberState → ℕ → Cluster H
empty_cluster H ms leader = record {
  members = ms;
  leader = leader;
  stall = false;
  defrag_log = [];
  move_leader_log = [];
  fail_next = λ _. [];
  hooks = λ _. [];
}

unfoldable pub new {ℓ} : {H : Type ℓ} → List Member → Outcome (Cluster H)
new {H} [] = ok (empty_cluster H [] 0)
new {H} (m ∷ ms) = admit nothing_seen m >>= λ seen. first_round m >>= λ leader.
    add_members seen ms >>= λ rest. ok (empty_cluster H (store m ∷ rest) leader)

-- 256 << 20 and 64 << 20.
abbrev pub default_db_size : ℤ
default_db_size = pos (256 * 1048576)

abbrev pub default_in_use : ℤ
default_in_use = pos (64 * 1048576)

unfoldable pub healthy_members : ℕ → List String → List Member
healthy_members i [] = []
healthy_members i (ep ∷ eps) =
    record {
      id = i + 1;
      name = str_append "etcd-" (decimal i);
      endpoint = ep;
      learner = false;
      healthy = true;
      db_size = default_db_size;
      alarms = [];
    }
    ∷ healthy_members (i + 1) eps

unfoldable pub with_default_in_use : MemberState → MemberState
with_default_in_use m = record m { in_use = default_in_use }

unfoldable pub new_healthy_at {ℓ} : {H : Type ℓ} → List String → Outcome (Cluster H)
new_healthy_at eps = new (healthy_members 0 eps) >>= λ c.
    ok (record c { members = map with_default_in_use c.members })

unfoldable pub healthy_endpoints : ℕ → ℕ → List String
healthy_endpoints i ℕ.zero = []
healthy_endpoints i (ℕ.suc n) =
    str_append (str_append "etcd-" (decimal i)) ":2379" ∷ healthy_endpoints (i + 1) n

unfoldable pub new_healthy {ℓ} : {H : Type ℓ} → ℕ → Outcome (Cluster H)
new_healthy n = new_healthy_at (healthy_endpoints 0 n)
