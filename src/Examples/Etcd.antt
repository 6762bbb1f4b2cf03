-- ===== src/Examples/Etcd.antt =====
-- A cluster of three members, the last a learner (etcdsim/etcdsim.go).
use testkit.Prelude.{
  ℕ, ◌≡◌, refl, ◌≢◌, List, [], ◌∷◌, map, Option, none, some, Bool, true, false, String, In, here,
  there, Distinct, SameMembers, eq_iff,
}
use testkit.Prelude.Int.{pos, leb_ℤ}
use testkit.Etcd.Types.{
  Panic, Member, MemberState, Method, Error, injected, Cluster, ok, panic, Reply, reply, fail,
  fatal, member_named, delete,
}
use testkit.Etcd.Build.Defs.{
  has_text, has_id, admit, store, add_members, first_round, empty_cluster, new,
}
use testkit.Etcd.Build.Accepted.{AllDiffer, FirstVotes, new_iff, new-IsValid}
use testkit.Etcd.Faults.{
  insert_by_id, sorted, first_voter, must_member, remove_member, check_method, at_method, fail_next,
}
use testkit.Etcd.Client
use testkit.Etcd.Client.{Client, open_client, close, by_endpoint, last_with_id, status_of, call}
use testkit.Etcd.Invariant.{IsValid}
use testkit.Etcd.Election.{Elected, remove_member-Elected}
use testkit.Etcd.Transfer.{Transfers}
use testkit.Etcd.Reach.{HooksKeep, start, next, removes, Reach-IsValid}
use testkit.Etcd.Calls.{IsQuiet, move_leader_lem}
use testkit.Etcd.Defrag.{IsSized, shrunk, defragment-status}
use testkit.Etcd.FailNext.{fail_next_once, fail_next_nil}
use testkit.Etcd.Order.{map_order_free}

abbrev member : ℕ → String → String → Bool → Member
member i name ep learner = record {
  id = i;
  name = name;
  endpoint = ep;
  learner = learner;
  healthy = true;
  db_size = pos 100;
  alarms = [];
}

abbrev a : Member
a = member 3 "a" "a:2379" false

abbrev b : Member
b = member 2 "b" "b:2379" false

abbrev l : Member
l = member 1 "l" "l:2379" true

abbrev specs : List Member
specs = a ∷ b ∷ l ∷ []

abbrev state : Member → MemberState
state m = record { spec = m; in_use = pos 50; view = 0 }

-- Hooks are numbers that do nothing.
abbrev idle : ℕ → String → Cluster ℕ → Cluster ℕ
idle fn ep c = c

abbrev sample : Cluster ℕ
sample = record {
  members = state a ∷ state b ∷ state l ∷ [];
  leader = 3;
  stall = false;
  defrag_log = [];
  move_leader_log = [];
  fail_next = λ _. [];
  hooks = λ _. [];
}

sample_built : new specs ≡ ok sample
unfolding new admit has_text has_id first_round add_members store empty_cluster
sample_built = refl

sample-IsValid : IsValid sample
sample-IsValid = new-IsValid specs sample_built

new_duplicate : new {H = ℕ} (a ∷ a ∷ []) ≡ panic (Panic.duplicate_name "a")
unfolding new admit has_text has_id first_round add_members store empty_cluster
new_duplicate = refl

specs-AllDiffer : AllDiffer specs
specs-AllDiffer = ((new_iff ℕ specs).1 sample sample_built).0

new_iff_example :
    (AllDiffer specs → FirstVotes specs → new specs ≡ ok (empty_cluster ℕ (map store specs) 3))
    × ((c : Cluster ℕ)
        → new specs ≡ ok c
        → AllDiffer specs × FirstVotes specs × (c ≡ empty_cluster ℕ (map store specs) 3))
new_iff_example = new_iff ℕ specs

new-IsValid_example : IsValid sample
new-IsValid_example = new-IsValid specs sample_built

abbrev endpoints : List String
endpoints = "x:1" ∷ "y:2" ∷ []

endpoints-Distinct : Distinct (λ (ep : String). ep) endpoints
endpoints-Distinct = ((λ e. let t = (eq_iff "x:1" "y:2").1 e in cc, tt), (tt, tt))

abbrev without_a : Cluster ℕ
without_a = record sample { members = state b ∷ state l ∷ []; leader = 2 }

a_removed : remove_member "a" sample ≡ ok without_a
unfolding remove_member must_member delete sorted insert_by_id first_voter
a_removed = refl

remove_member-Elected_example :
    (m : MemberState) × In m sample.members
    × (m.name ≡ "a")
    × (sample.leader ≡ m.id → Elected without_a.members without_a.leader)
    × (sample.leader ≢ m.id → without_a.leader ≡ sample.leader)
    × ((x : MemberState) → In x sample.members → x.name ≢ "a" → In x without_a.members)
    × ((x : MemberState) → In x without_a.members → In x sample.members × (x.name ≢ "a"))
remove_member-Elected_example = remove_member-Elected "a" sample without_a sample-IsValid a_removed

idle_keeps : HooksKeep idle
idle_keeps fn ep c v = v

Reach-IsValid_example : IsValid without_a
Reach-IsValid_example =
    Reach-IsValid idle idle_keeps (next start (removes "a" a_removed)) sample-IsValid

quiet : (m : Method) → IsQuiet m sample
quiet m = record { hooks = refl; failures = refl }

move_leader_lem_example :
    Transfers 2 sample (state a) (Client.move_leader idle open_client none "a:2379" 2 sample)
unfolding open_client
move_leader_lem_example =
    move_leader_lem idle open_client "a:2379" 2 sample (state a) refl (quiet Method.move_leader)
      sample-IsValid (here refl) refl

defragment-status_example :
    (d : Cluster ℕ) × (Client.defragment idle open_client none "b:2379" sample ≡ (d, reply tt))
    × (d.defrag_log ≡ "b:2379" ∷ [])
    × (Client.status idle open_client none "b:2379" d ≡ (d, reply (status_of 3 (shrunk (state b)))))
    × (IsSized (state b) → leb_ℤ (shrunk (state b)).db_size (pos 100) ≡ true)
    × ((x : MemberState) → In x sample.members → x ≢ state b → In x d.members)
unfolding open_client
defragment-status_example =
    defragment-status idle open_client "b:2379" sample (state b) refl (quiet Method.defragment)
      (quiet Method.status) sample-IsValid (there (here refl)) refl refl

abbrev ping : Cluster ℕ → Cluster ℕ × Reply (Unit {0})
ping c = (c, reply tt)

abbrev failing : Option Error → Cluster ℕ
failing e = record sample { fail_next = at_method Method.health (e ∷ []) (λ _. []) }

fail_next_once_example :
    call idle open_client none Method.health "a:2379" ping (failing (some (injected "boom")))
    ≡ (sample, fail (injected "boom"))
unfolding open_client fail_next check_method
fail_next_once_example =
    fail_next_once idle open_client "Health" Method.health (injected "boom") sample
      (failing (some (injected "boom"))) "a:2379" ping refl (quiet Method.health) refl refl

fail_next_nil_example :
    call idle open_client none Method.health "a:2379" ping (failing none) ≡ (sample, fatal)
unfolding open_client fail_next check_method
fail_next_nil_example =
    fail_next_nil idle open_client "Health" Method.health sample (failing none) "a:2379" ping refl
      (quiet Method.health) refl refl

abbrev swapped : Cluster ℕ
swapped = record sample { members = state a ∷ state l ∷ state b ∷ [] }

swapped-IsValid : IsValid swapped
unfolding new admit has_text has_id first_round add_members store empty_cluster
swapped-IsValid = new-IsValid {H = ℕ} (a ∷ l ∷ b ∷ []) {c = swapped} refl

swapped-SameMembers : SameMembers sample.members swapped.members
swapped-SameMembers x = (to, from)
  where
    to : In x sample.members → In x swapped.members
    to (here e) = here e
    to (there (here e)) = there (there (here e))
    to (there (there (here e))) = there (here e)
    to (there (there (there h))) = elim h [ ]

    from : In x swapped.members → In x sample.members
    from (here e) = here e
    from (there (here e)) = there (there (here e))
    from (there (there (here e))) = there (here e)
    from (there (there (there h))) = elim h [ ]

map_order_free_example :
    (member_named "l" swapped.members ≡ member_named "l" sample.members)
    × (by_endpoint "b:2379" swapped.members ≡ by_endpoint "b:2379" sample.members)
    × (last_with_id 1 swapped.members none ≡ last_with_id 1 sample.members none)
    × (sorted swapped.members ≡ sorted sample.members)
map_order_free_example =
    map_order_free 3 sample.members swapped.members sample-IsValid swapped-IsValid
      swapped-SameMembers "l" "b:2379" 1
