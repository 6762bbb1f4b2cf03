-- ===== src/Etcd/Faults.antt =====
-- etcdsim/etcdsim.go: the methods by which a test looks into a cluster and breaks it.
use testkit.Prelude.{
  ℕ, ◌==◌, leb, List, [], ◌∷◌, ◌++◌, Option, none, some, Bool, ◌||◌, String, str_eq, if◌then◌else◌,
}
use testkit.Prelude.Int.{ℤ, pos, ltb_ℤ}
use testkit.Etcd.Types.{
  MemberState, Method, status, members, health, move_leader, defragment, method_index, bad_size,
  no_member, unknown_method, Outcome, ok, panic, Error, Cluster, ◌>>=◌, member_named, modify,
  delete,
}

-- `sorted`: the members by ascending ID, whatever order the map is read in.
unfoldable pub insert_by_id : MemberState → List MemberState → List MemberState
insert_by_id m [] = m ∷ []
insert_by_id m (x ∷ xs) = if leb m.id x.id then m ∷ x ∷ xs else x ∷ insert_by_id m xs

unfoldable pub sorted : List MemberState → List MemberState
sorted [] = []
sorted (m ∷ ms) = insert_by_id m (sorted ms)

unfoldable pub check_method : String → Outcome Method
check_method s =
    if str_eq s "Status"
    then ok status
    else (if str_eq s "Members"
        then ok members
        else (if str_eq s "Health"
            then ok health
            else (if str_eq s "MoveLeader"
                then ok move_leader
                else (if str_eq s "Defragment" then ok defragment else panic (unknown_method s)))))

-- A write of a map from methods.
unfoldable pub at_method {ℓ} : {A : Type ℓ} → Method → A → (Method → A) → Method → A
at_method m v f k = if method_index k == method_index m then v else f k

-- The first voting member of a list, whose ID `RemoveMember` elects.
unfoldable pub first_voter : List MemberState → ℕ
first_voter [] = 0
first_voter (m ∷ ms) = if m.learner then first_voter ms else m.id

module _ {ℓ} {H : Type ℓ} where
  unfoldable pub must_member : Cluster H → String → Outcome MemberState
  must_member c name = elim (member_named name c.members) [
    | none ↦ panic (no_member name)
    | some m ↦ ok m
  ]

  -- A fault that writes through the pointer that `mustMember` returns.
  unfoldable pub change_member :
      String → (MemberState → MemberState) → Cluster H → Outcome (Cluster H)
  change_member name f c =
      must_member c name >>= λ _. ok (record c { members = modify name f c.members })

  unfoldable pub set_db_size : String → ℤ → ℤ → Cluster H → Outcome (Cluster H)
  set_db_size name size in_use c =
      if ltb_ℤ size (pos 1) || (ltb_ℤ in_use (pos 0) || ltb_ℤ size in_use)
      then panic (bad_size name size in_use)
      else change_member name
          (λ m. record m { spec = record m.spec { db_size = size }; in_use = in_use }) c

  unfoldable pub set_healthy : String → Bool → Cluster H → Outcome (Cluster H)
  set_healthy name healthy =
      change_member name (λ m. record m { spec = record m.spec { healthy = healthy } })

  unfoldable pub set_alarm : String → List String → Cluster H → Outcome (Cluster H)
  set_alarm name alarms =
      change_member name (λ m. record m { spec = record m.spec { alarms = alarms } })

  unfoldable pub split_leader_view : String → ℕ → Cluster H → Outcome (Cluster H)
  split_leader_view name leader = change_member name (λ m. record m { view = leader })

  unfoldable pub remove_member : String → Cluster H → Outcome (Cluster H)
  remove_member name c = must_member c name >>= λ removed.
      let left = delete name c.members in
      if c.leader == removed.id
      then ok (record c { members = left; leader = first_voter (sorted left) })
      else ok (record c { members = left })

  unfoldable pub stall_leader_move : Bool → Cluster H → Cluster H
  stall_leader_move stall c = record c { stall = stall }

  unfoldable pub fail_next : String → Option Error → Cluster H → Outcome (Cluster H)
  fail_next method err c = check_method method >>= λ m.
      ok (record c { fail_next = at_method m (c.fail_next m ++ err ∷ []) c.fail_next })

  unfoldable pub hook : String → H → Cluster H → Outcome (Cluster H)
  hook method fn c = check_method method >>= λ m.
      ok (record c { hooks = at_method m (c.hooks m ++ fn ∷ []) c.hooks })

  -- `Leader`, `DefragLog` and `MoveLeaderLog` read a field; `DBSize` may panic.
  unfoldable pub db_size : Cluster H → String → Outcome ℤ
  db_size c name = must_member c name >>= λ m. ok m.db_size
