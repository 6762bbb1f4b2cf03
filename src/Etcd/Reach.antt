-- ===== src/Etcd/Reach.antt =====
-- Every way in which a test or a client changes a cluster (etcdsim/etcdsim.go), and what no history
-- of such changes breaks.
use testkit.Prelude.{
  ℕ, ◌≡◌, refl, subst, inl, inr, List, [], ◌∷◌, Option, none, some, Bool, ◌||◌, String, Bool-cases,
  Option-cases, In, find, In-find, str_eq,
}
use testkit.Prelude.Int.{ℤ, pos, ltb_ℤ, max_ℤ}
use testkit.Etcd.Types.{
  MemberState, Method, Error, Cluster, ok, panic, >>=-eq-ok, Reply, bad_size, ok-injective,
}
use testkit.Etcd.Faults.{
  set_db_size, set_healthy, set_alarm, split_leader_view, remove_member, stall_leader_move,
  fail_next, hook, check_method,
}
use testkit.Etcd.Client
use testkit.Etcd.Client.{
  Client, Entry, refused, entered, unlocked, by_endpoint, last_with_id, finish, with_member,
  take_failure, transfer, shrink, run_hooks, enter, call,
}
use testkit.Etcd.Invariant.{IsValid, Keeps, modify-IsValidFor, change_member-IsValid}
use testkit.Etcd.Transfer.{transfer-IsValid}
use testkit.Etcd.Election.{remove_member-IsValid}

set_healthy-Keeps : (b : Bool) → Keeps (λ m. record m { spec = record m.spec { healthy = b } })
set_healthy-Keeps b = record {
  name = λ m. refl;
  endpoint = λ m. refl;
  id = λ m. refl;
  learner = λ m. refl;
}

set_alarm-Keeps : (l : List String) → Keeps (λ m. record m { spec = record m.spec { alarms = l } })
set_alarm-Keeps l = record {
  name = λ m. refl;
  endpoint = λ m. refl;
  id = λ m. refl;
  learner = λ m. refl;
}

view-Keeps : (i : ℕ) → Keeps (λ m. record m { view = i })
view-Keeps i = record {
  name = λ m. refl;
  endpoint = λ m. refl;
  id = λ m. refl;
  learner = λ m. refl;
}

size-Keeps : (s u : ℤ) → Keeps (λ m. record m { spec = record m.spec { db_size = s }; in_use = u })
size-Keeps s u = record {
  name = λ m. refl;
  endpoint = λ m. refl;
  id = λ m. refl;
  learner = λ m. refl;
}

defragment-Keeps :
    Keeps (λ m. record m { spec = record m.spec { db_size = max_ℤ m.in_use (pos 1) } })
defragment-Keeps = record {
  name = λ m. refl;
  endpoint = λ m. refl;
  id = λ m. refl;
  learner = λ m. refl;
}

-- The member lookup of a call only reads.
with_member-keeps {ℓ κ μ} :
    {H : Type ℓ} {A : Type κ} (P : Cluster H → Type μ) (ep : String) (c : Cluster H)
    (body : MemberState → Cluster H × Reply A)
    → P c
    → ((m : MemberState) → In m c.members → P (body m).0)
    → P (with_member ep c body).0
unfolding with_member by_endpoint
with_member-keeps P ep c body p h =
    elim (Option-cases (find (λ m. str_eq m.endpoint ep) c.members)) [
      | inl e ↦ rw (e, with_member, by_endpoint) p
      | inr (m, e) ↦
          rw (e, with_member, by_endpoint) (h m (In-find (λ x. str_eq x.endpoint ep) c.members e).0)
    ]

module _ {ℓ} {H : Type ℓ} where
  pub shrink-IsValid :
      (ep : String) (c : Cluster H) (m : MemberState) → IsValid c → IsValid (shrink ep c m).0
  unfolding shrink
  shrink-IsValid ep c m v = elim (Bool-cases m.healthy) [
    | inr u ↦ rw u v
    | inl b ↦ rw b (modify-IsValidFor m.name _ defragment-Keeps c.leader c.members v)
  ]

  -- What `enter` leaves behind.
  abbrev after : Entry H → Cluster H
  after (refused c e) = c
  after (entered c) = c
  after (unlocked c) = c

  take_failure-IsValid :
      (m : Method) (c : Cluster H) → IsValid c → IsValid (after (take_failure m c))
  unfolding take_failure
  take_failure-IsValid m c v = split (c.fail_next m) refl
    where
      split : (q : List (Option Error)) → c.fail_next m ≡ q → IsValid (after (take_failure m c))
      split [] e = rw (e, take_failure) v
      split (none ∷ q) e = rw (e, take_failure) v
      split (some x ∷ q) e = rw (e, take_failure) v

  finish-IsValid {κ} :
      {A : Type κ} (en : Entry H) (body : Cluster H → Cluster H × Reply A)
      → IsValid (after en)
      → ((c : Cluster H) → IsValid c → IsValid (body c).0)
      → IsValid (finish en body).0
  unfolding finish
  finish-IsValid (refused c e) body v h = v
  finish-IsValid (entered c) body v h = h c v
  finish-IsValid (unlocked c) body v h = h c v

module _ {ℓ} {H : Type ℓ} (run : H → String → Cluster H → Cluster H) where
  -- A hook keeps a cluster valid, as the faults that it may call do.
  abbrev pub HooksKeep : Type ℓ
  HooksKeep = (fn : H) (ep : String) (c : Cluster H) → IsValid c → IsValid (run fn ep c)

  module _ (keep : HooksKeep) where
    run_hooks-IsValid :
        (fns : List H) (ep : String) (c : Cluster H) → IsValid c → IsValid (run_hooks run fns ep c)
    unfolding run_hooks
    run_hooks-IsValid [] ep c v = v
    run_hooks-IsValid (fn ∷ fns) ep c v = run_hooks-IsValid fns ep (run fn ep c) (keep fn ep c v)

    enter-IsValid :
        (ctx : Option Error) (m : Method) (ep : String) (c : Cluster H)
        → IsValid c
        → IsValid (after (enter run ctx m ep c))
    unfolding enter
    enter-IsValid (some e) m ep c v = v
    enter-IsValid none m ep c v =
        take_failure-IsValid m (run_hooks run (c.hooks m) ep c)
          (run_hooks-IsValid (c.hooks m) ep c v)

    call-IsValid {κ} :
        {A : Type κ} (cl : Client) (ctx : Option Error) (m : Method) (ep : String)
        (body : Cluster H → Cluster H × Reply A) (c : Cluster H)
        → IsValid c
        → ((d : Cluster H) → IsValid d → IsValid (body d).0)
        → IsValid (call run cl ctx m ep body c).0
    unfolding call
    call-IsValid cl ctx m ep body c v h = elim (Bool-cases cl.is_closed) [
      | inl b ↦ rw b v
      | inr u ↦ rw u (finish-IsValid (enter run ctx m ep c) body (enter-IsValid ctx m ep c v) h)
    ]

  -- One change of a cluster: a fault that returns, or a client's call with whatever outcome.
  pub data Step (c : Cluster H) : Cluster H → Type ℓ where
    sets_db_size :
        {d : Cluster H} (name : String) (size in_use : ℤ)
        → set_db_size name size in_use c ≡ ok d
        → Step c d
    sets_healthy :
        {d : Cluster H} (name : String) (b : Bool) → set_healthy name b c ≡ ok d → Step c d
    sets_alarm :
        {d : Cluster H} (name : String) (l : List String) → set_alarm name l c ≡ ok d → Step c d
    splits_view :
        {d : Cluster H} (name : String) (i : ℕ) → split_leader_view name i c ≡ ok d → Step c d
    removes : {d : Cluster H} (name : String) → remove_member name c ≡ ok d → Step c d
    stalls : (b : Bool) → Step c (stall_leader_move b c)
    fails_next : {d : Cluster H} (m : String) (e : Option Error) → fail_next m e c ≡ ok d → Step c d
    hooks_in : {d : Cluster H} (m : String) (fn : H) → hook m fn c ≡ ok d → Step c d
    asks_status :
        (cl : Client) (ctx : Option Error) (ep : String) → Step c (Client.status run cl ctx ep c).0
    asks_members : (cl : Client) (ctx : Option Error) → Step c (Client.members run cl ctx c).0
    asks_health :
        (cl : Client) (ctx : Option Error) (ep : String) → Step c (Client.health run cl ctx ep c).0
    moves_leader :
        (cl : Client) (ctx : Option Error) (ep : String) (i : ℕ)
        → Step c (Client.move_leader run cl ctx ep i c).0
    defragments :
        (cl : Client) (ctx : Option Error) (ep : String)
        → Step c (Client.defragment run cl ctx ep c).0

  pub data Reach (c : Cluster H) : Cluster H → Type ℓ where
    start : Reach c c
    next : {d e : Cluster H} → Reach c d → Step d e → Reach c e

  set_db_size-IsValid :
      (name : String) (size in_use : ℤ) (c : Cluster H) {d : Cluster H}
      → IsValid c
      → set_db_size name size in_use c ≡ ok d
      → IsValid d
  unfolding set_db_size
  set_db_size-IsValid name size in_use c {d} v e =
      elim (Bool-cases (ltb_ℤ size (pos 1) || (ltb_ℤ in_use (pos 0) || ltb_ℤ size in_use))) [
        | inl bad ↦ let p : panic (bad_size name size in_use) ≡ ok d = rw bad at e in cc
        | inr good ↦ change_member-IsValid name _ c (size-Keeps size in_use) v (rw good at e)
      ]

  fail_next-IsValid :
      (m : String) (x : Option Error) (c : Cluster H) {d : Cluster H}
      → IsValid c
      → fail_next m x c ≡ ok d
      → IsValid d
  unfolding fail_next
  fail_next-IsValid m x c v e =
      let (k, a, e') = >>=-eq-ok (check_method m) _ e in subst IsValid (ok-injective e') v

  hook-IsValid :
      (m : String) (fn : H) (c : Cluster H) {d : Cluster H}
      → IsValid c
      → hook m fn c ≡ ok d
      → IsValid d
  unfolding hook
  hook-IsValid m fn c v e =
      let (k, a, e') = >>=-eq-ok (check_method m) _ e in subst IsValid (ok-injective e') v

  module _ (keep : HooksKeep) where
    pub Step-IsValid : {c d : Cluster H} → Step c d → IsValid c → IsValid d
    unfolding set_healthy set_alarm split_leader_view stall_leader_move Client.status Client.members
        Client.health Client.move_leader Client.defragment
    Step-IsValid {c} (sets_db_size name s u e) v = set_db_size-IsValid name s u c v e
    Step-IsValid {c} (sets_healthy name b e) v =
        change_member-IsValid name _ c (set_healthy-Keeps b) v e
    Step-IsValid {c} (sets_alarm name l e) v =
        change_member-IsValid name _ c (set_alarm-Keeps l) v e
    Step-IsValid {c} (splits_view name i e) v = change_member-IsValid name _ c (view-Keeps i) v e
    Step-IsValid {c} (removes name e) v = remove_member-IsValid name c v e
    Step-IsValid (stalls b) v = v
    Step-IsValid {c} (fails_next m x e) v = fail_next-IsValid m x c v e
    Step-IsValid {c} (hooks_in m fn e) v = hook-IsValid m fn c v e
    Step-IsValid {c} (asks_status cl ctx ep) v =
        call-IsValid keep cl ctx Method.status ep _ c v
          (λ d w. with_member-keeps IsValid ep d _ w (λ m h. w))
    Step-IsValid {c} (asks_members cl ctx) v =
        call-IsValid keep cl ctx Method.members "" _ c v (λ d w. w)
    Step-IsValid {c} (asks_health cl ctx ep) v =
        call-IsValid keep cl ctx Method.health ep _ c v
          (λ d w. with_member-keeps IsValid ep d _ w (λ m h. w))
    Step-IsValid {c} (moves_leader cl ctx ep i) v =
        call-IsValid keep cl ctx Method.move_leader ep _ c v
          (λ d w. with_member-keeps IsValid ep d _ w (λ m h. transfer-IsValid i d m w))
    Step-IsValid {c} (defragments cl ctx ep) v =
        call-IsValid keep cl ctx Method.defragment ep _ c v
          (λ d w. with_member-keeps IsValid ep d _ w (λ m h. shrink-IsValid ep d m w))

    -- Whatever a test and its clients do, as long as hooks keep a cluster valid: names, endpoints
    -- and IDs stay distinct, and the leader is a voting member, or 0 where none votes.
    pub Reach-IsValid : {c d : Cluster H} → Reach c d → IsValid c → IsValid d
    Reach-IsValid start v = v
    Reach-IsValid (next r s) v = Step-IsValid s (Reach-IsValid r v)
