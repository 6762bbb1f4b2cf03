-- ===== src/Etcd/FailNext.antt =====
-- FailNext of etcdsim/etcdsim.go: a queued failure is returned once, and to its method only.
use testkit.Prelude.{◌≡◌, ap, ◌∙◌, List, [], ◌∷◌, ◌++◌, Option, none, some, String, arith, false}
use testkit.Etcd.Types.{Method, Error, Cluster, ok, Reply, fail, fatal}
use testkit.Etcd.Faults.{at_method, check_method, fail_next}
use testkit.Etcd.Client.{Client, refused, unlocked, take_failure, enter, call, finish}
use testkit.Etcd.Calls.{IsQuiet, at_method_self, at_method-undo, run_hooks_none}

module _ {ℓ} {H : Type ℓ} where
  abbrev pub queued : Method → List (Option Error) → Cluster H → Cluster H
  queued m q c = record c { fail_next = at_method m q c.fail_next }

  pub fail_next-eq-ok :
      (name : String) (m : Method) (e : Option Error) (c d : Cluster H)
      → check_method name ≡ ok m
      → fail_next name e c ≡ ok d
      → d ≡ queued m (c.fail_next m ++ e ∷ []) c
  unfolding fail_next
  fail_next-eq-ok name m e c d k h = ground arith

  dequeue :
      (m : Method) (e : Error) (c : Cluster H)
      → c.fail_next m ≡ []
      → take_failure m (queued m (some e ∷ []) c) ≡ refused c e
  unfolding take_failure
  dequeue m e c q =
      rw (at_method_self m (some e ∷ []) c.fail_next, take_failure)
        (ap (λ f. refused (record c { fail_next = f }) e)
          (at_method-undo m (some e ∷ []) [] c.fail_next q))

  dequeue_nil :
      (m : Method) (c : Cluster H)
      → c.fail_next m ≡ []
      → take_failure m (queued m (none ∷ []) c) ≡ unlocked c
  unfolding take_failure
  dequeue_nil m c q =
      rw (at_method_self m (none ∷ []) c.fail_next, take_failure)
        (ap (λ f. unlocked (record c { fail_next = f }))
          (at_method-undo m (none ∷ []) [] c.fail_next q))

module _ {ℓ} {H : Type ℓ} (run : H → String → Cluster H → Cluster H) (cl : Client) where
  enter_queued :
      (m : Method) (ep : String) (q : List (Option Error)) (c : Cluster H)
      → c.hooks m ≡ []
      → enter run none m ep (queued m q c) ≡ take_failure m (queued m q c)
  unfolding enter
  enter_queued m ep q c e = ap (take_failure m) (run_hooks_none run m ep (queued m q c) e)

  -- Where a method has no hooks and no queued failures, after FailNext(method, err) a call of that
  -- method through an open client, under a context that is not done, returns err instead of doing its
  -- work, and leaves the cluster as it was before FailNext: the failure is used up.
  pub fail_next_once {κ} :
      {A : Type κ} (name : String) (m : Method) (e : Error) (c d : Cluster H) (ep : String)
      (body : Cluster H → Cluster H × Reply A)
      → cl.is_closed ≡ false
      → IsQuiet m c
      → check_method name ≡ ok m
      → fail_next name (some e) c ≡ ok d
      → call run cl none m ep body d ≡ (c, fail e)
  unfolding call finish
  fail_next_once name m e c d ep body o q k h =
      let p : d ≡ queued m (some e ∷ []) c =
        fail_next-eq-ok name m (some e) c d k h
        ∙ ap (λ l. queued m (l ++ some e ∷ []) c) q.failures in
      rw (o, p)
        (ap (λ en. finish en body)
          (enter_queued m ep (some e ∷ []) c q.hooks ∙ dequeue m e c q.failures))

  -- Where a method has no hooks and no queued failures, after FailNext(method, nil) a call of that
  -- method through an open client, under a context that is not done, does its work with the mutex
  -- released, and then its deferred unlock kills the process.
  pub fail_next_nil {κ} :
      {A : Type κ} (name : String) (m : Method) (c d : Cluster H) (ep : String)
      (body : Cluster H → Cluster H × Reply A)
      → cl.is_closed ≡ false
      → IsQuiet m c
      → check_method name ≡ ok m
      → fail_next name none c ≡ ok d
      → call run cl none m ep body d ≡ ((body c).0, fatal)
  unfolding call finish
  fail_next_nil name m c d ep body o q k h =
      let p : d ≡ queued m (none ∷ []) c =
        fail_next-eq-ok name m none c d k h ∙ ap (λ l. queued m (l ++ none ∷ []) c) q.failures in
      rw (o, p)
        (ap (λ en. finish en body)
          (enter_queued m ep (none ∷ []) c q.hooks ∙ dequeue_nil m c q.failures))
