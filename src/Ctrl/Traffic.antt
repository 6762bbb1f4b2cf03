-- ===== src/Ctrl/Traffic.antt =====
-- The log of all writes, and one running call, while anything happens (ctrltest/interceptor.go).
use testkit.Prelude.{
  ℕ, List, [], ◌∷◌, ◌++◌, append-nil, append_assoc, Bool, false, Option, none, some, String, str_eq,
  ◌==◌, if◌then◌else◌, ◌≡◌, ◌≢◌, refl, sym, ap, ◌∙◌, inl, inr, Bool-cases, Option-cases, All,
  get_elem?, set, get_elem?-append_lt, lt-length_of_get_elem?, arith, get_elem?-set_self,
  get_elem?-set_other,
}
use testkit.Ctrl.Op.{ObjectKey, Op}
use testkit.Ctrl.Recorder.{Recorder, file}
use testkit.Ctrl.Intercept.{Reconcile, Interceptor, append}
use testkit.Ctrl.Filed.{append_cases, with_pass}
use testkit.Ctrl.Passes.{
  Phase, asking, refusing, starting, running, filing, returned, System, move, Event, activates,
  deactivates, pauses, writes, calls_for, moves, returns, recorded, step, run,
}

abbrev pub writes_of : List Event → List Op
writes_of [] = []
writes_of (writes by op ∷ es) = op ∷ writes_of es
writes_of (e ∷ es) = writes_of es

-- Is a write made in call `n`.
abbrev pub made_in : ℕ → Option ℕ → Bool
made_in n none = false
made_in n (some m) = m == n

abbrev pub own_writes : ℕ → List Event → List Op
own_writes n [] = []
own_writes n (writes by op ∷ es) = if made_in n by then op ∷ own_writes n es else own_writes n es
own_writes n (e ∷ es) = own_writes n es

-- While call `n` runs: the delegate does not return, and the controller's writes are the call's, which
-- is what one pass of the controller at a time comes to.
abbrev pub During : ℕ → String → Event → Type 0
During n controller (writes by op) = str_eq op.controller controller ≡ made_in n by
During n controller (returns m now requeue err) = m ≢ n
During n controller _ = Unit

append_ops : (r : Reconcile) (i : Interceptor) → (append r i).ops ≡ i.ops
unfolding with_pass
append_ops r i = elim (append_cases r i) [ inl (t, e) ↦ rw e refl | inr (f, e) ↦ rw e refl ]

move_ops :
    (now : ℕ) (controller : String) (req : ObjectKey) (p : Phase) (i : Interceptor)
    → (move now controller req p i).0.ops ≡ i.ops
unfolding move
move_ops now controller req asking i = refl
move_ops now controller req refusing i = refl
move_ops now controller req starting i = refl
move_ops now controller req (running r) i = refl
move_ops now controller req (filing r) i = append_ops r i
move_ops now controller req (returned a e) i = refl

recorded_ops :
    (op : Op) (i : Interceptor) (r : Recorder)
    → i.ops ≡ some r
    → (recorded op i).ops ≡ some (file r op)
unfolding recorded
recorded_ops op i r h = by_ops i.ops h
  where
    by_ops :
        (o : Option Recorder)
        → o ≡ some r
        → let j : Interceptor = elim o [
          | none ↦ i
          | some x ↦ record i { ops = some (file x op) }
        ] in
          j.ops ≡ some (file r op)
    by_ops none e = absurd cc
    by_ops (some x) e = let q : x ≡ r = ground arith in ap (λ y. some (file y op)) q

-- The recorder behind a step or a run, with what has been written.
abbrev Grown : System → Recorder → List Op → Type 0
Grown s r ops = (r' : Recorder) × (s.ic.ops ≡ some r') × (r'.ops ≡ r.ops ++ ops)

same_log : (s : System) (r : Recorder) → s.ic.ops ≡ some r → Grown s r []
same_log s r e = (r, e, sym (append-nil r.ops))

step-Grown :
    (s : System) (e : Event) (r : Recorder)
    → s.ic.ops ≡ some r
    → Grown (step s e) r (writes_of (e ∷ []))
unfolding step file
step-Grown s (activates ns) r h = (r, h, sym (append-nil r.ops))
step-Grown s (deactivates ns) r h = (r, h, sym (append-nil r.ops))
step-Grown s (pauses ns) r h = (r, h, sym (append-nil r.ops))
step-Grown s (writes by op) r h = (file r op, recorded_ops op s.ic r h, refl)
step-Grown s (calls_for controller req) r h = (r, h, sym (append-nil r.ops))
step-Grown s (moves n now) r h = elim (Option-cases (get_elem? s.calls n)) [
  | inl e ↦ (r, rw (e, step) h, sym (append-nil r.ops))
  | inr (c, e) ↦ (
    r,
    rw (e, step) (move_ops now c.controller c.request c.phase s.ic ∙ h),
    sym (append-nil r.ops),
  )
]
step-Grown s (returns n now requeue err) r h = elim (Option-cases (get_elem? s.calls n)) [
  | inl e ↦ (r, rw (e, step) h, sym (append-nil r.ops))
  | inr (c, e) ↦ (r, rw (e, step) h, sym (append-nil r.ops))
]

writes_of-cons :
    (e : Event) (es : List Event) → writes_of (e ∷ es) ≡ writes_of (e ∷ []) ++ writes_of es
writes_of-cons (activates ns) es = refl
writes_of-cons (deactivates ns) es = refl
writes_of-cons (pauses ns) es = refl
writes_of-cons (writes by op) es = refl
writes_of-cons (calls_for controller req) es = refl
writes_of-cons (moves n now) es = refl
writes_of-cons (returns n now requeue err) es = refl

pub run-Grown :
    (es : List Event) (s : System) (r : Recorder)
    → s.ic.ops ≡ some r
    → Grown (run s es) r (writes_of es)
unfolding run
run-Grown [] s r h = same_log s r h
run-Grown (e ∷ es) s r h =
    let (r', h', p) = step-Grown s e r h in
    let (r'', h'', q) = run-Grown es (step s e) r' h' in
    (
      r'',
      h'',
      q
          ∙ ap (λ ops. ops ++ writes_of es) p
          ∙ append_assoc r.ops (writes_of (e ∷ [])) (writes_of es)
          ∙ ap (◌++◌ r.ops) (sym (writes_of-cons e es)),
    )

-- Call `n` runs with the record `rec`.
abbrev pub Runs : ℕ → String → ObjectKey → Reconcile → System → Type 0
Runs n controller req rec s =
    get_elem? s.calls n
    ≡ some (record { controller = controller; request = req; phase = running rec })

step-Runs :
    (n : ℕ) (controller : String) (req : ObjectKey) (rec : Reconcile) (s : System) (e : Event)
    → During n controller e
    → Runs n controller req rec s
    → Runs n controller req rec (step s e)
unfolding step move
step-Runs n controller req rec s (activates ns) d h = h
step-Runs n controller req rec s (deactivates ns) d h = h
step-Runs n controller req rec s (pauses ns) d h = h
step-Runs n controller req rec s (writes by op) d h = h
step-Runs n controller req rec s (calls_for c r) d h =
    get_elem?-append_lt s.calls _ n (lt-length_of_get_elem? s.calls n h) ∙ h
step-Runs n controller req rec s (moves m now) d h = elim (Option-cases (get_elem? s.calls m)) [
  | inl e ↦ rw (e, step) h
  | inr (c, e) ↦ elim (Bool-cases (m == n)) [
    | inl t ↦
        let q : m ≡ n = ground arith in
        let e' = ap (get_elem? s.calls) q ∙ h in
        rw (e', step) (ap (get_elem? (set s.calls m _)) (sym q) ∙ get_elem?-set_self s.calls m _ e')
    | inr f ↦ rw (e, step) (get_elem?-set_other s.calls m n _ (ground arith) ∙ h)
  ]
]
step-Runs n controller req rec s (returns m now requeue err) d h =
    elim (Option-cases (get_elem? s.calls m)) [
      | inl e ↦ rw (e, step) h
      | inr (c, e) ↦ rw (e, step) (get_elem?-set_other s.calls m n _ d ∙ h)
    ]

pub run-Runs :
    (n : ℕ) (controller : String) (req : ObjectKey) (rec : Reconcile) (es : List Event) (s : System)
    → All (During n controller) es
    → Runs n controller req rec s
    → Runs n controller req rec (run s es)
unfolding run
run-Runs n controller req rec [] s d h = h
run-Runs n controller req rec (e ∷ es) s d h =
    run-Runs n controller req rec es (step s e) d.1 (step-Runs n controller req rec s e d.0 h)
