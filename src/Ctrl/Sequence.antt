-- ===== src/Ctrl/Sequence.antt =====
-- The numbers of the passes of one controller (append in ctrltest/interceptor.go).
use testkit.Prelude.{
  ℕ, zero, suc, List, [], ◌∷◌, ◌++◌, append-nil, map, Bool, true, false, not, ◌&&◌, Option, String,
  str_eq, eq_iff, ◌≡◌, ◌⊎◌, refl, sym, ap, ap₂, ◌∙◌, inl, inr, Bool-cases,
}
use testkit.Ctrl.Recorder.{Recorder, count_at, count_up, keep}
use testkit.Ctrl.Tally.{count_at-count_up_self, count_at-count_up_other}
use testkit.Ctrl.Stream.{keep-append}
use testkit.Ctrl.Intercept.{Reconcile, Interceptor, new_interceptor, numbered, append}
use testkit.Ctrl.Passes.{Event, run}
use testkit.Ctrl.Filed.{with_pass, append_cases, Steady, run_ok}
use testkit.Ctrl.GateRun.{new_system}

-- 1, 2, …, n.
abbrev pub one_to : ℕ → List ℕ
one_to zero = []
one_to (suc n) = one_to n ++ (suc n ∷ [])

abbrev pub pass_of : String → Reconcile → Bool
pass_of c r = not r.gated && str_eq r.controller c

-- The numbers of one controller's passes, in the order of the log.
abbrev pub numbers : String → List Reconcile → List ℕ
numbers c log = map (λ r. r.seq) (keep (pass_of c) log)

map-append : {A B : Type 0} (f : A → B) (xs ys : List A) → map f (xs ++ ys) ≡ map f xs ++ map f ys
map-append f [] ys = refl
map-append f (x ∷ xs) ys = ap (◌∷◌ (f x)) (map-append f xs ys)

numbers-append :
    (c : String) (xs ys : List Reconcile) → numbers c (xs ++ ys) ≡ numbers c xs ++ numbers c ys
numbers-append c xs ys =
    ap (map (λ r. r.seq)) (keep-append (pass_of c) xs ys)
    ∙ map-append (λ r. r.seq) (keep (pass_of c) xs) (keep (pass_of c) ys)

Counted : Interceptor → Type 0
Counted i = (c : String) → numbers c i.log ≡ one_to (count_at c i.seq)

numbers_hit :
    (c : String) (r : Reconcile)
    → r.gated ≡ false
    → str_eq r.controller c ≡ true
    → numbers c (r ∷ []) ≡ r.seq ∷ []
numbers_hit c r f s = let p : pass_of c r ≡ true = rw f s in rw p refl

numbers_miss :
    (c : String) (r : Reconcile)
    → (r.gated ≡ true) ⊎ (str_eq r.controller c ≡ false)
    → numbers c (r ∷ []) ≡ []
numbers_miss c r (inl t) = let p : pass_of c r ≡ false = rw t refl in rw p refl
numbers_miss c r (inr g) = let p : pass_of c r ≡ false = rw g (never (not r.gated)) in rw p refl
  where
    never : (b : Bool) → b && false ≡ false
    never true = refl
    never false = refl

append-Counted : (i : Interceptor) (r : Reconcile) → Unit {0} → Counted i → Counted (append r i)
unfolding with_pass Counted
append-Counted i r u h c = elim (append_cases r i) [
  | inl (t, e) ↦ rw e (
      numbers-append c i.log (r ∷ [])
      ∙ ap (◌++◌ (numbers c i.log)) (numbers_miss c r (inl t))
      ∙ append-nil (numbers c i.log)
      ∙ h c)
  | inr (f, e) ↦
      let r' = numbered (count_up r.controller i.seq) r in
      elim (Bool-cases (str_eq r.controller c)) [
        | inl s ↦
            let q = (eq_iff r.controller c).0 s in
            let self = count_at-count_up_self r.controller i.seq in
            let up : count_at c (count_up r.controller i.seq) ≡ suc (count_at c i.seq) =
              ap (λ k. count_at k (count_up r.controller i.seq)) (sym q)
              ∙ self
              ∙ ap (λ k. suc (count_at k i.seq)) q in
            rw e (
              numbers-append c i.log (r' ∷ [])
              ∙ ap (◌++◌ (numbers c i.log)) (numbers_hit c r' f s)
              ∙ ap₂ (λ xs n. xs ++ (n ∷ [])) (h c) (self ∙ ap (λ k. suc (count_at k i.seq)) q)
              ∙ ap one_to (sym up))
        | inr g ↦ rw e (
            numbers-append c i.log (r' ∷ [])
            ∙ ap (◌++◌ (numbers c i.log)) (numbers_miss c r' (inr g))
            ∙ append-nil (numbers c i.log)
            ∙ h c
            ∙ ap one_to (sym (count_at-count_up_other c r.controller i.seq g)))
      ]
]

steady : Steady Counted (λ r. Unit)
unfolding Counted
steady = record {
  regated = λ i g h. h;
  reopped = λ i o h. h;
  appended = append-Counted;
  noted = λ c req requeue now d. tt;
  ending = λ i r now requeue err g h. tt;
}

-- Over every interleaving, the passes of each controller are numbered 1, 2, 3 and so on in the order
-- in which they stand in the log, up to the number that the interceptor holds for it; refused
-- requests take no number.
pub new_system-Numbered :
    (ops : Option Recorder) (clamp : ℕ) (es : List Event) (c : String)
    → let i = (run (new_system ops clamp) es).ic in numbers c i.log ≡ one_to (count_at c i.seq)
unfolding new_system new_interceptor Counted
new_system-Numbered ops clamp es c =
    (run_ok Counted (λ r. Unit) steady (new_system ops clamp) es ((λ k. refl), tt)).0 c
