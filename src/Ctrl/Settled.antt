-- ===== src/Ctrl/Settled.antt =====
-- What a quiet verdict says (TryQuiescent in ctrltest/quiescence.go).
use testkit.Prelude.{
  ℕ, zero, suc, ◌≤◌, ◌<◌, List, [], ◌∷◌, Option, none, some, Bool, true, false, ◌||◌, length, drop,
  ◌≡◌, refl, sym, ap, ◌∙◌, inl, inr, Bool-cases, Option-cases, arith, or_true, or_false,
}
use testkit.Ctrl.Op.{Op}
use testkit.Ctrl.Recorder.{Recorder, keep}
use testkit.Ctrl.Cursor.{Cursor, take_op}
use testkit.Ctrl.Stream.{nil_of_none, first_of, rest_of, sees, unread, Fits, take_op_lem}
use testkit.Ctrl.Quiescence.{ChurnMonitor, observe_write, drain_on, drain, observe_writes}

length-keep : (p : Op → Bool) (ops : List Op) → length (keep p ops) ≤ length ops
length-keep p [] = omega arith
length-keep p (x ∷ ops) = elim (Bool-cases (p x)) [
  | inl t ↦ rw t (omega (arith, length-keep p ops))
  | inr f ↦ rw f (omega (arith, length-keep p ops))
]

length-drop-le : (n : ℕ) (ops : List Op) → length (drop n ops) ≤ length ops
length-drop-le zero ops = omega arith
length-drop-le (suc n) [] = omega arith
length-drop-le (suc n) (x ∷ ops) = omega (arith, length-drop-le n ops)

length-unread-le : (r : Recorder) (c : Cursor) → length (unread r c) ≤ length r.ops
length-unread-le r c =
    omega (arith, length-keep (sees c) (drop c.scan r.ops), length-drop-le c.scan r.ops)

abbrev pub some_op : List Op → Bool
some_op [] = false
some_op (x ∷ ops) = true

-- All that the cursor can see is read, and `seen` says whether there was any.
pub record Drained (r : Recorder) (c : Cursor) (seen : Bool) (out : Cursor × ChurnMonitor × Bool)
    : Type 0 where
  pub scope : sees out.0 ≡ sees c
  pub inside : Fits r out.0
  pub empty : unread r out.0 ≡ []
  pub saw : out.2 ≡ seen || some_op (unread r c)

one_read :
    (ops : List Op) (op : Op)
    → some op ≡ first_of ops
    → (some_op ops ≡ true) × (length ops ≡ suc (length (rest_of ops)))
one_read [] op e = absurd cc
one_read (x ∷ ops) op e = (refl, refl)

drain_on-none :
    (m : ChurnMonitor) (seen : Bool)
    (again : Cursor → ChurnMonitor → Bool → Option (Cursor × ChurnMonitor × Bool))
    (q : Cursor × Option Op)
    → q.1 ≡ none
    → drain_on m seen again q ≡ some (q.0, m, seen)
unfolding drain_on
drain_on-none m seen again (c, none) e = refl
drain_on-none m seen again (c, some op) e = absurd cc

drain_on-some :
    (m : ChurnMonitor) (seen : Bool)
    (again : Cursor → ChurnMonitor → Bool → Option (Cursor × ChurnMonitor × Bool))
    (q : Cursor × Option Op) (op : Op)
    → q.1 ≡ some op
    → drain_on m seen again q ≡ again q.0 (observe_write op m) true
unfolding drain_on
drain_on-some m seen again (c, none) op e = absurd cc
drain_on-some m seen again (c, some x) op e =
    let d : x ≡ op = ground arith in ap (λ y. again c (observe_write y m) true) d

pub drain-Drained :
    (fuel : ℕ) (r : Recorder) (c : Cursor) (m : ChurnMonitor) (seen : Bool)
    → Fits r c
    → length (unread r c) < fuel
    → (out : Cursor × ChurnMonitor × Bool) × (drain fuel r c m seen ≡ some out)
      × Drained r c seen out
unfolding drain
drain-Drained zero r c m seen h k = absurd (omega (arith, k))
drain-Drained (suc fuel) r c m seen h k =
    let t = take_op_lem r c h in
    let c' = (take_op r c).0 in
    elim (Option-cases (take_op r c).1) [
      | inl e ↦
          let z = nil_of_none (unread r c) (sym e ∙ t.front) in
          (
            (c', m, seen),
            drain_on-none m seen (drain fuel r) (take_op r c) e,
            record {
              scope = t.scope;
              inside = t.inside;
              empty = t.rest ∙ ap rest_of z;
              saw = sym (ap (λ q. seen || some_op q) z ∙ or_false seen);
            },
          )
      | inr (op, e) ↦
          let o = one_read (unread r c) op (sym e ∙ t.front) in
          let less : length (unread r c') < fuel = omega (arith, k, o.1, ap length t.rest) in
          let ih = drain-Drained fuel r c' (observe_write op m) true t.inside less in
          (
            ih.0,
            drain_on-some m seen (drain fuel r) (take_op r c) op e ∙ ih.1,
            record {
              scope = ih.2.scope ∙ t.scope;
              inside = ih.2.inside;
              empty = ih.2.empty;
              saw = ih.2.saw ∙ sym (ap (λ b. seen || b) o.0 ∙ or_true seen true refl);
            },
          )
    ]

pub observe_writes-Drained :
    (r : Recorder) (c : Cursor) (m : ChurnMonitor)
    → Fits r c
    → (out : Cursor × ChurnMonitor × Bool) × (observe_writes r c m ≡ some out)
      × Drained r c false out
unfolding observe_writes
observe_writes-Drained r c m h =
    drain-Drained (suc (length r.ops)) r c m false h (omega (arith, length-unread-le r c))
