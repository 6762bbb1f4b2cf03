-- ===== src/Modelcheck/Trap/Mark.antt =====
-- The queue of findTrap (modelcheck/explore.go): marking the sources of one node, and the loop.
use testkit.Prelude.{
  In-append, In-append_left, In-append_right, ℕ, zero, suc, ◌+◌, ◌<◌, ◌==◌, ==_iff, ◌≡◌, refl, sym,
  ap, subst, ◌∙◌, ◌≢◌, ◌⊎◌, inl, inr, List, [], ◌∷◌, Bool, true, false, Bool-cases, arith, length,
  get_or, set, length-set, length-append, get_or-set_self, get_or-set_ne, In, here, there, All,
}
use testkit.Modelcheck.Trap.Defs.{Marks, mark_one, mark_all}

-- The flags that are not set.
abbrev pub unmarked : List Bool → ℕ
unmarked [] = 0
unmarked (true ∷ bs) = unmarked bs
unmarked (false ∷ bs) = suc (unmarked bs)

unmarked-set :
    (bs : List Bool) (i : ℕ)
    → i < length bs
    → get_or bs i false ≡ false
    → suc (unmarked (set bs i true)) ≡ unmarked bs
unmarked-set [] i h e = elim h [ ]
unmarked-set (true ∷ bs) zero h e = cc
unmarked-set (false ∷ bs) zero h e = refl
unmarked-set (true ∷ bs) (suc i) h e = unmarked-set bs i (omega arith) e
unmarked-set (false ∷ bs) (suc i) h e = ap suc (unmarked-set bs i (omega arith) e)

-- What marking has done to the flags and the queue.
pub record Marked (m : Marks) (fs : List ℕ) (m' : Marks) : Type 0 where
  pub size : length m'.reach ≡ length m.reach
  pub work : unmarked m'.reach + length m'.queue ≡ unmarked m.reach + length m.queue
  pub old : (v : ℕ) → get_or m.reach v false ≡ true → get_or m'.reach v false ≡ true
  pub added : (v : ℕ) → In v fs → get_or m'.reach v false ≡ true
  pub origin :
      (v : ℕ)
      → get_or m'.reach v false ≡ true
      → (get_or m.reach v false ≡ true) ⊎ (In v fs × In v m'.queue)
  pub waits : (v : ℕ) → In v m.queue → In v m'.queue
  pub came : (v : ℕ) → In v m'.queue → In v m.queue ⊎ In v fs

mark_one-Marked : (m : Marks) (f : ℕ) → f < length m.reach → Marked m (f ∷ []) (mark_one m f)
unfolding mark_one
mark_one-Marked m f h = elim (Bool-cases (get_or m.reach f false)) [
  | inl b ↦ rw b (record {
    size = refl;
    work = refl;
    old = λ v e. e;
    added = λ v k. single v k b;
    origin = λ v e. inl e;
    waits = λ v k. k;
    came = λ v k. inl k;
  })
  | inr u ↦ rw u (record {
    size = length-set m.reach f true;
    work = omega (arith, unmarked-set m.reach f h u, length-append m.queue (f ∷ []));
    old = λ v e. set_old v e;
    added = λ v k. elim (Bool-cases (f == v)) [
      | inl s ↦ rw (← (==_iff f v).0 s) (get_or-set_self m.reach f true false h)
      | inr d ↦ absurd (fresh v d k)
    ];
    origin = λ v e. elim (Bool-cases (f == v)) [
      | inl s ↦ inr (
        here (sym ((==_iff f v).0 s)),
        In-append_right m.queue (f ∷ []) (here (sym ((==_iff f v).0 s))),
      )
      | inr d ↦ inl (sym (get_or-set_ne m.reach f v true false (differ v d)) ∙ e)
    ];
    waits = λ v k. In-append_left m.queue (f ∷ []) k;
    came = λ v k. In-append m.queue (f ∷ []) k;
  })
]
  where
    single : (v : ℕ) → In v (f ∷ []) → get_or m.reach f false ≡ true → get_or m.reach v false ≡ true
    single v (here e) b = ap (λ x. get_or m.reach x false) e ∙ b
    single v (there k) b = elim k [ ]

    differ : (v : ℕ) → (f == v) ≡ false → f ≢ v
    differ v d e = let t = (==_iff f v).1 e in cc

    fresh : (v : ℕ) → (f == v) ≡ false → In v (f ∷ []) → ⊥
    fresh v d (here e) = differ v d (sym e)
    fresh v d (there k) = elim k [ ]

    set_old : (v : ℕ) → get_or m.reach v false ≡ true → get_or (set m.reach f true) v false ≡ true
    set_old v e = elim (Bool-cases (f == v)) [
      | inl s ↦ rw (← (==_iff f v).0 s) (get_or-set_self m.reach f true false h)
      | inr d ↦ get_or-set_ne m.reach f v true false (differ v d) ∙ e
    ]

Marked-trans :
    (m₁ m₂ m₃ : Marks) (f : ℕ) (fs : List ℕ)
    → Marked m₁ (f ∷ []) m₂
    → Marked m₂ fs m₃
    → Marked m₁ (f ∷ fs) m₃
Marked-trans m₁ m₂ m₃ f fs a b = record {
  size = b.size ∙ a.size;
  work = b.work ∙ a.work;
  old = λ v e. b.old v (a.old v e);
  added = λ v k. new v k;
  origin = λ v e. elim (b.origin v e) [
    | inr (k, q) ↦ inr (there k, q)
    | inl e' ↦ elim (a.origin v e') [
      | inl e'' ↦ inl e''
      | inr (k, q) ↦ inr (weaken v k, b.waits v q)
    ]
  ];
  waits = λ v k. b.waits v (a.waits v k);
  came = λ v k. elim (b.came v k) [
    | inr k' ↦ inr (there k')
    | inl k' ↦ elim (a.came v k') [ inl q ↦ inl q | inr q ↦ inr (weaken v q) ]
  ];
}
  where
    weaken : (v : ℕ) → In v (f ∷ []) → In v (f ∷ fs)
    weaken v (here e) = here e
    weaken v (there k) = elim k [ ]

    new : (v : ℕ) → In v (f ∷ fs) → get_or m₃.reach v false ≡ true
    new v (here e) = b.old v (a.added v (here e))
    new v (there k) = b.added v k

pub mark_all-Marked :
    (m : Marks) (fs : List ℕ) → All (λ f. f < length m.reach) fs → Marked m fs (mark_all m fs)
unfolding mark_all
mark_all-Marked m [] h = record {
  size = refl;
  work = refl;
  old = λ v e. e;
  added = λ v k. elim k [ ];
  origin = λ v e. inl e;
  waits = λ v k. k;
  came = λ v k. inl k;
}
mark_all-Marked m (f ∷ fs) h =
    let a = mark_one-Marked m f h.0 in
    Marked-trans m (mark_one m f) (mark_all (mark_one m f) fs) f fs a
      (mark_all-Marked (mark_one m f) fs (subst (λ n. All (λ x. x < n) fs) (sym a.size) h.1))
