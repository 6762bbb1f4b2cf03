-- ===== src/Modelcheck/Index/Probe.antt =====
-- Walks over a table of modelcheck/index.go: positions, occupied runs, free slots.
use native.Mathlib.Nat.{mod-eq_of_lt, mod_self}
use testkit.Prelude.{
  ℕ, zero, suc, ◌+◌, ◌-◌, ◌%◌, ◌==◌, ==_iff, leb, ◌<◌, ◌≡◌, refl, sym, ap, ◌∙◌, ◌≢◌, inl, inr, List,
  [], ◌∷◌, if◌then◌else◌, Bool-cases, arith, length, get_or, get_elem?, some, set, replicate,
  get_or-set_ne,
}
use testkit.Modelcheck.Index.Defs.{and_mask}

-- The next position, without the mask.
and_mask_next :
    (p mask : ℕ) → p < mask + 1 → and_mask (p + 1) mask ≡ (if p == mask then 0 else p + 1)
unfolding and_mask
and_mask_next p mask h = elim (Bool-cases (p == mask)) [
  | inl e ↦
      rw e (ap (λ k. k % (mask + 1)) (ap (λ k. k + 1) ((==_iff p mask).0 e)) ∙ mod_self (mask + 1))
  | inr n ↦ rw n (mod-eq_of_lt (ground arith))
]

pub and_mask-lt : (x mask : ℕ) → and_mask x mask < mask + 1
unfolding and_mask
and_mask-lt x mask = omega arith

-- The steps from position `p` round to position `e`.
abbrev pub distance : ℕ → ℕ → ℕ → ℕ
distance mask p e = if leb p e then e - p else mask + 1 - p + e

pub distance_step :
    (mask p e : ℕ)
    → p < mask + 1
    → e < mask + 1
    → p ≢ e
    → suc (distance mask (and_mask (p + 1) mask) e) ≡ distance mask p e
distance_step mask p e h k ne = ground (arith, and_mask_next p mask)

pub distance-lt : (mask p e : ℕ) → p < mask + 1 → e < mask + 1 → distance mask p e < mask + 1
distance-lt mask p e h k = ground arith

-- The slots that hold a node.
abbrev pub used : List ℕ → ℕ
used [] = 0
used (zero ∷ t) = used t
used (suc v ∷ t) = suc (used t)

pub used-replicate : (n : ℕ) → used (replicate n 0) ≡ 0
used-replicate zero = refl
used-replicate (suc n) = used-replicate n

pub used-set :
    (t : List ℕ) (q v : ℕ) → q < length t → get_or t q 0 ≡ 0 → used (set t q (suc v)) ≡ suc (used t)
used-set [] q v h e = absurd (omega arith)
used-set (zero ∷ t) zero v h e = refl
used-set (suc x ∷ t) zero v h e = absurd (omega arith)
used-set (zero ∷ t) (suc q) v h e = used-set t q v (omega arith) e
used-set (suc x ∷ t) (suc q) v h e = ap suc (used-set t q v (omega arith) e)

-- A table that is not full has a free slot.
pub free_slot : (t : List ℕ) → used t < length t → (e : ℕ) × (e < length t) × (get_or t e 0 ≡ 0)
free_slot [] h = absurd (omega arith)
free_slot (zero ∷ t) h = (0, omega arith, refl)
free_slot (suc x ∷ t) h = let (e, l, q) = free_slot t (omega arith) in (suc e, omega arith, q)

-- Every slot from `p` up to, but not with, `q` is occupied.
pub data Run (t : List ℕ) (mask : ℕ) : ℕ → ℕ → Type 0 where
  stop : {p : ℕ} → Run t mask p p
  go : {p q : ℕ} → get_or t p 0 ≢ 0 → Run t mask (and_mask (p + 1) mask) q → Run t mask p q

-- A slot inside the table is read.
pub slot : (t : List ℕ) (p : ℕ) {x : ℕ} → p < length t → get_or t p 0 ≡ x → get_elem? t p ≡ some x
slot [] p h e = absurd (omega arith)
slot (y ∷ t) zero h e = ap some e
slot (y ∷ t) (suc p) h e = slot t p (omega arith) e

-- A write to a free slot breaks no run.
pub Run-set :
    (t : List ℕ) (mask e v : ℕ) {p q : ℕ}
    → get_or t e 0 ≡ 0
    → Run t mask p q
    → Run (set t e v) mask p q
Run-set t mask e v free stop = stop
Run-set t mask e v free (go {p} {q} o r) =
    go
      (λ z. o (
        sym (get_or-set_ne t e p v 0 (λ (x : e ≡ p). o (ap (λ y. get_or t y 0) (sym x) ∙ free)))
        ∙ z))
      (Run-set t mask e v free r)
