-- ===== src/Modelcheck/Index/Table.antt =====
-- The open-addressing table of modelcheck/index.go: what it holds, and that `place` and `grow` keep
-- it so.
use testkit.Prelude.{
  ℕ, zero, suc, ◌+◌, ◌<◌, ◌==◌, ==_iff, ◌≡◌, refl, sym, ap, subst, ◌∙◌, append-nil, ◌≢◌, inl, inr,
  List, [], ◌∷◌, ◌++◌, append_assoc, some, Bool-cases, arith, length, get_elem?, get_or, set,
  replicate, length-append, length-set, length-replicate, get_or-replicate, get_or-set_self,
  get_or-set_ne, get_elem?-append_lt, get_elem?-append_end, lt-length_of_get_elem?,
}
use testkit.Modelcheck.Index.Defs.{Hash, and_mask, done, place_from, place, place_all}
use testkit.Modelcheck.Index.Probe.{
  and_mask-lt, distance, distance_step, distance-lt, used, used-replicate, used-set, free_slot, Run,
  stop, go, Run-set, slot,
}

-- The table holds the nodes whose hashes are `hs`: each is found by a walk from its own slot.
pub record Holds (t : List ℕ) (mask : ℕ) (hs : List Hash) : Type 0 where
  pub size : length t ≡ mask + 1
  pub filled : used t ≡ length hs
  pub entries : (q v : ℕ) → get_or t q 0 ≡ suc v → v < length hs
  pub runs :
      (i : ℕ) (h : Hash)
      → get_elem? hs i ≡ some h
      → (q : ℕ) × Run t mask (and_mask h.lo mask) q × (get_or t q 0 ≡ suc i)

-- Where `place` stops: the first free slot of the walk.
place_from_stops :
    (fuel : ℕ) (t : List ℕ) (mask idx p e : ℕ)
    → p < mask + 1
    → e < mask + 1
    → get_or t e 0 ≡ 0
    → distance mask p e < fuel
    → length t ≡ mask + 1
    → (q : ℕ) × (q < mask + 1)
      × Run t mask p q
      × (get_or t q 0 ≡ 0)
      × (place_from fuel t mask idx p ≡ done (set t q (idx + 1)))
unfolding place_from
place_from_stops zero t mask idx p e hp he free h size = elim h [ ]
place_from_stops (suc fuel) t mask idx p e hp he free h size =
    let here = slot t p {x = get_or t p 0} (omega (arith, size)) refl in
    elim (Bool-cases (get_or t p 0 == 0)) [
      | inl z ↦ (p, hp, stop, (==_iff _ _).0 z, rw (here, place_from) (rw z refl))
      | inr o ↦
          let occupied : get_or t p 0 ≢ 0 = λ z. ground (arith, (==_iff (get_or t p 0) 0).1 z) in
          let ne : p ≢ e = λ x. occupied (ap (λ y. get_or t y 0) x ∙ free) in
          let (q, hq, run, fr, eq) =
            place_from_stops fuel t mask idx (and_mask (p + 1) mask) e (and_mask-lt (p + 1) mask) he
              free (omega (arith, distance_step mask p e hp he ne)) size in
          (q, hq, go occupied run, fr, rw (here, place_from) (rw o eq))
    ]

-- A write of the next node at the end of its walk.
Holds-set :
    (t : List ℕ) (mask : ℕ) (hs : List Hash) (h : Hash) (q : ℕ)
    → Holds t mask hs
    → q < mask + 1
    → Run t mask (and_mask h.lo mask) q
    → get_or t q 0 ≡ 0
    → Holds (set t q (length hs + 1)) mask (hs ++ h ∷ [])
Holds-set t mask hs h q w hq run free = record {
  size = length-set t q (length hs + 1) ∙ w.size;
  filled = omega (
    arith,
    used-set t q (length hs) (omega (arith, w.size)) free,
    w.filled,
    length-append hs (h ∷ []),
    ap (λ k. used (set t q k)) one,
  );
  entries = λ p v e. entry p v e;
  runs = λ i g e. held i g e;
}
  where
    one : length hs + 1 ≡ suc (length hs)
    one = omega arith

    inside : q < length t
    inside = omega (arith, w.size)

    entry : (p v : ℕ) → get_or (set t q (length hs + 1)) p 0 ≡ suc v → v < length (hs ++ h ∷ [])
    entry p v e = elim (Bool-cases (q == p)) [
      | inl s ↦ omega (
        arith,
        length-append hs (h ∷ []),
        sym (get_or-set_self t q (length hs + 1) 0 inside),
        ap (λ x. get_or (set t q (length hs + 1)) x 0) ((==_iff q p).0 s) ∙ e,
      )
      | inr d ↦ omega (
        arith,
        length-append hs (h ∷ []),
        w.entries p v (
            sym (get_or-set_ne t q p (length hs + 1) 0 (λ x. ground (arith, (==_iff q p).1 x)))
            ∙ e),
      )
    ]

    held :
        (i : ℕ) (g : Hash)
        → get_elem? (hs ++ h ∷ []) i ≡ some g
        → (p : ℕ) × Run (set t q (length hs + 1)) mask (and_mask g.lo mask) p
          × (get_or (set t q (length hs + 1)) p 0 ≡ suc i)
    held i g e = elim (Bool-cases (i == length hs)) [
      | inl s ↦
          let last = get_elem?-append_end hs h [] i ((==_iff i (length hs)).0 s) in
          let same : h ≡ g = ground (arith, last, e) in
          (
            q,
            rw (← same) (Run-set t mask q (length hs + 1) free run),
            get_or-set_self t q (length hs + 1) 0 inside
                ∙ omega (arith, (==_iff i (length hs)).0 s),
          )
      | inr d ↦
          let lt : i < length hs =
            ground (arith, lt-length_of_get_elem? (hs ++ h ∷ []) i e, length-append hs (h ∷ [])) in
          let (p, r, at) = w.runs i g (sym (get_elem?-append_lt hs (h ∷ []) i lt) ∙ e) in
          let ne : q ≢ p = λ x. absurd (omega (arith, ap (λ y. get_or t y 0) x, at, free)) in
          (
            p,
            Run-set t mask q (length hs + 1) free r,
            get_or-set_ne t q p (length hs + 1) 0 ne ∙ at,
          )
    ]

pub place-Holds :
    (t : List ℕ) (mask : ℕ) (hs : List Hash) (h : Hash) (idx : ℕ)
    → Holds t mask hs
    → idx ≡ length hs
    → length hs < length t
    → (t' : List ℕ) × (place t mask idx h ≡ done t')
      × Holds t' mask (hs ++ h ∷ [])
      × (length t' ≡ length t)
unfolding place
place-Holds t mask hs h idx w e room =
    let (slot, inside, free) = free_slot t (omega (arith, w.filled)) in
    let hp = and_mask-lt h.lo mask in
    let he : slot < mask + 1 = omega (arith, w.size) in
    let (q, hq, run, fr, eq) =
      place_from_stops (length t) t mask idx (and_mask h.lo mask) slot hp he free
        (omega (arith, distance-lt mask (and_mask h.lo mask) slot hp he, w.size)) w.size in
    (
      set t q (idx + 1),
      eq,
      subst (λ k. Holds (set t q (k + 1)) mask (hs ++ h ∷ [])) (sym e)
          (Holds-set t mask hs h q w hq run fr),
      length-set t q (idx + 1),
    )

-- The nodes from `i` on are placed, `hs` of them, after those that are `done`.
pub place_all-Holds :
    (t : List ℕ) (mask i : ℕ) (before hs more : List Hash)
    → Holds t mask before
    → i ≡ length before
    → length before + length hs < length t
    → (t' : List ℕ) × (place_all t mask i (length hs) (before ++ (hs ++ more)) ≡ done t')
      × Holds t' mask (before ++ hs)
      × (length t' ≡ length t)
unfolding place_all
place_all-Holds t mask i before [] more w e room = (t, refl, rw append-nil w, refl)
place_all-Holds t mask i before (h ∷ hs) more w e room =
    let (t₁, p, w₁, l₁) = place-Holds t mask before h i w e (omega arith) in
    let (t₂, r, w₂, l₂) =
      place_all-Holds t₁ mask (i + 1) (before ++ h ∷ []) hs more w₁
        (omega (arith, length-append before (h ∷ [])))
        (omega (arith, length-append before (h ∷ []))) in
    let read = get_elem?-append_end before h (hs ++ more) i e in
    let shift = append_assoc before (h ∷ []) (hs ++ more) in
    (
      t₂,
      rw (read, place_all)
          (rw (p, place_all) (ap (place_all t₁ mask (i + 1) (length hs)) (sym shift) ∙ r)),
      rw append_assoc at w₂,
      l₂ ∙ l₁,
    )

-- The empty table.
pub Holds-replicate : (n mask : ℕ) → n ≡ mask + 1 → Holds (replicate n 0) mask []
Holds-replicate n mask e = record {
  size = length-replicate n 0 ∙ e;
  filled = used-replicate n;
  entries = λ q v h. absurd (omega (arith, h, get_or-replicate {A = ℕ} n q 0));
  runs = λ i h e. cc;
}
