-- ===== src/Modelcheck/Index/Lookup.antt =====
-- The index of modelcheck/index.go against its specification: the table finds exactly the node that
-- has a hash, and every loop of it ends.
use testkit.Prelude.{
  ℕ, zero, suc, ◌+◌, ◌*◌, ◌^◌, ◌≤◌, ◌<◌, ◌≡◌, refl, sym, ap, subst, ◌∙◌, ◌≢◌, inl, inr, List, none,
  some, true, false, String, Bool-cases, Option-cases, arith, length, get_elem?, get_or,
  get_elem?_of_lt,
}
use testkit.Modelcheck.Index.Defs.{
  Hash, hash_eq, KeyIndex, and_mask, Lookup, hit, miss, fault, probe, lookup,
}
use testkit.Modelcheck.Index.Probe.{
  and_mask-lt, distance, distance_step, distance-lt, free_slot, Run, slot, stop, go,
}
use testkit.Modelcheck.Index.Table.{Holds}

pub hash_eq_iff : (a b : Hash) → (hash_eq a b ≡ true → a ≡ b) × (a ≡ b → hash_eq a b ≡ true)
hash_eq_iff a b = (λ h. ground arith, λ h. ground arith)

-- No two nodes have the same hash.
abbrev pub DistinctHashes : List Hash → Type 0
DistinctHashes hs = (i j : ℕ) (h : Hash) → get_elem? hs i ≡ some h → get_elem? hs j ≡ some h → i ≡ j

module _ (h : Hash) (t : List ℕ) (mask : ℕ) (hs : List Hash) where
  module _ (fuel p : ℕ) (lt : p < length t) where
    probe_free : get_or t p 0 ≡ 0 → probe (suc fuel) h t mask hs p ≡ miss
    unfolding probe
    probe_free e = rw (slot t p lt e, probe) refl

    probe_out :
        (v : ℕ)
        → get_or t p 0 ≡ suc v
        → get_elem? hs v ≡ none
        → probe (suc fuel) h t mask hs p ≡ fault
    unfolding probe
    probe_out v e n = rw (slot t p lt e, probe) (rw (n, probe) refl)

    probe_hit :
        (v : ℕ) (g : Hash)
        → get_or t p 0 ≡ suc v
        → get_elem? hs v ≡ some g
        → hash_eq g h ≡ true
        → probe (suc fuel) h t mask hs p ≡ hit v
    unfolding probe
    probe_hit v g e s b = rw (slot t p lt e, probe) (rw (s, probe) (rw b refl))

    probe_on :
        (v : ℕ) (g : Hash)
        → get_or t p 0 ≡ suc v
        → get_elem? hs v ≡ some g
        → hash_eq g h ≡ false
        → probe (suc fuel) h t mask hs p ≡ probe fuel h t mask hs (and_mask (p + 1) mask)
    unfolding probe
    probe_on v g e s b = rw (slot t p lt e, probe) (rw (s, probe) (rw b refl))

  -- What a walk can end in, over a table whose entries are nodes.
  pub data Ends (r : Lookup) : Type 0 where
    found : (i : ℕ) → get_elem? hs i ≡ some h → r ≡ hit i → Ends r
    absent : r ≡ miss → Ends r

  probe-Ends :
      (fuel p e : ℕ)
      → Holds t mask hs
      → p < mask + 1
      → e < mask + 1
      → get_or t e 0 ≡ 0
      → distance mask p e < fuel
      → Ends (probe fuel h t mask hs p)
  probe-Ends zero p e w hp he free lt = elim lt [ ]
  probe-Ends (suc fuel) p e w hp he free lt = at (get_or t p 0) refl (λ occupied.
      let ne : p ≢ e = λ x. occupied (ap (λ y. get_or t y 0) x ∙ free) in
      probe-Ends fuel (and_mask (p + 1) mask) e w (and_mask-lt (p + 1) mask) he free
        (omega (arith, distance_step mask p e hp he ne)))
    where
      lt_p : p < length t
      lt_p = omega (arith, w.size)

      at :
          (x : ℕ)
          → get_or t p 0 ≡ x
          → (get_or t p 0 ≢ 0 → Ends (probe fuel h t mask hs (and_mask (p + 1) mask)))
          → Ends (probe (suc fuel) h t mask hs p)
      at zero q rest = absent (probe_free fuel p lt_p q)
      at (suc v) q rest =
          let (g, r) = get_elem?_of_lt hs v (w.entries p v q) in
          elim (Bool-cases (hash_eq g h)) [
            | inl b ↦
                found v (r ∙ ap some ((hash_eq_iff g h).0 b)) (probe_hit fuel p lt_p v g q r b)
            | inr u ↦
                subst Ends (sym (probe_on fuel p lt_p v g q r u))
                  (rest (λ z. absurd (omega (arith, z, q))))
          ]

  -- A walk passes no free slot before the node's own.
  probe_run :
      (fuel i : ℕ) {p q : ℕ}
      → length t ≡ mask + 1
      → p < mask + 1
      → Run t mask p q
      → get_or t q 0 ≡ suc i
      → get_elem? hs i ≡ some h
      → probe fuel h t mask hs p ≢ miss
  probe_run zero i size hp r e k m = unfold probe in cc
  probe_run (suc fuel) i size hp (stop {p}) e k m =
      let s = probe_hit fuel p (omega arith) i h e k ((hash_eq_iff h h).1 refl) in cc
  probe_run (suc fuel) i size hp (go {p} {q} o r) e k m =
      at (get_or t p 0) refl (probe_run fuel i size (and_mask-lt (p + 1) mask) r e k)
    where
      inside : p < length t
      inside = omega arith

      at : (x : ℕ) → get_or t p 0 ≡ x → probe fuel h t mask hs (and_mask (p + 1) mask) ≢ miss → ⊥
      at zero z rest = o z
      at (suc v) z rest = elim (Option-cases (get_elem? hs v)) [
        | inl n ↦ let s = probe_out fuel p inside v z n in cc
        | inr (g, s) ↦ elim (Bool-cases (hash_eq g h)) [
          | inl b ↦ let d = probe_hit fuel p inside v g z s b in cc
          | inr u ↦ rest (sym (probe_on fuel p inside v g z s u) ∙ m)
        ]
      ]

-- The default mode's index over the nodes with hashes `hs`. At most half of its slots are in use,
-- and its length is a power of two.
pub record IsIndex (ix : KeyIndex) (hs : List Hash) : Type 0 where
  pub inexact : ix.exact ≡ none
  pub holds : Holds ix.table ix.mask hs
  pub counted : ix.count ≡ length hs
  pub room : 2 * length hs ≤ length ix.table
  pub wide : 2 ≤ length ix.table
  pub power : (k : ℕ) × (length ix.table ≡ 2 ^ k)

module _ (ix : KeyIndex) (hs : List Hash) (w : IsIndex ix hs) (h : Hash) (key : String) where
  open w use {holds}

  lookup-eq-probe :
      lookup ix h key hs ≡ probe (length ix.table) h ix.table ix.mask hs (and_mask h.lo ix.mask)
  unfolding lookup
  lookup-eq-probe = rw (w.inexact, lookup) refl

  pub lookup-Ends : Ends h ix.table ix.mask hs (lookup ix h key hs)
  lookup-Ends =
      let (e, inside, free) = free_slot ix.table (omega (arith, holds.filled, w.room, w.wide)) in
      let hp = and_mask-lt h.lo ix.mask in
      let he : e < ix.mask + 1 = omega (arith, holds.size) in
      rw lookup-eq-probe (
        probe-Ends h ix.table ix.mask hs (length ix.table) (and_mask h.lo ix.mask) e holds hp he
          free (omega (arith, distance-lt ix.mask (and_mask h.lo ix.mask) e hp he, holds.size)))

  -- In an index over distinct hashes a lookup finds node i where i's hash is the one sought, and
  -- where no node has it reports that. Either answer is the result of a probe that has ended and has
  -- read no slot outside the table and no node outside the column.
  pub lookup_lem :
      DistinctHashes hs
      → ((i : ℕ) → get_elem? hs i ≡ some h → lookup ix h key hs ≡ hit i)
        × (((i : ℕ) → get_elem? hs i ≢ some h) → lookup ix h key hs ≡ miss)
  lookup_lem d = (λ i e. present i e lookup-Ends, λ none_has. missing none_has lookup-Ends)
    where
      missing :
          ((i : ℕ) → get_elem? hs i ≢ some h)
          → Ends h ix.table ix.mask hs (lookup ix h key hs)
          → lookup ix h key hs ≡ miss
      missing n (found i e r) = absurd (n i e)
      missing n (absent r) = r

      present :
          (i : ℕ)
          → get_elem? hs i ≡ some h
          → Ends h ix.table ix.mask hs (lookup ix h key hs)
          → lookup ix h key hs ≡ hit i
      present i e (found j f r) = r ∙ ap hit (d j i h f e)
      present i e (absent r) =
          let (q, run, at) = holds.runs i h e in
          absurd (
            probe_run h ix.table ix.mask hs (length ix.table) i holds.size
              (and_mask-lt h.lo ix.mask) run at e (sym lookup-eq-probe ∙ r))
