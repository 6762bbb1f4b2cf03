-- ===== src/Ctrl/Tally.antt =====
-- Counts against the log (ctrltest/recorder.go).
use testkit.Prelude.{
  suc, ◌+◌, List, [], ◌∷◌, ◌++◌, Bool, true, false, ◌&&◌, String, str_eq, eq_iff, if◌then◌else◌,
  ◌≡◌, refl, sym, ap, ◌∙◌, ◌⊎◌, inl, inr, Bool-cases, length, length-append, arith, str_eq_refl,
}
use testkit.Ctrl.Op.{Op, accepted}
use testkit.Ctrl.Recorder.{Recorder, Counts, count_at, count_up, count_key, file, keep}
use testkit.Ctrl.Wait.{file_all}
use testkit.Ctrl.Stream.{keep-append}

pub count_at-count_up_self :
    (k : String) (m : Counts) → count_at k (count_up k m) ≡ suc (count_at k m)
unfolding count_up
count_at-count_up_self k [] = rw (str_eq_refl k) refl
count_at-count_up_self k ((k', n) ∷ m) = elim (Bool-cases (str_eq k' k)) [
  | inl t ↦ rw (t, count_up) (rw t refl)
  | inr f ↦ rw (f, count_up) (rw f (count_at-count_up_self k m))
]

pub count_at-count_up_other :
    (k j : String) (m : Counts) → str_eq j k ≡ false → count_at k (count_up j m) ≡ count_at k m
unfolding count_up
count_at-count_up_other k j [] h = rw h refl
count_at-count_up_other k j ((k', n) ∷ m) h = elim (Bool-cases (str_eq k' j)) [
  | inl t ↦
      let z : str_eq k' k ≡ false = ap (λ x. str_eq x k) ((eq_iff k' j).0 t) ∙ h in
      rw (t, count_up) (rw z refl)
  | inr f ↦
      rw (f, count_up) (ap (λ x. if str_eq k' k then n else x) (count_at-count_up_other k j m h))
]

-- An accepted op of the key `k`.
abbrev counted : String → Op → Bool
counted k op = accepted op && str_eq (count_key op) k

abbrev pub Tallies : Recorder → Type 0
Tallies r = (k : String) → count_at k r.counts ≡ length (keep (counted k) r.ops)

length-keep_last :
    (p : Op → Bool) (ops : List Op) (op : Op)
    → length (keep p (ops ++ (op ∷ []))) ≡ length (keep p ops) + (if p op then 1 else 0)
length-keep_last p ops op =
    ap length (keep-append p ops (op ∷ []))
    ∙ length-append (keep p ops) (keep p (op ∷ []))
    ∙ ap (◌+◌ (length (keep p ops))) (single (p op))
  where
    single : (b : Bool) → length (if b then op ∷ [] else []) ≡ (if b then 1 else 0)
    single true = refl
    single false = refl

file-Tallies : (r : Recorder) (op : Op) → Tallies r → Tallies (file r op)
unfolding file
file-Tallies r op h k =
    by_outcome (Bool-cases (accepted op)) (Bool-cases (str_eq (count_key op) k))
    ∙ sym (length-keep_last (counted k) r.ops op)
  where
    by_outcome :
        (accepted op ≡ true) ⊎ (accepted op ≡ false)
        → (str_eq (count_key op) k ≡ true) ⊎ (str_eq (count_key op) k ≡ false)
        → count_at k (if accepted op then count_up (count_key op) r.counts else r.counts)
          ≡ length (keep (counted k) r.ops) + (if counted k op then 1 else 0)
    by_outcome (inr f) s = rw f (omega (arith, h k))
    by_outcome (inl t) (inl s) =
        let q = (eq_iff (count_key op) k).0 s in
        let up = ap (λ j. count_at k (count_up j r.counts)) q ∙ count_at-count_up_self k r.counts in
        rw t (rw s (omega (arith, up, h k)))
    by_outcome (inl t) (inr f) =
        let old = count_at-count_up_other k (count_key op) r.counts f in
        rw t (rw f (omega (arith, old, h k)))

pub file_all-Tallies : (ops : List Op) (r : Recorder) → Tallies r → Tallies (file_all r ops)
file_all-Tallies [] r h = h
file_all-Tallies (op ∷ ops) r h = file_all-Tallies ops (file r op) (file-Tallies r op h)
