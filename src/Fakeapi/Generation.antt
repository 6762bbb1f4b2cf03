-- ===== src/Fakeapi/Generation.antt =====
-- Update and Patch of generationTracker (fakeapi/tracker.go): the generation of the object written.
use testkit.Prelude.{
  List, none, Bool, true, false, not, ◌||◌, ◌&&◌, String, if◌then◌else◌, ◌≡◌, refl, sym, ◌∙◌, ◌↔◌,
  ◌⊎◌, inl, inr, Bool-cases,
}
use testkit.Prelude.Int.{ℤ}
use testkit.Fakeapi.Types.{good, Meta, MetaLaws, Store}
use testkit.Fakeapi.Tracker.{
  bump, guard_error, next_generation, stamp_generation, write_stamped, update, patch,
}
use testkit.Fakeapi.Content.{Agree, same_content_lem}

module _ {O V : Type 0} (m : Meta O V) where
  -- A write of `o` over `stored` changes the content, or begins the deletion.
  abbrev pub Changes : O → O → List (String × V) → List (String × V) → Type 0
  Changes stored o us uo = (¬ Agree us uo) ⊎ ((m.deleting stored ≡ false) × (m.deleting o ≡ true))

  -- It changes neither.
  abbrev pub Stays : O → O → List (String × V) → List (String × V) → Type 0
  Stays stored o us uo = Agree us uo × ((m.deleting stored ≡ true) ⊎ (m.deleting o ≡ false))

  -- The generation such a write has to have.
  pub record IsNext (stored o : O) (us uo : List (String × V)) (gen : ℤ) : Type 0 where
    pub kept : Stays stored o us uo → gen ≡ m.generation stored
    pub bumped : Changes stored o us uo → gen ≡ bump (m.generation stored)
    -- Which of the two it is, is decided.
    pub decided : Changes stored o us uo ⊎ Stays stored o us uo

module _ {O V : Type 0} (m : Meta O V) (laws : MetaLaws m) where
  next_generation_lem :
      (stored o : O) (us uo : List (String × V))
      → m.to_unstructured stored ≡ good us
      → m.to_unstructured o ≡ good uo
      → (gen : ℤ) × (next_generation m stored o ≡ good gen) × IsNext m stored o us uo gen
  unfolding next_generation
  next_generation_lem stored o us uo p q =
      let (same, e, iff) = same_content_lem m laws stored o us uo p q in
      (
        if not same || (not (m.deleting stored) && m.deleting o)
            then bump (m.generation stored)
            else m.generation stored,
        rw (e, next_generation) refl,
        decide same (Bool-cases same) (Bool-cases (m.deleting stored)) (Bool-cases (m.deleting o))
            iff,
      )
    where
      set_and_unset : true ≡ false → ⊥
      set_and_unset e = cc

      quiet : Stays m stored o us uo → ¬ Changes m stored o us uo
      quiet (a, d) (inl n) = n a
      quiet (a, inl d) (inr c) = set_and_unset (sym d ∙ c.0)
      quiet (a, inr d) (inr c) = set_and_unset (sym c.1 ∙ d)

      changed :
          (gen : ℤ)
          → gen ≡ bump (m.generation stored)
          → Changes m stored o us uo
          → IsNext m stored o us uo gen
      changed gen e c = record { kept = λ n. absurd (quiet n c); bumped = λ c. e; decided = inl c }

      unchanged :
          (gen : ℤ)
          → gen ≡ m.generation stored
          → Stays m stored o us uo
          → IsNext m stored o us uo gen
      unchanged gen e n = record {
        kept = λ n. e;
        bumped = λ c. absurd (quiet n c);
        decided = inr n;
      }

      decide :
          (same : Bool)
          → (same ≡ true) ⊎ (same ≡ false)
          → (m.deleting stored ≡ true) ⊎ (m.deleting stored ≡ false)
          → (m.deleting o ≡ true) ⊎ (m.deleting o ≡ false)
          → (same ≡ true) ↔ Agree us uo
          → IsNext m stored o us uo (
              if not same || (not (m.deleting stored) && m.deleting o)
              then bump (m.generation stored)
              else m.generation stored)
      decide same (inr f) d w iff = rw f (
          changed (bump (m.generation stored)) refl
            (inl (λ a. absurd (set_and_unset (sym (iff.1 a) ∙ f)))))
      decide same (inl t) (inl d) w iff =
          rw (t, d) (unchanged (m.generation stored) refl (iff.0 t, inl d))
      decide same (inl t) (inr d) (inl w) iff =
          rw (t, d, w) (changed (bump (m.generation stored)) refl (inr (d, w)))
      decide same (inl t) (inr d) (inr w) iff =
          rw (t, d, w) (unchanged (m.generation stored) refl (iff.0 t, inr w))

module _ {O V T : Type 0} (m : Meta O V) (laws : MetaLaws m) (s : Store O T) where
  stamp_generation_lem :
      (t : T) (kind : String) (o : O) (ns : String) (stored : O) (gen : ℤ)
      → m.accessor o ≡ none
      → s.get t kind ns (m.name o) ≡ good stored
      → m.accessor stored ≡ none
      → next_generation m stored o ≡ good gen
      → stamp_generation m s t kind o ns ≡ good (m.set_generation gen o)
  unfolding stamp_generation guard_error
  stamp_generation_lem t kind o ns stored gen a g b e =
      rw (a, g, stamp_generation, guard_error) (rw (b, guard_error) (rw e refl))

  -- Update and Patch of a stored object hand the tracker below the object with the generation that is
  -- due, whatever generation the caller sent: the stored one where only metadata, status, apiVersion
  -- and kind differ and no deletion begins, else the stored one bumped.
  pub update_patch_lem :
      (t : T) (kind : String) (o : O) (ns : String) (stored : O) (us uo : List (String × V))
      → m.accessor o ≡ none
      → s.get t kind ns (m.name o) ≡ good stored
      → m.accessor stored ≡ none
      → m.to_unstructured stored ≡ good us
      → m.to_unstructured o ≡ good uo
      → (gen : ℤ) × IsNext m stored o us uo gen
        × (update m s t kind o ns ≡ (
          m.set_generation gen o,
          (s.update t kind (m.set_generation gen o) ns).0,
          (s.update t kind (m.set_generation gen o) ns).1,
        ))
        × (patch m s t kind o ns ≡ (
          m.set_generation gen o,
          (s.patch t kind (m.set_generation gen o) ns).0,
          (s.patch t kind (m.set_generation gen o) ns).1,
        ))
  unfolding update patch write_stamped
  update_patch_lem t kind o ns stored us uo a g b p q =
      let (gen, e, n) = next_generation_lem m laws stored o us uo p q in
      let st = stamp_generation_lem t kind o ns stored gen a g b e in
      (gen, n, rw (st, update) refl, rw (st, patch) refl)
