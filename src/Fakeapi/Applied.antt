-- ===== src/Fakeapi/Applied.antt =====
-- Apply of generationTracker (fakeapi/tracker.go): the merge on the scratch tracker decides.
use testkit.Prelude.{
  List, Option, none, Bool, true, false, String, if◌then◌else◌, ◌≡◌, refl, sym, ap, ◌∙◌, inl, inr,
  Bool-cases,
}
use testkit.Prelude.Int.{ℤ}
use testkit.Fakeapi.Types.{Error, Result, good, Meta, MetaLaws, Store}
use testkit.Fakeapi.Tracker.{
  bump, guard_error, merged_generation, written, write_stamped, applied_generation, apply,
}
use testkit.Fakeapi.Content.{Agree, same_content_lem}

-- What the scratch tracker makes of a stored object and a configuration.
pub record Merges {O V T : Type 0} (m : Meta O V) (s : Store O T) (kind ns manager : String)
    (stored cfg : O) : Type 0 where
  pub seeded : T
  pub applied : T
  pub merged : O
  pub adds : s.add s.new_scratch stored ≡ (seeded, none)
  pub applies : s.apply seeded kind cfg ns manager true ≡ (applied, none)
  pub reads : s.get applied kind ns (m.name cfg) ≡ good merged
  pub old : List (String × V)
  pub new : List (String × V)
  pub converts_old : m.to_unstructured stored ≡ good old
  pub converts_new : m.to_unstructured merged ≡ good new

guard_error-none : (o : Option Error) (r : Result ℤ) → o ≡ none → guard_error o r ≡ r
unfolding guard_error
guard_error-none o r e = ap (λ x. guard_error x r) e

module _ {O V T : Type 0} (m : Meta O V) (laws : MetaLaws m) (s : Store O T) where
  merged_generation_lem :
      (stored merged : O) (us um : List (String × V))
      → m.to_unstructured stored ≡ good us
      → m.to_unstructured merged ≡ good um
      → (gen : ℤ) × (merged_generation m stored merged ≡ good gen)
        × (Agree us um → gen ≡ m.generation stored)
        × (¬ Agree us um → gen ≡ bump (m.generation stored))
  unfolding merged_generation
  merged_generation_lem stored merged us um p q =
      let (same, e, iff) = same_content_lem m laws stored merged us um p q in
      (
        if same then m.generation stored else bump (m.generation stored),
        rw (e, merged_generation) refl,
        elim (Bool-cases same) [
          | inl t ↦ rw t (λ g. refl)
          | inr f ↦ rw f (λ g. absurd (set_and_unset (sym (iff.1 g) ∙ f)))
        ],
        elim (Bool-cases same) [
          | inl t ↦ rw t (λ n. absurd (n (iff.0 t)))
          | inr f ↦ rw f (λ n. refl)
        ],
      )
    where
      set_and_unset : true ≡ false → ⊥
      set_and_unset e = cc

  written-none :
      (r : T × Option Error) (t : T) (f : T → Result ℤ) → r ≡ (t, none) → written m s r f ≡ f t
  unfolding written
  written-none r t f e = ap (λ x. written m s x f) e

  applied_generation_lem :
      (kind ns manager : String) (stored cfg : O) (gen : ℤ)
      → m.accessor cfg ≡ none
      → m.accessor stored ≡ none
      → (x : Merges m s kind ns manager stored cfg) → merged_generation m stored x.merged ≡ good gen
      → applied_generation m s kind stored cfg ns manager ≡ good gen
  unfolding applied_generation
  applied_generation_lem kind ns manager stored cfg gen a b x e =
      guard_error-none (m.accessor stored) _ b
      ∙ written-none (s.add s.new_scratch stored) x.seeded _ x.adds
      ∙ written-none (s.apply x.seeded kind cfg ns manager true) x.applied _ x.applies
      ∙ guard_error-none (m.accessor cfg) _ a
      ∙ (rw x.reads e)

  -- Apply of a configuration to a stored object writes into it the stored generation where the merge
  -- that the tracker makes of the two agrees with the stored object outside metadata, status,
  -- apiVersion and kind, and that generation bumped where it does not, and applies it once.
  pub apply_lem :
      (t : T) (kind ns manager : String) (force : Bool) (stored cfg : O)
      → m.accessor cfg ≡ none
      → s.get t kind ns (m.name cfg) ≡ good stored
      → m.accessor stored ≡ none
      → (x : Merges m s kind ns manager stored cfg)
      → (gen : ℤ) × (Agree x.old x.new → gen ≡ m.generation stored)
        × (¬ Agree x.old x.new → gen ≡ bump (m.generation stored))
        × (apply m s t kind cfg ns manager force ≡ (
          m.set_generation gen cfg,
          (s.apply t kind (m.set_generation gen cfg) ns manager force).0,
          (s.apply t kind (m.set_generation gen cfg) ns manager force).1,
        ))
  unfolding apply guard_error write_stamped
  apply_lem t kind ns manager force stored cfg a g b x =
      let (gen, e, k, n) =
        merged_generation_lem stored x.merged x.old x.new x.converts_old x.converts_new in
      let f = applied_generation_lem kind ns manager stored cfg gen a b x e in
      (gen, k, n, rw (a, g, f, apply, guard_error, write_stamped) refl)
