-- ===== src/Fakeapi/Tracker.antt =====
-- fakeapi/tracker.go: generationTracker. The setters write to the caller's object, so an operation
-- returns that object with the tracker's state and the error.
use testkit.Prelude.{
  List, [], ◌∷◌, Option, none, some, Bool, true, not, ◌||◌, ◌&&◌, ◌==◌, zero, suc, ◌+◌, String,
  str_eq, if◌then◌else◌,
}
use testkit.Prelude.Int.{ℤ, pos, negsuc}
use testkit.Fakeapi.Types.{
  Error, not_found, invalid_fields, not_unstructured, Result, good, bad, ◌>>=◌, Meta, Store,
}

-- `gen++` of an int64, which wraps past 2^63 - 1.
unfoldable pub bump : ℤ → ℤ
bump (pos n) = if n == 9223372036854775807 then negsuc 9223372036854775807 else pos (n + 1)
bump (negsuc zero) = pos 0
bump (negsuc (suc n)) = negsuc n

unfoldable pub is_dropped : String → Bool
is_dropped k = str_eq k "metadata" || str_eq k "status" || str_eq k "apiVersion" || str_eq k "kind"

unfoldable pub keep_fields {ℓ} : {V : Type ℓ} → List (String × V) → List (String × V)
keep_fields [] = []
keep_fields ((k, v) ∷ u) = if is_dropped k then keep_fields u else (k, v) ∷ keep_fields u

-- `if err != nil { return err }` on what returns an error alone.
unfoldable pub guard_error {ℓ} : {A : Type ℓ} → Option Error → Result A → Result A
guard_error none r = r
guard_error (some e) r = bad e

module _ {O V : Type 0} (m : Meta O V) where
  unfoldable pub content : O → Result (List (String × V))
  content o = elim (m.to_unstructured o) [
    | bad e ↦ bad (not_unstructured e)
    | good u ↦ good (keep_fields u)
  ]

  unfoldable pub same_content : O → O → Result Bool
  same_content a b = content a >>= λ ua. content b >>= λ ub. good (m.deep_equal ua ub)

  unfoldable pub default_generation : O → Result O
  default_generation o = guard_error (m.accessor o) (
      good (elim (m.generation o) [
        | pos zero ↦ m.set_generation (pos 1) o
        | pos (suc n) ↦ o
        | negsuc n ↦ o
      ]))

  -- The generation of a write over `stored`.
  unfoldable pub next_generation : O → O → Result ℤ
  next_generation stored o = same_content stored o >>= λ same. good (
      if not same || (not (m.deleting stored) && m.deleting o)
      then bump (m.generation stored)
      else m.generation stored)

  -- The same over a merged object.
  unfoldable pub merged_generation : O → O → Result ℤ
  merged_generation stored merged = same_content stored merged >>= λ same.
      good (if same then m.generation stored else bump (m.generation stored))

module _ {O V T : Type 0} (m : Meta O V) (s : Store O T) where
  unfoldable pub stamp_generation : T → String → O → String → Result O
  stamp_generation t kind o ns = guard_error (m.accessor o) (elim (s.get t kind ns (m.name o)) [
    | bad not_found ↦ good o
    | bad e ↦ bad e
    | good stored ↦
        guard_error (m.accessor stored)
          (next_generation m stored o >>= λ gen. good (m.set_generation gen o))
  ])

  -- A stamped object goes to the tracker below; an error returns before that.
  unfoldable pub write_stamped : T → O → Result O → (O → T × Option Error) → O × T × Option Error
  write_stamped t o (bad e) write = (o, t, some e)
  write_stamped t o (good o') write = let r = write o' in (o', r.0, r.1)

  unfoldable pub update : T → String → O → String → O × T × Option Error
  update t kind o ns =
      write_stamped t o (stamp_generation t kind o ns) (λ o'. s.update t kind o' ns)

  unfoldable pub patch : T → String → O → String → O × T × Option Error
  patch t kind o ns = write_stamped t o (stamp_generation t kind o ns) (λ o'. s.patch t kind o' ns)

  unfoldable pub add : T → O → O × T × Option Error
  add t o =
      write_stamped t o
        (guard_error (m.accessor o)
          (elim (m.validate o) [ some e ↦ bad (invalid_fields e) | none ↦ default_generation m o ]))
        (λ o'. s.add t o')

  unfoldable pub create : T → String → O → String → O × T × Option Error
  create t kind o ns =
      write_stamped t o (guard_error (m.accessor o) (good (m.set_generation (pos 1) o)))
        (λ o'. s.create t kind o' ns)

  -- `if err := ...; err != nil` on a write to the scratch tracker.
  unfoldable pub written {ℓ} : {A : Type ℓ} → T × Option Error → (T → Result A) → Result A
  written (t, none) f = f t
  written (t, some e) f = bad e

  -- The merge is made on a scratch tracker. `manager` is the options' field manager, "" with none.
  unfoldable pub applied_generation : String → O → O → String → String → Result ℤ
  applied_generation kind stored cfg ns manager = guard_error (m.accessor stored) (
      written (s.add s.new_scratch stored) (λ t₁.
        written (s.apply t₁ kind cfg ns manager true) (λ t₂.
          guard_error (m.accessor cfg)
            (s.get t₂ kind ns (m.name cfg) >>= λ merged. merged_generation m stored merged))))

  unfoldable pub apply : T → String → O → String → String → Bool → O × T × Option Error
  apply t kind cfg ns manager force =
      write_stamped t cfg
        (guard_error (m.accessor cfg) (elim (s.get t kind ns (m.name cfg)) [
          | bad not_found ↦ good (m.set_generation (pos 1) cfg)
          | bad e ↦ bad e
          | good stored ↦ applied_generation kind stored cfg ns manager >>= λ gen.
              good (m.set_generation gen cfg)
        ]))
        (λ cfg'. s.apply t kind cfg' ns manager force)
