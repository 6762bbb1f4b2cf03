-- ===== src/Fakeapi/WriteBack.antt =====
-- fakeapi/writeback.go: after a Create or an Update through the client, the caller's object holds the
-- generation that the store holds. A call returns the caller's object, the client's state, the error.
use testkit.Prelude.{
  Option, none, some, Bool, true, false, not, if◌then◌else◌, ◌≡◌, refl, ◌∙◌, ◌⊎◌, inl, inr,
  Bool-cases,
}
use testkit.Prelude.Int.{ℤ}
use testkit.Fakeapi.Types.{
  Error, not_found, failed, invalid_fields, not_unstructured, not_client_object, not_read_back,
  Result, good, bad,
}

-- The client below, and what the code asks of an object. The Boolean of a write is a dry run.
pub record Client (O T : Type 0) : Type 0 where
  pub create : T → O → Bool → O × T × Option Error
  pub update : T → O → Bool → O × T × Option Error
  pub get : T → O → Result O
  -- An Unstructured or a PartialObjectMetadata.
  pub untyped : O → Bool
  -- Is its copy a client.Object.
  pub copies : O → Bool
  pub generation : O → ℤ
  pub set_generation : ℤ → O → O

-- The setter sets, and Get reads by the name and namespace alone.
pub record ClientLaws {O T : Type 0} (c : Client O T) : Type 0 where
  pub generation_set : (g : ℤ) (o : O) → c.generation (c.set_generation g o) ≡ g
  pub get_set : (t : T) (g : ℤ) (o : O) → c.get t (c.set_generation g o) ≡ c.get t o

module _ {O T : Type 0} (c : Client O T) where
  unfoldable pub copied_back : O → Result O → O × Option Error
  copied_back o (good stored) = (c.set_generation (c.generation stored) o, none)
  copied_back o (bad not_found) = (o, none)
  copied_back o (bad (failed e)) = (o, some (not_read_back (failed e)))
  copied_back o (bad (invalid_fields e)) = (o, some (not_read_back (invalid_fields e)))
  copied_back o (bad (not_unstructured e)) = (o, some (not_read_back (not_unstructured e)))
  copied_back o (bad not_client_object) = (o, some (not_read_back not_client_object))
  copied_back o (bad (not_read_back e)) = (o, some (not_read_back (not_read_back e)))

  unfoldable pub write_back_generation : T → O → O × Option Error
  write_back_generation t o =
      if not (c.untyped o)
      then (o, none)
      else (if c.copies o then copied_back o (c.get t o) else (o, some not_client_object))

  -- What follows the write.
  unfoldable pub written_back : Bool → O × T × Option Error → O × T × Option Error
  written_back dry (o, t, some e) = (o, t, some e)
  written_back dry (o, t, none) =
      if dry then (o, t, none) else (let q = write_back_generation t o in (q.0, t, q.1))

  -- `next` is the test's own interceptor, where it has one.
  unfoldable pub called :
      Option (T → O → Bool → O × T × Option Error)
      → (T → O → Bool → O × T × Option Error)
      → T
      → O
      → Bool
      → O × T × Option Error
  called none own = own
  called (some next) own = next

  unfoldable pub create_func :
      Option (T → O → Bool → O × T × Option Error) → T → O → Bool → O × T × Option Error
  create_func next t o dry = written_back dry (called next c.create t o dry)

  unfoldable pub update_func :
      Option (T → O → Bool → O × T × Option Error) → T → O → Bool → O × T × Option Error
  update_func next t o dry = written_back dry (called next c.update t o dry)

  -- The object reports what Get reports of it, or Get does not find it.
  abbrev pub Agrees : O × T × Option Error → Type 0
  Agrees (o, t, e) =
      (c.get t o ≡ bad not_found)
      ⊎ ((stored : O) × (c.get t o ≡ good stored) × (c.generation o ≡ c.generation stored))

module _ {O T : Type 0} (c : Client O T) (laws : ClientLaws c) where
  copied_back-Agrees :
      (o : O) (t : T) (q : Result O)
      → c.get t o ≡ q
      → (copied_back c o q).1 ≡ none
      → Agrees c ((copied_back c o q).0, t, (copied_back c o q).1)
  unfolding copied_back
  copied_back-Agrees o t (good stored) g e = inr (
    stored,
    laws.get_set t (c.generation stored) o ∙ g,
    laws.generation_set (c.generation stored) o,
  )
  copied_back-Agrees o t (bad not_found) g e = inl g
  copied_back-Agrees o t (bad (failed x)) g e = cc
  copied_back-Agrees o t (bad (invalid_fields x)) g e = cc
  copied_back-Agrees o t (bad (not_unstructured x)) g e = cc
  copied_back-Agrees o t (bad not_client_object) g e = cc
  copied_back-Agrees o t (bad (not_read_back x)) g e = cc

  written_back-Agrees :
      (r : O × T × Option Error)
      → c.untyped r.0 ≡ true
      → (written_back c false r).2 ≡ none
      → Agrees c (written_back c false r)
  unfolding written_back write_back_generation
  written_back-Agrees (o, t, some e) u n = cc
  written_back-Agrees (o, t, none) u n = elim (Bool-cases (c.copies o)) [
    | inl b ↦ rw (u, b) (copied_back-Agrees o t (c.get t o) refl (rw (u, b) at n))
    | inr b ↦ absurd (refused (rw (u, b) at n))
  ]
    where
      refused : some not_client_object ≡ none → ⊥
      refused q = cc

  -- After a Create or an Update through the client that is no dry run and returns no error, an object
  -- that is untyped as the write leaves it reports the generation that a Get of it reports, unless Get
  -- does not find it.
  pub write_back_lem :
      (next : Option (T → O → Bool → O × T × Option Error)) (t : T) (o : O)
      → c.untyped (called c next c.create t o false).0 ≡ true
      → c.untyped (called c next c.update t o false).0 ≡ true
      → ((create_func c next t o false).2 ≡ none → Agrees c (create_func c next t o false))
        × ((update_func c next t o false).2 ≡ none → Agrees c (update_func c next t o false))
  unfolding create_func update_func
  write_back_lem next t o u v = (
    written_back-Agrees (called c next c.create t o false) u,
    written_back-Agrees (called c next c.update t o false) v,
  )
