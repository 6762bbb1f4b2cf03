-- ===== src/Gc/Collect.antt =====
-- ctrltest/gc.go. Each function returns the server's state and the writes it has asked for.
use testkit.Prelude.{
  List, [], ◌∷◌, Option, none, some, Bool, true, false, not, ◌&&◌, ◌||◌, String, str_eq,
  if◌then◌else◌,
}
use testkit.Gc.Types.{
  Key, key_eq, OwnerRef, Meta, Error, not_found, conflict, failed, Reply, good, bad, Server, Write,
  deletes, strips,
}

-- ownerResolution.
pub record Resolution : Type 0 where
  pub found : Bool
  pub uid : String
  pub deleting_dependents : Bool

unfoldable pub has_text : String → List String → Bool
has_text s [] = false
has_text s (t ∷ ts) = str_eq t s || has_text s ts

unfoldable pub references_uid : List OwnerRef → String → Bool
references_uid [] uid = false
references_uid (r ∷ rs) uid = str_eq r.uid uid || references_uid rs uid

unfoldable pub without : (String → Bool) → List OwnerRef → List OwnerRef
without drop [] = []
without drop (r ∷ rs) = if drop r.uid then without drop rs else r ∷ without drop rs

unfoldable pub other_finalizers : String → List String → List String
other_finalizers f [] = []
other_finalizers f (x ∷ xs) =
    if str_eq x f then other_finalizers f xs else x ∷ other_finalizers f xs

unfoldable pub absent : Resolution
absent = record { found = false; uid = ""; deleting_dependents = false }

unfoldable pub resolved : Meta → Resolution
resolved m = record {
  found = true;
  uid = m.uid;
  deleting_dependents = m.deleting && has_text "foregroundDeletion" m.finalizers;
}

unfoldable pub cached : Key → List (Key × Resolution) → Option Resolution
cached k [] = none
cached k ((x, r) ∷ c) = if key_eq x k then some r else cached k c

-- The cache of one sweep; `none` is the nil cache.
abbrev pub Cache : Type 0
Cache = Option (List (Key × Resolution))

unfoldable pub look_up : Key → Cache → Option Resolution
look_up k none = none
look_up k (some c) = cached k c

unfoldable pub remember : Key → Resolution → Cache → Cache
remember k r none = none
remember k r (some c) = some ((k, r) ∷ c)

module _ {W : Type 0} (s : Server W) where
  -- The answer of a Get; an error that is not NotFound is not cached.
  unfoldable pub resolve_read : Key → Cache → W × Reply Meta → W × Cache × Option Resolution
  resolve_read k c (w, good m) = (w, remember k (resolved m) c, some (resolved m))
  resolve_read k c (w, bad not_found) = (w, remember k absent c, some absent)
  resolve_read k c (w, bad conflict) = (w, c, none)
  resolve_read k c (w, bad (failed e)) = (w, c, none)

  unfoldable pub resolve_key : W → Cache → Key → W × Cache × Option Resolution
  resolve_key w c k = elim (look_up k c) [
    | some r ↦ (w, c, some r)
    | none ↦ resolve_read k c (s.get w k)
  ]

  unfoldable pub resolve_owner : W → Cache → OwnerRef → String → W × Cache × Option Resolution
  resolve_owner w c ref namespace = elim (s.mapping ref.api_version ref.kind) [
    | none ↦ (w, c, none)
    | some namespaced ↦ resolve_key w c (record {
      api_version = ref.api_version;
      kind = ref.kind;
      namespace = if namespaced then namespace else "";
      name = ref.name;
    })
  ]

  -- Does a reference point at nothing, or at another object of the same name.
  unfoldable pub dangles : OwnerRef → Option Resolution → Bool
  dangles ref none = false
  dangles ref (some r) = not r.found || not (str_eq r.uid ref.uid)

  -- `ownerDangling` over an object's references, up to the first that does not dangle.
  unfoldable pub all_dangle : W → Cache → List OwnerRef → String → W × Cache × Bool
  all_dangle w c [] namespace = (w, c, true)
  all_dangle w c (ref ∷ refs) namespace =
      let r = resolve_owner w c ref namespace in
      let rest = all_dangle r.0 r.1 refs namespace in
      if dangles ref r.2 then rest else (r.0, r.1, false)

  unfoldable pub strip_owner_refs : W → Meta → (String → Bool) → W × Option Error × List Write
  strip_owner_refs w live drop =
      let r = s.patch_owners w live.key live.resource_version (without drop live.owners) in
      (r.0, r.1, strips live.key live.resource_version (without drop live.owners) r.1 ∷ [])

  -- After a conflict: the same object with the owners it was judged on is deleted under its UID.
  unfoldable pub delete_again : Meta → W × Reply Meta → W × List Write
  delete_again live (w, bad e) = (w, [])
  delete_again live (w, good again) =
      if not (str_eq again.uid live.uid)
        || str_eq again.resource_version live.resource_version
        || not (s.same_owners again.owners live.owners)
      then (w, [])
      else (let r = s.delete w again.key live.uid none in
          (r.0, deletes again.key live.uid none r.1 ∷ []))

  unfoldable pub delete_live_on : Meta → W × Option Error → W × List Write
  delete_live_on live (w, some conflict) = delete_again live (s.get w live.key)
  delete_live_on live (w, some not_found) = (w, [])
  delete_live_on live (w, some (failed e)) = (w, [])
  delete_live_on live (w, none) = (w, [])

  unfoldable pub delete_live : W → Meta → W × List Write
  delete_live w live =
      let r = s.delete w live.key live.uid (some live.resource_version) in
      let q = delete_live_on live r in
      (q.0, deletes live.key live.uid (some live.resource_version) r.1 ∷ q.1)

  -- What the references of a live object say: is an owner solid, and which owners are not. `none`
  -- where one cannot be resolved.
  unfoldable pub classified : OwnerRef → Resolution → Bool × List String → Bool × List String
  classified ref r (solid, gone) =
      if not r.found || not (str_eq r.uid ref.uid) || r.deleting_dependents
      then (solid, ref.uid ∷ gone)
      else (true, gone)

  unfoldable pub judged :
      W
      → OwnerRef
      → Option Resolution
      → W × Option (Bool × List String)
      → W × Option (Bool × List String)
  judged w ref none rest = (w, none)
  judged w ref (some r) (w', none) = (w', none)
  judged w ref (some r) (w', some v) = (w', some (classified ref r v))

  unfoldable pub classify : W → List OwnerRef → String → W × Option (Bool × List String)
  classify w [] namespace = (w, some (false, []))
  classify w (ref ∷ refs) namespace =
      let r = resolve_owner w none ref namespace in judged r.0 ref r.2 (classify r.0 refs namespace)

  unfoldable pub act : Meta → W × Option (Bool × List String) → W × List Write
  act live (w, none) = (w, [])
  act live (w, some (false, gone)) = delete_live w live
  act live (w, some (true, [])) = (w, [])
  act live (w, some (true, g ∷ gs)) =
      let r = strip_owner_refs w live (λ uid. has_text uid (g ∷ gs)) in (r.0, r.2)

  unfoldable pub collect_live : Meta → W → W × List Write
  collect_live live w = elim live.owners [
    | [] ↦ (w, [])
    | r ∷ rs ↦ act live (classify w (r ∷ rs) live.key.namespace)
  ]

  unfoldable pub collect_read : W × Reply Meta → W × List Write
  collect_read (w, bad e) = (w, [])
  collect_read (w, good live) = collect_live live w

  -- `collect`: a listed object is only a name.
  unfoldable pub collect : W → Meta → W × List Write
  collect w listed = collect_read (s.get w listed.key)
