-- ===== src/Gc/Sweep.antt =====
-- ctrltest/gc.go: the finalizers, one pass over the listed objects, and one tick. RetryOnConflict
-- tries as often as its backoff has steps, which is an argument.
use testkit.Prelude.{
  ℕ, zero, suc, List, [], ◌∷◌, ◌++◌, Option, none, some, Bool, true, false, not, ◌&&◌, ◌||◌, String,
  str_eq, if◌then◌else◌,
}
use testkit.Gc.Types.{
  OwnerRef, Meta, Error, not_found, conflict, failed, Reply, good, bad, Server, Write, finalizes,
}
use testkit.Gc.Collect.{
  has_text, references_uid, other_finalizers, Cache, all_dangle, strip_owner_refs, collect,
}

-- The writes before those of what follows.
unfoldable pub noted : {W : Type 0} → List Write → W × List Write → W × List Write
noted xs (w, ys) = (w, xs ++ ys)

unfoldable pub is_conflict : Option Error → Bool
is_conflict none = false
is_conflict (some not_found) = false
is_conflict (some conflict) = true
is_conflict (some (failed e)) = false

module _ {W : Type 0} (s : Server W) where
  -- One try of removeFinalizer after its read; `again` is the next try.
  unfoldable pub finalize_read :
      Meta → String → (W → W × List Write) → W × Reply Meta → W × List Write
  finalize_read owner f again (w, bad not_found) = (w, [])
  finalize_read owner f again (w, bad (failed e)) = (w, [])
  finalize_read owner f again (w, bad conflict) = again w
  finalize_read owner f again (w, good live) =
      if not (str_eq live.uid owner.uid) || not (has_text f live.finalizers)
      then (w, [])
      else (let kept = other_finalizers f live.finalizers in
          let r = s.patch_finalizers w live.key live.resource_version kept in
          noted (finalizes live.key live.resource_version kept r.1 ∷ [])
            (if is_conflict r.1 then again r.0 else (r.0, [])))

  unfoldable pub remove_finalizer : ℕ → Meta → String → W → W × List Write
  remove_finalizer zero owner f w = (w, [])
  remove_finalizer (suc tries) owner f w =
      finalize_read owner f (remove_finalizer tries owner f) (s.get w owner.key)

  -- The dependents among the listed objects: is there one, and what collecting them does.
  unfoldable pub collect_dependents : W → Meta → List Meta → W × Bool × List Write
  collect_dependents w owner [] = (w, false, [])
  collect_dependents w owner (dep ∷ deps) =
      let hit = references_uid dep.owners owner.uid in
      let r = if hit then collect s w dep else (w, []) in
      let q = collect_dependents r.0 owner deps in (q.0, hit || q.1, r.1 ++ q.2)

  unfoldable pub foreground : ℕ → W → Meta → List Meta → W × List Write
  foreground tries w owner objs =
      let r = collect_dependents w owner objs in
      noted r.2 (if r.1 then (r.0, []) else remove_finalizer tries owner "foregroundDeletion" r.0)

  unfoldable pub landed : Option Error → Bool
  landed none = true
  landed (some not_found) = true
  landed (some conflict) = false
  landed (some (failed e)) = false

  unfoldable pub orphan_read : Meta → W × Reply Meta → W × Bool × List Write
  orphan_read owner (w, bad not_found) = (w, true, [])
  orphan_read owner (w, bad conflict) = (w, false, [])
  orphan_read owner (w, bad (failed e)) = (w, false, [])
  orphan_read owner (w, good live) =
      if references_uid live.owners owner.uid
      then (let r = strip_owner_refs s w live (λ uid. str_eq uid owner.uid) in
          (r.0, landed r.1, r.2))
      else (w, true, [])

  unfoldable pub orphan_all : W → Meta → List Meta → W × Bool × List Write
  orphan_all w owner [] = (w, true, [])
  orphan_all w owner (dep ∷ deps) =
      let r =
        if references_uid dep.owners owner.uid
        then orphan_read owner (s.get w dep.key)
        else (w, true, []) in
      let q = orphan_all r.0 owner deps in (q.0, r.1 && q.1, r.2 ++ q.2)

  unfoldable pub orphan : ℕ → W → Meta → List Meta → W × List Write
  orphan tries w owner objs =
      let r = orphan_all w owner objs in
      noted r.2 (if r.1 then remove_finalizer tries owner "orphan" r.0 else (r.0, []))

  -- The two finalizers of one object.
  unfoldable pub finalizers_of : ℕ → W → Meta → List Meta → W × List Write
  finalizers_of tries w obj objs =
      if not obj.deleting
      then (w, [])
      else (if has_text "foregroundDeletion" obj.finalizers
          then foreground tries w obj objs
          else (if has_text "orphan" obj.finalizers then orphan tries w obj objs else (w, [])))

  unfoldable pub finalizers_all : ℕ → W → List Meta → List Meta → W × List Write
  finalizers_all tries w [] objs = (w, [])
  finalizers_all tries w (obj ∷ more) objs =
      let r = finalizers_of tries w obj objs in noted r.1 (finalizers_all tries r.0 more objs)

  -- One object of the background pass, with the sweep's cache.
  unfoldable pub background_refs : W → Cache → Meta → List OwnerRef → W × Cache × List Write
  background_refs w c obj [] = (w, c, [])
  background_refs w c obj (r ∷ rs) =
      let d = all_dangle s w c (r ∷ rs) obj.key.namespace in
      let q = if d.2 then collect s d.0 obj else (d.0, []) in (q.0, d.1, q.1)

  unfoldable pub background_one : W → Cache → Meta → W × Cache × List Write
  background_one w c obj = background_refs w c obj obj.owners

  unfoldable pub background : W → Cache → List Meta → W × List Write
  background w c [] = (w, [])
  background w c (obj ∷ more) =
      let r = background_one w c obj in noted r.2 (background r.0 r.1 more)

  unfoldable pub sweep : ℕ → W → List Meta → W × List Write
  sweep tries w objs =
      let r = finalizers_all tries w objs objs in noted r.1 (background r.0 (some []) objs)

  -- `listWatched`: an error ends it.
  unfoldable pub put_first : List Meta → W × Reply (List Meta) → W × Reply (List Meta)
  put_first objs (w, bad e) = (w, bad e)
  put_first objs (w, good more) = (w, good (objs ++ more))

  unfoldable pub list_more :
      W × Reply (List Meta) → (W → W × Reply (List Meta)) → W × Reply (List Meta)
  list_more (w, bad e) next = (w, bad e)
  list_more (w, good objs) next = put_first objs (next w)

  unfoldable pub list_all : W → List String → W × Reply (List Meta)
  list_all w [] = (w, good [])
  list_all w (k ∷ ks) = list_more (s.list_kind w k) (λ w'. list_all w' ks)

  -- `tickGC`, where GarbageCollection is set and there is a RESTMapper.
  unfoldable pub sweep_listed : ℕ → W × Reply (List Meta) → W × List Write
  sweep_listed tries (w, bad e) = (w, [])
  sweep_listed tries (w, good objs) = sweep tries w objs

  unfoldable pub tick : Bool → ℕ → List String → W → W × List Write
  tick enabled tries kinds w = if enabled then sweep_listed tries (list_all w kinds) else (w, [])
