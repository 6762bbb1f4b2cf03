-- ===== src/Gc/Strip.antt =====
-- What collect (ctrltest/gc.go) strips.
use testkit.Prelude.{
  List, [], ◌∷◌, Option, none, some, Bool, true, false, not, ◌||◌, String, str_eq, eq_iff, ◌≡◌,
  refl, sym, ap, subst, ◌∙◌, ◌⊎◌, inl, inr, Bool-cases, In, here, there,
}
use testkit.Gc.Types.{
  Key, OwnerRef, Meta, Error, not_found, conflict, failed, Reply, good, bad, Server, deletes,
  strips,
}
use testkit.Gc.Collect.{
  Resolution, has_text, without, resolve_owner, strip_owner_refs, delete_again, delete_live_on,
  delete_live, classified, judged, classify, act, collect_live, collect_read, collect,
}
use testkit.Gc.Safe.{Gone, owner_key, not_solid, resolve_owner-Asked}

module _ {W : Type 0} (s : Server W) where
  -- A reference of that UID among these, read in turn from this state on, whose owner the server has
  -- answered is gone.
  pub data Departed (namespace uid : String) : W → List OwnerRef → Type 0 where
    this :
        {w : W} {ref : OwnerRef} {refs : List OwnerRef}
        → ref.uid ≡ uid
        → Gone s w namespace ref
        → Departed namespace uid w (ref ∷ refs)
    later :
        {w : W} {ref : OwnerRef} {refs : List OwnerRef} (namespaced : Bool)
        → s.mapping ref.api_version ref.kind ≡ some namespaced
        → Departed namespace uid (s.get w (owner_key s ref namespaced namespace)).0 refs
        → Departed namespace uid w (ref ∷ refs)

  classify-Departed :
      (w : W) (refs : List OwnerRef) (namespace uid : String) (v : Bool × List String)
      → (classify s w refs namespace).1 ≡ some v
      → has_text uid v.1 ≡ true
      → Departed namespace uid w refs
  unfolding classify judged has_text classified
  classify-Departed w [] namespace uid v e h = absurd (nobody (cc) h)
    where
      nobody : v ≡ (false, []) → has_text uid v.1 ≡ true → ⊥
      nobody q h =
          let z : has_text uid [] ≡ true =
            ap (λ (x : Bool × List String). has_text uid x.1) (sym q) ∙ h in
          cc
  classify-Departed w (ref ∷ refs) namespace uid v e h =
      split (resolve_owner s w none ref namespace).2 refl
        (classify s (resolve_owner s w none ref namespace).0 refs namespace) refl e
        (λ v' q k.
          classify-Departed (resolve_owner s w none ref namespace).0 refs namespace uid v' q k)
    where
      split :
          (o : Option Resolution)
          → (resolve_owner s w none ref namespace).2 ≡ o
          → (q : W × Option (Bool × List String))
          → classify s (resolve_owner s w none ref namespace).0 refs namespace ≡ q
          → (judged s (resolve_owner s w none ref namespace).0 ref o q).1 ≡ some v
          → ((v' : Bool × List String)
              → (classify s (resolve_owner s w none ref namespace).0 refs namespace).1 ≡ some v'
              → has_text uid v'.1 ≡ true
              → Departed namespace uid (resolve_owner s w none ref namespace).0 refs)
          → Departed namespace uid w (ref ∷ refs)
      split none a q b f rec = cc
      split (some r) a (w', none) b f rec = cc
      split (some r) a (w', some (solid, g)) b f rec =
          let c : classified s ref r (solid, g) ≡ v = cc in
          let hc : has_text uid (classified s ref r (solid, g)).1 ≡ true =
            ap (λ (x : Bool × List String). has_text uid x.1) c ∙ h in
          let q = resolve_owner-Asked s w ref namespace r a in
          let after = λ (k : has_text uid g ≡ true). later {ref = ref} q.namespaced q.mapped (
            subst (λ x. Departed namespace uid x refs) q.next
              (rec (solid, g) (ap (λ (x : W × Option (Bool × List String)). x.1) b) k)) in
          elim (Bool-cases (not_solid s ref r)) [
            | inr n ↦ after (rw (n, classified) at hc)
            | inl n ↦ elim (Bool-cases (str_eq ref.uid uid)) [
              | inl t ↦
                  this {ref = ref} ((eq_iff ref.uid uid).0 t)
                    (record { namespaced = q.namespaced; mapped = q.mapped; answer = q.gone n })
              | inr u ↦ after (rw (u, has_text) at (rw (n, classified) at hc))
            ]
          ]

  -- A reference that a strip does not keep is one that it drops.
  without-cases :
      (drop : String → Bool) (refs : List OwnerRef) (r : OwnerRef)
      → In r refs
      → In r (without drop refs) ⊎ (drop r.uid ≡ true)
  unfolding without
  without-cases drop [] r h = elim h [ ]
  without-cases drop (x ∷ xs) r (here e) = elim (Bool-cases (drop x.uid)) [
    | inl t ↦ inr (ap (λ (y : OwnerRef). drop y.uid) e ∙ t)
    | inr f ↦ inl (rw f (here e))
  ]
  without-cases drop (x ∷ xs) r (there h) = elim (without-cases drop xs r h) [
    | inr t ↦ inr t
    | inl k ↦ elim (Bool-cases (drop x.uid)) [ inl t ↦ inl (rw t k) | inr f ↦ inl (rw f (there k)) ]
  ]

  -- What a strip of a live object has to be: under its version, and each reference that is not in the
  -- new list shares its UID with one whose owner the server has answered is gone, `w` being the state
  -- behind the read of the live object.
  pub record Stripped (w : W) (live : Meta) (rv : String) (kept : List OwnerRef) : Type 0 where
    pub version : rv ≡ live.resource_version
    pub dropped :
        (r : OwnerRef)
        → In r live.owners
        → In r kept ⊎ Departed live.key.namespace r.uid w live.owners

  -- What a deletion asks for holds no strip.
  no_strip_again :
      (live : Meta) (q : W × Reply Meta) (k : Key) (rv : String) (l : List OwnerRef)
      (e : Option Error)
      → In (strips k rv l e) (delete_again s live q).1
      → ⊥
  unfolding delete_again
  no_strip_again live (w, bad x) k rv l e h = elim h [ ]
  no_strip_again live (w, good m) k rv l e h =
      elim (Bool-cases (
        not (str_eq m.uid live.uid)
        || str_eq m.resource_version live.resource_version
        || not (s.same_owners m.owners live.owners))) [
          | inl t ↦ nothing (rw (t, delete_again) at h)
          | inr f ↦ one (rw (f, delete_again) at h)
        ]
    where
      nothing : In (strips k rv l e) [] → ⊥
      nothing h = elim h [ ]

      one : {x : Option Error} → In (strips k rv l e) (deletes m.key live.uid none x ∷ []) → ⊥
      one (here q) = cc
      one (there h) = elim h [ ]

  no_strip_on :
      (live : Meta) (q : W × Option Error) (k : Key) (rv : String) (l : List OwnerRef)
      (e : Option Error)
      → In (strips k rv l e) (delete_live_on s live q).1
      → ⊥
  unfolding delete_live_on
  no_strip_on live (w, none) k rv l e h = elim h [ ]
  no_strip_on live (w, some not_found) k rv l e h = elim h [ ]
  no_strip_on live (w, some (failed x)) k rv l e h = elim h [ ]
  no_strip_on live (w, some conflict) k rv l e h = no_strip_again live (s.get w live.key) k rv l e h

  no_strip :
      (w : W) (live : Meta) (k : Key) (rv : String) (l : List OwnerRef) (e : Option Error)
      → In (strips k rv l e) (delete_live s w live).1
      → ⊥
  unfolding delete_live
  no_strip w live k rv l e (here q) = cc
  no_strip w live k rv l e (there h) =
      no_strip_on live (s.delete w live.key live.uid (some live.resource_version)) k rv l e h

  strips-fields :
      {k k' : Key} {v v' : String} {l l' : List OwnerRef} {x x' : Option Error}
      → strips k v l x ≡ strips k' v' l' x'
      → (v ≡ v') × (l ≡ l')
  strips-fields q = (cc, cc)

  act-Stripped :
      (w : W) (live : Meta) (q : W × Option (Bool × List String)) (k : Key) (rv : String)
      (l : List OwnerRef) (e : Option Error)
      → classify s w live.owners live.key.namespace ≡ q
      → In (strips k rv l e) (act s live q).1
      → Stripped w live rv l
  unfolding act strip_owner_refs
  act-Stripped w live (w', none) k rv l e c h = elim h [ ]
  act-Stripped w live (w', some (false, gone)) k rv l e c h = absurd (no_strip w' live k rv l e h)
  act-Stripped w live (w', some (true, [])) k rv l e c h = elim h [ ]
  act-Stripped w live (w', some (true, g ∷ gs)) k rv l e c (there h) = elim h [ ]
  act-Stripped w live (w', some (true, g ∷ gs)) k rv l e c (here q) =
      let (v, z) = strips-fields q in
      record {
        version = v;
        dropped = λ r m. elim (without-cases (λ uid. has_text uid (g ∷ gs)) live.owners r m) [
          | inl a ↦ inl (subst (In r) (sym z) a)
          | inr b ↦ inr (
              classify-Departed w live.owners live.key.namespace r.uid (true, g ∷ gs)
                (ap (λ (x : W × Option (Bool × List String)). x.1) c) b)
        ];
      }

  collect_live-Stripped :
      (live : Meta) (w : W) (refs : List OwnerRef) (k : Key) (rv : String) (l : List OwnerRef)
      (e : Option Error)
      → live.owners ≡ refs
      → In (strips k rv l e) (collect_live s live w).1
      → Stripped w live rv l
  unfolding collect_live
  collect_live-Stripped live w [] k rv l e o h = absurd (nothing (rw (o, collect_live) at h))
    where
      nothing : In (strips k rv l e) [] → ⊥
      nothing h = elim h [ ]
  collect_live-Stripped live w (r ∷ rs) k rv l e o h =
      act-Stripped w live (classify s w (r ∷ rs) live.key.namespace) k rv l e
        (ap (λ x. classify s w x live.key.namespace) o) (rw (o, collect_live) at h)

  -- Whatever else happens to the store meanwhile, a list of owner references that collect asks to
  -- write is sent under the resourceVersion of the object as collect's first read has found it, and
  -- each reference that the list leaves out shares its UID with one whose owner, to collect's read of
  -- it, in the state behind the reads of the owners before it, the server answers is absent, is another
  -- object of that name, or is in foreground deletion.
  pub collect_strips_lem :
      (w : W) (listed : Meta) (k : Key) (rv : String) (l : List OwnerRef) (e : Option Error)
      → In (strips k rv l e) (collect s w listed).1
      → (w' : W) × (live : Meta) × (s.get w listed.key ≡ (w', good live)) × Stripped w' live rv l
  unfolding collect collect_read
  collect_strips_lem w listed k rv l e h = read (s.get w listed.key) refl h
    where
      read :
          (q : W × Reply Meta)
          → s.get w listed.key ≡ q
          → In (strips k rv l e) (collect_read s q).1
          → (w' : W) × (live : Meta) × (s.get w listed.key ≡ (w', good live))
            × Stripped w' live rv l
      read (w', bad x) g h = elim h [ ]
      read (w', good live) g h =
          (w', live, g, collect_live-Stripped live w' live.owners k rv l e refl h)
