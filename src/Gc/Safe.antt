-- ===== src/Gc/Safe.antt =====
-- When collect (ctrltest/gc.go) deletes.
use testkit.Prelude.{
  List, [], ◌∷◌, Option, none, some, Bool, true, false, not, ◌&&◌, ◌||◌, String, str_eq,
  if◌then◌else◌, ◌≡◌, refl, sym, ap, subst, ◌∙◌, ◌≢◌, ◌⊎◌, inl, inr, Bool-cases, Option-cases, In,
  here, there,
}
use testkit.Gc.Types.{
  Key, OwnerRef, Meta, Error, not_found, conflict, failed, Reply, good, bad, Server, deletes,
  strips,
}
use testkit.Gc.Collect.{
  Resolution, has_text, absent, resolved, look_up, resolve_read, resolve_key, resolve_owner,
  strip_owner_refs, delete_again, delete_live_on, delete_live, classified, judged, classify, act,
  collect_live, collect_read, collect,
}

gone_cases :
    (same d f : Bool) → (not same || d && f) ≡ true → (same ≡ false) ⊎ ((d ≡ true) × (f ≡ true))
gone_cases false d f e = inl refl
gone_cases true true true e = inr (refl, refl)
gone_cases true true false e = cc
gone_cases true false f e = cc

module _ {W : Type 0} (s : Server W) where
  -- An answer that an owner is absent, is another object of that name, or is in foreground deletion.
  abbrev pub GoneReply : OwnerRef → Reply Meta → Type 0
  GoneReply ref (good m) =
      (str_eq m.uid ref.uid ≡ false)
      ⊎ ((m.deleting ≡ true) × (has_text "foregroundDeletion" m.finalizers ≡ true))
  GoneReply ref (bad not_found) = Unit
  GoneReply ref (bad conflict) = ⊥
  GoneReply ref (bad (failed e)) = ⊥

  -- Where a reference from a namespace points.
  abbrev pub owner_key : OwnerRef → Bool → String → Key
  owner_key ref namespaced namespace = record {
    api_version = ref.api_version;
    kind = ref.kind;
    namespace = if namespaced then namespace else "";
    name = ref.name;
  }

  -- The server, asked for the owner in this very state, gives such an answer.
  pub record Gone (w : W) (namespace : String) (ref : OwnerRef) : Type 0 where
    pub namespaced : Bool
    pub mapped : s.mapping ref.api_version ref.kind ≡ some namespaced
    pub answer : GoneReply ref (s.get w (owner_key ref namespaced namespace)).1

  -- Each owner is gone, in the state behind the read of the owner before it.
  abbrev pub AllGone : W → String → List OwnerRef → Type 0
  AllGone w namespace [] = Unit
  AllGone w namespace (ref ∷ refs) =
      (g : Gone w namespace ref) × AllGone (s.get w (owner_key ref g.namespaced namespace)).0
        namespace refs

  abbrev pub not_solid : OwnerRef → Resolution → Bool
  not_solid ref r = not r.found || not (str_eq r.uid ref.uid) || r.deleting_dependents

  resolve_read-Gone :
      (k : Key) (ref : OwnerRef) (q : W × Reply Meta) (r : Resolution)
      → (resolve_read s k none q).2 ≡ some r
      → not_solid ref r ≡ true
      → GoneReply ref q.1
  unfolding resolve_read absent resolved
  resolve_read-Gone k ref (w, good m) r e n =
      let z : resolved m ≡ r = cc in
      gone_cases (str_eq m.uid ref.uid) m.deleting (has_text "foregroundDeletion" m.finalizers)
        (subst (λ x. not_solid ref x ≡ true) (sym z) n)
  resolve_read-Gone k ref (w, bad not_found) r e n = tt
  resolve_read-Gone k ref (w, bad conflict) r e n = cc
  resolve_read-Gone k ref (w, bad (failed x)) r e n = cc

  resolve_read_next : (k : Key) (q : W × Reply Meta) → (resolve_read s k none q).0 ≡ q.0
  unfolding resolve_read
  resolve_read_next k (w, good m) = refl
  resolve_read_next k (w, bad not_found) = refl
  resolve_read_next k (w, bad conflict) = refl
  resolve_read_next k (w, bad (failed x)) = refl

  -- A reference that is resolved has been read from the server: what follows is behind that read.
  pub record Asked (w : W) (namespace : String) (ref : OwnerRef) (r : Resolution) : Type 0 where
    pub namespaced : Bool
    pub mapped : s.mapping ref.api_version ref.kind ≡ some namespaced
    pub next :
        (resolve_owner s w none ref namespace).0 ≡ (s.get w (owner_key ref namespaced namespace)).0
    pub gone :
        not_solid ref r ≡ true → GoneReply ref (s.get w (owner_key ref namespaced namespace)).1

  pub resolve_owner-Asked :
      (w : W) (ref : OwnerRef) (namespace : String) (r : Resolution)
      → (resolve_owner s w none ref namespace).2 ≡ some r
      → Asked w namespace ref r
  unfolding resolve_owner resolve_key look_up
  resolve_owner-Asked w ref namespace r e =
      elim (Option-cases (s.mapping ref.api_version ref.kind)) [
        | inl m ↦ absurd (unmapped (rw (m, resolve_owner) at e))
        | inr (b, m) ↦ record {
          namespaced = b;
          mapped = m;
          next =
              rw (m, resolve_owner)
                (resolve_read_next (owner_key ref b namespace)
                  (s.get w (owner_key ref b namespace)));
          gone = λ n.
              resolve_read-Gone (owner_key ref b namespace) ref
                (s.get w (owner_key ref b namespace)) r (rw (m, resolve_owner) at e) n;
        }
      ]
    where
      unmapped : ◌≡◌ {A = Option Resolution} none (some r) → ⊥
      unmapped q = cc

  classified-false :
      (ref : OwnerRef) (r : Resolution) (v : Bool × List String) (gone : List String)
      → classified s ref r v ≡ (false, gone)
      → (not_solid ref r ≡ true) × (v.0 ≡ false)
  unfolding classified
  classified-false ref r (solid, g) gone e = elim (Bool-cases (not_solid ref r)) [
    | inl t ↦ (t, ap (λ (x : Bool × List String). x.0) (rw (t, classified) at e))
    | inr f ↦ absurd (kept (ap (λ (x : Bool × List String). x.0) (rw (f, classified) at e)))
  ]
    where
      kept : true ≡ false → ⊥
      kept q = cc

  -- A classification without a solid owner has seen each of them gone.
  classify-Gone :
      (w : W) (refs : List OwnerRef) (namespace : String) (gone : List String)
      → (classify s w refs namespace).1 ≡ some (false, gone)
      → AllGone w namespace refs
  unfolding classify judged
  classify-Gone w [] namespace gone e = tt
  classify-Gone w (ref ∷ refs) namespace gone e =
      split (resolve_owner s w none ref namespace).2 refl
        (classify s (resolve_owner s w none ref namespace).0 refs namespace) refl e
        (λ g q. classify-Gone (resolve_owner s w none ref namespace).0 refs namespace g q)
    where
      split :
          (o : Option Resolution)
          → (resolve_owner s w none ref namespace).2 ≡ o
          → (q : W × Option (Bool × List String))
          → classify s (resolve_owner s w none ref namespace).0 refs namespace ≡ q
          → (judged s (resolve_owner s w none ref namespace).0 ref o q).1 ≡ some (false, gone)
          → ((g : List String)
              → (classify s (resolve_owner s w none ref namespace).0 refs namespace).1
                ≡ some (false, g)
              → AllGone (resolve_owner s w none ref namespace).0 namespace refs)
          → AllGone w namespace (ref ∷ refs)
      split none a q b f rec = cc
      split (some r) a (w', none) b f rec = cc
      split (some r) a (w', some (solid, g)) b f rec =
          let c : classified s ref r (solid, g) ≡ (false, gone) = cc in
          let (n, z) = classified-false ref r (solid, g) gone c in
          let q = resolve_owner-Asked w ref namespace r a in
          (
            record { namespaced = q.namespaced; mapped = q.mapped; answer = q.gone n },
            subst (λ x. AllGone x namespace refs) q.next
                (rec g
                  (ap (λ (x : W × Option (Bool × List String)). x.1) b ∙ ap (λ x. some (x, g)) z)),
          )

  deletes-uid :
      {k k' : Key} {u u' : String} {v v' : Option String} {x x' : Option Error}
      → deletes k u v x ≡ deletes k' u' v' x'
      → u' ≡ u
  deletes-uid q = cc

  -- Deletions stand only in what delete_live asks for, under the UID of the live object.
  delete_again-In :
      (live : Meta) (q : W × Reply Meta) (k : Key) (uid : String) (rv : Option String)
      (e : Option Error)
      → In (deletes k uid rv e) (delete_again s live q).1
      → live.uid ≡ uid
  unfolding delete_again
  delete_again-In live (w, bad x) k uid rv e h = elim h [ ]
  delete_again-In live (w, good again) k uid rv e h =
      elim (Bool-cases (
        not (str_eq again.uid live.uid)
        || str_eq again.resource_version live.resource_version
        || not (s.same_owners again.owners live.owners))) [
          | inl t ↦ nothing (rw (t, delete_again) at h)
          | inr f ↦ one (rw (f, delete_again) at h)
        ]
    where
      nothing : In (deletes k uid rv e) [] → live.uid ≡ uid
      nothing h = elim h [ ]

      one :
          {x : Option Error}
          → In (deletes k uid rv e) (deletes again.key live.uid none x ∷ [])
          → live.uid ≡ uid
      one (here q) = deletes-uid q
      one (there h) = elim h [ ]

  delete_live_on-In :
      (live : Meta) (q : W × Option Error) (k : Key) (uid : String) (rv : Option String)
      (e : Option Error)
      → In (deletes k uid rv e) (delete_live_on s live q).1
      → live.uid ≡ uid
  unfolding delete_live_on
  delete_live_on-In live (w, none) k uid rv e h = elim h [ ]
  delete_live_on-In live (w, some not_found) k uid rv e h = elim h [ ]
  delete_live_on-In live (w, some (failed x)) k uid rv e h = elim h [ ]
  delete_live_on-In live (w, some conflict) k uid rv e h =
      delete_again-In live (s.get w live.key) k uid rv e h

  delete_live-In :
      (w : W) (live : Meta) (k : Key) (uid : String) (rv : Option String) (e : Option Error)
      → In (deletes k uid rv e) (delete_live s w live).1
      → live.uid ≡ uid
  unfolding delete_live
  delete_live-In w live k uid rv e (here q) = deletes-uid q
  delete_live-In w live k uid rv e (there h) =
      delete_live_on-In live (s.delete w live.key live.uid (some live.resource_version)) k uid rv e
        h

  -- What `act` deletes, it has classified as without a solid owner.
  act-In :
      (live : Meta) (q : W × Option (Bool × List String)) (k : Key) (uid : String)
      (rv : Option String) (e : Option Error)
      → In (deletes k uid rv e) (act s live q).1
      → (gone : List String) × (q.1 ≡ some (false, gone)) × (live.uid ≡ uid)
  unfolding act strip_owner_refs
  act-In live (w, none) k uid rv e h = elim h [ ]
  act-In live (w, some (false, gone)) k uid rv e h =
      (gone, refl, delete_live-In w live k uid rv e h)
  act-In live (w, some (true, [])) k uid rv e h = elim h [ ]
  act-In live (w, some (true, g ∷ gs)) k uid rv e h = absurd (stripped h)
    where
      stripped :
          {k' : Key} {v : String} {l : List OwnerRef} {x : Option Error}
          → In (deletes k uid rv e) (strips k' v l x ∷ [])
          → ⊥
      stripped (here q) = cc
      stripped (there h) = elim h [ ]

  -- One live object.
  collect_live-In :
      (live : Meta) (w : W) (refs : List OwnerRef) (k : Key) (uid : String) (rv : Option String)
      (e : Option Error)
      → live.owners ≡ refs
      → In (deletes k uid rv e) (collect_live s live w).1
      → (live.uid ≡ uid) × (live.owners ≢ []) × AllGone w live.key.namespace live.owners
  unfolding collect_live
  collect_live-In live w [] k uid rv e o h = absurd (nothing (rw (o, collect_live) at h))
    where
      nothing : In (deletes k uid rv e) [] → ⊥
      nothing h = elim h [ ]
  collect_live-In live w (r ∷ rs) k uid rv e o h =
      let (gone, c, u) =
        act-In live (classify s w (r ∷ rs) live.key.namespace) k uid rv e
          (rw (o, collect_live) at h) in
      (
        u,
        λ n. filled (sym n ∙ o),
        subst (AllGone w live.key.namespace) (sym o)
            (classify-Gone w (r ∷ rs) live.key.namespace gone c),
      )
    where
      filled : ◌≡◌ {A = List OwnerRef} [] (r ∷ rs) → ⊥
      filled q = cc

  -- Whatever else happens to the store meanwhile, each deletion that collect asks for carries the UID
  -- of the object as its own first read, in the state in which collect starts, has found it live with
  -- at least one owner; and to collect's reads of those owners, each in the state behind the read
  -- before, the server answers that the owner is absent, is another object of that name, or is in
  -- foreground deletion.
  pub collect_deletes_lem :
      (w : W) (listed : Meta) (k : Key) (uid : String) (rv : Option String) (e : Option Error)
      → In (deletes k uid rv e) (collect s w listed).1
      → (w' : W) × (live : Meta) × (s.get w listed.key ≡ (w', good live))
        × (live.uid ≡ uid)
        × (live.owners ≢ [])
        × AllGone w' live.key.namespace live.owners
  unfolding collect collect_read
  collect_deletes_lem w listed k uid rv e h = read (s.get w listed.key) refl h
    where
      read :
          (q : W × Reply Meta)
          → s.get w listed.key ≡ q
          → In (deletes k uid rv e) (collect_read s q).1
          → (w' : W) × (live : Meta) × (s.get w listed.key ≡ (w', good live))
            × (live.uid ≡ uid)
            × (live.owners ≢ [])
            × AllGone w' live.key.namespace live.owners
      read (w', bad x) g h = elim h [ ]
      read (w', good live) g h =
          let (u, n, a) = collect_live-In live w' live.owners k uid rv e refl h in
          (w', live, g, u, n, a)
