-- ===== src/Fakeapi/History.antt =====
-- A history of Updates of one object through generationTracker (fakeapi/tracker.go).
use testkit.Prelude.{
  List, [], ◌∷◌, Option, none, some, Bool, true, false, String, ◌≡◌, sym, ap, subst, ◌∙◌, ◌⊎◌, inl,
  inr, Option-cases,
}
use testkit.Prelude.Int.{ℤ}
use testkit.Fakeapi.Types.{Error, good, Meta, MetaLaws, Store, StoreLaws}
use testkit.Fakeapi.Tracker.{bump, update}
use testkit.Fakeapi.Content.{Agree}
use testkit.Fakeapi.Generation.{IsNext, update_patch_lem}

module _ {O V T : Type 0} (m : Meta O V) (s : Store O T) where
  -- The writes one after another; `none` where one is refused.
  abbrev pub updates : T → String → String → List O → Option T
  updates t kind ns [] = some t
  updates t kind ns (o ∷ os) =
      let r = update m s t kind o ns in elim r.2 [ some e ↦ none | none ↦ updates r.1 kind ns os ]

module _ {O V : Type 0} (m : Meta O V) where
  -- From generation g to h: one step for each object that differs from the one before it outside
  -- metadata, status, apiVersion and kind, or that is the first to carry a deletion timestamp.
  pub data Counts : List (String × V) → Bool → List O → ℤ → ℤ → Type 0 where
    done : {us : List (String × V)} {d : Bool} {g : ℤ} → Counts us d [] g g
    keeps :
        {us uo : List (String × V)} {d : Bool} {o : O} {os : List O} {g h : ℤ}
        → m.to_unstructured o ≡ good uo
        → Agree us uo
        → (d ≡ true) ⊎ (m.deleting o ≡ false)
        → Counts uo (m.deleting o) os g h
        → Counts us d (o ∷ os) g h
    changes :
        {us uo : List (String × V)} {d : Bool} {o : O} {os : List O} {g h : ℤ}
        → m.to_unstructured o ≡ good uo
        → (¬ Agree us uo) ⊎ ((d ≡ false) × (m.deleting o ≡ true))
        → Counts uo (m.deleting o) os (bump g) h
        → Counts us d (o ∷ os) g h

  -- What each object written has to be.
  pub record Writable (name : String) (o : O) : Type 0 where
    pub named : m.name o ≡ name
    pub accessible : m.accessor o ≡ none
    pub fields : List (String × V)
    pub converts : m.to_unstructured o ≡ good fields

  abbrev pub AllWritable : String → List O → Type 0
  AllWritable name [] = Unit
  AllWritable name (o ∷ os) = Writable name o × AllWritable name os

module _ {O V T : Type 0} (m : Meta O V) (s : Store O T) where
  -- The stored object, up to its metadata.
  pub record Holds (t : T) (kind ns name : String) (us : List (String × V)) (d : Bool) (g : ℤ)
      : Type 0 where
    pub object : O
    pub found : s.get t kind ns name ≡ good object
    pub accessible : m.accessor object ≡ none
    pub fields : List (String × V)
    pub converts : m.to_unstructured object ≡ good fields
    pub agrees : Agree fields us
    pub deletes : m.deleting object ≡ d
    pub generation : m.generation object ≡ g

-- Agreement is an equivalence.
Agree-trans {ℓ} : {V : Type ℓ} (a b c : List (String × V)) → Agree a b → Agree b c → Agree a c
Agree-trans a b c p q = λ k x y z w. p k x y z w ∙ q k x y z w

Agree-sym {ℓ} : {V : Type ℓ} (a b : List (String × V)) → Agree a b → Agree b a
Agree-sym a b p = λ k x y z w. sym (p k x y z w)

module _ {O V T : Type 0} (m : Meta O V) (laws : MetaLaws m) (s : Store O T)
    (store : StoreLaws m s) where
  -- An object that the tracker below has stored with its generation.
  stored-Holds :
      (t t' : T) (kind ns name : String) (o : O) (g : ℤ) (w : Writable m name o)
      → s.update t kind (m.set_generation g o) ns ≡ (t', none)
      → Holds m s t' kind ns name w.fields (m.deleting o) g
  stored-Holds t t' kind ns name o g w e =
      let (object, found, a, gen, d, fields) =
        store.update_get t t' kind (m.set_generation g o) ns e in
      let (u, c, k) = laws.to_unstructured_set g o w.fields w.converts in
      let (v, r, l) = fields u c in
      record {
        object = object;
        found = ap (s.get t' kind ns) (sym (laws.name_set g o ∙ w.named)) ∙ found;
        accessible = a ∙ laws.accessor_set g o ∙ w.accessible;
        fields = v;
        converts = r;
        agrees = λ x out b c' d'. l x out ∙ k x out;
        deletes = d ∙ laws.deleting_set g o;
        generation = gen ∙ laws.generation_set g o;
      }

  abbrev Moved : List (String × V) → List (String × V) → Bool → Bool → ℤ → ℤ → Type 0
  Moved us uo d d' g g' =
      ((g' ≡ g) × Agree us uo × ((d ≡ true) ⊎ (d' ≡ false)))
      ⊎ ((g' ≡ bump g) × ((¬ Agree us uo) ⊎ ((d ≡ false) × (d' ≡ true))))

  moved :
      (o : O) (us uo : List (String × V)) (d : Bool) (g gen : ℤ) (object : O)
      (fields : List (String × V))
      → Agree fields us
      → m.deleting object ≡ d
      → m.generation object ≡ g
      → IsNext m object o fields uo gen
      → Moved us uo d (m.deleting o) g gen
  moved o us uo d g gen object fields a e f n = elim n.decided [
    | inr (b, c) ↦ inl (
      n.kept (b, c) ∙ f,
      Agree-trans us fields uo (Agree-sym fields us a) b,
      subst (λ x. (x ≡ true) ⊎ (m.deleting o ≡ false)) e c,
    )
    | inl (inl c) ↦ inr (n.bumped (inl c) ∙ ap bump f, inl (λ b. c (Agree-trans fields us uo a b)))
    | inl (inr c) ↦ inr (n.bumped (inr c) ∙ ap bump f, inr (sym e ∙ c.0, c.1))
  ]

  update-Holds :
      (t : T) (kind ns name : String) (o : O) (us : List (String × V)) (d : Bool) (g : ℤ)
      → Holds m s t kind ns name us d g
      → (w : Writable m name o) → (update m s t kind o ns).2 ≡ none
      → (g' : ℤ) × Holds m s (update m s t kind o ns).1 kind ns name w.fields (m.deleting o) g'
        × Moved us w.fields d (m.deleting o) g g'
  update-Holds t kind ns name o us d g h w e =
      let (gen, n, u, p) =
        update_patch_lem m laws s t kind o ns h.object h.fields w.fields w.accessible
          (ap (s.get t kind ns) w.named ∙ h.found) h.accessible h.converts w.converts in
      (
        gen,
        rw u (
            stored-Holds t (s.update t kind (m.set_generation gen o) ns).0 kind ns name o gen w (
              ap (λ x. ((s.update t kind (m.set_generation gen o) ns).0, x))
                (sym (ap (λ (q : O × T × Option Error). q.2) u) ∙ e))),
        moved o us w.fields d g gen h.object h.fields h.agrees h.deletes h.generation n,
      )

  -- A history of Updates of one stored object, none of them refused by the tracker below, leaves it
  -- with its generation raised once for each write that changes the content (anything but metadata,
  -- status, apiVersion and kind) against the write before, or begins the deletion, whatever
  -- generations the callers sent.
  pub updates_lem :
      (t t' : T) (kind ns name : String) (os : List O) (us : List (String × V)) (d : Bool) (g : ℤ)
      → Holds m s t kind ns name us d g
      → AllWritable m name os
      → updates m s t kind ns os ≡ some t'
      → (h : ℤ) × Counts m us d os g h
        × (o : O) × (s.get t' kind ns name ≡ good o)
        × (m.generation o ≡ h)
  updates_lem t t' kind ns name [] us d g h w e =
      let z : t ≡ t' = cc in
      (g, done, h.object, subst (λ x. s.get x kind ns name ≡ good h.object) z h.found, h.generation)
  updates_lem t t' kind ns name (o ∷ os) us d g h w e =
      elim (Option-cases (update m s t kind o ns).2) [
        | inr (x, f) ↦ absurd (refused x f (rw (f, updates) at e))
        | inl f ↦
            let (g', h', c) = update-Holds t kind ns name o us d g h w.0 f in
            let (k, cs, st, found, gen) =
              updates_lem (update m s t kind o ns).1 t' kind ns name os (w.0).fields (m.deleting o)
                g' h' w.1 (rw (f, updates) at e) in
            (k, counted g' k c cs, st, found, gen)
      ]
    where
      refused : (x : Error) → (update m s t kind o ns).2 ≡ some x → none ≡ some t' → ⊥
      refused x f q = cc

      counted :
          (g' k : ℤ)
          → Moved us (w.0).fields d (m.deleting o) g g'
          → Counts m (w.0).fields (m.deleting o) os g' k
          → Counts m us d (o ∷ os) g k
      counted g' k (inl (q, a, b)) cs =
          keeps (w.0).converts a b (subst (λ x. Counts m (w.0).fields (m.deleting o) os x k) q cs)
      counted g' k (inr (q, a)) cs =
          changes (w.0).converts a (subst (λ x. Counts m (w.0).fields (m.deleting o) os x k) q cs)
