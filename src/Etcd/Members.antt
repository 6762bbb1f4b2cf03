-- ===== src/Etcd/Members.antt =====
-- Lists of members under the writes and the removal of etcdsim/etcdsim.go.
use testkit.Prelude.{
  ◌≡◌, sym, ap, ◌∙◌, ◌≢◌, ◌⊎◌, inl, inr, List, [], ◌∷◌, false, String, str_eq, eq_iff, Bool-cases,
  All, In, here, there, Distinct,
}
use testkit.Etcd.Types.{MemberState, modify, delete}

module _ (n : String) (f : MemberState → MemberState) where
  module _ {κ} (P : MemberState → Type κ) (keep : (m : MemberState) → P m → P (f m)) where
    pub All-modify : (ms : List MemberState) → All P ms → All P (modify n f ms)
    unfolding modify
    All-modify [] h = tt
    All-modify (m ∷ ms) h = elim (Bool-cases (str_eq m.name n)) [
      | inl t ↦ rw t (keep m h.0, All-modify ms h.1)
      | inr e ↦ rw e (h.0, All-modify ms h.1)
    ]

  pub Distinct-modify {κ} :
      {K : Type κ} (key : MemberState → K) (keep : (m : MemberState) → key (f m) ≡ key m)
      (ms : List MemberState)
      → Distinct key ms
      → Distinct key (modify n f ms)
  unfolding modify
  Distinct-modify key keep [] d = tt
  Distinct-modify key keep (m ∷ ms) d = elim (Bool-cases (str_eq m.name n)) [
    | inl t ↦ rw t (rw (keep m) rest, Distinct-modify key keep ms d.1)
    | inr e ↦ rw e (rest, Distinct-modify key keep ms d.1)
  ]
    where
      rest : All (λ y. key m ≢ key y) (modify n f ms)
      rest = All-modify (λ y. key m ≢ key y) (λ y h e. h (e ∙ keep y)) ms d.0

  -- The member that stands, after the write, where `m` stood.
  pub In-modify :
      (ms : List MemberState) (m : MemberState)
      → In m ms
      → In m (modify n f ms) ⊎ In (f m) (modify n f ms)
  unfolding modify
  In-modify [] m h = elim h [ ]
  In-modify (x ∷ xs) m (here e) = elim (Bool-cases (str_eq x.name n)) [
    | inl t ↦ rw t (inr (here (ap f e)))
    | inr u ↦ rw u (inl (here e))
  ]
  In-modify (x ∷ xs) m (there h) = elim (In-modify xs m h) [
    | inl a ↦ inl (there a)
    | inr b ↦ inr (there b)
  ]

module _ (n : String) (f : MemberState → MemberState) where
  pub In-modify_hit :
      (ms : List MemberState) (m : MemberState) → In m ms → m.name ≡ n → In (f m) (modify n f ms)
  unfolding modify
  In-modify_hit [] m h e = elim h [ ]
  In-modify_hit (x ∷ xs) m (here q) e =
      let t = (eq_iff x.name n).1 (ap (λ (y : MemberState). y.name) (sym q) ∙ e) in
      rw t (here (ap f q))
  In-modify_hit (x ∷ xs) m (there h) e = there (In-modify_hit xs m h e)

  pub In-modify_miss :
      (ms : List MemberState) (m : MemberState) → In m ms → m.name ≢ n → In m (modify n f ms)
  unfolding modify
  In-modify_miss [] m h e = elim h [ ]
  In-modify_miss (x ∷ xs) m (here q) e = elim (Bool-cases (str_eq x.name n)) [
    | inl t ↦ absurd (e (ap (λ (y : MemberState). y.name) q ∙ (eq_iff x.name n).0 t))
    | inr u ↦ rw u (here q)
  ]
  In-modify_miss (x ∷ xs) m (there h) e = there (In-modify_miss xs m h e)

module _ (n : String) where
  pub All-delete {κ} :
      (P : MemberState → Type κ) (ms : List MemberState) → All P ms → All P (delete n ms)
  unfolding delete
  All-delete P [] h = tt
  All-delete P (m ∷ ms) h = elim (Bool-cases (str_eq m.name n)) [
    | inl t ↦ rw t (All-delete P ms h.1)
    | inr e ↦ rw e (h.0, All-delete P ms h.1)
  ]

  pub Distinct-delete {κ} :
      {K : Type κ} (key : MemberState → K) (ms : List MemberState)
      → Distinct key ms
      → Distinct key (delete n ms)
  unfolding delete
  Distinct-delete key [] d = tt
  Distinct-delete key (m ∷ ms) d = elim (Bool-cases (str_eq m.name n)) [
    | inl t ↦ rw t (Distinct-delete key ms d.1)
    | inr e ↦ rw e (All-delete (λ y. key m ≢ key y) ms d.0, Distinct-delete key ms d.1)
  ]

  pub In-delete :
      (ms : List MemberState) (m : MemberState) → In m ms → m.name ≢ n → In m (delete n ms)
  unfolding delete
  In-delete [] m h ne = elim h [ ]
  In-delete (x ∷ xs) m (here e) ne = elim (Bool-cases (str_eq x.name n)) [
    | inl t ↦ absurd (ne (ap (λ (y : MemberState). y.name) e ∙ (eq_iff x.name n).0 t))
    | inr u ↦ rw u (here e)
  ]
  In-delete (x ∷ xs) m (there h) ne = elim (Bool-cases (str_eq x.name n)) [
    | inl t ↦ rw t (In-delete xs m h ne)
    | inr u ↦ rw u (there (In-delete xs m h ne))
  ]

  -- The removed name is gone.
  pub In-of_delete :
      (ms : List MemberState) (m : MemberState) → In m (delete n ms) → In m ms × (m.name ≢ n)
  unfolding delete
  In-of_delete [] m h = elim h [ ]
  In-of_delete (x ∷ xs) m h = elim (Bool-cases (str_eq x.name n)) [
    | inl t ↦ let r = In-of_delete xs m (rw (t, delete) at h) in (there r.0, r.1)
    | inr u ↦ kept u (rw (u, delete) at h) (In-of_delete xs m)
  ]
    where
      kept :
          str_eq x.name n ≡ false
          → In m (x ∷ delete n xs)
          → (In m (delete n xs) → In m xs × (m.name ≢ n))
          → In m (x ∷ xs) × (m.name ≢ n)
      kept u (here e) rec = (
        here e,
        λ q. let t = (eq_iff x.name n).1 (ap (λ (y : MemberState). y.name) (sym e) ∙ q) in cc,
      )
      kept u (there h) rec = (there (rec h).0, (rec h).1)
