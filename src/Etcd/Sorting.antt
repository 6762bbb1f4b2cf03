-- ===== src/Etcd/Sorting.antt =====
-- `sorted` of etcdsim/etcdsim.go: what it holds, its order, and that the map's order is forgotten.
use testkit.Prelude.{
  ℕ, ◌≡◌, refl, sym, ap, ap₂, ◌≢◌, ◌↔◌, ◌⊎◌, inl, inr, ◌≤◌, ◌<◌, List, [], ◌∷◌, true, false, leb,
  Bool-cases, arith, All, All-In, In, here, there, Distinct, SameMembers,
}
use testkit.Etcd.Types.{MemberState}
use testkit.Etcd.Faults.{insert_by_id, sorted, first_voter}

In-insert_by_id :
    (m : MemberState) (xs : List MemberState) (a : MemberState)
    → In a (insert_by_id m xs) ↔ ((a ≡ m) ⊎ In a xs)
unfolding insert_by_id
In-insert_by_id m [] a = (λ h. first h, λ h. second h)
  where
    first : In a (m ∷ []) → (a ≡ m) ⊎ In a []
    first (here e) = inl e
    first (there h) = inr h

    second : (a ≡ m) ⊎ In a [] → In a (m ∷ [])
    second (inl e) = here e
    second (inr h) = there h
In-insert_by_id m (x ∷ xs) a = elim (Bool-cases (leb m.id x.id)) [
  | inl t ↦ rw t (λ h. front h, λ h. back h)
  | inr u ↦ rw u (λ h. in_rest (In-insert_by_id m xs a) h, λ h. of_rest (In-insert_by_id m xs a) h)
]
  where
    front : In a (m ∷ x ∷ xs) → (a ≡ m) ⊎ In a (x ∷ xs)
    front (here e) = inl e
    front (there h) = inr h

    back : (a ≡ m) ⊎ In a (x ∷ xs) → In a (m ∷ x ∷ xs)
    back (inl e) = here e
    back (inr h) = there h

    in_rest :
        In a (insert_by_id m xs) ↔ ((a ≡ m) ⊎ In a xs)
        → In a (x ∷ insert_by_id m xs)
        → (a ≡ m) ⊎ In a (x ∷ xs)
    in_rest ih (here e) = inr (here e)
    in_rest ih (there h) = elim (ih.0 h) [ inl e ↦ inl e | inr k ↦ inr (there k) ]

    of_rest :
        In a (insert_by_id m xs) ↔ ((a ≡ m) ⊎ In a xs)
        → (a ≡ m) ⊎ In a (x ∷ xs)
        → In a (x ∷ insert_by_id m xs)
    of_rest ih (inl e) = there (ih.1 (inl e))
    of_rest ih (inr (here e)) = here e
    of_rest ih (inr (there k)) = there (ih.1 (inr k))

pub In-sorted : (ms : List MemberState) (a : MemberState) → In a (sorted ms) ↔ In a ms
unfolding sorted
In-sorted [] a = (λ h. h, λ h. h)
In-sorted (m ∷ ms) a = (λ h. first h (In-sorted ms a), λ h. second h (In-sorted ms a))
  where
    first : In a (insert_by_id m (sorted ms)) → In a (sorted ms) ↔ In a ms → In a (m ∷ ms)
    first h ih = elim ((In-insert_by_id m (sorted ms) a).0 h) [
      | inl e ↦ here e
      | inr k ↦ there (ih.0 k)
    ]

    second : In a (m ∷ ms) → In a (sorted ms) ↔ In a ms → In a (insert_by_id m (sorted ms))
    second (here e) ih = (In-insert_by_id m (sorted ms) a).1 (inl e)
    second (there k) ih = (In-insert_by_id m (sorted ms) a).1 (inr (ih.1 k))

-- Strictly ascending IDs.
abbrev pub Ascending : List MemberState → Type 0
Ascending [] = Unit
Ascending (x ∷ xs) = All (λ y. x.id < y.id) xs × Ascending xs

All-insert_by_id {κ} :
    (P : MemberState → Type κ) (m : MemberState) (xs : List MemberState)
    → P m
    → All P xs
    → All P (insert_by_id m xs)
unfolding insert_by_id
All-insert_by_id P m [] p h = (p, tt)
All-insert_by_id P m (x ∷ xs) p h = elim (Bool-cases (leb m.id x.id)) [
  | inl t ↦ rw t (p, h)
  | inr u ↦ rw u (h.0, All-insert_by_id P m xs p h.1)
]

All-of_le :
    (i j : ℕ) (xs : List MemberState) → i ≤ j → All (λ y. j < y.id) xs → All (λ y. i < y.id) xs
All-of_le i j [] le h = tt
All-of_le i j (x ∷ xs) le h = (omega arith, All-of_le i j xs le h.1)

insert_by_id-Ascending :
    (m : MemberState) (xs : List MemberState)
    → All (λ y. m.id ≢ y.id) xs
    → Ascending xs
    → Ascending (insert_by_id m xs)
unfolding insert_by_id
insert_by_id-Ascending m [] d h = (tt, tt)
insert_by_id-Ascending m (x ∷ xs) d h = elim (Bool-cases (leb m.id x.id)) [
  | inl t ↦
      let lt : m.id < x.id = grind (arith, d.0) in
      rw t ((lt, All-of_le m.id x.id xs (omega arith) h.0), h)
  | inr u ↦ rw u (
    All-insert_by_id (λ y. x.id < y.id) m xs (ground arith) h.0,
    insert_by_id-Ascending m xs d.1 h.1,
  )
]

All-sorted {κ} : (P : MemberState → Type κ) (ms : List MemberState) → All P ms → All P (sorted ms)
unfolding sorted
All-sorted P [] h = tt
All-sorted P (m ∷ ms) h = All-insert_by_id P m (sorted ms) h.0 (All-sorted P ms h.1)

-- With distinct IDs the order is strict.
pub sorted-Ascending : (ms : List MemberState) → Distinct (λ m. m.id) ms → Ascending (sorted ms)
unfolding sorted
sorted-Ascending [] d = tt
sorted-Ascending (m ∷ ms) d =
    insert_by_id-Ascending m (sorted ms) (All-sorted (λ y. m.id ≢ y.id) ms d.0)
      (sorted-Ascending ms d.1)

-- A strictly ascending list is determined by its members.
Ascending-unique :
    (xs ys : List MemberState) → Ascending xs → Ascending ys → SameMembers xs ys → xs ≡ ys
Ascending-unique [] [] a b same = refl
Ascending-unique [] (y ∷ ys) a b same = elim ((same y).1 (here refl)) [ ]
Ascending-unique (x ∷ xs) [] a b same = elim ((same x).0 (here refl)) [ ]
Ascending-unique (x ∷ xs) (y ∷ ys) a b same = ap₂ ◌∷◌ heads (Ascending-unique xs ys a.1 b.1 tails)
  where
    least :
        (u v : MemberState) (us vs : List MemberState)
        → In u (v ∷ vs)
        → In v (u ∷ us)
        → All (λ z. v.id < z.id) vs
        → All (λ z. u.id < z.id) us
        → u ≡ v
    least u v us vs (here e) k p q = e
    least u v us vs (there h) (here e) p q = sym e
    least u v us vs (there h) (there k) p q =
        absurd (omega (arith, All-In (λ z. v.id < z.id) vs p h, All-In (λ z. u.id < z.id) us q k))

    heads : x ≡ y
    heads = least x y xs ys ((same x).0 (here refl)) ((same y).1 (here refl)) b.0 a.0

    drop_head :
        (u v z : MemberState) (us vs : List MemberState)
        → u ≡ v
        → All (λ w. u.id < w.id) us
        → In z us
        → In z (v ∷ vs)
        → In z vs
    drop_head u v z us vs e p h (here q) = absurd (
        omega (
          arith,
          All-In (λ w. u.id < w.id) us p h,
          ap (λ (w : MemberState). w.id) q,
          ap (λ (w : MemberState). w.id) e,
        ))
    drop_head u v z us vs e p h (there k) = k

    tails : SameMembers xs ys
    tails z = (
      λ h. drop_head x y z xs ys heads a.0 h ((same z).0 (there h)),
      λ h. drop_head y x z ys xs (sym heads) b.0 h ((same z).1 (there h)),
    )

pub sorted-SameMembers :
    (ms ns : List MemberState)
    → Distinct (λ m. m.id) ms
    → Distinct (λ m. m.id) ns
    → SameMembers ms ns
    → sorted ms ≡ sorted ns
sorted-SameMembers ms ns d e same =
    Ascending-unique (sorted ms) (sorted ns) (sorted-Ascending ms d) (sorted-Ascending ns e) (λ a. (
      λ h. (In-sorted ns a).1 ((same a).0 ((In-sorted ms a).0 h)),
      λ h. (In-sorted ms a).1 ((same a).1 ((In-sorted ns a).0 h)),
    ))

-- The elected ID is that of the voting member with the least ID, or 0 where no member votes.
pub first_voter_least :
    (xs : List MemberState)
    → Ascending xs
    → ((v : MemberState) × In v xs
        × (v.learner ≡ false)
        × (first_voter xs ≡ v.id)
        × ((w : MemberState) → In w xs → w.learner ≡ false → v.id ≤ w.id))
      ⊎ (All (λ m. m.learner ≡ true) xs × (first_voter xs ≡ 0))
unfolding first_voter
first_voter_least [] a = inr (tt, refl)
first_voter_least (x ∷ xs) a = elim (Bool-cases x.learner) [
  | inl t ↦ elim (first_voter_least xs a.1) [
    | inl (v, h, votes, e, least) ↦
        inl (v, there h, votes, ground arith, λ w k q. skip v w least k q t)
    | inr (all, e) ↦ inr ((t, all), ground arith)
  ]
  | inr u ↦ inl (x, here refl, u, ground arith, λ w k q. head_least w k)
]
  where
    skip :
        (v w : MemberState)
        → ((z : MemberState) → In z xs → z.learner ≡ false → v.id ≤ z.id)
        → In w (x ∷ xs)
        → w.learner ≡ false
        → x.learner ≡ true
        → v.id ≤ w.id
    skip v w least (here e) q t = let f = ap (λ (z : MemberState). z.learner) e in cc
    skip v w least (there k) q t = least w k q

    head_least : (w : MemberState) → In w (x ∷ xs) → x.id ≤ w.id
    head_least w (here e) = omega (arith, ap (λ (z : MemberState). z.id) e)
    head_least w (there k) = omega (arith, All-In (λ z. x.id < z.id) xs a.0 k)
