-- ===== src/Script/Walk.antt =====
-- flattenAllows of ctrltest/script.go against what permissions mean.
use testkit.Prelude.{
  ℕ, ◌+◌, ◌-◌, ◌≤◌, ◌<◌, List, [], ◌∷◌, ◌++◌, append-nil, append_assoc, none, some, true, false,
  ltb, ◌≡◌, refl, sym, ap, subst, ◌∙◌, inl, inr, Bool-cases, In, here, there, In-append_left,
  In-append_right, length, length-append, get_or, arith,
}
use testkit.Script.Allow.{
  LeafAllow, Allow, unset, quiet, leaf, before, Order, pair_with, pairs, walk, walk_all,
  flatten_allows,
}
use testkit.Script.Assign.{Assignment, in_order, order_holds}
use testkit.Script.Meaning.{
  leaves_in, leaves_of, Precedes, across, in_left, in_right, PrecedesIn, in_first, in_rest,
}

pair_with-In : (i j : ℕ) (cur : List ℕ) → In j cur → In (i, j) (pair_with i cur)
pair_with-In i j [] h = elim h [ ]
pair_with-In i j (c ∷ cur) (here e) = here (ap (λ x. (i, x)) e)
pair_with-In i j (c ∷ cur) (there h) = there (pair_with-In i j cur h)

pairs-In : (i j : ℕ) (prev cur : List ℕ) → In i prev → In j cur → In (i, j) (pairs prev cur)
pairs-In i j [] cur h k = elim h [ ]
pairs-In i j (p ∷ prev) cur (here e) k =
    In-append_left (pair_with p cur) (pairs prev cur)
      (subst (λ x. In (x, j) (pair_with p cur)) (sym e) (pair_with-In p j cur k))
pairs-In i j (p ∷ prev) cur (there h) k =
    In-append_right (pair_with p cur) (pairs prev cur) (pairs-In i j prev cur h k)

pair_eq : {i i' j j' : ℕ} (o : Order) → i ≡ i' → j ≡ j' → In (i, j) o → In (i', j') o
pair_eq {i} {i'} {j} {j'} o p q h = subst (λ x. In (i', x) o) q (subst (λ x. In (x, j) o) p h)

-- What walking a permission adds.
record Walked (a : Allow) (leaves : List LeafAllow) (order : Order)
    (r : List LeafAllow × Order × List ℕ) : Type 0 where
  found : r.0 ≡ leaves ++ leaves_in a
  keeps : {p : ℕ × ℕ} → In p order → In p r.1
  orders : {i j : ℕ} → Precedes a i j → In (length leaves + i, length leaves + j) r.1
  numbers : (i : ℕ) → i < length (leaves_in a) → In (length leaves + i) r.2

before-orders :
    (a b : Allow) (leaves : List LeafAllow) {order : Order}
    (ra rb : List LeafAllow × Order × List ℕ) {i j : ℕ}
    → Walked a leaves order ra
    → Walked b ra.0 ra.1 rb
    → length ra.0 ≡ length leaves + length (leaves_in a)
    → Precedes (before a b) i j
    → In (length leaves + i, length leaves + j) (rb.1 ++ pairs ra.2 rb.2)
before-orders a b leaves ra rb wa wb long (in_left h) =
    In-append_left rb.1 (pairs ra.2 rb.2) (wb.keeps (wa.orders h))
before-orders a b leaves ra rb wa wb long (in_right {i = i} {j = j} h) =
    In-append_left rb.1 (pairs ra.2 rb.2)
      (pair_eq rb.1 (omega (arith, long)) (omega (arith, long)) (wb.orders h))
before-orders a b leaves ra rb wa wb long (across {i = i} {j = j} p q) =
    In-append_right rb.1 (pairs ra.2 rb.2) (
      pair_eq (pairs ra.2 rb.2) refl (omega (arith, long)) (
        pairs-In (length leaves + i) (length ra.0 + j) ra.2 rb.2 (wa.numbers i p) (wb.numbers j q)))

walk-Walked :
    (a : Allow) (leaves : List LeafAllow) (order : Order)
    → Walked a leaves order (walk a leaves order)
unfolding walk
walk-Walked unset leaves order = record {
  found = sym (append-nil leaves);
  keeps = λ h. h;
  orders = λ h. elim h [ ];
  numbers = λ i h. absurd (omega arith);
}
walk-Walked quiet leaves order = record {
  found = sym (append-nil leaves);
  keeps = λ h. h;
  orders = λ h. elim h [ ];
  numbers = λ i h. absurd (omega arith);
}
walk-Walked (leaf l) leaves order = record {
  found = refl;
  keeps = λ h. h;
  orders = λ h. elim h [ ];
  numbers = λ i h. here (omega arith);
}
walk-Walked (before a b) leaves order =
    let ra = walk a leaves order in
    let wa = walk-Walked a leaves order in
    let rb = walk b ra.0 ra.1 in
    let wb = walk-Walked b ra.0 ra.1 in
    let long : length ra.0 ≡ length leaves + length (leaves_in a) =
      ap length wa.found ∙ length-append leaves (leaves_in a) in
    record {
      found =
          wb.found
          ∙ ap (λ x. x ++ leaves_in b) wa.found
          ∙ append_assoc leaves (leaves_in a) (leaves_in b);
      keeps = λ h. In-append_left rb.1 (pairs ra.2 rb.2) (wb.keeps (wa.keeps h));
      orders = λ h. before-orders a b leaves ra rb wa wb long h;
      numbers = λ i h. elim (Bool-cases (ltb i (length (leaves_in a)))) [
        | inl t ↦ In-append_left ra.2 rb.2 (wa.numbers i (ground arith))
        | inr f ↦
            let rest : length (leaves_in a) + (i - length (leaves_in a)) ≡ i = ground arith in
            let same : length ra.0 + (i - length (leaves_in a)) ≡ length leaves + i =
              omega (arith, long, rest) in
            In-append_right ra.2 rb.2 (
              subst (λ x. In x rb.2) same
                (wb.numbers (i - length (leaves_in a))
                  (ground (arith, h, length-append (leaves_in a) (leaves_in b)))))
      ];
    }

walk_all-found :
    (allow : List Allow) (leaves : List LeafAllow) (order : Order)
    → (walk_all allow leaves order).0 ≡ leaves ++ leaves_of allow
unfolding walk_all
walk_all-found [] leaves order = sym (append-nil leaves)
walk_all-found (a ∷ more) leaves order =
    let r = walk a leaves order in
    walk_all-found more r.0 r.1
    ∙ ap (λ x. x ++ leaves_of more) (walk-Walked a leaves order).found
    ∙ append_assoc leaves (leaves_in a) (leaves_of more)

walk_all-keeps :
    (allow : List Allow) (leaves : List LeafAllow) (order : Order) {p : ℕ × ℕ}
    → In p order
    → In p (walk_all allow leaves order).1
unfolding walk_all
walk_all-keeps [] leaves order h = h
walk_all-keeps (a ∷ more) leaves order h =
    let r = walk a leaves order in
    walk_all-keeps more r.0 r.1 ((walk-Walked a leaves order).keeps h)

walk_all-orders :
    (allow : List Allow) (leaves : List LeafAllow) (order : Order) {i j : ℕ}
    → PrecedesIn allow i j
    → In (length leaves + i, length leaves + j) (walk_all allow leaves order).1
unfolding walk_all
walk_all-orders [] leaves order h = elim h [ ]
walk_all-orders (a ∷ more) leaves order (in_first h) =
    let r = walk a leaves order in
    walk_all-keeps more r.0 r.1 ((walk-Walked a leaves order).orders h)
walk_all-orders (a ∷ more) leaves order (in_rest {i = i} {j = j} h) =
    let r = walk a leaves order in
    let long : length r.0 ≡ length leaves + length (leaves_in a) =
      ap length (walk-Walked a leaves order).found ∙ length-append leaves (leaves_in a) in
    pair_eq (walk_all more r.0 r.1).1 (omega (arith, long)) (omega (arith, long))
      (walk_all-orders more r.0 r.1 h)

pub flatten_allows-leaves : (allow : List Allow) → (flatten_allows allow).0 ≡ leaves_of allow
unfolding flatten_allows
flatten_allows-leaves allow = walk_all-found allow [] []

pub flatten_allows-orders :
    (allow : List Allow) {i j : ℕ} → PrecedesIn allow i j → In (i, j) (flatten_allows allow).1
unfolding flatten_allows
flatten_allows-orders allow {i} {j} h =
    pair_eq (walk_all allow [] []).1 (omega arith) (omega arith) (walk_all-orders allow [] [] h)

-- A pair of the orderings that hold is in order, where both of its leaves have an event.
pub order_holds-In :
    (order : Order) (at : Assignment) (i j x y : ℕ)
    → order_holds order at ≡ true
    → In (i, j) order
    → get_or at i none ≡ some x
    → get_or at j none ≡ some y
    → x ≤ y
order_holds-In [] at i j x y h k p q = elim k [ ]
order_holds-In ((a, b) ∷ order) at i j x y h k p q =
    elim (Bool-cases (in_order (get_or at a none) (get_or at b none))) [
      | inr f ↦ absurd (let z : false ≡ true = rw (order_holds, f) at h in cc)
      | inl t ↦
          let r : order_holds order at ≡ true = rw (order_holds, t) at h in
          here_or k t (λ m. order_holds-In order at i j x y r m p q)
    ]
  where
    here_or :
        In (i, j) ((a, b) ∷ order)
        → in_order (get_or at a none) (get_or at b none) ≡ true
        → (In (i, j) order → x ≤ y)
        → x ≤ y
    here_or (there m) t rec = rec m
    here_or (here e) t rec =
        let ea : i ≡ a = ap (λ (u : ℕ × ℕ). u.0) e in
        let eb : j ≡ b = ap (λ (u : ℕ × ℕ). u.1) e in
        let pa : get_or at a none ≡ some x = ap (λ u. get_or at u none) (sym ea) ∙ p in
        let pb : get_or at b none ≡ some y = ap (λ u. get_or at u none) (sym eb) ∙ q in
        let z : in_order (some x) (some y) ≡ true =
          sym (ap (λ u. in_order u (some y)) pa) ∙ sym (ap (in_order (get_or at a none)) pb) ∙ t in
        ground arith
