-- ===== src/Ctrl/Stream.antt =====
-- A cursor as a queue: the ops in its scope that are not consumed yet (ctrltest/recorder.go).
use testkit.Prelude.{
  ℕ, suc, ◌+◌, ◌≤◌, ◌<◌, List, [], ◌∷◌, ◌++◌, Option, none, some, Bool, true, ◌≡◌, refl, sym, ap,
  ◌∙◌, inl, inr, Bool-cases, Option-cases, length, drop, length-append, arith, drop-append,
  drop-length, drop-drop, length-drop,
}
use testkit.Ctrl.Op.{Op, in_scope}
use testkit.Ctrl.Recorder.{Recorder, file, keep, first_from, first_match_from}
use testkit.Ctrl.Cursor.{Cursor, past, peek_locked, take_op}

module _ {ℓ} {A : Type ℓ} where
  pub keep-append : (p : A → Bool) (xs ys : List A) → keep p (xs ++ ys) ≡ keep p xs ++ keep p ys
  keep-append p [] ys = refl
  keep-append p (x ∷ xs) ys = elim (Bool-cases (p x)) [
    | inl t ↦ rw t (ap (◌∷◌ x) (keep-append p xs ys))
    | inr f ↦ rw f (keep-append p xs ys)
  ]

  -- The front of a queue, and what is behind it.
  abbrev pub first_of : List A → Option A
  first_of [] = none
  first_of (x ∷ xs) = some x

  abbrev pub rest_of : List A → List A
  rest_of [] = []
  rest_of (x ∷ xs) = xs

-- The loop stops `k` entries on, at the first that passes.
pub record Hit (p : Op → Bool) (ops : List Op) (i : ℕ) (op : Op) (j : ℕ) : Type 0 where
  pub k : ℕ
  pub at_k : j ≡ i + k
  pub inside : k < length ops
  pub passes : p op ≡ true
  pub same : keep p (drop k ops) ≡ keep p ops
  pub split : keep p ops ≡ op ∷ keep p (drop (suc k) ops)

pub first_from-none :
    (p : Op → Bool) (ops : List Op) (i : ℕ) → first_from p ops i ≡ none → keep p ops ≡ []
first_from-none p [] i e = refl
first_from-none p (x ∷ ops) i e = elim (Bool-cases (p x)) [
  | inl t ↦ absurd (ground arith)
  | inr f ↦ rw f (first_from-none p ops (suc i) (ground arith))
]

pub first_from-some :
    (p : Op → Bool) (ops : List Op) (i : ℕ) {op : Op} {j : ℕ}
    → first_from p ops i ≡ some (op, j)
    → Hit p ops i op j
first_from-some p [] i e = absurd cc
first_from-some p (x ∷ ops) i {op} {j} e = elim (Bool-cases (p x)) [
  | inl t ↦
      let q : x ≡ op = ground arith in
      record {
        k = 0;
        at_k = ground arith;
        inside = omega arith;
        passes = ap p (sym q) ∙ t;
        same = refl;
        split = rw t (ap (λ y. y ∷ keep p ops) q);
      }
  | inr f ↦
      let h : Hit p ops (suc i) op j = first_from-some p ops (suc i) (ground arith) in
      record {
        k = suc h.k;
        at_k = omega (arith, h.at_k);
        inside = omega (arith, h.inside);
        passes = h.passes;
        same = rw f h.same;
        split = rw f h.split;
      }
]

abbrev pub sees : Cursor → Op → Bool
sees c op = in_scope op c.ns c.controller c.attempts

abbrev pub unread : Recorder → Cursor → List Op
unread r c = keep (sees c) (drop c.scan r.ops)

-- The scan position is inside the log.
abbrev pub Fits : Recorder → Cursor → Type 0
Fits r c = c.scan ≤ length r.ops

pub record Peeked (r : Recorder) (c : Cursor) (c' : Cursor) (found : Option Op) : Type 0 where
  pub scope : sees c' ≡ sees c
  pub inside : Fits r c'
  pub front : found ≡ first_of (unread r c)
  pub kept : unread r c' ≡ unread r c
  pub behind :
      (op : Op)
      → found ≡ some op
      → (suc c'.scan ≤ length r.ops)
        × (keep (sees c) (drop (suc c'.scan) r.ops) ≡ rest_of (unread r c))

pub peek_locked_lem :
    (r : Recorder) (c : Cursor) → Fits r c → Peeked r c (peek_locked r c).0 (peek_locked r c).1
unfolding peek_locked first_match_from
peek_locked_lem r c h = elim (Option-cases (first_from (sees c) (drop c.scan r.ops) c.scan)) [
  | inl e ↦
      rw (e, peek_locked, first_match_from)
        (let z = first_from-none (sees c) (drop c.scan r.ops) c.scan e in
          record {
            scope = refl;
            inside = omega arith;
            front = rw z refl;
            kept = ap (keep (sees c)) (drop-length r.ops) ∙ sym z;
            behind = λ op q. absurd cc;
          })
  | inr ((op, j), e) ↦
      rw (e, peek_locked, first_match_from)
        (let hit = first_from-some (sees c) (drop c.scan r.ops) c.scan e in
          let n = length-drop c.scan r.ops h in
          record {
            scope = refl;
            inside = omega (arith, hit.at_k, hit.inside);
            front = rw hit.split refl;
            kept = ap (keep (sees c)) (rw hit.at_k (sym (drop-drop hit.k c.scan r.ops))) ∙ hit.same;
            behind = λ op' q. (
              omega (arith, hit.at_k, hit.inside),
              rw hit.split (
                  ap (keep (sees c)) (
                    let m : suc j ≡ c.scan + suc hit.k = omega (arith, hit.at_k) in
                    rw m (sym (drop-drop (suc hit.k) c.scan r.ops)))),
            );
          })
]

pub unread-file :
    (r : Recorder) (c : Cursor) (op : Op)
    → Fits r c
    → unread (file r op) c ≡ unread r c ++ keep (sees c) (op ∷ [])
unfolding file
unread-file r c op h =
    ap (keep (sees c)) (drop-append c.scan r.ops (op ∷ []) h)
    ∙ keep-append (sees c) (drop c.scan r.ops) (op ∷ [])

pub Fits-file : (r : Recorder) (c : Cursor) (op : Op) → Fits r c → Fits (file r op) c
unfolding file
Fits-file r c op h = omega (arith, length-append r.ops (op ∷ []))

pub record Taken (r : Recorder) (c : Cursor) (c' : Cursor) (found : Option Op) : Type 0 where
  pub scope : sees c' ≡ sees c
  pub inside : Fits r c'
  pub front : found ≡ first_of (unread r c)
  pub rest : unread r c' ≡ rest_of (unread r c)

pub nil_of_none : (ops : List Op) → none ≡ first_of ops → ops ≡ []
nil_of_none [] e = refl
nil_of_none (x ∷ ops) e = absurd cc

past-Taken :
    (r : Recorder) (c c' : Cursor) (found : Option Op)
    → Peeked r c c' found
    → Taken r c (past c' found) found
past-Taken r c c' none p = record {
  scope = p.scope;
  inside = p.inside;
  front = p.front;
  rest = p.kept ∙ let z = nil_of_none (unread r c) p.front in z ∙ sym (ap rest_of z);
}
past-Taken r c c' (some op) p = record {
  scope = p.scope;
  inside = (p.behind op refl).0;
  front = p.front;
  rest = ap (λ f. keep f (drop (suc c'.scan) r.ops)) p.scope ∙ (p.behind op refl).1;
}

pub take_op_lem : (r : Recorder) (c : Cursor) → Fits r c → Taken r c (take_op r c).0 (take_op r c).1
unfolding take_op
take_op_lem r c h = past-Taken r c (peek_locked r c).0 (peek_locked r c).1 (peek_locked_lem r c h)
