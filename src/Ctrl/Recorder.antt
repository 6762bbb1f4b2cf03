-- ===== src/Ctrl/Recorder.antt =====
-- The recorder of ctrltest/recorder.go and the readings of its log, also in ctrltest/matchers.go.
use Prim.Native.String.{◌++◌ as cat}
use testkit.Prelude.{
  ℕ, zero, suc, List, [], ◌∷◌, ◌++◌, Option, none, some, Bool, ◌&&◌, String, str_eq, ltb,
  if◌then◌else◌, length, take, drop,
}
use testkit.Ctrl.Op.{ObjectKey, Op, accepted, in_scope}
use testkit.Ctrl.Kind.{
  Object, Scheme, kind_of, ApplyConfig, apply_target, Expect, expect_key, op_key,
}

-- The map of counts is a list of its entries; a key that is missing counts nothing.
abbrev pub Counts : Type 0
Counts = List (String × ℕ)

abbrev pub count_at : String → Counts → ℕ
count_at k [] = 0
count_at k ((k', n) ∷ m) = if str_eq k' k then n else count_at k m

unfoldable pub count_up : String → Counts → Counts
count_up k [] = (k, 1) ∷ []
count_up k ((k', n) ∷ m) = if str_eq k' k then (k', suc n) ∷ m else (k', n) ∷ count_up k m

pub record Recorder : Type 0 where
  pub counts : Counts
  pub ops : List Op

abbrev pub new_recorder : Recorder
new_recorder = record { counts = []; ops = [] }

abbrev pub count_key : Op → String
count_key op = cat op.controller (cat "/" (cat op.verb (cat "/" op.kind)))

unfoldable pub file : Recorder → Op → Recorder
unfolding count_up
file r op = record {
  counts = if accepted op then count_up (count_key op) r.counts else r.counts;
  ops = r.ops ++ (op ∷ []);
}

-- `now` is the clock as it is read under the lock.
unfoldable pub add_key :
    Recorder → ℕ → String → String → String → ObjectKey → Option String → Recorder
unfolding file
add_key r now controller verb kind key err =
    file r (record {
      controller = controller;
      verb = verb;
      kind = kind;
      key = key;
      time = now;
      err = err;
    })

unfoldable pub add :
    Recorder → ℕ → Option Scheme → String → String → Object → Option String → Recorder
unfolding add_key kind_of
add r now scheme controller verb obj err =
    add_key r now controller verb (kind_of scheme obj) obj.key err

unfoldable pub add_apply : Recorder → ℕ → String → String → ApplyConfig → Option String → Recorder
unfolding add_key apply_target
add_apply r now controller verb obj err =
    let (kind, key) = apply_target obj in add_key r now controller verb kind key err

abbrev pub keep {ℓ} : {A : Type ℓ} → (A → Bool) → List A → List A
keep p [] = []
keep p (x ∷ xs) = if p x then x ∷ keep p xs else keep p xs

unfoldable pub ops_in_namespace : Recorder → String → List Op
ops_in_namespace r ns = keep (λ op. accepted op && str_eq op.key.namespace ns) r.ops

unfoldable pub log_len : Recorder → ℕ
log_len r = length r.ops

-- The loop from the index `i` on, whose entry is the first of the list.
abbrev pub first_from : (Op → Bool) → List Op → ℕ → Option (Op × ℕ)
first_from p [] i = none
first_from p (op ∷ ops) i = if p op then some (op, i) else first_from p ops (suc i)

-- The op, where there is one, and the floor.
unfoldable pub first_match_from : Recorder → ℕ → String → String → Bool → Option Op × ℕ
first_match_from r start ns controller attempts =
    elim (first_from (λ op. in_scope op ns controller attempts) (drop start r.ops) start) [
      | some (op, i) ↦ (some op, i)
      | none ↦ (none, length r.ops)
    ]

-- The loop of scanInScope with `n` ops still wanted.
abbrev pub collect_from : (Op → Bool) → ℕ → List Op → ℕ → List (Op × ℕ)
collect_from p zero ops i = []
collect_from p (suc n) [] i = []
collect_from p (suc n) (op ∷ ops) i =
    let hit = collect_from p n ops (suc i) in
    let miss = collect_from p (suc n) ops (suc i) in if p op then (op, i) ∷ hit else miss

abbrev pub floor_of : List (Op × ℕ) → ℕ → ℕ
floor_of [] end = end
floor_of ((op, i) ∷ more) end = i

-- The ops with their indices, and the floor.
unfoldable pub scan_in_scope : Recorder → ℕ → ℕ → String → String → Bool → List (Op × ℕ) × ℕ
scan_in_scope r start n ns controller attempts =
    let hits = collect_from (λ op. in_scope op ns controller attempts) n (drop start r.ops) start in
    (hits, floor_of hits (length r.ops))

unfoldable pub find_in_scope : Recorder → ℕ → String → String → Expect → Bool → Option (Op × ℕ)
unfolding op_key expect_key
find_in_scope r start ns controller want attempts =
    first_from (λ op. in_scope op ns controller attempts && str_eq (op_key op) (expect_key want))
      (drop start r.ops) start

-- With the indices in ℕ, the lower end is never below 0.
unfoldable pub ops_between : Recorder → ℕ → ℕ → String → List Op
ops_between r start end controller =
    keep (λ op. accepted op && str_eq op.controller controller)
      (drop start (take (if ltb end (length r.ops) then end else length r.ops) r.ops))
