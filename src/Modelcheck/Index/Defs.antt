-- ===== src/Modelcheck/Index/Defs.antt =====
-- modelcheck/index.go: keyIndex. The mask is len(table) - 1 for a table whose length is a power of
-- two, so `x & mask` is `x % (mask + 1)`. A node's index and the table's entry, index + 1, are
-- natural numbers; the source's int32 wraps at 2^31 - 1 and back, to the same index.
use testkit.Prelude.{
  ℕ, zero, suc, ◌+◌, ◌*◌, ◌%◌, ◌==◌, ltb, List, [], ◌∷◌, Option, none, some, Bool, ◌&&◌, String,
  str_eq, if◌then◌else◌, length, get_elem?, set, replicate,
}

-- hash128.
pub record Hash : Type 0 where
  pub hi : ℕ
  pub lo : ℕ

abbrev pub hash_eq : Hash → Hash → Bool
hash_eq a b = a.hi == b.hi && a.lo == b.lo

-- `exact` is nil in the default mode, and a map from keys in the other.
pub record KeyIndex : Type 0 where
  pub table : List ℕ
  pub mask : ℕ
  pub count : ℕ
  pub exact : Option (List (String × ℕ))

unfoldable pub and_mask : ℕ → ℕ → ℕ
and_mask x mask = x % (mask + 1)

unfoldable pub new_key_index : Bool → KeyIndex
new_key_index exact =
    if exact
    then record { table = []; mask = 0; count = 0; exact = some [] }
    else record { table = replicate 1024 0; mask = 1023; count = 0; exact = none }

-- `m[key]`, the latest write of a key first.
unfoldable pub map_get : String → List (String × ℕ) → Option ℕ
map_get key [] = none
map_get key ((k, i) ∷ m) = if str_eq k key then some i else map_get key m

-- How a lookup ends: a node, none, an index out of range, or the fuel's end.
pub data Lookup : Type 0 where
  hit : ℕ → Lookup
  miss fault spin : Lookup

-- How a loop of `insert` ends: with its result, at an index out of range, or at the fuel's end.
pub data Looped (A : Type 0) : Type 0 where
  done : A → Looped A
  outside unended : Looped A

abbrev pub and_then : {A B : Type 0} → Looped A → (A → Looped B) → Looped B
and_then (done a) f = f a
and_then outside f = outside
and_then unended f = unended

-- The loop of `lookup`, from a position.
unfoldable pub probe : ℕ → Hash → List ℕ → ℕ → List Hash → ℕ → Lookup
probe zero h table mask hashes pos = spin
probe (suc fuel) h table mask hashes pos =
    let rest = probe fuel h table mask hashes (and_mask (pos + 1) mask) in
    elim (get_elem? table pos) [
      | none ↦ fault
      | some x ↦ elim x [
        | zero ↦ miss
        | suc v ↦ elim (get_elem? hashes v) [
          | none ↦ fault
          | some g ↦ if hash_eq g h then hit v else rest
        ]
      ]
    ]

unfoldable pub of_option : Option ℕ → Lookup
of_option none = miss
of_option (some i) = hit i

unfoldable pub lookup : KeyIndex → Hash → String → List Hash → Lookup
lookup ix h key hashes = elim ix.exact [
  | some m ↦ of_option (map_get key m)
  | none ↦ probe (length ix.table) h ix.table ix.mask hashes (and_mask h.lo ix.mask)
]

-- The loop of `place`.
unfoldable pub place_from : ℕ → List ℕ → ℕ → ℕ → ℕ → Looped (List ℕ)
place_from zero table mask idx pos = unended
place_from (suc fuel) table mask idx pos =
    let rest = place_from fuel table mask idx (and_mask (pos + 1) mask) in
    elim (get_elem? table pos) [
      | none ↦ outside
      | some x ↦ if x == 0 then done (set table pos (idx + 1)) else rest
    ]

unfoldable pub place : List ℕ → ℕ → ℕ → Hash → Looped (List ℕ)
place table mask idx h = place_from (length table) table mask idx (and_mask h.lo mask)

-- The loop of `grow` from node `i` on, with `k` nodes left.
unfoldable pub place_all : List ℕ → ℕ → ℕ → ℕ → List Hash → Looped (List ℕ)
place_all table mask i zero hashes = done table
place_all table mask i (suc k) hashes = elim (get_elem? hashes i) [
  | none ↦ outside
  | some h ↦ and_then (place table mask i h) (λ table'. place_all table' mask (i + 1) k hashes)
]

-- `mask<<1 | 1` is 2 * mask + 1.
unfoldable pub grow : KeyIndex → List Hash → Looped KeyIndex
grow ix hashes =
    let mask = 2 * ix.mask + 1 in
    and_then (place_all (replicate (length ix.table * 2) 0) mask 0 ix.count hashes)
      (λ table. done (record ix { table = table; mask = mask }))

unfoldable pub grow_if_full : KeyIndex → List Hash → Looped KeyIndex
grow_if_full ix hashes =
    if ltb (length ix.table) ((ix.count + 1) * 2) then grow ix hashes else done ix

unfoldable pub place_in : ℕ → Hash → KeyIndex → Looped KeyIndex
place_in idx h ix =
    and_then (place ix.table ix.mask idx h)
      (λ table. done (record ix { table = table; count = ix.count + 1 }))

unfoldable pub insert : KeyIndex → ℕ → Hash → String → List Hash → Looped KeyIndex
insert ix idx h key hashes = elim ix.exact [
  | some m ↦ done (record ix { exact = some ((key, idx) ∷ m) })
  | none ↦ and_then (grow_if_full ix hashes) (place_in idx h)
]
