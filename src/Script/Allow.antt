-- ===== src/Script/Allow.antt =====
-- What a step permits, in ctrltest/script.go: its forms, their validation, and their leaves in order.
use testkit.Prelude.{
  ℕ, List, [], ◌∷◌, ◌++◌, Option, none, some, Bool, true, false, not, ◌&&◌, ◌||◌, String, str_eq,
  ltb, if◌then◌else◌, length,
}
use testkit.Ctrl.Op.{ObjectKey, is_empty}

-- An event of the stream (ctrltest/events.go), without its time and transitions, which no step reads.
pub record Event : Type 0 where
  pub type : String
  pub kind : String
  pub key : ObjectKey
  pub changed : List String

pub record LeafAllow : Type 0 where
  pub typ : String
  pub kind : String
  pub name : String
  pub changed : List String

-- The form is the constructor; `unset` is the zero value.
pub data Allow : Type 0 where
  unset quiet : Allow
  leaf : LeafAllow → Allow
  before : Allow → Allow → Allow

abbrev pub changed : String → String → List String → Allow
changed kind name paths =
    leaf (record { typ = "modified"; kind = kind; name = name; changed = paths })

abbrev pub added : String → String → Allow
added kind name = leaf (record { typ = "added"; kind = kind; name = name; changed = [] })

abbrev pub deleted : String → String → Allow
deleted kind name = leaf (record { typ = "deleted"; kind = kind; name = name; changed = [] })

-- slices.Contains.
abbrev pub contains : List String → String → Bool
contains [] x = false
contains (y ∷ ys) x = str_eq y x || contains ys x

abbrev pub contains_all : List String → List String → Bool
contains_all have [] = true
contains_all have (x ∷ xs) = contains have x && contains_all have xs

abbrev pub matches : LeafAllow → Event → Bool
matches l ev =
    if not (str_eq l.kind ev.kind) || not (str_eq l.name ev.key.name)
    then false
    else (if not (is_empty l.typ) && not (str_eq l.typ ev.type)
        then false
        else contains_all ev.changed l.changed)

pub data Invalid : Type 0 where
  no_permission quiet_combined empty_name quiet_nested zero_value : Invalid

abbrev first_invalid : Option Invalid → Option Invalid → Option Invalid
first_invalid (some e) rest = some e
first_invalid none rest = rest

unfoldable pub validate_allow : Allow → Bool → Option Invalid
validate_allow unset nested = some zero_value
validate_allow quiet nested = if nested then some quiet_nested else none
validate_allow (leaf l) nested =
    if is_empty l.kind || is_empty l.name then some empty_name else none
validate_allow (before a b) nested = first_invalid (validate_allow a true) (validate_allow b true)

abbrev is_quiet : Allow → Bool
is_quiet quiet = true
is_quiet _ = false

-- The loop, over how many permissions there are.
validate_each : ℕ → List Allow → Option Invalid
unfolding validate_allow
validate_each n [] = none
validate_each n (a ∷ more) =
    if is_quiet a && ltb 1 n
    then some quiet_combined
    else first_invalid (validate_allow a false) (validate_each n more)

unfoldable pub validate_allows : List Allow → Option Invalid
unfolding validate_each
validate_allows [] = some no_permission
validate_allows (a ∷ more) = validate_each (length (a ∷ more)) (a ∷ more)

-- An ordering is a pair of leaves by their numbers.
abbrev pub Order : Type 0
Order = List (ℕ × ℕ)

abbrev pub pair_with : ℕ → List ℕ → Order
pair_with earlier [] = []
pair_with earlier (later ∷ more) = (earlier, later) ∷ pair_with earlier more

abbrev pub pairs : List ℕ → List ℕ → Order
pairs [] cur = []
pairs (earlier ∷ prev) cur = pair_with earlier cur ++ pairs prev cur

-- The leaves and the orderings so far; the numbers of the leaves below.
unfoldable pub walk : Allow → List LeafAllow → Order → List LeafAllow × Order × List ℕ
walk unset leaves order = (leaves, order, [])
walk quiet leaves order = (leaves, order, [])
walk (leaf l) leaves order = (leaves ++ (l ∷ []), order, length leaves ∷ [])
walk (before a b) leaves order =
    let (leaves', order', prev) = walk a leaves order in
    let (leaves'', order'', cur) = walk b leaves' order' in
    (leaves'', order'' ++ pairs prev cur, prev ++ cur)

unfoldable pub walk_all : List Allow → List LeafAllow → Order → List LeafAllow × Order
unfolding walk
walk_all [] leaves order = (leaves, order)
walk_all (a ∷ more) leaves order =
    let (leaves', order', numbers) = walk a leaves order in walk_all more leaves' order'

unfoldable pub flatten_allows : List Allow → List LeafAllow × Order
unfolding walk_all
flatten_allows allow = walk_all allow [] []
