-- ===== src/Ctrl/Unconverged.antt =====
-- Which controllers' last word on an object was an error (Unconverged in ctrltest/quiescence.go).
use Prim.Native.String.{◌++◌ as cat}
use testkit.Prelude.{
  List, [], ◌∷◌, Option, none, some, String, ltb, if◌then◌else◌, sort_by, text_le,
}
use testkit.Ctrl.Op.{key_text}
use testkit.Ctrl.Gate.{GatedKey, same_gated}
use testkit.Ctrl.Intercept.{Reconcile, Interceptor, in_namespace}

-- A group is a controller with a request's key; the map is the list of its entries.
abbrev pub Latest : Type 0
Latest = List (GatedKey × Reconcile)

abbrev pub group_of : Reconcile → GatedKey
group_of r = record { controller = r.controller; req = r.request }

abbrev pub look : GatedKey → Latest → Option Reconcile
look g [] = none
look g ((h, r) ∷ m) = if same_gated h g then some r else look g m

abbrev pub upsert : GatedKey → Reconcile → Latest → Latest
upsert g r [] = (g, r) ∷ []
upsert g r ((h, x) ∷ m) = if same_gated h g then (h, r) ∷ m else (h, x) ∷ upsert g r m

-- The loop's body, over the entry of the record's group.
abbrev pub put_latest : Option Reconcile → Reconcile → Latest → Latest
put_latest none r m = upsert (group_of r) r m
put_latest (some prev) r m = if ltb r.start prev.start then m else upsert (group_of r) r m

abbrev pub note_latest : Reconcile → Latest → Latest
note_latest r m = if r.gated then m else put_latest (look (group_of r) m) r m

abbrev pub note_all : List Reconcile → Latest → Latest
note_all [] m = m
note_all (r ∷ rs) m = note_all rs (note_latest r m)

abbrev pub error_line : GatedKey → String → String
error_line g e = cat g.controller (cat " " (cat (key_text g.req) (cat ": " e)))

abbrev pub error_lines : Latest → List String
error_lines [] = []
error_lines ((g, r) ∷ m) = elim r.err [
  | none ↦ error_lines m
  | some e ↦ error_line g e ∷ error_lines m
]

unfoldable pub unconverged : Interceptor → String → List String
unfolding in_namespace sort_by
unconverged i ns = sort_by text_le (error_lines (note_all (in_namespace i ns) []))
