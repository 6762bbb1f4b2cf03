-- ===== src/Ctrl/Kind.antt =====
-- Kinds of objects as ctrltest/recorder.go and ctrltest/matchers.go name them.
use Prim.Native.Char.{code}
use Prim.Native.String.{◌++◌ as cat}
use testkit.Prelude.{List, [], ◌∷◌, Option, none, some, String, str_eq, ◌==◌, if◌then◌else◌}
use testkit.Ctrl.Op.{ObjectKey, Op, is_empty}

-- What stands after the last full stop.
unfoldable pub after_dot : String → Option String
after_dot String.[] = none
after_dot (String.◌∷◌ c s) = elim (after_dot s) [
  | some t ↦ some t
  | none ↦ if code c == 46 then some s else none
]

unfoldable pub kind_suffix : String → String
unfolding after_dot
kind_suffix full = elim (after_dot full) [ some t ↦ t | none ↦ full ]

-- strings.TrimSuffix.
unfoldable pub trim_suffix : String → String → String
trim_suffix String.[] suffix = ""
trim_suffix (String.◌∷◌ c s) suffix =
    if str_eq (String.◌∷◌ c s) suffix then "" else String.◌∷◌ c (trim_suffix s suffix)

pub record Expect : Type 0 where
  pub verb : String
  pub kind : String
  pub name : String

unfoldable pub expect_key : Expect → String
unfolding kind_suffix
expect_key e = cat e.verb (cat "|" (cat (kind_suffix e.kind) (cat "|" e.name)))

unfoldable pub op_key : Op → String
unfolding kind_suffix
op_key op = cat op.verb (cat "|" (cat (kind_suffix op.kind) (cat "|" op.key.name)))

unfoldable pub expect_of : Op → Expect
unfolding kind_suffix
expect_of op = record { verb = op.verb; kind = kind_suffix op.kind; name = op.key.name }

-- The five shorthands ExpectCreate to ExpectDelete.
abbrev pub expect_create : String → String → Expect
expect_create kind name = record { verb = "create"; kind = kind; name = name }

abbrev pub expect_patch : String → String → Expect
expect_patch kind name = record { verb = "patch"; kind = kind; name = name }

abbrev pub expect_status_patch : String → String → Expect
expect_status_patch kind name = record { verb = "status-patch"; kind = kind; name = name }

abbrev pub expect_update : String → String → Expect
expect_update kind name = record { verb = "update"; kind = kind; name = name }

abbrev pub expect_delete : String → String → Expect
expect_delete kind name = record { verb = "delete"; kind = kind; name = name }

-- An object on its way to the server: its own kind, which an unstructured object carries, and %T.
pub record Object : Type 0 where
  pub own_kind : String
  pub go_type : String
  pub key : ObjectKey

-- The scheme's ObjectKinds: `none` on an error.
abbrev pub Scheme : Type 0
Scheme = Object → Option (List String)

-- A `nil` scheme is `none`.
unfoldable pub kind_of : Option Scheme → Object → String
kind_of scheme obj = if is_empty obj.own_kind then by_scheme scheme else obj.own_kind
  where
    first_kind : Option (List String) → String
    first_kind (some (k ∷ ks)) = k
    first_kind (some []) = obj.go_type
    first_kind none = obj.go_type

    by_scheme : Option Scheme → String
    by_scheme none = obj.go_type
    by_scheme (some kinds) = first_kind (kinds obj)

-- An apply configuration: %T, and the accessors where it has them, each a pointer.
pub record ApplyMeta : Type 0 where
  pub name : Option String
  pub namespace : Option String
  pub kind : Option String

pub record ApplyConfig : Type 0 where
  pub go_type : String
  pub accessors : Option ApplyMeta

abbrev pub deref_string : Option String → String
deref_string none = ""
deref_string (some s) = s

-- addApply up to addKey: the kind and the key that are recorded.
unfoldable pub apply_target : ApplyConfig → String × ObjectKey
unfolding trim_suffix
apply_target obj = elim obj.accessors [
  | none ↦ (trimmed, record { namespace = ""; name = "" })
  | some m ↦ (
    if is_empty (deref_string m.kind) then trimmed else deref_string m.kind,
    record { namespace = deref_string m.namespace; name = deref_string m.name },
  )
]
  where
    trimmed : String
    trimmed = trim_suffix obj.go_type "ApplyConfiguration"
