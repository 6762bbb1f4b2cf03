-- ===== src/Ctrl/Op.antt =====
-- One recorded write of ctrltest/recorder.go, and the scope of a cursor (ctrltest/matchers.go).
use Prim.Native.String.{◌++◌ as cat}
use testkit.Prelude.{
  ℕ, Option, none, some, Bool, true, false, not, ◌&&◌, ◌||◌, String, str_eq, if◌then◌else◌,
}

-- client.ObjectKey.
pub record ObjectKey : Type 0 where
  pub namespace : String
  pub name : String

abbrev pub same_key : ObjectKey → ObjectKey → Bool
same_key a b = str_eq a.namespace b.namespace && str_eq a.name b.name

-- A Go error is the text that it renders as.
pub record Op : Type 0 where
  pub controller : String
  pub verb : String
  pub kind : String
  pub key : ObjectKey
  pub time : ℕ
  pub err : Option String

abbrev pub succeeded : Option String → Bool
succeeded none = true
succeeded (some e) = false

abbrev pub accepted : Op → Bool
accepted op = succeeded op.err

-- NamespacedName.String, then Op.String.
abbrev pub key_text : ObjectKey → String
key_text k = cat k.namespace (cat "/" k.name)

abbrev rejection : Option String → String
rejection none = ""
rejection (some e) = cat " (rejected: " (cat e ")")

unfoldable pub op_text : Op → String
op_text op = cat op.controller (
    cat " "
      (cat op.verb (cat " " (cat op.kind (cat " " (cat (key_text op.key) (rejection op.err)))))))

abbrev pub is_empty : String → Bool
is_empty s = str_eq s ""

abbrev pub in_scope : Op → String → String → Bool → Bool
in_scope op ns controller attempts =
    if not attempts && not (accepted op)
    then false
    else (if not (str_eq op.key.namespace ns)
        then false
        else is_empty controller || str_eq op.controller controller)
