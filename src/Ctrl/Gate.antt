-- ===== src/Ctrl/Gate.antt =====
-- The namespace gate of ctrltest/interceptor.go. Its methods run under gateMu, so each is one step.
use testkit.Prelude.{
  ℕ, List, [], ◌∷◌, Bool, true, false, not, ◌&&◌, ◌||◌, String, str_eq, if◌then◌else◌,
}
use testkit.Ctrl.Op.{ObjectKey, same_key}

-- A set is the list of its members.
abbrev pub has : String → List String → Bool
has x [] = false
has x (y ∷ ys) = str_eq y x || has x ys

abbrev pub put : String → List String → List String
put x ys = if has x ys then ys else x ∷ ys

abbrev pub remove : String → List String → List String
remove x [] = []
remove x (y ∷ ys) = if str_eq y x then remove x ys else y ∷ remove x ys

-- gatedKey: a reconcile.Request is the key of an object.
pub record GatedKey : Type 0 where
  pub controller : String
  pub req : ObjectKey

abbrev pub same_gated : GatedKey → GatedKey → Bool
same_gated a b = str_eq a.controller b.controller && same_key a.req b.req

abbrev pub has_gated : GatedKey → List GatedKey → Bool
has_gated k [] = false
has_gated k (x ∷ xs) = same_gated x k || has_gated k xs

abbrev pub outside : String → List GatedKey → List GatedKey
outside ns [] = []
outside ns (k ∷ ks) = if str_eq k.req.namespace ns then outside ns ks else k ∷ outside ns ks

pub record Gate : Type 0 where
  pub active : List String
  pub paused : List String
  pub gated_once : List GatedKey

abbrev pub new_gate : Gate
new_gate = record { active = []; paused = []; gated_once = [] }

unfoldable pub clear_pause_locked : String → Gate → Gate
clear_pause_locked ns g = record g {
  paused = remove ns g.paused;
  gated_once = outside ns g.gated_once;
}

unfoldable pub activate : String → Gate → Gate
unfolding clear_pause_locked
activate ns g = clear_pause_locked ns (record g { active = put ns g.active })

unfoldable pub deactivate : String → Gate → Gate
unfolding clear_pause_locked
deactivate ns g = clear_pause_locked ns (record g { active = remove ns g.active })

unfoldable pub pause : String → Gate → Gate
unfolding clear_pause_locked
pause ns g =
    let cleared = clear_pause_locked ns (record g { active = remove ns g.active }) in
    record cleared { paused = put ns cleared.paused }

unfoldable pub is_active : String → Gate → Bool
is_active ns g = has ns g.active

unfoldable pub is_paused : String → Gate → Bool
is_paused ns g = has ns g.paused

-- PauseRetry, in milliseconds.
abbrev pub pause_retry : ℕ
pause_retry = 100

-- What a refused request gets: run after all, or a requeue and whether to record it.
pub data Refusal : Type 0 where
  admitted : Refusal
  refused : ℕ → Bool → Refusal

unfoldable pub refuse : String → ObjectKey → Gate → Gate × Refusal
refuse controller req g =
    let k : GatedKey = record { controller = controller; req = req } in
    if has req.namespace g.active
    then (g, admitted)
    else (if not (has req.namespace g.paused) then (g, refused 0 true) else (
      record g { gated_once = if has_gated k g.gated_once then g.gated_once else k ∷ g.gated_once },
      refused pause_retry (not (has_gated k g.gated_once)),
    ))
