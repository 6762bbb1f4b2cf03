-- ===== src/Ctrl/Client.antt =====
-- The recording client of ctrltest/recorder.go: each write is the wrapped client's, then one entry.
--
-- The wrapped client is a parameter with a state of its own, which also tells the time. Reads pass
-- straight through in the source and have no model.
use Prim.Native.String.{◌++◌ as cat}
use testkit.Prelude.{ℕ, List, Option, String}
use testkit.Ctrl.Op.{ObjectKey}
use testkit.Ctrl.Kind.{Object, Scheme, kind_of, ApplyConfig}
use testkit.Ctrl.Recorder.{Recorder, add, add_key, add_apply}

-- The writes of client.Client and of its subresource clients, over options `O` and patches `B`.
pub data Write (O B : Type 0) : Type 0 where
  creates updates deletes deletes_all : Object → List O → Write O B
  patches : Object → B → List O → Write O B
  applies : ApplyConfig → List O → Write O B
  sub_creates : String → Object → Object → List O → Write O B
  sub_updates : String → Object → List O → Write O B
  sub_patches : String → Object → B → List O → Write O B
  sub_applies : String → ApplyConfig → List O → Write O B

pub record Wrapped (W O B : Type 0) : Type 0 where
  pub write : W → Write O B → W × Option String
  -- The object that the call is given, as the call leaves it: a server's answer is read into it.
  pub left : W → Write O B → Object
  pub left_apply : W → Write O B → ApplyConfig
  pub clock : W → ℕ
  -- The namespace that a DeleteAllOf's options name.
  pub options_namespace : List O → String

pub record RecordingClient : Type 0 where
  pub controller : String
  pub scheme : Option Scheme

-- r.subResource + "-" + action.
abbrev pub sub_verb : String → String → String
sub_verb sub action = cat sub (cat "-" action)

module _ {W O B : Type 0} (s : Wrapped W O B) (c : RecordingClient) where
  -- What a method returns, with the state of the server and the recorder behind it.
  abbrev pub Outcome : Type 0
  Outcome = W × Recorder × Option String

  -- The call, and then the entry, made from the object as the call has left it.
  unfoldable pub recorded : Write O B → String → W → Recorder → Outcome
  unfolding add
  recorded x verb w r =
      let (w', err) = s.write w x in
      (w', add r (s.clock w') c.scheme c.controller verb (s.left w x) err, err)

  unfoldable pub recorded_apply : Write O B → String → W → Recorder → Outcome
  unfolding add_apply
  recorded_apply x verb w r =
      let (w', err) = s.write w x in
      (w', add_apply r (s.clock w') c.controller verb (s.left_apply w x) err, err)

  unfoldable pub create : Object → List O → W → Recorder → Outcome
  unfolding recorded
  create obj opts w r = recorded (creates obj opts) "create" w r

  unfoldable pub update : Object → List O → W → Recorder → Outcome
  unfolding recorded
  update obj opts w r = recorded (updates obj opts) "update" w r

  unfoldable pub patch : Object → B → List O → W → Recorder → Outcome
  unfolding recorded
  patch obj body opts w r = recorded (patches obj body opts) "patch" w r

  unfoldable pub delete : Object → List O → W → Recorder → Outcome
  unfolding recorded
  delete obj opts w r = recorded (deletes obj opts) "delete" w r

  unfoldable pub apply : ApplyConfig → List O → W → Recorder → Outcome
  unfolding recorded_apply
  apply obj opts w r = recorded_apply (applies obj opts) "apply" w r

  unfoldable pub delete_all_of : Object → List O → W → Recorder → Outcome
  unfolding add_key kind_of
  delete_all_of obj opts w r =
      let (w', err) = s.write w (deletes_all obj opts) in
      let key : ObjectKey = record { namespace = s.options_namespace opts; name = "" } in
      (
        w',
        add_key r (s.clock w') c.controller "delete-all-of"
            (kind_of c.scheme (s.left w (deletes_all obj opts))) key err,
        err,
      )

  -- recordingSubResourceWriter: Status() is the subresource "status".
  unfoldable pub sub_create : String → Object → Object → List O → W → Recorder → Outcome
  unfolding recorded
  sub_create sub obj body opts w r =
      recorded (sub_creates sub obj body opts) (sub_verb sub "create") w r

  unfoldable pub sub_update : String → Object → List O → W → Recorder → Outcome
  unfolding recorded
  sub_update sub obj opts w r = recorded (sub_updates sub obj opts) (sub_verb sub "update") w r

  unfoldable pub sub_patch : String → Object → B → List O → W → Recorder → Outcome
  unfolding recorded
  sub_patch sub obj body opts w r =
      recorded (sub_patches sub obj body opts) (sub_verb sub "patch") w r

  unfoldable pub sub_apply : String → ApplyConfig → List O → W → Recorder → Outcome
  unfolding recorded_apply
  sub_apply sub obj opts w r = recorded_apply (sub_applies sub obj opts) (sub_verb sub "apply") w r
