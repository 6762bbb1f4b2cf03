-- ===== src/Gc/Types.antt =====
-- What ctrltest/gc.go reads and writes: objects' metadata, and the API server behind the client.
--
-- The server is a parameter with a state of its own, which holds what other writers will do too, so
-- that a call may find the store changed since the call before.
use testkit.Prelude.{List, Option, Bool, ◌&&◌, String, str_eq}

pub record Key : Type 0 where
  pub api_version : String
  pub kind : String
  pub namespace : String
  pub name : String

abbrev pub key_eq : Key → Key → Bool
key_eq a b =
    str_eq a.api_version b.api_version
    && str_eq a.kind b.kind
    && str_eq a.namespace b.namespace
    && str_eq a.name b.name

-- metav1.OwnerReference, as far as the collector reads it.
pub record OwnerRef : Type 0 where
  pub api_version : String
  pub kind : String
  pub name : String
  pub uid : String

-- metav1.PartialObjectMetadata.
pub record Meta : Type 0 where
  pub key : Key
  pub uid : String
  pub resource_version : String
  pub deleting : Bool
  pub finalizers : List String
  pub owners : List OwnerRef

pub data Error : Type 0 where
  not_found conflict : Error
  failed : String → Error

pub data Reply (A : Type 0) : Type 0 where
  good : A → Reply A
  bad : Error → Reply A

-- The client's calls. Delete has preconditions on the UID and, where one is given, on the
-- resourceVersion; a patch is sent under the resourceVersion that it names. Its body is the new list.
pub record Server (W : Type 0) : Type 0 where
  pub get : W → Key → W × Reply Meta
  pub list_kind : W → String → W × Reply (List Meta)
  pub delete : W → Key → String → Option String → W × Option Error
  pub patch_owners : W → Key → String → List OwnerRef → W × Option Error
  pub patch_finalizers : W → Key → String → List String → W × Option Error
  -- The RESTMapper, with ParseGroupVersion before it: is the kind namespaced; `none` on an error.
  pub mapping : String → String → Option Bool
  -- Do two lists of references equal each other under reflect.DeepEqual.
  pub same_owners : List OwnerRef → List OwnerRef → Bool

-- The writes that the collector asks for, each with whether the server has done it.
pub data Write : Type 0 where
  deletes : Key → String → Option String → Option Error → Write
  strips : Key → String → List OwnerRef → Option Error → Write
  finalizes : Key → String → List String → Option Error → Write
