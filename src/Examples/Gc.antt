-- ===== src/Examples/Gc.antt =====
-- A small store with an owner that is gone and one that is not (ctrltest/gc.go).
use testkit.Prelude.{
  List, [], ◌∷◌, none, some, true, false, String, str_eq, if◌then◌else◌, ◌≡◌, ◌≢◌, refl, here,
}
use testkit.Gc.Types.{
  OwnerRef, strips, Key, key_eq, Meta, not_found, Reply, good, bad, Server, deletes,
}
use testkit.Gc.Collect.{
  resolved, has_text, strip_owner_refs, without, absent, cached, look_up, remember, resolve_read,
  resolve_key, resolve_owner, dangles, all_dangle, delete_live_on, delete_live, classified, judged,
  classify, act, collect_live, collect_read, collect,
}
use testkit.Gc.Sweep.{
  noted, finalizers_of, finalizers_all, background_refs, background_one, background, sweep,
  put_first, list_more, list_all, sweep_listed, tick,
}
use testkit.Gc.Strip.{Stripped, collect_strips_lem}
use testkit.Gc.Safe.{AllGone, collect_deletes_lem}

abbrev at : List Meta → Key → Reply Meta
at [] k = bad not_found
at (m ∷ ms) k = if key_eq m.key k then good m else at ms k

abbrev of_kind : List Meta → String → List Meta
of_kind [] kind = []
of_kind (m ∷ ms) kind = if str_eq m.key.kind kind then m ∷ of_kind ms kind else of_kind ms kind

abbrev without_key : List Meta → Key → List Meta
without_key [] k = []
without_key (m ∷ ms) k = if key_eq m.key k then without_key ms k else m ∷ without_key ms k

-- A store that nobody else writes to.
abbrev store : Server (List Meta)
store = record {
  get = λ w k. (w, at w k);
  list_kind = λ w kind. (w, good (of_kind w kind));
  delete = λ w k uid rv. (without_key w k, none);
  patch_owners = λ w k rv owners. (w, none);
  patch_finalizers = λ w k rv finalizers. (w, none);
  mapping = λ version kind. some true;
  same_owners = λ a b. true;
}

abbrev pod_key : Key
pod_key = record { api_version = "v1"; kind = "Pod"; namespace = "ns"; name = "pod" }

abbrev pod : Meta
pod = record {
  key = pod_key;
  uid = "u1";
  resource_version = "7";
  deleting = false;
  finalizers = [];
  owners = record { api_version = "apps/v1"; kind = "ReplicaSet"; name = "rs"; uid = "u0" } ∷ [];
}

pod_deleted :
    (tick store true 5 ("Pod" ∷ []) (pod ∷ [])).1 ≡ deletes pod_key "u1" (some "7") none ∷ []
unfolding tick sweep_listed list_all list_more put_first sweep finalizers_all finalizers_of noted
    background background_one background_refs all_dangle resolve_owner resolve_key look_up cached
    resolve_read remember absent dangles collect collect_read collect_live classify judged
    classified act delete_live delete_live_on
pod_deleted = refl

collected : (collect store (pod ∷ []) pod).1 ≡ deletes pod_key "u1" (some "7") none ∷ []
unfolding resolve_owner resolve_key look_up resolve_read absent collect collect_read collect_live
    classify judged classified act delete_live delete_live_on
collected = refl

collect_deletes_lem_example :
    (w' : List Meta) × (live : Meta) × (store.get (pod ∷ []) pod_key ≡ (w', good live))
    × (live.uid ≡ "u1")
    × (live.owners ≢ [])
    × AllGone store w' live.key.namespace live.owners
collect_deletes_lem_example =
    collect_deletes_lem store (pod ∷ []) pod pod_key "u1" (some "7") none (rw collected (here refl))

abbrev set_key : Key
set_key = record { api_version = "apps/v1"; kind = "ReplicaSet"; namespace = "ns"; name = "rs2" }

abbrev owner_set : Meta
owner_set = record {
  key = set_key;
  uid = "u2";
  resource_version = "3";
  deleting = false;
  finalizers = [];
  owners = [];
}

abbrev set_ref : OwnerRef
set_ref = record { api_version = "apps/v1"; kind = "ReplicaSet"; name = "rs2"; uid = "u2" }

-- A pod of two owners, the first one gone.
abbrev shared : Meta
shared = record pod {
  owners =
      record { api_version = "apps/v1"; kind = "ReplicaSet"; name = "rs"; uid = "u0" }
      ∷ set_ref
      ∷ [];
}

shared_stripped :
    (collect store (shared ∷ owner_set ∷ []) shared).1 ≡ strips pod_key "7" (set_ref ∷ []) none ∷ []
unfolding resolve_owner resolve_key look_up resolve_read resolved has_text absent collect
    collect_read collect_live classify judged classified act strip_owner_refs without
shared_stripped = refl

collect_strips_lem_example :
    (w' : List Meta) × (live : Meta) × (store.get (shared ∷ owner_set ∷ []) pod_key
      ≡ (w', good live))
    × Stripped store w' live "7" (set_ref ∷ [])
collect_strips_lem_example =
    collect_strips_lem store (shared ∷ owner_set ∷ []) shared pod_key "7" (set_ref ∷ []) none
      (rw shared_stripped (here refl))
