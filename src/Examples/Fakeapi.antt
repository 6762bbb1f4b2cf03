-- ===== src/Examples/Fakeapi.antt =====
-- Toy objects with a spec and a status, and a tracker that keeps every version (fakeapi/tracker.go).
use testkit.Prelude.{
  ℕ, List, [], ◌∷◌, Option, none, some, Bool, true, false, ◌&&◌, ◌==◌, ==_iff, String, str_eq,
  eq_iff, if◌then◌else◌, ◌≡◌, refl, sym, ap, ◌∙◌, ◌↔◌, inl, inr, Bool-cases, Option-cases,
}
use testkit.Prelude.Int.{ℤ, pos}
use testkit.Fakeapi.Types.{
  Error, not_found, Result, good, bad, field, Meta, MetaLaws, Store, StoreLaws,
}
use testkit.Fakeapi.Tracker.{
  bump, is_dropped, keep_fields, guard_error, content, same_content, next_generation,
  stamp_generation, write_stamped, update, patch, apply,
}
use testkit.Fakeapi.Content.{Agree}
use testkit.Fakeapi.Generation.{IsNext, update_patch_lem}
use testkit.Fakeapi.History.{updates, Counts, Holds, Writable, updates_lem}
use testkit.Fakeapi.WriteBack.{
  Client, ClientLaws, copied_back, write_back_generation, written_back, called, create_func,
  update_func, Agrees, write_back_lem,
}
use testkit.Fakeapi.Applied.{apply_lem}

abbrev option_eq : Option ℕ → Option ℕ → Bool
option_eq none none = true
option_eq none (some b) = false
option_eq (some a) none = false
option_eq (some a) (some b) = a == b

option_eq_iff : (a b : Option ℕ) → (option_eq a b ≡ true) ↔ (a ≡ b)
option_eq_iff none none = (λ e. refl, λ e. refl)
option_eq_iff none (some b) = (λ e. cc, λ e. cc)
option_eq_iff (some a) none = (λ e. cc, λ e. cc)
option_eq_iff (some a) (some b) = (λ e. ap some ((==_iff a b).0 e), λ e. (==_iff a b).1 (cc))

-- Do `a` and `b` agree on the keys of the first list.
abbrev agree_on : List (String × ℕ) → List (String × ℕ) → List (String × ℕ) → Bool
agree_on [] a b = true
agree_on ((k, v) ∷ ks) a b = option_eq (field k a) (field k b) && agree_on ks a b

abbrev maps_equal : List (String × ℕ) → List (String × ℕ) → Bool
maps_equal a b = agree_on a a b && agree_on b a b

and_left : (a b : Bool) → (a && b) ≡ true → a ≡ true
and_left true b e = refl
and_left false b e = e

and_right : (a b : Bool) → (a && b) ≡ true → b ≡ true
and_right true b e = e
and_right false b e = cc

agree_on-field :
    (ks a b : List (String × ℕ)) (k : String) (v : ℕ)
    → agree_on ks a b ≡ true
    → field k ks ≡ some v
    → field k a ≡ field k b
agree_on-field [] a b k v h e = cc
agree_on-field ((x, w) ∷ ks) a b k v h e = elim (Bool-cases (str_eq x k)) [
  | inl t ↦
      let q : x ≡ k = (eq_iff x k).0 t in
      rw (← q) (
        (option_eq_iff (field x a) (field x b)).0
          (and_left (option_eq (field x a) (field x b)) (agree_on ks a b) h))
  | inr f ↦
      agree_on-field ks a b k v (and_right (option_eq (field x a) (field x b)) (agree_on ks a b) h)
        (rw f at e)
]

agree_on_all :
    (ks a b : List (String × ℕ)) → ((k : String) → field k a ≡ field k b) → agree_on ks a b ≡ true
agree_on_all [] a b h = refl
agree_on_all ((x, w) ∷ ks) a b h =
    rw ((option_eq_iff (field x a) (field x b)).1 (h x)) (agree_on_all ks a b h)

maps_equal_iff :
    (a b : List (String × ℕ)) → (maps_equal a b ≡ true) ↔ ((k : String) → field k a ≡ field k b)
maps_equal_iff a b = (to, λ h. rw (agree_on_all a a b h, agree_on_all b a b h) refl)
  where
    to : maps_equal a b ≡ true → (k : String) → field k a ≡ field k b
    to h k = elim (Option-cases (field k a)) [
      | inr (v, e) ↦ agree_on-field a a b k v (and_left (agree_on a a b) (agree_on b a b) h) e
      | inl e ↦ elim (Option-cases (field k b)) [
        | inr (v, f) ↦ agree_on-field b a b k v (and_right (agree_on a a b) (agree_on b a b) h) f
        | inl f ↦ e ∙ sym f
      ]
    ]

record Toy : Type 0 where
  name : String
  generation : ℤ
  deletes : Bool
  spec : ℕ
  status : ℕ

abbrev toy_fields : Toy → List (String × ℕ)
toy_fields o = ("metadata", 0) ∷ ("spec", o.spec) ∷ ("status", o.status) ∷ []

abbrev toy : Meta Toy ℕ
toy = record {
  accessor = λ o. none;
  name = λ o. o.name;
  generation = λ o. o.generation;
  set_generation = λ g o. record o { generation = g };
  deleting = λ o. o.deletes;
  validate = λ o. none;
  to_unstructured = λ o. good (toy_fields o);
  deep_equal = maps_equal;
}

abbrev named : List Toy → String → Result Toy
named [] n = bad not_found
named (o ∷ os) n = if str_eq o.name n then good o else named os n

abbrev toys : Store Toy (List Toy)
toys = record {
  get = λ t kind ns n. named t n;
  add = λ t o. (o ∷ t, none);
  create = λ t kind o ns. (o ∷ t, none);
  update = λ t kind o ns. (o ∷ t, none);
  patch = λ t kind o ns. (o ∷ t, none);
  apply = λ t kind o ns manager force. (o ∷ t, none);
  new_scratch = [];
}

toy_laws : MetaLaws toy
toy_laws = record {
  deep_equal_iff = maps_equal_iff;
  generation_set = λ g o. refl;
  name_set = λ g o. refl;
  accessor_set = λ g o. refl;
  deleting_set = λ g o. refl;
  to_unstructured_set = λ g o u e. (u, e, λ k n. refl);
}

toys_laws : StoreLaws toy toys
toys_laws = record {
  update_get = λ t t' kind o ns e. (
    o,
    stored t t' o (ap (λ (r : List Toy × Option Error). r.0) e),
    refl,
    refl,
    refl,
    λ u q. (u, q, λ k n. refl),
  );
}
  where
    stored : (t t' : List Toy) (o : Toy) → o ∷ t ≡ t' → named t' o.name ≡ good o
    stored t t' o e = rw (← e) (rw ((eq_iff o.name o.name).1 refl) refl)

abbrev shop : Toy
shop = record { name = "shop"; generation = pos 3; deletes = false; spec = 1; status = 0 }

abbrev ready : Toy
ready = record { name = "shop"; generation = pos 0; deletes = false; spec = 1; status = 9 }

abbrev scaled : Toy
scaled = record { name = "shop"; generation = pos 7; deletes = false; spec = 2; status = 9 }

update_patch_lem_example :
    (gen : ℤ) × IsNext toy shop scaled (toy_fields shop) (toy_fields scaled) gen
    × (update toy toys (shop ∷ []) "Shop" scaled "default" ≡ (
      record scaled { generation = gen },
      record scaled { generation = gen } ∷ shop ∷ [],
      none,
    ))
    × (patch toy toys (shop ∷ []) "Shop" scaled "default" ≡ (
      record scaled { generation = gen },
      record scaled { generation = gen } ∷ shop ∷ [],
      none,
    ))
update_patch_lem_example =
    update_patch_lem toy toy_laws toys (shop ∷ []) "Shop" scaled "default" shop (toy_fields shop)
      (toy_fields scaled) refl refl refl refl refl

apply_lem_example :
    (gen : ℤ) × (Agree (toy_fields shop) (toy_fields ready) → gen ≡ pos 3)
    × (¬ Agree (toy_fields shop) (toy_fields ready) → gen ≡ bump (pos 3))
    × (apply toy toys (shop ∷ []) "Shop" ready "default" "m" false
        ≡ (record ready { generation = gen }, record ready { generation = gen } ∷ shop ∷ [], none))
apply_lem_example =
    apply_lem toy toy_laws toys (shop ∷ []) "Shop" "default" "m" false shop ready refl refl refl
      (record {
        seeded = shop ∷ [];
        applied = ready ∷ shop ∷ [];
        merged = ready;
        adds = refl;
        applies = refl;
        reads = refl;
        old = toy_fields shop;
        new = toy_fields ready;
        converts_old = refl;
        converts_new = refl;
      })

-- The versions after the two writes.
abbrev versions : List Toy
versions = record scaled { generation = pos 4 } ∷ record ready { generation = pos 3 } ∷ shop ∷ []

two_updates : updates toy toys (shop ∷ []) "Shop" "default" (ready ∷ scaled ∷ []) ≡ some versions
unfolding update write_stamped stamp_generation guard_error next_generation same_content content
    keep_fields is_dropped bump
two_updates = refl

shop_held : Holds toy toys (shop ∷ []) "Shop" "default" "shop" (toy_fields shop) false (pos 3)
shop_held = record {
  object = shop;
  found = refl;
  accessible = refl;
  fields = toy_fields shop;
  converts = refl;
  agrees = λ k a b c d. refl;
  deletes = refl;
  generation = refl;
}

writable : (o : Toy) → o.name ≡ "shop" → Writable toy "shop" o
writable o e = record { named = e; accessible = refl; fields = toy_fields o; converts = refl }

updates_lem_example :
    (h : ℤ) × Counts toy (toy_fields shop) false (ready ∷ scaled ∷ []) (pos 3) h
    × (o : Toy) × (named versions "shop" ≡ good o)
    × (o.generation ≡ h)
updates_lem_example =
    updates_lem toy toy_laws toys toys_laws (shop ∷ []) versions "Shop" "default" "shop"
      (ready ∷ scaled ∷ []) (toy_fields shop) false (pos 3) shop_held
      (writable ready refl, (writable scaled refl, tt)) two_updates

-- A client of one stored toy, whose writes leave the caller's generation as it is.
abbrev shelf : Client Toy Toy
shelf = record {
  create = λ t o dry. (o, o, none);
  update = λ t o dry. (o, record o { generation = pos 4 }, none);
  get = λ t o. good t;
  untyped = λ o. true;
  copies = λ o. true;
  generation = λ o. o.generation;
  set_generation = λ g o. record o { generation = g };
}

shelf_laws : ClientLaws shelf
shelf_laws = record { generation_set = λ g o. refl; get_set = λ t g o. refl }

read_back : (update_func shelf none shop scaled false).0 ≡ record scaled { generation = pos 4 }
unfolding update_func called written_back write_back_generation copied_back
read_back = refl

write_back_lem_example :
    ((create_func shelf none shop scaled false).2 ≡ none
      → Agrees shelf (create_func shelf none shop scaled false))
    × ((update_func shelf none shop scaled false).2 ≡ none
        → Agrees shelf (update_func shelf none shop scaled false))
unfolding called
write_back_lem_example = write_back_lem shelf shelf_laws none shop scaled refl refl
