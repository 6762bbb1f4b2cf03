-- ===== src/Modelcheck/Explore/Kept.antt =====
-- The key index of a search of modelcheck/explore.go: no lookup and no insert goes on for ever.
use testkit.Prelude.{
  str_eq, ◌<◌, get_elem?, lt-length_of_get_elem?, ℕ, ◌≡◌, ◌≢◌, refl, sym, ap, ◌∙◌, inl, inr, List,
  [], ◌∷◌, ◌++◌, Option, none, some, String, Bool-cases, arith, length, length-append,
}
use testkit.Modelcheck.Index.Defs.{
  Hash, KeyIndex, hit, miss, spin, of_option, map_get, lookup, done, insert,
}
use testkit.Modelcheck.Index.Lookup.{IsIndex, Ends, found, absent, lookup-Ends}
use testkit.Modelcheck.Index.Insert.{insert_lem}

-- The index of exact keys, whose entries are nodes, or a table that holds these hashes.
pub data Kept (ix : KeyIndex) (hs : List Hash) : Type 0 where
  keyed :
      (m : List (String × ℕ))
      → ix.exact ≡ some m
      → ((key : String) (i : ℕ) → map_get key m ≡ some i → i < length hs)
      → Kept ix hs
  hashed : IsIndex ix hs → Kept ix hs

of_option-ne : (o : Option ℕ) → of_option o ≢ spin
unfolding of_option
of_option-ne none e = cc
of_option-ne (some i) e = cc

pub lookup-Kept :
    (ix : KeyIndex) (hs : List Hash) (h : Hash) (key : String)
    → Kept ix hs
    → lookup ix h key hs ≢ spin
unfolding lookup
lookup-Kept ix hs h key (keyed m e b) s = of_option-ne (map_get key m) (rw (e, lookup) at s)
lookup-Kept ix hs h key (hashed w) s = ends (lookup-Ends ix hs w h key)
  where
    ends : Ends h ix.table ix.mask hs (lookup ix h key hs) → ⊥
    ends (found i e r) = let k : spin ≡ hit i = sym s ∙ r in cc
    ends (absent r) = let k : spin ≡ miss = sym s ∙ r in cc

-- What a lookup hits is a node.
pub hit-Kept :
    (ix : KeyIndex) (hs : List Hash) (h : Hash) (key : String) (to : ℕ)
    → Kept ix hs
    → lookup ix h key hs ≡ hit to
    → to < length hs
unfolding lookup of_option
hit-Kept ix hs h key to (keyed m e b) q = found_in (map_get key m) refl (rw (e, lookup) at q)
  where
    found_in : (o : Option ℕ) → map_get key m ≡ o → of_option o ≡ hit to → to < length hs
    found_in none g r = cc
    found_in (some i) g r = let d : i ≡ to = cc in b key to (g ∙ ap some d)
hit-Kept ix hs h key to (hashed w) q = ends (lookup-Ends ix hs w h key)
  where
    ends : Ends h ix.table ix.mask hs (lookup ix h key hs) → to < length hs
    ends (found i e r) =
        let k : hit i ≡ hit to = sym r ∙ q in
        let d : i ≡ to = cc in lt-length_of_get_elem? hs to (ap (get_elem? hs) (sym d) ∙ e)
    ends (absent r) = let k : miss ≡ hit to = sym r ∙ q in cc

pub insert-Kept :
    (ix : KeyIndex) (hs : List Hash) (h : Hash) (idx : ℕ) (key : String)
    → Kept ix hs
    → idx ≡ length hs
    → (ix' : KeyIndex) × (insert ix idx h key (hs ++ h ∷ []) ≡ done ix') × Kept ix' (hs ++ h ∷ [])
unfolding insert map_get
insert-Kept ix hs h idx key (keyed m e b) n = (
  record ix { exact = some ((key, idx) ∷ m) },
  rw (e, insert) refl,
  keyed ((key, idx) ∷ m) refl (λ k i q. inside k i q),
)
  where
    inside : (k : String) (i : ℕ) → map_get k ((key, idx) ∷ m) ≡ some i → i < length (hs ++ h ∷ [])
    inside k i q = elim (Bool-cases (str_eq key k)) [
      | inl t ↦
          let d : some idx ≡ some i = rw (map_get, t) at q in
          let w : idx ≡ i = ground arith in omega (arith, n, length-append hs (h ∷ []))
      | inr f ↦ omega (arith, b k i (rw (map_get, f) at q), length-append hs (h ∷ []))
    ]
insert-Kept ix hs h idx key (hashed w) n =
    let (ix', e, w') = insert_lem hs h ix idx key w n in (ix', e, hashed w')
