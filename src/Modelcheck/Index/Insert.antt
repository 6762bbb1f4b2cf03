-- ===== src/Modelcheck/Index/Insert.antt =====
-- `insert` and `grow` of modelcheck/index.go keep an index, and end.
use testkit.Prelude.{
  ℕ, suc, ◌+◌, ◌*◌, ◌^◌, ◌≤◌, ltb, ◌≡◌, refl, sym, ap, ◌∙◌, inl, inr, List, [], ◌∷◌, ◌++◌, false,
  String, Bool-cases, arith, length, replicate, length-append, length-replicate,
}
use native.Mathlib.Nat.{pow-suc}
use testkit.Modelcheck.Index.Defs.{
  done, Hash, KeyIndex, new_key_index, place_all, grow, grow_if_full, place_in, insert,
}
use testkit.Modelcheck.Index.Table.{place-Holds, place_all-Holds, Holds-replicate}
use testkit.Modelcheck.Index.Lookup.{IsIndex}

-- The fresh index of the default mode.
pub new_key_index-IsIndex : IsIndex (new_key_index false) []
unfolding new_key_index
new_key_index-IsIndex = record {
  inexact = refl;
  holds = Holds-replicate 1024 1023 refl;
  counted = refl;
  room = omega arith;
  wide = omega (arith, length-replicate {0} {A = ℕ} 1024 0);
  power = (10, length-replicate {0} {A = ℕ} 1024 0);
}

module _ (hs : List Hash) (h : Hash) where
  -- An index with a free place for one more node under the load factor.
  record IsRoomy (ix : KeyIndex) : Type 0 where
    index : IsIndex ix hs
    spare : 2 * (length hs + 1) ≤ length ix.table

  grow-IsRoomy :
      (ix : KeyIndex)
      → IsIndex ix hs
      → (ix' : KeyIndex) × (grow ix (hs ++ h ∷ []) ≡ done ix') × IsRoomy ix'
  unfolding grow
  grow-IsRoomy ix w =
      let wide = length-replicate {0} {A = ℕ} (length ix.table * 2) 0 in
      let (t, e, holds, l) =
        place_all-Holds (replicate (length ix.table * 2) 0) (2 * ix.mask + 1) 0 [] hs (h ∷ [])
          (Holds-replicate (length ix.table * 2) (2 * ix.mask + 1) (omega (arith, w.holds.size)))
          refl (omega (arith, wide, w.room, w.wide)) in
      let all : place_all (replicate (length ix.table * 2) 0) (2 * ix.mask + 1) 0 ix.count
            (hs ++ h ∷ [])
          ≡ done t =
        ap (λ k. place_all (replicate (length ix.table * 2) 0) (2 * ix.mask + 1) 0 k (hs ++ h ∷ []))
          w.counted
        ∙ e in
      (
        record ix { table = t; mask = 2 * ix.mask + 1 },
        rw (all, grow) refl,
        record {
          index = record {
            inexact = w.inexact;
            holds = holds;
            counted = w.counted;
            room = omega (arith, l, wide, w.room);
            wide = omega (arith, l, wide, w.wide);
            power = (w.power.0 + 1, l ∙ wide ∙ ap (λ k. k * 2) w.power.1 ∙ double w.power.0);
          };
          spare = omega (arith, l, wide, w.room, w.wide);
        },
      )
    where
      double : (k : ℕ) → 2 ^ k * 2 ≡ 2 ^ (k + 1)
      double k = let e : suc k ≡ k + 1 = omega arith in sym (pow-suc 2 k) ∙ ap (λ j. 2 ^ j) e

  grow_if_full-IsRoomy :
      (ix : KeyIndex)
      → IsIndex ix hs
      → (ix' : KeyIndex) × (grow_if_full ix (hs ++ h ∷ []) ≡ done ix') × IsRoomy ix'
  unfolding grow_if_full
  grow_if_full-IsRoomy ix w = elim (Bool-cases (ltb (length ix.table) ((ix.count + 1) * 2))) [
    | inl b ↦ let (ix', e, r) = grow-IsRoomy ix w in (ix', rw b e, r)
    | inr u ↦ (ix, rw u refl, record { index = w; spare = ground (arith, w.counted) })
  ]

  place_in-IsIndex :
      (ix : KeyIndex) (idx : ℕ)
      → IsRoomy ix
      → idx ≡ length hs
      → (ix' : KeyIndex) × (place_in idx h ix ≡ done ix') × IsIndex ix' (hs ++ h ∷ [])
  unfolding place_in
  place_in-IsIndex ix idx r e =
      let w = r.index in
      let (t, p, holds, l) =
        place-Holds ix.table ix.mask hs h idx w.holds e (omega (arith, r.spare, w.wide)) in
      (
        record ix { table = t; count = ix.count + 1 },
        rw (p, place_in) refl,
        record {
          inexact = w.inexact;
          holds = holds;
          counted = omega (arith, w.counted, length-append hs (h ∷ []));
          room = omega (arith, l, r.spare, length-append hs (h ∷ []));
          wide = omega (arith, l, w.wide);
          power = (w.power.0, l ∙ w.power.1);
        },
      )

  -- Inserting the next node, whose hash has just been appended to the column, always ends and gives
  -- an index that holds the old nodes and the new one, at most half full, growing where it must.
  pub insert_lem :
      (ix : KeyIndex) (idx : ℕ) (key : String)
      → IsIndex ix hs
      → idx ≡ length hs
      → (ix' : KeyIndex) × (insert ix idx h key (hs ++ h ∷ []) ≡ done ix')
        × IsIndex ix' (hs ++ h ∷ [])
  unfolding insert
  insert_lem ix idx key w e =
      let (ix₁, p, r) = grow_if_full-IsRoomy ix w in
      let (ix₂, q, v) = place_in-IsIndex ix₁ idx r e in
      (ix₂, rw (w.inexact, insert) (rw (p, insert) q), v)
