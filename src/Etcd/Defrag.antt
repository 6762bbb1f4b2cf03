-- ===== src/Etcd/Defrag.antt =====
-- Defragment of etcdsim/etcdsim.go, and what Status reports after it.
use testkit.Prelude.{
  ◌≡◌, refl, ◌∙◌, ◌≢◌, [], ◌∷◌, ◌++◌, none, true, false, String, arith, In, Distinct-injective,
}
use testkit.Prelude.Int.{ℤ, pos, negsuc, leb_ℤ, max_ℤ}
use testkit.Etcd.Types.{MemberState, Method, Cluster, reply}
use testkit.Etcd.Client
use testkit.Etcd.Client.{Client, status_of, shrink}
use testkit.Etcd.Invariant.{IsValid}
use testkit.Etcd.Members.{In-modify_hit, In-modify_miss}
use testkit.Etcd.Reach.{shrink-IsValid}
use testkit.Etcd.Calls.{IsQuiet, defragmented, defragment_cases, status_found}

-- What SetDBSize demands of a member's sizes.
pub record IsSized (m : MemberState) : Type 0 where
  pub positive : leb_ℤ (pos 1) m.db_size ≡ true
  pub used : leb_ℤ (pos 0) m.in_use ≡ true
  pub within : leb_ℤ m.in_use m.db_size ≡ true

abbrev pub shrunk : MemberState → MemberState
shrunk m = record m { spec = record m.spec { db_size = max_ℤ m.in_use (pos 1) } }

-- A defragmented member is not larger than before, and nothing but a database of size 1 with no
-- live data is left to reclaim.
pub shrunk-IsSized :
    (m : MemberState)
    → IsSized m
    → IsSized (shrunk m)
      × (leb_ℤ (shrunk m).db_size m.db_size ≡ true)
      × (leb_ℤ (pos 1) m.in_use ≡ true → (shrunk m).db_size ≡ m.in_use)
shrunk-IsSized m s = go m.in_use m.db_size s.positive s.used s.within
  where
    go :
        (u d : ℤ)
        → leb_ℤ (pos 1) d ≡ true
        → leb_ℤ (pos 0) u ≡ true
        → leb_ℤ u d ≡ true
        → IsSized (shrunk (record m { spec = record m.spec { db_size = d }; in_use = u }))
          × (leb_ℤ (max_ℤ u (pos 1)) d ≡ true)
          × (leb_ℤ (pos 1) u ≡ true → max_ℤ u (pos 1) ≡ u)
    go (pos a) (pos b) p q r = (
      record { positive = ground arith; used = ground arith; within = ground arith },
      ground arith,
      λ h. ground arith,
    )
    go (negsuc a) d p q r = cc
    go (pos a) (negsuc b) p q r = cc

module _ {ℓ} {H : Type ℓ} (run : H → String → Cluster H → Cluster H) (cl : Client) where
  -- In a valid cluster, with no hooks or failures for Defragment and Status, through an open client
  -- and under contexts that are not done: Defragment of a healthy member succeeds and is logged, and
  -- a Status right after it is that of the member with its database size set to max(inUse, 1) and
  -- nothing else changed. The database has not grown where its sizes were as SetDBSize demands, and
  -- every other member is as it was.
  pub defragment-status :
      (ep : String) (c : Cluster H) (m : MemberState)
      → cl.is_closed ≡ false
      → IsQuiet Method.defragment c
      → IsQuiet Method.status c
      → IsValid c
      → In m c.members
      → m.endpoint ≡ ep
      → m.healthy ≡ true
      → (d : Cluster H) × (Client.defragment run cl none ep c ≡ (d, reply tt))
        × (d.defrag_log ≡ c.defrag_log ++ ep ∷ [])
        × (Client.status run cl none ep d ≡ (d, reply (status_of c.leader (shrunk m))))
        × (IsSized m → leb_ℤ (shrunk m).db_size m.db_size ≡ true)
        × ((x : MemberState) → In x c.members → x ≢ m → In x d.members)
  unfolding shrink
  defragment-status ep c m o q s v h e b =
      let d = defragmented ep m c in
      let valid = shrink-IsValid ep c m v in
      (
        d,
        defragment_cases run cl ep c m o q v h e ∙ rw b refl,
        refl,
        status_found run cl ep d (shrunk m) o (record { hooks = s.hooks; failures = s.failures })
            (rw b at valid) (In-modify_hit m.name shrunk c.members m h refl) e,
        λ sized. (shrunk-IsSized m sized).1,
        λ x k ne. In-modify_miss m.name shrunk c.members x k (λ r.
            ne (Distinct-injective (λ (y : MemberState). y.name) c.members x m v.names k h r)),
      )
