-- ===== src/Etcd/Order.antt =====
-- The iteration order of the map `members` (etcdsim/etcdsim.go) is never seen.
use testkit.Prelude.{
  ℕ, ◌≡◌, sym, ap, ◌∙◌, inl, inr, List, none, some, String, str_eq, eq_iff, Option-cases, In,
  SameMembers, Distinct, Distinct-injective, find-SameMembers,
}
use testkit.Etcd.Types.{MemberState, member_named}
use testkit.Etcd.Faults.{sorted}
use testkit.Etcd.Client.{by_endpoint, last_with_id}
use testkit.Etcd.Invariant.{IsValidFor}
use testkit.Etcd.Sorting.{sorted-SameMembers}
use testkit.Etcd.Transfer.{last_with_id-In, last_with_id-none}

last_with_id_found :
    (i : ℕ) (ms : List MemberState) (t : MemberState)
    → Distinct (λ x. x.id) ms
    → In t ms
    → t.id ≡ i
    → last_with_id i ms none ≡ some t
last_with_id_found i ms t d h e = elim (Option-cases (last_with_id i ms none)) [
  | inl n ↦ absurd (last_with_id-none i ms none t h e n)
  | inr (u, q) ↦ elim (last_with_id-In i ms none q) [
    | inr bad ↦ cc
    | inl (k, r) ↦
        q ∙ ap some (Distinct-injective (λ (x : MemberState). x.id) ms u t d k h (r ∙ sym e))
  ]
]

-- Two valid lists of the same members, in any order, give the same member for every name, every
-- endpoint and every ID, and the same sorted listing.
pub map_order_free :
    (leader : ℕ) (ms ns : List MemberState)
    → IsValidFor leader ms
    → IsValidFor leader ns
    → SameMembers ms ns
    → (name ep : String) (i : ℕ)
    → (member_named name ns ≡ member_named name ms)
      × (by_endpoint ep ns ≡ by_endpoint ep ms)
      × (last_with_id i ns none ≡ last_with_id i ms none)
      × (sorted ns ≡ sorted ms)
unfolding by_endpoint
map_order_free leader ms ns v w same name ep i = (
  find-SameMembers (λ x. str_eq x.name name) ms ns same
      (λ a b h k p q.
        Distinct-injective (λ (x : MemberState). x.name) ms a b v.names h k
          ((eq_iff a.name name).0 p ∙ sym ((eq_iff b.name name).0 q))),
  find-SameMembers (λ x. str_eq x.endpoint ep) ms ns same
      (λ a b h k p q.
        Distinct-injective (λ (x : MemberState). x.endpoint) ms a b v.endpoints h k
          ((eq_iff a.endpoint ep).0 p ∙ sym ((eq_iff b.endpoint ep).0 q))),
  by_id,
  sym (sorted-SameMembers ms ns v.ids w.ids same),
)
  where
    by_id : last_with_id i ns none ≡ last_with_id i ms none
    by_id = elim (Option-cases (last_with_id i ns none)) [
      | inr (t, e) ↦ elim (last_with_id-In i ns none e) [
        | inl (h, q) ↦ e ∙ sym (last_with_id_found i ms t v.ids ((same t).1 h) q)
        | inr bad ↦ cc
      ]
      | inl n ↦ elim (Option-cases (last_with_id i ms none)) [
        | inl o ↦ n ∙ sym o
        | inr (t, e) ↦ elim (last_with_id-In i ms none e) [
          | inl (h, q) ↦ absurd (last_with_id-none i ns none t ((same t).0 h) q n)
          | inr bad ↦ cc
        ]
      ]
    ]
