-- ===== src/Etcd/Build/Accepted.antt =====
-- New of etcdsim/etcdsim.go: which member lists it accepts, and the cluster that it builds.
use testkit.Prelude.{
  ℕ, ◌≡◌, refl, ◌≢◌, ◌↔◌, ==_iff, List, [], ◌∷◌, map, false, eq_iff, arith, All, here, Distinct,
  inl, inr,
}
use testkit.Etcd.Types.{Member, MemberState, ok, Cluster, >>=-eq-ok}
use testkit.Etcd.Invariant.{IsValid, LeaderVotes}
use testkit.Etcd.Build.Defs.{
  has_text, has_id, Seen, nothing_seen, admit, store, add_members, first_round, empty_cluster, new,
}

-- Two members share no name, no endpoint and no ID.
pub record Differs (m x : Member) : Type 0 where
  pub name : m.name ≢ x.name
  pub endpoint : m.endpoint ≢ x.endpoint
  pub id : m.id ≢ x.id

abbrev pub AllDiffer : List Member → Type 0
AllDiffer [] = Unit
AllDiffer (m ∷ ms) = All (Differs m) ms × AllDiffer ms

record Free (seen : Seen) (m : Member) : Type 0 where
  name : has_text seen.names m.name ≡ false
  endpoint : has_text seen.endpoints m.endpoint ≡ false
  id : has_id seen.ids m.id ≡ false

push : Seen → Member → Seen
push seen m = record {
  names = m.name ∷ seen.names;
  endpoints = m.endpoint ∷ seen.endpoints;
  ids = m.id ∷ seen.ids;
}

Free-push : (seen : Seen) (m x : Member) → Free (push seen m) x ↔ (Differs m x × Free seen x)
unfolding push has_text has_id
Free-push seen m x = (
  λ f. (
    record {
      name = λ e. ground (arith, f.name, (eq_iff m.name x.name).1 e);
      endpoint = λ e. ground (arith, f.endpoint, (eq_iff m.endpoint x.endpoint).1 e);
      id = λ e. ground (arith, f.id, (==_iff m.id x.id).1 e);
    },
    record {
      name = ground (arith, f.name);
      endpoint = ground (arith, f.endpoint);
      id = ground (arith, f.id);
    },
  ),
  λ (d, f). record {
    name = ground (arith, f.name, d.name, eq_iff m.name x.name);
    endpoint = ground (arith, f.endpoint, d.endpoint, eq_iff m.endpoint x.endpoint);
    id = ground (arith, f.id, d.id, ==_iff m.id x.id);
  },
)

admit-Free : (seen : Seen) (m : Member) → Free seen m → admit seen m ≡ ok (push seen m)
unfolding admit push
admit-Free seen m f = rw (f.name, f.endpoint, f.id) refl

admit-eq-ok :
    (seen : Seen) (m : Member) {s : Seen} → admit seen m ≡ ok s → Free seen m × (s ≡ push seen m)
unfolding admit push
admit-eq-ok seen m e =
    (record { name = ground arith; endpoint = ground arith; id = ground arith }, ground arith)

All-pushed :
    (seen : Seen) (m : Member) (ms : List Member)
    → All (Free (push seen m)) ms ↔ (All (Differs m) ms × All (Free seen) ms)
All-pushed seen m [] = (λ _. (tt, tt), λ _. tt)
All-pushed seen m (x ∷ xs) = (
  λ (f, fs).
      let (d, g) = (Free-push seen m x).0 f in
      let (ds, gs) = (All-pushed seen m xs).0 fs in ((d, ds), (g, gs)),
  λ (d, g). ((Free-push seen m x).1 (d.0, g.0), (All-pushed seen m xs).1 (d.1, g.1)),
)

add_members-Free :
    (seen : Seen) (ms : List Member)
    → AllDiffer ms
    → All (Free seen) ms
    → add_members seen ms ≡ ok (map store ms)
unfolding add_members
add_members-Free seen [] d f = refl
add_members-Free seen (m ∷ ms) d f =
    rw
      (
        admit-Free seen m f.0,
        add_members-Free (push seen m) ms d.1 ((All-pushed seen m ms).1 (d.0, f.1)),
      )
      refl

add_members-eq-ok :
    (seen : Seen) (ms : List Member) {ns : List MemberState}
    → add_members seen ms ≡ ok ns
    → AllDiffer ms × All (Free seen) ms × (ns ≡ map store ms)
unfolding add_members
add_members-eq-ok seen [] e = (tt, tt, cc)
add_members-eq-ok seen (m ∷ ms) {ns} e =
    let (s, a, e') = >>=-eq-ok (admit seen m) _ e in
    let (f, p) = admit-eq-ok seen m a in
    let (rest, b, e'') = >>=-eq-ok (add_members s ms) _ e' in
    let b' : add_members (push seen m) ms ≡ ok rest = rw (← p) b in
    let (d, g, q) = add_members-eq-ok (push seen m) ms b' in
    let (h, k) = (All-pushed seen m ms).0 g in ((h, d), (f, k), cc)

Free-nothing : (ms : List Member) → All (Free nothing_seen) ms
unfolding has_text has_id
Free-nothing [] = tt
Free-nothing (m ∷ ms) = (record { name = refl; endpoint = refl; id = refl }, Free-nothing ms)

-- The first member of a list, the initial leader, votes.
abbrev pub FirstVotes : List Member → Type 0
FirstVotes [] = Unit
FirstVotes (m ∷ ms) = m.learner ≡ false

abbrev pub first_id : List Member → ℕ
first_id [] = 0
first_id (m ∷ ms) = m.id

-- New returns for exactly the lists whose members share no name, endpoint or ID and whose first
-- member votes; then the cluster holds those members, its leader is the first one's ID, and the
-- logs, queues and hooks are empty. For every other list it panics.
pub new_iff {ℓ} :
    (H : Type ℓ) (ms : List Member)
    → (AllDiffer ms → FirstVotes ms → new ms ≡ ok (empty_cluster H (map store ms) (first_id ms)))
      × ((c : Cluster H)
          → new ms ≡ ok c
          → AllDiffer ms × FirstVotes ms × (c ≡ empty_cluster H (map store ms) (first_id ms)))
unfolding new
new_iff H [] = (λ d v. refl, λ c e. (tt, tt, cc))
new_iff H (m ∷ ms) = (
  λ d v.
      rw
        (
          admit-Free nothing_seen m (Free-nothing (m ∷ ms)).0,
          first_vote v,
          add_members-Free (push nothing_seen m) ms d.1
              ((All-pushed nothing_seen m ms).1 (d.0, Free-nothing ms)),
        )
        refl,
  λ c e.
      let (s, a, e₁) = >>=-eq-ok (admit nothing_seen m) _ e in
      let (f, p) = admit-eq-ok nothing_seen m a in
      let (i, b, e₂) = >>=-eq-ok (first_round m) _ e₁ in
      let (rest, r, e₃) = >>=-eq-ok (add_members s ms) _ e₂ in
      let r' : add_members (push nothing_seen m) ms ≡ ok rest = rw (← p) r in
      let (d, g, q) = add_members-eq-ok (push nothing_seen m) ms r' in
      let (h, k) = (All-pushed nothing_seen m ms).0 g in
      let (v, j) = first_voted i b in ((h, d), v, cc),
)
  where
    first_vote : m.learner ≡ false → first_round m ≡ ok m.id
    first_vote v = unfold first_round in ground arith

    first_voted : (i : ℕ) → first_round m ≡ ok i → (m.learner ≡ false) × (i ≡ m.id)
    first_voted i b = unfold first_round in (ground arith, ground arith)

module _ {κ} {K : Type κ} (key : Member → K) where
  All-store :
      (k : K) (ms : List Member)
      → All (λ x. k ≢ key x) ms
      → All (λ (y : MemberState). k ≢ key y.spec) (map store ms)
  unfolding store
  All-store k [] h = tt
  All-store k (m ∷ ms) h = (h.0, All-store k ms h.1)

  Distinct-store :
      (differ : (m x : Member) → Differs m x → key m ≢ key x) (ms : List Member)
      → AllDiffer ms
      → Distinct (λ (y : MemberState). key y.spec) (map store ms)
  unfolding store
  Distinct-store differ [] d = tt
  Distinct-store differ (m ∷ ms) d =
      (All-store (key m) ms (weaken ms d.0), Distinct-store differ ms d.1)
    where
      weaken : (xs : List Member) → All (Differs m) xs → All (λ x. key m ≢ key x) xs
      weaken [] h = tt
      weaken (x ∷ xs) h = (differ m x h.0, weaken xs h.1)

votes_first : (ms : List Member) → FirstVotes ms → LeaderVotes (first_id ms) (map store ms)
unfolding store
votes_first [] v = inr (λ m h. elim h [ ], refl)
votes_first (m ∷ ms) v = inl (store m, here refl, refl, v)

-- A cluster that New returns has members of distinct names, endpoints and IDs, and a leader that
-- votes.
pub new-IsValid {ℓ} : {H : Type ℓ} (ms : List Member) {c : Cluster H} → new ms ≡ ok c → IsValid c
unfolding empty_cluster store
new-IsValid {H} ms {c} e =
    let (d, v, q) = (new_iff H ms).1 c e in
    rw q (record {
      names = Distinct-store (λ m. m.name) (λ m x h. h.name) ms d;
      endpoints = Distinct-store (λ m. m.endpoint) (λ m x h. h.endpoint) ms d;
      ids = Distinct-store (λ m. m.id) (λ m x h. h.id) ms d;
      votes = votes_first ms v;
    })
