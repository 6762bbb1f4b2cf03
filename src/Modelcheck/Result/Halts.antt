-- ===== src/Modelcheck/Result/Halts.antt =====
-- The calls of Explore (modelcheck/explore.go) that have no loop of their own go on no longer than
-- their lists.
use testkit.Prelude.{
  ℕ, List, [], ◌∷◌, Option, none, some, Bool, true, false, Bool-cases, String, if◌then◌else◌,
  get_elem?, inl, inr,
}
use testkit.Modelcheck.System.{
  State, Recoverable, System, Step, Run, ok, panic, not_confirmed, key_mismatch, has_name, ◌>>=◌,
  Safe, >>=-Safe,
}
use testkit.Modelcheck.Index.Defs.{Hash, hash_eq}
use testkit.Modelcheck.Explore.Defs.{Core, Label}
use testkit.Modelcheck.Trap.Defs.{named_actors, allowed_for, resolve_recoverables}
use testkit.Modelcheck.Replay.Defs.{
  at_index, present, names_of, nth_named, replayed, label_of, step, root, rebuilt, checked,
  shown_of, shown, last_of, steps, confirm,
}
use testkit.Modelcheck.Result.{covered}

-- A run that does not go on for ever.
abbrev pub Halts {ℓ} : {A : Type ℓ} → Run A → Type 0
Halts m = Safe m (λ a. Unit)

module _ {ℓ κ} {A : Type ℓ} {B : Type κ} where
  >>=-Halts : (m : Run A) (f : A → Run B) → Halts m → ((a : A) → Halts (f a)) → Halts (m >>= f)
  >>=-Halts m f s h = >>=-Safe m f (λ a. Unit) (λ b. Unit) s (λ a e u. h a)

present-Halts {ℓ} : {A : Type ℓ} (o : Option A) → Halts (present o)
unfolding present
present-Halts none = λ e. cc
present-Halts (some a) = tt

pub at_index-Halts {ℓ} : {A : Type ℓ} (xs : List A) (i : ℕ) → Halts (at_index xs i)
unfolding at_index
at_index-Halts xs i = present-Halts (get_elem? xs i)

pub covered-Halts :
    (names : List String) (labels : List Label) (ns : List ℕ) (cov : List (String × ℕ))
    → Halts (covered names labels ns cov)
unfolding covered
covered-Halts names labels [] cov = tt
covered-Halts names [] (n ∷ ns) cov = tt
covered-Halts names (l ∷ ls) (n ∷ ns) cov =
    >>=-Halts (at_index names l.actor) _ (at_index-Halts names l.actor)
      (λ name. covered-Halts names ls ns _)

named_actors-Halts :
    (registered : List String) (property : String) (ns : List String)
    → Halts (named_actors registered property ns)
unfolding named_actors
named_actors-Halts registered property [] = tt
named_actors-Halts registered property (n ∷ ns) = elim (Bool-cases (has_name registered n)) [
  | inl t ↦ rw t (
      >>=-Halts (named_actors registered property ns) _ (named_actors-Halts registered property ns)
        (λ rest. tt))
  | inr f ↦ rw f (λ e. cc)
]

module _ {ℓ} {S : Type ℓ} where
  pub confirm-Halts :
      (xs : List (Step S)) (p : S → Bool) (name : String) → Halts (confirm xs p name)
  unfolding confirm last_of
  confirm-Halts xs p name = >>=-Halts (last_of xs) _ (last_of-Halts xs) (λ x. held (p x.state))
    where
      last_of-Halts : (xs : List (Step S)) → Halts (last_of xs)
      last_of-Halts [] = λ e. cc
      last_of-Halts (x ∷ []) = tt
      last_of-Halts (x ∷ y ∷ ys) = last_of-Halts (y ∷ ys)

      held : (b : Bool) → Halts (if b then ok xs else panic (not_confirmed name))
      held true = tt
      held false = λ e. cc

  pub resolve-Halts :
      (sys : System S) (rs : List (Recoverable S)) → Halts (resolve_recoverables sys rs)
  unfolding resolve_recoverables allowed_for
  resolve-Halts sys [] = tt
  resolve-Halts sys (r ∷ rs) =
      >>=-Halts (allowed_for sys r) _ (for_one r.actors)
        (λ set. >>=-Halts (resolve_recoverables sys rs) _ (resolve-Halts sys rs) (λ sets. tt))
    where
      for_one :
          (names : List String)
          → Halts
              (elim names [ [] ↦ ok sys.names | n ∷ ns ↦ named_actors sys.names r.name (n ∷ ns) ])
      for_one [] = tt
      for_one (n ∷ ns) = named_actors-Halts sys.names r.name (n ∷ ns)

module _ {ℓ} {S : Type ℓ} (st : State S) (sys : System S) (g : Core) where
  label_of-Halts : (i : ℕ) → Halts (label_of st sys g i)
  unfolding label_of
  label_of-Halts i =
      >>=-Halts (at_index g.label i) _ (at_index-Halts g.label i)
        (λ l. >>=-Halts (present l) _ (present-Halts l) (λ id. at_index-Halts g.labels id))

  step-Halts : (parent : S) (i : ℕ) → Halts (step st sys g parent i)
  unfolding step replayed
  step-Halts parent i = >>=-Halts (label_of st sys g i) _ (label_of-Halts i) (λ l.
      >>=-Halts (at_index sys.actors l.actor) _ (at_index-Halts sys.actors l.actor) (λ a.
        >>=-Halts (at_index g.ordinal i) _ (at_index-Halts g.ordinal i)
          (λ want. found (nth_named l.move want (a.moves (st.clone parent))))))
    where
      found : (o : Option S) → Halts (replayed i o)
      found none = λ e. cc
      found (some s) = tt

  rebuilt-Halts : (i : ℕ) (above : List (Step S)) → Halts (rebuilt st sys g i above)
  unfolding rebuilt root
  rebuilt-Halts i [] =
      >>=-Halts (at_index g.roots i) _ (at_index-Halts g.roots i)
        (λ k. >>=-Halts (at_index sys.initial k) _ (at_index-Halts sys.initial k) (λ s. tt))
  rebuilt-Halts i (x ∷ xs) = step-Halts x.state i

  checked-Halts : (i : ℕ) (s : S) → Halts (checked st sys g i s)
  unfolding checked
  checked-Halts i s = >>=-Halts (at_index g.hash i) _ (at_index-Halts g.hash i) (λ h. same h)
    where
      same :
          (h : Hash)
          → Halts (if hash_eq (st.hash_key (st.key s)) h then ok s else panic (key_mismatch i))
      same h = elim (Bool-cases (hash_eq (st.hash_key (st.key s)) h)) [
        | inl t ↦ rw t tt
        | inr f ↦ rw f (λ e. cc)
      ]

  shown-Halts : (i : ℕ) (s : S) → Halts (shown st sys g i s)
  unfolding shown shown_of
  shown-Halts i s = >>=-Halts (at_index g.label i) _ (at_index-Halts g.label i) of
    where
      of : (l : Option ℕ) → Halts (shown_of st sys g s l)
      of none = tt
      of (some id) = >>=-Halts (at_index g.labels id) _ (at_index-Halts g.labels id) (λ l.
          >>=-Halts (at_index (names_of sys.actors) l.actor) _
            (at_index-Halts (names_of sys.actors) l.actor) (λ name. tt))

  pub steps-Halts : (c : List ℕ) → Halts (steps st sys g c)
  unfolding steps
  steps-Halts [] = tt
  steps-Halts (i ∷ c) = >>=-Halts (steps st sys g c) _ (steps-Halts c) (λ done.
      >>=-Halts (rebuilt st sys g i done) _ (rebuilt-Halts i done) (λ s.
        >>=-Halts (checked st sys g i s) _ (checked-Halts i s)
          (λ s'. >>=-Halts (shown st sys g i s') _ (shown-Halts i s') (λ x. tt))))
