-- ===== src/Ctrl/Gates.antt =====
-- The gate's sets under its operations, and what they never hold together
-- (ctrltest/interceptor.go).
use testkit.Prelude.{
  List, [], ◌∷◌, Bool, true, false, not, ◌&&◌, ◌||◌, String, str_eq, eq_iff, ◌≡◌, refl, sym, ap,
  ◌∙◌, inl, inr, Bool-cases, All, str_eq_sym, or_true,
}
use testkit.Ctrl.Op.{ObjectKey}
use testkit.Ctrl.Gate.{
  has, put, remove, GatedKey, has_gated, outside, Gate, clear_pause_locked, activate, deactivate,
  pause, is_active, is_paused, refuse,
}

or_same : (a b : Bool) → (a ≡ true → b ≡ true) → b ≡ a || b
or_same true b h = h refl
or_same false b h = refl

pub has-put : (x y : String) (ys : List String) → has x (put y ys) ≡ str_eq y x || has x ys
has-put x y ys = elim (Bool-cases (has y ys)) [
  | inl t ↦
      rw t (or_same (str_eq y x) (has x ys) (λ e. ap (λ z. has z ys) (sym ((eq_iff y x).0 e)) ∙ t))
  | inr f ↦ rw f refl
]

pub has-remove :
    (x y : String) (ys : List String) → has x (remove y ys) ≡ not (str_eq y x) && has x ys
has-remove x y [] = elim (Bool-cases (str_eq y x)) [ inl t ↦ rw t refl | inr f ↦ rw f refl ]
has-remove x y (z ∷ ys) = elim (Bool-cases (str_eq z y)) [
  | inl t ↦
      let e = ap (λ a. str_eq a x) ((eq_iff z y).0 t) in
      rw t (rw e (by_same (str_eq y x) (has x ys) (has-remove x y ys)))
  | inr f ↦ elim (Bool-cases (str_eq z x)) [
    | inl t ↦
        let e : str_eq y x ≡ false =
          str_eq_sym y x ∙ ap (λ a. str_eq a y) (sym ((eq_iff z x).0 t)) ∙ f in
        rw f (rw t (rw e refl))
    | inr g ↦ rw f (rw g (has-remove x y ys))
  ]
]
  where
    by_same : (a b : Bool) {c : Bool} → c ≡ not a && b → c ≡ not a && (a || b)
    by_same true b h = h
    by_same false b h = h

-- No namespace is active and paused at once, and only requests to paused namespaces are remembered
-- as recorded.
pub record GateOk (g : Gate) : Type 0 where
  pub apart : (ns : String) → is_active ns g ≡ true → is_paused ns g ≡ false
  pub kept : All (λ k. is_paused k.req.namespace g ≡ true) g.gated_once

-- What is remembered behind the end of a pause was not of its namespace.
kept_outside :
    (ns : String) (paused : List String) (ks : List GatedKey)
    → All (λ k. has k.req.namespace paused ≡ true) ks
    → All (λ k. has k.req.namespace (remove ns paused) ≡ true) (outside ns ks)
kept_outside ns paused [] h = tt
kept_outside ns paused (k ∷ ks) h = elim (Bool-cases (str_eq k.req.namespace ns)) [
  | inl t ↦ rw t (kept_outside ns paused ks h.1)
  | inr f ↦
      let d : str_eq ns k.req.namespace ≡ false = str_eq_sym ns k.req.namespace ∙ f in
      rw f (
        has-remove k.req.namespace ns paused
            ∙ ap (λ b. not b && has k.req.namespace paused) d
            ∙ h.0,
        kept_outside ns paused ks h.1,
      )
]

kept_put :
    (ns : String) (paused : List String) (ks : List GatedKey)
    → All (λ k. has k.req.namespace paused ≡ true) ks
    → All (λ k. has k.req.namespace (put ns paused) ≡ true) ks
kept_put ns paused [] h = tt
kept_put ns paused (k ∷ ks) h = (
  has-put k.req.namespace ns paused
      ∙ or_true (str_eq ns k.req.namespace) (has k.req.namespace paused) h.0,
  kept_put ns paused ks h.1,
)

opened : (a b c : Bool) → (b ≡ true → c ≡ false) → a || b ≡ true → not a && c ≡ false
opened true b c h e = refl
opened false b c h e = h e

closed : (a b c : Bool) → (b ≡ true → c ≡ false) → not a && b ≡ true → not a && c ≡ false
closed true b c h e = refl
closed false b c h e = h e

held : (a b c : Bool) → (b ≡ true → c ≡ false) → not a && b ≡ true → a || (not a && c) ≡ false
held true b c h e = absurd cc
held false b c h e = h e

pub activate-GateOk : (ns : String) (g : Gate) → GateOk g → GateOk (activate ns g)
unfolding activate clear_pause_locked is_active is_paused
activate-GateOk ns g h = record {
  apart = λ x e.
      has-remove x ns g.paused
      ∙ opened (str_eq ns x) (has x g.active) (has x g.paused) (h.apart x)
          (sym (has-put x ns g.active) ∙ e);
  kept = kept_outside ns g.paused g.gated_once h.kept;
}

pub deactivate-GateOk : (ns : String) (g : Gate) → GateOk g → GateOk (deactivate ns g)
unfolding deactivate clear_pause_locked is_active is_paused
deactivate-GateOk ns g h = record {
  apart = λ x e.
      has-remove x ns g.paused
      ∙ closed (str_eq ns x) (has x g.active) (has x g.paused) (h.apart x)
          (sym (has-remove x ns g.active) ∙ e);
  kept = kept_outside ns g.paused g.gated_once h.kept;
}

pub pause-GateOk : (ns : String) (g : Gate) → GateOk g → GateOk (pause ns g)
unfolding pause clear_pause_locked is_active is_paused
pause-GateOk ns g h = record {
  apart = λ x e.
      has-put x ns (remove ns g.paused)
      ∙ ap (λ b. str_eq ns x || b) (has-remove x ns g.paused)
      ∙ held (str_eq ns x) (has x g.active) (has x g.paused) (h.apart x)
          (sym (has-remove x ns g.active) ∙ e);
  kept =
      kept_put ns (remove ns g.paused) (outside ns g.gated_once)
        (kept_outside ns g.paused g.gated_once h.kept);
}

pub refuse-GateOk :
    (controller : String) (req : ObjectKey) (g : Gate)
    → GateOk g
    → GateOk (refuse controller req g).0
unfolding refuse is_active is_paused
refuse-GateOk controller req g h = elim (Bool-cases (has req.namespace g.active)) [
  | inl t ↦ rw (t, refuse) h
  | inr f ↦ elim (Bool-cases (has req.namespace g.paused)) [
    | inr u ↦ rw (f, refuse) (rw (u, refuse) h)
    | inl t ↦
        elim (Bool-cases (has_gated (record { controller = controller; req = req }) g.gated_once)) [
          | inl a ↦ rw (f, refuse) (rw (t, refuse) (rw (a, refuse) h))
          | inr b ↦
              rw (f, refuse)
                (rw (t, refuse) (rw (b, refuse) (record { apart = h.apart; kept = (t, h.kept) })))
        ]
  ]
]
