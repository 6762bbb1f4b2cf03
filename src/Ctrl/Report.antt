-- ===== src/Ctrl/Report.antt =====
-- The lines of the report against the last passes (Unconverged in ctrltest/quiescence.go).
use testkit.Prelude.{
  List, [], ◌∷◌, some, false, String, ◌≡◌, ◌↔◌, refl, sym, ap, subst, ◌∙◌, inl, inr, Option-cases,
  In, here, there, text_le, In-sort_by, In_of-sort_by, arith,
}
use testkit.Ctrl.Gate.{GatedKey}
use testkit.Ctrl.Intercept.{Reconcile, Interceptor, in_namespace}
use testkit.Ctrl.Unconverged.{Latest, look, note_all, error_line, error_lines, unconverged}
use testkit.Ctrl.LastWord.{in_group, LastWord, LastWord-group, LastWord-unique}
use testkit.Ctrl.LastWord.{LastWord-All, Apart}
use testkit.Ctrl.Converged.{Told, Told-all, note_all-Apart, look-In, In-look}

-- A line of an entry.
abbrev FromEntry : String → Latest → Type 0
FromEntry line m =
    (g : GatedKey) × (r : Reconcile) × (e : String) × In (g, r) m
    × (r.err ≡ some e)
    × (line ≡ error_line g e)

over :
    (line : String) (x : GatedKey × Reconcile) (m : Latest)
    → FromEntry line m
    → FromEntry line (x ∷ m)
over line x m (g, r, e, h, q, p) = (g, r, e, there h, q, p)

In-error_lines : (line : String) (m : Latest) → In line (error_lines m) → FromEntry line m
In-error_lines line [] h = elim h [ ]
In-error_lines line ((g, r) ∷ m) h = elim (Option-cases r.err) [
  | inl n ↦
      let k : In line (error_lines m) = rw n at h in over line (g, r) m (In-error_lines line m k)
  | inr (e, q) ↦
      let k : In line (error_line g e ∷ error_lines m) = rw q at h in
      first q k (λ l. In-error_lines line m l)
]
  where
    first :
        {e : String}
        → r.err ≡ some e
        → In line (error_line g e ∷ error_lines m)
        → (In line (error_lines m) → FromEntry line m)
        → FromEntry line ((g, r) ∷ m)
    first {e} q (here p) f = (g, r, e, here refl, q, p)
    first q (there l) f = over line (g, r) m (f l)

In_of-error_lines :
    (g : GatedKey) (r : Reconcile) (e : String) (m : Latest)
    → In (g, r) m
    → r.err ≡ some e
    → In (error_line g e) (error_lines m)
In_of-error_lines g r e [] h q = elim h [ ]
In_of-error_lines g r e ((k, x) ∷ m) (here p) q =
    let w : x.err ≡ some e = ap (λ z. z.1.err) (sym p) ∙ q in
    rw w (here (ap (λ z. error_line z.0 e) p))
In_of-error_lines g r e ((k, x) ∷ m) (there h) q = elim (Option-cases x.err) [
  | inl n ↦ rw n (In_of-error_lines g r e m h q)
  | inr (d, w) ↦ rw w (there (In_of-error_lines g r e m h q))
]

-- A group's entry, where it has a last pass.
entry_of :
    (g : GatedKey) (m : Latest) (rs : List Reconcile) (r : Reconcile)
    → Told g m rs
    → LastWord g rs r
    → look g m ≡ some r
entry_of g m rs r (inl (n, k)) l =
    let a = LastWord-All g (λ x. in_group g x ≡ false) rs r l k in
    let b = LastWord-group g rs r l in absurd cc
entry_of g m rs r (inr (s, e, k)) l = e ∙ ap some (LastWord-unique g rs s r k l)

last_of :
    (g : GatedKey) (m : Latest) (rs : List Reconcile) (r : Reconcile)
    → Told g m rs
    → look g m ≡ some r
    → LastWord g rs r
last_of g m rs r (inl (n, k)) e = absurd cc
last_of g m rs r (inr (s, q, k)) e = let w : s ≡ r = ground arith in subst (LastWord g rs) w k

-- Unconverged names exactly the groups of a controller and a request in the namespace whose last
-- pass, by its start and then by its place in the log, returned an error: each with that error, and
-- whatever was refused in between.
pub unconverged_lem :
    (i : Interceptor) (ns line : String)
    → In line (unconverged i ns) ↔ (
        (g : GatedKey) × (r : Reconcile) × (e : String) × LastWord g (in_namespace i ns) r
        × (r.err ≡ some e)
        × (line ≡ error_line g e))
unfolding unconverged
unconverged_lem i ns line = (
  λ h.
      let (g, r, e, k, q, p) = In-error_lines line m (In_of-sort_by text_le (error_lines m) h) in
      (g, r, e, last_of g m rs r (told g) (look-In g r m apart k), q, p),
  λ (g, r, e, l, q, p). rw p (
      In-sort_by text_le (error_lines m)
        (In_of-error_lines g r e m (In-look g r m (entry_of g m rs r (told g) l)) q)),
)
  where
    rs : List Reconcile
    rs = in_namespace i ns

    m : Latest
    m = note_all rs []

    apart : Apart m
    apart = note_all-Apart rs [] tt

    told : (g : GatedKey) → Told g m rs
    told = Told-all rs [] [] (λ g. inl (refl, tt))
