-- ===== src/Calibrator/Delta/Range.antt =====
-- `update_delta` keeps the slacks in their range and does not panic.
use imads.Prelude.{
  suc, ◌≤◌, ◌≡◌, refl, ap, ap₂, Bool, true, false, ◌||◌, Option, some, List, [], ◌∷◌, arith,
  Bool-cases, inl, inr, length, if◌then◌else◌, All,
}
use imads.Prelude.Int.{pos}
use imads.Float.{Float, IsIeee, IsNum, ◌≼◌, fmax, clamp}
use imads.Float.Laws.{clamp_bounds}
use imads.Float.Libm.{Libm, IsLibm}
use imads.Calibrator.{CalibState, checked_clamp}
use imads.Calibrator.Counting.{Counts}
use imads.Calibrator.Delta.{differs, scaled, delta_step, prepend, update_delta}

-- The call returns, with a result that has the property.
abbrev pub Returns : {A : Type 0} → (A → Type 0) → Option A → Type 0
Returns {A} P o = (a : A) × (o ≡ some a) × P a

pub if-Returns :
    {A : Type 0} (P : A → Type 0) (b : Bool) (x y : Option A)
    → Returns P x
    → Returns P y
    → Returns P (if b then x else y)
if-Returns P true x y p q = p
if-Returns P false x y p q = q

module _ {F : Type 0} ⦃d : Float F⦄ where
  abbrev pub InRange : CalibState F → F → Type 0
  InRange s x = (s.delta_min ≼ x) × (x ≼ s.delta_max)

  -- An element of a new list has the property, and without a change it is the old one.
  abbrev pub Updated : (F → Type 0) → F → F × Bool → Type 0
  Updated P old r = P r.0 × (r.1 ≡ false → r.0 ≡ old)

  abbrev pub UpdatedAll : (F → Type 0) → List F → List F × Bool → Type 0
  UpdatedAll P olds r = All P r.0 × (r.1 ≡ false → r.0 ≡ olds) × (length r.0 ≡ length olds)

  pub prepend-Returns :
      (P : F → Type 0) (old : F) (olds : List F) (x : Option (F × Bool))
      (xs : Option (List F × Bool))
      → Returns (Updated P old) x
      → Returns (UpdatedAll P olds) xs
      → Returns (UpdatedAll P (old ∷ olds)) (prepend x xs)
  prepend-Returns P old olds x xs (r, e, p) (rs, es, ps) = (
    (r.0 ∷ rs.0, r.1 || rs.1),
    rw (e, es) refl,
    ((p.0, ps.0), (λ h. ap₂ ◌∷◌ (p.1 (ground arith)) (ps.1 (ground arith))), ap suc ps.2),
  )

module _ {F : Type 0} ⦃d : Float F⦄ ⦃e : Libm F⦄ (laws : IsIeee F) (libm : IsLibm F) where
  open laws use {num_of_le, lt-eq}
  open libm use {num_of_abs, num_of_sub}

  IsNum-of_differs : (x y : F) → differs x y ≡ true → IsNum x
  IsNum-of_differs x y h =
      let below : d.decimal 1 15 ≼ e.abs (d.sub x y) =
        ground (arith, lt-eq (d.decimal 1 15) (e.abs (d.sub x y))) in
      (num_of_sub x y (num_of_abs _ (num_of_le _ _ below).1)).0

  module _ (s : CalibState F) (range : s.delta_min ≼ s.delta_max) where
    scaled-Returns :
        (old mult : F) → InRange s old → Returns (Updated (InRange s) old) (scaled s old mult)
    unfolding scaled checked_clamp
    scaled-Returns old mult h =
        let next = clamp (d.mul old mult) s.delta_min s.delta_max in
        let clamped : checked_clamp (d.mul old mult) s.delta_min s.delta_max ≡ some next =
          rw (range, checked_clamp) refl in
        elim (Bool-cases (differs next old)) [
          | inl t ↦ (
            (next, true),
            rw (clamped, t, scaled) refl,
            (
              clamp_bounds laws (d.mul old mult) s.delta_min s.delta_max range
                  (IsNum-of_differs next old t),
              (λ f. cc),
            ),
          )
          | inr f ↦ ((old, false), rw (clamped, f, scaled) refl, (h, (λ g. refl)))
        ]

    unchanged : (old : F) → InRange s old → Returns (Updated (InRange s) old) (some (old, false))
    unchanged old h = ((old, false), refl, (h, (λ f. refl)))

    delta_step-Returns :
        (c : Counts) (old : F)
        → InRange s old
        → Returns (Updated (InRange s) old) (delta_step s c old)
    unfolding delta_step
    delta_step-Returns c old h =
        let p_false =
          d.div (d.add (d.of_int (pos c.false_infeas)) d.one)
            (d.add (d.of_int (pos c.audit)) (d.decimal 2 0)) in
        let t = clamp s.target_false d.nought d.one in
        let eta = fmax s.eta_delta d.nought in
        let grown = scaled-Returns old (e.exp eta) h in
        let shrunk = scaled-Returns old (e.exp (e.neg eta)) h in
        if-Returns _ _ _ _ (unchanged old h) (
          if-Returns _ (d.lt t p_false) _ _ grown
            (if-Returns _ (d.lt p_false (d.div t (d.decimal 3 0))) _ _ shrunk (unchanged old h)))

    pub update_delta-Returns :
        (counts : List Counts) (olds : List F)
        → length olds ≤ length counts
        → All (InRange s) olds
        → Returns (UpdatedAll (InRange s) olds) (update_delta s counts olds)
    unfolding update_delta
    update_delta-Returns counts [] n h = (([], false), refl, (tt, (λ f. refl), refl))
    update_delta-Returns [] (old ∷ olds) n h = absurd (omega arith)
    update_delta-Returns (c ∷ counts) (old ∷ olds) n h =
        prepend-Returns (InRange s) old olds _ _ (delta_step-Returns c old h.0)
          (update_delta-Returns counts olds (omega arith) h.1)
