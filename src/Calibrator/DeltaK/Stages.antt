-- ===== src/Calibrator/DeltaK/Stages.antt =====
-- The stages of the update return, on windows of samples, and keep the state within its bounds. A
-- stage that reports no change leaves the thresholds as they are.
use imads.Prelude.{
  ℕ, zero, suc, ◌-◌, ◌≡◌, refl, ap₂, Bool, true, false, ◌||◌, Option, some, List, [], ◌∷◌, arith,
  Bool-cases, inl, inr, length, replicate, sort_by, All, All-append,
}
use imads.Float.{Float, IsIeee, IsNum, ◌≼◌}
use imads.Float.Laws.{le-fmax_right}
use imads.Float.Libm.{Libm}
use imads.Cache.Keys.{phi_key}
use imads.Margin.{KByPhiState, Thresholds}
use imads.Calibrator.{CalibState, KIntervalState, thresholds}
use imads.Calibrator.Delta.{prepend}
use imads.Calibrator.Delta.Range.{
  Returns, if-Returns, InRange, Updated, UpdatedAll, prepend-Returns,
}
use imads.Calibrator.Samples.{DeltaKCalibrator, interval_key}
use imads.Calibrator.Coefficients.{
  all_numbers, sort_samples, quantile_of, toward, ema_quantile_update, kept, update_each,
  update_global_k, update_bucket, padded,
}
use imads.Calibrator.DeltaK.Windows.{IsSample, AreWindows, HasWindows}

module _ {F : Type 0} ⦃d : Float F⦄ where
  abbrev pub Nonneg : F → Type 0
  Nonneg x = d.nought ≼ x

  pub record NonnegPhi (st : KByPhiState F) : Type 0 where
    pub objective : Nonneg st.k_f
    pub constraints : All Nonneg st.k_c

  pub record NonnegInterval (st : KIntervalState F) : Type 0 where
    pub objective : Nonneg st.k_f
    pub constraints : All Nonneg st.k_c

  -- The slacks lie in their range, and no coefficient is negative.
  pub record IsState (s : CalibState F) : Type 0 where
    pub range : s.delta_min ≼ s.delta_max
    pub deltas : All (InRange s) s.delta_rel
    pub objective : Nonneg s.k_f
    pub constraints : All Nonneg s.k_c
    pub by_phi : All NonnegPhi s.k_by_phi
    pub intervals : All NonnegInterval s.k_interval_stats

  -- What a stage leaves alone.
  pub record Aside (s s' : CalibState F) : Type 0 where
    pub revision : s'.policy_rev ≡ s.policy_rev
    pub slacks : length s'.delta_rel ≡ length s.delta_rel

  abbrev pub Staged : CalibState F → CalibState F × Bool → Type 0
  Staged s r = IsState r.0 × Aside s r.0 × (r.1 ≡ false → thresholds r.0 ≡ thresholds s)

-- The elements of the new list have the property.
pub prepend-All :
    {A : Type 0} (P : A → Type 0) (x : Option (A × Bool)) (xs : Option (List A × Bool))
    → Returns (λ r. P r.0) x
    → Returns (λ r. All P r.0) xs
    → Returns (λ r. All P r.0) (prepend x xs)
prepend-All P x xs (r, e, p) (rs, es, ps) = ((r.0 ∷ rs.0, r.1 || rs.1), rw (e, es) refl, (p, ps))

module _ {F : Type 0} ⦃d : Float F⦄ (laws : IsIeee F) where
  open laws use {num_of_le, nought_le_one}

  nought-IsNum : IsNum d.nought
  nought-IsNum = (num_of_le d.nought d.one nought_le_one).0

  pub nought-Nonneg : Nonneg d.nought
  nought-Nonneg = nought-IsNum

module _ {F : Type 0} ⦃d : Float F⦄ ⦃e : Libm F⦄ (laws : IsIeee F) where
  open laws use {num_of_finite}

  samples-all_numbers : (w : List F) → All IsSample w → all_numbers w ≡ true
  samples-all_numbers [] h = refl
  samples-all_numbers (x ∷ w) h = rw (num_of_finite x h.0.0) (samples-all_numbers w h.1)

  sort_samples-Returns : (w : List F) → All IsSample w → sort_samples w ≡ some (sort_by d.le w)
  unfolding sort_samples
  sort_samples-Returns w h = ground (arith, samples-all_numbers w h)

  quantile_of-Returns :
      (x : F) (w : List F) (q : F)
      → All IsSample (x ∷ w)
      → Returns (λ r. Unit {0}) (quantile_of x w q)
  unfolding quantile_of
  quantile_of-Returns x w q h = rw (sort_samples-Returns (x ∷ w) h, quantile_of) (_, refl, tt)

  pub ema-Returns :
      (cal : DeltaKCalibrator F) (old : F) (w : List F)
      → All IsSample w
      → Nonneg old
      → Returns (λ r. Nonneg r.0) (ema_quantile_update cal old w)
  unfolding ema_quantile_update
  ema-Returns cal old [] h n = ((old, false), refl, n)
  ema-Returns cal old (x ∷ w) h n =
      let (qv, found, t) = quantile_of-Returns x w cal.k_quantile h in
      if-Returns _ _ _ (toward cal old (quantile_of x w cal.k_quantile)) ((old, false), refl, n)
        (rw found (_, refl, le-fmax_right laws _ d.nought (nought-IsNum laws)))

  kept-Returns :
      (cal : DeltaKCalibrator F) (old : F) (w : List F)
      → All IsSample w
      → Nonneg old
      → Returns (Updated Nonneg old) (kept old (ema_quantile_update cal old w))
  kept-Returns cal old w h n =
      let (r, same, p) = ema-Returns cal old w h n in
      elim (Bool-cases r.1) [
        | inl t ↦ ((r.0, true), rw (same, t) refl, (p, (λ f. cc)))
        | inr f ↦ ((old, false), rw (same, f) refl, (n, (λ g. refl)))
      ]

  update_each-Returns :
      (cal : DeltaKCalibrator F) (olds : List F) (ws : List (List F)) (limit : ℕ)
      → AreWindows limit ws
      → All Nonneg olds
      → Returns (UpdatedAll Nonneg olds) (update_each cal olds ws)
  unfolding update_each
  update_each-Returns cal [] ws limit h n = (([], false), refl, (tt, (λ f. refl), refl))
  update_each-Returns cal (old ∷ olds) [] limit h n =
      prepend-Returns Nonneg old olds _ _ (kept-Returns cal old [] tt n.0)
        (update_each-Returns cal olds [] limit tt n.1)
  update_each-Returns cal (old ∷ olds) (w ∷ ws) limit h n =
      prepend-Returns Nonneg old olds _ _ (kept-Returns cal old w h.0.samples n.0)
        (update_each-Returns cal olds ws limit h.1 n.1)

  pub update_bucket-Returns :
      (cal : DeltaKCalibrator F) (olds : List F) (ws : List (List F)) (limit : ℕ)
      → AreWindows limit ws
      → All Nonneg olds
      → Returns (λ r. All Nonneg r.0) (update_bucket cal olds ws)
  unfolding update_bucket
  update_bucket-Returns cal [] [] limit h n = (_, refl, tt)
  update_bucket-Returns cal (old ∷ olds) [] limit h n = (_, refl, n)
  update_bucket-Returns cal [] (w ∷ ws) limit h n =
      let (r, e, p) = kept-Returns cal d.nought w h.0.samples (nought-Nonneg laws) in
      prepend-All Nonneg _ _ (r, e, p.0) (update_bucket-Returns cal [] ws limit h.1 tt)
  update_bucket-Returns cal (old ∷ olds) (w ∷ ws) limit h n =
      let (r, e, p) = kept-Returns cal old w h.0.samples n.0 in
      prepend-All Nonneg _ _ (r, e, p.0) (update_bucket-Returns cal olds ws limit h.1 n.1)

  pub All-replicate_nought : (n : ℕ) → All Nonneg (replicate n d.nought)
  All-replicate_nought zero = tt
  All-replicate_nought (suc n) = ((nought-Nonneg laws), All-replicate_nought n)

  pub padded-Nonneg : (v : List F) (n : ℕ) → All Nonneg v → All Nonneg (padded v n)
  padded-Nonneg v n h = All-append Nonneg v _ h (All-replicate_nought (n - length v))

  pub global-Staged :
      (cal : DeltaKCalibrator F)
      → HasWindows cal
      → IsState cal.state
      → Returns (Staged cal.state) (update_global_k cal)
  unfolding update_global_k thresholds
  global-Staged cal w h =
      let (f, same, p) =
        kept-Returns cal cal.state.k_f cal.k_samples_f w.global_f.samples h.objective in
      let (c, same', q) =
        update_each-Returns cal cal.state.k_c cal.k_samples_c cal.k_window w.global_c
          h.constraints in
      (
        (record cal.state { k_f = f.0; k_c = c.0 }, f.1 || c.1),
        rw (same, same', update_global_k) refl,
        (
          record {
            range = h.range;
            deltas = h.deltas;
            objective = p.0;
            constraints = q.0;
            by_phi = h.by_phi;
            intervals = h.intervals;
          },
          record { revision = refl; slacks = refl },
          (λ quiet.
              ap₂
                (λ k_f k_c.
                  let t : Thresholds F = record {
                    delta_rel = cal.state.delta_rel;
                    k_c = k_c;
                    k_f = k_f;
                    k_by_phi = cal.state.k_by_phi;
                    eps_f = cal.state.eps_f;
                  } in
                  t)
                (p.1 (ground arith)) (q.1 (ground arith))),
        ),
      )
