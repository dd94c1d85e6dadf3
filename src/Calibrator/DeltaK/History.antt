-- ===== src/Calibrator/DeltaK/History.antt =====
-- `DeltaKCalibrator` from its start over any history of batches.
use imads.Prelude.{
  ℕ, zero, suc, ◌≡◌, refl, Option, some, List, [], ◌∷◌, arith, Bool-cases, inl, inr, map, replicate,
  length-replicate, length-map, All,
}
use imads.Float.{Float, IsIeee, IsNum, ◌≼◌, clamp}
use imads.Float.Laws.{clamp_bounds}
use imads.Float.Libm.{Libm, IsLibm}
use imads.Calibrator.{CalibratorConfig, CalibEvent, init_state, clamp_all, configure_state}
use imads.Calibrator.Counting.{Counts_default}
use imads.Calibrator.Counting.Balance.{AllBalanced-start}
use imads.Calibrator.Delta.Range.{Returns}
use imads.Calibrator.Samples.{DeltaKCalibrator}
use imads.Calibrator.DeltaK.{
  ◌>>=◌, finite_or_zero, DeltaKCalibrator_init, DeltaKCalibrator_configure, DeltaKCalibrator_update,
}
use imads.Calibrator.DeltaK.Windows.{empty-IsWindow, empty-AreWindows}
use imads.Calibrator.DeltaK.Observation.{cut_of}
use imads.Calibrator.DeltaK.Stages.{Nonneg, nought-Nonneg}
use imads.Calibrator.DeltaK.Total.{IsValid, DeltaKCalibrator_update-Outcome}

module _ {F : Type 0} ⦃d : Float F⦄ ⦃e : Libm F⦄ where
  -- The calibrator after the batches.
  unfoldable pub updates :
      DeltaKCalibrator F → List (List (CalibEvent F)) → Option (DeltaKCalibrator F)
  updates cal [] = some cal
  updates cal (events ∷ batches) = DeltaKCalibrator_update cal events >>= λ r. updates r.0 batches

  -- The calibrator of a run: started for `m` constraints, configured, and updated by the batches.
  unfoldable pub calibrated :
      DeltaKCalibrator F
      → ℕ
      → CalibratorConfig F
      → List (List (CalibEvent F))
      → Option (DeltaKCalibrator F)
  calibrated blank m cfg batches =
      DeltaKCalibrator_configure (DeltaKCalibrator_init blank m) cfg >>= λ cal. updates cal batches

module _ {F : Type 0} ⦃d : Float F⦄ (laws : IsIeee F) (literal : IsNum (d.decimal 5 3)) where
  clamp-IsNum : (lo hi : F) → lo ≼ hi → IsNum (clamp (d.decimal 5 3) lo hi)
  unfolding clamp
  clamp-IsNum lo hi h = ground (arith, laws.num_of_le lo hi h)

  clamped-All :
      (lo hi : F) (m : ℕ)
      → lo ≼ hi
      → All (λ x. (lo ≼ x) × (x ≼ hi)) (map (λ y. clamp y lo hi) (replicate m (d.decimal 5 3)))
  clamped-All lo hi zero h = tt
  clamped-All lo hi (suc m) h =
      (clamp_bounds laws (d.decimal 5 3) lo hi h (clamp-IsNum lo hi h), clamped-All lo hi m h)

  clamp_all-Returns :
      (lo hi : F) (m : ℕ)
      → lo ≼ hi
      → clamp_all lo hi (replicate m (d.decimal 5 3))
        ≡ some (map (λ y. clamp y lo hi) (replicate m (d.decimal 5 3)))
  unfolding clamp_all
  clamp_all-Returns lo hi zero h = refl
  clamp_all-Returns lo hi (suc m) h = rw h

module _ {F : Type 0} ⦃d : Float F⦄ (laws : IsIeee F) (literal : IsNum (d.decimal 5 3)) where
  finite_or_zero-Nonneg : Nonneg (finite_or_zero d.nought)
  finite_or_zero-Nonneg = elim (Bool-cases (d.is_finite d.nought)) [
    | inl t ↦ rw t (nought-Nonneg laws)
    | inr f ↦ rw f (nought-Nonneg laws)
  ]

  zeros-Nonneg : (m : ℕ) → All Nonneg (map finite_or_zero (replicate m d.nought))
  zeros-Nonneg zero = tt
  zeros-Nonneg (suc m) = (finite_or_zero-Nonneg, zeros-Nonneg m)

  -- The start and the configuration lead to a valid calibrator.
  configured-IsValid :
      (blank : DeltaKCalibrator F) (m : ℕ) (cfg : CalibratorConfig F)
      → cfg.delta_min ≼ cfg.delta_max
      → Returns IsValid (DeltaKCalibrator_configure (DeltaKCalibrator_init blank m) cfg)
  unfolding DeltaKCalibrator_configure DeltaKCalibrator_init configure_state init_state
  configured-IsValid blank m cfg h =
      rw
        (
          clamp_all-Returns laws literal cfg.delta_min cfg.delta_max m h,
          configure_state,
          DeltaKCalibrator_configure,
        )
        (
          _,
          refl,
          record {
            state = record {
              range = h;
              deltas = clamped-All laws literal cfg.delta_min cfg.delta_max m h;
              objective = finite_or_zero-Nonneg;
              constraints = zeros-Nonneg m;
              by_phi = tt;
              intervals = tt;
            };
            windows = record {
              global_f = empty-IsWindow _;
              global_c = empty-AreWindows F _ m;
              phi_f = tt;
              phi_c = tt;
              interval_f = tt;
              interval_c = tt;
            };
            balanced = AllBalanced-start (cut_of {F = F}) m;
            constraints = omega (
              arith,
              length-map (replicate m (d.decimal 5 3)) (λ y. clamp y cfg.delta_min cfg.delta_max),
              length-replicate m (d.decimal 5 3),
              length-replicate m Counts_default,
            );
          },
        )

  module _ ⦃e : Libm F⦄ (libm : IsLibm F) where
    updates-IsValid :
        (cal : DeltaKCalibrator F) (batches : List (List (CalibEvent F)))
        → IsValid cal
        → Returns IsValid (updates cal batches)
    unfolding updates
    updates-IsValid cal [] h = (cal, refl, h)
    updates-IsValid cal (events ∷ batches) h =
        let (r, same, out) = DeltaKCalibrator_update-Outcome laws libm cal events h in
        rw same (updates-IsValid r.0 batches out.valid)

    -- With numbers that obey IEEE 754 and slack bounds that are in order, a calibrator that is
    -- started and configured goes through any history of batches without a panic. At its end the
    -- slacks lie between the bounds, no coefficient is negative, each window holds at most
    -- `k_window` samples, all of them finite and none negative, and for each constraint the cuts
    -- are the finished audits and the pending ones, with counts per step that add up.
    pub calibrated-IsValid :
        (blank : DeltaKCalibrator F) (m : ℕ) (cfg : CalibratorConfig F)
        (batches : List (List (CalibEvent F)))
        → cfg.delta_min ≼ cfg.delta_max
        → Returns IsValid (calibrated blank m cfg batches)
    unfolding calibrated
    calibrated-IsValid blank m cfg batches h =
        let (cal, same, valid) = configured-IsValid blank m cfg h in
        rw same (updates-IsValid cal batches valid)
