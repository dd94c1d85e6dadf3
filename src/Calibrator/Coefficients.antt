-- ===== src/Calibrator/Coefficients.antt =====
-- Coefficients of the bias from windows of samples: a high quantile, smoothed.
use Prim.Native.Nat.{min, max}
use imads.Prelude.{
  ℕ, zero, suc, ◌-◌, Bool, true, false, ◌&&◌, ◌||◌, Option, none, some, List, [], ◌∷◌, ◌++◌, ltb,
  leb, if◌then◌else◌, length, get_or, replicate, sort_by,
}
use imads.Prelude.Int.{pos}
use imads.Float.{Float, fmax, clamp}
use imads.Float.Libm.{Libm}
use imads.Cache.Keys.{phi_key, nat_key}
use imads.Calibrator.{CalibState}
use imads.Calibrator.Delta.{prepend, differs}
use imads.Calibrator.Samples.{DeltaKCalibrator, interval_key}

module _ {F : Type 0} ⦃d : Float F⦄ ⦃e : Libm F⦄ where
  open d use {nought, one, le, add, sub, mul, of_int}
  open e use {round, to_usize}

  abbrev pub all_numbers : List F → Bool
  all_numbers [] = true
  all_numbers (x ∷ xs) = le x x && all_numbers xs

  -- `sort_unstable_by(|a, b| a.partial_cmp(b).unwrap())`: to compare a NaN panics, which sorting
  -- does as soon as there are two samples.
  unfoldable pub sort_samples : List F → Option (List F)
  sort_samples samples =
      if leb (length samples) 1 || all_numbers samples then some (sort_by le samples) else none

  -- The sample at quantile `q`; `samples` is not empty, and the index is that of a sample.
  unfoldable pub quantile_of : F → List F → F → Option F
  quantile_of x samples q =
      let last = length samples in
      let idx = min (to_usize (round (mul (clamp q nought one) (of_int (pos last))))) last in
      elim (sort_samples (x ∷ samples)) [ none ↦ none | some sorted ↦ some (get_or sorted idx x) ]

  -- A step toward the quantile of the samples, and whether it changes the value.
  abbrev pub toward : DeltaKCalibrator F → F → Option F → Option (F × Bool)
  toward cal old none = none
  toward cal old (some qv) =
      let next = fmax (add (mul (sub one cal.k_eta) old) (mul cal.k_eta qv)) nought in
      some (next, differs next old)

  -- With fewer samples than wanted the value stays.
  unfoldable pub ema_quantile_update : DeltaKCalibrator F → F → List F → Option (F × Bool)
  ema_quantile_update cal old [] = some (old, false)
  ema_quantile_update cal old (x ∷ samples) =
      if ltb (length (x ∷ samples)) (max cal.k_min_pairs 1)
      then some (old, false)
      else toward cal old (quantile_of x samples cal.k_quantile)

  -- `if changed { value = next }`
  abbrev pub kept : F → Option (F × Bool) → Option (F × Bool)
  kept old none = none
  kept old (some (next, changed)) = some (if changed then next else old, changed)

  -- One coefficient per constraint; a constraint without a window has no samples.
  unfoldable pub update_each : DeltaKCalibrator F → List F → List (List F) → Option (List F × Bool)
  update_each cal [] windows = some ([], false)
  update_each cal (old ∷ olds) [] =
      prepend (kept old (ema_quantile_update cal old [])) (update_each cal olds [])
  update_each cal (old ∷ olds) (w ∷ windows) =
      prepend (kept old (ema_quantile_update cal old w)) (update_each cal olds windows)

  unfoldable pub update_global_k : DeltaKCalibrator F → Option (CalibState F × Bool)
  update_global_k cal =
      elim (kept cal.state.k_f (ema_quantile_update cal cal.state.k_f cal.k_samples_f)) [
        | none ↦ none
        | some (k_f, ch_f) ↦ elim (update_each cal cal.state.k_c cal.k_samples_c) [
          | none ↦ none
          | some (k_c, ch_c) ↦ some (record cal.state { k_f = k_f; k_c = k_c }, ch_f || ch_c)
        ]
      ]

  -- One coefficient per window or old coefficient; a missing coefficient is zero.
  unfoldable pub update_bucket :
      DeltaKCalibrator F → List F → List (List F) → Option (List F × Bool)
  update_bucket cal [] [] = some ([], false)
  update_bucket cal (old ∷ olds) [] = some (old ∷ olds, false)
  update_bucket cal [] (w ∷ windows) =
      prepend (kept nought (ema_quantile_update cal nought w)) (update_bucket cal [] windows)
  update_bucket cal (old ∷ olds) (w ∷ windows) =
      prepend (kept old (ema_quantile_update cal old w)) (update_bucket cal olds windows)

  -- The lengths of the windows, with a zero for each constraint that has none.
  abbrev pub window_sizes : ℕ → List (List F) → List ℕ
  window_sizes zero [] = []
  window_sizes (suc m) [] = 0 ∷ window_sizes m []
  window_sizes zero (w ∷ windows) = length w ∷ window_sizes zero windows
  window_sizes (suc m) (w ∷ windows) = length w ∷ window_sizes m windows

module _ {F : Type 0} ⦃d : Float F⦄ where
  -- `v.resize(n, 0.0)` where `v` is shorter
  abbrev pub padded : List F → ℕ → List F
  padded v n = v ++ replicate (n - length v) d.nought
