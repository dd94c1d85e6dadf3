-- ===== src/Calibrator/DeltaK/IntervalStage.antt =====
-- The stage of the coefficients per interval of tolerances.
use imads.Prelude.{ℕ, refl, List, [], ◌∷◌, Option-cases, inl, inr, length, All}
use imads.Float.{Float, IsIeee}
use imads.Float.Libm.{Libm}
use imads.Cache.{MemoryCache, get, put}
use imads.Cache.Keys.{phi_key}
use imads.Calibrator.{KIntervalKey, KIntervalState, thresholds}
use imads.Calibrator.Delta.Range.{Returns}
use imads.Calibrator.Samples.{DeltaKCalibrator, interval_key}
use imads.Calibrator.Buckets.{
  interval_map, old_interval, interval_state, interval_states, interval_keys, update_interval_k,
}
use imads.Calibrator.DeltaK.Windows.{
  Values, HasWindows, put-Values, get-Values, get-IsWindow, get-AreWindows,
}
use imads.Calibrator.DeltaK.Stages.{
  NonnegInterval, IsState, Staged, nought-Nonneg, ema-Returns, update_bucket-Returns, prepend-All,
  All-replicate_nought, padded-Nonneg,
}

module _ {F : Type 0} ⦃d : Float F⦄ ⦃e : Libm F⦄ (laws : IsIeee F) where
  open laws use {num_of_finite}

  get-Nonneg_interval :
      (m : MemoryCache KIntervalKey (KIntervalState F)) (n : ℕ) (key : KIntervalKey)
      → Values NonnegInterval m
      → NonnegInterval (old_interval n key (get m key))
  get-Nonneg_interval m n key h = elim (Option-cases (get m key)) [
    | inl none_there ↦
        rw (none_there, old_interval)
          (record { objective = (nought-Nonneg laws); constraints = All-replicate_nought laws n })
    | inr (st, there) ↦
        let old = get-Values NonnegInterval m key st h there in
        rw (there, old_interval)
          (record {
            objective = old.objective;
            constraints = padded-Nonneg laws st.k_c n old.constraints;
          })
  ]

  interval_state-Returns :
      (cal : DeltaKCalibrator F) (key : KIntervalKey) (old : KIntervalState F)
      → HasWindows cal
      → NonnegInterval old
      → Returns (λ r. NonnegInterval r.0) (interval_state cal key old)
  unfolding interval_state
  interval_state-Returns cal key old w n =
      let fs = get-IsWindow cal.k_window cal.k_interval_samples_f key w.interval_f in
      let cs = get-AreWindows cal.k_window cal.k_interval_samples_c key w.interval_c in
      let (f, same, p) = ema-Returns laws cal old.k_f _ fs.samples n.objective in
      let (c, same', q) = update_bucket-Returns laws cal old.k_c _ cal.k_window cs n.constraints in
      rw (same, same', interval_state) (_, refl, record { objective = p; constraints = q })

  interval_states-Returns :
      (cal : DeltaKCalibrator F) (m : MemoryCache KIntervalKey (KIntervalState F))
      (ks : List KIntervalKey)
      → HasWindows cal
      → Values NonnegInterval m
      → Returns (λ r. All NonnegInterval r.0) (interval_states cal m ks)
  unfolding interval_states
  interval_states-Returns cal m [] w h = (_, refl, tt)
  interval_states-Returns cal m (key ∷ ks) w h =
      prepend-All NonnegInterval _ _
        (interval_state-Returns cal key _ w (get-Nonneg_interval m (length cal.state.k_c) key h))
        (interval_states-Returns cal m ks w h)

  interval_map-Values :
      (m : MemoryCache KIntervalKey (KIntervalState F)) (states : List (KIntervalState F))
      → Values NonnegInterval m
      → All NonnegInterval states
      → Values NonnegInterval (interval_map m states)
  interval_map-Values m [] h n = h
  interval_map-Values m (st ∷ states) h n =
      interval_map-Values (put m st.key st) states (put-Values NonnegInterval m st.key st h n.0) n.1

  pub interval-Staged :
      (cal : DeltaKCalibrator F)
      → HasWindows cal
      → IsState cal.state
      → Returns (Staged cal.state) (update_interval_k cal)
  unfolding update_interval_k thresholds
  interval-Staged cal w h =
      let old_map = interval_map [] cal.state.k_interval_stats in
      let (r, same, p) =
        interval_states-Returns cal old_map (interval_keys cal old_map) w
          (interval_map-Values [] cal.state.k_interval_stats tt h.intervals) in
      rw (same, update_interval_k)
        (
          _,
          refl,
          (
            record {
              range = h.range;
              deltas = h.deltas;
              objective = h.objective;
              constraints = h.constraints;
              by_phi = h.by_phi;
              intervals = p;
            },
            record { revision = refl; slacks = refl },
            (λ quiet. refl),
          ),
        )
