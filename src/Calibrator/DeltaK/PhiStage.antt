-- ===== src/Calibrator/DeltaK/PhiStage.antt =====
-- The stages of the slacks and of the coefficients per step, whose report compares the states.
use imads.Prelude.{
  ℕ, ◌≤◌, ◌≡◌, refl, ap, true, false, List, [], ◌∷◌, arith, Option-cases, inl, inr, length, All,
}
use imads.Float.{Float, IsIeee}
use imads.Float.Libm.{Libm, IsLibm}
use imads.Types.{Phi}
use imads.Cache.{MemoryCache, get, put}
use imads.Cache.Keys.{phi_key}
use imads.Margin.{KByPhiState, Thresholds}
use imads.Calibrator.{thresholds}
use imads.Calibrator.Delta.Range.{Returns, update_delta-Returns}
use imads.Calibrator.Samples.{DeltaKCalibrator}
use imads.Calibrator.Buckets.{
  phi_keys, phi_map, same_states, old_phi, phi_state, phi_states, update_phi_bucket_k,
}
use imads.Calibrator.DeltaK.{update_delta_rel}
use imads.Calibrator.DeltaK.Windows.{
  Values, HasWindows, put-Values, get-Values, get-IsWindow, get-AreWindows,
}
use imads.Calibrator.DeltaK.Stages.{
  NonnegPhi, IsState, Aside, Staged, nought-Nonneg, ema-Returns, update_bucket-Returns, prepend-All,
  All-replicate_nought, padded-Nonneg,
}

module _ {F : Type 0} ⦃d : Float F⦄ where
  -- The thresholds are the same, those per step by the comparison of floating-point numbers.
  pub record SameThresholds (a b : Thresholds F) : Type 0 where
    pub slacks : b.delta_rel ≡ a.delta_rel
    pub constraints : b.k_c ≡ a.k_c
    pub objective : b.k_f ≡ a.k_f
    pub margin : b.eps_f ≡ a.eps_f
    pub by_phi : same_states a.k_by_phi b.k_by_phi ≡ true

module _ {F : Type 0} ⦃d : Float F⦄ ⦃e : Libm F⦄ (laws : IsIeee F) where
  get-Nonneg_phi :
      (m : MemoryCache Phi (KByPhiState F)) (n : ℕ) (phi : Phi)
      → Values NonnegPhi m
      → NonnegPhi (old_phi n phi (get m phi))
  get-Nonneg_phi m n phi h = elim (Option-cases (get m phi)) [
    | inl none_there ↦
        rw (none_there, old_phi)
          (record { objective = nought-Nonneg laws; constraints = All-replicate_nought laws n })
    | inr (st, there) ↦
        let old = get-Values NonnegPhi m phi st h there in
        rw (there, old_phi)
          (record {
            objective = old.objective;
            constraints = padded-Nonneg laws st.k_c n old.constraints;
          })
  ]

  phi_state-Returns :
      (cal : DeltaKCalibrator F) (phi : Phi) (old : KByPhiState F)
      → HasWindows cal
      → NonnegPhi old
      → Returns (λ r. NonnegPhi r.0) (phi_state cal phi old)
  unfolding phi_state
  phi_state-Returns cal phi old w n =
      let fs = get-IsWindow cal.k_window cal.k_phi_samples_f phi w.phi_f in
      let cs = get-AreWindows cal.k_window cal.k_phi_samples_c phi w.phi_c in
      let (f, same, p) = ema-Returns laws cal old.k_f _ fs.samples n.objective in
      let (c, same', q) = update_bucket-Returns laws cal old.k_c _ cal.k_window cs n.constraints in
      rw (same, same', phi_state) (_, refl, record { objective = p; constraints = q })

  phi_states-Returns :
      (cal : DeltaKCalibrator F) (m : MemoryCache Phi (KByPhiState F)) (phis : List Phi)
      → HasWindows cal
      → Values NonnegPhi m
      → Returns (λ r. All NonnegPhi r.0) (phi_states cal m phis)
  unfolding phi_states
  phi_states-Returns cal m [] w h = (_, refl, tt)
  phi_states-Returns cal m (phi ∷ phis) w h =
      prepend-All NonnegPhi _ _
        (phi_state-Returns cal phi _ w (get-Nonneg_phi m (length cal.state.k_c) phi h))
        (phi_states-Returns cal m phis w h)

  phi_map-Values :
      (m : MemoryCache Phi (KByPhiState F)) (states : List (KByPhiState F))
      → Values NonnegPhi m
      → All NonnegPhi states
      → Values NonnegPhi (phi_map m states)
  phi_map-Values m [] h n = h
  phi_map-Values m (st ∷ states) h n =
      phi_map-Values (put m st.phi st) states (put-Values NonnegPhi m st.phi st h n.0) n.1

  pub phi-Staged :
      (cal : DeltaKCalibrator F)
      → HasWindows cal
      → IsState cal.state
      → Returns
          (λ r.
            IsState r.0
            × Aside cal.state r.0
            × (r.1 ≡ false → SameThresholds (thresholds cal.state) (thresholds r.0)))
          (update_phi_bucket_k cal)
  unfolding update_phi_bucket_k thresholds
  phi-Staged cal w h =
      let old_map = phi_map [] cal.state.k_by_phi in
      let (r, same, p) =
        phi_states-Returns cal old_map (phi_keys cal old_map) w
          (phi_map-Values [] cal.state.k_by_phi tt h.by_phi) in
      rw (same, update_phi_bucket_k)
        (
          _,
          refl,
          (
            record {
              range = h.range;
              deltas = h.deltas;
              objective = h.objective;
              constraints = h.constraints;
              by_phi = p;
              intervals = h.intervals;
            },
            record { revision = refl; slacks = refl },
            (λ quiet. record {
              slacks = refl;
              constraints = refl;
              objective = refl;
              margin = refl;
              by_phi = ground arith;
            }),
          ),
        )

  pub delta-Staged :
      IsLibm F
      → (cal : DeltaKCalibrator F) → length cal.state.delta_rel ≤ length cal.counts
      → IsState cal.state
      → Returns (Staged cal.state) (update_delta_rel cal)
  unfolding thresholds
  delta-Staged libm cal n h =
      let (r, same, p) =
        update_delta-Returns laws libm cal.state h.range cal.counts cal.state.delta_rel n
          h.deltas in
      rw (same, update_delta_rel)
        (
          _,
          refl,
          (
            record {
              range = h.range;
              deltas = p.0;
              objective = h.objective;
              constraints = h.constraints;
              by_phi = h.by_phi;
              intervals = h.intervals;
            },
            record { revision = refl; slacks = p.2 },
            (λ quiet.
                ap
                  (λ ds.
                    let t : Thresholds F = record {
                      delta_rel = ds;
                      k_c = cal.state.k_c;
                      k_f = cal.state.k_f;
                      k_by_phi = cal.state.k_by_phi;
                      eps_f = cal.state.eps_f;
                    } in
                    t)
                  (p.1 quiet)),
          ),
        )
