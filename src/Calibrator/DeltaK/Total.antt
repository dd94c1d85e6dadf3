-- ===== src/Calibrator/DeltaK/Total.antt =====
-- The update of `DeltaKCalibrator` as a whole, over any history of batches.
use imads.Prelude.{
  ℕ, ◌+◌, ◌≤◌, ◌≡◌, refl, ap, subst, ◌∙◌, Bool, true, false, Option, List, arith, length,
}
use imads.Float.{Float, IsIeee}
use imads.Float.Libm.{Libm, IsLibm}
use imads.Calibrator.{CalibState, CalibEvent, thresholds}
use imads.Calibrator.Counting.{sync_counts_to_state}
use imads.Calibrator.Counting.Balance.{AllBalanced}
use imads.Calibrator.Delta.{revised}
use imads.Calibrator.Delta.Range.{Returns}
use imads.Calibrator.Samples.{DeltaKCalibrator}
use imads.Calibrator.Coefficients.{update_global_k}
use imads.Calibrator.Buckets.{update_interval_k, update_phi_bucket_k}
use imads.Calibrator.DeltaK.{◌>>=◌, stage, update_delta_rel, observe_all, DeltaKCalibrator_update}
use imads.Calibrator.DeltaK.Windows.{HasWindows}
use imads.Calibrator.DeltaK.Observation.{cut_of, observe_all-Observed}
use imads.Calibrator.DeltaK.Stages.{IsState, Aside, global-Staged}
use imads.Calibrator.DeltaK.IntervalStage.{interval-Staged}
use imads.Calibrator.DeltaK.PhiStage.{SameThresholds, delta-Staged, phi-Staged}

bind-Returns :
    {A B : Type 0} (P : A → Type 0) (Q : B → Type 0) (m : Option A) (f : A → Option B)
    → Returns P m
    → ((a : A) → P a → Returns Q (f a))
    → Returns Q (m >>= f)
bind-Returns P Q m f (a, same, p) h = rw same (h a p)

module _ {F : Type 0} ⦃d : Float F⦄ where
  -- A calibrator whose state lies within its bounds, whose windows hold samples, and whose counts
  -- are balanced with the pending audits.
  pub record IsValid (cal : DeltaKCalibrator F) : Type 0 where
    pub state : IsState cal.state
    pub windows : HasWindows cal
    pub balanced : AllBalanced cut_of cal.counts cal.pending
    pub constraints : length cal.state.delta_rel ≤ length cal.counts

  with_state-HasWindows :
      (cal : DeltaKCalibrator F) (s : CalibState F)
      → HasWindows cal
      → HasWindows (record cal { state = s })
  with_state-HasWindows cal s h = record {
    global_f = h.global_f;
    global_c = h.global_c;
    phi_f = h.phi_f;
    phi_c = h.phi_c;
    interval_f = h.interval_f;
    interval_c = h.interval_c;
  }

  -- What stages have made of `cal`, in a relation of the thresholds if they report no change.
  record Progress (R : CalibState F → CalibState F → Type 0) (cal : DeltaKCalibrator F)
      (r : DeltaKCalibrator F × Bool) : Type 0 where
    pub state : IsState r.0.state
    pub windows : HasWindows r.0
    pub counts : r.0.counts ≡ cal.counts
    pub pending : r.0.pending ≡ cal.pending
    pub aside : Aside cal.state r.0.state
    pub quiet : r.1 ≡ false → R cal.state r.0.state

  abbrev Same : CalibState F → CalibState F → Type 0
  Same a b = thresholds b ≡ thresholds a

  abbrev Alike : CalibState F → CalibState F → Type 0
  Alike a b = SameThresholds (thresholds a) (thresholds b)

  stage-Progress :
      (R : CalibState F → CalibState F → Type 0)
      (f : DeltaKCalibrator F → Option (CalibState F × Bool)) (cal : DeltaKCalibrator F)
      (r : DeltaKCalibrator F × Bool)
      → ((a b : CalibState F) → Same cal.state a → R a b → R cal.state b)
      → Returns (λ p. IsState p.0 × Aside r.0.state p.0 × (p.1 ≡ false → R r.0.state p.0)) (f r.0)
      → Progress Same cal r
      → Returns (Progress R cal) (stage f r)
  stage-Progress R f cal r chain (p, same, (ok, aside, quiet)) before =
      rw (same, stage)
        (
          _,
          refl,
          record {
            state = ok;
            windows = with_state-HasWindows r.0 p.0 before.windows;
            counts = before.counts;
            pending = before.pending;
            aside = record {
              revision = aside.revision ∙ before.aside.revision;
              slacks = aside.slacks ∙ before.aside.slacks;
            };
            quiet = λ h. chain r.0.state p.0 (before.quiet (ground arith)) (quiet (ground arith));
          },
        )

  Same-trans : (s a b : CalibState F) → Same s a → Same a b → Same s b
  Same-trans s a b p q = q ∙ p

  Same-Alike : (s a b : CalibState F) → Same s a → Alike a b → Alike s b
  Same-Alike s a b p q = subst (λ t. SameThresholds t (thresholds b)) p q

  -- What an update yields: a valid calibrator, a revision that rises by the reported increment, and
  -- without an increment the thresholds as they were.
  pub record Outcome (s : CalibState F) (r : DeltaKCalibrator F × ℕ) : Type 0 where
    pub valid : IsValid r.0
    pub revision : r.0.state.policy_rev ≡ s.policy_rev + r.1
    pub at_most_one : r.1 ≤ 1
    pub quiet : r.1 ≡ 0 → Alike s r.0.state

  abbrev finish : DeltaKCalibrator F × Bool → DeltaKCalibrator F × ℕ
  finish r =
      let (s, inc) = revised r.1 (sync_counts_to_state r.0.state r.0.counts) in
      (record r.0 { state = s }, inc)

  -- Counts and revision are not among the bounds.
  revised-IsState :
      (s : CalibState F) (cal : DeltaKCalibrator F) (rev : ℕ)
      → IsState s
      → IsState (record (sync_counts_to_state s cal.counts) { policy_rev = rev })
  unfolding sync_counts_to_state
  revised-IsState s cal rev h = record {
    range = h.range;
    deltas = h.deltas;
    objective = h.objective;
    constraints = h.constraints;
    by_phi = h.by_phi;
    intervals = h.intervals;
  }

  finish-Outcome :
      (start last : DeltaKCalibrator F) (changed : Bool)
      → AllBalanced cut_of start.counts start.pending
      → length start.state.delta_rel ≤ length start.counts
      → Progress Alike start (last, changed)
      → Outcome start.state (finish (last, changed))
  unfolding sync_counts_to_state thresholds
  finish-Outcome start last true balanced n p = record {
    valid = record {
      state = revised-IsState last.state last (last.state.policy_rev + 1) p.state;
      windows = with_state-HasWindows last _ p.windows;
      balanced = rw (p.counts, p.pending) balanced;
      constraints = omega (arith, n, ap length p.counts, p.aside.slacks);
    };
    revision = omega (arith, p.aside.revision);
    at_most_one = omega arith;
    quiet = λ h. absurd (omega arith);
  }
  finish-Outcome start last false balanced n p = record {
    valid = record {
      state = revised-IsState last.state last last.state.policy_rev p.state;
      windows = with_state-HasWindows last _ p.windows;
      balanced = rw (p.counts, p.pending) balanced;
      constraints = omega (arith, n, ap length p.counts, p.aside.slacks);
    };
    revision = omega (arith, p.aside.revision);
    at_most_one = omega arith;
    quiet = λ h. p.quiet refl;
  }

module _ {F : Type 0} ⦃d : Float F⦄ ⦃e : Libm F⦄ (laws : IsIeee F) (libm : IsLibm F) where
  start-Progress :
      (cal : DeltaKCalibrator F)
      → IsState cal.state
      → HasWindows cal
      → Progress Same cal (cal, false)
  start-Progress cal ok w = record {
    state = ok;
    windows = w;
    counts = refl;
    pending = refl;
    aside = record { revision = refl; slacks = refl };
    quiet = λ h. refl;
  }

  -- With numbers that obey IEEE 754, the update of a valid calibrator returns: no index is out of
  -- bounds, no `clamp` has its bounds reversed, and no NaN is sorted. The calibrator is valid
  -- again. Its revision rises by the increment that is reported, at most 1; if none is reported,
  -- the thresholds that the margin policy reads are the same.
  pub DeltaKCalibrator_update-Outcome :
      (cal : DeltaKCalibrator F) (events : List (CalibEvent F))
      → IsValid cal
      → Returns (Outcome cal.state) (DeltaKCalibrator_update cal events)
  unfolding DeltaKCalibrator_update
  DeltaKCalibrator_update-Outcome cal events h =
      let seen = observe_all cal events in
      let obs = observe_all-Observed cal events in
      let ok : IsState seen.state = rw obs.state h.state in
      let n : length seen.state.delta_rel ≤ length seen.counts =
        rw (obs.state, obs.constraints) h.constraints in
      let w = obs.windows h.windows in
      let (r, same, out) =
        (bind-Returns (Progress Same seen) (Outcome seen.state) _ _
          (stage-Progress Same update_delta_rel seen (seen, false) (Same-trans seen.state)
            (delta-Staged laws libm seen n ok) (start-Progress seen ok w))
          (λ r1 p1.
            bind-Returns (Progress Same seen) (Outcome seen.state) _ _
              (stage-Progress Same update_global_k seen r1 (Same-trans seen.state)
                (global-Staged laws r1.0 p1.windows p1.state) p1)
              (λ r2 p2.
                bind-Returns (Progress Same seen) (Outcome seen.state) _ _
                  (stage-Progress Same update_interval_k seen r2 (Same-trans seen.state)
                    (interval-Staged laws r2.0 p2.windows p2.state) p2)
                  (λ r3 p3.
                    bind-Returns (Progress Alike seen) (Outcome seen.state) _ _
                      (stage-Progress Alike update_phi_bucket_k seen r3 (Same-Alike seen.state)
                        (phi-Staged laws r3.0 p3.windows p3.state) p3)
                      (λ r p. (
                        finish r,
                        refl,
                        finish-Outcome seen r.0 r.1 (obs.balanced h.balanced) n p,
                      )))))) in
      (r, same, subst (λ s. Outcome s r) obs.state out)
