-- ===== src/Calibrator/DeltaK.antt =====
-- `DeltaKCalibrator`: what it starts from, its configuration, its events and its update.
pub mod Windows
pub mod Observation
pub mod Stages
pub mod IntervalStage
pub mod PhiStage
pub mod Total
pub mod History
use Prim.Native.Nat.{min, max}
use imads.Prelude.{
  ℕ, ◌+◌, Bool, false, ◌||◌, Option, none, some, List, [], ◌∷◌, map, ◌==◌, if◌then◌else◌, length,
  replicate,
}
use imads.Float.{Float, clamp}
use imads.Float.Libm.{Libm}
use imads.Types.{
  Phi, Estimates, EvalMeta, JobResult, rejected_cheap, rejected_invalid_eval, early_infeasible,
  partial, truth,
}
use imads.Cache.{get}
use imads.Cache.Keys.{phi_key, nat_key}
use imads.Margin.{KByPhiState}
use imads.Engine.Audit.{PairedAuditSample}
use imads.Calibrator.{CalibState, CalibratorConfig, CalibEvent, init_state, configure_state}
use imads.Calibrator.Counting.{Counts_default, note_audit, remove, sync_counts_to_state}
use imads.Calibrator.Delta.{update_delta, revised}
use imads.Calibrator.Samples.{
  PendingAudit, DeltaKCalibrator, interval_key, truth_as_estimates, is_interval,
  register_interval_sample, register_cut_to_truth_fallback, by_phi_idx, append_optional,
  note_audit_checkpoint,
}
use imads.Calibrator.Coefficients.{update_global_k, padded}
use imads.Calibrator.Buckets.{update_interval_k, update_phi_bucket_k}

infixl 5 ◌>>=◌
abbrev pub ◌>>=◌ : {A B : Type 0} → Option A → (A → Option B) → Option B
none >>= f = none
some a >>= f = f a

module _ {F : Type 0} ⦃d : Float F⦄ where
  open d use {nought, one, is_finite}

  unfoldable pub DeltaKCalibrator_init : DeltaKCalibrator F → ℕ → DeltaKCalibrator F
  DeltaKCalibrator_init cal m = record cal {
    state = init_state m;
    counts = replicate m Counts_default;
    pending = [];
    k_samples_f = [];
    k_samples_c = replicate m [];
    k_phi_samples_f = [];
    k_phi_samples_c = [];
    k_interval_samples_f = [];
    k_interval_samples_c = [];
  }

  abbrev pub finite_or_zero : F → F
  finite_or_zero x = if is_finite x then x else nought

  abbrev pub finite_state : ℕ → KByPhiState F → KByPhiState F
  finite_state m st = record st {
    k_f = finite_or_zero st.k_f;
    k_c = map finite_or_zero (padded st.k_c m);
  }

  -- The state takes the configuration, and coefficients that are not finite become zero.
  unfoldable pub DeltaKCalibrator_configure :
      DeltaKCalibrator F → CalibratorConfig F → Option (DeltaKCalibrator F)
  DeltaKCalibrator_configure cal cfg = elim (configure_state cal.state cfg) [
    | none ↦ none
    | some s ↦ some (record cal {
      state = record s {
        k_c = map finite_or_zero s.k_c;
        k_f = finite_or_zero s.k_f;
        k_by_phi = map (finite_state (length s.k_c)) s.k_by_phi;
      };
      k_window = max cfg.k_window 1;
      k_min_pairs = min (max cfg.k_min_pairs 1) (max (max cfg.k_window 1) 1);
      k_quantile = clamp cfg.k_quantile nought one;
      k_eta = clamp cfg.k_eta nought one;
    })
  ]

module _ {F : Type 0} ⦃d : Float F⦄ where
  -- `checkpoints.windows(2)`: each pair that forms an interval is registered, and they are counted.
  unfoldable pub register_pairs :
      DeltaKCalibrator F → Phi → Estimates F → List (PairedAuditSample F) → DeltaKCalibrator F × ℕ
  register_pairs cal loose_phi loose [] = (cal, 0)
  register_pairs cal loose_phi loose (ps ∷ rest) =
      let is_pair = is_interval loose_phi ps.paired_phi in
      let cal1 =
        if is_pair
        then register_interval_sample cal loose_phi loose ps.paired_phi ps.estimates
        else cal in
      let (cal2, n) = register_pairs cal1 ps.paired_phi ps.estimates rest in
      (cal2, if is_pair then n + 1 else n)

  -- The samples of a finished audit.
  unfoldable pub register_audit :
      DeltaKCalibrator F → PendingAudit F → Estimates F → DeltaKCalibrator F
  register_audit cal pending truth_est =
      let (cal1, structured_pairs) =
        register_pairs cal pending.audit_of.phi_at_cut pending.est_at_cut
          (by_phi_idx pending.paired_samples) in
      if structured_pairs == 0
      then register_cut_to_truth_fallback cal1 pending.audit_of.phi_at_cut pending.est_at_cut
          truth_est
      else cal1

  -- The TRUTH result of a candidate with a pending audit.
  unfoldable pub finish_audit :
      DeltaKCalibrator F → CalibEvent F → List F → List F → Bool → EvalMeta F → DeltaKCalibrator F
  finish_audit cal ev f c feasible meta = elim (get cal.pending ev.id) [
    | none ↦ cal
    | some found ↦
        let pending = append_optional found ev.paired_sample in
        let counted = record cal {
          pending = remove cal.pending ev.id;
          counts = note_audit pending.audit_of feasible c cal.counts;
        } in
        register_audit counted pending (truth_as_estimates meta.phi f c (length cal.state.k_c))
  ]

  unfoldable pub observe_checkpoint :
      DeltaKCalibrator F → CalibEvent F → Estimates F → DeltaKCalibrator F
  observe_checkpoint cal ev est =
      if ev.audited
      then elim ev.audit_of [
        | none ↦ cal
        | some a ↦ note_audit_checkpoint cal ev.id a est ev.paired_sample
      ]
      else cal

  unfoldable pub observe : DeltaKCalibrator F → CalibEvent F → JobResult F → DeltaKCalibrator F
  observe cal ev (early_infeasible j est meta) = observe_checkpoint cal ev est
  observe cal ev (partial est meta) = observe_checkpoint cal ev est
  observe cal ev (truth f c feasible v meta) = finish_audit cal ev f c feasible meta
  observe cal ev (rejected_cheap meta) = cal
  observe cal ev (rejected_invalid_eval meta) = cal

  unfoldable pub observe_all : DeltaKCalibrator F → List (CalibEvent F) → DeltaKCalibrator F
  observe_all cal [] = cal
  observe_all cal (ev ∷ evs) = observe_all (observe cal ev ev.result) evs

module _ {F : Type 0} where
  -- A stage of the update: a new state, and whether something has changed so far.
  abbrev pub stage :
      (DeltaKCalibrator F → Option (CalibState F × Bool))
      → DeltaKCalibrator F × Bool
      → Option (DeltaKCalibrator F × Bool)
  stage f (cal, changed) = elim (f cal) [
    | none ↦ none
    | some (s, ch) ↦ some (record cal { state = s }, changed || ch)
  ]

module _ {F : Type 0} ⦃d : Float F⦄ ⦃e : Libm F⦄ where
  abbrev pub update_delta_rel : DeltaKCalibrator F → Option (CalibState F × Bool)
  update_delta_rel cal = elim (update_delta cal.state cal.counts cal.state.delta_rel) [
    | none ↦ none
    | some (deltas, ch) ↦ some (record cal.state { delta_rel = deltas }, ch)
  ]

  -- The calibrator and the increment of the revision.
  unfoldable pub DeltaKCalibrator_update :
      DeltaKCalibrator F → List (CalibEvent F) → Option (DeltaKCalibrator F × ℕ)
  DeltaKCalibrator_update cal events = do
    c1 ← stage update_delta_rel (observe_all cal events, false)
    c2 ← stage update_global_k c1
    c3 ← stage update_interval_k c2
    (last, changed) ← stage update_phi_bucket_k c3
    let (s, inc) = revised changed (sync_counts_to_state last.state last.counts)
    some (record last { state = s }, inc)
