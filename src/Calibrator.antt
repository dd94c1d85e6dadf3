-- ===== src/Calibrator.antt =====
-- imads-core/src/policies/calibrator.rs: the data of the calibrators, what they start from and how
-- they are configured.
pub mod Counting
pub mod Delta
pub mod Samples
pub mod Coefficients
pub mod Buckets
pub mod DeltaK
pub mod Tests
use imads.Prelude.{ℕ, ◌+◌, Bool, Option, none, some, List, [], ◌∷◌, map, if◌then◌else◌, replicate}
use imads.Float.{Float, clamp}
use imads.Types.{Phi, Tau, Smc, JobResult}
use imads.Margin.{KByPhiState, Thresholds}
use imads.Engine.Audit.{AuditOf, PairedAuditSample}

pub record KIntervalKey : Type 0 where
  pub tau_loose : Tau
  pub tau_tight : Tau
  pub smc : Smc

pub record KIntervalState (F : Type 0) : Type 0 where
  pub key : KIntervalKey
  pub k_f : F
  pub k_c : List F
  pub sample_count_f : ℕ
  pub sample_count_c : List ℕ

pub record CalibState (F : Type 0) : Type 0 where
  pub policy_rev : ℕ
  pub delta_rel : List F
  pub k_c : List F
  pub k_f : F
  pub eps_f : F
  pub target_false : F
  pub min_audits : ℕ
  pub eta_delta : F
  pub delta_min : F
  pub delta_max : F
  pub cut_n : List ℕ
  pub audit_n : List ℕ
  pub false_infeas_n : List ℕ
  pub confirmed_violation_n : List ℕ
  pub cut_n_by_phi_idx : List (List ℕ)
  pub audit_n_by_phi_idx : List (List ℕ)
  pub false_infeas_n_by_phi_idx : List (List ℕ)
  pub confirmed_violation_n_by_phi_idx : List (List ℕ)
  pub k_interval_stats : List (KIntervalState F)
  pub k_by_phi : List (KByPhiState F)

pub record CalibratorConfig (F : Type 0) : Type 0 where
  pub target_false : F
  pub min_audits : ℕ
  pub eta_delta : F
  pub delta_min : F
  pub delta_max : F
  pub k_window : ℕ
  pub k_min_pairs : ℕ
  pub k_quantile : F
  pub k_eta : F

pub record CalibEvent (F : Type 0) : Type 0 where
  pub id : ℕ
  pub result : JobResult F
  pub audited : Bool
  pub audit_of : Option AuditOf
  pub paired_sample : Option (PairedAuditSample F)

module _ {F : Type 0} where
  -- `DefaultMargin::thresholds`
  unfoldable pub thresholds : CalibState F → Thresholds F
  thresholds cal = record {
    delta_rel = cal.delta_rel;
    k_c = cal.k_c;
    k_f = cal.k_f;
    k_by_phi = cal.k_by_phi;
    eps_f = cal.eps_f;
  }

module _ {F : Type 0} ⦃d : Float F⦄ where
  open d use {nought, le, decimal}

  -- The state that each of the calibrators starts from.
  unfoldable pub init_state : ℕ → CalibState F
  init_state m = record {
    policy_rev = 0;
    delta_rel = replicate m (decimal 5 3);
    k_c = replicate m nought;
    k_f = nought;
    eps_f = decimal 1 3;
    target_false = decimal 1 2;
    min_audits = 20;
    eta_delta = decimal 1 1;
    delta_min = nought;
    delta_max = decimal 5 2;
    cut_n = replicate m 0;
    audit_n = replicate m 0;
    false_infeas_n = replicate m 0;
    confirmed_violation_n = replicate m 0;
    cut_n_by_phi_idx = replicate m [];
    audit_n_by_phi_idx = replicate m [];
    false_infeas_n_by_phi_idx = replicate m [];
    confirmed_violation_n_by_phi_idx = replicate m [];
    k_interval_stats = [];
    k_by_phi = [];
  }

  -- `x.clamp(lo, hi)`, which asserts that `lo <= hi`.
  unfoldable pub checked_clamp : F → F → F → Option F
  checked_clamp x lo hi = if le lo hi then some (clamp x lo hi) else none

  unfoldable pub clamp_all : F → F → List F → Option (List F)
  clamp_all lo hi [] = some []
  clamp_all lo hi (x ∷ xs) = if le lo hi then some (map (λ y. clamp y lo hi) (x ∷ xs)) else none

  -- What every calibrator takes over from a configuration; `none` where `clamp` panics.
  unfoldable pub configure_state : CalibState F → CalibratorConfig F → Option (CalibState F)
  configure_state s cfg = elim (clamp_all cfg.delta_min cfg.delta_max s.delta_rel) [
    | none ↦ none
    | some deltas ↦ some (record s {
      target_false = cfg.target_false;
      min_audits = cfg.min_audits;
      eta_delta = cfg.eta_delta;
      delta_min = cfg.delta_min;
      delta_max = cfg.delta_max;
      delta_rel = deltas;
    })
  ]
