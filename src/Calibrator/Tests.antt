-- ===== src/Calibrator/Tests.antt =====
-- The calibrator on concrete events, and the theorems at concrete inputs.
use imads.Prelude.{ℕ, ◌≡◌, refl, true, Option, none, some, List, [], ◌∷◌, arith}
use imads.Prelude.Int.{pos, negsuc}
use imads.Float.{clamp, fmax}
use imads.Float.Fixed.{Fixed, fixed_float, Fixed-IsIeee, fixed_libm, Fixed-IsLibm, milli}
use imads.Types.{Phi, EvalMeta, early_infeasible, truth}
use imads.Cache.{get, put}
use imads.Engine.Audit.{AuditOf}
use imads.Engine.Examples.{num, estimates}
use imads.Calibrator.{CalibState, CalibratorConfig, CalibEvent, checked_clamp}
use imads.Calibrator.Counting.{Counts_default, note_cut, note_audit, remove, sync_counts_to_state}
use imads.Calibrator.Counting.Balance.{AllBalanced-start}
use imads.Calibrator.Delta.{
  scaled, delta_step, update_delta, DeltaCalibrator, note, note_all, DeltaCalibrator_update,
}
use imads.Calibrator.Delta.Range.{Returns}
use imads.Calibrator.Samples.{DeltaKCalibrator}
use imads.Calibrator.DeltaK.{DeltaKCalibrator_update}
use imads.Calibrator.DeltaK.Windows.{empty-IsWindow}
use imads.Calibrator.DeltaK.Observation.{cut_of}
use imads.Calibrator.DeltaK.Total.{IsValid, Outcome, DeltaKCalibrator_update-Outcome}
use imads.Calibrator.DeltaK.History.{calibrated, calibrated-IsValid}

abbrev cut_phi : Phi
cut_phi = record { tau = 10; smc = 3 }

abbrev truth_phi : Phi
truth_phi = record { tau = 1; smc = 3 }

abbrev meta_at : Phi → EvalMeta Fixed
meta_at phi = record { phi = phi; env_rev = 0; policy_rev = 0; runtime_cost = num 1 }

abbrev origin : AuditOf
origin = record { violated_j = 0; phi_at_cut = cut_phi; phi_idx_at_cut = 1 }

-- An audited early cut, and the TRUTH result: the candidate was feasible.
abbrev cut_event : CalibEvent Fixed
cut_event = record {
  id = 7;
  result = early_infeasible 0 estimates (meta_at cut_phi);
  audited = true;
  audit_of = some origin;
  paired_sample = none;
}

abbrev truth_event : CalibEvent Fixed
truth_event = record {
  id = 7;
  result = truth (num 6 ∷ []) (milli (negsuc 999) ∷ []) true (num 0) (meta_at truth_phi);
  audited = true;
  audit_of = none;
  paired_sample = some (record {
    paired_phi = truth_phi;
    paired_phi_idx = 2;
    estimates = record estimates { f_hat = num 6 ∷ []; c_hat = milli (negsuc 999) ∷ [] };
  });
}

abbrev pub cfg : CalibratorConfig Fixed
cfg = record {
  target_false = milli (pos 10);
  min_audits = 1;
  eta_delta = milli (pos 100);
  delta_min = num 0;
  delta_max = milli (pos 50);
  k_window = 4;
  k_min_pairs = 1;
  k_quantile = milli (pos 900);
  k_eta = milli (pos 500);
}

abbrev pub state : CalibState Fixed
state = record {
  policy_rev = 3;
  delta_rel = milli (pos 40) ∷ [];
  k_c = num 0 ∷ [];
  k_f = num 0;
  eps_f = milli (pos 1);
  target_false = cfg.target_false;
  min_audits = 1;
  eta_delta = cfg.eta_delta;
  delta_min = cfg.delta_min;
  delta_max = cfg.delta_max;
  cut_n = 0 ∷ [];
  audit_n = 0 ∷ [];
  false_infeas_n = 0 ∷ [];
  confirmed_violation_n = 0 ∷ [];
  cut_n_by_phi_idx = [] ∷ [];
  audit_n_by_phi_idx = [] ∷ [];
  false_infeas_n_by_phi_idx = [] ∷ [];
  confirmed_violation_n_by_phi_idx = [] ∷ [];
  k_interval_stats = [];
  k_by_phi = [];
}

abbrev idle : DeltaKCalibrator Fixed
idle = record {
  state = state;
  counts = Counts_default ∷ [];
  pending = [];
  k_samples_f = [];
  k_samples_c = [] ∷ [];
  k_phi_samples_f = [];
  k_phi_samples_c = [];
  k_interval_samples_f = [];
  k_interval_samples_c = [];
  k_window = 4;
  k_min_pairs = 1;
  k_quantile = milli (pos 900);
  k_eta = milli (pos 500);
}

-- One false alarm in one audit raises the slack by a tenth.
abbrev slacks_after : Option (DeltaCalibrator Fixed × ℕ) → Option (List Fixed × ℕ)
slacks_after none = none
slacks_after (some (cal, inc)) = some (cal.state.delta_rel, inc)

delta_grows :
    slacks_after (
      DeltaCalibrator_update
        (record { state = state; counts = Counts_default ∷ []; pending = [] })
        (cut_event ∷ truth_event ∷ []))
    ≡ some (milli (pos 44) ∷ [], 1)
unfolding DeltaCalibrator_update note_all note note_cut note_audit update_delta delta_step scaled
    checked_clamp sync_counts_to_state get put remove clamp fmax
delta_grows = refl

idle-IsValid : IsValid idle
idle-IsValid = record {
  state = record {
    range = refl;
    deltas = ((refl, refl), tt);
    objective = refl;
    constraints = (refl, tt);
    by_phi = tt;
    intervals = tt;
  };
  windows = record {
    global_f = empty-IsWindow 4;
    global_c = (empty-IsWindow 4, tt);
    phi_f = tt;
    phi_c = tt;
    interval_f = tt;
    interval_c = tt;
  };
  balanced = AllBalanced-start (cut_of {F = Fixed}) 1;
  constraints = omega arith;
}

DeltaKCalibrator_update-Outcome_example :
    Returns (Outcome state) (DeltaKCalibrator_update idle (cut_event ∷ truth_event ∷ []))
DeltaKCalibrator_update-Outcome_example =
    DeltaKCalibrator_update-Outcome Fixed-IsIeee Fixed-IsLibm idle (cut_event ∷ truth_event ∷ [])
      idle-IsValid

calibrated-IsValid_example :
    Returns IsValid (calibrated idle 1 cfg ((cut_event ∷ []) ∷ (truth_event ∷ []) ∷ []))
calibrated-IsValid_example =
    calibrated-IsValid Fixed-IsIeee refl Fixed-IsLibm idle 1 cfg
      ((cut_event ∷ []) ∷ (truth_event ∷ []) ∷ []) refl
