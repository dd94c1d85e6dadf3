-- ===== src/Dids/Tests.antt =====
-- DIDS on concrete counts, and its theorem at a concrete input.
use imads.Prelude.{◌≡◌, refl, false, [], ◌∷◌, arith, leb, get_or}
use imads.Prelude.Int.{pos}
use imads.Float.{clamp, fmax}
use imads.Float.Libm.{fmin}
use imads.Float.Fixed.{Fixed, fixed_float, Fixed-IsIeee, fixed_libm, Fixed-IsScaling, milli}
use imads.Calibrator.{CalibState}
use imads.Calibrator.Tests.{state}
use imads.Dids.{DefaultDids, next_baseline, update_assignment}
use imads.Dids.Evidence.{effective_sample_size, weighted_quantile, wilson_interval}
use imads.Dids.Levels.{
  target_rate, is_alarm, raise_from, raised, is_strong, relaxed, bumps_of, bumped, cut_levels,
  base_level, level_of, levels_from, compute_assignment,
}
use imads.Dids.Alarms.{AreLiterals, update_assignment_alarms}

Fixed-AreLiterals : AreLiterals Fixed
Fixed-AreLiterals = record {
  hundredth = (refl, refl);
  relax_nonneg = refl;
  relax_le_alarm = refl;
  relax_le_severe = refl;
  finite_alarm = refl;
  finite_severe = refl;
  alarm_le_relax = refl;
}

-- Five audits of cuts at the second step of the ladder, of which three found a feasible candidate.
abbrev audited : CalibState Fixed
audited = record state {
  audit_n = 5 ∷ [];
  false_infeas_n = 3 ∷ [];
  confirmed_violation_n = 2 ∷ [];
  audit_n_by_phi_idx = (0 ∷ 5 ∷ []) ∷ [];
  false_infeas_n_by_phi_idx = (0 ∷ 3 ∷ []) ∷ [];
  confirmed_violation_n_by_phi_idx = (0 ∷ 2 ∷ []) ∷ [];
}

abbrev fresh : DefaultDids Fixed
fresh = record {
  m = 1;
  records = [];
  assignment = 1 ∷ [];
  max_records = 5000;
  delta_baseline = milli (pos 5);
}

-- The constraint may cut from the third step on.
assigned :
    update_assignment fresh 4 audited
    ≡ (record fresh { delta_baseline = milli (pos 40); assignment = 3 ∷ [] }, 3 ∷ [], 1)
unfolding update_assignment next_baseline fmin compute_assignment levels_from level_of base_level
    cut_levels raised raise_from is_alarm relaxed is_strong bumped bumps_of target_rate
    wilson_interval clamp fmax effective_sample_size weighted_quantile
assigned = refl

update_assignment_alarms_example : leb (get_or (update_assignment fresh 4 audited).1 0 4) 2 ≡ false
unfolding is_alarm target_rate wilson_interval clamp fmax bumps_of next_baseline fmin
update_assignment_alarms_example =
    update_assignment_alarms Fixed-IsIeee Fixed-IsScaling Fixed-AreLiterals fresh 4 audited 0 1
      (omega arith) refl refl refl (omega arith)
