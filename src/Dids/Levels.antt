-- ===== src/Dids/Levels.antt =====
-- The level of one constraint: a rule from the recorded cuts, raised where audits give alarm,
-- relaxed on strong evidence, and raised where the slack has grown.
use Prim.Native.Nat.{min, max}
use imads.Prelude.{
  ℕ, zero, suc, ◌+◌, ◌-◌, ◌*◌, ◌/◌, ◌%◌, ◌^◌, Bool, true, false, not, ◌&&◌, ◌||◌, Option, none,
  some, List, [], ◌∷◌, ◌==◌, ltb, leb, if◌then◌else◌, length, get_elem?, get_or,
}
use imads.Float.{Float, fmax, clamp}
use imads.Float.Libm.{Libm}
use imads.Types.{Phi, XMesh}
use imads.Calibrator.{CalibState}
use imads.Dids.Evidence.{
  float, effective_sample_size, weighted_quantile, wilson_interval, recency_weight,
}

pub data OutcomeTag : Type 0 where
  tag_rejected_cheap tag_rejected_invalid_eval tag_early_infeasible : OutcomeTag
  tag_partial tag_truth : OutcomeTag

pub record DidsRecord : Type 0 where
  pub x : XMesh
  pub phi : Phi
  pub phi_idx : ℕ
  pub outcome : OutcomeTag
  pub violated_j : Option ℕ

abbrev pub is_cut_of : ℕ → DidsRecord → Bool
is_cut_of j r = elim r.outcome [
  | tag_early_infeasible ↦ elim r.violated_j [ none ↦ false | some i ↦ i == j ]
  | _ ↦ false
]

-- `x.clamp(1, l)`
abbrev pub clamp_level : ℕ → ℕ → ℕ
clamp_level x l = min (max x 1) l

-- The sum wraps around in a release build.
unfoldable pub bumped : ℕ → ℕ → ℕ → ℕ
bumped l bumps out = if ltb 0 bumps then min ((out + bumps) % 2 ^ 64) l else out

-- The counts of the audits of constraint `j`, by the step of the cut and overall.
pub record Audits : Type 0 where
  pub aud_by_phi : Option (List ℕ)
  pub false_by_phi : Option (List ℕ)
  pub confirmed_by_phi : Option (List ℕ)
  pub precision_enabled : Bool
  pub overall_aud : ℕ
  pub overall_false : ℕ
  pub overall_confirmed : ℕ

abbrev pub is_some {ℓ} : {A : Type ℓ} → Option A → Bool
is_some none = false
is_some (some a) = true

-- `counts.and_then(|v| v.get(lvl).copied()).unwrap_or(0)`
abbrev pub count_at : Option (List ℕ) → ℕ → ℕ
count_at none lvl = 0
count_at (some v) lvl = get_or v lvl 0

module _ {F : Type 0} where
  abbrev pub audits_of : CalibState F → ℕ → Audits
  audits_of calib j = record {
    aud_by_phi = get_elem? calib.audit_n_by_phi_idx j;
    false_by_phi = get_elem? calib.false_infeas_n_by_phi_idx j;
    confirmed_by_phi = get_elem? calib.confirmed_violation_n_by_phi_idx j;
    precision_enabled =
        is_some (get_elem? calib.confirmed_violation_n_by_phi_idx j)
        || is_some (get_elem? calib.confirmed_violation_n j);
    overall_aud = get_or calib.audit_n j 0;
    overall_false = get_or calib.false_infeas_n j 0;
    overall_confirmed = get_or calib.confirmed_violation_n j 0;
  }

module _ {F : Type 0} ⦃d : Float F⦄ where
  open d use {nought, one, is_finite, lt, le, mul, div, decimal}

  -- The target rate of false alarms.
  unfoldable pub target_rate : CalibState F → F
  target_rate calib =
      if is_finite calib.target_false && lt nought calib.target_false
      then clamp calib.target_false nought one
      else decimal 1 2

  -- The upper end of the interval of false alarms.
  abbrev pub false_hi : ℕ → ℕ → F
  false_hi fals aud = (wilson_interval fals aud (decimal 196 2)).1

  -- The lower end of the interval of confirmed violations, where these are counted.
  abbrev pub precision_lo : Bool → ℕ → ℕ → F
  precision_lo enabled confirmed aud =
      if enabled then (wilson_interval confirmed aud (decimal 196 2)).0 else nought

  -- Whether the audits of cuts at index `lvl0` give alarm.
  unfoldable pub is_alarm : F → ℕ → Audits → ℕ → Bool
  is_alarm t min_audits a lvl0 =
      let aud_n = count_at a.aud_by_phi lvl0 in
      let fals_n = count_at a.false_by_phi lvl0 in
      let hi = false_hi fals_n aud_n in
      let lo = precision_lo a.precision_enabled (count_at a.confirmed_by_phi lvl0) aud_n in
      let false_alarm = leb min_audits aud_n && lt (mul t (decimal 115 2)) hi in
      let precision_alarm = a.precision_enabled && leb min_audits aud_n && lt lo (decimal 55 2) in
      let severe_low_n_false =
        leb (max (min_audits / 2) 3) aud_n && ltb 0 fals_n && lt (mul t (decimal 150 2)) hi in
      not (aud_n == 0) && (false_alarm || precision_alarm || severe_low_n_false)

  -- The loop over the next `n` indices, from `lvl0` on.
  unfoldable pub raise_from : F → ℕ → Audits → ℕ → ℕ → ℕ → ℕ → ℕ
  raise_from t min_audits a l zero lvl0 out = out
  raise_from t min_audits a l (suc n) lvl0 out =
      raise_from t min_audits a l n (lvl0 + 1)
        (if is_alarm t min_audits a lvl0 then max out (min (lvl0 + 2) l) else out)

  unfoldable pub raised : F → ℕ → Audits → ℕ → ℕ → ℕ
  raised t min_audits a l out =
      if is_some a.aud_by_phi && is_some a.false_by_phi
      then raise_from t min_audits a l l 0 out
      else out

  -- Whether the evidence at index `lvl0` is strong enough to cut there.
  unfoldable pub is_strong : F → ℕ → Audits → ℕ → Bool
  is_strong t relax_min_audits a lvl0 =
      let aud_n = count_at a.aud_by_phi lvl0 in
      let hi = false_hi (count_at a.false_by_phi lvl0) aud_n in
      let lo = precision_lo a.precision_enabled (count_at a.confirmed_by_phi lvl0) aud_n in
      let overall_hi = false_hi a.overall_false a.overall_aud in
      let overall_lo = precision_lo a.precision_enabled a.overall_confirmed a.overall_aud in
      let precision_ok =
        not a.precision_enabled || lt (decimal 70 2) lo && lt (decimal 65 2) overall_lo in
      leb relax_min_audits aud_n
      && leb relax_min_audits a.overall_aud
      && lt hi (mul t (decimal 60 2))
      && lt overall_hi (mul t (decimal 75 2))
      && precision_ok

  unfoldable pub relaxed : F → ℕ → Audits → ℕ → ℕ
  relaxed t relax_min_audits a out =
      if ltb 1 out && is_strong t relax_min_audits a (out - 2) then out - 1 else out

module _ {F : Type 0} ⦃d : Float F⦄ ⦃e : Libm F⦄ where
  open d use {nought, is_finite, lt, le, add, mul, div, decimal}
  open e use {ln, ceil, to_usize}

  -- By how many levels a slack `dj` is above the baseline.
  unfoldable pub bumps_of : F → F → ℕ
  bumps_of base dj =
      let ratio = div dj base in
      if not (is_finite dj && lt nought dj) || le ratio (decimal 125 2)
      then 0
      else to_usize (fmax (ceil (div (ln ratio) (ln (decimal 2 0)))) nought)

  -- The weighted levels of the cuts of constraint `j` among the records from index `idx` on.
  unfoldable pub cut_levels : ℕ → ℕ → ℕ → F → ℕ → List DidsRecord → List (ℕ × F)
  cut_levels j l hist_len half_life idx [] = []
  cut_levels j l hist_len half_life idx (r ∷ records) =
      let rest = cut_levels j l hist_len half_life (idx + 1) records in
      let w = recency_weight (hist_len - (idx + 1)) half_life in
      if is_cut_of j r then (clamp_level (r.phi_idx + 1) l, w) ∷ rest else rest

module _ (F : Type 0) ⦃d : Float F⦄ ⦃e : Libm F⦄ where
  open d use {lt, div, decimal}

  -- The rule from the recorded cuts alone.
  unfoldable pub base_level : List DidsRecord → ℕ → ℕ → ℕ
  base_level records l j =
      let hist_len = length records in
      let half_life : F = fmax (div (float (max hist_len 8)) (decimal 3 0)) (decimal 6 0) in
      let weighted : List (ℕ × F) = cut_levels j l hist_len half_life 0 records in
      let eff_n = effective_sample_size weighted in
      let quantile = weighted_quantile weighted (decimal 80 2) in
      let aj = clamp_level (elim quantile [ none ↦ 1 | some level ↦ level ]) l in
      if lt eff_n (decimal 6 0)
      then 1
      else if (aj == 1) && lt eff_n (decimal 18 0)
      then min 2 l
      else aj

module _ {F : Type 0} ⦃d : Float F⦄ ⦃e : Libm F⦄ where
  open d use {nought, is_finite, lt, decimal}

  abbrev pub baseline : F → F
  baseline delta_baseline =
      if is_finite delta_baseline && lt nought delta_baseline then delta_baseline else decimal 5 3

  -- The level of constraint `j`, in the order of the steps of the source.
  unfoldable pub level_of : List DidsRecord → F → ℕ → CalibState F → ℕ → ℕ
  level_of records delta_baseline ladder_len calib j =
      let l = max ladder_len 1 in
      let t = target_rate calib in
      let min_audits = max calib.min_audits 1 in
      let a = audits_of calib j in
      let base = baseline delta_baseline in
      let from_cuts = base_level F records l j in
      let from_alarms = raised t min_audits a l from_cuts in
      let from_evidence = relaxed t (max (min_audits * 2) 8) a from_alarms in
      let from_slack = bumped l (bumps_of base (get_or calib.delta_rel j base)) from_evidence in
      clamp_level from_slack l

  -- The levels of the constraints from `j` on; each one depends on its own data only.
  unfoldable pub levels_from : List DidsRecord → F → ℕ → CalibState F → ℕ → ℕ → List ℕ
  levels_from records delta_baseline ladder_len calib zero j = []
  levels_from records delta_baseline ladder_len calib (suc n) j =
      level_of records delta_baseline ladder_len calib j
      ∷ levels_from records delta_baseline ladder_len calib n (j + 1)

  unfoldable pub compute_assignment : ℕ → List DidsRecord → F → ℕ → CalibState F → List ℕ
  compute_assignment m records delta_baseline ladder_len calib =
      levels_from records delta_baseline ladder_len calib m 0
