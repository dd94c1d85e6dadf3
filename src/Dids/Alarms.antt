-- ===== src/Dids/Alarms.antt =====
-- A level whose audits give alarm is not relaxed away.
use Prim.Native.Nat.{min, max}
use imads.Prelude.{
  ℕ, zero, suc, ◌+◌, ◌-◌, ◌*◌, ◌≤◌, ◌<◌, ◌^◌, ◌≡◌, refl, true, false, ◌&&◌, List, arith, Bool-cases,
  inl, inr, ◌==◌, leb, if◌then◌else◌, get_or, get_elem?,
}
use imads.Float.{Float, IsIeee, ◌≼◌, IsNum, clamp}
use imads.Float.Laws.{clamp_bounds}
use imads.Float.Libm.{Libm, IsScaling}
use imads.Calibrator.{CalibState}
use imads.Dids.{DefaultDids, next_baseline, update_assignment}
use imads.Dids.Levels.{
  DidsRecord, Audits, audits_of, target_rate, is_alarm, raise_from, raised, is_strong, relaxed,
  bumps_of, bumped, baseline, base_level, level_of, levels_from, compute_assignment, is_some,
  false_hi, precision_lo, count_at, clamp_level,
}

-- What IEEE 754 says of the literals of the policy.
pub record AreLiterals (F : Type 0) ⦃d : Float F⦄ : Type 0 where
  pub hundredth : (d.nought ≼ d.decimal 1 2) × (d.decimal 1 2 ≼ d.one)
  pub relax_nonneg : d.nought ≼ d.decimal 60 2
  pub relax_le_alarm : d.decimal 60 2 ≼ d.decimal 115 2
  pub relax_le_severe : d.decimal 60 2 ≼ d.decimal 150 2
  pub finite_alarm : d.is_finite (d.decimal 115 2) ≡ true
  pub finite_severe : d.is_finite (d.decimal 150 2) ≡ true
  pub alarm_le_relax : d.decimal 55 2 ≼ d.decimal 70 2

module _ {F : Type 0} ⦃d : Float F⦄ (laws : IsIeee F) where
  -- `x < h < y` leaves no room for `y <= x`.
  apart : (x h y : F) → y ≼ x → d.lt x h ≡ true → d.lt h y ≡ false
  apart x h y le below = ground (arith, laws.lt-eq x h, laws.lt-eq h y, laws.le_trans h y x)

  clamp-IsNum : (x : F) → IsNum x → IsNum (clamp x d.nought d.one)
  unfolding clamp
  clamp-IsNum x n = ground (arith, laws.num_of_le d.nought d.one laws.nought_le_one)

  module _ (scaling : IsScaling F) (literals : AreLiterals F) where
    open literals use {
      hundredth, relax_nonneg, relax_le_alarm, relax_le_severe, finite_alarm, finite_severe,
      alarm_le_relax,
    }

    abbrev IsRate : F → Type 0
    IsRate t = (d.nought ≼ t) × (t ≼ d.one)

    target_rate-IsRate : (calib : CalibState F) → IsRate (target_rate calib)
    unfolding target_rate
    target_rate-IsRate calib =
        elim (Bool-cases (d.is_finite calib.target_false && d.lt d.nought calib.target_false)) [
          | inl t ↦ rw t (
              clamp_bounds laws calib.target_false d.nought d.one laws.nought_le_one
                (clamp-IsNum calib.target_false (laws.num_of_finite _ (ground arith))))
          | inr f ↦ rw f hundredth
        ]

    -- Evidence that gives alarm is not strong evidence.
    is_alarm-is_strong :
        (t : F) (n r : ℕ) (a : Audits) (lvl : ℕ)
        → IsRate t
        → is_alarm t n a lvl ≡ true
        → is_strong t r a lvl ≡ false
    unfolding is_alarm is_strong
    is_alarm-is_strong t n r a lvl rate alarm =
        let finite = scaling.finite_of_unit t rate.0 rate.1 in
        let relax = d.mul t (d.decimal 60 2) in
        let hi : F = false_hi (count_at a.false_by_phi lvl) (count_at a.aud_by_phi lvl) in
        let lo : F =
          precision_lo a.precision_enabled (count_at a.confirmed_by_phi lvl)
            (count_at a.aud_by_phi lvl) in
        ground (
          arith,
          apart (d.mul t (d.decimal 115 2)) hi relax
              (scaling.mul_mono t _ _ finite rate.0 relax_nonneg relax_le_alarm finite_alarm),
          apart (d.mul t (d.decimal 150 2)) hi relax
              (scaling.mul_mono t _ _ finite rate.0 relax_nonneg relax_le_severe finite_severe),
          apart (d.decimal 70 2) lo (d.decimal 55 2) alarm_le_relax,
        )

    raise_from-le :
        (t : F) (n : ℕ) (a : Audits) (l m lvl out : ℕ) → out ≤ raise_from t n a l m lvl out
    unfolding raise_from
    raise_from-le t n a l zero lvl out = omega arith
    raise_from-le t n a l (suc m) lvl out =
        let next = if is_alarm t n a lvl then max out (min (lvl + 2) l) else out in
        ground (arith, raise_from-le t n a l m (lvl + 1) next)

    -- The loop raises the level above each index that gives alarm.
    raise_from_above :
        (t : F) (n : ℕ) (a : Audits) (l m lvl out k : ℕ)
        → lvl ≤ k
        → k < lvl + m
        → is_alarm t n a k ≡ true
        → min (k + 2) l ≤ raise_from t n a l m lvl out
    unfolding raise_from
    raise_from_above t n a l zero lvl out k p q h = absurd (omega arith)
    raise_from_above t n a l (suc m) lvl out k p q h =
        let next = if is_alarm t n a lvl then max out (min (lvl + 2) l) else out in
        elim (Bool-cases (lvl == k)) [
          | inl same ↦
              let e : lvl ≡ k = ground arith in
              let high : min (k + 2) l ≤ next = rw (e, h) (omega arith) in
              omega (arith, raise_from-le t n a l m (lvl + 1) next, high)
          | inr other ↦ raise_from_above t n a l m (lvl + 1) next k (ground arith) (omega arith) h
        ]

    -- Relaxing stops above an index that gives alarm.
    relaxed_above :
        (t : F) (n r : ℕ) (a : Audits) (out k : ℕ)
        → IsRate t
        → is_alarm t n a k ≡ true
        → k + 2 ≤ out
        → k + 2 ≤ relaxed t r a out
    unfolding relaxed
    relaxed_above t n r a out k rate h le = elim (Bool-cases (out == k + 2)) [
      | inl same ↦
          let e : out ≡ k + 2 = ground arith in
          let back : k + 2 - 2 ≡ k = omega arith in
          rw (e, back, is_alarm-is_strong t n r a k rate h) (ground arith)
      | inr other ↦ ground arith
    ]

raise_from-le_top :
    {F : Type 0} ⦃d : Float F⦄ (t : F) (n : ℕ) (a : Audits) (l m lvl out : ℕ)
    → out ≤ l
    → raise_from t n a l m lvl out ≤ l
unfolding raise_from
raise_from-le_top t n a l zero lvl out h = h
raise_from-le_top t n a l (suc m) lvl out h =
    raise_from-le_top t n a l m (lvl + 1)
      (if is_alarm t n a lvl then max out (min (lvl + 2) l) else out) (ground arith)

raised_lem :
    {F : Type 0} ⦃d : Float F⦄ (t : F) (n : ℕ) (a : Audits) (l out : ℕ)
    → is_some a.aud_by_phi ≡ true
    → is_some a.false_by_phi ≡ true
    → raised t n a l out ≡ raise_from t n a l l 0 out
unfolding raised
raised_lem t n a l out p q = rw (p, q) refl

-- What the slack adds does not fall behind, unless the sum wraps around.
top_level :
    (l bumps out k : ℕ)
    → k + 2 ≤ l
    → k + 2 ≤ out
    → out ≤ l
    → l + bumps < 2 ^ 64
    → k + 2 ≤ clamp_level (bumped l bumps out) l
unfolding bumped
top_level l bumps out k p q r s = ground arith

module _ (F : Type 0) ⦃d : Float F⦄ ⦃e : Libm F⦄ where
  base_level-le : (records : List DidsRecord) (l j : ℕ) → 1 ≤ l → base_level F records l j ≤ l
  unfolding base_level
  base_level-le records l j h = ground arith

module _ {F : Type 0} ⦃d : Float F⦄ ⦃e : Libm F⦄ where
  -- The level of a constraint before the slack is looked at.
  evidence_level-le :
      (t : F) (n r : ℕ) (a : Audits) (records : List DidsRecord) (l j : ℕ)
      → 1 ≤ l
      → relaxed t r a (raised t n a l (base_level F records l j)) ≤ l
  unfolding relaxed raised
  evidence_level-le t n r a records l j h =
      let out = base_level F records l j in
      let le = base_level-le F records l j h in
      ground (arith, le, raise_from-le_top t n a l l 0 out le)

  module _ (laws : IsIeee F) (scaling : IsScaling F) (literals : AreLiterals F) where
    level_of_above :
        (records : List DidsRecord) (delta_baseline : F) (ladder_len : ℕ) (calib : CalibState F)
        (j k : ℕ)
        → k + 2 ≤ ladder_len
        → is_some (get_elem? calib.audit_n_by_phi_idx j) ≡ true
        → is_some (get_elem? calib.false_infeas_n_by_phi_idx j) ≡ true
        → is_alarm (target_rate calib) (max calib.min_audits 1) (audits_of calib j) k ≡ true
        → ladder_len
            + bumps_of
                (baseline delta_baseline)
                (get_or calib.delta_rel j (baseline delta_baseline))
          < 2 ^ 64
        → k + 2 ≤ level_of records delta_baseline ladder_len calib j
    unfolding level_of
    level_of_above records delta_baseline ladder_len calib j k top some_aud some_false alarm fits =
        let l = max ladder_len 1 in
        let t = target_rate calib in
        let n = max calib.min_audits 1 in
        let r = max (n * 2) 8 in
        let a = audits_of calib j in
        let out = base_level F records l j in
        let whole : raised t n a l out ≡ raise_from t n a l l 0 out =
          raised_lem t n a l out some_aud some_false in
        let up =
          raise_from_above laws scaling literals t n a l l 0 out k (omega arith) (omega arith)
            alarm in
        let high =
          relaxed_above laws scaling literals t n r a (raised t n a l out) k
            (target_rate-IsRate laws scaling literals calib) alarm (omega (arith, up, whole)) in
        top_level l _ (relaxed t r a (raised t n a l out)) k (omega arith) high
          (evidence_level-le t n r a records l j (omega arith)) (omega (arith, fits))

    levels_from_above :
        (records : List DidsRecord) (base : F) (ladder_len : ℕ) (calib : CalibState F)
        (n start i k : ℕ)
        → k + 2 ≤ ladder_len
        → k + 2 ≤ level_of records base ladder_len calib (start + i)
        → k + 2 ≤ get_or (levels_from records base ladder_len calib n start) i ladder_len
    unfolding levels_from
    levels_from_above records base ladder_len calib zero start i k p q = p
    levels_from_above records base ladder_len calib (suc n) start zero k p q =
        let e : start + 0 ≡ start = omega arith in rw e at q
    levels_from_above records base ladder_len calib (suc n) start (suc i) k p q =
        let e : start + suc i ≡ start + 1 + i = omega arith in
        levels_from_above records base ladder_len calib n (start + 1) i k p (rw e at q)

    -- If the audits of the cuts of constraint `j` at index `k`, which is followed by another step,
    -- give alarm, the engine's test lets that constraint cut no candidate at index `k` after the
    -- update, whatever was recorded and however strong other evidence is; unless the slack has
    -- grown so much that the sum of levels leaves 64 bits. Numbers obey IEEE 754.
    pub update_assignment_alarms :
        (dids : DefaultDids F) (ladder_len : ℕ) (calib : CalibState F) (j k : ℕ)
        → k + 2 ≤ ladder_len
        → is_some (get_elem? calib.audit_n_by_phi_idx j) ≡ true
        → is_some (get_elem? calib.false_infeas_n_by_phi_idx j) ≡ true
        → is_alarm (target_rate calib) (max calib.min_audits 1) (audits_of calib j) k ≡ true
        → (let base = baseline (next_baseline dids.delta_baseline calib.delta_rel) in
            ladder_len + bumps_of base (get_or calib.delta_rel j base) < 2 ^ 64)
        → leb (get_or (update_assignment dids ladder_len calib).1 j ladder_len) (k + 1) ≡ false
    unfolding update_assignment compute_assignment
    update_assignment_alarms dids ladder_len calib j k top some_aud some_false alarm fits =
        let base = next_baseline dids.delta_baseline calib.delta_rel in
        let e : 0 + j ≡ j = omega arith in
        let here =
          level_of_above dids.records base ladder_len calib j k top some_aud some_false alarm
            fits in
        let high =
          levels_from_above dids.records base ladder_len calib dids.m 0 j k top (rw e here) in
        ground (arith, high)
