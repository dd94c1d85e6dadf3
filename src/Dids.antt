-- ===== src/Dids.antt =====
-- imads-core/src/policies/dids.rs: from which step of the ladder on a constraint may cut a
-- candidate early. `DefaultDids` reads the recorded cuts and the audits of the calibrator.
pub mod Evidence
pub mod Levels
pub mod Alarms
pub mod Tests
use Prim.Native.Nat.{max}
use imads.Prelude.{
  ℕ, ◌-◌, Bool, true, false, ◌&&◌, Option, none, some, List, [], ◌∷◌, ◌++◌, ◌==◌, ltb,
  if◌then◌else◌, length, drop, replicate,
}
use imads.Float.{Float}
use imads.Float.Libm.{Libm, fmin}
use imads.Types.{
  XMesh, Phi, JobResult, rejected_cheap, rejected_invalid_eval, early_infeasible, partial, truth,
}
use imads.Calibrator.{CalibState}
use imads.Dids.Levels.{
  OutcomeTag, tag_rejected_cheap, tag_rejected_invalid_eval, tag_early_infeasible, tag_partial,
  tag_truth, DidsRecord, compute_assignment,
}

pub record DefaultDids (F : Type 0) : Type 0 where
  pub m : ℕ
  pub records : List DidsRecord
  pub assignment : List ℕ
  pub max_records : ℕ
  pub delta_baseline : F

module _ {F : Type 0} where
  abbrev pub outcome_of : JobResult F → OutcomeTag × Option ℕ
  outcome_of (rejected_cheap meta) = (tag_rejected_cheap, none)
  outcome_of (rejected_invalid_eval meta) = (tag_rejected_invalid_eval, none)
  outcome_of (early_infeasible j est meta) = (tag_early_infeasible, some j)
  outcome_of (partial est meta) = (tag_partial, none)
  outcome_of (truth f c feasible v meta) = (tag_truth, none)

  -- The history of the last `max_records` results.
  unfoldable pub record_result : DefaultDids F → XMesh → Phi → ℕ → JobResult F → DefaultDids F
  record_result dids x phi phi_idx result =
      let (outcome, violated_j) = outcome_of result in
      let fresh : DidsRecord = record {
        x = x;
        phi = phi;
        phi_idx = phi_idx;
        outcome = outcome;
        violated_j = violated_j;
      } in
      let longer = dids.records ++ fresh ∷ [] in
      let kept = max dids.max_records 1 in
      record dids {
        records = if ltb kept (length longer) then drop (length longer - kept) longer else longer;
      }

-- `==` of the assignments
abbrev pub same_levels : List ℕ → List ℕ → Bool
same_levels [] [] = true
same_levels [] (b ∷ bs) = false
same_levels (a ∷ as') [] = false
same_levels (a ∷ as') (b ∷ bs) = (a == b) && same_levels as' bs

module _ {F : Type 0} ⦃d : Float F⦄ where
  open d use {nought, infinity, is_finite, lt, decimal}

  unfoldable pub DefaultDids_init : ℕ → DefaultDids F
  DefaultDids_init m = record {
    m = m;
    records = [];
    assignment = replicate m 1;
    max_records = 5000;
    delta_baseline = decimal 5 3;
  }

  -- `d.is_finite() && d > 0.0`
  abbrev pub is_usable : F → Bool
  is_usable x = is_finite x && lt nought x

  -- The least usable slack so far.
  abbrev pub least_usable : F → List F → F
  least_usable minv [] = minv
  least_usable minv (x ∷ xs) = least_usable (if is_usable x then fmin minv x else minv) xs

  -- The baseline follows the least slack if the first one is usable.
  unfoldable pub next_baseline : F → List F → F
  next_baseline old [] = old
  next_baseline old (d0 ∷ rest) =
      let minv = least_usable infinity (d0 ∷ rest) in
      if is_usable d0 && is_finite minv then minv else old

module _ {F : Type 0} ⦃d : Float F⦄ ⦃e : Libm F⦄ where
  -- The policy, the assignment and the increment of the revision.
  unfoldable pub update_assignment : DefaultDids F → ℕ → CalibState F → DefaultDids F × List ℕ × ℕ
  update_assignment dids ladder_len calib =
      let base = next_baseline dids.delta_baseline calib.delta_rel in
      let new_a = compute_assignment dids.m dids.records base ladder_len calib in
      (
        record dids { delta_baseline = base; assignment = new_a },
        new_a,
        (if same_levels new_a dids.assignment then 0 else 1),
      )
