-- ===== src/Calibrator/Delta.antt =====
-- The controller of `delta_rel`, which both calibrators have, and `DeltaCalibrator`.
pub mod Range
use Prim.Native.Nat.{max}
use imads.Prelude.{
  ℕ, ◌+◌, Bool, true, false, ◌||◌, Option, none, some, List, [], ◌∷◌, ltb, if◌then◌else◌, replicate,
}
use imads.Prelude.Int.{pos}
use imads.Float.{Float, fmax, clamp}
use imads.Float.Libm.{Libm}
use imads.Types.{JobResult, rejected_cheap, rejected_invalid_eval, early_infeasible, partial, truth}
use imads.Cache.{MemoryCache, get, put}
use imads.Cache.Keys.{nat_key}
use imads.Engine.Audit.{AuditOf}
use imads.Calibrator.{
  CalibState, CalibratorConfig, CalibEvent, init_state, checked_clamp, configure_state,
}
use imads.Calibrator.Counting.{
  Counts, Counts_default, note_cut, note_audit, remove, sync_counts_to_state,
}

-- A result before those of a loop, with what has changed; a panic ends all.
abbrev pub prepend :
    {A : Type 0} → Option (A × Bool) → Option (List A × Bool) → Option (List A × Bool)
prepend none rest = none
prepend (some x) none = none
prepend (some (x, b)) (some (xs, c)) = some (x ∷ xs, b || c)

module _ {F : Type 0} ⦃d : Float F⦄ ⦃e : Libm F⦄ where
  open d use {nought, one, lt, add, sub, mul, div, of_int, decimal}
  open e use {abs, neg, exp}

  -- `(next - old).abs() > 1e-15`
  abbrev pub differs : F → F → Bool
  differs next old = lt (decimal 1 15) (abs (sub next old))

  -- The slack times `mult`, in its range, and whether it has changed.
  unfoldable pub scaled : CalibState F → F → F → Option (F × Bool)
  scaled s old mult = elim (checked_clamp (mul old mult) s.delta_min s.delta_max) [
    | none ↦ none
    | some next ↦ some (if differs next old then (next, true) else (old, false))
  ]

  -- One constraint: the slack grows if false alarms are more frequent than the target, and shrinks
  -- if they are less frequent than a third of it.
  unfoldable pub delta_step : CalibState F → Counts → F → Option (F × Bool)
  delta_step s c old =
      let p_false =
        div (add (of_int (pos c.false_infeas)) one) (add (of_int (pos c.audit)) (decimal 2 0)) in
      let t = clamp s.target_false nought one in
      let eta = fmax s.eta_delta nought in
      if ltb c.audit (max s.min_audits 1)
      then some (old, false)
      else if lt t p_false
      then scaled s old (exp eta)
      else if lt p_false (div t (decimal 3 0))
      then scaled s old (exp (neg eta))
      else some (old, false)

  -- The new slacks and whether one has changed; `none` where an index is out of bounds.
  unfoldable pub update_delta : CalibState F → List Counts → List F → Option (List F × Bool)
  update_delta s counts [] = some ([], false)
  update_delta s [] (old ∷ olds) = none
  update_delta s (c ∷ counts) (old ∷ olds) =
      prepend (delta_step s c old) (update_delta s counts olds)

pub record DeltaCalibrator (F : Type 0) : Type 0 where
  pub state : CalibState F
  pub counts : List Counts
  pub pending : MemoryCache ℕ AuditOf

module _ {F : Type 0} ⦃d : Float F⦄ where
  unfoldable pub DeltaCalibrator_init : ℕ → DeltaCalibrator F
  DeltaCalibrator_init m = record {
    state = init_state m;
    counts = replicate m Counts_default;
    pending = [];
  }

  unfoldable pub DeltaCalibrator_configure :
      DeltaCalibrator F → CalibratorConfig F → Option (DeltaCalibrator F)
  DeltaCalibrator_configure cal cfg = elim (configure_state cal.state cfg) [
    | none ↦ none
    | some s ↦ some (record cal { state = s })
  ]

  -- A checkpoint of an audit counts as a cut if no audit of the candidate is pending.
  unfoldable pub note_checkpoint : DeltaCalibrator F → CalibEvent F → DeltaCalibrator F
  note_checkpoint cal ev =
      if ev.audited
      then elim ev.audit_of [
        | none ↦ cal
        | some a ↦ elim (get cal.pending ev.id) [
          | none ↦ record cal { counts = note_cut a cal.counts; pending = put cal.pending ev.id a }
          | some pending ↦ cal
        ]
      ]
      else cal

  unfoldable pub note_truth : DeltaCalibrator F → ℕ → Bool → List F → DeltaCalibrator F
  note_truth cal id feasible c = elim (get cal.pending id) [
    | none ↦ cal
    | some a ↦ record cal {
      counts = note_audit a feasible c cal.counts;
      pending = remove cal.pending id;
    }
  ]

  unfoldable pub note : DeltaCalibrator F → CalibEvent F → JobResult F → DeltaCalibrator F
  unfolding note_checkpoint note_truth
  note cal ev (early_infeasible j est meta) = note_checkpoint cal ev
  note cal ev (partial est meta) = note_checkpoint cal ev
  note cal ev (truth f c feasible v meta) = note_truth cal ev.id feasible c
  note cal ev (rejected_cheap meta) = cal
  note cal ev (rejected_invalid_eval meta) = cal

  unfoldable pub note_all : DeltaCalibrator F → List (CalibEvent F) → DeltaCalibrator F
  note_all cal [] = cal
  note_all cal (ev ∷ evs) = note_all (note cal ev ev.result) evs

module _ {F : Type 0} where
  -- The revision rises if something has changed.
  abbrev pub revised : Bool → CalibState F → CalibState F × ℕ
  revised true s = (record s { policy_rev = s.policy_rev + 1 }, 1)
  revised false s = (s, 0)

module _ {F : Type 0} ⦃d : Float F⦄ ⦃e : Libm F⦄ where
  -- The calibrator and the increment of the revision.
  unfoldable pub DeltaCalibrator_update :
      DeltaCalibrator F → List (CalibEvent F) → Option (DeltaCalibrator F × ℕ)
  DeltaCalibrator_update cal events =
      let cal1 = note_all cal events in
      elim (update_delta cal1.state cal1.counts cal1.state.delta_rel) [
        | none ↦ none
        | some (deltas, changed) ↦
            let synced =
              sync_counts_to_state (record cal1.state { delta_rel = deltas }) cal1.counts in
            let (s, inc) = revised changed synced in some (record cal1 { state = s }, inc)
      ]
