-- ===== src/Engine/Batches.antt =====
-- One batch: the completed outcomes in the order of their candidates, then the policies' update at
-- the boundary.
use imads.Prelude.{ℕ, ◌+◌, ◌-◌, true, Option, none, some, List, [], ◌∷◌, leb, length, sort_by}
use imads.Float.{Float}
use imads.Types.{
  XMesh, JobResult, rejected_cheap, rejected_invalid_eval, early_infeasible, partial, truth,
  CandidateStageState, WorkOutcome,
}
use imads.Acceptance.{AcceptanceState, TruthDecision, accept, reject, decide_truth}
use imads.Margin.{Thresholds, first_or}
use imads.Calibrator.{CalibEvent}
use imads.Engine.Candidate.{Batch, EngineStats, Materialized}
use imads.Engine.Materialize.{materialize_job_result}
use imads.Engine.Dispatch.{update_stats_from_outcome}
use imads.Engine.Store.{find, write}
use imads.Engine.Tuning.{tune_chunk}
use imads.Engine.State.{Bundle, RunEnv, RunState}

module _ {F : Type 0} where
  -- `sort_by_key(|o| o.item.cand_id)`, which is stable.
  abbrev pub by_candidate : List (WorkOutcome F) → List (WorkOutcome F)
  by_candidate = sort_by (λ a b. leb a.item.cand_id b.item.cand_id)

  abbrev pub by_id : List (CalibEvent F) → List (CalibEvent F)
  by_id = sort_by (λ a b. leb a.id b.id)

  unfoldable pub count_outcomes : EngineStats → List (WorkOutcome F) → ℕ → EngineStats
  count_outcomes stats [] ladder_len = stats
  count_outcomes stats (out ∷ outcomes) ladder_len =
      count_outcomes (update_stats_from_outcome stats out ladder_len) outcomes ladder_len

module _ {F C D S : Type 0} where
  abbrev pub batch_of : RunEnv F → RunState F C D S → Thresholds F → Batch F
  batch_of env s th = record {
    cfg = env.cfg;
    base_steps = env.base_steps;
    ladder = env.ladder;
    assignment = s.assignment;
    th = th;
    policy_rev = s.policy_rev;
    incumbent_f = s.f_best;
  }

module _ {F C D S : Type 0} ⦃d : Float F⦄ where
  -- An accepted result is the new incumbent.
  abbrev pub settle :
      RunState F C D S → XMesh → List F → AcceptanceState F × TruthDecision → RunState F C D S
  settle s x f (acc, accept) = record s {
    accept = acc;
    iter_improved = true;
    incumbent_id = s.incumbent_id + 1;
    f_best = some f;
    x_best = some x;
  }
  settle s x f (acc, reject) = record s { accept = acc }

  -- A TRUTH result goes to the acceptance policy.
  unfoldable pub accept_truth : RunEnv F → RunState F C D S → XMesh → JobResult F → RunState F C D S
  accept_truth env s x (truth f c feasible v meta) =
      settle s x f (decide_truth env.accept_cfg s.accept (first_or f d.infinity) v)
  accept_truth env s x (rejected_cheap meta) = s
  accept_truth env s x (rejected_invalid_eval meta) = s
  accept_truth env s x (early_infeasible j est meta) = s
  accept_truth env s x (partial est meta) = s

  -- The state after a materialised outcome, and its event.
  unfoldable pub complete :
      Bundle F C D S
      → RunEnv F
      → RunState F C D S
      → WorkOutcome F
      → ℕ
      → Materialized F
      → RunState F C D S × CalibEvent F
  complete bundle env s out place m =
      let s1 : RunState F C D S = record s {
        store = write s.store place m.cand;
        caches = record s.caches { decision = m.cache };
        stats = m.stats;
        scheduler = bundle.on_complete s.scheduler out.item.cand_id m.job.result;
        dids = bundle.dids_record s.dids m.cand.x out.item.phi out.item.phi_idx m.job.result;
      } in
      (
        accept_truth env s1 m.cand.x m.job.result,
        record {
          id = out.item.cand_id;
          result = m.job.result;
          audited = m.job.audited;
          audit_of = m.job.audit_of;
          paired_sample = m.job.paired_sample;
        },
      )

  -- `none` is a panic of the materialisation.
  abbrev pub completed :
      Bundle F C D S
      → RunEnv F
      → RunState F C D S
      → WorkOutcome F
      → ℕ
      → Option (Materialized F)
      → Option (RunState F C D S × CalibEvent F)
  completed bundle env s out place none = none
  completed bundle env s out place (some m) = some (complete bundle env s out place m)

  -- `none` is the `expect("candidate exists")` of the candidate's place.
  abbrev pub process_found :
      Bundle F C D S
      → RunEnv F
      → Thresholds F
      → RunState F C D S
      → WorkOutcome F
      → Option (ℕ × CandidateStageState F)
      → Option (RunState F C D S × CalibEvent F)
  process_found bundle env th s out none = none
  process_found bundle env th s out (some (place, cand)) = completed bundle env s out place (
      materialize_job_result bundle.policies (batch_of env s th) cand s.caches.decision s.stats out)

  unfoldable pub process_one :
      Bundle F C D S
      → RunEnv F
      → Thresholds F
      → RunState F C D S
      → WorkOutcome F
      → Option (RunState F C D S × CalibEvent F)
  process_one bundle env th s out =
      process_found bundle env th s out (find s.store out.item.cand_id)

  abbrev pub with_event :
      CalibEvent F
      → Option (RunState F C D S × List (CalibEvent F))
      → Option (RunState F C D S × List (CalibEvent F))
  with_event ev none = none
  with_event ev (some (s, evs)) = some (s, ev ∷ evs)

  -- The outcomes in order; the events are in the order of the outcomes.
  unfoldable pub process_all :
      Bundle F C D S
      → RunEnv F
      → Thresholds F
      → RunState F C D S
      → List (WorkOutcome F)
      → Option (RunState F C D S × List (CalibEvent F))
  process_all bundle env th s [] = some (s, [])
  process_all bundle env th s (out ∷ outcomes) = elim (process_one bundle env th s out) [
    | none ↦ none
    | some (s1, ev) ↦ with_event ev (process_all bundle env th s1 outcomes)
  ]

  -- The update of the policies: both can raise the revision. `none` is a panic of the calibrator.
  abbrev pub after_update :
      Bundle F C D S
      → RunEnv F
      → RunState F C D S
      → List (WorkOutcome F)
      → Option (C × ℕ)
      → Option (RunState F C D S)
  after_update bundle env s outcomes none = none
  after_update bundle env s outcomes (some (calibrator, delta)) =
      let (dids, assignment, a_delta) =
        bundle.dids_update s.dids (length env.ladder) (bundle.calib_state calibrator) in
      some (record s {
        calibrator = calibrator;
        dids = dids;
        assignment = assignment;
        policy_rev = s.policy_rev + delta + a_delta;
        chunk_base = tune_chunk env.cfg outcomes s.chunk_base;
        steps_left = s.steps_left - length outcomes;
      })

  abbrev pub at_boundary :
      Bundle F C D S
      → RunEnv F
      → List (WorkOutcome F)
      → Option (RunState F C D S × List (CalibEvent F))
      → Option (RunState F C D S)
  at_boundary bundle env outcomes none = none
  at_boundary bundle env outcomes (some (s, events)) =
      after_update bundle env s outcomes (bundle.calib_update s.calibrator (by_id events))

  abbrev pub counted : RunEnv F → RunState F C D S → List (WorkOutcome F) → RunState F C D S
  counted env s outcomes = record s { stats = count_outcomes s.stats outcomes (length env.ladder) }

  -- All that follows the return of the executor.
  unfoldable pub complete_batch :
      Bundle F C D S
      → RunEnv F
      → Thresholds F
      → RunState F C D S
      → List (WorkOutcome F)
      → Option (RunState F C D S)
  complete_batch bundle env th s outcomes =
      let sorted = by_candidate outcomes in
      at_boundary bundle env sorted (process_all bundle env th (counted env s sorted) sorted)
