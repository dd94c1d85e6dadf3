-- ===== src/Engine/Materialize.antt =====
-- `Engine::materialize_job_result`: a completed outcome becomes a result, a new state of its
-- candidate and an entry of the decision cache.
pub mod Panics
pub mod Tags
pub mod Stops
pub mod Tests
pub mod Advances
pub mod Outcomes
pub mod Identity
use imads.Prelude.{
  ℕ, ◌+◌, Bool, true, false, not, ◌&&◌, Option, none, some, List, [], ◌∷◌, map, leb, ◌==◌,
  if◌then◌else◌, length, get_or,
}
use imads.Prelude.Int.{ℤ}
use imads.Float.{Float, fmax}
use imads.Types.{
  XMesh, Phi, EvalMeta, Estimates, JobResult, rejected_cheap, rejected_invalid_eval,
  early_infeasible, partial, truth, CacheTag, tag_cheap, tag_partial, tag_truth, DecisionCacheKey,
  CandidateAuditOrigin, CandidateStageState, WorkItem, WorkOutcome, ready, done_rejected_cheap,
  done_rejected_invalid_eval, done_early_infeasible, done_stopped_partial, done_truth,
}
use imads.Cache.{MemoryCache, put}
use imads.Cache.Keys.{decision_key}
use imads.Margin.{Thresholds, first_or}
use imads.Config.{EngineConfig}
use imads.Engine.Audit.{
  AuditOf, PairedAuditSample, collect_paired_phi_indices, next_audit_target_idx,
  audit_of_from_origin, truth_as_estimates, paired_audit_sample_from_estimates,
  objective_pruning_allowed, is_paired_checkpoint,
}
use imads.Evaluator.{Evaluator, mesh_to_real_aniso}
use imads.Engine.Candidate.{
  DecisionCache, audit_of, EngineStats, Policies, cut, Batch, Materialized, MaterializedJob,
  CheapGate, is_last, item_tag, decision_key_of, plain, start_audit, cut_job, go_on,
  apply_state_transition_from_result, keep_estimates, invalid, failed, passed,
}
use imads.Engine.Steps.{
  use_cached, first_check, check_cheap, meta_of, is_hopeless, stop_or_go_on, partial_step, all_met,
  violation, truth_step,
}

module _ {F : Type 0} ⦃d : Float F⦄ where
  open d use {nought}

  -- The outcome's own estimates, which it must have: `none` is the `expect` that panics.
  unfoldable pub use_estimates :
      Policies F
      → Batch F
      → CandidateStageState F
      → WorkOutcome F
      → Option (CandidateStageState F × MaterializedJob F)
  use_estimates pol b cand out = elim out.estimates [
    | none ↦ none
    | some est ↦
        let cand1 = keep_estimates cand out.item est in
        let meta = meta_of b out.item out.runtime_cost in
        some (
          if is_last b out.item
          then truth_step cand1 out.item est meta
          else partial_step pol b cand1 out.item est meta)
  ]

  -- What each way out of the function leaves.
  abbrev pub from_cache :
      Policies F
      → Batch F
      → CandidateStageState F
      → DecisionCache F
      → EngineStats
      → WorkItem
      → JobResult F
      → Materialized F
  from_cache pol b cand cache stats item cached =
      let (cand', job) = use_cached pol b cand item cached in
      record { cand = cand'; cache = cache; stats = stats; job = job }

  abbrev pub reject_invalid :
      Batch F → CandidateStageState F → DecisionCache F → EngineStats → WorkItem → Materialized F
  reject_invalid b cand cache stats item =
      let jr = rejected_invalid_eval (meta_of b item nought) in
      record {
        cand = record cand { status = done_rejected_invalid_eval };
        cache = put cache (decision_key_of cand item b.policy_rev tag_cheap) jr;
        stats = record stats { invalid_eval_rejects = stats.invalid_eval_rejects + 1 };
        job = plain jr;
      }

  abbrev pub reject_cheap :
      Batch F → CandidateStageState F → DecisionCache F → EngineStats → WorkItem → Materialized F
  reject_cheap b cand cache stats item =
      let jr = rejected_cheap (meta_of b item nought) in
      record {
        cand = record cand { status = done_rejected_cheap };
        cache = put cache (decision_key_of cand item b.policy_rev tag_cheap) jr;
        stats = record stats { cheap_rejects = stats.cheap_rejects + 1 };
        job = plain jr;
      }

  abbrev pub from_estimates :
      Batch F
      → DecisionCache F
      → EngineStats
      → WorkItem
      → CandidateStageState F × MaterializedJob F
      → Materialized F
  from_estimates b cache stats item (cand', job) = record {
    cand = cand';
    cache = put cache (decision_key_of cand' item b.policy_rev (item_tag b item)) job.result;
    stats = stats;
    job = job;
  }

  unfoldable pub materialize_job_result :
      Policies F
      → Batch F
      → CandidateStageState F
      → DecisionCache F
      → EngineStats
      → WorkOutcome F
      → Option (Materialized F)
  materialize_job_result pol b cand cache stats out =
      let item = out.item in
      let (cand1, gate) = check_cheap pol b cand in
      let own = use_estimates pol b cand1 out in
      elim out.cached_decision [
        | some cached ↦ some (from_cache pol b cand cache stats item cached)
        | none ↦ elim gate [
          | invalid ↦ some (reject_invalid b cand1 cache stats item)
          | failed ↦ some (reject_cheap b cand1 cache stats item)
          | passed ↦ elim own [
            | none ↦ none
            | some after ↦ some (from_estimates b cache stats item after)
          ]
        ]
      ]
