-- ===== src/Engine/Candidate.antt =====
-- The state that a completed outcome changes, and the transitions of a candidate.
use imads.Prelude.{
  ℕ, ◌+◌, Bool, true, false, not, ◌&&◌, Option, none, some, List, leb, ◌==◌, if◌then◌else◌, length,
}
use imads.Types.{
  XMesh, Phi, Estimates, JobResult, rejected_cheap, rejected_invalid_eval, early_infeasible,
  partial, truth, CacheTag, tag_partial, tag_truth, DecisionCacheKey, CandidateAuditOrigin,
  CandidateStageState, WorkItem, ready, done_rejected_cheap, done_rejected_invalid_eval,
  done_early_infeasible, done_truth,
}
use imads.Cache.{MemoryCache}
use imads.Cache.Keys.{decision_key}
use imads.Margin.{Thresholds}
use imads.Evaluator.{Evaluator}
use imads.Config.{EngineConfig}
use imads.Engine.Audit.{
  AuditOf, PairedAuditSample, collect_paired_phi_indices, next_audit_target_idx,
  audit_of_from_origin, paired_audit_sample_from_estimates,
}

pub record EngineStats : Type 0 where
  pub truth_evals : ℕ
  pub truth_decision_cache_hits : ℕ
  pub truth_eval_cache_hits : ℕ
  pub partial_steps : ℕ
  pub partial_decision_cache_hits : ℕ
  pub partial_eval_cache_hits : ℕ
  pub cheap_rejects : ℕ
  pub invalid_eval_rejects : ℕ

-- The policies and the evaluator that the engine calls, which users replace.
pub record Policies (F : Type 0) : Type 0 where
  pub early_cut : Estimates F → Thresholds F → Option ℕ
  pub objective_bounds : Estimates F → Thresholds F → F × F
  pub should_audit : XMesh → Phi → ℕ → Bool
  pub evaluator : Evaluator F
  -- `NonNaNFinite::new(x).is_ok()` of num-valid
  pub is_valid_number : F → Bool

-- The arguments that are the same for all outcomes of a batch.
pub record Batch (F : Type 0) : Type 0 where
  pub cfg : EngineConfig F
  pub base_steps : List F
  pub ladder : List Phi
  pub assignment : List ℕ
  pub th : Thresholds F
  pub policy_rev : ℕ
  pub incumbent_f : Option (List F)

pub record MaterializedJob (F : Type 0) : Type 0 where
  pub result : JobResult F
  pub audited : Bool
  pub audit_of : Option AuditOf
  pub paired_sample : Option (PairedAuditSample F)

abbrev pub DecisionCache : Type 0 → Type 0
DecisionCache F = MemoryCache DecisionCacheKey (JobResult F)

-- What a call leaves: the candidate, the decision cache, the statistics and the job.
pub record Materialized (F : Type 0) : Type 0 where
  pub cand : CandidateStageState F
  pub cache : DecisionCache F
  pub stats : EngineStats
  pub job : MaterializedJob F

-- What the check of the cheap constraints says.
pub data CheapGate : Type 0 where
  invalid failed passed : CheapGate

-- `origin.as_ref().map(audit_of_from_origin)`
abbrev pub audit_of : Option CandidateAuditOrigin → Option AuditOf
audit_of none = none
audit_of (some o) = some (audit_of_from_origin o)

module _ {F : Type 0} where
  -- `(idx as usize) + 1 == ladder.len()`
  abbrev pub is_last : Batch F → WorkItem → Bool
  is_last b item = (item.phi_idx + 1) == length b.ladder

  abbrev pub item_tag : Batch F → WorkItem → CacheTag
  item_tag b item = if is_last b item then tag_truth else tag_partial

  abbrev pub decision_key_of : CandidateStageState F → WorkItem → ℕ → CacheTag → DecisionCacheKey
  decision_key_of cand item policy_rev tag = record {
    x = cand.x;
    phi = item.phi;
    env_rev = item.env_rev;
    policy_rev = policy_rev;
    tag = tag;
  }

  abbrev pub plain : JobResult F → MaterializedJob F
  plain jr = record { result = jr; audited = false; audit_of = none; paired_sample = none }

  -- The candidate's audit starts, if the policy picks it.
  unfoldable pub start_audit :
      Policies F
      → Batch F
      → CandidateStageState F
      → WorkItem
      → ℕ
      → Phi
      → Estimates F
      → CandidateStageState F
  start_audit pol b cand item j phi_at_cut est =
      if not cand.audit_required && pol.should_audit cand.x item.phi item.env_rev
      then record cand {
        audit_required = true;
        audit_cut_estimates = some est;
        audit_origin = some (record {
          violated_j = j;
          phi_at_cut = phi_at_cut;
          phi_idx_at_cut = item.phi_idx;
          paired_phi_indices = collect_paired_phi_indices b.ladder item.phi_idx;
        });
      }
      else cand

  -- An early cut: an audited candidate goes on, another one is done.
  unfoldable pub cut : Batch F → CandidateStageState F → WorkItem → ℕ → CandidateStageState F
  cut b cand item j =
      if cand.audit_required
      then record cand {
        next_phi_idx = next_audit_target_idx cand.audit_origin item.phi_idx (length b.ladder);
        status = ready;
      }
      else record cand { status = done_early_infeasible j item.phi_idx }

  -- The job of an early cut; `cand` is the candidate after it.
  abbrev pub cut_job :
      CandidateStageState F → WorkItem → Phi → Estimates F → JobResult F → MaterializedJob F
  cut_job cand item phi est jr =
      if cand.audit_required
      then record {
        result = jr;
        audited = true;
        audit_of = audit_of cand.audit_origin;
        paired_sample = paired_audit_sample_from_estimates cand.audit_origin item.phi_idx phi est;
      }
      else plain jr

  -- On to the next step.
  unfoldable pub go_on : Batch F → CandidateStageState F → WorkItem → CandidateStageState F
  go_on b cand item = record cand {
    next_phi_idx =
        if cand.audit_required
        then next_audit_target_idx cand.audit_origin item.phi_idx (length b.ladder)
        else item.phi_idx + 1;
    status = ready;
  }

  unfoldable pub apply_state_transition_from_result :
      Batch F → CandidateStageState F → WorkItem → JobResult F → CandidateStageState F
  apply_state_transition_from_result b cand item (rejected_cheap meta) = record cand {
    status = done_rejected_cheap;
  }
  apply_state_transition_from_result b cand item (rejected_invalid_eval meta) = record cand {
    status = done_rejected_invalid_eval;
  }
  apply_state_transition_from_result b cand item (early_infeasible j est meta) = cut b cand item j
  apply_state_transition_from_result b cand item (partial est meta) =
      if leb (length b.ladder) (item.phi_idx + 1)
      then record cand { status = done_truth }
      else go_on b cand item
  apply_state_transition_from_result b cand item (truth f c feasible v meta) = record cand {
    status = done_truth;
  }

  -- The estimates are kept for scoring.
  abbrev pub keep_estimates : CandidateStageState F → WorkItem → Estimates F → CandidateStageState F
  keep_estimates cand item est = record cand {
    last_estimates = some est;
    last_estimates_phi_idx = some item.phi_idx;
  }
