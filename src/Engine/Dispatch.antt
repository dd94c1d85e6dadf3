-- ===== src/Engine/Dispatch.antt =====
-- The dispatch of a picked candidate and the counting of outcomes, as the engine's loop does them.
pub mod Total
pub mod Bounded
use imads.Prelude.{
  ℕ, ◌+◌, Bool, true, false, Option, none, some, List, get_elem?, ◌==◌, if◌then◌else◌,
}
use imads.Types.{
  Phi, JobResult, rejected_invalid_eval, CandidateStageState, CandidateStatus, WorkItem,
  WorkOutcome, ready, in_flight,
}
use imads.Engine.Candidate.{EngineStats}

module _ {F : Type 0} where
  -- The candidate in flight, and its work item at step `phi`.
  abbrev pub sent : ℕ → ℕ → ℕ → CandidateStageState F → Phi → CandidateStageState F × WorkItem
  sent env_rev policy_rev incumbent_id cand phi = (
    record cand {
      status = in_flight cand.next_phi_idx;
      submitted_policy_rev = policy_rev;
      submitted_incumbent_id = incumbent_id;
    },
    record {
      cand_id = cand.id;
      x = cand.x;
      phi_idx = cand.next_phi_idx;
      phi = phi;
      env_rev = env_rev;
      policy_rev = policy_rev;
      incumbent_id = incumbent_id;
    },
  )

  -- `none` is a candidate that is passed over: it is not ready, or its next step is past the
  -- ladder.
  unfoldable pub dispatch :
      List Phi → ℕ → ℕ → ℕ → CandidateStageState F → Option (CandidateStageState F × WorkItem)
  dispatch ladder env_rev policy_rev incumbent_id cand = elim cand.status [
    | ready ↦ elim (get_elem? ladder cand.next_phi_idx) [
      | none ↦ none
      | some phi ↦ some (sent env_rev policy_rev incumbent_id cand phi)
    ]
    | _ ↦ none
  ]

  abbrev pub is_invalid : Option (JobResult F) → Bool
  is_invalid (some (rejected_invalid_eval meta)) = true
  is_invalid _ = false

  unfoldable pub update_stats_from_outcome : EngineStats → WorkOutcome F → ℕ → EngineStats
  update_stats_from_outcome stats out ladder_len =
      let is_truth = (out.item.phi_idx + 1) == ladder_len in
      if is_invalid out.cached_decision
      then record stats { invalid_eval_rejects = stats.invalid_eval_rejects + 1 }
      else if out.hit_decision_cache
      then (if is_truth
          then record stats { truth_decision_cache_hits = stats.truth_decision_cache_hits + 1 }
          else record stats { partial_decision_cache_hits = stats.partial_decision_cache_hits + 1 })
      else if out.hit_eval_cache
      then (if is_truth
          then record stats { truth_eval_cache_hits = stats.truth_eval_cache_hits + 1 }
          else record stats { partial_eval_cache_hits = stats.partial_eval_cache_hits + 1 })
      else if out.did_compute
      then (if is_truth
          then record stats { truth_evals = stats.truth_evals + 1 }
          else record stats { partial_steps = stats.partial_steps + 1 })
      else stats
