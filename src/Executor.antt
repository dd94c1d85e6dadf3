-- ===== src/Executor.antt =====
-- imads-core/src/core/executor.rs: the evaluation of one work item against the caches, and the
-- inline executor. The caches are passed from item to item.
pub mod Outcomes
pub mod Repeat
use imads.Prelude.{
  ℕ, ◌+◌, Bool, true, false, Option, none, some, List, [], ◌∷◌, ◌==◌, if◌then◌else◌,
}
use imads.Float.{Float}
use imads.Types.{
  Estimates, EvalMeta, JobResult, rejected_invalid_eval, CacheTag, tag_partial, tag_truth,
  EvalCacheKey, DecisionCacheKey, WorkItem, WorkOutcome,
}
use imads.Cache.{MemoryCache, get, put}
use imads.Cache.Keys.{eval_key, decision_key}
use imads.Evaluator.{Evaluator, mesh_to_real_aniso, compute_estimates}

pub record ExecCtx (F : Type 0) : Type 0 where
  pub evaluator : Evaluator F
  -- `NonNaNFinite::new(x).is_ok()` of num-valid
  pub is_valid_number : F → Bool
  pub ladder_len : ℕ
  pub base_steps : List F

pub record Caches (F : Type 0) : Type 0 where
  pub decision : MemoryCache DecisionCacheKey (JobResult F)
  pub eval : MemoryCache EvalCacheKey (Estimates F)

abbrev pub ekey_of : WorkItem → EvalCacheKey
ekey_of wi = record { x = wi.x; phi = wi.phi; env_rev = wi.env_rev }

module _ {F : Type 0} where
  abbrev pub step_tag : ExecCtx F → WorkItem → CacheTag
  step_tag ctx wi = if (wi.phi_idx + 1) == ctx.ladder_len then tag_truth else tag_partial

  abbrev pub dkey_of : ExecCtx F → WorkItem → DecisionCacheKey
  dkey_of ctx wi = record {
    x = wi.x;
    phi = wi.phi;
    env_rev = wi.env_rev;
    policy_rev = wi.policy_rev;
    tag = step_tag ctx wi;
  }

module _ {F : Type 0} ⦃d : Float F⦄ where
  open d use {nought, one}

  abbrev pub decision_hit : WorkItem → JobResult F → WorkOutcome F
  decision_hit wi v = record {
    item = wi;
    cached_decision = some v;
    estimates = none;
    runtime_cost = nought;
    hit_decision_cache = true;
    hit_eval_cache = false;
    did_compute = false;
  }

  abbrev pub eval_hit : WorkItem → Estimates F → WorkOutcome F
  eval_hit wi est = record {
    item = wi;
    cached_decision = none;
    estimates = some est;
    runtime_cost = nought;
    hit_decision_cache = false;
    hit_eval_cache = true;
    did_compute = false;
  }

  abbrev pub invalid_result : WorkItem → F → JobResult F
  invalid_result wi cost = rejected_invalid_eval (record {
    phi = wi.phi;
    env_rev = wi.env_rev;
    policy_rev = wi.policy_rev;
    runtime_cost = cost;
  })

  abbrev pub invalid_outcome : WorkItem → F → Bool → WorkOutcome F
  invalid_outcome wi cost did_compute = record {
    item = wi;
    cached_decision = some (invalid_result wi cost);
    estimates = none;
    runtime_cost = cost;
    hit_decision_cache = false;
    hit_eval_cache = false;
    did_compute = did_compute;
  }

  abbrev pub computed : WorkItem → Estimates F → WorkOutcome F
  computed wi est = record {
    item = wi;
    cached_decision = none;
    estimates = some est;
    runtime_cost = one;
    hit_decision_cache = false;
    hit_eval_cache = false;
    did_compute = true;
  }

  -- An invalid evaluation is remembered as a decision.
  abbrev pub reject : ExecCtx F → Caches F → WorkItem → F → Bool → WorkOutcome F × Caches F
  reject ctx s wi cost did_compute = (
    invalid_outcome wi cost did_compute,
    record s { decision = put s.decision (dkey_of ctx wi) (invalid_result wi cost) },
  )

  -- The third stage: evaluation at this step.
  unfoldable pub evaluate : ExecCtx F → Caches F → WorkItem → WorkOutcome F × Caches F
  evaluate ctx s wi = elim (mesh_to_real_aniso ctx.is_valid_number wi.x ctx.base_steps) [
    | none ↦ reject ctx s wi nought false
    | some x_real ↦ elim (compute_estimates ctx.evaluator x_real wi.phi) [
      | none ↦ reject ctx s wi one true
      | some est ↦ (computed wi est, record s { eval = put s.eval (ekey_of wi) est })
    ]
  ]

  unfoldable pub execute_one : ExecCtx F → Caches F → WorkItem → WorkOutcome F × Caches F
  execute_one ctx s wi = elim (get s.decision (dkey_of ctx wi)) [
    | some v ↦ (decision_hit wi v, s)
    | none ↦ elim (get s.eval (ekey_of wi)) [
      | some est ↦ (eval_hit wi est, s)
      | none ↦ evaluate ctx s wi
    ]
  ]

  -- `InlineExecutor::run_batch`
  unfoldable pub run_batch : ExecCtx F → Caches F → List WorkItem → List (WorkOutcome F) × Caches F
  run_batch ctx s [] = ([], s)
  run_batch ctx s (wi ∷ items) =
      let (out, s1) = execute_one ctx s wi in
      let (outs, s2) = run_batch ctx s1 items in (out ∷ outs, s2)
