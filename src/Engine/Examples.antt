-- ===== src/Engine/Examples.antt =====
-- A small run: one constraint, three steps, one candidate, in fixed-point numbers.
use imads.Prelude.{ℕ, ◌*◌, true, false, none, some, List, [], ◌∷◌}
use imads.Prelude.Int.{pos}
use imads.Float.Fixed.{Fixed, fixed_float, fixed_finite, milli}
use imads.Types.{Estimates, Phi, CandidateStageState, WorkItem, ready}
use imads.Config.{EngineConfig}
use imads.Margin.{Thresholds, early_infeasible, objective_bounds}
use imads.Evaluator.{Evaluator}
use imads.Executor.{ExecCtx, Caches}
use mathlib.Core.Option.{none-ne-some}
use imads.Cache.{get}
use imads.Executor.Outcomes.{IsTagged, IsCoherent}
use imads.Engine.Candidate.{Policies, Batch, EngineStats}

abbrev pub num : ℕ → Fixed
num n = milli (pos (n * 1000))

abbrev pub config : EngineConfig Fixed
config = record {
  tau_levels = 10 ∷ 1 ∷ [];
  smc_levels = 2 ∷ 3 ∷ [];
  mesh_base_step = num 1;
  mesh_base_steps = none;
  mesh_mul_init = pos 8;
  mesh_mul_min = pos 1;
  mesh_refine_div = pos 2;
  poll_step_mult = pos 1;
  max_iters = 5;
  candidates_per_iter = 4;
  search_dim = some 1;
  max_steps_per_iter = none;
  num_constraints = 1;
  accept_h0 = num 1;
  accept_h_min = num 0;
  accept_h_shrink = milli (pos 500);
  accept_eps_f = num 0;
  accept_eps_v = num 0;
  accept_filter_cap = 4;
  calibrator_target_false = milli (pos 10);
  calibrator_min_audits = 20;
  calibrator_eta_delta = milli (pos 100);
  calibrator_delta_min = num 0;
  calibrator_delta_max = milli (pos 50);
  calibrator_k_window = 100;
  calibrator_k_min_pairs = 25;
  calibrator_k_quantile = milli (pos 900);
  calibrator_k_eta = milli (pos 200);
  objective_prune_min_smc_rank = 1;
  objective_prune_min_level = 1;
  objective_prune_require_back_half = false;
  objective_prune_disable_for_audit = false;
  batch_boundary = none;
  executor_chunk_base = 32;
  executor_chunk_min = 1;
  executor_chunk_max = 64;
  executor_spin_limit = 0;
  executor_chunk_auto_tune = false;
}

abbrev first : List Fixed → Fixed
first [] = num 0
first (x ∷ xs) = x

-- `f(x) = x`, `c(x) = x - 5`, without noise or bias.
abbrev pub evaluator : Evaluator Fixed
evaluator = record {
  cheap_constraints = λ x. true;
  mc_sample = λ x phi k. (x, fixed_float.sub (first x) (num 5) ∷ []);
  solver_bias = λ x tau. (num 0 ∷ [], num 0 ∷ []);
  num_objectives = 1;
  num_constraints = 1;
  search_dim = some 1;
}

abbrev pub policies : Policies Fixed
policies = record {
  early_cut = early_infeasible;
  objective_bounds = objective_bounds;
  should_audit = λ x phi env_rev. true;
  evaluator = evaluator;
  is_valid_number = fixed_finite;
}

abbrev pub ladder : List Phi
ladder =
    record { tau = 10; smc = 2 } ∷ record { tau = 10; smc = 3 } ∷ record { tau = 1; smc = 3 } ∷ []

abbrev pub thresholds : Thresholds Fixed
thresholds = record {
  delta_rel = num 0 ∷ [];
  k_c = num 0 ∷ [];
  k_f = num 0;
  k_by_phi = [];
  eps_f = num 0;
}

abbrev pub batch : Batch Fixed
batch = record {
  cfg = config;
  base_steps = num 1 ∷ [];
  ladder = ladder;
  assignment = 2 ∷ [];
  th = thresholds;
  policy_rev = 0;
  incumbent_f = none;
}

abbrev pub context : ExecCtx Fixed
context = record {
  evaluator = evaluator;
  is_valid_number = fixed_finite;
  ladder_len = 3;
  base_steps = num 1 ∷ [];
}

abbrev pub no_caches : Caches Fixed
no_caches = record { decision = []; eval = [] }

abbrev pub no_stats : EngineStats
no_stats = record {
  truth_evals = 0;
  truth_decision_cache_hits = 0;
  truth_eval_cache_hits = 0;
  partial_steps = 0;
  partial_decision_cache_hits = 0;
  partial_eval_cache_hits = 0;
  cheap_rejects = 0;
  invalid_eval_rejects = 0;
}

-- A new candidate at `x = 7`, which violates the constraint.
abbrev pub candidate : CandidateStageState Fixed
candidate = record {
  id = 1;
  x = pos 7 ∷ [];
  base_score = num 0;
  created_epoch = 0;
  next_phi_idx = 1;
  last_estimates_phi_idx = none;
  last_estimates = none;
  audit_required = false;
  audit_origin = none;
  audit_cut_estimates = none;
  cheap_checked = false;
  cheap_ok = false;
  submitted_policy_rev = 0;
  submitted_incumbent_id = 0;
  status = ready;
}

abbrev pub item : WorkItem
item = record {
  cand_id = 1;
  x = pos 7 ∷ [];
  phi_idx = 1;
  phi = record { tau = 10; smc = 3 };
  env_rev = 0;
  policy_rev = 0;
  incumbent_id = 0;
}

abbrev pub estimates : Estimates Fixed
estimates = record {
  f_hat = num 7 ∷ [];
  f_se = num 0 ∷ [];
  c_hat = num 2 ∷ [];
  c_se = num 0 ∷ [];
  phi = record { tau = 10; smc = 3 };
  tau_scale = num 10;
  num_objectives = 1;
}

pub no_tags : IsTagged no_caches.decision
unfolding get
no_tags key r h = absurd (none-ne-some _ h)

pub no_evaluations : IsCoherent context no_caches.eval
unfolding get
no_evaluations key est h = absurd (none-ne-some _ h)
