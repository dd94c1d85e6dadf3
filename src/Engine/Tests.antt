-- ===== src/Engine/Tests.antt =====
-- The theorems on the engine and what it stands on at a concrete run.
use imads.Prelude.{
  true, ℕ, ◌<◌, ◌≡◌, refl, ◌↔◌, ◌⊎◌, inl, inr, true, false, none, some, List, [], ◌∷◌, map, arith,
  All,
}
use imads.Float.{◌≼◌}
use imads.Float.Fixed.{Fixed, fixed_float, Fixed-IsIeee}
use imads.Types.{WorkOutcome, CandidateAuditOrigin}
use imads.Cache.Keys.{eval_key}
use imads.Config.{ConfigError, EngineConfig_new}
use imads.Config.Validation.{IsValid, EngineConfig_new_decides}
use imads.Margin.{early_infeasible}
use imads.Margin.Bounds.{violates, early_infeasible_first}
use imads.Evaluator.{compute_estimates, sample_from, push_each, push, se, estimate_each, summarise}
use imads.Evaluator.Finite.{IsSummary, compute_estimates-IsSummary}
use imads.Executor.{execute_one, run_batch, step_tag}
use imads.Executor.Outcomes.{IsTagged, IsCoherent, Sound, Usable, execute_one-Sound}
use imads.Executor.Repeat.{SameFromCache, execute_one_repeats, run_batch-Sound}
use imads.Engine.Start.{Started, start-IsValid}
use imads.Engine.Audit.{collect_paired_phi_indices, contains, next_audit_target_idx}
use imads.Engine.Audit.Targets.{LaterPair, collect_paired_phi_indices_iff}
use imads.Engine.Audit.Visits.{Visits, next_audit_target_idx-Visits}
use imads.Engine.Steps.{all_met, violation}
use imads.Engine.Truth.{feasible_iff}
use imads.Engine.Examples.{
  estimates, no_tags, no_evaluations, num, config, evaluator, ladder, thresholds, context,
  no_caches, item,
}

config-IsValid : IsValid config
config-IsValid = record {
  calibrator = record {
    target_false = (refl, refl);
    min_audits = omega arith;
    eta_delta = (refl, refl);
    delta_finite = (refl, refl);
    delta_range = (refl, refl);
    k_pairs = (omega arith, omega arith);
    k_quantile = (refl, (refl, refl));
    k_eta = (refl, refl);
  };
  policy = record {
    prune = (omega arith, omega arith);
    h0 = refl;
    h_min = (refl, refl);
    h_shrink = (refl, refl);
    eps = (refl, refl);
  };
  mesh = record {
    base_step = (refl, refl);
    mul_min = omega arith;
    mul_init = omega arith;
    refine_div = omega arith;
    poll_mult = omega arith;
  };
  executor = record { dim = λ e. ground arith; chunk = (omega arith, omega arith) };
}

EngineConfig_new_decides_example :
    (IsValid config × (EngineConfig_new config ≡ inl config))
    ⊎ ((IsValid config → ⊥)
        × (e : ConfigError) × (es : List ConfigError) × (EngineConfig_new config ≡ inr (e ∷ es)))
EngineConfig_new_decides_example = EngineConfig_new_decides config

start-IsValid_example : Started config (some 1)
start-IsValid_example = start-IsValid config (some 1) config-IsValid refl

-- Step 2 pairs with step 1, step 0 pairs with none.
abbrev origin : CandidateAuditOrigin
origin = record {
  violated_j = 0;
  phi_at_cut = record { tau = 10; smc = 3 };
  phi_idx_at_cut = 1;
  paired_phi_indices = collect_paired_phi_indices ladder 1;
}

collect_paired_phi_indices_iff_example :
    (contains (collect_paired_phi_indices ladder 1) 2 ≡ true) ↔ LaterPair ladder 1 2
collect_paired_phi_indices_iff_example = collect_paired_phi_indices_iff ladder 1 2

next_audit_target_idx-Visits_example :
    Visits ladder (some origin) 1 (next_audit_target_idx (some origin) 1 3)
next_audit_target_idx-Visits_example =
    next_audit_target_idx-Visits ladder (some origin) 1 refl (omega arith)

early_infeasible_first_example :
    ((early_infeasible estimates thresholds ≡ none)
      × ((j : ℕ) → violates estimates thresholds j ≡ false))
    ⊎ ((j : ℕ) × (early_infeasible estimates thresholds ≡ some j)
        × (violates estimates thresholds j ≡ true)
        × ((k : ℕ) → k < j → violates estimates thresholds k ≡ false))
early_infeasible_first_example = early_infeasible_first estimates thresholds

evaluates : compute_estimates evaluator (num 7 ∷ []) item.phi ≡ some estimates
unfolding compute_estimates sample_from push_each push se estimate_each summarise
evaluates = refl

compute_estimates-IsSummary_example : IsSummary evaluator (num 7 ∷ []) item.phi 1 1 estimates
compute_estimates-IsSummary_example =
    compute_estimates-IsSummary evaluator (num 7 ∷ []) item.phi estimates evaluates

feasible_iff_example :
    (all_met estimates.c_hat ≡ true) ↔ (violation (num 0) estimates.c_hat ≼ num 0)
feasible_iff_example = feasible_iff Fixed-IsIeee evaluator (num 7 ∷ []) item.phi estimates evaluates

execute_one-Sound_example :
    Sound context item (execute_one context no_caches item).0 (execute_one context no_caches item).1
execute_one-Sound_example = execute_one-Sound context no_caches item no_tags no_evaluations

execute_one_repeats_example :
    let (out, s') = execute_one context no_caches item in
    (out' : WorkOutcome Fixed) × (execute_one context s' item ≡ (out', s'))
    × SameFromCache context out out'
execute_one_repeats_example = execute_one_repeats context no_caches item

run_batch-Sound_example :
    let (outs, s') = run_batch context no_caches (item ∷ item ∷ []) in
    (map (λ out. out.item) outs ≡ item ∷ item ∷ [])
    × All (λ out. Usable (step_tag context out.item) out.cached_decision out.estimates) outs
    × IsTagged s'.decision
    × IsCoherent context s'.eval
run_batch-Sound_example =
    run_batch-Sound context no_caches (item ∷ item ∷ []) no_tags no_evaluations
