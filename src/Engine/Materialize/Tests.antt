-- ===== src/Engine/Materialize/Tests.antt =====
-- The theorems on outcomes, dispatch and the caches at a concrete run.
use imads.Prelude.{
  sort_by, insert_by, true, ℕ, ◌-◌, ◌≤◌, ◌≡◌, refl, ◌↔◌, true, none, some, [], ◌∷◌, arith, length,
}
use imads.Prelude.Int.{pos, negsuc}
use imads.Float.Fixed.{Fixed, fixed_float}
use imads.Types.{
  EvalMeta, ready, done_stopped_partial, WorkOutcome, CandidateStageState, EvalCacheKey,
}
use imads.Cache.{MemoryCache}
use imads.Cache.Keys.{eval_key}
use imads.Executor.{execute_one, computed}
use imads.Executor.Outcomes.{IsTagged}
use imads.Engine.Audit.{objective_pruning_allowed}
use imads.Engine.Candidate.{Policies, Batch, Materialized, passed}
use imads.Engine.Materialize.{materialize_job_result}
use imads.Engine.Steps.{use_cached, is_hopeless, stop_or_go_on, check_cheap}
use imads.Engine.Materialize.Panics.{materialize_job_result-none_iff}
use imads.Engine.Materialize.Tags.{materialize_job_result-IsTagged}
use imads.Engine.Materialize.Advances.{Advances}
use imads.Engine.Materialize.Outcomes.{materialize_job_result-Advances}
use imads.Engine.Materialize.Stops.{use_cached-stop_or_go_on}
use imads.Engine.Dispatch.{dispatch, sent}
use imads.Engine.Dispatch.Total.{execute_one_materializes}
use imads.Engine.Dispatch.Bounded.{Rounds, rest, round, Rounds-bound}
use imads.Engine.Examples.{
  estimates, no_tags, no_evaluations, num, policies, ladder, batch, context, no_caches, no_stats,
  candidate, item,
}

abbrev outcome : WorkOutcome Fixed
outcome = computed item estimates

materialize_job_result-none_iff_example :
    (materialize_job_result policies batch candidate [] no_stats outcome ≡ none) ↔ (
      (outcome.cached_decision ≡ none)
      × ((check_cheap policies batch candidate).1 ≡ passed)
      × (outcome.estimates ≡ none))
materialize_job_result-none_iff_example =
    materialize_job_result-none_iff policies batch candidate [] no_stats outcome

materialize_job_result-Advances_example :
    (m : Materialized Fixed) × (materialize_job_result policies batch candidate [] no_stats outcome
      ≡ some m)
    × Advances ladder 1 candidate m.cand
materialize_job_result-Advances_example =
    materialize_job_result-Advances policies batch candidate [] no_stats outcome tt (omega arith) tt

-- The candidate in flight and what becomes of it.
abbrev flying : CandidateStageState Fixed
flying = (sent 0 0 0 candidate item.phi).0

landed :
    (m : Materialized Fixed) × (materialize_job_result policies batch flying [] no_stats outcome
      ≡ some m)
    × Advances ladder 1 flying m.cand
landed =
    materialize_job_result-Advances policies batch flying [] no_stats outcome tt (omega arith) tt

materialize_job_result-IsTagged_example : IsTagged landed.0.cache
materialize_job_result-IsTagged_example =
    materialize_job_result-IsTagged policies batch flying [] no_stats outcome landed.0 no_tags
      landed.1

execute_one_materializes_example :
    let (out, s') = execute_one context no_caches item in
    (m : Materialized Fixed) × (materialize_job_result policies batch candidate s'.decision no_stats
        out
      ≡ some m)
    × Advances ladder 1 candidate m.cand
execute_one_materializes_example =
    execute_one_materializes policies batch context no_caches item candidate no_stats refl
      (omega arith) no_tags no_evaluations tt

flies : dispatch ladder 0 0 0 candidate ≡ some (flying, item)
unfolding dispatch
flies = refl

one_round : Rounds ladder 1 candidate landed.0.cand
one_round = round policies batch 0 0 [] no_stats outcome landed.0 refl flies refl tt landed.1 rest

Rounds-bound_example : 1 ≤ length ladder - candidate.next_phi_idx
Rounds-bound_example = Rounds-bound ladder tt one_round

abbrev key : EvalCacheKey
key = record { x = pos 7 ∷ []; phi = item.phi; env_rev = 0 }

abbrev other : EvalCacheKey
other = record { x = negsuc 6 ∷ []; phi = item.phi; env_rev = 0 }

abbrev remembered : MemoryCache EvalCacheKey ℕ
remembered = (other, 4) ∷ []

-- The incumbent is better than the bound of the candidate.
abbrev strict : Policies Fixed
strict = record policies { objective_bounds = λ est th. (num 7, num 7) }

abbrev pressed : Batch Fixed
pressed = record batch { incumbent_f = some (num 3 ∷ []) }

abbrev meta : EvalMeta Fixed
meta = record { phi = item.phi; env_rev = 0; policy_rev = 0; runtime_cost = num 1 }

hopeless : is_hopeless strict pressed candidate item estimates ≡ true
unfolding is_hopeless objective_pruning_allowed sort_by insert_by
hopeless = refl

use_cached-stop_or_go_on_example :
    let (stopped, job) = stop_or_go_on strict pressed candidate item estimates meta in
    (stopped.status ≡ done_stopped_partial 1)
    × ((use_cached strict pressed candidate item job.result).0.status ≡ ready)
use_cached-stop_or_go_on_example =
    use_cached-stop_or_go_on strict pressed candidate candidate item estimates meta (omega arith)
      hopeless
