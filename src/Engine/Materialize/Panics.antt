-- ===== src/Engine/Materialize/Panics.antt =====
-- When the engine panics on an outcome.
use imads.Prelude.{◌≡◌, ◌↔◌, none, arith}
use imads.Float.{Float}
use imads.Types.{CandidateStageState, WorkOutcome}
use imads.Engine.Candidate.{Policies, Batch, DecisionCache, EngineStats, passed}
use imads.Engine.Materialize.{use_estimates, materialize_job_result}
use imads.Engine.Steps.{check_cheap}

module _ {F : Type 0} ⦃d : Float F⦄ where
  -- The engine panics on an outcome exactly when it brings neither a cached decision nor estimates
  -- and its candidate meets the cheap constraints.
  pub materialize_job_result-none_iff :
      (pol : Policies F) (b : Batch F) (cand : CandidateStageState F) (cache : DecisionCache F)
      (stats : EngineStats) (out : WorkOutcome F)
      → (materialize_job_result pol b cand cache stats out ≡ none) ↔ (
          (out.cached_decision ≡ none)
          × ((check_cheap pol b cand).1 ≡ passed)
          × (out.estimates ≡ none))
  unfolding materialize_job_result use_estimates
  materialize_job_result-none_iff pol b cand cache stats out =
      (λ h. ground arith, λ (h, k, l). ground arith)
