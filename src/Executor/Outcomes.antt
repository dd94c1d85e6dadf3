-- ===== src/Executor/Outcomes.antt =====
-- What the outcomes and the caches are after the evaluation of work items.
use imads.Prelude.{
  ◌≡◌, refl, sym, ◌∙◌, subst, inl, inr, Bool, true, false, Option, none, some, List, Bool-cases,
  Option-cases,
}
use mathlib.Core.Option.{some-injective, none-ne-some}
use imads.Float.{Float}
use imads.Types.{
  Estimates, JobResult, rejected_cheap, rejected_invalid_eval, early_infeasible, partial, truth,
  CacheTag, tag_cheap, tag_partial, tag_truth, EvalCacheKey, DecisionCacheKey, WorkItem,
  WorkOutcome,
}
use imads.Cache.{MemoryCache, get, put, get-put}
use imads.Cache.Keys.{
  eval_key, decision_key, same_decision, same_decision_iff, same_eval, same_eval_iff,
}
use imads.Evaluator.{mesh_to_real_aniso, compute_estimates}
use imads.Executor.{
  ExecCtx, Caches, dkey_of, ekey_of, step_tag, invalid_result, reject, evaluate, execute_one,
}

module _ {F : Type 0} where
  -- The kind of result that a tag of the decision cache stands for. An invalid evaluation can be
  -- remembered under every tag.
  abbrev pub TagFits : CacheTag → JobResult F → Type 0
  TagFits tag (rejected_invalid_eval meta) = Unit
  TagFits tag (rejected_cheap meta) = tag ≡ tag_cheap
  TagFits tag (early_infeasible j est meta) = tag ≡ tag_partial
  TagFits tag (partial est meta) = tag ≡ tag_partial
  TagFits tag (truth f c feasible v meta) = tag ≡ tag_truth

  -- Every entry of the decision cache is of the kind of its tag.
  abbrev pub IsTagged : MemoryCache DecisionCacheKey (JobResult F) → Type 0
  IsTagged cache =
      (key : DecisionCacheKey) (r : JobResult F) → get cache key ≡ some r → TagFits key.tag r

  pub put-IsTagged :
      (cache : MemoryCache DecisionCacheKey (JobResult F)) (key : DecisionCacheKey)
      (r : JobResult F)
      → IsTagged cache
      → TagFits key.tag r
      → IsTagged (put cache key r)
  put-IsTagged cache key r tagged fits other r' h = elim (Bool-cases (same_decision key other)) [
    | inl e ↦
        let at : some r ≡ some r' = sym (rw (get-put cache key other r, e)) ∙ h in
        subst (λ k. TagFits k.tag r') ((same_decision_iff key other).0 e)
          (subst (TagFits key.tag) (some-injective _ _ at) fits)
    | inr e ↦ tagged other r' (sym (rw (get-put cache key other r, e)) ∙ h)
  ]

  -- An outcome brings a decision of the kind of its step, or estimates.
  abbrev pub Usable : CacheTag → Option (JobResult F) → Option (Estimates F) → Type 0
  Usable tag (some r) est = TagFits tag r
  Usable tag none (some est) = Unit
  Usable tag none none = ⊥

module _ {F : Type 0} ⦃d : Float F⦄ (ctx : ExecCtx F) where
  -- The estimates are what the evaluation of the point yields.
  abbrev pub IsEvaluation : EvalCacheKey → Estimates F → Type 0
  IsEvaluation key est =
      (x_real : List F) × (mesh_to_real_aniso ctx.is_valid_number key.x ctx.base_steps
        ≡ some x_real)
      × (compute_estimates ctx.evaluator x_real key.phi ≡ some est)

  -- The evaluation cache holds nothing but evaluations.
  abbrev pub IsCoherent : MemoryCache EvalCacheKey (Estimates F) → Type 0
  IsCoherent cache =
      (key : EvalCacheKey) (est : Estimates F) → get cache key ≡ some est → IsEvaluation key est

  put-IsCoherent :
      (cache : MemoryCache EvalCacheKey (Estimates F)) (key : EvalCacheKey) (est : Estimates F)
      → IsCoherent cache
      → IsEvaluation key est
      → IsCoherent (put cache key est)
  put-IsCoherent cache key est coherent is other est' h = elim (Bool-cases (same_eval key other)) [
    | inl e ↦
        let at : some est ≡ some est' = sym (rw (get-put cache key other est, e)) ∙ h in
        subst (λ k. IsEvaluation k est') ((same_eval_iff key other).0 e)
          (subst (IsEvaluation key) (some-injective _ _ at) is)
    | inr e ↦ coherent other est' (sym (rw (get-put cache key other est, e)) ∙ h)
  ]

  pub record Sound (wi : WorkItem) (out : WorkOutcome F) (s : Caches F) : Type 0 where
    pub item : out.item ≡ wi
    pub tagged : IsTagged s.decision
    pub coherent : IsCoherent s.eval
    pub usable : Usable (step_tag ctx wi) out.cached_decision out.estimates
    pub evaluated : (est : Estimates F) → out.estimates ≡ some est → IsEvaluation (ekey_of wi) est

  evaluate-Sound :
      (s : Caches F) (wi : WorkItem)
      → IsTagged s.decision
      → IsCoherent s.eval
      → Sound wi (evaluate ctx s wi).0 (evaluate ctx s wi).1
  unfolding evaluate
  evaluate-Sound s wi tagged coherent =
      elim (Option-cases (mesh_to_real_aniso ctx.is_valid_number wi.x ctx.base_steps)) [
        | inl e ↦ rw (evaluate, e) (rejects d.nought false)
        | inr (x_real, e) ↦ elim (Option-cases (compute_estimates ctx.evaluator x_real wi.phi)) [
          | inl c ↦ rw (evaluate, e, c) (rejects d.one true)
          | inr (est, c) ↦
              rw (evaluate, e, c)
                (record {
                  item = refl;
                  tagged = tagged;
                  coherent = put-IsCoherent s.eval (ekey_of wi) est coherent (x_real, e, c);
                  usable = tt;
                  evaluated = λ est' h. (x_real, e, c ∙ h);
                })
        ]
      ]
    where
      rejects :
          (cost : F) (b : Bool) → Sound wi (reject ctx s wi cost b).0 (reject ctx s wi cost b).1
      rejects cost b = record {
        item = refl;
        tagged = put-IsTagged s.decision (dkey_of ctx wi) (invalid_result wi cost) tagged tt;
        coherent = coherent;
        usable = tt;
        evaluated = λ est h. absurd (none-ne-some _ h);
      }

  -- From caches in which decisions are of the kinds of their tags and estimates are evaluations, an
  -- item's outcome is for that item. It brings a decision of the kind of its step or estimates, and
  -- these are what the evaluation of its point yields, whichever cache was hit. The caches keep
  -- this.
  pub execute_one-Sound :
      (s : Caches F) (wi : WorkItem)
      → IsTagged s.decision
      → IsCoherent s.eval
      → Sound wi (execute_one ctx s wi).0 (execute_one ctx s wi).1
  unfolding execute_one
  execute_one-Sound s wi tagged coherent = elim (Option-cases (get s.decision (dkey_of ctx wi))) [
    | inl miss ↦ elim (Option-cases (get s.eval (ekey_of wi))) [
      | inl miss' ↦ rw (execute_one, miss, miss') (evaluate-Sound s wi tagged coherent)
      | inr (est, hit) ↦
          rw (execute_one, miss, hit)
            (record {
              item = refl;
              tagged = tagged;
              coherent = coherent;
              usable = tt;
              evaluated = λ est' h. coherent (ekey_of wi) est' (hit ∙ h);
            })
    ]
    | inr (v, hit) ↦
        rw (execute_one, hit)
          (record {
            item = refl;
            tagged = tagged;
            coherent = coherent;
            usable = tagged (dkey_of ctx wi) v hit;
            evaluated = λ est h. absurd (none-ne-some _ h);
          })
  ]
