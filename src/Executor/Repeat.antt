-- ===== src/Executor/Repeat.antt =====
-- Repeated work hits a cache, and batches.
use imads.Prelude.{
  ◌≡◌, refl, sym, ap₂, subst, inl, inr, Bool, true, false, ◌||◌, none, some, List, [], ◌∷◌, map,
  Option-cases, All,
}
use imads.Float.{Float}
use imads.Types.{Estimates, JobResult, WorkItem, WorkOutcome}
use imads.Cache.{get, get-put_self}
use imads.Cache.Keys.{eval_key, decision_key}
use imads.Evaluator.{mesh_to_real_aniso, compute_estimates}
use imads.Executor.{
  ExecCtx, Caches, dkey_of, ekey_of, decision_hit, eval_hit, invalid_result, evaluate, execute_one,
  run_batch, step_tag, reject,
}
use imads.Executor.Outcomes.{IsTagged, IsCoherent, execute_one-Sound, Usable}

module _ {F : Type 0} ⦃d : Float F⦄ (ctx : ExecCtx F) where
  -- The outcome of a repetition: the same artefacts, from a cache.
  pub record SameFromCache (out out' : WorkOutcome F) : Type 0 where
    pub item : out'.item ≡ out.item
    pub decision : out'.cached_decision ≡ out.cached_decision
    pub estimates : out'.estimates ≡ out.estimates
    pub hit : (out'.hit_decision_cache || out'.hit_eval_cache) ≡ true
    pub idle : out'.did_compute ≡ false

  abbrev Repeats : WorkItem → WorkOutcome F → Caches F → Type 0
  Repeats wi out s' =
      (out' : WorkOutcome F) × (execute_one ctx s' wi ≡ (out', s')) × SameFromCache out out'

  decision_known :
      (s : Caches F) (wi : WorkItem) (v : JobResult F)
      → get s.decision (dkey_of ctx wi) ≡ some v
      → execute_one ctx s wi ≡ (decision_hit wi v, s)
  unfolding execute_one
  decision_known s wi v h = rw (execute_one, h)

  eval_known :
      (s : Caches F) (wi : WorkItem) (est : Estimates F)
      → get s.decision (dkey_of ctx wi) ≡ none
      → get s.eval (ekey_of wi) ≡ some est
      → execute_one ctx s wi ≡ (eval_hit wi est, s)
  unfolding execute_one
  eval_known s wi est h k = rw (execute_one, h, k)

  reject-Repeats :
      (s : Caches F) (wi : WorkItem) (cost : F) (b : Bool)
      → Repeats wi (reject ctx s wi cost b).0 (reject ctx s wi cost b).1
  reject-Repeats s wi cost b = (
    decision_hit wi (invalid_result wi cost),
    decision_known _ wi _ (get-put_self s.decision (dkey_of ctx wi) (invalid_result wi cost)),
    record { item = refl; decision = refl; estimates = refl; hit = refl; idle = refl },
  )

  evaluate-Repeats :
      (s : Caches F) (wi : WorkItem)
      → get s.decision (dkey_of ctx wi) ≡ none
      → Repeats wi (evaluate ctx s wi).0 (evaluate ctx s wi).1
  unfolding evaluate
  evaluate-Repeats s wi miss =
      elim (Option-cases (mesh_to_real_aniso ctx.is_valid_number wi.x ctx.base_steps)) [
        | inl e ↦ rw (evaluate, e) (reject-Repeats s wi d.nought false)
        | inr (x_real, e) ↦ elim (Option-cases (compute_estimates ctx.evaluator x_real wi.phi)) [
          | inl c ↦ rw (evaluate, e, c) (reject-Repeats s wi d.one true)
          | inr (est, c) ↦
              rw (evaluate, e, c)
                (
                  eval_hit wi est,
                  eval_known _ wi est miss (get-put_self s.eval (ekey_of wi) est),
                  record {
                    item = refl;
                    decision = refl;
                    estimates = refl;
                    hit = refl;
                    idle = refl;
                  },
                )
        ]
      ]

  -- Evaluating an item a second time, at once, hits a cache, computes nothing, leaves the caches as
  -- they are and brings the same decision and the same estimates.
  pub execute_one_repeats :
      (s : Caches F) (wi : WorkItem)
      → let (out, s') = execute_one ctx s wi in
        (out' : WorkOutcome F) × (execute_one ctx s' wi ≡ (out', s')) × SameFromCache out out'
  unfolding execute_one
  execute_one_repeats s wi = elim (Option-cases (get s.decision (dkey_of ctx wi))) [
    | inl miss ↦ elim (Option-cases (get s.eval (ekey_of wi))) [
      | inl miss' ↦
          subst (λ r. Repeats wi r.0 r.1)
            (sym (
              let e : execute_one ctx s wi ≡ evaluate ctx s wi = rw (execute_one, miss, miss') in
              e))
            (evaluate-Repeats s wi miss)
      | inr (est, hit) ↦
          subst (λ r. Repeats wi r.0 r.1) (sym (eval_known s wi est miss hit))
            (
              eval_hit wi est,
              eval_known s wi est miss hit,
              record { item = refl; decision = refl; estimates = refl; hit = refl; idle = refl },
            )
    ]
    | inr (v, hit) ↦
        subst (λ r. Repeats wi r.0 r.1) (sym (decision_known s wi v hit))
          (
            decision_hit wi v,
            decision_known s wi v hit,
            record { item = refl; decision = refl; estimates = refl; hit = refl; idle = refl },
          )
  ]

  -- From caches in which decisions are of the kinds of their tags and estimates are evaluations, a
  -- batch has one outcome for each item, in order. Each brings a decision of the kind of its step
  -- or estimates, and the caches stay as they were said to be.
  pub run_batch-Sound :
      (s : Caches F) (items : List WorkItem)
      → IsTagged s.decision
      → IsCoherent ctx s.eval
      → let (outs, s') = run_batch ctx s items in
        (map (λ out. out.item) outs ≡ items)
        × All (λ out. Usable (step_tag ctx out.item) out.cached_decision out.estimates) outs
        × IsTagged s'.decision
        × IsCoherent ctx s'.eval
  unfolding run_batch
  run_batch-Sound s [] tagged coherent = (refl, tt, tagged, coherent)
  run_batch-Sound s (wi ∷ items) tagged coherent =
      let one = execute_one-Sound ctx s wi tagged coherent in
      let (names, usable, tagged', coherent') =
        run_batch-Sound (execute_one ctx s wi).1 items one.tagged one.coherent in
      let out = (execute_one ctx s wi).0 in
      (
        ap₂ ◌∷◌ one.item names,
        (
          subst (λ w. Usable (step_tag ctx w) out.cached_decision out.estimates) (sym one.item)
              one.usable,
          usable,
        ),
        tagged',
        coherent',
      )
