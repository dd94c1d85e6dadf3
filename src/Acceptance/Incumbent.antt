-- ===== src/Acceptance/Incumbent.antt =====
-- `incumbent_feasible_f`: no feasible TRUTH result has a lower objective value.
use imads.Prelude.{
  Bool, ◌≡◌, ◌∙◌, ap, sym, true, refl, inl, inr, Option, none, some, List, [], ◌∷◌, arith,
  Bool-cases, if◌then◌else◌, All,
}
use imads.Float.{Float, IsIeee, IsNum, ◌≼◌}
use imads.Acceptance.Barrier.{IsBarrier, step-IsBarrier}
use imads.Acceptance.{
  AcceptanceConfig, AcceptanceState, Call, truth, iteration_end, better_incumbent, decide_truth,
  on_iteration_end, step, run,
}

module _ {ℓ} {F : Type ℓ} ⦃d : Float F⦄ where
  -- What is kept of the calls alone: neither the barrier nor the filter has a say.
  pub best_feasible : Option F → List (Call F) → Option F
  best_feasible best [] = best
  best_feasible best (truth f v ∷ cs) =
      best_feasible (if d.le v d.nought then better_incumbent best f else best) cs
  best_feasible best (iteration_end poll improved ∷ cs) = best_feasible best cs

  -- The objective value of a feasible result is a number and is not below `b`.
  abbrev pub NoBetter : F → Call F → Type 0
  NoBetter b (truth f v) = d.le v d.nought ≡ true → b ≼ f
  NoBetter b (iteration_end poll improved) = Unit

  abbrev pub HasNumber : Call F → Type 0
  HasNumber (truth f v) = IsNum f
  HasNumber (iteration_end poll improved) = Unit

  abbrev pub Below : F → Option F → Type 0
  Below b none = Unit
  Below b (some x) = b ≼ x

  abbrev pub IsNumber : Option F → Type 0
  IsNumber none = Unit
  IsNumber (some x) = IsNum x

  module _ (laws : IsIeee F) where
    open laws use {le_trans, le_total, lt-eq}

    step-incumbent :
        (cfg : AcceptanceConfig F) (s : AcceptanceState F) (f v : F)
        → IsBarrier laws cfg s.barrier
        → (step cfg s (truth f v)).filter.incumbent_feasible_f ≡ (
            if d.le v d.nought
            then better_incumbent s.filter.incumbent_feasible_f f
            else s.filter.incumbent_feasible_f)
    unfolding step decide_truth
    step-incumbent cfg s f v b =
        ground (arith, lt-eq s.barrier.h v, le_trans v d.nought s.barrier.h, b.nonneg)

    iteration_end-incumbent :
        (cfg : AcceptanceConfig F) (s : AcceptanceState F) (poll improved : Bool)
        → (step cfg s (iteration_end poll improved)).filter.incumbent_feasible_f
          ≡ s.filter.incumbent_feasible_f
    unfolding step on_iteration_end
    iteration_end-incumbent cfg s poll improved = ground arith

    -- The feasible incumbent is what `better_incumbent` has kept of the calls with no violation,
    -- also of those that the filter turned down.
    pub incumbent-run :
        (cfg : AcceptanceConfig F) (s : AcceptanceState F) (cs : List (Call F))
        → IsBarrier laws cfg s.barrier
        → (run cfg s cs).filter.incumbent_feasible_f
          ≡ best_feasible s.filter.incumbent_feasible_f cs
    unfolding run best_feasible
    incumbent-run cfg s [] b = refl
    incumbent-run cfg s (truth f v ∷ cs) b =
        incumbent-run cfg (step cfg s (truth f v)) cs (step-IsBarrier laws cfg s (truth f v) b).0
        ∙ ap (λ o. best_feasible o cs) (step-incumbent cfg s f v b)
    incumbent-run cfg s (iteration_end poll improved ∷ cs) b =
        incumbent-run cfg (step cfg s (iteration_end poll improved)) cs
          (step-IsBarrier laws cfg s (iteration_end poll improved) b).0
        ∙ ap (λ o. best_feasible o cs) (iteration_end-incumbent cfg s poll improved)

    better-Below :
        (o : Option F) (f b : F)
        → IsNumber o
        → IsNum f
        → Below b (better_incumbent o f)
        → Below b o × (b ≼ f)
    better-Below none f b n m h = (tt, h)
    better-Below (some x) f b n m h =
        ground (arith, lt-eq f x, le_total f x, le_trans b x f, le_trans b f x)

    better-IsNumber :
        (o : Option F) (f : F) → IsNumber o → IsNum f → IsNumber (better_incumbent o f)
    better-IsNumber none f n m = m
    better-IsNumber (some x) f n m = ground arith

    best_feasible-Below :
        (o : Option F) (cs : List (Call F)) (b : F)
        → IsNumber o
        → All HasNumber cs
        → best_feasible o cs ≡ some b
        → Below b o × All (NoBetter b) cs
    unfolding best_feasible
    best_feasible-Below none [] b n m e = (tt, tt)
    best_feasible-Below (some x) [] b n m e = (ground arith, tt)
    best_feasible-Below o (truth f v ∷ cs) b n m e = elim (Bool-cases (d.le v d.nought)) [
      | inl feasible ↦
          let (le, rest) =
            best_feasible-Below (better_incumbent o f) cs b (better-IsNumber o f n m.0) m.1
              (rw feasible at e) in
          let (below, better) = better-Below o f b n m.0 le in (below, ((λ _. better), rest))
      | inr not_feasible ↦
          let (le, rest) = best_feasible-Below o cs b n m.1 (rw not_feasible at e) in
          (le, ((λ h. cc), rest))
    ]
    best_feasible-Below o (iteration_end poll improved ∷ cs) b n m e =
        let (le, rest) = best_feasible-Below o cs b n m.1 e in (le, (tt, rest))

    -- With numbers that obey IEEE 754, after any history of calls from a state with a valid barrier
    -- and no incumbent, in which every objective value is a number, the feasible incumbent `b` is
    -- at most the objective value of each call with no violation.
    pub incumbent-NoBetter :
        (cfg : AcceptanceConfig F) (s : AcceptanceState F) (cs : List (Call F)) (b : F)
        → IsBarrier laws cfg s.barrier
        → s.filter.incumbent_feasible_f ≡ none
        → All HasNumber cs
        → (run cfg s cs).filter.incumbent_feasible_f ≡ some b
        → All (NoBetter b) cs
    incumbent-NoBetter cfg s cs b valid fresh nums e =
        (best_feasible-Below none cs b tt nums
          (ap (λ o. best_feasible o cs) (sym fresh) ∙ sym (incumbent-run cfg s cs valid) ∙ e)).1
