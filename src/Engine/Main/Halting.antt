-- ===== src/Engine/Main/Halting.antt =====
-- A run comes to an end: the fuel of every iteration is enough.
use imads.Prelude.{ℕ, zero, suc, Option, none, some, List, ◌+◌, arith}
use imads.Float.{Float}
use imads.Float.Libm.{Libm}
use imads.Types.{Phi}
use imads.Mesh.{AnisotropicMeshGeometry}
use imads.Config.{EngineConfig}
use imads.Executor.{Caches}
use imads.Engine.State.{RunState, IsExecutor, AlwaysReturns}
use imads.Engine.Run.{Ending, ended, crashed, waiting, out_of_fuel, Halts}
use imads.Engine.Run.Terminates.{turns-Halts}
use imads.Engine.Main.{
  Setup, IterState, enough, run_env, finish, searched, from_start, iteration, iterations,
  run_with_evaluator,
}

module _ {F C D S Q : Type 0} ⦃d : Float F⦄ ⦃e : Libm F⦄ (setup : Setup F C D S Q)
    (cfg : EngineConfig F) (executes : IsExecutor setup.bundle)
    (returns : AlwaysReturns setup.bundle) where
  finish-Halts :
      (geo : AnisotropicMeshGeometry F) (q : Q) (r : Ending (RunState F C D S))
      → Halts r
      → Halts (finish setup cfg geo q r)
  finish-Halts geo q (ended s) h = tt
  finish-Halts geo q crashed h = tt
  finish-Halts geo q waiting h = h
  finish-Halts geo q out_of_fuel h = h

  searched-Halts :
      (ladder : List Phi) (batch_size iter : ℕ) (geo : AnisotropicMeshGeometry F)
      (r : Option (Q × RunState F C D S))
      → Halts (searched setup cfg ladder batch_size iter geo r)
  searched-Halts ladder batch_size iter geo none = tt
  searched-Halts ladder batch_size iter geo (some (q, s)) = finish-Halts geo q _ (
      turns-Halts setup.bundle (run_env setup cfg ladder geo iter batch_size) executes returns geo
        (enough s.steps_left) s (grind arith))

  iteration-Halts :
      (ladder : List Phi) (batch_size iter : ℕ) (it : IterState F C D S Q)
      → Halts (iteration setup cfg ladder batch_size iter it)
  unfolding iteration
  iteration-Halts ladder batch_size iter it = searched-Halts ladder batch_size iter it.geo _

  iterations-Halts :
      (left : ℕ) (ladder : List Phi) (batch_size iter : ℕ) (it : IterState F C D S Q)
      → Halts (iterations setup cfg left ladder batch_size iter it)
  unfolding iterations
  iterations-Halts zero ladder batch_size iter it = tt
  iterations-Halts (suc left) ladder batch_size iter it =
      elim (iteration setup cfg ladder batch_size iter it)
          as (λ r.
            Halts r
            → Halts (elim r [
              | ended it' ↦ iterations setup cfg left ladder batch_size (iter + 1) it'
              | crashed ↦ crashed
              | waiting ↦ waiting
              | out_of_fuel ↦ out_of_fuel
            ])) [
              | ended it' ↦ λ h. iterations-Halts left ladder batch_size (iter + 1) it'
              | crashed ↦ λ h. tt
              | waiting ↦ λ h. h
              | out_of_fuel ↦ λ h. h
            ]
        (iteration-Halts ladder batch_size iter it)

  from_start-Halts :
      (caches : Caches F) (dids : D) (scheduler : S) (q : Q) (c : Option C)
      (began : Option (List Phi × AnisotropicMeshGeometry F))
      → Halts (from_start setup cfg caches dids scheduler q c began)
  from_start-Halts caches dids scheduler q none began = tt
  from_start-Halts caches dids scheduler q (some c) none = tt
  from_start-Halts caches dids scheduler q (some c) (some (ladder, geo)) =
      iterations-Halts cfg.max_iters ladder _ 0 _

  -- A run with any configuration, any search, ladder, scheduler, DIDS, margin, calibrator and audit
  -- policies, any evaluator and in-memory caches ends or panics: the rounds of no iteration go on
  -- without end. The executor is any that gives as many outcomes as there are items, each of one of
  -- them, and whose batches all return; with the same items it may give something else each time.
  pub run_with_evaluator-Halts :
      (caches : Caches F) (calibrator : C) (dids : D) (scheduler : S) (q : Q)
      → Halts (run_with_evaluator setup cfg caches calibrator dids scheduler q)
  unfolding run_with_evaluator
  run_with_evaluator-Halts caches calibrator dids scheduler q = from_start-Halts caches _ _ q _ _
