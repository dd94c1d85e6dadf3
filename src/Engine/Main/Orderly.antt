-- ===== src/Engine/Main/Orderly.antt =====
-- From the empty store on, the store of candidates is in order throughout a run.
use imads.Prelude.{ℕ, zero, suc, ◌+◌, Option, none, some, List, map}
use imads.Float.{Float}
use imads.Float.Libm.{Libm}
use imads.Types.{Phi}
use imads.Mesh.{AnisotropicMeshGeometry}
use imads.Config.{EngineConfig}
use imads.Executor.{Caches}
use imads.Engine.Store.Placed.{IsPlaced, empty-IsPlaced, push_all-IsPlaced}
use imads.Engine.State.{RunState, IsExecutor}
use imads.Engine.Search.{Scored, SearchPolicy, search_phase, found, candidate_of, enter}
use imads.Engine.Run.{Ending, ended, crashed, waiting, out_of_fuel}
use imads.Engine.Run.Orderly.{EndPlaced, turns-Placed}
use imads.Engine.Main.{
  Setup, IterState, enough, run_env, begin_iteration, end_iteration, finish, searched, from_start,
  iteration, iterations, run_with_evaluator,
}

module _ {F C D S Q : Type 0} where
  abbrev pub Placed : Ending (IterState F C D S Q) → Type 0
  Placed (ended it) = IsPlaced it.state.store
  Placed crashed = Unit
  Placed waiting = Unit
  Placed out_of_fuel = Unit

  abbrev SearchPlaced : Option (Q × RunState F C D S) → Type 0
  SearchPlaced none = Unit
  SearchPlaced (some (q, s)) = IsPlaced s.store

module _ {F C D S Q : Type 0} ⦃d : Float F⦄ ⦃e : Libm F⦄ where
  enter-Placed :
      (iter : ℕ) (s : RunState F C D S) (q : Q) (sorted : Option (List (Scored F)))
      → IsPlaced s.store
      → SearchPlaced (enter iter s q sorted)
  enter-Placed iter s q none placed = tt
  enter-Placed iter s q (some sorted) placed =
      push_all-IsPlaced s.store (map (candidate_of iter s) sorted) placed

  found-Placed :
      (iter : ℕ) (s : RunState F C D S) (r : Option (Q × List (Scored F)))
      → IsPlaced s.store
      → SearchPlaced (found iter s r)
  found-Placed iter s none placed = tt
  found-Placed iter s (some (q, scored)) placed = enter-Placed iter s q _ placed

  search_phase-Placed :
      (search : SearchPolicy F Q) (default_dim budget iter : ℕ) (geo : AnisotropicMeshGeometry F)
      (q : Q) (s : RunState F C D S)
      → IsPlaced s.store
      → SearchPlaced (search_phase search default_dim budget iter geo q s)
  unfolding search_phase
  search_phase-Placed search default_dim budget iter geo q s placed = found-Placed iter s _ placed

module _ {F C D S Q : Type 0} ⦃d : Float F⦄ ⦃e : Libm F⦄ (setup : Setup F C D S Q)
    (cfg : EngineConfig F) (executes : IsExecutor setup.bundle) where
  finish-Placed :
      (geo : AnisotropicMeshGeometry F) (q : Q) (r : Ending (RunState F C D S))
      → EndPlaced r
      → Placed (finish setup cfg geo q r)
  unfolding end_iteration
  finish-Placed geo q (ended s) h = h
  finish-Placed geo q crashed h = tt
  finish-Placed geo q waiting h = tt
  finish-Placed geo q out_of_fuel h = tt

  searched-Placed :
      (ladder : List Phi) (batch_size iter : ℕ) (geo : AnisotropicMeshGeometry F)
      (r : Option (Q × RunState F C D S))
      → SearchPlaced r
      → Placed (searched setup cfg ladder batch_size iter geo r)
  searched-Placed ladder batch_size iter geo none h = tt
  searched-Placed ladder batch_size iter geo (some (q, s)) h = finish-Placed geo q _ (
      turns-Placed setup.bundle (run_env setup cfg ladder geo iter batch_size) executes geo
        (enough s.steps_left) s h)

  iteration-Placed :
      (ladder : List Phi) (batch_size iter : ℕ) (it : IterState F C D S Q)
      → IsPlaced it.state.store
      → Placed (iteration setup cfg ladder batch_size iter it)
  unfolding iteration
  iteration-Placed ladder batch_size iter it placed =
      searched-Placed ladder batch_size iter it.geo _ (
        search_phase-Placed setup.policy _ cfg.candidates_per_iter iter it.geo it.search
          (begin_iteration setup cfg it.state) placed)

  iterations-Placed :
      (left : ℕ) (ladder : List Phi) (batch_size iter : ℕ) (it : IterState F C D S Q)
      → IsPlaced it.state.store
      → Placed (iterations setup cfg left ladder batch_size iter it)
  unfolding iterations
  iterations-Placed zero ladder batch_size iter it placed = placed
  iterations-Placed (suc left) ladder batch_size iter it placed =
      elim (iteration setup cfg ladder batch_size iter it)
          as (λ r.
            Placed r
            → Placed (elim r [
              | ended it' ↦ iterations setup cfg left ladder batch_size (iter + 1) it'
              | crashed ↦ crashed
              | waiting ↦ waiting
              | out_of_fuel ↦ out_of_fuel
            ])) [
              | ended it' ↦ λ h. iterations-Placed left ladder batch_size (iter + 1) it' h
              | crashed ↦ λ h. tt
              | waiting ↦ λ h. tt
              | out_of_fuel ↦ λ h. tt
            ]
        (iteration-Placed ladder batch_size iter it placed)

  from_start-Placed :
      (caches : Caches F) (dids : D) (scheduler : S) (q : Q) (c : Option C)
      (began : Option (List Phi × AnisotropicMeshGeometry F))
      → Placed (from_start setup cfg caches dids scheduler q c began)
  from_start-Placed caches dids scheduler q none began = tt
  from_start-Placed caches dids scheduler q (some c) none = tt
  from_start-Placed caches dids scheduler q (some c) (some (ladder, geo)) =
      iterations-Placed cfg.max_iters ladder _ 0 _ empty-IsPlaced

  -- When a run with any configuration, any search, ladder, scheduler, DIDS, margin, calibrator and
  -- audit policies, any evaluator and in-memory caches has ended, every id that the store's index
  -- knows leads to the place of the candidate with that id, though the candidates were added and
  -- rewritten all along. The executor is any that gives, of a batch that returns, as many
  -- outcomes as there are items, each of one of them; with the same items it may give something else
  -- each time.
  pub run_with_evaluator-Placed :
      (caches : Caches F) (calibrator : C) (dids : D) (scheduler : S) (q : Q)
      → Placed (run_with_evaluator setup cfg caches calibrator dids scheduler q)
  unfolding run_with_evaluator
  run_with_evaluator-Placed caches calibrator dids scheduler q = from_start-Placed caches _ _ q _ _
