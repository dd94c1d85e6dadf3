-- ===== src/Engine/Main.antt =====
-- `Engine::run_with_evaluator`: the iterations, from the configuration to the output.
pub mod Halting
pub mod Orderly
pub mod Tests
use Prim.Native.Nat.{max}
use imads.Prelude.{
  ℕ, zero, suc, ◌+◌, ◌-◌, ◌^◌, Bool, true, false, not, ◌&&◌, Option, none, some, List, [], ◌∷◌,
  length, if◌then◌else◌,
}
use imads.Float.{Float}
use imads.Float.Libm.{Libm}
use imads.Types.{XMesh, Tau, Smc, Phi}
use imads.Acceptance.{AcceptanceConfig, AcceptanceState_new, on_iteration_end}
use imads.Mesh.{AnisotropicMeshGeometry, refine_aniso}
use imads.Config.{EngineConfig}
use imads.Executor.{Caches}
use imads.Calibrator.{CalibratorConfig}
use imads.Engine.Candidate.{EngineStats}
use imads.Engine.Start.{resolved_dim, start_from}
use imads.Engine.Tuning.{first_chunk}
use imads.Engine.State.{Bundle, RunEnv, RunState}
use imads.Engine.Search.{SearchPolicy, search_phase}
use imads.Engine.Run.{Ending, ended, crashed, waiting, out_of_fuel, turns}

-- `unwrap_or(usize::MAX)`
abbrev pub steps_per_iter : Option ℕ → ℕ
steps_per_iter none = 2 ^ 64 - 1
steps_per_iter (some n) = n

-- The fuel of an iteration's rounds: each of them but the last uses a step or injects the poll
-- points.
abbrev pub enough : ℕ → ℕ
enough steps = steps + 2

-- The size of a batch: the configured one, or the scheduler's.
abbrev pub batch_boundary : Option ℕ → ℕ → ℕ
batch_boundary none batch_size = max batch_size 1
batch_boundary (some n) batch_size = max n 1

abbrev no_stats : EngineStats
no_stats = record {
  truth_evals = 0;
  truth_decision_cache_hits = 0;
  truth_eval_cache_hits = 0;
  partial_steps = 0;
  partial_decision_cache_hits = 0;
  partial_eval_cache_hits = 0;
  cheap_rejects = 0;
  invalid_eval_rejects = 0;
}

-- What an iteration passes to the next one.
pub record IterState (F C D S Q : Type 0) : Type 0 where
  pub state : RunState F C D S
  pub search : Q
  pub geo : AnisotropicMeshGeometry F

-- The arguments and the policies of a run.
pub record Setup (F C D S Q : Type 0) : Type 0 where
  pub bundle : Bundle F C D S
  pub policy : SearchPolicy F Q
  -- the ladder policy; `none` is a panic
  pub build_ladder : List Tau → List Smc → Option (List Phi)
  -- `evaluator.search_dim()`
  pub evaluator_dim : Option ℕ
  -- `env_rev_with_steps` for the environment of the run
  pub env_rev_with_steps : List F → ℕ
  -- `search.reset` for the environment of the run
  pub reset : Q → Q
  pub workers : ℕ

module _ {F : Type 0} where
  abbrev pub acceptance_config : EngineConfig F → AcceptanceConfig F
  acceptance_config cfg = record {
    h0 = cfg.accept_h0;
    h_min = cfg.accept_h_min;
    h_shrink = cfg.accept_h_shrink;
    eps_f = cfg.accept_eps_f;
    eps_v = cfg.accept_eps_v;
    filter_cap = cfg.accept_filter_cap;
  }

  abbrev pub calibrator_config : EngineConfig F → CalibratorConfig F
  calibrator_config cfg = record {
    target_false = cfg.calibrator_target_false;
    min_audits = cfg.calibrator_min_audits;
    eta_delta = cfg.calibrator_eta_delta;
    delta_min = cfg.calibrator_delta_min;
    delta_max = cfg.calibrator_delta_max;
    k_window = cfg.calibrator_k_window;
    k_min_pairs = cfg.calibrator_k_min_pairs;
    k_quantile = cfg.calibrator_k_quantile;
    k_eta = cfg.calibrator_k_eta;
  }

module _ {F C D S Q : Type 0} ⦃d : Float F⦄ ⦃e : Libm F⦄ (setup : Setup F C D S Q)
    (cfg : EngineConfig F) where
  abbrev pub run_env : List Phi → AnisotropicMeshGeometry F → ℕ → ℕ → RunEnv F
  run_env ladder geo iter batch_size = record {
    cfg = cfg;
    accept_cfg = acceptance_config cfg;
    base_steps = geo.base_steps;
    ladder = ladder;
    env_rev = setup.env_rev_with_steps geo.base_steps;
    boundary = batch_boundary cfg.batch_boundary batch_size;
    iter = iter;
  }

  -- The state after the policies' start; the revision is the calibrator's.
  abbrev pub first_state : ℕ → Caches F → C → D → S → RunState F C D S
  first_state ladder_len caches calibrator dids scheduler =
      let state = setup.bundle.calib_state calibrator in
      let (dids', assignment, _) = setup.bundle.dids_update dids ladder_len state in
      record {
        store = record { cands = []; index = [] };
        caches = caches;
        stats = no_stats;
        accept = AcceptanceState_new (acceptance_config cfg);
        x_best = none;
        f_best = none;
        incumbent_id = 0;
        policy_rev = state.policy_rev;
        assignment = assignment;
        calibrator = calibrator;
        dids = dids';
        scheduler = scheduler;
        chunk_base = first_chunk cfg;
        batch_no = 0;
        iter_improved = false;
        poll_generated = false;
        steps_left = 0;
      }

  abbrev pub begin_iteration : RunState F C D S → RunState F C D S
  begin_iteration s = record s {
    iter_improved = false;
    poll_generated = false;
    steps_left = steps_per_iter cfg.max_steps_per_iter;
  }

  -- The barrier's schedule, and the mesh is refined where the poll was tried and failed.
  unfoldable pub end_iteration :
      AnisotropicMeshGeometry F → Q → RunState F C D S → IterState F C D S Q
  end_iteration geo q s = record {
    state = record s {
      accept = on_iteration_end (acceptance_config cfg) s.accept s.poll_generated s.iter_improved;
    };
    search = q;
    geo = if not s.iter_improved && s.poll_generated then refine_aniso geo else geo;
  }

  abbrev pub finish :
      AnisotropicMeshGeometry F → Q → Ending (RunState F C D S) → Ending (IterState F C D S Q)
  finish geo q (ended s) = ended (end_iteration geo q s)
  finish geo q crashed = crashed
  finish geo q waiting = waiting
  finish geo q out_of_fuel = out_of_fuel

  -- The rounds of an iteration after its search.
  abbrev pub searched :
      List Phi
      → ℕ
      → ℕ
      → AnisotropicMeshGeometry F
      → Option (Q × RunState F C D S)
      → Ending (IterState F C D S Q)
  searched ladder batch_size iter geo none = crashed
  searched ladder batch_size iter geo (some (q, s)) =
      finish geo q
        (turns (enough s.steps_left) setup.bundle (run_env ladder geo iter batch_size) geo s)

  unfoldable pub iteration : List Phi → ℕ → ℕ → IterState F C D S Q → Ending (IterState F C D S Q)
  iteration ladder batch_size iter it =
      let default_dim = resolved_dim cfg.search_dim setup.evaluator_dim in
      searched ladder batch_size iter it.geo (
        search_phase setup.policy default_dim cfg.candidates_per_iter iter it.geo it.search
          (begin_iteration it.state))

  -- The iterations from `iter` on, `left` of them; the size of a batch is the scheduler's at the start.
  unfoldable pub iterations :
      ℕ → List Phi → ℕ → ℕ → IterState F C D S Q → Ending (IterState F C D S Q)
  iterations zero ladder batch_size iter it = ended it
  iterations (suc left) ladder batch_size iter it = elim (iteration ladder batch_size iter it) [
    | ended it' ↦ iterations left ladder batch_size (iter + 1) it'
    | crashed ↦ crashed
    | waiting ↦ waiting
    | out_of_fuel ↦ out_of_fuel
  ]

  abbrev pub first_iteration :
      Caches F → C → D → S → Q → List Phi → AnisotropicMeshGeometry F → IterState F C D S Q
  first_iteration caches calibrator dids scheduler q ladder geo = record {
    state = first_state (length ladder) caches calibrator dids scheduler;
    search = setup.reset q;
    geo = geo;
  }

  -- The iterations with configured policies, from the start.
  abbrev pub from_start :
      Caches F
      → D
      → S
      → Q
      → Option C
      → Option (List Phi × AnisotropicMeshGeometry F)
      → Ending (IterState F C D S Q)
  from_start caches dids scheduler q none began = crashed
  from_start caches dids scheduler q (some c) none = crashed
  from_start caches dids scheduler q (some c) (some (ladder, geo)) =
      iterations cfg.max_iters ladder (setup.bundle.batch_size scheduler) 0
        (first_iteration caches c dids scheduler q ladder geo)

  -- A run with the engine's caches and policies as they are before it.
  unfoldable pub run_with_evaluator : Caches F → C → D → S → Q → Ending (IterState F C D S Q)
  run_with_evaluator caches calibrator dids scheduler q =
      let c = setup.bundle.calib_init calibrator cfg.num_constraints in
      from_start caches (setup.bundle.dids_init dids cfg.num_constraints)
        (setup.bundle.scheduler_configure scheduler setup.workers) q
        (setup.bundle.calib_configure c (calibrator_config cfg))
        (start_from setup.build_ladder cfg setup.evaluator_dim)
