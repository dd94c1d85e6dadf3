-- ===== src/Engine/Main/Tests.antt =====
-- The theorems on a run at a concrete run with the default policies.
use imads.Prelude.{
  false, sort_by, insert_by, ℕ, arith, ◌≡◌, refl, length, ◌+◌, true, some, List, [], ◌∷◌, replicate,
}
use imads.Prelude.Int.{pos}
use imads.Float.Fixed.{Fixed-IsIeee, Fixed, fixed_float, fixed_libm, milli}
use imads.Calibrator.{init_state}
use imads.Engine.Dispatch.{dispatch}
use imads.Calibrator.Samples.{DeltaKCalibrator}
use imads.Dids.{DefaultDids, DefaultDids_init}
use imads.Engine.Examples.{num, config, policies, no_caches, item, estimates, thresholds, ladder}
use imads.Cache.{get, put}
use imads.Engine.Store.{find, new_candidate, push_new, push_all}
use imads.Engine.Store.Placed.{empty-IsPlaced, push_all-IsPlaced}
use imads.Engine.State.{RunEnv, RunState}
use imads.Engine.Batches.{by_candidate, counted}
use imads.Engine.Tuning.{InChunks, first_chunk, tune_chunk, tune_chunk-InChunks}
use imads.Engine.Ready.{ReadyCandidateView, kind_new, sort_scored}
use imads.Engine.Ready.Order.{Picks, select_next-Picks}
use imads.Engine.Search.{SearchPolicy}
use imads.Engine.Run.{Halts, send_all, send_picked, exec_ctx, execute_picked}
use imads.Engine.Run.Found.{AllFound}
use imads.Engine.Run.Orderly.{execute_picked-AllFound}
use imads.Engine.Defaults.{default_bundle, default_bundle-IsExecutor, default_bundle-AlwaysReturns}
use imads.Types.{WorkItem, WorkOutcome}
use imads.Config.{EngineConfig}
use imads.Float.{fmax}
use imads.Executor.{computed, run_batch}
use imads.Ladder.{build_ladder}
use imads.Engine.Main.{Setup, first_state, run_env, run_with_evaluator}
use imads.Engine.Main.Halting.{run_with_evaluator-Halts}
use imads.Engine.Main.Orderly.{Placed, run_with_evaluator-Placed}

-- Two proposals in each iteration, scored by their coordinate.
abbrev search : SearchPolicy Fixed ℕ
search = record {
  set_context = λ q ctx. q;
  propose = λ q iter budget. (
    q + 2,
    record { id = q; x = num (q + 3) ∷ [] } ∷ record { id = q + 1; x = num (20 + q) ∷ [] } ∷ [],
  );
  score = λ q raw hint. (q, num raw.id);
}

abbrev calibrator : DeltaKCalibrator Fixed
calibrator = record {
  state = init_state 1;
  counts = [];
  pending = [];
  k_samples_f = [];
  k_samples_c = [];
  k_phi_samples_f = [];
  k_phi_samples_c = [];
  k_interval_samples_f = [];
  k_interval_samples_c = [];
  k_window = 100;
  k_min_pairs = 25;
  k_quantile = milli (pos 900);
  k_eta = milli (pos 200);
}

abbrev setup : Setup Fixed (DeltaKCalibrator Fixed) (DefaultDids Fixed) ℕ ℕ
setup = record {
  bundle = default_bundle policies;
  policy = search;
  build_ladder = build_ladder;
  evaluator_dim = some 1;
  env_rev_with_steps = λ steps. 7;
  reset = λ q. 0;
  workers = 1;
}

run_with_evaluator-Halts_example :
    Halts (run_with_evaluator setup config no_caches calibrator (DefaultDids_init 1) 0 0)
run_with_evaluator-Halts_example =
    run_with_evaluator-Halts setup config (default_bundle-IsExecutor policies)
      (default_bundle-AlwaysReturns policies) no_caches calibrator (DefaultDids_init 1) 0 0

run_with_evaluator-Placed_example :
    Placed (run_with_evaluator setup config no_caches calibrator (DefaultDids_init 1) 0 0)
run_with_evaluator-Placed_example =
    run_with_evaluator-Placed setup config (default_bundle-IsExecutor policies) no_caches calibrator
      (DefaultDids_init 1) 0 0

abbrev start_state : RunState Fixed (DeltaKCalibrator Fixed) (DefaultDids Fixed) ℕ
start_state = first_state setup config 3 no_caches calibrator (DefaultDids_init 1) 1

-- A round with two candidates in the store.
abbrev stocked : RunState Fixed (DeltaKCalibrator Fixed) (DefaultDids Fixed) ℕ
stocked = record start_state {
  store = push_all start_state.store (
      new_candidate 4 (pos 7 ∷ []) (num 0) 0 0 0 ∷ new_candidate 2 (pos 3 ∷ []) (num 1) 0 0 0 ∷ []);
  steps_left = 5;
}

abbrev pair_env : RunEnv Fixed
pair_env =
    run_env setup config ladder
      (record {
        base_steps = num 1 ∷ [];
        mesh_muls = pos 8 ∷ [];
        mesh_mul_min = pos 1;
        refine_div = pos 2;
        poll_step_mult = pos 1;
      })
      0 2

-- The candidates 4 and 2 are sent: the boundary of this round is two.
abbrev batch :
    RunState Fixed (DeltaKCalibrator Fixed) (DefaultDids Fixed) ℕ
    × List WorkItem
    × List (WorkOutcome Fixed)
batch =
    let (store, work) = send_picked pair_env stocked (4 ∷ 2 ∷ []) in
    let (outcomes, caches) =
      run_batch (exec_ctx (default_bundle policies) pair_env) stocked.caches work in
    (record stocked { store = store; caches = caches; batch_no = 1 }, work, outcomes)

execute_picked-batch :
    execute_picked (default_bundle policies) pair_env stocked (4 ∷ 2 ∷ []) ≡ some batch
unfolding execute_picked
execute_picked-batch = refl

execute_picked-AllFound_example :
    AllFound
      (default_bundle policies)
      pair_env
      thresholds
      (counted pair_env batch.0 (by_candidate batch.2))
      (by_candidate batch.2)
execute_picked-AllFound_example =
    execute_picked-AllFound (default_bundle policies) pair_env (default_bundle-IsExecutor policies)
      stocked (4 ∷ 2 ∷ []) (push_all-IsPlaced start_state.store _ empty-IsPlaced) thresholds batch.0
      batch.1 batch.2 execute_picked-batch

both_sent : length batch.2 ≡ 2
unfolding send_all run_batch dispatch find get push_all push_new put
both_sent = refl

abbrev tuned : EngineConfig Fixed
tuned = record config { executor_chunk_auto_tune = true }

-- Four outcomes that cost the same: the size is doubled.
abbrev even : List (WorkOutcome Fixed)
even = replicate 4 (computed item estimates)

tune_chunk-InChunks_example :
    InChunks tuned (first_chunk tuned) × InChunks tuned (tune_chunk tuned even 32)
tune_chunk-InChunks_example = tune_chunk-InChunks tuned even 32 (omega arith, omega arith)

doubles : tune_chunk tuned even 32 ≡ 64
unfolding tune_chunk fmax
doubles = refl

abbrev ready_at : ℕ → ℕ → ReadyCandidateView Fixed
ready_at id score = record {
  id = id;
  kind = kind_new;
  x = pos 3 ∷ [];
  next_phi_idx = 0;
  score = num score;
  audit_required = false;
}

abbrev view : List (ReadyCandidateView Fixed)
view = ready_at 5 2 ∷ ready_at 9 1 ∷ ready_at 3 2 ∷ []

abbrev in_order : List (ReadyCandidateView Fixed)
in_order = ready_at 9 1 ∷ ready_at 3 2 ∷ ready_at 5 2 ∷ []

sorts : sort_scored (λ v. v.score) (λ v. v.id) view ≡ some in_order
unfolding sort_scored sort_by insert_by
sorts = refl

select_next-Picks_example : Picks Fixed-IsIeee 2 view in_order
select_next-Picks_example = select_next-Picks Fixed-IsIeee 2 view in_order sorts
