-- ===== src/Engine/Defaults.antt =====
-- The default policy bundle on one worker: the calibrator with K, DIDS, the scheduler, and the
-- executor, which is inline for at most one worker.
use Prim.Native.Nat.{max}
use imads.Prelude.{
  ℕ, suc, ◌≡◌, refl, sym, ap, some, List, [], ◌∷◌, length, All, All-map, Any, here, there, arith,
}
use imads.Float.{Float}
use imads.Float.Libm.{Libm}
use imads.Types.{WorkItem}
use imads.Calibrator.{thresholds}
use imads.Calibrator.Samples.{DeltaKCalibrator}
use imads.Calibrator.DeltaK.{
  DeltaKCalibrator_init, DeltaKCalibrator_configure, DeltaKCalibrator_update,
}
use imads.Dids.{DefaultDids, DefaultDids_init, record_result, update_assignment}
use imads.Executor.{ExecCtx, Caches, execute_one, evaluate, run_batch}
use imads.Engine.Candidate.{Policies}
use imads.Engine.Ready.{select_next}
use imads.Engine.State.{Bundle, IsExecutor, AlwaysReturns}

module _ {F : Type 0} ⦃d : Float F⦄ ⦃e : Libm F⦄ where
  -- The scheduler's state is its number of workers.
  abbrev pub default_bundle : Policies F → Bundle F (DeltaKCalibrator F) (DefaultDids F) ℕ
  default_bundle policies = record {
    policies = policies;
    thresholds = thresholds;
    calib_init = DeltaKCalibrator_init;
    calib_configure = DeltaKCalibrator_configure;
    calib_state = λ cal. cal.state;
    calib_update = DeltaKCalibrator_update;
    dids_init = λ dids m. DefaultDids_init m;
    dids_record = record_result;
    dids_update = update_assignment;
    scheduler_configure = λ old workers. max workers 1;
    batch_size = λ workers. max workers 1;
    next_picks = λ workers view. (workers, select_next workers view);
    on_complete = λ workers id result. workers;
    execute = λ batch_no chunk_base ctx caches items. some (run_batch ctx caches items);
  }

module _ {F : Type 0} ⦃d : Float F⦄ (ctx : ExecCtx F) where
  length-run_batch :
      (items : List WorkItem) (caches : Caches F)
      → length (run_batch ctx caches items).0 ≡ length items
  unfolding run_batch
  length-run_batch [] caches = refl
  length-run_batch (wi ∷ items) caches = ap suc (length-run_batch items _)

  execute_one-item : (caches : Caches F) (wi : WorkItem) → (execute_one ctx caches wi).0.item ≡ wi
  unfolding execute_one evaluate
  execute_one-item caches wi = ground arith

  run_batch-items :
      (items : List WorkItem) (caches : Caches F)
      → All (λ out. Any (λ wi. wi ≡ out.item) items) (run_batch ctx caches items).0
  unfolding run_batch
  run_batch-items [] caches = tt
  run_batch-items (wi ∷ items) caches =
      let (out, caches') = execute_one ctx caches wi in
      (
        here (sym (execute_one-item caches wi)),
        All-map (λ o a. there a) _ (run_batch-items items caches'),
      )

module _ {F : Type 0} ⦃d : Float F⦄ ⦃e : Libm F⦄ (policies : Policies F) where
  -- The inline executor keeps the executor's contract.
  pub default_bundle-IsExecutor : IsExecutor (default_bundle policies)
  default_bundle-IsExecutor batch_no chunk_base ctx caches items =
      (length-run_batch ctx items caches, run_batch-items ctx items caches)

  pub default_bundle-AlwaysReturns : AlwaysReturns (default_bundle policies)
  default_bundle-AlwaysReturns batch_no chunk_base ctx caches items h = cc
