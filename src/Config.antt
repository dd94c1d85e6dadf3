-- ===== src/Config.antt =====
-- imads-core/src/core/engine.rs: `EngineConfig` and its validation.
pub mod Validation
use imads.Prelude.{
  ℕ, Bool, true, false, not, ◌&&◌, ◌⊎◌, inl, inr, Option, none, some, List, [], ◌∷◌, ◌++◌, ltb, leb,
  ◌==◌, if◌then◌else◌,
}
use Prim.Native.Nat.{max}
use imads.Prelude.Int.{ℤ, pos, ltb_ℤ}
use imads.Prelude.I64.{max_ℤ}
use imads.Float.{Float}
use imads.Types.{Tau, Smc}

pub record EngineConfig (F : Type 0) : Type 0 where
  pub tau_levels : List Tau
  pub smc_levels : List Smc
  pub mesh_base_step : F
  pub mesh_base_steps : Option (List F)
  pub mesh_mul_init : ℤ
  pub mesh_mul_min : ℤ
  pub mesh_refine_div : ℤ
  pub poll_step_mult : ℤ
  pub max_iters : ℕ
  pub candidates_per_iter : ℕ
  pub search_dim : Option ℕ
  pub max_steps_per_iter : Option ℕ
  pub num_constraints : ℕ
  pub accept_h0 : F
  pub accept_h_min : F
  pub accept_h_shrink : F
  pub accept_eps_f : F
  pub accept_eps_v : F
  pub accept_filter_cap : ℕ
  pub calibrator_target_false : F
  pub calibrator_min_audits : ℕ
  pub calibrator_eta_delta : F
  pub calibrator_delta_min : F
  pub calibrator_delta_max : F
  pub calibrator_k_window : ℕ
  pub calibrator_k_min_pairs : ℕ
  pub calibrator_k_quantile : F
  pub calibrator_k_eta : F
  pub objective_prune_min_smc_rank : ℕ
  pub objective_prune_min_level : ℕ
  pub objective_prune_require_back_half : Bool
  pub objective_prune_disable_for_audit : Bool
  pub batch_boundary : Option ℕ
  pub executor_chunk_base : ℕ
  pub executor_chunk_min : ℕ
  pub executor_chunk_max : ℕ
  pub executor_spin_limit : ℕ
  pub executor_chunk_auto_tune : Bool

-- The flags of the bit set.
pub data ConfigError : Type 0 where
  calibrator_target_false calibrator_min_audits calibrator_eta_delta : ConfigError
  calibrator_delta_range calibrator_k_window calibrator_k_min_pairs : ConfigError
  calibrator_k_quantile calibrator_k_eta accept_h0 accept_h_min : ConfigError
  accept_h_shrink accept_eps_f accept_eps_v mesh_base_step mesh_mul_init : ConfigError
  mesh_mul_min mesh_refine_div poll_step_mult executor_chunk_base_range : ConfigError
  search_dim objective_prune_min_smc_rank objective_prune_min_level : ConfigError

-- `if !ok { err |= flags }`; the bit set is the list of the flags in the order in which they are
-- set, `err` those that follow.
unfoldable pub unless_ok : Bool → List ConfigError → List ConfigError → List ConfigError
unless_ok ok flags err = if ok then err else flags ++ err

-- `search_dim == Some(0)`
abbrev pub is_zero_dim : Option ℕ → Bool
is_zero_dim none = false
is_zero_dim (some n) = n == 0

module _ {F : Type 0} ⦃d : Float F⦄ where
  open d use {nought, one, is_finite, le, lt}

  -- `(0.0..=1.0).contains(&x)`
  abbrev pub in_unit : F → Bool
  in_unit x = le nought x && le x one

  abbrev calibrator_errors : EngineConfig F → List ConfigError → List ConfigError
  calibrator_errors cfg rest =
      unless_ok (in_unit cfg.calibrator_target_false) (calibrator_target_false ∷ []) (
        unless_ok (not (ltb cfg.calibrator_min_audits 1)) (calibrator_min_audits ∷ []) (
          unless_ok (is_finite cfg.calibrator_eta_delta && lt nought cfg.calibrator_eta_delta)
            (calibrator_eta_delta ∷ [])
            (unless_ok
              (is_finite cfg.calibrator_delta_min
                && is_finite cfg.calibrator_delta_max
                && le nought cfg.calibrator_delta_min
                && le cfg.calibrator_delta_min cfg.calibrator_delta_max)
              (calibrator_delta_range ∷ [])
              (unless_ok (not (ltb cfg.calibrator_k_window 1)) (calibrator_k_window ∷ []) (
                unless_ok
                  (leb 1 cfg.calibrator_k_min_pairs
                    && leb cfg.calibrator_k_min_pairs (max cfg.calibrator_k_window 1))
                  (calibrator_k_min_pairs ∷ [])
                  (unless_ok
                    (is_finite cfg.calibrator_k_quantile && in_unit cfg.calibrator_k_quantile)
                    (calibrator_k_quantile ∷ [])
                    (unless_ok (is_finite cfg.calibrator_k_eta && lt nought cfg.calibrator_k_eta)
                      (calibrator_k_eta ∷ []) rest)))))))

  abbrev policy_errors : EngineConfig F → List ConfigError → List ConfigError
  policy_errors cfg rest =
      unless_ok (not (ltb cfg.objective_prune_min_smc_rank 1)) (objective_prune_min_smc_rank ∷ []) (
        unless_ok (not (ltb cfg.objective_prune_min_level 1)) (objective_prune_min_level ∷ []) (
          unless_ok (le nought cfg.accept_h0) (accept_h0 ∷ []) (
            unless_ok (le nought cfg.accept_h_min) (accept_h_min ∷ []) (
              unless_ok (le cfg.accept_h_min cfg.accept_h0) (accept_h0 ∷ accept_h_min ∷ []) (
                unless_ok (in_unit cfg.accept_h_shrink) (accept_h_shrink ∷ []) (
                  unless_ok (le nought cfg.accept_eps_f) (accept_eps_f ∷ [])
                    (unless_ok (le nought cfg.accept_eps_v) (accept_eps_v ∷ []) rest)))))))

  abbrev mesh_errors : EngineConfig F → List ConfigError → List ConfigError
  mesh_errors cfg rest =
      unless_ok (is_finite cfg.mesh_base_step && lt nought cfg.mesh_base_step) (mesh_base_step ∷ [])
        (unless_ok (not (ltb_ℤ cfg.mesh_mul_min (pos 1))) (mesh_mul_min ∷ []) (
          unless_ok (not (ltb_ℤ cfg.mesh_mul_init (max_ℤ cfg.mesh_mul_min (pos 1))))
            (mesh_mul_init ∷ [])
            (unless_ok (not (ltb_ℤ cfg.mesh_refine_div (pos 2))) (mesh_refine_div ∷ [])
              (unless_ok (not (ltb_ℤ cfg.poll_step_mult (pos 1))) (poll_step_mult ∷ []) rest))))

  abbrev executor_errors : EngineConfig F → List ConfigError
  executor_errors cfg = unless_ok (not (is_zero_dim cfg.search_dim)) (search_dim ∷ []) (
      unless_ok
        (leb cfg.executor_chunk_min cfg.executor_chunk_base
          && leb cfg.executor_chunk_base cfg.executor_chunk_max)
        (executor_chunk_base_range ∷ []) [])

  unfoldable pub config_errors : EngineConfig F → List ConfigError
  config_errors cfg =
      calibrator_errors cfg (policy_errors cfg (mesh_errors cfg (executor_errors cfg)))

  -- The arguments are the fields of `cfg` but for `mesh_base_steps`, which is set to `None`.
  unfoldable pub EngineConfig_new : EngineConfig F → EngineConfig F ⊎ List ConfigError
  EngineConfig_new cfg =
      let errors = config_errors cfg in
      elim errors [ [] ↦ inl (record cfg { mesh_base_steps = none }) | e ∷ es ↦ inr (e ∷ es) ]
