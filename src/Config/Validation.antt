-- ===== src/Config/Validation.antt =====
-- What `EngineConfig::new` accepts: the ranges of the configuration, component by component.
use imads.Prelude.{
  ℕ, ◌≤◌, suc, zero, subst, ◌≡◌, refl, sym, ◌∙◌, ◌↔◌, ◌≢◌, ◌⊎◌, inl, inr, Bool, true, not, Option,
  none, some, List, [], ◌∷◌, arith,
}
use mathlib.Core.Option.{none-ne-some}
use mathlib.Core.List.{cons≢nil}
use imads.Prelude.Int.{ℤ, pos, ◌≤ℤ◌, ltb_ℤ}
use imads.Prelude.I64.{max_ℤ}
use imads.Float.{Float, ◌≼◌}
use imads.Config.{
  EngineConfig, ConfigError, unless_ok, is_zero_dim, calibrator_errors, policy_errors, mesh_errors,
  executor_errors, config_errors, EngineConfig_new,
}

unless_ok-nil :
    (ok : Bool) (e : ConfigError) (es rest : List ConfigError)
    → (unless_ok ok (e ∷ es) rest ≡ []) ↔ ((ok ≡ true) × (rest ≡ []))
unfolding unless_ok
unless_ok-nil ok e es rest = ground arith

passes :
    {ok : Bool} (e : ConfigError) (es : List ConfigError) {rest : List ConfigError}
    → ok ≡ true
    → rest ≡ []
    → unless_ok ok (e ∷ es) rest ≡ []
passes e es h k = (unless_ok-nil _ e es _).1 (h, k)

not-ltb_ℤ_iff : (a b : ℤ) → (not (ltb_ℤ a b) ≡ true) ↔ (b ≤ℤ a)
not-ltb_ℤ_iff a b = (λ h. ground arith, λ h. ground arith)

max_ℤ_one : (a : ℤ) → pos 1 ≤ℤ a → max_ℤ a (pos 1) ≡ a
unfolding max_ℤ
max_ℤ_one a h = ground arith

is_zero_dim_iff : (o : Option ℕ) → (not (is_zero_dim o) ≡ true) ↔ (o ≢ some 0)
is_zero_dim_iff none = (λ h e. absurd (none-ne-some _ e), λ h. refl)
is_zero_dim_iff (some zero) = (λ h. ground arith, λ h. absurd (h refl))
is_zero_dim_iff (some (suc n)) = (λ h e. ground arith, λ h. ground arith)

List-cases {ℓ} : {A : Type ℓ} (xs : List A) → (xs ≡ []) ⊎ ((y : A) × (ys : List A) × (xs ≡ y ∷ ys))
List-cases [] = inl refl
List-cases (y ∷ ys) = inr (y, ys, refl)

module _ {F : Type 0} ⦃d : Float F⦄ where
  open d use {nought, one, is_finite, lt}

  abbrev pub InUnit : F → Type 0
  InUnit x = (nought ≼ x) × (x ≼ one)

  abbrev pub IsPositive : F → Type 0
  IsPositive x = (is_finite x ≡ true) × (lt nought x ≡ true)

  pub record CalibratorIsValid (cfg : EngineConfig F) : Type 0 where
    pub target_false : InUnit cfg.calibrator_target_false
    pub min_audits : 1 ≤ cfg.calibrator_min_audits
    pub eta_delta : IsPositive cfg.calibrator_eta_delta
    pub delta_finite :
        (is_finite cfg.calibrator_delta_min ≡ true) × (is_finite cfg.calibrator_delta_max ≡ true)
    pub delta_range :
        (nought ≼ cfg.calibrator_delta_min) × (cfg.calibrator_delta_min ≼ cfg.calibrator_delta_max)
    pub k_pairs :
        (1 ≤ cfg.calibrator_k_min_pairs) × (cfg.calibrator_k_min_pairs ≤ cfg.calibrator_k_window)
    pub k_quantile : (is_finite cfg.calibrator_k_quantile ≡ true) × InUnit cfg.calibrator_k_quantile
    pub k_eta : IsPositive cfg.calibrator_k_eta

  pub record PolicyIsValid (cfg : EngineConfig F) : Type 0 where
    pub prune : (1 ≤ cfg.objective_prune_min_smc_rank) × (1 ≤ cfg.objective_prune_min_level)
    pub h0 : nought ≼ cfg.accept_h0
    pub h_min : (nought ≼ cfg.accept_h_min) × (cfg.accept_h_min ≼ cfg.accept_h0)
    pub h_shrink : InUnit cfg.accept_h_shrink
    pub eps : (nought ≼ cfg.accept_eps_f) × (nought ≼ cfg.accept_eps_v)

  pub record MeshIsValid (cfg : EngineConfig F) : Type 0 where
    pub base_step : IsPositive cfg.mesh_base_step
    pub mul_min : pos 1 ≤ℤ cfg.mesh_mul_min
    pub mul_init : cfg.mesh_mul_min ≤ℤ cfg.mesh_mul_init
    pub refine_div : pos 2 ≤ℤ cfg.mesh_refine_div
    pub poll_mult : pos 1 ≤ℤ cfg.poll_step_mult

  pub record ExecutorIsValid (cfg : EngineConfig F) : Type 0 where
    pub dim : cfg.search_dim ≢ some 0
    pub chunk :
        (cfg.executor_chunk_min ≤ cfg.executor_chunk_base)
        × (cfg.executor_chunk_base ≤ cfg.executor_chunk_max)

  pub record IsValid (cfg : EngineConfig F) : Type 0 where
    pub calibrator : CalibratorIsValid cfg
    pub policy : PolicyIsValid cfg
    pub mesh : MeshIsValid cfg
    pub executor : ExecutorIsValid cfg

  module _ (cfg : EngineConfig F) (rest : List ConfigError) where
    calibrator_iff : (calibrator_errors cfg rest ≡ []) ↔ (CalibratorIsValid cfg × (rest ≡ []))
    calibrator_iff = (
      (λ h.
          let (a1, h1) = (unless_ok-nil _ _ _ _).0 h in
          let (a2, h2) = (unless_ok-nil _ _ _ _).0 h1 in
          let (a3, h3) = (unless_ok-nil _ _ _ _).0 h2 in
          let (a4, h4) = (unless_ok-nil _ _ _ _).0 h3 in
          let (a5, h5) = (unless_ok-nil _ _ _ _).0 h4 in
          let (a6, h6) = (unless_ok-nil _ _ _ _).0 h5 in
          let (a7, h7) = (unless_ok-nil _ _ _ _).0 h6 in
          let (a8, h8) = (unless_ok-nil _ _ _ _).0 h7 in
          (
            record {
              target_false = ground arith;
              min_audits = ground arith;
              eta_delta = ground arith;
              delta_finite = ground arith;
              delta_range = ground arith;
              k_pairs = ground arith;
              k_quantile = ground arith;
              k_eta = ground arith;
            },
            h8,
          )),
      (λ (v, h). passes _ _ (ground arith) (
          passes _ _ (ground arith) (
            passes _ _ (ground arith) (
              passes _ _ (ground arith) (
                passes _ _ (ground arith) (
                  passes _ _ (ground arith)
                    (passes _ _ (ground arith) (passes _ _ (ground arith) h)))))))),
    )

    policy_iff : (policy_errors cfg rest ≡ []) ↔ (PolicyIsValid cfg × (rest ≡ []))
    policy_iff = (
      (λ h.
          let (a1, h1) = (unless_ok-nil _ _ _ _).0 h in
          let (a2, h2) = (unless_ok-nil _ _ _ _).0 h1 in
          let (a3, h3) = (unless_ok-nil _ _ _ _).0 h2 in
          let (a4, h4) = (unless_ok-nil _ _ _ _).0 h3 in
          let (a5, h5) = (unless_ok-nil _ _ _ _).0 h4 in
          let (a6, h6) = (unless_ok-nil _ _ _ _).0 h5 in
          let (a7, h7) = (unless_ok-nil _ _ _ _).0 h6 in
          let (a8, h8) = (unless_ok-nil _ _ _ _).0 h7 in
          (
            record {
              prune = ground arith;
              h0 = ground arith;
              h_min = ground arith;
              h_shrink = ground arith;
              eps = ground arith;
            },
            h8,
          )),
      (λ (v, h). passes _ _ (ground arith) (
          passes _ _ (ground arith) (
            passes _ _ (ground arith) (
              passes _ _ (ground arith) (
                passes _ _ (ground arith) (
                  passes _ _ (ground arith)
                    (passes _ _ (ground arith) (passes _ _ (ground arith) h)))))))),
    )

    mesh_iff : (mesh_errors cfg rest ≡ []) ↔ (MeshIsValid cfg × (rest ≡ []))
    mesh_iff = (
      (λ h.
          let (a1, h1) = (unless_ok-nil _ _ _ _).0 h in
          let (a2, h2) = (unless_ok-nil _ _ _ _).0 h1 in
          let (a3, h3) = (unless_ok-nil _ _ _ _).0 h2 in
          let (a4, h4) = (unless_ok-nil _ _ _ _).0 h3 in
          let (a5, h5) = (unless_ok-nil _ _ _ _).0 h4 in
          let low : pos 1 ≤ℤ cfg.mesh_mul_min = (not-ltb_ℤ_iff cfg.mesh_mul_min (pos 1)).0 a2 in
          (
            record {
              base_step = ground arith;
              mul_min = low;
              mul_init =
                  subst (λ m. m ≤ℤ cfg.mesh_mul_init) (max_ℤ_one _ low)
                    ((not-ltb_ℤ_iff cfg.mesh_mul_init (max_ℤ cfg.mesh_mul_min (pos 1))).0 a3);
              refine_div = (not-ltb_ℤ_iff cfg.mesh_refine_div (pos 2)).0 a4;
              poll_mult = (not-ltb_ℤ_iff cfg.poll_step_mult (pos 1)).0 a5;
            },
            h5,
          )),
      (λ (v, h). passes _ _ (ground arith) (
          passes _ _ ((not-ltb_ℤ_iff cfg.mesh_mul_min (pos 1)).1 v.mul_min) (
            passes _ _
              ((not-ltb_ℤ_iff cfg.mesh_mul_init (max_ℤ cfg.mesh_mul_min (pos 1))).1
                (subst (λ m. m ≤ℤ cfg.mesh_mul_init) (sym (max_ℤ_one _ v.mul_min)) v.mul_init))
              (passes _ _ ((not-ltb_ℤ_iff cfg.mesh_refine_div (pos 2)).1 v.refine_div)
                (passes _ _ ((not-ltb_ℤ_iff cfg.poll_step_mult (pos 1)).1 v.poll_mult) h))))),
    )

  module _ (cfg : EngineConfig F) where
    executor_iff : (executor_errors cfg ≡ []) ↔ ExecutorIsValid cfg
    executor_iff = (
      (λ h.
          let (a1, h1) = (unless_ok-nil _ _ _ _).0 h in
          let (a2, h2) = (unless_ok-nil _ _ _ _).0 h1 in
          record { dim = (is_zero_dim_iff _).0 a1; chunk = ground arith }),
      (λ v. passes _ _ ((is_zero_dim_iff _).1 v.dim) (passes _ _ (ground arith) refl)),
    )

    config_errors-nil : (config_errors cfg ≡ []) ↔ IsValid cfg
    unfolding config_errors
    config_errors-nil = (
      (λ h.
          let (calibrator, h1) = (calibrator_iff cfg _).0 h in
          let (policy, h2) = (policy_iff cfg _).0 h1 in
          let (mesh, h3) = (mesh_iff cfg _).0 h2 in
          record {
            calibrator = calibrator;
            policy = policy;
            mesh = mesh;
            executor = executor_iff.0 h3;
          }),
      (λ v. (calibrator_iff cfg _).1 (
        v.calibrator,
        (policy_iff cfg _).1 (v.policy, (mesh_iff cfg _).1 (v.mesh, executor_iff.1 v.executor)),
      )),
    )

    -- From arguments in the documented ranges, and from no others, a configuration is built. It
    -- holds the arguments, with no steps per dimension; in all other cases the error has a flag.
    pub EngineConfig_new_decides :
        (IsValid cfg × (EngineConfig_new cfg ≡ inl (record cfg { mesh_base_steps = none })))
        ⊎ ((IsValid cfg → ⊥)
            × (e : ConfigError) × (es : List ConfigError) × (EngineConfig_new cfg ≡ inr (e ∷ es)))
    unfolding EngineConfig_new
    EngineConfig_new_decides = elim (List-cases (config_errors cfg)) [
      | inl h ↦ inl (config_errors-nil.0 h, rw (h, EngineConfig_new))
      | inr (e, es, h) ↦
          inr (λ v. cons≢nil (sym h ∙ config_errors-nil.1 v), e, es, rw (h, EngineConfig_new))
    ]
