-- ===== src/Types.antt =====
-- imads-core/src/types.rs: fidelity steps, candidates and evaluation results; and `WorkOutcome` of
-- imads-core/src/core/executor.rs. `F` is `f64`; a number of Rust's unsigned types is a natural
-- number.
use imads.Prelude.{ℕ, Bool, Option, List}
use imads.Prelude.Int.{ℤ}

abbrev pub Tau : Type 0
Tau = ℕ

abbrev pub Smc : Type 0
Smc = ℕ

pub record Phi : Type 0 where
  pub tau : Tau
  pub smc : Smc

-- Mesh coordinates in base-lattice units.
abbrev pub XMesh : Type 0
XMesh = List ℤ

pub record EvalMeta (F : Type 0) : Type 0 where
  pub phi : Phi
  pub env_rev : ℕ
  pub policy_rev : ℕ
  pub runtime_cost : F

pub record Estimates (F : Type 0) : Type 0 where
  pub f_hat : List F
  pub f_se : List F
  pub c_hat : List F
  pub c_se : List F
  pub phi : Phi
  pub tau_scale : F
  pub num_objectives : ℕ

pub data JobResult (F : Type 0) : Type 0 where
  rejected_cheap : EvalMeta F → JobResult F
  rejected_invalid_eval : EvalMeta F → JobResult F
  -- the violated constraint, the estimates
  early_infeasible : ℕ → Estimates F → EvalMeta F → JobResult F
  partial : Estimates F → EvalMeta F → JobResult F
  -- `f`, `c`, `feasible`, `v`
  truth : List F → List F → Bool → F → EvalMeta F → JobResult F

pub data CacheTag : Type 0 where
  tag_cheap tag_partial tag_truth : CacheTag

pub record EvalCacheKey : Type 0 where
  pub x : XMesh
  pub phi : Phi
  pub env_rev : ℕ

pub record DecisionCacheKey : Type 0 where
  pub x : XMesh
  pub phi : Phi
  pub env_rev : ℕ
  pub policy_rev : ℕ
  pub tag : CacheTag

pub data CandidateStatus : Type 0 where
  ready : CandidateStatus
  in_flight : ℕ → CandidateStatus
  done_rejected_cheap : CandidateStatus
  done_rejected_invalid_eval : CandidateStatus
  -- the violated constraint, the index of the step
  done_early_infeasible : ℕ → ℕ → CandidateStatus
  done_stopped_partial : ℕ → CandidateStatus
  done_truth : CandidateStatus

pub record CandidateAuditOrigin : Type 0 where
  pub violated_j : ℕ
  pub phi_at_cut : Phi
  pub phi_idx_at_cut : ℕ
  pub paired_phi_indices : List ℕ

pub record CandidateStageState (F : Type 0) : Type 0 where
  pub id : ℕ
  pub x : XMesh
  pub base_score : F
  pub created_epoch : ℕ
  pub next_phi_idx : ℕ
  pub last_estimates_phi_idx : Option ℕ
  pub last_estimates : Option (Estimates F)
  pub audit_required : Bool
  pub audit_origin : Option CandidateAuditOrigin
  pub audit_cut_estimates : Option (Estimates F)
  pub cheap_checked : Bool
  pub cheap_ok : Bool
  pub submitted_policy_rev : ℕ
  pub submitted_incumbent_id : ℕ
  pub status : CandidateStatus

pub record WorkItem : Type 0 where
  pub cand_id : ℕ
  pub x : XMesh
  pub phi_idx : ℕ
  pub phi : Phi
  pub env_rev : ℕ
  pub policy_rev : ℕ
  pub incumbent_id : ℕ

pub record WorkOutcome (F : Type 0) : Type 0 where
  pub item : WorkItem
  pub cached_decision : Option (JobResult F)
  pub estimates : Option (Estimates F)
  pub runtime_cost : F
  pub hit_decision_cache : Bool
  pub hit_eval_cache : Bool
  pub did_compute : Bool
