-- ===== src/Engine/Audit.antt =====
-- The audit path: the steps of the ladder that an audited candidate visits, and the samples taken
-- there; and the gate of objective pruning.
pub mod Targets
pub mod Visits
use imads.Prelude.{
  ℕ, zero, suc, ◌+◌, ◌-◌, ◌/◌, Bool, true, false, not, ◌&&◌, ◌||◌, Option, none, some, List, [],
  ◌∷◌, map, ltb, leb, ◌==◌, if◌then◌else◌, length, get_elem?, get_or, drop, replicate, sort_by,
}
use Prim.Native.Nat.{max}
use imads.Prelude.Int.{pos}
use imads.Float.{Float}
use imads.Types.{Tau, Smc, Phi, Estimates, CandidateAuditOrigin}
use imads.Config.{EngineConfig}

-- policies/calibrator.rs
pub record AuditOf : Type 0 where
  pub violated_j : ℕ
  pub phi_at_cut : Phi
  pub phi_idx_at_cut : ℕ

pub record PairedAuditSample (F : Type 0) : Type 0 where
  pub paired_phi : Phi
  pub paired_phi_idx : ℕ
  pub estimates : Estimates F

-- `p.smc == cur.smc && p.tau.0 < cur.tau.0`
abbrev pub is_pair : Phi → Phi → Bool
is_pair cur p = (p.smc == cur.smc) && ltb p.tau cur.tau

-- The indices, from `j` on, of the steps that pair with `cur`.
unfoldable pub paired_from : Phi → ℕ → List Phi → List ℕ
paired_from cur j [] = []
paired_from cur j (p ∷ ps) =
    let rest = paired_from cur (j + 1) ps in if is_pair cur p then j ∷ rest else rest

unfoldable pub collect_paired_phi_indices : List Phi → ℕ → List ℕ
collect_paired_phi_indices ladder cut_idx = elim (get_elem? ladder cut_idx) [
  | none ↦ []
  | some cur ↦ paired_from cur (cut_idx + 1) (drop (cut_idx + 1) ladder)
]

-- `binary_search(..).is_ok()` on ascending indices, which those of an origin are, says whether the
-- index is there.
unfoldable pub contains : List ℕ → ℕ → Bool
contains [] i = false
contains (j ∷ js) i = (j == i) || contains js i

unfoldable pub is_paired_checkpoint : Option CandidateAuditOrigin → ℕ → Bool
is_paired_checkpoint none phi_idx = false
is_paired_checkpoint (some o) phi_idx = contains o.paired_phi_indices phi_idx

-- The first index above `current_idx`, or `default`.
unfoldable pub first_above : List ℕ → ℕ → ℕ → ℕ
first_above [] current_idx default = default
first_above (idx ∷ rest) current_idx default =
    if ltb current_idx idx then idx else first_above rest current_idx default

unfoldable pub next_audit_target_idx : Option CandidateAuditOrigin → ℕ → ℕ → ℕ
next_audit_target_idx origin current_idx zero = 0
next_audit_target_idx none current_idx (suc n) = n
next_audit_target_idx (some origin) current_idx (suc n) =
    first_above origin.paired_phi_indices current_idx n

unfoldable pub audit_of_from_origin : CandidateAuditOrigin → AuditOf
audit_of_from_origin origin = record {
  violated_j = origin.violated_j;
  phi_at_cut = origin.phi_at_cut;
  phi_idx_at_cut = origin.phi_idx_at_cut;
}

module _ {F : Type 0} ⦃d : Float F⦄ where
  unfoldable pub truth_as_estimates : Phi → List F → List F → Estimates F
  truth_as_estimates phi f c = record {
    f_hat = f;
    f_se = replicate (length f) d.nought;
    c_hat = c;
    c_se = replicate (length c) d.nought;
    phi = phi;
    tau_scale = d.of_int (pos phi.tau);
    num_objectives = length f;
  }

module _ {F : Type 0} where
  unfoldable pub paired_audit_sample_from_estimates :
      Option CandidateAuditOrigin → ℕ → Phi → Estimates F → Option (PairedAuditSample F)
  paired_audit_sample_from_estimates origin phi_idx phi estimates =
      if is_paired_checkpoint origin phi_idx
      then some (record { paired_phi = phi; paired_phi_idx = phi_idx; estimates = estimates })
      else none

-- `Vec::dedup`: an element equal to the one before it goes.
abbrev dedup_after : ℕ → List ℕ → List ℕ
dedup_after a [] = []
dedup_after a (b ∷ bs) = if a == b then dedup_after a bs else b ∷ dedup_after b bs

abbrev pub dedup : List ℕ → List ℕ
dedup [] = []
dedup (a ∷ rest) = a ∷ dedup_after a rest

abbrev pub last_or_default : List ℕ → ℕ → ℕ
last_or_default [] d = d
last_or_default (a ∷ rest) d = last_or_default rest a

-- The number of samples of the configured rank, or the greatest one.
abbrev pub smc_threshold : List Phi → ℕ → ℕ → ℕ
smc_threshold ladder rank_idx current =
    let smc_levels = dedup (sort_by leb (map (λ p. p.smc) ladder)) in
    get_or smc_levels rank_idx (last_or_default smc_levels current)

module _ {F : Type 0} where
  unfoldable pub objective_pruning_allowed : ℕ → List Phi → Bool → EngineConfig F → Bool
  objective_pruning_allowed phi_idx ladder audit_required cfg =
      let level = phi_idx + 1 in
      let rank_idx = max cfg.objective_prune_min_smc_rank 1 - 1 in
      let ladder_mid = length ladder / 2 + 1 in
      elim (get_elem? ladder phi_idx) [
        | none ↦ false
        | some current ↦
            if audit_required && cfg.objective_prune_disable_for_audit
            then false
            else if ltb level (max cfg.objective_prune_min_level 1)
            then false
            else if not (leb (smc_threshold ladder rank_idx current.smc) current.smc)
            then false
            else not (cfg.objective_prune_require_back_half && ltb level (max ladder_mid 2))
      ]
