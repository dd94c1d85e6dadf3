-- ===== src/Engine/Levels.antt =====
-- The fidelity levels and the mesh that a run starts with.
use imads.Prelude.{
  ℕ, ◌+◌, ◌*◌, ◌≤◌, ◌<◌, List, [], ◌∷◌, arith, ltb, leb, if◌then◌else◌, retain, length, All,
  All-retain_of, ltb→lt,
}
use Prim.Native.Nat.{max, min}
use imads.Types.{Tau, Smc}
use imads.Config.{EngineConfig}

unfoldable pub default_tau_levels : ℕ → List Tau
default_tau_levels dim = if leb 64 dim then 1000 ∷ 100 ∷ 10 ∷ 1 ∷ [] else 100 ∷ 10 ∷ 1 ∷ []

-- `saturating_mul` of `u32`
abbrev pub saturating_mul : ℕ → ℕ → ℕ
saturating_mul a b = min (a * b) 4294967295

unfoldable pub default_smc_levels : ℕ → List Smc
default_smc_levels dim =
    let d = max dim 1 in
    let base = if leb d 8 then 8 else if leb d 32 then 16 else 32 in
    let mid = max (saturating_mul base 4) (base + 1) in
    let high = max (saturating_mul mid 4) (mid + 1) in base ∷ mid ∷ high ∷ []

-- `if v.is_empty() { v.push(a) }`
abbrev or_single {ℓ} : {A : Type ℓ} → List A → A → List A
or_single [] a = a ∷ []
or_single (x ∷ xs) a = x ∷ xs

abbrev or_default {ℓ} : {A : Type ℓ} → List A → List A → List A
or_default [] d = d
or_default (x ∷ xs) d = x ∷ xs

All-or_single {κ} : (P : ℕ → Type κ) (xs : List ℕ) (a : ℕ) → All P xs → P a → All P (or_single xs a)
All-or_single P [] a h k = (k, tt)
All-or_single P (x ∷ xs) a h k = h

length-or_single : (xs : List ℕ) (a : ℕ) → 1 ≤ length (or_single xs a)
length-or_single [] a = omega arith
length-or_single (x ∷ xs) a = omega arith

module _ {F : Type 0} where
  pub resolve_ladder_levels : EngineConfig F → ℕ → List Tau × List Smc
  resolve_ladder_levels cfg dim =
      let tau = retain (λ t. ltb 0 t) (or_default cfg.tau_levels (default_tau_levels dim)) in
      let smc = retain (λ s. ltb 0 s) (or_default cfg.smc_levels (default_smc_levels dim)) in
      (or_single tau 1, or_single smc 1)

  -- There is a level of each kind, and every level is positive.
  pub resolve_ladder_levels_positive :
      (cfg : EngineConfig F) (dim : ℕ)
      → let (tau, smc) = resolve_ladder_levels cfg dim in
        (1 ≤ length tau) × (1 ≤ length smc) × All (λ t. 0 < t) tau × All (λ s. 0 < s) smc
  unfolding resolve_ladder_levels
  resolve_ladder_levels_positive cfg dim =
      let positive : (xs : List ℕ) → All (λ n. 0 < n) (or_single (retain (λ n. ltb 0 n) xs) 1) =
        λ xs. All-or_single _ _ 1 (All-retain_of _ _ (λ n h. ltb→lt 0 n h) xs) (omega arith) in
      (length-or_single _ 1, length-or_single _ 1, positive _, positive _)
