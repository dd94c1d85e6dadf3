-- ===== src/Engine/Tuning.antt =====
-- The size of the executor's chunks, tuned by how much the costs of a batch vary.
use Prim.Native.Nat.{min, max}
use imads.Prelude.{
  ℕ, ◌+◌, ◌-◌, ◌*◌, ◌/◌, ◌^◌, ◌≤◌, Bool, ◌&&◌, List, [], ◌∷◌, arith, leb, if◌then◌else◌, if_both,
  length, map,
}
use imads.Prelude.Int.{pos}
use imads.Float.{Float, fmax}
use imads.Types.{WorkOutcome}
use imads.Config.{EngineConfig}

module _ {F : Type 0} ⦃d : Float F⦄ where
  open d use {nought, lt, add, sub, mul, div, sqrt, of_int, decimal}

  -- The costs of the items that were computed.
  abbrev pub costs_of : List (WorkOutcome F) → List F
  costs_of [] = []
  costs_of (o ∷ outcomes) =
      let rest = costs_of outcomes in
      if o.did_compute && lt nought o.runtime_cost then o.runtime_cost ∷ rest else rest

  abbrev pub sum_acc : F → List F → F
  sum_acc acc [] = acc
  sum_acc acc (x ∷ xs) = sum_acc (add acc x) xs

  abbrev pub mean_of : List F → F
  mean_of xs = div (sum_acc nought xs) (of_int (pos (length xs)))

  -- `x.max(lo.max(1)).min(hi.max(1))`
  abbrev pub within_chunks : EngineConfig F → ℕ → ℕ
  within_chunks cfg x = min (max x (max cfg.executor_chunk_min 1)) (max cfg.executor_chunk_max 1)

  -- The chunk size that a run starts with.
  abbrev pub first_chunk : EngineConfig F → ℕ
  first_chunk cfg = within_chunks cfg cfg.executor_chunk_base

  -- Twice the size for even costs, half of it for uneven ones.
  abbrev pub chunk_target : EngineConfig F → F → ℕ → ℕ
  chunk_target cfg cv chunk_base =
      if lt cv (decimal 25 2)
      then min (min (chunk_base * 2) (2 ^ 64 - 1)) (max cfg.executor_chunk_max 1)
      else if lt (decimal 75 2) cv
      then max ((chunk_base + 1) / 2) (max cfg.executor_chunk_min 1)
      else chunk_base

  -- How much the costs vary: the standard deviation over the mean.
  abbrev pub variation : List F → F
  variation costs =
      let mean = mean_of costs in
      let square = λ (c : F). mul (sub c mean) (sub c mean) in
      let sd = sqrt (mean_of (map square costs)) in div sd (fmax mean (decimal 1 12))

  abbrev pub is_tuned : EngineConfig F → List F → Bool
  is_tuned cfg costs =
      cfg.executor_chunk_auto_tune && leb 4 (length costs) && lt nought (mean_of costs)

  unfoldable pub tune_chunk : EngineConfig F → List (WorkOutcome F) → ℕ → ℕ
  tune_chunk cfg outcomes chunk_base =
      let costs = costs_of outcomes in
      if is_tuned cfg costs
      then within_chunks cfg (chunk_target cfg (variation costs) chunk_base)
      else chunk_base

  -- The configured range: at least the minimum, or the maximum where that is less, and at most the
  -- maximum, where each of them counts as 1 if it is 0.
  abbrev pub InChunks : EngineConfig F → ℕ → Type 0
  InChunks cfg n =
      (min (max cfg.executor_chunk_min 1) (max cfg.executor_chunk_max 1) ≤ n)
      × (n ≤ max cfg.executor_chunk_max 1)

  within_chunks-InChunks : (cfg : EngineConfig F) (x : ℕ) → InChunks cfg (within_chunks cfg x)
  within_chunks-InChunks cfg x = (grind arith, grind arith)

  -- The chunk size that a run starts with is within the configured range: at least the minimum, or
  -- the maximum where that is less, and at most the maximum, each of them taken as 1 if it is 0. From
  -- a size within this range the tuning leads to one within it, whatever a batch has cost.
  pub tune_chunk-InChunks :
      (cfg : EngineConfig F) (outcomes : List (WorkOutcome F)) (chunk_base : ℕ)
      → InChunks cfg chunk_base
      → InChunks cfg (first_chunk cfg) × InChunks cfg (tune_chunk cfg outcomes chunk_base)
  unfolding tune_chunk
  tune_chunk-InChunks cfg outcomes chunk_base h =
      let costs = costs_of outcomes in
      let target = chunk_target cfg (variation costs) chunk_base in
      (
        within_chunks-InChunks cfg cfg.executor_chunk_base,
        if_both (InChunks cfg) (is_tuned cfg costs) (within_chunks cfg target) chunk_base
            (λ _. within_chunks-InChunks cfg target) (λ _. h),
      )
