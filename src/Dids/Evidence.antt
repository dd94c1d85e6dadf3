-- ===== src/Dids/Evidence.antt =====
-- The statistics of DIDS: weights by age, effective sample sizes, weighted quantiles and Wilson
-- intervals.
use Prim.Native.Nat.{max}
use imads.Prelude.{ℕ, Option, none, some, List, [], ◌∷◌, ◌==◌, leb, if◌then◌else◌, map, sort_by}
use imads.Prelude.Int.{pos}
use imads.Float.{Float, fmax, clamp}
use imads.Float.Libm.{Libm}

module _ {F : Type 0} ⦃d : Float F⦄ where
  open d use {nought, one, le, lt, add, sub, mul, div, sqrt, of_int, decimal}

  -- `n as f64`
  abbrev pub float : ℕ → F
  float n = of_int (pos n)

  -- `iter().sum()`
  abbrev pub sum_from : F → List F → F
  sum_from acc [] = acc
  sum_from acc (x ∷ xs) = sum_from (add acc x) xs

  abbrev pub weights : List (ℕ × F) → List F
  weights weighted = map (λ p. p.1) weighted

  unfoldable pub effective_sample_size : List (ℕ × F) → F
  effective_sample_size weighted =
      let sum_w = sum_from nought (weights weighted) in
      let sum_w2 = sum_from nought (map (λ w. mul w w) (weights weighted)) in
      if le sum_w2 nought then nought else div (mul sum_w sum_w) sum_w2

  -- The greatest level, or `best`.
  abbrev pub max_level : Option ℕ → List (ℕ × F) → Option ℕ
  max_level best [] = best
  max_level none ((level, w) ∷ rest) = max_level (some level) rest
  max_level (some best) ((level, w) ∷ rest) = max_level (some (max best level)) rest

  -- The first level at which the weights sum up to `target`.
  abbrev pub first_reaching : F → F → List (ℕ × F) → Option ℕ
  first_reaching target acc [] = none
  first_reaching target acc ((level, w) ∷ items) =
      let sum = add acc w in
      let rest = first_reaching target sum items in
      if le target (add sum (decimal 1 12)) then some level else rest

  -- The unstable sort leaves the order of equal levels open; they are summed in the order recorded.
  unfoldable pub weighted_quantile : List (ℕ × F) → F → Option ℕ
  weighted_quantile [] q = none
  weighted_quantile (p ∷ ps) q =
      let items = sort_by (λ a b. leb a.0 b.0) (p ∷ ps) in
      let total_w = sum_from nought (weights items) in
      let target = mul (clamp q nought one) total_w in
      let fallback = max_level none (p ∷ ps) in
      if le total_w nought
      then none
      else elim (first_reaching target nought items) [ none ↦ fallback | some level ↦ some level ]

  unfoldable pub wilson_interval : ℕ → ℕ → F → F × F
  wilson_interval success total z =
      let n = float total in
      let p = div (float success) n in
      let z2 = mul z z in
      let denom = add one (div z2 n) in
      let center = div (add p (div z2 (mul (decimal 2 0) n))) denom in
      let inner = add (div (mul p (sub one p)) n) (div z2 (mul (mul (decimal 4 0) n) n)) in
      let radius = mul (div z denom) (sqrt (fmax inner nought)) in
      if total == 0
      then (nought, one)
      else (clamp (sub center radius) nought one, clamp (add center radius) nought one)

module _ {F : Type 0} ⦃d : Float F⦄ ⦃e : Libm F⦄ where
  open d use {nought, one, le, mul, div, decimal}
  open e use {neg, exp}

  -- `std::f64::consts::LN_2`
  abbrev pub ln_2 : F
  ln_2 = decimal 693147180559945309417232121458 30

  unfoldable pub recency_weight : ℕ → F → F
  recency_weight age half_life =
      if le half_life nought then one else exp (div (mul (neg ln_2) (float age)) half_life)
