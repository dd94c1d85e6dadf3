-- ===== src/Evaluator.antt =====
-- imads-core/src/core/evaluator.rs: the evaluator as the engine calls it, in the environment of the
-- run; mesh points as real points (types.rs); and `compute_estimates` of core/executor.rs.
pub mod Finite
use imads.Prelude.{
  ℕ, zero, suc, ◌+◌, ◌-◌, Bool, true, false, not, ◌&&◌, ◌||◌, Option, none, some, List, [], ◌∷◌,
  ltb, if◌then◌else◌, get_or, replicate,
}
use Prim.Native.Nat.{max}
use imads.Prelude.Int.{ℤ, pos}
use imads.Float.{Float}
use imads.Types.{Tau, Phi, XMesh, Estimates}

-- `EvaluatorErased`, which users implement.
pub record Evaluator (F : Type 0) : Type 0 where
  pub cheap_constraints : List F → Bool
  pub mc_sample : List F → Phi → ℕ → List F × List F
  pub solver_bias : List F → Tau → List F × List F
  pub num_objectives : ℕ
  pub num_constraints : ℕ
  pub search_dim : Option ℕ

-- Mean and squared deviations of a stream (Welford).
pub record Welford (F : Type 0) : Type 0 where
  pub n : ℕ
  pub mean : F
  pub m2 : F

module _ {F : Type 0} ⦃d : Float F⦄ where
  open d use {nought, infinity, is_finite, add, sub, mul, div, sqrt, of_int}

  -- The iterator that `XReal::new` consumes, stopped at the first number that is not valid:
  -- `is_valid_number` is `NonNaNFinite::new(x).is_ok()` of num-valid.
  abbrev pub mesh_to_real_aniso : (F → Bool) → XMesh → List F → Option (List F)
  mesh_to_real_aniso is_valid_number [] steps = some []
  mesh_to_real_aniso is_valid_number (u ∷ x) [] = some []
  mesh_to_real_aniso is_valid_number (u ∷ x) (bs ∷ steps) =
      let rest = mesh_to_real_aniso is_valid_number x steps in
      let r = mul (of_int u) bs in
      if is_valid_number r then elim rest [ none ↦ none | some rs ↦ some (r ∷ rs) ] else none

  abbrev pub Welford_default : Welford F
  Welford_default = record { n = 0; mean = nought; m2 = nought }

  unfoldable pub push : Welford F → F → Welford F
  push acc x =
      let n = acc.n + 1 in
      let delta = sub x acc.mean in
      let mean = add acc.mean (div delta (of_int (pos n))) in
      let delta2 = sub x mean in record { n = n; mean = mean; m2 = add acc.m2 (mul delta delta2) }

  unfoldable pub se : Welford F → F
  se acc =
      if ltb acc.n 2
      then nought
      else let var = div acc.m2 (of_int (pos (acc.n - 1))) in sqrt (div var (of_int (pos acc.n)))

  -- One sample into the accumulators from number `i` on; `default` stands in for a missing value.
  unfoldable pub push_each : F → ℕ → List (Welford F) → List F → Option (List (Welford F))
  push_each default i [] sample = some []
  push_each default i (acc ∷ accs) sample =
      let x = get_or sample i default in
      let rest = push_each default (i + 1) accs sample in
      if not (is_finite x)
      then none
      else elim rest [ none ↦ none | some accs' ↦ some (push acc x ∷ accs') ]

  -- The loop over the samples, `left` of which are left, from number `k` on.
  unfoldable pub sample_from :
      Evaluator F
      → List F
      → Phi
      → ℕ
      → ℕ
      → List (Welford F)
      → List (Welford F)
      → Option (List (Welford F) × List (Welford F))
  sample_from ev x phi zero k f_accs c_accs = some (f_accs, c_accs)
  sample_from ev x phi (suc left) k f_accs c_accs =
      let (f_s, c_s) = ev.mc_sample x phi k in
      elim (push_each infinity 0 f_accs f_s) [
        | none ↦ none
        | some fs ↦ elim (push_each nought 0 c_accs c_s) [
          | none ↦ none
          | some cs ↦ sample_from ev x phi left (k + 1) fs cs
        ]
      ]

  abbrev pub all_finite : List F → Bool
  all_finite [] = true
  all_finite (x ∷ xs) = is_finite x && all_finite xs

  -- The estimates and their errors, from accumulator number `i` on.
  unfoldable pub estimate_each : ℕ → List (Welford F) → List F → Option (List F × List F)
  estimate_each i [] bias = some ([], [])
  estimate_each i (acc ∷ accs) bias =
      let hat = add acc.mean (get_or bias i nought) in
      let err = se acc in
      let rest = estimate_each (i + 1) accs bias in
      if not (is_finite hat) || not (is_finite err)
      then none
      else elim rest [ none ↦ none | some (hats, ses) ↦ some (hat ∷ hats, err ∷ ses) ]

  -- From the accumulators to the estimates.
  unfoldable pub summarise :
      Evaluator F → List F → Phi → List (Welford F) × List (Welford F) → Option (Estimates F)
  summarise ev x phi (f_accs, c_accs) =
      let (fb, cb) = ev.solver_bias x phi.tau in
      if not (all_finite fb) || not (all_finite cb)
      then none
      else elim (estimate_each 0 f_accs fb) [
        | none ↦ none
        | some (f_hat, f_se) ↦ elim (estimate_each 0 c_accs cb) [
          | none ↦ none
          | some (c_hat, c_se) ↦ some (record {
            f_hat = f_hat;
            f_se = f_se;
            c_hat = c_hat;
            c_se = c_se;
            phi = phi;
            tau_scale = of_int (pos phi.tau);
            num_objectives = ev.num_objectives;
          })
        ]
      ]

  unfoldable pub compute_estimates : Evaluator F → List F → Phi → Option (Estimates F)
  compute_estimates ev x phi =
      let s = max phi.smc 1 in
      let f_accs = replicate ev.num_objectives Welford_default in
      let c_accs = replicate ev.num_constraints Welford_default in
      elim (sample_from ev x phi s 0 f_accs c_accs) [
        | none ↦ none
        | some accs ↦ summarise ev x phi accs
      ]
