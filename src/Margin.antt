-- ===== src/Margin.antt =====
-- imads-core/src/policies/margin.rs: the default margin policy; and the calibration state of
-- policies/calibrator.rs that it reads.
pub mod Bounds
use imads.Prelude.{
  ℕ, zero, suc, ◌+◌, Bool, true, false, ◌&&◌, Option, none, some, List, [], ◌∷◌, ◌==◌,
  if◌then◌else◌, get_or, get_elem?,
}
use imads.Float.{Float}
use imads.Types.{Phi, Estimates}
use imads.Cache.Keys.{same_phi}

pub record KByPhiState (F : Type 0) : Type 0 where
  pub phi : Phi
  pub k_f : F
  pub k_c : List F

pub record Thresholds (F : Type 0) : Type 0 where
  pub delta_rel : List F
  pub k_c : List F
  pub k_f : F
  pub k_by_phi : List (KByPhiState F)
  pub eps_f : F

module _ {F : Type 0} where
  -- The first state with this `phi`.
  abbrev pub find_phi : List (KByPhiState F) → Phi → Option (KByPhiState F)
  find_phi [] phi = none
  find_phi (st ∷ rest) phi = if same_phi st.phi phi then some st else find_phi rest phi

  abbrev pub k_f_for : Thresholds F → Phi → F
  k_f_for th phi = elim (find_phi th.k_by_phi phi) [ none ↦ th.k_f | some st ↦ st.k_f ]

  -- `List.head`, or a default
  abbrev pub first_or : List F → F → F
  first_or [] d = d
  first_or (x ∷ xs) d = x

module _ {F : Type 0} ⦃d : Float F⦄ where
  open d use {nought, infinity, lt, le, add, sub, mul, decimal}

  abbrev pub k_c_for : Thresholds F → Phi → ℕ → F
  k_c_for th phi j =
      let default = get_or th.k_c j nought in
      elim (find_phi th.k_by_phi phi) [ none ↦ default | some st ↦ get_or st.k_c j default ]

  abbrev pub f_hat_primary : Estimates F → F
  f_hat_primary est = first_or est.f_hat infinity

  abbrev pub f_se_primary : Estimates F → F
  f_se_primary est = first_or est.f_se nought

  -- `x.abs()`
  abbrev fabs : F → F
  fabs x = if lt x nought then sub nought x else x

  -- `1e-12`
  abbrev tiny : F
  tiny = decimal 1 12

  pub z_for : F → F
  z_for alpha =
      if lt (fabs (sub alpha (decimal 5 2))) tiny
      then decimal 1645 3
      else if lt (fabs (sub alpha (decimal 10 2))) tiny
      then decimal 1282 3
      else decimal 196 2

  -- Whether constraint `j` is violated by more than noise, bias and slack explain.
  abbrev pub is_violated : Estimates F → Thresholds F → ℕ → F → F → Bool
  is_violated est th j c_hat c_se =
      let zc = z_for (decimal 5 2) in
      let delta = get_or th.delta_rel j nought in
      let bias = mul (k_c_for th est.phi j) est.tau_scale in
      let lhs = sub (sub c_hat (mul zc c_se)) bias in lt delta lhs

  -- The loop over the zipped estimates, from constraint `j` on.
  pub early_from : Estimates F → Thresholds F → ℕ → List F → List F → Option ℕ
  early_from est th j [] ses = none
  early_from est th j (c_hat ∷ hats) [] = none
  early_from est th j (c_hat ∷ hats) (c_se ∷ ses) =
      let rest = early_from est th (j + 1) hats ses in
      if is_violated est th j c_hat c_se then some j else rest

  pub early_infeasible : Estimates F → Thresholds F → Option ℕ
  early_infeasible est th = early_from est th 0 est.c_hat est.c_se

  pub objective_bounds : Estimates F → Thresholds F → F × F
  objective_bounds est th =
      let z_l = z_for (decimal 10 2) in
      let z_u = z_for (decimal 5 2) in
      let k_f = k_f_for th est.phi in
      let f_hat = f_hat_primary est in
      let f_se = f_se_primary est in
      let lcb = sub (sub f_hat (mul z_l f_se)) (mul k_f est.tau_scale) in
      let ucb = add (add f_hat (mul z_u f_se)) (mul k_f est.tau_scale) in (lcb, ucb)
