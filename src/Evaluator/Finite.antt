-- ===== src/Evaluator/Finite.antt =====
-- The estimates are finite, one for each objective and constraint.
use imads.Prelude.{
  ℕ, zero, suc, ◌+◌, subst, ◌≡◌, refl, ap, ◌∙◌, Bool, true, false, not, ◌||◌, Option, none, some,
  List, [], ◌∷◌, arith, if◌then◌else◌, All, length, replicate, length-replicate, get_or,
}
use Prim.Native.Nat.{max}
use imads.Prelude.Int.{pos}
use imads.Float.{Float}
use imads.Types.{Phi, Estimates}
use imads.Evaluator.{
  Evaluator, Welford, Welford_default, push, se, push_each, sample_from, all_finite, estimate_each,
  summarise, compute_estimates,
}

-- If there is a result, it has the property.
abbrev pub OnSome {ℓ κ} : {A : Type ℓ} → (A → Type κ) → Option A → Type κ
OnSome P none = Unit
OnSome P (some a) = P a

OnSome-unless {ℓ κ} :
    {A : Type ℓ} (P : A → Type κ) (q : Bool) (o : Option A)
    → (q ≡ false → OnSome P o)
    → OnSome P (if q then none else o)
OnSome-unless P true o h = tt
OnSome-unless P false o h = h refl

OnSome-map {ℓ κ μ} :
    {A : Type ℓ} {P : A → Type κ} {Q : A → Type μ} (f : (a : A) → P a → Q a) (o : Option A)
    → OnSome P o
    → OnSome Q o
OnSome-map f none h = tt
OnSome-map f (some a) h = f a h

OnSome-of {ℓ κ} :
    {A : Type ℓ} (P : A → Type κ) (o : Option A) (a : A) → OnSome P o → o ≡ some a → P a
OnSome-of P o a h e = subst (OnSome P) e h

module _ {F : Type 0} ⦃d : Float F⦄ where
  open d use {is_finite, add, nought}

  abbrev pub AllFinite : List F → Type 0
  AllFinite xs = All (λ x. is_finite x ≡ true) xs

  abbrev AreAsMany : List (Welford F) → List (Welford F) → Type 0
  AreAsMany accs accs' = length accs' ≡ length accs

  push_each-length :
      (default : F) (i : ℕ) (accs : List (Welford F)) (sample : List F)
      → OnSome (AreAsMany accs) (push_each default i accs sample)
  unfolding push_each
  push_each-length default i [] sample = refl
  push_each-length default i (acc ∷ accs) sample =
      let rest = push_each default (i + 1) accs sample in
      let x = get_or sample i default in
      OnSome-unless (AreAsMany (acc ∷ accs)) (not (is_finite x))
        (elim rest [ none ↦ none | some accs' ↦ some (push acc x ∷ accs') ])
        (λ h. on_rest rest (push_each-length default (i + 1) accs sample))
    where
      on_rest :
          (rest : Option (List (Welford F)))
          → OnSome (AreAsMany accs) rest
          → OnSome (AreAsMany (acc ∷ accs)) (elim rest [
            | none ↦ none
            | some accs' ↦ some (push acc (get_or sample i default) ∷ accs')
          ])
      on_rest none h = tt
      on_rest (some accs') h = ap suc h

  abbrev AreEstimates : List (Welford F) → List F × List F → Type 0
  AreEstimates accs (hats, ses) =
      (length hats ≡ length accs) × (length ses ≡ length accs) × AllFinite hats × AllFinite ses

  estimate_each-AreEstimates :
      (i : ℕ) (accs : List (Welford F)) (bias : List F)
      → OnSome (AreEstimates accs) (estimate_each i accs bias)
  unfolding estimate_each
  estimate_each-AreEstimates i [] bias = (refl, refl, tt, tt)
  estimate_each-AreEstimates i (acc ∷ accs) bias =
      OnSome-unless (AreEstimates (acc ∷ accs)) (not (is_finite hat) || not (is_finite (se acc))) _
        (λ h.
          on_rest (estimate_each (i + 1) accs bias) (ground arith) (ground arith)
            (estimate_each-AreEstimates (i + 1) accs bias))
    where
      hat : F
      hat = add acc.mean (get_or bias i nought)

      on_rest :
          (rest : Option (List F × List F))
          → is_finite hat ≡ true
          → is_finite (se acc) ≡ true
          → OnSome (AreEstimates accs) rest
          → OnSome
              (AreEstimates (acc ∷ accs))
              (elim rest [ none ↦ none | some (hats, ses) ↦ some (hat ∷ hats, se acc ∷ ses) ])
      on_rest none f g h = tt
      on_rest (some (hats, ses)) f g (m, n, p, q) = (ap suc m, ap suc n, (f, p), (g, q))

  module _ (ev : Evaluator F) (x : List F) (phi : Phi) where
    abbrev KeepCounts :
        List (Welford F) → List (Welford F) → List (Welford F) × List (Welford F) → Type 0
    KeepCounts f_accs c_accs (fs, cs) = AreAsMany f_accs fs × AreAsMany c_accs cs

    sample_from-KeepCounts :
        (left k : ℕ) (f_accs c_accs : List (Welford F))
        → OnSome (KeepCounts f_accs c_accs) (sample_from ev x phi left k f_accs c_accs)
    unfolding sample_from
    sample_from-KeepCounts zero k f_accs c_accs = (refl, refl)
    sample_from-KeepCounts (suc left) k f_accs c_accs =
        on_f (sample_from-KeepCounts left (k + 1)) (push_each d.infinity 0 f_accs sample.0)
          (push_each-length d.infinity 0 f_accs sample.0)
      where
        sample : List F × List F
        sample = ev.mc_sample x phi k

        Rest : Type 0
        Rest =
            (fs cs : List (Welford F))
            → OnSome (KeepCounts fs cs) (sample_from ev x phi left (k + 1) fs cs)

        on_c :
            (again : Rest) (fs : List (Welford F)) (c : Option (List (Welford F)))
            → AreAsMany f_accs fs
            → OnSome (AreAsMany c_accs) c
            → OnSome
                (KeepCounts f_accs c_accs)
                (elim c [ none ↦ none | some cs ↦ sample_from ev x phi left (k + 1) fs cs ])
        on_c again fs none h g = tt
        on_c again fs (some cs) h g =
            OnSome-map (λ _ (m, n). (m ∙ h, n ∙ g)) (sample_from ev x phi left (k + 1) fs cs)
              (again fs cs)

        on_f :
            (again : Rest) (f : Option (List (Welford F)))
            → OnSome (AreAsMany f_accs) f
            → OnSome (KeepCounts f_accs c_accs) (elim f [
              | none ↦ none
              | some fs ↦ elim (push_each nought 0 c_accs sample.1) [
                | none ↦ none
                | some cs ↦ sample_from ev x phi left (k + 1) fs cs
              ]
            ])
        on_f again none h = tt
        on_f again (some fs) h =
            on_c again fs (push_each nought 0 c_accs sample.1) h
              (push_each-length nought 0 c_accs sample.1)

    -- Finite estimates, one for each objective and each constraint, at this step.
    pub record IsSummary (num_f num_c : ℕ) (est : Estimates F) : Type 0 where
      pub objectives : (length est.f_hat ≡ num_f) × (length est.f_se ≡ num_f)
      pub constraints : (length est.c_hat ≡ num_c) × (length est.c_se ≡ num_c)
      pub finite :
          AllFinite est.f_hat × AllFinite est.f_se × AllFinite est.c_hat × AllFinite est.c_se
      pub step : est.phi ≡ phi

    summarise-IsSummary :
        (f_accs c_accs : List (Welford F))
        → OnSome (IsSummary (length f_accs) (length c_accs)) (summarise ev x phi (f_accs, c_accs))
    unfolding summarise
    summarise-IsSummary f_accs c_accs =
        OnSome-unless _ (not (all_finite bias.0) || not (all_finite bias.1)) _ (λ h.
          on_f (estimate_each 0 f_accs bias.0) (estimate_each 0 c_accs bias.1)
            (estimate_each-AreEstimates 0 f_accs bias.0)
            (estimate_each-AreEstimates 0 c_accs bias.1))
      where
        bias : List F × List F
        bias = ev.solver_bias x phi.tau

        on_f :
            (f c : Option (List F × List F))
            → OnSome (AreEstimates f_accs) f
            → OnSome (AreEstimates c_accs) c
            → OnSome (IsSummary (length f_accs) (length c_accs)) (elim f [
              | none ↦ none
              | some (f_hat, f_se) ↦ elim c [
                | none ↦ none
                | some (c_hat, c_se) ↦ some (record {
                  f_hat = f_hat;
                  f_se = f_se;
                  c_hat = c_hat;
                  c_se = c_se;
                  phi = phi;
                  tau_scale = d.of_int (pos phi.tau);
                  num_objectives = ev.num_objectives;
                })
              ]
            ])
        on_f none c h g = tt
        on_f (some (f_hat, f_se)) none h g = tt
        on_f (some (f_hat, f_se)) (some (c_hat, c_se)) (m, n, p, q) (m', n', p', q') = record {
          objectives = (m, n);
          constraints = (m', n');
          finite = (p, q, p', q');
          step = refl;
        }

    -- If an evaluation yields estimates, they are those of this step, one estimate and one error
    -- for each objective and each constraint of the evaluator, all of them finite.
    pub compute_estimates-IsSummary :
        (est : Estimates F)
        → compute_estimates ev x phi ≡ some est
        → IsSummary ev.num_objectives ev.num_constraints est
    unfolding compute_estimates
    compute_estimates-IsSummary est h =
        OnSome-of _ (compute_estimates ev x phi) est
          (on_accs (sample_from ev x phi (max phi.smc 1) 0 f_accs c_accs)
            (sample_from-KeepCounts (max phi.smc 1) 0 f_accs c_accs))
          h
      where
        f_accs : List (Welford F)
        f_accs = replicate ev.num_objectives Welford_default

        c_accs : List (Welford F)
        c_accs = replicate ev.num_constraints Welford_default

        on_accs :
            (o : Option (List (Welford F) × List (Welford F)))
            → OnSome (KeepCounts f_accs c_accs) o
            → OnSome
                (IsSummary ev.num_objectives ev.num_constraints)
                (elim o [ none ↦ none | some accs ↦ summarise ev x phi accs ])
        on_accs none g = tt
        on_accs (some (fs, cs)) (m, n) =
            subst (λ k. OnSome (IsSummary k ev.num_constraints) (summarise ev x phi (fs, cs)))
              (m ∙ length-replicate ev.num_objectives Welford_default)
              (subst (λ k. OnSome (IsSummary (length fs) k) (summarise ev x phi (fs, cs)))
                (n ∙ length-replicate ev.num_constraints Welford_default)
                (summarise-IsSummary fs cs))
