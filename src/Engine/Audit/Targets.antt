-- ===== src/Engine/Audit/Targets.antt =====
-- Which steps an audited candidate visits: the later ones with as many samples and a tighter
-- tolerance, in order, and the last one.
use imads.Prelude.{
  ℕ, zero, suc, ◌+◌, ◌-◌, ◌<◌, ◌≡◌, refl, sym, ap, ◌∙◌, subst, ◌↔◌, ◌⊎◌, inl, inr, true, some, List,
  [], ◌∷◌, arith, Bool-cases, Option-cases, length, get_elem?, drop,
}
use mathlib.Core.Option.{some-injective, none-ne-some}
use imads.Types.{Phi}
use imads.Engine.Audit.{is_pair, paired_from, collect_paired_phi_indices, contains}

-- Step `i` comes after step `cut`, with as many samples and a tighter tolerance.
pub record LaterPair (ladder : List Phi) (cut i : ℕ) : Type 0 where
  pub cur : Phi
  pub step : Phi
  pub at_cut : get_elem? ladder cut ≡ some cur
  pub at_step : get_elem? ladder i ≡ some step
  pub later : cut < i
  pub smc : step.smc ≡ cur.smc
  pub tau : step.tau < cur.tau

-- Step `i` of the steps `ps`, the first of which is step `j`, pairs with `cur`.
record PairAt (cur : Phi) (j : ℕ) (ps : List Phi) (i : ℕ) : Type 0 where
  k : ℕ
  step : Phi
  place : i ≡ j + k
  at_step : get_elem? ps k ≡ some step
  pairs : is_pair cur step ≡ true

is_pair_iff : (cur p : Phi) → (is_pair cur p ≡ true) ↔ ((p.smc ≡ cur.smc) × (p.tau < cur.tau))
is_pair_iff cur p = (λ h. ground arith, λ h. ground arith)

pub contains_cons :
    (j : ℕ) (js : List ℕ) (i : ℕ)
    → (contains (j ∷ js) i ≡ true) ↔ ((j ≡ i) ⊎ (contains js i ≡ true))
unfolding contains
contains_cons j js i = (λ h. ground arith, λ h. ground arith)

pub contains_nil : (i : ℕ) → contains [] i ≡ true → ⊥
unfolding contains
contains_nil i h = ground arith

PairAt-next :
    (cur p : Phi) (j : ℕ) (ps : List Phi) (i : ℕ)
    → PairAt cur (j + 1) ps i
    → PairAt cur j (p ∷ ps) i
PairAt-next cur p j ps i a = record {
  k = suc a.k;
  step = a.step;
  place = omega (arith, a.place);
  at_step = a.at_step;
  pairs = a.pairs;
}

paired_from-contains :
    (cur : Phi) (j : ℕ) (ps : List Phi) (i : ℕ)
    → contains (paired_from cur j ps) i ≡ true
    → PairAt cur j ps i
unfolding paired_from
paired_from-contains cur j [] i h = absurd (contains_nil i h)
paired_from-contains cur j (p ∷ ps) i h = elim (Bool-cases (is_pair cur p)) [
  | inl e ↦ elim ((contains_cons j _ i).0 (rw (e) at h)) [
    | inl same ↦ record { k = 0; step = p; place = omega (arith, same); at_step = refl; pairs = e }
    | inr h' ↦ PairAt-next cur p j ps i (paired_from-contains cur (j + 1) ps i h')
  ]
  | inr e ↦ PairAt-next cur p j ps i (paired_from-contains cur (j + 1) ps i (rw (e) at h))
]

contains-paired_from :
    (cur : Phi) (j : ℕ) (ps : List Phi) (i k : ℕ) (step : Phi)
    → i ≡ j + k
    → get_elem? ps k ≡ some step
    → is_pair cur step ≡ true
    → contains (paired_from cur j ps) i ≡ true
unfolding paired_from
contains-paired_from cur j [] i k step place at pairs = absurd (none-ne-some _ at)
contains-paired_from cur j (p ∷ ps) i zero step place at pairs =
    let e : is_pair cur p ≡ true =
      subst (λ q. is_pair cur q ≡ true) (sym (some-injective _ _ at)) pairs in
    rw (e) ((contains_cons j _ i).1 (inl (omega (arith, place))))
contains-paired_from cur j (p ∷ ps) i (suc k) step place at pairs =
    let rest = contains-paired_from cur (j + 1) ps i k step (omega (arith, place)) at pairs in
    elim (Bool-cases (is_pair cur p)) [
      | inl e ↦ rw (e) ((contains_cons j _ i).1 (inr rest))
      | inr e ↦ rw (e) rest
    ]

get_elem?-drop : (n k : ℕ) (ps : List Phi) → get_elem? (drop n ps) k ≡ get_elem? ps (n + k)
get_elem?-drop zero k ps = ap (get_elem? ps) (omega arith)
get_elem?-drop (suc n) k [] = refl
get_elem?-drop (suc n) k (p ∷ ps) =
    get_elem?-drop n k ps
    ∙ ap (get_elem? (p ∷ ps)) (let e : suc (n + k) ≡ suc n + k = omega arith in e)

-- An index is collected exactly when it is that of a later step with as many samples as the step
-- at the cut and a tighter tolerance.
pub collect_paired_phi_indices_iff :
    (ladder : List Phi) (cut i : ℕ)
    → (contains (collect_paired_phi_indices ladder cut) i ≡ true) ↔ LaterPair ladder cut i
unfolding collect_paired_phi_indices
collect_paired_phi_indices_iff ladder cut i = elim (Option-cases (get_elem? ladder cut)) [
  | inl e ↦ (
    (λ h. absurd (contains_nil i (rw (collect_paired_phi_indices, e) at h))),
    (λ pair. absurd (none-ne-some _ (sym e ∙ pair.at_cut))),
  )
  | inr (cur, e) ↦ (
    (λ h.
        let a =
          paired_from-contains cur (cut + 1) (drop (cut + 1) ladder) i
            (rw (collect_paired_phi_indices, e) at h) in
        let (same, tighter) = (is_pair_iff cur a.step).0 a.pairs in
        record {
          cur = cur;
          step = a.step;
          at_cut = e;
          at_step =
              ap (get_elem? ladder) a.place ∙ sym (get_elem?-drop (cut + 1) a.k ladder) ∙ a.at_step;
          later = omega (arith, a.place);
          smc = same;
          tau = tighter;
        }),
    (λ pair.
        let same : pair.cur ≡ cur = some-injective _ _ (sym pair.at_cut ∙ e) in
        let place : i ≡ cut + 1 + (i - (cut + 1)) = omega (arith, pair.later) in
        rw (collect_paired_phi_indices, e)
          (contains-paired_from cur (cut + 1) (drop (cut + 1) ladder) i (i - (cut + 1)) pair.step
            place
            (get_elem?-drop (cut + 1) _ ladder ∙ ap (get_elem? ladder) (sym place) ∙ pair.at_step)
            (subst (λ c. is_pair c pair.step ≡ true) same
              ((is_pair_iff pair.cur pair.step).1 (pair.smc, pair.tau))))),
  )
]

pub get_elem?-bound : (ps : List Phi) (i : ℕ) (p : Phi) → get_elem? ps i ≡ some p → i < length ps
get_elem?-bound [] i p h = absurd (none-ne-some _ h)
get_elem?-bound (q ∷ ps) zero p h = omega arith
get_elem?-bound (q ∷ ps) (suc i) p h = omega (arith, get_elem?-bound ps i p h)
