-- ===== src/Margin/Bounds.antt =====
-- What the early cut answers.
use imads.Prelude.{
  ℕ, zero, suc, ◌+◌, ◌<◌, ◌≡◌, refl, ap, ◌∙◌, Bool, true, false, Option, none, some, List, [], ◌∷◌,
  arith, Bool-cases, inl, inr, ◌⊎◌, get_elem?,
}
use imads.Float.{Float}
use imads.Types.{Estimates}
use imads.Margin.{Thresholds, is_violated, early_from, early_infeasible}

at_each {ℓ} : (P : ℕ → Type ℓ) → P 0 → ((k : ℕ) → P (suc k)) → (k : ℕ) → P k
at_each P z s zero = z
at_each P z s (suc k) = s k

module _ {F : Type 0} ⦃d : Float F⦄ (est : Estimates F) (th : Thresholds F) where
  -- The verdict on constraint `j`; without an estimate or an error of it there is none.
  abbrev pub verdict : ℕ → Option F → Option F → Bool
  verdict j none se = false
  verdict j (some c_hat) none = false
  verdict j (some c_hat) (some c_se) = is_violated est th j c_hat c_se

  -- The verdict on the constraint at place `k` of lists that start with constraint `j`.
  abbrev at_place : ℕ → List F → List F → ℕ → Bool
  at_place j hats ses k = verdict (j + k) (get_elem? hats k) (get_elem? ses k)

  -- `o` is the first index whose verdict is positive, if there is one.
  abbrev IsFirst : ℕ → List F → List F → Option ℕ → Type 0
  IsFirst j hats ses o =
      ((o ≡ none) × ((k : ℕ) → at_place j hats ses k ≡ false))
      ⊎ ((n : ℕ) × (o ≡ some (j + n))
          × (at_place j hats ses n ≡ true)
          × ((k : ℕ) → k < n → at_place j hats ses k ≡ false))

  at_place-shift :
      (j : ℕ) (c s : F) (hats ses : List F) (k : ℕ)
      → at_place j (c ∷ hats) (s ∷ ses) (suc k) ≡ at_place (j + 1) hats ses k
  at_place-shift j c s hats ses k =
      ap (λ n. verdict n (get_elem? hats k) (get_elem? ses k))
        (let e : j + suc k ≡ j + 1 + k = omega arith in e)

  at_place-first :
      (j : ℕ) (c s : F) (hats ses : List F)
      → at_place j (c ∷ hats) (s ∷ ses) 0 ≡ is_violated est th j c s
  at_place-first j c s hats ses =
      ap (λ n. is_violated est th n c s) (let e : j + 0 ≡ j = omega arith in e)

  early_from-IsFirst :
      (j : ℕ) (hats ses : List F) → IsFirst j hats ses (early_from est th j hats ses)
  unfolding early_from
  early_from-IsFirst j [] ses = inl (refl, λ k. refl)
  early_from-IsFirst j (c ∷ hats) [] =
      inl (refl, at_each _ refl (λ k. no_error (get_elem? hats k) _))
    where
      no_error : (o : Option F) (n : ℕ) → verdict n o none ≡ false
      no_error none n = refl
      no_error (some c) n = refl
  early_from-IsFirst j (c ∷ hats) (s ∷ ses) = elim (Bool-cases (is_violated est th j c s)) [
    | inl e ↦ rw (e) (
        inr (
          0,
          ap some (omega arith),
          at_place-first j c s hats ses ∙ e,
          λ k lt. absurd (omega arith),
        ))
    | inr e ↦
        let none_first = at_place-first j c s hats ses ∙ e in
        rw (e) (elim (early_from-IsFirst (j + 1) hats ses) [
          | inl (o, h) ↦ inl (o, at_each _ none_first (λ k. at_place-shift j c s hats ses k ∙ h k))
          | inr (n, o, v, h) ↦ inr (
            suc n,
            o ∙ ap some (omega arith),
            at_place-shift j c s hats ses n ∙ v,
            at_each _ (λ lt. none_first)
                (λ k lt. at_place-shift j c s hats ses k ∙ h k (omega arith)),
          )
        ])
  ]

  abbrev pub violates : ℕ → Bool
  violates j = verdict j (get_elem? est.c_hat j) (get_elem? est.c_se j)

  violates_at : (j : ℕ) → violates j ≡ at_place 0 est.c_hat est.c_se j
  violates_at j =
      ap (λ n. verdict n (get_elem? est.c_hat j) (get_elem? est.c_se j))
        (let e : j ≡ 0 + j = omega arith in e)

  -- The early cut names the first constraint whose estimate exceeds its slack by more than noise
  -- and bias explain, and it is silent exactly when no constraint does; one with no estimate or no
  -- standard error does not count.
  pub early_infeasible_first :
      ((early_infeasible est th ≡ none) × ((j : ℕ) → violates j ≡ false))
      ⊎ ((j : ℕ) × (early_infeasible est th ≡ some j)
          × (violates j ≡ true)
          × ((k : ℕ) → k < j → violates k ≡ false))
  unfolding early_infeasible
  early_infeasible_first = elim (early_from-IsFirst 0 est.c_hat est.c_se) [
    | inl (o, h) ↦ inl (o, λ j. violates_at j ∙ h j)
    | inr (n, o, v, h) ↦
        inr (n, o ∙ ap some (omega arith), violates_at n ∙ v, λ k lt. violates_at k ∙ h k lt)
  ]
