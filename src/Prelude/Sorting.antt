-- ===== src/Prelude/Sorting.antt =====
-- Stable sorting by a Boolean order: `slice::sort_by` where the order is total.
use mathlib.Core.Path.{◌≡◌, refl}
use mathlib.Core.Logic.{inl, inr}
use mathlib.Core.Bool.{Bool, true, false}
use mathlib.Core.List.{List, [], ◌∷◌, ◌++◌}
use Prim.Native.Nat.{suc}
use native.Mathlib.Omega.{arith}
use imads.Prelude.Tests.{if◌then◌else◌, Bool-cases}
use imads.Prelude.Lists.{length}
use imads.Prelude.Predicates.{All, Pairs, All-map}

module _ {ℓ} {A : Type ℓ} where
  module _ (le : A → A → Bool) where
    unfoldable pub insert_by : A → List A → List A
    insert_by a [] = a ∷ []
    insert_by a (x ∷ xs) = if le a x then a ∷ x ∷ xs else x ∷ insert_by a xs

    unfoldable pub sort_by : List A → List A
    sort_by [] = []
    sort_by (x ∷ xs) = insert_by x (sort_by xs)

module _ {ℓ κ} {A : Type ℓ} (P : A → Type κ) where
  pub All-insert_by :
      (le : A → A → Bool) (a : A) (xs : List A) → P a → All P xs → All P (insert_by le a xs)
  unfolding insert_by
  All-insert_by le a [] pa p = (pa, tt)
  All-insert_by le a (x ∷ xs) pa p = ground (arith, All-insert_by le a xs pa p.1)

  pub All-sort_by : (le : A → A → Bool) (xs : List A) → All P xs → All P (sort_by le xs)
  unfolding sort_by
  All-sort_by le [] p = tt
  All-sort_by le (x ∷ xs) p = All-insert_by le x (sort_by le xs) p.0 (All-sort_by le xs p.1)

module _ {ℓ κ} {A : Type ℓ} (R : A → A → Type κ) where
  -- Sorting keeps a relation of pairs that does not depend on the order.
  module _ (flip : (x y : A) → R x y → R y x) (le : A → A → Bool) where
    Pairs-insert_by :
        (a : A) (xs : List A) → All (R a) xs → Pairs R xs → Pairs R (insert_by le a xs)
    unfolding insert_by
    Pairs-insert_by a [] h p = (tt, tt)
    Pairs-insert_by a (x ∷ xs) h p =
        ground (arith, All-insert_by (R x) le a xs (flip a x h.0) p.0, Pairs-insert_by a xs h.1 p.1)

    pub Pairs-sort_by : (xs : List A) → Pairs R xs → Pairs R (sort_by le xs)
    unfolding sort_by
    Pairs-sort_by [] p = tt
    Pairs-sort_by (x ∷ xs) p =
        Pairs-insert_by x (sort_by le xs) (All-sort_by (R x) le xs p.0) (Pairs-sort_by xs p.1)

  -- Sorting by a transitive and total order leaves no pair out of order.
  module _ (le : A → A → Bool) (yes_le : (x y : A) → le x y ≡ true → R x y)
      (no_le : (x y : A) → le x y ≡ false → R y x)
      (trans : (x y z : A) → R x y → R y z → R x z) where
    insert_by-Sorted : (a : A) (xs : List A) → Pairs R xs → Pairs R (insert_by le a xs)
    unfolding insert_by
    insert_by-Sorted a [] p = (tt, tt)
    insert_by-Sorted a (x ∷ xs) p = elim (Bool-cases (le a x)) [
      | inl e ↦ rw e (((yes_le a x e), All-map (λ y r. trans a x y (yes_le a x e) r) xs p.0), p)
      | inr e ↦ rw e (All-insert_by (R x) le a xs (no_le a x e) p.0, insert_by-Sorted a xs p.1)
    ]

    pub sort_by-Sorted : (xs : List A) → Pairs R (sort_by le xs)
    unfolding sort_by
    sort_by-Sorted [] = tt
    sort_by-Sorted (x ∷ xs) = insert_by-Sorted x (sort_by le xs) (sort_by-Sorted xs)

module _ {ℓ} {A : Type ℓ} where
  pub length-insert_by :
      (le : A → A → Bool) (a : A) (xs : List A) → length (insert_by le a xs) ≡ suc (length xs)
  unfolding insert_by
  length-insert_by le a [] = refl
  length-insert_by le a (x ∷ xs) = ground (arith, length-insert_by le a xs)

  pub length-sort_by : (le : A → A → Bool) (xs : List A) → length (sort_by le xs) ≡ length xs
  unfolding sort_by
  length-sort_by le [] = refl
  length-sort_by le (x ∷ xs) =
      omega (arith, length-insert_by le x (sort_by le xs), length-sort_by le xs)

  -- An element that nothing else comes after stays at the end.
  insert_by-snoc :
      (le : A → A → Bool) (x p : A) (ys : List A)
      → le x p ≡ true
      → insert_by le x (ys ++ p ∷ []) ≡ insert_by le x ys ++ p ∷ []
  unfolding insert_by
  insert_by-snoc le x p [] h = rw h
  insert_by-snoc le x p (y ∷ ys) h = ground (arith, insert_by-snoc le x p ys h)

  pub sort_by-snoc :
      (le : A → A → Bool) (p : A) (xs : List A)
      → All (λ x. le x p ≡ true) xs
      → sort_by le (xs ++ p ∷ []) ≡ sort_by le xs ++ p ∷ []
  unfolding sort_by insert_by
  sort_by-snoc le p [] h = refl
  sort_by-snoc le p (x ∷ xs) h =
      rw (sort_by-snoc le p xs h.1) (insert_by-snoc le x p (sort_by le xs) h.0)

module _ {ℓ κ} {A : Type ℓ} (P : A → Type κ) where
  All-of_insert_by :
      (le : A → A → Bool) (a : A) (xs : List A) → All P (insert_by le a xs) → P a × All P xs
  unfolding insert_by
  All-of_insert_by le a [] h = (h.0, tt)
  All-of_insert_by le a (x ∷ xs) h = ground (arith, All-of_insert_by le a xs)

  pub All-of_sort_by : (le : A → A → Bool) (xs : List A) → All P (sort_by le xs) → All P xs
  unfolding sort_by
  All-of_sort_by le [] h = tt
  All-of_sort_by le (x ∷ xs) h =
      let (p, rest) = All-of_insert_by le x (sort_by le xs) h in (p, All-of_sort_by le xs rest)

-- Sorting where the order is transitive, and total on the elements that satisfy `P`.
module _ {ℓ κ} {A : Type ℓ} (P : A → Type κ) (R : A → A → Type κ) (le : A → A → Bool)
    (yes_le : (x y : A) → le x y ≡ true → R x y)
    (no_le : (x y : A) → P x → P y → le x y ≡ false → R y x)
    (trans : (x y z : A) → R x y → R y z → R x z) where
  insert_by-Sorted_on :
      (a : A) (xs : List A) → P a → All P xs → Pairs R xs → Pairs R (insert_by le a xs)
  unfolding insert_by
  insert_by-Sorted_on a [] pa ps p = (tt, tt)
  insert_by-Sorted_on a (x ∷ xs) pa ps p = elim (Bool-cases (le a x)) [
    | inl e ↦ rw e (((yes_le a x e), All-map (λ y r. trans a x y (yes_le a x e) r) xs p.0), p)
    | inr e ↦ rw e (
      All-insert_by (R x) le a xs (no_le a x pa ps.0 e) p.0,
      insert_by-Sorted_on a xs pa ps.1 p.1,
    )
  ]

  pub sort_by-Sorted_on : (xs : List A) → All P xs → Pairs R (sort_by le xs)
  unfolding sort_by
  sort_by-Sorted_on [] ps = tt
  sort_by-Sorted_on (x ∷ xs) ps =
      insert_by-Sorted_on x (sort_by le xs) ps.0 (All-sort_by P le xs ps.1)
        (sort_by-Sorted_on xs ps.1)
