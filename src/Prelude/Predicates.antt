-- ===== src/Prelude/Predicates.antt =====
-- Predicates over lists: of each element, of some element, and of each pair of elements; and
-- `Vec::retain`.
use mathlib.Core.Path.{◌≡◌, refl, ap}
use mathlib.Core.Bool.{Bool, true}
use mathlib.Core.List.{List, [], ◌∷◌, ◌++◌, reverse, reverse-cons}
use Prim.Native.Nat.{ℕ, zero, suc, ◌≤◌, ◌<◌}
use native.Mathlib.Omega.{arith}
use imads.Prelude.Tests.{if◌then◌else◌}
use imads.Prelude.Lists.{length, length-append, take, get_or}

module _ {ℓ} {A : Type ℓ} where
  abbrev pub All {κ} : (A → Type κ) → List A → Type κ
  All P [] = Unit
  All P (x ∷ xs) = P x × All P xs

  -- Every two elements at different places are related, the earlier one first.
  abbrev pub Pairs {κ} : (A → A → Type κ) → List A → Type κ
  Pairs R [] = Unit
  Pairs R (x ∷ xs) = All (R x) xs × Pairs R xs

  pub All-append {κ} : (P : A → Type κ) (xs ys : List A) → All P xs → All P ys → All P (xs ++ ys)
  All-append P [] ys p q = q
  All-append P (x ∷ xs) ys p q = (p.0, All-append P xs ys p.1 q)

  -- `keep` as `Vec::retain` has it.
  unfoldable pub retain : (A → Bool) → List A → List A
  retain keep [] = []
  retain keep (x ∷ xs) = if keep x then x ∷ retain keep xs else retain keep xs

module _ {ℓ κ} {A : Type ℓ} (P : A → Type κ) where
  pub All-retain : (keep : A → Bool) (xs : List A) → All P xs → All P (retain keep xs)
  unfolding retain
  All-retain keep [] p = tt
  All-retain keep (x ∷ xs) p = ground (arith, All-retain keep xs p.1)

  pub All-take : (n : ℕ) (xs : List A) → All P xs → All P (take n xs)
  All-take zero xs p = tt
  All-take (suc n) [] p = tt
  All-take (suc n) (x ∷ xs) p = (p.0, All-take n xs p.1)

  -- What the kept elements are: those that pass the test.
  pub All-retain_of :
      (keep : A → Bool) → ((x : A) → keep x ≡ true → P x) → (xs : List A) → All P (retain keep xs)
  unfolding retain
  All-retain_of keep h [] = tt
  All-retain_of keep h (x ∷ xs) = ground (arith, All-retain_of keep h xs, h x)

module _ {ℓ κ μ} {A : Type ℓ} {P : A → Type κ} {Q : A → Type μ} where
  pub All-map : ((x : A) → P x → Q x) → (xs : List A) → All P xs → All Q xs
  All-map f [] p = tt
  All-map f (x ∷ xs) p = (f x p.0, All-map f xs p.1)

module _ {ℓ κ μ} {A : Type ℓ} (P : A → Type κ) (Q : A → Type μ) where
  pub All-both : (xs : List A) → All P xs → All Q xs → All (λ x. P x × Q x) xs
  All-both [] p q = tt
  All-both (x ∷ xs) p q = ((p.0, q.0), All-both xs p.1 q.1)

module _ {ℓ κ} {A : Type ℓ} (R : A → A → Type κ) where
  pub Pairs-retain : (keep : A → Bool) (xs : List A) → Pairs R xs → Pairs R (retain keep xs)
  unfolding retain
  Pairs-retain keep [] p = tt
  Pairs-retain keep (x ∷ xs) p =
      ground (arith, All-retain (R x) keep xs p.0, Pairs-retain keep xs p.1)

  pub Pairs-take : (n : ℕ) (xs : List A) → Pairs R xs → Pairs R (take n xs)
  Pairs-take zero xs p = tt
  Pairs-take (suc n) [] p = tt
  Pairs-take (suc n) (x ∷ xs) p = (All-take (R x) n xs p.0, Pairs-take n xs p.1)

  pub Pairs-snoc : (xs : List A) (a : A) → Pairs R xs → All (λ x. R x a) xs → Pairs R (xs ++ a ∷ [])
  Pairs-snoc [] a p h = (tt, tt)
  Pairs-snoc (x ∷ xs) a p h = (All-append (R x) xs (a ∷ []) p.0 (h.0, tt), Pairs-snoc xs a p.1 h.1)

module _ {ℓ} {A : Type ℓ} where
  pub length-retain-le : (keep : A → Bool) (xs : List A) → length (retain keep xs) ≤ length xs
  unfolding retain
  length-retain-le keep [] = omega arith
  length-retain-le keep (x ∷ xs) = ground (arith, length-retain-le keep xs)

  pub take-append : (xs ys : List A) → take (length xs) (xs ++ ys) ≡ xs
  take-append [] ys = refl
  take-append (x ∷ xs) ys = rw (take-append xs ys)

  pub retain-All :
      (keep : A → Bool) (xs : List A) → All (λ x. keep x ≡ true) xs → retain keep xs ≡ xs
  unfolding retain
  retain-All keep [] h = refl
  retain-All keep (x ∷ xs) h = ground (arith, retain-All keep xs h.1)

-- Some element has the property.

pub data Any {ℓ κ} {A : Type ℓ} (P : A → Type κ) : List A → Type (ℓ ⊔ κ) where
  here : {x : A} {xs : List A} → P x → Any P (x ∷ xs)
  there : {x : A} {xs : List A} → Any P xs → Any P (x ∷ xs)

module _ {ℓ κ} {A : Type ℓ} (P : A → Type κ) where
  pub Any-append_left : (xs ys : List A) → Any P xs → Any P (xs ++ ys)
  Any-append_left [] ys a = elim a [ ]
  Any-append_left (x ∷ xs) ys (here p) = here p
  Any-append_left (x ∷ xs) ys (there a) = there (Any-append_left xs ys a)

  pub Any-snoc : (xs : List A) (a : A) → P a → Any P (xs ++ a ∷ [])
  Any-snoc [] a p = here p
  Any-snoc (x ∷ xs) a p = there (Any-snoc xs a p)

  All-of_append : (xs ys : List A) → All P (xs ++ ys) → All P xs × All P ys
  All-of_append [] ys h = (tt, h)
  All-of_append (x ∷ xs) ys h = let (p, q) = All-of_append xs ys h.1 in ((h.0, p), q)

  pub All-reverse : (xs : List A) → All P xs → All P (reverse xs)
  All-reverse [] h = tt
  All-reverse (x ∷ xs) h =
      rw (reverse-cons x xs) (All-append P (reverse xs) (x ∷ []) (All-reverse xs h.1) (h.0, tt))

  pub All-of_reverse : (xs : List A) → All P (reverse xs) → All P xs
  All-of_reverse [] h = tt
  All-of_reverse (x ∷ xs) h =
      let (p, q) = All-of_append (reverse xs) (x ∷ []) (rw (reverse-cons x xs) at h) in
      (q.0, All-of_reverse xs p)

  -- What holds at every place holds of every element.
  pub All-of_get_or :
      (xs : List A) (d : A) → ((i : ℕ) → i < length xs → P (get_or xs i d)) → All P xs
  All-of_get_or [] d h = tt
  All-of_get_or (x ∷ xs) d h =
      (h 0 (omega arith), All-of_get_or xs d (λ i lt. h (suc i) (omega arith)))

module _ {ℓ κ} {A : Type ℓ} (R : A → A → Type κ) where
  pub Pairs-reverse : (xs : List A) → Pairs (λ x y. R y x) xs → Pairs R (reverse xs)
  Pairs-reverse [] h = tt
  Pairs-reverse (x ∷ xs) h =
      rw (reverse-cons x xs)
        (Pairs-snoc R (reverse xs) x (Pairs-reverse xs h.1) (All-reverse _ xs h.0))

pub length-reverse {ℓ} : {A : Type ℓ} (xs : List A) → length (reverse xs) ≡ length xs
length-reverse [] = refl
length-reverse (x ∷ xs) =
    omega
      (arith, ap length (reverse-cons x xs), length-append (reverse xs) (x ∷ []), length-reverse xs)
