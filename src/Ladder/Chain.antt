-- ===== src/Ladder/Chain.antt =====
-- Lists whose neighbours are related, and lists in order read by position.
use imads.Prelude.{
  ℕ, zero, suc, ◌<◌, ◌≡◌, refl, List, [], ◌∷◌, ◌++◌, arith, length, get_or, All, Pairs,
}

module _ {ℓ} {A : Type ℓ} where
  abbrev pub last_or : A → List A → A
  last_or d [] = d
  last_or d (x ∷ xs) = last_or x xs

  -- Each element and the next one are related.
  abbrev pub Chain {κ} : (A → A → Type κ) → A → List A → Type κ
  Chain R x [] = Unit
  Chain R x (y ∷ ys) = R x y × Chain R y ys

  pub Chain-snoc {κ} :
      (R : A → A → Type κ) (x : A) (xs : List A) (a : A)
      → Chain R x xs
      → R (last_or x xs) a
      → Chain R x (xs ++ a ∷ [])
  Chain-snoc R x [] a c r = (r, tt)
  Chain-snoc R x (y ∷ ys) a c r = (c.0, Chain-snoc R y ys a c.1 r)

  pub last_or-snoc : (d : A) (xs : List A) (a : A) → last_or d (xs ++ a ∷ []) ≡ a
  last_or-snoc d [] a = refl
  last_or-snoc d (x ∷ xs) a = last_or-snoc x xs a

  -- In a list with every pair related, so are the elements at two places in order.
  pub get_or-All {κ} :
      (P : A → Type κ) (xs : List A) (i : ℕ) (d : A) → All P xs → i < length xs → P (get_or xs i d)
  get_or-All P [] i d h lt = elim lt [ ]
  get_or-All P (x ∷ xs) zero d h lt = h.0
  get_or-All P (x ∷ xs) (suc i) d h lt = get_or-All P xs i d h.1 (omega arith)

  pub get_or-Pairs {κ} :
      (R : A → A → Type κ) (xs : List A) (i : ℕ) (d : A)
      → Pairs R xs
      → suc i < length xs
      → R (get_or xs i d) (get_or xs (suc i) d)
  get_or-Pairs R [] i d h lt = elim lt [ ]
  get_or-Pairs R (x ∷ xs) zero d h lt = get_or-All (R x) xs 0 d h.0 (omega arith)
  get_or-Pairs R (x ∷ xs) (suc i) d h lt = get_or-Pairs R xs i d h.1 (omega arith)
