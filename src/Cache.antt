-- ===== src/Cache.antt =====
-- imads-core/src/backends/cache.rs: the in-memory caches. A `HashMap` is the list of its entries,
-- one for each key; the lock is never poisoned, since nothing panics while it is held.
pub mod Keys
use imads.Prelude.{
  ℕ, ◌≡◌, refl, Bool, true, false, ◌↔◌, Option, none, some, List, [], ◌∷◌, arith, if◌then◌else◌,
  Bool-cases, inl, inr,
}

-- Equality of keys, as `Eq` derives it.
pub record KeyEq (K : Type 0) : Type 0 where
  pub same : K → K → Bool
  pub same_iff : (a b : K) → (same a b ≡ true) ↔ (a ≡ b)

abbrev pub MemoryCache : Type 0 → Type 0 → Type 0
MemoryCache K V = List (K × V)

module _ {K V : Type 0} ⦃e : KeyEq K⦄ where
  unfoldable pub get : MemoryCache K V → K → Option V
  get [] key = none
  get ((k, v) ∷ m) key = if e.same k key then some v else get m key

  unfoldable pub put : MemoryCache K V → K → V → MemoryCache K V
  put [] key value = (key, value) ∷ []
  put ((k, v) ∷ m) key value = if e.same k key then (k, value) ∷ m else (k, v) ∷ put m key value

  -- After a write a lookup gives the written value under its key, and under every other key what it
  -- gave before.
  pub get-put :
      (m : MemoryCache K V) (key other : K) (value : V)
      → get (put m key value) other ≡ (if e.same key other then some value else get m other)
  unfolding get put
  get-put [] key other value = refl
  get-put ((k, v) ∷ m) key other value = grind (arith, e.same_iff, get-put m key other value)

  pub get-put_self :
      (m : MemoryCache K V) (key : K) (value : V) → get (put m key value) key ≡ some value
  get-put_self m key value = rw (get-put m key key value, (e.same_iff key key).1 refl)
