-- ===== src/Mesh/Refine.antt =====
-- What `refine` does to the multipliers: they fall to the minimum, and the meshes are nested.
use native.Mathlib.Nat.{pow-suc, mul_comm}
use imads.Prelude.{
  subst, true, false, ℕ, zero, suc, ◌*◌, ◌/◌, ◌^◌, ◌≤◌, ◌≡◌, refl, ◌∙◌, ◌⊎◌, inl, inr, arith,
}
use imads.Prelude.Int.{ℤ, pos, negsuc, ◌≤ℤ◌, ltb_ℤ}
use imads.Prelude.I64.{max_ℤ, quot, max_ℤ_bounds}
use imads.Mesh.{MeshGeometry, refine_mul, refine}

-- The new multiplier is no larger, it is below the old one while that is above the minimum, and it
-- does not go below the minimum.
pub record Shrinks (minm old new : ℤ) : Type 0 where
  pub no_larger : new ≤ℤ old
  pub floor : minm ≤ℤ old → minm ≤ℤ new
  pub smaller : ltb_ℤ minm old ≡ true → ltb_ℤ new old ≡ true
  pub fixed : ltb_ℤ minm old ≡ false → new ≡ old

pub refine_mul-Shrinks :
    (div minm old : ℤ) → pos 2 ≤ℤ div → pos 1 ≤ℤ minm → Shrinks minm old (refine_mul div minm old)
unfolding refine_mul max_ℤ quot
refine_mul-Shrinks (pos d) (pos m) (pos a) hd hm =
    let le : a / d ≤ a / 2 = grind arith in
    record {
      no_larger = ground arith;
      floor = ground arith;
      smaller = ground arith;
      fixed = ground arith;
    }
refine_mul-Shrinks (pos d) (pos m) (negsuc a) hd hm = record {
  no_larger = ground arith;
  floor = ground arith;
  smaller = ground arith;
  fixed = ground arith;
}
refine_mul-Shrinks (negsuc d) minm old hd hm = absurd (omega arith)
refine_mul-Shrinks (pos d) (negsuc m) old hd hm = absurd (omega arith)

-- A refinement halves the multiplier at least, or ends at the minimum.
refine_mul-halves :
    (div minm old : ℤ) (n : ℕ)
    → pos 2 ≤ℤ div
    → pos 1 ≤ℤ minm
    → (ltb_ℤ old (pos (2 * n)) ≡ true) ⊎ (old ≡ minm)
    → minm ≤ℤ old
    → (ltb_ℤ (refine_mul div minm old) (pos n) ≡ true) ⊎ (refine_mul div minm old ≡ minm)
unfolding refine_mul max_ℤ quot
refine_mul-halves (pos d) (pos m) (pos a) n hd hm hi lo =
    let le : a / d ≤ a / 2 = grind arith in ground arith
refine_mul-halves (pos d) (pos m) (negsuc a) n hd hm hi lo = absurd (omega arith)
refine_mul-halves (negsuc d) minm old n hd hm hi lo = absurd (omega arith)
refine_mul-halves (pos d) (negsuc m) old n hd hm hi lo = absurd (omega arith)

module _ {ℓ} {F : Type ℓ} where
  -- `mesh_mul_min.max(1)`
  abbrev pub minimum : MeshGeometry F → ℤ
  minimum g = max_ℤ g.mesh_mul_min (pos 1)

  -- One refinement shrinks the mesh: the multiplier falls while it is above the minimum, never
  -- below it, and nothing else of the geometry changes.
  pub refine-Shrinks :
      (g : MeshGeometry F)
      → Shrinks (minimum g) g.mesh_mul (refine g).mesh_mul
        × (refine g ≡ record g { mesh_mul = (refine g).mesh_mul })
  unfolding refine
  refine-Shrinks g = (
    refine_mul-Shrinks _ _ g.mesh_mul (max_ℤ_bounds g.refine_div (pos 2)).1
        (max_ℤ_bounds g.mesh_mul_min (pos 1)).1,
    refl,
  )

  abbrev pub refine_times : ℕ → MeshGeometry F → MeshGeometry F
  refine_times zero g = g
  refine_times (suc n) g = refine_times n (refine g)

  reaches :
      (n : ℕ) (g : MeshGeometry F)
      → minimum g ≤ℤ g.mesh_mul
      → (ltb_ℤ g.mesh_mul (pos (2 ^ n)) ≡ true) ⊎ (g.mesh_mul ≡ minimum g)
      → (refine_times n g).mesh_mul ≡ minimum g
  unfolding refine
  reaches zero g lo (inl hi) = absurd (ground (arith, max_ℤ_bounds g.mesh_mul_min (pos 1)))
  reaches zero g lo (inr e) = e
  reaches (suc n) g lo hi = reaches n (refine g) ((refine-Shrinks g).0.floor lo) (
      refine_mul-halves _ _ g.mesh_mul (2 ^ n) (max_ℤ_bounds g.refine_div (pos 2)).1
        (max_ℤ_bounds g.mesh_mul_min (pos 1)).1
        (subst (λ k. (ltb_ℤ g.mesh_mul (pos k) ≡ true) ⊎ (g.mesh_mul ≡ minimum g))
          (pow-suc 2 n ∙ mul_comm (2 ^ n) 2) hi)
        lo)

  -- A multiplier below 2 ^ n and not below the minimum is the minimum after n refinements.
  pub refine_times_reaches :
      (n : ℕ) (g : MeshGeometry F)
      → minimum g ≤ℤ g.mesh_mul
      → ltb_ℤ g.mesh_mul (pos (2 ^ n)) ≡ true
      → (refine_times n g).mesh_mul ≡ minimum g
  refine_times_reaches n g lo hi = reaches n g lo (inl hi)
