-- ===== src/Mesh/Nested.antt =====
-- Nested meshes: a point of the mesh before a refinement lies on the mesh after it.
use imads.Prelude.{
  ℕ, zero, suc, ◌+◌, ◌*◌, ◌/◌, ◌≤◌, ◌≡◌, refl, sym, ap, ◌∙◌, inl, inr, List, [], ◌∷◌, map, arith,
  Bool-cases, All, replicate,
}
use imads.Prelude.Int.{ℤ, pos, negsuc, sub_ℕ, ◌*ℤ◌, ◌≤ℤ◌, ltb_ℤ}
use imads.Prelude.I64.{max_ℤ, quot}
use imads.Mesh.{
  MeshGeometry, AnisotropicMeshGeometry, refine_mul, refine, refine_aniso, to_anisotropic,
}

-- The coordinate is a multiple of the mesh multiplier.
abbrev pub OnMesh : ℤ → ℤ → Type 0
OnMesh mul x = (k : ℤ) × (x ≡ k *ℤ mul)

pub pos-*ℤ : (a b : ℕ) → pos a *ℤ pos b ≡ pos (a * b)
unfolding ◌*ℤ◌
pos-*ℤ a b = let e : a * b + 0 * 0 ≡ a * b = omega arith in ground arith

neg-*ℤ : (a b : ℕ) → sub_ℕ 0 a *ℤ pos b ≡ sub_ℕ 0 (a * b)
unfolding ◌*ℤ◌
neg-*ℤ zero b = let e : zero * b ≡ 0 = omega arith in ground arith
neg-*ℤ (suc a) b = ground arith

negsuc-eq : (a : ℕ) → negsuc a ≡ sub_ℕ 0 (suc a)
negsuc-eq a = ground arith

pub *ℤ_regroup : (j : ℤ) (k d : ℕ) → j *ℤ pos (k * d) ≡ j *ℤ pos d *ℤ pos k
*ℤ_regroup (pos a) k d =
    pos-*ℤ a (k * d)
    ∙ ap pos (let e : a * (k * d) ≡ a * d * k = omega arith in e)
    ∙ sym (rw (pos-*ℤ a d) (pos-*ℤ (a * d) k))
*ℤ_regroup (negsuc a) k d = rw negsuc-eq (
    neg-*ℤ (suc a) (k * d)
    ∙ ap (sub_ℕ 0) (let e : suc a * (k * d) ≡ suc a * d * k = omega arith in e)
    ∙ sym (rw (neg-*ℤ (suc a) d) (neg-*ℤ (suc a * d) k)))

-- The lists are of one length, and elements at the same place are related.
abbrev pub AtEach : (ℤ → ℤ → Type 0) → List ℤ → List ℤ → Type 0
AtEach R [] [] = Unit
AtEach R (m ∷ ms) (x ∷ xs) = R m x × AtEach R ms xs
AtEach R _ _ = ⊥

-- A point with a coordinate for each multiplier lies on the mesh.
abbrev pub OnGrid : List ℤ → List ℤ → Type 0
OnGrid = AtEach OnMesh

-- The multiplier is a multiple `k` of the divisor, and `k` is not below the minimum.
abbrev pub Splits : ℤ → ℤ → ℤ → Type 0
Splits div minm mul = (d k : ℕ) × (div ≡ pos d) × (mul ≡ pos (k * d)) × (minm ≤ℤ pos k) × (1 ≤ d)

cancelled :
    (k d : ℕ) (minm : ℤ) → 1 ≤ d → minm ≤ℤ pos k → max_ℤ (quot (pos (k * d)) (pos d)) minm ≡ pos k
unfolding max_ℤ quot
cancelled k d minm h le = let e : k * d / d ≡ k = grind arith in ground arith

refine_mul_nested :
    (div minm mul x : ℤ) → Splits div minm mul → OnMesh mul x → OnMesh (refine_mul div minm mul) x
unfolding refine_mul
refine_mul_nested div minm mul x (d, k, e_div, e_mul, fits, d_pos) (j, e) =
    elim (Bool-cases (ltb_ℤ minm mul)) [
      | inl above ↦
          rw (above, refine_mul, shrunk) (j *ℤ pos d, e ∙ ap (◌*ℤ◌ j) e_mul ∙ *ℤ_regroup j k d)
      | inr at_min ↦ rw (at_min, refine_mul) (j, e)
    ]
  where
    shrunk : max_ℤ (quot mul div) minm ≡ pos k
    shrunk = rw (e_mul, e_div) (cancelled k d minm d_pos fits)

refined_muls_nested :
    (div minm : ℤ) (muls xs : List ℤ)
    → All (Splits div minm) muls
    → OnGrid muls xs
    → OnGrid (map (refine_mul div minm) muls) xs
refined_muls_nested div minm [] [] s g = tt
refined_muls_nested div minm [] (x ∷ xs) s g = absurd g
refined_muls_nested div minm (m ∷ ms) [] s g = absurd g
refined_muls_nested div minm (m ∷ ms) (x ∷ xs) s g =
    (refine_mul_nested div minm m x s.0 g.0, refined_muls_nested div minm ms xs s.1 g.1)

map-replicate {ℓ κ} :
    {A : Type ℓ} {B : Type κ} (f : A → B) (n : ℕ) (a : A)
    → map f (replicate n a) ≡ replicate n (f a)
map-replicate f zero a = refl
map-replicate f (suc n) a = ap (◌∷◌ (f a)) (map-replicate f n a)

module _ {ℓ} {F : Type ℓ} where
  -- If each multiplier is a multiple of the divisor and the quotient is not below the minimum,
  -- every point of the mesh lies on the refined mesh.
  pub refine_aniso_nested :
      (g : AnisotropicMeshGeometry F) (xs : List ℤ)
      → All (Splits (max_ℤ g.refine_div (pos 2)) (max_ℤ g.mesh_mul_min (pos 1))) g.mesh_muls
      → OnGrid g.mesh_muls xs
      → OnGrid (refine_aniso g).mesh_muls xs
  unfolding refine_aniso
  refine_aniso_nested g xs s grid = refined_muls_nested _ _ g.mesh_muls xs s grid

  -- To refine a mesh and then broadcast it to `dim` dimensions gives the same geometry as to
  -- broadcast it and then refine each dimension.
  pub refine-to_anisotropic :
      (g : MeshGeometry F) (dim : ℕ)
      → refine_aniso (to_anisotropic g dim) ≡ to_anisotropic (refine g) dim
  unfolding refine_aniso to_anisotropic refine
  refine-to_anisotropic g dim = rw (
      map-replicate (refine_mul (max_ℤ g.refine_div (pos 2)) (max_ℤ g.mesh_mul_min (pos 1))) dim
        g.mesh_mul)
