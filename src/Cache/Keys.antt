-- ===== src/Cache/Keys.antt =====
-- The keys of the two caches: every field takes part in the comparison.
use mathlib.Core.List.{cons≢nil}
use imads.Prelude.{◌≡◌, refl, sym, Bool, true, false, ◌&&◌, ◌↔◌, [], ◌∷◌, arith, ℕ, ◌==◌, ==_iff}
use imads.Prelude.Int.{ℤ, pos_part, neg_part}
use imads.Types.{
  Phi, XMesh, CacheTag, tag_cheap, tag_partial, tag_truth, EvalCacheKey, DecisionCacheKey,
}
use imads.Cache.{KeyEq}

unfoldable pub same_ℤ : ℤ → ℤ → Bool
same_ℤ a b = (pos_part a == pos_part b) && (neg_part a == neg_part b)

pub same_ℤ_iff : (a b : ℤ) → (same_ℤ a b ≡ true) ↔ (a ≡ b)
unfolding same_ℤ
same_ℤ_iff a b = ground arith

unfoldable pub same_mesh : XMesh → XMesh → Bool
same_mesh [] [] = true
same_mesh [] (v ∷ y) = false
same_mesh (u ∷ x) [] = false
same_mesh (u ∷ x) (v ∷ y) = same_ℤ u v && same_mesh x y

pub same_mesh_iff : (x y : XMesh) → (same_mesh x y ≡ true) ↔ (x ≡ y)
unfolding same_mesh
same_mesh_iff [] [] = (λ h. refl, λ h. refl)
same_mesh_iff [] (v ∷ y) = (λ h. ground arith, λ h. absurd (cons≢nil (sym h)))
same_mesh_iff (u ∷ x) [] = (λ h. ground arith, λ h. absurd (cons≢nil h))
same_mesh_iff (u ∷ x) (v ∷ y) = grind (arith, same_ℤ_iff u v, same_mesh_iff x y)

unfoldable pub same_phi : Phi → Phi → Bool
same_phi a b = (a.tau == b.tau) && (a.smc == b.smc)

pub same_phi_iff : (a b : Phi) → (same_phi a b ≡ true) ↔ (a ≡ b)
unfolding same_phi
same_phi_iff a b = grind arith

unfoldable pub same_tag : CacheTag → CacheTag → Bool
same_tag tag_cheap tag_cheap = true
same_tag tag_partial tag_partial = true
same_tag tag_truth tag_truth = true
same_tag _ _ = false

pub same_tag_iff : (a b : CacheTag) → (same_tag a b ≡ true) ↔ (a ≡ b)
unfolding same_tag
same_tag_iff a b = ground arith

abbrev pub same_eval : EvalCacheKey → EvalCacheKey → Bool
same_eval a b = same_mesh a.x b.x && same_phi a.phi b.phi && (a.env_rev == b.env_rev)

pub same_eval_iff : (a b : EvalCacheKey) → (same_eval a b ≡ true) ↔ (a ≡ b)
same_eval_iff a b = grind (arith, same_mesh_iff a.x b.x, same_phi_iff a.phi b.phi)

abbrev pub same_decision : DecisionCacheKey → DecisionCacheKey → Bool
same_decision a b =
    same_mesh a.x b.x
    && same_phi a.phi b.phi
    && (a.env_rev == b.env_rev)
    && (a.policy_rev == b.policy_rev)
    && same_tag a.tag b.tag

pub same_decision_iff : (a b : DecisionCacheKey) → (same_decision a b ≡ true) ↔ (a ≡ b)
same_decision_iff a b =
    grind (arith, same_mesh_iff a.x b.x, same_phi_iff a.phi b.phi, same_tag_iff a.tag b.tag)

instance abbrev pub eval_key : KeyEq EvalCacheKey
eval_key = record { same = same_eval; same_iff = same_eval_iff }

instance abbrev pub decision_key : KeyEq DecisionCacheKey
decision_key = record { same = same_decision; same_iff = same_decision_iff }

instance abbrev pub phi_key : KeyEq Phi
phi_key = record { same = same_phi; same_iff = same_phi_iff }

instance abbrev pub nat_key : KeyEq ℕ
nat_key = record { same = ◌==◌; same_iff = ==_iff }
