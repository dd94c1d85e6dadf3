-- ===== src/Engine/Run/Sent.antt =====
-- The picked candidates that go in flight are in the store.
use imads.Prelude.{
  ℕ, ◌≡◌, refl, sym, ap, subst, ◌∙◌, inl, inr, some, List, [], ◌∷◌, arith, get_elem?, All,
  Option-cases,
}
use imads.Types.{Phi, CandidateStageState, WorkItem}
use imads.Cache.{get}
use imads.Cache.Keys.{nat_key}
use imads.Engine.Dispatch.{dispatch}
use imads.Engine.Store.{Store, find, write}
use imads.Engine.Store.Placed.{IsPlaced, IsKnown, write-IsPlaced}
use imads.Engine.State.{RunEnv, RunState}
use imads.Engine.Run.{send_all}

dispatch-id :
    {F : Type 0} (ladder : List Phi) (env_rev policy_rev incumbent : ℕ)
    (cand cand' : CandidateStageState F) (item : WorkItem)
    → dispatch ladder env_rev policy_rev incumbent cand ≡ some (cand', item)
    → (cand'.id ≡ cand.id) × (item.cand_id ≡ cand.id)
unfolding dispatch
dispatch-id ladder env_rev policy_rev incumbent cand cand' item h = ground arith

module _ {F : Type 0} where
  -- What a lookup finds is in the store, under a known id.
  pub find-there :
      (s : Store F) (id place : ℕ) (cand : CandidateStageState F)
      → find s id ≡ some (place, cand)
      → (get s.index id ≡ some place) × (get_elem? s.cands place ≡ some cand)
  unfolding find
  find-there s id place cand h = ground arith

  find-id :
      (s : Store F) (id place : ℕ) (cand : CandidateStageState F)
      → IsPlaced s
      → find s id ≡ some (place, cand)
      → cand.id ≡ id
  find-id s id place cand placed h =
      let (known, there) = find-there s id place cand h in
      let a = placed id place known in
      let one : cand ≡ a.cand = grind (arith, there, a.there) in
      ap (λ (c : CandidateStageState F). c.id) one ∙ a.same

  pub record Sends (store : Store F) (after : Store F × List WorkItem) : Type 0 where
    pub placed : IsPlaced after.0
    pub same_index : after.0.index ≡ store.index
    pub known : All (λ item. IsKnown store item.cand_id) after.1

  one_more-Sends :
      (store : Store F) (place : ℕ) (cand' : CandidateStageState F) (item : WorkItem)
      (after : Store F × List WorkItem)
      → get store.index item.cand_id ≡ some place
      → Sends (write store place cand') after
      → Sends store (after.0, item ∷ after.1)
  one_more-Sends store place cand' item after e h = record {
    placed = h.placed;
    same_index = h.same_index;
    known = ((place, e), h.known);
  }

module _ {F C D S : Type 0} (env : RunEnv F) (s : RunState F C D S) where
  pub send_all-Sends :
      (store : Store F) (ids : List ℕ) → IsPlaced store → Sends store (send_all env s store ids)
  unfolding send_all
  send_all-Sends store [] placed = record { placed = placed; same_index = refl; known = tt }
  send_all-Sends store (id ∷ ids) placed = elim (Option-cases (find store id)) [
    | inl e ↦ rw (send_all, e) (send_all-Sends store ids placed)
    | inr ((place, cand), e) ↦
        elim (Option-cases (dispatch env.ladder env.env_rev s.policy_rev s.incumbent_id cand)) [
          | inl passed ↦ rw (send_all, e, passed) (send_all-Sends store ids placed)
          | inr ((cand', item), sent) ↦
              let (known, there) = find-there store id place cand e in
              let (same, item_same) = dispatch-id _ _ _ _ cand cand' item sent in
              let id_same : id ≡ item.cand_id =
                sym (item_same ∙ find-id store id place cand placed e) in
              rw (send_all, e, sent)
                (one_more-Sends store place cand' item
                  (send_all env s (write store place cand') ids)
                  (subst (λ i. get store.index i ≡ some place) id_same known)
                  (send_all-Sends (write store place cand') ids
                    (write-IsPlaced store place cand cand' placed there same)))
        ]
  ]
