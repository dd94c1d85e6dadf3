-- ===== src/Engine/Materialize/Advances.antt =====
-- A processed outcome either ends its candidate or moves it to a later step of the ladder.
use imads.Prelude.{
  ℕ, ◌+◌, ◌<◌, ◌≡◌, refl, ◌∙◌, ◌⊎◌, inl, inr, Bool, true, false, not, ◌&&◌, List, arith, length,
  Bool-cases,
}
use imads.Types.{
  Phi, Estimates, JobResult, early_infeasible, partial, truth, CandidateStatus, CandidateStageState,
  WorkItem, ready, in_flight,
}
use imads.Engine.Audit.Visits.{FromLadder, next_audit_target_idx-Visits}
use imads.Engine.Candidate.{Policies, Batch, is_last, start_audit, cut, go_on, keep_estimates}

abbrev pub is_done : CandidateStatus → Bool
is_done ready = false
is_done (in_flight i) = false
is_done _ = true

module _ {F : Type 0} where
  -- What no transition loses: the identity, a running audit and its checkpoints.
  pub record Keeps (ladder : List Phi) (cand cand' : CandidateStageState F) : Type 0 where
    pub same_id : cand'.id ≡ cand.id
    pub same_x : cand'.x ≡ cand.x
    pub sticky : cand.audit_required ≡ true → cand'.audit_required ≡ true
    pub same_audit :
        cand.audit_required ≡ true
        → (cand'.audit_origin ≡ cand.audit_origin)
          × (cand'.audit_cut_estimates ≡ cand.audit_cut_estimates)
    pub origin : FromLadder ladder cand'.audit_origin

  -- The candidate is done, or it is ready for a later step of the ladder.
  abbrev pub Moves : List Phi → ℕ → CandidateStageState F → Type 0
  Moves ladder i cand' =
      (is_done cand'.status ≡ true)
      ⊎ ((cand'.status ≡ ready) × (i < cand'.next_phi_idx) × (cand'.next_phi_idx < length ladder))

  pub record Advances (ladder : List Phi) (i : ℕ) (cand cand' : CandidateStageState F)
      : Type 0 where
    pub keeps : Keeps ladder cand cand'
    pub moves : Moves ladder i cand'

  pub start_audit-Keeps :
      (pol : Policies F) (b : Batch F) (cand : CandidateStageState F) (item : WorkItem) (j : ℕ)
      (phi : Phi) (est : Estimates F)
      → FromLadder b.ladder cand.audit_origin
      → Keeps b.ladder cand (start_audit pol b cand item j phi est)
  unfolding start_audit
  start_audit-Keeps pol b cand item j phi est from =
      elim (Bool-cases (not cand.audit_required && pol.should_audit cand.x item.phi item.env_rev)) [
        | inl e ↦ rw (e) (record {
          same_id = refl;
          same_x = refl;
          sticky = λ h. refl;
          same_audit = λ h. absurd (ground arith);
          origin = refl;
        })
        | inr e ↦ rw (e) (record {
          same_id = refl;
          same_x = refl;
          sticky = λ h. h;
          same_audit = λ h. (refl, refl);
          origin = from;
        })
      ]

  pub cut-Advances :
      (b : Batch F) (cand : CandidateStageState F) (item : WorkItem) (j : ℕ)
      → FromLadder b.ladder cand.audit_origin
      → item.phi_idx + 1 < length b.ladder
      → Advances b.ladder item.phi_idx cand (cut b cand item j)
  unfolding cut
  cut-Advances b cand item j from lt = elim (Bool-cases cand.audit_required) [
    | inl e ↦
        let v = next_audit_target_idx-Visits b.ladder cand.audit_origin item.phi_idx from lt in
        rw (e) (record {
          keeps = record {
            same_id = refl;
            same_x = refl;
            sticky = λ h. h;
            same_audit = λ h. (refl, refl);
            origin = from;
          };
          moves = inr (refl, v.later, v.within);
        })
    | inr e ↦ rw (e) (record {
      keeps = record {
        same_id = refl;
        same_x = refl;
        sticky = λ h. h;
        same_audit = λ h. (refl, refl);
        origin = from;
      };
      moves = inl refl;
    })
  ]

  pub go_on-Advances :
      (b : Batch F) (cand : CandidateStageState F) (item : WorkItem)
      → FromLadder b.ladder cand.audit_origin
      → item.phi_idx + 1 < length b.ladder
      → Advances b.ladder item.phi_idx cand (go_on b cand item)
  unfolding go_on
  go_on-Advances b cand item from lt =
      let v = next_audit_target_idx-Visits b.ladder cand.audit_origin item.phi_idx from lt in
      record {
        keeps = record {
          same_id = refl;
          same_x = refl;
          sticky = λ h. h;
          same_audit = λ h. (refl, refl);
          origin = from;
        };
        moves = inr (
          refl,
          elim (Bool-cases cand.audit_required) [
            | inl e ↦ rw (e) v.later
            | inr e ↦ rw (e) (omega arith)
          ],
          elim (Bool-cases cand.audit_required) [ inl e ↦ rw (e) v.within | inr e ↦ rw (e) lt ],
        );
      }

  pub Keeps-Advances :
      {ladder : List Phi} {i : ℕ} (a b c : CandidateStageState F)
      → Keeps ladder a b
      → Advances ladder i b c
      → Advances ladder i a c
  Keeps-Advances a b c k v = record {
    keeps = record {
      same_id = v.keeps.same_id ∙ k.same_id;
      same_x = v.keeps.same_x ∙ k.same_x;
      sticky = λ h. v.keeps.sticky (k.sticky h);
      same_audit = λ h.
          let (origin, estimates) = v.keeps.same_audit (k.sticky h) in
          (origin ∙ (k.same_audit h).0, estimates ∙ (k.same_audit h).1);
      origin = v.keeps.origin;
    };
    moves = v.moves;
  }

  pub done-Advances :
      (ladder : List Phi) (i : ℕ) (cand : CandidateStageState F) (s : CandidateStatus)
      → FromLadder ladder cand.audit_origin
      → is_done s ≡ true
      → Advances ladder i cand (record cand { status = s })
  done-Advances ladder i cand s from h = record {
    keeps = record {
      same_id = refl;
      same_x = refl;
      sticky = λ h. h;
      same_audit = λ h. (refl, refl);
      origin = from;
    };
    moves = inl h;
  }

  pub keep_estimates-Keeps :
      (ladder : List Phi) (cand : CandidateStageState F) (item : WorkItem) (est : Estimates F)
      → FromLadder ladder cand.audit_origin
      → Keeps ladder cand (keep_estimates cand item est)
  keep_estimates-Keeps ladder cand item est from = record {
    same_id = refl;
    same_x = refl;
    sticky = λ h. h;
    same_audit = λ h. (refl, refl);
    origin = from;
  }

  -- A cached decision is one that this step can have: no partial result on the last step.
  abbrev pub Fits : Batch F → WorkItem → JobResult F → Type 0
  Fits b item (partial est meta) = is_last b item ≡ false
  Fits b item (early_infeasible j est meta) = is_last b item ≡ false
  Fits b item (truth f c feasible v meta) = is_last b item ≡ true
  Fits b item _ = Unit

  pub before_last :
      (b : Batch F) (item : WorkItem)
      → item.phi_idx < length b.ladder
      → is_last b item ≡ false
      → item.phi_idx + 1 < length b.ladder
  before_last b item lt h = ground arith
