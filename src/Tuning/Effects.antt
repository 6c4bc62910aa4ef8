-- ===== src/Tuning/Effects.antt =====
-- What a proposal and a rollback do to the active policy overlay.
use mathlib.Core.Option
use mathlib.Core.List.{append-nil}
use rain_engine.Prelude.{
  ◌≡◌, ◌≢◌, ◌∙◌, refl, String, Bool, true, false, Option, none, some, List, [], ◌∷◌, ◌++◌, any,
  str_eq, arith, filter_map-append, rfind_map-append,
}
use rain_engine.Host.{Host}
use rain_engine.Types.Ids.{SystemTime}
use rain_engine.Types.Policy.{SelfImprovementMode}
use rain_engine.Types.Improvement.{
  PolicyOverlay, PolicyOverlayPatch, PolicyOverlayStatus, PolicyTuningAction, PolicyTuningRecord,
  apply_to, with_overlay,
}
use rain_engine.Types.Records.{OutcomeRecord, SessionRecord}
use rain_engine.Types.State.{AgentContextSnapshot}
use rain_engine.Ledger.Overlay.{active_policy_overlay, live_overlay, rolled_back_id}
use rain_engine.Ledger.Overlay.Active.{
  rolled_back_ids, rollback_deactivates, apply_activates, with_overlay_limits,
}
use rain_engine.Tuning.{
  propose_policy_tuning, propose_with, proposed_overlay, overlay_status, tuning_action,
  mentions_cost, maybe_rollback_regression, rollback_of, is_regression,
}

module _ {h : Host} where
  -- What is common to all proposals.
  record Proposal (snapshot : AgentContextSnapshot h) (cost : Bool) (overlay_id : String)
      (t : PolicyTuningRecord h) : Type 0 where
    action : t.action ≡ tuning_action cost snapshot.policy.self_improvement.mode
    status : t.overlay.status ≡ overlay_status cost snapshot.policy.self_improvement.mode
    id : t.overlay.overlay_id ≡ overlay_id
    projected : t.projected_policy ≡ apply_to t.overlay snapshot.policy

  propose_with-Proposal :
      (overlay_id : String) (overlay_at : SystemTime) (tuning_id : String) (now : SystemTime)
      (snapshot : AgentContextSnapshot h) (cost : Bool)
      (drafted : PolicyOverlayPatch × Option String) (t : PolicyTuningRecord h)
      → propose_with overlay_id overlay_at tuning_id now snapshot cost drafted ≡ some t
      → Proposal snapshot cost overlay_id t
  unfolding proposed_overlay
  propose_with-Proposal overlay_id overlay_at tuning_id now snapshot cost (patch, none) t e =
      absurd (ground arith)
  propose_with-Proposal overlay_id overlay_at tuning_id now snapshot cost (patch, some reason) t e =
      record { action = cc e; status = cc e; id = cc e; projected = cc e }

  propose-Proposal :
      (overlay_id : String) (overlay_at : SystemTime) (tuning_id : String) (now : SystemTime)
      (snapshot : AgentContextSnapshot h) (outcome : OutcomeRecord) (t : PolicyTuningRecord h)
      → propose_policy_tuning overlay_id overlay_at tuning_id now snapshot outcome ≡ some t
      → Proposal snapshot (mentions_cost outcome.detail) overlay_id t
  unfolding propose_policy_tuning
  propose-Proposal overlay_id overlay_at tuning_id now snapshot outcome t e =
      propose_with-Proposal overlay_id overlay_at tuning_id now snapshot
        (mentions_cost outcome.detail) _ t e

  -- A tuning proposed in automatic mode for an outcome that does not mention a cost, under an
  -- identifier that no record has rolled back, makes its overlay the active one once it is recorded,
  -- and the policy it projects is the snapshot's policy under that overlay.
  pub proposal_activates :
      (overlay_id : String) (overlay_at : SystemTime) (tuning_id : String) (now : SystemTime)
      (snapshot : AgentContextSnapshot h) (outcome : OutcomeRecord) (t : PolicyTuningRecord h)
      → propose_policy_tuning overlay_id overlay_at tuning_id now snapshot outcome ≡ some t
      → snapshot.policy.self_improvement.mode ≡ SelfImprovementMode.auto_with_guardrails
      → mentions_cost outcome.detail ≡ false
      → (rs : List (SessionRecord h)) → any (str_eq overlay_id) (rolled_back_ids rs) ≡ false
      → (active_policy_overlay (rs ++ SessionRecord.policy_tuning t ∷ []) ≡ some t.overlay)
        × (t.projected_policy
            ≡ with_overlay snapshot.policy
                (active_policy_overlay (rs ++ SessionRecord.policy_tuning t ∷ [])))
  unfolding with_overlay overlay_status tuning_action
  proposal_activates overlay_id overlay_at tuning_id now snapshot outcome t e m c rs fresh =
      let p = propose-Proposal overlay_id overlay_at tuning_id now snapshot outcome t e in
      let active : active_policy_overlay (rs ++ SessionRecord.policy_tuning t ∷ [])
          ≡ some t.overlay =
        apply_activates rs t (rw (p.action, c, m) refl) (rw (p.status, c, m) refl)
          (rw (p.id) fresh) in
      (active, rw (active) p.projected)

  rolled_back_ids-rejected :
      (rs : List (SessionRecord h)) (t : PolicyTuningRecord h)
      → t.action ≡ PolicyTuningAction.rejected_unsafe
      → rolled_back_ids (rs ++ SessionRecord.policy_tuning t ∷ []) ≡ rolled_back_ids rs
  rolled_back_ids-rejected rs t b =
      filter_map-append rolled_back_id rs (SessionRecord.policy_tuning t ∷ [])
      ∙ rw b (append-nil (rolled_back_ids rs))

  -- A rejected tuning leaves the active overlay as it is.
  rejected_tuning :
      (rs : List (SessionRecord h)) (t : PolicyTuningRecord h)
      → t.action ≡ PolicyTuningAction.rejected_unsafe
      → active_policy_overlay (rs ++ SessionRecord.policy_tuning t ∷ []) ≡ active_policy_overlay rs
  unfolding active_policy_overlay
  rejected_tuning rs t a = rw (rolled_back_ids-rejected rs t a) (
      rfind_map-append (live_overlay (rolled_back_ids rs)) rs (SessionRecord.policy_tuning t)
      ∙ rw a refl)

  -- A tuning that is proposed for an outcome that mentions a cost changes no policy: it projects the
  -- snapshot's own policy, and recording it leaves the active overlay as it was.
  pub cost_proposal_changes_nothing :
      (overlay_id : String) (overlay_at : SystemTime) (tuning_id : String) (now : SystemTime)
      (snapshot : AgentContextSnapshot h) (outcome : OutcomeRecord) (t : PolicyTuningRecord h)
      → propose_policy_tuning overlay_id overlay_at tuning_id now snapshot outcome ≡ some t
      → mentions_cost outcome.detail ≡ true
      → (rs : List (SessionRecord h))
      → (t.projected_policy ≡ snapshot.policy)
        × (active_policy_overlay (rs ++ SessionRecord.policy_tuning t ∷ [])
            ≡ active_policy_overlay rs)
  unfolding with_overlay overlay_status tuning_action
  cost_proposal_changes_nothing overlay_id overlay_at tuning_id now snapshot outcome t e c rs =
      let p = propose-Proposal overlay_id overlay_at tuning_id now snapshot outcome t e in
      let rejected : t.overlay.status ≡ PolicyOverlayStatus.rejected = rw (p.status, c) refl in
      (
        p.projected ∙ (with_overlay_limits snapshot.policy t.overlay).2 (λ x. cc (x, rejected)),
        rejected_tuning rs t (rw (p.action, c) refl),
      )

  -- No overlay of this identifier.
  no_overlay_of :
      (id : String) (found : Option (PolicyOverlay h))
      → ((o : PolicyOverlay h) → found ≡ some o → o.overlay_id ≢ id)
      → Option.map (λ (o : PolicyOverlay h). o.overlay_id) found ≢ some id
  no_overlay_of id none n x = ground arith
  no_overlay_of id (some o) n x = n o refl (cc x)

  -- After an outcome that is a regression, where the policy asks for rollbacks, the active overlay
  -- is rolled back: a tuning is returned, and once it is recorded behind the snapshot's history no
  -- overlay of that identifier is active.
  pub regression_ends_overlay :
      (tuning_id : String) (now : SystemTime) (snapshot : AgentContextSnapshot h)
      (outcome : OutcomeRecord) (o : PolicyOverlay h)
      → snapshot.policy.self_improvement.rollback_on_regression ≡ true
      → is_regression outcome.stop_reason ≡ true
      → active_policy_overlay snapshot.history ≡ some o
      → let t = rollback_of tuning_id now snapshot o in
        (maybe_rollback_regression tuning_id now snapshot outcome ≡ some t)
        × (Option.map
              (λ (o' : PolicyOverlay h). o'.overlay_id)
              (active_policy_overlay (snapshot.history ++ SessionRecord.policy_tuning t ∷ []))
            ≢ some o.overlay_id)
  unfolding maybe_rollback_regression
  regression_ends_overlay tuning_id now snapshot outcome o f r a =
      let t = rollback_of tuning_id now snapshot o in
      (
        rw (f, r, a) refl,
        no_overlay_of o.overlay_id
            (active_policy_overlay (snapshot.history ++ SessionRecord.policy_tuning t ∷ []))
            (λ o' e. rollback_deactivates snapshot.history t o' refl e),
      )
