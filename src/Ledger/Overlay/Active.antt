-- ===== src/Ledger/Overlay/Active.antt =====
-- Which overlay is active, and what it may change in a policy.
use mathlib.Core.List.{append-nil}
use rain_engine.Prelude.{
  ◌≤◌, ◌≡◌, ◌≢◌, ◌⊎◌, ◌∙◌, String, true, false, some, List, [], ◌∷◌, ◌++◌, any, filter_map, str_eq,
  eq_refl, arith, rfind_map-sound, rfind_map-append, filter_map-append,
}
use rain_engine.Host.{Host}
use rain_engine.Types.Policy.{EnginePolicy}
use rain_engine.Types.Improvement.{
  PolicyOverlay, PolicyOverlayStatus, PolicyTuningRecord, PolicyTuningAction, with_overlay,
}
use rain_engine.Types.Records.{SessionRecord}
use rain_engine.Ledger.Overlay.{rolled_back_id, live_overlay, active_policy_overlay}

-- What an overlay may not change in a policy.
pub record SamePermissions {h : Host} (p q : EnginePolicy h) : Type 0 where
  pub allow_native_skills : q.allow_native_skills ≡ p.allow_native_skills
  pub enable_tool_dry_run : q.enable_tool_dry_run ≡ p.enable_tool_dry_run
  pub validate_tool_args : q.validate_tool_args ≡ p.validate_tool_args
  pub max_cost_per_session : q.max_cost_per_session ≡ p.max_cost_per_session
  pub max_failures : q.max_consecutive_tool_failures ≡ p.max_consecutive_tool_failures
  pub max_retries : q.max_tool_retries_per_step ≡ p.max_tool_retries_per_step
  pub max_ready : q.max_ready_tool_nodes ≡ p.max_ready_tool_nodes
  pub max_inline : q.max_inline_attachment_bytes ≡ p.max_inline_attachment_bytes
  pub cache_threshold : q.cache_threshold_tokens ≡ p.cache_threshold_tokens
  pub self_improvement : q.self_improvement ≡ p.self_improvement

-- The limits that an overlay may set: each one is as before, or at least 1.
pub record SafeLimits {h : Host} (p q : EnginePolicy h) : Type 0 where
  pub max_steps : (q.max_steps ≡ p.max_steps) ⊎ (1 ≤ q.max_steps)
  pub max_execution_time :
      (q.max_execution_time_ms ≡ p.max_execution_time_ms) ⊎ (1 ≤ q.max_execution_time_ms)
  pub provider_timeout :
      (q.provider_timeout_ms ≡ p.provider_timeout_ms) ⊎ (1 ≤ q.provider_timeout_ms)
  pub max_tool_timeout :
      (q.max_tool_timeout_ms ≡ p.max_tool_timeout_ms) ⊎ (1 ≤ q.max_tool_timeout_ms)
  pub max_parallel :
      (q.max_parallel_skill_calls ≡ p.max_parallel_skill_calls) ⊎ (1 ≤ q.max_parallel_skill_calls)

-- A text at the end of a list is found.
any-append : (k : String) (xs : List String) → any (str_eq k) (xs ++ k ∷ []) ≡ true
any-append k [] = rw eq_refl
any-append k (x ∷ xs) = ground (arith, any-append k xs)

module _ {h : Host} where
  -- The overlays that the ledger has rolled back.
  abbrev pub rolled_back_ids : List (SessionRecord h) → List String
  rolled_back_ids = filter_map rolled_back_id

  live_overlay_sound :
      (gone : List String) (r : SessionRecord h) (o : PolicyOverlay h)
      → live_overlay gone r ≡ some o
      → (o.status ≡ PolicyOverlayStatus.applied) × (any (str_eq o.overlay_id) gone ≡ false)
  live_overlay_sound gone r o e = ground arith

  -- An active overlay is applied, and no record of the ledger has rolled it back.
  pub active_overlay_sound :
      (rs : List (SessionRecord h)) (o : PolicyOverlay h)
      → active_policy_overlay rs ≡ some o
      → (o.status ≡ PolicyOverlayStatus.applied)
        × (any (str_eq o.overlay_id) (rolled_back_ids rs) ≡ false)
  unfolding active_policy_overlay
  active_overlay_sound rs o e =
      rfind_map-sound (live_overlay (rolled_back_ids rs)) (live_overlay_sound (rolled_back_ids rs))
        rs o e

  rolled_back_ids-rollback :
      (rs : List (SessionRecord h)) (t : PolicyTuningRecord h)
      → t.action ≡ PolicyTuningAction.rolled_back
      → rolled_back_ids (rs ++ SessionRecord.policy_tuning t ∷ [])
        ≡ rolled_back_ids rs ++ t.overlay.overlay_id ∷ []
  rolled_back_ids-rollback rs t a =
      filter_map-append rolled_back_id rs (SessionRecord.policy_tuning t ∷ []) ∙ rw a

  rolled_back_ids-applied :
      (rs : List (SessionRecord h)) (t : PolicyTuningRecord h)
      → t.action ≡ PolicyTuningAction.applied
      → rolled_back_ids (rs ++ SessionRecord.policy_tuning t ∷ []) ≡ rolled_back_ids rs
  rolled_back_ids-applied rs t a =
      filter_map-append rolled_back_id rs (SessionRecord.policy_tuning t ∷ [])
      ∙ rw a (append-nil (rolled_back_ids rs))

  -- A rollback takes effect at once: whatever is active after it is another overlay.
  pub rollback_deactivates :
      (rs : List (SessionRecord h)) (t : PolicyTuningRecord h) (o : PolicyOverlay h)
      → t.action ≡ PolicyTuningAction.rolled_back
      → active_policy_overlay (rs ++ SessionRecord.policy_tuning t ∷ []) ≡ some o
      → o.overlay_id ≢ t.overlay.overlay_id
  rollback_deactivates rs t o a e same = cc (
    (active_overlay_sound (rs ++ SessionRecord.policy_tuning t ∷ []) o e).1,
    rolled_back_ids-rollback rs t a,
    any-append t.overlay.overlay_id (rolled_back_ids rs),
  )

  -- An applied tuning with an overlay that no record has rolled back makes that overlay active.
  pub apply_activates :
      (rs : List (SessionRecord h)) (t : PolicyTuningRecord h)
      → t.action ≡ PolicyTuningAction.applied
      → t.overlay.status ≡ PolicyOverlayStatus.applied
      → any (str_eq t.overlay.overlay_id) (rolled_back_ids rs) ≡ false
      → active_policy_overlay (rs ++ SessionRecord.policy_tuning t ∷ []) ≡ some t.overlay
  unfolding active_policy_overlay
  apply_activates rs t a s fresh = rw (rolled_back_ids-applied rs t a) (
      rfind_map-append (live_overlay (rolled_back_ids rs)) rs (SessionRecord.policy_tuning t)
      ∙ ground arith)

  -- An overlay changes no permission, cost, failure, retry, size or self-improvement setting of a
  -- policy; each of the five limits that it may set is unchanged or at least 1; an overlay that is
  -- not applied changes nothing.
  pub with_overlay_limits :
      (p : EnginePolicy h) (o : PolicyOverlay h)
      → SamePermissions p (with_overlay p (some o))
        × SafeLimits p (with_overlay p (some o))
        × (o.status ≢ PolicyOverlayStatus.applied → with_overlay p (some o) ≡ p)
  unfolding with_overlay
  with_overlay_limits p o = (ground arith, ground arith, ground arith)
