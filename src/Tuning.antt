-- ===== src/Tuning.antt =====
-- Self-improvement of rain-engine-core/src/engine.rs: `propose_policy_tuning`,
-- `maybe_rollback_regression` and what they use. Fresh identifiers and times are arguments.
pub mod Effects
use Prim.Native.Char.{Char, code}
use Prim.Native.String.{char_at}
use Prim.Native.String
use rain_engine.Prelude.{
  ℕ, suc, length, ◌-◌, max, String, Bool, true, false, ◌&&◌, Option, none, some, List, [], ◌∷◌, leb,
  if◌then◌else◌,
}
use mathlib.Core.Option
use rain_engine.Prelude.Text.{concat, contains}
use rain_engine.Host.{Host}
use rain_engine.Types.Ids.{SystemTime}
use rain_engine.Types.Policy.{SelfImprovementMode}
use rain_engine.Types.Improvement.{
  PolicyOverlay, PolicyOverlayPatch, PolicyOverlayStatus, PolicyTuningAction, PolicyTuningRecord,
  empty_patch, apply_to,
}
use rain_engine.Types.Records.{OutcomeRecord, StopReason, SessionRecord}
use rain_engine.Types.State.{AgentContextSnapshot}
use rain_engine.Ledger.Overlay.{active_policy_overlay}

abbrev lower_char : Char → Char
lower_char c =
    if leb 65 (code c) && leb (code c) 90
    then char_at "abcdefghijklmnopqrstuvwxyz" (code c - 65)
    else c

-- `str::to_ascii_lowercase`
unfoldable pub to_ascii_lowercase : String → String
to_ascii_lowercase String.[] = String.[]
to_ascii_lowercase (String.◌∷◌ c s) = String.◌∷◌ (lower_char c) (to_ascii_lowercase s)

-- The detail mentions a time-out, in any case of its letters.
unfoldable pub mentions_timeout : Option String → Bool
unfolding to_ascii_lowercase
mentions_timeout none = false
mentions_timeout (some detail) = contains (to_ascii_lowercase detail) "timeout"

-- The detail mentions a cost.
unfoldable pub mentions_cost : Option String → Bool
mentions_cost none = false
mentions_cost (some detail) = contains detail "cost"

abbrev pub is_regression : StopReason → Bool
is_regression StopReason.provider_failure = true
is_regression StopReason.deadline_exceeded = true
is_regression StopReason.policy_aborted = true
is_regression _ = false

-- The status and the action of a proposal: rejected for a cost, and else by the mode.
unfoldable pub overlay_status : Bool → SelfImprovementMode → PolicyOverlayStatus
overlay_status true mode = PolicyOverlayStatus.rejected
overlay_status false SelfImprovementMode.advisory = PolicyOverlayStatus.proposed
overlay_status false SelfImprovementMode.auto_with_guardrails = PolicyOverlayStatus.applied
overlay_status false SelfImprovementMode.shadow = PolicyOverlayStatus.proposed

unfoldable pub tuning_action : Bool → SelfImprovementMode → PolicyTuningAction
tuning_action true mode = PolicyTuningAction.rejected_unsafe
tuning_action false SelfImprovementMode.advisory = PolicyTuningAction.proposed
tuning_action false SelfImprovementMode.auto_with_guardrails = PolicyTuningAction.applied
tuning_action false SelfImprovementMode.shadow = PolicyTuningAction.proposed

module _ {h : Host} where
  unfoldable pub terminal_observation_count : List (SessionRecord h) → ℕ
  terminal_observation_count [] = 0
  terminal_observation_count (SessionRecord.outcome o ∷ rs) = suc (terminal_observation_count rs)
  terminal_observation_count (_ ∷ rs) = terminal_observation_count rs

-- `value.clamp(low, high)`
abbrev pub clamp : (h : Host) → h.F64 → h.F64 → h.F64 → h.F64
clamp h value low high = if h.fltb value low then low else if h.fltb high value then high else value

-- `increase_by_percent` and `increase_usize_by_percent`
unfoldable pub increase_by_percent : (h : Host) → ℕ → h.F64 → ℕ
increase_by_percent h value percent =
    h.ceil_u64
      (h.fmul (h.of_usize (max value 1)) (h.fadd (h.lit 1 0) (h.fdiv percent (h.lit 100 0))))

module _ {h : Host} where
  -- The patch and the reason for an outcome. Without a reason nothing is proposed.
  unfoldable pub draft :
      AgentContextSnapshot h
      → Option String
      → h.F64
      → StopReason
      → PolicyOverlayPatch × Option String
  unfolding increase_by_percent mentions_timeout mentions_cost terminal_observation_count
  draft snapshot detail delta StopReason.provider_failure =
      if mentions_timeout detail
      then (
        record empty_patch {
          provider_timeout_ms =
              some (increase_by_percent h snapshot.policy.provider_timeout_ms delta);
        },
        some "Provider timed out; increasing provider timeout within guardrails.",
      )
      else (empty_patch, none)
  draft snapshot detail delta StopReason.max_steps_reached =
      let multiplier = h.of_usize (max (terminal_observation_count snapshot.history) 1) in
      let aggressive_delta = h.fmin (h.fmul delta multiplier) (h.lit 200 0) in
      (
        record empty_patch {
          max_steps = some (increase_by_percent h snapshot.policy.max_steps aggressive_delta);
        },
        some "Session hit max steps; increasing future step budget within guardrails.",
      )
  draft snapshot detail delta StopReason.deadline_exceeded = (
    record empty_patch {
      max_execution_time_ms =
          some (increase_by_percent h snapshot.policy.max_execution_time_ms delta);
    },
    some "Execution deadline was reached; increasing future wall-clock budget within guardrails.",
  )
  draft snapshot detail delta StopReason.policy_aborted =
      if mentions_cost detail
      then (empty_patch, some "Cost limit was reached; automatic cost-limit increases are blocked.")
      else (empty_patch, none)
  draft snapshot detail delta _ = (empty_patch, none)

  unfoldable pub proposed_overlay :
      String
      → SystemTime
      → AgentContextSnapshot h
      → Bool
      → PolicyOverlayPatch
      → String
      → PolicyOverlay h
  unfolding overlay_status
  proposed_overlay overlay_id now snapshot cost patch reason = record {
    overlay_id = overlay_id;
    created_at = now;
    status = overlay_status cost snapshot.policy.self_improvement.mode;
    reason = reason;
    evidence_window_records = length snapshot.history;
    patch = patch;
    confidence = h.lit 74 2;
    rollback_condition =
        "Rollback if the next terminal outcome regresses to a policy/provider failure.";
  }

  abbrev pub tuning_for :
      String → SystemTime → AgentContextSnapshot h → Bool → PolicyOverlay h → PolicyTuningRecord h
  tuning_for tuning_id now snapshot cost overlay = record {
    tuning_id = tuning_id;
    created_at = now;
    overlay = overlay;
    action = tuning_action cost snapshot.policy.self_improvement.mode;
    prior_policy = snapshot.policy;
    projected_policy = apply_to overlay snapshot.policy;
  }

  abbrev pub propose_with :
      String
      → SystemTime
      → String
      → SystemTime
      → AgentContextSnapshot h
      → Bool
      → PolicyOverlayPatch × Option String
      → Option (PolicyTuningRecord h)
  propose_with overlay_id overlay_at tuning_id now snapshot cost (patch, none) = none
  propose_with overlay_id overlay_at tuning_id now snapshot cost (patch, some reason) = some (
      tuning_for tuning_id now snapshot cost
        (proposed_overlay overlay_id overlay_at snapshot cost patch reason))

  unfoldable pub propose_policy_tuning :
      String
      → SystemTime
      → String
      → SystemTime
      → AgentContextSnapshot h
      → OutcomeRecord
      → Option (PolicyTuningRecord h)
  unfolding draft mentions_cost
  propose_policy_tuning overlay_id overlay_at tuning_id now snapshot outcome =
      let delta =
        clamp h snapshot.policy.self_improvement.max_policy_delta_percent (h.lit 1 0)
          (h.lit 100 0) in
      propose_with overlay_id overlay_at tuning_id now snapshot (mentions_cost outcome.detail)
        (draft snapshot outcome.detail delta outcome.stop_reason)

  abbrev pub rollback_of :
      String → SystemTime → AgentContextSnapshot h → PolicyOverlay h → PolicyTuningRecord h
  rollback_of tuning_id now snapshot active = record {
    tuning_id = tuning_id;
    created_at = now;
    overlay = record active {
      status = PolicyOverlayStatus.rolled_back;
      reason = concat (
          "Regression detected after overlay " ∷ active.overlay_id
          ∷ "; rolling back for future advances." ∷ []);
    };
    action = PolicyTuningAction.rolled_back;
    prior_policy = snapshot.policy;
    projected_policy = snapshot.policy;
  }

  unfoldable pub maybe_rollback_regression :
      String → SystemTime → AgentContextSnapshot h → OutcomeRecord → Option (PolicyTuningRecord h)
  unfolding active_policy_overlay
  maybe_rollback_regression tuning_id now snapshot outcome =
      if snapshot.policy.self_improvement.rollback_on_regression
        && is_regression outcome.stop_reason
      then Option.map (rollback_of tuning_id now snapshot) (active_policy_overlay snapshot.history)
      else none
