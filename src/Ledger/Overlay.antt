-- ===== src/Ledger/Overlay.antt =====
-- rain-engine-core/src/types.rs: `SessionSnapshot::active_policy_overlay`.
pub mod Active
use rain_engine.Prelude.{
  String, Bool, true, false, ◌&&◌, not, Option, none, some, List, any, filter_map, rfind_map,
  str_eq, if◌then◌else◌,
}
use rain_engine.Host.{Host}
use rain_engine.Types.Improvement.{PolicyOverlay, PolicyTuningAction, is_applied}
use rain_engine.Types.Records.{SessionRecord}

abbrev pub action_applied : PolicyTuningAction → Bool
action_applied PolicyTuningAction.applied = true
action_applied _ = false

abbrev pub action_rolled_back : PolicyTuningAction → Bool
action_rolled_back PolicyTuningAction.rolled_back = true
action_rolled_back _ = false

module _ {h : Host} where
  -- The overlay of a tuning that rolled it back.
  abbrev pub rolled_back_id : SessionRecord h → Option String
  rolled_back_id (SessionRecord.policy_tuning t) =
      if action_rolled_back t.action then some t.overlay.overlay_id else none
  rolled_back_id _ = none

  -- The overlay of a tuning that is applied, and not among the overlays rolled back.
  abbrev pub live_overlay : List String → SessionRecord h → Option (PolicyOverlay h)
  live_overlay gone (SessionRecord.policy_tuning t) =
      if action_applied t.action
        && (is_applied t.overlay.status && not (any (str_eq t.overlay.overlay_id) gone))
      then some t.overlay
      else none
  live_overlay gone _ = none

  unfoldable pub active_policy_overlay : List (SessionRecord h) → Option (PolicyOverlay h)
  active_policy_overlay records =
      rfind_map (live_overlay (filter_map rolled_back_id records)) records
