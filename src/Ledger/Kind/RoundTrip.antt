-- ===== src/Ledger/Kind/RoundTrip.antt =====
-- `as_str` and `parse` of `SessionRecordKind` are inverse to one another.
use rain_engine.Prelude.{
  String, ◌≡◌, ◌↔◌, refl, Option, none, some, arith, str_eq, eq_iff, Bool-cases, inl, inr,
}
use rain_engine.Types.Records.{SessionRecordKind}
use rain_engine.Ledger.Kind.{as_str, parse, arm}

parse-as_str : (k : SessionRecordKind) → parse (as_str k) ≡ some k
unfolding parse as_str
parse-as_str SessionRecordKind.trigger = refl
parse-as_str _ = refl

-- An arm for a kind's own name accepts only that name, over arms that accept only names.
arm_sound :
    (kind : SessionRecordKind) (v : String) {rest : Option SessionRecordKind}
    (k : SessionRecordKind)
    → (rest ≡ some k → as_str k ≡ v)
    → arm (as_str kind) kind v rest ≡ some k
    → as_str k ≡ v
arm_sound kind v {rest} k below h = elim (Bool-cases (str_eq v (as_str kind))) [
  | inl e ↦ ground (arith, eq_iff v (as_str kind))
  | inr e ↦ below (ground arith)
]

-- What `parse` accepts is the name of the kind that it returns.
as_str-parse : (v : String) (k : SessionRecordKind) → parse v ≡ some k → as_str k ≡ v
unfolding parse as_str
as_str-parse v k = arm_sound SessionRecordKind.trigger v k (
    arm_sound SessionRecordKind.trigger_intent v k (
      arm_sound SessionRecordKind.kernel_event v k (
        arm_sound SessionRecordKind.model_decision v k (
          arm_sound SessionRecordKind.deliberation v k (
            arm_sound SessionRecordKind.tool_execution_graph v k (
              arm_sound SessionRecordKind.tool_node_checkpoint v k (
                arm_sound SessionRecordKind.skill_input_validation v k (
                  arm_sound SessionRecordKind.tool_call v k (
                    arm_sound SessionRecordKind.tool_result v k (
                      arm_sound SessionRecordKind.pending_approval v k (
                        arm_sound SessionRecordKind.approval_resolution v k (
                          arm_sound SessionRecordKind.delegation v k (
                            arm_sound SessionRecordKind.coordination_claim v k (
                              arm_sound SessionRecordKind.provider_usage v k (
                                arm_sound SessionRecordKind.provider_cache v k (
                                  arm_sound SessionRecordKind.reflection v k (
                                    arm_sound SessionRecordKind.policy_tuning v k (
                                      arm_sound SessionRecordKind.strategy_preference v k (
                                        arm_sound SessionRecordKind.tool_performance v k (
                                          arm_sound SessionRecordKind.profile_patch v k (
                                            arm_sound SessionRecordKind.execution_plan v k (
                                              arm_sound SessionRecordKind.summary v k (
                                                arm_sound SessionRecordKind.outcome v k
                                                  (λ (e : none ≡ some k). cc))))))))))))))))))))))))

-- `parse` accepts a text exactly when it is the name that `as_str` gives to the kind it returns.
pub parse_iff : (v : String) (k : SessionRecordKind) → (parse v ≡ some k) ↔ (as_str k ≡ v)
parse_iff v k = (as_str-parse v k, λ e. rw (← e) (parse-as_str k))
