-- ===== src/Examples/Sample.antt =====
-- A sample of what the program takes from outside: texts for JSON values, and numbers in millionths
-- for floats.
use rain_engine.Prelude.{
  ℕ, ◌+◌, ◌*◌, ◌/◌, ◌^◌, String, true, false, none, some, [], leb, ltb, min, max,
}
use rain_engine.Host.{Host}
use rain_engine.Types.Ids.{ResumeToken}
use rain_engine.Types.Policy.{default_engine_policy}
use rain_engine.Types.Actions.{PlannedSkillCall}
use rain_engine.Types.Policy.{default_retry_policy}
use rain_engine.Types.Tools.{ToolResultRecord, err, SkillFailureKind}
use rain_engine.Types.Events.{TriggerRecord, AgentTrigger}
use rain_engine.Types.Improvement.{
  PolicyOverlay, PolicyOverlayStatus, PolicyTuningAction, PolicyTuningRecord, empty_patch,
}
use rain_engine.Types.Records.{OutcomeRecord, StopReason}
use rain_engine.Prelude.Int.{pos}

abbrev pub sample : Host
sample = record {
  Value = String;
  get_key = λ v k. none;
  as_str = λ v. some v;
  as_array = λ v. none;
  as_object = λ v. none;
  is_string = λ v. true;
  is_number = λ v. false;
  is_integer = λ v. false;
  is_boolean = λ v. false;
  is_null = λ v. false;
  F64 = ℕ;
  lit = λ m d. m * 1000000 / 10 ^ d;
  of_usize = λ n. n * 1000000;
  fadd = λ a b. a + b;
  fmul = λ a b. a * b / 1000000;
  fdiv = λ a b. a * 1000000 / b;
  fmin = min;
  fmax = max;
  fleb = leb;
  fltb = ltb;
  ceil_u64 = λ x. (x + 999999) / 1000000;
  trunc_u64 = λ x. x / 1000000;
}

abbrev pub token_a : ResumeToken
token_a = record { text = "a" }

abbrev pub done_outcome : OutcomeRecord
done_outcome = record {
  trigger_id = "t1";
  idempotency_key = some "k1";
  finished_at = 7;
  stop_reason = StopReason.responded;
  response = some "hello";
  detail = none;
  steps_executed = 1;
  resume_token = none;
}

abbrev pub hello : TriggerRecord sample
hello = record {
  trigger_id = "t1";
  session_id = "s";
  idempotency_key = none;
  recorded_at = 1;
  trigger = AgentTrigger.message "u" "hi" [];
  intent = none;
}

abbrev pub ping_call : PlannedSkillCall sample
ping_call = record {
  call_id = "c1";
  name = "ping";
  args = "{}";
  priority = pos 0;
  depends_on = [];
  retry_policy = record { policy = default_retry_policy sample };
  dry_run = false;
}

abbrev pub failed_ping : ToolResultRecord sample
failed_ping = record {
  call_id = "c1";
  finished_at = 3;
  skill_name = "ping";
  output = err (record { kind = SkillFailureKind.timeout; message = "late" });
}

abbrev pub overlay_of : String → PolicyOverlayStatus → PolicyOverlay sample
overlay_of id status = record {
  overlay_id = id;
  created_at = 5;
  status = status;
  reason = "more time";
  evidence_window_records = 4;
  patch = record empty_patch { max_steps = some 0 };
  confidence = 740000;
  rollback_condition = "regression";
}

abbrev pub tuning_of : String → PolicyOverlayStatus → PolicyTuningAction → PolicyTuningRecord sample
tuning_of id status action = record {
  tuning_id = "tuning";
  created_at = 5;
  overlay = overlay_of id status;
  action = action;
  prior_policy = default_engine_policy sample;
  projected_policy = default_engine_policy sample;
}
