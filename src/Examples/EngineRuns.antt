-- ===== src/Examples/EngineRuns.antt =====
-- Runs of the engine.
use rain_engine.Prelude.{
  ℕ, String, ◌≡◌, ◌↔◌, refl, arith, inr, true, false, none, some, List, [], ◌∷◌, str_eq,
  if◌then◌else◌,
}
use rain_engine.Prelude.Int.{pos}
use rain_engine.Prelude.Assoc
use rain_engine.Host.{Host}
use rain_engine.Types.Policy.{default_engine_policy}
use rain_engine.Types.Actions.{AgentAction}
use rain_engine.Types.Tools.{ok, err, is_ok}
use rain_engine.Types.Events.{AgentTrigger}
use rain_engine.Types.Records.{SessionRecord, StopReason}
use rain_engine.Types.Provider.{internal_error, default_config}
use rain_engine.Types.Requests.{AgentContext, AdvanceRequest, AdvanceResult, ProcessRequest}
use rain_engine.Store.Sessions.{append_all}
use rain_engine.Store.Lookups.{put}
use rain_engine.Kernel.{no_delta}
use rain_engine.Ledger.Views.{active_execution_plan, total_estimated_cost_usd}
use rain_engine.Ledger.Views.Plans.{plan_step}
use rain_engine.Store.{new}
use rain_engine.World.{World, Outside}
use rain_engine.World.Exec.{pure}
use rain_engine.World.Grows.{Extends, IsHealthy, JoinsAll}
use rain_engine.Tools.Schema.{is_some, validate_against_schema}
use rain_engine.Tools.Schema.Fits.{Fits, validate-Fits}
use rain_engine.Tools.Performance.{grouped_results}
use rain_engine.Tools.Performance.Counts.{tally_at, grouped_results_count}
use rain_engine.Tools.Attempts.{RegisteredSkill, RegisteredSkillBackend}
use rain_engine.Tools.Prepare.{
  PreparedNode, is_empty, prepare_node, prepared_call, start_call, check_args, refusal,
  append_tool_checkpoint,
}
use rain_engine.Tools.Prepare.Guards.{IsPrepared, prepare_node-IsPrepared}
use rain_engine.Tools.Execute.{execute_rounds, enough_rounds}
use rain_engine.Tools.Execute.Termination.{execute_rounds_end}
use rain_engine.Engine.Context.{AgentEngine}
use rain_engine.Engine.Finish.{policy_stop}
use rain_engine.Engine.Step.{perform_single_step}
use rain_engine.Engine.Step.Stops.{
  EndsFor, perform_single_step_limited, perform_single_step_unanswered,
}
use rain_engine.Engine.Advance.{advance, advance_trigger}
use rain_engine.Engine.Advance.Grows.{advance-Extends, advance_returns}
use rain_engine.Engine.Advance.Replay.{advance_trigger_replays, advance_unstored}
use rain_engine.Examples.Sample.{sample, hello, done_outcome, failed_ping}
use rain_engine.Examples.ToolRuns.{ping_skill, node_of, two_pings}

-- A model that greets, a store that works, and tasks that end in the order they start in.
abbrev pub calm : Outside sample
calm = record {
  now = λ n. n;
  instant = λ n. 0;
  uuid = λ n. "u";
  memory_fails = λ n. none;
  generate_action =
      λ n r. ok (record { action = AgentAction.respond "hello"; usage = none; cache = none });
  is_late = λ n. false;
  is_cancelled = λ n. false;
  joined = λ n results. results;
  debug_record = λ r. "record";
  to_value = λ records. "[]";
  debug_time = λ t. "time";
  calls_value = λ calls. "[]";
  to_lowercase = λ s. s;
  json_text = λ key text. text;
  json_number = λ key n. "0";
  show_fixed = λ digits x. "0";
}

calm-JoinsAll : JoinsAll calm
calm-JoinsAll = record { joins = λ n results test e. e }

calm-IsHealthy : IsHealthy calm
calm-IsHealthy = record { all_joined = calm-JoinsAll; works = λ call. refl }

-- A native skill.
abbrev ping : RegisteredSkill sample
ping = record {
  manifest = ping_skill;
  backend = RegisteredSkillBackend.native (λ i n. ok "pong") false "native";
}

abbrev pinger : AgentEngine sample
pinger = record { skills = ("ping", ping) ∷ []; planner = none }

abbrev at_first : World sample
at_first = record { memory = new sample; state_cache = []; calls = 0 }

abbrev greeting : ProcessRequest sample
greeting = record {
  session_id = "s";
  trigger = AgentTrigger.message "u" "hi" [];
  granted_scopes = [];
  idempotency_key = none;
  policy = default_engine_policy sample;
  provider = default_config sample;
}

abbrev in_session : AgentContext sample
in_session = record {
  session_id = "s";
  records = [];
  prior_tool_results = [];
  granted_scopes = [];
  metadata = record {
    trigger_id = "t1";
    idempotency_key = none;
    started_at = 1;
    deadline = 5;
    policy = record (default_engine_policy sample) { allow_native_skills = true };
    provider = default_config sample;
  };
}

ping_starts :
    (prepare_node calm pinger in_session two_pings (node_of "c1" (pos 0) 0) 1 [] at_first).0
    ≡ ok (
      PreparedNode.executable
          (prepared_call calm pinger in_session ping (node_of "c1" (pos 0) 0) 1),
      ("c1", 1) ∷ [],
    )
unfolding prepare_node start_call check_args refusal append_tool_checkpoint Assoc.get Assoc.insert
    default_engine_policy pure
ping_starts = refl

prepare_node_example :
    IsPrepared calm pinger in_session (node_of "c1" (pos 0) 0) 1 (
      PreparedNode.executable
        (prepared_call calm pinger in_session ping (node_of "c1" (pos 0) 0) 1))
prepare_node_example =
    prepare_node-IsPrepared calm pinger in_session two_pings (node_of "c1" (pos 0) 0) 1 [] at_first
      (PreparedNode.executable
        (prepared_call calm pinger in_session ping (node_of "c1" (pos 0) 0) 1))
      (("c1", 1) ∷ []) ping_starts

advance-Extends_example :
    Extends "s" at_first.memory
      (advance calm pinger (AdvanceRequest.trigger greeting) at_first).1.memory
advance-Extends_example = advance-Extends calm pinger (AdvanceRequest.trigger greeting) at_first

advance_returns_example :
    is_ok (advance calm pinger (AdvanceRequest.trigger greeting) at_first).0 ≡ true
advance_returns_example =
    advance_returns calm pinger (AdvanceRequest.trigger greeting) at_first calm-IsHealthy

-- A store in which the outcome of the key `k1` is recorded, and then a trigger.
abbrev later : List (String × SessionRecord sample)
later = ("s", SessionRecord.trigger hello) ∷ []

abbrev after_outcome : World sample
after_outcome = record at_first {
  memory = append_all (put (new sample) "s" (SessionRecord.outcome done_outcome)) later;
}

abbrev again : ProcessRequest sample
again = record greeting { idempotency_key = some "k1" }

abbrev replay_of_done : AdvanceResult sample
replay_of_done = record {
  outcome = some (record {
    trigger_id = done_outcome.trigger_id;
    stop_reason = done_outcome.stop_reason;
    response = done_outcome.response;
    detail = done_outcome.detail;
    steps_executed = done_outcome.steps_executed;
    idempotent_replay = true;
    resume_token = done_outcome.resume_token;
  });
  emitted_events = [];
  state_delta = no_delta;
  wake_request = none;
}

advance_trigger_replays_example :
    ((advance_trigger calm pinger again after_outcome).0 ≡ ok replay_of_done)
    × ((advance_trigger calm pinger again after_outcome).1.memory ≡ after_outcome.memory)
    × ((advance_trigger calm pinger again after_outcome).1.calls ≡ 3)
advance_trigger_replays_example =
    advance_trigger_replays calm pinger again "k1" (new sample) done_outcome later after_outcome
      refl refl refl refl refl

-- A store that fails.
abbrev broken : Outside sample
broken = record calm { memory_fails = λ n. some "disk full" }

abbrev unstored : AdvanceResult sample
unstored = record {
  outcome = some (record {
    trigger_id = "u";
    stop_reason = StopReason.storage_failure;
    response = none;
    detail = some "disk full";
    steps_executed = 0;
    idempotent_replay = false;
    resume_token = none;
  });
  emitted_events = [];
  state_delta = no_delta;
  wake_request = none;
}

advance_unstored_example :
    ((advance broken pinger (AdvanceRequest.trigger again) at_first).0 ≡ ok unstored)
    × ((advance broken pinger (AdvanceRequest.trigger again) at_first).1.memory ≡ at_first.memory)
advance_unstored_example =
    advance_unstored broken pinger (AdvanceRequest.trigger again) "disk full" at_first
      (λ call. refl)

execute_rounds_end_example : ¬ (
    (execute_rounds calm pinger in_session two_pings 1
      (enough_rounds two_pings)
      (record { statuses = []; attempts = []; new_results = [] })
      at_first).0
    ≡ ok none)
execute_rounds_end_example =
    execute_rounds_end calm pinger in_session two_pings 1
      (record { statuses = []; attempts = []; new_results = [] }) at_first calm-JoinsAll

unplanned : (at : ℕ) → plan_step {h = sample} at [] ≡ none
unfolding plan_step active_execution_plan
unplanned at = refl

-- No step is left.
abbrev at_limit : AgentContext sample
at_limit = record in_session {
  metadata = record in_session.metadata {
    policy = record (default_engine_policy sample) { max_steps = 0 };
  };
}

perform_single_step_limited_example :
    (r : AdvanceResult sample) × ((perform_single_step calm pinger 1 [] at_limit greeting.trigger 0
        at_first).0
      ≡ ok r)
    × (is_some r.outcome ≡ true)
perform_single_step_limited_example =
    perform_single_step_limited calm pinger 1 [] at_limit greeting.trigger 0 at_first calm-IsHealthy
      unplanned (omega arith)

-- A model that is down.
abbrev down : Outside sample
down = record calm { generate_action = λ n r. err (internal_error "down") }

down-IsHealthy : IsHealthy down
down-IsHealthy = record {
  all_joined = record { joins = λ n results test e. e };
  works = λ call. refl;
}

within_limits :
    (m n : ℕ) → is_some (policy_stop (down.is_cancelled m) (down.instant n) in_session 1 0) ≡ false
unfolding policy_stop total_estimated_cost_usd default_engine_policy
within_limits m n = refl

perform_single_step_unanswered_example :
    (r : AdvanceResult sample) × ((perform_single_step down pinger 1 [] in_session greeting.trigger
        0 at_first).0
      ≡ ok r)
    × EndsFor StopReason.provider_failure r
perform_single_step_unanswered_example =
    perform_single_step_unanswered down pinger 1 [] in_session greeting.trigger 0 at_first
      down-IsHealthy unplanned within_limits (λ call request. inr (internal_error "down", refl))

-- A schema of an object that must have an `id`, for a value that has none.
abbrev typed : Host
typed = record sample {
  get_key = λ value key.
      if str_eq value "schema"
      then if str_eq key "type"
        then some "object"
        else if str_eq key "required"
        then some "ids"
        else none
      else none;
  as_array = λ value. some ("id" ∷ []);
  as_object = λ value. some [];
}

validate-Fits_example :
    (is_empty (validate_against_schema typed "{}" "schema") ≡ true) ↔ Fits typed "{}" "schema"
validate-Fits_example = validate-Fits typed "{}" "schema"

abbrev two_failures : List (SessionRecord sample)
two_failures = SessionRecord.tool_result failed_ping ∷ SessionRecord.tool_result failed_ping ∷ []

grouped_results_count_example :
    ((tally_at "ping" (grouped_results two_failures)).calls ≡ 2)
    × ((tally_at "ping" (grouped_results two_failures)).successes ≡ 0)
    × ((tally_at "ping" (grouped_results two_failures)).failures ≡ 2)
grouped_results_count_example = grouped_results_count two_failures "ping"
