-- ===== src/Tools/Prepare.antt =====
-- rain-engine-core/src/engine.rs: `prepare_node`, the checks before a call of a graph, with
-- `append_tool_checkpoint`, `append_validation` and `is_skill_circuit_broken`.
pub mod Guards
pub mod Grows
use rain_engine.Prelude.{
  map, ℕ, ◌+◌, min, String, Bool, true, false, ◌&&◌, ◌||◌, not, Option, none, some, List, [], ◌∷◌,
  any, all, find, leb, str_eq, if◌then◌else◌,
}
use rain_engine.Prelude.Assoc
use rain_engine.Prelude.Assoc.{Assoc}
use rain_engine.Prelude.Text.{concat, join}
use rain_engine.Host.{Host}
use rain_engine.Types.Ids.{SystemTime}
use rain_engine.Types.Policy.{EnginePolicy, ResourcePolicy, RetryPolicy}
use rain_engine.Types.Tools.{
  ToolNode, ToolExecutionGraph, ToolNodeStatus, ToolResultRecord, SkillManifest, SkillFailureKind,
  err, effective_resource_policy,
}
use rain_engine.Types.Improvement.{ToolPerformanceRecord}
use rain_engine.Types.Requests.{AgentContext}
use rain_engine.Store.Appends.{
  append_tool_node_checkpoint, append_skill_input_validation, append_tool_call,
}
use rain_engine.World.{Outside}
use rain_engine.World.Exec.{Exec, pure, ◌>>=◌, ◌>>◌, append, now, new_uuid}
use rain_engine.Engine.Context.{AgentEngine, to_snapshot}
use rain_engine.Tools.Graph.{or_zero}
use rain_engine.Tools.Schema.{validate_against_schema}
use rain_engine.Tools.Performance.{performance_of, grouped_results}
use rain_engine.Tools.Attempts.{RegisteredSkill, RegisteredSkillBackend, PreparedCall, backend_kind}

module _ (h : Host) where
  pub data PreparedNode : Type 0 where
    executable : PreparedCall h → PreparedNode
    immediate : ToolResultRecord h → PreparedNode

abbrev pub is_native : {h : Host} → RegisteredSkillBackend h → Bool
is_native (RegisteredSkillBackend.native e a k) = true
is_native (RegisteredSkillBackend.wasm e k) = false

abbrev pub is_empty {ℓ} : {A : Type ℓ} → List A → Bool
is_empty [] = true
is_empty (x ∷ xs) = false

-- Every scope the skill requires is among those granted.
unfoldable pub has_scopes : List String → List String → Bool
has_scopes required granted = all (λ s. any (str_eq s) granted) required

module _ {h : Host} where
  -- `unwrap_or(0.5)` on a threshold
  abbrev threshold_of : Option (RegisteredSkill h) → h.F64
  threshold_of none = h.lit 5 1
  threshold_of (some s) = s.manifest.circuit_breaker_threshold

  abbrev broken_by : Option (RegisteredSkill h) → Option (ToolPerformanceRecord h) → Bool
  broken_by skill none = false
  broken_by skill (some p) = leb 3 p.calls && h.fleb (threshold_of skill) p.failure_rate

  -- The identifiers and the times of the summary's records are not read, so none is drawn.
  unfoldable pub is_skill_circuit_broken : AgentEngine h → String → AgentContext h → Bool
  unfolding grouped_results
  is_skill_circuit_broken engine skill_name context =
      broken_by (Assoc.get skill_name engine.skills) (
        find (λ (p : ToolPerformanceRecord h). str_eq p.skill_name skill_name)
          (map (performance_of ("", 0)) (grouped_results context.records)))

  unfoldable pub error_result :
      SystemTime → String → String → SkillFailureKind → String → ToolResultRecord h
  error_result at call_id skill_name kind message = record {
    call_id = call_id;
    finished_at = at;
    skill_name = skill_name;
    output = err (record { kind = kind; message = message });
  }

  -- The limits of the call's own policy, the skill's and the engine's.
  unfoldable pub limited_retries : RetryPolicy h → ResourcePolicy h → EnginePolicy h → RetryPolicy h
  limited_retries own resource policy = record own {
    max_attempts =
        min (min own.max_attempts resource.retry_policy.max_attempts)
          policy.max_tool_retries_per_step;
  }

  -- The manifest of the call, with the resources the policy leaves it.
  unfoldable pub effective_manifest : SkillManifest h → EnginePolicy h → SkillManifest h
  unfolding effective_resource_policy
  effective_manifest manifest policy = record manifest {
    resource_policy = effective_resource_policy manifest policy;
  }

module _ {h : Host} (outside : Outside h) (engine : AgentEngine h) (context : AgentContext h) where
  unfoldable pub append_tool_checkpoint :
      ToolExecutionGraph h → ToolNode h → ToolNodeStatus → ℕ → Option String → Exec h Unit
  unfolding ◌>>=◌ new_uuid now append append_tool_node_checkpoint
  append_tool_checkpoint graph node status attempt detail = do
    id ← new_uuid outside
    at ← now outside
    append_tool_node_checkpoint (append outside) context.session_id (record {
      checkpoint_id = id;
      graph_id = graph.graph_id;
      call_id = node.call_id;
      skill_name = node.skill_name;
      step = graph.step;
      status = status;
      attempt = attempt;
      occurred_at = at;
      detail = detail;
    })

  unfoldable pub append_validation :
      ToolExecutionGraph h → ToolNode h → Bool → List String → Exec h Unit
  unfolding ◌>>=◌ new_uuid now append append_skill_input_validation
  append_validation graph node valid errors = do
    id ← new_uuid outside
    at ← now outside
    append_skill_input_validation (append outside) context.session_id (record {
      validation_id = id;
      graph_id = graph.graph_id;
      call_id = node.call_id;
      skill_name = node.skill_name;
      validated_at = at;
      valid = valid;
      errors = errors;
    })

  -- A checkpoint that the node failed, and the failure as its result.
  unfoldable pub fail_node :
      ToolExecutionGraph h → ToolNode h → SkillFailureKind → String → Exec h (PreparedNode h)
  unfolding append_tool_checkpoint error_result
  fail_node graph node kind message = do
    append_tool_checkpoint graph node ToolNodeStatus.failed 0 (some message)
    at ← now outside
    pure (PreparedNode.immediate (error_result at node.call_id node.skill_name kind message))

  -- Why a call with valid arguments may not be made: the first guard that it fails, in the order of
  -- the code.
  unfoldable pub refusal : RegisteredSkill h → ToolNode h → Option (SkillFailureKind × String)
  unfolding has_scopes effective_manifest is_skill_circuit_broken
  refusal skill node =
      if not (has_scopes skill.manifest.required_scopes context.granted_scopes)
      then some (
        SkillFailureKind.permission_denied,
        concat ("missing required scopes for skill `" ∷ node.skill_name ∷ "`" ∷ []),
      )
      else if is_native skill.backend && not context.metadata.policy.allow_native_skills
      then some (SkillFailureKind.permission_denied, "native skills are disabled by policy")
      else if node.dry_run
          && (not context.metadata.policy.enable_tool_dry_run
              || not
                  (effective_manifest skill.manifest
                    context.metadata.policy).resource_policy.dry_run_supported)
      then some
          (SkillFailureKind.capability_denied, "dry-run execution is not enabled for this skill")
      else if is_skill_circuit_broken engine node.skill_name context
      then some (
        SkillFailureKind.capability_denied,
        concat ("circuit breaker tripped for skill `" ∷ node.skill_name ∷ "`" ∷ []),
      )
      else none

  -- The call that is handed to its executor.
  unfoldable pub prepared_call : RegisteredSkill h → ToolNode h → ℕ → PreparedCall h
  unfolding effective_manifest limited_retries to_snapshot
  prepared_call skill node step =
      let manifest = effective_manifest skill.manifest context.metadata.policy in
      record {
        call_id = node.call_id;
        name = node.skill_name;
        args = node.args;
        manifest = manifest;
        backend = skill.backend;
        context_snapshot = to_snapshot context step;
        dry_run = node.dry_run;
        retry_policy =
            limited_retries node.retry_policy.policy manifest.resource_policy
              context.metadata.policy;
      }

  abbrev pub next_attempt : ToolNode h → Assoc ℕ → ℕ
  next_attempt node attempts = or_zero (Assoc.get node.call_id attempts) + 1

  -- The checkpoint that the call starts, and the record of the call.
  unfoldable pub start_call :
      RegisteredSkill h → ToolExecutionGraph h → ToolNode h → ℕ → ℕ → Exec h (PreparedNode h)
  unfolding append_tool_checkpoint prepared_call append_tool_call
  start_call skill graph node step attempt = do
    append_tool_checkpoint graph node ToolNodeStatus.started attempt none
    at ← now outside
    append_tool_call (append outside) context.session_id (record {
      call_id = node.call_id;
      step = step;
      called_at = at;
      skill_name = skill.manifest.name;
      args = node.args;
      backend_kind = backend_kind skill.backend;
    })
    pure (PreparedNode.executable (prepared_call skill node step))

  -- The map of attempts is written where the call starts.
  abbrev pub admit :
      RegisteredSkill h
      → ToolExecutionGraph h
      → ToolNode h
      → ℕ
      → Assoc ℕ
      → Option (SkillFailureKind × String)
      → Exec h (PreparedNode h × Assoc ℕ)
  admit skill graph node step attempts (some (kind, message)) = do
    refused ← fail_node graph node kind message
    pure (refused, attempts)
  admit skill graph node step attempts none = do
    started ← start_call skill graph node step (next_attempt node attempts)
    pure (started, Assoc.insert node.call_id (next_attempt node attempts) attempts)

  -- What is wrong with the arguments, recorded where the policy has them validated.
  unfoldable pub check_args :
      RegisteredSkill h → ToolExecutionGraph h → ToolNode h → Exec h (List String)
  unfolding validate_against_schema append_validation
  check_args skill graph node =
      let errors = validate_against_schema h node.args skill.manifest.input_schema in
      if context.metadata.policy.validate_tool_args
      then append_validation graph node (is_empty errors) errors >> pure errors
      else pure []

  abbrev pub prepare_checked :
      RegisteredSkill h
      → ToolExecutionGraph h
      → ToolNode h
      → ℕ
      → Assoc ℕ
      → List String
      → Exec h (PreparedNode h × Assoc ℕ)
  prepare_checked skill graph node step attempts [] = do
    append_tool_checkpoint graph node ToolNodeStatus.validated_node 0 none
    admit skill graph node step attempts (refusal skill node)
  prepare_checked skill graph node step attempts (e ∷ errors) = do
    refused ← fail_node graph node SkillFailureKind.invalid_arguments (join "; " (e ∷ errors))
    pure (refused, attempts)

  abbrev pub prepare_with :
      Option (RegisteredSkill h)
      → ToolExecutionGraph h
      → ToolNode h
      → ℕ
      → Assoc ℕ
      → Exec h (PreparedNode h × Assoc ℕ)
  prepare_with none graph node step attempts = do
    let message : String = concat ("skill `" ∷ node.skill_name ∷ "` is not registered" ∷ [])
    append_validation graph node false (message ∷ [])
    refused ← fail_node graph node SkillFailureKind.internal message
    pure (refused, attempts)
  prepare_with (some skill) graph node step attempts = do
    errors ← check_args skill graph node
    prepare_checked skill graph node step attempts errors

  unfoldable pub prepare_node :
      ToolExecutionGraph h → ToolNode h → ℕ → Assoc ℕ → Exec h (PreparedNode h × Assoc ℕ)
  unfolding fail_node start_call check_args refusal
  prepare_node graph node step attempts =
      prepare_with (Assoc.get node.skill_name engine.skills) graph node step attempts
