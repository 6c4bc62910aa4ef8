-- ===== src/Tools/Prepare/Guards.antt =====
-- rain-engine-core/src/engine.rs: what holds of a call that `prepare_node` lets through.
use rain_engine.Prelude.{
  ℕ, ◌≤◌, ◌≡◌, refl, arith, String, Bool, true, false, Option, none, some, List, [], ◌∷◌,
}
use rain_engine.Prelude.Assoc
use rain_engine.Prelude.Assoc.{Assoc}
use rain_engine.Host.{Host}
use rain_engine.Types.Tools.{ToolNode, ToolExecutionGraph, SkillFailureKind, ok, is_ok}
use rain_engine.Types.Requests.{AgentContext}
use rain_engine.World.{World, Outside}
use rain_engine.World.Returns.{Returns, Returns-pure, Returns-after, Returns-bind, Returns-if}
use rain_engine.Engine.Context.{AgentEngine}
use rain_engine.Tools.Schema.{validate_against_schema}
use rain_engine.Tools.Attempts.{RegisteredSkill, PreparedCall}
use rain_engine.Tools.Prepare.{
  PreparedNode, is_native, has_scopes, is_skill_circuit_broken, limited_retries, effective_manifest,
  error_result, fail_node, refusal, prepared_call, start_call, admit, check_args, prepare_checked,
  prepare_with, prepare_node,
}

module _ {h : Host} (engine : AgentEngine h) (context : AgentContext h) (node : ToolNode h) where
  -- The guards that the policy and the skill set for a call.
  pub record PassesGuards (skill : RegisteredSkill h) : Type 0 where
    pub scopes : has_scopes skill.manifest.required_scopes context.granted_scopes ≡ true
    pub native_allowed :
        is_native skill.backend ≡ true → context.metadata.policy.allow_native_skills ≡ true
    pub dry_run_enabled : node.dry_run ≡ true → context.metadata.policy.enable_tool_dry_run ≡ true
    pub dry_run_supported :
        node.dry_run ≡ true
        → (effective_manifest skill.manifest
            context.metadata.policy).resource_policy.dry_run_supported
          ≡ true
    pub circuit_closed : is_skill_circuit_broken engine node.skill_name context ≡ false

module _ {h : Host} (outside : Outside h) (engine : AgentEngine h) (context : AgentContext h)
    (node : ToolNode h) (step : ℕ) where
  -- A call that may be made: its skill is registered, its arguments are valid where the policy has
  -- them validated, every guard passes, and its attempts are within the policy's limit.
  pub record IsAdmitted (p : PreparedCall h) : Type 0 where
    pub skill : RegisteredSkill h
    pub registered : Assoc.get node.skill_name engine.skills ≡ some skill
    pub prepared : p ≡ prepared_call outside engine context skill node step
    pub valid_args :
        context.metadata.policy.validate_tool_args ≡ true
        → validate_against_schema h node.args skill.manifest.input_schema ≡ []
    pub guards : PassesGuards engine context node skill
    pub bounded : p.retry_policy.max_attempts ≤ context.metadata.policy.max_tool_retries_per_step

  -- A node that is not run has a result that is a failure.
  abbrev pub IsPrepared : PreparedNode h → Type 0
  IsPrepared (PreparedNode.executable p) = IsAdmitted p
  IsPrepared (PreparedNode.immediate r) = (r.call_id ≡ node.call_id) × (is_ok r.output ≡ false)

not_both : {P : Type 0} → (b : Bool) → b ≡ true → b ≡ false → P
not_both b t f = cc

module _ {h : Host} (outside : Outside h) (engine : AgentEngine h) (context : AgentContext h)
    (graph : ToolExecutionGraph h) (node : ToolNode h) (step : ℕ) where
  Returns-fail_node :
      (kind : SkillFailureKind) (message : String)
      → Returns
          (IsPrepared outside engine context node step)
          (fail_node outside engine context graph node kind message)
  unfolding fail_node error_result
  Returns-fail_node kind message = search (Returns-after, Returns-pure)

  Returns-start_call :
      (skill : RegisteredSkill h) (attempt : ℕ)
      → Returns
          (λ n. n ≡ PreparedNode.executable (prepared_call outside engine context skill node step))
          (start_call outside engine context skill graph node step attempt)
  unfolding start_call
  Returns-start_call skill attempt = search (Returns-after, Returns-pure)

  refusal-PassesGuards :
      (skill : RegisteredSkill h)
      → refusal outside engine context skill node ≡ none
      → PassesGuards engine context node skill
  unfolding refusal
  refusal-PassesGuards skill e = record {
    scopes = ground arith;
    native_allowed = λ n. ground arith;
    dry_run_enabled = λ d. ground arith;
    dry_run_supported = λ d. ground arith;
    circuit_closed = ground arith;
  }

  prepared_call_bounded :
      (skill : RegisteredSkill h)
      → (prepared_call outside engine context skill node step).retry_policy.max_attempts
        ≤ context.metadata.policy.max_tool_retries_per_step
  unfolding prepared_call limited_retries
  prepared_call_bounded skill = ground arith

  Returns-check_args :
      (skill : RegisteredSkill h)
      → Returns
          (λ errors.
            errors ≡ []
            → context.metadata.policy.validate_tool_args ≡ true
            → validate_against_schema h node.args skill.manifest.input_schema ≡ [])
          (check_args outside engine context skill graph node)
  unfolding check_args
  Returns-check_args skill =
      Returns-if context.metadata.policy.validate_tool_args _ _
        (λ t. Returns-after _ _ λ u. Returns-pure _ (λ e v. e))
        (λ off. Returns-pure _ (λ e on. not_both _ on off))

  Returns-admit :
      (skill : RegisteredSkill h) (attempts : Assoc ℕ)
      (refused : Option (SkillFailureKind × String))
      → (refused ≡ none
          → IsAdmitted outside engine context node step
              (prepared_call outside engine context skill node step))
      → Returns
          (λ r. IsPrepared outside engine context node step r.0)
          (admit outside engine context skill graph node step attempts refused)
  Returns-admit skill attempts (some r) k =
      Returns-bind _ _ (Returns-fail_node r.0 r.1) λ n q. Returns-pure _ q
  Returns-admit skill attempts none k =
      Returns-bind _ _ (Returns-start_call skill _) λ n e. Returns-pure _ (rw e (k refl))

  Returns-prepare_checked :
      (skill : RegisteredSkill h) (attempts : Assoc ℕ) (errors : List String)
      → Assoc.get node.skill_name engine.skills ≡ some skill
      → (errors ≡ []
          → context.metadata.policy.validate_tool_args ≡ true
          → validate_against_schema h node.args skill.manifest.input_schema ≡ [])
      → Returns
          (λ r. IsPrepared outside engine context node step r.0)
          (prepare_checked outside engine context skill graph node step attempts errors)
  Returns-prepare_checked skill attempts (e ∷ errors) found valid =
      Returns-bind _ _ (Returns-fail_node _ _) λ n q. Returns-pure _ q
  Returns-prepare_checked skill attempts [] found valid = Returns-after _ _ λ u.
      Returns-admit skill attempts _ λ passed. record {
        skill = skill;
        registered = found;
        prepared = refl;
        valid_args = valid refl;
        guards = refusal-PassesGuards skill passed;
        bounded = prepared_call_bounded skill;
      }

  Returns-prepare_with :
      (skill : Option (RegisteredSkill h)) (attempts : Assoc ℕ)
      → Assoc.get node.skill_name engine.skills ≡ skill
      → Returns
          (λ r. IsPrepared outside engine context node step r.0)
          (prepare_with outside engine context skill graph node step attempts)
  Returns-prepare_with none attempts found =
      Returns-after _ _ λ u. Returns-bind _ _ (Returns-fail_node _ _) λ n q. Returns-pure _ q
  Returns-prepare_with (some skill) attempts found =
      Returns-bind _ _ (Returns-check_args skill)
        λ errors valid. Returns-prepare_checked skill attempts errors found valid

  pub Returns-prepare_node :
      (attempts : Assoc ℕ)
      → Returns
          (λ r. IsPrepared outside engine context node step r.0)
          (prepare_node outside engine context graph node step attempts)
  unfolding prepare_node
  Returns-prepare_node attempts = Returns-prepare_with _ attempts refl

module _ {h : Host} where
  -- A node that is let through to its executor has a registered skill, valid arguments where the
  -- policy validates them, granted scopes, an allowed kind of skill, a dry run only where both policy
  -- and skill have it, a closed circuit and no more attempts than the policy's limit; every other
  -- node gets a result of its own that is a failure.
  pub prepare_node-IsPrepared :
      (outside : Outside h) (engine : AgentEngine h) (context : AgentContext h)
      (graph : ToolExecutionGraph h) (node : ToolNode h) (step : ℕ) (attempts : Assoc ℕ)
      (w : World h) (prepared : PreparedNode h) (attempts' : Assoc ℕ)
      → (prepare_node outside engine context graph node step attempts w).0
        ≡ ok (prepared, attempts')
      → IsPrepared outside engine context node step prepared
  prepare_node-IsPrepared outside engine context graph node step attempts w prepared attempts' e =
      (Returns-prepare_node outside engine context graph node step attempts).at w _ e
