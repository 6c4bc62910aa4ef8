-- ===== src/Tools/Attempts.antt =====
-- rain-engine-core/src/engine.rs: the registered skills, and `run_prepared_call`, the attempts at one
-- call. What an executor answers is not under this code: it is a function of the invocation and of
-- the number of the attempt.
pub mod Bounds
pub mod Pauses
use rain_engine.Prelude.{
  ℕ, zero, suc, ◌+◌, min, String, Bool, true, false, ◌||◌, not, List, [], ◌∷◌, leb, if◌then◌else◌,
}
use rain_engine.Host.{Host}
use rain_engine.Types.Ids.{SystemTime}
use rain_engine.Types.State.{AgentContextSnapshot}
use rain_engine.Types.Policy.{RetryPolicy}
use rain_engine.Types.Tools.{
  SkillManifest, SkillDefinition, SkillBackendKind, SkillFailure, SkillFailureKind,
  ToolResultRecord, Result, ok, err, is_ok,
}

module _ (h : Host) where
  pub record SkillInvocation : Type 0 where
    pub call_id : String
    pub manifest : SkillManifest h
    pub args : h.Value
    pub context : AgentContextSnapshot h
    pub dry_run : Bool

  -- The answer to an attempt, by its number. `SkillExecutionError` has the fields of `SkillFailure`.
  abbrev pub Executor : Type 0
  Executor = SkillInvocation → ℕ → Result h.Value SkillFailure

  pub data RegisteredSkillBackend : Type 0 where
    -- the executor, and `executor_kind()`
    wasm : Executor → String → RegisteredSkillBackend
    -- the executor, `requires_human_approval()` and `executor_kind()`
    native : Executor → Bool → String → RegisteredSkillBackend

  pub record RegisteredSkill : Type 0 where
    pub manifest : SkillManifest h
    pub backend : RegisteredSkillBackend

  pub record PreparedCall : Type 0 where
    pub call_id : String
    pub name : String
    pub args : h.Value
    pub manifest : SkillManifest h
    pub backend : RegisteredSkillBackend
    pub context_snapshot : AgentContextSnapshot h
    pub dry_run : Bool
    pub retry_policy : RetryPolicy h

-- How the attempts at a call went: the last answer, how many were made, and the pauses between
-- them in milliseconds, oldest first.
pub record Attempts (h : Host) : Type 0 where
  pub output : Result h.Value SkillFailure
  pub executions : ℕ
  pub pauses : List ℕ

module _ {h : Host} where
  unfoldable pub backend_kind : RegisteredSkillBackend h → SkillBackendKind
  backend_kind (RegisteredSkillBackend.wasm e k) = SkillBackendKind.wasm
  backend_kind (RegisteredSkillBackend.native e a k) = SkillBackendKind.native

  unfoldable pub requires_human_approval : RegisteredSkillBackend h → Bool
  requires_human_approval (RegisteredSkillBackend.wasm e k) = false
  requires_human_approval (RegisteredSkillBackend.native e a k) = a

  unfoldable pub executor_kind : RegisteredSkillBackend h → String
  executor_kind (RegisteredSkillBackend.wasm e k) = k
  executor_kind (RegisteredSkillBackend.native e a k) = k

  -- `RegisteredSkill::definition`
  unfoldable pub definition : RegisteredSkill h → SkillDefinition h
  unfolding executor_kind
  definition s = record { manifest = s.manifest; executor_kind = executor_kind s.backend }

  abbrev pub executor : RegisteredSkillBackend h → Executor h
  executor (RegisteredSkillBackend.wasm e k) = e
  executor (RegisteredSkillBackend.native e a k) = e

-- `Timeout | Internal | Trap`
abbrev pub retryable_kind : SkillFailureKind → Bool
retryable_kind SkillFailureKind.timeout = true
retryable_kind SkillFailureKind.internal = true
retryable_kind SkillFailureKind.trap = true
retryable_kind _ = false

unfoldable pub is_retryable_skill_error {ℓ} : {A : Type ℓ} → Result A SkillFailure → Bool
is_retryable_skill_error (ok a) = false
is_retryable_skill_error (err e) = retryable_kind e.kind

abbrev pub not_attempted {ℓ} : {A : Type ℓ} → Result A SkillFailure
not_attempted =
    err (record { kind = SkillFailureKind.internal; message = "tool was not attempted" })

module _ {h : Host} where
  -- The pause after this one: the interval grown by the multiplier, up to the policy's limit.
  unfoldable pub next_interval : RetryPolicy h → ℕ → ℕ
  next_interval policy ms =
      min (h.trunc_u64 (h.fmul (h.of_usize ms) policy.backoff_multiplier)) policy.max_interval_ms

  -- `attempts.then(pause, later)`: a pause, then the later attempts.
  abbrev after_pause : ℕ → Attempts h → Attempts h
  after_pause ms later = record later {
    executions = suc later.executions;
    pauses = ms ∷ later.pauses;
  }

  -- The loop: `left` attempts may still be made, of which this one is number `attempt`. It ends by
  -- the answer, or because no attempt is left.
  unfoldable pub attempt_loop :
      RetryPolicy h
      → (ℕ → Result h.Value SkillFailure)
      → ℕ
      → ℕ
      → ℕ
      → Result h.Value SkillFailure
      → Attempts h
  unfolding next_interval is_retryable_skill_error
  attempt_loop policy answer zero attempt ms output = record {
    output = output;
    executions = 0;
    pauses = [];
  }
  attempt_loop policy answer (suc left) attempt ms output =
      let later = after_pause ms (
        attempt_loop policy answer left (attempt + 1) (next_interval policy ms) (answer attempt)) in
      if is_ok (answer attempt)
        || (not (is_retryable_skill_error (answer attempt))
            || leb policy.max_attempts (attempt + 1))
      then record { output = answer attempt; executions = 1; pauses = [] }
      else later

  abbrev invocation_of : PreparedCall h → SkillInvocation h
  invocation_of p = record {
    call_id = p.call_id;
    manifest = p.manifest;
    args = p.args;
    context = p.context_snapshot;
    dry_run = p.dry_run;
  }

  unfoldable pub attempts_at : PreparedCall h → Attempts h
  unfolding attempt_loop
  attempts_at p =
      attempt_loop p.retry_policy (executor p.backend (invocation_of p)) p.retry_policy.max_attempts
        0 p.retry_policy.initial_interval_ms not_attempted

  -- The result record of a call whose attempts end at `now`.
  unfoldable pub run_prepared_call : SystemTime → PreparedCall h → ToolResultRecord h
  unfolding attempts_at
  run_prepared_call now p = record {
    call_id = p.call_id;
    finished_at = now;
    skill_name = p.name;
    output = (attempts_at p).output;
  }
