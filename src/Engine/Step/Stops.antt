-- ===== src/Engine/Step/Stops.antt =====
-- rain-engine-core/src/engine.rs: when `perform_single_step` ends the advance.
use rain_engine.Prelude.{
  ℕ, ◌≤◌, ◌≡◌, ◌∙◌, refl, ap, arith, inl, inr, ◌⊎◌, String, Bool, true, false, Option, none, some,
  List, if◌then◌else◌,
}
use rain_engine.Host.{Host}
use rain_engine.Types.Ids.{SystemTime, ResumeToken}
use rain_engine.Types.Tools.{Result, ok, err}
use rain_engine.Types.Actions.{AgentAction, ExecutionPlanRecord}
use rain_engine.Types.Events.{AgentTrigger, KernelEventRecord}
use rain_engine.Types.Records.{StopReason}
use rain_engine.Types.Provider.{ProviderDecision, ProviderError, ProviderRequest}
use rain_engine.Types.Requests.{AgentContext, AdvanceResult, EngineOutcome}
use rain_engine.Ledger.Views.Plans.{plan_step}
use rain_engine.Kernel.{build_advance_result}
use rain_engine.World.{World, Outside}
use rain_engine.World.Exec.{ask, now, instant_now}
use rain_engine.Tools.Schema.{is_some}
use rain_engine.World.Returns.{
  Returns, Returns-pure, Returns-after, Returns-bind, Returns-ask, Returns-imp,
}
use rain_engine.World.Grows.{IsHealthy, Keeps-IsHealthy}
use rain_engine.Engine.Context.{AgentEngine}
use rain_engine.Engine.Finish.{finish, finish_if, policy_stop, policy_outcome, outcome_record}
use rain_engine.Engine.Step.{provider_fails, on_answer, ask_model, step_or_ask, perform_single_step}
use rain_engine.Engine.Step.Grows.{Keeps-perform_single_step}

module _ {h : Host} (outside : Outside h) where
  Returns-finish :
      (context : AgentContext h) (reason : StopReason) (response detail : Option String) (steps : ℕ)
      (token : Option ResumeToken)
      → Returns
          (λ o. o.stop_reason ≡ reason)
          (finish outside context reason response detail steps token)
  unfolding finish outcome_record
  Returns-finish context reason response detail steps token = search (Returns-after, Returns-pure)

  -- There is an outcome exactly where there is a reason to stop.
  abbrev Same : Option (StopReason × String) → Option EngineOutcome → Type 0
  Same stop o = is_some o ≡ is_some stop

  Returns-finish_if :
      (context : AgentContext h) (steps : ℕ) (stop : Option (StopReason × String))
      → Returns (Same stop) (finish_if outside context steps stop)
  Returns-finish_if context steps none = Returns-pure _ refl
  Returns-finish_if context steps (some r) = Returns-after _ _ λ o. Returns-pure _ refl

-- An advance that ends for this reason.
pub record EndsFor {h : Host} (reason : StopReason) (r : AdvanceResult h) : Type 0 where
  pub outcome : EngineOutcome
  pub given : r.outcome ≡ some outcome
  pub for_reason : outcome.stop_reason ≡ reason

module _ {h : Host} (outside : Outside h) (engine : AgentEngine h) (steps : ℕ)
    (emitted : List (KernelEventRecord h)) (context : AgentContext h) (trigger : AgentTrigger h)
    (failures : ℕ) where
  -- In a healthy outside the step returns, with what holds of what it returns.
  healthy_step :
      {P : AdvanceResult h → Type 0}
      → (w : World h) → IsHealthy outside
      → Returns P (perform_single_step outside engine steps emitted context trigger failures)
      → (r : AdvanceResult h) × ((perform_single_step outside engine steps emitted context trigger
            failures w).0
          ≡ ok r)
        × P r
  healthy_step w healthy k =
      let kept =
        Keeps-perform_single_step outside w.memory engine steps emitted context trigger failures in
      let returned : (r : AdvanceResult h) × ((perform_single_step outside engine steps emitted
              context trigger failures w).0
            ≡ ok r) =
        Keeps-IsHealthy outside _ kept healthy w in
      (returned.0, returned.1, k.at w returned.0 returned.1)

  -- What holds of the limits at every time holds of the outcome.
  Returns-policy_outcome :
      (b : Bool)
      → ((m n : ℕ)
          → is_some
              (policy_stop (outside.is_cancelled m) (outside.instant n) context steps failures)
            ≡ b)
      → Returns (λ o. is_some o ≡ b) (policy_outcome outside context steps failures)
  unfolding policy_outcome instant_now
  Returns-policy_outcome b limits =
      Returns-bind {P = λ c. (m : ℕ) × (c ≡ outside.is_cancelled m)} (ask outside.is_cancelled) _
        (Returns-ask outside.is_cancelled (λ m. (m, refl)))
        λ cancelled c.
          Returns-bind {P = λ at. (n : ℕ) × (at ≡ outside.instant n)} (ask outside.instant) _
            (Returns-ask outside.instant (λ n. (n, refl)))
            λ at a.
              Returns-imp
                (finish_if outside context steps (policy_stop cancelled at context steps failures))
                (Returns-finish_if outside context steps
                  (policy_stop cancelled at context steps failures))
                (λ o same. same ∙ rw (c.1, a.1) (limits c.0 a.0))

  Returns-provider_fails :
      (detail : String)
      → Returns
          (EndsFor StopReason.provider_failure)
          (provider_fails outside engine steps emitted context detail)
  unfolding build_advance_result
  Returns-provider_fails detail =
      Returns-bind _ _
        (Returns-finish outside context StopReason.provider_failure none (some detail) steps none)
        λ o e. Returns-pure _ (record { outcome = o; given = refl; for_reason = e })

  -- The model fails, or it is late.
  abbrev Failing : Option (Result (ProviderDecision h) ProviderError) → Type 0
  Failing answer = (answer ≡ none) ⊎ ((e : ProviderError) × (answer ≡ some (err e)))

  Returns-on_answer :
      (answer : Option (Result (ProviderDecision h) ProviderError))
      → Failing answer
      → Returns
          (EndsFor StopReason.provider_failure)
          (on_answer outside engine steps emitted context answer)
  Returns-on_answer none k = Returns-provider_fails _
  Returns-on_answer (some (err e)) k = Returns-provider_fails _
  Returns-on_answer (some (ok d)) (inl e) = absurd (ground arith)
  Returns-on_answer (some (ok d)) (inr (x, e)) = absurd (ground arith)

  fails_or_late :
      (late : Bool) (answer : Result (ProviderDecision h) ProviderError)
      → (late ≡ true) ⊎ ((e : ProviderError) × (answer ≡ err e))
      → Failing (if late then none else some answer)
  fails_or_late true answer k = inl refl
  fails_or_late false answer (inl e) = absurd (ground arith)
  fails_or_late false answer (inr (x, e)) = inr (x, ap some e)

  Returns-ask_model :
      ((call : ℕ) (request : ProviderRequest h)
        → (outside.is_late call ≡ true)
          ⊎ ((e : ProviderError) × (outside.generate_action call request ≡ err e)))
      → (o : Option EngineOutcome) → is_some o ≡ false
      → Returns
          (EndsFor StopReason.provider_failure)
          (ask_model outside engine steps emitted context trigger o)
  Returns-ask_model fails (some o) e = absurd (ground arith)
  Returns-ask_model fails none e =
      Returns-bind {P = Failing} _ _
        (Returns-ask _ (λ n. fails_or_late (outside.is_late n) _ (fails n _))) Returns-on_answer

  Returns-limited :
      (o : Option EngineOutcome)
      → is_some o ≡ true
      → Returns
          (λ r. is_some r.outcome ≡ true)
          (ask_model outside engine steps emitted context trigger o)
  unfolding build_advance_result
  Returns-limited none e = absurd (ground arith)
  Returns-limited (some o) e = Returns-pure _ refl

  Returns-step_or_ask :
      {P : AdvanceResult h → Type 0}
      → (b : Bool)
      → ((m n : ℕ)
          → is_some
              (policy_stop (outside.is_cancelled m) (outside.instant n) context steps failures)
            ≡ b)
      → ((o : Option EngineOutcome)
          → is_some o ≡ b
          → Returns P (ask_model outside engine steps emitted context trigger o))
      → (planned : Option (AgentAction h × ExecutionPlanRecord h)) → planned ≡ none
      → Returns P (step_or_ask outside engine steps emitted context trigger failures planned)
  Returns-step_or_ask b limits k none e = Returns-bind _ _ (Returns-policy_outcome b limits) k
  Returns-step_or_ask b limits k (some x) e = absurd (ground arith)

  Returns-unplanned :
      {P : AdvanceResult h → Type 0}
      → (b : Bool) → ((at : SystemTime) → plan_step at context.records ≡ none)
      → ((m n : ℕ)
          → is_some
              (policy_stop (outside.is_cancelled m) (outside.instant n) context steps failures)
            ≡ b)
      → ((o : Option EngineOutcome)
          → is_some o ≡ b
          → Returns P (ask_model outside engine steps emitted context trigger o))
      → Returns P (perform_single_step outside engine steps emitted context trigger failures)
  unfolding perform_single_step now
  Returns-unplanned b unplanned limits k =
      Returns-after (ask outside.now) _
        λ at. Returns-step_or_ask b limits k (plan_step at context.records) (unplanned at)

module _ {h : Host} where
  -- In a healthy outside and without an active plan, a step at the limit of steps ends the advance
  -- with an outcome.
  pub perform_single_step_limited :
      (outside : Outside h) (engine : AgentEngine h) (steps : ℕ)
      (emitted : List (KernelEventRecord h)) (context : AgentContext h) (trigger : AgentTrigger h)
      (failures : ℕ) (w : World h)
      → IsHealthy outside
      → ((at : SystemTime) → plan_step at context.records ≡ none)
      → context.metadata.policy.max_steps ≤ steps
      → (r : AdvanceResult h) × ((perform_single_step outside engine steps emitted context trigger
            failures w).0
          ≡ ok r)
        × (is_some r.outcome ≡ true)
  unfolding policy_stop
  perform_single_step_limited outside engine steps emitted context trigger failures w healthy
        unplanned l =
      healthy_step outside engine steps emitted context trigger failures w healthy (
        Returns-unplanned outside engine steps emitted context trigger failures true unplanned
          (λ m n. ground arith)
          (Returns-limited outside engine steps emitted context trigger failures))

  -- In a healthy outside and without an active plan, where no limit is reached, a step whose model
  -- fails or is late ends the advance for a provider failure.
  pub perform_single_step_unanswered :
      (outside : Outside h) (engine : AgentEngine h) (steps : ℕ)
      (emitted : List (KernelEventRecord h)) (context : AgentContext h) (trigger : AgentTrigger h)
      (failures : ℕ) (w : World h)
      → IsHealthy outside
      → ((at : SystemTime) → plan_step at context.records ≡ none)
      → ((m n : ℕ)
          → is_some
              (policy_stop (outside.is_cancelled m) (outside.instant n) context steps failures)
            ≡ false)
      → ((call : ℕ) (request : ProviderRequest h)
          → (outside.is_late call ≡ true)
            ⊎ ((e : ProviderError) × (outside.generate_action call request ≡ err e)))
      → (r : AdvanceResult h) × ((perform_single_step outside engine steps emitted context trigger
            failures w).0
          ≡ ok r)
        × EndsFor StopReason.provider_failure r
  perform_single_step_unanswered outside engine steps emitted context trigger failures w healthy
        unplanned limits fails =
      healthy_step outside engine steps emitted context trigger failures w healthy (
        Returns-unplanned outside engine steps emitted context trigger failures false unplanned
          limits (Returns-ask_model outside engine steps emitted context trigger failures fails))
