-- ===== src/Engine/Finish/Grows.antt =====
-- rain-engine-core/src/engine.rs: what the end of an advance leaves of the memory store.
use rain_engine.Prelude.{ℕ, String, Option, none, some, List}
use rain_engine.Host.{Host}
use rain_engine.Types.Ids.{ResumeToken}
use rain_engine.Types.Actions.{PlannedSkillCall, SuspendReason}
use rain_engine.Types.Events.{KernelEventRecord}
use rain_engine.Types.Records.{SessionSnapshot, StopReason}
use rain_engine.Types.Provider.{ProviderDecision}
use rain_engine.Types.Requests.{AgentContext}
use rain_engine.World.{Outside, EngineError}
use rain_engine.Store.{InMemoryMemoryStore}
use rain_engine.World.Grows.{Keeps, Fails, Extends}
use rain_engine.World.Appends.{append_rules}
use rain_engine.Prelude.{◌≡◌, sym}
use rain_engine.World.Grows.{Keeps-each}
use rain_engine.World.Appends.{Keeps-append_kernel_event}
use rain_engine.Engine.Improve.Grows.{Keeps-run_self_improvement}
use rain_engine.Engine.Finish.{
  set_projection, finish, finish_if, policy_outcome, suspend, persist_kernel_events,
  persist_provider_metadata,
}

module _ {h : Host} {Q : InMemoryMemoryStore h → Type 0} {F : EngineError → Type 0} where
  Keeps-set_projection :
      (id : String) (snapshot : SessionSnapshot h) → Keeps Q F (set_projection id snapshot)
  unfolding set_projection
  Keeps-set_projection id snapshot = record { at = λ w q. q; fails = λ w e x. cc }

module _ {h : Host} (outside : Outside h) (s0 : InMemoryMemoryStore h) where
  pub Keeps-finish :
      (id : String) (context : AgentContext h) (reason : StopReason)
      (response detail : Option String) (steps : ℕ) (token : Option ResumeToken)
      → context.session_id ≡ id
      → Keeps
          (Extends id s0)
          (Fails outside)
          (finish outside context reason response detail steps token)
  unfolding finish
  Keeps-finish id context reason response detail steps token same =
      rw (sym same) search (append_rules, Keeps-run_self_improvement, Keeps-set_projection) depth 9

  Keeps-finish_if :
      (context : AgentContext h) (steps : ℕ) (stop : Option (StopReason × String))
      → Keeps (Extends context.session_id s0) (Fails outside) (finish_if outside context steps stop)
  Keeps-finish_if context steps none = search append_rules
  Keeps-finish_if context steps (some r) = search (append_rules, Keeps-finish) depth 9

  pub Keeps-policy_outcome :
      (context : AgentContext h) (steps failures : ℕ)
      → Keeps
          (Extends context.session_id s0)
          (Fails outside)
          (policy_outcome outside context steps failures)
  unfolding policy_outcome
  Keeps-policy_outcome context steps failures = search (append_rules, Keeps-finish_if)

  pub Keeps-suspend :
      (context : AgentContext h) (step : ℕ) (reason : SuspendReason)
      (calls : List (PlannedSkillCall h)) (token : ResumeToken)
      → Keeps
          (Extends context.session_id s0)
          (Fails outside)
          (suspend outside context step reason calls token)
  unfolding suspend
  Keeps-suspend context step reason calls token = search (append_rules, Keeps-finish) depth 9

  pub Keeps-persist_kernel_events :
      (id : String) (events : List (KernelEventRecord h))
      → Keeps (Extends id s0) (Fails outside) (persist_kernel_events outside id events)
  unfolding persist_kernel_events
  Keeps-persist_kernel_events id events = Keeps-each _ _ (Keeps-append_kernel_event outside s0 id)

  pub Keeps-persist_provider_metadata :
      (id : String) (decision : ProviderDecision h)
      → Keeps (Extends id s0) (Fails outside) (persist_provider_metadata outside id decision)
  unfolding persist_provider_metadata
  Keeps-persist_provider_metadata id decision = search append_rules
