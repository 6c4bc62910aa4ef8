-- ===== src/Engine/Advance/Grows.antt =====
-- rain-engine-core/src/engine.rs: what an advance leaves of the memory store.
use rain_engine.Prelude.{String, true, Option, none, some, List}
use rain_engine.Host.{Host}
use rain_engine.Types.Ids.{SystemTime}
use rain_engine.Types.Tools.{Result, ok, err}
use rain_engine.Types.Events.{TriggerRecord}
use rain_engine.Types.Records.{SessionRecord, SessionSnapshot}
use rain_engine.Types.Requests.{AdvanceResult, AdvanceRequest, EngineOutcome, ProcessRequest}
use rain_engine.Store.{InMemoryMemoryStore}
use rain_engine.World.{World, Outside, EngineError}
use rain_engine.Engine.Context.{AgentEngine, new_context}
use rain_engine.World.Grows.{Keeps, Fails, Extends}
use rain_engine.World.Appends.{append_rules}
use rain_engine.Prelude.{◌≡◌, refl}
use rain_engine.Types.Tools.{is_ok}
use rain_engine.World.Grows.{IsHealthy, Keeps-IsHealthy}
use rain_engine.World.Grows.{Extends-refl}
use rain_engine.Engine.Finish.Grows.{Keeps-persist_kernel_events}
use rain_engine.Engine.Planning.Grows.{Keeps-refresh, Keeps-prepare_history}
use rain_engine.Engine.Approvals.Grows.{Keeps-trigger}
use rain_engine.Engine.Continue.Grows.{Keeps-advance_continue}
use rain_engine.Engine.Advance.{
  process_trigger, classify_and_plan, on_loaded, on_cached, on_recorded, unless_replayed,
  prior_outcome, advance_trigger, advance, session_of,
}

module _ {h : Host} (outside : Outside h) (s0 : InMemoryMemoryStore h) (engine : AgentEngine h)
    (request : ProcessRequest h) (trigger_id : String) (started_at : SystemTime) where
  Keeps-process_trigger :
      (records : List (SessionRecord h))
      → Keeps
          (Extends request.session_id s0)
          (Fails outside)
          (process_trigger outside engine request trigger_id started_at records)
  unfolding process_trigger new_context
  Keeps-process_trigger records =
      search (append_rules, Keeps-persist_kernel_events, Keeps-trigger) depth 9

  pub Keeps-classify_and_plan :
      (records : List (SessionRecord h))
      → Keeps
          (Extends request.session_id s0)
          (Fails outside)
          (classify_and_plan outside engine request trigger_id started_at records)
  unfolding classify_and_plan
  Keeps-classify_and_plan records =
      search (append_rules, Keeps-refresh, Keeps-prepare_history, Keeps-process_trigger) depth 9

  Keeps-on_loaded :
      (loaded : Result (SessionSnapshot h) EngineError)
      → Keeps
          (Extends request.session_id s0)
          (Fails outside)
          (on_loaded outside engine request trigger_id started_at loaded)
  Keeps-on_loaded (ok snapshot) = search (Keeps-classify_and_plan)
  Keeps-on_loaded (err e) = search append_rules

module _ {h : Host} (outside : Outside h) (s0 : InMemoryMemoryStore h) (engine : AgentEngine h)
    (request : ProcessRequest h) where
  Keeps-on_cached :
      (recorded : TriggerRecord h) (cached : Option (SessionSnapshot h))
      → Keeps
          (Extends request.session_id s0)
          (Fails outside)
          (on_cached outside engine request recorded cached)
  Keeps-on_cached recorded (some cached) = search (Keeps-classify_and_plan)
  Keeps-on_cached recorded none = search (append_rules, Keeps-on_loaded)

  Keeps-on_recorded :
      (recorded : TriggerRecord h) (stored : Result (Unit {0}) EngineError)
      → Keeps
          (Extends request.session_id s0)
          (Fails outside)
          (on_recorded outside engine request recorded stored)
  Keeps-on_recorded recorded (ok u) = search (append_rules, Keeps-on_cached)
  Keeps-on_recorded recorded (err e) = search append_rules

  Keeps-unless_replayed :
      (trigger_id : String) (started_at : SystemTime) (prior : Option EngineOutcome)
      → Keeps
          (Extends request.session_id s0)
          (Fails outside)
          (unless_replayed outside engine request trigger_id started_at prior)
  Keeps-unless_replayed trigger_id started_at (some outcome) = search append_rules
  Keeps-unless_replayed trigger_id started_at none = search (append_rules, Keeps-on_recorded)

  Keeps-prior_outcome :
      (key : Option String)
      → Keeps
          (Extends request.session_id s0)
          (Fails outside)
          (prior_outcome outside engine request.session_id key)
  Keeps-prior_outcome none = search append_rules
  Keeps-prior_outcome (some key) = search append_rules

  Keeps-advance_trigger :
      Keeps (Extends request.session_id s0) (Fails outside) (advance_trigger outside engine request)
  unfolding advance_trigger
  Keeps-advance_trigger = search (append_rules, Keeps-prior_outcome, Keeps-unless_replayed)

module _ {h : Host} (outside : Outside h) (s0 : InMemoryMemoryStore h)
    (engine : AgentEngine h) where
  Keeps-advance :
      (request : AdvanceRequest h)
      → Keeps (Extends (session_of request) s0) (Fails outside) (advance outside engine request)
  unfolding advance
  Keeps-advance (AdvanceRequest.trigger request) = Keeps-advance_trigger outside s0 engine request
  Keeps-advance (AdvanceRequest.continue request) = Keeps-advance_continue outside s0 engine request

module _ {h : Host} where
  -- Whatever the model, the store's failures, the clock, the tokens and the tasks' order are, an
  -- advance that returns and one that fails only add records behind those of its own session; every
  -- other session is as it was.
  pub advance-Extends :
      (outside : Outside h) (engine : AgentEngine h) (request : AdvanceRequest h) (w : World h)
      → Extends (session_of request) w.memory (advance outside engine request w).1.memory
  advance-Extends outside engine request w =
      (Keeps-advance outside w.memory engine request).at w (Extends-refl _ w.memory)

  -- Where every spawned task is joined and no call of the store fails, an advance returns a result.
  pub advance_returns :
      (outside : Outside h) (engine : AgentEngine h) (request : AdvanceRequest h) (w : World h)
      → IsHealthy outside
      → is_ok (advance outside engine request w).0 ≡ true
  advance_returns outside engine request w healthy =
      let returned : (r : AdvanceResult h) × ((advance outside engine request w).0 ≡ ok r) =
        Keeps-IsHealthy outside _ (Keeps-advance outside w.memory engine request) healthy w in
      rw (returned.1) refl
