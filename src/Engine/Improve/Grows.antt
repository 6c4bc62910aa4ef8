-- ===== src/Engine/Improve/Grows.antt =====
-- rain-engine-core/src/engine.rs: what self-improvement leaves of the memory store.
use rain_engine.Prelude.{String, Bool, true, false, Option, none, some, List, [], ◌∷◌}
use rain_engine.Host.{Host}
use rain_engine.Types.Improvement.{ToolPerformanceRecord, PolicyTuningRecord}
use rain_engine.Types.Records.{OutcomeRecord}
use rain_engine.Types.Requests.{AgentContext}
use rain_engine.Types.State.{AgentContextSnapshot}
use rain_engine.Prelude.Assoc.{Assoc}
use rain_engine.Prelude.Text.{concat}
use rain_engine.Types.Records.{SessionRecord}
use rain_engine.Tools.Performance.{
  Tally, performance_of, performances, summarize_tool_performance, grouped_results,
}
use rain_engine.World.{Outside}
use rain_engine.World.Exec.{now, new_uuid}
use rain_engine.Store.{InMemoryMemoryStore}
use rain_engine.World.Grows.{Keeps, Fails, Extends}
use rain_engine.World.Appends.{append_rules}
use rain_engine.Prelude.{◌≡◌, sym}
use rain_engine.World.Grows.{Keeps-bind, Keeps-pure}
use rain_engine.World.Appends.{Keeps-append_tool_performance}
use rain_engine.Engine.Improve.{
  new_id, reflect, prefer, record_performances, record_tuning, tune, roll_back_or_tune,
  tune_if_observed, improve, run_self_improvement,
}

module _ {h : Host} (outside : Outside h) (session_id : String) (s0 : InMemoryMemoryStore h) where
  Keeps-new_id :
      (prefix : String) → Keeps (Extends session_id s0) (Fails outside) (new_id outside prefix)
  unfolding new_id
  Keeps-new_id prefix = search append_rules

  Keeps-reflect :
      (snapshot : AgentContextSnapshot h) (outcome : OutcomeRecord) (context : AgentContext h)
      → Keeps
          (Extends session_id s0)
          (Fails outside)
          (reflect outside session_id snapshot outcome context)
  unfolding reflect
  Keeps-reflect snapshot outcome context = search (append_rules, Keeps-new_id)

  Keeps-prefer :
      (p : ToolPerformanceRecord h) (context : AgentContext h)
      → Keeps (Extends session_id s0) (Fails outside) (prefer outside session_id p context)
  unfolding prefer
  Keeps-prefer p context = search (append_rules, Keeps-new_id)

  Keeps-record_performances :
      (ps : List (ToolPerformanceRecord h)) (context : AgentContext h)
      → Keeps
          (Extends session_id s0)
          (Fails outside)
          (record_performances outside session_id ps context)
  unfolding record_performances
  Keeps-record_performances [] context = search append_rules
  Keeps-record_performances (p ∷ ps) context =
      Keeps-bind _ _ (Keeps-append_tool_performance outside s0 session_id p)
        (λ u. Keeps-bind _ _ (Keeps-prefer p _) (λ c. Keeps-record_performances ps c))

  Keeps-record_tuning :
      (tuning : PolicyTuningRecord h) (context : AgentContext h)
      → Keeps
          (Extends session_id s0)
          (Fails outside)
          (record_tuning outside session_id tuning context)
  Keeps-record_tuning tuning context = search append_rules

  Keeps-tune :
      (tuning : Option (PolicyTuningRecord h)) (context : AgentContext h)
      → Keeps (Extends session_id s0) (Fails outside) (tune outside session_id tuning context)
  Keeps-tune none context = search append_rules
  Keeps-tune (some tuning) context = search (append_rules, Keeps-record_tuning, Keeps-new_id)

  Keeps-roll_back_or_tune :
      (snapshot : AgentContextSnapshot h) (outcome : OutcomeRecord)
      (rollback : Option (PolicyTuningRecord h)) (context : AgentContext h)
      → Keeps
          (Extends session_id s0)
          (Fails outside)
          (roll_back_or_tune outside session_id snapshot outcome rollback context)
  Keeps-roll_back_or_tune snapshot outcome (some rollback) context =
      Keeps-record_tuning rollback context
  Keeps-roll_back_or_tune snapshot outcome none context =
      search (append_rules, Keeps-tune, Keeps-new_id)

  Keeps-tune_if_observed :
      (snapshot : AgentContextSnapshot h) (outcome : OutcomeRecord) (context : AgentContext h)
      (too_few : Bool)
      → Keeps
          (Extends session_id s0)
          (Fails outside)
          (tune_if_observed outside session_id snapshot outcome context too_few)
  Keeps-tune_if_observed snapshot outcome context true = search append_rules
  Keeps-tune_if_observed snapshot outcome context false =
      search (append_rules, Keeps-roll_back_or_tune, Keeps-new_id)

  Keeps-performances :
      (tallies : Assoc Tally)
      → Keeps (Extends session_id s0) (Fails outside) (performances outside tallies)
  unfolding performances
  Keeps-performances [] = search append_rules
  Keeps-performances (entry ∷ entries) =
      Keeps-bind (new_uuid outside) _ (search append_rules) (λ id.
        Keeps-bind (now outside) _ (search append_rules) (λ at.
          Keeps-bind _ _ (Keeps-performances entries) (λ rest.
            Keeps-pure (performance_of (concat ("tool-performance-" ∷ id ∷ []), at) entry ∷ rest))))

  Keeps-summarize_tool_performance :
      (records : List (SessionRecord h))
      → Keeps (Extends session_id s0) (Fails outside) (summarize_tool_performance outside records)
  unfolding summarize_tool_performance
  Keeps-summarize_tool_performance records = Keeps-performances (grouped_results records)

  Keeps-improve :
      (snapshot : AgentContextSnapshot h) (outcome : OutcomeRecord) (context : AgentContext h)
      → Keeps
          (Extends session_id s0)
          (Fails outside)
          (improve outside session_id snapshot outcome context)
  unfolding improve
  Keeps-improve snapshot outcome context = search (
    append_rules, Keeps-reflect, Keeps-summarize_tool_performance, Keeps-record_performances,
    Keeps-tune_if_observed,
  )

module _ {h : Host} (outside : Outside h) (s0 : InMemoryMemoryStore h) where
  pub Keeps-run_self_improvement :
      (id : String) (context : AgentContext h) (outcome : OutcomeRecord)
      → context.session_id ≡ id
      → Keeps (Extends id s0) (Fails outside) (run_self_improvement outside context outcome)
  unfolding run_self_improvement
  Keeps-run_self_improvement id context outcome same =
      rw (sym same) (search (append_rules, Keeps-improve))
