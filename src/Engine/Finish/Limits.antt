-- ===== src/Engine/Finish/Limits.antt =====
-- rain-engine-core/src/engine.rs: which limit stops an advance.
use rain_engine.Prelude.{ℕ, ◌<◌, ◌≡◌, arith, Bool, false, none, ◌↔◌}
use rain_engine.Host.{Host}
use rain_engine.Types.Ids.{Instant}
use rain_engine.Types.Requests.{AgentContext}
use rain_engine.Ledger.Views.{total_estimated_cost_usd}
use rain_engine.Engine.Finish.{policy_stop}

module _ {h : Host} where
  -- No limit stops an advance exactly when it is not cancelled, the deadline is ahead, the steps and
  -- the failed steps are fewer than their limits, and the cost is not at its limit.
  pub policy_stop-none :
      (cancelled : Bool) (at : Instant) (context : AgentContext h) (steps failures : ℕ)
      → (policy_stop cancelled at context steps failures ≡ none) ↔ (
          (cancelled ≡ false)
          × (at < context.metadata.deadline)
          × (steps < context.metadata.policy.max_steps)
          × (failures < context.metadata.policy.max_consecutive_tool_failures)
          × (h.fleb context.metadata.policy.max_cost_per_session
                (total_estimated_cost_usd context.records)
              ≡ false))
  unfolding policy_stop
  policy_stop-none cancelled at context steps failures = (
    λ e. (ground arith, ground arith, ground arith, ground arith, ground arith),
    λ c. ground arith,
  )
