-- ===== src/Tools/Attempts/Pauses.antt =====
-- The pauses between the attempts at a call.
use rain_engine.Prelude.{
  ℕ, zero, suc, ◌+◌, ◌≤◌, ◌≡◌, refl, inl, inr, true, length, all, leb, max, arith, Bool-cases,
}
use rain_engine.Host.{Host}
use rain_engine.Types.Policy.{RetryPolicy}
use rain_engine.Types.Tools.{SkillFailure, Result}
use rain_engine.Tools.Attempts.{
  PreparedCall, Attempts, attempt_loop, attempts_at, next_interval, after_pause, executor,
  invocation_of, not_attempted,
}
use rain_engine.Tools.Attempts.Bounds.{stops, goes_on}

module _ {h : Host} where
  -- One pause between each two attempts, and none longer than `bound`.
  abbrev Paced : ℕ → Attempts h → Type 0
  Paced bound a = (length a.pauses + 1 ≡ a.executions) × (all (λ ms. leb ms bound) a.pauses ≡ true)

  next_interval_bounded :
      (policy : RetryPolicy h) (ms : ℕ) → next_interval policy ms ≤ policy.max_interval_ms
  unfolding next_interval
  next_interval_bounded policy ms = omega arith

  Paced-later :
      (bound ms : ℕ) (a : Attempts h) → ms ≤ bound → Paced bound a → Paced bound (after_pause ms a)
  Paced-later bound ms a b p = (let n = p.0 in omega arith, ground (arith, p.1))

  attempt_loop-Paced :
      (policy : RetryPolicy h) (answer : ℕ → Result h.Value SkillFailure) (left attempt ms : ℕ)
      (output : Result h.Value SkillFailure) (bound : ℕ)
      → 1 ≤ left
      → policy.max_attempts ≡ attempt + left
      → ms ≤ bound
      → policy.max_interval_ms ≤ bound
      → Paced bound (attempt_loop policy answer left attempt ms output)
  unfolding attempt_loop
  attempt_loop-Paced policy answer zero attempt ms output bound l m b c = absurd (omega arith)
  attempt_loop-Paced policy answer (suc left) attempt ms output bound l m b c =
      elim (Bool-cases (stops policy (answer attempt) attempt)) [
        | inl s ↦ rw (s) (refl, refl)
        | inr s ↦
            let later =
              attempt_loop-Paced policy answer left (attempt + 1) (next_interval policy ms)
                (answer attempt) bound (goes_on policy (answer attempt) left attempt m s).1
                (omega arith) (let n = next_interval_bounded policy ms in omega arith) c in
            rw (s) (
              Paced-later bound ms
                (attempt_loop policy answer left (attempt + 1) (next_interval policy ms)
                  (answer attempt))
                b later)
      ]

  -- Under a policy of at least one attempt there is one pause between each two attempts at a call,
  -- and none is longer than the first interval or the policy's limit.
  pub attempts_at-pauses :
      (p : PreparedCall h)
      → 1 ≤ p.retry_policy.max_attempts
      → (length (attempts_at p).pauses + 1 ≡ (attempts_at p).executions)
        × (all
              (λ ms. leb ms (max p.retry_policy.initial_interval_ms p.retry_policy.max_interval_ms))
              (attempts_at p).pauses
            ≡ true)
  unfolding attempts_at
  attempts_at-pauses p l =
      attempt_loop-Paced p.retry_policy (executor p.backend (invocation_of p))
        p.retry_policy.max_attempts 0 p.retry_policy.initial_interval_ms not_attempted _ l
        (omega arith) (omega arith) (omega arith)
