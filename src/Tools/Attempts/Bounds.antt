-- ===== src/Tools/Attempts/Bounds.antt =====
-- How many attempts a call gets, and which answer it returns.
use rain_engine.Prelude.{
  ℕ, zero, suc, ◌+◌, ◌-◌, ◌≤◌, ◌<◌, ◌≡◌, refl, Bool, true, false, ◌||◌, not, [], leb, arith,
  Bool-cases, inl, inr, sym,
}
use rain_engine.Host.{Host}
use rain_engine.Types.Policy.{RetryPolicy}
use rain_engine.Types.Tools.{SkillFailure, Result, ok, err, is_ok}
use rain_engine.Tools.Attempts.{
  PreparedCall, Attempts, attempt_loop, attempts_at, is_retryable_skill_error, executor,
  next_interval, after_pause, invocation_of, not_attempted,
}

-- Attempt `n` is answered by an error that may be tried again.
abbrev pub Retries {ℓ} : {A : Type ℓ} → (ℕ → Result A SkillFailure) → ℕ → Type 0
Retries answer n = is_retryable_skill_error (answer n) ≡ true

-- What the attempts from number `first` on did: there was at least one and there were at most
-- `left`; the output is the last answer; every answer before it was an error that may be tried
-- again; and if it may itself be tried again, no attempt was left.
pub record Tried {h : Host} (answer : ℕ → Result h.Value SkillFailure) (first left : ℕ)
    (a : Attempts h) : Type 0 where
  pub some_made : 1 ≤ a.executions
  pub within : a.executions ≤ left
  pub last_answer : a.output ≡ answer (first + (a.executions - 1))
  pub earlier : (i : ℕ) → suc i < a.executions → Retries answer (first + i)
  pub exhausted : is_retryable_skill_error a.output ≡ true → a.executions ≡ left

module _ {h : Host} where
  -- The loop's test against another attempt.
  abbrev pub stops : RetryPolicy h → Result h.Value SkillFailure → ℕ → Bool
  stops policy answered attempt =
      is_ok answered
      || (not (is_retryable_skill_error answered) || leb policy.max_attempts (attempt + 1))

  stops-exhausted :
      (policy : RetryPolicy h) (answered : Result h.Value SkillFailure) (left attempt : ℕ)
      → policy.max_attempts ≡ attempt + suc left
      → stops policy answered attempt ≡ true
      → is_retryable_skill_error answered ≡ true
      → left ≡ 0
  unfolding is_retryable_skill_error
  stops-exhausted policy (ok v) left attempt m s r = ground arith
  stops-exhausted policy (err e) left attempt m s r = ground arith

  pub goes_on :
      (policy : RetryPolicy h) (answered : Result h.Value SkillFailure) (left attempt : ℕ)
      → policy.max_attempts ≡ attempt + suc left
      → stops policy answered attempt ≡ false
      → (is_retryable_skill_error answered ≡ true) × (1 ≤ left)
  unfolding is_retryable_skill_error
  goes_on policy (ok v) left attempt m s = ground arith
  goes_on policy (err e) left attempt m s = ground arith

-- A retryable answer, known under another number.
Retries-cong {ℓ} :
    {A : Type ℓ} (answer : ℕ → Result A SkillFailure) (m n : ℕ)
    → m ≡ n
    → Retries answer m
    → Retries answer n
Retries-cong answer m n e r = rw (sym e) r

earlier_with_first {ℓ} :
    {A : Type ℓ} (answer : ℕ → Result A SkillFailure) (first executions : ℕ)
    → Retries answer first
    → ((i : ℕ) → suc i < executions → Retries answer (first + 1 + i))
    → (i : ℕ) → suc i < suc executions
    → Retries answer (first + i)
earlier_with_first answer first executions r later zero b =
    Retries-cong answer first (first + zero) (omega arith) r
earlier_with_first answer first executions r later (suc i) b =
    Retries-cong answer (first + 1 + i) (first + suc i) (omega arith) (later i (omega arith))

last_answer_later {ℓ} :
    {A : Type ℓ} (answer : ℕ → A) (first executions : ℕ) (output : A)
    → 1 ≤ executions
    → output ≡ answer (first + 1 + (executions - 1))
    → output ≡ answer (first + (suc executions - 1))
last_answer_later answer first executions output s e =
    let n : first + (suc executions - 1) ≡ first + 1 + (executions - 1) = omega arith in rw (n) e

module _ {h : Host} where
  Tried-once :
      (answer : ℕ → Result h.Value SkillFailure) (first left : ℕ)
      → (is_retryable_skill_error (answer first) ≡ true → left ≡ 0)
      → Tried {h = h} answer first
          (suc left)
          (record { output = answer first; executions = 1; pauses = [] })
  Tried-once answer first left e = record {
    some_made = omega arith;
    within = omega arith;
    last_answer = let z : first + (1 - 1) ≡ first = omega arith in rw (z) refl;
    earlier = λ i b. absurd (omega arith);
    exhausted = λ x. let z = e x in omega arith;
  }

  Tried-later :
      (answer : ℕ → Result h.Value SkillFailure) (first left ms : ℕ) (a : Attempts h)
      → Retries answer first
      → Tried answer (first + 1) left a
      → Tried answer first (suc left) (after_pause ms a)
  Tried-later answer first left ms a r t = record {
    some_made = omega arith;
    within = let w = t.within in omega arith;
    last_answer = last_answer_later answer first a.executions a.output t.some_made t.last_answer;
    earlier = earlier_with_first answer first a.executions r t.earlier;
    exhausted = λ x. let e = t.exhausted x in omega arith;
  }

  -- While the number of the attempt and the attempts left make up the policy's limit, the loop
  -- keeps to it.
  attempt_loop-Tried :
      (policy : RetryPolicy h) (answer : ℕ → Result h.Value SkillFailure) (left attempt ms : ℕ)
      (output : Result h.Value SkillFailure)
      → 1 ≤ left
      → policy.max_attempts ≡ attempt + left
      → Tried answer attempt left (attempt_loop policy answer left attempt ms output)
  unfolding attempt_loop
  attempt_loop-Tried policy answer zero attempt ms output l m = absurd (omega arith)
  attempt_loop-Tried policy answer (suc left) attempt ms output l m =
      elim (Bool-cases (stops policy (answer attempt) attempt)) [
        | inl s ↦ rw (s) (
            Tried-once answer attempt left
              (stops-exhausted policy (answer attempt) left attempt m s))
        | inr s ↦
            let g = goes_on policy (answer attempt) left attempt m s in
            rw (s) (
              Tried-later answer attempt left ms _ g.0 (
                attempt_loop-Tried policy answer left (attempt + 1) (next_interval policy ms)
                  (answer attempt) g.1 (omega arith)))
      ]

  -- What the executor answers to each attempt at a prepared call.
  abbrev pub answers : PreparedCall h → ℕ → Result h.Value SkillFailure
  answers p = executor p.backend (invocation_of p)

  -- Under a policy of at least one attempt, a call is attempted at least once and at most as often
  -- as the policy allows; its output is the answer to its last attempt; every answer before that one
  -- was an error that may be tried again; and if the output itself is such an error, the policy's
  -- attempts are used up.
  pub attempts_at-Tried :
      (p : PreparedCall h)
      → 1 ≤ p.retry_policy.max_attempts
      → Tried (answers p) 0 p.retry_policy.max_attempts (attempts_at p)
  unfolding attempts_at
  attempts_at-Tried p l =
      attempt_loop-Tried p.retry_policy (answers p) p.retry_policy.max_attempts 0
        p.retry_policy.initial_interval_ms not_attempted l (omega arith)
