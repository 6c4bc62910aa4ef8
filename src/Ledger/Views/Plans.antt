-- ===== src/Ledger/Views/Plans.antt =====
-- Execution plans: the step that rain-engine-core/src/engine.rs `perform_single_step` takes from
-- the active plan, and which plan is active after it.
use rain_engine.Prelude.{
  ℕ, zero, suc, ◌≢◌, ◌+◌, ◌≤◌, ◌<◌, ◌≡◌, ◌∙◌, Option, none, some, List, [], ◌∷◌, ◌++◌, length,
  get_elem?, rfind_map-append, Option-cases, inl, inr, refl, leb, if◌then◌else◌, arith,
}
use mathlib.Core.Option
use rain_engine.Host.{Host}
use rain_engine.Types.Ids.{SystemTime}
use rain_engine.Types.Actions.{AgentAction, ExecutionPlanRecord}
use rain_engine.Types.Records.{SessionRecord}
use rain_engine.Ledger.Views.{open_plan, active_execution_plan}

in_range : {A : Type 0} (xs : List A) (i : ℕ) → i < length xs → get_elem? xs i ≢ none
in_range [] i l = absurd (omega arith)
in_range (x ∷ xs) zero l = λ e. cc
in_range (x ∷ xs) (suc i) l = in_range xs i (omega arith)

module _ {h : Host} where
  -- The plan's record after a step: the index moves on, and the record is complete at the end.
  unfoldable pub advance_plan : SystemTime → ExecutionPlanRecord h → ExecutionPlanRecord h
  advance_plan now p = record p {
    current_step_index = p.current_step_index + 1;
    completed_at =
        if leb (length p.steps) (p.current_step_index + 1) then some now else p.completed_at;
  }

  -- The action of the active plan, if its index is in range, with the plan's next record.
  unfoldable pub plan_step :
      SystemTime → List (SessionRecord h) → Option (AgentAction h × ExecutionPlanRecord h)
  unfolding advance_plan
  plan_step now records = elim (active_execution_plan records) [
    | none ↦ none
    | some p ↦ elim (get_elem? p.steps p.current_step_index) [
      | none ↦ none
      | some action ↦ some (action, advance_plan now p)
    ]
  ]

  -- A step by the active plan.
  plan_step_of :
      (now : SystemTime) (rs : List (SessionRecord h)) (p : ExecutionPlanRecord h)
      → active_execution_plan rs ≡ some p
      → plan_step now rs ≡ elim (get_elem? p.steps p.current_step_index) [
        | none ↦ none
        | some action ↦ some (action, advance_plan now p)
      ]
  unfolding plan_step
  plan_step_of now rs p a = rw (a, plan_step) refl

  -- What a step of the active plan that is not its last one leaves.
  plan_step_next :
      (now : SystemTime) (rs : List (SessionRecord h)) (p next : ExecutionPlanRecord h)
      (action : AgentAction h)
      → active_execution_plan rs ≡ some p
      → p.current_step_index + 1 < length p.steps
      → plan_step now rs ≡ some (action, next)
      → next ≡ record p { current_step_index = p.current_step_index + 1 }
  unfolding advance_plan
  plan_step_next now rs p next action a l taken =
      let step = plan_step_of now rs p a in
      elim (Option-cases (get_elem? p.steps p.current_step_index)) [
        | inl e ↦ ground (arith, step, e)
        | inr (b, e) ↦ ground (arith, step, e)
      ]

  active_plan_open :
      (rs : List (SessionRecord h)) (p : ExecutionPlanRecord h)
      → p.completed_at ≡ none
      → let moved = record p { current_step_index = p.current_step_index + 1 } in
        active_execution_plan (rs ++ SessionRecord.execution_plan moved ∷ []) ≡ some moved
  unfolding active_execution_plan
  active_plan_open rs p o = rfind_map-append open_plan rs _ ∙ ground arith

  next_action :
      (now : SystemTime) (rs : List (SessionRecord h)) (p : ExecutionPlanRecord h)
      → active_execution_plan rs ≡ some p
      → Option.map (λ (t : AgentAction h × ExecutionPlanRecord h). t.0) (plan_step now rs)
        ≡ get_elem? p.steps p.current_step_index
  unfolding advance_plan
  next_action now rs p a =
      rw (plan_step_of now rs p a, Option.map)
        (elim (Option-cases (get_elem? p.steps p.current_step_index)) [
          | inl e ↦ rw (e) refl
          | inr (b, e) ↦ rw (e) refl
        ])

  -- A step of the active plan that is not its last one: the record that the step leaves is the plan with
  -- its index moved on by one and nothing else changed, that is the active plan, and the next step takes
  -- the action behind the one taken.
  pub active_plan-advance :
      (now later : SystemTime) (rs : List (SessionRecord h)) (p next : ExecutionPlanRecord h)
      (action : AgentAction h)
      → active_execution_plan rs ≡ some p
      → p.completed_at ≡ none
      → p.current_step_index + 1 < length p.steps
      → plan_step now rs ≡ some (action, next)
      → (active_execution_plan (rs ++ SessionRecord.execution_plan next ∷ [])
          ≡ some (record p { current_step_index = p.current_step_index + 1 }))
        × (Option.map
              (λ (t : AgentAction h × ExecutionPlanRecord h). t.0)
              (plan_step later (rs ++ SessionRecord.execution_plan next ∷ []))
            ≡ get_elem? p.steps (p.current_step_index + 1))
  active_plan-advance now later rs p next action a o l taken =
      let left : next ≡ record p { current_step_index = p.current_step_index + 1 } =
        plan_step_next now rs p next action a l taken in
      let active = active_plan_open rs p o in
      (rw left active, rw left (next_action later _ _ active))

  active_plan_complete :
      (now : SystemTime) (rs : List (SessionRecord h)) (p : ExecutionPlanRecord h)
      → length p.steps ≤ p.current_step_index + 1
      → active_execution_plan (rs ++ SessionRecord.execution_plan (advance_plan now p) ∷ [])
        ≡ active_execution_plan rs
  unfolding active_execution_plan advance_plan
  active_plan_complete now rs p l = rfind_map-append open_plan rs _ ∙ ground arith

  -- The plan's last step: the record that completes the plan leaves the record before it active, so
  -- the next advance takes the same last step again, with the same next record.
  pub last_plan_step_repeats :
      (now later : SystemTime) (rs : List (SessionRecord h)) (p : ExecutionPlanRecord h)
      → active_execution_plan rs ≡ some p
      → p.current_step_index + 1 ≡ length p.steps
      → (plan_step later (rs ++ SessionRecord.execution_plan (advance_plan now p) ∷ [])
          ≡ plan_step later rs)
        × (plan_step later rs ≢ none)
  unfolding plan_step
  last_plan_step_repeats now later rs p a l = (
    rw (active_plan_complete now rs p (omega arith), plan_step),
    rw (a, plan_step) (ground (arith, in_range p.steps p.current_step_index)),
  )
