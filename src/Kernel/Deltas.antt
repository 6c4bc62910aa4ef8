-- ===== src/Kernel/Deltas.antt =====
-- rain-engine-core/src/engine.rs: what `derive_state_delta` makes of the events of an advance.
use mathlib.Core.List.{append_assoc, append-nil}
use rain_engine.Prelude.{◌≡◌, ◌∙◌, refl, sym, ap, none, some, List, [], ◌∷◌, ◌++◌}
use rain_engine.Host.{Host}
use rain_engine.Types.Events.{KernelEvent, KernelEventRecord}
use rain_engine.Types.Requests.{AgentStateDelta}
use rain_engine.Kernel.{note_delta, delta_from, derive_state_delta, no_delta}

-- One delta after another.
abbrev pub joined_delta : AgentStateDelta → AgentStateDelta → AgentStateDelta
joined_delta c d = record {
  created_goal_ids = c.created_goal_ids ++ d.created_goal_ids;
  updated_task_ids = c.updated_task_ids ++ d.updated_task_ids;
  observation_ids = c.observation_ids ++ d.observation_ids;
  artifact_ids = c.artifact_ids ++ d.artifact_ids;
  delegation_correlation_ids = c.delegation_correlation_ids ++ d.delegation_correlation_ids;
}

joined_no_delta : (d : AgentStateDelta) → joined_delta d no_delta ≡ d
joined_no_delta d = simp (append-nil)

module _ {h : Host} where
  note_delta-joined_delta :
      (c d : AgentStateDelta) (e : KernelEvent h)
      → note_delta (joined_delta c d) e ≡ joined_delta c (note_delta d e)
  unfolding note_delta
  note_delta-joined_delta c d (KernelEvent.goal_created g) = rw (append_assoc) refl
  note_delta-joined_delta c d (KernelEvent.task_planned t) = rw (append_assoc) refl
  note_delta-joined_delta c d (KernelEvent.task_claimed id at assignee) = rw (append_assoc) refl
  note_delta-joined_delta c d (KernelEvent.task_blocked id at reason) = rw (append_assoc) refl
  note_delta-joined_delta c d (KernelEvent.task_completed id at ids) = rw (append_assoc) refl
  note_delta-joined_delta c d (KernelEvent.task_failed id at reason) = rw (append_assoc) refl
  note_delta-joined_delta c d (KernelEvent.task_abandoned id at reason) = rw (append_assoc) refl
  note_delta-joined_delta c d (KernelEvent.human_input_requested (some id) at prompt token) =
      rw (append_assoc) refl
  note_delta-joined_delta c d (KernelEvent.human_input_requested none at prompt token) = refl
  note_delta-joined_delta c d (KernelEvent.observation_appended o) = rw (append_assoc) refl
  note_delta-joined_delta c d (KernelEvent.artifact_produced a) = rw (append_assoc) refl
  note_delta-joined_delta c d (KernelEvent.delegation_requested r) = rw (append_assoc) refl
  note_delta-joined_delta c d (KernelEvent.delegation_resolved id at payload metadata) =
      rw (append_assoc) refl
  note_delta-joined_delta c d _ = refl

  delta_from-joined_delta :
      (c d : AgentStateDelta) (es : List (KernelEventRecord h))
      → delta_from (joined_delta c d) es ≡ joined_delta c (delta_from d es)
  unfolding delta_from
  delta_from-joined_delta c d [] = refl
  delta_from-joined_delta c d (e ∷ es) =
      ap (λ x. delta_from x es) (note_delta-joined_delta c d e.event)
      ∙ delta_from-joined_delta c (note_delta d e.event) es

  delta_from-append :
      (d : AgentStateDelta) (xs ys : List (KernelEventRecord h))
      → delta_from d (xs ++ ys) ≡ delta_from (delta_from d xs) ys
  unfolding delta_from
  delta_from-append d [] ys = refl
  delta_from-append d (x ∷ xs) ys = delta_from-append (note_delta d x.event) xs ys

  -- The delta of events that come in two parts is the delta of the first part, with that of the
  -- second behind it in each of its lists.
  pub derive_state_delta-append :
      (xs ys : List (KernelEventRecord h))
      → derive_state_delta (xs ++ ys) ≡ joined_delta (derive_state_delta xs) (derive_state_delta ys)
  unfolding derive_state_delta
  derive_state_delta-append xs ys =
      delta_from-append no_delta xs ys
      ∙ ap (λ d. delta_from d ys) (sym (joined_no_delta (delta_from no_delta xs)))
      ∙ delta_from-joined_delta (delta_from no_delta xs) no_delta ys
