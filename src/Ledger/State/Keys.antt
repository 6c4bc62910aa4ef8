-- ===== src/Ledger/State/Keys.antt =====
-- The identifiers of the projected goals, tasks, artifacts and resources are distinct.
use rain_engine.Prelude.{
  ◌≡◌, refl, String, Bool, true, ◌&&◌, ◌||◌, not, none, some, List, [], ◌∷◌, any, str_eq, eq_iff,
  arith,
}
use rain_engine.Host.{Host}
use rain_engine.Types.Ids.{TaskId}
use rain_engine.Types.Events.{TaskRecord, KernelEvent, KernelEventRecord}
use rain_engine.Types.Records.{SessionRecord}
use rain_engine.Ledger.Views.{kernel_events}
use rain_engine.Ledger.State.{
  upsert_by_key, change_task, note_event, project, agent_state, Projected, nothing_yet, goal_key,
  task_key, artifact_key, resource_key,
}

module _ {ℓ} {A : Type ℓ} (key : A → String) where
  abbrev pub has_key : String → List A → Bool
  has_key k xs = any (λ x. str_eq (key x) k) xs

  abbrev pub distinct : List A → Bool
  distinct [] = true
  distinct (x ∷ xs) = not (has_key (key x) xs) && distinct xs

  has_key-upsert_by_key :
      (k : String) (xs : List A) (v : A)
      → has_key k (upsert_by_key key xs v) ≡ (has_key k xs || str_eq (key v) k)
  unfolding upsert_by_key
  has_key-upsert_by_key k [] v = ground arith
  has_key-upsert_by_key k (x ∷ xs) v = ground (
    arith,
    eq_iff (key x) (key v),
    eq_iff (key x) k,
    eq_iff (key v) k,
    has_key-upsert_by_key k xs v,
  )

  distinct-upsert_by_key :
      (xs : List A) (v : A) → distinct xs ≡ true → distinct (upsert_by_key key xs v) ≡ true
  unfolding upsert_by_key
  distinct-upsert_by_key [] v d = refl
  distinct-upsert_by_key (x ∷ xs) v d = ground (
    arith,
    eq_iff (key x) (key v),
    eq_iff (key v) (key x),
    has_key-upsert_by_key (key x) xs v,
    distinct-upsert_by_key xs v,
  )

-- The lists of the state whose items have an identifier.
abbrev DistinctKeys : {h : Host} → Projected h → Type 0
DistinctKeys p =
    (distinct goal_key p.goals ≡ true)
    × (distinct task_key p.tasks ≡ true)
    × (distinct artifact_key p.artifacts ≡ true)
    × (distinct resource_key p.resources ≡ true)

has_key-change_task :
    (k : String) (i : TaskId) (f : TaskRecord → TaskRecord) (ts : List TaskRecord)
    → ((t : TaskRecord) → (f t).task_id.text ≡ t.task_id.text)
    → has_key task_key k (change_task i f ts) ≡ has_key task_key k ts
unfolding change_task
has_key-change_task k i f [] same = refl
has_key-change_task k i f (t ∷ ts) same = ground (arith, same t, has_key-change_task k i f ts same)

distinct-change_task :
    (i : TaskId) (f : TaskRecord → TaskRecord) (ts : List TaskRecord)
    → ((t : TaskRecord) → (f t).task_id.text ≡ t.task_id.text)
    → distinct task_key ts ≡ true
    → distinct task_key (change_task i f ts) ≡ true
unfolding change_task
distinct-change_task i f [] same d = refl
distinct-change_task i f (t ∷ ts) same d = ground (
  arith,
  same t,
  has_key-change_task t.task_id.text i f ts same,
  distinct-change_task i f ts same,
)

module _ {h : Host} where
  -- A change of a task that keeps its identifier.
  DistinctKeys-change_task :
      (p : Projected h) (i : TaskId) (f : TaskRecord → TaskRecord)
      → ((t : TaskRecord) → (f t).task_id.text ≡ t.task_id.text)
      → DistinctKeys p
      → DistinctKeys (record p { tasks = change_task i f p.tasks })
  DistinctKeys-change_task p i f same d = (d.0, distinct-change_task i f p.tasks same d.1, d.2, d.3)

  note_event-DistinctKeys :
      (p : Projected h) (e : KernelEvent h) → DistinctKeys p → DistinctKeys (note_event p e)
  unfolding note_event
  note_event-DistinctKeys p (KernelEvent.goal_created g) d =
      (distinct-upsert_by_key goal_key p.goals g d.0, d.1, d.2, d.3)
  note_event-DistinctKeys p (KernelEvent.task_planned t) d =
      (d.0, distinct-upsert_by_key task_key p.tasks t d.1, d.2, d.3)
  note_event-DistinctKeys p (KernelEvent.task_claimed i at a) d =
      DistinctKeys-change_task p i _ (λ t. refl) d
  note_event-DistinctKeys p (KernelEvent.task_blocked i at r) d =
      DistinctKeys-change_task p i _ (λ t. refl) d
  note_event-DistinctKeys p (KernelEvent.task_completed i at r) d =
      DistinctKeys-change_task p i _ (λ t. refl) d
  note_event-DistinctKeys p (KernelEvent.task_failed i at r) d =
      DistinctKeys-change_task p i _ (λ t. refl) d
  note_event-DistinctKeys p (KernelEvent.task_abandoned i at r) d =
      DistinctKeys-change_task p i _ (λ t. refl) d
  note_event-DistinctKeys p (KernelEvent.human_input_requested (some i) at q r) d =
      DistinctKeys-change_task p i _ (λ t. refl) d
  note_event-DistinctKeys p (KernelEvent.human_input_requested none at q r) d = d
  note_event-DistinctKeys p (KernelEvent.artifact_produced a) d =
      (d.0, d.1, distinct-upsert_by_key artifact_key p.artifacts a d.2, d.3)
  note_event-DistinctKeys p (KernelEvent.delegation_requested g) d =
      (d.0, d.1, d.2, distinct-upsert_by_key resource_key p.resources _ d.3)
  note_event-DistinctKeys p (KernelEvent.resource_registered r) d =
      (d.0, d.1, d.2, distinct-upsert_by_key resource_key p.resources r d.3)
  note_event-DistinctKeys p (KernelEvent.observation_appended o) d = d
  note_event-DistinctKeys p (KernelEvent.relationship_observed o) d = d
  note_event-DistinctKeys p (KernelEvent.wake_requested o) d = d
  note_event-DistinctKeys p (KernelEvent.wake_scheduled o) d = d
  note_event-DistinctKeys p (KernelEvent.wake_completed o at r) d = d
  note_event-DistinctKeys p (KernelEvent.delegation_resolved i at v m) d = d
  note_event-DistinctKeys p (KernelEvent.memory_searched q n) d = d
  note_event-DistinctKeys p (KernelEvent.memory_archived q) d = d

  project-DistinctKeys :
      (p : Projected h) (es : List (KernelEventRecord h))
      → DistinctKeys p
      → DistinctKeys (project p es)
  unfolding project
  project-DistinctKeys p [] d = d
  project-DistinctKeys p (e ∷ es) d =
      project-DistinctKeys (note_event p e.event) es (note_event-DistinctKeys p e.event d)

  -- Whatever the ledger holds, no two goals, no two tasks, no two artifacts and no two resources of
  -- the state have the same identifier.
  pub agent_state-distinct :
      (session_id : String) (rs : List (SessionRecord h))
      → let s = agent_state session_id rs in
        (distinct goal_key s.goals ≡ true)
        × (distinct task_key s.tasks ≡ true)
        × (distinct artifact_key s.artifacts ≡ true)
        × (distinct resource_key s.resources ≡ true)
  unfolding agent_state
  agent_state-distinct session_id rs =
      project-DistinctKeys (nothing_yet h) (kernel_events rs) (refl, refl, refl, refl)
