-- ===== src/Types/Ids.antt =====
-- rain-engine-core/src/types.rs: identifiers and time. A newtype over `String` is a record of one
-- field. `SystemTime` and `Instant` are nanoseconds since the Unix epoch and since the start.
use rain_engine.Prelude.{ℕ, String, Bool, Option, ◌/◌, str_eq}
use rain_engine.Prelude.Int.{ℤ, as_i64}

abbrev pub SystemTime : Type 0
SystemTime = ℕ

abbrev pub Instant : Type 0
Instant = ℕ

-- Milliseconds since the epoch, truncated to `i64` as `as` does.
unfoldable pub unix_time_ms : SystemTime → ℤ
unix_time_ms value = as_i64 (value / 1000000)

pub record ResumeToken : Type 0 where
  pub text : String

pub record CorrelationId : Type 0 where
  pub text : String

pub record AgentId : Type 0 where
  pub text : String

pub record GoalId : Type 0 where
  pub text : String

pub record TaskId : Type 0 where
  pub text : String

pub record ArtifactId : Type 0 where
  pub text : String

pub record ObservationId : Type 0 where
  pub text : String

pub record WakeId : Type 0 where
  pub text : String

pub record ResourceRef : Type 0 where
  pub resource_id : String
  pub resource_type : String
  pub label : String
  pub external_ref : Option String

pub record RelationshipEdge : Type 0 where
  pub from_resource_id : String
  pub to_resource_id : String
  pub relation : String
  pub observed_at : SystemTime

-- `==` on the derived `PartialEq` of a newtype
abbrev pub task_id_eq : TaskId → TaskId → Bool
task_id_eq a b = str_eq a.text b.text

abbrev pub goal_id_eq : GoalId → GoalId → Bool
goal_id_eq a b = str_eq a.text b.text

abbrev pub artifact_id_eq : ArtifactId → ArtifactId → Bool
artifact_id_eq a b = str_eq a.text b.text

abbrev pub wake_id_eq : WakeId → WakeId → Bool
wake_id_eq a b = str_eq a.text b.text

abbrev pub token_eq : ResumeToken → ResumeToken → Bool
token_eq a b = str_eq a.text b.text
