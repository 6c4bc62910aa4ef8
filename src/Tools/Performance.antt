-- ===== src/Tools/Performance.antt =====
-- rain-engine-core/src/engine.rs: `summarize_tool_performance`.
pub mod Counts
use rain_engine.Prelude.{
  ℕ, ◌+◌, String, Bool, true, false, Option, none, some, List, [], ◌∷◌, ◌==◌, if◌then◌else◌,
}
use rain_engine.Prelude.Text.{concat}
use rain_engine.Prelude.Assoc
use rain_engine.Prelude.Assoc.{Assoc}
use rain_engine.Host.{Host}
use rain_engine.Types.Ids.{SystemTime}
use rain_engine.Types.Tools.{SkillBackendKind, is_ok}
use rain_engine.Types.Improvement.{ToolPerformanceRecord}
use rain_engine.Types.Records.{SessionRecord}
use rain_engine.World.{Outside}
use rain_engine.World.Exec.{Exec, pure, new_uuid, now, ◌>>=◌}

-- `{:?}` of a backend kind
abbrev backend_name : SkillBackendKind → String
backend_name SkillBackendKind.wasm = "Wasm"
backend_name SkillBackendKind.native = "Native"

abbrev named_backend : Option SkillBackendKind → String
named_backend none = "unknown"
named_backend (some kind) = backend_name kind

-- The tuple of the map `grouped`.
pub record Tally : Type 0 where
  pub backend : String
  pub calls : ℕ
  pub successes : ℕ
  pub failures : ℕ

abbrev pub first_tally : String → Option Tally → Tally
first_tally backend none = record { backend = backend; calls = 0; successes = 0; failures = 0 }
first_tally backend (some t) = t

abbrev pub counted : Bool → Tally → Tally
counted true t = record t { calls = t.calls + 1; successes = t.successes + 1 }
counted false t = record t { calls = t.calls + 1; failures = t.failures + 1 }

unfoldable pub failure_rate : (h : Host) → Tally → h.F64
failure_rate h t =
    if t.calls == 0 then h.lit 0 0 else h.fdiv (h.of_usize t.failures) (h.of_usize t.calls)

module _ {h : Host} where
  -- The map from call ids to the backends of the calls: a later call of the same id replaces an
  -- earlier one.
  unfoldable pub backends_from :
      Assoc SkillBackendKind → List (SessionRecord h) → Assoc SkillBackendKind
  backends_from m [] = m
  backends_from m (SessionRecord.tool_call c ∷ rs) =
      backends_from (Assoc.insert c.call_id c.backend_kind m) rs
  backends_from m (_ ∷ rs) = backends_from m rs

  -- One round of the loop over the records.
  unfoldable pub note_result : Assoc SkillBackendKind → Assoc Tally → SessionRecord h → Assoc Tally
  note_result backends grouped (SessionRecord.tool_result r) =
      Assoc.insert r.skill_name
        (counted (is_ok r.output) (
          first_tally (named_backend (Assoc.get r.call_id backends))
            (Assoc.get r.skill_name grouped)))
        grouped
  note_result backends grouped _ = grouped

  unfoldable pub grouped_from :
      Assoc SkillBackendKind → Assoc Tally → List (SessionRecord h) → Assoc Tally
  unfolding note_result
  grouped_from backends grouped [] = grouped
  grouped_from backends grouped (r ∷ rs) = grouped_from backends (note_result backends grouped r) rs

  unfoldable pub grouped_results : List (SessionRecord h) → Assoc Tally
  unfolding backends_from grouped_from
  grouped_results records = grouped_from (backends_from [] records) [] records

  abbrev pub performance_of : String × SystemTime → String × Tally → ToolPerformanceRecord h
  performance_of (id, at) (name, t) = record {
    performance_id = id;
    created_at = at;
    skill_name = name;
    backend_kind = t.backend;
    calls = t.calls;
    successes = t.successes;
    failures = t.failures;
    failure_rate = failure_rate h t;
  }

module _ {h : Host} (outside : Outside h) where
  -- Every record has an identifier and a time of its own.
  unfoldable pub performances : Assoc Tally → Exec h (List (ToolPerformanceRecord h))
  unfolding failure_rate pure new_uuid now ◌>>=◌
  performances [] = pure []
  performances (entry ∷ entries) = do
    id ← new_uuid outside
    at ← now outside
    rest ← performances entries
    pure (performance_of (concat ("tool-performance-" ∷ id ∷ []), at) entry ∷ rest)

  unfoldable pub summarize_tool_performance :
      List (SessionRecord h) → Exec h (List (ToolPerformanceRecord h))
  unfolding grouped_results performances
  summarize_tool_performance records = performances (grouped_results records)
